-- ===== src/WorkQueue/Worker.antt =====
-- The worker among the threads at a work queue.
use libfiber.Prelude.{
  ℕ, ◌+◌, ◌^◌, ◌≤◌, ◌<◌, ◌≡◌, ◌≢◌, ◌⊎◌, refl, ap, arith, Bool, true, false, List, [], ◌∷◌, length,
  length-append, if◌then◌else◌, update, dec_lt, lt→ltb, ge→ltb,
}
use libfiber.Population.{tally, tally-update, tally-some, tally-lone, tally-absent, weight-le-tally}
use libfiber.WorkQueue.{
  init, Pc, away, pushing, working, resetting, subtracting, System, Action, do_push, go, go_blocked,
  nothing, get_work, act, run,
}

-- The worker, from the push that makes it one on.
abbrev pub works : Pc → ℕ
works away = 0
works (pushing item start) = if start then 1 else 0
works _ = 1

abbrev pushes : Pc → ℕ
pushes (pushing item start) = 1
pushes _ = 0

-- What a worker is about to subtract.
abbrev owed : Pc → ℕ
owed (subtracting old) = old
owed _ = 0

record Inv (n : ℕ) (s : System) : Type 0 where
  exact :
      s.wq.in_count ≡ s.wq.out_count + tally owed n s.pc + length s.wq.fifo + tally pushes n s.pc
  worker :
      ((s.wq.in_count ≡ 0) × (tally works n s.pc ≡ 0))
      ⊎ ((0 < s.wq.in_count) × (tally works n s.pc ≡ 1))

record Sums (n i : ℕ) (pc : ℕ → Pc) (p : Pc) : Type 0 where
  working : tally works n (update pc i p) + works (pc i) ≡ tally works n pc + works p
  pushing : tally pushes n (update pc i p) + pushes (pc i) ≡ tally pushes n pc + pushes p
  owing : tally owed n (update pc i p) + owed (pc i) ≡ tally owed n pc + owed p
  enough : works (pc i) ≤ tally works n pc
  bounded : pushes (pc i) ≤ tally pushes n pc
  covered : owed (pc i) ≤ tally owed n pc

sums : (n i : ℕ) (pc : ℕ → Pc) (p : Pc) → i < n → Sums n i pc p
sums n i pc p h = record {
  working = tally-update works n i pc p h;
  pushing = tally-update pushes n i pc p h;
  owing = tally-update owed n i pc p h;
  enough = weight-le-tally works n i pc h;
  bounded = weight-le-tally pushes n i pc h;
  covered = weight-le-tally owed n i pc h;
}

-- A thread goes elsewhere: the counts that the sums then have.
module _ {n : ℕ} {s : System} (v : Inv n s) (i : ℕ) (h : i < n)
    (b : s.wq.in_count + 1 < 2 ^ 63) where
  push-Inv : (item : ℕ) → s.pc i ≡ away → Inv n (act (do_push item) away s i)
  unfolding act
  push-Inv item e =
      ground
        (arith, v, e, b, sums n i s.pc (pushing item true) h, sums n i s.pc (pushing item false) h)

  put-Inv :
      (item : ℕ) (start : Bool)
      → s.pc i ≡ pushing item start
      → Inv n (act go (pushing item start) s i)
  unfolding act
  put-Inv item true e =
      ground (arith, v, e, sums n i s.pc working h, length-append s.wq.fifo (item ∷ []))
  put-Inv item false e =
      ground (arith, v, e, sums n i s.pc away h, length-append s.wq.fifo (item ∷ []))

  nothing-Inv : s.pc i ≡ working → Inv n (nothing s i)
  nothing-Inv e = ground (arith, v, e, sums n i s.pc resetting h)

  get-Inv : (items : List ℕ) → s.wq.fifo ≡ items → s.pc i ≡ working → Inv n (get_work items s i)
  get-Inv [] f e = nothing-Inv e
  get-Inv (item ∷ rest) f e = ground (arith, v, e, b, ap length f, sums n i s.pc working h)

  reset-Inv : s.pc i ≡ resetting → Inv n (act go resetting s i)
  unfolding act
  reset-Inv e = ground (arith, v, e, b, sums n i s.pc (subtracting s.wq.out_count) h)

  subtract-Inv : (old : ℕ) → s.pc i ≡ subtracting old → Inv n (act go (subtracting old) s i)
  unfolding act
  subtract-Inv old e = ground (arith, v, e, b, sums n i s.pc away h, sums n i s.pc working h)

  act-Inv : (a : Action) (p : Pc) → s.pc i ≡ p → Inv n (act a p s i)
  unfolding act
  act-Inv (do_push item) away e = push-Inv item e
  act-Inv go (pushing item start) e = put-Inv item start e
  act-Inv go working e = get-Inv s.wq.fifo refl e
  act-Inv go_blocked working e = nothing-Inv e
  act-Inv go resetting e = reset-Inv e
  act-Inv go (subtracting old) e = subtract-Inv old e
  act-Inv a p e = v

  nothing-count : (nothing s i).wq.in_count ≤ s.wq.in_count + 1
  nothing-count = ground arith

  get-count : (items : List ℕ) → (get_work items s i).wq.in_count ≤ s.wq.in_count + 1
  get-count [] = nothing-count
  get-count (item ∷ rest) = omega arith

  -- A step counts at most one item in.
  act-count : (a : Action) (p : Pc) → s.pc i ≡ p → (act a p s i).wq.in_count ≤ s.wq.in_count + 1
  unfolding act
  act-count (do_push item) away e = omega (arith, b)
  act-count go (pushing item start) e = omega arith
  act-count go working e = get-count s.wq.fifo
  act-count go_blocked working e = nothing-count
  act-count go resetting e = omega arith
  act-count go (subtracting old) e = ground (arith, v, b, sums n i s.pc away h, e)
  act-count a p e = omega arith

run-Inv :
    (n : ℕ) (l : List (ℕ × Action)) (s : System)
    → s.wq.in_count + length l < 2 ^ 63
    → Inv n s
    → Inv n (run n l s)
unfolding run
run-Inv n [] s b v = v
run-Inv n ((i, a) ∷ l) s b v = elim (dec_lt i n) [
  | yes h ↦ rw (lt→ltb i n h) (
      run-Inv n l (act a (s.pc i) s i)
        (omega (arith, act-count v i h (omega arith) a (s.pc i) refl))
        (act-Inv v i h (omega arith) a (s.pc i) refl))
  | no h ↦ rw (ge→ltb i n h) (run-Inv n l s (omega arith) v)
]

-- A queue as `init` leaves it, with all threads away.
pub record Initial (s : System) : Type 0 where
  pub fresh : s.wq ≡ init
  pub alone : (i : ℕ) → s.pc i ≡ away

Initial-Inv : (n : ℕ) (s : System) → Initial s → Inv n s
Initial-Inv n s z = ground (
  arith,
  z.fresh,
  tally-absent works away n s.pc refl z.alone,
  tally-absent pushes away n s.pc refl z.alone,
  tally-absent owed away n s.pc refl z.alone,
)

Initial-count : (s : System) → Initial s → s.wq.in_count ≡ 0
Initial-count s z = ap (λ w. w.in_count) (z.fresh)

-- In every schedule of fewer than 2^63 steps, two threads that are the worker are the same thread.
pub one_worker :
    (n : ℕ) (l : List (ℕ × Action)) (s : System) (i j : ℕ)
    → Initial s
    → length l < 2 ^ 63
    → i < n
    → j < n
    → works ((run n l s).pc i) ≡ 1
    → works ((run n l s).pc j) ≡ 1
    → i ≡ j
one_worker n l s i j z b hi hj wi wj = tally-lone works n i j (run n l s).pc hi hj (
    omega (
      arith,
      (run-Inv n l s (omega (arith, Initial-count s z)) (Initial-Inv n s z)).worker,
      wi,
      wj,
    ))

-- In every schedule of fewer than 2^63 steps at a work queue, while an item is in its FIFO, some thread
-- is the worker: none is left behind when a worker is told that the queue is empty.
pub item_has_worker :
    (n : ℕ) (l : List (ℕ × Action)) (s : System)
    → Initial s
    → length l < 2 ^ 63
    → (run n l s).wq.fifo ≢ []
    → (j : ℕ) × (j < n) × (0 < works ((run n l s).pc j))
item_has_worker n l s z b q = tally-some works n (run n l s).pc (
    some_works (run n l s) (run-Inv n l s (omega (arith, Initial-count s z)) (Initial-Inv n s z)) q)
  where
    positive : (xs : List ℕ) → xs ≢ [] → 0 < length xs
    positive [] h = absurd (h refl)
    positive (x ∷ xs) h = omega arith

    some_works : (t : System) → Inv n t → t.wq.fifo ≢ [] → 0 < tally works n t.pc
    some_works t v q = omega (arith, v, positive t.wq.fifo q)
