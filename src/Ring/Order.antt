-- ===== src/Ring/Order.antt =====
-- Every schedule at a ring.
use libfiber.Prelude.{
  length-append, ℕ, ◌+◌, ◌^◌, ◌≤◌, ◌<◌, ◌≡◌, refl, ap, sym, subst, ◌∙◌, arith, dec_lt, lt→ltb,
  ge→ltb, List, [], ◌∷◌, ◌++◌, length,
}
use libfiber.Ring.{create, size, Pc, away, System, Action, act, run}
use libfiber.Ring.Stages.{unused, Knows, Inv}
use libfiber.Ring.Turns.{size-pos, Holds, act-Holds}

act-high : (a : Action) (p : Pc) (s : System) (i : ℕ) → (act a p s i).ring.high ≤ s.ring.high + 1
unfolding act
act-high a p s i = ground arith

run-Holds :
    (n : ℕ) (l : List (ℕ × Action)) (s : System)
    → s.ring.high + length l < 2 ^ 64
    → Holds s
    → Holds (run n l s)
unfolding run
run-Holds n [] s b h = h
run-Holds n ((i, a) ∷ l) s b (st, w) = elim (dec_lt i n) [
  | yes m ↦ rw (lt→ltb i n m) (
      run-Holds n l (act a (s.pc i) s i) (omega (arith, act-high a (s.pc i) s i))
        (act-Holds w i (omega arith) a (s.pc i) refl))
  | no m ↦ rw (ge→ltb i n m) (run-Holds n l s (omega arith) (st, w))
]

-- A ring as `create` leaves it, before any call.
pub record Initial (power_of_2_size : ℕ) (s : System) : Type 0 where
  pub fresh : s.ring ≡ create power_of_2_size
  pub alone : (i : ℕ) → s.pc i ≡ away
  pub unput : s.put ≡ []
  pub untaken : s.taken ≡ []
  pub vacant : s.queue ≡ []

Initial-Inv : (p : ℕ) (s : System) → Initial p s → Inv (λ k. unused) s
Initial-Inv p s z = record {
  some = size-pos p s (z.fresh);
  order = ground (arith, z);
  room = ground (arith, z);
  count = ground (arith, z);
  history = ground (arith, z);
  staged = λ k. ground (arith, z);
  filled = λ k l b. tt;
  virgin = λ k l b. ground (arith, z);
  reuse = λ k l. absurd (omega (arith, ap (λ r. r.high) (z.fresh)));
  knows = λ i. subst (Knows (λ k. unused) s.ring s.queue i) (sym (z.alone i)) tt;
}

act-log_size :
    (a : Action) (p : Pc) (s : System) (i : ℕ) → (act a p s i).ring.log_size ≡ s.ring.log_size
unfolding act
act-log_size a p s i = ground arith

run-log_size :
    (n : ℕ) (l : List (ℕ × Action)) (s : System) → (run n l s).ring.log_size ≡ s.ring.log_size
unfolding run
run-log_size n [] s = refl
run-log_size n ((i, a) ∷ l) s = elim (dec_lt i n) [
  | yes m ↦
      rw (lt→ltb i n m, run) (run-log_size n l (act a (s.pc i) s i) ∙ act-log_size a (s.pc i) s i)
  | no m ↦ rw (ge→ltb i n m, run) (run-log_size n l s)
]

module _ {p : ℕ} {s : System} (z : Initial p s) (n : ℕ) (l : List (ℕ × Action))
    (b : length l < 2 ^ 64) where
  after : Holds (run n l s)
  after =
      run-Holds n l s (omega (arith, ap (λ r. r.high) (z.fresh))) (λ k. unused, Initial-Inv p s z)

  history_kept : (run n l s).taken ++ (run n l s).queue ≡ (run n l s).put
  history_kept = let (st, w) = after in w.history

  queue_short : length (run n l s).queue ≤ 2 ^ p
  queue_short =
      let (st, w) = after in
      let e : size (run n l s).ring ≡ 2 ^ p =
        ap (λ k. 2 ^ k) (run-log_size n l s ∙ ap (λ r. r.log_size) (z.fresh)) in
      omega (arith, w.count, w.room, e)

-- In every schedule of any number of threads and fewer than 2^64 steps, from a fresh ring, the values that
-- the pops take, in the order of their exchanges, are the first of the values that the pushes put, in the
-- order of theirs; the others are still in the ring.
pub taken_in_order :
    (p n : ℕ) (l : List (ℕ × Action)) (s : System)
    → Initial p s
    → length l < 2 ^ 64
    → (run n l s).taken ++ (run n l s).queue ≡ (run n l s).put
taken_in_order p n l s z b = history_kept z n l b

-- In every such schedule, the values that were put are never more than those that were taken and the 2^p
-- that the ring has room for.
pub put_bounded :
    (p n : ℕ) (l : List (ℕ × Action)) (s : System)
    → Initial p s
    → length l < 2 ^ 64
    → length (run n l s).put ≤ length (run n l s).taken + 2 ^ p
put_bounded p n l s z b = omega (
  arith,
  queue_short z n l b,
  ap length (history_kept z n l b),
  length-append (run n l s).taken (run n l s).queue,
)
