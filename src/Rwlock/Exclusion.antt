-- ===== src/Rwlock/Exclusion.antt =====
-- The rwlock under every schedule of fewer than 2^21 fibers.
use libfiber.Prelude.{
  true, ℕ, zero, suc, ◌+◌, ◌^◌, ◌<◌, ◌≡◌, ◌≢◌, inl, inr, refl, sym, arith, dec_lt, ◌≤◌, subst, All,
  Distinct,
}
use libfiber.Prelude.{Bool-cases, List, [], ◌∷◌, lt→ltb, ge→ltb}
use libfiber.Population.{tally, tally-lone, tally-some, weight-le-tally, tally-absent}
use libfiber.Rwlock.{zero_blob}
use libfiber.Rwlock.Fibers.{refuse, switches, unrefused, Pc, away, r_entering, w_entering, System}
use libfiber.Rwlock.Fibers.{waking_writer, crashed, waking_readers, looping, trying, round, looping}
use libfiber.Rwlock.Fibers.{
  Action, call, go, next, act, run, may_call, wake_reader, wake_one_writer,
}
use libfiber.Rwlock.Counts.{has_r, has_w, waits_r, waits_w, grants_r, grants_w, Counts}
use libfiber.Rwlock.Invariant.{Inv, Planned, call-Inv, load-Inv, cas-Inv, r_enter-Inv, w_enter-Inv}
use libfiber.Rwlock.Waking.{wake_reader-Inv, wake_writer-Inv}

module _ {n : ℕ} {s : System} (inv : Inv n s) (i : ℕ) (lt : i < n) where
  wake_readers-Inv :
      (k : ℕ) (ws : List ℕ)
      → s.pc i ≡ waking_readers (suc k)
      → s.read_waiters ≡ ws
      → Inv n (wake_reader k ws s i)
  wake_readers-Inv k [] e f = inv
  wake_readers-Inv k (j ∷ rest) e f = wake_reader-Inv inv i lt j k rest _ e f refl

  wake_one-Inv :
      (ws : List ℕ) → s.pc i ≡ waking_writer → s.write_waiters ≡ ws → Inv n (wake_one_writer ws s i)
  wake_one-Inv [] e f = inv
  wake_one-Inv (j ∷ rest) e f = wake_writer-Inv inv i lt j rest e f

  next-Inv : (p : Pc) → s.pc i ≡ p → Inv n (next p s i)
  unfolding next
  next-Inv (looping op) e = load-Inv inv i lt op e (round op s.state) refl
  next-Inv (trying op c d a) e = cas-Inv inv i lt op c d a e
  next-Inv r_entering e = r_enter-Inv inv i lt e
  next-Inv w_entering e = w_enter-Inv inv i lt e
  next-Inv (waking_readers (suc k)) e = wake_readers-Inv k s.read_waiters e refl
  next-Inv waking_writer e = wake_one-Inv s.write_waiters e refl
  next-Inv _ e = inv

  act-Inv : (a : Action) → switches a ≡ true → Inv n (act a s i)
  unfolding act
  act-Inv refuse u = absurd (ground (arith, u))
  act-Inv (call op) u = elim (Bool-cases (may_call op (s.pc i))) [
    | inl t ↦ rw t (call-Inv inv i lt op (s.pc i) refl t)
    | inr f ↦ rw f inv
  ]
  act-Inv go u = next-Inv (s.pc i) refl

run-Inv :
    (n : ℕ) (l : List (ℕ × Action)) (s : System) → unrefused l ≡ true → Inv n s → Inv n (run n l s)
unfolding run
run-Inv n [] s u inv = inv
run-Inv n ((i, a) ∷ l) s u inv = elim (dec_lt i n) [
  | yes lt ↦
      rw (lt→ltb i n lt)
        (run-Inv n l (act a s i) (ground (arith, u)) (act-Inv inv i lt a (ground (arith, u))))
  | no ge ↦ rw (ge→ltb i n ge) (run-Inv n l s (ground (arith, u)) inv)
]

-- What `fiber_rwlock_init` leaves, with every fiber away.
pub record Initial (n : ℕ) (s : System) : Type 0 where
  pub few : n < 2 ^ 21
  pub zero_state : s.state ≡ zero_blob
  pub no_readers : s.read_waiters ≡ []
  pub no_writers : s.write_waiters ≡ []
  pub absent : (i : ℕ) → s.pc i ≡ away

Initial-Inv : {n : ℕ} {s : System} → Initial n s → Inv n s
Initial-Inv {n} {s} z = record {
  counts = ground (
    arith,
    tally-absent has_r away n s.pc refl z.absent,
    tally-absent has_w away n s.pc refl z.absent,
    tally-absent waits_r away n s.pc refl z.absent,
    tally-absent waits_w away n s.pc refl z.absent,
    tally-absent grants_r away n s.pc refl z.absent,
    tally-absent grants_w away n s.pc refl z.absent,
  );
  planned = λ i. subst Planned (sym (z.absent i)) tt;
  safe = λ i e. cc (z.absent i, e);
  r_parked = subst (All _) (sym z.no_readers) tt;
  w_parked = subst (All _) (sym z.no_writers) tt;
  r_distinct = subst Distinct (sym z.no_readers) tt;
  w_distinct = subst Distinct (sym z.no_writers) tt;
}

-- In every schedule of fewer than 2^21 fibers from a fresh rwlock in which no fiber that waits is refused
-- the switch away from it, while a fiber has the lock for writing, from the return of its call to the
-- exchange of its unlock, no fiber has it for reading and no other has it for writing.
pub writer_alone :
    (n : ℕ) (l : List (ℕ × Action)) (s : System) (i j : ℕ)
    → unrefused l ≡ true
    → Initial n s
    → i < n
    → j < n
    → has_w ((run n l s).pc i) ≡ 1
    → (has_r ((run n l s).pc j) ≡ 0) × (has_w ((run n l s).pc j) ≡ 1 → i ≡ j)
writer_alone n l s i j u z hi hj w =
    (omega (arith, facts), λ w'. tally-lone has_w n i j t.pc hi hj (omega (arith, facts)))
  where
    t : System
    t = run n l s

    k : Counts n t.state t.pc
    k = (run-Inv n l s u (Initial-Inv z)).counts

    facts : (tally has_w n t.pc ≤ 1) × (has_r (t.pc j) ≡ 0)
    facts = (
      omega (arith, k),
      ground (arith, k, weight-le-tally has_w n i t.pc hi, weight-le-tally has_r n j t.pc hj),
    )

-- In no schedule of fewer than 2^21 fibers from a fresh rwlock in which no fiber that waits is refused
-- the switch away from it does an assertion of the unlocks fail, and the fields of the state word are
-- exactly the numbers of fibers that have the lock or are being handed it, and of those that wait and are
-- not being handed it.
pub word_exact :
    (n : ℕ) (l : List (ℕ × Action)) (s : System)
    → unrefused l ≡ true
    → Initial n s
    → let t = run n l s in
      ((i : ℕ) → t.pc i ≢ crashed)
      × (t.state.reader_count ≡ tally has_r n t.pc + tally grants_r n t.pc)
      × (t.state.write_locked ≡ tally has_w n t.pc + tally grants_w n t.pc)
      × (t.state.waiting_readers + tally grants_r n t.pc ≡ tally waits_r n t.pc)
      × (t.state.waiting_writers + tally grants_w n t.pc ≡ tally waits_w n t.pc)
word_exact n l s u z =
    let inv = run-Inv n l s u (Initial-Inv z) in
    (inv.safe, inv.counts.readers, inv.counts.writers, inv.counts.r_queue, inv.counts.w_queue)

abbrev serves : Pc → ℕ
serves p = has_r p + has_w p + grants_r p + grants_w p

serves-split :
    (n : ℕ) (pc : ℕ → Pc)
    → tally serves n pc
      ≡ tally has_r n pc + tally has_w n pc + tally grants_r n pc + tally grants_w n pc
serves-split zero pc = refl
serves-split (suc n) pc = omega (arith, serves-split n pc)

-- In every schedule of fewer than 2^21 fibers from a fresh rwlock in which no fiber that waits is refused
-- the switch away from it, while a fiber waits for the rwlock, some fiber has the lock or is handing it
-- to fibers that wait.
pub waiting_is_served :
    (n : ℕ) (l : List (ℕ × Action)) (s : System) (k : ℕ)
    → unrefused l ≡ true
    → Initial n s
    → k < n
    → let t = run n l s in
      0 < waits_r (t.pc k) + waits_w (t.pc k)
      → (i : ℕ) × (i < n)
        × (0 < has_r (t.pc i) + has_w (t.pc i) + grants_r (t.pc i) + grants_w (t.pc i))
waiting_is_served n l s k u z hk w =
    tally-some serves n t.pc (omega (arith, serves-split n t.pc, c, busy))
  where
    t : System
    t = run n l s

    c : Counts n t.state t.pc
    c = (run-Inv n l s u (Initial-Inv z)).counts

    busy :
        0
        < t.state.write_locked
          + t.state.reader_count
          + tally grants_r n t.pc
          + tally grants_w n t.pc
    busy =
        ground (arith, c, weight-le-tally waits_r n k t.pc hk, weight-le-tally waits_w n k t.pc hk)
