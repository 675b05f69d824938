-- ===== src/Barrier/Rounds.antt =====
-- How many waits return against how many fibers have arrived.
use libfiber.Prelude.{
  ℕ, zero, suc, ◌+◌, ◌-◌, ◌*◌, ◌/◌, ◌%◌, ◌^◌, ◌≤◌, ◌<◌, ◌≡◌, ◌≢◌, ◌⊎◌, inl, inr, refl, ap, ◌∙◌, sym,
  subst, arith, true, false, ◌==◌, List, [], ◌∷◌, length, update, dec_lt, lt→ltb, ge→ltb, All,
  Distinct, Distinct-append,
}
use native.Mathlib.Nat.{mod-eq_of_lt, mod-add-div, zero-mod}
use libfiber.Population.{
  tally, tally-update, tally-absent, Parked, NotIn-Parked, Parked-update, Parked-move, Parked-join,
}
use libfiber.Barrier.{
  refuse, switches, unrefused, init, Pc, away, entering, asleep, waking, System, Action, do_wait,
  go, wake, act, run,
}

-- The returns that a fiber in its wake loop is still good for, its own among them.
abbrev left : Pc → ℕ
left (waking k) = k + 1
left _ = 0

abbrev pub itself : ℕ → ℕ
itself k = k

record Inv (count n : ℕ) (s : System) : Type 0 where
  size : s.barrier.count ≡ count
  exact :
      tally itself n s.passed + tally left n s.pc + s.barrier.counter % count ≡ s.barrier.counter
  queue : All (Parked asleep n s.pc) s.barrier.waiters
  distinct : Distinct s.barrier.waiters

next-mod :
    (c k : ℕ)
    → 0 < k
    → (((c + 1) % k ≡ 0) × (c % k + 1 ≡ k)) ⊎ (((c + 1) % k ≢ 0) × ((c + 1) % k ≡ c % k + 1))
next-mod c k z = grind arith

==-true : (a : ℕ) → a ≡ 0 → (a == 0) ≡ true
==-true a e = ground (arith, e)

==-false : (a : ℕ) → a ≢ 0 → (a == 0) ≡ false
==-false a e = ground (arith, e)

module _ {count n : ℕ} {s : System} (z : 0 < count) (v : Inv count n s) (i : ℕ) (h : i < n) where
  open v use {size, exact, queue, distinct}

  -- The arrival that is last of its round, and the others.
  last-Inv :
      (s.barrier.counter + 1) % count ≡ 0
      → s.barrier.counter % count + 1 ≡ count
      → s.pc i ≡ away
      → Inv count n (record s {
        barrier = record (s.barrier) { counter = s.barrier.counter + 1 };
        pc = update s.pc i (waking (count - 1));
      })
  last-Inv m k e = record {
    size = size;
    exact =
        omega (arith, exact, m, k, tally-update left n i s.pc (waking (count - 1)) h, ap left e);
    queue =
        Parked-move asleep n i s.pc (waking (count - 1)) s.barrier.waiters (λ q. cc (e, q)) queue;
    distinct = distinct;
  }

  other-Inv :
      (s.barrier.counter + 1) % count ≡ s.barrier.counter % count + 1
      → s.pc i ≡ away
      → Inv count n (record s {
        barrier = record (s.barrier) { counter = s.barrier.counter + 1 };
        pc = update s.pc i entering;
      })
  other-Inv m e = record {
    size = size;
    exact = omega (arith, exact, m, tally-update left n i s.pc entering h, ap left e);
    queue = Parked-move asleep n i s.pc entering s.barrier.waiters (λ q. cc (e, q)) queue;
    distinct = distinct;
  }

  arrive-Inv : s.barrier.counter + 1 < 2 ^ 64 → s.pc i ≡ away → Inv count n (act do_wait away s i)
  unfolding act
  arrive-Inv b e = rw (mod-eq_of_lt b) (elim (next-mod s.barrier.counter count z) [
    | inl (m, k) ↦
        rw
          (==-true ((s.barrier.counter + 1) % s.barrier.count)
            (ap (λ c. (s.barrier.counter + 1) % c) size ∙ m))
          (subst
            (λ c. Inv count n (record s {
              barrier = record (s.barrier) { counter = s.barrier.counter + 1 };
              pc = update s.pc i (waking (c - 1));
            }))
            (sym size) (last-Inv m k e))
    | inr (m, k) ↦
        rw
          (==-false ((s.barrier.counter + 1) % s.barrier.count)
            (λ q. m (ap (λ c. (s.barrier.counter + 1) % c) (sym size) ∙ q)))
          (other-Inv k e)
  ])

  enter-Inv : s.pc i ≡ entering → Inv count n (act go entering s i)
  unfolding act
  enter-Inv e = record {
    size = size;
    exact = omega (arith, exact, tally-update left n i s.pc asleep h, ap left e);
    queue = Parked-join asleep n i s.pc s.barrier.waiters h (λ q. cc (e, q)) queue;
    distinct =
        Distinct-append i s.barrier.waiters distinct
          (NotIn-Parked asleep n i s.pc s.barrier.waiters (λ q. cc (e, q)) queue);
  }

  pass-Inv : s.pc i ≡ waking 0 → Inv count n (act go (waking 0) s i)
  unfolding act
  pass-Inv e = record {
    size = size;
    exact = omega (
      arith,
      exact,
      tally-update left n i s.pc away h,
      ap left e,
      tally-update itself n i s.passed (s.passed i + 1) h,
    );
    queue = Parked-move asleep n i s.pc away s.barrier.waiters (λ q. cc (e, q)) queue;
    distinct = distinct;
  }

  wake-Inv :
      (ws : List ℕ) (k : ℕ)
      → s.pc i ≡ waking (suc k)
      → s.barrier.waiters ≡ ws
      → Inv count n (wake ws k s i)
  wake-Inv [] k e f = v
  wake-Inv (j ∷ rest) k e f = record {
    size = size;
    exact = omega (
      arith,
      exact,
      tally-update left n j s.pc away front.0.0,
      ap left front.0.1,
      tally-update left n i (update s.pc j away) (waking k) h,
      ap left stays,
      ap left e,
      tally-update itself n j s.passed (s.passed j + 1) front.0.0,
    );
    queue =
        Parked-move asleep n i (update s.pc j away) (waking k) rest (λ q. cc (stays, e, q))
          (Parked-update asleep n j s.pc away rest alone.0 front.1);
    distinct = alone.1;
  }
    where
      front : All (Parked asleep n s.pc) (j ∷ rest)
      front = subst (All (Parked asleep n s.pc)) f queue

      alone : Distinct (j ∷ rest)
      alone = subst Distinct f distinct

      stays : update s.pc j away i ≡ s.pc i
      stays = ground (arith, e, front.0)

  act-Inv :
      (a : Action) (p : Pc)
      → switches a ≡ true
      → s.barrier.counter + 1 < 2 ^ 64
      → s.pc i ≡ p
      → Inv count n (act a p s i)
  unfolding act
  act-Inv refuse p u b e = absurd (ground (arith, u))
  act-Inv do_wait away u b e = arrive-Inv b e
  act-Inv go entering u b e = enter-Inv e
  act-Inv go (waking zero) u b e = pass-Inv e
  act-Inv go (waking (suc k)) u b e = wake-Inv s.barrier.waiters k e refl
  act-Inv do_wait entering u b e = v
  act-Inv do_wait asleep u b e = v
  act-Inv do_wait (waking k) u b e = v
  act-Inv go away u b e = v
  act-Inv go asleep u b e = v

-- A step counts at most one arrival.
act-counter :
    (a : Action) (p : Pc) (s : System) (i : ℕ)
    → (act a p s i).barrier.counter ≤ s.barrier.counter + 1
unfolding act
act-counter a p s i = ground arith

run-Inv :
    {count : ℕ} (n : ℕ) (l : List (ℕ × Action)) (s : System)
    → unrefused l ≡ true
    → 0 < count
    → s.barrier.counter + length l < 2 ^ 64
    → Inv count n s
    → Inv count n (run n l s)
unfolding run
run-Inv n [] s u z b v = v
run-Inv n ((i, a) ∷ l) s u z b v = elim (dec_lt i n) [
  | yes h ↦ rw (lt→ltb i n h) (
      run-Inv n l (act a (s.pc i) s i) (ground (arith, u)) z
        (omega (arith, act-counter a (s.pc i) s i))
        (act-Inv z v i h a (s.pc i) (ground (arith, u)) (omega arith) refl))
  | no h ↦ rw (ge→ltb i n h) (run-Inv n l s (ground (arith, u)) z (omega arith) v)
]

-- A barrier for `count` fibers as `init` leaves it, with all of them away.
pub record Initial (count : ℕ) (s : System) : Type 0 where
  pub fresh : s.barrier ≡ init count
  pub alone : (i : ℕ) → s.pc i ≡ away
  pub unpassed : (i : ℕ) → s.passed i ≡ 0

Initial-Inv : {count : ℕ} (n : ℕ) (s : System) → Initial count s → Inv count n s
Initial-Inv {count = count} n s z = record {
  size = ap (λ b. b.count) (z.fresh);
  exact = omega (
    arith,
    tally-absent itself 0 n s.passed refl z.unpassed,
    tally-absent left away n s.pc refl z.alone,
    zero-mod count,
    ap (λ b. b.counter) (z.fresh),
  );
  queue = subst (λ b. All (Parked asleep n s.pc) b.waiters) (sym (z.fresh)) tt;
  distinct = subst (λ b. Distinct b.waiters) (sym (z.fresh)) tt;
}

-- In every schedule of fewer than 2^64 steps at a barrier in which no fiber that waits is refused the
-- switch away from it, the waits that have returned are no more than the arrivals of the rounds that are
-- complete, count for each.
pub returns_bounded :
    (count n : ℕ) (l : List (ℕ × Action)) (s : System)
    → unrefused l ≡ true
    → 0 < count
    → length l < 2 ^ 64
    → Initial count s
    → tally itself n (run n l s).passed ≤ count * ((run n l s).barrier.counter / count)
returns_bounded count n l s u c b z = omega (
  arith,
  (run-Inv n l s u c (omega (arith, ap (λ b. b.counter) (z.fresh))) (Initial-Inv n s z)).exact,
  mod-add-div (run n l s).barrier.counter count,
)
