-- ===== src/Cond/Counted.antt =====
-- The counter of a condition variable against the fibers that wait.
use libfiber.Prelude.{
  true, ℕ, suc, ◌^◌, ◌<◌, ◌≡◌, inl, inr, refl, ap, ◌∙◌, sym, subst, arith, false, if◌then◌else◌,
  List, [], ◌∷◌, length, eq-cases, dec_lt, lt→ltb, ge→ltb, All, Distinct,
}
use libfiber.Population.{tally, tally-absent, tally-some, weight-le-tally, Parked}
use libfiber.Cond.{unrefused, init, Pc, away, entering, asleep, waking, System, Action, act, run}
use libfiber.Cond.Steps.{holds, waits, sleeps, restores, wakes, act-Inv, Inv}

run-Inv :
    (n : ℕ) (l : List (ℕ × Action)) (s : System)
    → unrefused l ≡ true
    → n < 2 ^ 31
    → Inv n s
    → Inv n (run n l s)
unfolding run
run-Inv n [] s u b v = v
run-Inv n ((i, a) ∷ l) s u b v = elim (dec_lt i n) [
  | yes h ↦ rw (lt→ltb i n h) (
      run-Inv n l (act a (s.pc i) s i) (ground (arith, u)) b
        (act-Inv v b i h a (s.pc i) (ground (arith, u)) refl))
  | no h ↦ rw (ge→ltb i n h) (run-Inv n l s (ground (arith, u)) b v)
]

-- A condition variable as `init` leaves it, with all fibers away.
pub record Initial (s : System) : Type 0 where
  pub fresh : s.cond ≡ init
  pub alone : (i : ℕ) → s.pc i ≡ away

Initial-Inv : (n : ℕ) (s : System) → Initial s → Inv n s
Initial-Inv n s z = record {
  one = omega (
    arith,
    tally-absent holds away n s.pc refl z.alone,
    ap {B = ℕ} (λ c. if c.internal_mutex then 1 else 0) (z.fresh),
  );
  word = omega (arith, ap (λ c. c.waiter_count) (z.fresh));
  exact = omega (
    arith,
    ap (λ c. c.waiter_count) (z.fresh),
    tally-absent restores away n s.pc refl z.alone,
    tally-absent wakes away n s.pc refl z.alone,
    tally-absent waits away n s.pc refl z.alone,
  );
  slept = tally-absent sleeps away n s.pc refl z.alone ∙ sym (ap (λ c. length c.waiters) (z.fresh));
  queue = subst (λ c. All (Parked asleep n s.pc) c.waiters) (sym (z.fresh)) tt;
  distinct = subst (λ c. Distinct c.waiters) (sym (z.fresh)) tt;
}

module _ (n : ℕ) (l : List (ℕ × Action)) (s : System) (u : unrefused l ≡ true) (z : Initial s)
    (b : n < 2 ^ 31) where
  ran : Inv n (run n l s)
  ran = run-Inv n l s u b (Initial-Inv n s z)

  -- In every schedule of fewer than 2^31 fibers in which no fiber that waits is refused the switch away from
  -- it, while no one has locked the internal mutex, the counter
  -- of a condition variable is the number of fibers that wait, in the queue or on their way into it.
  pub counter_exact :
      let t = run n l s in t.cond.internal_mutex ≡ false → t.cond.waiter_count ≡ tally waits n t.pc
  counter_exact e = unlocked (run n l s) ran e
    where
      light :
          (w : Pc → ℕ)
          → ((p : Pc) → 0 < w p → holds p ≡ 1)
          → (t : System) → tally holds n t.pc ≡ 0
          → tally w n t.pc ≡ 0
      light w f t q = elim (eq-cases (tally w n t.pc) 0) [
        | inl y ↦ y
        | inr ne ↦
            let (j, hj, y) = tally-some w n t.pc (omega (arith, ne)) in
            absurd (omega (arith, weight-le-tally holds n j t.pc hj, q, f (t.pc j) y))
      ]

      unlocked :
          (t : System)
          → Inv n t
          → t.cond.internal_mutex ≡ false
          → t.cond.waiter_count ≡ tally waits n t.pc
      unlocked t v e =
          let q = (v.one) ∙ ap {B = ℕ} (λ x. if x then 1 else 0) e in
          omega (
            arith,
            v.exact,
            v.word,
            light restores (λ p y. ground (arith, y)) t q,
            light wakes (λ p y. ground (arith, y)) t q,
          )

  -- In every schedule of fewer than 2^31 fibers at a condition variable in which no fiber that waits is
  -- refused the switch away from it, while a signal or a broadcast still has fibers to wake and finds the
  -- queue empty, some fiber is on its way into it.
  pub waker_served :
      (i k : ℕ)
      → i < n
      → let t = run n l s in
        t.pc i ≡ waking (suc k) → t.cond.waiters ≡ [] → (j : ℕ) × (j < n) × (t.pc j ≡ entering)
  waker_served i k h e q =
      let t = run n l s in
      let (j, hj, y) =
        tally-some waits n t.pc
          (omega (arith, ran.exact, weight-le-tally wakes n i t.pc h, ap wakes e)) in
      (
        j,
        hj,
        is_entering (t.pc j) y
            (omega (arith, weight-le-tally sleeps n j t.pc hj, ran.slept, ap length q)),
      )
    where
      is_entering : (p : Pc) → 0 < waits p → sleeps p ≡ 0 → p ≡ entering
      is_entering p y z = ground (arith, y, z)
