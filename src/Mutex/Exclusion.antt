-- ===== src/Mutex/Exclusion.antt =====
-- The mutex under every schedule of fewer than 2^31 fibers: mutual exclusion, and no lost wake-up.
use libfiber.Prelude.{
  true, ℕ, ◌<◌, ◌≡◌, ◌≢◌, ◌⊎◌, inl, inr, ap, arith, List, [], length, zero, suc, ◌+◌, refl,
  eq-cases,
}
use libfiber.Population.{tally, tally-lone, tally-some, weight-le-tally, tally-absent}
use libfiber.Mutex.{success, trylock}
use libfiber.Mutex.Fibers.{
  unrefused, Pc, away, entering, asleep, inside, handing, System, Action, run,
}
use libfiber.Mutex.Invariant.{users, owners, sleepers, Inv, Initial, Initial-Inv, run-Inv}

-- In every schedule of fewer than 2^31 fibers from a fresh mutex in which no fiber that waits is refused
-- the switch away from it, two fibers that are inside are the same fiber.
pub one_inside :
    (n : ℕ) (l : List (ℕ × Action)) (s : System) (i j : ℕ)
    → unrefused l ≡ true
    → Initial n s
    → i < n
    → j < n
    → (run n l s).pc i ≡ inside
    → (run n l s).pc j ≡ inside
    → i ≡ j
one_inside n l s i j u z hi hj ei ej =
    tally-lone owners n i j (run n l s).pc hi hj
      (omega (arith, (run-Inv n l s u (Initial-Inv z)).one, ap owners ei, ap owners ej))

-- `k` waits: the counter counts it, and it does not have the mutex.
abbrev pub Waits : Pc → Type 0
Waits p = (p ≡ entering) ⊎ (p ≡ asleep)

abbrev enterers : Pc → ℕ
enterers entering = 1
enterers _ = 0

abbrev handers : Pc → ℕ
handers handing = 1
handers _ = 0

-- Whoever uses the mutex or hands it on is entering, asleep, or its owner.
users-split :
    (n : ℕ) (pc : ℕ → Pc)
    → tally users n pc + tally handers n pc
      ≡ tally enterers n pc + tally sleepers n pc + tally owners n pc
users-split zero pc = refl
users-split (suc n) pc = omega (arith, users-split n pc, point (pc n))
  where
    point : (p : Pc) → users p + handers p ≡ enterers p + sleepers p + owners p
    point p = ground arith

-- What a fiber that waits can count on.
abbrev pub Served : ℕ → System → Type 0
Served n s =
    (i : ℕ) × (i < n)
    × ((s.pc i ≡ inside)
        ⊎ ((s.pc i ≡ handing)
            × ((s.mutex.waiters ≢ []) ⊎ ((j : ℕ) × (j < n) × (s.pc j ≡ entering)))))

handing-next :
    (n : ℕ) (s : System) (i : ℕ)
    → Inv n s
    → i < n
    → s.pc i ≡ handing
    → (s.mutex.waiters ≢ []) ⊎ ((j : ℕ) × (j < n) × (s.pc j ≡ entering))
handing-next n s i inv hi e = elim (eq-cases (length s.mutex.waiters) 0) [
  | inr ne ↦ inl (λ q. ne (ap length q))
  | inl none ↦
      let (j, lt, w) = tally-some enterers n s.pc (
        omega (
          arith,
          inv,
          users-split n s.pc,
          none,
          weight-le-tally owners n i s.pc hi,
          weight-le-tally handers n i s.pc hi,
          ap owners e,
          ap handers e,
        )) in
      inr (j, lt, enterer (s.pc j) w)
]
  where
    enterer : (p : Pc) → 0 < enterers p → p ≡ entering
    enterer p w = ground arith

Inv-Served : (n : ℕ) (s : System) (k : ℕ) → Inv n s → k < n → 0 < users (s.pc k) → Served n s
Inv-Served n s k inv hk w =
    let (i, lt, o) =
      tally-some owners n s.pc
        (omega (arith, inv.kept (omega (arith, weight-le-tally users n k s.pc hk)))) in
    (
      i,
      lt,
      elim (owner (s.pc i) o) [ inl e ↦ inl e | inr e ↦ inr (e, handing-next n s i inv lt e) ],
    )
  where
    owner : (p : Pc) → 0 < owners p → (p ≡ inside) ⊎ (p ≡ handing)
    owner p o = ground arith

-- In every schedule of fewer than 2^31 fibers from a fresh mutex in which no fiber that waits is refused
-- the switch away from it, while a fiber waits, some fiber is inside or is bound to wake one; and one
-- that is bound to wake finds a fiber in the queue, or a fiber is on its way there.
pub waiting-Served :
    (n : ℕ) (l : List (ℕ × Action)) (s : System) (k : ℕ)
    → unrefused l ≡ true
    → Initial n s
    → k < n
    → Waits ((run n l s).pc k)
    → Served n (run n l s)
waiting-Served n l s k u z hk w =
    Inv-Served n (run n l s) k (run-Inv n l s u (Initial-Inv z)) hk (using ((run n l s).pc k) w)
  where
    using : (p : Pc) → Waits p → 0 < users p
    using p w = ground arith

-- When no fiber that waits is refused the switch away from it, and every fiber has left the mutex, the
-- counter is 1 again and `trylock` succeeds.
pub trylock-free :
    (n : ℕ) (l : List (ℕ × Action)) (s : System)
    → unrefused l ≡ true
    → Initial n s
    → ((i : ℕ) → (run n l s).pc i ≡ away)
    → ((run n l s).mutex.counter ≡ 1) × ((trylock (run n l s).mutex).1 ≡ success)
unfolding trylock
trylock-free n l s u z absent =
    ground
      (arith, run-Inv n l s u (Initial-Inv z), tally-absent users away n (run n l s).pc refl absent)
