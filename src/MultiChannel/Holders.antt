-- ===== src/MultiChannel/Holders.antt =====
-- One fiber at a time has the mutex of a multi channel, and the fibers in its stack of waiters sleep.
use libfiber.Prelude.{
  ℕ, ◌+◌, ◌<◌, ◌≡◌, refl, ap, ◌∙◌, arith, Bool, true, false, if◌then◌else◌, List, [], ◌∷◌, length,
  update, update_self, update_ne, All, NotIn, Distinct,
}
use libfiber.Population.{tally, tally-update, tally-lone, weight-le-tally}
use libfiber.MultiChannel.{Call, Pc, away, locking, inside, parking, asleep, unlocking, awake}

abbrev pub holds : Pc → ℕ
holds (inside k) = 1
holds (parking k) = 1
holds unlocking = 1
holds _ = 0

abbrev pub waits : Pc → ℕ
waits (parking k) = 1
waits (asleep k) = 1
waits _ = 0

-- Fiber `j` is one of the `n` fibers and waits.
abbrev pub Waiting : ℕ → (ℕ → Pc) → ℕ → Type 0
Waiting n pc j = (j < n) × (waits (pc j) ≡ 1)

pub record Inv (n : ℕ) (pc : ℕ → Pc) (lock : Bool) (waiters : List ℕ) : Type 0 where
  pub one : tally holds n pc ≡ (if lock then 1 else 0)
  pub waiting : All (Waiting n pc) waiters
  pub distinct : Distinct waiters
  pub counted : tally waits n pc ≡ length waiters

module _ (n : ℕ) (pc : ℕ → Pc) (i : ℕ) where
  NotIn-Waiting : (ws : List ℕ) → waits (pc i) ≡ 0 → All (Waiting n pc) ws → NotIn i ws
  NotIn-Waiting [] h a = tt
  NotIn-Waiting (w ∷ ws) h a =
      ((λ e. omega (arith, ap (λ j. waits (pc j)) e, a.0.1, h)), NotIn-Waiting ws h a.1)

  Waiting-update :
      (p : Pc) (ws : List ℕ)
      → NotIn i ws
      → All (Waiting n pc) ws
      → All (Waiting n (update pc i p)) ws
  Waiting-update p [] h a = tt
  Waiting-update p (w ∷ ws) h a =
      ((a.0.0, ap waits (update_ne pc i w p h.0) ∙ a.0.1), Waiting-update p ws h.1 a.1)

module _ {n : ℕ} {pc : ℕ → Pc} {lock : Bool} {ws : List ℕ} (v : Inv n pc lock ws) (i : ℕ)
    (h : i < n) where
  open v use {one, waiting, distinct, counted}

  -- A fiber that does not wait goes to a point where it does not wait, and takes or leaves the mutex.
  pub move-Inv :
      (p : Pc) (lock' : Bool)
      → waits (pc i) ≡ 0
      → waits p ≡ 0
      → holds (pc i) + (if lock' then 1 else 0) ≡ holds p + (if lock then 1 else 0)
      → Inv n (update pc i p) lock' ws
  move-Inv p lock' z z' e = record {
    one = omega (arith, one, e, tally-update holds n i pc p h);
    waiting = Waiting-update n pc i p ws (NotIn-Waiting n pc i ws z waiting) waiting;
    distinct = distinct;
    counted = omega (arith, counted, z, z', tally-update waits n i pc p h);
  }

  -- A fiber becomes a waiter and keeps the mutex.
  pub wait-Inv : (k : Call) → pc i ≡ inside k → Inv n (update pc i (parking k)) lock (i ∷ ws)
  wait-Inv k e = record {
    one = omega (arith, one, ap holds e, tally-update holds n i pc (parking k) h);
    waiting = (
      (h, ap waits (update_self pc i (parking k))),
      Waiting-update n pc i (parking k) ws apart waiting,
    );
    distinct = (apart, distinct);
    counted = omega (arith, counted, ap waits e, tally-update waits n i pc (parking k) h);
  }
    where
      apart : NotIn i ws
      apart = NotIn-Waiting n pc i ws (ap waits e) waiting

  -- It switches away, and the mutex is free.
  pub park-Inv :
      (k : Call) → pc i ≡ parking k → lock ≡ true → Inv n (update pc i (asleep k)) false ws
  park-Inv k e l = record {
    one = omega (
      arith,
      one,
      ap {B = ℕ} (λ b. if b then 1 else 0) l,
      ap holds e,
      tally-update holds n i pc (asleep k) h,
    );
    waiting = parked ws waiting;
    distinct = distinct;
    counted = omega (arith, counted, ap waits e, tally-update waits n i pc (asleep k) h);
  }
    where
      parked_one : (w : ℕ) → waits (pc w) ≡ 1 → waits (update pc i (asleep k) w) ≡ 1
      parked_one w a = ground (arith, a)

      parked : (xs : List ℕ) → All (Waiting n pc) xs → All (Waiting n (update pc i (asleep k))) xs
      parked [] a = tt
      parked (w ∷ xs) a = ((a.0.0, parked_one w a.0.1), parked xs a.1)

-- If a fiber holds the mutex, it is locked.
pub holds-lock :
    {n : ℕ} {pc : ℕ → Pc} {lock : Bool} {ws : List ℕ}
    → Inv n pc lock ws
    → (i : ℕ) → i < n
    → holds (pc i) ≡ 1
    → lock ≡ true
holds-lock {n} {pc} {lock = true} v i h e = refl
holds-lock {n} {pc} {lock = false} v i h e =
    absurd (omega (arith, v.one, e, weight-le-tally holds n i pc h))

-- While another fiber has the mutex, a waiter is asleep.
pub waiter_asleep :
    {n : ℕ} {pc : ℕ → Pc} {ws : List ℕ}
    → Inv n pc true ws
    → (i j : ℕ) → i < n
    → holds (pc i) ≡ 1
    → waits (pc i) ≡ 0
    → Waiting n pc j
    → (k : Call) × (pc j ≡ asleep k)
waiter_asleep {n} {pc} v i j hi e z (hj, w) = which (pc j) refl
  where
    which : (p : Pc) → pc j ≡ p → (k : Call) × (p ≡ asleep k)
    which (asleep k) q = (k, refl)
    which (parking k) q = absurd (
        omega (
          arith,
          ap (λ m. waits (pc m))
              (tally-lone holds n i j pc hi hj (omega (arith, v.one, e, ap holds q))),
          z,
          w,
        ))
    which away q = absurd (omega (arith, w, ap waits q))
    which (locking k) q = absurd (omega (arith, w, ap waits q))
    which (inside k) q = absurd (omega (arith, w, ap waits q))
    which unlocking q = absurd (omega (arith, w, ap waits q))

-- The waiter on top is scheduled.
wake-Inv :
    {n : ℕ} {pc : ℕ → Pc} (i j : ℕ) (rest : List ℕ)
    → Inv n pc true (j ∷ rest)
    → i < n
    → holds (pc i) ≡ 1
    → waits (pc i) ≡ 0
    → Inv n (update pc j (awake (pc j))) true rest
wake-Inv {n} {pc} i j rest v hi e z = record {
  one = omega (
    arith,
    v.one,
    tally-update holds n j pc (awake (pc j)) hj,
    ap holds q,
    ap (λ p. holds (awake p)) q,
  );
  waiting = Waiting-update n pc j (awake (pc j)) rest (v.distinct).0 (v.waiting).1;
  distinct = (v.distinct).1;
  counted = omega (
    arith,
    v.counted,
    tally-update waits n j pc (awake (pc j)) hj,
    ap waits q,
    ap (λ p. waits (awake p)) q,
  );
}
  where
    hj : j < n
    hj = (v.waiting).0.0

    k : Call
    k = (waiter_asleep v i j hi e z (v.waiting).0).0

    q : pc j ≡ asleep k
    q = (waiter_asleep v i j hi e z (v.waiting).0).1

-- The holder schedules the waiter on top, and goes on to unlock.
pub wake_unlocking-Inv :
    {n : ℕ} {pc : ℕ → Pc} {lock : Bool} (i j : ℕ) (rest : List ℕ)
    → Inv n pc lock (j ∷ rest)
    → i < n
    → holds (pc i) ≡ 1
    → waits (pc i) ≡ 0
    → Inv n (update (update pc j (awake (pc j))) i unlocking) lock rest
wake_unlocking-Inv {n} {pc} {lock = false} i j rest v h e z =
    absurd (omega (arith, v.one, e, weight-le-tally holds n i pc h))
wake_unlocking-Inv {n} {pc} {lock = true} i j rest v h e z =
    move-Inv (wake-Inv i j rest v h e z) i h unlocking true (omega (arith, ap waits same, z)) refl
      (omega (arith, ap holds same, e))
  where
    same : update pc j (awake (pc j)) i ≡ pc i
    same =
        update_ne pc j i (awake (pc j))
          (λ q. omega (arith, ap (λ m. waits (pc m)) q, z, (v.waiting).0.1))
