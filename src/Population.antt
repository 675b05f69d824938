-- ===== src/Population.antt =====
-- Fibers that run side by side: `n` of them, each at a point of its code, and how many stand where.
use libfiber.Prelude.{
  ℕ, zero, suc, ◌+◌, ◌≤◌, ◌<◌, ◌≡◌, ◌≢◌, ◌⊎◌, inl, inr, refl, sym, ap, ◌∙◌, arith, update,
  update_self, update_ne, eq-cases,
}
use libfiber.Prelude.{List, [], ◌∷◌, ◌++◌, NotIn, All, All-append}

module _ {P : Type 0} (weight : P → ℕ) where
  -- The weights of the points where fibers 0 to n - 1 stand, added up.
  abbrev pub tally : ℕ → (ℕ → P) → ℕ
  tally zero pc = 0
  tally (suc n) pc = weight (pc n) + tally n pc

  tally-update_out : (n i : ℕ) (pc : ℕ → P) (p : P) → n ≤ i → tally n (update pc i p) ≡ tally n pc
  tally-update_out zero i pc p h = refl
  tally-update_out (suc n) i pc p h =
      omega (
        arith,
        tally-update_out n i pc p (omega arith),
        ap weight (update_ne pc i n p (omega arith)),
      )

  -- A fiber that goes from one point to another changes the sum by the two weights.
  pub tally-update :
      (n i : ℕ) (pc : ℕ → P) (p : P)
      → i < n
      → tally n (update pc i p) + weight (pc i) ≡ tally n pc + weight p
  tally-update zero i pc p h = absurd (omega arith)
  tally-update (suc n) i pc p h = elim (eq-cases i n) [
    | inl e ↦ omega (
      arith,
      tally-update_out n i pc p (omega arith),
      ap weight (ap (update pc i p) (sym e) ∙ update_self pc i p),
      ap (λ k. weight (pc k)) e,
    )
    | inr ne ↦ omega (arith, tally-update n i pc p (omega arith), ap weight (update_ne pc i n p ne))
  ]

  tally-ge : (n i : ℕ) (pc : ℕ → P) → i < n → weight (pc i) ≤ tally n pc
  tally-ge zero i pc h = absurd (omega arith)
  tally-ge (suc n) i pc h = elim (eq-cases i n) [
    | inl e ↦ omega (arith, ap (λ k. weight (pc k)) e)
    | inr ne ↦ omega (arith, tally-ge n i pc (omega arith))
  ]

  -- A fiber's own weight is part of the sum.
  pub weight-le-tally : (n i : ℕ) (pc : ℕ → P) → i < n → weight (pc i) ≤ tally n pc
  weight-le-tally n i pc h = tally-ge n i pc h

  -- Two fibers that weigh more than the sum are one.
  pub tally-lone :
      (n i j : ℕ) (pc : ℕ → P) → i < n → j < n → tally n pc < weight (pc i) + weight (pc j) → i ≡ j
  tally-lone zero i j pc hi hj h = absurd (omega arith)
  tally-lone (suc n) i j pc hi hj h = elim (eq-cases i n) [
    | inl e ↦ elim (eq-cases j n) [
      | inl f ↦ omega arith
      | inr g ↦ absurd (omega (arith, tally-ge n j pc (omega arith), ap (λ k. weight (pc k)) e))
    ]
    | inr e ↦ elim (eq-cases j n) [
      | inl f ↦ absurd (omega (arith, tally-ge n i pc (omega arith), ap (λ k. weight (pc k)) f))
      | inr g ↦ tally-lone n i j pc (omega arith) (omega arith) (omega arith)
    ]
  ]

  -- A positive sum has a fiber of positive weight.
  pub tally-some : (n : ℕ) (pc : ℕ → P) → 0 < tally n pc → (i : ℕ) × (i < n) × (0 < weight (pc i))
  tally-some zero pc h = absurd (omega arith)
  tally-some (suc n) pc h = elim (pos-cases (weight (pc n))) [
    | inl z ↦ let (i, lt, w) = tally-some n pc (omega arith) in (i, omega arith, w)
    | inr w ↦ (n, omega arith, w)
  ]
    where
      pos-cases : (k : ℕ) → (k ≡ 0) ⊎ (0 < k)
      pos-cases zero = inl refl
      pos-cases (suc k) = inr (omega arith)

  -- If every point weighs at most 1, the sum is at most the number of fibers.
  pub tally-le : ((p : P) → weight p ≤ 1) → (n : ℕ) (pc : ℕ → P) → tally n pc ≤ n
  tally-le h zero pc = omega arith
  tally-le h (suc n) pc = omega (arith, tally-le h n pc, h (pc n))

-- A queue of fibers that all stand at the same point.
module _ {P : Type 0} (at : P) (n : ℕ) where
  abbrev pub Parked : (ℕ → P) → ℕ → Type 0
  Parked pc j = (j < n) × (pc j ≡ at)

  pub NotIn-Parked :
      (i : ℕ) (pc : ℕ → P) (ws : List ℕ) → pc i ≢ at → All (Parked pc) ws → NotIn i ws
  NotIn-Parked i pc [] h a = tt
  NotIn-Parked i pc (w ∷ ws) h a = (λ e. h (ap pc e ∙ a.0.1), NotIn-Parked i pc ws h a.1)

  pub Parked-update :
      (i : ℕ) (pc : ℕ → P) (p : P) (ws : List ℕ)
      → NotIn i ws
      → All (Parked pc) ws
      → All (Parked (update pc i p)) ws
  Parked-update i pc p [] h a = tt
  Parked-update i pc p (w ∷ ws) h a =
      ((a.0.0, update_ne pc i w p h.0 ∙ a.0.1), Parked-update i pc p ws h.1 a.1)

  -- A fiber that stands elsewhere moves, and the queue stays parked.
  pub Parked-move :
      (i : ℕ) (pc : ℕ → P) (p : P) (ws : List ℕ)
      → pc i ≢ at
      → All (Parked pc) ws
      → All (Parked (update pc i p)) ws
  Parked-move i pc p ws h a = Parked-update i pc p ws (NotIn-Parked i pc ws h a) a

  -- A fiber moves to the point and to the end of the queue.
  pub Parked-join :
      (i : ℕ) (pc : ℕ → P) (ws : List ℕ)
      → i < n
      → pc i ≢ at
      → All (Parked pc) ws
      → All (Parked (update pc i at)) (ws ++ (i ∷ []))
  Parked-join i pc ws lt h a =
      All-append _ ws (i ∷ []) (Parked-move i pc at ws h a) ((lt, update_self pc i at), tt)

-- Fibers that all stand at one point of weight 0.
pub tally-absent :
    {P : Type 0} (w : P → ℕ) (at : P) (n : ℕ) (pc : ℕ → P)
    → w at ≡ 0
    → ((i : ℕ) → pc i ≡ at)
    → tally w n pc ≡ 0
tally-absent w at zero pc z h = refl
tally-absent w at (suc n) pc z h = omega (arith, ap w (h n), tally-absent w at n pc z h)
