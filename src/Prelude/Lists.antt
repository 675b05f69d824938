-- ===== src/Prelude/Lists.antt =====
-- Lists measured and indexed by native numbers, and lists without repetition.
use Prim.Native.Nat.{ℕ, zero, suc, ◌+◌}
use mathlib.Core.Path.{◌≡◌, refl, sym}
use mathlib.Core.Logic.{◌≢◌, ◌⊎◌, inl, inr}
use mathlib.Core.List.{List, [], ◌∷◌, ◌++◌}
use mathlib.Core.Bool.{Bool, true, ◌&&◌}
use mathlib.Core.Option.{Option, none, some}
use native.Mathlib.Omega.{arith}

module _ {ℓ} {A : Type ℓ} where
  abbrev pub length : List A → ℕ
  length [] = 0
  length (x ∷ xs) = suc (length xs)

  abbrev pub get_elem? : List A → ℕ → Option A
  get_elem? [] i = none
  get_elem? (x ∷ xs) zero = some x
  get_elem? (x ∷ xs) (suc i) = get_elem? xs i

  pub length-append : (xs ys : List A) → length (xs ++ ys) ≡ length xs + length ys
  length-append [] ys = omega arith
  length-append (x ∷ xs) ys = omega (arith, length-append xs ys)

-- `n` is none of the list's members.
abbrev pub NotIn : ℕ → List ℕ → Type 0
NotIn n [] = Unit
NotIn n (x ∷ xs) = (n ≢ x) × NotIn n xs

abbrev pub Distinct : List ℕ → Type 0
Distinct [] = Unit
Distinct (x ∷ xs) = NotIn x xs × Distinct xs

abbrev pub All {ℓ κ} : {A : Type ℓ} → (A → Type κ) → List A → Type κ
All P [] = Unit
All P (x ∷ xs) = P x × All P xs

-- The last of `a ∷ ns`.
abbrev pub last : ℕ → List ℕ → ℕ
last a [] = a
last a (b ∷ bs) = last b bs

pub last-append : (a n : ℕ) (ns : List ℕ) → last a (ns ++ (n ∷ [])) ≡ n
last-append a n [] = refl
last-append a n (b ∷ bs) = last-append b n bs

pub NotIn-append : (m n : ℕ) (xs : List ℕ) → NotIn m xs → m ≢ n → NotIn m (xs ++ (n ∷ []))
NotIn-append m n [] h e = (e, tt)
NotIn-append m n (x ∷ xs) h e = (h.0, NotIn-append m n xs h.1 e)

pub Distinct-append : (n : ℕ) (xs : List ℕ) → Distinct xs → NotIn n xs → Distinct (xs ++ (n ∷ []))
Distinct-append n [] d h = (tt, tt)
Distinct-append n (x ∷ xs) d h =
    (NotIn-append x n xs d.0 (λ e. h.0 (sym e)), Distinct-append n xs d.1 h.1)

pub All-append {ℓ κ} :
    {A : Type ℓ} (P : A → Type κ) (xs ys : List A) → All P xs → All P ys → All P (xs ++ ys)
All-append P [] ys hx hy = hy
All-append P (x ∷ xs) ys hx hy = (hx.0, All-append P xs ys hx.1 hy)

pub NotIn-last : (n a : ℕ) (ns : List ℕ) → NotIn n (a ∷ ns) → n ≢ last a ns
NotIn-last n a [] h = h.0
NotIn-last n a (b ∷ bs) h = NotIn-last n b bs h.1

-- `j` is one of the list's members.
abbrev pub Member : ℕ → List ℕ → Type 0
Member j [] = ⊥
Member j (w ∷ ws) = (j ≡ w) ⊎ Member j ws

pub NotIn-Member : (j : ℕ) (ws : List ℕ) → ¬ Member j ws → NotIn j ws
NotIn-Member j [] h = tt
NotIn-Member j (w ∷ ws) h = ((λ e. h (inl e)), NotIn-Member j ws (λ m. h (inr m)))

pub Member-NotIn : (j : ℕ) (ws : List ℕ) → NotIn j ws → ¬ Member j ws
Member-NotIn j [] h m = m
Member-NotIn j (w ∷ ws) h (inl e) = h.0 e
Member-NotIn j (w ∷ ws) h (inr m) = Member-NotIn j ws h.1 m

-- Whether a test holds of all elements.
abbrev pub every {ℓ} : {A : Type ℓ} → (A → Bool) → List A → Bool
every p [] = true
every p (x ∷ xs) = p x && every p xs
