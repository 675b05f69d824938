-- ===== src/Hazard/Search.antt =====
-- The search in a sorted array.
use libfiber.Prelude.{
  ℕ, zero, suc, ◌+◌, ◌-◌, ◌/◌, ◌≤◌, ◌<◌, ◌≡◌, ◌≢◌, ◌⊎◌, inl, inr, refl, arith, Bool, true, false,
  ◌==◌, ◌||◌, some, List, [], ◌∷◌, length, All, ap, sym, ◌∙◌,
}
use libfiber.Hazard.{above, hazard_pointer_compare, entry, search_loop, binary_search}

-- By the comparison, no entry is above a later one.
abbrev pub Ascending : List ℕ → Type 0
Ascending [] = Unit
Ascending (x ∷ xs) = All (λ y. hazard_pointer_compare x y ≢ above) xs × Ascending xs

abbrev pub contains : ℕ → List ℕ → Bool
contains n [] = false
contains n (x ∷ xs) = (x == n) || contains n xs

not_above : (x y : ℕ) → hazard_pointer_compare x y ≢ above → x ≤ y
unfolding hazard_pointer_compare
not_above x y h = ground (arith, h)

least :
    (x : ℕ) (xs : List ℕ) (i : ℕ)
    → All (λ y. hazard_pointer_compare x y ≢ above) xs
    → i < length xs
    → x ≤ entry xs i
least x [] i h l = ground arith
least x (y ∷ ys) zero h l = not_above x y h.0
least x (y ∷ ys) (suc i) h l = least x ys i h.1 (omega (arith, l))

entry-le : (xs : List ℕ) (i j : ℕ) → Ascending xs → i ≤ j → j < length xs → entry xs i ≤ entry xs j
entry-le [] i j h l m = ground arith
entry-le (x ∷ xs) zero zero h l m = omega arith
entry-le (x ∷ xs) zero (suc j) h l m = least x xs j h.0 (omega (arith, m))
entry-le (x ∷ xs) (suc i) zero h l m = ground arith
entry-le (x ∷ xs) (suc i) (suc j) h l m = entry-le xs i j h.1 (omega (arith, l)) (omega (arith, m))

contains-entry :
    (n : ℕ) (xs : List ℕ) (i : ℕ) → i < length xs → entry xs i ≡ n → contains n xs ≡ true
contains-entry n [] i l e = ground arith
contains-entry n (x ∷ xs) zero l e = ground (arith, e)
contains-entry n (x ∷ xs) (suc i) l e =
    rw (contains-entry n xs i (omega (arith, l)) e) (ground arith)

contains-none :
    (n : ℕ) (xs : List ℕ) → ((i : ℕ) → i < length xs → entry xs i ≢ n) → contains n xs ≡ false
contains-none n [] h = refl
contains-none n (x ∷ xs) h =
    rw (contains-none n xs (λ i l. h (suc i) (omega (arith, l))))
      (ground (arith, h 0 (omega arith)))

abbrev middle : ℕ → ℕ → ℕ
middle start past = (start + past - 1) / 2

step-left :
    (fuel : ℕ) (xs : List ℕ) (start past n : ℕ)
    → start < past
    → past ≤ length xs
    → n < entry xs (middle start past)
    → search_loop (suc fuel) xs start past n ≡ search_loop fuel xs start (middle start past) n
unfolding search_loop
step-left fuel xs start past n o p h = ground (arith, o, p, h)

step-right :
    (fuel : ℕ) (xs : List ℕ) (start past n : ℕ)
    → start < past
    → past ≤ length xs
    → entry xs (middle start past) < n
    → search_loop (suc fuel) xs start past n ≡ search_loop fuel xs (middle start past + 1) past n
unfolding search_loop
step-right fuel xs start past n o p h = ground (arith, o, p, h)

step-found :
    (fuel : ℕ) (xs : List ℕ) (start past n : ℕ)
    → start < past
    → past ≤ length xs
    → entry xs (middle start past) ≡ n
    → search_loop (suc fuel) xs start past n ≡ some true
unfolding search_loop
step-found fuel xs start past n o p h = ground (arith, o, p, h)

step-end :
    (fuel : ℕ) (xs : List ℕ) (start past n : ℕ)
    → past ≤ start
    → search_loop (suc fuel) xs start past n ≡ some false
unfolding search_loop
step-end fuel xs start past n o = ground (arith, o)

order-cases :
    (start past v n : ℕ) → (past ≤ start) ⊎ ((start < past) × ((n < v) ⊎ ((v ≡ n) ⊎ (v < n))))
order-cases start past v n = ground arith

-- With more fuel than there are entries left, when those before `start` are below the needle and those
-- from `past` on above it.
search_loop-contains :
    (fuel : ℕ) (xs : List ℕ) (start past n : ℕ)
    → Ascending xs
    → start ≤ past
    → past < start + fuel
    → past ≤ length xs
    → ((i : ℕ) → i < start → i < length xs → entry xs i < n)
    → ((i : ℕ) → past ≤ i → i < length xs → n < entry xs i)
    → search_loop fuel xs start past n ≡ some (contains n xs)
search_loop-contains zero xs start past n a o f p lo hi = ground arith
search_loop-contains (suc fuel) xs start past n a o f p lo hi =
    elim (order-cases start past (entry xs m) n) [
      | inl e ↦
          step-end fuel xs start past n e
          ∙ ap some (sym (contains-none n xs (λ i l q. ground (arith, lo i, hi i))))
      | inr (l, inl h) ↦
          step-left fuel xs start past n l p h
          ∙ search_loop-contains fuel xs start m n a (omega arith) (omega arith) (omega arith) lo
              (λ i g k. omega (arith, entry-le xs m i a g k))
      | inr (l, inr (inl h)) ↦
          step-found fuel xs start past n l p h
          ∙ ap some (sym (contains-entry n xs m (omega arith) h))
      | inr (l, inr (inr h)) ↦
          step-right fuel xs start past n l p h
          ∙ search_loop-contains fuel xs (m + 1) past n a (omega arith) (omega arith) p
              (λ i g k. omega (arith, entry-le xs i m a (omega arith) (omega arith))) hi
    ]
  where
    m : ℕ
    m = (start + past - 1) / 2

-- In a sorted array `binary_search` ends, none of its assertions on indices fails, and it finds a value
-- exactly when the array contains it.
pub binary_search-contains :
    (xs : List ℕ) (n : ℕ) → Ascending xs → binary_search xs n ≡ some (contains n xs)
unfolding binary_search
binary_search-contains xs n a =
    search_loop-contains (length xs + 1) xs 0 (length xs) n a (omega arith) (omega arith)
      (omega arith) (λ i l m. ground arith) (λ i l m. ground arith)
