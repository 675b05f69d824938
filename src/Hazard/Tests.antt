-- ===== src/Hazard/Tests.antt =====
-- A scan of two records, with insertion sort for `qsort`.
use libfiber.Prelude.{ℕ, ◌≡◌, true, refl, arith, some, List, [], ◌∷◌}
use libfiber.Hazard.{ThreadRecord, Records, Comparison, above, hazard_pointer_compare, scan}
use libfiber.Hazard.Search.{Ascending, contains}
use libfiber.Hazard.Scan.{IsValid, pointers, scan-exact}

abbrev insert : (ℕ → ℕ → Comparison) → ℕ → List ℕ → List ℕ
insert compare x [] = x ∷ []
insert compare x (y ∷ ys) = elim (compare x y) [ above ↦ y ∷ insert compare x ys | _ ↦ x ∷ y ∷ ys ]

abbrev insertion_sort : (ℕ → ℕ → Comparison) → List ℕ → List ℕ
insertion_sort compare [] = []
insertion_sort compare (x ∷ xs) = insert compare x (insertion_sort compare xs)

abbrev mine : ThreadRecord
mine = record {
  retire_threshold = 8;
  retired_count = 3;
  retired_list = 5 ∷ 6 ∷ 9 ∷ [];
  hazard_pointers = 0 ∷ 7 ∷ [];
}

abbrev other : ThreadRecord
other = record {
  retire_threshold = 8;
  retired_count = 0;
  retired_list = [];
  hazard_pointers = 9 ∷ 5 ∷ [];
}

abbrev both : Records
both = mine ∷ other ∷ []

both-IsValid : IsValid 2 both
both-IsValid = ((refl, refl), ((refl, refl), tt))

both-Ascending : Ascending (insertion_sort hazard_pointer_compare (pointers both))
unfolding hazard_pointer_compare
both-Ascending = ((λ e. ground arith, (λ e. ground arith, tt)), ((λ e. ground arith, tt), (tt, tt)))

both-contains :
    (n : ℕ)
    → contains n (insertion_sort hazard_pointer_compare (pointers both))
      ≡ contains n (pointers both)
unfolding hazard_pointer_compare
both-contains n = ground arith

three-Ascending : Ascending (2 ∷ 4 ∷ 9 ∷ [])
unfolding hazard_pointer_compare
three-Ascending =
    ((λ e. ground arith, (λ e. ground arith, tt)), ((λ e. ground arith, tt), (tt, tt)))

scan-exact_example :
    scan insertion_sort (λ n. true) both mine
    ≡ some (record mine { retired_list = 9 ∷ 5 ∷ []; retired_count = 2 }, 6 ∷ [])
scan-exact_example =
    scan-exact insertion_sort (λ n. true) 2 mine (other ∷ []) mine (omega arith) both-IsValid
      (refl, (refl, (refl, tt))) both-Ascending both-contains
