-- ===== src/Sleepers/Order.antt =====
-- The tree of sleepers as the list of its elements by time.
use libfiber.Prelude.{
  ℕ, ◌+◌, ◌≤◌, ◌<◌, ◌≡◌, inl, inr, refl, ap, subst, arith, true, ◌==◌, ltb, Bool-cases, Option,
  none, some, List, [], ◌∷◌, ◌++◌, map, append_assoc, All, All-append,
}
use libfiber.Sleepers.{
  Tree, leaf, node, waiter_insert, elements, in_left, waiter_remove_less_than, size,
}

abbrev pub entries : Tree → List (ℕ × ℕ)
entries leaf = []
entries (node left time first next right) =
    entries left ++ (elements time first next ++ entries right)

abbrev pub IsOrdered : Tree → Type 0
IsOrdered leaf = Unit
IsOrdered (node left time first next right) =
    All (λ e. e.0 < time) (entries left)
    × All (λ e. time < e.0) (entries right)
    × IsOrdered left
    × IsOrdered right

module _ (P : ℕ × ℕ → Type 0) where
  pub All-left : (xs ys : List (ℕ × ℕ)) → All P (xs ++ ys) → All P xs
  All-left [] ys h = tt
  All-left (x ∷ xs) ys h = (h.0, All-left xs ys h.1)

  pub All-right : (xs ys : List (ℕ × ℕ)) → All P (xs ++ ys) → All P ys
  All-right [] ys h = h
  All-right (x ∷ xs) ys h = All-right xs ys h.1

  -- What holds of all elements and of the new one holds after an insertion.
  pub waiter_insert-All :
      (t w : ℕ) (tree : Tree)
      → P (t, w)
      → All P (entries tree)
      → All P (entries (waiter_insert t w tree))
  unfolding waiter_insert
  waiter_insert-All t w leaf h a = (h, tt)
  waiter_insert-All t w (node l k v next r) h a = elim (Bool-cases (ltb t k)) [
    | inl lt ↦ rw lt (
        All-append P (entries (waiter_insert t w l)) _
          (waiter_insert-All t w l h (All-left (entries l) _ a)) (All-right (entries l) _ a))
    | inr ge ↦ elim (Bool-cases (t == k)) [
      | inl eq ↦
          rw (ge, eq)
            (All-append P (entries l) (elements k v (w ∷ next) ++ entries r)
              (All-left (entries l) _ a)
              (rest.0, (subst (λ x. P (x, w)) (ground (arith, eq)) h, rest.1)))
      | inr ne ↦
          rw (ge, ne)
            (All-append P (entries l) (elements k v next ++ entries (waiter_insert t w r))
              (All-left (entries l) _ a)
              (
                rest.0,
                All-append P (map (λ x. (k, x)) next) _ (All-left (map (λ x. (k, x)) next) _ rest.1)
                    (waiter_insert-All t w r h (All-right (map (λ x. (k, x)) next) _ rest.1)),
              ))
    ]
  ]
    where
      rest : P (k, v) × All P (map (λ x. (k, x)) next ++ entries r)
      rest = All-right (entries l) (elements k v next ++ entries r) a

pub waiter_insert-IsOrdered :
    (t w : ℕ) (tree : Tree) → IsOrdered tree → IsOrdered (waiter_insert t w tree)
unfolding waiter_insert
waiter_insert-IsOrdered t w leaf o = (tt, tt, tt, tt)
waiter_insert-IsOrdered t w (node l k v next r) (a, b, c, d) = elim (Bool-cases (ltb t k)) [
  | inl lt ↦ rw lt (
    waiter_insert-All (λ e. e.0 < k) t w l (ground (arith, lt)) a,
    b,
    waiter_insert-IsOrdered t w l c,
    d,
  )
  | inr ge ↦ elim (Bool-cases (t == k)) [
    | inl eq ↦ rw (ge, eq) (a, b, c, d)
    | inr ne ↦
        rw (ge, ne)
          (
            a,
            waiter_insert-All (λ e. k < e.0) t w r (ground (arith, ge, ne)) b,
            c,
            waiter_insert-IsOrdered t w r d,
          )
  ]
]

module _ (f : ℕ × ℕ → ℕ) where
  -- The weights of elements, added up.
  abbrev pub total : List (ℕ × ℕ) → ℕ
  total [] = 0
  total (e ∷ es) = f e + total es

  pub total-append : (xs ys : List (ℕ × ℕ)) → total (xs ++ ys) ≡ total xs + total ys
  total-append [] ys = omega arith
  total-append (x ∷ xs) ys = omega (arith, total-append xs ys)

  -- An insertion adds the new element, and nothing else.
  pub waiter_insert-total :
      (t w : ℕ) (tree : Tree)
      → total (entries (waiter_insert t w tree)) ≡ total (entries tree) + f (t, w)
  unfolding waiter_insert
  waiter_insert-total t w leaf = omega arith
  waiter_insert-total t w (node l k v next r) = elim (Bool-cases (ltb t k)) [
    | inl lt ↦ rw lt (
        omega (
          arith,
          waiter_insert-total t w l,
          total-append (entries l),
          total-append (entries (waiter_insert t w l)),
        ))
    | inr ge ↦ elim (Bool-cases (t == k)) [
      | inl eq ↦ rw (ge, eq) (omega (arith, total-append (entries l), ap (λ x. f (x, w)) (same eq)))
      | inr ne ↦
          rw (ge, ne)
            (omega (
              arith,
              waiter_insert-total t w r,
              total-append (entries l),
              total-append (map (λ x. (k, x)) next),
            ))
    ]
  ]
    where
      same : (t == k) ≡ true → t ≡ k
      same eq = ground (arith, eq)

-- What a removal of the elements below `t` gives.
abbrev pub Removed : ℕ → Tree → Option (List (ℕ × ℕ) × Tree) → Type 0
Removed t tree none = All (λ e. t ≤ e.0) (entries tree)
Removed t tree (some (es, tree')) =
    (entries tree ≡ es ++ entries tree')
    × All (λ e. e.0 < t) es
    × IsOrdered tree'
    × (size tree' < size tree)

All-imp :
    (P Q : ℕ × ℕ → Type 0) → ((e : ℕ × ℕ) → P e → Q e) → (xs : List (ℕ × ℕ)) → All P xs → All Q xs
All-imp P Q h [] a = tt
All-imp P Q h (x ∷ xs) a = (h x a.0, All-imp P Q h xs a.1)

elements-All :
    (P : ℕ → Type 0) (k v : ℕ) (next : List ℕ)
    → P k
    → All (λ (e : ℕ × ℕ). P e.0) (elements k v next)
elements-All P k v next h = (h, each next)
  where
    each : (ws : List ℕ) → All (λ (e : ℕ × ℕ). P e.0) (map (λ w. (k, w)) ws)
    each [] = tt
    each (w ∷ ws) = (h, each ws)

in_left-Removed :
    (t : ℕ) (l : Tree) (k v : ℕ) (next : List ℕ) (r : Tree) (o : Option (List (ℕ × ℕ) × Tree))
    → IsOrdered (node l k v next r)
    → 0 < size l
    → Removed t l o
    → Removed t (node l k v next r) (in_left k v next r o)
in_left-Removed t leaf k v next r none o pos h = absurd (omega (arith, pos))
in_left-Removed t (node l1 k1 v1 n1 r1) k v next r none (a, b, c, d) pos h =
    All-append (λ e. t ≤ e.0) (entries (node l1 k1 v1 n1 r1)) (elements k v next ++ entries r) h
      (All-append (λ e. t ≤ e.0) (elements k v next) (entries r)
        (elements-All (λ x. t ≤ x) k v next low)
        (All-imp (λ e. k < e.0) (λ e. t ≤ e.0) (λ e g. omega (arith, g, low)) (entries r) b))
  where
    low : t ≤ k
    low = omega (
      arith,
      (All-right (λ e. t ≤ e.0) (entries l1) (elements k1 v1 n1 ++ entries r1) h).0,
      (All-right (λ e. e.0 < k) (entries l1) (elements k1 v1 n1 ++ entries r1) a).0,
    )
in_left-Removed t l k v next r (some (es, l')) (a, b, c, d) pos (q, lt, ord, sm) = (
  rw q (append_assoc es (entries l') (elements k v next ++ entries r)),
  lt,
  (All-right (λ e. e.0 < k) es (entries l') (subst (All (λ e. e.0 < k)) q a), b, ord, d),
  omega (arith, sm),
)

pub waiter_remove_less_than-Removed :
    (t : ℕ) (tree : Tree) → IsOrdered tree → Removed t tree (waiter_remove_less_than tree t)
unfolding waiter_remove_less_than
waiter_remove_less_than-Removed t leaf o = tt
waiter_remove_less_than-Removed t (node leaf k v next r) (a, b, c, d) =
    elim (Bool-cases (ltb k t)) [
      | inl lt ↦
          rw lt (refl, elements-All (λ x. x < t) k v next (ground (arith, lt)), d, omega arith)
      | inr ge ↦ rw ge (
          All-append (λ e. t ≤ e.0) (elements k v next) (entries r)
            (elements-All (λ x. t ≤ x) k v next (ground (arith, ge)))
            (All-imp (λ e. k < e.0) (λ e. t ≤ e.0) (λ e g. ground (arith, g, ge)) (entries r) b))
    ]
waiter_remove_less_than-Removed t (node (node l k' v' n' r') k v next r) o =
    in_left-Removed t (node l k' v' n' r') k v next r _ o (omega arith)
      (waiter_remove_less_than-Removed t (node l k' v' n' r') o.2)
