-- ===== src/Deque/Taking.antt =====
-- What a pop from the bottom and a steal from the top do to the elements of a valid deque.
use libfiber.Prelude.{
  ℕ, zero, suc, ◌+◌, ◌-◌, ◌<◌, ◌≡◌, ◌⊎◌, inl, inr, refl, ap, ap₂, eq-cases, ◌∙◌, arith,
}
use libfiber.Prelude.{List, [], ◌∷◌, ◌++◌, Bool, true, false, if◌then◌else◌}
use libfiber.Deque.{CircularArray, get, Deque, Taken, item, empty, abort}
use libfiber.Deque.{pop_bottom, steal}
use libfiber.Deque.Cells.{slice, slice-append, size-pos}
use libfiber.Deque.Contents.{IsValid, contents}

-- What a pop or a steal did to the elements.
abbrev pub Taking : Bool → Deque → Deque × Taken → (ℕ → List ℕ → Type 0) → Type 0
Taking exchanged d out P =
    IsValid out.0
    × (((out.1 ≡ empty) × (contents d ≡ []) × (contents out.0 ≡ []))
        ⊎ (((out.1 ≡ abort) × (exchanged ≡ false) × (contents out.0 ≡ contents d))
            ⊎ ((p : ℕ) × (out.1 ≡ item p) × P p (contents out.0))))

count-cases :
    (d : Deque) → IsValid d → (d.bottom ≡ d.top) ⊎ ((d.bottom ≡ d.top + 1) ⊎ (d.top + 1 < d.bottom))
count-cases d v = ground (arith, v)

pop_bottom-none :
    (x : Bool) (d : Deque)
    → IsValid d
    → d.bottom ≡ d.top
    → pop_bottom x d ≡ (record d { bottom = d.top }, empty)
unfolding pop_bottom
pop_bottom-none x d v e = ground (arith, v)

pop_bottom-many :
    (x : Bool) (d : Deque)
    → IsValid d
    → d.top + 1 < d.bottom
    → pop_bottom x d
      ≡ (record d { bottom = d.bottom - 1 }, item (get d.underlying_array (d.bottom - 1)))
unfolding pop_bottom
pop_bottom-many x d v e = ground (arith, v)

pop_bottom-one :
    (x : Bool) (d : Deque)
    → IsValid d
    → d.bottom ≡ d.top + 1
    → pop_bottom x d ≡ (
        if x
        then (record d { top = d.top + 1; bottom = d.top + 1 }, item (get d.underlying_array d.top))
        else (d, abort))
unfolding pop_bottom
pop_bottom-one x d v e = ground (arith, v)

slice-none : (a : CircularArray) (t k : ℕ) → k ≡ 0 → slice a t k ≡ []
slice-none a t zero e = refl
slice-none a t (suc k) e = absurd (omega arith)

pub slice-front :
    (a : CircularArray) (t k : ℕ) → 0 < k → slice a t k ≡ get a t ∷ slice a (t + 1) (k - 1)
slice-front a t zero h = absurd (omega arith)
slice-front a t (suc k) h = ap (λ m. get a t ∷ slice a (t + 1) m) (omega arith)

slice-back :
    (a : CircularArray) (t k : ℕ)
    → 0 < k
    → slice a t k ≡ slice a t (k - 1) ++ (get a (t + k - 1) ∷ [])
slice-back a t zero h = absurd (omega arith)
slice-back a t (suc k) h =
    slice-append a t k ∙ ap₂ (λ m j. slice a t m ++ (get a j ∷ [])) (omega arith) (omega arith)

-- A pop on a valid deque leaves it valid. Only an empty one is reported empty; a pop that loses its
-- compare-exchange aborts and keeps the elements; any other takes the element at the bottom, the
-- last that was pushed.
pub pop_bottom-contents :
    (exchanged : Bool) (d : Deque)
    → IsValid d
    → Taking exchanged d (pop_bottom exchanged d) (λ p rest. contents d ≡ rest ++ (p ∷ []))
pop_bottom-contents exchanged d v = elim (count-cases d v) [
  | inl e ↦ rw (pop_bottom-none exchanged d v e) (
    record {
      ordered = omega arith;
      fits = omega (arith, size-pos d.underlying_array);
      small = omega (arith, v);
    },
    inl (
      refl,
      slice-none d.underlying_array d.top _ (omega arith),
      slice-none d.underlying_array d.top _ (omega arith),
    ),
  )
  | inr (inr many) ↦ rw (pop_bottom-many exchanged d v many) (
    record { ordered = omega arith; fits = omega (arith, v); small = omega (arith, v) },
    inr (inr (get d.underlying_array (d.bottom - 1), refl, last_many many)),
  )
  | inr (inl one) ↦ rw (pop_bottom-one exchanged d v one) (by_exchange exchanged one)
]
  where
    last_many :
        d.top + 1 < d.bottom
        → contents d
          ≡ slice d.underlying_array d.top (d.bottom - 1 - d.top)
            ++ (get d.underlying_array (d.bottom - 1) ∷ [])
    last_many many =
        slice-back d.underlying_array d.top (d.bottom - d.top) (omega arith)
        ∙ ap₂ (λ m j. slice d.underlying_array d.top m ++ (get d.underlying_array j ∷ []))
            (omega arith) (omega arith)

    by_exchange :
        (x : Bool)
        → d.bottom ≡ d.top + 1
        → Taking x d
            (if x
              then (
                record d { top = d.top + 1; bottom = d.top + 1 },
                item (get d.underlying_array d.top),
              )
              else (d, abort))
            (λ p rest. contents d ≡ rest ++ (p ∷ []))
    by_exchange true one = (
      record {
        ordered = omega arith;
        fits = omega (arith, size-pos d.underlying_array);
        small = omega (arith, v);
      },
      inr (inr (get d.underlying_array d.top, refl, only one)),
    )
      where
        only :
            d.bottom ≡ d.top + 1
            → contents d
              ≡ slice d.underlying_array (d.top + 1) (d.top + 1 - (d.top + 1))
                ++ (get d.underlying_array d.top ∷ [])
        only one =
            slice-front d.underlying_array d.top (d.bottom - d.top) (omega arith)
            ∙ rw (
              slice-none d.underlying_array (d.top + 1) (d.bottom - d.top - 1) (omega arith),
              slice-none d.underlying_array (d.top + 1) (d.top + 1 - (d.top + 1)) (omega arith),
            )
    by_exchange false one = (v, inr (inl (refl, refl, refl)))

steal-none : (x : Bool) (d : Deque) → IsValid d → d.bottom ≡ d.top → steal x d ≡ (d, empty)
unfolding steal
steal-none x d v e = ground (arith, v)

steal-some :
    (x : Bool) (d : Deque)
    → IsValid d
    → d.top < d.bottom
    → steal x d ≡ (
        if x
        then (record d { top = d.top + 1 }, item (get d.underlying_array d.top))
        else (d, abort))
unfolding steal
steal-some x d v e = ground (arith, v)

-- A steal on a valid deque leaves it valid. Only an empty one is reported empty; a steal that loses
-- its compare-exchange aborts and keeps the elements; any other takes the element at the top, the
-- oldest.
pub steal-contents :
    (exchanged : Bool) (d : Deque)
    → IsValid d
    → Taking exchanged d (steal exchanged d) (λ p rest. contents d ≡ p ∷ rest)
steal-contents exchanged d v = elim (eq-cases d.bottom d.top) [
  | inl e ↦ rw (steal-none exchanged d v e) (
    v,
    inl (
      refl,
      slice-none d.underlying_array d.top _ (omega arith),
      slice-none d.underlying_array d.top _ (omega arith),
    ),
  )
  | inr ne ↦
      rw (steal-some exchanged d v (omega (arith, v, ne)))
        (by_exchange exchanged (omega (arith, v, ne)))
]
  where
    by_exchange :
        (x : Bool)
        → d.top < d.bottom
        → Taking x d
            (if x
              then (record d { top = d.top + 1 }, item (get d.underlying_array d.top))
              else (d, abort))
            (λ p rest. contents d ≡ p ∷ rest)
    by_exchange true h = (
      record { ordered = omega arith; fits = omega (arith, v); small = omega (arith, v) },
      inr (
          inr (
            get d.underlying_array d.top,
            refl,
            slice-front d.underlying_array d.top (d.bottom - d.top) (omega arith)
                ∙ ap (λ m. get d.underlying_array d.top ∷ slice d.underlying_array (d.top + 1) m)
                    (omega arith),
          )),
    )
    by_exchange false h = (v, inr (inl (refl, refl, refl)))
