-- ===== src/Deque/Contents.antt =====
-- The deque as a list: push at the bottom, pop from the bottom, steal from the top.
use libfiber.Prelude.{ℕ, suc, ◌+◌, ◌-◌, ◌^◌, ◌≤◌, ◌<◌, ◌≡◌, ◌⊎◌, inl, inr, refl, arith}
use libfiber.Prelude.{List, [], ◌∷◌, ◌++◌, length, some, true, false, leb, if◌then◌else◌}
use libfiber.Deque.{CircularArray, size, put, grow, Deque}
use libfiber.Prelude.{sub64}
use libfiber.Deque.{size_of, push_bottom, add64}
use libfiber.Deque.Cells.{
  slice, slice-put, get-put, slice-append, length-slice, slice-grow, size-pos,
}

-- Room for one more element is kept, and the counters are far from the sign bit.
pub record IsValid (d : Deque) : Type 0 where
  pub ordered : d.top ≤ d.bottom
  pub fits : d.bottom - d.top < size d.underlying_array
  pub small : d.bottom + 1 < 2 ^ 63

-- The elements from the top to the bottom.
abbrev pub contents : Deque → List ℕ
contents d = slice d.underlying_array d.top (d.bottom - d.top)

-- The size is the number of elements.
pub size_of-contents : (d : Deque) → IsValid d → size_of d ≡ length (contents d)
unfolding size_of
size_of-contents d v = ground (arith, v, length-slice d.underlying_array d.top (d.bottom - d.top))

-- The array that a push writes to: the old elements are in it, and there is room for two more.
record Roomy (d : Deque) (a : CircularArray) : Type 0 where
  same : slice a d.top (d.bottom - d.top) ≡ contents d
  room : d.bottom - d.top + 1 < size a

Roomy-put :
    (d : Deque) (a : CircularArray) (p : ℕ)
    → IsValid d
    → d.bottom + 2 < 2 ^ 63
    → Roomy d a
    → let e = record d { underlying_array = put a d.bottom p; bottom = add64 d.bottom 1 } in
      IsValid e × (contents e ≡ contents d ++ (p ∷ []))
Roomy-put d a p v h r = (
  record { ordered = omega (arith, v); fits = omega (arith, v, r.room); small = omega (arith, v) },
  both,
)
  where
    more : add64 d.bottom 1 - d.top ≡ suc (d.bottom - d.top)
    more = omega (arith, v)

    there : d.top + (d.bottom - d.top) ≡ d.bottom
    there = omega (arith, v)

    both : slice (put a d.bottom p) d.top (add64 d.bottom 1 - d.top) ≡ contents d ++ (p ∷ [])
    both = rw (
      more,
      slice-append (put a d.bottom p) d.top (d.bottom - d.top),
      slice-put a d.bottom p d.top (d.bottom - d.top) (omega (arith, v)) (omega (arith, v, r.room)),
      r.same,
      there,
      get-put a d.bottom p,
    )

-- The array after the test for growth.
abbrev target : (ℕ → ℕ) → Deque → CircularArray
target garbage d =
    if leb (size d.underlying_array - 1) (sub64 d.bottom d.top)
    then grow garbage d.underlying_array d.top d.bottom
    else d.underlying_array

target-Roomy : (garbage : ℕ → ℕ) (d : Deque) → IsValid d → Roomy d (target garbage d)
target-Roomy garbage d v = elim (full-cases) [
  | inl (t, full) ↦ rw t (record {
    same = (slice-grow garbage d.underlying_array d.top d.bottom v.ordered (omega (arith, v))).0;
    room = omega (
      arith,
      v,
      full,
      size-pos d.underlying_array,
      (slice-grow garbage d.underlying_array d.top d.bottom v.ordered (omega (arith, v))).1,
    );
  })
  | inr (t, more) ↦ rw t (record { same = refl; room = omega (arith, more) })
]
  where
    full-cases :
        ((leb (size d.underlying_array - 1) (sub64 d.bottom d.top) ≡ true)
          × (size d.underlying_array - 1 ≤ d.bottom - d.top))
        ⊎ ((leb (size d.underlying_array - 1) (sub64 d.bottom d.top) ≡ false)
            × (d.bottom - d.top < size d.underlying_array - 1))
    full-cases = ground (arith, v)

-- Whatever garbage a new array starts with, a push on a valid deque leaves it valid with the new
-- element at the bottom, growing the array when it is full.
pub push_bottom-contents :
    (garbage : ℕ → ℕ) (d : Deque) (p : ℕ)
    → IsValid d
    → d.bottom + 2 < 2 ^ 63
    → (e : Deque) × (push_bottom true garbage d p ≡ some e)
      × IsValid e
      × (contents e ≡ contents d ++ (p ∷ []))
unfolding push_bottom
push_bottom-contents garbage d p v h =
    let (valid, same) = Roomy-put d (target garbage d) p v h (target-Roomy garbage d v) in
    (
      record d { underlying_array = put (target garbage d) d.bottom p; bottom = add64 d.bottom 1 },
      pushed,
      valid,
      same,
    )
  where
    pushed :
        push_bottom true garbage d p
        ≡ some (record d {
          underlying_array = put (target garbage d) d.bottom p;
          bottom = add64 d.bottom 1;
        })
    pushed = ground arith
