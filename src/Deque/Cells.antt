-- ===== src/Deque/Cells.antt =====
-- The circular array: cells that are less than its size apart are different cells.
use libfiber.Prelude.{
  pow-pos, ℕ, zero, suc, ◌+◌, ◌-◌, ◌*◌, ◌%◌, ◌^◌, ◌≤◌, ◌<◌, ◌≡◌, ◌≢◌, refl, sym, ap, ap₂, ◌∙◌,
  arith, update_self, update_ne, dec_lt,
}
use libfiber.Prelude.{List, [], ◌∷◌, ◌++◌, length}
use native.Mathlib.Nat.{mod-add-mod, mod-eq_of_lt, mod-eq-sub-mod, pow-suc, add-zero, zero-add}
use native.Mathlib.Numerals.{add-one}
use libfiber.Deque.{CircularArray, size, create, get, put, copy, grow}

near : (m h d : ℕ) → h < m → 0 < d → d < m → (h + d) % m ≢ h
near m h d hh hd dm = elim (dec_lt (h + d) m) [
  | yes low ↦ omega (arith, mod-eq_of_lt low)
  | no high ↦ omega (
    arith,
    mod-eq-sub-mod {n = h + d} {m = m} (omega arith),
    mod-eq_of_lt {n = h + d - m} {m = m} (omega arith),
  )
]

pub mod-ne : (m i d : ℕ) → 0 < d → d < m → i % m ≢ (i + d) % m
mod-ne m i d hd dm e = near m (i % m) d (omega arith) hd dm (mod-add-mod i m d ∙ sym e)

pub size-pos : (a : CircularArray) → 0 < size a
size-pos a = pow-pos a.log_size

-- The `k` elements from index `t` on.
abbrev pub slice : CircularArray → ℕ → ℕ → List ℕ
slice a t zero = []
slice a t (suc k) = get a t ∷ slice a (t + 1) k

-- A write just behind a slice leaves it, if the slice is shorter than the array.
pub slice-put :
    (a : CircularArray) (i p t k : ℕ)
    → t + k ≤ i
    → i < t + size a
    → slice (put a i p) t k ≡ slice a t k
slice-put a i p t zero h l = refl
slice-put a i p t (suc k) h l =
    ap₂ ◌∷◌ (update_ne a.cell (i % size a) (t % size a) p apart)
      (slice-put a i p (t + 1) k (omega arith) (omega arith))
  where
    apart : i % size a ≢ t % size a
    apart e =
        mod-ne (size a) t (i - t) (omega arith) (omega arith)
          (sym e ∙ ap (λ j. j % size a) (omega arith))

pub get-put : (a : CircularArray) (i p : ℕ) → get (put a i p) i ≡ p
get-put a i p = update_self a.cell (i % size a) p

pub slice-append :
    (a : CircularArray) (t k : ℕ) → slice a t (suc k) ≡ slice a t k ++ (get a (t + k) ∷ [])
slice-append a t zero = ap (λ j. get a j ∷ []) (omega arith)
slice-append a t (suc k) =
    rw (slice-append a (t + 1) k)
      (ap (λ j. get a t ∷ (slice a (t + 1) k ++ (get a j ∷ []))) (omega arith))

pub length-slice : (a : CircularArray) (t k : ℕ) → length (slice a t k) ≡ k
length-slice a t zero = refl
length-slice a t (suc k) = ap suc (length-slice a (t + 1) k)

copy-log_size : (a b : CircularArray) (i k : ℕ) → (copy a b i k).log_size ≡ b.log_size
unfolding copy
copy-log_size a b i zero = refl
copy-log_size a b i (suc k) = copy-log_size a (put b i (get a i)) (i + 1) k

-- The loop has copied `m` elements from `t` on, and copies the next `k`.
copy-slice :
    (a b : CircularArray) (t m k : ℕ)
    → m + k ≤ size b
    → slice b t m ≡ slice a t m
    → slice (copy a b (t + m) k) t (m + k) ≡ slice a t (m + k)
unfolding copy
copy-slice a b t m zero h e = rw (add-zero, e)
copy-slice a b t m (suc k) h e = rw (next, total) (copy-slice a c t (suc m) k (omega arith) copied)
  where
    c : CircularArray
    c = put b (t + m) (get a (t + m))

    next : t + m + 1 ≡ t + suc m
    next = omega arith

    total : m + suc k ≡ suc m + k
    total = omega arith

    copied : slice c t (suc m) ≡ slice a t (suc m)
    copied = rw (
      slice-append c t m,
      slice-append a t m,
      slice-put b (t + m) (get a (t + m)) t m (omega arith) (omega arith),
      get-put b (t + m) (get a (t + m)),
      e,
    )

-- The new array has the elements of the old one.
pub slice-grow :
    (garbage : ℕ → ℕ) (a : CircularArray) (t b : ℕ)
    → t ≤ b
    → b - t ≤ size a
    → (slice (grow garbage a t b) t (b - t) ≡ slice a t (b - t))
      × (size (grow garbage a t b) ≡ 2 * size a)
unfolding grow
slice-grow garbage a t b le fit = (
  simp (add-zero, zero-add) at
      (copy-slice a (create garbage (a.log_size + 1)) t 0 (b - t) (omega (arith, double)) refl),
  ap (λ k. 2 ^ k) (copy-log_size a (create garbage (a.log_size + 1)) t (b - t)) ∙ double,
)
  where
    double : 2 ^ (a.log_size + 1) ≡ 2 * size a
    double = omega (arith, pow-suc 2 a.log_size, ap (λ k. 2 ^ k) (add-one a.log_size))
