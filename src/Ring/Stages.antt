-- ===== src/Ring/Stages.antt =====
-- The stage that each index of the ring has reached, and what goes with it.
use libfiber.Prelude.{
  ℕ, zero, suc, ◌+◌, ◌-◌, ◌%◌, ◌≤◌, ◌<◌, ◌≡◌, ◌≢◌, ◌⊎◌, inl, inr, refl, subst, arith, List, [], ◌∷◌,
  ◌++◌, length, update, update_self, update_ne, eq-cases,
}
use native.Mathlib.Nat.{mod-add-div, add-mod_right}
use libfiber.Ring.{
  Ring, size, index, Pc, away, push_low, push_both, push_through, storing, pop_high, pop_both,
  pop_through, clearing, System, tail,
}

-- An index is unused; its push has to store; its value is there; its pop has to clear; or it is cleared.
pub data Stage : Type 0 where
  unused full clear : Stage
  stored_by cleared_by : ℕ → Stage

abbrev pub entry : List ℕ → ℕ → ℕ
entry [] i = 0
entry (x ∷ xs) zero = x
entry (x ∷ xs) (suc i) = entry xs i

pub entry-append : (xs : List ℕ) (i v : ℕ) → i < length xs → entry (xs ++ (v ∷ [])) i ≡ entry xs i
entry-append [] i v h = absurd (omega arith)
entry-append (x ∷ xs) zero v h = refl
entry-append (x ∷ xs) (suc i) v h = entry-append xs i v (omega arith)

pub entry-append_last : (xs : List ℕ) (i v : ℕ) → i ≡ length xs → entry (xs ++ (v ∷ [])) i ≡ v
entry-append_last [] zero v h = refl
entry-append_last [] (suc i) v h = absurd (omega arith)
entry-append_last (x ∷ xs) zero v h = absurd (omega arith)
entry-append_last (x ∷ xs) (suc i) v h = entry-append_last xs i v (omega arith)

-- Two indices of the last `n` with the same remainder are one.
pub window :
    (n a b top : ℕ) → 0 < n → a < top → b < top → top ≤ a + n → top ≤ b + n → a % n ≡ b % n → a ≡ b
window n a b top z ha hb ka kb e = grind (arith, mod-add-div a n, mod-add-div b n)

pub mod-next : (n a : ℕ) → (a + n) % n ≡ a % n
mod-next n a = add-mod_right a n

-- What the stage of index `k` says of the counters and of the thread at work on it.
abbrev pub Staged : Ring → (ℕ → Pc) → List ℕ → ℕ → Stage → Type 0
Staged r pc q k unused = r.high ≤ k
Staged r pc q k (stored_by j) =
    (r.low ≤ k)
    × (k < r.high)
    × (pc j ≡ storing (entry q (k - r.low)) k)
    × (entry q (k - r.low) ≢ 0)
Staged r pc q k full = (r.low ≤ k) × (k < r.high)
Staged r pc q k (cleared_by j) = (k < r.low) × (pc j ≡ clearing k)
Staged r pc q k clear = k < r.low

-- What it says of the cell, for one of the last indices; `v` is the entry of the queue.
abbrev pub Filled : Stage → ℕ → ℕ → Type 0
Filled unused c v = Unit
Filled (stored_by j) c v = c ≡ 0
Filled full c v = (c ≡ v) × (v ≢ 0)
Filled (cleared_by j) c v = c ≢ 0
Filled clear c v = c ≡ 0

-- What a thread knows at its point.
abbrev pub Knows : (ℕ → Stage) → Ring → List ℕ → ℕ → Pc → Type 0
Knows st r q i away = Unit
Knows st r q i (push_low v l) = (v ≢ 0) × (l ≤ r.low)
Knows st r q i (push_both v l h) = (v ≢ 0) × (l ≤ r.low) × (h ≤ r.high)
Knows st r q i (push_through v h) =
    (v ≢ 0)
    × ((h < r.high)
        ⊎ ((h ≡ r.high)
            × (h < r.low + size r)
            × ((h < size r) ⊎ ((size r ≤ h) × (st (h - size r) ≡ clear)))))
Knows st r q i (storing v k) = st k ≡ stored_by i
Knows st r q i (pop_high h) = h ≤ r.high
Knows st r q i (pop_both h l) = (h ≤ r.high) × (l ≤ r.low)
Knows st r q i (pop_through l v) =
    (v ≢ 0) × ((l < r.low) ⊎ ((l ≡ r.low) × (st l ≡ full) × (v ≡ entry q 0)))
Knows st r q i (clearing k) = st k ≡ cleared_by i

pub record Inv (st : ℕ → Stage) (s : System) : Type 0 where
  pub some : 0 < size s.ring
  pub order : s.ring.low ≤ s.ring.high
  pub room : s.ring.high ≤ s.ring.low + size s.ring
  pub count : length s.queue + s.ring.low ≡ s.ring.high
  pub history : s.taken ++ s.queue ≡ s.put
  pub staged : (k : ℕ) → Staged s.ring s.pc s.queue k (st k)
  pub filled :
      (k : ℕ)
      → k < s.ring.high
      → s.ring.high ≤ k + size s.ring
      → Filled (st k) (s.ring.buffer (index s.ring k)) (entry s.queue (k - s.ring.low))
  pub virgin : (k : ℕ) → k < size s.ring → s.ring.high ≤ k → s.ring.buffer k ≡ 0
  pub reuse : (k : ℕ) → k + size s.ring < s.ring.high → st k ≡ clear
  pub knows : (i : ℕ) → Knows st s.ring s.queue i (s.pc i)

-- A thread whose point belongs to no index.
abbrev pub Loose : Pc → Type 0
Loose (storing v k) = ⊥
Loose (clearing k) = ⊥
Loose _ = Unit

Staged-move :
    (r : Ring) (pc : ℕ → Pc) (q : List ℕ) (i : ℕ) (p : Pc) (k : ℕ) (t : Stage)
    → Loose (pc i)
    → Staged r pc q k t
    → Staged r (update pc i p) q k t
Staged-move r pc q i p k t l h = ground (arith, l, h)

-- A thread moves between such points.
pub move-Inv :
    {st : ℕ → Stage} {s : System} (i : ℕ) (p : Pc)
    → Inv st s
    → Loose (s.pc i)
    → Knows st s.ring s.queue i p
    → Inv st (record s { pc = update s.pc i p })
move-Inv {st = st} {s = s} i p v l h = record {
  some = v.some;
  order = v.order;
  room = v.room;
  count = v.count;
  history = v.history;
  staged = λ k. Staged-move s.ring s.pc s.queue i p k (st k) l (v.staged k);
  filled = v.filled;
  virgin = v.virgin;
  reuse = v.reuse;
  knows = λ j. ground (arith, v.knows j, h);
}

-- What the threads know after thread `i` has moved.
pub update-Knows :
    (st : ℕ → Stage) (r : Ring) (q : List ℕ) (pc : ℕ → Pc) (i : ℕ) (p : Pc) (j : ℕ)
    → Knows st r q i p
    → (i ≢ j → Knows st r q j (pc j))
    → Knows st r q j (update pc i p j)
update-Knows st r q pc i p j mine other = elim (eq-cases i j) [
  | inl e ↦ subst (λ m. Knows st r q m (update pc i p m)) e (rw (update_self pc i p) mine)
  | inr e ↦ rw (update_ne pc i j p e) (other e)
]

-- An index at which the stage changes.
pub restage {ℓ} :
    (P : ℕ → Stage → Type ℓ) (st : ℕ → Stage) (a : ℕ) (t : Stage) (k : ℕ)
    → P a t
    → (a ≢ k → P k (st k))
    → P k (update st a t k)
restage P st a t k mine other = elim (eq-cases a k) [
  | inl e ↦ subst (λ m. P m (update st a t m)) e (rw (update_self st a t) mine)
  | inr e ↦ rw (update_ne st a k t e) (other e)
]

pub entry-tail : (q : List ℕ) (i : ℕ) → entry (tail q) i ≡ entry q (suc i)
entry-tail [] i = refl
entry-tail (x ∷ xs) i = refl

pub length-tail : (q : List ℕ) → 0 < length q → length (tail q) + 1 ≡ length q
length-tail [] h = absurd (omega arith)
length-tail (x ∷ xs) h = omega arith

pub head-tail : (q : List ℕ) → 0 < length q → entry q 0 ∷ tail q ≡ q
head-tail [] h = absurd (omega arith)
head-tail (x ∷ xs) h = refl
