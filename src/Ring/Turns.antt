-- ===== src/Ring/Turns.antt =====
-- The steps of a thread at the ring.
use libfiber.Prelude.{
  pow-pos, ℕ, ◌+◌, ◌-◌, ◌%◌, ◌^◌, ◌≤◌, ◌<◌, ◌≡◌, ◌≢◌, ◌⊎◌, inl, inr, refl, ap, sym, subst, ◌∙◌,
  arith, true, false, not, ◌&&◌, ◌==◌, ltb, Bool-cases, eq-cases, dec_lt, [], ◌∷◌, ◌++◌, update,
}
use native.Mathlib.Nat.{mod-eq_of_lt}
use libfiber.Prelude.{sub64}
use libfiber.Ring.{
  create, size, index, incr64, Pc, away, push_low, push_both, push_through, storing, pop_high,
  pop_both, pop_through, clearing, System, tail, Action, do_push, do_pop, go, spurious,
  exchange_high, exchange_low, write, act,
}
use libfiber.Ring.Stages.{
  Stage, full, clear, stored_by, cleared_by, entry, mod-next, Staged, Filled, Knows, Inv, Loose,
  move-Inv,
}
use libfiber.Ring.Claim.{grow-Inv, shrink-Inv}
use libfiber.Ring.Cells.{write-Inv}

pub size-pos : (p : ℕ) (s : System) → s.ring ≡ create p → 0 < size s.ring
size-pos p s e = rw e (pow-pos p)

-- The invariant, for some stages.
abbrev pub Holds : System → Type 0
Holds s = (st : ℕ → Stage) × Inv st s

module _ {st : ℕ → Stage} {s : System} (w : Inv st s) (i : ℕ) (b : s.ring.high + 1 < 2 ^ 64) where
  open w use {some, order, room, count, staged, filled, virgin, reuse, knows}

  Knows-at : (p : Pc) → s.pc i ≡ p → Knows st s.ring s.queue i p
  Knows-at p e = subst (Knows st s.ring s.queue i) e (knows i)

  Loose-at : (p : Pc) → s.pc i ≡ p → Loose p → Loose (s.pc i)
  Loose-at p e l = subst Loose (sym e) l

  Staged-at : (k : ℕ) (t : Stage) → st k ≡ t → Staged s.ring s.pc s.queue k t
  Staged-at k t e = subst (Staged s.ring s.pc s.queue k) e (staged k)

  step :
      (p q : Pc)
      → s.pc i ≡ p
      → Loose p
      → Knows st s.ring s.queue i q
      → Holds (record s { pc = update s.pc i q })
  step p q e l h = (st, move-Inv i q w (Loose-at p e l) h)

  -- An index of the last round whose cell is NULL, and whose value has been taken, is clear.
  emptied :
      (k : ℕ) (t : Stage)
      → k < s.ring.low
      → Staged s.ring s.pc s.queue k t
      → Filled t 0 (entry s.queue (k - s.ring.low))
      → t ≡ clear
  emptied k t l h f = ground (arith, h, f, l)

  ready :
      (t : Stage) (c : ℕ)
      → c ≢ 0
      → s.ring.low < s.ring.high
      → Staged s.ring s.pc s.queue s.ring.low t
      → Filled t c (entry s.queue (s.ring.low - s.ring.low))
      → (t ≡ full) × (c ≡ entry s.queue (s.ring.low - s.ring.low))
  ready t c z l h f = ground (arith, h, f, l, z)

  freed :
      (h : ℕ)
      → h ≡ s.ring.high
      → h < s.ring.low + size s.ring
      → s.ring.buffer (index s.ring h) ≡ 0
      → (h < size s.ring) ⊎ ((size s.ring ≤ h) × (st (h - size s.ring) ≡ clear))
  freed h e l z = elim (dec_lt h (size s.ring)) [
    | yes m ↦ inl m
    | no m ↦ inr (
      omega arith,
      emptied (h - size s.ring) (st (h - size s.ring)) (omega arith) (staged (h - size s.ring)) (
          subst
            (λ c. Filled (st (h - size s.ring)) c (entry s.queue (h - size s.ring - s.ring.low)))
            (ap s.ring.buffer (
                sym (mod-next (size s.ring) (h - size s.ring))
                ∙ ap (λ x. x % size s.ring) (omega arith))
              ∙ z)
            (filled (h - size s.ring) (omega arith) (omega arith))),
    )
  ]

  push-passed : (c x n : ℕ) → ((c == 0) && ltb x n) ≡ true → (c ≡ 0) × (x < n)
  push-passed c x n e = ground (arith, e)

  pop-passed : (c x n : ℕ) → (not (c == 0) && ltb x n) ≡ true → (c ≢ 0) × (x < n)
  pop-passed c x n e = ground (arith, e)

  push-Knows :
      (v l h : ℕ)
      → v ≢ 0
      → l ≤ s.ring.low
      → h ≤ s.ring.high
      → s.ring.buffer (index s.ring h) ≡ 0
      → sub64 h l < size s.ring
      → Knows st s.ring s.queue i (push_through v h)
  push-Knows v l h nz a c z f = elim (eq-cases h s.ring.high) [
    | inl e ↦
        let m : h < s.ring.low + size s.ring = omega (arith, b, order) in
        (nz, inr (e, m, freed h e m z))
    | inr ne ↦ (nz, inl (omega arith))
  ]

  pop-Knows :
      (l h : ℕ)
      → l ≤ s.ring.low
      → h ≤ s.ring.high
      → l < h
      → s.ring.buffer (index s.ring l) ≢ 0
      → Knows st s.ring s.queue i (pop_through l (s.ring.buffer (index s.ring l)))
  pop-Knows l h a c m z = elim (eq-cases l s.ring.low) [
    | inl e ↦
        let (f, g) =
          ready (st s.ring.low) (s.ring.buffer (index s.ring l)) z (omega arith) (staged s.ring.low)
            (subst
              (λ x.
                Filled (st s.ring.low) (s.ring.buffer (index s.ring x))
                  (entry s.queue (s.ring.low - s.ring.low)))
              (sym e) (filled s.ring.low (omega arith) room)) in
        (z, inr (e, ap st e ∙ f, g ∙ ap (entry s.queue) (omega arith)))
    | inr ne ↦ (z, inl (omega arith))
  ]

  push_read-Inv : (v l h : ℕ) → s.pc i ≡ push_both v l h → Holds (act go (push_both v l h) s i)
  unfolding act
  push_read-Inv v l h e =
      let (nz, a, c) = Knows-at (push_both v l h) e in
      elim (Bool-cases ((s.ring.buffer (index s.ring h) == 0) && ltb (sub64 h l) (size s.ring))) [
        | inl t ↦
            let (z, f) = push-passed (s.ring.buffer (index s.ring h)) (sub64 h l) (size s.ring) t in
            rw t (step (push_both v l h) (push_through v h) e tt (push-Knows v l h nz a c z f))
        | inr t ↦ rw t (step (push_both v l h) away e tt tt)
      ]

  pop_read-Inv : (h l : ℕ) → s.pc i ≡ pop_both h l → Holds (act go (pop_both h l) s i)
  unfolding act
  pop_read-Inv h l e =
      let (a, c) = Knows-at (pop_both h l) e in
      elim (Bool-cases (not (s.ring.buffer (index s.ring l) == 0) && ltb l h)) [
        | inl t ↦
            let (z, f) = pop-passed (s.ring.buffer (index s.ring l)) l h t in
            rw t (
              step (pop_both h l) (pop_through l (s.ring.buffer (index s.ring l))) e tt
                (pop-Knows l h c a f z))
        | inr t ↦ rw t (step (pop_both h l) away e tt tt)
      ]

  equal : (a c : ℕ) → a ≡ c → (a == c) ≡ true
  equal a c e = ground (arith, e)

  unequal : (a c : ℕ) → a ≢ c → (a == c) ≡ false
  unequal a c e = ground (arith, e)

  wraps : (a : ℕ) → a ≤ s.ring.high → incr64 a ≡ a + 1
  wraps a l = mod-eq_of_lt (omega (arith, b))

  abbrev after_push : ℕ → ℕ → ℕ → System
  after_push v h x = record s {
    ring = let rb = s.ring in record rb { high = x };
    pc = update s.pc i (storing v h);
    put = s.put ++ (v ∷ []);
    queue = s.queue ++ (v ∷ []);
  }

  push_exchange-Inv : (v h : ℕ) → s.pc i ≡ push_through v h → Holds (exchange_high v h s i)
  push_exchange-Inv v h e = elim (eq-cases s.ring.high h) [
    | inl q ↦ rw (equal s.ring.high h q) (
        subst (λ x. Holds (after_push v h x)) (sym (wraps h (omega arith)))
          (subst (λ m. Holds (after_push v m (m + 1))) q
            (
              update st s.ring.high (stored_by i),
              grow-Inv w i v (e ∙ ap (push_through v) (sym q)) (
                  subst (λ m. Knows st s.ring s.queue i (push_through v m)) (sym q)
                    (Knows-at (push_through v h) e)),
            )))
    | inr ne ↦ rw (unequal s.ring.high h ne) (step (push_through v h) away e tt tt)
  ]

  abbrev after_pop : ℕ → ℕ → ℕ → System
  after_pop v l x = record s {
    ring = let rb = s.ring in record rb { low = x };
    pc = update s.pc i (clearing l);
    taken = s.taken ++ (v ∷ []);
    queue = tail s.queue;
  }

  has_head :
      (v : ℕ)
      → Knows st s.ring s.queue i (pop_through s.ring.low v)
      → (st s.ring.low ≡ full) × (v ≡ entry s.queue 0)
  has_head v (z, inl m) = absurd (omega arith)
  has_head v (z, inr (m, f, g)) = (f, g)

  pop_exchange-Inv : (l v : ℕ) → s.pc i ≡ pop_through l v → Holds (exchange_low l v s i)
  pop_exchange-Inv l v e = elim (eq-cases s.ring.low l) [
    | inl q ↦
        let (f, g) = has_head v (
          subst (λ m. Knows st s.ring s.queue i (pop_through m v)) (sym q)
            (Knows-at (pop_through l v) e)) in
        rw (equal s.ring.low l q) (
          subst (λ x. Holds (after_pop v l x)) (sym (wraps l (omega (arith, order))))
            (subst (λ m. Holds (after_pop v m (m + 1))) q
              (
                update st s.ring.low (cleared_by i),
                shrink-Inv w i f v (e ∙ ap (λ m. pop_through m v) (sym q)) g,
              )))
    | inr ne ↦ rw (unequal s.ring.low l ne) (step (pop_through l v) away e tt tt)
  ]

  store-Inv : (v k : ℕ) → s.pc i ≡ storing v k → Holds (write k v s i)
  store-Inv v k e =
      let mine : st k ≡ stored_by i = Knows-at (storing v k) e in
      let (l, h, p, nz) = Staged-at k (stored_by i) mine in
      let same : v ≡ entry s.queue (k - s.ring.low) = ground (arith, e, p) in
      (
        update st k full,
        write-Inv w i k v full (inl (mine, e)) h (omega (arith, room)) (l, h) (same, nz),
      )

  clear-Inv : (k : ℕ) → s.pc i ≡ clearing k → Holds (write k 0 s i)
  clear-Inv k e =
      let mine : st k ≡ cleared_by i = Knows-at (clearing k) e in
      let (l, p) = Staged-at k (cleared_by i) mine in
      (
        update st k clear,
        write-Inv w i k 0 clear (inr (mine, e)) (omega (arith, order))
            (last_round (dec_lt (k + size s.ring) s.ring.high)) l refl,
      )
    where
      last_round : Dec (k + size s.ring < s.ring.high) → s.ring.high ≤ k + size s.ring
      last_round (yes m) = cc (reuse k m, Knows-at (clearing k) e)
      last_round (no m) = omega arith

  pub act-Holds : (a : Action) (p : Pc) → s.pc i ≡ p → Holds (act a p s i)
  unfolding act
  act-Holds (do_push v) away e = elim (eq-cases v 0) [
    | inl z ↦ rw (equal v 0 z) (st, w)
    | inr nz ↦ rw (unequal v 0 nz) (step away (push_low v s.ring.low) e tt (nz, omega arith))
  ]
  act-Holds go (push_low v l) e =
      let (nz, a) = Knows-at (push_low v l) e in
      step (push_low v l) (push_both v l s.ring.high) e tt (nz, a, omega arith)
  act-Holds go (push_both v l h) e = push_read-Inv v l h e
  act-Holds go (push_through v h) e = push_exchange-Inv v h e
  act-Holds spurious (push_through v h) e = step (push_through v h) away e tt tt
  act-Holds go (storing v k) e = store-Inv v k e
  act-Holds do_pop away e = step away (pop_high s.ring.high) e tt (omega arith)
  act-Holds go (pop_high h) e =
      step (pop_high h) (pop_both h s.ring.low) e tt (Knows-at (pop_high h) e, omega arith)
  act-Holds go (pop_both h l) e = pop_read-Inv h l e
  act-Holds go (pop_through l v) e = pop_exchange-Inv l v e
  act-Holds spurious (pop_through l v) e = step (pop_through l v) away e tt tt
  act-Holds go (clearing k) e = clear-Inv k e
  act-Holds a p e = (st, w)
