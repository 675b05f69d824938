-- ===== src/Ring/Claim.antt =====
-- The exchanges of the two counters keep the invariant.
use libfiber.Prelude.{
  ℕ, ◌+◌, ◌-◌, ◌%◌, ◌≤◌, ◌<◌, ◌≡◌, ◌≢◌, ◌⊎◌, inl, inr, ap, sym, subst, ◌∙◌, arith, List, [], ◌∷◌,
  ◌++◌, append_assoc, length-append, update, update_self, update_ne, eq-cases,
}
use native.Mathlib.Nat.{mod-eq_of_lt}
use libfiber.Ring.{
  Ring, size, index, Pc, away, push_low, push_both, push_through, storing, pop_high, pop_both,
  pop_through, clearing, System, tail,
}
use libfiber.Ring.Stages.{
  Stage, full, clear, stored_by, cleared_by, entry, entry-append, entry-append_last, mod-next,
  update-Knows, restage, entry-tail, length-tail, head-tail, Staged, Filled, Knows, Inv,
}

-- The push of `v` that exchanges `high`.
module _ {st : ℕ → Stage} {s : System} (w : Inv st s) (i v : ℕ) where
  open w use {some, order, room, count, history, staged, filled, virgin, reuse, knows}

  abbrev top : ℕ
  top = s.ring.high

  abbrev grown : Ring
  grown = let rb = s.ring in record rb { high = top + 1 }

  abbrev at_top : ℕ → Stage
  at_top = update st top (stored_by i)

  abbrev longer : List ℕ
  longer = s.queue ++ (v ∷ [])

  grow-Staged-other :
      (k : ℕ) (t : Stage)
      → k ≢ top
      → s.pc i ≡ push_through v top
      → Staged s.ring s.pc s.queue k t
      → Staged grown (update s.pc i (storing v top)) longer k t
  grow-Staged-other k t ne e h =
      ground (arith, h, e, count, entry-append s.queue (k - s.ring.low) v)

  last-entry : entry longer (top - s.ring.low) ≡ v
  last-entry = entry-append_last s.queue (top - s.ring.low) v (omega (arith, count))

  grow-Staged_top : v ≢ 0 → Staged grown (update s.pc i (storing v top)) longer top (stored_by i)
  grow-Staged_top nz =
      rw last-entry (omega (arith, order), omega arith, update_self s.pc i (storing v top), nz)

  grow-Staged :
      (k : ℕ)
      → s.pc i ≡ push_through v top
      → v ≢ 0
      → Staged grown (update s.pc i (storing v top)) longer k (at_top k)
  grow-Staged k e nz = elim (eq-cases k top) [
    | inl q ↦
        subst (λ m. Staged grown (update s.pc i (storing v top)) longer m (at_top m)) (sym q)
          (rw (update_self st top (stored_by i)) (grow-Staged_top nz))
    | inr q ↦
        rw (update_ne st top k (stored_by i) (λ x. q (sym x)))
          (grow-Staged-other k (st k) q e (staged k))
  ]

  -- The cell of the new index is free.
  free_cell :
      (top < s.ring.low + size s.ring)
      → (top < size s.ring) ⊎ ((size s.ring ≤ top) × (st (top - size s.ring) ≡ clear))
      → s.ring.buffer (index s.ring top) ≡ 0
  free_cell b (inl l) = ap s.ring.buffer (mod-eq_of_lt l) ∙ virgin top l (omega arith)
  free_cell b (inr (l, e)) =
      ap s.ring.buffer
        (ap (λ m. m % size s.ring) (sym back) ∙ mod-next (size s.ring) (top - size s.ring))
      ∙ subst
          (λ t.
            Filled t (s.ring.buffer (index s.ring (top - size s.ring)))
              (entry s.queue (top - size s.ring - s.ring.low)))
          e (filled (top - size s.ring) (omega (arith, some)) (omega arith))
    where
      back : top - size s.ring + size s.ring ≡ top
      back = omega arith

  grow-Filled-other :
      (k c : ℕ) (t : Stage)
      → k < top
      → Staged s.ring s.pc s.queue k t
      → Filled t c (entry s.queue (k - s.ring.low))
      → Filled t c (entry longer (k - s.ring.low))
  grow-Filled-other k c t l h f =
      ground (arith, h, f, count, entry-append s.queue (k - s.ring.low) v)

  grow-Filled :
      (k : ℕ)
      → s.ring.buffer (index s.ring top) ≡ 0
      → k < top + 1
      → top + 1 ≤ k + size s.ring
      → Filled (at_top k) (s.ring.buffer (index s.ring k)) (entry longer (k - s.ring.low))
  grow-Filled k f l b = elim (eq-cases k top) [
    | inl q ↦
        subst
          (λ m. Filled (at_top m) (s.ring.buffer (index s.ring m)) (entry longer (m - s.ring.low)))
          (sym q) (rw (update_self st top (stored_by i)) f)
    | inr q ↦ rw (update_ne st top k (stored_by i) (λ x. q (sym x))) (
        grow-Filled-other k (s.ring.buffer (index s.ring k)) (st k) (omega arith) (staged k)
          (filled k (omega arith) (omega arith)))
  ]

  grow-reuse :
      (k : ℕ)
      → (top < size s.ring) ⊎ ((size s.ring ≤ top) × (st (top - size s.ring) ≡ clear))
      → k + size s.ring < top + 1
      → at_top k ≡ clear
  grow-reuse k f l =
      update_ne st top k (stored_by i) (omega (arith, some))
      ∙ old (eq-cases (k + size s.ring) top) f
    where
      old :
          (k + size s.ring ≡ top) ⊎ (k + size s.ring ≢ top)
          → (top < size s.ring) ⊎ ((size s.ring ≤ top) × (st (top - size s.ring) ≡ clear))
          → st k ≡ clear
      old (inl q) (inl m) = absurd (omega arith)
      old (inl q) (inr (m, e)) = ap st (omega arith) ∙ e
      old (inr q) f = reuse k (omega arith)

  Staged-at : (k : ℕ) (t : Stage) → st k ≡ t → Staged s.ring s.pc s.queue k t
  Staged-at k t e = subst (Staged s.ring s.pc s.queue k) e (staged k)

  grow-Knows : (j : ℕ) (p : Pc) → Knows st s.ring s.queue j p → Knows at_top grown longer j p
  grow-Knows j away h = tt
  grow-Knows j (push_low a l) h = h
  grow-Knows j (push_both a l m) h = omega (arith, h)
  grow-Knows j (push_through a m) h = (h.0, inl (omega (arith, h.1)))
  grow-Knows j (storing a k) h =
      update_ne st top k (stored_by i) (omega (arith, Staged-at k (stored_by j) h)) ∙ h
  grow-Knows j (pop_high m) h = omega (arith, h)
  grow-Knows j (pop_both m l) h = omega (arith, h)
  grow-Knows j (pop_through l a) (nz, inl m) = (nz, inl m)
  grow-Knows j (pop_through l a) (nz, inr (m, e, f)) = (
    nz,
    inr (
      m,
      update_ne st top l (stored_by i) (omega (arith, Staged-at l full e)) ∙ e,
      f ∙ sym (entry-append s.queue 0 v (omega (arith, count, Staged-at l full e))),
    ),
  )
  grow-Knows j (clearing k) h =
      update_ne st top k (stored_by i) (omega (arith, order, Staged-at k (cleared_by j) h)) ∙ h

  pub grow-Inv :
      (s.pc i ≡ push_through v top)
      → Knows st s.ring s.queue i (push_through v top)
      → Inv at_top (record s {
        ring = grown;
        pc = update s.pc i (storing v top);
        put = s.put ++ (v ∷ []);
        queue = longer;
      })
  grow-Inv e (nz, inl m) = absurd (omega arith)
  grow-Inv e (nz, inr (m, b, f)) = record {
    some = some;
    order = omega (arith, order);
    room = omega arith;
    count = omega (arith, count, length-append s.queue (v ∷ []));
    history = sym (append_assoc s.taken s.queue (v ∷ [])) ∙ ap (λ l. l ++ (v ∷ [])) history;
    staged = λ k. grow-Staged k e nz;
    filled = λ k l c. grow-Filled k (free_cell b f) l c;
    virgin = λ k l c. virgin k l (omega arith);
    reuse = λ k l. grow-reuse k f l;
    knows = λ j.
        update-Knows at_top grown longer s.pc i (storing v top) j (update_self st top (stored_by i))
          (λ q. grow-Knows j (s.pc j) (knows j));
  }

-- The pop that exchanges `low`.
module _ {st : ℕ → Stage} {s : System} (w : Inv st s) (i : ℕ) (f : st s.ring.low ≡ full) where
  open w use {some, order, room, count, history, staged, filled, virgin, reuse, knows}

  abbrev bottom : ℕ
  bottom = s.ring.low

  abbrev shrunk : Ring
  shrunk = let rb = s.ring in record rb { low = bottom + 1 }

  abbrev at_bottom : ℕ → Stage
  at_bottom = update st bottom (cleared_by i)

  inside : bottom < s.ring.high
  inside = (subst (Staged s.ring s.pc s.queue bottom) f (staged bottom)).1

  shifted :
      (k : ℕ) → bottom < k → entry (tail s.queue) (k - (bottom + 1)) ≡ entry s.queue (k - bottom)
  shifted k h = entry-tail s.queue (k - (bottom + 1)) ∙ ap (entry s.queue) (omega arith)

  shrink-Staged-other :
      (k v : ℕ) (t : Stage)
      → bottom ≢ k
      → s.pc i ≡ pop_through bottom v
      → Staged s.ring s.pc s.queue k t
      → Staged shrunk (update s.pc i (clearing bottom)) (tail s.queue) k t
  shrink-Staged-other k v t ne e h = ground (arith, h, e, ne, shifted k)

  shrink-Filled-other :
      (k c : ℕ) (t : Stage)
      → bottom ≢ k
      → Staged s.ring s.pc s.queue k t
      → Filled t c (entry s.queue (k - bottom))
      → Filled t c (entry (tail s.queue) (k - (bottom + 1)))
  shrink-Filled-other k c t ne h g = ground (arith, h, g, ne, shifted k)

  taken_cell : Filled full (s.ring.buffer (index s.ring bottom)) (entry s.queue (bottom - bottom))
  taken_cell =
      subst (λ t. Filled t (s.ring.buffer (index s.ring bottom)) (entry s.queue (bottom - bottom)))
        f (filled bottom inside room)

  not_full : (k : ℕ) (t : Stage) → st k ≡ t → t ≢ full → bottom ≢ k
  not_full k t e ne q = ne (sym e ∙ ap st (sym q) ∙ f)

  shrink-Knows :
      (j : ℕ) (p : Pc) → Knows st s.ring s.queue j p → Knows at_bottom shrunk (tail s.queue) j p
  shrink-Knows j away h = tt
  shrink-Knows j (push_low a l) h = omega (arith, h)
  shrink-Knows j (push_both a l m) h = omega (arith, h)
  shrink-Knows j (push_through a m) (nz, inl h) = (nz, inl h)
  shrink-Knows j (push_through a m) (nz, inr (e, b, inl l)) = (nz, inr (e, omega arith, inl l))
  shrink-Knows j (push_through a m) (nz, inr (e, b, inr (l, c))) = (
    nz,
    inr (
      e,
      omega arith,
      inr (
        l,
        update_ne st bottom (m - size s.ring) (cleared_by i)
              (not_full (m - size s.ring) clear c (λ x. cc x))
            ∙ c,
      ),
    ),
  )
  shrink-Knows j (storing a k) h =
      update_ne st bottom k (cleared_by i) (not_full k (stored_by j) h (λ x. cc x)) ∙ h
  shrink-Knows j (pop_high m) h = h
  shrink-Knows j (pop_both m l) h = omega (arith, h)
  shrink-Knows j (pop_through l a) h = (h.0, inl (omega (arith, h.1)))
  shrink-Knows j (clearing k) h =
      update_ne st bottom k (cleared_by i) (not_full k (cleared_by j) h (λ x. cc x)) ∙ h

  pub shrink-Inv :
      (v : ℕ)
      → s.pc i ≡ pop_through bottom v
      → v ≡ entry s.queue 0
      → Inv at_bottom (record s {
        ring = shrunk;
        pc = update s.pc i (clearing bottom);
        taken = s.taken ++ (v ∷ []);
        queue = tail s.queue;
      })
  shrink-Inv v e g = record {
    some = some;
    order = omega (arith, inside);
    room = omega (arith, room);
    count = omega (arith, count, inside, length-tail s.queue);
    history =
        append_assoc s.taken (v ∷ []) (tail s.queue)
        ∙ ap (λ x. s.taken ++ (x ∷ tail s.queue)) g
        ∙ ap (λ l. s.taken ++ l) (head-tail s.queue (omega (arith, count, inside)))
        ∙ history;
    staged = λ k.
        restage (Staged shrunk (update s.pc i (clearing bottom)) (tail s.queue)) st bottom
          (cleared_by i) k (omega arith, update_self s.pc i (clearing bottom))
          (λ ne. shrink-Staged-other k v (st k) ne e (staged k));
    filled = λ k l c.
        restage
          (λ m t.
            Filled t (s.ring.buffer (index s.ring m)) (entry (tail s.queue) (m - (bottom + 1))))
          st bottom (cleared_by i) k (λ z. taken_cell.1 (sym (taken_cell.0) ∙ z))
          (λ ne.
            shrink-Filled-other k (s.ring.buffer (index s.ring k)) (st k) ne (staged k)
              (filled k l c));
    virgin = virgin;
    reuse = λ k l. update_ne st bottom k (cleared_by i) (omega (arith, room)) ∙ reuse k l;
    knows = λ j.
        update-Knows at_bottom shrunk (tail s.queue) s.pc i (clearing bottom) j
          (update_self st bottom (cleared_by i)) (λ q. shrink-Knows j (s.pc j) (knows j));
  }
