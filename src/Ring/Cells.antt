-- ===== src/Ring/Cells.antt =====
-- The writes to the cells keep the invariant.
use libfiber.Prelude.{
  ℕ, ◌+◌, ◌-◌, ◌≤◌, ◌<◌, ◌≡◌, ◌≢◌, ◌⊎◌, inl, inr, refl, ap, sym, subst, ◌∙◌, arith, update,
  update_self, update_ne,
}
use native.Mathlib.Nat.{mod-eq_of_lt}
use libfiber.Ring.{
  Ring, size, index, Pc, away, push_low, push_both, push_through, storing, pop_high, pop_both,
  pop_through, clearing, System,
}
use libfiber.Ring.Stages.{
  Stage, full, clear, stored_by, cleared_by, entry, window, update-Knows, restage, Staged, Filled,
  Knows, Inv,
}

-- Thread `i` writes the cell of index `k`, which then has the stage `t`.
module _ {st : ℕ → Stage} {s : System} (w : Inv st s) (i k c : ℕ) (t : Stage)
    (busy : ((st k ≡ stored_by i) × (s.pc i ≡ storing c k))
      ⊎ ((st k ≡ cleared_by i) × (s.pc i ≡ clearing k)))
    (low : k < s.ring.high) (high : s.ring.high ≤ k + size s.ring) where
  open w use {some, order, room, count, history, staged, filled, virgin, reuse, knows}

  abbrev cells : ℕ → ℕ
  cells = update s.ring.buffer (index s.ring k) c

  abbrev written : Ring
  written = let rb = s.ring in record rb { buffer = cells }

  abbrev done : ℕ → Stage
  done = update st k t

  not_mine : (m : ℕ) (o : Stage) → st m ≡ o → (o ≡ full) ⊎ (o ≡ clear) → k ≢ m
  not_mine m o e f q = ground (arith, busy, ap st q, e, f)

  other_stored : (j m : ℕ) → i ≢ j → st m ≡ stored_by j → k ≢ m
  other_stored j m ne e q = ground (arith, busy, ap st q, e, ne)

  other_cleared : (j m : ℕ) → i ≢ j → st m ≡ cleared_by j → k ≢ m
  other_cleared j m ne e q = ground (arith, busy, ap st q, e, ne)

  write-Knows :
      (j : ℕ) (p : Pc) → i ≢ j → Knows st s.ring s.queue j p → Knows done written s.queue j p
  write-Knows j away ne h = tt
  write-Knows j (push_low a l) ne h = h
  write-Knows j (push_both a l m) ne h = h
  write-Knows j (push_through a m) ne (nz, inl h) = (nz, inl h)
  write-Knows j (push_through a m) ne (nz, inr (e, b, inl l)) = (nz, inr (e, b, inl l))
  write-Knows j (push_through a m) ne (nz, inr (e, b, inr (l, f))) = (
    nz,
    inr (
      e,
      b,
      inr (
        l,
        update_ne st k (m - size s.ring) t (not_mine (m - size s.ring) clear f (inr refl)) ∙ f,
      ),
    ),
  )
  write-Knows j (storing a m) ne h = update_ne st k m t (other_stored j m ne h) ∙ h
  write-Knows j (pop_high m) ne h = h
  write-Knows j (pop_both m l) ne h = h
  write-Knows j (pop_through l a) ne (nz, inl h) = (nz, inl h)
  write-Knows j (pop_through l a) ne (nz, inr (e, f, g)) =
      (nz, inr (e, update_ne st k l t (not_mine l full f (inl refl)) ∙ f, g))
  write-Knows j (clearing m) ne h = update_ne st k m t (other_cleared j m ne h) ∙ h

  write-Staged-other :
      (m : ℕ) (o : Stage)
      → k ≢ m
      → Staged s.ring s.pc s.queue m o
      → Staged written (update s.pc i away) s.queue m o
  write-Staged-other m o ne h = ground (arith, h, busy, ne)

  elsewhere :
      (m : ℕ)
      → m < s.ring.high
      → s.ring.high ≤ m + size s.ring
      → k ≢ m
      → cells (index s.ring m) ≡ s.ring.buffer (index s.ring m)
  elsewhere m l b ne =
      update_ne s.ring.buffer (index s.ring k) (index s.ring m) c
        (λ e. ne (window (size s.ring) k m s.ring.high some low l high b e))

  pub write-Inv :
      Staged written (update s.pc i away) s.queue k t
      → Filled t c (entry s.queue (k - s.ring.low))
      → Inv done (record s { ring = written; pc = update s.pc i away })
  write-Inv h f = record {
    some = some;
    order = order;
    room = room;
    count = count;
    history = history;
    staged = λ m.
        restage (Staged written (update s.pc i away) s.queue) st k t m h
          (λ ne. write-Staged-other m (st m) ne (staged m));
    filled = λ m l b.
        restage (λ a o. Filled o (cells (index s.ring a)) (entry s.queue (a - s.ring.low))) st k t m
          (subst (λ x. Filled t x (entry s.queue (k - s.ring.low)))
            (sym (update_self s.ring.buffer (index s.ring k) c)) f)
          (λ ne.
            subst (λ x. Filled (st m) x (entry s.queue (m - s.ring.low))) (sym (elsewhere m l b ne))
              (filled m l b));
    virgin = λ m l b.
        update_ne s.ring.buffer (index s.ring k) m c
          (λ e. omega (arith, mod-eq_of_lt {n = k} {m = size s.ring} (omega arith)))
        ∙ virgin m l b;
    reuse = λ m l. update_ne st k m t (not_mine m clear (reuse m l) (inr refl)) ∙ reuse m l;
    knows = λ j.
        update-Knows done written s.queue s.pc i away j tt
          (λ ne. write-Knows j (s.pc j) ne (knows j));
  }
