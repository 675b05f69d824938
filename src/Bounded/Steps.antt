-- ===== src/Bounded/Steps.antt =====
-- The writes to the cells, and the store of `low`, keep the invariant.
use libfiber.Prelude.{
  ℕ, ◌+◌, ◌%◌, ◌≤◌, ◌<◌, ◌≡◌, ◌≢◌, ◌⊎◌, inl, inr, refl, ap, sym, subst, ◌∙◌, arith, update,
  update_self, update_ne, eq-cases,
}
use libfiber.Ring.Stages.{window, mod-next}
use libfiber.Bounded.{
  size, index, SenderPc, away, starting, low_loaded, both_loaded, through, writing, raising,
  clearing, spinning, ReceiverPc, trying, high_loaded, taking, storing, arming, parking, parked,
  waking, resetting, System,
}
use libfiber.Bounded.Cells.{Knows, Sees, Kept, Inv, some}

module _ {s : System} (v : Inv s) where
  open v use {order, room, history, kept, vacant, knows, sees, alone, apart}

  -- Two indices that are in use have two cells.
  cells_differ :
      (a b : ℕ)
      → s.channel.low ≤ a
      → a < s.channel.low + size s.channel
      → s.channel.low ≤ b
      → b < s.channel.low + size s.channel
      → a ≢ b
      → index s.channel a ≢ index s.channel b
  cells_differ a b la ha lb hb ne e = ne (
      window (size s.channel) a b (s.channel.low + size s.channel) (some v) ha hb
        (omega (arith, la)) (omega (arith, lb)) e)

  module _ (i m k : ℕ) (e : s.sender i ≡ writing m k) (p : SenderPc)
      (free : (t : System) → Knows t p) (away_from : (n l : ℕ) → p ≢ writing n l) where
    abbrev pub written : System
    written = record s {
      channel = let c = s.channel in record c { buffer = update c.buffer (index c k) m };
      sender = update s.sender i p;
    }

    mine : Knows s (writing m k)
    mine = subst (Knows s) e (knows i)

    other_cell :
        (n : ℕ)
        → s.channel.low ≤ n
        → n < s.channel.low + size s.channel
        → k ≢ n
        → index s.channel k ≢ index s.channel n
    other_cell n l h ne = cells_differ k n mine.1 (omega (arith, mine.2, room)) l h ne

    written-Knows : (j : ℕ) → i ≢ j → (q : SenderPc) → s.sender j ≡ q → Knows s q → Knows written q
    written-Knows j ne away x h = tt
    written-Knows j ne (starting n) x h = h
    written-Knows j ne (low_loaded n l) x h = h
    written-Knows j ne (both_loaded n l g) x h = h
    written-Knows j ne (through n g) x h = h
    written-Knows j ne (writing n g) x (nz, l, g', se, z) = (
      nz,
      l,
      g',
      se,
      update_ne s.channel.buffer _ _ m (
            other_cell g l (omega (arith, g', room))
              (λ y. ne (alone i j m n g (subst (λ o. s.sender i ≡ writing m o) y e) x)))
          ∙ z,
    )
    written-Knows j ne raising x h = tt
    written-Knows j ne clearing x h = tt
    written-Knows j ne spinning x h = tt

    written-Sees : (r : ReceiverPc) → s.receiver ≡ r → Sees s r → Sees written r
    written-Sees trying x h = tt
    written-Sees (high_loaded g) x h = h
    written-Sees (taking ret) x (l, nz, b, d) = (
      l,
      nz,
      update_ne s.channel.buffer _ _ m (λ y. nz (sym b ∙ (ap s.channel.buffer (sym y) ∙ mine.4)))
          ∙ b,
      d,
    )
    written-Sees (storing ret) x (l, b, d) = (
      l,
      update_ne s.channel.buffer _ _ m (
            other_cell s.channel.low (omega arith) (omega (arith, some v))
              (λ y. apart i m ret x (subst (λ o. s.sender i ≡ writing m o) y e)))
          ∙ b,
      d,
    )
    written-Sees arming x h = tt
    written-Sees parking x h = tt
    written-Sees parked x h = tt
    written-Sees waking x h = tt
    written-Sees resetting x h = tt

    written-Kept :
        (n : ℕ) → s.channel.low ≤ n → n < s.channel.high → (k ≡ n) ⊎ (k ≢ n) → Kept written n
    written-Kept n l h (inl z) = inl (ground (arith, z, mine.3, mine.0))
    written-Kept n l h (inr ne) = elim (kept n l h) [
      | inl x ↦
          inl (
            update_ne s.channel.buffer _ _ m (other_cell n l (omega (arith, h, room)) ne) ∙ x.0,
            x.1,
          )
      | inr (inl (j, x)) ↦ inr (inl (j, ground (arith, x, e, ne)))
      | inr (inr x) ↦ inr (inr x)
    ]

    pub written-Inv : Inv written
    written-Inv = record {
      order = order;
      room = room;
      history = history;
      kept = λ n l h. written-Kept n l h (eq-cases k n);
      vacant = λ n l h.
          update_ne s.channel.buffer _ _ m
            (other_cell n (omega (arith, l, order)) h (λ y. omega (arith, y, l, mine.2)))
          ∙ vacant n l h;
      knows = λ j. elim (eq-cases i j) [
        | inl z ↦
            subst (λ x. Knows written (update s.sender i p x)) z
              (subst (Knows written) (sym (update_self s.sender i p)) (free written))
        | inr ne ↦
            subst (Knows written) (sym (update_ne s.sender i j p ne))
              (written-Knows j ne (s.sender j) refl (knows j))
      ];
      sees = written-Sees s.receiver refl sees;
      alone =
          λ a b n n' l x y. ground (arith, alone a b n n' l, away_from n l, away_from n' l, x, y);
      apart = λ j n ret x. ground (arith, apart j n ret x, away_from n s.channel.low);
    }

  module _ (ret : ℕ) (e : s.receiver ≡ taking ret) where
    abbrev pub emptied : System
    emptied = record s {
      channel = let c = s.channel in record c { buffer = update c.buffer (index c c.low) 0 };
      receiver = storing ret;
    }

    found : Sees s (taking ret)
    found = subst (Sees s) e sees

    beyond :
        (n : ℕ)
        → s.channel.low ≤ n
        → n < s.channel.low + size s.channel
        → s.channel.low ≢ n
        → index s.channel s.channel.low ≢ index s.channel n
    beyond n l h ne = cells_differ s.channel.low n (omega arith) (omega (arith, some v)) l h ne

    -- The cell of `low` holds a message, so no sender is to write it.
    unwritten : (j n : ℕ) → s.sender j ≢ writing n s.channel.low
    unwritten j n x = let k = subst (Knows s) x (knows j) in found.1 (sym found.2 ∙ k.4)

    emptied-Knows : (j : ℕ) (q : SenderPc) → s.sender j ≡ q → Knows s q → Knows emptied q
    emptied-Knows j away x h = tt
    emptied-Knows j (starting n) x h = h
    emptied-Knows j (low_loaded n l) x h = h
    emptied-Knows j (both_loaded n l g) x h = h
    emptied-Knows j (through n g) x h = h
    emptied-Knows j (writing n g) x (nz, l, g', se, z) = (
      nz,
      l,
      g',
      se,
      update_ne s.channel.buffer _ _ 0 (
            beyond g l (omega (arith, g', room))
              (λ y. unwritten j n (subst (λ o. s.sender j ≡ writing n o) (sym y) x)))
          ∙ z,
    )
    emptied-Knows j raising x h = tt
    emptied-Knows j clearing x h = tt
    emptied-Knows j spinning x h = tt

    emptied-Kept :
        (n : ℕ)
        → s.channel.low ≤ n
        → n < s.channel.high
        → (s.channel.low ≡ n) ⊎ (s.channel.low ≢ n)
        → Kept emptied n
    emptied-Kept n l h (inl z) = inr (inr (sym z, ap storing (found.3 ∙ ap s.sent z)))
    emptied-Kept n l h (inr ne) = elim (kept n l h) [
      | inl x ↦
          inl (update_ne s.channel.buffer _ _ 0 (beyond n l (omega (arith, h, room)) ne) ∙ x.0, x.1)
      | inr (inl x) ↦ inr (inl x)
      | inr (inr (x, _)) ↦ absurd (ne (sym x))
    ]

    pub emptied-Inv : Inv emptied
    emptied-Inv = record {
      order = order;
      room = room;
      history = history;
      kept = λ n l h. emptied-Kept n l h (eq-cases s.channel.low n);
      vacant = λ n l h.
          update_ne s.channel.buffer _ _ 0
            (beyond n (omega (arith, l, order)) h (λ y. omega (arith, y, l, found.0)))
          ∙ vacant n l h;
      knows = λ j. emptied-Knows j (s.sender j) refl (knows j);
      sees = (found.0, update_self s.channel.buffer _ 0, found.3);
      alone = alone;
      apart = λ j n r x. unwritten j n;
    }

  module _ (ret : ℕ) (e : s.receiver ≡ storing ret) where
    abbrev pub released : System
    released = record s {
      channel = let c = s.channel in record c { low = c.low + 1 };
      received = update s.received s.channel.low ret;
      receiver = trying;
    }

    held : Sees s (storing ret)
    held = subst (Sees s) e sees

    released-Knows : (j : ℕ) (q : SenderPc) → s.sender j ≡ q → Knows s q → Knows released q
    released-Knows j away x h = tt
    released-Knows j (starting n) x h = h
    released-Knows j (low_loaded n l) x h = ground (arith, h)
    released-Knows j (both_loaded n l g) x h = ground (arith, h)
    released-Knows j (through n g) x h = ground (arith, h)
    released-Knows j (writing n g) x (nz, l, g', se, z) = (
      nz,
      elim (eq-cases s.channel.low g) [
        | inl y ↦ absurd (apart j n ret e (subst (λ o. s.sender j ≡ writing n o) (sym y) x))
        | inr ne ↦ omega (arith, ne, l)
      ],
      g',
      se,
      z,
    )
    released-Knows j raising x h = tt
    released-Knows j clearing x h = tt
    released-Knows j spinning x h = tt

    pub released-Inv : Inv released
    released-Inv = record {
      order = omega (arith, held.0);
      room = omega (arith, room);
      history = λ n h. elim (eq-cases s.channel.low n) [
        | inl y ↦
            subst (λ x. update s.received s.channel.low ret x ≡ s.sent x) y
              (update_self s.received s.channel.low ret ∙ held.2)
        | inr ne ↦ update_ne s.received s.channel.low n ret ne ∙ history n (omega (arith, h, ne))
      ];
      kept = λ n l h. elim (kept n (omega (arith, l)) h) [
        | inl x ↦ inl x
        | inr (inl x) ↦ inr (inl x)
        | inr (inr (x, _)) ↦ absurd (omega (arith, x, l))
      ];
      vacant = λ n l h. elim (eq-cases n (s.channel.low + size s.channel)) [
        | inl y ↦
            ap (λ x. s.channel.buffer (x % size s.channel)) y
            ∙ (ap s.channel.buffer (mod-next (size s.channel) s.channel.low) ∙ held.1)
        | inr ne ↦ vacant n l (omega (arith, h, ne))
      ];
      knows = λ j. released-Knows j (s.sender j) refl (knows j);
      sees = tt;
      alone = alone;
      apart = λ j n r x. absurd (ground (arith, x));
    }
