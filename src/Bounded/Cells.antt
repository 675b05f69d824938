-- ===== src/Bounded/Cells.antt =====
-- What holds between the counters, the cells, and the fibers at work on them.
use libfiber.Prelude.{
  ℕ, ◌+◌, ◌^◌, ◌≤◌, ◌<◌, ◌≡◌, ◌≢◌, ◌⊎◌, inl, inr, sym, subst, ◌∙◌, arith, update, update_self,
  update_ne, eq-cases, pow-pos,
}
use libfiber.Bounded.{
  size, index, SenderPc, away, starting, low_loaded, both_loaded, through, writing, raising,
  clearing, spinning, ReceiverPc, trying, high_loaded, taking, storing, arming, parking, parked,
  waking, resetting, System, move,
}

-- What a sender knows at its point.
abbrev pub Knows : System → SenderPc → Type 0
Knows s (starting m) = m ≢ 0
Knows s (low_loaded m l) = (m ≢ 0) × (l ≤ s.channel.low)
Knows s (both_loaded m l h) = (m ≢ 0) × (l ≤ s.channel.low) × (l ≤ h) × (h ≤ s.channel.high)
Knows s (through m h) = (m ≢ 0) × (h ≤ s.channel.high) × (h < s.channel.low + size s.channel)
Knows s (writing m k) =
    (m ≢ 0)
    × (s.channel.low ≤ k)
    × (k < s.channel.high)
    × (s.sent k ≡ m)
    × (s.channel.buffer (index s.channel k) ≡ 0)
Knows s p = Unit

-- What the receiver knows.
abbrev pub Sees : System → ReceiverPc → Type 0
Sees s (high_loaded h) = h ≤ s.channel.high
Sees s (taking ret) =
    (s.channel.low < s.channel.high)
    × (ret ≢ 0)
    × (s.channel.buffer (index s.channel s.channel.low) ≡ ret)
    × (ret ≡ s.sent s.channel.low)
Sees s (storing ret) =
    (s.channel.low < s.channel.high)
    × (s.channel.buffer (index s.channel s.channel.low) ≡ 0)
    × (ret ≡ s.sent s.channel.low)
Sees s p = Unit

-- The message of index `k` is in its cell, or a sender is about to write it, or the receiver has it.
abbrev pub Kept : System → ℕ → Type 0
Kept s k =
    ((s.channel.buffer (index s.channel k) ≡ s.sent k) × (s.sent k ≢ 0))
    ⊎ (((i : ℕ) × (s.sender i ≡ writing (s.sent k) k))
        ⊎ ((k ≡ s.channel.low) × (s.receiver ≡ storing (s.sent k))))

pub record Inv (s : System) : Type 0 where
  pub order : s.channel.low ≤ s.channel.high
  pub room : s.channel.high ≤ s.channel.low + size s.channel
  pub history : (k : ℕ) → k < s.channel.low → s.received k ≡ s.sent k
  pub kept : (k : ℕ) → s.channel.low ≤ k → k < s.channel.high → Kept s k
  pub vacant :
      (k : ℕ)
      → s.channel.high ≤ k
      → k < s.channel.low + size s.channel
      → s.channel.buffer (index s.channel k) ≡ 0
  pub knows : (i : ℕ) → Knows s (s.sender i)
  pub sees : Sees s s.receiver
  pub alone : (i j m n k : ℕ) → s.sender i ≡ writing m k → s.sender j ≡ writing n k → i ≡ j
  pub apart : (i m ret : ℕ) → s.receiver ≡ storing ret → s.sender i ≢ writing m s.channel.low

module _ {s : System} (v : Inv s) where
  open v use {order, room, history, kept, vacant, knows, sees, alone, apart}

  pub some : 0 < size s.channel
  some = pow-pos s.channel.log_size

  -- A sender moves, to a point that is not before a write, from one that is not.
  pub move-Inv :
      (i : ℕ) (p : SenderPc)
      → Knows s p
      → ((m k : ℕ) → s.sender i ≢ writing m k)
      → ((m k : ℕ) → p ≢ writing m k)
      → Inv (move s i p)
  move-Inv i p k f g = record {
    order = order;
    room = room;
    history = history;
    kept = λ n l h. elim (kept n l h) [
      | inl e ↦ inl e
      | inr (inl (j, e)) ↦ inr (inl (j, ground (arith, e, f (s.sent n) n)))
      | inr (inr e) ↦ inr (inr e)
    ];
    vacant = vacant;
    knows = λ j. elim (eq-cases i j) [
      | inl e ↦
          subst (λ x. Knows s (update s.sender i p x)) e
            (subst (Knows s) (sym (update_self s.sender i p)) k)
      | inr ne ↦ subst (Knows s) (sym (update_ne s.sender i j p ne)) (knows j)
    ];
    sees = sees;
    alone = λ a b m n k x y. ground (arith, alone a b m n k, g m k, g n k, x, y);
    apart = λ j m ret e. ground (arith, apart j m ret e, g m s.channel.low);
  }

  pub receiver-Inv :
      (r : ReceiverPc)
      → Sees s r
      → ((ret : ℕ) → s.receiver ≢ storing ret)
      → ((ret : ℕ) → r ≢ storing ret)
      → Inv (record s { receiver = r })
  receiver-Inv r k f g = record {
    order = order;
    room = room;
    history = history;
    kept = λ n l h. elim (kept n l h) [
      | inl e ↦ inl e
      | inr (inl e) ↦ inr (inl e)
      | inr (inr (_, e)) ↦ absurd (f (s.sent n) e)
    ];
    vacant = vacant;
    knows = knows;
    sees = k;
    alone = alone;
    apart = λ i m ret e. absurd (g ret e);
  }

  pub signal-Inv : (g : _) → Inv (record s { signal = g })
  signal-Inv g = record {
    order = order;
    room = room;
    history = history;
    kept = kept;
    vacant = vacant;
    knows = knows;
    sees = sees;
    alone = alone;
    apart = apart;
  }

  module _ (i m h : ℕ) (e : s.sender i ≡ through m h) (q : s.channel.high ≡ h)
      (b : h + 1 < 2 ^ 64) where
    abbrev pub claimed : System
    claimed = record s {
      channel = let c = s.channel in record c { high = h + 1 };
      sent = update s.sent h m;
      sender = update s.sender i (writing m h);
    }

    mine : Knows s (through m h)
    mine = subst (Knows s) e (knows i)

    claimed-Knows : (p : SenderPc) → Knows s p → Knows claimed p
    claimed-Knows away k = tt
    claimed-Knows (starting n) k = k
    claimed-Knows (low_loaded n l) k = k
    claimed-Knows (both_loaded n l g) k = ground (arith, k, q)
    claimed-Knows (through n g) k = ground (arith, k, q)
    claimed-Knows (writing n g) k = ground (arith, k, q)
    claimed-Knows raising k = tt
    claimed-Knows clearing k = tt
    claimed-Knows spinning k = tt

    claimed-Sees : (r : ReceiverPc) → Sees s r → Sees claimed r
    claimed-Sees trying k = tt
    claimed-Sees (high_loaded g) k = ground (arith, k, q)
    claimed-Sees (taking ret) k = ground (arith, k, q)
    claimed-Sees (storing ret) k = ground (arith, k, q)
    claimed-Sees arming k = tt
    claimed-Sees parking k = tt
    claimed-Sees parked k = tt
    claimed-Sees waking k = tt
    claimed-Sees resetting k = tt

    -- No one writes an index that is not claimed yet.
    unclaimed : (j n : ℕ) → s.sender j ≢ writing n h
    unclaimed j n x = let k = subst (Knows s) x (knows j) in omega (arith, k.2, q)

    claimed-Kept : (n : ℕ) → s.channel.low ≤ n → n < h + 1 → (n ≡ h) ⊎ (n ≢ h) → Kept claimed n
    claimed-Kept n l g (inl z) = inr (inl (i, ground (arith, z)))
    claimed-Kept n l g (inr z) = elim (kept n l (omega (arith, g, z, q))) [
      | inl x ↦ inl (ground (arith, x, z))
      | inr (inl (j, x)) ↦ inr (inl (j, ground (arith, x, z, e)))
      | inr (inr x) ↦ inr (inr (ground (arith, x, z)))
    ]

    pub claimed-Inv : Inv claimed
    claimed-Inv = record {
      order = omega (arith, order, q);
      room = omega (arith, mine.2);
      history = λ k l. history k l ∙ ground (arith, l, order, q);
      kept = λ n l g. claimed-Kept n l g (eq-cases n h);
      vacant = λ k l g. vacant k (omega (arith, l, q)) g;
      knows = λ j. elim (eq-cases i j) [
        | inl z ↦
            subst (λ x. Knows claimed (update s.sender i (writing m h) x)) z
              (subst (Knows claimed) (sym (update_self s.sender i (writing m h))) (
                mine.0,
                omega (arith, order, q),
                omega arith,
                update_self s.sent h m,
                vacant h (omega (arith, q)) mine.2,
              ))
        | inr ne ↦
            subst (Knows claimed) (sym (update_ne s.sender i j (writing m h) ne))
              (claimed-Knows (s.sender j) (knows j))
      ];
      sees = claimed-Sees s.receiver sees;
      alone = λ a c n n' k x y. elim (eq-cases i a) [
        | inl z ↦ elim (eq-cases i c) [
          | inl z' ↦ sym z ∙ z'
          | inr ne ↦ absurd (unclaimed c n' (ground (arith, x, y, z, ne)))
        ]
        | inr ne ↦ elim (eq-cases i c) [
          | inl z' ↦ absurd (unclaimed a n (ground (arith, x, y, z', ne)))
          | inr ne' ↦
              alone a c n n' k (sym (update_ne s.sender i a (writing m h) ne) ∙ x)
                (sym (update_ne s.sender i c (writing m h) ne') ∙ y)
        ]
      ];
      apart = λ j n ret x y. elim (eq-cases i j) [
        | inl z ↦ let k = subst (Sees s) x sees in ground (arith, k.0, y, z, q)
        | inr ne ↦ apart j n ret x (sym (update_ne s.sender i j (writing m h) ne) ∙ y)
      ];
    }
