-- ===== src/Bounded/Turns.antt =====
-- The turns of the senders and of the receiver.
use libfiber.Prelude.{
  ℕ, ◌+◌, ◌-◌, ◌^◌, ◌≤◌, ◌<◌, ◌≡◌, ◌≢◌, ◌⊎◌, inl, inr, refl, sym, subst, ◌∙◌, arith, Bool, true,
  false, ◌&&◌, not, ◌==◌, ltb, if◌then◌else◌, update, sub64,
}
use native.Mathlib.Nat.{mod-eq_of_lt}
use libfiber.Signal.{arm, raise, reset, mark}
use libfiber.Bounded.{
  index, SenderPc, away, starting, low_loaded, both_loaded, through, writing, raising, clearing,
  spinning, ReceiverPc, trying, high_loaded, taking, storing, arming, parking, parked, waking,
  resetting, System, Action, do_send, go, spurious, move, claim, send, nothing, receive,
}
use libfiber.Bounded.Cells.{Knows, Sees, Inv, move-Inv, receiver-Inv, signal-Inv, claimed-Inv}
use libfiber.Bounded.Steps.{written-Inv, emptied-Inv, released-Inv}

-- A fiber whose scratch says that it can be woken is asleep, or on its way up.
abbrev pub Awake : System → Type 0
Awake s = s.signal.scratch ≡ true → (s.receiver ≡ parked) ⊎ (s.receiver ≡ waking)

abbrev is_writing : SenderPc → Bool
is_writing (writing m k) = true
is_writing p = false

abbrev is_storing : ReceiverPc → Bool
is_storing (storing n) = true
is_storing r = false

not_writing : (p : SenderPc) (m k : ℕ) → is_writing p ≡ false → p ≢ writing m k
not_writing p m k e x = ground (arith, e, x)

not_storing : (r : ReceiverPc) (n : ℕ) → is_storing r ≡ false → r ≢ storing n
not_storing r n e x = ground (arith, e, x)

-- A property of both branches, each with what its test says.
pub both-branches :
    (P : System → Type 0) (b : Bool) (x y : System)
    → (b ≡ true → P x)
    → (b ≡ false → P y)
    → P (if b then x else y)
both-branches P true x y h k = h refl
both-branches P false x y h k = k refl

sub64-le : (h l : ℕ) → l ≤ h → h < 2 ^ 64 → sub64 h l ≡ h - l
sub64-le h l q r = omega (arith, q, r)

module _ {s : System} (v : Inv s) (b : s.channel.high + 1 < 2 ^ 64) (i : ℕ) where
  -- The sender moves from where its clause says that it is.
  moves :
      (p q : SenderPc)
      → s.sender i ≡ p
      → is_writing p ≡ false
      → is_writing q ≡ false
      → Knows s q
      → Inv (move s i q)
  moves p q e f g k =
      move-Inv v i q k (λ m n x. not_writing p m n f (sym e ∙ x)) (λ m n x. not_writing q m n g x)

  claim-Inv : (m h : ℕ) → s.sender i ≡ through m h → Inv (claim m h s i)
  claim-Inv m h e =
      both-branches Inv (s.channel.high == h) _ _
        (λ q.
          subst
            (λ x. Inv (record s {
              channel = let c = s.channel in record c { high = x };
              sent = update s.sent h m;
              sender = update s.sender i (writing m h);
            }))
            (sym (mod-eq_of_lt {n = h + 1} {m = 2 ^ 64} (ground (arith, q, b))))
            (claimed-Inv v i m h e (ground (arith, q)) (ground (arith, q, b))))
        (λ q. moves (through m h) (starting m) e refl refl (subst (Knows s) e (v.knows i)).0)

  spin-Inv : Awake s → s.sender i ≡ spinning → Inv (send go spinning s i)
  unfolding send
  spin-Inv w e =
      both-branches Inv s.signal.scratch _ _
        (λ q.
          receiver-Inv (moves spinning away e refl refl tt) waking tt
            (λ ret x. ground (arith, w q, x)) (λ ret x. ground (arith, x)))
        (λ q. v)

  write-Inv : (m k : ℕ) → s.sender i ≡ writing m k → Inv (send go (writing m k) s i)
  unfolding send
  write-Inv m k e =
      written-Inv v i m k e (if s.channel.has_signal then raising else away)
        (λ t. free t s.channel.has_signal) (λ n l x. ground (arith, x))
    where
      free : (t : System) (c : Bool) → Knows t (if c then raising else away)
      free t true = tt
      free t false = tt

  pub send-Inv :
      Awake s → (a : Action) (p : SenderPc) → s.sender i ≡ p → Knows s p → Inv (send a p s i)
  unfolding send
  send-Inv w (do_send m) away e k =
      both-branches Inv (m == 0) _ _ (λ q. v)
        (λ q. moves away (starting m) e refl refl (λ z. ground (arith, q, z)))
  send-Inv w go (starting m) e k =
      moves (starting m) (low_loaded m s.channel.low) e refl refl (k, omega arith)
  send-Inv w go (low_loaded m l) e k =
      moves (low_loaded m l) (both_loaded m l s.channel.high) e refl refl
        (k.0, k.1, omega (arith, k.1, v.order), omega arith)
  send-Inv w go (both_loaded m l h) e k =
      both-branches Inv _ _ _
        (λ q.
          moves (both_loaded m l h) (through m h) e refl refl
            (k.0, k.3, ground (arith, q, k.1, k.2, sub64-le h l k.2 (omega (arith, k.3, b)))))
        (λ q. moves (both_loaded m l h) (starting m) e refl refl k.0)
  send-Inv w go (through m h) e k = claim-Inv m h e
  send-Inv w spurious (through m h) e k = moves (through m h) (starting m) e refl refl k.0
  send-Inv w go (writing m k) e _ = write-Inv m k e
  send-Inv w go raising e k = signal-Inv (raised (raise s.signal).1) (raise s.signal).0
    where
      raised : (c : Bool) → Inv (move s i (if c then clearing else away))
      raised true = moves raising clearing e refl refl tt
      raised false = moves raising away e refl refl tt
  send-Inv w go clearing e k = signal-Inv (moves clearing spinning e refl refl tt) _
  send-Inv w go spinning e k = spin-Inv w e
  send-Inv w a p e k = v

pub send-Awake : (a : Action) (p : SenderPc) (s : System) (i : ℕ) → Awake s → Awake (send a p s i)
unfolding send
send-Awake (do_send m) away s i w = ground (arith, w)
send-Awake go (through m h) s i w = ground (arith, w)
send-Awake go (both_loaded m l h) s i w = both-branches Awake _ _ _ (λ q. w) (λ q. w)
send-Awake go spinning s i w = ground (arith, w)
send-Awake spurious (through m h) s i w = w
send-Awake a p s i w = w

pub receive-Awake :
    (blocks : Bool) (r : ReceiverPc) (s : System)
    → s.receiver ≡ r
    → Awake s
    → Awake (receive blocks r s)
unfolding receive
receive-Awake blocks r s e w = ground (arith, e, w)

module _ {s : System} (v : Inv s) (b : s.channel.high + 1 < 2 ^ 64) where
  pub turns :
      (p q : ReceiverPc)
      → s.receiver ≡ p
      → is_storing p ≡ false
      → is_storing q ≡ false
      → Sees s q
      → Inv (record s { receiver = q })
  turns p q e f g k =
      receiver-Inv v q k (λ n x. not_storing p n f (sym e ∙ x)) (λ n x. not_storing q n g x)

  -- What the receiver finds in the cell of `low` is the message that was sent there.
  found-sent :
      (high : ℕ)
      → high ≤ s.channel.high
      → s.channel.low < high
      → (ret : ℕ) → s.channel.buffer (index s.channel s.channel.low) ≡ ret
      → ret ≢ 0
      → ((n : ℕ) → s.receiver ≢ storing n)
      → ret ≡ s.sent s.channel.low
  found-sent high h l ret e nz f = elim (v.kept s.channel.low (omega arith) (omega (arith, h, l))) [
    | inl x ↦ sym e ∙ x.0
    | inr (inl (j, x)) ↦ let k = subst (Knows s) x (v.knows j) in absurd (nz (sym e ∙ k.4))
    | inr (inr (_, x)) ↦ absurd (f _ x)
  ]

  pub receive-Inv :
      (blocks : Bool) (r : ReceiverPc) → s.receiver ≡ r → Sees s r → Inv (receive blocks r s)
  unfolding receive
  receive-Inv blocks trying e k =
      turns trying (high_loaded s.channel.high) e refl refl (omega arith)
  receive-Inv blocks (high_loaded h) e k =
      both-branches Inv
        (not (s.channel.buffer (index s.channel s.channel.low) == 0) && ltb s.channel.low h) _
        (nothing blocks s)
        (λ q.
          turns (high_loaded h) (taking (s.channel.buffer (index s.channel s.channel.low))) e refl
            refl
            (
              ground (arith, q, k),
              (λ z. ground (arith, q, z)),
              refl,
              found-sent h k (ground (arith, q)) _ refl (λ z. ground (arith, q, z))
                  (λ n x. ground (arith, e, x)),
            ))
        (λ q.
          both-branches Inv (blocks && s.channel.has_signal) _ _
            (λ r. signal-Inv (turns (high_loaded h) arming e refl refl tt) (mark false s.signal))
            (λ r. turns (high_loaded h) trying e refl refl tt))
  receive-Inv blocks (taking ret) e k = emptied-Inv v ret e
  receive-Inv blocks (storing ret) e k =
      subst
        (λ x. Inv (record s {
          channel = let c = s.channel in record c { low = x };
          received = update s.received s.channel.low ret;
          receiver = trying;
        }))
        (sym (mod-eq_of_lt {n = s.channel.low + 1} {m = 2 ^ 64} (omega (arith, v.order, b))))
        (released-Inv v ret e)
  receive-Inv blocks arming e k = signal-Inv (armed (arm s.signal).1) (arm s.signal).0
    where
      armed : (c : Bool) → Inv (record s { receiver = if c then parking else resetting })
      armed true = turns arming parking e refl refl tt
      armed false = turns arming resetting e refl refl tt
  receive-Inv blocks parking e k =
      signal-Inv (turns parking parked e refl refl tt) (mark true s.signal)
  receive-Inv blocks parked e k = v
  receive-Inv blocks waking e k =
      signal-Inv (turns waking resetting e refl refl tt) (mark false s.signal)
  receive-Inv blocks resetting e k =
      signal-Inv (turns resetting trying e refl refl tt) (reset s.signal)

-- A turn raises `high` by no more than 1.
