-- ===== src/Bounded/Order.antt =====
-- Every schedule at a bounded channel.
use libfiber.Prelude.{
  ℕ, ◌+◌, ◌^◌, ◌≤◌, ◌<◌, ◌≡◌, refl, sym, subst, arith, Bool, false, ◌&&◌, ◌==◌, ltb, List, [], ◌∷◌,
  length, sub64,
}
use libfiber.Bounded.{
  create, size, index, SenderPc, away, both_loaded, through, spinning, ReceiverPc, trying,
  high_loaded, System, Action, do_send, go, spurious, send, receive, Turn, of_sender, of_receiver,
  act, run,
}
use libfiber.Bounded.Cells.{Knows, Sees, Kept, Inv}
use libfiber.Bounded.Turns.{Awake, both-branches, send-Inv, send-Awake, receive-Awake, receive-Inv}

send-high :
    (a : Action) (p : SenderPc) (s : System) (i : ℕ)
    → (send a p s i).channel.high ≤ s.channel.high + 1
unfolding send
send-high (do_send m) away s i =
    both-branches (λ t. t.channel.high ≤ s.channel.high + 1) (m == 0) _ _ (λ q. omega arith)
      (λ q. omega arith)
send-high go (both_loaded m l h) s i =
    both-branches (λ t. t.channel.high ≤ s.channel.high + 1)
      ((s.channel.buffer (index s.channel h) == 0) && ltb (sub64 h l) (size s.channel)) _ _
      (λ q. omega arith) (λ q. omega arith)
send-high go (through m h) s i = ground arith
send-high go spinning s i =
    both-branches (λ t. t.channel.high ≤ s.channel.high + 1) s.signal.scratch _ _ (λ q. omega arith)
      (λ q. omega arith)
send-high spurious (through m h) s i = omega arith
send-high a p s i = omega arith

receive-high :
    (blocks : Bool) (r : ReceiverPc) (s : System)
    → (receive blocks r s).channel.high ≡ s.channel.high
unfolding receive
receive-high blocks (high_loaded h) s = ground arith
receive-high blocks r s = refl

record Whole (s : System) : Type 0 where
  inv : Inv s
  awake : Awake s

act-Whole : (t : Turn) (s : System) → s.channel.high + 1 < 2 ^ 64 → Whole s → Whole (act t s)
unfolding act
act-Whole (of_sender i a) s b w = record {
  inv = send-Inv w.inv b i w.awake a (s.sender i) refl (w.inv.knows i);
  awake = send-Awake a (s.sender i) s i w.awake;
}
act-Whole (of_receiver blocks) s b w = record {
  inv = receive-Inv w.inv b blocks s.receiver refl w.inv.sees;
  awake = receive-Awake blocks s.receiver s refl w.awake;
}

act-high : (t : Turn) (s : System) → (act t s).channel.high ≤ s.channel.high + 1
unfolding act
act-high (of_sender i a) s = send-high a (s.sender i) s i
act-high (of_receiver blocks) s = omega (arith, receive-high blocks s.receiver s)

run-Whole :
    (l : List Turn) (s : System) → s.channel.high + length l < 2 ^ 64 → Whole s → Whole (run l s)
unfolding run
run-Whole [] s b w = w
run-Whole (t ∷ l) s b w =
    run-Whole l (act t s) (omega (arith, b, act-high t s)) (act-Whole t s (omega (arith, b)) w)

-- As `fiber_bounded_channel_create` and `fiber_signal_init` leave a channel, with all fibers away.
pub record Initial (k : ℕ) (has_signal : Bool) (s : System) : Type 0 where
  pub fresh : s.channel ≡ create k has_signal
  pub alone : (i : ℕ) → s.sender i ≡ away
  pub idle : s.receiver ≡ trying
  pub unmarked : s.signal.scratch ≡ false

Initial-Whole : (k : ℕ) (has_signal : Bool) (s : System) → Initial k has_signal s → Whole s
Initial-Whole k has_signal s z = record {
  inv = record {
    order = ground (arith, z.fresh);
    room = ground (arith, z.fresh);
    history = λ n h. absurd (ground (arith, z.fresh, h));
    kept = λ n l h. absurd (ground (arith, z.fresh, h));
    vacant = λ n l h. ground (arith, z.fresh);
    knows = λ i. subst (Knows s) (sym (z.alone i)) tt;
    sees = subst (Sees s) (sym z.idle) tt;
    alone = λ i j m n k x y. absurd (ground (arith, z.alone i, x));
    apart = λ i m ret x. absurd (ground (arith, z.idle, x));
  };
  awake = λ q. absurd (ground (arith, z.unmarked, q));
}

module _ (k : ℕ) (has_signal : Bool) (l : List Turn) (s : System) (z : Initial k has_signal s)
    (b : length l < 2 ^ 64) where
  -- In every schedule of fewer than 2^64 turns at a bounded channel, no more messages are sent than received
  -- and the size; the messages received are those sent, in the order of the exchanges of their sends; and
  -- each of the others is in its cell, or about to be written there by its sender, or in the receiver's hand.
  pub received_as_sent :
      let t = run l s in
      (t.channel.low ≤ t.channel.high)
      × (t.channel.high ≤ t.channel.low + size t.channel)
      × ((n : ℕ) → n < t.channel.low → t.received n ≡ t.sent n)
      × ((n : ℕ) → t.channel.low ≤ n → n < t.channel.high → Kept t n)
  received_as_sent =
      let w = run-Whole l s (ground (arith, z.fresh, b)) (Initial-Whole k has_signal s z) in
      (w.inv.order, w.inv.room, w.inv.history, w.inv.kept)
