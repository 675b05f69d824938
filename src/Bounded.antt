-- ===== src/Bounded.antt =====
-- include/fiber_channel.h: the bounded channel. Any number of senders and one receiver, interleaved at the
-- atomic steps of the ring and of the signal.
pub mod Cells
pub mod Steps
pub mod Turns
pub mod Order
mod Tests
use libfiber.Prelude.{
  ℕ, ◌+◌, ◌%◌, ◌^◌, Bool, true, false, not, ◌&&◌, ◌==◌, ltb, if◌then◌else◌, List, [], ◌∷◌, update,
  sub64,
}
use libfiber.Signal.{Signal, arm, raise, reset, mark}

-- `fiber_bounded_channel_t`; NULL is 0. `has_signal` is false for a channel that spins, whose `ready_signal`
-- is NULL.
pub record Channel : Type 0 where
  pub high : ℕ
  pub low : ℕ
  pub log_size : ℕ
  pub buffer : ℕ → ℕ
  pub has_signal : Bool

-- `calloc` gives a buffer of NULLs.
abbrev pub create : ℕ → Bool → Channel
create power_of_2_size has_signal = record {
  high = 0;
  low = 0;
  log_size = power_of_2_size;
  buffer = λ i. 0;
  has_signal = has_signal;
}

abbrev pub size : Channel → ℕ
size c = 2 ^ c.log_size

-- `i & channel->power_of_2_mod`
abbrev pub index : Channel → ℕ → ℕ
index c i = i % size c

abbrev pub incr64 : ℕ → ℕ
incr64 a = (a + 1) % 2 ^ 64

-- A sender is away; it has a message to send; it has loaded `low`, and then `high`; its tests have let it
-- through to the exchange; it has to write its cell; it has to raise the signal; it has taken the waiting
-- fiber off the signal, and has to put the word back; or it spins until that fiber can be woken.
pub data SenderPc : Type 0 where
  away : SenderPc
  starting : ℕ → SenderPc
  low_loaded : ℕ → ℕ → SenderPc
  both_loaded : ℕ → ℕ → ℕ → SenderPc
  through : ℕ → ℕ → SenderPc
  writing : ℕ → ℕ → SenderPc
  raising clearing spinning : SenderPc

-- The receiver is to load `high`; it has loaded it; it has found a message, and has to clear its cell; it has
-- to store `low`; it tries to wait on the signal; it is on its way to sleep; asleep; woken; or about to put
-- the word back.
pub data ReceiverPc : Type 0 where
  trying : ReceiverPc
  high_loaded : ℕ → ReceiverPc
  taking : ℕ → ReceiverPc
  storing : ℕ → ReceiverPc
  arming parking parked waking resetting : ReceiverPc

-- `sent i` is the message of the exchange that raised `high` from `i`, and `received i` the message that was
-- returned when `low` was raised from `i`.
pub record System : Type 0 where
  pub channel : Channel
  pub signal : Signal
  pub sent : ℕ → ℕ
  pub received : ℕ → ℕ
  pub receiver : ReceiverPc
  pub sender : ℕ → SenderPc

-- `spurious` is the failure of a weak compare-exchange for no reason.
pub data Action : Type 0 where
  do_send : ℕ → Action
  go : Action
  spurious : Action

abbrev pub move : System → ℕ → SenderPc → System
move s i p = record s { sender = update s.sender i p }

-- The exchange on `high`.
abbrev pub claim : ℕ → ℕ → System → ℕ → System
claim m high s i =
    if s.channel.high == high
    then record s {
      channel = let c = s.channel in record c { high = incr64 high };
      sent = update s.sent high m;
      sender = update s.sender i (writing m high);
    }
    else move s i (starting m)

abbrev pub goes : System → ℕ → SenderPc → Signal → System
goes s i p g = record s { signal = g; sender = update s.sender i p }

-- A step of sender `i` in `fiber_bounded_channel_send`, which starts with a message that is not NULL.
unfoldable pub send : Action → SenderPc → System → ℕ → System
send (do_send m) away s i = if m == 0 then s else move s i (starting m)
send go (starting m) s i = move s i (low_loaded m s.channel.low)
send go (low_loaded m low) s i = move s i (both_loaded m low s.channel.high)
send go (both_loaded m low high) s i =
    let c = s.channel in
    if (c.buffer (index c high) == 0) && ltb (sub64 high low) (size c)
    then move s i (through m high)
    else move s i (starting m)
send go (through m high) s i = claim m high s i
send spurious (through m high) s i = move s i (starting m)
send go (writing m k) s i = record s {
  channel = let c = s.channel in record c { buffer = update c.buffer (index c k) m };
  sender = update s.sender i (if s.channel.has_signal then raising else away);
}
send go raising s i =
    let (g, waited) = raise s.signal in goes s i (if waited then clearing else away) g
send go clearing s i = goes s i spinning (reset s.signal)
send go spinning s i =
    if s.signal.scratch then record s { receiver = waking; sender = update s.sender i away } else s
send a p s i = s

-- What a receiver does when there is no message: `fiber_bounded_channel_receive` waits on the signal, or
-- yields, and `fiber_bounded_channel_try_receive` returns.
abbrev pub nothing : Bool → System → System
nothing blocks s =
    if blocks && s.channel.has_signal
    then record s { signal = mark false s.signal; receiver = arming }
    else record s { receiver = trying }

-- A step of the receiver, which starts another call once one has returned; `blocks` is true in
-- `fiber_bounded_channel_receive`.
unfoldable pub receive : Bool → ReceiverPc → System → System
receive blocks trying s = record s { receiver = high_loaded s.channel.high }
receive blocks (high_loaded high) s =
    let c = s.channel in
    let ret = c.buffer (index c c.low) in
    if not (ret == 0) && ltb c.low high
    then record s { receiver = taking ret }
    else nothing blocks s
receive blocks (taking ret) s =
    let c = s.channel in
    record s {
      channel = record c { buffer = update c.buffer (index c c.low) 0 };
      receiver = storing ret;
    }
receive blocks (storing ret) s =
    let c = s.channel in
    record s {
      channel = record c { low = incr64 c.low };
      received = update s.received c.low ret;
      receiver = trying;
    }
receive blocks arming s =
    let (g, sleeps) = arm s.signal in
    record s { signal = g; receiver = if sleeps then parking else resetting }
receive blocks parking s = record s { signal = mark true s.signal; receiver = parked }
receive blocks parked s = s
receive blocks waking s = record s { signal = mark false s.signal; receiver = resetting }
receive blocks resetting s = record s { signal = reset s.signal; receiver = trying }

pub data Turn : Type 0 where
  of_sender : ℕ → Action → Turn
  of_receiver : Bool → Turn

unfoldable pub act : Turn → System → System
unfolding send receive
act (of_sender i a) s = send a (s.sender i) s i
act (of_receiver blocks) s = receive blocks s.receiver s

unfoldable pub run : List Turn → System → System
unfolding act
run [] s = s
run (t ∷ l) s = run l (act t s)
