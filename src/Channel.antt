-- ===== src/Channel.antt =====
-- include/fiber_channel.h: the unbounded channel with a signal. Any number of senders and one receiver,
-- interleaved at the atomic steps of the signal; the queue is taken as a list (its linked form, with the
-- window inside a push, is in Mpsc).
pub mod Wakeup
mod Tests
use libfiber.Prelude.{every, ℕ, Bool, true, false, ltb, if◌then◌else◌, List, [], ◌∷◌, ◌++◌, update}
use libfiber.Signal.{Signal, arm, raise, reset, mark}

-- A sender is away; it has pushed its message and has to raise the signal; it has taken the waiting
-- fiber off the signal, and has to put the word back; or it spins until that fiber can be woken.
pub data SenderPc : Type 0 where
  away raising clearing spinning : SenderPc

-- The receiver is away; it tries to pop; it has cleared its scratch, and tries to wait on the signal;
-- it is on its way to sleep; asleep; woken; or about to put the word back.
pub data ReceiverPc : Type 0 where
  outside trying arming parking parked waking resetting : ReceiverPc

-- `sent` has all messages in the order of their pushes, `received` those that were received.
pub record System : Type 0 where
  pub queue : List ℕ
  pub signal : Signal
  pub sent : List ℕ
  pub received : List ℕ
  pub receiver : ReceiverPc
  pub sender : ℕ → SenderPc

pub data Action : Type 0 where
  do_send : ℕ → Action
  go : Action

abbrev pub goes : System → ℕ → SenderPc → Signal → System
goes s i p g = record s { signal = g; sender = update s.sender i p }

-- A step of sender `i`.
unfoldable pub send : Action → SenderPc → System → ℕ → System
send (do_send message) away s i = record s {
  queue = s.queue ++ (message ∷ []);
  sent = s.sent ++ (message ∷ []);
  sender = update s.sender i raising;
}
send go raising s i =
    let (g, waited) = raise s.signal in goes s i (if waited then clearing else away) g
send go clearing s i = goes s i spinning (reset s.signal)
send go spinning s i =
    if s.signal.scratch then record s { receiver = waking; sender = update s.sender i away } else s
send a p s i = s

-- `mpsc_fifo_trypop`, and what the loop of the receiver does with its answer.
abbrev pub trypop : List ℕ → System → System
trypop [] s = record s { signal = mark false s.signal; receiver = arming }
trypop (message ∷ rest) s = record s {
  queue = rest;
  received = s.received ++ (message ∷ []);
  receiver = outside;
}

-- A step of the receiver, which starts another receive once one has returned.
unfoldable pub receive : ReceiverPc → System → System
receive outside s = record s { receiver = trying }
receive trying s = trypop s.queue s
receive arming s =
    let (g, sleeps) = arm s.signal in
    record s { signal = g; receiver = if sleeps then parking else resetting }
receive parking s = record s { signal = mark true s.signal; receiver = parked }
receive parked s = s
receive waking s = record s { signal = mark false s.signal; receiver = resetting }
receive resetting s = record s { signal = reset s.signal; receiver = trying }

pub data Turn : Type 0 where
  of_sender : ℕ → Action → Turn
  of_receiver : Turn
  refused : Turn

-- Whether a fiber that waits is switched away from. If not, `fiber_manager_yield` has returned to it at once,
-- since the manager was given a fiber to run and refused to run it.
abbrev pub switches : Turn → Bool
switches refused = false
switches t = true

abbrev pub unrefused : List Turn → Bool
unrefused l = every switches l

-- The yield of the receiver's wait returns at once, and the store to `scratch` is left to the manager.
abbrev pub refuse : ReceiverPc → System → System
refuse parking s = record s { receiver = waking }
refuse p s = s

unfoldable pub act : ℕ → Turn → System → System
unfolding send receive
act n (of_sender i a) s = if ltb i n then send a (s.sender i) s i else s
act n of_receiver s = receive s.receiver s
act n refused s = refuse s.receiver s

-- A schedule of `n` senders and the receiver.
unfoldable pub run : ℕ → List Turn → System → System
unfolding act
run n [] s = s
run n (t ∷ l) s = run n l (act n t s)
