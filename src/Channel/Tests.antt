-- ===== src/Channel/Tests.antt =====
-- A receiver that waits, and two senders.
use libfiber.Prelude.{ℕ, ◌<◌, ◌≡◌, ◌≢◌, inr, refl, arith, false, true, List, [], ◌∷◌, ◌++◌}
use libfiber.Signal.{no_waiter}
use libfiber.Channel.{
  away, spinning, outside, parked, System, Turn, of_sender, of_receiver, do_send, go, run,
}
use libfiber.Channel.Wakeup.{Initial, Rouses, sleeping-Rouses}

abbrev fresh : System
fresh = record {
  queue = [];
  signal = record { waiter = no_waiter; scratch = false };
  sent = [];
  received = [];
  receiver = outside;
  sender = λ i. away;
}

fresh-Initial : Initial fresh
fresh-Initial = record {
  lowered = refl;
  empty = refl;
  unsent = refl;
  unreceived = refl;
  alone = refl;
  quiet = λ i. refl;
}

-- The receiver goes to sleep, and sender 1 sends.
abbrev asleep : List Turn
asleep = of_receiver ∷ of_receiver ∷ of_receiver ∷ of_receiver ∷ of_sender 1 (do_send 7) ∷ []

asleep_parked : (run 2 asleep fresh).receiver ≡ parked
unfolding run
asleep_parked = refl

asleep_queue : (run 2 asleep fresh).queue ≢ []
unfolding run
asleep_queue = λ e. ground arith

-- Sender 1 then takes it off the signal.
abbrev roused : List Turn
roused = asleep ++ (of_sender 1 go ∷ of_sender 1 go ∷ [])

roused_spinning : (run 2 roused fresh).sender 1 ≡ spinning
unfolding run
roused_spinning = refl

roused_marked : (run 2 roused fresh).signal.scratch ≡ true
unfolding run
roused_marked = refl

abbrev delivered : List Turn
delivered =
    roused
    ++ (of_sender 1 go ∷ of_sender 0 (do_send 8) ∷ of_receiver ∷ of_receiver ∷ of_receiver ∷ [])

delivered_received : (run 2 delivered fresh).received ≡ 7 ∷ []
unfolding run
delivered_received = refl

sleeping-Rouses_example : (j : ℕ) × (j < 2) × Rouses ((run 2 asleep fresh).sender j)
sleeping-Rouses_example =
    sleeping-Rouses 2 asleep fresh refl fresh-Initial (inr asleep_parked) asleep_queue
