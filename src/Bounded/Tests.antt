-- ===== src/Bounded/Tests.antt =====
-- Two senders and the receiver at a channel of two cells.
use libfiber.Prelude.{ℕ, ◌+◌, ◌≤◌, ◌<◌, ◌≡◌, refl, arith, true, false, List, [], ◌∷◌, ◌++◌}
use libfiber.Signal.{no_waiter}
use libfiber.Bounded.{
  create, size, away, starting, writing, trying, parked, System, do_send, go, Turn, of_sender,
  of_receiver, run,
}
use libfiber.Bounded.Cells.{Kept}
use libfiber.Bounded.Order.{Initial, received_as_sent}

abbrev fresh : System
fresh = record {
  channel = create 1 true;
  signal = record { waiter = no_waiter; scratch = false };
  sent = λ n. 0;
  received = λ n. 0;
  receiver = trying;
  sender = λ i. away;
}

fresh-Initial : Initial 1 true fresh
fresh-Initial = record { fresh = refl; alone = λ i. refl; idle = refl; unmarked = refl }

abbrev receives : List Turn
receives = of_receiver true ∷ of_receiver true ∷ of_receiver true ∷ of_receiver true ∷ []

-- The receiver goes to sleep; fiber 1 sends 7 and wakes it, fiber 2 claims the next cell for 8.
abbrev begin : List Turn
begin =
    receives
    ++ (of_sender 1 (do_send 7)
        ∷ of_sender 1 go
        ∷ of_sender 1 go
        ∷ of_sender 1 go
        ∷ of_sender 1 go
        ∷ of_sender 1 go
        ∷ [])
    ++ (of_sender 1 go ∷ of_sender 1 go ∷ of_sender 1 go ∷ [])
    ++ (of_sender 2 (do_send 8)
        ∷ of_sender 2 go
        ∷ of_sender 2 go
        ∷ of_sender 2 go
        ∷ of_sender 2 go
        ∷ [])

asleep_first : (run receives fresh).receiver ≡ parked
unfolding run
asleep_first = refl

-- A third message finds the channel full, and the receiver then takes 7.
abbrev busy : List Turn
busy =
    begin
    ++ (of_sender 3 (do_send 9) ∷ of_sender 3 go ∷ of_sender 3 go ∷ of_sender 3 go ∷ [])
    ++ (of_receiver true ∷ of_receiver true ∷ receives)

busy_state :
    let t = run busy fresh in
    (t.received 0 ≡ 7)
    × (t.channel.low ≡ 1)
    × (t.channel.high ≡ 2)
    × (t.sender 2 ≡ writing 8 1)
    × (t.sender 3 ≡ starting 9)
unfolding run
busy_state = (refl, refl, refl, refl, refl)

received_as_sent_example :
    let t = run busy fresh in
    (t.channel.low ≤ t.channel.high)
    × (t.channel.high ≤ t.channel.low + size t.channel)
    × ((n : ℕ) → n < t.channel.low → t.received n ≡ t.sent n)
    × ((n : ℕ) → t.channel.low ≤ n → n < t.channel.high → Kept t n)
received_as_sent_example = received_as_sent 1 true busy fresh fresh-Initial (omega arith)
