-- ===== src/MultiChannel/Tests.antt =====
-- A channel of two cells. Fibers 0 to 2 receive, and fibers 3 to 5 send.
use libfiber.Prelude.{ℕ, ◌≤◌, ◌≡◌, refl, arith, List, [], ◌∷◌, ◌++◌, length}
use libfiber.MultiChannel.{
  create, size, Call, sending, receiving, away, inside, asleep, System, Action, call, go, run,
}
use libfiber.MultiChannel.Contents.{contents}
use libfiber.MultiChannel.Order.{Initial, multi_received_in_order}

abbrev fresh : System
fresh = record { channel = create 1; pc = λ i. away; sent = []; received = [] }

fresh-Initial : Initial 1 fresh
fresh-Initial = record { fresh = refl; alone = λ i. refl; unsent = refl; unreceived = refl }

-- A call up to its return or its sleep, and the same for a fiber that was woken.
abbrev starts : ℕ → Call → List (ℕ × Action)
starts i c = (i, call c) ∷ (i, go) ∷ (i, go) ∷ (i, go) ∷ []

abbrev retries : ℕ → List (ℕ × Action)
retries i = (i, go) ∷ (i, go) ∷ (i, go) ∷ []

-- Receiver 0 sleeps; sender 3 fills a cell, wakes it, and fills the other; receiver 0 gets the first message.
abbrev meeting : List (ℕ × Action)
meeting = starts 0 receiving ++ (starts 3 (sending 7) ++ (starts 3 (sending 8) ++ retries 0))

meeting_received :
    ((run 6 meeting fresh).received ≡ 7 ∷ []) × (contents (run 6 meeting fresh).channel ≡ 8 ∷ [])
unfolding run
meeting_received = (refl, refl)

multi_received_in_order_example :
    let t = run 6 meeting fresh in
    (t.sent ≡ t.received ++ contents t.channel) × (length (contents t.channel) ≤ size t.channel)
unfolding run
multi_received_in_order_example =
    multi_received_in_order 6 1 meeting fresh refl fresh-Initial (omega arith)

-- Sender 3 has the mutex while receiver 0 sleeps.
abbrev about_to_wake : List (ℕ × Action)
about_to_wake = starts 0 receiving ++ ((3, call (sending 7)) ∷ (3, go) ∷ [])

about_inside : (run 6 about_to_wake fresh).pc 3 ≡ inside (sending 7)
unfolding run
about_inside = refl

-- Three receivers wait, and sender 3 wakes two of them. Senders 4 and 5 find the channel full, and wait on
-- top of receiver 0: what a receiver and sender 3 wake from then on are these two, who find it full again.
abbrev stuck : List (ℕ × Action)
stuck =
    starts 0 receiving
    ++ (starts 1 receiving
        ++ (starts 2 receiving
            ++ (starts 3 (sending 7)
                ++ (starts 3 (sending 8)
                    ++ (starts 4 (sending 9)
                        ++ (starts 5 (sending 10)
                            ++ (retries 2
                                ++ (starts 3 (sending 11)
                                    ++ (retries 5
                                        ++ (retries 4
                                            ++ (retries 1
                                                ++ (starts 3 (sending 12)
                                                    ++ (retries 4 ++ retries 5)))))))))))))

-- The channel is full, everyone who is in it sleeps, and receiver 0 among them.
full_but_asleep :
    let t = run 6 stuck fresh in
    (contents t.channel ≡ 11 ∷ 12 ∷ [])
    × ((t.pc 0 ≡ asleep receiving)
        × ((t.pc 4 ≡ asleep (sending 9))
            × ((t.pc 5 ≡ asleep (sending 10))
                × ((t.pc 1 ≡ away) × ((t.pc 2 ≡ away) × (t.pc 3 ≡ away))))))
unfolding run
full_but_asleep = (refl, (refl, (refl, (refl, (refl, (refl, refl))))))
