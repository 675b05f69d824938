-- ===== src/Barrier/Tests.antt =====
-- Runs of a barrier of three fibers.
use libfiber.Prelude.{ℕ, ◌≤◌, ◌*◌, ◌/◌, arith, ◌≡◌, refl, List, [], ◌∷◌}
use libfiber.Barrier.{refuse, init, away, System, Action, do_wait, go, run}
use libfiber.Barrier.Rounds.{itself, Initial, returns_bounded}
use libfiber.Population.{tally}

abbrev fresh : System
fresh = record { barrier = init 3; pc = λ i. away; passed = λ i. 0 }

-- All three arrive, the first two sleep, and the third wakes them and passes.
abbrev in_turn : List (ℕ × Action)
in_turn =
    (0, do_wait)
    ∷ (0, go)
    ∷ (1, do_wait)
    ∷ (1, go)
    ∷ (2, do_wait)
    ∷ (2, go)
    ∷ (2, go)
    ∷ (2, go)
    ∷ []

in_turn_passes :
    let t = run 3 in_turn fresh in (t.passed 0 ≡ 1) × ((t.passed 1 ≡ 1) × (t.passed 2 ≡ 1))
unfolding run
in_turn_passes = (refl, (refl, refl))

-- Fiber 0 has arrived but is not in the queue yet when fiber 2 starts to wake two fibers. It wakes fiber
-- 1, which comes back for the next round at once, and wakes it again.
abbrev overtaken : List (ℕ × Action)
overtaken =
    (0, do_wait)
    ∷ (1, do_wait)
    ∷ (1, go)
    ∷ (2, do_wait)
    ∷ (2, go)
    ∷ (1, do_wait)
    ∷ (1, go)
    ∷ (2, go)
    ∷ []

-- Fiber 1 has passed two rounds, and no other fiber any, though the second round had one arrival.
overtaken_passes :
    let t = run 3 overtaken fresh in
    (t.passed 1 ≡ 2) × ((t.passed 0 ≡ 0) × ((t.passed 2 ≡ 0) × (t.barrier.counter ≡ 4)))
unfolding run
overtaken_passes = (refl, (refl, (refl, refl)))

-- The wait of fiber 0 returns before another fiber has arrived, when its yield is refused.
refused_passes : (run 3 ((0, do_wait) ∷ (0, refuse) ∷ []) fresh).passed 0 ≡ 1
unfolding run
refused_passes = refl

in_turn_count :
    (tally itself 3 (run 3 in_turn fresh).passed ≡ 3) × ((run 3 in_turn fresh).barrier.counter ≡ 3)
unfolding run
in_turn_count = (refl, refl)

fresh-Initial : Initial 3 fresh
fresh-Initial = record { fresh = refl; alone = λ i. refl; unpassed = λ i. refl }

returns_bounded_example :
    tally itself 3 (run 3 in_turn fresh).passed ≤ 3 * ((run 3 in_turn fresh).barrier.counter / 3)
returns_bounded_example =
    returns_bounded 3 3 in_turn fresh refl (omega arith) (omega arith) fresh-Initial
