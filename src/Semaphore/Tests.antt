-- ===== src/Semaphore/Tests.antt =====
-- A run of a semaphore of one permit, and its theorems at it.
use libfiber.Prelude.{ℕ, ◌≡◌, refl, List, [], ◌∷◌}
use libfiber.Population.{tally}
use libfiber.Semaphore.{
  refuse, init, away, asleep, inside, System, Action, do_wait, do_post, go, run,
}
use libfiber.Semaphore.Invariant.{holds, waits, owes}

abbrev fresh : System
fresh = record { sem = init 1; pc = λ i. away }

abbrev waiting : List (ℕ × Action)
waiting = (0, do_wait) ∷ (1, do_wait) ∷ (1, go) ∷ []

-- The post of fiber 0 wakes fiber 1.
abbrev passed : List (ℕ × Action)
passed = (0, do_wait) ∷ (1, do_wait) ∷ (1, go) ∷ (0, do_post) ∷ (0, go) ∷ (0, go) ∷ []

waiting_sleeps : (run 2 waiting fresh).pc 1 ≡ asleep
unfolding run
waiting_sleeps = refl

passed_inside : (run 2 passed fresh).pc 1 ≡ inside
unfolding run
passed_inside = refl

passed_quiet :
    (tally waits 2 (run 2 passed fresh).pc ≡ 0) × (tally owes 2 (run 2 passed fresh).pc ≡ 0)
unfolding run
passed_quiet = (refl, refl)

-- Both fibers are inside with one permit, when the yield of the wait of fiber 1 is refused.
refused_holds : tally holds 2 (run 2 ((0, do_wait) ∷ (1, do_wait) ∷ (1, refuse) ∷ []) fresh).pc ≡ 2
unfolding run
refused_holds = refl
