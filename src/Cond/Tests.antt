-- ===== src/Cond/Tests.antt =====
-- Fibers 0 and 1 wait, and fiber 2 signals.
use libfiber.Prelude.{ℕ, ◌<◌, ◌≡◌, refl, arith, true, false, List, [], ◌∷◌}
use libfiber.Cond.{
  refuse, init, away, entering, waking, System, Action, do_wait, go, do_signal, run,
}
use libfiber.Cond.Counted.{Initial, waker_served}

abbrev fresh : System
fresh = record { cond = init; pc = λ i. away }

fresh-Initial : Initial fresh
fresh-Initial = record { fresh = refl; alone = λ i. refl }

-- Fiber 0 sleeps and fiber 1 is on its way; fiber 2 broadcasts, and has woken fiber 0.
abbrev half_woken : List (ℕ × Action)
half_woken =
    (0, do_wait) ∷ (0, go) ∷ (1, do_wait) ∷ (2, do_signal true) ∷ (2, go) ∷ (2, go) ∷ (2, go) ∷ []

half_waking : (run 3 half_woken fresh).pc 2 ≡ waking 1
unfolding run
half_waking = refl

half_empty : (run 3 half_woken fresh).cond.waiters ≡ []
unfolding run
half_empty = refl

-- A signal that finds no one leaves the counter as it was.
abbrev no_one : List (ℕ × Action)
no_one = (2, do_signal false) ∷ (2, go) ∷ (2, go) ∷ (2, go) ∷ (2, go) ∷ (0, do_wait) ∷ []

no_one_counts : (run 3 no_one fresh).cond.waiter_count ≡ 1
unfolding run
no_one_counts = refl

no_one_unlocked : (run 3 no_one fresh).cond.internal_mutex ≡ false
unfolding run
no_one_unlocked = refl

-- The wait of fiber 0 returns unsignalled, when its yield is refused.
refused_returns : (run 3 ((0, do_wait) ∷ (0, refuse) ∷ []) fresh).pc 0 ≡ away
unfolding run
refused_returns = refl

waker_served_example : (j : ℕ) × (j < 3) × ((run 3 half_woken fresh).pc j ≡ entering)
waker_served_example =
    waker_served 3 half_woken fresh refl fresh-Initial (omega arith) 2 0 (omega arith) half_waking
      half_empty
