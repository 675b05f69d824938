-- ===== src/Mutex/Tests.antt =====
-- A run of the mutex, and its theorems at it.
use libfiber.Prelude.{ℕ, ◌≡◌, refl, inr, arith, List, [], ◌∷◌}
use libfiber.Mutex.Fibers.{
  refuse, away, asleep, inside, System, Action, do_lock, do_wait, do_unlock, do_wake, run,
}
use libfiber.Mutex.Invariant.{Initial}
use libfiber.Mutex.Exclusion.{Served, one_inside, waiting-Served}

abbrev fresh : System
fresh = record { mutex = record { counter = 1; waiters = [] }; contention = 0; pc = λ i. away }

fresh-Initial : Initial 2 fresh
fresh-Initial = ground arith

-- Fiber 1 waits while fiber 0 has the mutex, then gets it.
abbrev contended : List (ℕ × Action)
contended = (0, do_lock) ∷ (1, do_lock) ∷ (1, do_wait) ∷ []

abbrev handed : List (ℕ × Action)
handed = (0, do_lock) ∷ (1, do_lock) ∷ (1, do_wait) ∷ (0, do_unlock) ∷ (0, do_wake) ∷ []

abbrev finished : List (ℕ × Action)
finished =
    (0, do_lock) ∷ (1, do_lock) ∷ (1, do_wait) ∷ (0, do_unlock) ∷ (0, do_wake) ∷ (1, do_unlock) ∷ []

contended_sleeps : (run 2 contended fresh).pc 1 ≡ asleep
unfolding run
contended_sleeps = refl

handed-inside : (run 2 handed fresh).pc 1 ≡ inside
unfolding run
handed-inside = refl

finished_away : (i : ℕ) → (run 2 finished fresh).pc i ≡ away
unfolding run
finished_away i = ground arith

-- The lock of fiber 1 returns though fiber 0 has the mutex, when its yield is refused.
refused_inside :
    let t = run 2 ((0, do_lock) ∷ (1, do_lock) ∷ (1, refuse) ∷ []) fresh in
    (t.pc 0 ≡ inside) × (t.pc 1 ≡ inside)
unfolding run
refused_inside = (refl, refl)

one_inside_example : ◌≡◌ {A = ℕ} 1 1
one_inside_example =
    one_inside 2 handed fresh 1 1 refl fresh-Initial (omega arith) (omega arith) handed-inside
      handed-inside

waiting-Served_example : Served 2 (run 2 contended fresh)
waiting-Served_example =
    waiting-Served 2 contended fresh 1 refl fresh-Initial (omega arith) (inr contended_sleeps)
