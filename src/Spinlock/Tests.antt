-- ===== src/Spinlock/Tests.antt =====
-- A run of the spinlock, and its theorems at it.
use libfiber.Prelude.{ℕ, ◌≡◌, refl, arith, List, [], ◌∷◌}
use libfiber.Spinlock.{
  away, inside, spinning, releasing, System, Action, do_lock, do_unlock, go, run,
}
use libfiber.Spinlock.Invariant.{Initial}
use libfiber.Spinlock.Turns.{one_thread_inside}

abbrev fresh : System
fresh = record { lock = record { ticket = 0; users = 0 }; pc = λ i. away }

fresh-Initial : Initial 2 fresh
fresh-Initial = ground arith

-- Thread 0 is inside and thread 1 spins; then thread 0 is about to store the next ticket.
abbrev behind : List (ℕ × Action)
behind = (0, do_lock) ∷ (0, go) ∷ (1, do_lock) ∷ (1, go) ∷ []

abbrev leaving : List (ℕ × Action)
leaving = (0, do_lock) ∷ (0, go) ∷ (1, do_lock) ∷ (0, do_unlock) ∷ []

behind-inside : (run 2 behind fresh).pc 0 ≡ inside
unfolding run
behind-inside = refl

behind_spins : (run 2 behind fresh).pc 1 ≡ spinning 1
unfolding run
behind_spins = refl

leaving_releases : (run 2 leaving fresh).pc 0 ≡ releasing 0
unfolding run
leaving_releases = refl

leaving_spins : (run 2 leaving fresh).pc 1 ≡ spinning 1
unfolding run
leaving_spins = refl

one_thread_inside_example : ◌≡◌ {A = ℕ} 0 0
one_thread_inside_example =
    one_thread_inside 2 behind fresh 0 0 fresh-Initial behind-inside behind-inside
