-- ===== src/MultiSignal/Tests.antt =====
-- Fibers 0 and 1 wait, and fiber 2 raises.
use libfiber.Prelude.{Member, ℕ, ◌≡◌, ◌⊎◌, refl, arith, false, some, List, [], ◌∷◌, ◌++◌, Distinct}
use libfiber.MultiSignal.{
  null, init, away, parked, spinning, accepted, raised, slept, popped, System, Action, do_wait,
  do_raise, go, run,
}
use libfiber.MultiSignal.Replay.{State, members, Linked, replay, Stands}
use libfiber.MultiSignal.Stages.{sleeps}
use libfiber.MultiSignal.Waiters.{Initial, signal_replayed, sleeper_found}

abbrev fresh : System
fresh = record { signal = init (λ i. null); scratch = λ i. false; pc = λ i. away; log = [] }

fresh-Initial : Initial fresh
fresh-Initial = record { fresh = (refl, refl); alone = λ i. refl; unused = refl }

abbrev gos : ℕ → List (ℕ × Action)
gos i = (i, go) ∷ (i, go) ∷ (i, go) ∷ (i, go) ∷ []

-- A wait up to its sleep, and a raise up to its exchange.
abbrev waits : ℕ → List (ℕ × Action)
waits i = (i, do_wait) ∷ (gos i ++ ((i, go) ∷ []))

-- Both sleep, and fiber 2 has popped fiber 1.
abbrev two_wait : List (ℕ × Action)
two_wait = waits 0 ++ (waits 1 ++ ((2, do_raise false) ∷ gos 2))

two_wait_log :
    let t = run 3 two_wait fresh in
    (t.log ≡ popped 1 ∷ slept 1 ∷ slept 0 ∷ []) × ((t.pc 0 ≡ parked) × ((t.pc 2 ≡ spinning 1)))
unfolding run
two_wait_log = (refl, (refl, refl))

-- A raise that finds no one is kept for the next wait.
raise_is_kept :
    (run 2 (((0, do_raise false) ∷ gos 0) ++ (waits 1)) fresh).log ≡ accepted ∷ raised ∷ []
unfolding run
raise_is_kept = refl

zero_sleeps : sleeps ((run 3 two_wait fresh).pc 0) ≡ 1
unfolding run
zero_sleeps = refl

two_spins : (run 3 two_wait fresh).pc 2 ≡ spinning 1
unfolding run
two_spins = refl

signal_replayed_example :
    let t = run 3 two_wait fresh in
    (a : State) × (replay t.log ≡ some a)
    × Stands t.signal.next t.signal.head a
    × Distinct (members a)
unfolding run
signal_replayed_example = signal_replayed 3 two_wait fresh refl fresh-Initial (omega arith)

sleeper_found_example :
    let t = run 3 two_wait fresh in
    ((ws : List ℕ) × Linked t.signal.next t.signal.head ws × Member 0 ws)
    ⊎ ((k : ℕ) × (t.pc k ≡ spinning 0))
sleeper_found_example =
    sleeper_found 3 two_wait fresh refl fresh-Initial (omega arith) 0 zero_sleeps
