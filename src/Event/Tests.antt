-- ===== src/Event/Tests.antt =====
-- Fiber 1 waits to read descriptor 5 and fiber 2 to write to it.
use libfiber.Prelude.{◌<◌, ◌≡◌, ◌≢◌, ◌⊎◌, refl, true, false, List, [], ◌∷◌}
use libfiber.Event.{
  Events, no_events, unused, away, asleep, ready, System, handle, fd_closed, Action, wait, deliver,
  poll, close, run, all_served,
}
use libfiber.Event.Invariant.{Includes}
use libfiber.Event.Waiters.{Initial, waiter_covered, waits_end}

abbrev fresh : System
fresh = record {
  wait_info = λ fd. unused;
  armed = λ fd. no_events;
  delivered = λ fd. 0;
  pc = λ i. away;
}

fresh-Initial : Initial fresh
fresh-Initial = record { fresh = λ fd. refl; alone = λ i. refl }

abbrev reads : Events
reads = record { pollin = true; pollout = false }

abbrev writes : Events
writes = record { pollin = false; pollout = true }

abbrev both : List Action
both = wait 1 5 reads true true ∷ deliver 5 ∷ wait 2 5 writes true true ∷ []

both-asleep : (run both fresh).pc 1 ≡ asleep 5 reads
unfolding run
both-asleep = refl

both-served : all_served both ≡ true
unfolding all_served
both-served = refl

waiter_covered_example : let t = run both fresh in Includes (t.armed 5) reads ⊎ (0 < t.delivered 5)
waiter_covered_example = waiter_covered both fresh fresh-Initial both-served 1 5 reads both-asleep

waits_end_example :
    let t = run both fresh in
    ((e : Events)
      → t.pc 1 ≡ asleep 5 e
      → ((handle 5 reads true t).pc 1 ≡ ready true) × ((fd_closed 5 t).pc 1 ≡ ready false))
    × (((e : Events) → t.pc 1 ≢ asleep 5 e)
        → ((handle 5 reads true t).pc 1 ≡ t.pc 1) × ((fd_closed 5 t).pc 1 ≡ t.pc 1))
waits_end_example = waits_end both fresh fresh-Initial both-served 1 5 reads true

-- The event that was delivered ends both waits, and the descriptor stays armed for writing.
both_woken :
    let t =
      run
        (wait 1 5 reads true true ∷ deliver 5 ∷ wait 2 5 writes true true ∷ poll 5 reads true ∷ [])
        fresh in
    (t.pc 1 ≡ ready true) × ((t.pc 2 ≡ ready true) × (t.armed 5 ≡ writes))
unfolding run
both_woken = (refl, (refl, refl))

-- A wait on a descriptor that is closed fails.
closed_fails : (run (wait 1 5 reads true true ∷ close 5 ∷ []) fresh).pc 1 ≡ ready false
unfolding run
closed_fails = refl

-- A wait that is refused the switch returns success with no event, and its fiber stays on the list.
refused_waits :
    let t = run (wait 1 5 reads true false ∷ []) fresh in
    (t.pc 1 ≡ ready true) × ((t.wait_info 5).waiters ≡ (1 ∷ []))
unfolding run
refused_waits = (refl, refl)

-- Where `epoll_ctl` fails the fiber sleeps, and the descriptor is not armed.
sleeps_unarmed :
    let t = run (wait 1 5 reads false true ∷ []) fresh in
    (t.pc 1 ≡ asleep 5 reads) × (t.armed 5 ≡ no_events)
unfolding run
sleeps_unarmed = (refl, refl)
