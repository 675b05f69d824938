-- ===== src/Sleepers/Tests.antt =====
-- Sleepers of one thread, whose timer triggers every five milliseconds.
use libfiber.Prelude.{◌≡◌, refl, some, List, [], ◌∷◌}
use libfiber.Sleepers.{leaf, Event, sleep, timer, System, sleep_ms, run}
use libfiber.Sleepers.Order.{entries}

abbrev fresh : System
fresh = record { now = record { timer_trigger_count = 0; sleepers = leaf }; asked = []; woken = [] }

-- Fibers 1 and 3 sleep for 2 ms, fiber 2 for 1 ms, and fiber 4 for 10 ms; the timer triggers four times.
abbrev four : List Event
four = sleep 0 2000 1 ∷ sleep 0 1000 2 ∷ sleep 0 2000 3 ∷ sleep 0 10000 4 ∷ timer 3 ∷ timer 1 ∷ []

four_woken :
    (s : System) × (run four fresh ≡ some s)
    × (s.woken ≡ (2, 2) ∷ (3, 1) ∷ (3, 3) ∷ [])
    × (entries s.now.sleepers ≡ (11, 4) ∷ [])
unfolding run
four_woken = (_, refl, refl, refl)

-- A sleep of one second lasts through 1001 triggers of the timer, which are more than five seconds.
second_sleeps_on :
    (s : System) × (run (sleep 1 0 1 ∷ timer 1001 ∷ []) fresh ≡ some s) × (s.woken ≡ [])
unfolding run
second_sleeps_on = (_, refl, refl)

-- A sleep of 4294968 seconds is one of 705 milliseconds.
long_sleep_wraps : sleep_ms 4294968 0 ≡ 705
long_sleep_wraps = refl
