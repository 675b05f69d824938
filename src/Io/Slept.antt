-- ===== src/Io/Slept.antt =====
-- How long the functions of src/fiber_io.c that sleep ask the event system to sleep.
use libfiber.Prelude.{ℕ, ◌+◌, ◌*◌, ◌/◌, ◌%◌, ◌^◌, ◌<◌, ◌≤◌, ◌≡◌, arith, true}
use libfiber.Io.{Io, Os}
use libfiber.Io.Control.{in_fiber, sleep, usleep, nanosleep}
use libfiber.Sleepers.{sleep_ms}

-- A call to sleep is one of `fiber_sleep` with a time that comes to between the nanoseconds asked for and two
-- milliseconds more.
abbrev pub Sleeps : {W : Type 0} → Os W → ℕ → (Io W → Io W) → Io W → Type 0
Sleeps os nanoseconds f s =
    (seconds : ℕ) × (useconds : ℕ) × (f s ≡ os.fiber_sleep seconds useconds s)
    × (nanoseconds < sleep_ms seconds useconds * 1000000)
    × (sleep_ms seconds useconds * 1000000 ≤ nanoseconds + 2000000)

module _ {W : Type 0} (os : Os W) (s : Io W) (inside : in_fiber os s ≡ true) where
  -- In a fiber, `sleep`, `usleep` and `nanosleep` ask the event system for no less than they are asked for,
  -- and at most for two milliseconds more, when the times are below 2^22 seconds.
  pub enough_asked :
      (seconds useconds tv_sec tv_nsec : ℕ)
      → seconds < 2 ^ 22
      → useconds < 2 ^ 32
      → tv_sec < 2 ^ 22
      → tv_nsec < 1000000000
      → Sleeps os (seconds * 1000000000) (sleep os seconds) s
        × Sleeps os (useconds * 1000) (usleep os useconds) s
        × Sleeps os (tv_sec * 1000000000 + tv_nsec) (nanosleep os tv_sec tv_nsec) s
  unfolding sleep usleep nanosleep
  enough_asked seconds useconds tv_sec tv_nsec a b c d = (
    (seconds, 0, ground (arith, inside), ground (arith, a), ground (arith, a)),
    (
      useconds / 1000000,
      useconds % 1000000,
      ground (arith, inside),
      ground (arith, b),
      ground (arith, b),
    ),
    (
      tv_sec % 2 ^ 32,
      tv_nsec / 1000 + 1,
      ground (arith, inside),
      ground (arith, c, d),
      ground (arith, c, d),
    ),
  )
