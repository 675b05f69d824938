-- ===== src/Io/Control.antt =====
-- `fcntl` and `ioctl`, and the functions that sleep, of src/fiber_io.c.
use libfiber.Prelude.{
  ℕ, ◌+◌, ◌/◌, ◌%◌, ◌^◌, Bool, false, ◌&&◌, not, ◌==◌, if◌then◌else◌, Option, none, some,
}
use libfiber.Io.{
  ℤ, pos, minus_one, einval, Io, Os, M, ◌>>◌, pure, call, set_flags, f_setfl, o_nonblock,
}

-- `val | O_NONBLOCK`
abbrev pub with_nonblock : ℕ → ℕ
with_nonblock val = if (val / 2048) % 2 == 1 then val else val + 2048

-- O_NDELAY is the same number as O_NONBLOCK.
unfoldable pub fcntl : {W : Type 0} → Os W → ℕ → ℕ → ℕ → M W ℤ
unfolding set_flags
fcntl os fd cmd val s =
    if s.thread_locked
    then call (os.fcntl fd cmd val) s
    else if cmd == f_setfl
    then if val == o_nonblock
      then (do set_flags fd (λ f. record f { blocking = false }); pure (pos 0)) s
      else call (os.fcntl fd cmd (with_nonblock val)) s
    else call (os.fcntl fd cmd val) s

abbrev pub fionbio : ℕ
fionbio = 21537

-- `val` is the pointer, none for NULL, with the `int` that is there.
unfoldable pub ioctl : {W : Type 0} → Os W → ℕ → ℕ → ℕ → Option ℕ → M W ℤ
unfolding set_flags
ioctl os d request address val s =
    if not s.thread_locked && (request == fionbio)
    then elim val [
      | none ↦ some (minus_one, record s { errno = einval })
      | some on ↦ (do set_flags d (λ f. record f { blocking = on == 0 }); pure (pos 0)) s
    ]
    else call (os.ioctl d request address) s

-- A fiber sleeps in the event system; a thread that is locked, or has no fibers, in the C library.
abbrev pub in_fiber : {W : Type 0} → Os W → Io W → Bool
in_fiber os s = not s.thread_locked && os.fiber_manager s.world

unfoldable pub sleep : {W : Type 0} → Os W → ℕ → Io W → Io W
sleep os seconds s =
    if in_fiber os s
    then os.fiber_sleep seconds 0 s
    else record s { world = os.sleep seconds s.world }

unfoldable pub usleep : {W : Type 0} → Os W → ℕ → Io W → Io W
usleep os useconds s =
    if in_fiber os s
    then os.fiber_sleep (useconds / 1000000) (useconds % 1000000) s
    else record s { world = os.usleep useconds s.world }

-- The seconds are cut to 32 bits when they are passed on.
unfoldable pub nanosleep : {W : Type 0} → Os W → ℕ → ℕ → Io W → Io W
nanosleep os tv_sec tv_nsec s =
    if in_fiber os s
    then os.fiber_sleep (tv_sec % 2 ^ 32) (tv_nsec / 1000 + 1) s
    else record s { world = os.nanosleep tv_sec tv_nsec s.world }
