-- ===== src/Io.antt =====
-- src/fiber_io.c: the C library's calls on descriptors, which block the calling fiber and not its thread.
-- Here are the table of descriptors, and what the calls share.
pub mod Sockets
pub mod Transfer
pub mod Control
pub mod Waits
pub mod Laws
pub mod Opened
pub mod Pairs
pub mod Pipes
pub mod Calls
pub mod Flagged
pub mod Slept
mod Tests
use libfiber.Prelude.{
  ℕ, zero, suc, ◌+◌, ◌-◌, ◌*◌, ◌/◌, ◌%◌, ◌^◌, Bool, true, false, ◌&&◌, ◌||◌, not, ◌==◌, ltb,
  if◌then◌else◌, Option, none, some, update,
}

pub data ℤ : Type 0 where
  pos : ℕ → ℤ
  negsuc : ℕ → ℤ

abbrev pub minus_one : ℤ
minus_one = negsuc 0

abbrev pub negative : ℤ → Bool
negative (pos n) = false
negative (negsuc n) = true

-- What an `int` keeps of a value.
abbrev pub to_int : ℤ → ℤ
to_int (pos n) = let m = n % 2 ^ 32 in if ltb m (2 ^ 31) then pos m else negsuc (2 ^ 32 - 1 - m)
to_int (negsuc n) = let m = n % 2 ^ 32 in if ltb m (2 ^ 31) then negsuc m else pos (2 ^ 32 - 1 - m)

pub data Errno : Type 0 where
  ewouldblock : Errno
  einprogress : Errno
  einval : Errno
  other : ℕ → Errno

-- EAGAIN is the same number as EWOULDBLOCK.
abbrev pub is_would_block : Errno → Bool
is_would_block ewouldblock = true
is_would_block e = false

abbrev pub is_in_progress : Errno → Bool
is_in_progress einprogress = true
is_in_progress e = false

-- IO_FLAG_BLOCKING and IO_FLAG_WAITABLE
pub record Flags : Type 0 where
  pub blocking : Bool
  pub waitable : Bool

abbrev pub no_flags : Flags
no_flags = record { blocking = false; waitable = false }

abbrev pub both_flags : Flags
both_flags = record { blocking = true; waitable = true }

abbrev pub any_flag : Flags → Bool
any_flag f = f.blocking || f.waitable

-- The variables of the file, `errno`, and what the kernel and the event system keep. `fd_info` is none while
-- it is NULL.
pub record Io (W : Type 0) : Type 0 where
  pub thread_locked : Bool
  pub fd_info : Option (ℕ → Flags)
  pub max_fd : ℕ
  pub errno : Errno
  pub world : W

-- What a call to the kernel gives: its result, or the error that its -1 stands for.
pub data Reply (A : Type 0) : Type 0 where
  ok : A → Reply A
  failed : Errno → Reply A

abbrev pub Call : Type 0 → Type 0 → Type 0
Call W A = W → Reply A × W

-- The C library's functions that the file wraps, and the functions of fiber_event.h. While a fiber waits,
-- others run, which may change everything.
pub record Os (W : Type 0) : Type 0 where
  pub getrlimit : Call W ℕ
  pub calloc : Call W (Unit {0})
  pub socket : ℕ → ℕ → ℕ → Call W ℕ
  pub socketpair : ℕ → ℕ → ℕ → Call W (ℕ × ℕ)
  pub pipe : Call W (ℕ × ℕ)
  pub accept : ℕ → Call W ℕ
  pub connect : ℕ → ℕ → ℕ → Call W ℕ
  pub so_error : ℕ → Call W (Option Errno)
  pub setsockopt : ℕ → Call W ℕ
  pub read : ℕ → ℕ → ℕ → Call W ℕ
  pub readv : ℕ → ℕ → ℕ → Call W ℕ
  pub recv : ℕ → ℕ → ℕ → ℕ → Call W ℕ
  pub recvfrom : ℕ → ℕ → ℕ → ℕ → Call W ℕ
  pub recvmsg : ℕ → ℕ → ℕ → Call W ℕ
  pub write : ℕ → ℕ → ℕ → Call W ℕ
  pub writev : ℕ → ℕ → ℕ → Call W ℕ
  pub send : ℕ → ℕ → ℕ → ℕ → Call W ℕ
  pub sendto : ℕ → ℕ → ℕ → ℕ → ℕ → ℕ → Call W ℕ
  pub sendmsg : ℕ → ℕ → ℕ → Call W ℕ
  pub fcntl : ℕ → ℕ → ℕ → Call W ℕ
  pub ioctl : ℕ → ℕ → ℕ → Call W ℕ
  pub close : ℕ → Call W ℕ
  pub fiber_fd_closed : ℕ → W → W
  pub wait_in : ℕ → Io W → Bool × Io W
  pub wait_out : ℕ → Io W → Bool × Io W
  pub fiber_manager : W → Bool
  pub fiber_sleep : ℕ → ℕ → Io W → Io W
  pub sleep : ℕ → W → W
  pub usleep : ℕ → W → W
  pub nanosleep : ℕ → ℕ → W → W

-- A part of the code: none if an assert fails or NULL is followed, or when the fuel of a loop runs out.
abbrev pub M : Type 0 → Type 0 → Type 0
M W A = Io W → Option (A × Io W)

infixl 5 ◌>>=◌ ◌>>◌
abbrev pub ◌>>=◌ : {W A B : Type 0} → M W A → (A → M W B) → M W B
◌>>=◌ m f s = elim (m s) [ none ↦ none | some (a, s') ↦ f a s' ]

abbrev pub ◌>>◌ : {W B : Type 0} → M W (Unit {0}) → M W B → M W B
m >> k = m >>= λ _. k

abbrev pub pure : {W A : Type 0} → A → M W A
pure a s = some (a, s)

abbrev pub returned : {W : Type 0} → Io W → Reply ℕ × W → ℤ × Io W
returned s (ok n, w) = (pos n, record s { world = w })
returned s (failed e, w) = (minus_one, record s { errno = e; world = w })

-- A function of the C library, which sets `errno` when it fails.
abbrev pub shim : {W : Type 0} → Call W ℕ → Io W → ℤ × Io W
shim f s = returned s (f s.world)

abbrev pub call : {W : Type 0} → Call W ℕ → M W ℤ
call f s = some (shim f s)

abbrev pub returned_pair : {W : Type 0} → Io W → Reply (ℕ × ℕ) × W → Option (ℕ × ℕ) × Io W
returned_pair s (ok p, w) = (some p, record s { world = w })
returned_pair s (failed e, w) = (none, record s { errno = e; world = w })

-- The same for a function that gives two descriptors.
abbrev pub call_pair : {W : Type 0} → Call W (ℕ × ℕ) → M W (Option (ℕ × ℕ))
call_pair f s = some (returned_pair s (f s.world))

-- `ret < 0 && (errno == EWOULDBLOCK || errno == EAGAIN)`
abbrev pub would_block : {W : Type 0} → ℤ → Io W → Bool
would_block ret s = negative ret && is_would_block s.errno

-- `should_block`
unfoldable pub should_block : {W : Type 0} → ℕ → Io W → Bool
should_block fd s =
    not s.thread_locked
    && elim s.fd_info [ none ↦ false | some flags ↦ ltb fd s.max_fd && any_flag (flags fd) ]

-- A change of a descriptor's flags, after the assert that the table has the descriptor.
unfoldable pub set_flags : {W : Type 0} → ℕ → (Flags → Flags) → M W (Unit {0})
set_flags fd f s = elim s.fd_info [
  | none ↦ none
  | some flags ↦
      if ltb fd s.max_fd
      then some (tt, record s { fd_info = some (update flags fd (f (flags fd))) })
      else none
]

abbrev pub cleared : ℕ → ℕ → Option (ℕ → Flags) → Option (ℕ → Flags)
cleared fd max_fd none = none
cleared fd max_fd (some flags) = some (if ltb fd max_fd then update flags fd no_flags else flags)

-- `close`
unfoldable pub close_fd : {W : Type 0} → Os W → ℕ → M W ℤ
close_fd os fd s =
    call (os.close fd)
      (record s { world = os.fiber_fd_closed fd s.world; fd_info = cleared fd s.max_fd s.fd_info })

abbrev pub f_setfl : ℕ
f_setfl = 4

abbrev pub o_nonblock : ℕ
o_nonblock = 2048

-- `fiber_io_init`; `reply` is what `getrlimit` gives, then what `calloc` gives.
abbrev pub allocated : {W : Type 0} → ℕ → Io W → Reply (Unit {0}) × W → Bool × Io W
allocated limit s (failed e, w) = (false, record s { max_fd = limit; errno = e; world = w })
allocated limit s (ok _, w) =
    (true, record s { max_fd = limit; fd_info = some (λ fd. no_flags); world = w })

abbrev pub limited : {W : Type 0} → Os W → Io W → Reply ℕ × W → Bool × Io W
limited os s (failed e, w) = (false, record s { errno = e; world = w })
limited os s (ok limit, w) = allocated limit s (os.calloc w)

unfoldable pub fiber_io_init : {W : Type 0} → Os W → Io W → Bool × Io W
fiber_io_init os s = elim s.fd_info [
  | none ↦ limited os s (os.getrlimit s.world)
  | some flags ↦ (false, s)
]

unfoldable pub fiber_io_shutdown : {W : Type 0} → Io W → Io W
fiber_io_shutdown s = record s { fd_info = none }

unfoldable pub fiber_io_lock_thread : {W : Type 0} → Io W → Io W
fiber_io_lock_thread s = record s { thread_locked = true }

unfoldable pub fiber_io_unlock_thread : {W : Type 0} → Io W → Io W
fiber_io_unlock_thread s = record s { thread_locked = false }
