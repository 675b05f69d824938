-- ===== src/Io/Tests.antt =====
-- A kernel with descriptors 3 and 4, where a read would block until so many waits.
use libfiber.Prelude.{
  ℕ, ◌-◌, ◌≡◌, inl, refl, arith, Bool, true, false, ◌||◌, ◌==◌, if◌then◌else◌, none, some, List, [],
  ◌∷◌, update,
}
use libfiber.Io.{
  ℤ, pos, ewouldblock, other, Flags, no_flags, both_flags, Io, Reply, ok, failed, Os, shim,
  should_block, fiber_io_init, o_nonblock,
}
use libfiber.Io.Transfer.{as_int, wait_first, call_first, read}
use libfiber.Io.Waits.{again, write_as_read, no_would_block}
use libfiber.Io.Sockets.{socket, socketpair, pipe}
use libfiber.Io.Control.{sleep, usleep, nanosleep}
use libfiber.Io.Laws.{Kept, Opens, OpensTwo, Kernel}
use libfiber.Io.Calls.{opens, sets_flags, sets_blocking, reads, Op, run}
use libfiber.Io.Slept.{Sleeps, enough_asked}

record World : Type 0 where
  opened : ℕ → Bool
  nonblock : ℕ → Bool
  busy : ℕ

abbrev adds : ℕ → World → World
adds fd w = record w { opened = update w.opened fd true }

abbrev opening : World → Reply ℕ × World
opening w = if w.opened 3 then (failed (other 24), w) else (ok 3, adds 3 w)

abbrev opening_two : World → Reply (ℕ × ℕ) × World
opening_two w =
    if w.opened 3 || w.opened 4 then (failed (other 24), w) else (ok (3, 4), adds 4 (adds 3 w))

abbrev reading : ℕ → World → Reply ℕ × World
reading n w = if w.busy == 0 then (ok n, w) else (failed ewouldblock, w)

abbrev waited : Io World → Bool × Io World
waited s = (true, record s { world = record s.world { busy = s.world.busy - 1 } })

abbrev os : Os World
os = record {
  getrlimit = λ w. (ok 8, w);
  calloc = λ w. (ok tt, w);
  socket = λ d t p w. opening w;
  socketpair = λ d t p w. opening_two w;
  pipe = λ w. opening_two w;
  accept = λ fd w. opening w;
  connect = λ fd a l w. (ok 0, w);
  so_error = λ fd w. (ok none, w);
  setsockopt = λ fd w. (ok 0, w);
  read = λ fd buf n w. reading n w;
  readv = λ fd iov n w. reading n w;
  recv = λ fd buf n flags w. reading n w;
  recvfrom = λ fd buf n flags w. reading n w;
  recvmsg = λ fd msg flags w. reading 1 w;
  write = λ fd buf n w. reading n w;
  writev = λ fd iov n w. reading n w;
  send = λ fd buf n flags w. reading n w;
  sendto = λ fd buf n flags a l w. reading n w;
  sendmsg = λ fd msg flags w. reading 1 w;
  fcntl = λ fd cmd val w. (ok 0, record w { nonblock = update w.nonblock fd true });
  ioctl = λ fd request address w. (ok 0, w);
  close = λ fd w. (ok 0, record w { opened = update w.opened fd false });
  fiber_fd_closed = λ fd w. w;
  wait_in = λ fd s. waited s;
  wait_out = λ fd s. waited s;
  fiber_manager = λ w. true;
  fiber_sleep = λ seconds useconds s. s;
  sleep = λ n w. w;
  usleep = λ n w. w;
  nanosleep = λ n m w. w;
}

abbrev is_open : World → ℕ → Bool
is_open w = w.opened

abbrev nonblocking : World → ℕ → Bool
nonblocking w = w.nonblock

kept : (w : World) → Kept is_open nonblocking w w
kept w = record { same = λ g. refl; still = λ g o n. n }

opening-Opens : (w : World) → Opens is_open nonblocking 8 w (opening w)
opening-Opens w = opens_if (w.opened 3) refl
  where
    opens_if :
        (b : Bool)
        → w.opened 3 ≡ b
        → Opens is_open nonblocking 8 w (if b then (failed (other 24), w) else (ok 3, adds 3 w))
    opens_if true e = kept w
    opens_if false e = record {
      closed = e;
      below = omega arith;
      opens = λ g. refl;
      still = λ g o n. n;
    }

opening_two-OpensTwo : (w : World) → OpensTwo is_open nonblocking 8 w (opening_two w)
opening_two-OpensTwo w = opens_if (w.opened 3) (w.opened 4) refl refl
  where
    opens_if :
        (a b : Bool)
        → w.opened 3 ≡ a
        → w.opened 4 ≡ b
        → OpensTwo is_open nonblocking 8 w
            (if a || b then (failed (other 24), w) else (ok (3, 4), adds 4 (adds 3 w)))
    opens_if true b e f = kept w
    opens_if false true e f = kept w
    opens_if false false e f = (
      adds 3 w,
      record { closed = e; below = omega arith; opens = λ g. refl; still = λ g o n. n },
      record { closed = f; below = omega arith; opens = λ g. refl; still = λ g o n. n },
    )

reading-Kept : (n : ℕ) (w : World) → Kept is_open nonblocking w (reading n w).1
reading-Kept n w = kept_if (w.busy == 0)
  where
    kept_if :
        (b : Bool)
        → let r : Reply ℕ × World = (if b then (ok n, w) else (failed ewouldblock, w)) in
          Kept is_open nonblocking w r.1
    kept_if true = kept w
    kept_if false = kept w

kernel : Kernel os 8
kernel = record {
  is_open = is_open;
  nonblocking = nonblocking;
  socket = λ d t p w. opening-Opens w;
  socketpair = λ d t p w. opening_two-OpensTwo w;
  pipe = opening_two-OpensTwo;
  accept = λ fd w. opening-Opens w;
  setsockopt = λ fd w. kept w;
  fcntl =
      λ fd val w e. (record { same = λ g. refl; still = λ g o n. ground (arith, n) }, ground arith);
  ioctl = λ d r a w. kept w;
  read = λ fd buf n w. reading-Kept n w;
  write = λ fd buf n w. reading-Kept n w;
  fiber_fd_closed = λ fd w. kept w;
  closes = λ fd w g. refl;
  close_still = λ fd w g ne n. n;
}

-- As `fiber_io_init` leaves the table; a read would block until the second wait.
abbrev fresh : Io World
fresh = record {
  thread_locked = false;
  fd_info = some (λ fd. no_flags);
  max_fd = 8;
  errno = other 0;
  world = record { opened = λ fd. false; nonblock = λ fd. false; busy = 2 };
}

init_fresh : fiber_io_init os (record fresh { fd_info = none; max_fd = 0 }) ≡ (true, fresh)
unfolding fiber_io_init
init_fresh = refl

-- After `socket`.
abbrev connected : Io World
connected = record fresh {
  fd_info = some (update (λ fd. no_flags) 3 both_flags);
  world = record {
    opened = update (λ fd. false) 3 true;
    nonblock = update (λ fd. false) 3 true;
    busy = 2;
  };
}

socket_connects : socket os 2 1 0 fresh ≡ some (pos 3, connected)
unfolding socket
socket_connects = refl

abbrev reader : Io World → ℤ × Io World
reader = as_int (shim (os.read 3 0 100))

blocks_first :
    again (os.wait_in 3) (should_block 3) reader (reader (os.wait_in 3 connected).1) ≡ true
unfolding should_block
blocks_first = refl

waits_first : should_block 3 connected ≡ true
unfolding should_block
waits_first = refl

write_as_read_example : call_first (os.wait_out 3) (should_block 3) reader 2 connected ≡ (
    if again (os.wait_out 3) (should_block 3) reader (reader connected)
    then wait_first (os.wait_out 3) (should_block 3) reader 2 (reader connected).1
    else some (reader connected))
write_as_read_example = write_as_read (os.wait_out 3) (should_block 3) reader 2 connected

abbrev read_state : Io World
read_state = record connected { errno = ewouldblock; world = record connected.world { busy = 0 } }

reads_100 : read os 2 3 0 100 connected ≡ some (pos 100, read_state)
unfolding read
reads_100 = refl

no_would_block_example : again (os.wait_in 3) (should_block 3) reader (pos 100, read_state) ≡ false
unfolding read
no_would_block_example =
    no_would_block (os.wait_in 3) (should_block 3) reader (λ s. refl) 2 connected
      (pos 100, read_state) (inl reads_100)

abbrev session : List Op
session = opens 2 1 0 ∷ sets_flags 3 o_nonblock ∷ reads 3 3 0 100 ∷ []

abbrev only_waitable : Flags
only_waitable = record { blocking = false; waitable = true }

abbrev after_session : Io World
after_session = record read_state {
  fd_info = some (update (update (λ fd. no_flags) 3 both_flags) 3 only_waitable);
}

abbrev blocking_only : Flags
blocking_only = record { blocking = true; waitable = false }

abbrev blocks_five : Io World
blocks_five = record fresh { fd_info = some (update (λ fd. no_flags) 5 blocking_only) }

-- Where the program asks for a descriptor with no flags to block, the calls wait for it although the system
-- does not have O_NONBLOCK set.
set_to_block : run os (sets_blocking 5 64 (some 0) ∷ []) fresh ≡ some blocks_five
unfolding run
set_to_block = refl

five_blocks : (should_block 5 blocks_five ≡ true) × (nonblocking blocks_five.world 5 ≡ false)
unfolding should_block kernel
five_blocks = (refl, refl)

enough_asked_example :
    Sleeps os 2000000000 (sleep os 2) fresh
    × Sleeps os 1500000 (usleep os 1500) fresh
    × Sleeps os 1000000007 (nanosleep os 1 7) fresh
enough_asked_example =
    enough_asked os fresh refl 2 1500 1 7 (omega arith) (omega arith) (omega arith) (omega arith)
