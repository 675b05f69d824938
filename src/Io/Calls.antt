-- ===== src/Io/Calls.antt =====
-- Sequences of the calls of src/fiber_io.c.
use libfiber.Prelude.{ℕ, zero, Bool, true, ◌&&◌, Option, none, some, List, [], ◌∷◌}
use libfiber.Io.{Io, Os, should_block, close_fd, f_setfl}
use libfiber.Io.Transfer.{read, write}
use libfiber.Io.Sockets.{accept, socket, socketpair, pipe}
use libfiber.Io.Control.{fcntl, fionbio, ioctl}

-- What the fibers of a thread call; the first number of `reads` and `writes` is fuel.
pub data Op : Type 0 where
  opens : ℕ → ℕ → ℕ → Op
  opens_pair : ℕ → ℕ → ℕ → Op
  opens_pipe : Op
  accepts : ℕ → Op
  sets_flags : ℕ → ℕ → Op
  sets_blocking : ℕ → ℕ → Option ℕ → Op
  reads : ℕ → ℕ → ℕ → ℕ → Op
  writes : ℕ → ℕ → ℕ → ℕ → Op
  closes : ℕ → Op

abbrev pub state : {W A : Type 0} → Option (A × Io W) → Option (Io W)
state none = none
state (some (a, s)) = some s

unfoldable pub act : {W : Type 0} → Os W → Op → Io W → Option (Io W)
unfolding socket socketpair pipe accept fcntl ioctl read write close_fd
act os (opens domain type protocol) s = state (socket os domain type protocol s)
act os (opens_pair domain type protocol) s = state (socketpair os domain type protocol s)
act os opens_pipe s = state (pipe os s)
act os (accepts sockfd) s = state (accept os sockfd s)
act os (sets_flags fd val) s = state (fcntl os fd f_setfl val s)
act os (sets_blocking fd address on) s = state (ioctl os fd fionbio address on s)
act os (reads fuel fd buf count) s = state (read os fuel fd buf count s)
act os (writes fuel fd buf count) s = state (write os fuel fd buf count s)
act os (closes fd) s = state (close_fd os fd s)

abbrev pub and_then : {W : Type 0} → (Io W → Option (Io W)) → Option (Io W) → Option (Io W)
and_then f none = none
and_then f (some s) = f s

-- None when an assert fails or fuel runs out.
unfoldable pub run : {W : Type 0} → Os W → List Op → Io W → Option (Io W)
unfolding act
run os [] s = some s
run os (op ∷ ops) s = and_then (run os ops) (act os op s)

-- Whether a call makes a descriptor block only if it is one that its fibers wait for.
unfoldable pub keeps_flags : {W : Type 0} → Op → Io W → Bool
unfolding should_block
keeps_flags (sets_blocking fd address (some zero)) s = should_block fd s
keeps_flags op s = true

-- Whether every call of a run does.
unfoldable pub all_keep : {W : Type 0} → Os W → List Op → Io W → Bool
unfolding act keeps_flags
all_keep os [] s = true
all_keep os (op ∷ ops) s =
    keeps_flags op s && elim (act os op s) [ none ↦ true | some s1 ↦ all_keep os ops s1 ]
