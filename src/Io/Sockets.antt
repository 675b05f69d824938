-- ===== src/Io/Sockets.antt =====
-- The functions that open descriptors, and `connect`, of src/fiber_io.c.
use libfiber.Prelude.{ℕ, zero, suc, Bool, true, false, ◌&&◌, not, if◌then◌else◌, Option, none, some}
use libfiber.Io.{
  ℤ, pos, negsuc, minus_one, negative, Errno, is_in_progress, both_flags, Io, Reply, ok, failed, Os,
  M, ◌>>=◌, ◌>>◌, pure, shim, call, call_pair, would_block, should_block, set_flags, close_fd,
  f_setfl, o_nonblock,
}

-- `setup_socket` on a thread that is not locked
abbrev pub make_nonblocking : {W : Type 0} → Os W → ℕ → M W ℤ
make_nonblocking os sock = do
  set_flags sock (λ f. both_flags)
  ret ← call (os.fcntl sock f_setfl o_nonblock)
  if negative ret then pure ret else call (os.setsockopt sock)

unfoldable pub setup_socket : {W : Type 0} → Os W → ℕ → M W ℤ
unfolding set_flags
setup_socket os sock s = if s.thread_locked then some (pos 0, s) else make_nonblocking os sock s

-- What `socket` and `accept` do with a new descriptor.
abbrev pub set_up : {W : Type 0} → Os W → ℕ → M W ℤ
set_up os sock = do
  ret ← setup_socket os sock
  if negative ret then (do _ ← close_fd os sock; pure minus_one) else pure (pos sock)

abbrev pub socket_setup : {W : Type 0} → Os W → ℤ → M W ℤ
socket_setup os (negsuc n) = pure (negsuc n)
socket_setup os (pos sock) = set_up os sock

unfoldable pub socket : {W : Type 0} → Os W → ℕ → ℕ → ℕ → M W ℤ
unfolding setup_socket close_fd
socket os domain type protocol = do
  sock ← call (os.socket domain type protocol)
  socket_setup os sock

abbrev pub is_zero : ℤ → Bool
is_zero (pos zero) = true
is_zero n = false

abbrev pub close_both : {W : Type 0} → Os W → ℕ × ℕ → M W (Option (ℕ × ℕ))
close_both os (a, b) = do _ ← close_fd os a; _ ← close_fd os b; pure none

abbrev pub pair_setup : {W : Type 0} → Os W → Option (ℕ × ℕ) → M W (Option (ℕ × ℕ))
pair_setup os none = pure none
pair_setup os (some (a, b)) = do
  first ← setup_socket os a
  if not (is_zero first) then close_both os (a, b) else do
    second ← setup_socket os b
    if not (is_zero second) then close_both os (a, b) else pure (some (a, b))

-- `socketpair`; none for -1.
unfoldable pub socketpair : {W : Type 0} → Os W → ℕ → ℕ → ℕ → M W (Option (ℕ × ℕ))
unfolding setup_socket close_fd
socketpair os domain type protocol = do
  sv ← call_pair (os.socketpair domain type protocol)
  pair_setup os sv

-- `if (sock > 0)`
abbrev pub accepted : {W : Type 0} → Os W → ℤ → M W ℤ
accepted os (negsuc n) = pure (negsuc n)
accepted os (pos zero) = pure (pos 0)
accepted os (pos (suc n)) = set_up os (suc n)

unfoldable pub accept : {W : Type 0} → Os W → ℕ → M W ℤ
unfolding setup_socket close_fd should_block
accept os sockfd s =
    let (sock, s1) = shim (os.accept sockfd) s in
    let (woken, s2) = os.wait_in sockfd s1 in
    if would_block sock s1 && should_block sockfd s1
    then if woken
      then (do again ← call (os.accept sockfd); accepted os again) s2
      else some (minus_one, s2)
    else accepted os sock s1

-- The error that SO_ERROR gives, if there is one.
abbrev pub connected : {W : Type 0} → Io W → Reply (Option Errno) × W → ℤ × Io W
connected s (failed e, w) = (minus_one, record s { errno = e; world = w })
connected s (ok (some e), w) = (minus_one, record s { errno = e; world = w })
connected s (ok none, w) = (pos 0, record s { world = w })

unfoldable pub connect : {W : Type 0} → Os W → ℕ → ℕ → ℕ → Io W → ℤ × Io W
unfolding should_block
connect os sockfd addr addrlen s =
    let (ret, s1) = shim (os.connect sockfd addr addrlen) s in
    let (woken, s2) = os.wait_out sockfd s1 in
    if negative ret && is_in_progress s1.errno && should_block sockfd s1
    then if woken then connected s2 (os.so_error sockfd s2.world) else (minus_one, s2)
    else (ret, s1)

abbrev pub table_ready : {W : Type 0} → Io W → Bool
table_ready s = not s.thread_locked && elim s.fd_info [ none ↦ false | some flags ↦ true ]

-- What `pipe` does when the thread is not locked and the table is there.
abbrev pub set_nonblocking : {W : Type 0} → Os W → ℕ × ℕ → M W (Option (ℕ × ℕ))
set_nonblocking os (a, b) = do
  first ← call (os.fcntl a f_setfl o_nonblock)
  if negative first then close_both os (a, b) else do
    second ← call (os.fcntl b f_setfl o_nonblock)
    if negative second
        then close_both os (a, b)
        else do set_flags a (λ f. both_flags); set_flags b (λ f. both_flags); pure (some (a, b))

abbrev pub pipe_setup : {W : Type 0} → Os W → Option (ℕ × ℕ) → M W (Option (ℕ × ℕ))
pipe_setup os none s = some (none, s)
pipe_setup os (some (a, b)) s =
    if not (table_ready s) then some (some (a, b), s) else set_nonblocking os (a, b) s

-- `pipe`; none for -1.
unfoldable pub pipe : {W : Type 0} → Os W → M W (Option (ℕ × ℕ))
unfolding set_flags close_fd
pipe os = do fds ← call_pair os.pipe; pipe_setup os fds
