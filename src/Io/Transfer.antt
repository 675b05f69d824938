-- ===== src/Io/Transfer.antt =====
-- The functions that read and write, of src/fiber_io.c.
use libfiber.Prelude.{
  ℕ, zero, suc, ◌/◌, ◌%◌, Bool, true, ◌&&◌, not, ◌==◌, if◌then◌else◌, none, some,
}
use libfiber.Io.{ℤ, to_int, minus_one, Io, Os, M, shim, would_block, should_block}

abbrev pub dont_wait : ℕ → Bool
dont_wait flags = (flags / 64) % 2 == 1

abbrev pub as_int : {W : Type 0} → (Io W → ℤ × Io W) → Io W → ℤ × Io W
as_int f s = let (ret, s') = f s in (to_int ret, s')

-- The loop of the functions that read: it waits, if it should block, before each call. `blocks` is the
-- rest of its condition; none if the fuel runs out.
unfoldable pub wait_first :
    {W : Type 0} → (Io W → Bool × Io W) → (Io W → Bool) → (Io W → ℤ × Io W) → ℕ → M W ℤ
wait_first wait blocks attempt zero s = none
wait_first wait blocks attempt (suc fuel) s =
    let (woken, ready) = (if blocks s then wait s else (true, s)) in
    let (ret, s') = attempt ready in
    if not woken
    then some (minus_one, ready)
    else if would_block ret s' && blocks s'
    then wait_first wait blocks attempt fuel s'
    else some (ret, s')

-- The loop of the functions that write, after a first call.
unfoldable pub retry :
    {W : Type 0} → (Io W → Bool × Io W) → (Io W → Bool) → (Io W → ℤ × Io W) → ℕ → ℤ → M W ℤ
retry wait blocks attempt zero ret s = if would_block ret s && blocks s then none else some (ret, s)
retry wait blocks attempt (suc fuel) ret s =
    let (woken, ready) = wait s in
    let (ret', s') = attempt ready in
    if would_block ret s && blocks s
    then if not woken then some (minus_one, ready) else retry wait blocks attempt fuel ret' s'
    else some (ret, s)

unfoldable pub call_first :
    {W : Type 0} → (Io W → Bool × Io W) → (Io W → Bool) → (Io W → ℤ × Io W) → ℕ → M W ℤ
unfolding retry
call_first wait blocks attempt fuel s =
    let (ret, s') = attempt s in retry wait blocks attempt fuel ret s'

unfoldable pub read : {W : Type 0} → Os W → ℕ → ℕ → ℕ → ℕ → M W ℤ
unfolding wait_first should_block
read os fuel fd buf count =
    wait_first (os.wait_in fd) (should_block fd) (as_int (shim (os.read fd buf count))) fuel

unfoldable pub readv : {W : Type 0} → Os W → ℕ → ℕ → ℕ → ℕ → M W ℤ
unfolding wait_first should_block
readv os fuel fd iov iovcnt =
    wait_first (os.wait_in fd) (should_block fd) (as_int (shim (os.readv fd iov iovcnt))) fuel

unfoldable pub recv : {W : Type 0} → Os W → ℕ → ℕ → ℕ → ℕ → ℕ → M W ℤ
unfolding wait_first should_block
recv os fuel fd buf len flags =
    wait_first (os.wait_in fd) (λ s. not (dont_wait flags) && should_block fd s)
      (as_int (shim (os.recv fd buf len flags))) fuel

unfoldable pub recvfrom : {W : Type 0} → Os W → ℕ → ℕ → ℕ → ℕ → ℕ → M W ℤ
unfolding wait_first should_block
recvfrom os fuel sockfd buf len flags =
    wait_first (os.wait_in sockfd) (λ s. not (dont_wait flags) && should_block sockfd s)
      (as_int (shim (os.recvfrom sockfd buf len flags))) fuel

unfoldable pub recvmsg : {W : Type 0} → Os W → ℕ → ℕ → ℕ → ℕ → M W ℤ
unfolding wait_first should_block
recvmsg os fuel sockfd msg flags =
    wait_first (os.wait_in sockfd) (λ s. not (dont_wait flags) && should_block sockfd s)
      (as_int (shim (os.recvmsg sockfd msg flags))) fuel

unfoldable pub write : {W : Type 0} → Os W → ℕ → ℕ → ℕ → ℕ → M W ℤ
unfolding call_first should_block
write os fuel fd buf count =
    call_first (os.wait_out fd) (should_block fd) (as_int (shim (os.write fd buf count))) fuel

unfoldable pub writev : {W : Type 0} → Os W → ℕ → ℕ → ℕ → ℕ → M W ℤ
unfolding call_first should_block
writev os fuel fd iov iovcnt =
    call_first (os.wait_out fd) (should_block fd) (as_int (shim (os.writev fd iov iovcnt))) fuel

unfoldable pub send : {W : Type 0} → Os W → ℕ → ℕ → ℕ → ℕ → ℕ → M W ℤ
unfolding call_first should_block
send os fuel sockfd buf len flags =
    call_first (os.wait_out sockfd) (λ s. not (dont_wait flags) && should_block sockfd s)
      (shim (os.send sockfd buf len flags)) fuel

unfoldable pub sendto : {W : Type 0} → Os W → ℕ → ℕ → ℕ → ℕ → ℕ → ℕ → ℕ → M W ℤ
unfolding call_first should_block
sendto os fuel sockfd buf len flags dest_addr addrlen =
    call_first (os.wait_out sockfd) (λ s. not (dont_wait flags) && should_block sockfd s)
      (shim (os.sendto sockfd buf len flags dest_addr addrlen)) fuel

unfoldable pub sendmsg : {W : Type 0} → Os W → ℕ → ℕ → ℕ → ℕ → M W ℤ
unfolding call_first should_block
sendmsg os fuel sockfd msg flags =
    call_first (os.wait_out sockfd) (λ s. not (dont_wait flags) && should_block sockfd s)
      (shim (os.sendmsg sockfd msg flags)) fuel
