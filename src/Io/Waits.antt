-- ===== src/Io/Waits.antt =====
-- What the loops of the functions that read and write return, and when they end.
use libfiber.Prelude.{
  ℕ, zero, suc, ◌<◌, ◌≡◌, ◌⊎◌, inl, inr, refl, sym, ◌∙◌, arith, Bool, true, false, ◌&&◌, not,
  Bool-cases, if◌then◌else◌, some,
}
use libfiber.Io.{ℤ, minus_one, Io, Os, shim, would_block, should_block}
use libfiber.Io.Transfer.{
  dont_wait, as_int, wait_first, retry, call_first, recv, recvfrom, recvmsg, send, sendto, sendmsg,
}

module _ {W : Type 0} (wait : Io W → Bool × Io W) (blocks : Io W → Bool)
    (attempt : Io W → ℤ × Io W) where
  -- Whether the wait before the next call goes well, and the state that it leaves.
  abbrev pub next : Io W → Bool × Io W
  next s = if blocks s then wait s else (true, s)

  abbrev pub again : ℤ × Io W → Bool
  again (ret, s) = would_block ret s && blocks s

  -- The state after so many turns of a wait and a call.
  abbrev pub turns : ℕ → Io W → Io W
  turns zero s = s
  turns (suc k) s = turns k (attempt (next s).1).1

  -- In each of so many turns the wait goes well and the call fails for a reason to wait again.
  abbrev pub Blocked : ℕ → Io W → Type 0
  Blocked zero s = Unit
  Blocked (suc k) s =
      ((next s).0 ≡ true) × (again (attempt (next s).1) ≡ true) × Blocked k (attempt (next s).1).1

  -- The next turn ends the loop.
  abbrev pub Ends : Io W → Type 0
  Ends s = ((next s).0 ≡ false) ⊎ (again (attempt (next s).1) ≡ false)

  -- What that turn returns.
  abbrev pub outcome : Io W → ℤ × Io W
  outcome s = if (next s).0 then attempt (next s).1 else (minus_one, (next s).1)

  wait_first-outcome :
      (k fuel : ℕ) (s : Io W)
      → k < fuel
      → Blocked k s
      → Ends (turns k s)
      → wait_first wait blocks attempt fuel s ≡ some (outcome (turns k s))
  unfolding wait_first
  wait_first-outcome k zero s h b e = absurd (omega (arith, h))
  wait_first-outcome zero (suc fuel) s h b (inl f) = rw (f, if◌then◌else◌) refl
  wait_first-outcome zero (suc fuel) s h b (inr f) = elim (Bool-cases (next s).0) [
    | inl t ↦ rw (t, f, if◌then◌else◌) refl
    | inr t ↦ rw (t, if◌then◌else◌) refl
  ]
  wait_first-outcome (suc k) (suc fuel) s h (t, g, b) e =
      rw (t, g, if◌then◌else◌)
        (wait_first-outcome k fuel (attempt (next s).1).1 (omega (arith, h)) b e)

  retry-wait_first :
      (fuel : ℕ) (ret : ℤ) (s : Io W)
      → retry wait blocks attempt fuel ret s
        ≡ (if again (ret, s) then wait_first wait blocks attempt fuel s else some (ret, s))
  unfolding retry wait_first
  retry-wait_first zero ret s = refl
  retry-wait_first (suc fuel) ret s =
      ground (arith, retry-wait_first fuel (attempt (wait s).1).0 (attempt (wait s).1).1)

  -- The loop of `read`: when for k turns the waits go well and each call fails because it would block, and
  -- the next turn's wait fails or its call does not fail so, or the descriptor does not block any more, then
  -- more fuel than k is enough, and what is returned is that turn's answer, or -1 if its wait fails.
  pub read_answer :
      (k fuel : ℕ) (s : Io W)
      → k < fuel
      → Blocked k s
      → Ends (turns k s)
      → wait_first wait blocks attempt fuel s ≡ some (outcome (turns k s))
  read_answer = wait_first-outcome

  -- The loop of `write` is one call, and after it, if the call would block, the loop of `read`.
  pub write_as_read :
      (fuel : ℕ) (s : Io W)
      → call_first wait blocks attempt fuel s ≡ (
          if again (attempt s)
          then wait_first wait blocks attempt fuel (attempt s).1
          else some (attempt s))
  unfolding call_first
  write_as_read fuel s = retry-wait_first fuel (attempt s).0 (attempt s).1

  wait_first-again :
      ((s : Io W) → (wait s).0 ≡ true)
      → (fuel : ℕ) (s : Io W) (a : ℤ × Io W) → wait_first wait blocks attempt fuel s ≡ some a
      → again a ≡ false
  unfolding wait_first
  wait_first-again w zero s a e = ground (arith, e)
  wait_first-again w (suc fuel) s a e =
      ground (arith, e, w s, wait_first-again w fuel (attempt (next s).1).1 a)

  -- When waits do not fail, neither loop returns a failure because the call would block while the descriptor
  -- still blocks.
  pub no_would_block :
      ((s : Io W) → (wait s).0 ≡ true)
      → (fuel : ℕ) (s : Io W) (a : ℤ × Io W)
      → (wait_first wait blocks attempt fuel s ≡ some a)
        ⊎ (call_first wait blocks attempt fuel s ≡ some a)
      → again a ≡ false
  no_would_block w fuel s a (inl e) = wait_first-again w fuel s a e
  no_would_block w fuel s a (inr e) =
      called (Bool-cases (again (attempt s))) (sym (write_as_read fuel s) ∙ e)
    where
      called :
          (again (attempt s) ≡ true) ⊎ (again (attempt s) ≡ false)
          → (if again (attempt s)
              then wait_first wait blocks attempt fuel (attempt s).1
              else some (attempt s))
            ≡ some a
          → again a ≡ false
      called (inl t) q = wait_first-again w fuel (attempt s).1 a (rw t at q)
      called (inr t) q = ground (arith, q, t)

  one_call :
      (fuel : ℕ) (s : Io W)
      → ((t : Io W) → blocks t ≡ false)
      → (wait_first wait blocks attempt (suc fuel) s ≡ some (attempt s))
        × (call_first wait blocks attempt fuel s ≡ some (attempt s))
  unfolding wait_first
  one_call fuel s n =
      (ground (arith, n s, n (attempt s).1), write_as_read fuel s ∙ ground (arith, n (attempt s).1))

-- With MSG_DONTWAIT in its flags, each function that has flags makes one call and returns its answer.
pub dont_wait_once :
    {W : Type 0} (os : Os W) (fuel fd a b c d flags : ℕ) (s : Io W)
    → dont_wait flags ≡ true
    → (recv os (suc fuel) fd a b flags s ≡ some (as_int (shim (os.recv fd a b flags)) s))
      × (recvfrom os (suc fuel) fd a b flags s ≡ some (as_int (shim (os.recvfrom fd a b flags)) s))
      × (recvmsg os (suc fuel) fd a flags s ≡ some (as_int (shim (os.recvmsg fd a flags)) s))
      × (send os fuel fd a b flags s ≡ some (shim (os.send fd a b flags) s))
      × (sendto os fuel fd a b flags c d s ≡ some (shim (os.sendto fd a b flags c d) s))
      × (sendmsg os fuel fd a flags s ≡ some (shim (os.sendmsg fd a flags) s))
unfolding recv recvfrom recvmsg send sendto sendmsg
dont_wait_once {W = W} os fuel fd a b c d flags s e = (
  received (shim (os.recv fd a b flags)),
  received (shim (os.recvfrom fd a b flags)),
  received (shim (os.recvmsg fd a flags)),
  sent (shim (os.send fd a b flags)),
  sent (shim (os.sendto fd a b flags c d)),
  sent (shim (os.sendmsg fd a flags)),
)
  where
    blocks : Io W → Bool
    blocks t = not (dont_wait flags) && should_block fd t

    off : (t : Io W) → blocks t ≡ false
    off t = rw e refl

    received :
        (f : Io W → ℤ × Io W)
        → wait_first (os.wait_in fd) blocks (as_int f) (suc fuel) s ≡ some (as_int f s)
    received f = (one_call (os.wait_in fd) blocks (as_int f) fuel s off).0

    sent : (f : Io W → ℤ × Io W) → call_first (os.wait_out fd) blocks f fuel s ≡ some (f s)
    sent f = (one_call (os.wait_out fd) blocks f fuel s off).1
