-- ===== src/Io/Flagged.antt =====
-- The flags of the descriptors under every sequence of calls.
use libfiber.Prelude.{ℕ, Bool, Option, none, some}
use libfiber.Io.{Io, Os, ◌>>◌}
use libfiber.Io.Laws.{Kernel, At, nobody}

module _ {W : Type 0} {os : Os W} {limit : ℕ} (kernel : Kernel os limit) where
  open kernel use {is_open, nonblocking}

  -- Every descriptor with a flag is open and does not block.
  abbrev pub Safe : Io W → Type 0
  Safe s = (o : ℕ → Bool) × At kernel o (nobody kernel) s

  abbrev SafeEnd : {A : Type 0} → A → Io W → Type 0
  SafeEnd _ s = Safe s

  abbrev SafeAfter : {A : Type 0} → Option (A × Io W) → Type 0
  SafeAfter none = Unit
  SafeAfter (some (a, s)) = Safe s

  -- While a fiber waits, the others keep the flags and the descriptors in order too.
  pub record OthersSafe : Type 0 where
    pub in_safe : (fd : ℕ) (s : Io W) → Safe s → Safe (os.wait_in fd s).1
    pub out_safe : (fd : ℕ) (s : Io W) → Safe s → Safe (os.wait_out fd s).1

  abbrev SafeState : Option (Io W) → Type 0
  SafeState none = Unit
  SafeState (some s) = Safe s
