-- ===== src/Semaphore/Permits.antt =====
-- The semaphore under every schedule of fewer than 2^31 fibers, from a value below 2^31.
use libfiber.Prelude.{true, ℕ, ◌+◌, ◌≡◌, arith, List}
use libfiber.Population.{tally}
use libfiber.Semaphore.{unrefused, getvalue, System, Action, run}
use libfiber.Semaphore.Invariant.{Initial, Initial-Inv, run-Inv, holds, waits, owes}

-- In every schedule of fewer than 2^31 fibers, from a value below 2^31, in which no fiber that waits is
-- refused the switch away from it, while no fiber waits and no post is between its wake and its addition,
-- the value read is the initial value less the permits that are held.
pub getvalue_exact :
    (permits n : ℕ) (l : List (ℕ × Action)) (s : System)
    → unrefused l ≡ true
    → Initial permits n s
    → tally waits n (run n l s).pc ≡ 0
    → tally owes n (run n l s).pc ≡ 0
    → getvalue (run n l s).sem + tally holds n (run n l s).pc ≡ permits
getvalue_exact permits n l s u z w o = omega (arith, (run-Inv n l s u (Initial-Inv z)).counts, w, o)
