-- ===== src/Spinlock/Turns.antt =====
-- The spinlock under every schedule of fewer than 2^32 threads: one thread inside, and tickets are
-- served in order, without a gap.
use libfiber.Prelude.{ℕ, ◌+◌, ◌%◌, ◌^◌, ◌<◌, ◌≡◌, ◌⊎◌, ap, arith, List, some}
use libfiber.Population.{weight-le-tally}
use libfiber.Spinlock.{Pc, inside, spinning, releasing, System, Action, go, act, run}
use libfiber.Spinlock.Invariant.{
  Inv, Initial, Initial-Inv, run-Inv, ticket_of, active, ahead, Plain,
}

-- In every schedule of fewer than 2^32 threads from a fresh spinlock, two threads that are inside are the
-- same thread.
pub one_thread_inside :
    (n : ℕ) (l : List (ℕ × Action)) (s : System) (i j : ℕ)
    → Initial n s
    → (run n l s).pc i ≡ inside
    → (run n l s).pc j ≡ inside
    → i ≡ j
one_thread_inside n l s i j z ei ej =
    (run-Inv n l s (Initial-Inv z)).unique i j (run n l s).lock.ticket
      (ap (ticket_of (run n l s).lock) ei) (ap (ticket_of (run n l s).lock) ej)

-- What the holder of the ticket that is served can do next.
abbrev pub Proceeds : System → Pc → Type 0
Proceeds s p = (p ≡ spinning s.lock.ticket) ⊎ ((p ≡ inside) ⊎ (p ≡ releasing s.lock.ticket))

-- In every schedule of fewer than 2^32 threads from a fresh spinlock, while a thread spins, some thread
-- has the ticket that is served: it is inside or on its way out, or it spins and enters at its next step.
pub spinning-Proceeds :
    (n : ℕ) (l : List (ℕ × Action)) (s : System) (k t : ℕ)
    → Initial n s
    → k < n
    → (run n l s).pc k ≡ spinning t
    → (j : ℕ) × (j < n) × Proceeds (run n l s) ((run n l s).pc j)
spinning-Proceeds n l s k t z hk e =
    let (j, hj, f) =
      inv.covered 0 (omega (arith, weight-le-tally active n k r.pc hk, ap active e)) in
    (j, hj, served (r.pc j) f (inv.plain j))
  where
    r : System
    r = run n l s

    inv : Inv n r
    inv = run-Inv n l s (Initial-Inv z)

    served :
        (p : Pc)
        → ticket_of r.lock p ≡ some ((r.lock.ticket + 0) % 2 ^ 32)
        → Plain r.lock p
        → Proceeds r p
    served p f q = ground (arith, inv.fits)

-- In every schedule of fewer than 2^32 threads from a fresh spinlock, when the thread inside stores the
-- next ticket, every thread that spins comes one nearer.
pub release_advances :
    (n : ℕ) (l : List (ℕ × Action)) (s : System) (i j t u : ℕ)
    → Initial n s
    → i < n
    → (run n l s).pc i ≡ releasing u
    → (run n l s).pc j ≡ spinning t
    → let r = run n l s in ahead (act go (r.pc i) r i).lock t + 1 ≡ ahead r.lock t
unfolding act
release_advances n l s i j t u z hi e f = ground (
  arith,
  e,
  inv.fits,
  inv.plain i,
  inv.range j t (ap (ticket_of r.lock) f),
  inv.unique i j r.lock.ticket (ap (ticket_of r.lock) e),
)
  where
    r : System
    r = run n l s

    inv : Inv n r
    inv = run-Inv n l s (Initial-Inv z)
