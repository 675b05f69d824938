-- ===== src/Scheduler.antt =====
-- include/fiber_scheduler.h: what the manager asks of a scheduler. A fiber is a number, NULL is 0.
use libfiber.Prelude.{arith, ◌++◌, ℕ, ◌+◌, ◌≡◌, ◌≢◌, Bool, ◌==◌, if◌then◌else◌, List, [], ◌∷◌}

abbrev pub one_if : Bool → ℕ
one_if b = if b then 1 else 0

-- How often fiber `g` is in a list.
abbrev pub count : ℕ → List ℕ → ℕ
count g [] = 0
count g (f ∷ fs) = one_if (f == g) + count g fs

pub count-append : (g : ℕ) (fs gs : List ℕ) → count g (fs ++ gs) ≡ count g fs + count g gs
count-append g [] gs = omega arith
count-append g (f ∷ fs) gs = omega (arith, count-append g fs gs)

-- `next` is told which fibers are still saving their state; `queued q g` is how often fiber `g` is in
-- the scheduler. The laws say that no fiber is lost or doubled, while `Fits` holds: that the scheduler is
-- well formed, with room for another fiber.
pub record Scheduler : Type 1 where
  pub Q : Type 0
  pub Fits : Q → Type 0
  pub schedule : Q → ℕ → Q
  pub next : (ℕ → Bool) → Q → Q × ℕ
  pub load_balance : Q → Q
  pub queued : Q → ℕ → ℕ
  pub queued-schedule :
      (q : Q) (f g : ℕ) → Fits q → queued (schedule q f) g ≡ queued q g + one_if (f == g)
  pub queued-next :
      (saving : ℕ → Bool) (q : Q) (g : ℕ)
      → Fits q
      → (next saving q).1 ≢ 0
      → queued q g ≡ queued (next saving q).0 g + one_if ((next saving q).1 == g)
  pub queued-load_balance : (q : Q) (g : ℕ) → Fits q → queued (load_balance q) g ≡ queued q g
