-- ===== src/Manager/Maintenance.antt =====
-- Maintenance does what a switch has left to be done, once.
use libfiber.Prelude.{ℕ, ◌≡◌, ap, fun_ext, arith, [], update, if◌then◌else◌}
use libfiber.Scheduler.{Scheduler}
use libfiber.Manager.{Manager, FiberState, waiting, is_saving, do_maintenance}

module _ (S : Scheduler) where
  open S use {Q, schedule}

  -- After maintenance nothing is left to be done: a second run, with the state as the first left it,
  -- has no effect elsewhere and changes nothing.
  pub maintenance_once :
      (m : Manager Q) → let (m', effects) = do_maintenance S m in do_maintenance S m' ≡ (m', [])
  unfolding do_maintenance
  maintenance_once m =
      ap (λ st. (record ((do_maintenance S m).0) { state = st }, [])) (fun_ext λ f. settled f)
    where
      st : ℕ → FiberState
      st = if is_saving (m.state m.old_fiber) then update m.state m.old_fiber waiting else m.state

      settled :
          (f : ℕ)
          → (if is_saving (st m.old_fiber) then update st m.old_fiber waiting else st) f ≡ st f
      settled f = ground arith
