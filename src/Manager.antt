-- ===== src/Manager.antt =====
-- src/fiber_manager.c: the manager of one kernel thread. What a switch leaves to be done is kept in the
-- manager, and done by the fiber that is switched to.
pub mod Maintenance
pub mod Yield
mod Tests
use libfiber.Prelude.{
  ℕ, ◌+◌, ◌%◌, ◌^◌, Bool, true, false, not, ◌&&◌, ◌||◌, ◌==◌, ltb, if◌then◌else◌, update, Option,
  none, some, List, [], ◌∷◌, ◌++◌,
}
use libfiber.Scheduler.{Scheduler}

-- The FIBER_STATE_ constants.
pub data FiberState : Type 0 where
  running ready waiting done saving_state_to_wait : FiberState

abbrev pub is_saving : FiberState → Bool
is_saving saving_state_to_wait = true
is_saving _ = false

abbrev pub is_running : FiberState → Bool
is_running running = true
is_running _ = false

-- A queue and a node to push onto it, of either kind.
pub record ToPush : Type 0 where
  pub fifo : ℕ
  pub node : ℕ

pub record SetWait : Type 0 where
  pub location : ℕ
  pub value : ℕ

-- What maintenance does to other objects, in order.
pub data Effect : Type 0 where
  destroy_fiber : ℕ → Effect
  push_mpmc : ToPush → Effect
  push_mpsc : ToPush → Effect
  unlock_mutex : ℕ → Effect
  unlock_spinlock : ℕ → Effect
  set_location : SetWait → Effect

-- A pointer that may be NULL is an option; `lock_using` is the int of schedule_lock.c.
pub record Manager (Q : Type 0) : Type 0 where
  pub state : ℕ → FiberState
  pub current_fiber : ℕ
  pub old_fiber : ℕ
  pub maintenance_fiber : Option ℕ
  pub scheduler : Q
  pub to_schedule : Option ℕ
  pub done_fiber : Option ℕ
  pub mpmc_to_push : Option ToPush
  pub mpsc_to_push : Option ToPush
  pub mutex_to_unlock : Option ℕ
  pub spinlock_to_unlock : Option ℕ
  pub set_wait : Option SetWait
  pub yield_count : ℕ
  pub lock_using : ℕ

abbrev pub optional {ℓ} : {A : Type ℓ} → (A → Effect) → Option A → List Effect
optional f none = []
optional f (some a) = f a ∷ []

-- The test `timercmp(&now, &banned_until, >)` for a fiber, on seconds and microseconds.
abbrev pub timer_after : ℕ × ℕ → ℕ × ℕ → Bool
timer_after (now_sec, now_usec) (sec, usec) =
    if now_sec == sec then ltb usec now_usec else ltb sec now_sec

module _ (S : Scheduler) where
  open S use {Q, schedule, next, load_balance}

  -- The bookkeeping of `fiber_manager_switch_to`, up to the swap of the contexts.
  unfoldable pub switch_to : Manager Q → ℕ → ℕ → Manager Q
  switch_to m old_fiber new_fiber =
      let was_running = is_running (m.state old_fiber) in
      record m {
        state =
            update (if was_running then update m.state old_fiber ready else m.state) new_fiber
              running;
        to_schedule = if was_running then some old_fiber else m.to_schedule;
        current_fiber = new_fiber;
        old_fiber = old_fiber;
      }

  -- `fiber_manager_do_maintenance`, with what it does elsewhere.
  unfoldable pub do_maintenance : Manager Q → Manager Q × List Effect
  do_maintenance m = (
    record m {
      state =
          if is_saving (m.state m.old_fiber) then update m.state m.old_fiber waiting else m.state;
      scheduler = elim (m.to_schedule) [ none ↦ m.scheduler | some f ↦ schedule m.scheduler f ];
      to_schedule = none;
      done_fiber = none;
      mpmc_to_push = none;
      mpsc_to_push = none;
      mutex_to_unlock = none;
      spinlock_to_unlock = none;
      set_wait = none;
    },
    optional destroy_fiber m.done_fiber
        ++ (optional push_mpmc m.mpmc_to_push
            ++ (optional push_mpsc m.mpsc_to_push
                ++ (optional unlock_mutex m.mutex_to_unlock
                    ++ (optional unlock_spinlock m.spinlock_to_unlock
                        ++ optional set_location m.set_wait)))),
  )

  abbrev pub set_lock_status : Manager Q → Manager Q
  set_lock_status m = record m { lock_using = 1 }

  -- How a call of `fiber_manager_yield` goes on: control is with the fiber that was switched to, which
  -- has done the maintenance; the same, and the loop runs again when this fiber is resumed; or the
  -- call returns.
  pub data Yielded : Type 0 where
    switched : Manager Q → List Effect → Yielded
    parked : Manager Q → List Effect → Yielded
    returned : Manager Q → Yielded

  abbrev pub after_switch : (Manager Q → List Effect → Yielded) → Manager Q → Yielded
  after_switch c m = let (m', effects) = do_maintenance m in c m' effects

  -- The label `try_steal`.
  abbrev pub try_steal : Manager Q → Manager Q
  try_steal m =
      if m.yield_count % 1024 == 0 then record m { scheduler = load_balance m.scheduler } else m

  -- No fiber is ready: the maintenance fiber, created if there is none, runs instead.
  unfoldable pub park : ℕ → Manager Q → Yielded
  unfolding switch_to do_maintenance
  park made m =
      let fiber : ℕ = elim (m.maintenance_fiber) [ none ↦ made | some f ↦ f ] in
      after_switch parked
        (switch_to (record m { maintenance_fiber = some fiber }) m.current_fiber fiber)

  -- One round of the loop of `fiber_manager_yield`. `now` is the time, `banned_until` the time in the
  -- statistics of each fiber, and `made` the maintenance fiber that is created if there is none.
  unfoldable pub yield_round : ℕ × ℕ → (ℕ → ℕ × ℕ) → ℕ → Manager Q → Yielded
  unfolding switch_to do_maintenance park
  yield_round now banned_until made m0 =
      let m1 = record m0 { yield_count = (m0.yield_count + 1) % 2 ^ 64 } in
      let state = m1.state m1.current_fiber in
      let (q, new_fiber) = next (λ f. is_saving (m1.state f)) m1.scheduler in
      let m = record m1 { scheduler = q } in
      if not (new_fiber == 0)
      then if timer_after now (banned_until new_fiber) && not (m.lock_using == 1)
        then after_switch switched (switch_to (set_lock_status m) m.current_fiber new_fiber)
        else returned (try_steal (record m { scheduler = schedule m.scheduler m.current_fiber }))
      else elim state [
        | waiting ↦ park made m
        | done ↦ park made m
        | saving_state_to_wait ↦ park made m
        | _ ↦ returned (try_steal m)
      ]
