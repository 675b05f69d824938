-- ===== src/Manager/Yield.antt =====
-- What a round of `fiber_manager_yield` does to the fibers that are queued or running.
use libfiber.Prelude.{ℕ, ◌+◌, ◌%◌, ◌^◌, ◌≡◌, ◌≢◌, ◌⊎◌, refl, arith, true, false, ◌==◌}
use libfiber.Prelude.{List}
use libfiber.Scheduler.{Scheduler, one_if}
use libfiber.Manager.{Manager, running, is_saving, Effect, timer_after}
use libfiber.Manager.{do_maintenance, switch_to, Yielded, switched, parked, returned, yield_round}

module _ (S : Scheduler) where
  open S use {Q, schedule, next, load_balance, Fits, queued, queued-schedule, queued-next}

  -- How often fiber `g` is queued or current.
  abbrev pub census : ℕ → Manager Q → ℕ
  census g m = queued m.scheduler g + one_if (m.current_fiber == g)

  abbrev pub chosen : Manager Q → ℕ
  chosen m = (next (λ f. is_saving (m.state f)) m.scheduler).1

  -- The manager after it has asked the scheduler, and after a switch to the fiber that it got.
  abbrev pub polled : Manager Q → Manager Q
  polled m = record m {
    yield_count = (m.yield_count + 1) % 2 ^ 64;
    scheduler = (next (λ f. is_saving (m.state f)) m.scheduler).0;
  }

  abbrev handed : Manager Q → Manager Q
  handed m = switch_to S (record (polled m) { lock_using = 1 }) m.current_fiber (chosen m)

  -- A running fiber yields while the lock is free, the scheduler fits before and after it is asked, and gives
  -- another fiber, whose ban is over: control goes to that fiber, the lock is in use, and every fiber is
  -- queued or current as often as before.
  pub switch-census :
      (now : ℕ × ℕ) (banned_until : ℕ → ℕ × ℕ) (made g : ℕ) (m : Manager Q)
      → Fits m.scheduler
      → Fits (polled m).scheduler
      → m.state m.current_fiber ≡ running
      → chosen m ≢ 0
      → chosen m ≢ m.current_fiber
      → timer_after now (banned_until (chosen m)) ≡ true
      → m.lock_using ≢ 1
      → (m' : Manager Q) × (effects : List Effect) × (yield_round S now banned_until made m
          ≡ switched m' effects)
        × (m'.current_fiber ≡ chosen m)
        × (m'.lock_using ≡ 1)
        × (census g m' ≡ census g m)
  unfolding yield_round
  switch-census now banned_until made g m fits roomy r c d t l = (
    (do_maintenance S (handed m)).0,
    (do_maintenance S (handed m)).1,
    ground (arith, c, t, l),
    refl,
    refl,
    ground (
      arith,
      r,
      queued-schedule (polled m).scheduler m.current_fiber g roomy,
      queued-next (λ f. is_saving (m.state f)) m.scheduler g fits c,
    ),
  )

  -- A round that gets a fiber whose ban is not over, or finds the lock in use, returns to the caller
  -- and puts the caller in the queue in place of the fiber that it got.
  refused-census :
      (now : ℕ × ℕ) (banned_until : ℕ → ℕ × ℕ) (made g : ℕ) (m : Manager Q)
      → Fits m.scheduler
      → Fits (polled m).scheduler
      → chosen m ≢ 0
      → (timer_after now (banned_until (chosen m)) ≡ false) ⊎ (m.lock_using ≡ 1)
      → (m.yield_count + 1) % 2 ^ 64 % 1024 ≢ 0
      → (m' : Manager Q) × (yield_round S now banned_until made m ≡ returned m')
        × (m'.current_fiber ≡ m.current_fiber)
        × (census g m' + one_if (chosen m == g) ≡ census g m + one_if (m.current_fiber == g))
  unfolding yield_round
  refused-census now banned_until made g m fits roomy c t y = (
    record (polled m) { scheduler = schedule (polled m).scheduler m.current_fiber },
    ground (arith, c, t, y),
    refl,
    ground (
      arith,
      queued-schedule (polled m).scheduler m.current_fiber g roomy,
      queued-next (λ f. is_saving (m.state f)) m.scheduler g fits c,
    ),
  )

  -- In a round of a yield that is not the 1024th, with a scheduler that fits before and after it is asked
  -- and gives a fiber other than the caller: where the ban of that fiber is not over, or the lock is in
  -- use, the fiber is queued or current once less than before, and the caller, which goes on running,
  -- once more.
  pub refused_loses :
      (now : ℕ × ℕ) (banned_until : ℕ → ℕ × ℕ) (made : ℕ) (m : Manager Q)
      → Fits m.scheduler
      → Fits (polled m).scheduler
      → chosen m ≢ 0
      → chosen m ≢ m.current_fiber
      → (timer_after now (banned_until (chosen m)) ≡ false) ⊎ (m.lock_using ≡ 1)
      → (m.yield_count + 1) % 2 ^ 64 % 1024 ≢ 0
      → (m' : Manager Q) × (yield_round S now banned_until made m ≡ returned m')
        × (m'.current_fiber ≡ m.current_fiber)
        × (census (chosen m) m' + 1 ≡ census (chosen m) m)
        × (census m.current_fiber m' ≡ census m.current_fiber m + 1)
  refused_loses now banned_until made m fits roomy c d t y =
      let (m', e, f, lost) = refused-census now banned_until made (chosen m) m fits roomy c t y in
      let (m'', e', f', doubled) =
        refused-census now banned_until made m.current_fiber m fits roomy c t y in
      (m', e, f, ground (arith, lost, d), ground (arith, doubled, d))

  abbrev pub manager_of : Yielded S → Manager Q
  manager_of (switched m e) = m
  manager_of (parked m e) = m
  manager_of (returned m) = m

  -- Once the lock is marked as in use it stays so in every round, and no round switches to a fiber
  -- that the scheduler gives.
  pub lock_stays :
      (now : ℕ × ℕ) (banned_until : ℕ → ℕ × ℕ) (made : ℕ) (m : Manager Q)
      → m.lock_using ≡ 1
      → let y = yield_round S now banned_until made m in
        ((manager_of y).lock_using ≡ 1)
        × ((m' : Manager Q) (effects : List Effect) → y ≢ switched m' effects)
  unfolding yield_round
  lock_stays now banned_until made m l = (ground arith, λ m' effects e. ground arith)
