-- ===== src/Wsd/Tests.antt =====
-- Two threads: scheduler 0 has fibers 5 and 6 in the queue that it stores to.
use libfiber.Prelude.{
  All, ◌≢◌, ℕ, ◌+◌, ◌≡◌, ◌⊎◌, ◌==◌, List, refl, arith, Bool, true, false, if◌then◌else◌, none, some,
  update,
}
use libfiber.Scheduler.{one_if}
use libfiber.Deque.{Deque, create_deque, size_of, push_bottom, pop_bottom, steal}
use libfiber.Wsd.{Wsd, init, next, load_balance}
use libfiber.Wsd.Keep.{held, Roomy, AllRoomy}
use libfiber.Wsd.Next.{Ready, next_gives, taken_from}
use libfiber.Manager.{Manager, Effect, running, ready, switched, yield_round}
use libfiber.Manager.Yield.{census, switch-census}
use libfiber.Wsd.Instance.{wsd}

abbrev garbage : ℕ → ℕ
garbage i = 0

abbrev two_items : Deque
two_items = record {
  top = 0;
  bottom = 2;
  underlying_array = record { log_size = 8; cell = update (update garbage 0 5) 1 6 };
}

abbrev loaded : Wsd
loaded = record (init garbage 2) { queue = update (init garbage 2).queue 1 two_items }

two_items-Roomy : Roomy 100 two_items
two_items-Roomy =
    (record { ordered = omega arith; fits = omega arith; small = omega arith }, omega arith)

fresh-Roomy : Roomy 100 (create_deque garbage)
fresh-Roomy =
    (record { ordered = omega arith; fits = omega arith; small = omega arith }, omega arith)

choice-Roomy : (b : Bool) → Roomy 100 (if b then two_items else create_deque garbage)
choice-Roomy true = two_items-Roomy
choice-Roomy false = fresh-Roomy

loaded-AllRoomy : AllRoomy 100 loaded
loaded-AllRoomy i l = choice-Roomy (1 == i)

loaded-Ready : Ready 0 loaded
unfolding size_of
loaded-Ready = record {
  from = omega arith;
  to = omega arith;
  apart = omega arith;
  roomy = λ i l. ((loaded-AllRoomy i l).0, omega (arith, (loaded-AllRoomy i l).1));
}

loaded_nonnull : All (λ p. p ≢ 0) (taken_from 0 loaded)
unfolding size_of
loaded_nonnull = (λ e. ground (arith, e), (λ e. ground (arith, e), tt))

next_gives_example :
    (w' : Wsd) × (f : ℕ) × (next garbage (λ f. false) true 0 loaded ≡ some (w', f))
    × (((f ≡ 0) × All (λ p. false ≡ true) (taken_from 0 loaded)) ⊎ (false ≡ false))
    × ((g : ℕ) → g ≢ 0 → held w' g + one_if (f == g) ≡ held loaded g)
next_gives_example = next_gives garbage (λ f. false) 0 loaded loaded-Ready loaded_nonnull

next_pops_newest : (w' : Wsd) × (next garbage (λ f. false) true 0 loaded ≡ some (w', 6))
unfolding next size_of pop_bottom
next_pops_newest = (_, refl)

balance_steals : (load_balance garbage true 1 loaded).steal_count 1 ≡ 1
unfolding load_balance size_of steal push_bottom
balance_steals = refl

-- A manager of thread 0 in whose queues are the fibers 5 and 6, and which runs fiber 1.
abbrev manager : Manager Wsd
manager = record {
  state = λ f. if f == 1 then running else ready;
  current_fiber = 1;
  old_fiber = 1;
  maintenance_fiber = none;
  scheduler = loaded;
  to_schedule = none;
  done_fiber = none;
  mpmc_to_push = none;
  mpsc_to_push = none;
  mutex_to_unlock = none;
  spinlock_to_unlock = none;
  set_wait = none;
  yield_count = 0;
  lock_using = 0;
}

abbrev one_item : Deque
one_item = record two_items { bottom = 1 }

one_item-Roomy : Roomy 100 one_item
one_item-Roomy =
    (record { ordered = omega arith; fits = omega arith; small = omega arith }, omega arith)

-- The schedulers when thread 0 has exchanged its pointers and taken fiber 6.
abbrev taken : Wsd
taken = record loaded {
  queue = update loaded.queue 1 one_item;
  schedule_from = update loaded.schedule_from 0 1;
  store_to = update loaded.store_to 0 0;
}

taken_next : next garbage (λ f. false) true 0 loaded ≡ some (taken, 6)
unfolding next size_of pop_bottom
taken_next = refl

next_choice-Roomy :
    (b c : Bool) → Roomy 100 (if b then one_item else if c then two_items else create_deque garbage)
next_choice-Roomy true c = one_item-Roomy
next_choice-Roomy false c = choice-Roomy c

taken-AllRoomy : AllRoomy 100 taken
taken-AllRoomy i l = next_choice-Roomy (1 == i) (1 == i)

taken-Ready : Ready 0 taken
unfolding size_of
taken-Ready = record {
  from = omega arith;
  to = omega arith;
  apart = omega arith;
  roomy = λ i l. ((taken-AllRoomy i l).0, omega (arith, (taken-AllRoomy i l).1));
}

-- The manager on this scheduler: fiber 6 runs, and fiber 5 is where it was.
wsd_switch :
    (m' : Manager Wsd) × (effects : List Effect) × (yield_round
        (wsd garbage 0)
        (5, 0)
        (λ f. (0, 0))
        9
        manager
      ≡ switched m' effects)
    × (m'.current_fiber ≡ 6)
    × (m'.lock_using ≡ 1)
    × (census (wsd garbage 0) 5 m' ≡ census (wsd garbage 0) 5 manager)
unfolding next size_of pop_bottom
wsd_switch =
    switch-census (wsd garbage 0) (5, 0) (λ f. (0, 0)) 9 5 manager loaded-Ready taken-Ready refl
      (omega arith) (omega arith) refl (omega arith)
