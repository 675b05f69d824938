-- ===== src/Manager/Tests.antt =====
-- A scheduler that is a list, and the manager's theorems over it.
use libfiber.Prelude.{
  ℕ, ◌+◌, ◌≡◌, ◌≢◌, inr, refl, arith, Bool, none, some, List, [], ◌∷◌, ◌++◌, ◌==◌, if◌then◌else◌,
}
use libfiber.Scheduler.{Scheduler, count, count-append, one_if}
use libfiber.Manager.{Manager, running, ready, Effect, switched, returned, yield_round}
use libfiber.Manager.Yield.{census, manager_of, switch-census, refused_loses, lock_stays}

abbrev take_first : (ℕ → Bool) → List ℕ → List ℕ × ℕ
take_first saving [] = ([], 0)
take_first saving (f ∷ fs) = (fs, f)

count-take_first :
    (saving : ℕ → Bool) (q : List ℕ) (g : ℕ)
    → (take_first saving q).1 ≢ 0
    → count g q ≡ count g (take_first saving q).0 + one_if ((take_first saving q).1 == g)
count-take_first saving [] g h = absurd (h refl)
count-take_first saving (f ∷ fs) g h = omega arith

abbrev fifo : Scheduler
fifo = record {
  Q = List ℕ;
  schedule = λ q f. q ++ (f ∷ []);
  next = take_first;
  load_balance = λ q. q;
  Fits = λ q. Unit;
  queued = λ q g. count g q;
  queued-schedule = λ q f g h. omega (arith, count-append g q (f ∷ []));
  queued-next = λ saving q g h. count-take_first saving q g;
  queued-load_balance = λ q g h. refl;
}

-- Fiber 1 runs, fibers 2 and 3 are queued.
abbrev busy : ℕ → Manager (List ℕ)
busy lock_using = record {
  state = λ f. if f == 1 then running else ready;
  current_fiber = 1;
  old_fiber = 1;
  maintenance_fiber = none;
  scheduler = 2 ∷ 3 ∷ [];
  to_schedule = none;
  done_fiber = none;
  mpmc_to_push = none;
  mpsc_to_push = none;
  mutex_to_unlock = some 7;
  spinlock_to_unlock = none;
  set_wait = none;
  yield_count = 0;
  lock_using = lock_using;
}

abbrev no_ban : ℕ → ℕ × ℕ
no_ban f = (0, 0)

switch-census_example :
    (m' : Manager (List ℕ)) × (effects : List Effect) × (yield_round fifo (5, 0) no_ban 9 (busy 0)
      ≡ switched m' effects)
    × (m'.current_fiber ≡ 2)
    × (m'.lock_using ≡ 1)
    × (census fifo 3 m' ≡ census fifo 3 (busy 0))
switch-census_example =
    switch-census fifo (5, 0) no_ban 9 3 (busy 0) tt tt refl (omega arith) (omega arith) refl
      (omega arith)

-- The lock is in use: fiber 2 is lost, and fiber 1 is queued while it runs.
refused_loses_example :
    (m' : Manager (List ℕ)) × (yield_round fifo (5, 0) no_ban 9 (busy 1) ≡ returned m')
    × (m'.current_fiber ≡ 1)
    × (census fifo 2 m' + 1 ≡ census fifo 2 (busy 1))
    × (census fifo 1 m' ≡ census fifo 1 (busy 1) + 1)
refused_loses_example =
    refused_loses fifo (5, 0) no_ban 9 (busy 1) tt tt (omega arith) (omega arith) (inr refl)
      (omega arith)

lock_stays_example :
    let y = yield_round fifo (5, 0) no_ban 9 (busy 1) in
    ((manager_of fifo y).lock_using ≡ 1)
    × ((m' : Manager (List ℕ)) (effects : List Effect) → y ≢ switched m' effects)
lock_stays_example = lock_stays fifo (5, 0) no_ban 9 (busy 1) refl
