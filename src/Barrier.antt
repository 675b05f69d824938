-- ===== src/Barrier.antt =====
-- src/fiber_barrier.c: a counter of arrivals and a queue of waiting fibers, and fibers interleaved at its
-- atomic steps.
mod Tests
pub mod Rounds
use libfiber.Prelude.{
  every, ℕ, zero, suc, ◌+◌, ◌-◌, ◌%◌, ◌^◌, Bool, true, false, ◌==◌, ltb, if◌then◌else◌, List, [],
  ◌∷◌, ◌++◌, update,
}

-- The `counter` has 64 bits; `waiters` has the fibers in the queue, oldest first.
pub record Barrier : Type 0 where
  pub count : ℕ
  pub counter : ℕ
  pub waiters : List ℕ

-- `fiber_barrier_init`, where `mpsc_fifo_init` succeeds.
abbrev pub init : ℕ → Barrier
init count = record { count = count; counter = 0; waiters = [] }

-- The addition of `fiber_barrier_wait`; true for the last fiber of a round, which wakes the others.
abbrev pub arrive : Barrier → Barrier × Bool
arrive b =
    let new_value = (b.counter + 1) % 2 ^ 64 in
    (record b { counter = new_value }, new_value % b.count == 0)

-- A fiber is away; on its way into the queue; asleep in it; or it wakes fibers, that many of them still
-- to come.
pub data Pc : Type 0 where
  away entering asleep : Pc
  waking : ℕ → Pc

-- `passed` is how many waits of a fiber have returned.
pub record System : Type 0 where
  pub barrier : Barrier
  pub pc : ℕ → Pc
  pub passed : ℕ → ℕ

pub data Action : Type 0 where
  do_wait go refuse : Action

-- Whether a fiber that waits is switched away from. If not, `fiber_manager_yield` has returned to it at once,
-- since the manager was given a fiber to run and refused to run it.
abbrev pub switches : Action → Bool
switches refuse = false
switches a = true

abbrev pub unrefused : List (ℕ × Action) → Bool
unrefused l = every (λ x. switches x.1) l

abbrev pub passes : ℕ → System → System
passes i s = record s { pc = update s.pc i away; passed = update s.passed i (s.passed i + 1) }

-- A round of the loop of `fiber_manager_wake_from_mpsc_queue`, which tries again when the queue is empty.
-- `left` more are to be woken after this one.
abbrev pub wake : List ℕ → ℕ → System → ℕ → System
wake [] left s i = s
wake (j ∷ rest) left s i =
    let b = s.barrier in
    let t = passes j (record s { barrier = record b { waiters = rest } }) in
    record t { pc = update t.pc i (waking left) }

-- For a `count` of 1 the queue is always empty, and the one attempt to wake a fiber is left out.
unfoldable pub act : Action → Pc → System → ℕ → System
act do_wait away s i =
    let (b, serial) = arrive s.barrier in
    record s { barrier = b; pc = update s.pc i (if serial then waking (b.count - 1) else entering) }
act go entering s i =
    let b = s.barrier in
    record s { barrier = record b { waiters = b.waiters ++ (i ∷ []) }; pc = update s.pc i asleep }
act go (waking zero) s i = passes i s
act go (waking (suc left)) s i = wake s.barrier.waiters left s i
-- The yield of a wait returns at once: the fiber is in the queue, and its call returns.
act refuse entering s i =
    let b = s.barrier in
    passes i (record s { barrier = record b { waiters = b.waiters ++ (i ∷ []) } })
act a p s i = s

-- A schedule of `n` fibers.
unfoldable pub run : ℕ → List (ℕ × Action) → System → System
unfolding act
run n [] s = s
run n ((i, a) ∷ l) s = run n l (if ltb i n then act a (s.pc i) s i else s)
