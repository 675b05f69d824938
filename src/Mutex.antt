-- ===== src/Mutex.antt =====
-- src/fiber_mutex.c: a counter and a queue of waiting fibers. The counter is 1 if the mutex is
-- free, and 1 less for every fiber that has it or waits for it.
pub mod Fibers
pub mod Invariant
pub mod Exclusion
mod Tests
use libfiber.Prelude.{
  ℕ, ◌+◌, ◌-◌, ◌%◌, ◌^◌, Bool, true, false, ◌==◌, if◌then◌else◌, List, [], ◌∷◌, ◌++◌,
}

-- `counter` is the bit pattern of a 32-bit int. `waiters` has the fibers whose nodes are in the
-- queue, oldest first (the queue itself is in Mpsc).
pub record Mutex : Type 0 where
  pub counter : ℕ
  pub waiters : List ℕ

-- FIBER_SUCCESS and FIBER_ERROR.
pub data Status : Type 0 where
  success error : Status

-- An `int` after `atomic_fetch_add` and `atomic_fetch_sub`, which wrap.
abbrev pub add_int : ℕ → ℕ → ℕ
add_int a b = (a + b) % 2 ^ 32

abbrev pub sub_int : ℕ → ℕ → ℕ
sub_int a b = (a + 2 ^ 32 - b) % 2 ^ 32

-- `queue_ready` is what `mpsc_fifo_init` returned.
pub init : Bool → Mutex → Mutex × Status
init queue_ready m =
    let fresh = record m { counter = 1 } in
    if queue_ready then (record fresh { waiters = [] }, success) else (fresh, error)

-- The first half of `fiber_mutex_lock`. True means that the fiber has the mutex, false that it goes
-- on to wait in the queue.
unfoldable pub lock : Mutex → Mutex × Bool
lock m = let val = sub_int m.counter 1 in (record m { counter = val }, val == 0)

-- The strong form of the compare-exchange: the weak one may also fail for no reason, which is the
-- action `spurious` of the fibers.
unfoldable pub trylock : Mutex → Mutex × Status
trylock m = if m.counter == 1 then (record m { counter = 0 }, success) else (m, error)

-- The counter's step of `fiber_mutex_unlock_internal`. True means that a waiting fiber has to be
-- woken.
unfoldable pub unlock_internal : Mutex → Mutex × Bool
unlock_internal m =
    let new_val = add_int m.counter 1 in
    (record m { counter = new_val }, if new_val == 1 then false else true)
