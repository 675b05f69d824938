-- ===== src/Mutex/Fibers.antt =====
-- Fibers that lock and unlock one mutex, interleaved at its atomic steps and at those of its queue.
use libfiber.Prelude.{
  Bool, true, false, every, ℕ, ◌+◌, ltb, if◌then◌else◌, List, [], ◌∷◌, ◌++◌, update,
}
use libfiber.Mutex.{Mutex, success, error, lock, trylock, unlock_internal}

-- Where a fiber stands: away from the mutex, on the way into the queue (the counter says that it
-- waits), asleep in the queue, inside, or bound to wake a fiber after its unlock.
pub data Pc : Type 0 where
  away entering asleep inside handing : Pc

-- `contention` is the manager's `lock_contention_count`.
pub record System : Type 0 where
  pub mutex : Mutex
  pub contention : ℕ
  pub pc : ℕ → Pc

pub data Action : Type 0 where
  do_lock do_wait do_trylock spurious do_unlock do_wake refuse : Action

abbrev pub goto : System → ℕ → Pc → System
goto s i p = record s { pc = update s.pc i p }

unfoldable pub do_lock_at : System → ℕ → System
unfolding lock
do_lock_at s i =
    let (m, got) = lock s.mutex in
    if got
    then record s { mutex = m; pc = update s.pc i inside }
    else record s { mutex = m; contention = s.contention + 1; pc = update s.pc i entering }

-- `fiber_manager_wait_in_mpsc_queue`
unfoldable pub do_wait_at : System → ℕ → System
do_wait_at s i =
    let m = s.mutex in
    record s { mutex = record m { waiters = m.waiters ++ (i ∷ []) }; pc = update s.pc i asleep }

unfoldable pub do_trylock_at : System → ℕ → System
unfolding trylock
do_trylock_at s i =
    let (m, st) = trylock s.mutex in
    elim st [
      | success ↦ record s { mutex = m; pc = update s.pc i inside }
      | error ↦ record s { mutex = m }
    ]

unfoldable pub do_unlock_at : System → ℕ → System
unfolding unlock_internal
do_unlock_at s i =
    let (m, contended) = unlock_internal s.mutex in
    record s { mutex = m; pc = update s.pc i (if contended then handing else away) }

-- One round of `fiber_manager_wake_from_mpsc_queue` with count 1: it spins while the queue is empty.
unfoldable pub do_wake_at : System → ℕ → System
do_wake_at s i =
    let m = s.mutex in
    elim (m.waiters) [
      | [] ↦ s
      | j ∷ rest ↦ record s {
        mutex = record m { waiters = rest };
        pc = update (update s.pc j inside) i away;
      }
    ]

-- A wait whose yield returns at once: the fiber is in the queue, and its lock returns.
unfoldable pub do_refuse_at : System → ℕ → System
do_refuse_at s i =
    let m = s.mutex in
    record s { mutex = record m { waiters = m.waiters ++ (i ∷ []) }; pc = update s.pc i inside }

-- Whether a fiber that waits is switched away from. If not, `fiber_manager_yield` has returned to it at once,
-- since the manager was given a fiber to run and refused to run it.
abbrev pub switches : Action → Bool
switches refuse = false
switches a = true

abbrev pub unrefused : List (ℕ × Action) → Bool
unrefused l = every (λ x. switches x.1) l

-- What fiber `i` does; an action that does not fit where it stands changes nothing.
unfoldable pub act : Action → Pc → System → ℕ → System
unfolding do_lock_at do_wait_at do_trylock_at do_unlock_at do_wake_at do_refuse_at
act do_lock away s i = do_lock_at s i
act do_trylock away s i = do_trylock_at s i
act spurious p s i = s
act do_wait entering s i = do_wait_at s i
act do_unlock inside s i = do_unlock_at s i
act do_wake handing s i = do_wake_at s i
act refuse entering s i = do_refuse_at s i
act a p s i = s

-- A schedule: which fiber does what, in order, among `n` fibers.
unfoldable pub run : ℕ → List (ℕ × Action) → System → System
unfolding act
run n [] s = s
run n ((i, a) ∷ l) s = run n l (if ltb i n then act a (s.pc i) s i else s)
