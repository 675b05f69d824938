-- ===== src/Cond.antt =====
-- src/fiber_cond.c: a counter of waiting fibers and a queue of them, and fibers interleaved at the atomic
-- steps. The internal mutex is a flag here; that of the caller is left out: a wait ends where it is locked
-- again.
pub mod Steps
pub mod Counted
mod Tests
use libfiber.Prelude.{
  every, ℕ, zero, suc, ◌+◌, ◌-◌, ◌%◌, ◌^◌, Bool, true, false, ltb, leb, ◌==◌, sub64, if◌then◌else◌,
  List, [], ◌∷◌, ◌++◌, update,
}

-- `waiter_count` is an `intptr_t` as a bit pattern; `waiters` has the fibers in the queue, oldest first.
pub record Cond : Type 0 where
  pub internal_mutex : Bool
  pub waiter_count : ℕ
  pub waiters : List ℕ

-- `fiber_cond_init`, where the queue and the mutex can be made.
abbrev pub init : Cond
init = record { internal_mutex = false; waiter_count = 0; waiters = [] }

-- A fiber is away; it is counted and on its way into the queue; asleep; it tries to lock the internal
-- mutex for a signal or, with `true`, a broadcast; it has locked it; its signal has found no one, and has
-- to add 1 again; it has that many fibers to wake; or it has to unlock.
pub data Pc : Type 0 where
  away entering asleep restoring : Pc
  locking locked : Bool → Pc
  waking : ℕ → Pc

pub record System : Type 0 where
  pub cond : Cond
  pub pc : ℕ → Pc

pub data Action : Type 0 where
  do_wait go refuse : Action
  do_signal : Bool → Action

-- Whether a fiber that waits is switched away from. If not, `fiber_manager_yield` has returned to it at once,
-- since the manager was given a fiber to run and refused to run it.
abbrev pub switches : Action → Bool
switches refuse = false
switches a = true

abbrev pub unrefused : List (ℕ × Action) → Bool
unrefused l = every (λ x. switches x.1) l

abbrev pub moved : System → ℕ → Cond → Pc → System
moved s i c p = record s { cond = c; pc = update s.pc i p }

-- The subtraction of a signal.
abbrev pub signal : System → ℕ → System
signal s i =
    let c = s.cond in
    let new_val = sub64 c.waiter_count 1 in
    moved s i (record c { waiter_count = new_val })
      (if leb (2 ^ 63) new_val then restoring else waking 1)

-- The exchange of a broadcast.
abbrev pub broadcast : System → ℕ → System
broadcast s i =
    let c = s.cond in moved s i (record c { waiter_count = 0 }) (waking (c.waiter_count))

-- A round of `fiber_manager_wake_from_mpsc_queue`, which tries again when the queue is empty; `left` more
-- are to be woken after this one.
abbrev pub wake : List ℕ → ℕ → System → ℕ → System
wake [] left s i = s
wake (j ∷ rest) left s i =
    let c = s.cond in
    record s {
      cond = record c { waiters = rest };
      pc = update (update s.pc j away) i (waking left);
    }

unfoldable pub act : Action → Pc → System → ℕ → System
act do_wait away s i =
    let c = s.cond in moved s i (record c { waiter_count = (c.waiter_count + 1) % 2 ^ 64 }) entering
act go entering s i =
    let c = s.cond in moved s i (record c { waiters = c.waiters ++ (i ∷ []) }) asleep
act (do_signal all) away s i = moved s i s.cond (locking all)
act go (locking all) s i =
    let c = s.cond in
    if c.internal_mutex then s else moved s i (record c { internal_mutex = true }) (locked all)
act go (locked false) s i = signal s i
act go (locked true) s i = broadcast s i
act go restoring s i =
    let c = s.cond in
    moved s i (record c { waiter_count = (c.waiter_count + 1) % 2 ^ 64 }) (waking 0)
act go (waking zero) s i = let c = s.cond in moved s i (record c { internal_mutex = false }) away
act go (waking (suc left)) s i = wake s.cond.waiters left s i
-- The yield of a wait returns at once: that of the wait on the queue, or that of the lock of the internal
-- mutex while another fiber has it.
act refuse entering s i =
    let c = s.cond in moved s i (record c { waiters = c.waiters ++ (i ∷ []) }) away
act refuse (locking all) s i = if s.cond.internal_mutex then moved s i s.cond (locked all) else s
act a p s i = s

-- A schedule of `n` fibers.
unfoldable pub run : ℕ → List (ℕ × Action) → System → System
unfolding act
run n [] s = s
run n ((i, a) ∷ l) s = run n l (if ltb i n then act a (s.pc i) s i else s)
