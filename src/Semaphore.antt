-- ===== src/Semaphore.antt =====
-- src/fiber_semaphore.c: a counter and a queue of waiting fibers, and fibers interleaved at its
-- atomic steps. The counter is below 0 by the number of fibers that wait.
pub mod Invariant
pub mod Permits
mod Tests
use libfiber.Prelude.{
  every, ℕ, ◌+◌, ◌-◌, ◌%◌, ◌^◌, ◌<◌, Bool, true, false, ◌==◌, ◌&&◌, ltb, if◌then◌else◌, List, [],
  ◌∷◌, ◌++◌, update,
}

-- `counter` is the bit pattern of a 32-bit int; `waiters` has the fibers in the queue, oldest first.
pub record Semaphore : Type 0 where
  pub counter : ℕ
  pub waiters : List ℕ

abbrev pub add_int : ℕ → ℕ → ℕ
add_int a b = (a + b) % 2 ^ 32

abbrev pub sub_int : ℕ → ℕ → ℕ
sub_int a b = (a + 2 ^ 32 - b) % 2 ^ 32

-- `a < 0` of an int.
abbrev pub negative : ℕ → Bool
negative a = if ltb a (2 ^ 31) then false else true

abbrev pub init : ℕ → Semaphore
init value = record { counter = value; waiters = [] }

-- The first half of `fiber_semaphore_wait`: true if the fiber got in, false if it goes on to wait.
abbrev pub wait : Semaphore → Semaphore × Bool
wait s =
    let val = sub_int s.counter 1 in
    (record s { counter = val }, if negative val then false else true)

-- The compare-exchange of a loaded counter for a new one, in `trywait` and in `post_internal`.
abbrev pub exchange : ℕ → ℕ → Semaphore → Semaphore × Bool
exchange expected desired s =
    if s.counter == expected then (record s { counter = desired }, true) else (s, false)

abbrev pub getvalue : Semaphore → ℕ
getvalue s = s.counter

-- A fiber is away; on its way into the queue; asleep in it; inside; between the load and the
-- exchange of a trywait or of a post; at the top of the loop of a post; or a post that has woken a
-- fiber, and has not added to the counter yet.
pub data Pc : Type 0 where
  away entering asleep inside looping woke : Pc
  taking posting : ℕ → Pc

pub record System : Type 0 where
  pub sem : Semaphore
  pub pc : ℕ → Pc

pub data Action : Type 0 where
  do_wait do_trywait do_post go spurious refuse : Action

-- Whether a fiber that waits is switched away from. If not, `fiber_manager_yield` has returned to it at once,
-- since the manager was given a fiber to run and refused to run it.
abbrev pub switches : Action → Bool
switches refuse = false
switches a = true

abbrev pub unrefused : List (ℕ × Action) → Bool
unrefused l = every (λ x. switches x.1) l

abbrev pub moved : System → ℕ → Semaphore → Pc → System
moved s i m p = record s { sem = m; pc = update s.pc i p }

-- `fiber_manager_wake_from_mpmc_queue` with count 0: it tries once.
abbrev pub try_wake : List ℕ → System → ℕ → System
try_wake [] s i = s
try_wake (j ∷ rest) s i =
    let m = s.sem in
    record s { sem = record m { waiters = rest }; pc = update (update s.pc j inside) i woke }

-- The load of `trywait`, which gives up unless the counter is above 0.
abbrev pub load_trywait : System → ℕ → System
load_trywait s i =
    let counter = s.sem.counter in
    if ltb 0 counter && ltb counter (2 ^ 31)
    then moved s i s.sem (taking counter)
    else moved s i s.sem away

-- The load of `post_internal`: below 0 it tries to wake a fiber, else it goes on to the exchange.
abbrev pub load_post : System → ℕ → System
load_post s i =
    let prev_counter = s.sem.counter in
    if negative prev_counter
    then try_wake s.sem.waiters s i
    else moved s i s.sem (posting prev_counter)

-- Fiber `i` at the given point takes an action. A post is made by a fiber that is inside. An
-- exchange that fails loads again; `spurious` is the failure of a weak exchange for no reason.
unfoldable pub act : Action → Pc → System → ℕ → System
act do_wait away s i = let (m, got) = wait s.sem in moved s i m (if got then inside else entering)
act do_trywait away s i = load_trywait s i
act do_post inside s i = moved s i s.sem looping
act go entering s i =
    let m = s.sem in moved s i (record m { waiters = m.waiters ++ (i ∷ []) }) asleep
act go (taking counter) s i =
    let (m, done) = exchange counter (sub_int counter 1) s.sem in
    if done then moved s i m inside else load_trywait s i
act go looping s i = load_post s i
act go (posting prev_counter) s i =
    let (m, done) = exchange prev_counter (add_int prev_counter 1) s.sem in
    moved s i m (if done then away else looping)
act spurious (taking counter) s i = load_trywait s i
act spurious (posting prev_counter) s i = moved s i s.sem looping
act go woke s i = let m = s.sem in moved s i (record m { counter = add_int m.counter 1 }) away
-- The yield of a wait returns at once: the call returns, and the push into the queue is left to the manager.
act refuse entering s i = moved s i s.sem inside
act a p s i = s

-- A schedule of `n` fibers.
unfoldable pub run : ℕ → List (ℕ × Action) → System → System
unfolding act
run n [] s = s
run n ((i, a) ∷ l) s = run n l (if ltb i n then act a (s.pc i) s i else s)
