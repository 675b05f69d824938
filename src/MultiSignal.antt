-- ===== src/MultiSignal.antt =====
-- include/fiber_signal.h: the multi signal, a word that is raised or has a stack of waiting fibers, with a
-- counter beside it, and fibers interleaved at their loads, stores and exchanges.
pub mod Replay
pub mod Stages
pub mod Sleep
pub mod Steps
pub mod Turns
pub mod Waiters
mod Tests
use libfiber.Prelude.{
  every, ℕ, ◌+◌, ◌%◌, ◌^◌, Bool, true, false, ◌&&◌, ◌==◌, ltb, if◌then◌else◌, Option, none, some,
  List, [], ◌∷◌, update,
}

-- NULL, FIBER_MULTI_SIGNAL_RAISED, or the node of a fiber. Each fiber has one node, which it gets back when
-- it is woken, and is named like it.
pub data Head : Type 0 where
  null flag : Head
  node : ℕ → Head

abbrev pub same : Head → Head → Bool
same null null = true
same flag flag = true
same (node i) (node j) = i == j
same a b = false

pub record Signal : Type 0 where
  pub counter : ℕ
  pub head : Head
  pub next : ℕ → Head

abbrev pub init : (ℕ → Head) → Signal
init next = record { counter = 0; head = null; next = next }

-- Where a fiber stands, with what it has loaded. In `wait`: it has to load the counter; the head; to
-- exchange RAISED for NULL; to write its node's `next`; to push the node. Then it switches away, sleeps,
-- and when it is woken clears its scratch. In `raise` or, with `true`, `raise_strict`: it has to load the
-- counter; the head; to exchange the head for RAISED; to load the `next` of the first waiter; to pop it;
-- and it waits until the fiber that it has popped can be woken.
pub data Pc : Type 0 where
  away : Pc
  wait_counter : Pc
  wait_head : ℕ → Pc
  wait_take : ℕ → Pc
  wait_link wait_swap : ℕ → Head → Pc
  parking parked waking : Pc
  raise_counter : Bool → Pc
  raise_head : Bool → ℕ → Pc
  raise_flag : ℕ → Head → Pc
  raise_next : Bool → ℕ → ℕ → Pc
  raise_swap : Bool → ℕ → ℕ → Head → Pc
  spinning : ℕ → Pc

-- A wait has accepted the signal or has begun to sleep; a raise has raised it or has popped a fiber.
pub data Event : Type 0 where
  accepted raised : Event
  slept popped : ℕ → Event

-- `scratch` is true for FIBER_SIGNAL_READY_TO_WAKE; `log` has the events, the latest first.
pub record System : Type 0 where
  pub signal : Signal
  pub scratch : ℕ → Bool
  pub pc : ℕ → Pc
  pub log : List Event

pub data Action : Type 0 where
  do_wait : Action
  do_raise : Bool → Action
  go refuse : Action

-- Whether a fiber that waits is switched away from. If not, `fiber_manager_yield` has returned to it at once,
-- since the manager was given a fiber to run and refused to run it.
abbrev pub switches : Action → Bool
switches refuse = false
switches a = true

abbrev pub unrefused : List (ℕ × Action) → Bool
unrefused l = every (λ x. switches x.1) l

abbrev pub moved : System → ℕ → Pc → System
moved s i p = record s { pc = update s.pc i p }

-- `compare_and_swap2` of the counter and the head, where the new counter is one more.
unfoldable pub exchange : Signal → ℕ → Head → Head → Option Signal
exchange f counter head new_head =
    if (f.counter == counter) && same f.head head
    then some (record f { counter = (counter + 1) % 2 ^ 64; head = new_head })
    else none

-- A loop ends with an event when its exchange succeeds, and else starts anew.
abbrev pub after_exchange : Option Signal → Event → Pc → Pc → System → ℕ → System
after_exchange none e done again s i = moved s i again
after_exchange (some f) e done again s i = record s {
  signal = f;
  pc = update s.pc i done;
  log = e ∷ s.log;
}

-- What the head says to a fiber that waits, and to one that raises.
abbrev pub see_wait : Head → ℕ → Pc
see_wait flag c = wait_take c
see_wait h c = wait_link c h

abbrev pub see_raise : Head → Bool → ℕ → Pc
see_raise (node j) strict c = raise_next strict c j
see_raise h true c = raise_counter true
see_raise h false c = raise_flag c h

unfoldable pub act : Action → Pc → System → ℕ → System
unfolding exchange
act do_wait away s i = record s {
  scratch = update s.scratch i false;
  pc = update s.pc i wait_counter;
}
act go wait_counter s i = moved s i (wait_head s.signal.counter)
act go (wait_head c) s i = moved s i (see_wait s.signal.head c)
act go (wait_take c) s i =
    after_exchange (exchange s.signal c flag null) accepted away wait_counter s i
act go (wait_link c h) s i =
    let f = s.signal in
    record s { signal = record f { next = update f.next i h }; pc = update s.pc i (wait_swap c h) }
act go (wait_swap c h) s i =
    after_exchange (exchange s.signal c h (node i)) (slept i) parking wait_counter s i
act go parking s i = record s { scratch = update s.scratch i true; pc = update s.pc i parked }
act go waking s i = record s { scratch = update s.scratch i false; pc = update s.pc i away }
act (do_raise strict) away s i = moved s i (raise_counter strict)
act go (raise_counter strict) s i = moved s i (raise_head strict s.signal.counter)
act go (raise_head strict c) s i = moved s i (see_raise s.signal.head strict c)
act go (raise_flag c h) s i =
    after_exchange (exchange s.signal c h flag) raised away (raise_counter false) s i
act go (raise_next strict c j) s i = moved s i (raise_swap strict c j (s.signal.next j))
act go (raise_swap strict c j x) s i =
    after_exchange (exchange s.signal c (node j) x) (popped j) (spinning j) (raise_counter strict) s
      i
act go (spinning j) s i = if s.scratch j then moved (moved s j waking) i away else s
-- The yield of a wait returns at once: its node stays in the stack, and the store to `scratch` is left to the
-- manager.
act refuse parking s i = moved s i waking
act a p s i = s

-- A schedule of `n` fibers.
unfoldable pub run : ℕ → List (ℕ × Action) → System → System
unfolding act
run n [] s = s
run n ((i, a) ∷ l) s = run n l (if ltb i n then act a (s.pc i) s i else s)
