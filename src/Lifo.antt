-- ===== src/Lifo.antt =====
-- include/mpmc_lifo.h: a linked stack whose head has a counter beside it, and threads interleaved at their
-- loads, stores and exchanges. Nodes are numbers, NULL is 0.
pub mod Linked
pub mod Order
pub mod Stages
mod Tests
use libfiber.Prelude.{
  ℕ, ◌+◌, ◌%◌, ◌^◌, Bool, true, false, not, ◌&&◌, ◌==◌, ltb, if◌then◌else◌, Option, none, some,
  List, [], ◌∷◌, update,
}

-- The fields `next` of the nodes are the function `next`.
pub record Lifo : Type 0 where
  pub counter : ℕ
  pub head : ℕ
  pub next : ℕ → ℕ

abbrev pub init : (ℕ → ℕ) → Lifo
init next = record { counter = 0; head = 0; next = next }

-- Where a thread stands in `push` of a node or in `pop`, with what it has loaded: it has to load the
-- counter; the head; a pusher has to write its node's `next`, and then to exchange; a popper has to load
-- the `next` of the head, and then to exchange.
pub data Pc : Type 0 where
  away : Pc
  push_counter : ℕ → Pc
  push_head : ℕ → ℕ → Pc
  push_link : ℕ → ℕ → ℕ → Pc
  push_swap : ℕ → ℕ → ℕ → Pc
  pop_counter : Pc
  pop_head : ℕ → Pc
  pop_next : ℕ → ℕ → Pc
  pop_swap : ℕ → ℕ → ℕ → Pc

-- What has happened to the stack: a node was pushed, was popped, or a pop has found the stack empty.
pub data Event : Type 0 where
  pushed popped : ℕ → Event
  found_empty : Event

-- `owned` says which nodes belong to the clients; `log` has the events, the latest first.
pub record System : Type 0 where
  pub lifo : Lifo
  pub pc : ℕ → Pc
  pub owned : ℕ → Bool
  pub log : List Event

pub data Action : Type 0 where
  do_push : ℕ → Action
  do_pop go : Action

abbrev pub moved : System → ℕ → Pc → System
moved s i p = record s { pc = update s.pc i p }

-- `compare_and_swap2` of the counter and the head.
unfoldable pub exchange : Lifo → ℕ → ℕ → ℕ → Option Lifo
exchange f counter head new_head =
    if (f.counter == counter) && (f.head == head)
    then some (record f { counter = (counter + 1) % 2 ^ 64; head = new_head })
    else none

-- The loop of push starts anew when the exchange fails.
abbrev pub after_push : Option Lifo → ℕ → System → ℕ → System
after_push none n s i = moved s i (push_counter n)
after_push (some f) n s i = record s { lifo = f; pc = update s.pc i away; log = pushed n ∷ s.log }

abbrev pub after_pop : Option Lifo → ℕ → System → ℕ → System
after_pop none n s i = moved s i pop_counter
after_pop (some f) n s i = record s {
  lifo = f;
  pc = update s.pc i away;
  owned = update s.owned n true;
  log = popped n ∷ s.log;
}

-- Thread `i` takes a step. A thread pushes a node that belongs to the clients, and owns it until then.
unfoldable pub act : Action → Pc → System → ℕ → System
unfolding exchange
act (do_push n) away s i =
    if s.owned n && not (n == 0)
    then record s { pc = update s.pc i (push_counter n); owned = update s.owned n false }
    else s
act go (push_counter n) s i = moved s i (push_head n s.lifo.counter)
act go (push_head n c) s i = moved s i (push_link n c s.lifo.head)
act go (push_link n c h) s i =
    let f = s.lifo in
    record s { lifo = record f { next = update f.next n h }; pc = update s.pc i (push_swap n c h) }
act go (push_swap n c h) s i = after_push (exchange s.lifo c h n) n s i
act do_pop away s i = moved s i pop_counter
act go pop_counter s i = moved s i (pop_head s.lifo.counter)
act go (pop_head c) s i =
    if s.lifo.head == 0
    then record s { pc = update s.pc i away; log = found_empty ∷ s.log }
    else moved s i (pop_next c s.lifo.head)
act go (pop_next c h) s i = moved s i (pop_swap c h (s.lifo.next h))
act go (pop_swap c h x) s i = after_pop (exchange s.lifo c h x) h s i
act a p s i = s

-- A schedule of `n` threads.
unfoldable pub run : ℕ → List (ℕ × Action) → System → System
unfolding act
run n [] s = s
run n ((i, a) ∷ l) s = run n l (if ltb i n then act a (s.pc i) s i else s)
