-- ===== src/Sleepers.antt =====
-- src/fiber_event_native.c: the fibers that sleep until a time, in a tree of linked lists, under the spinlock
-- of the tree.
pub mod Order
pub mod Waking
mod Tests
use libfiber.Prelude.{
  ℕ, zero, suc, ◌+◌, ◌*◌, ◌/◌, ◌%◌, ◌^◌, Bool, ◌==◌, ltb, if◌then◌else◌, Option, none, some, List,
  [], ◌∷◌, ◌++◌, map,
}

-- `waiter_el_t`: a node has its `wake_time`, its `waiter`, and the waiters that are linked by `next`, which
-- have the same time.
pub data Tree : Type 0 where
  leaf : Tree
  node : Tree → ℕ → ℕ → List ℕ → Tree → Tree

unfoldable pub waiter_insert : ℕ → ℕ → Tree → Tree
waiter_insert wake_time waiter leaf = node leaf wake_time waiter [] leaf
waiter_insert wake_time waiter (node left time first next right) =
    if ltb wake_time time
    then node (waiter_insert wake_time waiter left) time first next right
    else if wake_time == time
    then node left time first (waiter ∷ next) right
    else node left time first next (waiter_insert wake_time waiter right)

-- What is removed is a node's elements, each with its wake time and its waiter.
abbrev pub elements : ℕ → ℕ → List ℕ → List (ℕ × ℕ)
elements time first next = (time, first) ∷ map (λ waiter. (time, waiter)) next

abbrev pub in_left :
    ℕ → ℕ → List ℕ → Tree → Option (List (ℕ × ℕ) × Tree) → Option (List (ℕ × ℕ) × Tree)
in_left time first next right none = none
in_left time first next right (some (removed, left)) =
    some (removed, node left time first next right)

-- None stands for NULL: there is nothing to remove.
unfoldable pub waiter_remove_less_than : Tree → ℕ → Option (List (ℕ × ℕ) × Tree)
waiter_remove_less_than leaf wake_time = none
waiter_remove_less_than (node leaf time first next right) wake_time =
    if ltb time wake_time then some (elements time first next, right) else none
waiter_remove_less_than (node (node l t f n r) time first next right) wake_time =
    in_left time first next right (waiter_remove_less_than (node l t f n r) wake_time)

abbrev pub then_wake : List (ℕ × ℕ) → Option (Tree × List (ℕ × ℕ)) → Option (Tree × List (ℕ × ℕ))
then_wake woken none = none
then_wake woken (some (t, more)) = some (t, woken ++ more)

-- The loop of `fiber_event_wake_sleepers`, with the elements whose waiters it schedules; none if the fuel
-- runs out.
unfoldable pub wake_loop : ℕ → ℕ → Tree → Option (Tree × List (ℕ × ℕ))
unfolding waiter_remove_less_than
wake_loop zero count t = none
wake_loop (suc fuel) count t = elim (waiter_remove_less_than t count) [
  | none ↦ some (t, [])
  | some (woken, t') ↦ then_wake woken (wake_loop fuel count t')
]

abbrev pub size : Tree → ℕ
size leaf = 0
size (node left time first next right) = suc (size left + size right)

pub record Sleepers : Type 0 where
  pub timer_trigger_count : ℕ
  pub sleepers : Tree

-- `fiber_sleep` up to the switch; the times are 32-bit words in the sum, and 64-bit words then.
abbrev pub sleep_ms : ℕ → ℕ → ℕ
sleep_ms seconds useconds = (seconds * 1000 + useconds / 1000 + 1) % 2 ^ 32

unfoldable pub fiber_sleep : ℕ → ℕ → ℕ → Sleepers → Sleepers
unfolding waiter_insert
fiber_sleep seconds useconds this_fiber s =
    let wake_time = (s.timer_trigger_count + sleep_ms seconds useconds) % 2 ^ 64 in
    record s { sleepers = waiter_insert wake_time this_fiber s.sleepers }

abbrev pub counted : ℕ → Option (Tree × List (ℕ × ℕ)) → Option (Sleepers × List (ℕ × ℕ))
counted count none = none
counted count (some (t, woken)) = some (record { timer_trigger_count = count; sleepers = t }, woken)

-- `fiber_event_wake_sleepers`, with the elements whose waiters it schedules.
unfoldable pub wake_sleepers : ℕ → Sleepers → Option (Sleepers × List (ℕ × ℕ))
unfolding wake_loop
wake_sleepers trigger_count s =
    let count = (s.timer_trigger_count + trigger_count) % 2 ^ 64 in
    counted count (wake_loop (size s.sleepers + 1) count s.sleepers)

-- A fiber goes to sleep, or the timer has triggered so many times.
pub data Event : Type 0 where
  sleep : ℕ → ℕ → ℕ → Event
  timer : ℕ → Event

-- `asked` has the fibers that went to sleep, each with the count of the timer that it asked to sleep
-- through; `woken` those that were scheduled again, with the count that their element had.
pub record System : Type 0 where
  pub now : Sleepers
  pub asked : List (ℕ × ℕ)
  pub woken : List (ℕ × ℕ)

abbrev pub woke : System → Option (Sleepers × List (ℕ × ℕ)) → Option System
woke s none = none
woke s (some (now, es)) = some (record s { now = now; woken = s.woken ++ es })

unfoldable pub event : Event → System → Option System
unfolding fiber_sleep wake_sleepers
event (sleep seconds useconds this_fiber) s = some (record s {
  now = fiber_sleep seconds useconds this_fiber s.now;
  asked =
      (s.now.timer_trigger_count + (seconds * 1000 + useconds / 1000 + 1), this_fiber) ∷ s.asked;
})
event (timer count) s = woke s (wake_sleepers count s.now)

abbrev pub and_then : (System → Option System) → Option System → Option System
and_then f none = none
and_then f (some s) = f s

unfoldable pub run : List Event → System → Option System
unfolding event
run [] s = some s
run (e ∷ es) s = and_then (run es) (event e s)
