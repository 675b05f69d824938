-- ===== src/Wsd.antt =====
-- src/fiber_scheduler_wsd.c: the schedulers of all threads, each with two work stealing deques. Each
-- function here is one call that no other thread interrupts.
pub mod Keep
pub mod Loop
pub mod Next
pub mod Balance
pub mod Instance
mod Tests
use libfiber.Prelude.{
  ℕ, zero, suc, ◌+◌, ◌-◌, ◌*◌, ◌%◌, ◌^◌, Bool, true, false, ◌&&◌, ◌==◌, ltb, if◌then◌else◌, update,
  Option, none, some,
}
use libfiber.Deque.{
  Deque, Taken, item, empty, abort, create_deque, size_of, push_bottom, pop_bottom, steal,
}

-- `queue` is `fiber_scheduler_thread_queues`: scheduler `id` has the queues `2 * id` and `2 * id + 1`, and
-- `schedule_from` and `store_to` say which of the queues its two pointers name.
pub record Wsd : Type 0 where
  pub num_threads : ℕ
  pub queue : ℕ → Deque
  pub schedule_from : ℕ → ℕ
  pub store_to : ℕ → ℕ
  pub steal_count : ℕ → ℕ
  pub failed_steal_count : ℕ → ℕ

-- `fiber_scheduler_init`, where `malloc` and `calloc` succeed.
abbrev pub init : (ℕ → ℕ) → ℕ → Wsd
init garbage num_threads = record {
  num_threads = num_threads;
  queue = λ i. create_deque garbage;
  schedule_from = λ id. 2 * id;
  store_to = λ id. 2 * id + 1;
  steal_count = λ id. 0;
  failed_steal_count = λ id. 0;
}

abbrev pub incr : (ℕ → ℕ) → ℕ → ℕ → ℕ
incr counts id = update counts id ((counts id + 1) % 2 ^ 64)

-- The exchange of the two pointers.
abbrev pub swapped : ℕ → Wsd → Wsd
swapped id w =
    if size_of (w.queue (w.schedule_from id)) == 0
    then record w {
      schedule_from = update w.schedule_from id (w.store_to id);
      store_to = update w.store_to id (w.schedule_from id);
    }
    else w

module _ (garbage : ℕ → ℕ) where
  -- A push to queue `k`, whose array can grow.
  abbrev pub push : ℕ → Wsd → ℕ → Wsd
  push k w the_fiber = elim (push_bottom true garbage (w.queue k) the_fiber) [
    | none ↦ w
    | some d ↦ record w { queue = update w.queue k d }
  ]

  -- `fiber_scheduler_schedule`
  unfoldable pub schedule : ℕ → Wsd → ℕ → Wsd
  schedule id w the_fiber = push (w.schedule_from id) w the_fiber

  -- What the loop of `fiber_scheduler_next` does with what it has popped; `rest` is the next round, and
  -- `saving` says which fibers are saving their state.
  abbrev pub after_pop : (Wsd → Option (Wsd × ℕ)) → (ℕ → Bool) → ℕ → Wsd → Taken → Option (Wsd × ℕ)
  after_pop rest saving id w (item new_fiber) = elim (saving new_fiber) [
    | true ↦ rest (push (w.store_to id) w new_fiber)
    | false ↦ some (w, new_fiber)
  ]
  after_pop rest saving id w empty = rest w
  after_pop rest saving id w abort = rest w

  -- The loop; `exchanged` says whether the compare-exchange of a pop succeeds. `none` if the fuel runs out.
  unfoldable pub next_loop : (ℕ → Bool) → Bool → ℕ → ℕ → Wsd → Option (Wsd × ℕ)
  next_loop saving exchanged id zero w = none
  next_loop saving exchanged id (suc fuel) w =
      let from = w.schedule_from id in
      let popped = pop_bottom exchanged (w.queue from) in
      elim (size_of (w.queue from) == 0) [
        | true ↦ some (w, 0)
        | false ↦
            after_pop (next_loop saving exchanged id fuel) saving id
              (record w { queue = update w.queue from popped.0 }) popped.1
      ]

  -- `fiber_scheduler_next`; the fuel is one more than the size of the queue.
  unfoldable pub next : (ℕ → Bool) → Bool → ℕ → Wsd → Option (Wsd × ℕ)
  unfolding next_loop
  next saving exchanged id w =
      let w' = swapped id w in
      next_loop saving exchanged id (size_of (w'.queue (w'.schedule_from id)) + 1) w'

  -- What the inner loop of `fiber_scheduler_load_balance` does with what it has stolen: it goes on, with
  -- a longer local queue and a shorter remote one, or stops. It gives back the local count and what is
  -- left of `max_steal`.
  abbrev pub after_steal : (Wsd → Wsd × ℕ × ℕ) → ℕ → ℕ → ℕ → Wsd → Taken → Wsd × ℕ × ℕ
  after_steal rest id local_count max_steal w (item stolen) =
      let w2 = push (w.schedule_from id) w stolen in
      rest (record w2 { steal_count = incr w2.steal_count id })
  after_steal rest id local_count max_steal w empty =
      (record w { failed_steal_count = incr w.failed_steal_count id }, local_count, max_steal)
  after_steal rest id local_count max_steal w abort =
      (record w { failed_steal_count = incr w.failed_steal_count id }, local_count, max_steal)

  -- The inner loop, which steals from queue `remote`.
  unfoldable pub steal_loop : Bool → ℕ → ℕ → ℕ → ℕ → ℕ → Wsd → Wsd × ℕ × ℕ
  steal_loop exchanged id remote remote_count local_count zero w = (w, local_count, 0)
  steal_loop exchanged id remote remote_count local_count (suc max_steal) w =
      let stolen = steal exchanged (w.queue remote) in
      elim (ltb local_count remote_count) [
        | false ↦ (w, local_count, suc max_steal)
        | true ↦
            after_steal
              (steal_loop exchanged id remote (remote_count - 1) (local_count + 1) max_steal) id
              local_count (suc max_steal) (record w { queue = update w.queue remote stolen.0 })
              stolen.1
      ]

  -- The outer loop, over `rounds` queues from index `i` on.
  unfoldable pub balance_loop : Bool → ℕ → ℕ → ℕ → ℕ → ℕ → Wsd → Wsd
  unfolding steal_loop
  balance_loop exchanged id zero i local_count max_steal w = w
  balance_loop exchanged id (suc rounds) i local_count max_steal w =
      let remote = i % (2 * w.num_threads) in
      let (w', local_count', max_steal') =
        steal_loop exchanged id remote (size_of (w.queue remote)) local_count max_steal w in
      balance_loop exchanged id rounds (i + 1) local_count' max_steal' w'

  -- `fiber_scheduler_load_balance`
  unfoldable pub load_balance : Bool → ℕ → Wsd → Wsd
  unfolding balance_loop
  load_balance exchanged id w =
      balance_loop exchanged id (2 * (w.num_threads - 1)) (2 * (id + 1))
        (size_of (w.queue (w.schedule_from id))) 50 w
