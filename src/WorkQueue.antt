-- ===== src/WorkQueue.antt =====
-- src/work_queue.c: a queue of work items, of which one thread at a time is the worker, and threads
-- interleaved at its atomic steps.
pub mod Worker
mod Tests
use libfiber.Prelude.{
  ℕ, ◌+◌, ◌-◌, ◌%◌, ◌^◌, Bool, true, false, ◌==◌, ltb, if◌then◌else◌, List, [], ◌∷◌, ◌++◌, update,
}

-- The counts have 64 bits; `fifo` has the items whose push into the FIFO is complete (the FIFO is in Mpsc).
pub record WorkQueue : Type 0 where
  pub fifo : List ℕ
  pub in_count : ℕ
  pub out_count : ℕ

-- `work_queue_init`, where `mpsc_fifo_init` succeeds.
abbrev pub init : WorkQueue
init = record { fifo = []; in_count = 0; out_count = 0 }

-- The addition of `work_queue_push`; true is WORK_QUEUE_START_WORKING.
abbrev pub count_in : WorkQueue → WorkQueue × Bool
count_in wq =
    let in_count = (wq.in_count + 1) % 2 ^ 64 in (record wq { in_count = in_count }, in_count == 1)

-- The subtraction of `work_queue_get_work`; true is WORK_QUEUE_EMPTY.
abbrev pub count_out : ℕ → WorkQueue → WorkQueue × Bool
count_out old_out_count wq =
    let new_in_count = (wq.in_count + 2 ^ 64 - old_out_count) % 2 ^ 64 in
    (record wq { in_count = new_in_count }, new_in_count == 0)

-- A thread is away; it has counted its item, which it has to put into the FIFO, and is to be the worker
-- or not; it is the worker, in the loop of `work_queue_get_work`; it has found the counts equal; or it
-- has put the out count back, and has to subtract what it was.
pub data Pc : Type 0 where
  away working resetting : Pc
  pushing : ℕ → Bool → Pc
  subtracting : ℕ → Pc

pub record System : Type 0 where
  pub wq : WorkQueue
  pub pc : ℕ → Pc

-- `go_blocked` is a trypop that finds nothing because the item in front is not linked yet.
pub data Action : Type 0 where
  do_push : ℕ → Action
  go go_blocked : Action

abbrev pub moved : System → ℕ → WorkQueue → Pc → System
moved s i w p = record s { wq = w; pc = update s.pc i p }

-- The branch where trypop returned NULL.
abbrev pub nothing : System → ℕ → System
nothing s i = if s.wq.out_count == s.wq.in_count then moved s i s.wq resetting else s

-- A round of the loop. The worker calls again for more work when it has an item.
abbrev pub get_work : List ℕ → System → ℕ → System
get_work [] s i = nothing s i
get_work (item ∷ rest) s i =
    let w = s.wq in
    moved s i (record w { fifo = rest; out_count = (w.out_count + 1) % 2 ^ 64 }) working

unfoldable pub act : Action → Pc → System → ℕ → System
act (do_push item) away s i = let (w, start) = count_in s.wq in moved s i w (pushing item start)
act go (pushing item start) s i =
    let w = s.wq in
    moved s i (record w { fifo = w.fifo ++ (item ∷ []) }) (if start then working else away)
act go working s i = get_work s.wq.fifo s i
act go_blocked working s i = nothing s i
act go resetting s i =
    let w = s.wq in moved s i (record w { out_count = 0 }) (subtracting w.out_count)
act go (subtracting old) s i =
    let (w, empty) = count_out old s.wq in moved s i w (if empty then away else working)
act a p s i = s

-- A schedule of `n` threads.
unfoldable pub run : ℕ → List (ℕ × Action) → System → System
unfolding act
run n [] s = s
run n ((i, a) ∷ l) s = run n l (if ltb i n then act a (s.pc i) s i else s)
