-- ===== src/Lib.antt =====
-- libfiber: user-space threads (fibers) on kernel threads, with queues, locks and a scheduler.
-- This library models the parts of the C code that hold its logic, and proves what they promise.
--
-- The parts. A kernel thread has a manager (src/fiber_manager.c), which switches between fibers
-- and asks a scheduler (include/fiber_scheduler.h) for the next; a work stealing deque
-- (src/work_stealing_deque.c) keeps the fibers that are ready, two of them in each work stealing
-- scheduler (src/fiber_scheduler_wsd.c). A fiber that must wait pushes itself onto a queue
-- (include/mpsc_fifo.h) of a lock, and the fiber that unlocks pops it and schedules it. Mutex,
-- rwlock, semaphore and spinlock are built on one atomic word and such queues; the manager asks
-- src/schedule_lock.c whether a lock is in use before it switches.
--
-- The files. Prelude has the names and lemmas that all share, and Population the counting of
-- fibers by what they do. Mpsc is include/mpsc_fifo.h: the links of the nodes are a function from
-- node to node. Mutex is src/fiber_mutex.c, Rwlock src/fiber_rwlock.c, Semaphore
-- src/fiber_semaphore.c and Spinlock src/fiber_spinlock.c. Deque is src/work_stealing_deque.c,
-- Scheduler the interface include/fiber_scheduler.h, Manager src/fiber_manager.c, ScheduleLock
-- src/schedule_lock.c. Join is the detach state of src/fiber.c, and Hazard src/hazard_pointer.c.
-- Signal is the signal of include/fiber_signal.h, and Channel the unbounded channel of
-- include/fiber_channel.h, which waits on it. Barrier is src/fiber_barrier.c. WorkQueue is
-- src/work_queue.c, Ring include/lockfree_ring_buffer.h, Lifo include/mpmc_lifo.h, MultiSignal
-- the multi signal of include/fiber_signal.h, MultiChannel include/fiber_multi_channel.h, and Wsd
-- src/fiber_scheduler_wsd.c, which fills the interface of Scheduler. Cond is src/fiber_cond.c.
-- Sleepers is the timers and Event the waits for descriptors of src/fiber_event_native.c, which
-- Io, that is src/fiber_io.c, uses through fiber_event.h. Bounded is the bounded channel of
-- include/fiber_channel.h. A definition has the name of its C function less the prefix; a child
-- module has the schedules, the invariant or a theorem of its parent's.
--
-- Concurrency. A schedule is a list of pairs of a fiber (or thread) and an action, run one atomic
-- step at a time on a shared state with a program counter for each; an action that does not fit
-- where the fiber stands changes nothing, so a theorem on all lists is one on all interleavings.
-- The atomic steps are taken in one order: weaker memory orders are not modelled. A weak
-- compare-exchange may fail for no reason. In Deque and Wsd a call is one step, and the outcome
-- of its compare-exchange an argument.
--
-- Waits. A fiber that waits calls fiber_manager_yield (src/fiber_manager.c), which switches away
-- from it, and the fiber that wakes it schedules it. But when the scheduler gives the yield a
-- fiber that is banned, or the lock of src/schedule_lock.c is in use, the yield returns to the
-- caller at once, whatever its state, and the wait ends unwoken. This is the action refuse of
-- Mutex, Rwlock, Semaphore, Barrier, Cond, Join, MultiSignal and MultiChannel, refused of
-- Channel, and an argument of the waits of Event; the fiber is then still in the queue or stack
-- where it waits, or is to be. The theorems on waits say so where they are about schedules
-- without such refusals; in the program these are the schedules in which the scheduler has no
-- fiber to give to a fiber that waits, or gives one that is not banned while the lock is free.
-- What the manager does later with a fiber that both runs and is queued is not modelled. In
-- Bounded a fiber that waits tests again, so that its theorem does not depend on how a wait ends.
--
-- Bounds. Words are natural numbers below 2^32 or 2^64 with their wrap-around written out. The
-- schedules have fewer than 2^31 fibers for the mutex, the semaphore and the condition variable,
-- fewer than 2^21 for the rwlock, whose fields have 21 bits, and fewer than 2^32 threads for the
-- spinlock, whose tickets then do not collide though they wrap. The deque is taken while its
-- indices are below 2^63. The indices of the ring buffer, the bounded channel and the multi
-- channel and the counters of the stack and the multi signal have 64 bits, and their schedules
-- fewer than 2^64 steps, those of the work queue fewer than 2^63. The count of the timer is taken
-- below 2^63, and the loop that wakes sleepers has as much fuel as the tree has nodes, and one
-- more. The work stealing schedulers are taken while their deques have room below 2^63 for the
-- pushes of a call. Fuel stands in the loop of next of Wsd, where one more than the size of the
-- queue is enough, in the loop of destroy of the FIFO, where two more than the number of values
-- is enough, in the loops of Io that read and write, where more than the number of turns that
-- would block is enough, and in binary_search of Hazard, which is given one more than the length
-- of the array.
--
-- Not modelled: what malloc returns beyond success or NULL and the garbage in it, context
-- switches in assembly, system calls (parameters of Io, with their documented behaviour as
-- hypotheses where a theorem needs it), the set-up of epoll, the variants for Solaris and libev,
-- qsort (a parameter of scan in Hazard), statistics, and the parts that the list of files does
-- not name.
pub mod Prelude
pub mod Population
pub mod Mpsc
pub mod Mutex
pub mod Rwlock
pub mod Spinlock
pub mod Semaphore
pub mod Deque
pub mod Scheduler
pub mod Manager
pub mod ScheduleLock
pub mod Hazard
pub mod Join
pub mod Signal
pub mod Channel
pub mod Barrier
pub mod WorkQueue
pub mod Ring
pub mod Wsd
pub mod MultiChannel
pub mod Lifo
pub mod MultiSignal
pub mod Cond
pub mod Sleepers
pub mod Event
pub mod Io
pub mod Bounded
