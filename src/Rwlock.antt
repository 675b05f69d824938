-- ===== src/Rwlock.antt =====
-- src/fiber_rwlock.c: the state word with its bit fields, and one round of the compare-exchange loop
-- of each operation.
pub mod Fibers
pub mod Counts
pub mod Invariant
pub mod Waking
pub mod Exclusion
mod Tests
use libfiber.Prelude.{
  ℕ, ◌+◌, ◌-◌, ◌%◌, ◌^◌, ◌<◌, Bool, true, false, ◌==◌, ◌&&◌, ◌||◌, ltb, if◌then◌else◌,
}

-- `fiber_rwlock_state_t`: a field of 1 bit and three of 21 bits, 64 bits in all, so that two states
-- are the same blob exactly when their fields are equal.
pub record State : Type 0 where
  pub write_locked : ℕ
  pub reader_count : ℕ
  pub waiting_readers : ℕ
  pub waiting_writers : ℕ

abbrev pub same_blob : State → State → Bool
same_blob a b =
    (a.write_locked == b.write_locked)
    && ((a.reader_count == b.reader_count)
        && ((a.waiting_readers == b.waiting_readers) && (a.waiting_writers == b.waiting_writers)))

-- `fiber_rwlock_init` stores a blob of 0.
abbrev pub zero_blob : State
zero_blob = record { write_locked = 0; reader_count = 0; waiting_readers = 0; waiting_writers = 0 }

-- `+= 1` and `-= 1` on a field of 21 bits.
abbrev pub incr : ℕ → ℕ
incr a = (a + 1) % 2 ^ 21

abbrev pub decr : ℕ → ℕ
decr a = (a + 2 ^ 21 - 1) % 2 ^ 21

-- What follows a successful compare-exchange: the fiber returns with a lock, waits in one of the
-- queues, returns without a lock, or first wakes that many fibers of a queue.
pub data After : Type 0 where
  has_read has_write wait_read wait_write leave wake_writer : After
  wake_readers : ℕ → After

-- One round, from the snapshot on: an assertion fails, the call returns FIBER_ERROR, or it tries to
-- exchange the snapshot for a new state.
pub data Round : Type 0 where
  assertion : Round
  give_up : Round
  exchange : State → After → Round

unfoldable pub rdlock : State → Round
rdlock c =
    if ltb 0 c.waiting_writers || (ltb 0 c.write_locked || ltb 0 c.waiting_readers)
    then exchange (record c { waiting_readers = incr c.waiting_readers }) wait_read
    else exchange (record c { reader_count = incr c.reader_count }) has_read

unfoldable pub wrlock : State → Round
wrlock c =
    if same_blob c zero_blob
    then exchange (record c { write_locked = 1 }) has_write
    else exchange (record c { waiting_writers = incr c.waiting_writers }) wait_write

unfoldable pub tryrdlock : State → Round
tryrdlock c =
    if ltb 0 c.waiting_writers || (ltb 0 c.write_locked || ltb 0 c.waiting_readers)
    then give_up
    else exchange (record c { reader_count = incr c.reader_count }) has_read

unfoldable pub trywrlock : State → Round
trywrlock c =
    if same_blob c zero_blob then exchange (record c { write_locked = 1 }) has_write else give_up

-- The lock has become free: it goes to a waiting writer, else to all waiting readers.
abbrev pub hand_on : State → Round
hand_on c =
    if ltb 0 c.waiting_writers
    then exchange (record c { write_locked = 1; waiting_writers = decr c.waiting_writers })
        wake_writer
    else if ltb 0 c.waiting_readers
    then exchange (record c { reader_count = c.waiting_readers; waiting_readers = 0 })
        (wake_readers c.waiting_readers)
    else exchange c leave

unfoldable pub rdunlock : State → Round
rdunlock c =
    let d = record c { reader_count = decr c.reader_count } in
    if ltb 0 c.reader_count && (c.write_locked == 0)
    then if d.reader_count == 0 then hand_on d else exchange d leave
    else assertion

unfoldable pub wrunlock : State → Round
wrunlock c =
    if (c.reader_count == 0) && ltb 0 c.write_locked
    then hand_on (record c { write_locked = 0 })
    else assertion
