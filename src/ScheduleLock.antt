-- ===== src/ScheduleLock.antt =====
-- src/schedule_lock.c: the scheduler's `lock_using`, an int behind a rwlock. Each function here runs
-- with no other fiber at the rwlock. The rwlock is taken as initialised, which the program does not do.
mod Tests
use libfiber.Prelude.{
  ℕ, ◌-◌, ◌^◌, ◌≡◌, ◌<◌, ◌≤◌, refl, arith, Bool, true, false, leb, if◌then◌else◌,
}
use libfiber.Rwlock.{
  State, zero_blob, After, has_read, has_write, wait_read, wait_write, leave, wake_writer,
  wake_readers,
}
use libfiber.Rwlock.{Round, assertion, give_up, exchange, rdlock, wrlock, rdunlock, wrunlock}

-- `lock_using` is the bit pattern of an int.
pub record Data : Type 0 where
  pub lock : State
  pub lock_using : ℕ

-- A call sequence ends with a value, or waits in a queue of the rwlock.
pub data Outcome (A : Type 0) : Type 0 where
  returned : Data → A → Outcome A
  waiting : Data → Outcome A
  failed : Outcome A

infixl 5 ◌>>=◌ ◌>>◌
abbrev pub ◌>>=◌ : {A B : Type 0} → (Data → Outcome A) → (A → Data → Outcome B) → Data → Outcome B
◌>>=◌ m f d = elim (m d) [ returned e a ↦ f a e | waiting e ↦ waiting e | failed ↦ failed ]

abbrev pub ◌>>◌ : {B : Type 0} → (Data → Outcome (Unit {0})) → (Data → Outcome B) → Data → Outcome B
m >> k = m >>= λ _. k

-- One call of a rwlock operation, whose exchange nobody disturbs.
abbrev pub settle : Data → Round → Outcome (Unit {0})
settle d assertion = failed
settle d give_up = failed
settle d (exchange c wait_read) = waiting (record d { lock = c })
settle d (exchange c wait_write) = waiting (record d { lock = c })
settle d (exchange c _) = returned (record d { lock = c }) tt

abbrev pub call : (State → Round) → Data → Outcome (Unit {0})
call op d = settle d (op d.lock)

abbrev pub load : Data → Outcome ℕ
load d = returned d d.lock_using

abbrev pub store : ℕ → Data → Outcome (Unit {0})
store v d = returned (record d { lock_using = v }) tt

abbrev pub pure : {A : Type 0} → A → Data → Outcome A
pure a d = returned d a

-- `val < 0`
abbrev pub negative : ℕ → Bool
negative val = leb (2 ^ 31) val

unfoldable pub init_scheduler_lock_data : Data → Outcome (Unit {0})
init_scheduler_lock_data = store (2 ^ 32 - 1)

unfoldable pub is_lock_using : Data → Outcome ℕ
unfolding rdlock rdunlock
is_lock_using = do call rdlock; val ← load; call rdunlock; pure val

unfoldable pub set_lock_status : Data → Outcome (Unit {0})
unfolding wrlock wrunlock
set_lock_status = do call wrlock; store 1; call wrunlock

unfoldable pub add_lock : Data → Outcome (Unit {0})
unfolding rdlock rdunlock wrlock
add_lock = do
  call rdlock
  val ← load
  call rdunlock
  if negative val then (do call wrlock; store 0; call wrlock) else pure tt

-- From a free rwlock, reading and setting the status return and leave it free.
pub status_calls_return :
    (v : ℕ)
    → let d : Data = record { lock = zero_blob; lock_using = v } in
      (is_lock_using d ≡ returned d v)
      × (set_lock_status d ≡ returned (record d { lock_using = 1 }) tt)
unfolding is_lock_using set_lock_status
status_calls_return v = (refl, refl)

-- From a free rwlock, adding the lock while the value is below 0 ends in the write queue of a rwlock
-- that the caller itself has locked for writing.
pub add_lock_waits :
    (v : ℕ)
    → 2 ^ 31 ≤ v
    → add_lock (record { lock = zero_blob; lock_using = v })
      ≡ waiting (record {
        lock = record zero_blob { write_locked = 1; waiting_writers = 1 };
        lock_using = 0;
      })
unfolding add_lock
add_lock_waits v h = ground arith
