-- ===== src/ScheduleLock/Tests.antt =====
-- The scheduler's lock at a concrete value: -1 as an int.
use libfiber.Prelude.{◌-◌, ◌^◌, ◌≡◌, refl}
use libfiber.Rwlock.{zero_blob}
use libfiber.ScheduleLock.{waiting, add_lock}

-- The caller is in the write queue of the rwlock that it has locked itself.
adds_below_zero :
    add_lock (record { lock = zero_blob; lock_using = 2 ^ 32 - 1 })
    ≡ waiting (record {
      lock = record zero_blob { write_locked = 1; waiting_writers = 1 };
      lock_using = 0;
    })
unfolding add_lock
adds_below_zero = refl
