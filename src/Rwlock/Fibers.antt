-- ===== src/Rwlock/Fibers.antt =====
-- Fibers at one rwlock, interleaved at the load of a snapshot, the compare-exchange, and each step
-- of the queues.
use libfiber.Prelude.{
  every, ℕ, suc, Bool, true, false, ltb, if◌then◌else◌, List, [], ◌∷◌, ◌++◌, update,
}
use libfiber.Rwlock.{State, same_blob, After, has_read, has_write, wait_read, wait_write, leave}
use libfiber.Rwlock.{wake_writer, wake_readers, Round, assertion, give_up, exchange}
use libfiber.Rwlock.{rdlock, wrlock, tryrdlock, trywrlock, rdunlock, wrunlock}

pub data Op : Type 0 where
  op_rdlock op_wrlock op_tryrdlock op_trywrlock op_rdunlock op_wrunlock : Op

-- `looping op` is at the top of the loop of `op`, `trying op snapshot r` between its load and its
-- compare-exchange, with `r` the rest of the round. `r_entering` and `r_asleep` are before and after
-- the push into `read_waiters`; `waking_readers k` has to wake `k` more.
pub data Pc : Type 0 where
  away reading writing r_entering r_asleep w_entering w_asleep waking_writer crashed : Pc
  waking_readers : ℕ → Pc
  looping : Op → Pc
  trying : Op → State → State → After → Pc

pub record System : Type 0 where
  pub state : State
  pub write_waiters : List ℕ
  pub read_waiters : List ℕ
  pub pc : ℕ → Pc

abbrev pub round : Op → State → Round
round op_rdlock = rdlock
round op_wrlock = wrlock
round op_tryrdlock = tryrdlock
round op_trywrlock = trywrlock
round op_rdunlock = rdunlock
round op_wrunlock = wrunlock

-- Where a fiber may call an operation from.
abbrev pub may_call : Op → Pc → Bool
may_call op_rdunlock reading = true
may_call op_wrunlock writing = true
may_call op_rdlock away = true
may_call op_wrlock away = true
may_call op_tryrdlock away = true
may_call op_trywrlock away = true
may_call _ _ = false

abbrev pub goto : System → ℕ → Pc → System
goto s i p = record s { pc = update s.pc i p }

-- The load of a snapshot, and what the round computes from it.
abbrev pub loaded : Op → State → Round → Pc
loaded op snapshot assertion = crashed
loaded op snapshot give_up = away
loaded op snapshot (exchange desired after) = trying op snapshot desired after

abbrev pub after_pc : After → Pc
after_pc has_read = reading
after_pc has_write = writing
after_pc wait_read = r_entering
after_pc wait_write = w_entering
after_pc leave = away
after_pc wake_writer = waking_writer
after_pc (wake_readers k) = waking_readers k

-- `__sync_bool_compare_and_swap`, and another round if it fails.
abbrev pub compare_and_swap : Op → State → State → After → System → ℕ → System
compare_and_swap op snapshot desired after s i =
    if same_blob s.state snapshot
    then record s { state = desired; pc = update s.pc i (after_pc after) }
    else goto s i (looping op)

-- One round of `fiber_manager_wake_from_mpsc_queue`: the fiber in front has the lock.
abbrev pub wake_reader : ℕ → List ℕ → System → ℕ → System
wake_reader k [] s i = s
wake_reader k (j ∷ rest) s i = record s {
  read_waiters = rest;
  pc = update (update s.pc j reading) i (if ltb 0 k then waking_readers k else away);
}

abbrev pub wake_one_writer : List ℕ → System → ℕ → System
wake_one_writer [] s i = s
wake_one_writer (j ∷ rest) s i = record s {
  write_waiters = rest;
  pc = update (update s.pc j writing) i away;
}

-- The next step of a fiber that is inside a call.
unfoldable pub next : Pc → System → ℕ → System
unfolding rdlock wrlock tryrdlock trywrlock rdunlock wrunlock
next (looping op) s i = goto s i (loaded op s.state (round op s.state))
next (trying op snapshot desired after) s i = compare_and_swap op snapshot desired after s i
next r_entering s i = record s {
  read_waiters = s.read_waiters ++ (i ∷ []);
  pc = update s.pc i r_asleep;
}
next w_entering s i = record s {
  write_waiters = s.write_waiters ++ (i ∷ []);
  pc = update s.pc i w_asleep;
}
next (waking_readers (suc k)) s i = wake_reader k s.read_waiters s i
next waking_writer s i = wake_one_writer s.write_waiters s i
next _ s i = s

pub data Action : Type 0 where
  call : Op → Action
  go refuse : Action

-- Whether a fiber that waits is switched away from. If not, `fiber_manager_yield` has returned to it at once,
-- since the manager was given a fiber to run and refused to run it.
abbrev pub switches : Action → Bool
switches refuse = false
switches a = true

abbrev pub unrefused : List (ℕ × Action) → Bool
unrefused l = every (λ x. switches x.1) l

-- A wait whose yield returns at once: the fiber is in its queue, and its call returns.
abbrev pub refused_at : Pc → System → ℕ → System
refused_at r_entering s i = record s {
  read_waiters = s.read_waiters ++ (i ∷ []);
  pc = update s.pc i reading;
}
refused_at w_entering s i = record s {
  write_waiters = s.write_waiters ++ (i ∷ []);
  pc = update s.pc i writing;
}
refused_at p s i = s

unfoldable pub act : Action → System → ℕ → System
unfolding next
act (call op) s i = if may_call op (s.pc i) then goto s i (looping op) else s
act go s i = next (s.pc i) s i
act refuse s i = refused_at (s.pc i) s i

-- A schedule of `n` fibers.
unfoldable pub run : ℕ → List (ℕ × Action) → System → System
unfolding act
run n [] s = s
run n ((i, a) ∷ l) s = run n l (if ltb i n then act a s i else s)
