-- ===== src/Event.antt =====
-- src/fiber_event_native.c: the fibers that wait for events of file descriptors, on Linux. What a thread does
-- while it holds the spinlock of a descriptor is one step; a fiber that waits holds it until it has
-- switched away.
pub mod Invariant
pub mod Waiters
mod Tests
use libfiber.Prelude.{
  ℕ, zero, suc, ◌+◌, ◌-◌, Bool, true, false, ◌&&◌, ◌||◌, not, ◌==◌, ltb, if◌then◌else◌, List, [],
  ◌∷◌, update, every,
}

-- A set of EPOLLIN and EPOLLOUT.
pub record Events : Type 0 where
  pub pollin : Bool
  pub pollout : Bool

abbrev pub no_events : Events
no_events = record { pollin = false; pollout = false }

abbrev pub some_event : Events → Bool
some_event e = e.pollin || e.pollout

abbrev pub union : Events → Events → Events
union a b = record { pollin = a.pollin || b.pollin; pollout = a.pollout || b.pollout }

abbrev pub minus : Events → Events → Events
minus a b = record { pollin = a.pollin && not b.pollin; pollout = a.pollout && not b.pollout }

-- `fd_wait_info_t`; `waiters` are linked by `scratch`, the latest first.
pub record WaitInfo : Type 0 where
  pub events : Events
  pub added : Bool
  pub waiters : List ℕ

abbrev pub unused : WaitInfo
unused = record { events = no_events; added = false; waiters = [] }

-- A fiber is away; it is asleep until the descriptor has one of the events; or it is scheduled again, and
-- its wait is to return FIBER_SUCCESS or FIBER_ERROR.
pub data Pc : Type 0 where
  away : Pc
  asleep : ℕ → Events → Pc
  ready : Bool → Pc

-- `armed` is what the last `epoll_ctl` of a descriptor asked for; with EPOLLONESHOT it is empty after an
-- event. `delivered` is how many events of a descriptor `epoll_wait` has returned that are not handled yet.
pub record System : Type 0 where
  pub wait_info : ℕ → WaitInfo
  pub armed : ℕ → Events
  pub delivered : ℕ → ℕ
  pub pc : ℕ → Pc

-- `fiber_event_wake_waiters`: schedules all of a list, with the result of their waits.
unfoldable pub wake_waiters : Bool → List ℕ → (ℕ → Pc) → ℕ → Pc
wake_waiters result [] pc = pc
wake_waiters result (to_schedule ∷ rest) pc =
    wake_waiters result rest (update pc to_schedule (ready result))

-- The descriptor is armed if `epoll_ctl` succeeds, whose result the code ignores.
abbrev pub epoll_ctl : Bool → ℕ → Events → (ℕ → Events) → ℕ → Events
epoll_ctl true fd events armed = update armed fd events
epoll_ctl false fd events armed = armed

abbrev pub no_waiters : List ℕ → Bool
no_waiters [] = true
no_waiters (i ∷ l) = false

-- How the wait goes on from its `fiber_manager_yield`: the fiber is switched away, or the yield returns at
-- once, and the result is what `scratch` has, which is the waiter before this one.
abbrev pub yielded : Bool → ℕ → Events → List ℕ → Pc
yielded true fd events waiters = asleep fd events
yielded false fd events waiters = ready (no_waiters waiters)

-- `fiber_wait_for_event`. `registers` is whether `epoll_ctl` succeeds, `switches` whether the yield switches
-- to another fiber. Where it does not the spinlock is held until the thread's next switch.
unfoldable pub wait_for_event : ℕ → ℕ → Events → Bool → Bool → System → System
wait_for_event i fd events registers switches s =
    let info = s.wait_info fd in
    let wanted = union info.events events in
    record s {
      wait_info =
          update s.wait_info fd
            (record { events = wanted; added = true; waiters = i ∷ info.waiters });
      armed = epoll_ctl registers fd wanted s.armed;
      pc = update s.pc i (yielded switches fd events info.waiters);
    }

-- What `fiber_poll_events_internal` does with an event of a descriptor; `registers` is whether its
-- `epoll_ctl` succeeds.
unfoldable pub handle : ℕ → Events → Bool → System → System
unfolding wake_waiters
handle fd revents registers s =
    let info = s.wait_info fd in
    let left = minus info.events revents in
    record s {
      wait_info = update s.wait_info fd (record info { events = left; waiters = [] });
      armed = if some_event left then epoll_ctl registers fd left s.armed else s.armed;
      delivered = update s.delivered fd (s.delivered fd - 1);
      pc = wake_waiters true info.waiters s.pc;
    }

-- `fiber_fd_closed`
unfoldable pub fd_closed : ℕ → System → System
unfolding wake_waiters
fd_closed fd s =
    let info = s.wait_info fd in
    let polled = some_event info.events || info.added in
    record s {
      wait_info = update s.wait_info fd unused;
      armed = if polled then update s.armed fd no_events else s.armed;
      pc = wake_waiters false info.waiters s.pc;
    }

-- Fiber `i` waits, or goes on; `epoll_wait` returns an event of a descriptor; a thread handles one; or a
-- descriptor is closed.
pub data Action : Type 0 where
  wait : ℕ → ℕ → Events → Bool → Bool → Action
  go : ℕ → Action
  deliver : ℕ → Action
  poll : ℕ → Events → Bool → Action
  close : ℕ → Action

abbrev pub wait_at : ℕ → ℕ → Events → Bool → Bool → Pc → System → System
wait_at i fd events registers switches away s = wait_for_event i fd events registers switches s
wait_at i fd events registers switches p s = s

abbrev pub go_at : ℕ → Pc → System → System
go_at i (ready result) s = record s { pc = update s.pc i away }
go_at i p s = s

-- An event comes only of a descriptor that is armed, and an event that is handled has been delivered.
unfoldable pub act : Action → System → System
unfolding wait_for_event handle fd_closed
act (wait i fd events registers switches) s = wait_at i fd events registers switches (s.pc i) s
act (go i) s = go_at i (s.pc i) s
act (deliver fd) s =
    if some_event (s.armed fd)
    then record s {
      armed = update s.armed fd no_events;
      delivered = update s.delivered fd (s.delivered fd + 1);
    }
    else s
act (poll fd revents registers) s =
    if ltb 0 (s.delivered fd) then handle fd revents registers s else s
act (close fd) s = fd_closed fd s

unfoldable pub run : List Action → System → System
unfolding act
run [] s = s
run (a ∷ l) s = run l (act a s)

-- An action in which every `epoll_ctl` succeeds and no wait is refused the switch away.
abbrev pub served : Action → Bool
served (wait i fd events registers switches) = registers && switches
served (poll fd revents registers) = registers
served a = true

unfoldable pub all_served : List Action → Bool
all_served l = every served l
