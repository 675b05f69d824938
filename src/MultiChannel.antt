-- ===== src/MultiChannel.antt =====
-- include/fiber_multi_channel.h: a bounded channel on a ring of 2^k cells under a mutex, and fibers
-- interleaved at what they do while they hold the mutex. The mutex is its own component, and is a flag
-- here.
pub mod Contents
pub mod Holders
pub mod Order
mod Tests
use libfiber.Prelude.{
  every, ℕ, ◌+◌, ◌%◌, ◌^◌, Bool, true, false, ltb, if◌then◌else◌, List, [], ◌∷◌, ◌++◌, update,
  sub64,
}

-- `waiters` has the fibers that are linked by `scratch`, the latest first.
pub record MultiChannel : Type 0 where
  pub lock : Bool
  pub high : ℕ
  pub low : ℕ
  pub log_size : ℕ
  pub waiters : List ℕ
  pub buffer : ℕ → ℕ

-- `calloc` succeeds and gives NULLs.
abbrev pub create : ℕ → MultiChannel
create power_of_2_size = record {
  lock = false;
  high = 0;
  low = 0;
  log_size = power_of_2_size;
  waiters = [];
  buffer = λ i. 0;
}

abbrev pub size : MultiChannel → ℕ
size c = 2 ^ c.log_size

pub data Call : Type 0 where
  sending : ℕ → Call
  receiving : Call

-- A fiber is away; it tries to get the mutex; it has it, and tests the counters; it has found the channel
-- full or empty, is among the waiters, and switches away, which lets the mutex go; it is asleep; or it is
-- done, and has to unlock.
pub data Pc : Type 0 where
  away : Pc
  locking : Call → Pc
  inside : Call → Pc
  parking : Call → Pc
  asleep : Call → Pc
  unlocking : Pc

-- `sent` and `received` have the messages in the order of the writes to `high` and `low`.
pub record System : Type 0 where
  pub channel : MultiChannel
  pub pc : ℕ → Pc
  pub sent : List ℕ
  pub received : List ℕ

pub data Action : Type 0 where
  call : Call → Action
  go refuse : Action

-- Whether a fiber that waits is switched away from. If not, `fiber_manager_yield` has returned to it at once,
-- since the manager was given a fiber to run and refused to run it.
abbrev pub switches : Action → Bool
switches refuse = false
switches a = true

abbrev pub unrefused : List (ℕ × Action) → Bool
unrefused l = every (λ x. switches x.1) l

abbrev pub moved : System → ℕ → Pc → System
moved s i p = record s { pc = update s.pc i p }

-- A fiber that is scheduled again goes back to the start of its loop.
abbrev pub awake : Pc → Pc
awake (parking c) = locking c
awake (asleep c) = locking c
awake p = p

-- `fiber_multi_channel_internal_wait`, up to the switch.
abbrev pub internal_wait : Call → System → ℕ → System
internal_wait k s i =
    let c = s.channel in
    moved (record s { channel = record c { waiters = i ∷ c.waiters } }) i (parking k)

-- `fiber_multi_channel_internal_wake`
abbrev pub internal_wake : List ℕ → System → System
internal_wake [] s = s
internal_wake (to_wake ∷ rest) s =
    let c = s.channel in
    moved (record s { channel = record c { waiters = rest } }) to_wake (awake (s.pc to_wake))

-- What a sender does when it has the mutex, up to the unlocking.
unfoldable pub send : ℕ → System → ℕ → System
send message s i =
    let c = s.channel in
    if ltb (sub64 c.high c.low) (size c)
    then moved
        (internal_wake c.waiters (record s {
          channel = record c {
            buffer = update c.buffer (c.high % size c) message;
            high = (c.high + 1) % 2 ^ 64;
          };
          sent = s.sent ++ (message ∷ []);
        }))
        i unlocking
    else internal_wait (sending message) s i

unfoldable pub receive : System → ℕ → System
receive s i =
    let c = s.channel in
    if ltb c.low c.high
    then moved
        (internal_wake c.waiters (record s {
          channel = record c {
            buffer = update c.buffer (c.low % size c) 0;
            low = (c.low + 1) % 2 ^ 64;
          };
          received = s.received ++ (c.buffer (c.low % size c) ∷ []);
        }))
        i unlocking
    else internal_wait receiving s i

abbrev pub locked : Bool → System → System
locked b s = let c = s.channel in record s { channel = record c { lock = b } }

unfoldable pub act : Action → Pc → System → ℕ → System
unfolding send receive
act (call k) away s i = moved s i (locking k)
act go (locking k) s i = if s.channel.lock then s else locked true (moved s i (inside k))
act go (inside (sending message)) s i = send message s i
act go (inside receiving) s i = receive s i
act go (parking k) s i = locked false (moved s i (asleep k))
act go unlocking s i = locked false (moved s i away)
-- A yield returns at once: that of the lock of the mutex, while another fiber has it, or that of the wait for
-- a message or for room, which leaves the mutex locked.
act refuse (locking k) s i = if s.channel.lock then moved s i (inside k) else s
act refuse (parking k) s i = moved s i (locking k)
act a p s i = s

-- A schedule of `n` fibers.
unfoldable pub run : ℕ → List (ℕ × Action) → System → System
unfolding act
run n [] s = s
run n ((i, a) ∷ l) s = run n l (if ltb i n then act a (s.pc i) s i else s)
