-- ===== src/Spinlock.antt =====
-- src/fiber_spinlock.c: a ticket lock of two 32-bit counters that share a 64-bit word, and threads
-- interleaved at its atomic steps.
pub mod Invariant
pub mod Turns
mod Tests
use libfiber.Prelude.{
  ℕ, ◌+◌, ◌%◌, ◌^◌, ◌<◌, Bool, true, false, ◌==◌, ◌&&◌, ltb, if◌then◌else◌, List, [], ◌∷◌, update,
}

-- `fiber_spinlock_internal_t`. Two states are the same blob when both counters are equal.
pub record Spinlock : Type 0 where
  pub ticket : ℕ
  pub users : ℕ

abbrev pub incr32 : ℕ → ℕ
incr32 a = (a + 1) % 2 ^ 32

pub init : Spinlock → Spinlock
init l = record { ticket = 0; users = 0 }

-- `atomic_fetch_add` of `fiber_spinlock_lock`: the ticket is the old number of users.
abbrev pub take_ticket : Spinlock → Spinlock × ℕ
take_ticket l = (record l { users = incr32 l.users }, l.users)

-- The test of the loop.
abbrev pub my_turn : Spinlock → ℕ → Bool
my_turn l my_ticket = l.ticket == my_ticket

-- `fiber_spinlock_trylock` loads the blob and makes its ticket equal to its users.
abbrev pub trylock_load : Spinlock → Spinlock
trylock_load l = record l { ticket = l.users }

-- It succeeds if the word is still that one, and adds a user.
abbrev pub trylock_exchange : Spinlock → Spinlock → Spinlock × Bool
trylock_exchange old l =
    if (l.ticket == old.ticket) && (l.users == old.users)
    then (record old { users = incr32 old.users }, true)
    else (l, false)

-- The store of `fiber_spinlock_unlock`, of the ticket that it loaded.
abbrev pub unlock_store : ℕ → Spinlock → Spinlock
unlock_store old_ticket l = record l { ticket = incr32 old_ticket }

-- A thread is away, spins with its ticket, is between the two halves of a trylock, inside, or between
-- the load and the store of its unlock.
pub data Pc : Type 0 where
  away inside : Pc
  spinning : ℕ → Pc
  trying : Spinlock → Pc
  releasing : ℕ → Pc

pub record System : Type 0 where
  pub lock : Spinlock
  pub pc : ℕ → Pc

pub data Action : Type 0 where
  do_lock do_trylock do_unlock go spurious : Action

abbrev pub moved : System → ℕ → Spinlock → Pc → System
moved s i l p = record s { lock = l; pc = update s.pc i p }

-- Thread `i`, which stands at the given point, takes an action; one that does not fit changes
-- nothing. `spurious` is the failure of a weak compare-exchange for no reason.
unfoldable pub act : Action → Pc → System → ℕ → System
act do_lock away s i = let (l, my_ticket) = take_ticket s.lock in moved s i l (spinning my_ticket)
act do_trylock away s i = moved s i s.lock (trying (trylock_load s.lock))
act do_unlock inside s i = moved s i s.lock (releasing s.lock.ticket)
act go (spinning my_ticket) s i = if my_turn s.lock my_ticket then moved s i s.lock inside else s
act go (trying old) s i =
    let (l, got) = trylock_exchange old s.lock in moved s i l (if got then inside else away)
act go (releasing old_ticket) s i = moved s i (unlock_store old_ticket s.lock) away
act spurious (trying old) s i = moved s i s.lock away
act a p s i = s

-- A schedule of `n` threads.
unfoldable pub run : ℕ → List (ℕ × Action) → System → System
unfolding act
run n [] s = s
run n ((i, a) ∷ l) s = run n l (if ltb i n then act a (s.pc i) s i else s)
