-- ===== src/Mutex/Invariant.antt =====
-- The invariant of the mutex, and that every action of every fiber keeps it.
use libfiber.Prelude.{true, ℕ, ◌+◌, ◌-◌, ◌%◌, ◌^◌, ◌≤◌, ◌<◌, ◌≡◌, ◌≢◌, refl, ap, arith}
use libfiber.Prelude.{List, [], ◌∷◌, update}
use libfiber.Prelude.{
  NotIn, Distinct, Distinct-append, All, length, length-append, subst, lt→ltb, ge→ltb, dec_lt,
}
use libfiber.Population.{
  tally, tally-update, tally-le, Parked, NotIn-Parked, Parked-update, Parked-move, Parked-join,
  tally-absent,
}
use libfiber.Mutex.Fibers.{
  refuse, switches, unrefused, Pc, away, entering, asleep, inside, handing, System, Action, do_lock,
  do_wait,
}
use libfiber.Mutex.Fibers.{do_trylock, spurious, do_unlock, do_wake, act, run}
use libfiber.Mutex.Fibers.{do_lock_at, do_wait_at, do_trylock_at, do_unlock_at, do_wake_at}

-- The fibers that the counter counts, those that have the mutex or hand it on, and those in the queue.
abbrev pub users : Pc → ℕ
users entering = 1
users asleep = 1
users inside = 1
users _ = 0

abbrev pub owners : Pc → ℕ
owners inside = 1
owners handing = 1
owners _ = 0

abbrev pub sleepers : Pc → ℕ
sleepers asleep = 1
sleepers _ = 0

users-le : (p : Pc) → users p ≤ 1
users-le p = ground arith

abbrev Asleep : ℕ → (ℕ → Pc) → ℕ → Type 0
Asleep n pc = Parked asleep n pc

pub record Inv (n : ℕ) (s : System) : Type 0 where
  pub few : n < 2 ^ 31
  pub count : s.mutex.counter ≡ (1 + 2 ^ 32 - tally users n s.pc) % 2 ^ 32
  pub one : tally owners n s.pc ≤ 1
  pub used : tally owners n s.pc ≤ tally users n s.pc
  pub kept : 0 < tally users n s.pc → tally owners n s.pc ≡ 1
  pub queue : All (Asleep n s.pc) s.mutex.waiters
  pub distinct : Distinct s.mutex.waiters
  pub sleeping : length s.mutex.waiters ≡ tally sleepers n s.pc

-- The three sums after fiber `i` went to `p`.
record Sums (n i : ℕ) (pc : ℕ → Pc) (p : Pc) : Type 0 where
  user : tally users n (update pc i p) + users (pc i) ≡ tally users n pc + users p
  owner : tally owners n (update pc i p) + owners (pc i) ≡ tally owners n pc + owners p
  sleeper : tally sleepers n (update pc i p) + sleepers (pc i) ≡ tally sleepers n pc + sleepers p
  few_users : tally users n pc ≤ n
  few_users' : tally users n (update pc i p) ≤ n

sums : (n i : ℕ) (pc : ℕ → Pc) (p : Pc) → i < n → Sums n i pc p
sums n i pc p h = record {
  user = tally-update users n i pc p h;
  owner = tally-update owners n i pc p h;
  sleeper = tally-update sleepers n i pc p h;
  few_users = tally-le users users-le n pc;
  few_users' = tally-le users users-le n (update pc i p);
}

module _ {n : ℕ} {s : System} (inv : Inv n s) (i : ℕ) (lt : i < n) where
  open inv use {few, count, one, used, kept, queue, distinct, sleeping}

  awake : (p : Pc) → s.pc i ≢ asleep → All (Asleep n (update s.pc i p)) s.mutex.waiters
  awake p h = Parked-move asleep n i s.pc p s.mutex.waiters h queue

  do_lock-Inv : s.pc i ≡ away → Inv n (do_lock_at s i)
  unfolding do_lock_at
  do_lock-Inv e = ground (
    arith,
    sums n i s.pc inside lt,
    sums n i s.pc entering lt,
    awake inside (λ q. cc e),
    awake entering (λ q. cc e),
  )

  do_trylock-Inv : s.pc i ≡ away → Inv n (do_trylock_at s i)
  unfolding do_trylock_at
  do_trylock-Inv e = ground (arith, sums n i s.pc inside lt, awake inside (λ q. cc e))

  do_unlock-Inv : s.pc i ≡ inside → Inv n (do_unlock_at s i)
  unfolding do_unlock_at
  do_unlock-Inv e = ground (
    arith,
    sums n i s.pc handing lt,
    sums n i s.pc away lt,
    awake handing (λ q. cc e),
    awake away (λ q. cc e),
  )

  do_wait-Inv : s.pc i ≡ entering → Inv n (do_wait_at s i)
  unfolding do_wait_at
  do_wait-Inv e = record {
    few = few;
    count = omega (arith, sum, was);
    one = omega (arith, sum, was);
    used = omega (arith, sum, was);
    kept = λ h. omega (arith, sum, was, kept (omega (arith, sum, was)));
    queue = Parked-join asleep n i s.pc s.mutex.waiters lt (λ q. cc e) queue;
    distinct =
        Distinct-append i s.mutex.waiters distinct
          (NotIn-Parked asleep n i s.pc s.mutex.waiters (λ q. cc e) queue);
    sleeping = omega (arith, sum, was, length-append s.mutex.waiters (i ∷ []));
  }
    where
      sum : Sums n i s.pc asleep
      sum = sums n i s.pc asleep lt

      was : (users (s.pc i) ≡ 1) × (owners (s.pc i) ≡ 0) × (sleepers (s.pc i) ≡ 0)
      was = ground arith

  -- The fiber at the front of the queue gets the mutex from the one that wakes it.
  module _ (j : ℕ) (rest : List ℕ) (e : s.pc i ≡ handing) (front : s.mutex.waiters ≡ j ∷ rest) where
    abbrev woken : ℕ → Pc
    woken = update s.pc j inside

    front-Asleep : Asleep n s.pc j
    front-Asleep = (subst (All (Asleep n s.pc)) front queue).0

    rest-NotIn : NotIn j rest
    rest-NotIn = (subst Distinct front distinct).0

    woken-i : woken i ≡ handing
    woken-i = ground (arith, front-Asleep, e)

    rest-queue : All (Asleep n (update woken i away)) rest
    rest-queue =
        Parked-update asleep n i woken away rest
          (NotIn-Parked asleep n i woken rest (λ q. cc (woken-i)) still) still
      where
        still : All (Asleep n woken) rest
        still =
            Parked-update asleep n j s.pc inside rest rest-NotIn
              (subst (All (Asleep n s.pc)) front queue).1

    do_wake-Inv_front :
        Inv n (record s { mutex = record (s.mutex) { waiters = rest }; pc = update woken i away })
    do_wake-Inv_front = record {
      few = few;
      count = omega (arith, first, second, was);
      one = omega (arith, first, second, was);
      used = omega (arith, first, second, was);
      kept = λ h. omega (arith, first, second, was, kept (omega (arith, first, second, was)));
      queue = rest-queue;
      distinct = (subst Distinct front distinct).1;
      sleeping = omega (arith, first, second, was, ap length front);
    }
      where
        first : Sums n j s.pc inside
        first = sums n j s.pc inside front-Asleep.0

        second : Sums n i woken away
        second = sums n i woken away lt

        was :
            (users (s.pc j) ≡ 1)
            × (owners (s.pc j) ≡ 0)
            × (sleepers (s.pc j) ≡ 1)
            × (users (woken i) ≡ 0)
            × (owners (woken i) ≡ 1)
            × (sleepers (woken i) ≡ 0)
        was = ground (arith, front-Asleep, woken-i)

  do_wake-Inv : s.pc i ≡ handing → Inv n (do_wake_at s i)
  unfolding do_wake_at
  do_wake-Inv e = by_queue s.mutex.waiters refl
    where
      by_queue : (ws : List ℕ) → s.mutex.waiters ≡ ws → Inv n (do_wake_at s i)
      by_queue [] f = rw (f, do_wake_at) inv
      by_queue (j ∷ rest) f = rw (f, do_wake_at) (do_wake-Inv_front j rest e f)

  act-Inv : (a : Action) (p : Pc) → switches a ≡ true → s.pc i ≡ p → Inv n (act a p s i)
  unfolding act
  act-Inv refuse p u e = absurd (ground (arith, u))
  act-Inv do_lock away u e = do_lock-Inv e
  act-Inv do_trylock away u e = do_trylock-Inv e
  act-Inv spurious p u e = inv
  act-Inv do_wait entering u e = do_wait-Inv e
  act-Inv do_unlock inside u e = do_unlock-Inv e
  act-Inv do_wake handing u e = do_wake-Inv e
  act-Inv a p u e = inv

-- What `fiber_mutex_init` leaves, with every fiber away.
pub record Initial (n : ℕ) (s : System) : Type 0 where
  pub small : n < 2 ^ 31
  pub free : s.mutex.counter ≡ 1
  pub none : s.mutex.waiters ≡ []
  pub absent : (i : ℕ) → s.pc i ≡ away

pub Initial-Inv : {n : ℕ} {s : System} → Initial n s → Inv n s
Initial-Inv {n} {s} z = ground (
  arith,
  tally-absent users away n s.pc refl z.absent,
  tally-absent owners away n s.pc refl z.absent,
  tally-absent sleepers away n s.pc refl z.absent,
)

pub run-Inv :
    (n : ℕ) (l : List (ℕ × Action)) (s : System) → unrefused l ≡ true → Inv n s → Inv n (run n l s)
unfolding run
run-Inv n [] s u inv = inv
run-Inv n ((i, a) ∷ l) s u inv = elim (dec_lt i n) [
  | yes lt ↦ rw (lt→ltb i n lt) (
      run-Inv n l (act a (s.pc i) s i) (ground (arith, u))
        (act-Inv inv i lt a (s.pc i) (ground (arith, u)) refl))
  | no ge ↦ rw (ge→ltb i n ge) (run-Inv n l s (ground (arith, u)) inv)
]
