-- ===== src/Rwlock/Counts.antt =====
-- The numbers of the rwlock: its state word counts the fibers that hold it, and those that wait.
use libfiber.Prelude.{ℕ, zero, suc, ◌+◌, ◌^◌, ◌≤◌, ◌<◌, ◌≡◌, ◌≢◌, ◌⊎◌, refl, ap, arith, update}
use libfiber.Population.{tally, tally-update, tally-le, weight-le-tally}
use libfiber.Rwlock.{State, After}
use libfiber.Rwlock.{assertion, give_up, exchange}
use libfiber.Rwlock.{rdlock, wrlock, tryrdlock, trywrlock, rdunlock, wrunlock}
use libfiber.Rwlock.Fibers.{
  Op, op_rdlock, op_wrlock, op_tryrdlock, op_trywrlock, op_rdunlock, op_wrunlock,
}
use libfiber.Rwlock.Fibers.{Pc, reading, writing, r_entering, r_asleep, w_entering, w_asleep}
use libfiber.Rwlock.Fibers.{waking_writer, waking_readers, looping, trying, round, after_pc}

abbrev pub is_op_rdunlock : Op → ℕ
is_op_rdunlock op_rdunlock = 1
is_op_rdunlock _ = 0

abbrev pub is_op_wrunlock : Op → ℕ
is_op_wrunlock op_wrunlock = 1
is_op_wrunlock _ = 0

-- A fiber has a read lock until its unlock's compare-exchange succeeds.
abbrev pub has_r : Pc → ℕ
has_r reading = 1
has_r (looping op) = is_op_rdunlock op
has_r (trying op c d a) = is_op_rdunlock op
has_r _ = 0

abbrev pub has_w : Pc → ℕ
has_w writing = 1
has_w (looping op) = is_op_wrunlock op
has_w (trying op c d a) = is_op_wrunlock op
has_w _ = 0

abbrev pub waits_r : Pc → ℕ
waits_r r_entering = 1
waits_r r_asleep = 1
waits_r _ = 0

abbrev pub waits_w : Pc → ℕ
waits_w w_entering = 1
waits_w w_asleep = 1
waits_w _ = 0

-- Locks that are handed on, and have not reached their fibers.
abbrev pub grants_r : Pc → ℕ
grants_r (waking_readers k) = k
grants_r _ = 0

abbrev pub grants_w : Pc → ℕ
grants_w waking_writer = 1
grants_w _ = 0

abbrev present : Pc → ℕ
present p = has_r p + has_w p + waits_r p + waits_w p

present-le : (p : Pc) → present p ≤ 1
present-le (looping op) = ground arith
present-le (trying op c d a) = ground arith
present-le p = ground arith

present-split :
    (n : ℕ) (pc : ℕ → Pc)
    → tally present n pc
      ≡ tally has_r n pc + tally has_w n pc + tally waits_r n pc + tally waits_w n pc
present-split zero pc = refl
present-split (suc n) pc = omega (arith, present-split n pc)

pub room :
    (n : ℕ) (pc : ℕ → Pc)
    → tally has_r n pc + tally has_w n pc + tally waits_r n pc + tally waits_w n pc ≤ n
room n pc = omega (arith, present-split n pc, tally-le present present-le n pc)

abbrev pub SameWeights : Pc → Pc → Type 0
SameWeights p q =
    (has_r p ≡ has_r q)
    × (has_w p ≡ has_w q)
    × (waits_r p ≡ waits_r q)
    × (waits_w p ≡ waits_w q)
    × (grants_r p ≡ grants_r q)
    × (grants_w p ≡ grants_w q)

-- How the sums change when fiber `i` goes to `p`.
pub record Moved (n i : ℕ) (pc : ℕ → Pc) (p : Pc) : Type 0 where
  pub holds_r : tally has_r n (update pc i p) + has_r (pc i) ≡ tally has_r n pc + has_r p
  pub holds_w : tally has_w n (update pc i p) + has_w (pc i) ≡ tally has_w n pc + has_w p
  pub waiting_r : tally waits_r n (update pc i p) + waits_r (pc i) ≡ tally waits_r n pc + waits_r p
  pub waiting_w : tally waits_w n (update pc i p) + waits_w (pc i) ≡ tally waits_w n pc + waits_w p
  pub granted_r :
      tally grants_r n (update pc i p) + grants_r (pc i) ≡ tally grants_r n pc + grants_r p
  pub granted_w :
      tally grants_w n (update pc i p) + grants_w (pc i) ≡ tally grants_w n pc + grants_w p
  pub room_after :
      tally has_r n (update pc i p)
        + tally has_w n (update pc i p)
        + tally waits_r n (update pc i p)
        + tally waits_w n (update pc i p)
      ≤ n

pub moved : (n i : ℕ) (pc : ℕ → Pc) (p : Pc) → i < n → Moved n i pc p
moved n i pc p h = record {
  holds_r = tally-update has_r n i pc p h;
  holds_w = tally-update has_w n i pc p h;
  waiting_r = tally-update waits_r n i pc p h;
  waiting_w = tally-update waits_w n i pc p h;
  granted_r = tally-update grants_r n i pc p h;
  granted_w = tally-update grants_w n i pc p h;
  room_after = room n (update pc i p);
}

-- The state word counts holders and waiters; handed-on locks count as held. It is not locked for
-- reading and writing at once, and nobody waits at a free lock.
pub record Counts (n : ℕ) (c : State) (pc : ℕ → Pc) : Type 0 where
  pub few : n < 2 ^ 21
  pub readers : c.reader_count ≡ tally has_r n pc + tally grants_r n pc
  pub writers : c.write_locked ≡ tally has_w n pc + tally grants_w n pc
  pub r_queue : c.waiting_readers + tally grants_r n pc ≡ tally waits_r n pc
  pub w_queue : c.waiting_writers + tally grants_w n pc ≡ tally waits_w n pc
  pub one_writer : c.write_locked ≤ 1
  pub apart : (c.write_locked ≡ 0) ⊎ (c.reader_count ≡ 0)
  pub held : 0 < c.waiting_readers + c.waiting_writers → 0 < c.write_locked + c.reader_count

module _ {n : ℕ} {c : State} {pc : ℕ → Pc} (k : Counts n c pc) (i : ℕ) (lt : i < n) where
  -- A fiber that moves between points of the same weights.
  pub Counts-same : (p : Pc) → SameWeights p (pc i) → Counts n c (update pc i p)
  Counts-same p w = ground (arith, moved n i pc p lt)

  module _ (d : State) (a : After) where
    rdlock-Counts :
        pc i ≡ trying op_rdlock c d a
        → rdlock c ≡ exchange d a
        → Counts n d (update pc i (after_pc a))
    unfolding rdlock
    rdlock-Counts e r = ground (arith, moved n i pc (after_pc a) lt)

    tryrdlock-Counts :
        pc i ≡ trying op_tryrdlock c d a
        → tryrdlock c ≡ exchange d a
        → Counts n d (update pc i (after_pc a))
    unfolding tryrdlock
    tryrdlock-Counts e r = ground (arith, moved n i pc (after_pc a) lt)

    wrlock-Counts :
        pc i ≡ trying op_wrlock c d a
        → wrlock c ≡ exchange d a
        → Counts n d (update pc i (after_pc a))
    unfolding wrlock
    wrlock-Counts e r = ground (arith, moved n i pc (after_pc a) lt)

    trywrlock-Counts :
        pc i ≡ trying op_trywrlock c d a
        → trywrlock c ≡ exchange d a
        → Counts n d (update pc i (after_pc a))
    unfolding trywrlock
    trywrlock-Counts e r = ground (arith, moved n i pc (after_pc a) lt)

    rdunlock-Counts :
        pc i ≡ trying op_rdunlock c d a
        → rdunlock c ≡ exchange d a
        → Counts n d (update pc i (after_pc a))
    unfolding rdunlock
    rdunlock-Counts e r = ground (arith, moved n i pc (after_pc a) lt)

    wrunlock-Counts :
        pc i ≡ trying op_wrunlock c d a
        → wrunlock c ≡ exchange d a
        → Counts n d (update pc i (after_pc a))
    unfolding wrunlock
    wrunlock-Counts e r = ground (arith, moved n i pc (after_pc a) lt)

    pub round-Counts :
        (op : Op)
        → pc i ≡ trying op c d a
        → round op c ≡ exchange d a
        → Counts n d (update pc i (after_pc a))
    round-Counts op_rdlock e r = rdlock-Counts e r
    round-Counts op_wrlock e r = wrlock-Counts e r
    round-Counts op_tryrdlock e r = tryrdlock-Counts e r
    round-Counts op_trywrlock e r = trywrlock-Counts e r
    round-Counts op_rdunlock e r = rdunlock-Counts e r
    round-Counts op_wrunlock e r = wrunlock-Counts e r

  -- The assertions of the unlocks hold for a fiber that has the lock.
  pub round-holds : (op : Op) → pc i ≡ looping op → round op c ≢ assertion
  unfolding rdlock wrlock tryrdlock trywrlock rdunlock wrunlock
  round-holds op_rdunlock e r = absurd (ground (arith, weight-le-tally has_r n i pc lt, ap has_r e))
  round-holds op_wrunlock e r = absurd (ground (arith, weight-le-tally has_w n i pc lt, ap has_w e))
  round-holds op_rdlock e r = ground arith
  round-holds op_wrlock e r = ground arith
  round-holds op_tryrdlock e r = ground arith
  round-holds op_trywrlock e r = ground arith

  -- An exchange is never planned by a `try` that gives up, and a fiber that gives up had no lock.
  pub round-gives_up :
      (op : Op) → pc i ≡ looping op → round op c ≡ give_up → (has_r (pc i) ≡ 0) × (has_w (pc i) ≡ 0)
  unfolding rdlock wrlock tryrdlock trywrlock rdunlock wrunlock
  round-gives_up op_rdunlock e r = ground arith
  round-gives_up op_wrunlock e r = ground arith
  round-gives_up op_rdlock e r = ground arith
  round-gives_up op_wrlock e r = ground arith
  round-gives_up op_tryrdlock e r = ground arith
  round-gives_up op_trywrlock e r = ground arith
