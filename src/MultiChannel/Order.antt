-- ===== src/MultiChannel/Order.antt =====
-- Every schedule at a multi channel.
use libfiber.Prelude.{
  ℕ, ◌+◌, ◌-◌, ◌^◌, ◌≤◌, ◌<◌, ◌≡◌, inl, inr, refl, ap, subst, arith, Bool, true, false, Bool-cases,
  if◌then◌else◌, sub64, ltb, dec_lt, lt→ltb, ge→ltb, ltb→lt, List, [], ◌∷◌, ◌++◌, length, update,
  All,
}
use native.Mathlib.Nat.{mod-eq_of_lt}
use libfiber.Population.{tally-lone, tally-absent}
use libfiber.Deque.Cells.{length-slice}
use libfiber.MultiChannel.{
  refuse, switches, unrefused, create, size, Call, sending, receiving, Pc, away, inside, locking,
  parking, asleep, unlocking, System, Action, call, go, moved, internal_wake, internal_wait, locked,
  send, receive, act, run,
}
use libfiber.MultiChannel.Contents.{array, contents, Fifo, send-room, send-Fifo, receive-Fifo}
use libfiber.MultiChannel.Holders.{
  Inv, holds, waits, Waiting, move-Inv, wait-Inv, park-Inv, wake_unlocking-Inv, holds-lock,
  waiter_asleep,
}

record Valid (n : ℕ) (s : System) : Type 0 where
  fifo : Fifo (array s.channel) s.channel.low s.channel.high s.sent s.received
  held : Inv n s.pc s.channel.lock s.channel.waiters

module _ {n : ℕ} (i : ℕ) (h : i < n) where
  -- The end of a send or receive, whose message is in or out.
  wake-Valid :
      (ws : List ℕ) (s : System)
      → s.channel.waiters ≡ ws
      → Valid n s
      → holds (s.pc i) ≡ 1
      → waits (s.pc i) ≡ 0
      → Valid n (moved (internal_wake ws s) i unlocking)
  wake-Valid [] s q v e z = record {
    fifo = v.fifo;
    held = move-Inv (v.held) i h unlocking s.channel.lock z refl (omega (arith, e));
  }
  wake-Valid (j ∷ rest) s q v e z = record {
    fifo = v.fifo;
    held = wake_unlocking-Inv i j rest (subst (Inv n s.pc s.channel.lock) q (v.held)) h e z;
  }

  -- The channel is full or empty.
  wait-Valid :
      (k : Call) (s : System) → Valid n s → s.pc i ≡ inside k → Valid n (internal_wait k s i)
  wait-Valid k s v e = record { fifo = v.fifo; held = wait-Inv (v.held) i h k e }

  -- The message is in the ring, and counted.
  send-Valid :
      (message : ℕ) (s : System)
      → s.channel.high + 1 < 2 ^ 64
      → Valid n s
      → s.pc i ≡ inside (sending message)
      → Valid n (send message s i)
  unfolding send
  send-Valid message s b v e =
      elim (Bool-cases (ltb (sub64 s.channel.high s.channel.low) (size s.channel))) [
        | inl t ↦
            rw (t, mod-eq_of_lt b)
              (wake-Valid s.channel.waiters _ refl
                (record {
                  fifo = send-Fifo (v.fifo) message (
                      send-room (v.fifo) (omega (arith, b))
                        (ltb→lt (sub64 s.channel.high s.channel.low) (size s.channel) t));
                  held = v.held;
                })
                (ap holds e) (ap waits e))
        | inr t ↦ rw t (wait-Valid (sending message) s v e)
      ]

  receive-Valid :
      (s : System)
      → s.channel.high < 2 ^ 64
      → Valid n s
      → s.pc i ≡ inside receiving
      → Valid n (receive s i)
  unfolding receive
  receive-Valid s b v e = elim (Bool-cases (ltb s.channel.low s.channel.high)) [
    | inl t ↦
        rw
          (
            t,
            mod-eq_of_lt {n = s.channel.low + 1} {m = 2 ^ 64}
                (omega (arith, b, ltb→lt s.channel.low s.channel.high t)),
          )
          (wake-Valid s.channel.waiters _ refl
            (record {
              fifo = receive-Fifo (v.fifo) (ltb→lt s.channel.low s.channel.high t);
              held = v.held;
            })
            (ap holds e) (ap waits e))
    | inr t ↦ rw t (wait-Valid receiving s v e)
  ]

  move-Valid :
      (s : System) (p : Pc) (b : Bool)
      → Valid n s
      → waits (s.pc i) ≡ 0
      → waits p ≡ 0
      → holds (s.pc i) + (if b then 1 else 0) ≡ holds p + (if s.channel.lock then 1 else 0)
      → Valid n
          (let c = s.channel in record s { channel = record c { lock = b }; pc = update s.pc i p })
  move-Valid s p b v z z' e = record { fifo = v.fifo; held = move-Inv (v.held) i h p b z z' e }

  lock-Valid :
      (k : Call) (s : System) (b : Bool)
      → s.channel.lock ≡ b
      → Valid n s
      → s.pc i ≡ locking k
      → Valid n (if b then s else locked true (moved s i (inside k)))
  lock-Valid k s true q v e = v
  lock-Valid k s false q v e =
      move-Valid s (inside k) true v (ap waits e) refl (rw q (omega (arith, ap holds e)))

  act-Valid :
      (a : Action) (p : Pc) (s : System)
      → switches a ≡ true
      → s.channel.high + 1 < 2 ^ 64
      → Valid n s
      → s.pc i ≡ p
      → Valid n (act a p s i)
  unfolding act
  act-Valid refuse p s u b v e = absurd (ground (arith, u))
  act-Valid (call k) away s u b v e =
      move-Valid s (locking k) s.channel.lock v (ap waits e) refl (omega (arith, ap holds e))
  act-Valid go (locking k) s u b v e = lock-Valid k s s.channel.lock refl v e
  act-Valid go (inside (sending message)) s u b v e = send-Valid message s b v e
  act-Valid go (inside receiving) s u b v e = receive-Valid s (omega (arith, b)) v e
  act-Valid go (parking k) s u b v e = record {
    fifo = v.fifo;
    held = park-Inv (v.held) i h k e (holds-lock (v.held) i h (ap holds e));
  }
  act-Valid go unlocking s u b v e =
      move-Valid s away false v (ap waits e) refl
        (rw (holds-lock (v.held) i h (ap holds e)) (omega (arith, ap holds e)))
  act-Valid a p s u b v e = v

wake-high : (ws : List ℕ) (s : System) → (internal_wake ws s).channel.high ≡ s.channel.high
wake-high [] s = refl
wake-high (j ∷ rest) s = refl

-- A step sends at most one message.
module _ (s : System) (i : ℕ) (b : s.channel.high + 1 < 2 ^ 64) where
  send-high : (message : ℕ) → (send message s i).channel.high ≤ s.channel.high + 1
  unfolding send
  send-high message = grind (arith, b, wake-high)

  receive-high : (receive s i).channel.high ≤ s.channel.high + 1
  unfolding receive
  receive-high = grind (arith, b, wake-high)

  act-high : (a : Action) (p : Pc) → (act a p s i).channel.high ≤ s.channel.high + 1
  unfolding act
  act-high (call k) away = omega arith
  act-high go (locking k) = ground arith
  act-high go (inside (sending message)) = send-high message
  act-high go (inside receiving) = receive-high
  act-high go (parking k) = omega arith
  act-high go unlocking = omega arith
  act-high refuse (locking k) = ground arith
  act-high refuse (parking k) = omega arith
  act-high a p = omega arith

run-Valid :
    (n : ℕ) (l : List (ℕ × Action)) (s : System)
    → unrefused l ≡ true
    → s.channel.high + length l < 2 ^ 64
    → Valid n s
    → Valid n (run n l s)
unfolding run
run-Valid n [] s u b v = v
run-Valid n ((i, a) ∷ l) s u b v = elim (dec_lt i n) [
  | yes h ↦ rw (lt→ltb i n h) (
      run-Valid n l (act a (s.pc i) s i) (ground (arith, u))
        (omega (arith, act-high s i (omega arith) a (s.pc i)))
        (act-Valid i h a (s.pc i) s (ground (arith, u)) (omega arith) v refl))
  | no h ↦ rw (ge→ltb i n h) (run-Valid n l s (ground (arith, u)) (omega arith) v)
]

-- A channel as `fiber_multi_channel_create` leaves it, with all fibers away.
pub record Initial (k : ℕ) (s : System) : Type 0 where
  pub fresh : s.channel ≡ create k
  pub alone : (i : ℕ) → s.pc i ≡ away
  pub unsent : s.sent ≡ []
  pub unreceived : s.received ≡ []

Initial-Valid : (n k : ℕ) (s : System) → Initial k s → Valid n s
Initial-Valid n k s z =
    rw (z.fresh, z.unsent, z.unreceived)
      (record {
        fifo = record { order = omega arith; room = omega arith; history = refl };
        held = record {
          one = tally-absent holds away n s.pc refl z.alone;
          waiting = tt;
          distinct = tt;
          counted = tally-absent waits away n s.pc refl z.alone;
        };
      })

module _ (n k : ℕ) (l : List (ℕ × Action)) (s : System) (u : unrefused l ≡ true) (z : Initial k s)
    (b : length l < 2 ^ 64) where
  ran : Valid n (run n l s)
  ran = run-Valid n l s u (omega (arith, ap (λ c. c.high) (z.fresh))) (Initial-Valid n k s z)

  -- In every schedule of fewer than 2^64 steps at a multi channel in which no fiber that waits is refused
  -- the switch away from it, the messages received, and then those in its ring, are those sent, in this
  -- order; and the ring has no more than its size.
  pub multi_received_in_order :
      let t = run n l s in
      (t.sent ≡ t.received ++ contents t.channel) × (length (contents t.channel) ≤ size t.channel)
  multi_received_in_order = (
    (ran.fifo).history,
    omega (
      arith,
      ran.fifo,
      length-slice (array (run n l s).channel) (run n l s).channel.low
          ((run n l s).channel.high - (run n l s).channel.low),
    ),
  )

  -- In every such schedule, while a fiber tests or writes the ring, no other does, and all fibers in the
  -- stack of waiters are asleep with their context saved.
  pub alone_with_sleepers :
      (i j : ℕ) (c d : Call)
      → i < n
      → j < n
      → let t = run n l s in
        t.pc i ≡ inside c
        → ((t.pc j ≡ inside d) → i ≡ j)
          × All (λ w. (e : Call) × (t.pc w ≡ asleep e)) t.channel.waiters
  alone_with_sleepers i j c d hi hj e = (
    (λ f.
        tally-lone holds n i j (run n l s).pc hi hj
          (omega (arith, held.one, ap holds e, ap holds f))),
    sleeping (run n l s).channel.waiters ((ran.held).waiting),
  )
    where
      held : Inv n (run n l s).pc true (run n l s).channel.waiters
      held =
          subst (λ x. Inv n (run n l s).pc x (run n l s).channel.waiters)
            (holds-lock (ran.held) i hi (ap holds e)) (ran.held)

      sleeping :
          (ws : List ℕ)
          → All (Waiting n (run n l s).pc) ws
          → All (λ w. (k : Call) × ((run n l s).pc w ≡ asleep k)) ws
      sleeping [] a = tt
      sleeping (w ∷ ws) a =
          (waiter_asleep held i w hi (ap holds e) (ap waits e) a.0, sleeping ws a.1)
