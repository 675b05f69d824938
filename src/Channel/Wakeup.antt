-- ===== src/Channel/Wakeup.antt =====
-- Every schedule at a channel with a signal.
use libfiber.Prelude.{
  ℕ, ◌<◌, ◌≡◌, ◌≢◌, ◌⊎◌, inl, inr, refl, sym, arith, Bool, true, false, List, [], ◌∷◌, ◌++◌,
  append_assoc, ap, ◌∙◌, subst, Bool-cases, dec_lt, lt→ltb, ge→ltb,
}
use libfiber.Population.{tally, tally-update, tally-some, tally-absent, weight-le-tally}
use libfiber.Signal.{Word, no_waiter, waiting}
use libfiber.Channel.{
  refused, switches, unrefused, refuse, SenderPc, away, raising, clearing, spinning, ReceiverPc,
  outside, trying, arming, parking, parked, waking, resetting, System, Action, do_send, go, send,
  trypop, receive, Turn, of_sender, of_receiver, act, run,
}

-- Senders that will still raise the signal.
abbrev pub raises : SenderPc → ℕ
raises raising = 1
raises _ = 0

-- Senders that have the receiver to wake.
abbrev pub wakes : SenderPc → ℕ
wakes clearing = 1
wakes spinning = 1
wakes _ = 0

-- What holds between the word, the receiver, the queue, and the numbers of senders that raise and that wake.
abbrev Guarded : Word → ReceiverPc → List ℕ → ℕ → ℕ → Type 0
Guarded waiting parking q r w = (w ≡ 0) × ((q ≡ []) ⊎ (0 < r))
Guarded waiting parked q r w = (w ≡ 0) × ((q ≡ []) ⊎ (0 < r))
Guarded waiting _ q r w = ⊥
Guarded _ parking q r w = w ≡ 1
Guarded _ parked q r w = w ≡ 1
Guarded no_waiter arming q r w = (w ≡ 0) × ((q ≡ []) ⊎ (0 < r))
Guarded _ _ q r w = w ≡ 0

abbrev Marked : ReceiverPc → Bool → Type 0
Marked parked b = b ≡ true
Marked parking b = b ≡ false
Marked arming b = b ≡ false
Marked _ b = Unit

record Inv (n : ℕ) (s : System) : Type 0 where
  guarded :
      Guarded s.signal.waiter s.receiver s.queue (tally raises n s.sender) (tally wakes n s.sender)
  marked : Marked s.receiver s.signal.scratch

abbrev Ordered : System → Type 0
Ordered s = s.received ++ s.queue ≡ s.sent

receive-Inv : (n : ℕ) (s : System) → Inv n s → Inv n (receive s.receiver s)
unfolding receive
receive-Inv n s i = ground (arith, i)

module _ (n i : ℕ) (s : System) (h : i < n) (v : Inv n s) where
  push-Inv : (m : ℕ) → s.sender i ≡ away → Inv n (send (do_send m) away s i)
  unfolding send
  push-Inv m e = ground (
    arith,
    v,
    tally-update raises n i s.sender raising h,
    tally-update wakes n i s.sender raising h,
    e,
  )

  raise-Inv : s.sender i ≡ raising → Inv n (send go raising s i)
  unfolding send
  raise-Inv e = ground (
    arith,
    v,
    e,
    tally-update raises n i s.sender clearing h,
    tally-update wakes n i s.sender clearing h,
    tally-update raises n i s.sender away h,
    tally-update wakes n i s.sender away h,
  )

  clear-Inv : s.sender i ≡ clearing → Inv n (send go clearing s i)
  unfolding send
  clear-Inv e = ground (
    arith,
    v,
    e,
    tally-update raises n i s.sender spinning h,
    tally-update wakes n i s.sender spinning h,
    weight-le-tally wakes n i s.sender h,
  )

  wake-Inv : s.sender i ≡ spinning → Inv n (send go spinning s i)
  unfolding send
  wake-Inv e = ground (
    arith,
    v,
    e,
    tally-update raises n i s.sender away h,
    tally-update wakes n i s.sender away h,
    weight-le-tally wakes n i s.sender h,
  )

  send-Inv : (a : Action) (p : SenderPc) → s.sender i ≡ p → Inv n (send a p s i)
  unfolding send
  send-Inv (do_send m) away e = push-Inv m e
  send-Inv (do_send m) raising e = v
  send-Inv (do_send m) clearing e = v
  send-Inv (do_send m) spinning e = v
  send-Inv go away e = v
  send-Inv go raising e = raise-Inv e
  send-Inv go clearing e = clear-Inv e
  send-Inv go spinning e = wake-Inv e

pop-Ordered :
    (q : List ℕ) (s : System) → s.queue ≡ q → s.received ++ q ≡ s.sent → Ordered (trypop q s)
pop-Ordered [] s e o = subst (λ x. s.received ++ x ≡ s.sent) (sym e) o
pop-Ordered (m ∷ q) s e o = append_assoc s.received (m ∷ []) q ∙ o

receive-Ordered : (p : ReceiverPc) (s : System) → Ordered s → Ordered (receive p s)
unfolding receive
receive-Ordered trying s o = pop-Ordered s.queue s refl o
receive-Ordered outside s o = o
receive-Ordered arming s o = o
receive-Ordered parking s o = o
receive-Ordered parked s o = o
receive-Ordered waking s o = o
receive-Ordered resetting s o = o

send-Ordered : (a : Action) (p : SenderPc) (s : System) (i : ℕ) → Ordered s → Ordered (send a p s i)
unfolding send
send-Ordered (do_send m) away s i o =
    sym (append_assoc s.received s.queue (m ∷ [])) ∙ ap (λ x. x ++ (m ∷ [])) o
send-Ordered (do_send m) raising s i o = o
send-Ordered (do_send m) clearing s i o = o
send-Ordered (do_send m) spinning s i o = o
send-Ordered go away s i o = o
send-Ordered go raising s i o = o
send-Ordered go clearing s i o = o
send-Ordered go spinning s i o = elim (Bool-cases s.signal.scratch) [
  | inl e ↦ rw e o
  | inr e ↦ rw e o
]

act-Inv : (n : ℕ) (t : Turn) (s : System) → switches t ≡ true → Inv n s → Inv n (act n t s)
unfolding act
act-Inv n refused s u v = absurd (ground (arith, u))
act-Inv n (of_sender i a) s u v = elim (dec_lt i n) [
  | yes h ↦ rw (lt→ltb i n h) (send-Inv n i s h v a (s.sender i) refl)
  | no h ↦ rw (ge→ltb i n h) v
]
act-Inv n of_receiver s u v = receive-Inv n s v

act-Ordered : (n : ℕ) (t : Turn) (s : System) → Ordered s → Ordered (act n t s)
unfolding act
act-Ordered n (of_sender i a) s o = elim (dec_lt i n) [
  | yes h ↦ rw (lt→ltb i n h) (send-Ordered a (s.sender i) s i o)
  | no h ↦ rw (ge→ltb i n h) o
]
act-Ordered n of_receiver s o = receive-Ordered s.receiver s o
act-Ordered n refused s o = refuse-Ordered s.receiver
  where
    refuse-Ordered : (p : ReceiverPc) → Ordered (refuse p s)
    refuse-Ordered p = ground (arith, o)

run-Inv : (n : ℕ) (l : List Turn) (s : System) → unrefused l ≡ true → Inv n s → Inv n (run n l s)
unfolding run
run-Inv n [] s u v = v
run-Inv n (t ∷ l) s u v =
    run-Inv n l (act n t s) (ground (arith, u)) (act-Inv n t s (ground (arith, u)) v)

run-Ordered : (n : ℕ) (l : List Turn) (s : System) → Ordered s → Ordered (run n l s)
unfolding run
run-Ordered n [] s o = o
run-Ordered n (t ∷ l) s o = run-Ordered n l (act n t s) (act-Ordered n t s o)

-- A channel that is empty and signal that is not raised, before any call.
pub record Initial (s : System) : Type 0 where
  pub lowered : s.signal.waiter ≡ no_waiter
  pub empty : s.queue ≡ []
  pub unsent : s.sent ≡ []
  pub unreceived : s.received ≡ []
  pub alone : s.receiver ≡ outside
  pub quiet : (i : ℕ) → s.sender i ≡ away

Initial-Inv : (n : ℕ) (s : System) → Initial s → Inv n s
Initial-Inv n s z = ground (
  arith,
  z,
  tally-absent raises away n s.sender refl (z.quiet),
  tally-absent wakes away n s.sender refl (z.quiet),
)

-- In every schedule, what was received and what is still in the queue are the messages in the order in
-- which they were sent.
pub received_in_order :
    (n : ℕ) (l : List Turn) (s : System)
    → Initial s
    → (run n l s).received ++ (run n l s).queue ≡ (run n l s).sent
received_in_order n l s z = run-Ordered n l s (ground (arith, z))

abbrev pub Sleeps : ReceiverPc → Type 0
Sleeps p = (p ≡ parking) ⊎ (p ≡ parked)

-- A sender that will raise the signal, or that has the receiver to wake.
abbrev pub Rouses : SenderPc → Type 0
Rouses p = (p ≡ raising) ⊎ ((p ≡ clearing) ⊎ (p ≡ spinning))

-- In every schedule of the unbounded channel with a signal in which the receiver is not refused the
-- switch away from it when it waits, while the receiver sleeps and a message is in the queue, some sender
-- will raise the signal or has the receiver to wake: no wakeup is lost.
pub sleeping-Rouses :
    (n : ℕ) (l : List Turn) (s : System)
    → unrefused l ≡ true
    → Initial s
    → Sleeps (run n l s).receiver
    → (run n l s).queue ≢ []
    → (j : ℕ) × (j < n) × Rouses ((run n l s).sender j)
sleeping-Rouses n l s u z p q = found (run n l s) (run-Inv n l s u (Initial-Inv n s z)) p q
  where
    rouser : (p : SenderPc) → (0 < raises p) ⊎ (0 < wakes p) → Rouses p
    rouser p h = ground (arith, h)

    counted :
        (t : System)
        → Inv n t
        → Sleeps t.receiver
        → t.queue ≢ []
        → (0 < tally raises n t.sender) ⊎ (0 < tally wakes n t.sender)
    counted t v p q = ground (arith, v, p, q)

    found :
        (t : System)
        → Inv n t
        → Sleeps t.receiver
        → t.queue ≢ []
        → (j : ℕ) × (j < n) × Rouses (t.sender j)
    found t v p q = elim (counted t v p q) [
      | inl h ↦
          let (j, lt, w) = tally-some raises n t.sender h in (j, lt, rouser (t.sender j) (inl w))
      | inr h ↦
          let (j, lt, w) = tally-some wakes n t.sender h in (j, lt, rouser (t.sender j) (inr w))
    ]

-- In every schedule in which the receiver is not refused the switch away from it when it waits, a sender
-- that is about to wake the receiver finds it asleep with its context saved.
pub woken_asleep :
    (n i : ℕ) (l : List Turn) (s : System)
    → unrefused l ≡ true
    → Initial s
    → i < n
    → (run n l s).sender i ≡ spinning
    → (run n l s).signal.scratch ≡ true
    → (run n l s).receiver ≡ parked
woken_asleep n i l s u z h e m = asleep (run n l s) (run-Inv n l s u (Initial-Inv n s z)) e m
  where
    asleep :
        (t : System)
        → Inv n t
        → t.sender i ≡ spinning
        → t.signal.scratch ≡ true
        → t.receiver ≡ parked
    asleep t v e m = ground (arith, v, e, m, weight-le-tally wakes n i t.sender h)
