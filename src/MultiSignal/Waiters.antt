-- ===== src/MultiSignal/Waiters.antt =====
-- Every schedule at a multi signal.
use libfiber.Prelude.{
  Member, ℕ, ◌+◌, ◌^◌, ◌≤◌, ◌<◌, ◌≡◌, ◌⊎◌, inl, inr, refl, ap, sym, subst, arith, true, false,
  dec_lt, lt→ltb, ge→ltb, Option, none, some, List, [], ◌∷◌, length, Distinct,
}
use libfiber.MultiSignal.{
  unrefused, Head, null, flag, node, Signal, Pc, away, wait_counter, wait_take, wait_swap, parking,
  parked, raise_counter, raise_flag, raise_swap, spinning, Event, accepted, raised, slept, popped,
  System, Action, go, exchange, after_exchange, act, run,
}
use libfiber.MultiSignal.Replay.{State, is_raised, waiters, members, Linked, replay, Stands}
use libfiber.MultiSignal.Stages.{Knows, Marked, sleeps, wakes, Holds}
use libfiber.MultiSignal.Turns.{Good, act-Good}

exchange-counter :
    (f g : Signal) (c : ℕ) (h x : Head) → exchange f c h x ≡ some g → g.counter ≤ f.counter + 1
unfolding exchange
exchange-counter f g c h x e = ground (arith, e)

after_exchange-counter :
    (o : Option Signal) (e : Event) (done again : Pc) (s : System) (i : ℕ)
    → ((g : Signal) → o ≡ some g → g.counter ≤ s.signal.counter + 1)
    → (after_exchange o e done again s i).signal.counter ≤ s.signal.counter + 1
after_exchange-counter none e done again s i h = omega arith
after_exchange-counter (some g) e done again s i h = h g refl

-- A step makes at most one exchange.
act-counter :
    (d : Action) (p : Pc) (s : System) (i : ℕ) → (act d p s i).signal.counter ≤ s.signal.counter + 1
unfolding act
act-counter go (wait_take c) s i =
    after_exchange-counter _ accepted away wait_counter s i
      (λ g. exchange-counter s.signal g c flag null)
act-counter go (wait_swap c h) s i =
    after_exchange-counter _ (slept i) parking wait_counter s i
      (λ g. exchange-counter s.signal g c h (node i))
act-counter go (raise_flag c h) s i =
    after_exchange-counter _ raised away (raise_counter false) s i
      (λ g. exchange-counter s.signal g c h flag)
act-counter go (raise_swap b c j x) s i =
    after_exchange-counter _ (popped j) (spinning j) (raise_counter b) s i
      (λ g. exchange-counter s.signal g c (node j) x)
act-counter go (spinning j) s i = ground arith
act-counter d p s i = ground arith

run-Good :
    (n : ℕ) (l : List (ℕ × Action)) (s : System) (a : State)
    → unrefused l ≡ true
    → s.signal.counter + length l < 2 ^ 64
    → Holds s a
    → Good (run n l s)
unfolding run
run-Good n [] s a u b v = (a, v)
run-Good n ((i, d) ∷ l) s a u b v = elim (dec_lt i n) [
  | yes h ↦
      let (a', w) = act-Good v i (omega arith) d (s.pc i) (ground (arith, u)) refl in
      rw (lt→ltb i n h) (
        run-Good n l (act d (s.pc i) s i) a' (ground (arith, u))
          (omega (arith, act-counter d (s.pc i) s i)) w)
  | no h ↦ rw (ge→ltb i n h) (run-Good n l s a (ground (arith, u)) (omega arith) v)
]

-- A signal as `fiber_multi_signal_init` leaves it, with all fibers away.
pub record Initial (s : System) : Type 0 where
  pub fresh : (s.signal.head ≡ null) × (s.signal.counter ≡ 0)
  pub alone : (i : ℕ) → s.pc i ≡ away
  pub unused : s.log ≡ []

Initial-Holds : (s : System) → Initial s → Holds s (waiters [])
unfolding replay
Initial-Holds s z = record {
  stands = z.fresh.0;
  distinct = tt;
  told = ap replay (z.unused);
  sleeping = λ j m. elim m [ ];
  found = λ j e. absurd (omega (arith, ap sleeps (z.alone j), e));
  woken = λ k j y. ground (arith, ap wakes (z.alone k), y);
  alone = λ i k j y x. ground (arith, ap wakes (z.alone i), y);
  marked = λ i. subst (Marked (s.scratch i)) (sym (z.alone i)) tt;
  knows = λ i. subst (Knows s.signal [] i) (sym (z.alone i)) tt;
}

linked-Member :
    (next : ℕ → Head) (h : Head) (i : ℕ) (a : State)
    → Stands next h a
    → Member i (members a)
    → (ws : List ℕ) × Linked next h ws × Member i ws
linked-Member next h i is_raised l m = elim m [ ]
linked-Member next h i (waiters ws) l m = (ws, l, m)

wakes-spinning : (p : Pc) (j : ℕ) → wakes p ≡ some j → p ≡ spinning j
wakes-spinning p j e = ground (arith, e)

sleeps-parked : (p : Pc) → sleeps p ≡ 1 → Marked true p → p ≡ parked
sleeps-parked p e m = ground (arith, e, m)

module _ (n : ℕ) (l : List (ℕ × Action)) (s : System) (u : unrefused l ≡ true) (z : Initial s)
    (b : length l < 2 ^ 64) where
  ran : Good (run n l s)
  ran = run-Good n l s (waiters []) u (omega (arith, z.fresh.1)) (Initial-Holds s z)

  -- In every schedule of fewer than 2^64 steps at a multi signal in which no fiber that waits is refused
  -- the switch away from it, the waits and raises are in the order of their exchanges what a signal
  -- allows that is raised or has a stack of waiting fibers, and its word and the nodes stand for the
  -- state that it then has.
  pub signal_replayed :
      let t = run n l s in
      (a : State) × (replay t.log ≡ some a)
      × Stands t.signal.next t.signal.head a
      × Distinct (members a)
  signal_replayed = let (a, v) = ran in (a, v.told, v.stands, v.distinct)

  -- In every schedule of fewer than 2^64 steps at a multi signal in which no fiber that waits is refused
  -- the switch away from it, a fiber that is asleep, or on its way to sleep, is one of those linked from
  -- the word of the multi signal, or a raiser has popped it and waits to schedule it.
  pub sleeper_found :
      (i : ℕ)
      → let t = run n l s in
        sleeps (t.pc i) ≡ 1
        → ((ws : List ℕ) × Linked t.signal.next t.signal.head ws × Member i ws)
          ⊎ ((k : ℕ) × (t.pc k ≡ spinning i))
  sleeper_found i e =
      let (a, v) = ran in
      elim (v.found i e) [
        | inl m ↦
            inl (linked-Member (run n l s).signal.next (run n l s).signal.head i a (v.stands) m)
        | inr (k, y) ↦ inr (k, wakes-spinning ((run n l s).pc k) i y)
      ]

  -- In every such schedule, when a raiser sees that the fiber it has popped can be woken, that fiber has
  -- switched away, and no other raiser has popped it too.
  pub woken_parked :
      (k m j : ℕ)
      → let t = run n l s in
        t.pc k ≡ spinning j → (t.scratch j ≡ true → t.pc j ≡ parked) × (t.pc m ≡ spinning j → k ≡ m)
  woken_parked k m j e =
      let (a, v) = ran in
      (
        (λ y.
            sleeps-parked ((run n l s).pc j) (v.woken k j (ap wakes e))
              (subst (λ x. Marked x ((run n l s).pc j)) y (v.marked j))),
        (λ f. v.alone k m j (ap wakes e) (ap wakes f)),
      )
