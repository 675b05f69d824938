-- ===== src/Join/Meeting.antt =====
-- Where the fiber and its caller stand against the state that they share, and how they meet.
use libfiber.Prelude.{
  ℕ, zero, suc, ◌≡◌, ◌≢◌, ◌⊎◌, arith, Bool, true, false, Option, none, some, List, [], ◌∷◌,
}
use libfiber.Join.{
  switches, unrefused, DetachState, detach_none, wait_for_joiner, wait_to_join, detached, Who,
  the_fiber, caller, FiberPc, running, stored, exchanging, parking, parked, clearing, done, joined,
  success, CallerPc, idle, joining, trying, sleeping, asleep, woken, releasing, ended, System,
  Action, fiber_go, go, act, run,
}

-- The detach state and the waiting fiber that go with where the two stand.
abbrev early : CallerPc → DetachState → Option Who → Bool
early idle detach_none none = true
early joining detach_none none = true
early sleeping wait_to_join none = true
early asleep wait_to_join (some caller) = true
early (ended success) detached none = true
early _ _ _ = false

abbrev late : CallerPc → DetachState → Bool
late idle wait_for_joiner = true
late joining wait_for_joiner = true
late trying wait_for_joiner = true
late (releasing (joined r)) wait_to_join = true
late (releasing success) detached = true
late _ _ = false

abbrev fits : FiberPc → CallerPc → DetachState → Option Who → Bool
fits running c d j = early c d j
fits stored c d j = early c d j
fits exchanging c d j = early c d j
fits parking c d none = late c d
fits parked c d (some the_fiber) = late c d
fits clearing sleeping wait_for_joiner none = true
fits clearing asleep wait_for_joiner (some caller) = true
fits done woken d none = true
fits done (ended (joined r)) d none = true
fits done (ended success) d none = true
fits _ _ _ _ = false

-- The result is where the step after will look for it.
abbrev Delivers : ℕ → ℕ → CallerPc → Type 0
Delivers v own (releasing (joined r)) = r ≡ v
Delivers v own (ended (joined r)) = r ≡ v
Delivers v own woken = own ≡ v
Delivers v own _ = Unit

abbrev Stored : ℕ → ℕ → FiberPc → Type 0
Stored v r running = Unit
Stored v r _ = r ≡ v

record Inv (v : ℕ) (s : System) : Type 0 where
  fit : fits s.fiber_pc s.caller_pc s.detach_state s.join_info ≡ true
  delivers : Delivers v s.own_result s.caller_pc
  stores : Stored v s.result s.fiber_pc

act-Inv : (v : ℕ) (a : Action) (s : System) → switches a ≡ true → Inv v s → Inv v (act v a s)
unfolding act
act-Inv v a s u i = ground (arith, i, u)

run-Inv : (v : ℕ) (l : List Action) (s : System) → unrefused l ≡ true → Inv v s → Inv v (run v l s)
unfolding run
run-Inv v [] s u i = i
run-Inv v (a ∷ l) s u i =
    run-Inv v l (act v a s) (ground (arith, u)) (act-Inv v a s (ground (arith, u)) i)

-- A fiber that runs, and a caller that has not called yet.
pub record Initial (s : System) : Type 0 where
  pub state : s.detach_state ≡ detach_none
  pub nobody : s.join_info ≡ none
  pub alive : s.fiber_pc ≡ running
  pub calls : s.caller_pc ≡ idle

Initial-Inv : (v : ℕ) (s : System) → Initial s → Inv v s
Initial-Inv v s z = ground (arith, z)

-- In every schedule of a fiber that ends and one caller in which neither is refused the switch away from
-- it when it waits, a join or tryjoin that succeeds stores the fiber's result, and then the fiber is
-- done.
pub joined_result :
    (v r : ℕ) (l : List Action) (s : System)
    → unrefused l ≡ true
    → Initial s
    → (run v l s).caller_pc ≡ ended (joined r)
    → (r ≡ v) × ((run v l s).fiber_pc ≡ done)
joined_result v r l s u z e = ended-result (run v l s) (run-Inv v l s u (Initial-Inv v s z)) e
  where
    ended-result :
        (t : System) → Inv v t → t.caller_pc ≡ ended (joined r) → (r ≡ v) × (t.fiber_pc ≡ done)
    ended-result t i e = ground (arith, i)

-- Who waits with its context saved.
abbrev pub IsAsleep : Who → System → Type 0
IsAsleep the_fiber s = s.fiber_pc ≡ parked
IsAsleep caller s = s.caller_pc ≡ asleep

-- In every schedule in which neither is refused the switch away from it when it waits, a fiber that
-- stands in `join_info`, where it can be woken, sleeps with its context saved.
pub waiting-IsAsleep :
    (v : ℕ) (w : Who) (l : List Action) (s : System)
    → unrefused l ≡ true
    → Initial s
    → (run v l s).join_info ≡ some w
    → IsAsleep w (run v l s)
waiting-IsAsleep v w l s u z e = found w (run v l s) (run-Inv v l s u (Initial-Inv v s z)) e
  where
    found : (w : Who) (t : System) → Inv v t → t.join_info ≡ some w → IsAsleep w t
    found w t i e = ground (arith, i, e)

abbrev pub rounds : ℕ → List Action
rounds zero = []
rounds (suc n) = fiber_go ∷ go ∷ rounds n

abbrev pub Finished : System → Type 0
Finished s =
    (s.fiber_pc ≡ done)
    × ((s.caller_pc ≡ ended success) ⊎ ((r : ℕ) × (s.caller_pc ≡ ended (joined r))))

rounds-Finished :
    (v : ℕ) (t : System) → Inv v t → t.caller_pc ≢ idle → Finished (run v (rounds 7) t)
unfolding run
rounds-Finished v t i c = ground (arith, i, c)

-- Wherever a schedule has led in which neither is refused the switch away from it when it waits, once the
-- caller has begun a join or a detach, or a tryjoin that has seen the fiber wait, seven more steps of
-- each bring both to their end, with success.
pub both-Finished :
    (v : ℕ) (l : List Action) (s : System)
    → unrefused l ≡ true
    → Initial s
    → (run v l s).caller_pc ≢ idle
    → Finished (run v (rounds 7) (run v l s))
both-Finished v l s u z c = rounds-Finished v (run v l s) (run-Inv v l s u (Initial-Inv v s z)) c
