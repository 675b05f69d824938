-- ===== src/Join.antt =====
-- src/fiber.c: how a fiber that ends and the fiber that joins or detaches it meet, interleaved at
-- their atomic steps.
pub mod Meeting
mod Tests
use libfiber.Prelude.{every, ℕ, Bool, true, false, if◌then◌else◌, Option, none, some, List, [], ◌∷◌}

-- The FIBER_DETACH_ constants.
pub data DetachState : Type 0 where
  detach_none wait_for_joiner wait_to_join detached : DetachState

-- The two fibers: the one that ends, and the one that calls `fiber_join`, `fiber_tryjoin` or
-- `fiber_detach` on it.
pub data Who : Type 0 where
  the_fiber caller : Who

-- The fiber runs; it has stored its result; it has seen that it is not detached; it is on its way to
-- sleep, or asleep, in `fiber_manager_set_and_wait`; it is in `fiber_manager_clear_or_wait`; or done.
pub data FiberPc : Type 0 where
  running stored exchanging parking parked clearing done : FiberPc

-- What the last call of the caller returned, with what a join stored through its argument.
pub data Returned : Type 0 where
  joined : ℕ → Returned
  success error : Returned

-- The caller is between calls; it has checked for DETACHED, in a join or in a tryjoin; it is on its way
-- to sleep, or asleep; it has been woken; it is in `fiber_manager_clear_or_wait`, with what it returns
-- then; or it has had an answer and calls no more.
pub data CallerPc : Type 0 where
  idle joining trying sleeping asleep woken : CallerPc
  releasing ended : Returned → CallerPc

-- `result` is the field of the fiber, `own_result` that of the caller.
pub record System : Type 0 where
  pub detach_state : DetachState
  pub join_info : Option Who
  pub result : ℕ
  pub own_result : ℕ
  pub fiber_pc : FiberPc
  pub caller_pc : CallerPc

-- The fiber that was waiting is made ready, and goes on.
abbrev pub wake : Who → System → System
wake the_fiber s = record s { fiber_pc = done }
wake caller s = record s { caller_pc = woken }

-- A round of the loop of `fiber_manager_clear_or_wait`; `after` is what is done once it has got a fiber.
abbrev pub clear_or_wait : (Who → System → System) → System → System
clear_or_wait after s = elim (s.join_info) [
  | none ↦ s
  | some w ↦ after w (record s { join_info = none })
]

-- `fiber_mark_completed`, after its exchange, which returned the old state.
abbrev pub completed : DetachState → System → System
completed detach_none s = record s { detach_state = wait_for_joiner; fiber_pc = parking }
completed wait_to_join s = record s { detach_state = wait_for_joiner; fiber_pc = clearing }
completed _ s = record s { detach_state = wait_for_joiner; fiber_pc = done }

abbrev pub hand_result : Who → System → System
hand_result caller s = wake caller (record s { own_result = s.result; fiber_pc = done })
hand_result the_fiber s = wake the_fiber (record s { fiber_pc = done })

-- A step of the fiber, which ends with `result`.
unfoldable pub mark_completed : ℕ → FiberPc → System → System
mark_completed result running s = record s { result = result; fiber_pc = stored }
mark_completed result stored s = elim (s.detach_state) [
  | detached ↦ record s { fiber_pc = done }
  | _ ↦ record s { fiber_pc = exchanging }
]
mark_completed result exchanging s = completed s.detach_state s
mark_completed result parking s = record s { join_info = some the_fiber; fiber_pc = parked }
mark_completed result clearing s = clear_or_wait hand_result s
mark_completed result parked s = s
mark_completed result done s = s

pub data Action : Type 0 where
  fiber_go go do_join do_tryjoin do_detach refuse fiber_refuse : Action

-- Whether a fiber that waits is switched away from. If not, `fiber_manager_yield` has returned to it at once,
-- since the manager was given a fiber to run and refused to run it.
abbrev pub switches : Action → Bool
switches refuse = false
switches fiber_refuse = false
switches a = true

abbrev pub unrefused : List Action → Bool
unrefused l = every switches l

-- `fiber_join` after its exchange.
abbrev pub join : DetachState → System → System
join detach_none s = record s { detach_state = wait_to_join; caller_pc = sleeping }
join wait_for_joiner s = record s {
  detach_state = wait_to_join;
  caller_pc = releasing (joined s.result);
}
join _ s = record s { detach_state = wait_to_join; caller_pc = ended error }

-- `fiber_tryjoin` after its exchange.
abbrev pub tryjoin : DetachState → System → System
tryjoin wait_for_joiner s = record s {
  detach_state = wait_to_join;
  caller_pc = releasing (joined s.result);
}
tryjoin _ s = record s { detach_state = wait_to_join; caller_pc = idle }

-- `fiber_detach`.
abbrev pub detach : DetachState → System → System
detach detach_none s = record s { detach_state = detached; caller_pc = ended success }
detach detached s = record s { detach_state = detached; caller_pc = ended error }
detach _ s = record s { detach_state = detached; caller_pc = releasing success }

abbrev pub release : Returned → Who → System → System
release r w s = wake w (record s { caller_pc = ended r })

-- A step of the caller. A tryjoin that returns an error can be tried again.
unfoldable pub call : Action → CallerPc → System → System
call do_join idle s = elim (s.detach_state) [
  | detached ↦ record s { caller_pc = ended error }
  | _ ↦ record s { caller_pc = joining }
]
call do_tryjoin idle s = elim (s.detach_state) [
  | wait_for_joiner ↦ record s { caller_pc = trying }
  | _ ↦ s
]
call do_detach idle s = detach s.detach_state s
call go joining s = join s.detach_state s
call go trying s = tryjoin s.detach_state s
call go sleeping s = record s { join_info = some caller; caller_pc = asleep }
call go woken s = record s { own_result = 0; caller_pc = ended (joined s.own_result) }
call go (releasing r) s = clear_or_wait (release r) s
-- The yield of the wait returns at once, and the store to `join_info` is left to the manager.
call refuse sleeping s = record s { caller_pc = woken }
call a p s = s

-- The same for the wait of the fiber that ends.
abbrev pub fiber_refused : FiberPc → System → System
fiber_refused parking s = record s { fiber_pc = done }
fiber_refused p s = s

unfoldable pub act : ℕ → Action → System → System
unfolding mark_completed call
act result fiber_go s = mark_completed result s.fiber_pc s
act result fiber_refuse s = fiber_refused s.fiber_pc s
act result a s = call a s.caller_pc s

-- A schedule of the two.
unfoldable pub run : ℕ → List Action → System → System
unfolding act
run result [] s = s
run result (a ∷ l) s = run result l (act result a s)
