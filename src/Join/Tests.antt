-- ===== src/Join/Tests.antt =====
-- A fiber that ends with 42, and its caller.
use libfiber.Prelude.{ℕ, ◌≡◌, ◌≢◌, refl, arith, none, some, List, [], ◌∷◌}
use libfiber.Join.{
  refuse, detach_none, the_fiber, running, done, joined, idle, ended, System, Action, fiber_go, go,
  do_join, do_tryjoin, run,
}
use libfiber.Join.Meeting.{Initial, joined_result, rounds, Finished, both-Finished}

abbrev fresh : System
fresh = record {
  detach_state = detach_none;
  join_info = none;
  result = 0;
  own_result = 0;
  fiber_pc = running;
  caller_pc = idle;
}

fresh-Initial : Initial fresh
fresh-Initial = record { state = refl; nobody = refl; alive = refl; calls = refl }

-- The caller waits for the fiber.
abbrev early : List Action
early = do_join ∷ go ∷ go ∷ fiber_go ∷ fiber_go ∷ fiber_go ∷ fiber_go ∷ go ∷ []

early_ends : (run 42 early fresh).caller_pc ≡ ended (joined 42)
unfolding run
early_ends = refl

-- The fiber waits for the caller, whose first tryjoin is too early.
abbrev waiting : List Action
waiting = do_tryjoin ∷ fiber_go ∷ fiber_go ∷ fiber_go ∷ fiber_go ∷ []

waiting_info : (run 42 waiting fresh).join_info ≡ some the_fiber
unfolding run
waiting_info = refl

asked_not_idle : (run 42 (do_join ∷ []) fresh).caller_pc ≢ idle
unfolding run
asked_not_idle = λ e. ground arith

-- The join returns a result that the fiber, which still runs, has not given, when its yield is refused.
refused_joins :
    let t = run 42 (do_join ∷ go ∷ refuse ∷ go ∷ []) fresh in
    (t.caller_pc ≡ ended (joined 0)) × (t.fiber_pc ≡ running)
unfolding run
refused_joins = (refl, refl)

joined_result_example : (◌≡◌ {A = ℕ} 42 42) × ((run 42 early fresh).fiber_pc ≡ done)
joined_result_example = joined_result 42 42 early fresh refl fresh-Initial early_ends

both-Finished_example : Finished (run 42 (rounds 7) (run 42 (do_join ∷ []) fresh))
both-Finished_example = both-Finished 42 (do_join ∷ []) fresh refl fresh-Initial asked_not_idle
