-- ===== src/Ring/Tests.antt =====
-- Two threads at a ring of two cells.
use libfiber.Prelude.{ℕ, ◌≡◌, refl, arith, List, [], ◌∷◌, ◌++◌}
use libfiber.Ring.{create, away, System, Action, do_push, do_pop, go, run}
use libfiber.Ring.Order.{Initial, taken_in_order}

abbrev fresh : System
fresh = record { ring = create 1; pc = λ i. away; put = []; taken = []; queue = [] }

fresh-Initial : Initial 1 fresh
fresh-Initial = record {
  fresh = refl;
  alone = λ i. refl;
  unput = refl;
  untaken = refl;
  vacant = refl;
}

abbrev push_of : ℕ → ℕ → List (ℕ × Action)
push_of i v = (i, do_push v) ∷ (i, go) ∷ (i, go) ∷ (i, go) ∷ (i, go) ∷ []

-- Thread 0 puts 7 while thread 1 has loaded the counters for 8, which then fails; 8 is put again, and a
-- third value finds the ring full.
abbrev busy : List (ℕ × Action)
busy =
    ((1, do_push 8) ∷ (1, go) ∷ (1, go) ∷ [])
    ++ (push_of 0 7 ++ ((1, go) ∷ []) ++ push_of 1 8 ++ push_of 0 9)

busy_put : (run 2 busy fresh).put ≡ 7 ∷ 8 ∷ []
unfolding run
busy_put = refl

-- Thread 1 then takes 7 while thread 0 puts a third value, too early, and again.
abbrev taking : List (ℕ × Action)
taking =
    busy
    ++ ((1, do_pop) ∷ (1, go) ∷ (1, go) ∷ (1, go) ∷ [])
    ++ push_of 0 9
    ++ ((1, go) ∷ [])
    ++ push_of 0 9

taking_taken : ((run 2 taking fresh).taken ≡ 7 ∷ []) × ((run 2 taking fresh).put ≡ 7 ∷ 8 ∷ 9 ∷ [])
unfolding run
taking_taken = (refl, refl)

taken_in_order_example :
    (run 2 taking fresh).taken ++ (run 2 taking fresh).queue ≡ (run 2 taking fresh).put
taken_in_order_example = taken_in_order 1 2 taking fresh fresh-Initial (omega arith)
