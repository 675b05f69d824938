-- ===== src/Lifo/Tests.antt =====
-- Three threads and two nodes.
use libfiber.Prelude.{ℕ, ◌≡◌, refl, arith, true, some, List, [], ◌∷◌, ◌++◌, NotIn, Distinct}
use libfiber.Lifo.{
  init, away, pop_counter, pushed, popped, System, Action, do_push, do_pop, go, run,
}
use libfiber.Lifo.Linked.{Linked, replay}
use libfiber.Lifo.Order.{Initial, replayed}

abbrev fresh : System
fresh = record { lifo = init (λ n. 0); pc = λ i. away; owned = λ n. true; log = [] }

fresh-Initial : Initial fresh
fresh-Initial = record { empty = (refl, refl); alone = λ i. refl; unused = refl }

abbrev pushes : ℕ → ℕ → List (ℕ × Action)
pushes i n = (i, do_push n) ∷ (i, go) ∷ (i, go) ∷ (i, go) ∷ (i, go) ∷ []

abbrev pops : ℕ → List (ℕ × Action)
pops i = (i, do_pop) ∷ (i, go) ∷ (i, go) ∷ (i, go) ∷ (i, go) ∷ []

-- While thread 0 stands before the exchange of its pop, with node 8 as the head and 7 below it, thread 1
-- pops both and pushes 8 again.
abbrev comes_back : List (ℕ × Action)
comes_back =
    pushes 1 7
    ++ (pushes 1 8
        ++ (((0, do_pop) ∷ (0, go) ∷ (0, go) ∷ (0, go) ∷ [])
            ++ (pops 1 ++ (pops 1 ++ (pushes 1 8 ++ ((0, go) ∷ []))))))

-- The exchange fails though the head is node 8 again: node 7 belongs to a client.
counter_notices :
    let t = run 2 comes_back fresh in
    (t.pc 0 ≡ pop_counter)
    × ((t.lifo.head ≡ 8) × (t.log ≡ pushed 8 ∷ popped 7 ∷ popped 8 ∷ pushed 8 ∷ pushed 7 ∷ []))
unfolding run
counter_notices = (refl, (refl, refl))

replayed_example :
    let t = run 2 comes_back fresh in
    (ns : List ℕ) × (replay t.log ≡ some ns)
    × Linked t.lifo.next t.lifo.head ns
    × Distinct ns
    × ((m : ℕ) → t.owned m ≡ true → NotIn m ns)
unfolding run
replayed_example = replayed 2 comes_back fresh fresh-Initial (omega arith)
