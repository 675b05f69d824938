-- ===== src/WorkQueue/Tests.antt =====
-- Two threads that push, of which the first becomes the worker.
use libfiber.Prelude.{ℕ, ◌<◌, ◌≡◌, ◌≢◌, refl, arith, List, [], ◌∷◌}
use libfiber.WorkQueue.{init, away, System, Action, do_push, go, run}
use libfiber.WorkQueue.Worker.{works, Initial, item_has_worker}

abbrev fresh : System
fresh = record { wq = init; pc = λ i. away }

fresh-Initial : Initial fresh
fresh-Initial = record { fresh = refl; alone = λ i. refl }

-- Thread 1 counts its item while thread 0 is about to push its own.
abbrev both : List (ℕ × Action)
both = (0, do_push 7) ∷ (1, do_push 8) ∷ (1, go) ∷ (0, go) ∷ []

-- Thread 0 takes both items, finds the counts equal, and is told that the queue is empty.
abbrev drained : List (ℕ × Action)
drained =
    (0, do_push 7)
    ∷ (1, do_push 8)
    ∷ (1, go)
    ∷ (0, go)
    ∷ (0, go)
    ∷ (0, go)
    ∷ (0, go)
    ∷ (0, go)
    ∷ (0, go)
    ∷ []

drained_away : ((run 2 drained fresh).pc 0 ≡ away) × ((run 2 drained fresh).wq ≡ init)
unfolding run
drained_away = (refl, refl)

both-works : works ((run 2 both fresh).pc 0) ≡ 1
unfolding run
both-works = refl

both_items : (run 2 both fresh).wq.fifo ≢ []
unfolding run
both_items = λ e. ground arith

item_has_worker_example : (j : ℕ) × (j < 2) × (0 < works ((run 2 both fresh).pc j))
item_has_worker_example = item_has_worker 2 both fresh fresh-Initial (omega arith) both_items
