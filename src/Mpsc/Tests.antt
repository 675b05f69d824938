-- ===== src/Mpsc/Tests.antt =====
-- Runs of the FIFO, and its theorems at concrete inputs.
use libfiber.Prelude.{ℕ, ◌≡◌, refl, arith, some, List, [], ◌∷◌, ◌++◌, ◌==◌, ◌||◌}
use libfiber.Prelude.{if◌then◌else◌, ◌*◌, ◌-◌}
use libfiber.Mpsc.{Fifo, destroy}
use libfiber.Mpsc.Chain.{idle}
use libfiber.Mpsc.Threads.{System, Action, start, finish, pop, run}
use libfiber.Mpsc.Order.{Initial, pops, popped_in_order, all_popped}
use libfiber.Mpsc.Sequence.{Quiet}

abbrev empty : Fifo
empty = record { head = 1; tail = 1; next = λ n. 0; value = λ n. 0 }

-- Clients own the nodes 2, 3 and 4.
abbrev fresh : System
fresh = record {
  fifo = empty;
  pc = λ i. idle;
  owned = λ n. n == 2 || (n == 3 || n == 4);
  pushed = [];
  popped = [];
}

-- Two producers overlap; the second links before the first does.
abbrev overlap : List Action
overlap = start 0 2 10 ∷ start 1 3 20 ∷ finish 1 ∷ pop ∷ finish 0 ∷ pop ∷ []

fresh-Initial : Initial fresh
fresh-Initial = ground arith

overlap_pops : (run overlap fresh).popped ≡ 10 ∷ []
unfolding run
overlap_pops = refl

overlap_idle : (i : ℕ) → (run overlap fresh).pc i ≡ idle
unfolding run
overlap_idle i = ground arith

popped_in_order_example :
    (rest : List ℕ) × ((run overlap fresh).pushed ≡ (run overlap fresh).popped ++ rest)
popped_in_order_example = popped_in_order overlap fresh-Initial

all_popped_example :
    (k : ℕ) × ((run (pops k) (run overlap fresh)).popped ≡ (run overlap fresh).pushed)
all_popped_example = all_popped overlap fresh-Initial overlap_idle

-- Nodes 2 and 3 with the values 10 and 20 behind the dummy 1; node 4 is the caller's.
abbrev two : Fifo
two = record {
  head = 1;
  tail = 3;
  next = λ n. (if n == 1 then 2 else if n == 2 then 3 else 0);
  value = λ n. n * 10 - 10;
}

two-Quiet : Quiet two (2 ∷ 3 ∷ [])
two-Quiet = ground arith

destroy_runs : destroy 4 two ≡ some (1 ∷ 2 ∷ 3 ∷ [])
unfolding destroy
destroy_runs = refl
