-- ===== src/Deque/Tests.antt =====
-- Runs of the deque, and its theorems at concrete inputs.
use libfiber.Prelude.{ℕ, ◌≡◌, refl, arith, true, false, some, [], ◌∷◌, ◌++◌}
use libfiber.Deque.{Deque, create_deque, item, abort, empty, push_bottom, pop_bottom, steal}
use libfiber.Deque.Contents.{IsValid, contents, push_bottom-contents}
use libfiber.Deque.Taking.{Taking, pop_bottom-contents, steal-contents}

abbrev no_cells : ℕ → ℕ
no_cells i = 0

-- One element, in an array of two cells that has to grow for the next.
abbrev one : Deque
one = record { top = 5; bottom = 6; underlying_array = record { log_size = 1; cell = λ i. 7 } }

one-IsValid : IsValid one
one-IsValid = omega arith

push_bottom-contents_example :
    (e : Deque) × (push_bottom true no_cells one 8 ≡ some e)
    × IsValid e
    × (contents e ≡ contents one ++ (8 ∷ []))
push_bottom-contents_example = push_bottom-contents no_cells one 8 one-IsValid (omega arith)

pop_bottom-contents_example :
    Taking true one (pop_bottom true one) (λ p rest. contents one ≡ rest ++ (p ∷ []))
pop_bottom-contents_example = pop_bottom-contents true one one-IsValid

steal-contents_example : Taking false one (steal false one) (λ p rest. contents one ≡ p ∷ rest)
steal-contents_example = steal-contents false one one-IsValid

pop_takes : (pop_bottom true one).1 ≡ item 7
unfolding pop_bottom
pop_takes = refl

steal_aborts : (steal false one).1 ≡ abort
unfolding steal
steal_aborts = refl

fresh_empty : (pop_bottom true (create_deque no_cells)).1 ≡ empty
unfolding pop_bottom
fresh_empty = refl
