-- ===== src/Lifo/Linked.antt =====
-- Stacks of nodes that hang together by `next`, and the stack that a log of events tells of.
use libfiber.Prelude.{
  ℕ, ◌≡◌, ◌≢◌, refl, sym, ap, subst, ◌∙◌, arith, ◌==◌, if◌then◌else◌, Option, none, some, List, [],
  ◌∷◌, update, update_ne, NotIn,
}
use libfiber.Lifo.{Event, pushed, popped, found_empty}

-- `head` is the first of the nodes, each `next` names the one below, and the last is NULL.
abbrev pub Linked : (ℕ → ℕ) → ℕ → List ℕ → Type 0
Linked next head [] = head ≡ 0
Linked next head (n ∷ ns) = (head ≡ n) × (n ≢ 0) × Linked next (next n) ns

-- What a sequential stack does with an event; none if it could not have happened there.
abbrev pub after : Event → List ℕ → Option (List ℕ)
after (pushed n) ns = some (n ∷ ns)
after (popped n) [] = none
after (popped n) (m ∷ ns) = if n == m then some ns else none
after found_empty [] = some []
after found_empty (m ∷ ns) = none

abbrev pub after_log : Option (List ℕ) → Event → Option (List ℕ)
after_log none e = none
after_log (some ns) e = after e ns

-- The stack after the events of a log, the latest first.
unfoldable pub replay : List Event → Option (List ℕ)
replay [] = some []
replay (e ∷ l) = after_log (replay l) e

pub Linked-update :
    (next : ℕ → ℕ) (head n x : ℕ) (ns : List ℕ)
    → NotIn n ns
    → Linked next head ns
    → Linked (update next n x) head ns
Linked-update next head n x [] h l = l
Linked-update next head n x (m ∷ ns) h (e, nz, l) = (
  e,
  nz,
  Linked-update next (update next n x m) n x ns h.1
      (subst (λ y. Linked next y ns) (sym (update_ne next n m x h.0)) l),
)

-- A head that is not NULL is the first of a stack.
pub Linked-top :
    (next : ℕ → ℕ) (head : ℕ) (ns : List ℕ)
    → Linked next head ns
    → head ≢ 0
    → (ms : List ℕ) × (ns ≡ head ∷ ms) × Linked next (next head) ms
Linked-top next head [] l h = absurd (h l)
Linked-top next head (n ∷ ns) (e, nz, l) h =
    (ns, ap (λ x. x ∷ ns) (sym e), subst (λ x. Linked next (next x) ns) (sym e) l)

pub Linked-empty :
    (next : ℕ → ℕ) (head : ℕ) (ns : List ℕ) → Linked next head ns → head ≡ 0 → ns ≡ []
Linked-empty next head [] l h = refl
Linked-empty next head (n ∷ ns) (e, nz, l) h = absurd (nz (sym e ∙ h))

pub after_log-pushed :
    (l : List Event) (n : ℕ) (ns : List ℕ)
    → replay l ≡ some ns
    → replay (pushed n ∷ l) ≡ some (n ∷ ns)
unfolding replay
after_log-pushed l n ns e = rw e refl

pub after_log-popped :
    (l : List Event) (n : ℕ) (ns : List ℕ)
    → replay l ≡ some (n ∷ ns)
    → replay (popped n ∷ l) ≡ some ns
unfolding replay
after_log-popped l n ns e = rw e (ground arith)

pub after_log-found_empty :
    (l : List Event) → replay l ≡ some [] → replay (found_empty ∷ l) ≡ some []
unfolding replay
after_log-found_empty l e = rw e refl
