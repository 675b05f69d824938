-- ===== src/MultiSignal/Replay.antt =====
-- What a multi signal is without its memory: raised, or a stack of waiting fibers.
use libfiber.Prelude.{
  ℕ, ◌≡◌, ◌≢◌, refl, sym, ap, subst, ◌∙◌, arith, true, ◌==◌, if◌then◌else◌, Option, none, some,
  List, [], ◌∷◌, update, update_ne, NotIn,
}
use libfiber.MultiSignal.{Head, null, flag, node, same, Event, accepted, raised, slept, popped}

pub data State : Type 0 where
  is_raised : State
  waiters : List ℕ → State

abbrev pub members : State → List ℕ
members is_raised = []
members (waiters ws) = ws

-- What an event does; none if it could not have happened there.
abbrev pub after : Event → State → Option State
after accepted is_raised = some (waiters [])
after (slept i) (waiters ws) = some (waiters (i ∷ ws))
after raised is_raised = some is_raised
after raised (waiters []) = some is_raised
after (popped i) (waiters (w ∷ ws)) = if i == w then some (waiters ws) else none
after e a = none

abbrev pub after_log : Option State → Event → Option State
after_log none e = none
after_log (some a) e = after e a

-- The state after the events of a log, the latest first, from a signal that nobody has used.
unfoldable pub replay : List Event → Option State
replay [] = some (waiters [])
replay (e ∷ l) = after_log (replay l) e

pub replay-next :
    (l : List Event) (e : Event) (a b : State)
    → replay l ≡ some a
    → after e a ≡ some b
    → replay (e ∷ l) ≡ some b
unfolding replay
replay-next l e a b h k = rw h k

abbrev pub Linked : (ℕ → Head) → Head → List ℕ → Type 0
Linked next h [] = h ≡ null
Linked next h (w ∷ ws) = (h ≡ node w) × Linked next (next w) ws

-- The memory of a signal stands for a state.
abbrev pub Stands : (ℕ → Head) → Head → State → Type 0
Stands next h is_raised = h ≡ flag
Stands next h (waiters ws) = Linked next h ws

Linked-update :
    (next : ℕ → Head) (h x : Head) (i : ℕ) (ws : List ℕ)
    → NotIn i ws
    → Linked next h ws
    → Linked (update next i x) h ws
Linked-update next h x i [] a l = l
Linked-update next h x i (w ∷ ws) a l = (
  l.0,
  Linked-update next (update next i x w) x i ws a.1
      (subst (λ y. Linked next y ws) (sym (update_ne next i w x a.0)) l.1),
)

pub Stands-update :
    (next : ℕ → Head) (h x : Head) (i : ℕ) (a : State)
    → NotIn i (members a)
    → Stands next h a
    → Stands (update next i x) h a
Stands-update next h x i is_raised k l = l
Stands-update next h x i (waiters ws) k l = Linked-update next h x i ws k l

abbrev IsNode : Head → Type 0
IsNode (node i) = Unit
IsNode h = ⊥

abbrev name : Head → ℕ
name (node i) = i
name h = 0

-- What each kind of head stands for.
pub Stands-node :
    (next : ℕ → Head) (h : Head) (j : ℕ) (a : State)
    → Stands next h a
    → h ≡ node j
    → (ws : List ℕ) × (a ≡ waiters (j ∷ ws)) × Linked next (next j) ws
Stands-node next h j is_raised l e = elim (subst IsNode (sym (sym l ∙ e)) tt) [ ]
Stands-node next h j (waiters []) l e = elim (subst IsNode (sym (sym l ∙ e)) tt) [ ]
Stands-node next h j (waiters (w ∷ ws)) l e =
    (ws, ap (λ k. waiters (k ∷ ws)) q, subst (λ k. Linked next (next k) ws) q l.1)
  where
    q : w ≡ j
    q = ap name (sym l.0 ∙ e)

pub Stands-flag :
    (next : ℕ → Head) (h : Head) (a : State) → Stands next h a → h ≡ flag → a ≡ is_raised
Stands-flag next h is_raised l e = refl
Stands-flag next h (waiters []) l e = ground (arith, l, e)
Stands-flag next h (waiters (w ∷ ws)) l e = elim (subst IsNode (sym l.0 ∙ e) tt) [ ]

pub Stands-null :
    (next : ℕ → Head) (h : Head) (a : State) → Stands next h a → h ≡ null → a ≡ waiters []
Stands-null next h is_raised l e = ground (arith, l, e)
Stands-null next h (waiters []) l e = refl
Stands-null next h (waiters (w ∷ ws)) l e = elim (subst IsNode (sym l.0 ∙ e) tt) [ ]

pub same→≡ : (a b : Head) → same a b ≡ true → a ≡ b
same→≡ a b h = ground (arith, h)

pub Stands-waiters :
    (next : ℕ → Head) (h : Head) (a : State)
    → Stands next h a
    → h ≢ flag
    → (ws : List ℕ) × (a ≡ waiters ws)
Stands-waiters next h is_raised l n = absurd (n l)
Stands-waiters next h (waiters ws) l n = (ws, refl)
