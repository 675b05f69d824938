-- ===== src/Sleepers/Waking.antt =====
-- Every sequence of sleeps and triggers of the timer.
use libfiber.Prelude.{
  ℕ, ◌+◌, ◌*◌, ◌/◌, ◌^◌, ◌≤◌, ◌<◌, ◌≡◌, Option, none, some, List, [], ◌∷◌, ◌++◌, All,
}
use libfiber.Sleepers.{Tree, leaf, Event, sleep, timer, System}
use libfiber.Sleepers.Order.{entries, IsOrdered, total}

-- What the loop gives when it ends: the elements below `count`, in order, and a tree of the others.
abbrev pub Woken : ℕ → Tree → Option (Tree × List (ℕ × ℕ)) → Type 0
Woken count t none = ⊥
Woken count t (some (t', woken)) =
    (entries t ≡ woken ++ entries t')
    × All (λ e. e.0 < count) woken
    × All (λ e. count ≤ e.0) (entries t')
    × IsOrdered t'

-- The tree is in order, with the elements that are not due; those asked for are in it or woken.
record Inv (s : System) : Type 0 where
  ordered : IsOrdered s.now.sleepers
  due : All (λ e. s.now.timer_trigger_count ≤ e.0) (entries s.now.sleepers)
  past : All (λ e. e.0 < s.now.timer_trigger_count) s.woken
  kept : (f : ℕ × ℕ → ℕ) → total f s.asked ≡ total f s.woken + total f (entries s.now.sleepers)

-- How far an event can move the times.
abbrev pub span : Event → ℕ
span (sleep seconds useconds this_fiber) = 0
span (timer count) = count

abbrev pub spans : List Event → ℕ
spans [] = 0
spans (e ∷ es) = span e + spans es

-- A time that its 32-bit word holds.
abbrev pub Fits : Event → Type 0
Fits (sleep seconds useconds this_fiber) = seconds * 1000 + useconds / 1000 + 1 < 2 ^ 32
Fits (timer count) = Unit

-- An event happens, the time moves on by no more than its span, and the invariant holds after it.
abbrev Good : ℕ → Option System → Type 0
Good bound none = ⊥
Good bound (some s) = Inv s × (s.now.timer_trigger_count ≤ bound)

-- No one sleeps, and no one has.
pub record Initial (s : System) : Type 0 where
  pub empty : s.now.sleepers ≡ leaf
  pub unasked : (s.asked ≡ []) × (s.woken ≡ [])
