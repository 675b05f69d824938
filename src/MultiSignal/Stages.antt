-- ===== src/MultiSignal/Stages.antt =====
-- What each fiber at a multi signal knows at its point of the code, and the steps that keep it.
use libfiber.Prelude.{
  Member, ℕ, ◌≤◌, ◌≡◌, ◌≢◌, ◌⊎◌, inl, inr, sym, subst, arith, Bool, true, false, eq-cases, Option,
  none, some, List, update, update_self, update_ne, NotIn, Distinct,
}
use libfiber.MultiSignal.{
  Head, null, flag, node, Signal, Pc, wait_counter, wait_head, wait_take, wait_link, wait_swap,
  parking, parked, raise_head, raise_flag, raise_next, raise_swap, spinning, System,
}
use libfiber.MultiSignal.Replay.{State, members, replay, Stands}

-- While the counter is what a fiber has loaded, the head is so too.
abbrev pub Current : Signal → ℕ → Head → Type 0
Current f c h = (c ≤ f.counter) × (c ≡ f.counter → h ≡ f.head)

-- Fiber `i` at a point; `ws` are the waiting fibers.
abbrev pub Knows : Signal → List ℕ → ℕ → Pc → Type 0
Knows f ws i (wait_head c) = c ≤ f.counter
Knows f ws i (wait_take c) = c ≤ f.counter
Knows f ws i (wait_link c h) = (h ≢ flag) × Current f c h
Knows f ws i (wait_swap c h) = (h ≢ flag) × Current f c h × (f.next i ≡ h)
Knows f ws i (raise_head b c) = c ≤ f.counter
Knows f ws i (raise_flag c h) = ((h ≡ null) ⊎ (h ≡ flag)) × Current f c h
Knows f ws i (raise_next b c j) = Current f c (node j)
Knows f ws i (raise_swap b c j x) = Current f c (node j) × (c ≡ f.counter → x ≡ f.next j)
Knows f ws i (spinning j) = NotIn j ws
Knows f ws i p = Unit

-- What a fiber's scratch is: clear from the start of its wait until it has switched away, and then marked.
abbrev pub Marked : Bool → Pc → Type 0
Marked b wait_counter = b ≡ false
Marked b (wait_head c) = b ≡ false
Marked b (wait_take c) = b ≡ false
Marked b (wait_link c h) = b ≡ false
Marked b (wait_swap c h) = b ≡ false
Marked b parking = b ≡ false
Marked b parked = b ≡ true
Marked b p = Unit

-- 1 while a fiber is on its way to sleep, or asleep.
abbrev pub sleeps : Pc → ℕ
sleeps parking = 1
sleeps parked = 1
sleeps _ = 0

-- A fiber that has been popped, and is not scheduled yet.
abbrev pub wakes : Pc → Option ℕ
wakes (spinning j) = some j
wakes _ = none

pub record Holds (s : System) (a : State) : Type 0 where
  pub stands : Stands s.signal.next s.signal.head a
  pub distinct : Distinct (members a)
  pub told : replay s.log ≡ some a
  pub sleeping : (j : ℕ) → Member j (members a) → sleeps (s.pc j) ≡ 1
  pub found :
      (j : ℕ) → sleeps (s.pc j) ≡ 1 → Member j (members a) ⊎ ((k : ℕ) × (wakes (s.pc k) ≡ some j))
  pub woken : (k j : ℕ) → wakes (s.pc k) ≡ some j → sleeps (s.pc j) ≡ 1
  pub alone : (i k j : ℕ) → wakes (s.pc i) ≡ some j → wakes (s.pc k) ≡ some j → i ≡ k
  pub marked : (i : ℕ) → Marked (s.scratch i) (s.pc i)
  pub knows : (i : ℕ) → Knows s.signal (members a) i (s.pc i)

pub update-all :
    (P : ℕ → Pc → Type 0) (pc : ℕ → Pc) (i : ℕ) (p : Pc)
    → P i p
    → ((j : ℕ) → i ≢ j → P j (pc j))
    → (j : ℕ) → P j (update pc i p j)
update-all P pc i p h k j = elim (eq-cases i j) [
  | inl e ↦ subst (λ m. P m (update pc i p m)) e (subst (P i) (sym (update_self pc i p)) h)
  | inr ne ↦ subst (P j) (sym (update_ne pc i j p ne)) (k j ne)
]

module _ {s : System} {a : State} (v : Holds s a) (i : ℕ) where
  open v use {stands, distinct, told, sleeping, found, woken, alone, marked, knows}

  -- A fiber that stands at a point that is neither asleep nor spinning goes to another such point.
  module _ (p : Pc) (z : sleeps (s.pc i) ≡ 0) (y : wakes (s.pc i) ≡ none) (z' : sleeps p ≡ 0)
      (y' : wakes p ≡ none) where
    pub plain-sleeping : (j : ℕ) → Member j (members a) → sleeps (update s.pc i p j) ≡ 1
    plain-sleeping j m = ground (arith, sleeping j m, z, z')

    pub plain-found :
        (j : ℕ)
        → sleeps (update s.pc i p j) ≡ 1
        → Member j (members a) ⊎ ((k : ℕ) × (wakes (update s.pc i p k) ≡ some j))
    plain-found j e = elim (found j (ground (arith, z', e))) [
      | inl m ↦ inl m
      | inr (k, w) ↦ inr (k, ground (arith, w, y))
    ]

    pub plain-woken :
        (k j : ℕ) → wakes (update s.pc i p k) ≡ some j → sleeps (update s.pc i p j) ≡ 1
    plain-woken k j e = ground (arith, woken k j, z, z', y', e)

    pub plain-alone :
        (m k j : ℕ)
        → wakes (update s.pc i p m) ≡ some j
        → wakes (update s.pc i p k) ≡ some j
        → m ≡ k
    plain-alone m k j e f = ground (arith, alone m k j, y', e, f)

    -- It has only loaded, or has written its scratch.
    pub plain-Holds :
        (scratch : ℕ → Bool)
        → ((j : ℕ) → i ≢ j → scratch j ≡ s.scratch j)
        → Marked (scratch i) p
        → Knows s.signal (members a) i p
        → Holds (record s { scratch = scratch; pc = update s.pc i p }) a
    plain-Holds scratch same_others m k = record {
      stands = stands;
      distinct = distinct;
      told = told;
      sleeping = plain-sleeping;
      found = plain-found;
      woken = plain-woken;
      alone = plain-alone;
      marked =
          update-all (λ j q. Marked (scratch j) q) s.pc i p m
            (λ j ne. subst (λ b. Marked b (s.pc j)) (sym (same_others j ne)) (marked j));
      knows = update-all (λ j q. Knows s.signal (members a) j q) s.pc i p k (λ j ne. knows j);
    }
