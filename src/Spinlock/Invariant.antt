-- ===== src/Spinlock/Invariant.antt =====
-- Every ticket from the one served to the last one given out belongs to exactly one thread.
use libfiber.Prelude.{
  ℕ, ◌+◌, ◌-◌, ◌%◌, ◌^◌, ◌≤◌, ◌<◌, ◌≡◌, ◌≢◌, ◌⊎◌, inl, inr, refl, sym, ap, subst, ◌∙◌, arith,
}
use libfiber.Prelude.{
  true, false, ◌==◌, ◌&&◌, update, update_ne, update_self, eq-cases, dec_lt, lt→ltb, ge→ltb,
}
use libfiber.Prelude.{Option, none, some, List, [], ◌∷◌}
use libfiber.Population.{tally, tally-update, tally-le, weight-le-tally, tally-absent}
use libfiber.Spinlock.{
  Spinlock, incr32, Pc, away, inside, spinning, trying, releasing, System, Action,
}
use libfiber.Spinlock.{do_lock, do_trylock, do_unlock, go, spurious, act, run}

-- The ticket of a thread: the one that is served, for a thread inside.
abbrev pub ticket_of : Spinlock → Pc → Option ℕ
ticket_of l (spinning t) = some t
ticket_of l inside = some l.ticket
ticket_of l (releasing t) = some l.ticket
ticket_of l _ = none

abbrev pub active : Pc → ℕ
active (spinning t) = 1
active inside = 1
active (releasing t) = 1
active _ = 0

active-le : (p : Pc) → active p ≤ 1
active-le p = ground arith

-- How far ticket `t` is behind the one that is served.
abbrev pub ahead : Spinlock → ℕ → ℕ
ahead l t = (t + 2 ^ 32 - l.ticket) % 2 ^ 32

abbrev pub Plain : Spinlock → Pc → Type 0
Plain l (releasing t) = t ≡ l.ticket
Plain l (trying old) = old.ticket ≡ old.users
Plain l _ = Unit

pub record Inv (n : ℕ) (s : System) : Type 0 where
  pub few : n < 2 ^ 32
  pub fits : s.lock.ticket < 2 ^ 32
  pub given : s.lock.users ≡ (s.lock.ticket + tally active n s.pc) % 2 ^ 32
  pub range :
      (i t : ℕ)
      → ticket_of s.lock (s.pc i) ≡ some t
      → (t < 2 ^ 32) × (ahead s.lock t < tally active n s.pc)
  pub unique :
      (i j t : ℕ) → ticket_of s.lock (s.pc i) ≡ some t → ticket_of s.lock (s.pc j) ≡ some t → i ≡ j
  pub plain : (i : ℕ) → Plain s.lock (s.pc i)
  pub covered :
      (d : ℕ)
      → d < tally active n s.pc
      → (j : ℕ) × (j < n) × (ticket_of s.lock (s.pc j) ≡ some ((s.lock.ticket + d) % 2 ^ 32))

same-cases :
    (l old : Spinlock)
    → ((l ≡ old) × ((l.ticket == old.ticket && l.users == old.users) ≡ true))
      ⊎ ((l.ticket == old.ticket && l.users == old.users) ≡ false)
same-cases l old = ground arith

module _ {n : ℕ} {s : System} (inv : Inv n s) (i : ℕ) (lt : i < n) where
  open inv use {few, fits, given, range, unique, plain, covered}

  record Sum (p : Pc) : Type 0 where
    after : tally active n (update s.pc i p) + active (s.pc i) ≡ tally active n s.pc + active p
    few_before : tally active n s.pc ≤ n
    few_after : tally active n (update s.pc i p) ≤ n

  sum : (p : Pc) → Sum p
  sum p = record {
    after = tally-update active n i s.pc p lt;
    few_before = tally-le active active-le n s.pc;
    few_after = tally-le active active-le n (update s.pc i p);
  }

  -- A thread takes the next ticket.
  lock-Inv :
      (p : Pc) (l : Spinlock)
      → s.pc i ≡ away
      → p ≡ spinning s.lock.users
      → l ≡ record (s.lock) { users = incr32 s.lock.users }
      → Inv n (record s { lock = l; pc = update s.pc i p })
  lock-Inv p l e g h = record {
    few = few;
    fits = ground arith;
    given = ground (arith, sum p, given);
    range = λ j t q. ground (arith, sum p, given, range j t);
    unique = λ j k t q r. ground (arith, sum p, given, range j t, range k t, unique j k t);
    plain = λ j. ground (arith, plain j);
    covered = λ d q. elim (dec_lt d (tally active n s.pc)) [
      | yes old ↦ let (j, hj, f) = covered d old in (j, hj, ground arith)
      | no new ↦ (i, lt, ground (arith, sum p))
    ];
  }

  -- It moves between points with the same ticket, and the word stays.
  stay-Inv :
      (p : Pc)
      → active p ≡ active (s.pc i)
      → ticket_of s.lock p ≡ ticket_of s.lock (s.pc i)
      → Plain s.lock p
      → Inv n (record s { pc = update s.pc i p })
  stay-Inv p a b c = record {
    few = few;
    fits = fits;
    given = ground (arith, sum p, given);
    range = λ j t q. ground (arith, sum p, range j t);
    unique = λ j k t q r. ground (arith, unique j k t);
    plain = λ j. elim (eq-cases i j) [
      | inl e ↦
          subst (λ x. Plain s.lock (update s.pc i p x)) e
            (subst (Plain s.lock) (sym (update_self s.pc i p)) c)
      | inr ne ↦ subst (Plain s.lock) (sym (update_ne s.pc i j p ne)) (plain j)
    ];
    covered = λ d q. let (j, hj, f) = covered d (omega (arith, sum p, a)) in (j, hj, ground arith);
  }

  -- A trylock exchanges the word it has seen: nobody had a ticket.
  try-Inv :
      (p : Pc) (old l : Spinlock)
      → s.pc i ≡ trying old
      → s.lock ≡ old
      → p ≡ inside
      → l ≡ record (s.lock) { users = incr32 s.lock.users }
      → Inv n (record s { lock = l; pc = update s.pc i p })
  try-Inv p old l e f g h = record {
    few = few;
    fits = ground arith;
    given = ground (arith, sum p, given, plain i);
    range = λ j t q. ground (arith, sum p, given, plain i, range j t);
    unique = λ j k t q r. ground (arith, sum p, given, plain i, range j t, range k t);
    plain = λ j. ground (arith, plain i, plain j, sum p, range j s.lock.ticket);
    covered = λ d q. (i, lt, ground (arith, sum p, given, plain i));
  }

  -- The thread inside stores the next ticket.
  release-Inv :
      (p : Pc) (t : ℕ) (l : Spinlock)
      → s.pc i ≡ releasing t
      → p ≡ away
      → l ≡ record (s.lock) { ticket = incr32 t }
      → Inv n (record s { lock = l; pc = update s.pc i p })
  release-Inv p t l e g h = record {
    few = few;
    fits = ground arith;
    given = ground (arith, sum p, given, plain i, weight-le-tally active n i s.pc lt);
    range = λ j u q. ground (arith, sum p, plain i, range j u, unique i j s.lock.ticket);
    unique = λ j k u q r.
        ground (arith, plain i, unique j k u, unique i j s.lock.ticket, unique i k s.lock.ticket);
    plain = λ j. ground (arith, plain i, plain j, unique i j s.lock.ticket);
    covered = λ d q.
        let (j, hj, f) = covered (d + 1) (omega (arith, sum p, q, ap active e, ap active g)) in
        (j, hj, ground (arith, plain i, unique i j s.lock.ticket, sum p));
  }

  act-Inv : (a : Action) (p : Pc) → s.pc i ≡ p → Inv n (act a p s i)
  unfolding act
  act-Inv do_lock away e = lock-Inv _ _ e refl refl
  act-Inv do_trylock away e = stay-Inv _ (ap active (sym e)) (ap (ticket_of s.lock) (sym e)) refl
  act-Inv do_unlock inside e = stay-Inv _ (ap active (sym e)) (ap (ticket_of s.lock) (sym e)) refl
  act-Inv go (spinning t) e = elim (eq-cases s.lock.ticket t) [
    | inl f ↦
        rw (turn f)
          (stay-Inv inside (ap active (sym e)) (ap some f ∙ ap (ticket_of s.lock) (sym e)) tt)
    | inr ne ↦ rw (no_turn ne) inv
  ]
    where
      turn : s.lock.ticket ≡ t → (s.lock.ticket == t) ≡ true
      turn f = ground arith

      no_turn : s.lock.ticket ≢ t → (s.lock.ticket == t) ≡ false
      no_turn ne = ground arith
  act-Inv go (trying old) e = elim (same-cases s.lock old) [
    | inl (f, g) ↦ rw g (try-Inv inside old _ e f refl (ground (arith, f)))
    | inr g ↦ rw g (stay-Inv away (ap active (sym e)) (ap (ticket_of s.lock) (sym e)) tt)
  ]
  act-Inv go (releasing t) e = release-Inv away t _ e refl refl
  act-Inv spurious (trying old) e =
      stay-Inv away (ap active (sym e)) (ap (ticket_of s.lock) (sym e)) tt
  act-Inv a p e = inv

pub run-Inv : (n : ℕ) (l : List (ℕ × Action)) (s : System) → Inv n s → Inv n (run n l s)
unfolding run
run-Inv n [] s inv = inv
run-Inv n ((i, a) ∷ l) s inv = elim (dec_lt i n) [
  | yes lt ↦
      rw (lt→ltb i n lt) (run-Inv n l (act a (s.pc i) s i) (act-Inv inv i lt a (s.pc i) refl))
  | no ge ↦ rw (ge→ltb i n ge) (run-Inv n l s inv)
]

-- What `fiber_spinlock_init` leaves, with every thread away.
pub record Initial (n : ℕ) (s : System) : Type 0 where
  pub small : n < 2 ^ 32
  pub fresh : s.lock ≡ record { ticket = 0; users = 0 }
  pub absent : (i : ℕ) → s.pc i ≡ away

pub Initial-Inv : {n : ℕ} {s : System} → Initial n s → Inv n s
Initial-Inv {n} {s} z = record {
  few = z.small;
  fits = ground (arith, z.fresh);
  given = ground (arith, z.fresh, none_active);
  range = λ i t e. cc (z.absent i);
  unique = λ i j t e f. cc (z.absent i);
  plain = λ i. subst (Plain s.lock) (sym (z.absent i)) tt;
  covered = λ d q. absurd (omega (arith, none_active));
}
  where
    none_active : tally active n s.pc ≡ 0
    none_active = tally-absent active away n s.pc refl z.absent
