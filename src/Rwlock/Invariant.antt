-- ===== src/Rwlock/Invariant.antt =====
-- The invariant of the rwlock with its queues, and that every step of every fiber keeps it.
use libfiber.Prelude.{ℕ, ◌<◌, ◌≡◌, ◌≢◌, inl, inr, sym, ap, subst, ◌∙◌, arith}
use libfiber.Prelude.{true, Bool-cases, update, update_ne, update_self, eq-cases}
use libfiber.Prelude.{[], ◌∷◌, ◌++◌, All, Distinct, Distinct-append}
use libfiber.Population.{Parked, NotIn-Parked, Parked-move, Parked-join}
use libfiber.Rwlock.{State, same_blob, After, has_read, has_write, wait_read, wait_write, leave}
use libfiber.Rwlock.{wake_writer, wake_readers, Round, assertion, give_up, exchange}
use libfiber.Rwlock.Fibers.{Op, Pc, away, r_entering, r_asleep, w_entering, w_asleep, System}
use libfiber.Rwlock.Fibers.{crashed, looping, trying, round, after_pc, loaded}
use libfiber.Rwlock.Fibers.{may_call, goto, compare_and_swap}
use libfiber.Rwlock.Counts.{has_r, has_w, Counts, Counts-same}
use libfiber.Rwlock.Counts.{round-Counts, round-holds, round-gives_up, moved}

-- A fiber that is about to exchange has computed the new state from its snapshot.
abbrev pub Planned : Pc → Type 0
Planned (trying op c d a) = round op c ≡ exchange d a
Planned _ = Unit

pub record Inv (n : ℕ) (s : System) : Type 0 where
  pub counts : Counts n s.state s.pc
  pub planned : (i : ℕ) → Planned (s.pc i)
  pub safe : (i : ℕ) → s.pc i ≢ crashed
  pub r_parked : All (Parked r_asleep n s.pc) s.read_waiters
  pub w_parked : All (Parked w_asleep n s.pc) s.write_waiters
  pub r_distinct : Distinct s.read_waiters
  pub w_distinct : Distinct s.write_waiters

pub Planned-move :
    (pc : ℕ → Pc) (i : ℕ) (p : Pc)
    → Planned p
    → ((j : ℕ) → Planned (pc j))
    → (j : ℕ) → Planned (update pc i p j)
Planned-move pc i p h all j = elim (eq-cases i j) [
  | inl e ↦ subst (λ k. Planned (update pc i p k)) e (subst Planned (sym (update_self pc i p)) h)
  | inr ne ↦ subst Planned (sym (update_ne pc i j p ne)) (all j)
]

pub safe-move :
    (pc : ℕ → Pc) (i : ℕ) (p : Pc)
    → p ≢ crashed
    → ((j : ℕ) → pc j ≢ crashed)
    → (j : ℕ) → update pc i p j ≢ crashed
safe-move pc i p h all j = ground (arith, all j)

pub same_blob-eq : (a b : State) → same_blob a b ≡ true → a ≡ b
same_blob-eq a b h = ground arith

module _ {n : ℕ} {s : System} (inv : Inv n s) (i : ℕ) (lt : i < n) where
  open inv use {counts, planned, safe, r_parked, w_parked, r_distinct, w_distinct}

  -- A fiber that is in no queue goes elsewhere, with a change of the word that the counts allow.
  move-Inv :
      (d : State) (p : Pc)
      → s.pc i ≢ r_asleep
      → s.pc i ≢ w_asleep
      → p ≢ crashed
      → Planned p
      → Counts n d (update s.pc i p)
      → Inv n (record s { state = d; pc = update s.pc i p })
  move-Inv d p nr nw nc pl k = record {
    counts = k;
    planned = Planned-move s.pc i p pl planned;
    safe = safe-move s.pc i p nc safe;
    r_parked = Parked-move r_asleep n i s.pc p s.read_waiters nr r_parked;
    w_parked = Parked-move w_asleep n i s.pc p s.write_waiters nw w_parked;
    r_distinct = r_distinct;
    w_distinct = w_distinct;
  }

  pub call-Inv :
      (op : Op) (p : Pc) → s.pc i ≡ p → may_call op p ≡ true → Inv n (goto s i (looping op))
  call-Inv op p e h =
      move-Inv s.state (looping op) (λ q. call-awake op p (sym e ∙ q) h)
        (λ q. call-awake_w op p (sym e ∙ q) h) (λ q. cc q) tt (call-Counts op p e h)
    where
      call-awake : (op : Op) (p : Pc) → p ≡ r_asleep → may_call op p ≢ true
      call-awake op p q = ground arith

      call-awake_w : (op : Op) (p : Pc) → p ≡ w_asleep → may_call op p ≢ true
      call-awake_w op p q = ground arith

      call-Counts :
          (op : Op) (p : Pc)
          → s.pc i ≡ p
          → may_call op p ≡ true
          → Counts n s.state (update s.pc i (looping op))
      call-Counts op p e h = ground (arith, moved n i s.pc (looping op) lt)

  pub load-Inv :
      (op : Op)
      → s.pc i ≡ looping op
      → (r : Round) → round op s.state ≡ r
      → Inv n (goto s i (loaded op s.state r))
  load-Inv op e assertion q = absurd (round-holds counts i lt op e q)
  load-Inv op e give_up q =
      move-Inv s.state away (λ f. cc (e, f)) (λ f. cc (e, f)) (λ f. cc f) tt
        (Counts-same counts i lt away (ground (arith, e, none)))
    where
      none : (has_r (s.pc i) ≡ 0) × (has_w (s.pc i) ≡ 0)
      none = round-gives_up counts i lt op e q
  load-Inv op e (exchange d a) q =
      move-Inv s.state (trying op s.state d a) (λ f. cc (e, f)) (λ f. cc (e, f)) (λ f. cc f) q
        (Counts-same counts i lt (trying op s.state d a) (ground (arith, e)))

  after-plain : (a : After) → (after_pc a ≢ crashed) × Planned (after_pc a)
  after-plain has_read = (λ e. cc e, tt)
  after-plain has_write = (λ e. cc e, tt)
  after-plain wait_read = (λ e. cc e, tt)
  after-plain wait_write = (λ e. cc e, tt)
  after-plain leave = (λ e. cc e, tt)
  after-plain wake_writer = (λ e. cc e, tt)
  after-plain (wake_readers k) = (λ e. cc e, tt)

  pub cas-Inv :
      (op : Op) (c d : State) (a : After)
      → s.pc i ≡ trying op c d a
      → Inv n (compare_and_swap op c d a s i)
  cas-Inv op c d a e = elim (Bool-cases (same_blob s.state c)) [
    | inl same ↦ rw same (
        move-Inv d (after_pc a) (λ f. cc (e, f)) (λ f. cc (e, f)) (after-plain a).0
          (after-plain a).1
          (round-Counts counts i lt d a op
            (e ∙ ap (λ x. trying op x d a) (sym (same_blob-eq s.state c same)))
            (ap (round op) (same_blob-eq s.state c same) ∙ subst Planned e (planned i))))
    | inr other ↦ rw other (
        move-Inv s.state (looping op) (λ f. cc (e, f)) (λ f. cc (e, f)) (λ f. cc f) tt
          (Counts-same counts i lt (looping op) (ground (arith, e))))
  ]

  pub r_enter-Inv :
      s.pc i ≡ r_entering
      → Inv n (record s { read_waiters = s.read_waiters ++ (i ∷ []); pc = update s.pc i r_asleep })
  r_enter-Inv e = record {
    counts = Counts-same counts i lt r_asleep (ground (arith, e));
    planned = Planned-move s.pc i r_asleep tt planned;
    safe = safe-move s.pc i r_asleep (λ f. cc f) safe;
    r_parked = Parked-join r_asleep n i s.pc s.read_waiters lt (λ f. cc (e, f)) r_parked;
    w_parked = Parked-move w_asleep n i s.pc r_asleep s.write_waiters (λ f. cc (e, f)) w_parked;
    r_distinct =
        Distinct-append i s.read_waiters r_distinct
          (NotIn-Parked r_asleep n i s.pc s.read_waiters (λ f. cc (e, f)) r_parked);
    w_distinct = w_distinct;
  }

  pub w_enter-Inv :
      s.pc i ≡ w_entering
      → Inv n
          (record s { write_waiters = s.write_waiters ++ (i ∷ []); pc = update s.pc i w_asleep })
  w_enter-Inv e = record {
    counts = Counts-same counts i lt w_asleep (ground (arith, e));
    planned = Planned-move s.pc i w_asleep tt planned;
    safe = safe-move s.pc i w_asleep (λ f. cc f) safe;
    r_parked = Parked-move r_asleep n i s.pc w_asleep s.read_waiters (λ f. cc (e, f)) r_parked;
    w_parked = Parked-join w_asleep n i s.pc s.write_waiters lt (λ f. cc (e, f)) w_parked;
    r_distinct = r_distinct;
    w_distinct =
        Distinct-append i s.write_waiters w_distinct
          (NotIn-Parked w_asleep n i s.pc s.write_waiters (λ f. cc (e, f)) w_parked);
  }
