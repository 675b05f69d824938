-- ===== src/Rwlock/Waking.antt =====
-- A fiber that unlocks hands the lock to the fibers in front of a queue: the invariant holds after
-- each that it wakes.
use libfiber.Prelude.{ℕ, suc, ◌<◌, ◌≡◌, ◌≢◌, ◌⊎◌, inl, inr, subst, arith}
use libfiber.Prelude.{true, false, ltb, Bool-cases, update}
use libfiber.Prelude.{List, ◌∷◌, All, Distinct, if◌then◌else◌}
use libfiber.Population.{Parked, Parked-update, Parked-move}
use libfiber.Rwlock.Fibers.{Pc, away, reading, writing, r_asleep, w_asleep, System}
use libfiber.Rwlock.Fibers.{waking_writer, crashed, waking_readers}
use libfiber.Rwlock.Counts.{Counts}
use libfiber.Rwlock.Counts.{moved}
use libfiber.Rwlock.Invariant.{Inv, Planned, Planned-move, safe-move}

module _ {n : ℕ} {s : System} (inv : Inv n s) (i : ℕ) (lt : i < n) where
  open inv use {counts, planned, safe, r_parked, w_parked, r_distinct, w_distinct}

  -- Fiber `i` has handed one more lock to the reader in front, and stands at `p`.
  module _ (j : ℕ) (k : ℕ) (rest : List ℕ) (p : Pc) where
    abbrev readied : ℕ → Pc
    readied = update (update s.pc j reading) i p

    wake_reader-Counts :
        s.pc i ≡ waking_readers (suc k)
        → Parked r_asleep n s.pc j
        → p ≡ (if ltb 0 k then waking_readers k else away)
        → Counts n s.state readied
    wake_reader-Counts e f g =
        ground (arith, counts, moved n j s.pc reading f.0, moved n i (update s.pc j reading) p lt)

    pub wake_reader-Inv :
        s.pc i ≡ waking_readers (suc k)
        → s.read_waiters ≡ j ∷ rest
        → p ≡ (if ltb 0 k then waking_readers k else away)
        → Inv n (record s { read_waiters = rest; pc = readied })
    wake_reader-Inv e f g = record {
      counts = wake_reader-Counts e front.0 g;
      planned = Planned-move _ i p (plain.1) (Planned-move s.pc j reading tt planned);
      safe = safe-move _ i p (plain.0) (safe-move s.pc j reading (λ q. cc q) safe);
      r_parked =
          Parked-move r_asleep n i (update s.pc j reading) p rest i_up
            (Parked-update r_asleep n j s.pc reading rest alone.0 front.1);
      w_parked =
          Parked-move w_asleep n i (update s.pc j reading) p s.write_waiters i_up_w (
            Parked-move w_asleep n j s.pc reading s.write_waiters (λ q. cc (front.0.1, q))
              w_parked);
      r_distinct = alone.1;
      w_distinct = w_distinct;
    }
      where
        front : All (Parked r_asleep n s.pc) (j ∷ rest)
        front = subst (All (Parked r_asleep n s.pc)) f r_parked

        alone : Distinct (j ∷ rest)
        alone = subst Distinct f r_distinct

        plain : (p ≢ crashed) × Planned p
        plain = rw g (by_test (Bool-cases (ltb 0 k)))
          where
            by_test :
                ((ltb 0 k ≡ true) ⊎ (ltb 0 k ≡ false))
                → ((if ltb 0 k then waking_readers k else away) ≢ crashed)
                  × Planned (if ltb 0 k then waking_readers k else away)
            by_test (inl t) = rw t (λ q. cc q, tt)
            by_test (inr t) = rw t (λ q. cc q, tt)

        i_up : update s.pc j reading i ≢ r_asleep
        i_up q = ground (arith, e)

        i_up_w : update s.pc j reading i ≢ w_asleep
        i_up_w q = ground (arith, e)

  -- Fiber `i` has handed the lock to the writer in front.
  module _ (j : ℕ) (rest : List ℕ) where
    abbrev readied_writer : ℕ → Pc
    readied_writer = update (update s.pc j writing) i away

    wake_writer-Counts :
        s.pc i ≡ waking_writer → Parked w_asleep n s.pc j → Counts n s.state readied_writer
    wake_writer-Counts e f =
        ground
          (arith, counts, moved n j s.pc writing f.0, moved n i (update s.pc j writing) away lt)

    pub wake_writer-Inv :
        s.pc i ≡ waking_writer
        → s.write_waiters ≡ j ∷ rest
        → Inv n (record s { write_waiters = rest; pc = readied_writer })
    wake_writer-Inv e f = record {
      counts = wake_writer-Counts e front.0;
      planned = Planned-move _ i away tt (Planned-move s.pc j writing tt planned);
      safe = safe-move _ i away (λ q. cc q) (safe-move s.pc j writing (λ q. cc q) safe);
      w_parked =
          Parked-move w_asleep n i (update s.pc j writing) away rest i_up
            (Parked-update w_asleep n j s.pc writing rest alone.0 front.1);
      r_parked =
          Parked-move r_asleep n i (update s.pc j writing) away s.read_waiters i_up_w (
            Parked-move r_asleep n j s.pc writing s.read_waiters (λ q. cc (front.0.1, q)) r_parked);
      w_distinct = alone.1;
      r_distinct = r_distinct;
    }
      where
        front : All (Parked w_asleep n s.pc) (j ∷ rest)
        front = subst (All (Parked w_asleep n s.pc)) f w_parked

        alone : Distinct (j ∷ rest)
        alone = subst Distinct f w_distinct

        i_up : update s.pc j writing i ≢ w_asleep
        i_up q = ground (arith, e)

        i_up_w : update s.pc j writing i ≢ r_asleep
        i_up_w q = ground (arith, e)
