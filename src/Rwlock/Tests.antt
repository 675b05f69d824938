-- ===== src/Rwlock/Tests.antt =====
-- A run of the rwlock, and its theorems at it.
use libfiber.Prelude.{ℕ, ◌+◌, ◌<◌, ◌≡◌, ◌≢◌, refl, arith, List, [], ◌∷◌}
use libfiber.Population.{tally}
use libfiber.Rwlock.{zero_blob}
use libfiber.Rwlock.Fibers.{
  refuse, op_rdlock, op_wrlock, op_rdunlock, away, crashed, System, Action, call, go, run,
}
use libfiber.Rwlock.Counts.{has_r, has_w, waits_r, waits_w, grants_r, grants_w}
use libfiber.Rwlock.Exclusion.{Initial, writer_alone, word_exact, waiting_is_served}

abbrev fresh : System
fresh = record { state = zero_blob; write_waiters = []; read_waiters = []; pc = λ i. away }

fresh-Initial : Initial 3 fresh
fresh-Initial = ground arith

-- Fiber 0 reads, fiber 1 waits to write, fiber 2 waits to read behind it.
abbrev behind : List (ℕ × Action)
behind =
    (0, call op_rdlock)
    ∷ (0, go)
    ∷ (0, go)
    ∷ (1, call op_wrlock)
    ∷ (1, go)
    ∷ (1, go)
    ∷ (1, go)
    ∷ (2, call op_rdlock)
    ∷ (2, go)
    ∷ (2, go)
    ∷ (2, go)
    ∷ []

-- The reader leaves and hands the lock to the writer.
abbrev handed : List (ℕ × Action)
handed =
    (0, call op_rdlock)
    ∷ (0, go)
    ∷ (0, go)
    ∷ (1, call op_wrlock)
    ∷ (1, go)
    ∷ (1, go)
    ∷ (1, go)
    ∷ (0, call op_rdunlock)
    ∷ (0, go)
    ∷ (0, go)
    ∷ (0, go)
    ∷ []

behind_state :
    (run 3 behind fresh).state
    ≡ record { write_locked = 0; reader_count = 1; waiting_readers = 1; waiting_writers = 1 }
unfolding run
behind_state = refl

behind_waits : 0 < waits_r ((run 3 behind fresh).pc 2) + waits_w ((run 3 behind fresh).pc 2)
unfolding run
behind_waits = omega arith

handed_writes : has_w ((run 3 handed fresh).pc 1) ≡ 1
unfolding run
handed_writes = refl

-- Fiber 1 writes while fiber 0 reads, when the yield of its wait is refused.
refused_writes :
    let t =
      run 2
        ((0, call op_rdlock)
          ∷ (0, go)
          ∷ (0, go)
          ∷ (1, call op_wrlock)
          ∷ (1, go)
          ∷ (1, go)
          ∷ (1, refuse)
          ∷ [])
        fresh in
    (has_r (t.pc 0) ≡ 1) × (has_w (t.pc 1) ≡ 1)
unfolding run
refused_writes = (refl, refl)

writer_alone_example :
    (has_r ((run 3 handed fresh).pc 1) ≡ 0)
    × (has_w ((run 3 handed fresh).pc 1) ≡ 1 → ◌≡◌ {A = ℕ} 1 1)
writer_alone_example =
    writer_alone 3 handed fresh 1 1 refl fresh-Initial (omega arith) (omega arith) handed_writes

word_exact_example :
    let t = run 3 behind fresh in
    ((i : ℕ) → t.pc i ≢ crashed)
    × (t.state.reader_count ≡ tally has_r 3 t.pc + tally grants_r 3 t.pc)
    × (t.state.write_locked ≡ tally has_w 3 t.pc + tally grants_w 3 t.pc)
    × (t.state.waiting_readers + tally grants_r 3 t.pc ≡ tally waits_r 3 t.pc)
    × (t.state.waiting_writers + tally grants_w 3 t.pc ≡ tally waits_w 3 t.pc)
word_exact_example = word_exact 3 behind fresh refl fresh-Initial

waiting_is_served_example :
    let t = run 3 behind fresh in
    (i : ℕ) × (i < 3)
    × (0 < has_r (t.pc i) + has_w (t.pc i) + grants_r (t.pc i) + grants_w (t.pc i))
waiting_is_served_example =
    waiting_is_served 3 behind fresh 2 refl fresh-Initial (omega arith) behind_waits
