-- ===== src/MultiSignal/Sleep.antt =====
-- A fiber at a multi signal falls asleep, is popped, and is scheduled again.
use libfiber.Prelude.{
  Member, Member-NotIn, ℕ, ◌≡◌, ◌≢◌, ◌⊎◌, inl, inr, refl, ap, sym, subst, arith, Bool, true,
  eq-cases, some, List, ◌∷◌, update, update_self, update_ne, NotIn,
}
use libfiber.MultiSignal.{
  Head, node, Pc, away, wait_swap, parking, parked, waking, raise_swap, spinning, slept, popped,
  System,
}
use libfiber.MultiSignal.Replay.{State, waiters, members, Linked, replay-next}
use libfiber.MultiSignal.Stages.{Knows, Marked, sleeps, wakes, Holds, update-all}
use libfiber.MultiSignal.Steps.{later-Knows, exchanged, outside}

module _ {s : System} {ws : List ℕ} (v : Holds s (waiters ws)) (i : ℕ) where
  open v use {stands, distinct, told, sleeping, found, woken, alone, marked, knows}

  -- Its exchange puts it on top of the waiters.
  pub slept-Holds :
      (c : ℕ) (h : Head)
      → s.pc i ≡ wait_swap c h
      → s.signal.counter ≡ c
      → s.signal.next i ≡ s.signal.head
      → Holds
          (record s {
            signal = exchanged v i c (node i);
            pc = update s.pc i parking;
            log = slept i ∷ s.log;
          })
          (waiters (i ∷ ws))
  slept-Holds c h e qc qn = record {
    stands = (refl, subst (λ x. Linked s.signal.next x ws) (sym qn) stands);
    distinct = (outside v i (ap sleeps e), distinct);
    told = replay-next s.log (slept i) (waiters ws) (waiters (i ∷ ws)) told refl;
    sleeping = λ j m. slept_member j m;
    found = λ j z. slept_found j z;
    woken = λ k j y. ground (arith, woken k j, e, y);
    alone = λ m k j y z. ground (arith, alone m k j, y, z);
    marked =
        update-all (λ j q. Marked (s.scratch j) q) s.pc i parking
          (subst (Marked (s.scratch i)) e (marked i)) (λ j ne. marked j);
    knows =
        update-all (λ j q. Knows (exchanged v i c (node i)) (i ∷ ws) j q) s.pc i parking tt
          (λ j ne.
            later-Knows s.signal (exchanged v i c (node i)) ws (i ∷ ws) j (s.pc j)
              (omega (arith, qc)) refl
              (λ n q k. (
                (λ r.
                    omega
                      (arith, woken j n (ap wakes q), ap (λ o. sleeps (s.pc o)) r, ap sleeps e)),
                k,
              ))
              (knows j));
  }
    where
      slept_member : (j : ℕ) → (j ≡ i) ⊎ Member j ws → sleeps (update s.pc i parking j) ≡ 1
      slept_member j (inl q) = ground (arith, q)
      slept_member j (inr m) = ground (arith, sleeping j m)

      slept_found :
          (j : ℕ)
          → sleeps (update s.pc i parking j) ≡ 1
          → ((j ≡ i) ⊎ Member j ws) ⊎ ((k : ℕ) × (wakes (update s.pc i parking k) ≡ some j))
      slept_found j z = elim (eq-cases j i) [
        | inl q ↦ inl (inl q)
        | inr ne ↦ elim (found j (ground (arith, z, ne))) [
          | inl m ↦ inl (inr m)
          | inr (k, y) ↦ inr (k, ground (arith, y, e))
        ]
      ]

module _ {s : System} {j : ℕ} {ws : List ℕ} (v : Holds s (waiters (j ∷ ws))) (i : ℕ) where
  open v use {distinct, told, sleeping, found, woken, alone, marked, knows}

  -- No fiber that has been popped before is the one on top.
  fresh_top : (k : ℕ) → wakes (s.pc k) ≢ some j
  fresh_top k y = spun (s.pc k) refl y
    where
      spun : (p : Pc) → s.pc k ≡ p → wakes p ≢ some j
      spun (spinning m) e y = (subst (Knows s.signal (j ∷ ws) k) e (knows k)).0 (ground (arith, y))
      spun p e y = ground (arith, y)

  -- A raiser's exchange takes the fiber on top.
  pub popped-Holds :
      (strict : Bool) (c : ℕ) (x : Head)
      → s.pc i ≡ raise_swap strict c j x
      → s.signal.counter ≡ c
      → Linked s.signal.next x ws
      → Holds
          (record s {
            signal = exchanged v i c x;
            pc = update s.pc i (spinning j);
            log = popped j ∷ s.log;
          })
          (waiters ws)
  popped-Holds strict c x e qc l = record {
    stands = l;
    distinct = distinct.1;
    told = replay-next s.log (popped j) (waiters (j ∷ ws)) (waiters ws) told (ground arith);
    sleeping = λ m h. ground (arith, sleeping m (inr h), e);
    found = popped_found;
    woken = λ k m y. elim (eq-cases i k) [
      | inl q ↦ ground (arith, sleeping j (inl refl), q, y, e)
      | inr ne ↦ ground (arith, woken k m, ne, y, e)
    ];
    alone = λ m k n y z. ground (arith, alone m k n, fresh_top m, fresh_top k, y, z);
    marked = update-all (λ m q. Marked (s.scratch m) q) s.pc i (spinning j) tt (λ m ne. marked m);
    knows =
        update-all (λ m q. Knows (exchanged v i c x) ws m q) s.pc i (spinning j) distinct.0
          (λ m ne.
            later-Knows s.signal (exchanged v i c x) (j ∷ ws) ws m (s.pc m) (omega (arith, qc)) refl
              (λ n q k. k.1) (knows m));
  }
    where
      popped_found :
          (m : ℕ)
          → sleeps (update s.pc i (spinning j) m) ≡ 1
          → Member m ws ⊎ ((k : ℕ) × (wakes (update s.pc i (spinning j) k) ≡ some m))
      popped_found m z = elim (found m (ground (arith, z))) [
        | inl (inl q) ↦ inr (i, ground (arith, q))
        | inl (inr h) ↦ inl h
        | inr (k, y) ↦ inr (k, ground (arith, y, e))
      ]

module _ {s : System} {a : State} (v : Holds s a) (i : ℕ) where
  open v use {stands, distinct, told, sleeping, found, woken, alone, marked, knows}

  -- A fiber has switched away.
  pub parked-Holds :
      s.pc i ≡ parking
      → Holds (record s { scratch = update s.scratch i true; pc = update s.pc i parked }) a
  parked-Holds e = record {
    stands = stands;
    distinct = distinct;
    told = told;
    sleeping = λ j m. ground (arith, sleeping j m);
    found = parked_found;
    woken = λ k j y. ground (arith, woken k j, y);
    alone = λ m k j y z. ground (arith, alone m k j, y, z);
    marked =
        update-all (λ j q. Marked (update s.scratch i true j) q) s.pc i parked
          (update_self s.scratch i true)
          (λ j ne.
            subst (λ b. Marked b (s.pc j)) (sym (update_ne s.scratch i j true ne)) (marked j));
    knows = update-all (λ j q. Knows s.signal (members a) j q) s.pc i parked tt (λ j ne. knows j);
  }
    where
      parked_found :
          (j : ℕ)
          → sleeps (update s.pc i parked j) ≡ 1
          → Member j (members a) ⊎ ((k : ℕ) × (wakes (update s.pc i parked k) ≡ some j))
      parked_found j z = elim (found j (ground (arith, z, e))) [
        | inl m ↦ inl m
        | inr (k, y) ↦ inr (k, ground (arith, y, e))
      ]

  -- A raiser schedules the fiber that it has popped.
  pub waking-Holds :
      (j : ℕ)
      → s.pc i ≡ spinning j
      → Holds (record s { pc = update (update s.pc j waking) i away }) a
  waking-Holds j e = record {
    stands = stands;
    distinct = distinct;
    told = told;
    sleeping = λ m h. ground (arith, sleeping m h, not_member m h, e);
    found = waking_found;
    woken = λ k m y. ground (arith, woken k m, alone i k j, e, y);
    alone = λ m k n y z. ground (arith, alone m k n, y, z);
    marked =
        update-all (λ m q. Marked (s.scratch m) q) (update s.pc j waking) i away tt
          (λ m ne.
            update-all (λ n q. Marked (s.scratch n) q) s.pc j waking tt (λ n ne'. marked n) m);
    knows =
        update-all (λ m q. Knows s.signal (members a) m q) (update s.pc j waking) i away tt
          (λ m ne.
            update-all (λ n q. Knows s.signal (members a) n q) s.pc j waking tt (λ n ne'. knows n)
              m);
  }
    where
      not_member : (m : ℕ) → Member m (members a) → j ≢ m
      not_member m h q =
          Member-NotIn m (members a)
            (subst (λ k. NotIn k (members a)) q (subst (Knows s.signal (members a) i) e (knows i)))
            h

      waking_found :
          (m : ℕ)
          → sleeps (update (update s.pc j waking) i away m) ≡ 1
          → Member m (members a)
            ⊎ ((k : ℕ) × (wakes (update (update s.pc j waking) i away k) ≡ some m))
      waking_found m z = elim (found m (ground (arith, z))) [
        | inl h ↦ inl h
        | inr (k, y) ↦ inr (k, ground (arith, y, e, z, woken i j))
      ]
