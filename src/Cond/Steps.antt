-- ===== src/Cond/Steps.antt =====
-- The steps of a fiber at a condition variable.
use libfiber.Prelude.{
  ℕ, zero, suc, ◌+◌, ◌%◌, ◌^◌, ◌≤◌, ◌<◌, ◌≡◌, ◌≢◌, inl, inr, refl, ap, sym, subst, arith, Bool,
  true, false, Bool-cases, leb, sub64, if◌then◌else◌, List, [], ◌∷◌, length, length-append, update,
  eq-cases, All, Distinct, Distinct-append,
}
use libfiber.Population.{
  tally, tally-update, tally-some, tally-lone, tally-le, Parked, NotIn-Parked, Parked-update,
  Parked-move, Parked-join,
}
use libfiber.Cond.{
  refuse, switches, Cond, Pc, away, entering, asleep, restoring, locking, locked, waking, System,
  Action, do_wait, go, do_signal, moved, signal, broadcast, wake, act,
}

abbrev pub holds : Pc → ℕ
holds (locked all) = 1
holds restoring = 1
holds (waking k) = 1
holds _ = 0

abbrev pub waits : Pc → ℕ
waits entering = 1
waits asleep = 1
waits _ = 0

abbrev pub sleeps : Pc → ℕ
sleeps asleep = 1
sleeps _ = 0

abbrev pub restores : Pc → ℕ
restores restoring = 1
restores _ = 0

-- The fibers that a fiber still has to wake.
abbrev pub wakes : Pc → ℕ
wakes (waking k) = k
wakes _ = 0

pub record Inv (n : ℕ) (s : System) : Type 0 where
  pub one : tally holds n s.pc ≡ (if s.cond.internal_mutex then 1 else 0)
  pub word : s.cond.waiter_count < 2 ^ 64
  pub exact :
      (s.cond.waiter_count + tally restores n s.pc) % 2 ^ 64 + tally wakes n s.pc
      ≡ tally waits n s.pc
  pub slept : tally sleeps n s.pc ≡ length s.cond.waiters
  pub queue : All (Parked asleep n s.pc) s.cond.waiters
  pub distinct : Distinct s.cond.waiters

record Sums (n i : ℕ) (pc : ℕ → Pc) (p : Pc) : Type 0 where
  holding : tally holds n (update pc i p) + holds (pc i) ≡ tally holds n pc + holds p
  waiting : tally waits n (update pc i p) + waits (pc i) ≡ tally waits n pc + waits p
  sleeping : tally sleeps n (update pc i p) + sleeps (pc i) ≡ tally sleeps n pc + sleeps p
  restored : tally restores n (update pc i p) + restores (pc i) ≡ tally restores n pc + restores p
  awakened : tally wakes n (update pc i p) + wakes (pc i) ≡ tally wakes n pc + wakes p

sums : (n i : ℕ) (pc : ℕ → Pc) (p : Pc) → i < n → Sums n i pc p
sums n i pc p h = record {
  holding = tally-update holds n i pc p h;
  waiting = tally-update waits n i pc p h;
  sleeping = tally-update sleeps n i pc p h;
  restored = tally-update restores n i pc p h;
  awakened = tally-update wakes n i pc p h;
}

waits-le : (n : ℕ) (pc : ℕ → Pc) → tally waits n pc ≤ n
waits-le n pc = tally-le waits (λ p. ground arith) n pc

module _ {n : ℕ} {s : System} (v : Inv n s) (b : n < 2 ^ 31) (i : ℕ) (h : i < n) where
  open v use {one, word, exact, slept, queue, distinct}

  -- What only holders of the mutex do, no one does while another holds it.
  nobody :
      (w : Pc → ℕ)
      → ((p : Pc) → 0 < w p → holds p ≡ 1)
      → holds (s.pc i) ≡ 1
      → w (s.pc i) ≡ 0
      → tally w n s.pc ≡ 0
  nobody w f e z = elim (eq-cases (tally w n s.pc) 0) [
    | inl q ↦ q
    | inr ne ↦
        let (j, hj, y) = tally-some w n s.pc (omega (arith, ne)) in
        absurd (
          omega (
            arith,
            z,
            y,
            ap (λ k. w (s.pc k))
                (tally-lone holds n i j s.pc h hj (ground (arith, one, e, f (s.pc j) y))),
          ))
  ]

  -- The queue stays when a fiber moves that is not in it.
  move-Inv :
      (c : Cond) (p : Pc)
      → s.pc i ≢ asleep
      → sleeps p ≡ 0
      → c.waiters ≡ s.cond.waiters
      → c.waiter_count < 2 ^ 64
      → tally holds n (update s.pc i p) ≡ (if c.internal_mutex then 1 else 0)
      → (c.waiter_count + tally restores n (update s.pc i p)) % 2 ^ 64
          + tally wakes n (update s.pc i p)
        ≡ tally waits n (update s.pc i p)
      → Inv n (moved s i c p)
  move-Inv c p na z q w o x = record {
    one = o;
    word = w;
    exact = x;
    slept = slept_same (s.pc i) refl;
    queue =
        subst (All (Parked asleep n (update s.pc i p))) (sym q)
          (Parked-move asleep n i s.pc p s.cond.waiters na queue);
    distinct = subst Distinct (sym q) distinct;
  }
    where
      slept_same : (r : Pc) → s.pc i ≡ r → tally sleeps n (update s.pc i p) ≡ length c.waiters
      slept_same asleep e = absurd (na e)
      slept_same r e = ground (arith, slept, tally-update sleeps n i s.pc p h, z, e, ap length q)

  wait-Inv : s.pc i ≡ away → Inv n (act do_wait away s i)
  unfolding act
  wait-Inv e =
      move-Inv _ entering (λ q. ground (arith, e, q)) refl refl (omega arith)
        (ground (arith, one, e, sums n i s.pc entering h))
        (ground
          (arith, exact, word, e, b, sums n i s.pc entering h, waits-le n (update s.pc i entering)))

  pub alone : (e : holds (s.pc i) ≡ 1) → restores (s.pc i) ≡ 0 → tally restores n s.pc ≡ 0
  alone e z = nobody restores (λ p y. ground (arith, y)) e z

  no_waker : (e : holds (s.pc i) ≡ 1) → wakes (s.pc i) ≡ 0 → tally wakes n s.pc ≡ 0
  no_waker e z = nobody wakes (λ p y. ground (arith, y)) e z

  signal-Inv : s.pc i ≡ locked false → Inv n (signal s i)
  signal-Inv e = elim (Bool-cases (leb (2 ^ 63) (sub64 s.cond.waiter_count 1))) [
    | inl t ↦ rw t (
        move-Inv _ restoring (λ q. ground (arith, e, q)) refl refl (omega arith)
          (ground (arith, one, e, sums n i s.pc restoring h))
          (ground (
            arith,
            exact,
            word,
            t,
            e,
            b,
            alone (ap holds e) (ap restores e),
            no_waker (ap holds e) (ap wakes e),
            sums n i s.pc restoring h,
            waits-le n s.pc,
          )))
    | inr t ↦ rw t (
        move-Inv _ (waking 1) (λ q. ground (arith, e, q)) refl refl (omega arith)
          (ground (arith, one, e, sums n i s.pc (waking 1) h))
          (ground (
            arith,
            exact,
            word,
            t,
            e,
            b,
            alone (ap holds e) (ap restores e),
            no_waker (ap holds e) (ap wakes e),
            sums n i s.pc (waking 1) h,
            waits-le n s.pc,
          )))
  ]

  broadcast-Inv : s.pc i ≡ locked true → Inv n (broadcast s i)
  broadcast-Inv e =
      move-Inv _ (waking (s.cond.waiter_count)) (λ q. ground (arith, e, q)) refl refl (omega arith)
        (ground (arith, one, e, sums n i s.pc (waking (s.cond.waiter_count)) h))
        (ground (
          arith,
          exact,
          word,
          e,
          b,
          alone (ap holds e) (ap restores e),
          no_waker (ap holds e) (ap wakes e),
          sums n i s.pc (waking (s.cond.waiter_count)) h,
        ))

  enter-Inv : s.pc i ≡ entering → Inv n (act go entering s i)
  unfolding act
  enter-Inv e = record {
    one = ground (arith, one, e, sums n i s.pc asleep h);
    word = word;
    exact = ground (arith, exact, e, sums n i s.pc asleep h);
    slept = ground (arith, slept, e, sums n i s.pc asleep h, length-append s.cond.waiters (i ∷ []));
    queue = Parked-join asleep n i s.pc s.cond.waiters h (λ q. ground (arith, e, q)) queue;
    distinct =
        Distinct-append i s.cond.waiters distinct
          (NotIn-Parked asleep n i s.pc s.cond.waiters (λ q. ground (arith, e, q)) queue);
  }

  -- A step to the internal mutex, or to its tests.
  lock-Inv : (all : Bool) → s.pc i ≡ locking all → Inv n (act go (locking all) s i)
  unfolding act
  lock-Inv all e = elim (Bool-cases s.cond.internal_mutex) [
    | inl t ↦ ground (arith, v, t)
    | inr t ↦ rw t (
        move-Inv _ (locked all) (λ q. ground (arith, e, q)) refl refl word
          (ground (arith, one, t, e, sums n i s.pc (locked all) h))
          (ground (arith, exact, e, sums n i s.pc (locked all) h)))
  ]

  restore-Inv : s.pc i ≡ restoring → Inv n (act go restoring s i)
  unfolding act
  restore-Inv e =
      move-Inv _ (waking 0) (λ q. ground (arith, e, q)) refl refl (omega arith)
        (ground (arith, one, e, sums n i s.pc (waking 0) h))
        (ground (arith, exact, word, e, b, sums n i s.pc (waking 0) h))

  unlock-Inv : s.pc i ≡ waking 0 → Inv n (act go (waking 0) s i)
  unfolding act
  unlock-Inv e =
      move-Inv _ away (λ q. ground (arith, e, q)) refl refl word
        (ground (arith, one, e, sums n i s.pc away h))
        (ground (arith, exact, e, sums n i s.pc away h))

  wake-Inv :
      (ws : List ℕ) (k : ℕ) → s.pc i ≡ waking (suc k) → s.cond.waiters ≡ ws → Inv n (wake ws k s i)
  wake-Inv [] k e f = v
  wake-Inv (j ∷ rest) k e f = record {
    one = ground (
      arith,
      one,
      e,
      front.0.1,
      stays,
      sums n j s.pc away front.0.0,
      sums n i (update s.pc j away) (waking k) h,
    );
    word = word;
    exact = ground (
      arith,
      exact,
      e,
      front.0.1,
      stays,
      sums n j s.pc away front.0.0,
      sums n i (update s.pc j away) (waking k) h,
    );
    slept = ground (
      arith,
      slept,
      e,
      front.0.1,
      stays,
      ap length f,
      sums n j s.pc away front.0.0,
      sums n i (update s.pc j away) (waking k) h,
    );
    queue =
        Parked-move asleep n i (update s.pc j away) (waking k) rest (λ q. cc (stays, e, q))
          (Parked-update asleep n j s.pc away rest apart.0 front.1);
    distinct = apart.1;
  }
    where
      front : All (Parked asleep n s.pc) (j ∷ rest)
      front = subst (All (Parked asleep n s.pc)) f queue

      apart : Distinct (j ∷ rest)
      apart = subst Distinct f distinct

      stays : update s.pc j away i ≡ s.pc i
      stays = ground (arith, e, front.0)

  pub act-Inv : (a : Action) (p : Pc) → switches a ≡ true → s.pc i ≡ p → Inv n (act a p s i)
  unfolding act
  act-Inv refuse p u e = absurd (ground (arith, u))
  act-Inv do_wait away u e = wait-Inv e
  act-Inv go entering u e = enter-Inv e
  act-Inv (do_signal all) away u e =
      move-Inv s.cond (locking all) (λ q. ground (arith, e, q)) refl refl word
        (ground (arith, one, e, sums n i s.pc (locking all) h))
        (ground (arith, exact, e, sums n i s.pc (locking all) h))
  act-Inv go (locking all) u e = lock-Inv all e
  act-Inv go (locked false) u e = signal-Inv e
  act-Inv go (locked true) u e = broadcast-Inv e
  act-Inv go restoring u e = restore-Inv e
  act-Inv go (waking zero) u e = unlock-Inv e
  act-Inv go (waking (suc k)) u e = wake-Inv s.cond.waiters k e refl
  act-Inv a p u e = v
