-- ===== src/Semaphore/Invariant.antt =====
-- The semaphore's counter against the fibers at it, kept by every action.
use libfiber.Prelude.{
  ℕ, zero, suc, ◌+◌, ◌-◌, ◌%◌, ◌^◌, ◌≤◌, ◌<◌, ◌≡◌, ◌≢◌, ◌⊎◌, inl, inr, refl, sym, subst, ◌∙◌, arith,
}
use libfiber.Prelude.{
  true, false, ◌==◌, ◌&&◌, ltb, eq-cases, update, dec_lt, lt→ltb, ge→ltb, List, [], ◌∷◌,
}
use libfiber.Prelude.{Distinct, Distinct-append, All}
use libfiber.Population.{
  tally, tally-update, tally-le, weight-le-tally, tally-absent, Parked, NotIn-Parked, Parked-update,
  Parked-move, Parked-join,
}
use libfiber.Semaphore.{
  refuse, switches, unrefused, Pc, away, entering, asleep, inside, looping, woke, taking, posting,
  System, Action,
}
use libfiber.Semaphore.{
  do_wait, do_trywait, do_post, go, spurious, act, run, negative, sub_int, init, try_wake,
  load_trywait, load_post,
}

-- The fibers with a permit: a post gives it up at its exchange, or to the fiber that it wakes.
abbrev pub holds : Pc → ℕ
holds inside = 1
holds looping = 1
holds (posting c) = 1
holds _ = 0

abbrev pub waits : Pc → ℕ
waits entering = 1
waits asleep = 1
waits _ = 0

-- Posts that have woken a fiber and not added to the counter.
abbrev pub owes : Pc → ℕ
owes woke = 1
owes _ = 0

abbrev counted : Pc → ℕ
counted p = holds p + waits p + owes p

counted-le : (p : Pc) → counted p ≤ 1
counted-le p = ground arith

counted-split :
    (n : ℕ) (pc : ℕ → Pc)
    → tally counted n pc ≡ tally holds n pc + tally waits n pc + tally owes n pc
counted-split zero pc = refl
counted-split (suc n) pc = omega (arith, counted-split n pc)

-- A loaded counter is one that the branch after the load has let through.
abbrev Plain : Pc → Type 0
Plain (posting c) = c < 2 ^ 31
Plain (taking c) = (0 < c) × (c < 2 ^ 31)
Plain _ = Unit

-- The numbers, for a semaphore that was initialised with `permits`.
pub record Counts (permits n counter : ℕ) (pc : ℕ → Pc) : Type 0 where
  pub few : n < 2 ^ 31
  pub small : permits < 2 ^ 31
  pub exact :
      counter
      ≡ (permits + 2 ^ 32 - (tally holds n pc + tally waits n pc + tally owes n pc)) % 2 ^ 32
  pub limit : tally holds n pc ≤ permits
  pub full : (tally holds n pc ≡ permits) ⊎ ((tally waits n pc ≡ 0) × (tally owes n pc ≡ 0))

pub record Inv (permits n : ℕ) (s : System) : Type 0 where
  pub counts : Counts permits n s.sem.counter s.pc
  pub plain : (i : ℕ) → Plain (s.pc i)
  pub queue : All (Parked asleep n s.pc) s.sem.waiters
  pub distinct : Distinct s.sem.waiters

record Sums (n i : ℕ) (pc : ℕ → Pc) (p : Pc) : Type 0 where
  holding : tally holds n (update pc i p) + holds (pc i) ≡ tally holds n pc + holds p
  waiting : tally waits n (update pc i p) + waits (pc i) ≡ tally waits n pc + waits p
  owing : tally owes n (update pc i p) + owes (pc i) ≡ tally owes n pc + owes p
  room : tally holds n pc + tally waits n pc + tally owes n pc ≤ n
  room_after :
      tally holds n (update pc i p) + tally waits n (update pc i p) + tally owes n (update pc i p)
      ≤ n

sums : (n i : ℕ) (pc : ℕ → Pc) (p : Pc) → i < n → Sums n i pc p
sums n i pc p h = record {
  holding = tally-update holds n i pc p h;
  waiting = tally-update waits n i pc p h;
  owing = tally-update owes n i pc p h;
  room = omega (arith, counted-split n pc, tally-le counted counted-le n pc);
  room_after =
      omega (arith, counted-split n (update pc i p), tally-le counted counted-le n (update pc i p));
}

sign-cases : (c : ℕ) → (negative c ≡ true) ⊎ (negative c ≡ false)
sign-cases c = ground arith

test-cases :
    (c : ℕ)
    → (((0 < c) × (c < 2 ^ 31)) × ((ltb 0 c && ltb c (2 ^ 31)) ≡ true))
      ⊎ ((ltb 0 c && ltb c (2 ^ 31)) ≡ false)
test-cases c = ground arith

==-true : (a b : ℕ) → a ≡ b → (a == b) ≡ true
==-true a b e = ground arith

==-false : (a b : ℕ) → a ≢ b → (a == b) ≡ false
==-false a b e = ground arith

module _ {permits n : ℕ} {s : System} (inv : Inv permits n s) (i : ℕ) (lt : i < n) where
  open inv use {counts, plain, queue, distinct}

  -- A fiber that is awake goes elsewhere, with a counter that the sums allow.
  move-Inv :
      (c : ℕ) (p : Pc)
      → s.pc i ≢ asleep
      → Plain p
      → Counts permits n c (update s.pc i p)
      → Inv permits n (record s { sem = record (s.sem) { counter = c }; pc = update s.pc i p })
  move-Inv c p up pl k = record {
    counts = k;
    plain = λ j. ground (arith, plain j);
    queue = Parked-move asleep n i s.pc p s.sem.waiters up queue;
    distinct = distinct;
  }

  -- The counter stays, and so does what the fiber counts for.
  stay-Inv :
      (p : Pc)
      → s.pc i ≢ asleep
      → Plain p
      → (holds p ≡ holds (s.pc i)) × (waits p ≡ waits (s.pc i)) × (owes p ≡ owes (s.pc i))
      → Inv permits n (record s { pc = update s.pc i p })
  stay-Inv p up pl w = move-Inv s.sem.counter p up pl (ground (arith, counts, sums n i s.pc p lt))

  wait-Inv : s.pc i ≡ away → Inv permits n (act do_wait away s i)
  unfolding act
  wait-Inv e = elim (sign-cases (sub_int s.sem.counter 1)) [
    | inl h ↦ rw h (
        move-Inv _ entering (λ q. cc (e, q)) tt
          (ground (arith, counts, sums n i s.pc entering lt, h)))
    | inr h ↦
        rw h (
          move-Inv _ inside (λ q. cc (e, q)) tt
            (ground (arith, counts, sums n i s.pc inside lt, h)))
  ]

  load_trywait-Inv :
      (p : Pc)
      → s.pc i ≡ p
      → p ≢ asleep
      → (holds p ≡ 0) × (waits p ≡ 0) × (owes p ≡ 0)
      → Inv permits n (load_trywait s i)
  load_trywait-Inv p e up w = elim (test-cases s.sem.counter) [
    | inl (h, k) ↦
        rw k (stay-Inv (taking s.sem.counter) (λ q. up (sym e ∙ q)) h (ground (arith, e, w)))
    | inr k ↦ rw k (stay-Inv away (λ q. up (sym e ∙ q)) tt (ground (arith, e, w)))
  ]

  take-Inv : (c : ℕ) → s.pc i ≡ taking c → Inv permits n (act go (taking c) s i)
  unfolding act
  take-Inv c e = elim (eq-cases s.sem.counter c) [
    | inl f ↦ rw (==-true s.sem.counter c f) (
        move-Inv _ inside (λ q. cc (e, q)) tt
          (ground (arith, counts, sums n i s.pc inside lt, subst Plain e (plain i), f)))
    | inr ne ↦
        rw (==-false s.sem.counter c ne)
          (load_trywait-Inv (taking c) e (λ q. cc q) (refl, refl, refl))
  ]

  post-Inv : (c : ℕ) → s.pc i ≡ posting c → Inv permits n (act go (posting c) s i)
  unfolding act
  post-Inv c e = elim (eq-cases s.sem.counter c) [
    | inl f ↦ rw (==-true s.sem.counter c f) (
        move-Inv _ away (λ q. cc (e, q)) tt
          (ground (arith, counts, sums n i s.pc away lt, subst Plain e (plain i), f)))
    | inr ne ↦
        rw (==-false s.sem.counter c ne) (stay-Inv looping (λ q. cc (e, q)) tt (ground (arith, e)))
  ]

  add-Inv : s.pc i ≡ woke → Inv permits n (act go woke s i)
  unfolding act
  add-Inv e =
      move-Inv _ away (λ q. cc (e, q)) tt
        (ground (arith, counts, sums n i s.pc away lt, weight-le-tally owes n i s.pc lt))

  enter-Inv : s.pc i ≡ entering → Inv permits n (act go entering s i)
  unfolding act
  enter-Inv e = record {
    counts = ground (arith, counts, sums n i s.pc asleep lt);
    plain = λ j. ground (arith, plain j);
    queue = Parked-join asleep n i s.pc s.sem.waiters lt (λ q. cc (e, q)) queue;
    distinct =
        Distinct-append i s.sem.waiters distinct
          (NotIn-Parked asleep n i s.pc s.sem.waiters (λ q. cc (e, q)) queue);
  }

  -- The fiber in front of the queue gets the permit of the fiber that posts.
  wake-Inv : (ws : List ℕ) → s.pc i ≡ looping → s.sem.waiters ≡ ws → Inv permits n (try_wake ws s i)
  wake-Inv [] e f = inv
  wake-Inv (j ∷ rest) e f = record {
    counts = ground (
      arith,
      counts,
      sums n j s.pc inside front.0.0,
      sums n i (update s.pc j inside) woke lt,
      front.0,
    );
    plain = λ k. ground (arith, plain k);
    queue =
        Parked-move asleep n i (update s.pc j inside) woke rest up
          (Parked-update asleep n j s.pc inside rest alone.0 front.1);
    distinct = alone.1;
  }
    where
      front : All (Parked asleep n s.pc) (j ∷ rest)
      front = subst (All (Parked asleep n s.pc)) f queue

      alone : Distinct (j ∷ rest)
      alone = subst Distinct f distinct

      up : update s.pc j inside i ≢ asleep
      up q = ground (arith, e)

  load_post-Inv : s.pc i ≡ looping → Inv permits n (load_post s i)
  load_post-Inv e = elim (sign-cases s.sem.counter) [
    | inl h ↦ rw h (wake-Inv s.sem.waiters e refl)
    | inr h ↦
        rw h (
          stay-Inv (posting s.sem.counter) (λ q. cc (e, q)) (ground (arith, h)) (ground (arith, e)))
  ]

  act-Inv : (a : Action) (p : Pc) → switches a ≡ true → s.pc i ≡ p → Inv permits n (act a p s i)
  unfolding act
  act-Inv refuse p u e = absurd (ground (arith, u))
  act-Inv do_wait away u e = wait-Inv e
  act-Inv do_trywait away u e = load_trywait-Inv away e (λ q. cc q) (refl, refl, refl)
  act-Inv do_post inside u e = stay-Inv looping (λ q. cc (e, q)) tt (ground (arith, e))
  act-Inv go entering u e = enter-Inv e
  act-Inv go (taking c) u e = take-Inv c e
  act-Inv go looping u e = load_post-Inv e
  act-Inv go (posting c) u e = post-Inv c e
  act-Inv spurious (taking c) u e = load_trywait-Inv (taking c) e (λ q. cc q) (refl, refl, refl)
  act-Inv spurious (posting c) u e = stay-Inv looping (λ q. cc (e, q)) tt (ground (arith, e))
  act-Inv go woke u e = add-Inv e
  act-Inv a p u e = inv

pub run-Inv :
    {permits : ℕ} (n : ℕ) (l : List (ℕ × Action)) (s : System)
    → unrefused l ≡ true
    → Inv permits n s
    → Inv permits n (run n l s)
unfolding run
run-Inv n [] s u inv = inv
run-Inv n ((i, a) ∷ l) s u inv = elim (dec_lt i n) [
  | yes lt ↦ rw (lt→ltb i n lt) (
      run-Inv n l (act a (s.pc i) s i) (ground (arith, u))
        (act-Inv inv i lt a (s.pc i) (ground (arith, u)) refl))
  | no ge ↦ rw (ge→ltb i n ge) (run-Inv n l s (ground (arith, u)) inv)
]

-- What `fiber_semaphore_init` leaves, with every fiber away.
pub record Initial (permits n : ℕ) (s : System) : Type 0 where
  pub few : n < 2 ^ 31
  pub small : permits < 2 ^ 31
  pub fresh : s.sem ≡ init permits
  pub absent : (i : ℕ) → s.pc i ≡ away

pub Initial-Inv : {permits n : ℕ} {s : System} → Initial permits n s → Inv permits n s
Initial-Inv {permits} {n} {s} z = record {
  counts = ground (
    arith,
    z.fresh,
    tally-absent holds away n s.pc refl z.absent,
    tally-absent waits away n s.pc refl z.absent,
    tally-absent owes away n s.pc refl z.absent,
  );
  plain = λ i. subst Plain (sym (z.absent i)) tt;
  queue = subst (λ m. All (Parked asleep n s.pc) m.waiters) (sym z.fresh) tt;
  distinct = subst (λ m. Distinct m.waiters) (sym z.fresh) tt;
}
