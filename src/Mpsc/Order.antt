-- ===== src/Mpsc/Order.antt =====
-- The FIFO under every schedule of its producers and its consumer: the invariant, and the order in
-- which values come out.
use libfiber.Prelude.{
  ℕ, ◌≡◌, ◌≢◌, ◌⊎◌, inl, inr, refl, sym, ◌∙◌, ap, subst, arith, update, update_self,
}
use libfiber.Prelude.{
  true, false, List, [], ◌∷◌, ◌++◌, map, map-append, append_assoc, append-nil, eq-cases,
}
use libfiber.Prelude.{
  NotIn, Distinct, All, last, last-append, NotIn-append, Distinct-append, All-append, NotIn-last,
  length, zero, suc,
}
use libfiber.Mpsc.Chain.{
  Pc, idle, linking, Follows, Joined, Chain, Follows-append, Follows-last, Follows-ne,
}
use libfiber.Mpsc.Chain.{Follows-ne_last, Chain-last, Chain-start, Chain-link, map-update}
use libfiber.Mpsc.Threads.{
  System, Action, start, finish, pop, published, linked, consumed, step, run,
}

-- `order` lists the nodes behind the dummy in the order of their publication.
pub record Holds (s : System) (order : List ℕ) : Type 0 where
  pub tail : s.fifo.tail ≡ last s.fifo.head order
  pub distinct : Distinct (s.fifo.head ∷ order)
  pub nonzero : All (λ n. n ≢ 0) (s.fifo.head ∷ order)
  pub chain : Chain s.fifo.next s.pc s.fifo.head order
  pub fresh : (n : ℕ) → s.owned n ≡ true → NotIn n (s.fifo.head ∷ order)
  pub busy :
      (i p n : ℕ) → s.pc i ≡ linking p n → Follows p n s.fifo.head order × (s.fifo.next p ≡ 0)
  pub alone : (i j p m n : ℕ) → s.pc i ≡ linking p m → s.pc j ≡ linking p n → i ≡ j
  pub history : s.pushed ≡ s.popped ++ map s.fifo.value order

module _ {s : System} {order : List ℕ} (inv : Holds s order) where
  open inv use {tail, distinct, nonzero, chain, fresh, busy, alone, history}

  last_unlinked : s.fifo.next s.fifo.tail ≡ 0
  last_unlinked = rw tail (Chain-last _ _ s.fifo.head order chain)

  -- No producer is linking behind the last node.
  tail_free : (j n : ℕ) → s.pc j ≢ linking s.fifo.tail n
  tail_free j n e = Follows-ne_last _ n s.fifo.head order distinct (busy j _ n e).0 tail

  module _ (i n v : ℕ) (free : s.pc i ≡ idle) (some_node : n ≢ 0) (mine : s.owned n ≡ true) where
    apart : NotIn n (s.fifo.head ∷ order)
    apart = fresh n mine

    start-fresh :
        (m : ℕ) → update s.owned n false m ≡ true → NotIn m (s.fifo.head ∷ (order ++ (n ∷ [])))
    start-fresh m h = NotIn-append m n (s.fifo.head ∷ order) (fresh m (ground arith)) (ground arith)

    start-busy :
        (j p m : ℕ)
        → update s.pc i (linking s.fifo.tail n) j ≡ linking p m
        → Follows p m s.fifo.head (order ++ (n ∷ [])) × (update s.fifo.next n 0 p ≡ 0)
    start-busy j p m e = elim (eq-cases i j) [
      | inl same ↦ (
        subst (λ q. Follows q m s.fifo.head (order ++ (n ∷ []))) (sym tail ∙ here same)
            (subst (λ k. Follows (last s.fifo.head order) k s.fifo.head (order ++ (n ∷ [])))
              (there same) (Follows-last n s.fifo.head order)),
        ground (arith, here same, last_unlinked, tail_ne),
      )
      | inr other ↦
          let (f, z) = busy j p m (ground arith) in
          (
            Follows-append p m n s.fifo.head order f,
            ground (arith, Follows-ne p m n s.fifo.head order f apart),
          )
    ]
      where
        here : i ≡ j → s.fifo.tail ≡ p
        here same = ground arith

        there : i ≡ j → n ≡ m
        there same = ground arith

        tail_ne : n ≢ s.fifo.tail
        tail_ne = rw tail (NotIn-last n s.fifo.head order apart)

    start-alone :
        (j k p m m' : ℕ)
        → update s.pc i (linking s.fifo.tail n) j ≡ linking p m
        → update s.pc i (linking s.fifo.tail n) k ≡ linking p m'
        → j ≡ k
    start-alone j k p m m' e e' = ground (arith, alone j k p m m', tail_free j m, tail_free k m')

    start-history :
        s.pushed ++ (v ∷ []) ≡ s.popped ++ map (update s.fifo.value n v) (order ++ (n ∷ []))
    start-history =
        rw (
          map-append,
          history,
          append_assoc,
          map-update s.fifo.value n v order apart.1,
          update_self,
        )

    pub start-Holds : Holds (published s i n v) (order ++ (n ∷ []))
    unfolding published
    start-Holds = record {
      tail = sym (last-append s.fifo.head n order);
      distinct = Distinct-append n (s.fifo.head ∷ order) distinct apart;
      nonzero = All-append _ (s.fifo.head ∷ order) (n ∷ []) nonzero (some_node, tt);
      chain = Chain-start s.fifo.next s.pc i n s.fifo.head order free apart chain _ tail;
      fresh = start-fresh;
      busy = start-busy;
      alone = start-alone;
      history = start-history;
    }

  module _ (i p n : ℕ) (mid : s.pc i ≡ linking p n) where
    link-busy :
        (j q m : ℕ)
        → update s.pc i idle j ≡ linking q m
        → Follows q m s.fifo.head order × (update s.fifo.next p n q ≡ 0)
    link-busy j q m e = (ground (arith, busy j q m), ground (arith, busy j q m, alone i j q n m))

    pub link-Holds : Holds (linked s i p n) order
    unfolding linked
    link-Holds = record {
      tail = tail;
      distinct = distinct;
      nonzero = nonzero;
      chain =
          Chain-link s.fifo.next s.pc i p n s.fifo.head order mid distinct (busy i p n mid).0 chain;
      fresh = fresh;
      busy = link-busy;
      alone = λ j k q m m' e e'. ground (arith, alone j k q m m');
      history = history;
    }

-- The consumer finds the first node linked, and takes its value.
module _ {s : System} {b : ℕ} {order : List ℕ} (inv : Holds s (b ∷ order))
    (ready : s.fifo.next s.fifo.head ≡ b) where
  open inv use {tail, distinct, nonzero, chain, fresh, busy, alone, history}

  b_node : b ≢ 0
  b_node = nonzero.1.0

  pop-fresh : (m : ℕ) → update s.owned s.fifo.head true m ≡ true → NotIn m (b ∷ order)
  pop-fresh m h = elim (eq-cases s.fifo.head m) [
    | inl e ↦ subst (λ k. NotIn k (b ∷ order)) e distinct.0
    | inr ne ↦ (fresh m (ground arith)).1
  ]

  pop-busy : (j p n : ℕ) → s.pc j ≡ linking p n → Follows p n b order × (s.fifo.next p ≡ 0)
  pop-busy j p n e = (behind (busy j p n e).0, (busy j p n e).1)
    where
      behind : Follows p n s.fifo.head (b ∷ order) → Follows p n b order
      behind (inl q) = absurd (b_node (sym ready ∙ ap s.fifo.next (sym q.0) ∙ (busy j p n e).1))
      behind (inr f) = f

  pop-history :
      s.pushed
      ≡ (s.popped ++ (s.fifo.value b ∷ []))
        ++ map (update s.fifo.value s.fifo.head (s.fifo.value b)) order
  pop-history =
      rw (map-update s.fifo.value s.fifo.head (s.fifo.value b) order distinct.0.1, append_assoc)
        history

  abbrev taken : System
  taken = record s {
    fifo = record (s.fifo) { head = b; value = update s.fifo.value s.fifo.head (s.fifo.value b) };
    owned = update s.owned s.fifo.head true;
    popped = s.popped ++ (s.fifo.value b ∷ []);
  }

  consumed-ready : consumed s ≡ taken
  unfolding consumed
  consumed-ready = ground (arith, ready, b_node, nonzero.0)

  taken-Holds : Holds taken order
  taken-Holds = record {
    tail = tail;
    distinct = distinct.1;
    nonzero = nonzero.1;
    chain = chain.1;
    fresh = pop-fresh;
    busy = pop-busy;
    alone = alone;
    history = pop-history;
  }

  pub pop-Holds : Holds (consumed s) order
  pop-Holds = rw consumed-ready taken-Holds

-- An empty FIFO, or one whose first node is not linked yet, is left alone.
consumed-unlinked : (s : System) → s.fifo.next s.fifo.head ≡ 0 → consumed s ≡ s
unfolding consumed
consumed-unlinked s e = ground arith

consumed-Holds :
    (s : System) (order : List ℕ) → Holds s order → (rest : List ℕ) × Holds (consumed s) rest
consumed-Holds s [] inv = ([], rw (consumed-unlinked s inv.chain) inv)
consumed-Holds s (b ∷ bs) inv = by_link inv.chain.0
  where
    by_link : Joined s.fifo.next s.pc s.fifo.head b → (rest : List ℕ) × Holds (consumed s) rest
    by_link (inl ready) = (bs, pop-Holds inv ready)
    by_link (inr (z, _)) = (b ∷ bs, rw (consumed-unlinked s z) inv)

Pc-cases : (c : Pc) → (c ≡ idle) ⊎ ((p : ℕ) × (n : ℕ) × (c ≡ linking p n))
Pc-cases idle = inl refl
Pc-cases (linking p n) = inr (p, n, refl)

start-step :
    (i n v : ℕ) (s : System)
    → (step (start i n v) s ≡ s)
      ⊎ ((step (start i n v) s ≡ published s i n v)
          × (s.pc i ≡ idle)
          × (n ≢ 0)
          × (s.owned n ≡ true))
unfolding step
start-step i n v s = elim (Pc-cases (s.pc i)) [
  | inl free ↦ ground (arith, free)
  | inr (p, m, e) ↦ inl (ground (arith, e))
]

finish-step :
    (i : ℕ) (s : System)
    → (step (finish i) s ≡ s)
      ⊎ ((p : ℕ) × (n : ℕ) × (s.pc i ≡ linking p n) × (step (finish i) s ≡ linked s i p n))
unfolding step
finish-step i s = elim (Pc-cases (s.pc i)) [
  | inl free ↦ inl (ground (arith, free))
  | inr (p, n, e) ↦ inr (p, n, e, ground (arith, e))
]

step-pop : (s : System) → step pop s ≡ consumed s
unfolding step
step-pop s = refl

pub step-Holds :
    (a : Action) (s : System) (order : List ℕ)
    → Holds s order
    → (rest : List ℕ) × Holds (step a s) rest
step-Holds (start i n v) s order inv = elim (start-step i n v s) [
  | inl e ↦ (order, rw e inv)
  | inr (e, free, node, mine) ↦ (order ++ (n ∷ []), rw e (start-Holds inv i n v free node mine))
]
step-Holds (finish i) s order inv = elim (finish-step i s) [
  | inl e ↦ (order, rw e inv)
  | inr (p, n, mid, e) ↦ (order, rw e (link-Holds inv i p n mid))
]
step-Holds pop s order inv = rw step-pop (consumed-Holds s order inv)

run-Holds :
    (l : List Action) (s : System) (order : List ℕ)
    → Holds s order
    → (rest : List ℕ) × Holds (run l s) rest
unfolding run
run-Holds [] s order inv = (order, inv)
run-Holds (a ∷ l) s order inv =
    let (rest, next) = step-Holds a s order inv in run-Holds l (step a s) rest next

-- What `mpsc_fifo_init` leaves: the dummy belongs to the FIFO, and nothing has happened.
pub record Initial (s : System) : Type 0 where
  pub node : s.fifo.head ≢ 0
  pub tail : s.fifo.tail ≡ s.fifo.head
  pub linked_none : s.fifo.next s.fifo.head ≡ 0
  pub quiet : (i : ℕ) → s.pc i ≡ idle
  pub dummy : s.owned s.fifo.head ≡ false
  pub none_pushed : s.pushed ≡ []
  pub none_popped : s.popped ≡ []

Initial-Holds : {s : System} → Initial s → Holds s []
Initial-Holds {s} z = record {
  tail = z.tail;
  distinct = (tt, tt);
  nonzero = (z.node, tt);
  chain = z.linked_none;
  fresh = λ n h. (λ e. not_mine (sym (subst (λ k. s.owned k ≡ true) e h) ∙ z.dummy), tt);
  busy = λ i p n e. cc (z.quiet i);
  alone = λ i j p m n e e'. cc (z.quiet i);
  history = rw (z.none_pushed, z.none_popped);
}
  where
    not_mine : true ≢ false
    not_mine e = cc

-- Whatever the schedule, the consumer has taken the values in the order in which their pushes
-- exchanged the tail: what it popped is what was pushed, up to the values still in the FIFO.
pub popped_in_order :
    (l : List Action) {s : System}
    → Initial s
    → (rest : List ℕ) × ((run l s).pushed ≡ (run l s).popped ++ rest)
popped_in_order l {s} z =
    let (order, inv) = run-Holds l s [] (Initial-Holds z) in
    (map (run l s).fifo.value order, inv.history)

-- No push in progress: every node is linked, and as many pops as there are nodes take them all.
abbrev pub pops : ℕ → List Action
pops zero = []
pops (suc k) = pop ∷ pops k

run-cons : (a : Action) (l : List Action) (s : System) → run (a ∷ l) s ≡ run l (step a s)
unfolding run
run-cons a l s = refl

drain :
    (s : System) (order : List ℕ)
    → Holds s order
    → ((i : ℕ) → s.pc i ≡ idle)
    → (run (pops (length order)) s).popped ≡ s.pushed
drain s [] inv quiet = run-nil s ∙ sym (inv.history ∙ append-nil _)
  where
    run-nil : (s : System) → (run [] s).popped ≡ s.popped
    run-nil s = unfold run in refl
drain s (b ∷ bs) inv quiet = elim inv.chain.0 [
  | inl ready ↦
      rw (run-cons, step-pop, consumed-ready inv ready)
        (drain (taken inv ready) bs (taken-Holds inv ready) quiet)
  | inr (z, (i, e)) ↦ cc (quiet i)
]

-- Once every push that was begun is finished, some number of pops takes every value that was pushed.
pub all_popped :
    (l : List Action) {s : System}
    → Initial s
    → ((i : ℕ) → (run l s).pc i ≡ idle)
    → (k : ℕ) × ((run (pops k) (run l s)).popped ≡ (run l s).pushed)
all_popped l {s} z quiet =
    let (order, inv) = run-Holds l s [] (Initial-Holds z) in
    (length order, drain (run l s) order inv quiet)
