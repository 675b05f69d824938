-- ===== src/Lifo/Stages.antt =====
-- What each thread at the stack knows at its point of the code, and the steps that keep it.
use libfiber.Prelude.{
  ℕ, ◌+◌, ◌≤◌, ◌<◌, ◌≡◌, ◌≢◌, ◌⊎◌, inl, inr, refl, ap, sym, subst, ◌∙◌, arith, true, false,
  eq-cases, some, List, ◌∷◌, update, update_self, update_ne, NotIn, Distinct,
}
use libfiber.Lifo.{
  Lifo, Pc, away, push_counter, push_head, push_link, push_swap, pop_counter, pop_head, pop_next,
  pop_swap, pushed, popped, found_empty, System, moved,
}
use libfiber.Lifo.Linked.{
  Linked, replay, Linked-update, Linked-top, Linked-empty, after_log-pushed, after_log-popped,
  after_log-found_empty,
}

-- The node that a pusher has to push.
abbrev pub carries : Pc → ℕ
carries (push_counter n) = n
carries (push_head n c) = n
carries (push_link n c h) = n
carries (push_swap n c h) = n
carries _ = 0

-- While the counter is what a thread has loaded, the rest that it has loaded is so too.
abbrev pub Current : Lifo → ℕ → ℕ → Type 0
Current f c h = (c ≤ f.counter) × (c ≡ f.counter → h ≡ f.head)

abbrev pub Knows : Lifo → Pc → Type 0
Knows f away = Unit
Knows f (push_counter n) = n ≢ 0
Knows f (push_head n c) = (n ≢ 0) × (c ≤ f.counter)
Knows f (push_link n c h) = (n ≢ 0) × Current f c h
Knows f (push_swap n c h) = (n ≢ 0) × Current f c h × (f.next n ≡ h)
Knows f pop_counter = Unit
Knows f (pop_head c) = c ≤ f.counter
Knows f (pop_next c h) = (h ≢ 0) × Current f c h
Knows f (pop_swap c h x) = (h ≢ 0) × Current f c h × (c ≡ f.counter → x ≡ f.next h)

pub record Holds (s : System) (ns : List ℕ) : Type 0 where
  pub linked : Linked s.lifo.next s.lifo.head ns
  pub distinct : Distinct ns
  pub told : replay s.log ≡ some ns
  pub free : (m : ℕ) → s.owned m ≡ true → NotIn m ns
  pub carried :
      (i : ℕ)
      → carries (s.pc i) ≢ 0
      → NotIn (carries (s.pc i)) ns × (s.owned (carries (s.pc i)) ≡ false)
  pub alone : (i j : ℕ) → carries (s.pc i) ≢ 0 → carries (s.pc i) ≡ carries (s.pc j) → i ≡ j
  pub knows : (i : ℕ) → Knows s.lifo (s.pc i)

update-all :
    (P : ℕ → Pc → Type 0) (pc : ℕ → Pc) (i : ℕ) (p : Pc)
    → P i p
    → ((j : ℕ) → i ≢ j → P j (pc j))
    → (j : ℕ) → P j (update pc i p j)
update-all P pc i p h k j = elim (eq-cases i j) [
  | inl e ↦ subst (λ m. P m (update pc i p m)) e (subst (P i) (sym (update_self pc i p)) h)
  | inr ne ↦ subst (P j) (sym (update_ne pc i j p ne)) (k j ne)
]

module _ {s : System} {ns : List ℕ} (v : Holds s ns) (i : ℕ) where
  open v use {linked, distinct, told, free, carried, alone, knows}

  -- What no two threads carry stays so when `i` carries on or carries nothing.
  keep-alone :
      (p : Pc)
      → (carries p ≡ carries (s.pc i)) ⊎ (carries p ≡ 0)
      → (j k : ℕ) → carries (update s.pc i p j) ≢ 0
      → carries (update s.pc i p j) ≡ carries (update s.pc i p k)
      → j ≡ k
  keep-alone p h j k nz e = ground (arith, alone j k, alone i k, alone j i, h, nz, e)

  keep-carried :
      (p : Pc)
      → (carries p ≡ carries (s.pc i)) ⊎ (carries p ≡ 0)
      → (j : ℕ) → carries (update s.pc i p j) ≢ 0
      → NotIn (carries (update s.pc i p j)) ns × (s.owned (carries (update s.pc i p j)) ≡ false)
  keep-carried p h =
      update-all (λ j q. carries q ≢ 0 → NotIn (carries q) ns × (s.owned (carries q) ≡ false)) s.pc
        i p mine (λ j ne. carried j)
    where
      mine : carries p ≢ 0 → NotIn (carries p) ns × (s.owned (carries p) ≡ false)
      mine nz = elim h [
        | inl e ↦
            subst (λ m. NotIn m ns × (s.owned m ≡ false)) (sym e) (carried i (λ z. nz (e ∙ z)))
        | inr z ↦ absurd (nz z)
      ]

  -- A step that only loads.
  pub load-Holds :
      (p : Pc)
      → (carries p ≡ carries (s.pc i)) ⊎ (carries p ≡ 0)
      → Knows s.lifo p
      → Holds (moved s i p) ns
  load-Holds p h k = record {
    linked = linked;
    distinct = distinct;
    told = told;
    free = free;
    carried = keep-carried p h;
    alone = keep-alone p h;
    knows = update-all (λ j q. Knows s.lifo q) s.pc i p k (λ j ne. knows j);
  }

  -- A pop finds the stack empty.
  pub empty-Holds :
      s.lifo.head ≡ 0 → Holds (record s { pc = update s.pc i away; log = found_empty ∷ s.log }) ns
  empty-Holds z =
      let w = load-Holds away (inr refl) tt in
      let e = Linked-empty s.lifo.next s.lifo.head ns linked z in
      record {
        linked = linked;
        distinct = distinct;
        told =
            subst (λ ms. replay (found_empty ∷ s.log) ≡ some ms) (sym e)
              (after_log-found_empty s.log (told ∙ ap some e));
        free = free;
        carried = w.carried;
        alone = w.alone;
        knows = w.knows;
      }

  -- A client gives its node away.
  pub give-Holds :
      (n : ℕ)
      → s.owned n ≡ true
      → n ≢ 0
      → s.pc i ≡ away
      → Holds (record s { pc = update s.pc i (push_counter n); owned = update s.owned n false }) ns
  give-Holds n o nz e = record {
    linked = linked;
    distinct = distinct;
    told = told;
    free = λ m q. free m (ground (arith, q));
    carried =
        update-all
          (λ j q.
            carries q ≢ 0 → NotIn (carries q) ns × (update s.owned n false (carries q) ≡ false))
          s.pc i (push_counter n) (λ z. (free n o, update_self s.owned n false))
          (λ j ne z. ((carried j z).0, ground (arith, (carried j z).1)));
    alone = λ j k z q. ground (arith, alone j k, carried j, carried k, z, q, o, e, nz);
    knows = update-all (λ j q. Knows s.lifo q) s.pc i (push_counter n) nz (λ j ne. knows j);
  }

  -- A pusher writes its node.
  module _ (n c h : ℕ) (e : s.pc i ≡ push_link n c h) where
    nonzero : n ≢ 0
    nonzero = (subst (Knows s.lifo) e (knows i)).0

    mine : carries (s.pc i) ≡ n
    mine = ap carries e

    apart : NotIn n ns
    apart = subst (λ m. NotIn m ns) mine (carried i (λ z. nonzero (sym mine ∙ z))).0

    not_theirs : (j : ℕ) → i ≢ j → n ≢ carries (s.pc j)
    not_theirs j ne q = ne (alone i j (λ z. nonzero (sym mine ∙ z)) (mine ∙ q))

    not_head : s.lifo.head ≢ 0 → n ≢ s.lifo.head
    not_head nz q =
        let (ms, f, l) = Linked-top s.lifo.next s.lifo.head ns linked nz in
        (subst (NotIn n) f apart).0 q

    abbrev written : Lifo
    written = let f = s.lifo in record f { next = update f.next n h }

    link-Knows : (p : Pc) → n ≢ carries p → Knows s.lifo p → Knows written p
    link-Knows away ne k = tt
    link-Knows (push_counter m) ne k = k
    link-Knows (push_head m d) ne k = k
    link-Knows (push_link m d x) ne k = k
    link-Knows (push_swap m d x) ne k = (k.0, k.1, update_ne s.lifo.next n m h ne ∙ k.2)
    link-Knows pop_counter ne k = tt
    link-Knows (pop_head d) ne k = k
    link-Knows (pop_next d x) ne k = k
    link-Knows (pop_swap d x y) ne (nz, cur, f) = (
      nz,
      cur,
      λ q.
          f q
          ∙ sym (update_ne s.lifo.next n x h (λ r. not_head (λ z. nz (cur.1 q ∙ z)) (r ∙ cur.1 q))),
    )

    pub link-Holds : Holds (record s { lifo = written; pc = update s.pc i (push_swap n c h) }) ns
    link-Holds = record {
      linked = Linked-update s.lifo.next s.lifo.head n h ns apart linked;
      distinct = distinct;
      told = told;
      free = free;
      carried = keep-carried (push_swap n c h) (inl (sym mine));
      alone = keep-alone (push_swap n c h) (inl (sym mine));
      knows =
          update-all (λ j q. Knows written q) s.pc i (push_swap n c h)
            (nonzero, (subst (Knows s.lifo) e (knows i)).1, update_self s.lifo.next n h)
            (λ j ne. link-Knows (s.pc j) (not_theirs j ne) (knows j));
    }

-- An exchange moves the counter on, so nothing that the others have loaded is current.
later-Knows :
    (f g : Lifo) (p : Pc) → f.counter < g.counter → g.next ≡ f.next → Knows f p → Knows g p
later-Knows f g away l e k = tt
later-Knows f g (push_counter m) l e k = k
later-Knows f g (push_head m d) l e k = (k.0, omega (arith, k.1))
later-Knows f g (push_link m d x) l e k =
    (k.0, (omega (arith, k.1), λ q. absurd (omega (arith, k.1, q))))
later-Knows f g (push_swap m d x) l e k = (
  k.0,
  (omega (arith, k.1), λ q. absurd (omega (arith, k.1, q))),
  ap (λ (t : ℕ → ℕ). t m) e ∙ k.2,
)
later-Knows f g pop_counter l e k = tt
later-Knows f g (pop_head d) l e k = omega (arith, k)
later-Knows f g (pop_next d x) l e k =
    (k.0, (omega (arith, k.1), λ q. absurd (omega (arith, k.1, q))))
later-Knows f g (pop_swap d x y) l e k = (
  k.0,
  (omega (arith, k.1), λ q. absurd (omega (arith, k.1, q))),
  λ q. absurd (omega (arith, k.1, q)),
)

module _ {s : System} {ns : List ℕ} (v : Holds s ns) (i : ℕ) where
  open v use {linked, distinct, told, free, carried, alone, knows}

  others :
      (g : Lifo) (j : ℕ)
      → s.lifo.counter < g.counter
      → g.next ≡ s.lifo.next
      → Knows g (update s.pc i away j)
  others g j l e =
      update-all (λ k q. Knows g q) s.pc i away tt
        (λ k ne. later-Knows s.lifo g (s.pc k) l e (knows k)) j

  -- The exchange of a push succeeds.
  pub pushed-Holds :
      (n c h : ℕ)
      → s.pc i ≡ push_swap n c h
      → s.lifo.counter ≡ c
      → s.lifo.head ≡ h
      → Holds
          (let f = s.lifo in
            record s {
              lifo = record f { counter = c + 1; head = n };
              pc = update s.pc i away;
              log = pushed n ∷ s.log;
            })
          (n ∷ ns)
  pushed-Holds n c h e qc qh = record {
    linked = (refl, nz, subst (λ x. Linked s.lifo.next x ns) (qh ∙ sym next_n) linked);
    distinct = (mine.0, distinct);
    told = after_log-pushed s.log n ns told;
    free = λ m q. ((λ r. ground (arith, q, mine.1, r)), free m q);
    carried =
        update-all
          (λ j q. carries q ≢ 0 → NotIn (carries q) (n ∷ ns) × (s.owned (carries q) ≡ false)) s.pc i
          away (λ z. absurd (z refl))
          (λ j ne z. (
            (
              (λ r. ne (alone i j (λ y. nz (sym (ap carries e) ∙ y)) (ap carries e ∙ sym r))),
              (carried j z).0,
            ),
            (carried j z).1,
          ));
    alone = keep-alone v i away (inr refl);
    knows = λ j. others _ j (omega (arith, qc)) refl;
  }
    where
      nz : n ≢ 0
      nz = (subst (Knows s.lifo) e (knows i)).0

      next_n : s.lifo.next n ≡ h
      next_n = (subst (Knows s.lifo) e (knows i)).2

      mine : NotIn n ns × (s.owned n ≡ false)
      mine =
          subst (λ m. NotIn m ns × (s.owned m ≡ false)) (ap carries e)
            (carried i (λ z. nz (sym (ap carries e) ∙ z)))

  -- The exchange of a pop succeeds.
  pub popped-Holds :
      (h x : ℕ) (ms : List ℕ)
      → s.lifo.head ≡ h
      → ns ≡ h ∷ ms
      → Linked s.lifo.next x ms
      → Holds
          (let f = s.lifo in
            record s {
              lifo = record f { counter = f.counter + 1; head = x };
              pc = update s.pc i away;
              owned = update s.owned h true;
              log = popped h ∷ s.log;
            })
          ms
  popped-Holds h x ms qh f l = record {
    linked = l;
    distinct = (subst Distinct f distinct).1;
    told = after_log-popped s.log h ms (told ∙ ap some f);
    free = λ m q. elim (eq-cases h m) [
      | inl r ↦ subst (λ y. NotIn y ms) r (subst Distinct f distinct).0
      | inr ne ↦ (subst (NotIn m) f (free m (sym (update_ne s.owned h m true ne) ∙ q))).1
    ];
    carried = λ j z.
        let (a, o) = keep-carried v i away (inr refl) j z in
        let (ne, b) = subst (NotIn (carries (update s.pc i away j))) f a in
        (b, update_ne s.owned h _ true (λ r. ne (sym r)) ∙ o);
    alone = keep-alone v i away (inr refl);
    knows = λ j. others _ j (omega arith) refl;
  }
