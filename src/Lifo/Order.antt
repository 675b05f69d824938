-- ===== src/Lifo/Order.antt =====
-- Every schedule of the stack is one of a sequential stack, though nodes come back while others hold old
-- pointers to them.
use libfiber.Prelude.{
  ℕ, ◌+◌, ◌^◌, ◌≤◌, ◌<◌, ◌≡◌, inl, inr, refl, ap, sym, subst, ◌∙◌, arith, true, Bool-cases, not,
  ◌&&◌, ◌==◌, dec_lt, lt→ltb, ge→ltb, Option, none, some, List, [], ◌∷◌, length, NotIn, Distinct,
}
use native.Mathlib.Nat.{mod-eq_of_lt}
use libfiber.Lifo.{
  Lifo, Pc, away, push_counter, push_head, push_link, push_swap, pop_counter, pop_head, pop_next,
  pop_swap, System, Action, do_push, do_pop, go, exchange, after_push, after_pop, act, run,
}
use libfiber.Lifo.Linked.{Linked, replay, Linked-top}
use libfiber.Lifo.Stages.{
  carries, Knows, Holds, load-Holds, empty-Holds, give-Holds, link-Holds, pushed-Holds,
  popped-Holds,
}

-- The stack after a step.
abbrev Stacked : System → Type 0
Stacked s = (ns : List ℕ) × Holds s ns

module _ {s : System} {ns : List ℕ} (v : Holds s ns) (i : ℕ) (b : s.lifo.counter + 1 < 2 ^ 64) where
  open v use {linked, knows}

  Knows-at : (p : Pc) → s.pc i ≡ p → Knows s.lifo p
  Knows-at p e = subst (Knows s.lifo) e (knows i)

  push_swap-Stacked :
      (n c h : ℕ) → s.pc i ≡ push_swap n c h → Stacked (after_push (exchange s.lifo c h n) n s i)
  unfolding exchange
  push_swap-Stacked n c h e = elim (Bool-cases ((s.lifo.counter == c) && (s.lifo.head == h))) [
    | inl t ↦ pushed_top (ground (arith, t)) (ground (arith, t)) t
    | inr t ↦ rw t (ns, load-Holds v i (push_counter n) (inl (ap carries (sym e))) (Knows-at _ e).0)
  ]
    where
      pushed_top :
          s.lifo.counter ≡ c
          → s.lifo.head ≡ h
          → ((s.lifo.counter == c) && (s.lifo.head == h)) ≡ true
          → Stacked (after_push (exchange s.lifo c h n) n s i)
      pushed_top qc qh t =
          rw (t, mod-eq_of_lt {n = c + 1} {m = 2 ^ 64} (omega (arith, b, qc)))
            (n ∷ ns, pushed-Holds v i n c h e qc qh)

  pop_swap-Stacked :
      (c h x : ℕ) → s.pc i ≡ pop_swap c h x → Stacked (after_pop (exchange s.lifo c h x) h s i)
  unfolding exchange
  pop_swap-Stacked c h x e = elim (Bool-cases ((s.lifo.counter == c) && (s.lifo.head == h))) [
    | inl t ↦ popped_top (ground (arith, t)) (ground (arith, t)) t
    | inr t ↦ rw t (ns, load-Holds v i pop_counter (inr refl) tt)
  ]
    where
      popped_top :
          s.lifo.counter ≡ c
          → s.lifo.head ≡ h
          → ((s.lifo.counter == c) && (s.lifo.head == h)) ≡ true
          → Stacked (after_pop (exchange s.lifo c h x) h s i)
      popped_top qc qh t =
          let (nz, cur, f) = Knows-at (pop_swap c h x) e in
          let (ms, g, l) = Linked-top s.lifo.next s.lifo.head ns linked (λ z. nz (sym qh ∙ z)) in
          rw (t, sym qc, mod-eq_of_lt b)
            (
              ms,
              popped-Holds v i h x ms qh (subst (λ y. ns ≡ y ∷ ms) qh g)
                  (subst (λ y. Linked s.lifo.next y ms) (ap s.lifo.next qh ∙ sym (f (sym qc))) l),
            )

  act-Stacked : (a : Action) (p : Pc) → s.pc i ≡ p → Stacked (act a p s i)
  unfolding act
  act-Stacked (do_push n) away e = elim (Bool-cases (s.owned n && not (n == 0))) [
    | inl t ↦ rw t (ns, give-Holds v i n (ground (arith, t)) (ground (arith, t)) e)
    | inr t ↦ rw t (ns, v)
  ]
  act-Stacked go (push_counter n) e = (
    ns,
    load-Holds v i (push_head n s.lifo.counter) (inl (ap carries (sym e)))
        (Knows-at _ e, omega arith),
  )
  act-Stacked go (push_head n c) e = (
    ns,
    load-Holds v i (push_link n c s.lifo.head) (inl (ap carries (sym e)))
        ((Knows-at _ e).0, ((Knows-at _ e).1, λ q. refl)),
  )
  act-Stacked go (push_link n c h) e = (ns, link-Holds v i n c h e)
  act-Stacked go (push_swap n c h) e = push_swap-Stacked n c h e
  act-Stacked do_pop away e = (ns, load-Holds v i pop_counter (inr refl) tt)
  act-Stacked go pop_counter e =
      (ns, load-Holds v i (pop_head s.lifo.counter) (inr refl) (omega arith))
  act-Stacked go (pop_head c) e = elim (Bool-cases (s.lifo.head == 0)) [
    | inl t ↦ rw t (ns, empty-Holds v i (ground (arith, t)))
    | inr t ↦ rw t (
      ns,
      load-Holds v i (pop_next c s.lifo.head) (inr refl)
          (ground (arith, t), (Knows-at _ e, λ q. refl)),
    )
  ]
  act-Stacked go (pop_next c h) e =
      let (nz, cur) = Knows-at (pop_next c h) e in
      (ns, load-Holds v i (pop_swap c h (s.lifo.next h)) (inr refl) (nz, cur, λ q. refl))
  act-Stacked go (pop_swap c h x) e = pop_swap-Stacked c h x e
  act-Stacked a p e = (ns, v)

exchange-counter : (f g : Lifo) (c h x : ℕ) → exchange f c h x ≡ some g → g.counter ≤ f.counter + 1
unfolding exchange
exchange-counter f g c h x e = ground (arith, e)

after_push-counter :
    (o : Option Lifo) (n : ℕ) (s : System) (i : ℕ)
    → ((g : Lifo) → o ≡ some g → g.counter ≤ s.lifo.counter + 1)
    → (after_push o n s i).lifo.counter ≤ s.lifo.counter + 1
after_push-counter none n s i h = omega arith
after_push-counter (some g) n s i h = h g refl

after_pop-counter :
    (o : Option Lifo) (n : ℕ) (s : System) (i : ℕ)
    → ((g : Lifo) → o ≡ some g → g.counter ≤ s.lifo.counter + 1)
    → (after_pop o n s i).lifo.counter ≤ s.lifo.counter + 1
after_pop-counter none n s i h = omega arith
after_pop-counter (some g) n s i h = h g refl

-- A step makes at most one exchange.
act-counter :
    (a : Action) (p : Pc) (s : System) (i : ℕ) → (act a p s i).lifo.counter ≤ s.lifo.counter + 1
unfolding act
act-counter (do_push n) away s i = ground arith
act-counter go (push_counter n) s i = omega arith
act-counter go (push_head n c) s i = omega arith
act-counter go (push_link n c h) s i = omega arith
act-counter go (push_swap n c h) s i =
    after_push-counter _ n s i (λ g. exchange-counter s.lifo g c h n)
act-counter do_pop away s i = omega arith
act-counter go pop_counter s i = omega arith
act-counter go (pop_head c) s i = ground arith
act-counter go (pop_next c h) s i = omega arith
act-counter go (pop_swap c h x) s i =
    after_pop-counter _ h s i (λ g. exchange-counter s.lifo g c h x)
act-counter a p s i = omega arith

run-Stacked :
    (n : ℕ) (l : List (ℕ × Action)) (s : System) (ns : List ℕ)
    → s.lifo.counter + length l < 2 ^ 64
    → Holds s ns
    → Stacked (run n l s)
unfolding run
run-Stacked n [] s ns b v = (ns, v)
run-Stacked n ((i, a) ∷ l) s ns b v = elim (dec_lt i n) [
  | yes h ↦
      let (ms, w) = act-Stacked v i (omega arith) a (s.pc i) refl in
      rw (lt→ltb i n h)
        (run-Stacked n l (act a (s.pc i) s i) ms (omega (arith, act-counter a (s.pc i) s i)) w)
  | no h ↦ rw (ge→ltb i n h) (run-Stacked n l s ns (omega arith) v)
]

-- An empty stack, whose threads are all away, and which nobody has used.
pub record Initial (s : System) : Type 0 where
  pub empty : (s.lifo.head ≡ 0) × (s.lifo.counter ≡ 0)
  pub alone : (i : ℕ) → s.pc i ≡ away
  pub unused : s.log ≡ []

Initial-Holds : (s : System) → Initial s → Holds s []
unfolding replay
Initial-Holds s z = record {
  linked = z.empty.0;
  distinct = tt;
  told = ap replay (z.unused);
  free = λ m q. tt;
  carried = λ i nz. absurd (nz (ap carries (z.alone i)));
  alone = λ i j nz q. absurd (nz (ap carries (z.alone i)));
  knows = λ i. subst (Knows s.lifo) (sym (z.alone i)) tt;
}

-- In every schedule of fewer than 2^64 steps, the pushes and pops, and the pops that find nothing, are in
-- the order of their exchanges and loads what a sequential stack allows; the nodes that it then has are
-- linked from the head, each once, and no client owns one of them.
pub replayed :
    (n : ℕ) (l : List (ℕ × Action)) (s : System)
    → Initial s
    → length l < 2 ^ 64
    → let t = run n l s in
      (ns : List ℕ) × (replay t.log ≡ some ns)
      × Linked t.lifo.next t.lifo.head ns
      × Distinct ns
      × ((m : ℕ) → t.owned m ≡ true → NotIn m ns)
replayed n l s z b =
    let (ns, v) = run-Stacked n l s [] (omega (arith, z.empty.1)) (Initial-Holds s z) in
    (ns, v.told, v.linked, v.distinct, v.free)
