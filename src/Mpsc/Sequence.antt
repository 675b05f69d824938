-- ===== src/Mpsc/Sequence.antt =====
-- The FIFO between operations: push and trypop as a queue of values, and what destroy frees.
use libfiber.Prelude.{
  ℕ, zero, suc, ◌+◌, ◌<◌, ◌≡◌, ◌≢◌, inl, inr, refl, sym, ◌∙◌, ap, subst, fun_ext, arith,
}
use libfiber.Prelude.{update, update_self, some, List, [], ◌∷◌, ◌++◌, map, map-append}
use libfiber.Prelude.{NotIn, Distinct, All, last, last-append, Distinct-append, All-append, length}
use libfiber.Mpsc.{Fifo, init, push, peek, trypop, destroy}
use libfiber.Mpsc.Chain.{
  Pc, idle, linking, Chain, Follows-last, Chain-start, Chain-link, map-update,
}

abbrev pub no_push : ℕ → Pc
no_push i = idle

-- `order` lists the nodes behind the dummy.
pub record Quiet (f : Fifo) (order : List ℕ) : Type 0 where
  pub tail : f.tail ≡ last f.head order
  pub distinct : Distinct (f.head ∷ order)
  pub nonzero : All (λ n. n ≢ 0) (f.head ∷ order)
  pub chain : Chain f.next no_push f.head order

-- The values in the FIFO, oldest first.
abbrev pub contents : Fifo → List ℕ → List ℕ
contents f order = map f.value order

-- A fresh node starts an empty FIFO; a failed `calloc` is reported.
pub init-Quiet : (n : ℕ) (f : Fifo) → n ≢ 0 → Quiet (init n f).0 [] × ((init n f).1 ≡ 1)
unfolding init
init-Quiet n f h = ground arith

settled : (p n : ℕ) → update (update no_push 0 (linking p n)) 0 idle ≡ no_push
settled p n = fun_ext λ i. ground arith

-- A push of a node that is not in the FIFO puts it at the end, with the value that it holds.
pub push-Quiet :
    (f : Fifo) (order : List ℕ) (n : ℕ)
    → Quiet f order
    → n ≢ 0
    → NotIn n (f.head ∷ order)
    → Quiet (push f n) (order ++ (n ∷ []))
      × (contents (push f n) (order ++ (n ∷ [])) ≡ contents f order ++ (f.value n ∷ []))
unfolding push
push-Quiet f order n q node out = (
  record {
    tail = sym (last-append f.head n order);
    distinct = both;
    nonzero = All-append _ (f.head ∷ order) (n ∷ []) q.nonzero (node, tt);
    chain =
        subst (λ pc. Chain (update (update f.next n 0) f.tail n) pc f.head (order ++ (n ∷ [])))
          (settled f.tail n) joined;
  },
  map-append f.value order (n ∷ []),
)
  where
    both : Distinct (f.head ∷ (order ++ (n ∷ [])))
    both = Distinct-append n (f.head ∷ order) q.distinct out

    joined :
        Chain
          (update (update f.next n 0) f.tail n)
          (update (update no_push 0 (linking f.tail n)) 0 idle)
          f.head
          (order ++ (n ∷ []))
    joined =
        Chain-link _ _ 0 f.tail n f.head (order ++ (n ∷ []))
          (update_self no_push 0 (linking f.tail n)) both (rw q.tail (Follows-last n f.head order))
          (Chain-start f.next no_push 0 n f.head order refl out q.chain f.tail q.tail)

-- In a FIFO at rest the first node is linked.
Quiet-linked : {f : Fifo} {b : ℕ} {bs : List ℕ} → Quiet f (b ∷ bs) → f.next f.head ≡ b
Quiet-linked {f} {b} q = elim q.chain.0 [ inl e ↦ e | inr (z, (i, e)) ↦ cc ]

-- An empty FIFO gives NULL and stays as it is.
pub trypop-empty : (f : Fifo) → Quiet f [] → trypop f ≡ (f, 0)
unfolding trypop
trypop-empty f q = ground (arith, q.chain)

-- What a pop of the first value leaves: the node returned is the old dummy with that value in it,
-- no longer part of the FIFO, and the other values stay in order.
pub record Popped (f : Fifo) (b : ℕ) (bs : List ℕ) (out : Fifo × ℕ) : Type 0 where
  pub rest : Quiet out.0 bs
  pub node : out.1 ≡ f.head
  pub apart : NotIn out.1 (out.0.head ∷ bs)
  pub found : out.0.value out.1 ≡ f.value b
  pub others : contents out.0 bs ≡ contents f bs

trypop-linked :
    (f : Fifo) (b : ℕ)
    → f.next f.head ≡ b
    → b ≢ 0
    → trypop f ≡ (record f { head = b; value = update f.value f.head (f.value b) }, f.head)
unfolding trypop
trypop-linked f b r z = ground arith

-- A FIFO with `b` in front gives the old dummy with the value of `b` in it; the node belongs to the
-- caller, and the other values stay, in order.
pub trypop-Quiet : (f : Fifo) (b : ℕ) (bs : List ℕ) → Quiet f (b ∷ bs) → Popped f b bs (trypop f)
trypop-Quiet f b bs q =
    subst (Popped f b bs) (sym (trypop-linked f b (Quiet-linked q) q.nonzero.1.0)) (record {
      rest = record {
        tail = q.tail;
        distinct = q.distinct.1;
        nonzero = q.nonzero.1;
        chain = q.chain.1;
      };
      node = refl;
      apart = q.distinct.0;
      found = update_self f.value f.head (f.value b);
      others = map-update f.value f.head (f.value b) bs q.distinct.0.1;
    })

-- `peek` sees the value that the next `trypop` will return.
pub peek-Quiet : (f : Fifo) (b : ℕ) (bs : List ℕ) → Quiet f (b ∷ bs) → peek f ≡ some (f.value b)
unfolding peek
peek-Quiet f b bs q = ground (arith, Quiet-linked q, q.nonzero)

destroy-Chain :
    (fuel a : ℕ) (order : List ℕ) (f : Fifo)
    → f.head ≡ a
    → Chain f.next no_push a order
    → All (λ n. n ≢ 0) (a ∷ order)
    → length order + 1 < fuel
    → destroy fuel f ≡ some (a ∷ order)
unfolding destroy
destroy-Chain zero a order f e c z h = elim h [ ]
destroy-Chain (suc zero) a order f e c z h = absurd (omega arith)
destroy-Chain (suc (suc fuel)) a [] f e c z h = ground (arith, z.0, ap f.next e)
destroy-Chain (suc (suc fuel)) a (b ∷ bs) f e (inl l, c) z h = ground (
  arith,
  z.0,
  destroy-Chain (suc fuel) b bs (record f { head = f.next f.head }) (ap f.next e ∙ l) c z.1
      (omega arith),
)
destroy-Chain (suc (suc fuel)) a (b ∷ bs) f e (inr (y, (i, p)), c) z h = cc

-- `destroy` frees the dummy and every node behind it, once each and in order.
pub destroy-Quiet :
    (order : List ℕ) (f : Fifo)
    → Quiet f order
    → (fuel : ℕ) → length order + 1 < fuel
    → (destroy fuel f ≡ some (f.head ∷ order)) × Distinct (f.head ∷ order)
destroy-Quiet order f q fuel h =
    (destroy-Chain fuel f.head order f refl q.chain q.nonzero h, q.distinct)
