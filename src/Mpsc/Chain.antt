-- ===== src/Mpsc/Chain.antt =====
-- Lists of nodes that hang together by `next`, where the link from a node to its successor may
-- still be pending: some thread has published the successor and has not linked it.
use libfiber.Prelude.{
  ℕ, ◌≡◌, ◌≢◌, ◌⊎◌, inl, inr, sym, ◌∙◌, arith, update, update_ne, update_self, subst,
}
use libfiber.Prelude.{List, [], ◌∷◌, ◌++◌, map, NotIn, Distinct, last, ap}

-- A producer between the two halves of a push, or not.
pub data Pc : Type 0 where
  idle : Pc
  linking : ℕ → ℕ → Pc

-- `n` comes right after `p` in `a ∷ ns`.
abbrev pub Follows : ℕ → ℕ → ℕ → List ℕ → Type 0
Follows p n a [] = ⊥
Follows p n a (b ∷ bs) = ((p ≡ a) × (n ≡ b)) ⊎ Follows p n b bs

abbrev pub Joined : (ℕ → ℕ) → (ℕ → Pc) → ℕ → ℕ → Type 0
Joined next pc a b = (next a ≡ b) ⊎ ((next a ≡ 0) × ((i : ℕ) × (pc i ≡ linking a b)))

abbrev pub Chain : (ℕ → ℕ) → (ℕ → Pc) → ℕ → List ℕ → Type 0
Chain next pc a [] = next a ≡ 0
Chain next pc a (b ∷ bs) = Joined next pc a b × Chain next pc b bs

pub Follows-append : (p n m a : ℕ) (ns : List ℕ) → Follows p n a ns → Follows p n a (ns ++ (m ∷ []))
Follows-append p n m a [] h = elim h [ ]
Follows-append p n m a (b ∷ bs) (inl e) = inl e
Follows-append p n m a (b ∷ bs) (inr h) = inr (Follows-append p n m b bs h)

pub Follows-last : (m a : ℕ) (ns : List ℕ) → Follows (last a ns) m a (ns ++ (m ∷ []))
Follows-last m a [] = inl (omega arith, omega arith)
Follows-last m a (b ∷ bs) = inr (Follows-last m b bs)

-- A node that has a successor is in the list.
pub Follows-ne : (p n m a : ℕ) (ns : List ℕ) → Follows p n a ns → NotIn m (a ∷ ns) → m ≢ p
Follows-ne p n m a [] h d = elim h [ ]
Follows-ne p n m a (b ∷ bs) (inl e) d = λ q. d.0 (q ∙ e.0)
Follows-ne p n m a (b ∷ bs) (inr h) d = Follows-ne p n m b bs h d.1

-- The last node has none.
pub Follows-ne_last :
    (p n a : ℕ) (ns : List ℕ) → Distinct (a ∷ ns) → Follows p n a ns → p ≢ last a ns
Follows-ne_last p n a [] d h = elim h [ ]
Follows-ne_last p n a (b ∷ bs) d (inl e) = λ q. NotIn-last' b bs d.0 (sym e.0 ∙ q)
  where
    NotIn-last' : (b : ℕ) (bs : List ℕ) → NotIn a (b ∷ bs) → a ≢ last b bs
    NotIn-last' b [] h = h.0
    NotIn-last' b (c ∷ cs) h = NotIn-last' c cs h.1
Follows-ne_last p n a (b ∷ bs) d (inr h) = Follows-ne_last p n b bs d.1 h

pub Chain-last :
    (next : ℕ → ℕ) (pc : ℕ → Pc) (a : ℕ) (ns : List ℕ) → Chain next pc a ns → next (last a ns) ≡ 0
Chain-last next pc a [] c = c
Chain-last next pc a (b ∷ bs) c = Chain-last next pc b bs c.1

module _ (next : ℕ → ℕ) (pc : ℕ → Pc) (i : ℕ) where
  -- A thread starts a push of a node that is not in the list.
  Joined-start :
      (n p a b : ℕ)
      → pc i ≡ idle
      → n ≢ a
      → Joined next pc a b
      → Joined (update next n 0) (update pc i (linking p n)) a b
  Joined-start n p a b q h (inl e) = inl (update_ne next n a 0 h ∙ e)
  Joined-start n p a b q h (inr (z, (j, e))) = inr (update_ne next n a 0 h ∙ z, (j, ground arith))

  pub Chain-start :
      (n a : ℕ) (ns : List ℕ)
      → pc i ≡ idle
      → NotIn n (a ∷ ns)
      → Chain next pc a ns
      → (p : ℕ) → p ≡ last a ns
      → Chain (update next n 0) (update pc i (linking p n)) a (ns ++ (n ∷ []))
  Chain-start n a [] q h c p e =
      (inr (update_ne next n a 0 h.0 ∙ c, (i, ground arith)), update_self next n 0)
  Chain-start n a (b ∷ bs) q h c p e =
      (Joined-start n p a b q h.0 c.0, Chain-start n b bs q h.1 c.1 p e)

  -- It links it: nothing changes among the nodes that it does not write.
  Joined-link :
      (p n a b : ℕ)
      → pc i ≡ linking p n
      → p ≢ a
      → Joined next pc a b
      → Joined (update next p n) (update pc i idle) a b
  Joined-link p n a b q h (inl e) = inl (update_ne next p a n h ∙ e)
  Joined-link p n a b q h (inr (z, (j, e))) = inr (update_ne next p a n h ∙ z, (j, ground arith))

  Chain-link_apart :
      (p n a : ℕ) (ns : List ℕ)
      → pc i ≡ linking p n
      → NotIn p (a ∷ ns)
      → Chain next pc a ns
      → Chain (update next p n) (update pc i idle) a ns
  Chain-link_apart p n a [] q h c = update_ne next p a n h.0 ∙ c
  Chain-link_apart p n a (b ∷ bs) q h c =
      (Joined-link p n a b q h.0 c.0, Chain-link_apart p n b bs q h.1 c.1)

  pub Chain-link :
      (p n a : ℕ) (ns : List ℕ)
      → pc i ≡ linking p n
      → Distinct (a ∷ ns)
      → Follows p n a ns
      → Chain next pc a ns
      → Chain (update next p n) (update pc i idle) a ns
  Chain-link p n a [] q d h c = elim h [ ]
  Chain-link p n a (b ∷ bs) q d (inl (e, f)) c = (
    inl (ground arith),
    Chain-link_apart p n b bs q (subst (λ x. NotIn x (b ∷ bs)) (sym e) d.0) c.1,
  )
  Chain-link p n a (b ∷ bs) q d (inr h) c = (
    Joined-link p n a b q (λ e. Follows-ne p n a b bs h d.0 (sym e)) c.0,
    Chain-link p n b bs q d.1 h c.1,
  )

-- The values of nodes that are not written stay.
pub map-update : (f : ℕ → ℕ) (n v : ℕ) (ns : List ℕ) → NotIn n ns → map (update f n v) ns ≡ map f ns
map-update f n v [] h = ap (map f) (λ i. [])
map-update f n v (m ∷ ms) h = λ i. update_ne f n m v h.0 i ∷ map-update f n v ms h.1 i
