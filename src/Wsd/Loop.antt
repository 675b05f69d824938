-- ===== src/Wsd/Loop.antt =====
-- The loop of `fiber_scheduler_next`: what it leaves, and when it gives NULL.
use libfiber.Prelude.{
  ℕ, zero, suc, ◌+◌, ◌≤◌, ◌<◌, ◌≡◌, ◌≢◌, inl, inr, refl, ap, sym, subst, ◌∙◌, arith, Bool, true,
  false, ◌==◌, Bool-cases, update_self, Option, none, some, List, [], ◌∷◌, ◌++◌, length, All,
  All-append, length-append,
}
use libfiber.Scheduler.{one_if}
use libfiber.Deque.{Deque, Taken, item, empty, abort, size_of, pop_bottom}
use libfiber.Deque.Contents.{IsValid, contents, size_of-contents}
use libfiber.Deque.Taking.{Taking, pop_bottom-contents}
use libfiber.Wsd.{Wsd, push, after_pop, next_loop}
use libfiber.Wsd.Keep.{
  queues, held, AllRoomy, changed, given, Kept, push-Kept, pop-Kept, from-kept, to-kept, less-Kept,
}

module _ (garbage : ℕ → ℕ) where
  module _ (saving : ℕ → Bool) (x : Bool) (id : ℕ) where
    step-empty :
        (fuel : ℕ) (w : Wsd)
        → (size_of (w.queue (w.schedule_from id)) == 0) ≡ true
        → next_loop garbage saving x id (suc fuel) w ≡ some (w, 0)
    unfolding next_loop
    step-empty fuel w z = rw (z, next_loop) refl

    step-pop :
        (fuel : ℕ) (w : Wsd)
        → (size_of (w.queue (w.schedule_from id)) == 0) ≡ false
        → next_loop garbage saving x id (suc fuel) w
          ≡ after_pop garbage
              (next_loop garbage saving x id fuel)
              saving
              id
              (changed w (w.schedule_from id) (pop_bottom x (w.queue (w.schedule_from id))).0)
              (pop_bottom x (w.queue (w.schedule_from id))).1
    unfolding next_loop
    step-pop fuel w z = rw (z, next_loop) refl

    -- What a call that gives fiber `f` leaves, and one that gives NULL.
    abbrev pub Handed : ℕ → Wsd → Option (Wsd × ℕ) → Type 0
    Handed room w none = Unit
    Handed room w (some (w', f)) =
        (f ≢ 0 → Kept room w w' (λ g. 0) (λ g. one_if (f == g)))
        × (f ≡ 0 → (g : ℕ) → g ≢ 0 → held w' g ≡ held w g)

    pub other-one_if : (f g : ℕ) → f ≢ g → one_if (f == g) ≡ 0
    other-one_if f g n = ground (arith, n)

    through :
        (r room : ℕ) (w w1 : Wsd) (out : Option (Wsd × ℕ))
        → Kept r w w1 (λ g. 0) (λ g. 0)
        → Handed room w1 out
        → Handed room w out
    through r room w w1 none a h = tt
    through r room w w1 (some (w', f)) a h = (
      (λ z.
          let b = h.0 z in
          record {
            same = b.same ∙ a.same;
            from = b.from ∙ a.from;
            to = b.to ∙ a.to;
            roomy = b.roomy;
            total = λ g. omega (arith, a.total g, b.total g);
          }),
      (λ z g n. omega (arith, a.total g, h.1 z g n)),
    )

    moved-Kept :
        (r : ℕ) (w w1 : Wsd) (f : ℕ) (w2 : Wsd)
        → Kept (suc r) w w1 (λ g. 0) (λ g. one_if (f == g))
        → Kept r w1 w2 (λ g. one_if (f == g)) (λ g. 0)
        → Kept r w w2 (λ g. 0) (λ g. 0)
    moved-Kept r w w1 f w2 a b = record {
      same = b.same ∙ a.same;
      from = b.from ∙ a.from;
      to = b.to ∙ a.to;
      roomy = b.roomy;
      total = λ g. omega (arith, a.total g, b.total g);
    }

    -- One round, given what the next one leaves.
    module _ (room r : ℕ) (rest : Wsd → Option (Wsd × ℕ)) (w w1 : Wsd) (l : room ≤ r)
        (s : w1.store_to id < queues w1)
        (k : (w2 : Wsd) → Kept r w w2 (λ g. 0) (λ g. 0) → Handed room w2 (rest w2)) where
      went_on : (w2 : Wsd) → Kept r w w2 (λ g. 0) (λ g. 0) → Handed room w (rest w2)
      went_on w2 b = through r room w w2 (rest w2) b (k w2 b)

      after_item-Handed :
          (f : ℕ) (b : Bool)
          → Kept (suc r) w w1 (λ g. 0) (λ g. one_if (f == g))
          → Handed room w (elim b as (λ _. Option (Wsd × ℕ)) [
            | true ↦ rest (push garbage (w1.store_to id) w1 f)
            | false ↦ some (w1, f)
          ])
      after_item-Handed f true a = went_on (push garbage (w1.store_to id) w1 f) (
          moved-Kept r w w1 f (push garbage (w1.store_to id) w1 f) a
            (push-Kept garbage r (w1.store_to id) f w1 s a.roomy))
      after_item-Handed f false a = (
        (λ z. less-Kept (suc r) room w w1 (λ g. 0) (λ g. one_if (f == g)) (omega arith) a),
        (λ z g n. omega (arith, a.total g, other-one_if f g (λ e. n (sym e ∙ z)))),
      )

      after_pop-Handed :
          (t : Taken)
          → Kept (suc r) w w1 (λ g. 0) (given t)
          → Handed room w (after_pop garbage rest saving id w1 t)
      after_pop-Handed (item f) a = after_item-Handed f (saving f) a
      after_pop-Handed empty a =
          went_on w1 (less-Kept (suc r) r w w1 (λ g. 0) (λ g. 0) (omega arith) a)
      after_pop-Handed abort a =
          went_on w1 (less-Kept (suc r) r w w1 (λ g. 0) (λ g. 0) (omega arith) a)

    pub next_loop-Handed :
        (fuel room : ℕ) (w : Wsd)
        → w.schedule_from id < queues w
        → w.store_to id < queues w
        → AllRoomy (fuel + room) w
        → Handed room w (next_loop garbage saving x id fuel w)
    unfolding next_loop
    next_loop-Handed zero room w hf hs a = tt
    next_loop-Handed (suc fuel) room w hf hs a =
        elim (Bool-cases (size_of (w.queue (w.schedule_from id)) == 0)) [
          | inl e ↦
              subst (Handed room w) (sym (step-empty fuel w e))
                ((λ z. absurd (z refl)), (λ z g n. refl))
          | inr e ↦ subst (Handed room w) (sym (step-pop fuel w e)) (
              after_pop-Handed room (fuel + room) (next_loop garbage saving x id fuel) w
                (changed w (w.schedule_from id) (pop_bottom x (w.queue (w.schedule_from id))).0)
                (omega arith) hs
                (λ w2 b.
                  next_loop-Handed fuel room w2 (from-kept id b hf) (to-kept id b hs) b.roomy)
                (pop_bottom x (w.queue (w.schedule_from id))).1
                (pop-Kept x (suc (fuel + room)) w (w.schedule_from id) hf
                  (λ i l. ((a i l).0, omega (arith, (a i l).1)))))
        ]

  push-elsewhere : (k j f : ℕ) (w : Wsd) → k ≢ j → (push garbage k w f).queue j ≡ w.queue j
  push-elsewhere k j f w ne = ground (arith, ne)

  -- Where every exchange of a pop succeeds, more fuel than there are fibers in the queue is enough.
  module _ (saving : ℕ → Bool) (id : ℕ) where
    -- NULL comes of a queue without NULL only if every fiber in it still saves its state.
    abbrev pub NullOf : List ℕ → ℕ → Type 0
    NullOf c f = f ≡ 0 → All (λ p. p ≢ 0) c → All (λ p. saving p ≡ true) c

    -- The call ends, with NULL or a fiber that does not save its state any more.
    abbrev pub Ends : List ℕ → Option (Wsd × ℕ) → Type 0
    Ends c o =
        (out : Wsd × ℕ) × (o ≡ some out) × (out.1 ≢ 0 → saving out.1 ≡ false) × NullOf c out.1

    All-front : (P : ℕ → Type 0) (xs : List ℕ) (p : ℕ) → All P (xs ++ (p ∷ [])) → All P xs × P p
    All-front P [] p h = (tt, h.0)
    All-front P (x ∷ xs) p h = ((h.0, (All-front P xs p h.1).0), (All-front P xs p h.1).1)

    All-empty : (P : ℕ → Type 0) (xs : List ℕ) → length xs ≡ 0 → All P xs
    All-empty P [] e = tt
    All-empty P (x ∷ xs) e = absurd (omega (arith, e))

    NullOf-saved :
        (xs : List ℕ) (p f : ℕ) → saving p ≡ true → NullOf xs f → NullOf (xs ++ (p ∷ [])) f
    NullOf-saved xs p f t h z a =
        All-append (λ q. saving q ≡ true) xs (p ∷ []) (h z (All-front _ xs p a).0) (t, tt)

    NullOf-given : (xs : List ℕ) (p : ℕ) → NullOf (xs ++ (p ∷ [])) p
    NullOf-given xs p z a = absurd ((All-front _ xs p a).1 z)

    item-Ends :
        (r f : ℕ) (b : Bool) (w : Wsd) (rest : Wsd → Option (Wsd × ℕ)) (c : List ℕ)
        → saving f ≡ b
        → w.store_to id < queues w
        → w.store_to id ≢ w.schedule_from id
        → AllRoomy (suc r) w
        → ((w2 : Wsd)
            → Kept r w w2 (λ g. one_if (f == g)) (λ g. 0)
            → w2.queue (w.schedule_from id) ≡ w.queue (w.schedule_from id)
            → Ends c (rest w2))
        → Ends (c ++ (f ∷ [])) (elim b as (λ _. Option (Wsd × ℕ)) [
          | true ↦ rest (push garbage (w.store_to id) w f)
          | false ↦ some (w, f)
        ])
    item-Ends r f true w rest c t h apart a k =
        let (out, e, d, n) =
          k (push garbage (w.store_to id) w f) (push-Kept garbage r (w.store_to id) f w h a)
            (push-elsewhere (w.store_to id) (w.schedule_from id) f w apart) in
        (out, e, d, NullOf-saved c f out.1 t n)
    item-Ends r f false w rest c t h apart a k = ((w, f), refl, (λ z. t), NullOf-given c f)

    module _ (fuel : ℕ) (w : Wsd) where
      abbrev q : Deque
      q = w.queue (w.schedule_from id)

      abbrev popped : Deque × Taken
      popped = pop_bottom true q

      pop-Ends :
          IsValid q
          → (size_of q == 0) ≡ false
          → (p : ℕ) × (popped.1 ≡ item p) × (contents q ≡ contents popped.0 ++ (p ∷ []))
      pop-Ends v z = got (pop_bottom-contents true q v)
        where
          got :
              Taking true q popped (λ p rest. contents q ≡ rest ++ (p ∷ []))
              → (p : ℕ) × (popped.1 ≡ item p) × (contents q ≡ contents popped.0 ++ (p ∷ []))
          got (v', inl (e, c, c')) = absurd (ground (arith, z, size_of-contents q v, ap length c))
          got (v', inr (inl (e, x, c))) = cc x
          got (v', inr (inr (p, e, c))) = (p, e, c)

    pub next_loop-Ends :
        (fuel : ℕ) (w : Wsd)
        → w.schedule_from id < queues w
        → w.store_to id < queues w
        → w.store_to id ≢ w.schedule_from id
        → AllRoomy fuel w
        → length (contents (w.queue (w.schedule_from id))) < fuel
        → Ends (contents (w.queue (w.schedule_from id))) (next_loop garbage saving true id fuel w)
    next_loop-Ends zero w hf hs apart a l = absurd (omega arith)
    next_loop-Ends (suc fuel) w hf hs apart a l = elim (Bool-cases (size_of (q fuel w) == 0)) [
      | inl z ↦ (
        (w, 0),
        step-empty saving true id fuel w z,
        (λ n. absurd (n refl)),
        (λ y b.
            All-empty _ (contents (q fuel w))
              (ground (arith, z, size_of-contents (q fuel w) (a (w.schedule_from id) hf).0))),
      )
      | inr z ↦
          let (p, e, c) = pop-Ends fuel w (a (w.schedule_from id) hf).0 z in
          let b = pop-Kept true (suc fuel) w (w.schedule_from id) hf a in
          subst (λ o. Ends (contents (w.queue (w.schedule_from id))) o)
            (sym (step-pop saving true id fuel w z))
            (subst
              (λ t. Ends (contents (w.queue (w.schedule_from id))) (
                after_pop garbage (next_loop garbage saving true id fuel) saving id
                  (changed w (w.schedule_from id) (popped fuel w).0) t))
              (sym e)
              (subst
                (λ d. Ends d (
                  after_pop garbage (next_loop garbage saving true id fuel) saving id
                    (changed w (w.schedule_from id) (popped fuel w).0) (item p)))
                (sym c)
                (item-Ends fuel p (saving p) (changed w (w.schedule_from id) (popped fuel w).0)
                  (next_loop garbage saving true id fuel) (contents (popped fuel w).0) refl hs apart
                  b.roomy
                  (λ w2 k same.
                    let left = remains fuel w w2 k same in
                    subst (λ d. Ends d (next_loop garbage saving true id fuel w2)) left
                      (next_loop-Ends fuel w2 (from-kept id k hf) (to-kept id k hs)
                        (λ e'. apart (
                          sym (ap (λ (f : ℕ → ℕ). f id) (k.to))
                          ∙ e'
                          ∙ ap (λ (f : ℕ → ℕ). f id) (k.from)))
                        k.roomy
                        (omega (
                          arith,
                          l,
                          ap length c,
                          length-append (contents (popped fuel w).0) (p ∷ []),
                          ap length left,
                        )))))))
    ]
      where
        remains :
            (fuel : ℕ) (w w2 : Wsd) {r : ℕ} {plus minus : ℕ → ℕ}
            → Kept r (changed w (w.schedule_from id) (popped fuel w).0) w2 plus minus
            → w2.queue (w.schedule_from id)
              ≡ (changed w (w.schedule_from id) (popped fuel w).0).queue (w.schedule_from id)
            → contents (w2.queue (w2.schedule_from id)) ≡ contents (popped fuel w).0
        remains fuel w w2 k same = ap contents (
            ap w2.queue (ap (λ (f : ℕ → ℕ). f id) (k.from))
            ∙ same
            ∙ update_self w.queue (w.schedule_from id) (popped fuel w).0)
