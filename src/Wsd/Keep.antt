-- ===== src/Wsd/Keep.antt =====
-- No call of a scheduler loses or doubles a fiber, in any of the queues.
use libfiber.Prelude.{
  ℕ, suc, ◌+◌, ◌*◌, ◌^◌, ◌≤◌, ◌<◌, ◌≡◌, inl, inr, refl, ap, subst, arith, Bool, true, ◌==◌,
  eq-cases, update, update_self, update_ne, some, List, [], ◌∷◌, ◌++◌,
}
use libfiber.Population.{tally, tally-update}
use libfiber.Scheduler.{one_if, count, count-append}
use libfiber.Deque.{Deque, Taken, item, empty, abort, push_bottom, pop_bottom, steal}
use libfiber.Deque.Contents.{IsValid, contents, push_bottom-contents}
use libfiber.Deque.Taking.{Taking, pop_bottom-contents, steal-contents}
use libfiber.Wsd.{Wsd, push}

abbrev pub queues : Wsd → ℕ
queues w = 2 * w.num_threads

-- How often fiber `g` is in the queues.
abbrev pub held : Wsd → ℕ → ℕ
held w g = tally (λ d. count g (contents d)) (queues w) w.queue

-- Valid, with room for that many more elements.
abbrev pub Roomy : ℕ → Deque → Type 0
Roomy room d = IsValid d × (d.bottom + room + 2 < 2 ^ 63)

abbrev pub AllRoomy : ℕ → Wsd → Type 0
AllRoomy room w = (i : ℕ) → i < queues w → Roomy room (w.queue i)

push_bottom-bottom :
    (garbage : ℕ → ℕ) (d e : Deque) (p : ℕ)
    → push_bottom true garbage d p ≡ some e
    → d.bottom + 1 < 2 ^ 63
    → e.bottom ≤ d.bottom + 1
unfolding push_bottom
push_bottom-bottom garbage d e p h b = ground (arith, h)

pop_bottom-bottom : (x : Bool) (d : Deque) → IsValid d → (pop_bottom x d).0.bottom ≤ d.bottom
unfolding pop_bottom
pop_bottom-bottom x d v = ground (arith, v)

steal-bottom : (x : Bool) (d : Deque) → (steal x d).0.bottom ≡ d.bottom
unfolding steal
steal-bottom x d = ground arith

abbrev pub changed : Wsd → ℕ → Deque → Wsd
changed w k d = record w { queue = update w.queue k d }

module _ (w : Wsd) (k : ℕ) (d : Deque) (h : k < queues w) where
  held-changed :
      (g : ℕ)
      → held (changed w k d) g + count g (contents (w.queue k)) ≡ held w g + count g (contents d)
  held-changed g = tally-update (λ e. count g (contents e)) (queues w) k w.queue d h

  changed-AllRoomy : (room : ℕ) → AllRoomy room w → Roomy room d → AllRoomy room (changed w k d)
  changed-AllRoomy room a r i l = elim (eq-cases k i) [
    | inl e ↦ subst (λ m. Roomy room (update w.queue k d m)) e (rw (update_self w.queue k d) r)
    | inr ne ↦ rw (update_ne w.queue k i d ne) (a i l)
  ]

-- How often fiber `g` is what was taken.
abbrev pub given : Taken → ℕ → ℕ
given (item f) g = one_if (f == g)
given empty g = 0
given abort g = 0

-- What a pop or a steal takes is gone from the deque, and nothing else.
taken-count :
    (x : Bool) (d : Deque) (out : Deque × Taken) (P : ℕ → List ℕ → Type 0) (g : ℕ)
    → ((p : ℕ) (rest : List ℕ) → P p rest → count g rest + one_if (p == g) ≡ count g (contents d))
    → Taking x d out P
    → count g (contents out.0) + given out.1 g ≡ count g (contents d)
taken-count x d (e, t) P g h (v, inl (q, c, c')) =
    omega (arith, ap (count g) c, ap (count g) c', ap (λ u. given u g) q)
taken-count x d (e, t) P g h (v, inr (inl (q, c, c'))) =
    omega (arith, ap (count g) c', ap (λ u. given u g) q)
taken-count x d (e, t) P g h (v, inr (inr (p, q, c))) =
    omega (arith, h p (contents e) c, ap (λ u. given u g) q)

-- What a call leaves: the same number of queues, room for `room` more, and every fiber as often as before,
-- with `plus` and `minus` for those that came and went.
pub record Kept (room : ℕ) (w w' : Wsd) (plus minus : ℕ → ℕ) : Type 0 where
  pub same : w'.num_threads ≡ w.num_threads
  pub from : w'.schedule_from ≡ w.schedule_from
  pub to : w'.store_to ≡ w.store_to
  pub roomy : AllRoomy room w'
  pub total : (g : ℕ) → held w' g + minus g ≡ held w g + plus g

module _ (garbage : ℕ → ℕ) where
  pub push-Kept :
      (room k f : ℕ) (w : Wsd)
      → k < queues w
      → AllRoomy (suc room) w
      → Kept room w (push garbage k w f) (λ g. one_if (f == g)) (λ g. 0)
  push-Kept room k f w h a =
      let (e, q, v, c) =
        push_bottom-contents garbage (w.queue k) f (a k h).0 (omega (arith, (a k h).1)) in
      rw (q, push)
        (record {
          same = refl;
          from = refl;
          to = refl;
          roomy =
              changed-AllRoomy w k e h room (λ i l. ((a i l).0, omega (arith, (a i l).1)))
                (
                  v,
                  omega (
                    arith,
                    (a k h).1,
                    push_bottom-bottom garbage (w.queue k) e f q (omega (arith, (a k h).1)),
                  ),
                );
          total = λ g. omega (
            arith,
            held-changed w k e h g,
            ap (count g) c,
            count-append g (contents (w.queue k)) (f ∷ []),
          );
        })

module _ (id : ℕ) {r : ℕ} {w w2 : Wsd} {plus minus : ℕ → ℕ} (b : Kept r w w2 plus minus) where
  pub from-kept : w.schedule_from id < queues w → w2.schedule_from id < queues w2
  from-kept h = omega (arith, h, ap (λ (f : ℕ → ℕ). f id) (b.from), b.same)

  pub to-kept : w.store_to id < queues w → w2.store_to id < queues w2
  to-kept h = omega (arith, h, ap (λ (f : ℕ → ℕ). f id) (b.to), b.same)

-- A pop that leaves the deque `d`, valid and no longer, and takes `t`.
pub popped-Kept :
    (room : ℕ) (w : Wsd) (k : ℕ) (d : Deque) (minus : ℕ → ℕ)
    → k < queues w
    → AllRoomy room w
    → IsValid d
    → d.bottom ≤ (w.queue k).bottom
    → ((g : ℕ) → count g (contents d) + minus g ≡ count g (contents (w.queue k)))
    → Kept room w (changed w k d) (λ g. 0) minus
popped-Kept room w k d minus h a v b c = record {
  same = refl;
  from = refl;
  to = refl;
  roomy = changed-AllRoomy w k d h room a (v, omega (arith, (a k h).1));
  total = λ g. omega (arith, held-changed w k d h g, c g);
}

pub less-Kept :
    (r room : ℕ) (w w' : Wsd) (plus minus : ℕ → ℕ)
    → room ≤ r
    → Kept r w w' plus minus
    → Kept room w w' plus minus
less-Kept r room w w' plus minus l a = record {
  same = a.same;
  from = a.from;
  to = a.to;
  roomy = λ i h. ((a.roomy i h).0, omega (arith, (a.roomy i h).1));
  total = a.total;
}

module _ (x : Bool) (room : ℕ) (w : Wsd) (k : ℕ) (h : k < queues w) (a : AllRoomy room w) where
  pub pop-Kept :
      Kept room w
        (changed w k (pop_bottom x (w.queue k)).0)
        (λ g. 0)
        (given (pop_bottom x (w.queue k)).1)
  pop-Kept =
      let t = pop_bottom-contents x (w.queue k) (a k h).0 in
      popped-Kept room w k (pop_bottom x (w.queue k)).0 (given (pop_bottom x (w.queue k)).1) h a t.0
        (pop_bottom-bottom x (w.queue k) (a k h).0)
        (λ g.
          taken-count x (w.queue k) (pop_bottom x (w.queue k))
            (λ p rest. contents (w.queue k) ≡ rest ++ (p ∷ [])) g
            (λ p rest c. omega (arith, ap (count g) c, count-append g rest (p ∷ []))) t)

  pub steal-Kept :
      Kept room w (changed w k (steal x (w.queue k)).0) (λ g. 0) (given (steal x (w.queue k)).1)
  steal-Kept =
      let t = steal-contents x (w.queue k) (a k h).0 in
      popped-Kept room w k (steal x (w.queue k)).0 (given (steal x (w.queue k)).1) h a t.0
        (omega (arith, steal-bottom x (w.queue k)))
        (λ g.
          taken-count x (w.queue k) (steal x (w.queue k))
            (λ p rest. contents (w.queue k) ≡ p ∷ rest) g
            (λ p rest c. omega (arith, ap (count g) c)) t)
