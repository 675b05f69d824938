-- ===== src/MultiSignal/Steps.antt =====
-- The stores and exchanges of a multi signal keep what its fibers know.
use libfiber.Prelude.{
  Member, NotIn-Member, ℕ, ◌+◌, ◌<◌, ◌≡◌, ◌≢◌, ◌⊎◌, refl, ap, sym, subst, ◌∙◌, arith, none, some,
  List, ◌∷◌, update, update_self, update_ne, NotIn, Distinct,
}
use libfiber.MultiSignal.{
  Head, node, Signal, Pc, away, wait_counter, wait_head, wait_take, wait_link, wait_swap, parking,
  parked, waking, raise_counter, raise_head, raise_flag, raise_next, raise_swap, spinning, Event,
  System,
}
use libfiber.MultiSignal.Replay.{State, members, replay, Stands, Stands-update, Stands-node}
use libfiber.MultiSignal.Stages.{
  Knows, Marked, sleeps, wakes, Holds, update-all, plain-sleeping, plain-found, plain-woken,
  plain-alone,
}

-- An exchange moves the counter on, so nothing that the others have loaded is current. `ws` waited before
-- it, and `ws'` after it.
pub later-Knows :
    (f g : Signal) (ws ws' : List ℕ) (i : ℕ) (p : Pc)
    → f.counter < g.counter
    → g.next ≡ f.next
    → ((j : ℕ) → p ≡ spinning j → NotIn j ws → NotIn j ws')
    → Knows f ws i p
    → Knows g ws' i p
later-Knows f g ws ws' i (wait_head c) l e m k = omega (arith, k)
later-Knows f g ws ws' i (wait_take c) l e m k = omega (arith, k)
later-Knows f g ws ws' i (wait_link c h) l e m k =
    (k.0, (omega (arith, k.1), λ q. absurd (omega (arith, k.1, q))))
later-Knows f g ws ws' i (wait_swap c h) l e m k = (
  k.0,
  (omega (arith, k.1), λ q. absurd (omega (arith, k.1, q))),
  ap (λ (t : ℕ → Head). t i) e ∙ k.2,
)
later-Knows f g ws ws' i parking l e m k = tt
later-Knows f g ws ws' i parked l e m k = tt
later-Knows f g ws ws' i (raise_head b c) l e m k = omega (arith, k)
later-Knows f g ws ws' i (raise_flag c h) l e m k =
    (k.0, (omega (arith, k.1), λ q. absurd (omega (arith, k.1, q))))
later-Knows f g ws ws' i (raise_next b c j) l e m k =
    (omega (arith, k), λ q. absurd (omega (arith, k, q)))
later-Knows f g ws ws' i (raise_swap b c j x) l e m k =
    ((omega (arith, k.0), λ q. absurd (omega (arith, k.0, q))), λ q. absurd (omega (arith, k.0, q)))
later-Knows f g ws ws' i (spinning j) l e m k = m j refl k
later-Knows f g ws ws' i away l e m k = tt
later-Knows f g ws ws' i wait_counter l e m k = tt
later-Knows f g ws ws' i waking l e m k = tt
later-Knows f g ws ws' i (raise_counter b) l e m k = tt

module _ {s : System} {a : State} (v : Holds s a) (i : ℕ) where
  open v use {stands, distinct, told, sleeping, found, woken, alone, marked, knows}

  pub Knows-at : (p : Pc) → s.pc i ≡ p → Knows s.signal (members a) i p
  Knows-at p e = subst (Knows s.signal (members a) i) e (knows i)

  -- A fiber that does not sleep is not among the waiters.
  pub outside : sleeps (s.pc i) ≡ 0 → NotIn i (members a)
  outside z = NotIn-Member i (members a) (λ m. omega (arith, sleeping i m, z))

  -- A fiber that waits writes its node.
  module _ (c : ℕ) (h : Head) (e : s.pc i ≡ wait_link c h) where
    abbrev written : Signal
    written = let f = s.signal in record f { next = update f.next i h }

    apart : NotIn i (members a)
    apart = outside (ap sleeps e)

    not_top : (j : ℕ) → s.signal.head ≡ node j → i ≢ j
    not_top j q r =
        let (ws, f, l) = Stands-node s.signal.next s.signal.head j a stands q in
        (subst (NotIn i) (ap members f) apart).0 r

    link-Knows :
        (j : ℕ) (p : Pc) → i ≢ j → Knows s.signal (members a) j p → Knows written (members a) j p
    link-Knows j (wait_swap d x) ne k = (k.0, k.1, update_ne s.signal.next i j h ne ∙ k.2)
    link-Knows j (raise_swap b d m x) ne k =
        (k.0, λ q. k.1 q ∙ sym (update_ne s.signal.next i m h (not_top m (sym (k.0.1 q)))))
    link-Knows j p ne k = k

    pub link-Holds : Holds (record s { signal = written; pc = update s.pc i (wait_swap c h) }) a
    link-Holds =
        let z = ap sleeps e in
        let y = ap wakes e in
        record {
          stands = Stands-update s.signal.next s.signal.head h i a apart stands;
          distinct = distinct;
          told = told;
          sleeping = plain-sleeping v i (wait_swap c h) z y refl refl;
          found = plain-found v i (wait_swap c h) z y refl refl;
          woken = plain-woken v i (wait_swap c h) z y refl refl;
          alone = plain-alone v i (wait_swap c h) z y refl refl;
          marked =
              update-all (λ j q. Marked (s.scratch j) q) s.pc i (wait_swap c h)
                (subst (Marked (s.scratch i)) e (marked i)) (λ j ne. marked j);
          knows =
              update-all (λ j q. Knows written (members a) j q) s.pc i (wait_swap c h)
                ((Knows-at _ e).0, (Knows-at _ e).1, update_self s.signal.next i h)
                (λ j ne. link-Knows j (s.pc j) ne (knows j));
        }

  -- The signal after an exchange.
  abbrev pub exchanged : ℕ → Head → Signal
  exchanged c h = let f = s.signal in record f { counter = c + 1; head = h }

  -- An exchange by a fiber that then is away, between states without waiters.
  pub flip-Holds :
      (c : ℕ) (h : Head) (ev : Event) (b : State)
      → s.signal.counter ≡ c
      → sleeps (s.pc i) ≡ 0
      → wakes (s.pc i) ≡ none
      → Stands s.signal.next h b
      → Distinct (members b)
      → members b ≡ members a
      → replay (ev ∷ s.log) ≡ some b
      → Holds (record s { signal = exchanged c h; pc = update s.pc i away; log = ev ∷ s.log }) b
  flip-Holds c h ev b qc z y st d m t = record {
    stands = st;
    distinct = d;
    told = t;
    sleeping = λ j k. plain-sleeping v i away z y refl refl j (subst (Member j) m k);
    found =
        subst
          (λ ws.
            (j : ℕ)
            → sleeps (update s.pc i away j) ≡ 1
            → Member j ws ⊎ ((k : ℕ) × (wakes (update s.pc i away k) ≡ some j)))
          (sym m) (plain-found v i away z y refl refl);
    woken = plain-woken v i away z y refl refl;
    alone = plain-alone v i away z y refl refl;
    marked = update-all (λ j q. Marked (s.scratch j) q) s.pc i away tt (λ j ne. marked j);
    knows =
        update-all (λ j q. Knows (exchanged c h) (members b) j q) s.pc i away tt
          (λ j ne.
            later-Knows s.signal (exchanged c h) (members a) (members b) j (s.pc j)
              (omega (arith, qc)) refl (λ n e k. subst (NotIn n) (sym m) k) (knows j));
  }
