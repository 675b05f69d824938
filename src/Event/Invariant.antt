-- ===== src/Event/Invariant.antt =====
-- The lists of the fibers that wait, and what is armed for them.
use libfiber.Prelude.{
  ℕ, ◌+◌, ◌<◌, ◌≡◌, ◌≢◌, ◌⊎◌, inl, inr, refl, sym, subst, ◌∙◌, arith, Bool, true, false, ◌&&◌, ltb,
  Bool-cases, eq-cases, List, [], ◌∷◌, update, update_self, update_ne, NotIn, Distinct, Member,
  NotIn-Member, Member-NotIn,
}
use libfiber.Event.{
  Events, no_events, some_event, union, minus, WaitInfo, unused, Pc, away, asleep, ready, System,
  wake_waiters, wait_for_event, handle, fd_closed, Action, wait, go, deliver, poll, close, wait_at,
  go_at, act, served,
}

abbrev pub Includes : Events → Events → Type 0
Includes a b = (b.pollin ≡ true → a.pollin ≡ true) × (b.pollout ≡ true → a.pollout ≡ true)

pub record Inv (s : System) : Type 0 where
  pub listed : (i fd : ℕ) (e : Events) → s.pc i ≡ asleep fd e → Member i (s.wait_info fd).waiters
  pub slept : (i fd : ℕ) → Member i (s.wait_info fd).waiters → (e : Events) × (s.pc i ≡ asleep fd e)
  pub distinct : (fd : ℕ) → Distinct (s.wait_info fd).waiters
  pub asked : (i fd : ℕ) (e : Events) → s.pc i ≡ asleep fd e → Includes (s.wait_info fd).events e
  pub covered :
      (fd : ℕ)
      → ((s.wait_info fd).waiters ≡ [])
        ⊎ ((s.armed fd ≡ (s.wait_info fd).events) ⊎ (0 < s.delivered fd))

Member-cases : (j : ℕ) (ws : List ℕ) → Member j ws ⊎ NotIn j ws
Member-cases j [] = inr tt
Member-cases j (w ∷ ws) = elim (eq-cases j w) [
  | inl e ↦ inl (inl e)
  | inr ne ↦ elim (Member-cases j ws) [ inl m ↦ inl (inr m) | inr n ↦ inr (ne, n) ]
]

module _ (r : Bool) (j : ℕ) where
  wake_waiters-ready :
      (ws : List ℕ) (pc : ℕ → Pc) → pc j ≡ ready r → wake_waiters r ws pc j ≡ ready r
  unfolding wake_waiters
  wake_waiters-ready [] pc e = e
  wake_waiters-ready (w ∷ ws) pc e =
      wake_waiters-ready ws (update pc w (ready r)) (ground (arith, e))

  pub wake_waiters-Member :
      (ws : List ℕ) (pc : ℕ → Pc) → Member j ws → wake_waiters r ws pc j ≡ ready r
  unfolding wake_waiters
  wake_waiters-Member [] pc m = elim m [ ]
  wake_waiters-Member (w ∷ ws) pc (inl e) =
      wake_waiters-ready ws (update pc w (ready r)) (ground (arith, e))
  wake_waiters-Member (w ∷ ws) pc (inr m) = wake_waiters-Member ws (update pc w (ready r)) m

  pub wake_waiters-NotIn : (ws : List ℕ) (pc : ℕ → Pc) → NotIn j ws → wake_waiters r ws pc j ≡ pc j
  unfolding wake_waiters
  wake_waiters-NotIn [] pc n = refl
  wake_waiters-NotIn (w ∷ ws) pc n =
      wake_waiters-NotIn ws (update pc w (ready r)) n.1 ∙ ground (arith, n.0)

  -- A fiber that is asleep after the others were woken was so before, and not among them.
  still_asleep :
      (ws : List ℕ) (pc : ℕ → Pc) (fd : ℕ) (e : Events)
      → wake_waiters r ws pc j ≡ asleep fd e
      → NotIn j ws × (pc j ≡ asleep fd e)
  still_asleep ws pc fd e q = elim (Member-cases j ws) [
    | inl m ↦ absurd (ground (arith, wake_waiters-Member ws pc m, q))
    | inr n ↦ (n, sym (wake_waiters-NotIn ws pc n) ∙ q)
  ]

module _ {s : System} (v : Inv s) where
  open v use {listed, slept, distinct, asked, covered}

  -- All waiters of a descriptor are woken; what is armed and delivered changes for this descriptor alone.
  drain-Inv :
      (fd : ℕ) (r : Bool) (info : WaitInfo) (armed : ℕ → Events) (delivered : ℕ → ℕ)
      → info.waiters ≡ []
      → ((g : ℕ) → fd ≢ g → armed g ≡ s.armed g)
      → ((g : ℕ) → fd ≢ g → delivered g ≡ s.delivered g)
      → Inv (record {
        wait_info = update s.wait_info fd info;
        armed = armed;
        delivered = delivered;
        pc = wake_waiters r (s.wait_info fd).waiters s.pc;
      })
  drain-Inv fd r info armed delivered z a d = record {
    listed = λ i g e q. elsewhere i g e q (λ x. Member i (x.waiters)) (λ k. listed i g e k);
    slept = λ i g.
        at g
          (λ x.
            Member i (x.waiters)
            → (e : Events) × (wake_waiters r (s.wait_info fd).waiters s.pc i ≡ asleep g e))
          (λ m. absurd (subst (Member i) z m)) (λ ne m. still i g ne m);
    distinct = λ g. at g (λ x. Distinct (x.waiters)) (subst Distinct (sym z) tt) (λ ne. distinct g);
    asked = λ i g e q. elsewhere i g e q (λ x. Includes (x.events) e) (λ k. asked i g e k);
    covered = λ g.
        at g (λ x. (x.waiters ≡ []) ⊎ ((armed g ≡ x.events) ⊎ (0 < delivered g))) (inl z)
          (λ ne.
            subst
              (λ n. ((s.wait_info g).waiters ≡ []) ⊎ ((armed g ≡ (s.wait_info g).events) ⊎ (0 < n)))
              (sym (d g ne))
              (subst
                (λ x.
                  ((s.wait_info g).waiters ≡ [])
                  ⊎ ((x ≡ (s.wait_info g).events) ⊎ (0 < s.delivered g)))
                (sym (a g ne)) (covered g)));
  }
    where
      at :
          (g : ℕ) (P : WaitInfo → Type 0)
          → P info
          → (fd ≢ g → P (s.wait_info g))
          → P (update s.wait_info fd info g)
      at g P h k = elim (eq-cases fd g) [
        | inl e ↦
            subst (λ m. P (update s.wait_info fd info m)) e
              (subst P (sym (update_self s.wait_info fd info)) h)
        | inr ne ↦ subst P (sym (update_ne s.wait_info fd g info ne)) (k ne)
      ]

      elsewhere :
          (i g : ℕ) (e : Events)
          → wake_waiters r (s.wait_info fd).waiters s.pc i ≡ asleep g e
          → (P : WaitInfo → Type 0) → (s.pc i ≡ asleep g e → P (s.wait_info g))
          → P (update s.wait_info fd info g)
      elsewhere i g e q P h =
          let (n, k) = still_asleep r i (s.wait_info fd).waiters s.pc g e q in
          elim (eq-cases fd g) [
            | inl f ↦ absurd (
                Member-NotIn i (s.wait_info fd).waiters n
                  (subst (λ m. Member i (s.wait_info m).waiters) (sym f) (listed i g e k)))
            | inr ne ↦ subst P (sym (update_ne s.wait_info fd g info ne)) (h k)
          ]

      still :
          (i g : ℕ)
          → fd ≢ g
          → Member i (s.wait_info g).waiters
          → (e : Events) × (wake_waiters r (s.wait_info fd).waiters s.pc i ≡ asleep g e)
      still i g ne m =
          let (e, q) = slept i g m in
          (
            e,
            wake_waiters-NotIn r i (s.wait_info fd).waiters s.pc (
                  NotIn-Member i (s.wait_info fd).waiters
                    (λ k. ne (same_fd (s.pc i) (slept i fd k).1 q)))
                ∙ q,
          )
        where
          same_fd : {f : Events} {e' : Events} (p : Pc) → p ≡ asleep fd f → p ≡ asleep g e' → fd ≡ g
          same_fd p k l = ground (arith, k, l)

  handle-Inv : (fd : ℕ) (revents : Events) (r : Bool) → r ≡ true → Inv (handle fd revents r s)
  unfolding handle
  handle-Inv fd revents false h = cc h
  handle-Inv fd revents true h =
      let info = s.wait_info fd in
      drain-Inv fd true (record info { events = minus info.events revents; waiters = [] }) _ _ refl
        (λ g ne. ground (arith, ne)) (λ g ne. ground (arith, ne))

  fd_closed-Inv : (fd : ℕ) → Inv (fd_closed fd s)
  unfolding fd_closed
  fd_closed-Inv fd =
      drain-Inv fd false unused _ s.delivered refl (λ g ne. ground (arith, ne)) (λ g ne. refl)

  deliver-Inv :
      (fd : ℕ)
      → Inv (record s {
        armed = update s.armed fd no_events;
        delivered = update s.delivered fd (s.delivered fd + 1);
      })
  deliver-Inv fd = record {
    listed = listed;
    slept = slept;
    distinct = distinct;
    asked = asked;
    covered = λ g. ground (arith, covered g);
  }

  go-Inv : (i : ℕ) (r : Bool) → s.pc i ≡ ready r → Inv (record s { pc = update s.pc i away })
  go-Inv i r e = record {
    listed = λ j fd f q. ground (arith, listed j fd f, q);
    slept = λ j fd m. let (f, q) = slept j fd m in (f, ground (arith, q, e));
    distinct = distinct;
    asked = λ j fd f q. ground (arith, asked j fd f, q);
    covered = covered;
  }

  wait-Inv : (i fd : ℕ) (e : Events) → s.pc i ≡ away → Inv (wait_for_event i fd e true true s)
  unfolding wait_for_event
  wait-Inv i fd e q = record {
    listed = joined;
    slept = λ j g m. rejoined j g m;
    distinct = λ g. elim (eq-cases fd g) [
      | inl z ↦
          subst (λ m. Distinct (update s.wait_info fd new m).waiters) z
            (subst (λ x. Distinct (x.waiters)) (sym (update_self s.wait_info fd new))
              (apart fd, distinct fd))
      | inr ne ↦
          subst (λ x. Distinct (x.waiters)) (sym (update_ne s.wait_info fd g new ne)) (distinct g)
    ];
    asked = λ j g f h. ground (arith, asked j g f, h);
    covered = λ g. ground (arith, covered g);
  }
    where
      new : WaitInfo
      new = record {
        events = union (s.wait_info fd).events e;
        added = true;
        waiters = i ∷ (s.wait_info fd).waiters;
      }

      away_asleep : (p : Pc) (g : ℕ) (f : Events) → p ≡ away → p ≢ asleep g f
      away_asleep p g f a b = ground (arith, a, b)

      apart : (g : ℕ) → NotIn i (s.wait_info g).waiters
      apart g =
          NotIn-Member i (s.wait_info g).waiters
            (λ m. away_asleep (s.pc i) g (slept i g m).0 q (slept i g m).1)

      joined :
          (j g : ℕ) (f : Events)
          → update s.pc i (asleep fd e) j ≡ asleep g f
          → Member j (update s.wait_info fd new g).waiters
      joined j g f h = elim (eq-cases fd g) [
        | inl z ↦
            subst (λ m. Member j (update s.wait_info fd new m).waiters) z
              (subst (λ x. Member j (x.waiters)) (sym (update_self s.wait_info fd new))
                (elim (eq-cases j i) [
                  | inl y ↦ inl y
                  | inr ne ↦ inr (
                      subst (λ m. Member j (s.wait_info m).waiters) (sym z)
                        (listed j g f (ground (arith, h, ne))))
                ]))
        | inr ne ↦
            subst (λ x. Member j (x.waiters)) (sym (update_ne s.wait_info fd g new ne))
              (listed j g f (ground (arith, h, ne)))
      ]

      rejoined :
          (j g : ℕ)
          → Member j (update s.wait_info fd new g).waiters
          → (f : Events) × (update s.pc i (asleep fd e) j ≡ asleep g f)
      rejoined j g m = elim (eq-cases fd g) [
        | inl z ↦ first j g z (
            subst (λ x. Member j (x.waiters)) (update_self s.wait_info fd new)
              (subst (λ k. Member j (update s.wait_info fd new k).waiters) (sym z) m))
        | inr ne ↦
            rest j g (subst (λ x. Member j (x.waiters)) (update_ne s.wait_info fd g new ne) m)
      ]
        where
          rest :
              (j g : ℕ)
              → Member j (s.wait_info g).waiters
              → (f : Events) × (update s.pc i (asleep fd e) j ≡ asleep g f)
          rest j g m = (
            (slept j g m).0,
            update_ne s.pc i j (asleep fd e) (λ y.
                  Member-NotIn i (s.wait_info g).waiters (apart g)
                    (subst (λ k. Member k (s.wait_info g).waiters) (sym y) m))
                ∙ (slept j g m).1,
          )

          first :
              (j g : ℕ)
              → fd ≡ g
              → (j ≡ i) ⊎ Member j (s.wait_info fd).waiters
              → (f : Events) × (update s.pc i (asleep fd e) j ≡ asleep g f)
          first j g z (inl y) = (e, ground (arith, y, z))
          first j g z (inr k) = rest j g (subst (λ x. Member j (s.wait_info x).waiters) z k)

  wait_at-Inv :
      (i fd : ℕ) (e : Events) (r b : Bool) (p : Pc)
      → (r && b) ≡ true
      → s.pc i ≡ p
      → Inv (wait_at i fd e r b p s)
  wait_at-Inv i fd e true true away h q = wait-Inv i fd e q
  wait_at-Inv i fd e true false away h q = cc h
  wait_at-Inv i fd e false b away h q = cc h
  wait_at-Inv i fd e r b (asleep g f) h q = v
  wait_at-Inv i fd e r b (ready x) h q = v

  go_at-Inv : (i : ℕ) (p : Pc) → s.pc i ≡ p → Inv (go_at i p s)
  go_at-Inv i away q = v
  go_at-Inv i (asleep g f) q = v
  go_at-Inv i (ready r) q = go-Inv i r q

  pub act-Inv : (a : Action) → served a ≡ true → Inv (act a s)
  unfolding act
  act-Inv (wait i fd e r b) h = wait_at-Inv i fd e r b (s.pc i) h refl
  act-Inv (go i) h = go_at-Inv i (s.pc i) refl
  act-Inv (deliver fd) h = elim (Bool-cases (some_event (s.armed fd))) [
    | inl t ↦ rw t (deliver-Inv fd)
    | inr t ↦ rw t v
  ]
  act-Inv (poll fd revents r) h = elim (Bool-cases (ltb 0 (s.delivered fd))) [
    | inl t ↦ rw t (handle-Inv fd revents r h)
    | inr t ↦ rw t v
  ]
  act-Inv (close fd) h = fd_closed-Inv fd
