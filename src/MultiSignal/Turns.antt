-- ===== src/MultiSignal/Turns.antt =====
-- The steps of a fiber at the multi signal.
use libfiber.Prelude.{
  ℕ, ◌+◌, ◌^◌, ◌<◌, ◌≡◌, ◌⊎◌, inl, inr, refl, ap, sym, subst, ◌∙◌, arith, Bool, true, false,
  Bool-cases, ◌&&◌, ◌==◌, none, some, [], ◌∷◌, update, update_self, update_ne,
}
use native.Mathlib.Nat.{mod-eq_of_lt}
use libfiber.MultiSignal.{
  refuse, switches, Head, null, flag, node, same, Pc, away, wait_counter, wait_head, wait_take,
  wait_link, wait_swap, parking, waking, raise_counter, raise_head, raise_flag, raise_next,
  raise_swap, spinning, Event, accepted, raised, slept, popped, System, Action, do_wait, do_raise,
  go, moved, exchange, after_exchange, see_wait, see_raise, act,
}
use libfiber.MultiSignal.Replay.{
  State, is_raised, waiters, members, Linked, replay-next, Stands-node, Stands-flag, Stands-null,
  Stands-waiters, same→≡,
}
use libfiber.MultiSignal.Stages.{Knows, Marked, sleeps, wakes, Holds, plain-Holds}
use libfiber.MultiSignal.Steps.{Knows-at, link-Holds, exchanged, flip-Holds}
use libfiber.MultiSignal.Sleep.{slept-Holds, popped-Holds, parked-Holds, waking-Holds}

-- The state after a step.
abbrev pub Good : System → Type 0
Good s = (a : State) × Holds s a

module _ {s : System} {a : State} (v : Holds s a) (i : ℕ) (b : s.signal.counter + 1 < 2 ^ 64) where
  open v use {stands, distinct, told, marked, knows}

  -- What follows an exchange: the loop starts anew, or the signal is as the exchange leaves it.
  exchange-Good :
      (c : ℕ) (h x : Head) (e : Event) (done again : Pc)
      → Good (moved s i again)
      → (s.signal.counter ≡ c
          → s.signal.head ≡ h
          → Good (
              let f = s.signal in
              record s {
                signal = record f { counter = c + 1; head = x };
                pc = update s.pc i done;
                log = e ∷ s.log;
              }))
      → Good (after_exchange (exchange s.signal c h x) e done again s i)
  unfolding exchange
  exchange-Good c h x e done again f g =
      elim (Bool-cases ((s.signal.counter == c) && same s.signal.head h)) [
        | inl t ↦ succeeds (ground (arith, t)) (same→≡ s.signal.head h (ground (arith, t))) t
        | inr t ↦ rw t f
      ]
    where
      succeeds :
          s.signal.counter ≡ c
          → s.signal.head ≡ h
          → ((s.signal.counter == c) && same s.signal.head h) ≡ true
          → Good (after_exchange (exchange s.signal c h x) e done again s i)
      succeeds qc qh t =
          rw (t, mod-eq_of_lt {n = c + 1} {m = 2 ^ 64} (omega (arith, b, qc))) (g qc qh)

  plain-Good :
      (p : Pc)
      → sleeps (s.pc i) ≡ 0
      → wakes (s.pc i) ≡ none
      → sleeps p ≡ 0
      → wakes p ≡ none
      → Marked (s.scratch i) p
      → Knows s.signal (members a) i p
      → Good (moved s i p)
  plain-Good p z y z' y' m k = (a, plain-Holds v i p z y z' y' s.scratch (λ j ne. refl) m k)

  Marked-at : (p : Pc) → s.pc i ≡ p → Marked (s.scratch i) p
  Marked-at p e = subst (Marked (s.scratch i)) e (marked i)

  see_wait-Good :
      (c : ℕ) (h : Head)
      → s.pc i ≡ wait_head c
      → s.signal.head ≡ h
      → Good (moved s i (see_wait h c))
  see_wait-Good c flag e q =
      plain-Good (wait_take c) (ap sleeps e) (ap wakes e) refl refl (Marked-at _ e)
        (Knows-at v i _ e)
  see_wait-Good c null e q =
      plain-Good (wait_link c null) (ap sleeps e) (ap wakes e) refl refl (Marked-at _ e)
        ((λ z. ground (arith, z)), (Knows-at v i _ e, λ r. sym q))
  see_wait-Good c (node j) e q =
      plain-Good (wait_link c (node j)) (ap sleeps e) (ap wakes e) refl refl (Marked-at _ e)
        ((λ z. ground (arith, z)), (Knows-at v i _ e, λ r. sym q))

  see_raise-Good :
      (strict : Bool) (c : ℕ) (h : Head)
      → s.pc i ≡ raise_head strict c
      → s.signal.head ≡ h
      → Good (moved s i (see_raise h strict c))
  see_raise-Good strict c (node j) e q =
      plain-Good (raise_next strict c j) (ap sleeps e) (ap wakes e) refl refl tt
        (Knows-at v i _ e, λ r. sym q)
  see_raise-Good true c null e q =
      plain-Good (raise_counter true) (ap sleeps e) (ap wakes e) refl refl tt tt
  see_raise-Good true c flag e q =
      plain-Good (raise_counter true) (ap sleeps e) (ap wakes e) refl refl tt tt
  see_raise-Good false c null e q =
      plain-Good (raise_flag c null) (ap sleeps e) (ap wakes e) refl refl tt
        (inl refl, (Knows-at v i _ e, λ r. sym q))
  see_raise-Good false c flag e q =
      plain-Good (raise_flag c flag) (ap sleeps e) (ap wakes e) refl refl tt
        (inr refl, (Knows-at v i _ e, λ r. sym q))

  wait_take-Good :
      (c : ℕ)
      → s.pc i ≡ wait_take c
      → Good (after_exchange (exchange s.signal c flag null) accepted away wait_counter s i)
  wait_take-Good c e =
      exchange-Good c flag null accepted away wait_counter
        (plain-Good wait_counter (ap sleeps e) (ap wakes e) refl refl (Marked-at _ e) tt)
        (λ qc qh.
          let q = Stands-flag s.signal.next s.signal.head a stands qh in
          (
            waiters [],
            flip-Holds v i c null accepted (waiters []) qc (ap sleeps e) (ap wakes e) refl tt
                (ap members (sym q))
                (replay-next s.log accepted is_raised (waiters []) (told ∙ ap some q) refl),
          ))

  raise_flag-Good :
      (c : ℕ) (h : Head)
      → s.pc i ≡ raise_flag c h
      → Good (after_exchange (exchange s.signal c h flag) raised away (raise_counter false) s i)
  raise_flag-Good c h e =
      exchange-Good c h flag raised away (raise_counter false)
        (plain-Good (raise_counter false) (ap sleeps e) (ap wakes e) refl refl tt tt)
        (λ qc qh. raised_from (Knows-at v i _ e).0 qc qh)
    where
      raised_from :
          (h ≡ null) ⊎ (h ≡ flag)
          → s.signal.counter ≡ c
          → s.signal.head ≡ h
          → Good (record s {
            signal = exchanged v i c flag;
            pc = update s.pc i away;
            log = raised ∷ s.log;
          })
      raised_from (inl n) qc qh =
          let q = Stands-null s.signal.next s.signal.head a stands (qh ∙ n) in
          (
            is_raised,
            flip-Holds v i c flag raised is_raised qc (ap sleeps e) (ap wakes e) refl tt
                (ap members (sym q))
                (replay-next s.log raised (waiters []) is_raised (told ∙ ap some q) refl),
          )
      raised_from (inr n) qc qh =
          let q = Stands-flag s.signal.next s.signal.head a stands (qh ∙ n) in
          (
            is_raised,
            flip-Holds v i c flag raised is_raised qc (ap sleeps e) (ap wakes e) refl tt
                (ap members (sym q))
                (replay-next s.log raised is_raised is_raised (told ∙ ap some q) refl),
          )

  wait_swap-Good :
      (c : ℕ) (h : Head)
      → s.pc i ≡ wait_swap c h
      → Good (after_exchange (exchange s.signal c h (node i)) (slept i) parking wait_counter s i)
  wait_swap-Good c h e =
      let (nf, cur, n) = Knows-at v i _ e in
      exchange-Good c h (node i) (slept i) parking wait_counter
        (plain-Good wait_counter (ap sleeps e) (ap wakes e) refl refl (Marked-at _ e) tt)
        (λ qc qh.
          let (ws, q) =
            Stands-waiters s.signal.next s.signal.head a stands (λ z. nf (sym qh ∙ z)) in
          (waiters (i ∷ ws), slept-Holds (subst (Holds s) q v) i c h e qc (n ∙ sym qh)))

  raise_swap-Good :
      (strict : Bool) (c j : ℕ) (x : Head)
      → s.pc i ≡ raise_swap strict c j x
      → Good (
          after_exchange
            (exchange s.signal c (node j) x)
            (popped j)
            (spinning j)
            (raise_counter strict)
            s
            i)
  raise_swap-Good strict c j x e =
      exchange-Good c (node j) x (popped j) (spinning j) (raise_counter strict)
        (plain-Good (raise_counter strict) (ap sleeps e) (ap wakes e) refl refl tt tt)
        (λ qc qh.
          let (ws, q, l) = Stands-node s.signal.next s.signal.head j a stands qh in
          (
            waiters ws,
            popped-Holds (subst (Holds s) q v) i strict c x e qc
                (subst (λ y. Linked s.signal.next y ws) (sym ((Knows-at v i _ e).1 (sym qc))) l),
          ))

  pub act-Good : (d : Action) (p : Pc) → switches d ≡ true → s.pc i ≡ p → Good (act d p s i)
  unfolding act
  act-Good refuse p u e = absurd (ground (arith, u))
  act-Good do_wait away u e = (
    a,
    plain-Holds v i wait_counter (ap sleeps e) (ap wakes e) refl refl (update s.scratch i false)
        (λ j ne. update_ne s.scratch i j false ne) (update_self s.scratch i false) tt,
  )
  act-Good go wait_counter u e =
      plain-Good (wait_head s.signal.counter) (ap sleeps e) (ap wakes e) refl refl (Marked-at _ e)
        (omega arith)
  act-Good go (wait_head c) u e = see_wait-Good c s.signal.head e refl
  act-Good go (wait_take c) u e = wait_take-Good c e
  act-Good go (wait_link c h) u e = (a, link-Holds v i c h e)
  act-Good go (wait_swap c h) u e = wait_swap-Good c h e
  act-Good go parking u e = (a, parked-Holds v i e)
  act-Good go waking u e = (
    a,
    plain-Holds v i away (ap sleeps e) (ap wakes e) refl refl (update s.scratch i false)
        (λ j ne. update_ne s.scratch i j false ne) tt tt,
  )
  act-Good (do_raise strict) away u e =
      plain-Good (raise_counter strict) (ap sleeps e) (ap wakes e) refl refl tt tt
  act-Good go (raise_counter strict) u e =
      plain-Good (raise_head strict s.signal.counter) (ap sleeps e) (ap wakes e) refl refl tt
        (omega arith)
  act-Good go (raise_head strict c) u e = see_raise-Good strict c s.signal.head e refl
  act-Good go (raise_flag c h) u e = raise_flag-Good c h e
  act-Good go (raise_next strict c j) u e =
      plain-Good (raise_swap strict c j (s.signal.next j)) (ap sleeps e) (ap wakes e) refl refl tt
        (Knows-at v i _ e, λ q. refl)
  act-Good go (raise_swap strict c j x) u e = raise_swap-Good strict c j x e
  act-Good go (spinning j) u e = elim (Bool-cases (s.scratch j)) [
    | inl t ↦ rw t (a, waking-Holds v i j e)
    | inr t ↦ rw t (a, v)
  ]
  act-Good d p u e = (a, v)
