-- ===== src/Event/Waiters.antt =====
-- Every run of waits for events.
use libfiber.Prelude.{
  ℕ, Bool, ◌<◌, ◌≡◌, ◌≢◌, ◌⊎◌, inl, inr, ap, sym, subst, arith, true, false, List, [], ◌∷◌,
  Distinct, Member, NotIn-Member,
}
use libfiber.Event.{
  Events, unused, away, asleep, ready, System, handle, fd_closed, Action, act, run, all_served,
}
use libfiber.Event.Invariant.{Includes, wake_waiters-Member, wake_waiters-NotIn, act-Inv, Inv}

run-Inv : (l : List Action) (s : System) → Inv s → all_served l ≡ true → Inv (run l s)
unfolding run all_served
run-Inv [] s v h = v
run-Inv (a ∷ l) s v h = run-Inv l (act a s) (act-Inv v a (ground (arith, h))) (ground (arith, h))

-- As `fiber_event_init` leaves the table, with all fibers away.
pub record Initial (s : System) : Type 0 where
  pub fresh : (fd : ℕ) → s.wait_info fd ≡ unused
  pub alone : (i : ℕ) → s.pc i ≡ away

Initial-Inv : (s : System) → Initial s → Inv s
Initial-Inv s z = record {
  listed = λ i fd e q. ground (arith, z.alone i, q);
  slept = λ i fd m. absurd (subst (λ x. Member i (x.waiters)) (z.fresh fd) m);
  distinct = λ fd. subst (λ x. Distinct (x.waiters)) (sym (z.fresh fd)) tt;
  asked = λ i fd e q. ground (arith, z.alone i, q);
  covered = λ fd. inl (ap (λ x. x.waiters) (z.fresh fd));
}

module _ (l : List Action) (s : System) (z : Initial s) (h : all_served l ≡ true) where
  ran : Inv (run l s)
  ran = run-Inv l s (Initial-Inv s z) h

  -- In every run in which every `epoll_ctl` succeeds and no fiber that waits is refused the switch away
  -- from it, while a fiber is asleep until an event of a descriptor, the descriptor is armed for this
  -- event, or `epoll_wait` has returned one of its events that is not handled yet.
  pub waiter_covered :
      (i fd : ℕ) (e : Events)
      → let t = run l s in t.pc i ≡ asleep fd e → Includes (t.armed fd) e ⊎ (0 < t.delivered fd)
  waiter_covered i fd e q = elim (ran.covered fd) [
    | inl y ↦ absurd (subst (Member i) y (ran.listed i fd e q))
    | inr (inl y) ↦ inl (subst (λ x. Includes x e) (sym y) (ran.asked i fd e q))
    | inr (inr y) ↦ inr y
  ]

  -- After every run in which every `epoll_ctl` succeeds and no fiber that waits is refused the switch
  -- away from it, an event of a descriptor that is handled ends every wait for the descriptor with
  -- success, whether or not its own `epoll_ctl` succeeds, closing it ends them with an error, and neither
  -- ends another wait.
  pub waits_end :
      (i fd : ℕ) (revents : Events) (r : Bool)
      → let t = run l s in
        ((e : Events)
          → t.pc i ≡ asleep fd e
          → ((handle fd revents r t).pc i ≡ ready true) × ((fd_closed fd t).pc i ≡ ready false))
        × (((e : Events) → t.pc i ≢ asleep fd e)
            → ((handle fd revents r t).pc i ≡ t.pc i) × ((fd_closed fd t).pc i ≡ t.pc i))
  unfolding handle fd_closed
  waits_end i fd revents r = (
    (λ e q. (
      wake_waiters-Member true i _ (run l s).pc (ran.listed i fd e q),
      wake_waiters-Member false i _ (run l s).pc (ran.listed i fd e q),
    )),
    (λ n.
        let out =
          NotIn-Member i ((run l s).wait_info fd).waiters
            (λ m. n (ran.slept i fd m).0 (ran.slept i fd m).1) in
        (
          wake_waiters-NotIn true i _ (run l s).pc out,
          wake_waiters-NotIn false i _ (run l s).pc out,
        )),
  )
