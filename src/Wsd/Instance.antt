-- ===== src/Wsd/Instance.antt =====
-- The schedulers of all threads, seen from one of them, as the scheduler that the manager asks.
use libfiber.Prelude.{ℕ, ◌+◌, ◌≡◌, ◌≢◌, sym, subst, arith, Bool, true, ◌==◌, Option, none, some}
use libfiber.Scheduler.{Scheduler, one_if}
use libfiber.Wsd.{Wsd, schedule, next, load_balance}
use libfiber.Wsd.Keep.{held, push-Kept}
use libfiber.Wsd.Next.{Ready, next_hands}
use libfiber.Wsd.Balance.{load_balance_keeps}

-- A call that ran out of fuel would give NULL.
abbrev pub or_null : Wsd → Option (Wsd × ℕ) → Wsd × ℕ
or_null w none = (w, 0)
or_null w (some out) = out

module _ (garbage : ℕ → ℕ) (id : ℕ) where
  pub held-schedule :
      (w : Wsd) (f g : ℕ)
      → Ready id w
      → held (schedule garbage id w f) g ≡ held w g + one_if (f == g)
  unfolding schedule
  held-schedule w f g r = omega (
    arith,
    (push-Kept garbage 0 (w.schedule_from id) f w r.from
          (λ i l. ((r.roomy i l).0, omega (arith, (r.roomy i l).1)))).total
        g,
  )

  pub held-next :
      (saving : ℕ → Bool) (w : Wsd) (g : ℕ)
      → Ready id w
      → (or_null w (next garbage saving true id w)).1 ≢ 0
      → held w g
        ≡ held (or_null w (next garbage saving true id w)).0 g
          + one_if ((or_null w (next garbage saving true id w)).1 == g)
  held-next saving w g r nz =
      let (w', f, e, d, n, k, l) = next_hands garbage saving id w r in
      given w' f e k (subst (λ o. (or_null w o).1 ≢ 0) e nz)
    where
      given :
          (w' : Wsd) (f : ℕ)
          → next garbage saving true id w ≡ some (w', f)
          → (f ≢ 0 → (h : ℕ) → held w' h + one_if (f == h) ≡ held w h)
          → f ≢ 0
          → held w g
            ≡ held (or_null w (next garbage saving true id w)).0 g
              + one_if ((or_null w (next garbage saving true id w)).1 == g)
      given w' f e k nz = rw e (sym (k nz g))

  abbrev pub wsd : Scheduler
  wsd = record {
    Q = Wsd;
    Fits = Ready id;
    schedule = schedule garbage id;
    next = λ saving w. or_null w (next garbage saving true id w);
    load_balance = load_balance garbage true id;
    queued = held;
    queued-schedule = held-schedule;
    queued-next = held-next;
    queued-load_balance = λ w g r.
        load_balance_keeps garbage true id w g r.from
          (λ i l. ((r.roomy i l).0, omega (arith, (r.roomy i l).1)));
  }
