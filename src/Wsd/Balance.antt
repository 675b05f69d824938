-- ===== src/Wsd/Balance.antt =====
-- `fiber_scheduler_load_balance` moves fibers between queues, and loses none.
use libfiber.Prelude.{
  ℕ, zero, suc, ◌+◌, ◌-◌, ◌*◌, ◌%◌, ◌<◌, ◌≡◌, ◌==◌, inl, inr, refl, ◌∙◌, arith, Bool, ltb,
  Bool-cases,
}
use native.Mathlib.Nat.{mod-lt}
use libfiber.Scheduler.{one_if}
use libfiber.Deque.{Taken, item, empty, abort, size_of, steal}
use libfiber.Wsd.{Wsd, incr, push, after_steal, steal_loop, balance_loop, load_balance}
use libfiber.Wsd.Keep.{
  queues, held, AllRoomy, changed, given, Kept, push-Kept, steal-Kept, from-kept, less-Kept,
}

-- Every fiber is where it was, or in another queue.
abbrev pub Moved : ℕ → Wsd → Wsd → Type 0
Moved room w w' = Kept room w w' (λ g. 0) (λ g. 0)

Moved-refl : (room : ℕ) (w : Wsd) → AllRoomy room w → Moved room w w
Moved-refl room w a = record { same = refl; from = refl; to = refl; roomy = a; total = λ g. refl }

Moved-trans : (r room : ℕ) (w w1 w2 : Wsd) → Moved r w w1 → Moved room w1 w2 → Moved room w w2
Moved-trans r room w w1 w2 a b = record {
  same = b.same ∙ a.same;
  from = b.from ∙ a.from;
  to = b.to ∙ a.to;
  roomy = b.roomy;
  total = λ g. omega (arith, a.total g, b.total g);
}

module _ (garbage : ℕ → ℕ) (x : Bool) (id : ℕ) where
  -- A fiber goes from one queue to another, and is counted as stolen.
  stolen-Moved :
      (room f : ℕ) (w w1 : Wsd)
      → w1.schedule_from id < queues w1
      → Kept (suc room) w w1 (λ g. 0) (λ g. one_if (f == g))
      → let w2 = push garbage (w1.schedule_from id) w1 f in
        Moved room w (record w2 { steal_count = incr w2.steal_count id })
  stolen-Moved room f w w1 h a =
      let b = push-Kept garbage room (w1.schedule_from id) f w1 h a.roomy in
      record {
        same = b.same ∙ a.same;
        from = b.from ∙ a.from;
        to = b.to ∙ a.to;
        roomy = b.roomy;
        total = λ g. omega (arith, a.total g, b.total g);
      }

  after_steal-Moved :
      (room n : ℕ) (rest : Wsd → Wsd × ℕ × ℕ) (local : ℕ) (w w1 : Wsd) (t : Taken)
      → w1.schedule_from id < queues w1
      → Kept (suc n + room) w w1 (λ g. 0) (given t)
      → ((w2 : Wsd) → Moved (n + room) w w2 → Moved ((rest w2).2 + room) w2 (rest w2).0)
      → let out = after_steal garbage rest id local (suc n) w1 t in Moved (out.2 + room) w out.0
  after_steal-Moved room n rest local w w1 (item f) h a k =
      let a' =
        less-Kept (suc n + room) (suc (n + room)) w w1 (λ g. 0) (λ g. one_if (f == g)) (omega arith)
          a in
      let b = stolen-Moved (n + room) f w w1 h a' in Moved-trans (n + room) _ w _ _ b (k _ b)
  after_steal-Moved room n rest local w w1 empty h a k = record {
    same = a.same;
    from = a.from;
    to = a.to;
    roomy = a.roomy;
    total = a.total;
  }
  after_steal-Moved room n rest local w w1 abort h a k = record {
    same = a.same;
    from = a.from;
    to = a.to;
    roomy = a.roomy;
    total = a.total;
  }

  steal_loop-Moved :
      (room remote remote_count local max_steal : ℕ) (w : Wsd)
      → remote < queues w
      → w.schedule_from id < queues w
      → AllRoomy (max_steal + room) w
      → let out = steal_loop garbage x id remote remote_count local max_steal w in
        Moved (out.2 + room) w out.0
  unfolding steal_loop
  steal_loop-Moved room remote rc local zero w h hf a = Moved-refl (0 + room) w a
  steal_loop-Moved room remote rc local (suc n) w h hf a = elim (Bool-cases (ltb local rc)) [
    | inl e ↦
        rw (e, steal_loop)
          (after_steal-Moved room n (steal_loop garbage x id remote (rc - 1) (local + 1) n) local w
            (changed w remote (steal x (w.queue remote)).0) (steal x (w.queue remote)).1 hf
            (steal-Kept x (suc n + room) w remote h a)
            (λ w2 b.
              steal_loop-Moved room remote (rc - 1) (local + 1) n w2 (omega (arith, b.same))
                (from-kept id b hf) b.roomy))
    | inr e ↦ rw (e, steal_loop) (Moved-refl (suc n + room) w a)
  ]

  balance_loop-Moved :
      (room rounds i local max_steal : ℕ) (w : Wsd)
      → w.schedule_from id < queues w
      → AllRoomy (max_steal + room) w
      → Moved room w (balance_loop garbage x id rounds i local max_steal w)
  unfolding balance_loop
  balance_loop-Moved room zero i local m w hf a =
      less-Kept (m + room) room w w (λ g. 0) (λ g. 0) (omega arith) (Moved-refl (m + room) w a)
  balance_loop-Moved room (suc n) i local m w hf a =
      let out =
        steal_loop garbage x id (i % (2 * w.num_threads))
          (size_of (w.queue (i % (2 * w.num_threads)))) local m w in
      let b =
        steal_loop-Moved room (i % (2 * w.num_threads))
          (size_of (w.queue (i % (2 * w.num_threads)))) local m w (mod-lt i (omega (arith, hf))) hf
          a in
      Moved-trans (out.2 + room) room w out.0 _ b
        (balance_loop-Moved room n (i + 1) out.1 out.2 out.0 (from-kept id b hf) b.roomy)

-- Balancing the load keeps every fiber, whatever exchanges of its steals fail: each is in the queues of all
-- threads as often as before.
pub load_balance_keeps :
    (garbage : ℕ → ℕ) (exchanged : Bool) (id : ℕ) (w : Wsd) (g : ℕ)
    → w.schedule_from id < queues w
    → AllRoomy 50 w
    → held (load_balance garbage exchanged id w) g ≡ held w g
unfolding load_balance
load_balance_keeps garbage x id w g hf a = omega (
  arith,
  (balance_loop-Moved garbage x id 0 (2 * (w.num_threads - 1)) (2 * (id + 1))
        (size_of (w.queue (w.schedule_from id))) 50 w hf
        (λ i l. ((a i l).0, omega (arith, (a i l).1)))).total
      g,
)
