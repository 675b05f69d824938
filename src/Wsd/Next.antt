-- ===== src/Wsd/Next.antt =====
-- `fiber_scheduler_next` gives a fiber away, and loses no other.
use libfiber.Prelude.{
  ℕ, ◌+◌, ◌≤◌, ◌<◌, ◌≡◌, ◌≢◌, ◌⊎◌, inl, inr, sym, subst, ◌∙◌, arith, Bool, true, false, ◌==◌,
  eq-cases, some, List, All,
}
use libfiber.Scheduler.{one_if}
use libfiber.Deque.{size_of}
use libfiber.Deque.Contents.{contents, size_of-contents}
use libfiber.Wsd.{Wsd, swapped, next_loop, next}
use libfiber.Wsd.Keep.{queues, held, AllRoomy}
use libfiber.Wsd.Loop.{Handed, other-one_if, NullOf, Ends, next_loop-Handed, next_loop-Ends}

-- The exchange of the pointers.
swapped-from :
    (id : ℕ) (w : Wsd)
    → w.schedule_from id < queues w
    → w.store_to id < queues w
    → (swapped id w).schedule_from id < queues (swapped id w)
swapped-from id w hf hs = ground (arith, hf, hs)

swapped-to :
    (id : ℕ) (w : Wsd)
    → w.schedule_from id < queues w
    → w.store_to id < queues w
    → (swapped id w).store_to id < queues (swapped id w)
swapped-to id w hf hs = ground (arith, hf, hs)

swapped_apart :
    (id : ℕ) (w : Wsd)
    → w.store_to id ≢ w.schedule_from id
    → (swapped id w).store_to id ≢ (swapped id w).schedule_from id
swapped_apart id w h = ground (arith, h)

swapped-queue : (id : ℕ) (w : Wsd) → (swapped id w).queue ≡ w.queue
swapped-queue id w = ground arith

swapped-num_threads : (id : ℕ) (w : Wsd) → (swapped id w).num_threads ≡ w.num_threads
swapped-num_threads id w = ground arith

-- Two different queues of a scheduler that are among the queues, and room in all of them for what one call
-- can push.
pub record Ready (id : ℕ) (w : Wsd) : Type 0 where
  pub from : w.schedule_from id < queues w
  pub to : w.store_to id < queues w
  pub apart : w.store_to id ≢ w.schedule_from id
  pub roomy :
      AllRoomy (size_of (w.queue (w.schedule_from id)) + size_of (w.queue (w.store_to id)) + 52) w

swapped-size :
    (id : ℕ) (w : Wsd)
    → size_of ((swapped id w).queue ((swapped id w).schedule_from id))
      ≤ size_of (w.queue (w.schedule_from id)) + size_of (w.queue (w.store_to id))
swapped-size id w = ground arith

swapped-Kept : (room id : ℕ) (w : Wsd) → AllRoomy room w → AllRoomy room (swapped id w)
swapped-Kept room id w a i l =
    rw (swapped-queue id w) (a i (omega (arith, l, swapped-num_threads id w)))

swapped-held : (id : ℕ) (w : Wsd) (g : ℕ) → held (swapped id w) g ≡ held w g
swapped-held id w g = ground arith

-- The fibers in the queue that a call takes from, after it has exchanged its queues if the first is empty.
abbrev pub taken_from : ℕ → Wsd → List ℕ
taken_from id w = contents ((swapped id w).queue ((swapped id w).schedule_from id))

-- What a call gives and leaves, whatever is in the queues.
pub next_hands :
    (garbage : ℕ → ℕ) (saving : ℕ → Bool) (id : ℕ) (w : Wsd)
    → Ready id w
    → (w' : Wsd) × (f : ℕ) × (next garbage saving true id w ≡ some (w', f))
      × (f ≢ 0 → saving f ≡ false)
      × NullOf garbage saving id (taken_from id w) f
      × (f ≢ 0 → (g : ℕ) → held w' g + one_if (f == g) ≡ held w g)
      × (f ≡ 0 → (g : ℕ) → g ≢ 0 → held w' g ≡ held w g)
unfolding next
next_hands garbage saving id w r =
    let ((w', f), e, d, n) = ends in (w', f, e, d, n, (handed w' f e).0, (handed w' f e).1)
  where
    v : Wsd
    v = swapped id w

    fuel : ℕ
    fuel = size_of (v.queue (v.schedule_from id)) + 1

    hf : v.schedule_from id < queues v
    hf = swapped-from id w r.from r.to

    hs : v.store_to id < queues v
    hs = swapped-to id w r.from r.to

    roomy : AllRoomy (fuel + 0) v
    roomy i l = (
      (swapped-Kept _ id w r.roomy i l).0,
      omega (arith, (swapped-Kept _ id w r.roomy i l).1, swapped-size id w),
    )

    ends : Ends garbage saving id (taken_from id w) (next_loop garbage saving true id fuel v)
    ends =
        next_loop-Ends garbage saving id fuel v hf hs (swapped_apart id w r.apart)
          (λ i l. ((roomy i l).0, omega (arith, (roomy i l).1)))
          (omega (
            arith,
            size_of-contents (v.queue (v.schedule_from id)) (roomy (v.schedule_from id) hf).0,
          ))

    handed :
        (w' : Wsd) (f : ℕ)
        → next_loop garbage saving true id fuel v ≡ some (w', f)
        → (f ≢ 0 → (g : ℕ) → held w' g + one_if (f == g) ≡ held w g)
          × (f ≡ 0 → (g : ℕ) → g ≢ 0 → held w' g ≡ held w g)
    handed w' f e =
        let h =
          subst (Handed garbage saving true id 0 v) e
            (next_loop-Handed garbage saving true id fuel 0 v hf hs roomy) in
        (
          (λ nz g. omega (arith, (h.0 nz).total g, swapped-held id w g)),
          (λ z g n. omega (arith, h.1 z g n, swapped-held id w g)),
        )

-- On schedulers that are ready, whose pops no other thread disturbs, and from whose queues no NULL comes,
-- `fiber_scheduler_next` ends within its fuel. It gives NULL, when every fiber of the queue that it takes
-- from still saves its state, or a fiber that does not, which is then in the queues once less; every
-- other fiber is there as often as before.
pub next_gives :
    (garbage : ℕ → ℕ) (saving : ℕ → Bool) (id : ℕ) (w : Wsd)
    → Ready id w
    → All (λ p. p ≢ 0) (taken_from id w)
    → (w' : Wsd) × (f : ℕ) × (next garbage saving true id w ≡ some (w', f))
      × (((f ≡ 0) × All (λ p. saving p ≡ true) (taken_from id w)) ⊎ (saving f ≡ false))
      × ((g : ℕ) → g ≢ 0 → held w' g + one_if (f == g) ≡ held w g)
next_gives garbage saving id w r nulls =
    let (w', f, e, d, n, k, l) = next_hands garbage saving id w r in
    elim (eq-cases f 0) [
      | inl z ↦ (
        w',
        f,
        e,
        inl (z, n z nulls),
        (λ g ng.
            omega (arith, l z g ng, other-one_if garbage saving true id f g (λ q. ng (sym q ∙ z)))),
      )
      | inr z ↦ (w', f, e, inr (d z), (λ g ng. k z g))
    ]
