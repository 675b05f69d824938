-- ===== src/Io/Pairs.antt =====
-- `socketpair` and `pipe` of src/fiber_io.c.
use libfiber.Prelude.{
  ℕ, zero, suc, ◌<◌, ◌≡◌, ◌≢◌, ◌⊎◌, inl, inr, refl, sym, subst, ◌∙◌, arith, Bool, true, false, not,
  if◌then◌else◌, Option, none, some, update,
}
use libfiber.Io.{
  ℤ, pos, negsuc, Io, Reply, ok, failed, Call, Os, M, ◌>>=◌, pure, returned_pair, call_pair,
  should_block, close_fd,
}
use libfiber.Io.Sockets.{setup_socket, is_zero, close_both, pair_setup}
use libfiber.Io.Laws.{
  OpensTwo, Kernel, Holds, Holds-bind, At, nobody, only, kept-At, New-At, close_fd-At,
}
use libfiber.Io.Opened.{Ready, setup_socket-Ready, At-ext}

module _ {W : Type 0} {os : Os W} {limit : ℕ} (kernel : Kernel os limit) where
  open kernel use {is_open, nonblocking}

  -- How `socketpair` and `pipe` end.
  abbrev pub PairEnds : (ℕ → Bool) → Option (ℕ × ℕ) → Io W → Type 0
  PairEnds o none s' = At kernel o (nobody kernel) s'
  PairEnds o (some (a, b)) s' =
      (o a ≡ false)
      × (o b ≡ false)
      × (a ≢ b)
      × At kernel (update (update o a true) b true) (nobody kernel) s'
      × (nonblocking s'.world a ≡ true)
      × (nonblocking s'.world b ≡ true)
      × (should_block a s' ≡ true)
      × (should_block b s' ≡ true)

  pub close_both-At :
      (o : ℕ → Bool) {x : ℕ → Bool} {s : Io W} (a b : ℕ)
      → o a ≡ false
      → o b ≡ false
      → At kernel (update (update o a true) b true) x s
      → ((g : ℕ) → a ≢ g → b ≢ g → x g ≡ false)
      → Holds (PairEnds o) (close_both os (a, b) s)
  close_both-At o {x} {s} a b na nb at h =
      Holds-bind One (PairEnds o) (close_fd os a) (λ _. (do _ ← close_fd os b; pure none)) s
        (close_fd-At kernel at a (λ g ne e. h g ne (ground (arith, e))))
        (λ r s1 one.
          Holds-bind Two (PairEnds o) (close_fd os b) (λ _. pure none) s1
            (close_fd-At kernel one b (λ g ne e. ground (arith, ne)))
            (λ r' s2 two. At-ext kernel (λ g. ground (arith, na, nb)) two))
    where
      One : ℤ → Io W → Type 0
      One _ s' = At kernel (update (update (update o a true) b true) a false) (only kernel b) s'

      Two : ℤ → Io W → Type 0
      Two _ s' =
          At kernel (update (update (update (update o a true) b true) a false) b false)
            (nobody kernel) s'

  pub pair_call :
      (o : ℕ → Bool) (s : Io W) (f : Option (ℕ × ℕ) → M W (Option (ℕ × ℕ)))
      → At kernel o (nobody kernel) s
      → ((a b : ℕ) (s' : Io W)
          → o a ≡ false
          → o b ≡ false
          → a ≢ b
          → a < limit
          → b < limit
          → At kernel (update (update o a true) b true) (nobody kernel) s'
          → Holds (PairEnds o) (f (some (a, b)) s'))
      → f none ≡ pure none
      → (c : Call W (ℕ × ℕ)) → OpensTwo is_open nonblocking limit s.world (c s.world)
      → Holds (PairEnds o) ((call_pair c >>= f) s)
  pair_call o s f at up down c k = opened (c s.world) k
    where
      opened :
          (r : Reply (ℕ × ℕ) × W)
          → OpensTwo is_open nonblocking limit s.world r
          → Holds (PairEnds o) (f (returned_pair s r).0 (returned_pair s r).1)
      opened (ok (a, b), w) (m, na, nb) =
          let closed : update o a true b ≡ false =
            (ground (arith, na.opens b, nb.closed, at.open_now b)) in
          up a b (record s { world = w }) (sym (at.open_now a) ∙ na.closed) (ground (arith, closed))
            (ground (arith, closed)) na.below nb.below
            (New-At kernel (New-At kernel at s.errno a m na) s.errno b w nb)
      opened (failed e, w) k =
          subst (λ m. Holds (PairEnds o) (m (record s { errno = e; world = w }))) (sym down)
            (kept-At kernel at e w k)

  pub pair_setup-PairEnds :
      (o : ℕ → Bool) (a b : ℕ) (s : Io W)
      → o a ≡ false
      → o b ≡ false
      → a ≢ b
      → a < limit
      → b < limit
      → At kernel (update (update o a true) b true) (nobody kernel) s
      → Holds (PairEnds o) (pair_setup os (some (a, b)) s)
  pair_setup-PairEnds o a b s na nb ne la lb at =
      Holds-bind (Ready kernel o2 a s) (PairEnds o) (setup_socket os a) after_first s
        (setup_socket-Ready kernel a at (ground (arith, ne)) la) first_ends
    where
      o2 : ℕ → Bool
      o2 = update (update o a true) b true

      after_second : ℤ → M W (Option (ℕ × ℕ))
      after_second second =
          if not (is_zero second) then close_both os (a, b) else pure (some (a, b))

      after_first : ℤ → M W (Option (ℕ × ℕ))
      after_first first =
          if not (is_zero first)
          then close_both os (a, b)
          else (do second ← setup_socket os b; after_second second)

      closes :
          (c : ℕ)
          → (c ≡ a) ⊎ (c ≡ b)
          → (s' : Io W) → At kernel o2 (only kernel c) s'
          → Holds (PairEnds o) (close_both os (a, b) s')
      closes c e s' x = close_both-At o a b na nb x (λ g n m. ground (arith, e, n, m))

      second_ends :
          (s1 : Io W)
          → Ready kernel o2 a s (pos 0) s1
          → (second : ℤ) (s2 : Io W) → Ready kernel o2 b s1 second s2
          → Holds (PairEnds o) (after_second second s2)
      second_ends s1 r1 (negsuc n) s2 r2 = closes b (inr refl) s2 r2.0
      second_ends s1 r1 (pos (suc n)) s2 r2 = closes b (inr refl) s2 r2.0
      second_ends s1 (x1, r1, k1, m1) (pos zero) s2 (x2, r2, k2, m2) =
          let (at1, nba, sba) = r1 refl in
          let (at2, nbb, sbb) = r2 refl in
          (
            na,
            nb,
            ne,
            at2,
            k2.still a (at1.open_now a ∙ ground (arith, ne)) nba,
            nbb,
            m2 a (λ e. ne (sym e)) ∙ sba,
            sbb,
          )

      first_ends :
          (first : ℤ) (s1 : Io W)
          → Ready kernel o2 a s first s1
          → Holds (PairEnds o) (after_first first s1)
      first_ends (negsuc n) s1 r = closes a (inl refl) s1 r.0
      first_ends (pos (suc n)) s1 r = closes a (inl refl) s1 r.0
      first_ends (pos zero) s1 r =
          Holds-bind (Ready kernel o2 b s1) (PairEnds o) (setup_socket os b) after_second s1
            (setup_socket-Ready kernel b (r.1 refl).0 (ground arith) lb) (second_ends s1 r)
