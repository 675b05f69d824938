-- ===== src/Io/Pipes.antt =====
-- `pipe` of src/fiber_io.c, and what the functions that open descriptors promise.
use libfiber.Prelude.{
  ℕ, ◌<◌, ◌≡◌, ◌≢◌, ◌⊎◌, inl, inr, refl, ap, sym, subst, ◌∙◌, arith, Bool, true, false, not,
  if◌then◌else◌, Option, some, update,
}
use libfiber.Io.{
  ℤ, pos, negsuc, negative, Flags, both_flags, Io, Os, M, ◌>>=◌, ◌>>◌, pure, call, set_flags,
  f_setfl, o_nonblock,
}
use libfiber.Io.Sockets.{
  close_both, pair_setup, socketpair, table_ready, set_nonblocking, pipe_setup, pipe,
}
use libfiber.Io.Laws.{
  Kernel, Holds, Holds-bind, At, nobody, only, exempt_more, FlagsSet, set_flags-At,
}
use libfiber.Io.Opened.{Made, fcntl_call}
use libfiber.Io.Pairs.{PairEnds, close_both-At, pair_call, pair_setup-PairEnds}

module _ {W : Type 0} {os : Os W} {limit : ℕ} (kernel : Kernel os limit) where
  open kernel use {is_open, nonblocking}

  pipe_setup-PairEnds :
      (o : ℕ → Bool) (a b : ℕ) (s : Io W)
      → o a ≡ false
      → o b ≡ false
      → a ≢ b
      → a < limit
      → b < limit
      → At kernel (update (update o a true) b true) (nobody kernel) s
      → Holds (PairEnds kernel o) (pipe_setup os (some (a, b)) s)
  pipe_setup-PairEnds o a b s na nb ne la lb at =
      subst
        (λ r.
          Holds (PairEnds kernel o)
            (if not r then some (some (a, b), s) else set_nonblocking os (a, b) s))
        (sym ready)
        (first_ends _ _ (
          fcntl_call kernel a (ground (arith, ne)) (exempt_more kernel at (λ g e. refl))
            (os.fcntl a f_setfl o_nonblock s.world) (kernel.fcntl a o_nonblock s.world refl)))
    where
      o2 : ℕ → Bool
      o2 = update (update o a true) b true

      ready : table_ready s ≡ true
      ready = ground (arith, at.table, at.unlocked)

      both : Flags → Flags
      both f = both_flags

      after_second : ℤ → M W (Option (ℕ × ℕ))
      after_second second =
          if negative second
          then close_both os (a, b)
          else (do set_flags a both; set_flags b both; pure (some (a, b)))

      after_first : ℤ → M W (Option (ℕ × ℕ))
      after_first first =
          if negative first
          then close_both os (a, b)
          else (do second ← call (os.fcntl b f_setfl o_nonblock); after_second second)

      closes :
          (c : ℕ)
          → (c ≡ a) ⊎ (c ≡ b)
          → (s' : Io W) → At kernel o2 (only kernel c) s'
          → Holds (PairEnds kernel o) (close_both os (a, b) s')
      closes c e s' x = close_both-At kernel o a b na nb x (λ g n m. ground (arith, e, n, m))

      flags_set :
          (s2 : Io W)
          → At kernel o2 (nobody kernel) s2
          → nonblocking s2.world a ≡ true
          → nonblocking s2.world b ≡ true
          → Holds (PairEnds kernel o) (after_second (pos 0) s2)
      flags_set s2 at2 nba nbb =
          Holds-bind (FlagsSet kernel at2 a both (nobody kernel)) (PairEnds kernel o)
            (set_flags a both) (λ _. (do set_flags b both; pure (some (a, b)))) s2
            (set_flags-At kernel at2 a both la (λ _ _. (ground (arith, ne), nba)) (λ g n e. refl))
            (λ u s3 (at3, w3, sb3).
              Holds-bind (FlagsSet kernel at3 b both (nobody kernel)) (PairEnds kernel o)
                (set_flags b both) (λ _. pure (some (a, b))) s3
                (set_flags-At kernel at3 b both lb
                  (λ _ _. (ground arith, ap (λ w. nonblocking w b) w3 ∙ nbb)) (λ g n e. refl))
                (λ v s4 (at4, w4, sb4). (
                  na,
                  nb,
                  ne,
                  at4,
                  ap (λ w. nonblocking w a) (w4 ∙ w3) ∙ nba,
                  ap (λ w. nonblocking w b) (w4 ∙ w3) ∙ nbb,
                  sb4 a ∙ ground (arith, ne, sb3 a),
                  sb4 b ∙ ground arith,
                )))

      second_ends :
          (s1 s2 : Io W)
          → nonblocking s1.world a ≡ true
          → At kernel o2 (nobody kernel) s1
          → (second : ℤ) → Made kernel o2 b s1 second s2
          → Holds (PairEnds kernel o) (after_second second s2)
      second_ends s1 s2 nba at1 (negsuc n) m = closes b (inr refl) s2 m.0
      second_ends s1 s2 nba at1 (pos n) (x, made, k, same) =
          let (at2, nbb) = made refl in
          flags_set s2 at2 (k.still a (at1.open_now a ∙ ground (arith, ne)) nba) nbb

      first_ends :
          (first : ℤ) (s1 : Io W)
          → Made kernel o2 a s first s1
          → Holds (PairEnds kernel o) (after_first first s1)
      first_ends (negsuc n) s1 m = closes a (inl refl) s1 m.0
      first_ends (pos n) s1 (x, made, k, same) =
          let (at1, nba) = made refl in
          second_ends s1 _ nba at1 _ (
            fcntl_call kernel b (ground arith) (exempt_more kernel at1 (λ g e. refl))
              (os.fcntl b f_setfl o_nonblock s1.world) (kernel.fcntl b o_nonblock s1.world refl))

  pub socketpair-PairEnds :
      (o : ℕ → Bool) (domain type protocol : ℕ) (s : Io W)
      → At kernel o (nobody kernel) s
      → Holds (PairEnds kernel o) (socketpair os domain type protocol s)
  unfolding socketpair
  socketpair-PairEnds o domain type protocol s at =
      pair_call kernel o s (pair_setup os) at
        (λ a b s' na nb ne la lb x. pair_setup-PairEnds kernel o a b s' na nb ne la lb x) refl
        (os.socketpair domain type protocol) (kernel.socketpair domain type protocol s.world)

  pub pipe-PairEnds :
      (o : ℕ → Bool) (s : Io W)
      → At kernel o (nobody kernel) s
      → Holds (PairEnds kernel o) (pipe os s)
  unfolding pipe
  pipe-PairEnds o s at =
      pair_call kernel o s (pipe_setup os) at
        (λ a b s' na nb ne la lb x. pipe_setup-PairEnds o a b s' na nb ne la lb x) refl os.pipe
        (kernel.pipe s.world)
