-- ===== src/Io/Laws.antt =====
-- What src/fiber_io.c relies on the kernel for, and the states in which every descriptor that has a flag is
-- open and does not block.
use libfiber.Prelude.{
  ℕ, ◌/◌, ◌%◌, ◌<◌, ◌≡◌, ◌≢◌, inl, inr, refl, ◌∙◌, arith, Bool, true, false, ◌==◌, ltb, lt→ltb,
  eq-cases, if◌then◌else◌, Option, none, some, update,
}
use libfiber.Io.{
  Errno, Flags, no_flags, any_flag, Io, Reply, ok, failed, Os, M, ◌>>=◌, returned, should_block,
  set_flags, cleared, close_fd, f_setfl,
}

module _ {W : Type 0} (is_open nonblocking : W → ℕ → Bool) where
  -- The same descriptors are open, and none of them blocks that did not.
  pub record Kept (w w' : W) : Type 0 where
    pub same : (g : ℕ) → is_open w' g ≡ is_open w g
    pub still : (g : ℕ) → is_open w g ≡ true → nonblocking w g ≡ true → nonblocking w' g ≡ true

  -- The descriptor is a new one, and all others are as they were.
  pub record New (limit fd : ℕ) (w w' : W) : Type 0 where
    pub closed : is_open w fd ≡ false
    pub below : fd < limit
    pub opens : (g : ℕ) → is_open w' g ≡ update (is_open w) fd true g
    pub still : (g : ℕ) → is_open w g ≡ true → nonblocking w g ≡ true → nonblocking w' g ≡ true

  abbrev pub Opens : ℕ → W → Reply ℕ × W → Type 0
  Opens limit w (ok fd, w') = New limit fd w w'
  Opens limit w (failed e, w') = Kept w w'

  abbrev pub OpensTwo : ℕ → W → Reply (ℕ × ℕ) × W → Type 0
  OpensTwo limit w (ok (a, b), w') = (m : W) × New limit a w m × New limit b m w'
  OpensTwo limit w (failed e, w') = Kept w w'

  abbrev pub Sets : ℕ → W → Reply ℕ × W → Type 0
  Sets fd w (ok n, w') = Kept w w' × (nonblocking w' fd ≡ true)
  Sets fd w (failed e, w') = Kept w w'

  pub Kept-trans : {a b c : W} → Kept a b → Kept b c → Kept a c
  Kept-trans k l = record {
    same = λ g. l.same g ∙ k.same g;
    still = λ g o n. l.still g (k.same g ∙ o) (k.still g o n);
  }

-- The documented behaviour of the kernel: which descriptors are open, and which have O_NONBLOCK. `close`
-- frees its descriptor whatever it returns, as on Linux.
pub record Kernel {W : Type 0} (os : Os W) (limit : ℕ) : Type 0 where
  pub is_open : W → ℕ → Bool
  pub nonblocking : W → ℕ → Bool
  pub socket :
      (domain type protocol : ℕ) (w : W)
      → Opens is_open nonblocking limit w (os.socket domain type protocol w)
  pub socketpair :
      (domain type protocol : ℕ) (w : W)
      → OpensTwo is_open nonblocking limit w (os.socketpair domain type protocol w)
  pub pipe : (w : W) → OpensTwo is_open nonblocking limit w (os.pipe w)
  pub accept : (sockfd : ℕ) (w : W) → Opens is_open nonblocking limit w (os.accept sockfd w)
  pub setsockopt : (sock : ℕ) (w : W) → Kept is_open nonblocking w (os.setsockopt sock w).1
  pub fcntl :
      (fd val : ℕ) (w : W)
      → (val / 2048) % 2 ≡ 1
      → Sets is_open nonblocking fd w (os.fcntl fd f_setfl val w)
  pub ioctl :
      (d request address : ℕ) (w : W) → Kept is_open nonblocking w (os.ioctl d request address w).1
  pub read : (fd buf count : ℕ) (w : W) → Kept is_open nonblocking w (os.read fd buf count w).1
  pub write : (fd buf count : ℕ) (w : W) → Kept is_open nonblocking w (os.write fd buf count w).1
  pub fiber_fd_closed : (fd : ℕ) (w : W) → Kept is_open nonblocking w (os.fiber_fd_closed fd w)
  pub closes :
      (fd : ℕ) (w : W) (g : ℕ) → is_open (os.close fd w).1 g ≡ update (is_open w) fd false g
  pub close_still :
      (fd : ℕ) (w : W) (g : ℕ)
      → fd ≢ g
      → nonblocking w g ≡ true
      → nonblocking (os.close fd w).1 g ≡ true

-- The code ends without a failed assert, and then the predicate holds.
abbrev pub Holds : {W A : Type 0} → (A → Io W → Type 0) → Option (A × Io W) → Type 0
Holds P none = ⊥
Holds P (some (a, s)) = P a s

pub Holds-bind :
    {W A B : Type 0} (P : A → Io W → Type 0) (Q : B → Io W → Type 0) (m : M W A) (f : A → M W B)
    (s : Io W)
    → Holds P (m s)
    → ((a : A) (s' : Io W) → P a s' → Holds Q (f a s'))
    → Holds Q ((m >>= f) s)
Holds-bind P Q m f s h k =
    elim (m s) as (λ r. Holds P r → Holds Q (elim r [ none ↦ none | some (a, s') ↦ f a s' ])) [
      | none ↦ λ x. x
      | some (a, s') ↦ λ x. k a s' x
    ]
      h

pub Holds-map :
    {W A : Type 0} (P Q : A → Io W → Type 0) (r : Option (A × Io W))
    → Holds P r
    → ((a : A) (s : Io W) → P a s → Q a s)
    → Holds Q r
Holds-map P Q none h k = h
Holds-map P Q (some (a, s)) h k = k a s h

module _ {W : Type 0} {os : Os W} {limit : ℕ} (kernel : Kernel os limit) where
  open kernel use {is_open, nonblocking}

  -- The thread is not locked, `opened` are the open descriptors, and, except those that are exempt, a
  -- descriptor that has a flag is open and does not block.
  pub record At (opened exempt : ℕ → Bool) (s : Io W) : Type 0 where
    pub flags : ℕ → Flags
    pub table : s.fd_info ≡ some flags
    pub bound : s.max_fd ≡ limit
    pub unlocked : s.thread_locked ≡ false
    pub open_now : (g : ℕ) → is_open s.world g ≡ opened g
    pub guarded :
        (g : ℕ)
        → g < limit
        → exempt g ≡ false
        → any_flag (flags g) ≡ true
        → (opened g ≡ true) × (nonblocking s.world g ≡ true)

  abbrev pub nobody : ℕ → Bool
  nobody g = false

  abbrev pub only : ℕ → ℕ → Bool
  only fd g = fd == g

  module _ {o x : ℕ → Bool} {s : Io W} (at : At o x s) where
    -- More descriptors may be exempt.
    pub exempt_more : {x' : ℕ → Bool} → ((g : ℕ) → x' g ≡ false → x g ≡ false) → At o x' s
    exempt_more h = record {
      flags = at.flags;
      table = at.table;
      bound = at.bound;
      unlocked = at.unlocked;
      open_now = at.open_now;
      guarded = λ g b e. at.guarded g b (h g e);
    }

    -- The world moves on, with the same descriptors open.
    pub kept-At :
        (e : _) (w : W)
        → Kept is_open nonblocking s.world w
        → At o x (record s { errno = e; world = w })
    kept-At e w k = record {
      flags = at.flags;
      table = at.table;
      bound = at.bound;
      unlocked = at.unlocked;
      open_now = λ g. k.same g ∙ at.open_now g;
      guarded =
          λ g b ex f. let (op, nb) = at.guarded g b ex f in (op, k.still g (at.open_now g ∙ op) nb);
    }

    pub New-At :
        (e : _) (fd : ℕ) (w : W)
        → New is_open nonblocking limit fd s.world w
        → At (update o fd true) x (record s { errno = e; world = w })
    New-At e fd w n = record {
      flags = at.flags;
      table = at.table;
      bound = at.bound;
      unlocked = at.unlocked;
      open_now = λ g. n.opens g ∙ ground (arith, at.open_now g);
      guarded = λ g b ex f.
          let (op, nb) = at.guarded g b ex f in
          (ground (arith, op), n.still g (at.open_now g ∙ op) nb);
    }

    abbrev pub FlagsSet : ℕ → (Flags → Flags) → (ℕ → Bool) → Unit {0} → Io W → Type 0
    FlagsSet fd f x' _ s' =
        At o x' s'
        × (s'.world ≡ s.world)
        × ((g : ℕ)
            → should_block g s'
              ≡ (if fd == g then any_flag (f (at.flags fd)) else should_block g s))

    -- The flags of one descriptor change, where the change keeps it guarded or it is exempt after it.
    pub set_flags-At :
        (fd : ℕ) (f : Flags → Flags) {x' : ℕ → Bool}
        → fd < limit
        → (x' fd ≡ false
            → any_flag (f (at.flags fd)) ≡ true
            → (o fd ≡ true) × (nonblocking s.world fd ≡ true))
        → ((g : ℕ) → fd ≢ g → x' g ≡ false → x g ≡ false)
        → Holds (FlagsSet fd f x') (set_flags fd f s)
    unfolding set_flags should_block
    set_flags-At fd f {x'} h k l =
        rw (at.table, at.bound, lt→ltb fd limit h, at.unlocked)
          (
            record {
              flags = update at.flags fd (f (at.flags fd));
              table = refl;
              bound = refl;
              unlocked = refl;
              open_now = at.open_now;
              guarded = λ g b ex fl. elim (eq-cases fd g) [
                | inl e ↦ ground (arith, e, ex, fl, k)
                | inr ne ↦ at.guarded g b (l g ne ex) (ground (arith, ne, fl))
              ];
            },
            refl,
            λ g. ground (arith, h),
          )

    pub set_flags_outside :
        (fd : ℕ) (f : Flags → Flags) → ltb fd limit ≡ false → set_flags fd f s ≡ none
    unfolding set_flags
    set_flags_outside fd f e = ground (arith, at.table, at.bound, e)

    pub close_fd-At :
        (fd : ℕ) {x' : ℕ → Bool}
        → ((g : ℕ) → fd ≢ g → x' g ≡ false → x g ≡ false)
        → Holds (λ _ s'. At (update o fd false) x' s') (close_fd os fd s)
    unfolding close_fd
    close_fd-At fd {x'} k = closed (os.close fd w) (kernel.closes fd w) (kernel.close_still fd w)
      where
        w : W
        w = os.fiber_fd_closed fd s.world

        freed :
            (e : Errno) (w' : W)
            → ((g : ℕ) → is_open w' g ≡ update (is_open w) fd false g)
            → ((g : ℕ) → fd ≢ g → nonblocking w g ≡ true → nonblocking w' g ≡ true)
            → At
                (update o fd false)
                x'
                (record s { fd_info = cleared fd s.max_fd s.fd_info; errno = e; world = w' })
        freed e w' c d = record {
          flags = if ltb fd limit then update at.flags fd no_flags else at.flags;
          table = rw (at.table, at.bound) refl;
          bound = at.bound;
          unlocked = at.unlocked;
          open_now =
              λ g. ground (arith, c g, (kernel.fiber_fd_closed fd s.world).same g, at.open_now g);
          guarded = λ g b ex f. elim (eq-cases fd g) [
            | inl q ↦ absurd (ground (arith, q, b, f))
            | inr ne ↦
                let (op, nb) = at.guarded g b (k g ne ex) (ground (arith, ne, f)) in
                (
                  ground (arith, op, ne),
                  d g ne ((kernel.fiber_fd_closed fd s.world).still g (at.open_now g ∙ op) nb),
                )
          ];
        }

        closed :
            (r : Reply ℕ × W)
            → ((g : ℕ) → is_open r.1 g ≡ update (is_open w) fd false g)
            → ((g : ℕ) → fd ≢ g → nonblocking w g ≡ true → nonblocking r.1 g ≡ true)
            → Holds
                (λ _ s'. At (update o fd false) x' s')
                (some
                  (returned (record s { world = w; fd_info = cleared fd s.max_fd s.fd_info }) r))
        closed (ok n, w') c d = freed s.errno w' c d
        closed (failed e, w') c d = freed e w' c d
