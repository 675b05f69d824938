-- ===== src/Io/Opened.antt =====
-- `socket` of src/fiber_io.c, and the set-up of its descriptor.
use libfiber.Prelude.{
  ℕ, ◌<◌, ◌≡◌, ◌≢◌, inl, inr, refl, sym, subst, ◌∙◌, arith, Bool, true, false, eq-cases,
  if◌then◌else◌, some, update, update_self,
}
use libfiber.Io.{
  ℤ, pos, negsuc, minus_one, negative, both_flags, Io, Reply, ok, failed, Call, Os, M, ◌>>=◌, pure,
  returned, call, should_block, set_flags, close_fd, f_setfl, o_nonblock,
}
use libfiber.Io.Sockets.{make_nonblocking, setup_socket, set_up, socket_setup, socket}
use libfiber.Io.Laws.{
  Kept, Kept-trans, Opens, Sets, Kernel, Holds, Holds-bind, Holds-map, At, nobody, only,
  exempt_more, kept-At, New-At, set_flags-At, close_fd-At,
}

module _ {W : Type 0} {os : Os W} {limit : ℕ} (kernel : Kernel os limit) where
  open kernel use {is_open, nonblocking}

  abbrev pub Unchanged : (o x : ℕ → Bool) → Io W → ℤ → Io W → Type 0
  Unchanged o x s ret s' =
      At kernel o x s'
      × Kept is_open nonblocking s.world s'.world
      × ((g : ℕ) → should_block g s' ≡ should_block g s)

  -- A call that keeps the descriptors.
  pub kept_call :
      {o x : ℕ → Bool} {s : Io W}
      → At kernel o x s
      → (r : Reply ℕ × W) → Kept is_open nonblocking s.world r.1
      → Holds (Unchanged o x s) (some (returned s r))
  unfolding should_block
  kept_call {s} at (ok n, w) k = (kept-At kernel at s.errno w k, k, λ g. refl)
  kept_call at (failed e, w) k = (kept-At kernel at e w k, k, λ g. refl)

  -- The descriptor does not block, if the call was successful.
  abbrev pub Made : (ℕ → Bool) → ℕ → Io W → ℤ → Io W → Type 0
  Made o fd s ret s' =
      At kernel o (only kernel fd) s'
      × ((negative ret ≡ false) → At kernel o (nobody kernel) s' × (nonblocking s'.world fd ≡ true))
      × Kept is_open nonblocking s.world s'.world
      × ((g : ℕ) → should_block g s' ≡ should_block g s)

  pub fcntl_call :
      {o : ℕ → Bool} {s : Io W} (fd : ℕ)
      → o fd ≡ true
      → At kernel o (only kernel fd) s
      → (r : Reply ℕ × W) → Sets is_open nonblocking fd s.world r
      → Holds (Made o fd s) (some (returned s r))
  unfolding should_block
  fcntl_call {o} {s} fd h at (ok n, w) (k, nb) = (
    kept-At kernel at s.errno w k,
    λ _.
        let now = kept-At kernel at s.errno w k in
        (
          record {
            flags = now.flags;
            table = now.table;
            bound = now.bound;
            unlocked = now.unlocked;
            open_now = now.open_now;
            guarded = λ g b _ f. elim (eq-cases fd g) [
              | inl e ↦ (subst (λ x. o x ≡ true) e h, subst (λ x. nonblocking w x ≡ true) e nb)
              | inr ne ↦ now.guarded g b (ground (arith, ne)) f
            ];
          },
          nb,
        ),
    k,
    λ g. refl,
  )
  fcntl_call fd h at (failed e, w) k =
      (kept-At kernel at e w k, λ n. absurd (ground (arith, n)), k, λ g. refl)

  -- How `setup_socket` ends.
  abbrev pub Ready : (ℕ → Bool) → ℕ → Io W → ℤ → Io W → Type 0
  Ready o sock s ret s' =
      At kernel o (only kernel sock) s'
      × ((negative ret ≡ false)
          → At kernel o (nobody kernel) s'
            × (nonblocking s'.world sock ≡ true)
            × (should_block sock s' ≡ true))
      × Kept is_open nonblocking s.world s'.world
      × ((g : ℕ) → sock ≢ g → should_block g s' ≡ should_block g s)

  pub setup_socket-Ready :
      {o : ℕ → Bool} {s : Io W} (sock : ℕ)
      → At kernel o (nobody kernel) s
      → o sock ≡ true
      → sock < limit
      → Holds (Ready o sock s) (setup_socket os sock s)
  unfolding setup_socket
  setup_socket-Ready {o} {s} sock at h b =
      subst
        (λ b. Holds (Ready o sock s) (if b then some (pos 0, s) else make_nonblocking os sock s))
        (sym at.unlocked)
        (Holds-bind Flagged (Ready o sock s) (set_flags sock (λ f. both_flags)) after s flagged
          after_flags)
    where
      Flagged : Unit {0} → Io W → Type 0
      Flagged _ s' =
          At kernel o (only kernel sock) s'
          × (s'.world ≡ s.world)
          × (should_block sock s' ≡ true)
          × ((g : ℕ) → sock ≢ g → should_block g s' ≡ should_block g s)

      after : Unit {0} → M W ℤ
      after _ = do
        ret ← call (os.fcntl sock f_setfl o_nonblock)
        if negative ret then pure ret else call (os.setsockopt sock)

      flagged : Holds Flagged (set_flags sock (λ f. both_flags) s)
      flagged =
          Holds-map _ Flagged _
            (set_flags-At kernel at sock (λ f. both_flags) b (λ e _. absurd (ground (arith, e)))
              (λ g ne e. refl))
            (λ u s1 (a1, w, sb). (a1, w, sb sock ∙ ground arith, λ g ne. sb g ∙ ground (arith, ne)))

      after_fcntl :
          (s1 : Io W)
          → Flagged tt s1
          → (ret : ℤ) (s2 : Io W) → Made o sock s1 ret s2
          → Holds
              (Ready o sock s)
              ((if negative ret then pure ret else call (os.setsockopt sock)) s2)
      after_fcntl s1 (a1, w, sb, rest) (negsuc n) s2 (a2, made, k, same) = (
        a2,
        λ e. absurd (ground (arith, e)),
        subst (λ v. Kept is_open nonblocking v s2.world) w k,
        λ g ne. same g ∙ rest g ne,
      )
      after_fcntl s1 (a1, w, sb, rest) (pos n) s2 (a2, made, k, same) =
          let (a3, nb) = made refl in
          Holds-map (Unchanged o (nobody kernel) s2) (Ready o sock s)
            (some (returned s2 (os.setsockopt sock s2.world)))
            (kept_call a3 (os.setsockopt sock s2.world) (kernel.setsockopt sock s2.world))
            (λ ret s3 (a4, k', same'). (
              exempt_more kernel a4 (λ g e. refl),
              λ e. (a4, k'.still sock (a3.open_now sock ∙ h) nb, same' sock ∙ (same sock ∙ sb)),
              Kept-trans is_open nonblocking (subst (λ v. Kept is_open nonblocking v s2.world) w k)
                  k',
              λ g ne. same' g ∙ (same g ∙ rest g ne),
            ))

      after_flags : (u : Unit {0}) (s1 : Io W) → Flagged u s1 → Holds (Ready o sock s) (after u s1)
      after_flags u s1 f = after_fcntl s1 f _ _ (
          fcntl_call sock h f.0 (os.fcntl sock f_setfl o_nonblock s1.world)
            (kernel.fcntl sock o_nonblock s1.world refl))

  pub At-ext :
      {o o' x : ℕ → Bool} {s : Io W} → ((g : ℕ) → o g ≡ o' g) → At kernel o x s → At kernel o' x s
  At-ext h at = record {
    flags = at.flags;
    table = at.table;
    bound = at.bound;
    unlocked = at.unlocked;
    open_now = λ g. at.open_now g ∙ h g;
    guarded = λ g b ex f. (sym (h g) ∙ (at.guarded g b ex f).0, (at.guarded g b ex f).1);
  }

  -- How `socket` ends: with a new descriptor that is open, does not block and has its flags, or with the
  -- descriptors that were open before.
  abbrev pub SocketEnds : (ℕ → Bool) → ℤ → Io W → Type 0
  SocketEnds o (pos fd) s' =
      (o fd ≡ false)
      × At kernel (update o fd true) (nobody kernel) s'
      × (nonblocking s'.world fd ≡ true)
      × (should_block fd s' ≡ true)
  SocketEnds o (negsuc n) s' = At kernel o (nobody kernel) s'

  pub set_up-SocketEnds :
      (o : ℕ → Bool) {s : Io W} (sock : ℕ)
      → o sock ≡ false
      → sock < limit
      → At kernel (update o sock true) (nobody kernel) s
      → Holds (SocketEnds o) (set_up os sock s)
  set_up-SocketEnds o {s} sock n b at =
      Holds-bind (Ready (update o sock true) sock s) (SocketEnds o) (setup_socket os sock) after s
        (setup_socket-Ready sock at (update_self o sock true) b) (λ ret s1 r. ends ret s1 r)
    where
      after : ℤ → M W ℤ
      after ret =
          if negative ret then (do _ ← close_fd os sock; pure minus_one) else pure (pos sock)

      Closed : ℤ → Io W → Type 0
      Closed _ s' = At kernel (update (update o sock true) sock false) (nobody kernel) s'

      ends :
          (ret : ℤ) (s1 : Io W)
          → Ready (update o sock true) sock s ret s1
          → Holds (SocketEnds o) (after ret s1)
      ends (pos m) s1 r = let (a, nb, sb) = r.1 refl in (n, a, nb, sb)
      ends (negsuc m) s1 r =
          Holds-bind Closed (SocketEnds o) (close_fd os sock) (λ _. pure minus_one) s1
            (close_fd-At kernel r.0 sock (λ g ne e. ground (arith, ne)))
            (λ ret s2 a2. At-ext (λ g. ground (arith, n)) a2)

  -- A call that opens a descriptor, and what is done with it.
  pub opens_call :
      (o : ℕ → Bool) (s : Io W) (f : ℤ → M W ℤ)
      → At kernel o (nobody kernel) s
      → ((sock : ℕ) (s' : Io W)
          → o sock ≡ false
          → sock < limit
          → At kernel (update o sock true) (nobody kernel) s'
          → Holds (SocketEnds o) (f (pos sock) s'))
      → ((n : ℕ) → f (negsuc n) ≡ pure (negsuc n))
      → (c : Call W ℕ) → Opens is_open nonblocking limit s.world (c s.world)
      → Holds (SocketEnds o) ((call c >>= f) s)
  opens_call o s f at up down c k = opened (c s.world) k
    where
      opened :
          (r : Reply ℕ × W)
          → Opens is_open nonblocking limit s.world r
          → Holds (SocketEnds o) (f (returned s r).0 (returned s r).1)
      opened (ok fd, w) n =
          up fd (record s { world = w }) (sym (at.open_now fd) ∙ n.closed) n.below
            (New-At kernel at s.errno fd w n)
      opened (failed e, w) k =
          subst (λ m. Holds (SocketEnds o) (m (record s { errno = e; world = w }))) (sym (down 0))
            (kept-At kernel at e w k)

  pub socket-SocketEnds :
      (o : ℕ → Bool) (domain type protocol : ℕ) (s : Io W)
      → At kernel o (nobody kernel) s
      → Holds (SocketEnds o) (socket os domain type protocol s)
  unfolding socket
  socket-SocketEnds o domain type protocol s at =
      opens_call o s (socket_setup os) at (λ sock s' n b a. set_up-SocketEnds o sock n b a)
        (λ n. refl) (os.socket domain type protocol) (kernel.socket domain type protocol s.world)
