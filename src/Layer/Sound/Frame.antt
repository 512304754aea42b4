-- ===== src/Layer/Sound/Frame.antt =====
-- Well-formed states, and the rule for a function that works on one descriptor.
use libsocket.Base.{
  ℕ, Bool, true, false, none, some, length, ◌≡◌, refl, ◌∙◌, ◌==◌, arith, M, Returns, Option-cases,
  Returns->>=, Returns-mono, return, given-some, inl, inr, Bool-cases, ◌>>◌,
}
use libsocket.Base.Int.{ℤ}
use libsocket.Layer.Close.{has_entry}
use libsocket.Layer.Init.{num_socket}
use libsocket.Layer.Interface.{Ctx, Interface, poll}
use libsocket.Layer.Sound.Honest.{
  IsSound, SameFds, Keeps, IsHonest, WellBehaved, IfGiven-elim, Keeps-refl, Keeps-trans,
}
use libsocket.Layer.Types.{Errno, ebadf, einval, Socket}
use libsocket.Layer.World.{
  Sys, World, fd_is_valid, fd_to_lsd, isfdtype, run_on, on_socket, with_lsd, update,
}

module _ {E : Type 0} (sys : Sys E) where
  -- The entries of the table are sound descriptors, and a file descriptor of a socket leads to an
  -- entry that bears its number.
  pub record IsWellFormed (w : World E) : Type 0 where
    pub size : length w.table ≡ num_socket
    pub live : (p : ℕ) → has_entry p w.table ≡ true → (k : Socket) × (w.heap p ≡ some k) × IsSound k
    pub linked : (s : ℤ) (p : ℕ) → fd_to_lsd sys w s ≡ some p → has_entry p w.table ≡ true
    pub numbered :
        (s : ℤ) (p : ℕ) (k : Socket) → fd_to_lsd sys w s ≡ some p → w.heap p ≡ some k → k.fd ≡ s

  pub fd_to_lsd-SameFds :
      (w w' : World E) → SameFds sys w.env w'.env → (s : ℤ) → fd_to_lsd sys w' s ≡ fd_to_lsd sys w s
  unfolding fd_to_lsd
  fd_to_lsd-SameFds w w' h s = ground (arith, h.sockets s, h.datas s)

  -- What every function on one descriptor guarantees: a well-formed state, with the same table
  -- and the same sockets behind the file descriptors.
  abbrev pub Stays : World E → World E → Type 0
  Stays w w' =
      IsWellFormed w' × (w'.table ≡ w.table) × ((s : ℤ) → fd_to_lsd sys w' s ≡ fd_to_lsd sys w s)

  -- The world in which the descriptor at `p` has made the step to `c`.
  abbrev pub stepped : ℕ → Ctx E → World E → World E
  stepped p c w = record w { errno = c.errno; heap = update w.heap p (some c.sock); env = c.env }

  abbrev pub context : World E → Socket → Ctx E
  context w k = record { sock = k; errno = w.errno; env = w.env }

  pub stepped-IsWellFormed :
      (w : World E) (p : ℕ) (k : Socket) (c : Ctx E)
      → IsWellFormed w
      → w.heap p ≡ some k
      → Keeps sys (context w k) c
      → IsWellFormed (stepped p c w)
  stepped-IsWellFormed w p k c wf hp keep = record {
    size = wf.size;
    live = live;
    linked = λ s q e. wf.linked s q (sym_fd s q e);
    numbered = numbered;
  }
    where
      sym_fd :
          (s : ℤ) (q : ℕ) → fd_to_lsd sys (stepped p c w) s ≡ some q → fd_to_lsd sys w s ≡ some q
      sym_fd s q e = cc (fd_to_lsd-SameFds w (stepped p c w) keep.same_fds s)

      live :
          (q : ℕ)
          → has_entry q w.table ≡ true
          → (k' : Socket) × (update w.heap p (some c.sock) q ≡ some k') × IsSound k'
      live q e = elim (Bool-cases (q == p)) [
        | inl y ↦ rw y (c.sock, refl, keep.sound)
        | inr n ↦ rw n (wf.live q e)
      ]

      numbered :
          (s : ℤ) (q : ℕ) (k' : Socket)
          → fd_to_lsd sys (stepped p c w) s ≡ some q
          → update w.heap p (some c.sock) q ≡ some k'
          → k'.fd ≡ s
      numbered s q k' e h =
          ground (arith, wf.numbered s q k (sym_fd s q e), wf.numbered s q k' (sym_fd s q e))

  -- What a body on one descriptor must do, from any context whose descriptor is sound.
  abbrev pub KeepsSound : {A : Type 0} → (Interface E → M (Ctx E) A) → Type 0
  KeepsSound body =
      (i : Interface E) (c : Ctx E)
      → IsHonest sys i
      → IsSound c.sock
      → Returns (body i c) (λ a c'. Keeps sys c c')

  pub run_on-eq :
      {A : Type 0} (p : ℕ) (body : Interface E → M (Ctx E) A) (w : World E) (k : Socket) (t : ℕ)
      → w.heap p ≡ some k
      → k.interface ≡ some t
      → run_on sys p body w ≡ elim (body (sys.tables t) (context w k)) [
        | none ↦ none
        | some (a, c) ↦ some (a, stepped p c w)
      ]
  unfolding run_on
  run_on-eq p body w k t hp ht = rw (hp, run_on) (simp ht)

  pub run_on-IsWellFormed :
      {A : Type 0} (p : ℕ) (body : Interface E → M (Ctx E) A) (w : World E)
      → ((t : ℕ) → IsHonest sys (sys.tables t))
      → KeepsSound body
      → IsWellFormed w
      → has_entry p w.table ≡ true
      → Returns (run_on sys p body w) (λ a w'. Stays w w')
  run_on-IsWellFormed p body w honest keeps wf e =
      let (k, hp, sound) = wf.live p e in
      let (t, ht) = given-some k.interface sound.has_interface in
      rw (run_on-eq p body w k t hp ht) (
        Returns->>= (body (sys.tables t) (context w k)) (λ a c. some (a, stepped p c w)) _ _
          (keeps (sys.tables t) (context w k) (honest t) sound)
          (λ a c h.
            (stepped-IsWellFormed w p k c wf hp h, refl, λ s. fd_to_lsd-SameFds w _ h.same_fds s)))

  -- `errno` is no part of it.
  pub errno-IsWellFormed :
      (w : World E) (e : Errno) → IsWellFormed w → IsWellFormed (record w { errno = e })
  unfolding fd_to_lsd
  errno-IsWellFormed w e wf = record {
    size = wf.size;
    live = wf.live;
    linked = wf.linked;
    numbered = wf.numbered;
  }

  pub errno-Stays : (w : World E) (e : Errno) → IsWellFormed w → Stays w (record w { errno = e })
  unfolding fd_to_lsd
  errno-Stays w e wf = (errno-IsWellFormed w e wf, refl, λ s. refl)

  pub isfdtype-IsWellFormed :
      (s : ℤ) (sock : Bool) (w : World E)
      → IsWellFormed w
      → Returns (isfdtype sys s sock w) (λ a w'. Stays w w')
  unfolding isfdtype
  isfdtype-IsWellFormed s true w wf = elim (Bool-cases (fd_is_valid sys w s)) [
    | inl y ↦ rw (y, isfdtype) (wf, refl, λ s. refl)
    | inr n ↦ rw (n, isfdtype) (errno-Stays w ebadf wf)
  ]
  isfdtype-IsWellFormed s false w wf = elim (Bool-cases (fd_is_valid sys w s)) [
    | inl y ↦ rw (y, isfdtype) (errno-Stays w einval wf)
    | inr n ↦ rw (n, isfdtype) (errno-Stays w ebadf wf)
  ]

  pub poll-KeepsSound : KeepsSound poll
  poll-KeepsSound i c honest sound =
      IfGiven-elim sys (WellBehaved sys) i.nonblocking_check (some (tt, c))
        (λ f. some (tt, (f c).1)) _ honest.nonblocking_check (Keeps-refl sys c sound)
        (λ f h. (h c sound).keeps)

  poll_then-KeepsSound :
      {A : Type 0} (body : Interface E → M (Ctx E) A)
      → KeepsSound body
      → KeepsSound (λ i. poll i >> body i)
  poll_then-KeepsSound body keeps i c honest sound =
      Returns->>= (poll i c) (λ a c'. body i c') _ _ (poll-KeepsSound i c honest sound)
        (λ a c' h.
          Returns-mono (body i c') _ _ (keeps i c' honest h.sound)
            (λ b c'' k. Keeps-trans sys c c' c'' h k))

  -- A file descriptor that is no socket's.
  pub no_socket-IsWellFormed :
      {A : Type 0} (failure : A) (s : ℤ) (w : World E)
      → IsWellFormed w
      → Returns ((isfdtype sys s true >> return failure) w) (λ a w'. (a ≡ failure) × (Stays w w'))
  no_socket-IsWellFormed failure s w wf =
      Returns->>= (isfdtype sys s true w) (λ a w'. some (failure, w')) _ _
        (isfdtype-IsWellFormed s true w wf) (λ a w' h. (refl, h))

  pub on_socket-IsWellFormed :
      {A : Type 0} (failure : A) (s : ℤ) (body : Interface E → M (Ctx E) A) (w : World E)
      → ((t : ℕ) → IsHonest sys (sys.tables t))
      → KeepsSound body
      → IsWellFormed w
      → Returns (on_socket sys failure s body w) (λ a w'. Stays w w')
  unfolding on_socket
  on_socket-IsWellFormed failure s body w honest keeps wf =
      elim (Option-cases (fd_to_lsd sys w s)) [
        | inl e ↦
            rw (e, on_socket)
              (Returns-mono ((isfdtype sys s true >> return failure) w) _ _
                (no_socket-IsWellFormed failure s w wf) (λ a w' h. h.1))
        | inr (p, e) ↦
            rw (e, on_socket)
              (run_on-IsWellFormed p (λ i. poll i >> body i) w honest
                (poll_then-KeepsSound body keeps) wf (wf.linked s p e))
      ]

  -- The same for a function that goes on from the descriptor's address.
  pub with_lsd-IsWellFormed :
      {A : Type 0} (failure : A) (s : ℤ) (body : ℕ → M (World E) A) (w : World E)
      (Q : A → World E → Type 0)
      → ((t : ℕ) → IsHonest sys (sys.tables t))
      → IsWellFormed w
      → ((w' : World E) → Stays w w' → Q failure w')
      → ((p : ℕ) (w' : World E) → Stays w w' → fd_to_lsd sys w' s ≡ some p → Returns (body p w') Q)
      → Returns (with_lsd sys failure s body w) Q
  unfolding with_lsd
  with_lsd-IsWellFormed failure s body w Q honest wf failed found =
      elim (Option-cases (fd_to_lsd sys w s)) [
        | inl e ↦
            rw (e, with_lsd)
              (Returns-mono ((isfdtype sys s true >> return failure) w) _ _
                (no_socket-IsWellFormed failure s w wf) (λ a w' h. rw h.0 (failed w' h.1)))
        | inr (p, e) ↦
            rw (e, with_lsd)
              (Returns->>= (run_on sys p poll w) (λ a w'. body p w') _ _
                (run_on-IsWellFormed p poll w honest poll-KeepsSound wf (wf.linked s p e))
                (λ a w' h. found p w' h (h.2 s ∙ e)))
      ]
