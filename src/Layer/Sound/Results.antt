-- ===== src/Layer/Sound/Results.antt =====
-- The rules of Frame for a call whose result matters to what follows.
use libsocket.Base.{
  ℕ, true, Option, some, ◌≡◌, refl, ◌∙◌, M, Returns, Returns-mono, Returns->>=, Option-cases, inl,
  inr, arith, given-some, ◌>>◌, return,
}
use libsocket.Base.Int.{ℤ}
use libsocket.Layer.Interface.{Ctx, Interface, poll}
use libsocket.Layer.Sound.Frame.{
  IsWellFormed, Stays, stepped, context, stepped-IsWellFormed, run_on-eq, fd_to_lsd-SameFds,
  poll-KeepsSound, no_socket-IsWellFormed,
}
use libsocket.Layer.Sound.Honest.{IsSound, Keeps, IsHonest, Keeps-trans}
use libsocket.Layer.Types.{Socket}
use libsocket.Layer.World.{Sys, World, fd_to_lsd, isfdtype, run_on, on_socket, update}

module _ {E : Type 0} (sys : Sys E) (honest : (t : ℕ) → IsHonest sys (sys.tables t)) where
  pub Stays-trans : (u v w : World E) → Stays sys u v → Stays sys v w → Stays sys u w
  Stays-trans u v w h k = (k.0, k.1 ∙ h.1, λ s. k.2 s ∙ h.2 s)

  -- A step on the descriptor at `p`, which is now that of `c`.
  abbrev pub StepsTo : ℕ → World E → World E → Ctx E → Type 0
  StepsTo p w w' c = Stays sys w w' × (w'.heap p ≡ some c.sock)

  update-same : (p : ℕ) (m : ℕ → Option Socket) (k : Socket) → update m p (some k) p ≡ some k
  update-same p m k = ground arith

  pub run_on-StepsTo :
      {A : Type 0} (p : ℕ) (body : Interface E → M (Ctx E) A) (w : World E) (k : Socket)
      (Q : A → Ctx E → Type 0)
      → IsWellFormed sys w
      → w.heap p ≡ some k
      → IsSound k
      → ((i : Interface E)
          → IsHonest sys i
          → Returns (body i (context sys w k)) (λ a c. Keeps sys (context sys w k) c × Q a c))
      → Returns
          (run_on sys p body w)
          (λ a w'. (c : Ctx E) × StepsTo p w w' c × IsSound c.sock × Q a c)
  run_on-StepsTo p body w k Q wf hp sound keeps =
      let (t, ht) = given-some k.interface sound.has_interface in
      rw (run_on-eq sys p body w k t hp ht) (
        Returns->>= (body (sys.tables t) (context sys w k)) (λ a c. some (a, stepped sys p c w)) _ _
          (keeps (sys.tables t) (honest t))
          (λ a c h. (
            c,
            (
              (
                stepped-IsWellFormed sys w p k c wf hp h.0,
                refl,
                λ s. fd_to_lsd-SameFds sys w _ h.0.same_fds s,
              ),
              update-same p w.heap c.sock,
            ),
            h.0.sound,
            h.1,
          )))

  -- `R` holds of the result, whether the file descriptor is a socket's or not.
  pub on_socket-Result :
      {A : Type 0} (failure : A) (s : ℤ) (body : Interface E → M (Ctx E) A) (w : World E)
      (R : A → Type 0)
      → IsWellFormed sys w
      → R failure
      → ((i : Interface E) (c : Ctx E)
          → IsHonest sys i
          → IsSound c.sock
          → Returns (body i c) (λ a c'. Keeps sys c c' × R a))
      → Returns (on_socket sys failure s body w) (λ a w'. Stays sys w w' × R a)
  unfolding on_socket
  on_socket-Result failure s body w R wf failed keeps = elim (Option-cases (fd_to_lsd sys w s)) [
    | inl e ↦
        rw (e, on_socket)
          (Returns-mono ((isfdtype sys s true >> return failure) w) _ _
            (no_socket-IsWellFormed sys failure s w wf) (λ a w' h. (h.1, rw h.0 failed)))
    | inr (p, e) ↦
        let (k, hp, sound) = wf.live p (wf.linked s p e) in
        rw (e, on_socket)
          (Returns-mono (run_on sys p (λ i. poll i >> body i) w) _ _
            (run_on-StepsTo p (λ i. poll i >> body i) w k (λ a c. R a) wf hp sound
              (λ i h.
                Returns->>= (poll i (context sys w k)) (λ a c'. body i c') _ _
                  (poll-KeepsSound sys i (context sys w k) h sound)
                  (λ a c' g.
                    Returns-mono (body i c') _ _ (keeps i c' h g.sound)
                      (λ b c'' j. (Keeps-trans sys (context sys w k) c' c'' g j.0, j.1)))))
            (λ a w' h. (h.1.0, h.3)))
  ]
