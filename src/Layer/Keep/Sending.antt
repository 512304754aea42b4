-- ===== src/Layer/Keep/Sending.antt =====
-- The functions that send, and those that ask for names and options, on one sound descriptor:
-- src/send.c, src/gscknm.c, src/gprnm.c and src/sckopt.c.
use libsocket.Base.{
  ℕ, zero, suc, ◌≤◌, Bool, true, false, not, ◌&&◌, ◌||◌, ◌==◌, Option, none, some, List, [], ◌∷◌,
  length, ◌≡◌, refl, is_given, arith, Returns, Returns->>=, Returns-mono, if-Returns, elim-Returns,
  memcpy, memcpy-given, ltb,
}
use libsocket.Base.Int.{ℤ}
use libsocket.Layer.Interface.{Ctx, Interface, Call}
use libsocket.Layer.Names.{ask_name, getpeername_body}
use libsocket.Layer.Options.{
  getsockopt_body, getsockopt_try, getsockopt_emulated, sol_socket, so_acceptconn, so_type,
  int_bytes, bit, put_int,
}
use libsocket.Layer.Sound.{
  IsSound, Keeps, SameFds, IsHonest, WellBehaved, IfGiven, IfGiven-elim, Holds, Keeps-refl,
  Keeps-trans, Keeps-errno, KeepsSound,
}
use libsocket.Layer.Transfer.{
  send_stream, send_out, send_dgram, sendto_body, memcmp_ne, or_else, len_or_else,
}
use libsocket.Layer.Types.{Errno, Socket, sock_stream, sock_dgram, sa_family}
use libsocket.Layer.World.{Sys}

-- A comparison within both buffers reads nothing beyond them.
pub memcmp_ne-given :
    (xs ys : List ℕ) (n : ℕ) → n ≤ length xs → n ≤ length ys → is_given (memcmp_ne xs ys n) ≡ true
unfolding memcmp_ne
memcmp_ne-given xs ys zero h k = refl
memcmp_ne-given [] ys (suc n) h k = absurd (omega arith)
memcmp_ne-given (x ∷ xs) [] (suc n) h k = absurd (omega arith)
memcmp_ne-given (x ∷ xs) (y ∷ ys) (suc n) h k = ground (arith, memcmp_ne-given xs ys n)

compared-Returns :
    {A S : Type 0} (o : Option Bool) (x y : Option (A × S)) (R : A → S → Type 0)
    → is_given o ≡ true
    → Returns x R
    → Returns y R
    → Returns (elim o [ none ↦ none | some true ↦ x | some false ↦ y ]) R
compared-Returns none x y R h s t = cc
compared-Returns (some true) x y R h s t = s
compared-Returns (some false) x y R h s t = t

module _ {E : Type 0} (sys : Sys E) (sigpipe : (e : E) → SameFds sys e (sys.raise_sigpipe e)) where
  Keeps-sigpipe :
      (c : Ctx E) (e : Errno)
      → IsSound c.sock
      → Keeps sys c (record c { errno = e; env = sys.raise_sigpipe c.env })
  Keeps-sigpipe c e h = record { sound = h; same_fd = refl; same_fds = sigpipe c.env }

  send_out-KeepsSound :
      (msg : List ℕ) (len flags : ℕ) (to : Option (List ℕ)) (tolen : ℕ)
      → KeepsSound sys (send_out sys msg len flags to tolen)
  unfolding send_out
  send_out-KeepsSound msg len flags to tolen i c honest sound =
      if-Returns (not c.sock.outbound) _ _ _ (λ _. Keeps-errno sys c _ sound)
        (λ _.
          IfGiven-elim sys _ i.sendto _ _ _ honest.sendto (Keeps-errno sys c _ sound)
            (λ f h. (h msg len flags to tolen c sound).keeps))

  send_dgram-KeepsSound :
      (msg : List ℕ) (len flags : ℕ) (to : Option (List ℕ)) (tolen : ℕ)
      → KeepsSound sys (send_dgram sys msg len flags to tolen)
  unfolding send_dgram
  send_dgram-KeepsSound msg len flags to tolen i c honest sound =
      if-Returns (c.sock.type == sock_dgram && not (is_given to)) _ _ _
        (λ _.
          if-Returns (sa_family c.sock.peername == 0) _ _ _ (λ _. Keeps-errno sys c _ sound)
            (λ _.
              send_out-KeepsSound msg len flags (some c.sock.peername) c.sock.peernamelen i c honest
                sound))
        (λ _. send_out-KeepsSound msg len flags to tolen i c honest sound)

  -- What `memcmp` compares lies within the two buffers.
  memcmp_peer :
      (k : Socket) (to : Option (List ℕ)) (tolen : ℕ)
      → IsSound k
      → Holds to tolen
      → not (len_or_else to tolen k.peernamelen == k.peernamelen) ≡ false
      → is_given (memcmp_ne k.peername (or_else to k.peername) (len_or_else to tolen k.peernamelen))
        ≡ true
  memcmp_peer k none tolen h held e = memcmp_ne-given _ _ _ (omega arith) (omega arith)
  memcmp_peer k (some a) tolen h held e = memcmp_ne-given _ _ _ (ground arith) held

  send_stream-KeepsSound :
      (msg : List ℕ) (len flags : ℕ) (to : Option (List ℕ)) (tolen : ℕ)
      → Holds to tolen
      → KeepsSound sys (send_stream sys msg len flags to tolen)
  unfolding send_stream
  send_stream-KeepsSound msg len flags to tolen held i c honest sound =
      if-Returns (not c.sock.connected) _ _ _ (λ _. Keeps-errno sys c _ sound)
        (λ _.
          if-Returns (not (len_or_else to tolen c.sock.peernamelen == c.sock.peernamelen)) _ _ _
            (λ _. Keeps-errno sys c _ sound)
            (λ e.
              compared-Returns
                (memcmp_ne c.sock.peername (or_else to c.sock.peername)
                  (len_or_else to tolen c.sock.peernamelen))
                _ _ _ (memcmp_peer c.sock to tolen sound held e) (Keeps-errno sys c _ sound)
                (if-Returns (not c.sock.outbound) _ _ _ (λ _. Keeps-sigpipe c _ sound)
                  (λ _.
                    IfGiven-elim sys _ i.send _ _ _ honest.send (Keeps-errno sys c _ sound)
                      (λ f h. (h msg len flags c sound).keeps)))))

  pub sendto_body-KeepsSound :
      (msg : Option (List ℕ)) (len flags : ℕ) (to : Option (List ℕ)) (tolen : ℕ)
      → Holds to tolen
      → KeepsSound sys (sendto_body sys msg len flags to tolen)
  unfolding sendto_body
  sendto_body-KeepsSound none len flags to tolen held i c honest sound = Keeps-errno sys c _ sound
  sendto_body-KeepsSound (some msg) len flags to tolen held i c honest sound =
      if-Returns (is_given to && tolen == 0) _ _ _ (λ _. Keeps-errno sys c _ sound)
        (λ _.
          if-Returns (not c.sock.outbound) _ _ _ (λ _. Keeps-sigpipe c _ sound)
            (λ _.
              if-Returns (c.sock.type == sock_stream) _ _ _
                (λ _. send_stream-KeepsSound msg len flags to tolen held i c honest sound)
                (λ _. send_dgram-KeepsSound msg len flags to tolen i c honest sound)))

module _ {E : Type 0} (sys : Sys E) where
  -- The condition on the entry that is asked, `getsockname` or `getpeername`.
  pub ask_name-Keeps :
      (entry : Option (List ℕ → ℕ → Call E (ℤ × List ℕ × ℕ))) (name : Option (List ℕ))
      (namelen : Option ℕ) (c : Ctx E)
      → IfGiven sys (λ f. (a : List ℕ) (n : ℕ) → WellBehaved sys (f a n)) entry
      → IsSound c.sock
      → Returns (ask_name entry name namelen c) (λ a c'. Keeps sys c c')
  unfolding ask_name
  ask_name-Keeps entry none namelen c h sound = Keeps-errno sys c _ sound
  ask_name-Keeps entry (some a) none c h sound = Keeps-errno sys c _ sound
  ask_name-Keeps entry (some a) (some n) c h sound =
      IfGiven-elim sys _ entry _ _ _ h (Keeps-errno sys c _ sound) (λ f g. (g a n c sound).keeps)

  IfGiven-fst :
      {A : Type 0} (P Q : A → Type 0) (o : Option A)
      → IfGiven sys (λ f. P f × Q f) o
      → IfGiven sys P o
  IfGiven-fst P Q none h = h
  IfGiven-fst P Q (some f) h = h.0

  pub getsockname-KeepsSound :
      (name : Option (List ℕ)) (namelen : Option ℕ)
      → KeepsSound sys (λ i. ask_name i.getsockname name namelen)
  getsockname-KeepsSound name namelen i c honest sound =
      ask_name-Keeps i.getsockname name namelen c (IfGiven-fst _ _ i.getsockname honest.getsockname)
        sound

  pub getpeername_body-KeepsSound :
      (name : Option (List ℕ)) (namelen : Option ℕ) → KeepsSound sys (getpeername_body name namelen)
  unfolding getpeername_body
  getpeername_body-KeepsSound name namelen i c honest sound =
      if-Returns (c.sock.type == sock_stream && not c.sock.connected) _ _ _
        (λ _. Keeps-errno sys c _ sound)
        (λ _. ask_name-Keeps i.getpeername name namelen c honest.getpeername sound)

  put_int-Keeps :
      (n : ℕ) (optval : List ℕ) (c : Ctx E)
      → 4 ≤ length optval
      → IsSound c.sock
      → Returns (put_int n optval c) (λ a c'. Keeps sys c c')
  put_int-Keeps n optval c h sound =
      let (out, e, _) = memcpy-given optval (int_bytes n) 4 h (omega arith) in
      elim-Returns (memcpy optval (int_bytes n) 4) _ _ _ (λ e'. cc)
        (λ out' e'. Keeps-refl sys c sound)

  -- A value that fits is written; its buffer is as long as its length says.
  emulated-KeepsSound :
      (level optname : ℕ) (optval : List ℕ) (optlen : ℕ) (c : Ctx E)
      → optlen ≤ length optval
      → IsSound c.sock
      → Returns (getsockopt_emulated level optname optval optlen c) (λ a c'. Keeps sys c c')
  unfolding getsockopt_emulated
  emulated-KeepsSound level optname optval optlen c fits sound =
      if-Returns (not (level == sol_socket)) _ _ _ (λ _. Keeps-errno sys c _ sound)
        (λ _.
          if-Returns ((optname == so_acceptconn || optname == so_type) && ltb optlen 4) _ _ _
            (λ _. Keeps-errno sys c _ sound)
            (λ e.
              if-Returns (optname == so_acceptconn) _ _ _
                (λ a. put_int-Keeps (bit c.sock.listening) optval c (ground arith) sound)
                (λ _.
                  if-Returns (optname == so_type) _ _ _
                    (λ a. put_int-Keeps c.sock.type optval c (ground arith) sound)
                    (λ _. Keeps-errno sys c _ sound))))

  getsockopt_try-Keeps :
      (level optname : ℕ) (optval : List ℕ) (optlen : ℕ) (i : Interface E) (c : Ctx E)
      → optlen ≤ length optval
      → IsHonest sys i
      → IsSound c.sock
      → Returns (getsockopt_try level optname optval optlen i c) (λ a c'. Keeps sys c c')
  unfolding getsockopt_try
  getsockopt_try-Keeps l o v n i c fits honest sound =
      IfGiven-elim sys _ i.getsockopt _ _ _ honest.getsockopt
        (emulated-KeepsSound l o v n c fits sound)
        (λ f h.
          let b = (h.0 l o v n c sound).keeps in
          let names = h.1 l o v n c in
          elim-Returns (f l o v n c).0.0 _ _ _
            (λ _.
              Returns-mono
                (getsockopt_emulated l o (f l o v n c).0.1 (f l o v n c).0.2 (f l o v n c).1) _ _
                (emulated-KeepsSound l o _ _ _ (rw (names.same_size) (names.fits fits)) b.sound)
                (λ a c' k. Keeps-trans sys c _ c' b k))
            (λ rv _. b))

  pub getsockopt_body-KeepsSound :
      (scratch : List ℕ) (level optname : ℕ) (optval : Option (List ℕ)) (optlen : Option ℕ)
      → length scratch ≡ 16
      → ((v : List ℕ) (n : ℕ) → optval ≡ some v → optlen ≡ some n → n ≤ length v)
      → KeepsSound sys (getsockopt_body scratch level optname optval optlen)
  unfolding getsockopt_body
  getsockopt_body-KeepsSound scratch l o (some v) none size fits i c honest sound =
      Keeps-errno sys c _ sound
  getsockopt_body-KeepsSound scratch l o (some v) (some n) size fits i c honest sound =
      Returns->>= (getsockopt_try l o v n i c) _ _ _
        (getsockopt_try-Keeps l o v n i c (fits v n refl refl) honest sound) (λ a c' k. k)
  getsockopt_body-KeepsSound scratch l o none n size fits i c honest sound =
      Returns->>= (getsockopt_try l o scratch 16 i c) _ _ _
        (getsockopt_try-Keeps l o scratch 16 i c (omega arith) honest sound) (λ a c' k. k)
