-- ===== src/Unix/Stream/Delivery.antt =====
-- A message through a mailslot, from `__unix_send_stream` of one end to `__unix_recv_stream` of
-- the other.
use libsocket.Base.{
  ℕ, zero, suc, ◌+◌, ◌-◌, ◌≤◌, ◌<◌, Bool, if◌then◌else◌, ◌==◌, Option, none, some, List, [], ◌∷◌,
  ◌++◌, length, take, ◌≡◌, refl, sym, ap, ◌∙◌, arith, M, Returns, Returns-mono, if-Returns,
  length-append, inl, inr,
}
use libsocket.Base.Int.{ℤ, pos, negsuc}
use libsocket.Unix.Recv.{recv_stream}
use libsocket.Unix.Send.{send_stream}
use libsocket.Unix.Stream.{Carries, NoStray, IsMailslot}
use libsocket.Unix.Stream.Receiving.{IsReceiver, Taken, Given, recv_loop-Given}
use libsocket.Unix.Stream.Sending.{send_stream-Carries}
use libsocket.Unix.Types.{Secret, Files, Unix}

module _ {E : Type 0} (files : Files E) where
  -- A caller who receives until he has `want` bytes, in at most `rounds` calls.
  unfoldable pub receive : ℕ → ℕ → List ℕ → ℕ → ℕ → M (Unix E) (List ℕ)
  receive zero fuel buf len want c = some ([], c)
  receive (suc rounds) fuel buf len want c =
      if want == 0 then some ([], c) else elim (recv_stream files fuel buf len 0 c) [
        | none ↦ none
        | some ((negsuc n, out), c') ↦ some ([], c')
        | some ((pos n, out), c') ↦ elim (receive rounds fuel buf len (want - n) c') [
          | none ↦ none
          | some (rest, c'') ↦ some (take n out ++ rest, c'')
        ]
      ]

  pos-inj : (n m : ℕ) → pos n ≡ pos m → n ≡ m
  pos-inj n m h = ground arith

  length-zero : (xs : List ℕ) → length xs ≡ 0 → xs ≡ []
  length-zero [] h = refl
  length-zero (x ∷ xs) h = absurd (omega arith)

  Returns-append :
      (o : Option (List ℕ × Unix E)) (first left bytes : List ℕ)
      → bytes ≡ first ++ left
      → Returns o (λ out c'. out ≡ left)
      → Returns
          (elim o [ none ↦ none | some (rest, c'') ↦ some (first ++ rest, c'') ])
          (λ out c''. out ≡ bytes)
  Returns-append none first left bytes e h = h
  Returns-append (some (rest, c)) first left bytes e h = ap (λ xs. first ++ xs) h ∙ sym e

  module _ (w r : ℤ) (queue : E → List (List ℕ)) (mail : IsMailslot files w r queue) where
    -- The receiver before a mailslot that carries `bytes` for him.
    abbrev Holding : Bool → Secret → List ℕ → Unix E → Type 0
    Holding accepted s bytes c =
        IsReceiver files w r queue mail c
        × (c.sock.accepted ≡ accepted)
        × (c.usock.secret ≡ s)
        × Carries NoStray s (queue c.env) bytes

    more-Returns :
        (o : Option ((ℤ × List ℕ) × Unix E)) (k : ℕ → Unix E → Option (List ℕ × Unix E))
        (accepted : Bool) (s : Secret) (bytes : List ℕ) (bound : ℕ)
        → Returns o
            (λ result c'. Taken files w r queue mail NoStray accepted s bytes bound result c')
        → ((n : ℕ) (c' : Unix E) (left : List ℕ)
            → n + length left ≡ length bytes
            → 1 ≤ n
            → Carries NoStray s (queue c'.env) left
            → IsReceiver files w r queue mail c'
            → c'.sock.accepted ≡ accepted
            → c'.usock.secret ≡ s
            → length (queue c'.env) ≤ bound
            → Returns (k n c') (λ out c''. out ≡ left))
        → Returns
            (elim o [
              | none ↦ none
              | some ((negsuc n, out), c') ↦ some ([], c')
              | some ((pos n, out), c') ↦ elim (k n c') [
                | none ↦ none
                | some (rest, c'') ↦ some (take n out ++ rest, c'')
              ]
            ])
            (λ out c''. out ≡ bytes)
    more-Returns none k accepted s bytes bound h f = h
    more-Returns (some ((negsuc n, out), c)) k accepted s bytes bound h f =
        absurd (ground (arith, h.count))
    more-Returns (some ((pos n, out), c)) k accepted s bytes bound h f =
        let size : n ≡ length h.taken = pos-inj n _ h.count in
        Returns-append (k n c) (take n out) h.left bytes
          (rw size (h.split ∙ ap (λ xs. xs ++ h.left) (sym h.copied)))
          (f n c h.left (omega (arith, size, ap length h.split, length-append h.taken h.left))
            (omega (arith, size, h.progress)) h.carries h.receiver h.same_accepted h.same_secret
            h.bounded)

    Given-Taken :
        (accepted : Bool) (s : Secret) (bytes buf : List ℕ) (bound : ℕ) (result : ℤ × List ℕ)
        (c : Unix E)
        → Given files w r queue mail NoStray accepted s bytes buf bound result c
        → Taken files w r queue mail NoStray accepted s bytes bound result c
    Given-Taken accepted s bytes buf bound result c (inl taken) = taken
    Given-Taken accepted s bytes buf bound result c (inr strayed) = absurd strayed.is_stray

    next-Taken :
        (turns : ℕ) (accepted : Bool) (s : Secret) (bytes buf : List ℕ) (len bound : ℕ) (c : Unix E)
        → s.n < 4294967296
        → s.pid < 4294967296
        → 4060 ≤ len
        → len ≤ length buf
        → length (queue c.env) ≤ bound
        → Holding accepted s bytes c
        → 1 ≤ length bytes
        → Returns
            (recv_stream files (suc turns) buf len 0 c)
            (λ result c'. Taken files w r queue mail NoStray accepted s bytes bound result c')
    unfolding recv_stream
    next-Taken turns accepted s bytes buf len bound c sn sp big room short (h, a, u, carried) low =
        Returns-mono (recv_stream files (suc turns) buf len 0 c) _ _
          (recv_loop-Given files w r queue mail NoStray accepted bound s (queue c.env) turns bytes
            buf len c (λ m x. absurd x) sn sp big room short (h, refl, a, u) carried low)
          (Given-Taken accepted s bytes buf bound)

    receive-all :
        (rounds fuel : ℕ) (accepted : Bool) (s : Secret) (bytes buf : List ℕ) (len : ℕ) (c : Unix E)
        → s.n < 4294967296
        → s.pid < 4294967296
        → 4060 ≤ len
        → len ≤ length buf
        → length bytes ≤ rounds
        → Holding accepted s bytes c
        → Returns (receive rounds (suc fuel) buf len (length bytes) c) (λ out c'. out ≡ bytes)
    unfolding receive
    receive-all zero fuel accepted s [] buf len c sn sp big room enough h = refl
    receive-all zero fuel accepted s (b ∷ bytes) buf len c sn sp big room enough h =
        absurd (omega arith)
    receive-all (suc rounds) fuel accepted s bytes buf len c sn sp big room enough h =
        if-Returns (length bytes == 0) _ _ _ (λ e. sym (length-zero bytes (ground arith)))
          (λ e.
            more-Returns (recv_stream files (suc fuel) buf len 0 c)
              (λ n c'. receive rounds (suc fuel) buf len (length bytes - n) c') accepted s bytes
              (length (queue c.env))
              (next-Taken fuel accepted s bytes buf len (length (queue c.env)) c sn sp big room
                (omega arith) h (ground arith))
              (λ n c' left size low carried receiver a u bounded.
                let rest : length left ≡ length bytes - n = omega (arith, size) in
                rw rest at (
                  receive-all rounds fuel accepted s left buf len c' sn sp big room
                    (omega (arith, size, low)) (receiver, a, u, carried))))

    -- A message sent into an empty mailslot, with numbers that do not pass MAXINT, is received whole
    -- and in order by a caller at the other end who asks for as many bytes: `__unix_recv_stream`
    -- returns each time, after one turn and with a byte at least, so that as many calls as bytes
    -- are enough.
    pub send_stream-receive :
        (msg buf : List ℕ) (len : ℕ) (c d : Unix E)
        → c.usock.fd_w ≡ w
        → c.usock.seq_w + length msg < 2147483647
        → c.usock.secret.n < 4294967296
        → c.usock.secret.pid < 4294967296
        → d.usock.secret ≡ c.usock.secret
        → IsReceiver files w r queue mail d
        → queue c.env ≡ []
        → 4060 ≤ len
        → len ≤ length buf
        → Returns (send_stream files msg (length msg) c) (λ a c'.
          (a ≡ pos (length msg))
          × Returns
              (receive (length msg) 1 buf len (length msg) (record d { env = c'.env }))
              (λ out d'. out ≡ msg))
    send_stream-receive msg buf len c d fd numbers sn sp same h before big room =
        Returns-mono (send_stream files msg (length msg) c) _ _
          (send_stream-Carries files w r queue mail NoStray msg c [] fd numbers (rw before refl))
          (λ a c' g. (
            g.0,
            receive-all (length msg) 0 d.sock.accepted c.usock.secret msg buf len
                (record d { env = c'.env }) sn sp big room (omega arith)
                (record { fd = h.fd; size = h.size }, refl, same, g.2),
          ))
