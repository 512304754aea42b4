-- ===== src/Layer/Keep/Connecting.antt =====
-- `connect` of src/connct.c on a sound descriptor, branch by branch.
use libsocket.Base.{
  ℕ, ◌≤◌, Bool, true, false, not, ◌&&◌, ◌||◌, ◌==◌, Option, none, some, List, length, ◌≡◌, refl,
  sym, ap, ◌∙◌, is_given, arith, M, Returns, Returns->>=, Returns-mono, if-Returns, memcpy-given,
  bzero-given,
}
use libsocket.Base.Int.{ℤ, pos, minus_one, ◌==ℤ◌}
use libsocket.Layer.Connect.{
  still_waiting, addrlen_ok, connect_dgram, connect_unnamed, connect_name, connect_mark,
  connect_peer, connect_clear, connect_return, connect_finish, connect_stream, connect_body,
}
use libsocket.Layer.Interface.{Ctx, Interface}
use libsocket.Layer.Sound.{
  IsSound, Keeps, IsHonest, IfGiven-elim, Holds, Keeps-refl, Keeps-trans, Keeps-errno, Keeps-sock,
  KeepsSound,
}
use libsocket.Layer.Types.{
  Socket, sock_stream, sock_dgram, sockaddr_max_size, sockaddr_common_size, sa_family,
}
use libsocket.Layer.World.{Sys}

-- Descriptors that differ in the names and in flags that `IsSound` does not read.
with_names :
    (k : Socket) (name peer : List ℕ) (n m : ℕ) (b d : Bool)
    → IsSound k
    → length name ≡ length k.sockname
    → length peer ≡ length k.peername
    → m ≤ sockaddr_max_size
    → IsSound (record k {
      sockname = name;
      peername = peer;
      socknamelen = n;
      peernamelen = m;
      connecting = b;
      connected = d;
    })
with_names k name peer n m b d h e f g = record {
  has_interface = h.has_interface;
  sockname_size = e ∙ h.sockname_size;
  peername_size = f ∙ h.peername_size;
  peer_fits = g;
  listens_bound = h.listens_bound;
  listens_stream = h.listens_stream;
}

module _ {E : Type 0} (sys : Sys E) where
  -- A copy, or a clearing, that stays within its buffers.
  pub stored-Returns :
      {A : Type 0} (dest : List ℕ) (o : Option (List ℕ)) (g : List ℕ → Option (A × Ctx E))
      (R : A → Ctx E → Type 0)
      → (out : List ℕ) × (o ≡ some out) × (length out ≡ length dest)
      → ((out : List ℕ) → length out ≡ length dest → Returns (g out) R)
      → Returns (elim o [ none ↦ none | some out ↦ g out ]) R
  stored-Returns dest none g R (out, e, l) h = cc
  stored-Returns dest (some out') g R (out, e, l) h =
      let e' : out' ≡ out = cc in h out' (ap length e' ∙ l)

  connect_dgram-Keeps :
      (addr : Option (List ℕ)) (addrlen : ℕ) (c : Ctx E)
      → Holds addr addrlen
      → addrlen ≤ sockaddr_max_size
      → IsSound c.sock
      → Returns (connect_dgram addr addrlen c) (λ a c'. Keeps sys c c')
  unfolding connect_dgram
  connect_dgram-Keeps none addrlen c held fits h =
      stored-Returns c.sock.peername _ _ _
        (bzero-given c.sock.peername sockaddr_max_size (omega (arith, h.peername_size)))
        (λ out l.
          Keeps-sock sys c c _ (Keeps-refl sys c h)
            (with_names c.sock c.sock.sockname out c.sock.socknamelen 0 _ _ h refl l (omega arith))
            refl)
  connect_dgram-Keeps (some a) addrlen c held fits h =
      if-Returns (not (sa_family a == c.sock.family)) _ _ _ (λ _. Keeps-errno sys c _ h)
        (λ _.
          stored-Returns c.sock.peername _ _ _
            (memcpy-given c.sock.peername a addrlen (omega (arith, h.peername_size)) held)
            (λ out l.
              Keeps-sock sys c c _ (Keeps-refl sys c h)
                (with_names c.sock c.sock.sockname out c.sock.socknamelen addrlen _ _ h refl l fits)
                refl))

  connect_unnamed-Keeps :
      (r : ℤ) (c : Ctx E) → IsSound c.sock → Returns (connect_unnamed r c) (λ a c'. Keeps sys c c')
  unfolding connect_unnamed
  connect_unnamed-Keeps r c h =
      if-Returns (r ==ℤ minus_one) _ _ _
        (λ _.
          stored-Returns c.sock.sockname _ _ _
            (bzero-given c.sock.sockname sockaddr_common_size (omega (arith, h.sockname_size)))
            (λ out l.
              Keeps-sock sys c c _ (Keeps-refl sys c h)
                (with_names c.sock out c.sock.peername _ c.sock.peernamelen _ _ h l refl
                  h.peer_fits)
                refl))
        (λ _. Keeps-refl sys c h)

  named-Keeps :
      (c c1 : Ctx E) (r : ℤ) (name : List ℕ) (n : ℕ)
      → Keeps sys c c1
      → length name ≡ sockaddr_max_size
      → Returns
          (connect_unnamed r
            (record c1 { sock = record (c1.sock) { sockname = name; socknamelen = n } }))
          (λ a c'. Keeps sys c c')
  named-Keeps c c1 r name n k l =
      let k1 = record (c1.sock) { sockname = name; socknamelen = n } in
      let s1 : IsSound k1 =
        with_names c1.sock name c1.sock.peername n c1.sock.peernamelen c1.sock.connecting
          c1.sock.connected k.sound (l ∙ sym k.sound.sockname_size) refl k.sound.peer_fits in
      let c2 : Ctx E = record c1 { sock = k1 } in
      Returns-mono (connect_unnamed r c2) _ _ (connect_unnamed-Keeps r c2 s1)
        (λ a c' m. Keeps-trans sys c c2 c' (Keeps-sock sys c c1 k1 k s1 refl) m)

  connect_name-Keeps :
      (i : Interface E) (r : ℤ) (c : Ctx E)
      → IsHonest sys i
      → IsSound c.sock
      → Returns (connect_name i r c) (λ a c'. Keeps sys c c')
  unfolding connect_name
  connect_name-Keeps i r c honest h =
      if-Returns (r ==ℤ pos 0) _ _ _
        (λ _. IfGiven-elim sys _ i.getsockname _ _ _ honest.getsockname (Keeps-refl sys c h) (λ f g.
          named-Keeps c _ (f c.sock.sockname sockaddr_max_size c).0.0 _
            (f c.sock.sockname sockaddr_max_size c).0.2
            (g.0 c.sock.sockname sockaddr_max_size c h).keeps
            ((g.1 c.sock.sockname sockaddr_max_size c).same_size ∙ h.sockname_size)))
        (λ _. Keeps-refl sys c h)

  connect_mark-Keeps :
      (r : ℤ) (c : Ctx E) → IsSound c.sock → Returns (connect_mark r c) (λ a c'. Keeps sys c c')
  unfolding connect_mark
  connect_mark-Keeps r c h =
      if-Returns (still_waiting r c) _ _ _ (λ _. flags true false) (λ _. flags false true)
    where
      flags :
          (b d : Bool)
          → Keeps sys c (record c { sock = record (c.sock) { connecting = b; connected = d } })
      flags b d =
          Keeps-sock sys c c _ (Keeps-refl sys c h)
            (with_names c.sock _ _ c.sock.socknamelen _ b d h refl refl h.peer_fits) refl

  connect_return-Keeps :
      (r : ℤ) (c : Ctx E) → IsSound c.sock → Returns (connect_return r c) (λ a c'. Keeps sys c c')
  unfolding connect_return
  connect_return-Keeps r c h =
      if-Returns (still_waiting r c) _ _ _ (λ _. Keeps-errno sys c _ h) (λ _. Keeps-refl sys c h)

  connect_peer-Keeps :
      (addr : List ℕ) (addrlen : ℕ) (c : Ctx E)
      → addrlen ≤ length addr
      → addrlen ≤ sockaddr_max_size
      → IsSound c.sock
      → Returns (connect_peer addr addrlen c) (λ a c'. Keeps sys c c')
  unfolding connect_peer
  connect_peer-Keeps a addrlen c held fits h =
      stored-Returns c.sock.peername _ _ _
        (memcpy-given c.sock.peername a addrlen (omega (arith, h.peername_size)) held)
        (λ out l.
          Keeps-sock sys c c _ (Keeps-refl sys c h)
            (with_names c.sock c.sock.sockname out c.sock.socknamelen addrlen _ _ h refl l fits)
            refl)

  connect_clear-Keeps :
      (r : ℤ) (c : Ctx E) → IsSound c.sock → Returns (connect_clear r c) (λ a c'. Keeps sys c c')
  unfolding connect_clear
  connect_clear-Keeps r c h =
      stored-Returns c.sock.sockname _ _ _
        (bzero-given c.sock.sockname sockaddr_common_size (omega (arith, h.sockname_size)))
        (λ out l.
          stored-Returns c.sock.peername _ _ _
            (bzero-given c.sock.peername sockaddr_common_size (omega (arith, h.peername_size)))
            (λ peer m.
              Keeps-sock sys c c _ (Keeps-refl sys c h)
                (with_names c.sock out peer 0 0 c.sock.connecting false h l m (omega arith)) refl))

  -- One part behind another.
  then-Keeps :
      {A B : Type 0} (c : Ctx E) (o : Option (A × Ctx E)) (f : A → M (Ctx E) B)
      → Returns o (λ a c'. Keeps sys c c')
      → ((a : A) (c' : Ctx E) → IsSound c'.sock → Returns (f a c') (λ b c''. Keeps sys c' c''))
      → Returns (elim o [ none ↦ none | some (a, c') ↦ f a c' ]) (λ b c''. Keeps sys c c'')
  then-Keeps c o f h k = Returns->>= o f _ _ h (λ a c' m.
      Returns-mono (f a c') _ _ (k a c' m.sound) (λ b c'' n. Keeps-trans sys c c' c'' m n))

  connect_finish-Keeps :
      (addr : List ℕ) (addrlen : ℕ) (i : Interface E) (r : ℤ) (c : Ctx E)
      → addrlen ≤ length addr
      → addrlen ≤ sockaddr_max_size
      → IsHonest sys i
      → IsSound c.sock
      → Returns (connect_finish addr addrlen i r c) (λ a c'. Keeps sys c c')
  unfolding connect_finish
  connect_finish-Keeps addr addrlen i r c held fits honest h =
      if-Returns (r ==ℤ pos 0 || still_waiting r c) _ _ _
        (λ _.
          then-Keeps c _ connect_return
            (then-Keeps c _ connect_mark
              (then-Keeps c _ (λ _. connect_name i r)
                (connect_peer-Keeps addr addrlen c held fits h)
                (λ a c' k. connect_name-Keeps i r c' honest k))
              connect_mark-Keeps)
            connect_return-Keeps)
        (λ _. then-Keeps c _ connect_return (connect_clear-Keeps r c h) connect_return-Keeps)

  connect_stream-Keeps :
      (addr : Option (List ℕ)) (addrlen : ℕ) (i : Interface E) (c : Ctx E)
      → Holds addr addrlen
      → addrlen ≤ sockaddr_max_size
      → IsHonest sys i
      → IsSound c.sock
      → Returns (connect_stream addr addrlen i c) (λ a c'. Keeps sys c c')
  unfolding connect_stream
  connect_stream-Keeps none addrlen i c held fits honest h = Keeps-errno sys c _ h
  connect_stream-Keeps (some a) addrlen i c held fits honest h =
      if-Returns (not (sa_family a == c.sock.family)) _ _ _ (λ _. Keeps-errno sys c _ h)
        (λ _. IfGiven-elim sys _ i.connect _ _ _ honest.connect (Keeps-errno sys c _ h) (λ f g.
          Returns-mono (connect_finish a addrlen i (f a addrlen c).0 (f a addrlen c).1) _ _
            (connect_finish-Keeps a addrlen i (f a addrlen c).0 (f a addrlen c).1 held fits honest
              (g a addrlen held fits c h).keeps.sound)
            (λ r c' m. Keeps-trans sys c _ c' (g a addrlen held fits c h).keeps m)))

  pub connect_body-KeepsSound :
      (addr : Option (List ℕ)) (addrlen : ℕ)
      → Holds addr addrlen
      → addrlen ≤ sockaddr_max_size
      → KeepsSound sys (connect_body addr addrlen)
  unfolding connect_body
  connect_body-KeepsSound addr addrlen held fits i c honest h =
      let stream = c.sock.type == sock_stream in
      let dgram = c.sock.type == sock_dgram in
      if-Returns (not c.sock.blocking && c.sock.connecting) _ _ _ (λ _. Keeps-errno sys c _ h)
        (λ _.
          if-Returns (c.sock.connected && stream) _ _ _ (λ _. Keeps-errno sys c _ h)
            (λ _.
              if-Returns c.sock.listening _ _ _ (λ _. Keeps-errno sys c _ h)
                (λ _.
                  if-Returns
                    ((stream || (dgram && is_given addr)) && not (addrlen_ok i c.sock addrlen)) _ _
                    _ (λ _. Keeps-errno sys c _ h)
                    (λ _.
                      if-Returns dgram _ _ _ (λ _. connect_dgram-Keeps addr addrlen c held fits h)
                        (λ _. connect_stream-Keeps addr addrlen i c held fits honest h)))))
