-- ===== src/Layer/Laws/Connection.antt =====
-- The outcomes of `connect`, src/connct.c, on a stream socket.
use libsocket.Base.{
  ℕ, true, false, not, ◌&&◌, ap, refl, subst, ◌∙◌, ◌==◌, Option, none, some, List, ◌≡◌, ◌≢◌, ◌⊎◌,
  inl, inr, arith, Bool-cases, Option-cases, ◌>>=◌, ◌>>◌,
}
use libsocket.Base.Int.{ℤ, pos, minus_one, ◌==ℤ◌}
use libsocket.Layer.Connect.{
  still_waiting, connect_name, connect_mark, connect_peer, connect_clear, connect_return,
  connect_unnamed, connect_finish, connect_stream, connect_body,
}
use libsocket.Layer.Interface.{Ctx, Interface}
use libsocket.Layer.Types.{einprogress, is_ewouldblock, sa_family, sock_stream}

module _ {E : Type 0} where
  -- The connection is under way: the interface has asked to wait, and the peer's address is kept.
  pub record IsPending (addrlen : ℕ) (r : ℤ) (c : Ctx E) : Type 0 where
    pub failed : r ≡ minus_one
    pub reason : c.errno ≡ einprogress
    pub connecting : c.sock.connecting ≡ true
    pub unconnected : c.sock.connected ≡ false
    pub peer : c.sock.peernamelen ≡ addrlen

  -- The connection stands.
  pub record IsMade (r : ℤ) (c : Ctx E) : Type 0 where
    pub no_failure : r ≢ minus_one
    pub connected : c.sock.connected ≡ true
    pub settled : c.sock.connecting ≡ false

  -- The names are forgotten.
  pub record IsCleared (c : Ctx E) : Type 0 where
    pub unconnected : c.sock.connected ≡ false
    pub no_name : c.sock.socknamelen ≡ 0
    pub no_peer : c.sock.peernamelen ≡ 0

  -- What `connect` makes of the answer `r0` of the interface, which leaves `c0`: the connection
  -- stands exactly on an answer of 0.
  abbrev pub Outcome : ℕ → ℤ → Ctx E → ℤ → Ctx E → Type 0
  Outcome addrlen r0 c0 r c =
      ((r0 ≡ pos 0) × IsMade r c)
      ⊎ ((r0 ≢ pos 0) × (still_waiting r0 c0 ≡ true) × IsPending addrlen r c)
      ⊎ ((r0 ≢ pos 0) × (still_waiting r0 c0 ≡ false) × (r ≡ r0) × IsCleared c)

  mark-IsMade :
      (r : ℤ) (c c' : Ctx E) (r' : ℤ)
      → r ≢ minus_one
      → elim (connect_mark r c) [ none ↦ none | some (a, d) ↦ connect_return a d ] ≡ some (r', c')
      → IsMade r' c'
  unfolding connect_mark connect_return
  mark-IsMade r c c' r' n h = ground arith

  mark-IsPending :
      (r : ℤ) (c c' : Ctx E) (r' : ℤ)
      → still_waiting r c ≡ true
      → elim (connect_mark r c) [ none ↦ none | some (a, d) ↦ connect_return a d ] ≡ some (r', c')
      → IsPending c.sock.peernamelen r' c'
  unfolding connect_mark connect_return
  mark-IsPending r c c' r' n h = ground arith

  clear-IsCleared :
      (r : ℤ) (c c' : Ctx E) (r' : ℤ)
      → still_waiting r c ≡ false
      → elim (connect_clear r c) [ none ↦ none | some (a, d) ↦ connect_return a d ] ≡ some (r', c')
      → (r' ≡ r) × IsCleared c'
  unfolding connect_clear connect_return
  clear-IsCleared r c c' r' e h = ground arith

  name-answer :
      (i : Interface E) (c d : Ctx E) (a : ℤ)
      → connect_name i (pos 0) c ≡ some (a, d)
      → a ≢ minus_one
  unfolding connect_name connect_unnamed
  name-answer i c d a h = ground arith

  named-IsMade :
      (i : Interface E) (c c' : Ctx E) (r' : ℤ)
      → (connect_name i (pos 0) >>= connect_mark >>= connect_return) c ≡ some (r', c')
      → IsMade r' c'
  named-IsMade i c c' r' h = elim (Option-cases (connect_name i (pos 0) c)) [
    | inl e ↦ cc (rw (e, ◌>>=◌) at h)
    | inr ((a, d), e) ↦ mark-IsMade a d c' r' (name-answer i c d a e) (rw (e, ◌>>=◌) at h)
  ]

  unnamed-same :
      (i : Interface E) (r : ℤ) (c : Ctx E) → r ≢ pos 0 → connect_name i r c ≡ some (r, c)
  unfolding connect_name
  unnamed-same i r c n = ground arith

  peer-kept :
      (addr : List ℕ) (addrlen : ℕ) (c d : Ctx E)
      → connect_peer addr addrlen c ≡ some (tt, d)
      → (d.sock.peernamelen ≡ addrlen) × (d.sock.blocking ≡ c.sock.blocking) × (d.errno ≡ c.errno)
  unfolding connect_peer
  peer-kept addr addrlen c d h = ground arith

  asked-IsMade :
      (addr : List ℕ) (addrlen : ℕ) (i : Interface E) (r : ℤ) (c c' : Ctx E) (r' : ℤ)
      → r ≡ pos 0
      → (connect_peer addr addrlen >> connect_name i r >>= connect_mark >>= connect_return) c
        ≡ some (r', c')
      → IsMade r' c'
  asked-IsMade addr addrlen i r c c' r' z h = elim (Option-cases (connect_peer addr addrlen c)) [
    | inl e ↦ cc (rw (e, ◌>>=◌) at h)
    | inr ((t, d), e) ↦ named-IsMade i d c' r' (rw (e, z, ◌>>=◌) at h)
  ]

  waiting-same :
      (addrlen : ℕ) (r : ℤ) (c d : Ctx E)
      → (d.sock.peernamelen ≡ addrlen) × (d.sock.blocking ≡ c.sock.blocking) × (d.errno ≡ c.errno)
      → still_waiting r c ≡ true
      → still_waiting r d ≡ true
  waiting-same addrlen r c d (n, b, e) w =
      ap (λ x. r ==ℤ minus_one && (not x && is_ewouldblock d.errno)) b
      ∙ ap (λ x. r ==ℤ minus_one && (not c.sock.blocking && is_ewouldblock x)) e
      ∙ w

  asked-IsPending :
      (addr : List ℕ) (addrlen : ℕ) (i : Interface E) (r : ℤ) (c c' : Ctx E) (r' : ℤ)
      → r ≢ pos 0
      → still_waiting r c ≡ true
      → (connect_peer addr addrlen >> connect_name i r >>= connect_mark >>= connect_return) c
        ≡ some (r', c')
      → IsPending addrlen r' c'
  asked-IsPending addr addrlen i r c c' r' n w h =
      elim (Option-cases (connect_peer addr addrlen c)) [
        | inl e ↦ cc (rw (e, ◌>>=◌) at h)
        | inr ((t, d), e) ↦
            let kept = peer-kept addr addrlen c d e in
            subst (λ x. IsPending x r' c') kept.0
              (mark-IsPending r d c' r' (waiting-same addrlen r c d kept w)
                (rw (e, ◌>>=◌, unnamed-same i r d n) at h))
      ]

  connect_finish-Outcome :
      (addr : List ℕ) (addrlen : ℕ) (i : Interface E) (r : ℤ) (c c' : Ctx E) (r' : ℤ)
      → connect_finish addr addrlen i r c ≡ some (r', c')
      → Outcome addrlen r c r' c'
  unfolding connect_finish
  connect_finish-Outcome addr addrlen i r c c' r' h = elim (Bool-cases (r ==ℤ pos 0)) [
    | inl z ↦ inl (ground arith, asked-IsMade addr addrlen i r c c' r' (ground arith) (rw z at h))
    | inr z ↦ elim (Bool-cases (still_waiting r c)) [
      | inl w ↦ inr (
          inl (
            ground arith,
            w,
            asked-IsPending addr addrlen i r c c' r' (ground arith) w (rw (z, w) at h),
          ))
      | inr w ↦
          let done = clear-IsCleared r c c' r' w (rw (z, w) at h) in
          inr (inr (ground arith, w, done.0, done.1))
    ]
  ]

  -- The checks refused the call: -1 and an error, and nothing else is changed.
  abbrev pub IsRefused : Ctx E → ℤ → Ctx E → Type 0
  IsRefused c r c' = (r ≡ minus_one) × (c' ≡ record c { errno = c'.errno })

  -- The interface was asked to connect to the address, and what was made of its answer.
  abbrev pub Asked : Option (List ℕ) → ℕ → Interface E → Ctx E → ℤ → Ctx E → Type 0
  Asked addr addrlen i c r c' =
      (a : List ℕ) × (f : List ℕ → ℕ → Ctx E → ℤ × Ctx E) × (addr ≡ some a)
      × (i.connect ≡ some f)
      × Outcome addrlen (f a addrlen c).0 (f a addrlen c).1 r c'

  connect_stream-Outcome :
      (addr : Option (List ℕ)) (addrlen : ℕ) (i : Interface E) (c c' : Ctx E) (r : ℤ)
      → connect_stream addr addrlen i c ≡ some (r, c')
      → IsRefused c r c' ⊎ Asked addr addrlen i c r c'
  unfolding connect_stream
  connect_stream-Outcome none addrlen i c c' r h = inl (ground arith)
  connect_stream-Outcome (some a) addrlen i c c' r h =
      elim (Bool-cases (not (sa_family a == c.sock.family))) [
        | inl e ↦ inl (ground arith)
        | inr e ↦ elim (Option-cases i.connect) [
          | inl n ↦ inl (ground arith)
          | inr (f, n) ↦ inr (
            a,
            f,
            refl,
            n,
            connect_finish-Outcome a addrlen i (f a addrlen c).0 (f a addrlen c).1 c' r
                (ground arith),
          )
        ]
      ]

  -- `connect` on a stream socket: the checks refuse it with -1 and change nothing but `errno`; or
  -- the interface has been asked to connect to the address. On its answer 0 the result is not -1 and
  -- the socket is connected and no longer connecting. On another answer that is a -1 with EWOULDBLOCK
  -- of a socket that does not block, the result is -1 with EINPROGRESS, and the socket is connecting,
  -- not connected and keeps the length of the peer's address. On any other answer the result is that
  -- answer, and the socket is unconnected with the lengths of both names 0.
  pub connect_body-Outcome :
      (addr : Option (List ℕ)) (addrlen : ℕ) (i : Interface E) (c c' : Ctx E) (r : ℤ)
      → c.sock.type ≡ sock_stream
      → connect_body addr addrlen i c ≡ some (r, c')
      → IsRefused c r c' ⊎ Asked addr addrlen i c r c'
  unfolding connect_body
  connect_body-Outcome addr addrlen i c c' r t h =
      ground (arith, connect_stream-Outcome addr addrlen i c c' r)
