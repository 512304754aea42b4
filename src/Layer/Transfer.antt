-- ===== src/Layer/Transfer.antt =====
-- src/send.c, src/recv.c and src/select.c.
use libsocket.Base.{
  is_given, ℕ, zero, suc, Bool, true, false, not, ◌&&◌, ◌||◌, ◌==◌, if◌then◌else◌, Option, none,
  some, List, ◌∷◌, M,
}
use libsocket.Base.Int.{ℤ, pos, minus_one}
use libsocket.Layer.Interface.{Ctx, Interface, fail}
use libsocket.Layer.Types.{
  einval, efault, enotconn, epipe, eisconn, edestaddrreq, eopnotsupp, sa_family, sock_stream,
  sock_dgram,
}
use libsocket.Layer.World.{Sys, World, on_socket}

-- `memcmp (a, b, n) != 0`; `none` is a read beyond the end of one of the two.
unfoldable pub memcmp_ne : List ℕ → List ℕ → ℕ → Option Bool
memcmp_ne xs ys zero = some false
memcmp_ne (x ∷ xs) (y ∷ ys) (suc n) = elim (memcmp_ne xs ys n) [
  | none ↦ none
  | some d ↦ some (not (x == y) || d)
]
memcmp_ne xs ys (suc n) = none

abbrev pub or_else : Option (List ℕ) → List ℕ → List ℕ
or_else none addr = addr
or_else (some to) addr = to

-- `some` address, and the other length if there is none.
abbrev pub len_or_else : Option (List ℕ) → ℕ → ℕ → ℕ
len_or_else none tolen len = len
len_or_else (some to) tolen len = tolen

module _ {E : Type 0} (sys : Sys E) where
  -- `raise (SIGPIPE); errno = EPIPE; return (-1);`
  abbrev broken_pipe : M (Ctx E) ℤ
  broken_pipe c = fail epipe (record c { env = sys.raise_sigpipe c.env })

  -- The branch for stream sockets.
  unfoldable pub send_stream : List ℕ → ℕ → ℕ → Option (List ℕ) → ℕ → Interface E → M (Ctx E) ℤ
  send_stream msg len flags to tolen i c =
      let my_to = or_else to c.sock.peername in
      let my_tolen = len_or_else to tolen c.sock.peernamelen in
      if not c.sock.connected
      then fail enotconn c
      else if not (my_tolen == c.sock.peernamelen)
      then fail eisconn c
      else elim (memcmp_ne c.sock.peername my_to my_tolen) [
        | none ↦ none
        | some true ↦ fail eisconn c
        | some false ↦
            if not c.sock.outbound
            then broken_pipe c
            else elim i.send [ none ↦ fail eopnotsupp c | some f ↦ some (f msg len flags c) ]
      ]

  -- What is left once the destination is known: datagram and raw sockets.
  unfoldable pub send_out : List ℕ → ℕ → ℕ → Option (List ℕ) → ℕ → Interface E → M (Ctx E) ℤ
  send_out msg len flags my_to my_tolen i c =
      if not c.sock.outbound then fail epipe c else elim i.sendto [
        | none ↦ fail eopnotsupp c
        | some f ↦ some (f msg len flags my_to my_tolen c)
      ]

  unfoldable pub send_dgram : List ℕ → ℕ → ℕ → Option (List ℕ) → ℕ → Interface E → M (Ctx E) ℤ
  unfolding send_out
  send_dgram msg len flags to tolen i c =
      if c.sock.type == sock_dgram && not (is_given to)
      then if sa_family c.sock.peername == 0
        then fail edestaddrreq c
        else send_out msg len flags (some c.sock.peername) c.sock.peernamelen i c
      else send_out msg len flags to tolen i c

  unfoldable pub sendto_body :
      Option (List ℕ) → ℕ → ℕ → Option (List ℕ) → ℕ → Interface E → M (Ctx E) ℤ
  unfolding send_stream send_dgram
  sendto_body none len flags to tolen i c = fail efault c
  sendto_body (some msg) len flags to tolen i c =
      if is_given to && tolen == 0
      then fail einval c
      else if not c.sock.outbound
      then broken_pipe c
      else if c.sock.type == sock_stream
      then send_stream msg len flags to tolen i c
      else send_dgram msg len flags to tolen i c

  unfoldable pub sendto : ℤ → Option (List ℕ) → ℕ → ℕ → Option (List ℕ) → ℕ → M (World E) ℤ
  sendto s msg len flags to tolen = on_socket sys minus_one s (sendto_body msg len flags to tolen)

  unfoldable pub send : ℤ → Option (List ℕ) → ℕ → ℕ → M (World E) ℤ
  unfolding sendto
  send s msg len flags = sendto s msg len flags none 0

  unfoldable pub sendmsg : M (World E) ℤ
  sendmsg w = some (minus_one, record w { errno = eopnotsupp })

-- A count, or -1, with the caller's buffer.
abbrev pub Received : Type 0
Received = ℤ × Option (List ℕ)

-- The same with the place for the sender's address and its length, where there is one.
abbrev pub ReceivedFrom : Type 0
ReceivedFrom = ℤ × Option (List ℕ) × Option (List ℕ × ℕ)

module _ {E : Type 0} where
  unfoldable pub recv_body : Option (List ℕ) → ℕ → ℕ → Interface E → M (Ctx E) Received
  recv_body buf len flags i c =
      if c.sock.type == sock_stream && not c.sock.connected
      then some ((minus_one, buf), record c { errno = enotconn })
      else elim buf [
        | none ↦ some ((minus_one, none), record c { errno = efault })
        | some b ↦ if not c.sock.inbound then some ((pos 0, some b), c) else elim i.recv [
          | none ↦ some ((minus_one, some b), record c { errno = eopnotsupp })
          | some f ↦ let (out, c') = f b len flags c in some ((out.0, some out.1), c')
        ]
      ]

  -- The flag says that `from` is given and `fromlen` is null.
  unfoldable pub recvfrom_body :
      Option (List ℕ) → ℕ → ℕ → Bool → Option (List ℕ × ℕ) → Interface E → M (Ctx E) ReceivedFrom
  recvfrom_body none len flags lost from i c =
      some ((minus_one, none, from), record c { errno = efault })
  recvfrom_body (some b) len flags lost from i c =
      if lost
      then some ((minus_one, some b, from), record c { errno = efault })
      else if not c.sock.inbound
      then some ((pos 0, some b, from), c)
      else elim i.recvfrom [
        | none ↦ some ((minus_one, some b, from), record c { errno = eopnotsupp })
        | some f ↦ let (out, c') = f b len flags from c in some ((out.0, some out.1, out.2), c')
      ]

  unfoldable pub select_body : ℕ → Interface E → M (Ctx E) ℤ
  select_body event i c = elim i.select [ none ↦ fail eopnotsupp c | some f ↦ some (f event c) ]

module _ {E : Type 0} (sys : Sys E) where
  unfoldable pub recv : ℤ → Option (List ℕ) → ℕ → ℕ → M (World E) Received
  recv s buf len flags = on_socket sys (minus_one, buf) s (recv_body buf len flags)

  unfoldable pub recvfrom :
      ℤ → Option (List ℕ) → ℕ → ℕ → Bool → Option (List ℕ × ℕ) → M (World E) ReceivedFrom
  recvfrom s buf len flags lost from =
      on_socket sys (minus_one, buf, from) s (recvfrom_body buf len flags lost from)

  unfoldable pub recvmsg : M (World E) ℤ
  recvmsg w = some (minus_one, record w { errno = eopnotsupp })

  unfoldable pub selectsocket : ℤ → ℕ → M (World E) ℤ
  selectsocket s event = on_socket sys minus_one s (select_body event)
