-- ===== src/Layer/Connect.antt =====
-- src/connct.c.
use libsocket.Base.{
  is_given, ℕ, Bool, true, false, not, ◌&&◌, ◌||◌, ◌==◌, if◌then◌else◌, Option, none, some, List, M,
  ◌>>=◌, ◌>>◌, memcpy, bzero,
}
use libsocket.Base.Int.{ℤ, pos, minus_one, ◌==ℤ◌}
use libsocket.Layer.Interface.{Ctx, Interface, fail}
use libsocket.Layer.Types.{
  einval, efault, eafnosupport, eopnotsupp, ealready, eisconn, einprogress, is_ewouldblock, Socket,
  sa_family, sock_stream, sock_dgram, sockaddr_common_size, sockaddr_max_size,
}
use libsocket.Layer.World.{Sys, World, on_socket}

module _ {E : Type 0} where
  -- `ret == -1`, on a socket that does not block, with `errno == EWOULDBLOCK`.
  abbrev pub still_waiting : ℤ → Ctx E → Bool
  still_waiting r c = r ==ℤ minus_one && (not c.sock.blocking && is_ewouldblock c.errno)

  unfoldable pub addrlen_ok : Interface E → Socket → ℕ → Bool
  addrlen_ok i k len = elim i.addrlen_check [ none ↦ false | some f ↦ f k len ]

  -- Datagram sockets: store or clear the address.
  unfoldable pub connect_dgram : Option (List ℕ) → ℕ → M (Ctx E) ℤ
  connect_dgram none addrlen c = elim (bzero c.sock.peername sockaddr_max_size) [
    | none ↦ none
    | some name ↦
        some (pos 0, record c { sock = record (c.sock) { peername = name; peernamelen = 0 } })
  ]
  connect_dgram (some addr) addrlen c =
      if not (sa_family addr == c.sock.family)
      then fail eafnosupport c
      else elim (memcpy c.sock.peername addr addrlen) [
        | none ↦ none
        | some name ↦
            some (
              pos 0,
              record c { sock = record (c.sock) { peername = name; peernamelen = addrlen } },
            )
      ]

  -- `ret = 0` after a failed `getsockname`, with the name cleared.
  unfoldable pub connect_unnamed : ℤ → M (Ctx E) ℤ
  connect_unnamed r c =
      if r ==ℤ minus_one
      then elim (bzero c.sock.sockname sockaddr_common_size) [
        | none ↦ none
        | some name ↦ some (pos 0, record c { sock = record (c.sock) { sockname = name } })
      ]
      else some (r, c)

  -- The name that the interface has given the socket, when the call has succeeded.
  unfoldable pub connect_name : Interface E → ℤ → M (Ctx E) ℤ
  unfolding connect_unnamed
  connect_name i r c =
      if r ==ℤ pos 0
      then elim i.getsockname [
        | none ↦ some (r, c)
        | some f ↦
            let (out, c') = f c.sock.sockname sockaddr_max_size c in
            connect_unnamed out.0
              (record c' { sock = record (c'.sock) { sockname = out.1; socknamelen = out.2 } })
      ]
      else some (r, c)

  unfoldable pub connect_mark : ℤ → M (Ctx E) ℤ
  connect_mark r c =
      if still_waiting r c
      then some (r, record c { sock = record (c.sock) { connecting = true; connected = false } })
      else some (r, record c { sock = record (c.sock) { connecting = false; connected = true } })

  unfoldable pub connect_peer : List ℕ → ℕ → M (Ctx E) (Unit {0})
  connect_peer addr addrlen c = elim (memcpy c.sock.peername addr addrlen) [
    | none ↦ none
    | some name ↦
        some (tt, record c { sock = record (c.sock) { peername = name; peernamelen = addrlen } })
  ]

  -- The call was unsuccessful: the details are cleared.
  unfoldable pub connect_clear : ℤ → M (Ctx E) ℤ
  connect_clear r c = elim (bzero c.sock.sockname sockaddr_common_size) [
    | none ↦ none
    | some name ↦ elim (bzero c.sock.peername sockaddr_common_size) [
      | none ↦ none
      | some peer ↦ some (
        r,
        record c {
          sock = record (c.sock) {
            sockname = name;
            peername = peer;
            socknamelen = 0;
            peernamelen = 0;
            connected = false;
          };
        },
      )
    ]
  ]

  unfoldable pub connect_return : ℤ → M (Ctx E) ℤ
  connect_return r c = if still_waiting r c then fail einprogress c else some (r, c)

  -- What follows the interface's call, which returned `r`.
  unfoldable pub connect_finish : List ℕ → ℕ → Interface E → ℤ → M (Ctx E) ℤ
  unfolding connect_peer connect_name connect_mark connect_clear connect_return
  connect_finish addr addrlen i r c =
      if r ==ℤ pos 0 || still_waiting r c
      then (connect_peer addr addrlen >> connect_name i r >>= connect_mark >>= connect_return) c
      else (connect_clear r >>= connect_return) c

  -- Stream sockets, and the types that are no datagrams.
  unfoldable pub connect_stream : Option (List ℕ) → ℕ → Interface E → M (Ctx E) ℤ
  unfolding connect_finish
  connect_stream none addrlen i c = fail efault c
  connect_stream (some addr) addrlen i c =
      if not (sa_family addr == c.sock.family) then fail eafnosupport c else elim i.connect [
        | none ↦ fail eopnotsupp c
        | some f ↦ let (r, c') = f addr addrlen c in connect_finish addr addrlen i r c'
      ]

  unfoldable pub connect_body : Option (List ℕ) → ℕ → Interface E → M (Ctx E) ℤ
  unfolding connect_dgram connect_stream addrlen_ok
  connect_body serv_addr addrlen i c =
      let stream = c.sock.type == sock_stream in
      let dgram = c.sock.type == sock_dgram in
      if not c.sock.blocking && c.sock.connecting
      then fail ealready c
      else if c.sock.connected && stream
      then fail eisconn c
      else if c.sock.listening
      then fail eopnotsupp c
      else if (stream || (dgram && is_given serv_addr)) && not (addrlen_ok i c.sock addrlen)
      then fail einval c
      else if dgram
      then connect_dgram serv_addr addrlen c
      else connect_stream serv_addr addrlen i c

module _ {E : Type 0} (sys : Sys E) where
  unfoldable pub connect : ℤ → Option (List ℕ) → ℕ → M (World E) ℤ
  connect s serv_addr addrlen = on_socket sys minus_one s (connect_body serv_addr addrlen)
