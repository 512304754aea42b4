-- ===== src/Layer/Laws/Stopping.antt =====
-- `shutdown` of src/shtdwn.c, what follows it in src/send.c and src/recv.c, and src/listen.c.
use libsocket.Base.{ℕ, true, false, Option, none, some, List, ◌≡◌, ◌≢◌, ◌⊎◌, arith}
use libsocket.Base.Int.{ℤ, pos, minus_one}
use libsocket.Layer.Bind.{listen_body}
use libsocket.Layer.Interface.{Ctx, Interface}
use libsocket.Layer.Options.{shutdown_body, shut_rd, shut_wr, shut_rdwr}
use libsocket.Layer.Transfer.{sendto_body, recv_body, recvfrom_body}
use libsocket.Layer.Types.{epipe, sock_stream}
use libsocket.Layer.World.{Sys}

module _ {E : Type 0} (sys : Sys E) where
  -- After a `shutdown` of the sending side has returned 0, `sendto` of a message, with a usable
  -- destination or none, raises SIGPIPE and fails with EPIPE; the interface is not called and the
  -- descriptor stays as it is.
  pub send-shutdown :
      (how : ℤ) (i j : Interface E) (c c' : Ctx E) (msg : List ℕ) (len flags : ℕ)
      (to : Option (List ℕ)) (tolen : ℕ)
      → (how ≡ shut_wr) ⊎ (how ≡ shut_rdwr)
      → (to ≡ none) ⊎ (tolen ≢ 0)
      → shutdown_body how i c ≡ some (pos 0, c')
      → sendto_body sys (some msg) len flags to tolen j c'
        ≡ some (minus_one, record c' { errno = epipe; env = sys.raise_sigpipe c'.env })
  unfolding sendto_body shutdown_body
  send-shutdown how i j c c' msg len flags to tolen w t h = ground arith

  -- A send on a stream socket that does not return -1 was made on a connected socket whose sending
  -- side is open, and its result is that of the interface's `send`.
  pub sendto_body_stream :
      (i : Interface E) (f : List ℕ → ℕ → ℕ → Ctx E → ℤ × Ctx E) (c c' : Ctx E) (msg : List ℕ)
      (len flags : ℕ) (to : Option (List ℕ)) (tolen : ℕ) (r : ℤ)
      → c.sock.type ≡ sock_stream
      → i.send ≡ some f
      → r ≢ minus_one
      → sendto_body sys (some msg) len flags to tolen i c ≡ some (r, c')
      → (c.sock.connected ≡ true) × (c.sock.outbound ≡ true) × (f msg len flags c ≡ (r, c'))
  unfolding sendto_body
  sendto_body_stream i f c c' msg len flags to tolen r t e n h = ground arith

module _ {E : Type 0} where
  -- After a `shutdown` of the receiving side has returned 0, on a socket that is still connected,
  -- `recv` into a buffer returns 0, touches neither the buffer nor the socket, and does not call
  -- the interface. So does `recvfrom`, unless it has a place for an address and none for its length.
  pub recv-shutdown :
      (how : ℤ) (i j : Interface E) (c c' : Ctx E) (buf : List ℕ) (len flags : ℕ)
      (from : Option (List ℕ × ℕ))
      → (how ≡ shut_rd) ⊎ (how ≡ shut_rdwr)
      → c'.sock.connected ≡ true
      → shutdown_body how i c ≡ some (pos 0, c')
      → (recv_body (some buf) len flags j c' ≡ some ((pos 0, some buf), c'))
        × (recvfrom_body (some buf) len flags false from j c' ≡ some ((pos 0, some buf, from), c'))
  unfolding recv_body recvfrom_body shutdown_body
  recv-shutdown how i j c c' buf len flags from w t h = ground arith

  -- The sides of `c'` are those of `c`, but for the ones that are closed.
  abbrev pub Sides : ℤ → Ctx E → Ctx E → Type 0
  Sides how c c' =
      ((how ≡ shut_rd) × (c'.sock.inbound ≡ false) × (c'.sock.outbound ≡ c.sock.outbound))
      ⊎ (((how ≡ shut_wr) × (c'.sock.outbound ≡ false) × (c'.sock.inbound ≡ c.sock.inbound))
          ⊎ ((how ≡ shut_rdwr) × (c'.sock.inbound ≡ false) × (c'.sock.outbound ≡ false)))

  -- `shutdown` returns 0 only on a connected socket and for SHUT_RD, SHUT_WR or SHUT_RDWR; after
  -- the interface's call it closes just the sides that are named.
  pub shutdown_body-Sides :
      (how : ℤ) (i : Interface E) (f : ℤ → Ctx E → ℤ × Ctx E) (c c' : Ctx E)
      → i.shutdown ≡ some f
      → shutdown_body how i c ≡ some (pos 0, c')
      → (c.sock.connected ≡ true) × ((f how c).0 ≡ pos 0) × Sides how (f how c).1 c'
  unfolding shutdown_body
  shutdown_body-Sides how i f c c' e h = ground arith

  -- What `listen` with an entry `f` has done.
  abbrev pub Listened : ℤ → (ℤ → Ctx E → ℤ × Ctx E) → Ctx E → Ctx E → ℤ → Type 0
  Listened backlog f c c' r =
      ((r ≢ minus_one)
        × (c.sock.type ≡ sock_stream)
        × (c.sock.bound ≡ true)
        × (c'.sock.listening ≡ true)
        × (c'.sock.backlog ≡ backlog))
      ⊎ (((r ≡ minus_one) × (c' ≡ record c { errno = c'.errno }))
          ⊎ ((r ≡ minus_one) × (f backlog c ≡ (r, c'))))

  -- `listen` does not return -1 only on a bound stream socket; the socket then listens, with the
  -- backlog that was asked for. If it returns -1, either the interface was called and said so, or
  -- nothing but `errno` has changed.
  pub listen_body_outcome :
      (backlog : ℤ) (i : Interface E) (f : ℤ → Ctx E → ℤ × Ctx E) (c c' : Ctx E) (r : ℤ)
      → i.listen ≡ some f
      → listen_body backlog i c ≡ some (r, c')
      → Listened backlog f c c' r
  unfolding listen_body
  listen_body_outcome backlog i f c c' r e h = ground arith
