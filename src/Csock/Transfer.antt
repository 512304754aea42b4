-- ===== src/Csock/Transfer.antt =====
-- src/csock/c_send.c, c_recv.c and c_accept.c.
use libsocket.Base.{
  ℕ, zero, suc, ◌+◌, Bool, true, false, not, ◌&&◌, ◌==◌, ltb, leb, if◌then◌else◌, Option, none,
  some, List, ◌∷◌, length, memcpy, bzero, replicate, M,
}
use libsocket.Base.Int.{ℤ, pos, negsuc, minus_one, is_negative, ◌==ℤ◌}
use libsocket.Csock.Calls.{set_blocking, bind}
use libsocket.Csock.Descriptors.{fd_get_usage, mark}
use libsocket.Csock.Errors.{csock_errno, fd_inuse, would_block}
use libsocket.Csock.Names.{Inet, getsockname}
use libsocket.Csock.Types.{Driver, Csock, fail, sin_port, sin_addr, sockaddr_in_size, store_in}
use libsocket.Layer.Types.{einval, sock_dgram}

-- An error of the driver: those above -CSOCK_ERR_MIN come from the TDI, and their sign is changed.
abbrev pub tdi_error : ℤ → ℤ
tdi_error (pos n) = pos n
tdi_error (negsuc n) = if ltb (suc n) 256 then pos (suc n) else negsuc n

module _ {E : Type 0} (driver : Driver E) where
  unfoldable pub send : List ℕ → ℕ → ℕ → M (Csock E) ℤ
  send msg len flags c =
      let (ret, env) = driver.send c.fd msg len c.env in
      let c1 : Csock E = record c { env = env } in
      if not (flags == 0)
      then fail einval c
      else if is_negative ret
      then fail (csock_errno (tdi_error ret) c.errno) c1
      else some (ret, c1)

  -- `sendto` past the binding of the socket; the sent length is a `size_t`.
  unfoldable pub sendto_bound : List ℕ → ℕ → ℕ → List ℕ → M (Csock E) ℤ
  sendto_bound msg len flags to c =
      let (got, env) = driver.sendto c.fd (sin_addr to) (sin_port to) msg len c.env in
      let c1 : Csock E = record c { env = env } in
      if not (flags == 0)
      then fail einval c
      else if is_negative got.0
      then fail (csock_errno (tdi_error got.0) c.errno) c1
      else some (pos got.1, c1)

  -- INADDR_ANY with port 0.
  abbrev pub any_address : List ℕ
  any_address = 2 ∷ replicate 15 0

  -- What `bind` of the layer would do, once the driver has bound the socket.
  unfoldable pub name_bound : List Inet → Csock E → Option (Csock E)
  name_bound inet c = elim (getsockname driver inet any_address sockaddr_in_size c) [
    | none ↦ none
    | some ((ret, name, len), c') ↦ elim (memcpy c'.sock.sockname name len) [
      | none ↦ none
      | some out ↦
          some (record c' {
            sock = record c'.sock { sockname = out; socknamelen = len; bound = true };
          })
    ]
  ]

  unfoldable pub bind_any : List Inet → M (Csock E) ℤ
  unfolding name_bound
  bind_any inet c = elim (bind driver any_address sockaddr_in_size c) [
    | none ↦ none
    | some (ret, c') ↦
        if ret ==ℤ pos 0
        then elim (name_bound inet c') [ none ↦ none | some c'' ↦ some (pos 0, c'') ]
        else elim (bzero c'.sock.sockname 16) [
          | none ↦ none
          | some out ↦ some (
            ret,
            record c' { sock = record c'.sock { sockname = out; socknamelen = 0; bound = false } },
          )
        ]
  ]

  -- `__csock_sendto`; a null or a short `to` is followed.
  unfoldable pub sendto : List Inet → List ℕ → ℕ → ℕ → Option (List ℕ) → ℕ → M (Csock E) ℤ
  unfolding sendto_bound bind_any
  sendto inet msg len flags none tolen c = none
  sendto inet msg len flags (some to) tolen c =
      if not (leb 8 (length to))
      then none
      else if c.sock.type == sock_dgram && not c.sock.bound
      then elim (bind_any inet c) [
        | none ↦ none
        | some (ret, c') ↦
            if ret ==ℤ minus_one then some (minus_one, c') else sendto_bound msg len flags to c'
      ]
      else sendto_bound msg len flags to c

  unfoldable pub recv : List ℕ → ℕ → ℕ → M (Csock E) (ℤ × List ℕ)
  recv buf len flags c =
      let (got, env) = driver.recv c.fd buf len c.env in
      let c1 : Csock E = record c { env = env } in
      if not (flags == 0)
      then some ((minus_one, buf), record c { errno = einval })
      else if is_negative got.0
      then some ((minus_one, got.2), record c1 { errno = csock_errno got.0 c.errno })
      else some ((pos got.1, got.2), c1)

  -- The driver's mode is inverted around the call in versions before 1.
  abbrev pub flip : Bool → Csock E → Csock E
  flip nonblocking c = if c.version == 0 then (set_blocking driver nonblocking c).1 else c

  abbrev Received : Type 0
  Received = ℤ × List ℕ × Option (List ℕ × ℕ)

  unfoldable pub recvfrom_named : List ℕ → ℕ → Option (List ℕ × ℕ) → M (Csock E) Received
  recvfrom_named buf len from c =
      let flag = c.sock.blocking in
      let c1 = flip flag c in
      let (got, env) = driver.recvfrom c1.fd buf len c1.env in
      let c2 = flip (not flag) (record c1 { env = env }) in
      let c3 : Csock E =
        if is_negative got.0 then record c2 { errno = csock_errno got.0 c2.errno } else c2 in
      let ret : ℤ = if is_negative got.0 then minus_one else pos got.1 in
      elim from [
        | none ↦ some ((ret, got.2, none), c3)
        | some (addr, size) ↦ elim (store_in addr got.4 got.3) [
          | none ↦ none
          | some out ↦ some ((ret, got.2, some (out, sockaddr_in_size)), c3)
        ]
      ]

  -- `__csock_recvfrom`. The flags other than MSG_PEEK are refused.
  unfoldable pub recvfrom : List ℕ → ℕ → ℕ → Option (List ℕ × ℕ) → M (Csock E) Received
  unfolding recvfrom_named
  recvfrom buf len flags none c =
      if not (flags == 0) && not (flags == 2)
      then some ((minus_one, buf, none), record c { errno = einval })
      else recvfrom_named buf len none c
  recvfrom buf len flags (some (addr, size)) c =
      if ltb size sockaddr_in_size
      then some ((minus_one, buf, some (addr, size)), record c { errno = einval })
      else if not (flags == 0) && not (flags == 2)
      then some ((minus_one, buf, some (addr, size)), record c { errno = einval })
      else recvfrom_named buf len (some (addr, size)) c

  -- The driver's answer to a try to accept: while a blocking socket has no connection, the try is
  -- made again, with no bound of its own.
  unfoldable pub try_accept : ℕ → Bool → ℕ → Csock E → Option ((ℤ × ℕ × ℕ) × Csock E)
  try_accept zero blocking i c = none
  try_accept (suc fuel) blocking i c =
      let (got, env) = driver.accept c.fd i c.env in
      let again = try_accept fuel blocking i (record c { env = env }) in
      if blocking && got.0 ==ℤ would_block then again else some (got, record c { env = env })

  -- The loop over the descriptors: the driver's last answer, and the new descriptor.
  unfoldable pub accept_fds :
      ℕ → ℕ → ℕ → Bool → ℤ × ℕ × ℕ → Csock E → Option ((ℤ × ℕ × ℕ) × ℤ × Csock E)
  unfolding try_accept
  accept_fds fuel zero i blocking last c = some (last, minus_one, c)
  accept_fds fuel (suc n) i blocking last c =
      let (busy, c1) = fd_get_usage driver i c in
      elim busy [
        | true ↦ accept_fds fuel n (1 + i) blocking last c1
        | false ↦ elim (try_accept fuel blocking i c1) [
          | none ↦ none
          | some (got, c2) ↦ elim (got.0 ==ℤ pos 0) [
            | true ↦ some (got, pos i, c2)
            | false ↦ elim (got.0 ==ℤ fd_inuse) [
              | true ↦ accept_fds fuel n (1 + i) blocking got (mark driver i c2)
              | false ↦ some (got, minus_one, c2)
            ]
          ]
        ]
      ]

  -- The result with the new `csock->fd`, the address and its length.
  abbrev Answer : Type 0
  Answer = ℤ × ℤ × List ℕ × ℕ

  -- What follows the loop.
  unfoldable pub accept_take : Bool → ℤ × ℕ × ℕ → ℤ → List ℕ → ℕ → M (Csock E) Answer
  accept_take blocking got nfd addr addrlen c =
      let c1 = if blocking then (set_blocking driver false c).1 else c in
      if not (got.0 ==ℤ pos 0)
      then some ((minus_one, nfd, addr, addrlen), record c1 { errno = csock_errno got.0 c1.errno })
      else elim (store_in addr got.1 got.2) [
        | none ↦ none
        | some out ↦ elim nfd [
          | negsuc n ↦ none
          | pos fd ↦ some ((pos 0, pos fd, out, sockaddr_in_size), mark driver fd c1)
        ]
      ]

  -- `__csock_accept`. The test behind `malloc` is of the listening socket's data, so that `memory`
  -- for the new one must be there.
  unfoldable pub accept : ℕ → Bool → List ℕ → ℕ → M (Csock E) Answer
  unfolding accept_fds accept_take
  accept fuel memory addr addrlen c =
      if ltb addrlen sockaddr_in_size
      then some ((minus_one, minus_one, addr, addrlen), record c { errno = einval })
      else if not memory
      then none
      else let blocking = c.sock.blocking in
        let c1 = if blocking then (set_blocking driver true c).1 else c in
        elim (accept_fds fuel 31 1 blocking (minus_one, 0, 0) c1) [
          | none ↦ none
          | some (got, nfd, c2) ↦ accept_take blocking got nfd addr addrlen c2
        ]
