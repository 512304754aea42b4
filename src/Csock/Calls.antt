-- ===== src/Csock/Calls.antt =====
-- src/csock/c_bind.c, c_listen.c, c_connct.c, c_shtdwn.c, c_sockpr.c, c_select.c, c_ioctl.c,
-- c_fcntl.c, c_nblkio.c and the checks of c_initnt.c.
use libsocket.Base.{
  ℕ, zero, suc, Bool, true, false, not, ◌&&◌, ◌||◌, ◌==◌, ltb, if◌then◌else◌, Option, none, some,
  List, length, leb, M,
}
use libsocket.Base.Int.{ℤ, pos, negsuc, minus_one, ◌==ℤ◌}
use libsocket.Csock.Errors.{csock_errno}
use libsocket.Csock.Types.{Driver, Csock, fail, sin_port, sin_addr, sockaddr_in_size}
use libsocket.Layer.Types.{
  Socket, einval, eopnotsupp, eafnosupport, af_inet, sock_stream, sock_dgram, ipproto_tcp,
  ipproto_udp,
}

-- CSOCK_RECV_BUFSIZE, FD_WRITE.
abbrev pub recv_bufsize : ℕ
recv_bufsize = 32768

abbrev pub fd_write : ℕ
fd_write = 2

-- FIONBIO and FIONREAD with their parameter, and any other request.
pub data Request : Type 0 where
  fionbio : ℕ → Request
  fionread : Request
  other_request : Request

-- F_SETFL with whether O_NONBLOCK is in the request, F_GETFL, and any other command.
pub data Command : Type 0 where
  f_setfl : Bool → Command
  f_getfl : Command
  other_command : Command

-- What every call does with the driver's `ret`: `if (ret != 0) { errno = ...; ret = -1; }`.
unfoldable pub finish : {E : Type 0} → ℤ → M (Csock E) ℤ
finish ret c = if ret ==ℤ pos 0 then some (pos 0, c) else fail (csock_errno ret c.errno) c

-- The parts of an address that the driver gets; `none` reads beyond it.
unfoldable pub with_address : {E : Type 0} → (ℕ → ℕ → M (Csock E) ℤ) → List ℕ → M (Csock E) ℤ
with_address call a c = if leb 8 (length a) then call (sin_addr a) (sin_port a) c else none

module _ {E : Type 0} (driver : Driver E) where
  unfoldable pub bind : List ℕ → ℕ → M (Csock E) ℤ
  unfolding finish with_address
  bind my_addr addrlen =
      with_address
        (λ addr port c.
          let (ret, env) = driver.bind c.fd addr port c.env in finish ret (record c { env = env }))
        my_addr

  unfoldable pub listen : ℤ → M (Csock E) ℤ
  unfolding finish
  listen backlog c =
      let (ret, env) = driver.listen c.fd backlog c.env in finish ret (record c { env = env })

  unfoldable pub connect : List ℕ → ℕ → M (Csock E) ℤ
  unfolding finish with_address
  connect serv_addr addrlen c =
      if not c.sock.blocking
      then fail eopnotsupp c
      else with_address
          (λ addr port c.
            let (ret, env) = driver.connect c.fd addr port c.env in
            finish ret (record c { env = env }))
          serv_addr c

  unfoldable pub shutdown : ℤ → M (Csock E) ℤ
  shutdown how c = some (pos 0, c)

  unfoldable pub socketpair : M (Csock E) ℤ
  socketpair c = fail eafnosupport c

  -- One event is asked for; the driver says whether the descriptor's bit is in what it gives back.
  unfoldable pub select : ℕ → M (Csock E) ℤ
  select event c =
      let (got, env) = driver.select c.fd event c.env in
      let c1 : Csock E = record c { env = env } in
      if got.0 ==ℤ pos 0
      then some ((if got.1 then pos 1 else pos 0), c1)
      else fail (csock_errno got.0 c.errno) c1

  -- `__csock_select_wait` has no bound of its own.
  unfoldable pub select_wait : ℕ → ℕ → M (Csock E) ℤ
  unfolding select
  select_wait zero event c = none
  select_wait (suc fuel) event c = elim (select event c) [
    | none ↦ none
    | some (ret, c') ↦ if ret ==ℤ pos 0 then select_wait fuel event c' else some (ret, c')
  ]

  -- FIONBIO: the mode is kept in the descriptor too.
  unfoldable pub set_blocking : Bool → Csock E → ℤ × Csock E
  set_blocking nonblocking c =
      let (ret, env) = driver.set_nonblocking c.fd nonblocking c.env in
      if ret ==ℤ pos 0
      then (pos 0, record c { sock = record c.sock { blocking = not nonblocking }; env = env })
      else (minus_one, record c { errno = csock_errno ret c.errno; env = env })

  -- `__csock_ioctl`: `none` is a request that is not handled, and the second part is what FIONREAD
  -- stores. FIONREAD on another socket than a stream leaves `*rv` as it is: `rv` is its value.
  unfoldable pub ioctl : ℤ → Request → M (Csock E) (Option ℤ × Option ℕ)
  unfolding set_blocking
  ioctl rv (fionbio param) c =
      let (ret, c') = set_blocking (param == 1) c in some ((some ret, none), c')
  ioctl rv fionread c =
      if c.sock.type == sock_stream
      then some ((some (pos 0), some recv_bufsize), c)
      else some ((some rv, none), record c { errno = einval })
  ioctl rv other_request c = some ((none, none), c)

  -- `__csock_fcntl`; O_NONBLOCK is the flag's value.
  unfoldable pub fcntl : ℕ → Command → M (Csock E) (Option ℤ)
  unfolding set_blocking
  fcntl o_nonblock (f_setfl wanted) c = let (ret, c') = set_blocking wanted c in some (some ret, c')
  fcntl o_nonblock f_getfl c = some (some (if c.sock.blocking then pos o_nonblock else pos 0), c)
  fcntl o_nonblock other_command c = some (none, c)

  abbrev is_positive : ℤ → Bool
  is_positive (pos zero) = false
  is_positive (pos (suc n)) = true
  is_positive (negsuc n) = false

  -- `__csock_nonblocking_check`.
  unfoldable pub nonblocking_check : M (Csock E) ℤ
  unfolding select
  nonblocking_check c =
      if c.sock.connecting && not c.sock.connected
      then elim (select fd_write c) [
        | none ↦ none
        | some (ret, c') ↦
            if is_positive ret
            then some (
              pos 0,
              record c' { sock = record c'.sock { connecting = false; connected = true } },
            )
            else some (pos 0, c')
      ]
      else some (pos 0, c)

-- `inited` is `csock_inited`.
unfoldable pub proto_check : Bool → ℕ → ℕ → ℕ → Bool
proto_check inited domain type protocol =
    inited
    && domain == af_inet
    && ((type == sock_stream && protocol == ipproto_tcp)
        || (type == sock_dgram && protocol == ipproto_udp))

unfoldable pub addrlen_check : Socket → ℕ → Bool
addrlen_check k addrlen =
    k.family == af_inet
    && (k.type == sock_stream || k.type == sock_dgram)
    && not (ltb addrlen sockaddr_in_size)
