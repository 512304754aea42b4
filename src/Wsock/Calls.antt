-- ===== src/Wsock/Calls.antt =====
-- src/wsock/w_listen.c, w_shtdwn.c, w_close.c, w_bind.c, w_sockpr.c, w_gscknm.c, w_gprnm.c, w_ioctl.c,
-- w_fcntl.c, and the checks of w_initnt.c.
use libsocket.Base.{
  ℕ, ◌+◌, ◌≤◌, ◌≡◌, arith, Bool, true, false, not, ◌&&◌, ◌||◌, ◌==◌, ltb, leb, if◌then◌else◌,
  Option, none, some, List, length, take, memcpy, M,
}
use libsocket.Base.Int.{ℤ, pos, minus_one}
use libsocket.Layer.Types.{
  Socket, enobufs, eafnosupport, af_inet, sock_stream, sock_dgram, ipproto_tcp, ipproto_udp,
}
use libsocket.Wsock.Types.{
  Request, fionbio, other_request, Driver, Wsock, is_failure, fail, callvxd,
}

-- F_SETFL with whether O_NONBLOCK is in the request, F_GETFL, and any other command.
pub data Command : Type 0 where
  f_setfl : Bool → Command
  f_getfl : Command
  other_command : Command

-- What is behind most commands: `if (_VXDError && _VXDError != 0xffff) return -1; return 0;`.
unfoldable pub finish : {E : Type 0} → M (Wsock E) ℤ
finish c = some ((if is_failure c.vxd_error then minus_one else pos 0), c)

-- The first bytes of a caller's memory, for the driver; `none` reads beyond it.
unfoldable pub given_bytes : List ℕ → ℕ → Option (List ℕ)
given_bytes xs n = if leb n (length xs) then some (take n xs) else none

-- sizeof (struct sockaddr), sizeof (struct sockaddr_in) and the size of `inetaddr`.
abbrev pub inetaddr_size : ℕ
inetaddr_size = 16

module _ {E : Type 0} (driver : Driver E) where
  unfoldable pub listen : ℤ → M (Wsock E) ℤ
  unfolding finish callvxd
  listen backlog c = let (e, env) = driver.listen c.socket backlog c.env in finish (callvxd e env c)

  unfoldable pub shutdown : ℤ → M (Wsock E) ℤ
  unfolding finish callvxd
  shutdown how c = let (e, env) = driver.shutdown c.socket how c.env in finish (callvxd e env c)

  unfoldable pub close : M (Wsock E) ℤ
  unfolding callvxd
  close c =
      let (e, env) = driver.close c.socket c.env in
      let c1 = callvxd e env c in
      if is_failure c1.vxd_error
      then some (minus_one, c1)
      else some (pos 0, record c1 { socket = 0; handle = 0 })

  -- The driver's address goes back to the caller, and its first 16 bytes into `inetaddr`.
  unfoldable pub bind : List ℕ → ℕ → M (Wsock E) (ℤ × List ℕ)
  unfolding callvxd given_bytes
  bind my_addr addrlen c = elim (given_bytes my_addr addrlen) [
    | none ↦ none
    | some bytes ↦
        let (got, env) = driver.bind c.socket bytes c.env in
        let c1 = callvxd got.0 env c in
        if is_failure c1.vxd_error
        then some ((minus_one, my_addr), c1)
        else elim (memcpy my_addr got.1 addrlen) [
          | none ↦ none
          | some out ↦ elim (memcpy c1.inetaddr out inetaddr_size) [
            | none ↦ none
            | some inetaddr ↦ some ((pos 0, out), record c1 { inetaddr = inetaddr })
          ]
        ]
  ]

  unfoldable pub socketpair : M (Wsock E) ℤ
  socketpair c = fail eafnosupport c

  -- `__wsock_getsockname` and `__wsock_getpeername`, with their command.
  unfoldable pub get_name :
      (ℕ → List ℕ → E → (ℕ × ℕ × List ℕ) × E) → List ℕ → ℕ → M (Wsock E) (ℤ × List ℕ × ℕ)
  unfolding callvxd given_bytes
  get_name command name namelen c =
      if ltb driver.size_p (namelen + 12)
      then some ((minus_one, name, namelen), record c { errno = enobufs })
      else elim (given_bytes name namelen) [
        | none ↦ none
        | some bytes ↦
            let (got, env) = command c.socket bytes c.env in
            let c1 = callvxd got.0 env c in
            if is_failure c1.vxd_error
            then some ((minus_one, name, namelen), c1)
            else elim (memcpy name got.2 got.1) [
              | none ↦ none
              | some out ↦ some ((pos 0, out, got.1), c1)
            ]
      ]

  unfoldable pub getsockname : List ℕ → ℕ → M (Wsock E) (ℤ × List ℕ × ℕ)
  unfolding get_name
  getsockname = get_name driver.getsockname

  unfoldable pub getpeername : List ℕ → ℕ → M (Wsock E) (ℤ × List ℕ × ℕ)
  unfolding get_name
  getpeername = get_name driver.getpeername

  abbrev pub is_fionbio : Request → Bool
  is_fionbio fionbio = true
  is_fionbio _ = false

  -- The call of a request that is known: `*rv` and `*param`.
  unfoldable pub ioctl_call : Request → ℕ → Wsock E → (ℤ × ℕ) × Wsock E
  unfolding callvxd
  ioctl_call request param c =
      let (got, env) = driver.ioctl c.socket request param c.env in
      let c1 = callvxd got.0 env c in
      if is_failure c1.vxd_error
      then ((minus_one, param), c1)
      else if is_fionbio request
      then ((pos 0, got.1), record c1 { sock = record c1.sock { blocking = got.1 == 0 } })
      else ((pos 0, got.1), c1)

  -- `__wsock_ioctl`: `none` is a request that is not handled.
  unfoldable pub ioctl : Request → ℕ → Wsock E → (Option ℤ × ℕ) × Wsock E
  unfolding ioctl_call
  ioctl other_request param c = ((none, param), c)
  ioctl request param c = let (out, c') = ioctl_call request param c in ((some out.0, out.1), c')

  -- `__wsock_fcntl` with the value of `*rv`: its own result is -1, which says that every command is
  -- handled. O_NONBLOCK is the flag's value.
  unfoldable pub fcntl : ℕ → ℤ → Command → Wsock E → (ℤ × ℤ) × Wsock E
  unfolding ioctl_call
  fcntl o_nonblock rv (f_setfl wanted) c =
      let (out, c') = ioctl_call fionbio (if wanted then 1 else 0) c in ((minus_one, out.0), c')
  fcntl o_nonblock rv f_getfl c =
      ((minus_one, (if c.sock.blocking then pos o_nonblock else pos 0)), c)
  fcntl o_nonblock rv other_command c = ((minus_one, rv), c)

-- `inited` is `wsock_inited`.
unfoldable pub proto_check : Bool → ℕ → ℕ → ℕ → Bool
proto_check inited domain type protocol =
    inited
    && domain == af_inet
    && ((type == sock_stream && protocol == ipproto_tcp)
        || (type == sock_dgram && protocol == ipproto_udp))

unfoldable pub addrlen_check : Socket → ℕ → Bool
addrlen_check k addrlen =
    k.family == af_inet
    && (k.type == sock_stream || k.type == sock_dgram)
    && not (ltb addrlen inetaddr_size)

pub given_bytes-given : (xs : List ℕ) (n : ℕ) → n ≤ length xs → given_bytes xs n ≡ some (take n xs)
unfolding given_bytes
given_bytes-given xs n h = ground arith
