-- ===== src/Wsock/Transfer.antt =====
-- src/wsock/w_send.c, w_recv.c, w_connct.c and w_accept.c.
use libsocket.Base.{
  ℕ, min, Bool, true, false, not, ◌&&◌, ◌||◌, ◌==◌, if◌then◌else◌, Option, none, some, List, memcpy,
  M,
}
use libsocket.Base.Int.{ℤ, pos, minus_one, ◌==ℤ◌}
use libsocket.Layer.Types.{Errno, eagain, einprogress, enomem}
use libsocket.Wsock.Calls.{ioctl, given_bytes}
use libsocket.Wsock.Errors.{wsaewouldblock, will_block}
use libsocket.Wsock.Select.{select_wait, fd_read, fd_write, fd_accept}
use libsocket.Wsock.Types.{fionbio, Received, Driver, Wsock, is_failure, callvxd}

-- What `__wsock_recvfrom` leaves in the caller's variables.
pub record From : Type 0 where
  pub ret : ℤ
  pub buf : List ℕ
  pub from : Option (List ℕ)
  pub fromlen : Option ℕ

-- What `__wsock_accept` leaves, with the new descriptor's data, where there is memory for it.
pub record NewSocket : Type 0 where
  pub socket : ℕ
  pub handle : ℕ
  pub inetaddr : List ℕ

pub record Accepted : Type 0 where
  pub ret : ℤ
  pub nwsock : Option NewSocket
  pub addr : List ℕ
  pub addrlen : ℕ

-- `(_VXDError == WSAEWOULDBLOCK) || (_VXDError == 0xFFFF)`.
abbrev pub would_block : ℕ → Bool
would_block e = e == wsaewouldblock || e == will_block

-- `!flag`.
abbrev pub negated : ℕ → ℕ
negated flag = if flag == 0 then 1 else 0

abbrev pub is_retried : Errno → Bool
is_retried eagain = true
is_retried einprogress = true
is_retried _ = false

module _ {E : Type 0} (driver : Driver E) where
  -- `len`, cut to the size of the buffer.
  abbrev pub transfer_len : ℕ → ℕ
  transfer_len len = min len driver.size_d

  -- Both sending functions, with the address.
  unfoldable pub send_to : List ℕ → ℕ → ℕ → Option (List ℕ) → M (Wsock E) ℤ
  unfolding callvxd given_bytes
  send_to msg len flags to c = elim (given_bytes msg (transfer_len len)) [
    | none ↦ none
    | some bytes ↦
        let (got, env) = driver.send c.socket bytes flags to c.env in
        let c1 = callvxd got.0 env c in
        some ((if is_failure c1.vxd_error then minus_one else pos got.1), c1)
  ]

  unfoldable pub send : List ℕ → ℕ → ℕ → M (Wsock E) ℤ
  unfolding send_to
  send msg len flags = send_to msg len flags none

  unfoldable pub sendto : List ℕ → ℕ → ℕ → List ℕ → ℕ → M (Wsock E) ℤ
  unfolding send_to
  sendto msg len flags to tolen c = elim (given_bytes to tolen) [
    | none ↦ none
    | some address ↦ send_to msg len flags (some address) c
  ]

  -- WSOCK_RECV_CMD.
  unfoldable pub recv_call : ℕ → ℕ → Option ℕ → Wsock E → Received × Wsock E
  unfolding callvxd
  recv_call len flags addrlen c =
      let (got, env) = driver.recv c.socket (transfer_len len) flags addrlen c.env in
      (got.1, callvxd got.0 env c)

  -- The command, and the command again where it would block and the socket blocks: `none` for a
  -- return with -1. A second command that would block fails.
  unfoldable pub recv_wait : ℕ → ℕ → ℕ → Option ℕ → M (Wsock E) (Option Received)
  recv_wait fuel len flags addrlen c =
      let (got, c1) = recv_call len flags addrlen c in
      if would_block c1.vxd_error
      then if c1.sock.blocking
        then elim (select_wait driver fuel fd_read c1) [
          | none ↦ none
          | some (ret, c2) ↦
              let (again, c3) = recv_call len flags addrlen c2 in
              if ret ==ℤ minus_one
              then some (none, c2)
              else if c3.vxd_error == 0
              then some (some again, c3)
              else some (none, c3)
        ]
        else some (none, c1)
      else if c1.vxd_error == 0
      then some (some got, c1)
      else some (none, c1)

  unfoldable pub recv : ℕ → List ℕ → ℕ → ℕ → M (Wsock E) (ℤ × List ℕ)
  recv fuel buf len flags c = elim (recv_wait fuel len flags none c) [
    | none ↦ none
    | some (none, c') ↦ some ((minus_one, buf), c')
    | some (some got, c') ↦ elim (memcpy buf got.buffer got.count) [
      | none ↦ none
      | some out ↦ some ((pos got.count, out), c')
    ]
  ]

  -- The address, where there is room for one.
  unfoldable pub store_address :
      Received → List ℕ → Option (List ℕ) → ℕ → Wsock E → Option (From × Wsock E)
  store_address got out none fromlen c =
      some (record { ret = pos got.count; buf = out; from = none; fromlen = some fromlen }, c)
  store_address got out (some from) fromlen c = elim (memcpy from got.address got.address_length) [
    | none ↦ none
    | some address ↦ some (
      record {
        ret = pos got.count;
        buf = out;
        from = some address;
        fromlen = some got.address_length;
      },
      c,
    )
  ]

  -- `__wsock_recvfrom`: a null `fromlen` is followed before it is tested.
  unfoldable pub recvfrom : ℕ → List ℕ → ℕ → ℕ → Option (List ℕ) → Option ℕ → M (Wsock E) From
  recvfrom fuel buf len flags from none c = none
  recvfrom fuel buf len flags from (some fromlen) c =
      elim (recv_wait fuel len flags (some fromlen) c) [
        | none ↦ none
        | some (none, c') ↦
            some (record { ret = minus_one; buf = buf; from = from; fromlen = some fromlen }, c')
        | some (some got, c') ↦ elim (memcpy buf got.buffer got.count) [
          | none ↦ none
          | some out ↦ store_address got out from fromlen c'
        ]
      ]

  -- What follows a connection: the driver's address goes back to the caller and into `inetaddr`.
  unfoldable pub keep_address : List ℕ → ℕ → List ℕ → M (Wsock E) (ℤ × List ℕ)
  keep_address serv_addr addrlen address c = elim (memcpy serv_addr address addrlen) [
    | none ↦ none
    | some out ↦ elim (memcpy c.inetaddr out addrlen) [
      | none ↦ none
      | some inetaddr ↦ some ((pos 0, out), record c { inetaddr = inetaddr })
    ]
  ]

  -- The command on a socket that was in blocking mode, and is not for this while. A failure to
  -- wait is not looked at.
  unfoldable pub connect_wait : ℕ → List ℕ → ℕ → List ℕ → M (Wsock E) (ℤ × List ℕ)
  connect_wait fuel serv_addr addrlen bytes c =
      let (first, c1) = ioctl driver fionbio 1 c in
      let (got, env) = driver.connect c1.socket bytes c1.env in
      let c2 = callvxd got.0 env c1 in
      let back : ℕ = negated first.1 in
      if not (c2.vxd_error == 0) && not (is_retried c2.errno)
      then some ((minus_one, serv_addr), (ioctl driver fionbio back c2).1)
      else elim (select_wait driver fuel fd_write c2) [
        | none ↦ none
        | some (ret, c3) ↦
            let (last, c4) = ioctl driver fionbio back c3 in keep_address serv_addr addrlen got.1 c4
      ]

  unfoldable pub connect : ℕ → List ℕ → ℕ → M (Wsock E) (ℤ × List ℕ)
  connect fuel serv_addr addrlen c = elim (given_bytes serv_addr addrlen) [
    | none ↦ none
    | some bytes ↦
        let (got, env) = driver.connect c.socket bytes c.env in
        let c1 = callvxd got.0 env c in
        if c.sock.blocking
        then connect_wait fuel serv_addr addrlen bytes c
        else if is_failure c1.vxd_error
        then some ((minus_one, serv_addr), c1)
        else keep_address serv_addr addrlen got.1 c1
  ]

  -- WSOCK_ACCEPT_CMD and what follows it. `nwsock` is what the new memory holds.
  unfoldable pub accept_call : NewSocket → ℕ → List ℕ → ℕ → M (Wsock E) Accepted
  unfolding callvxd
  accept_call nwsock now addr addrlen c =
      let refused : Accepted = record {
        ret = minus_one;
        nwsock = some nwsock;
        addr = addr;
        addrlen = addrlen;
      } in
      let (got, env) = driver.accept c.socket addrlen now c.env in
      let c1 = callvxd got.0 env c in
      if is_failure c1.vxd_error
      then some (refused, c1)
      else if got.1.socket == 0
      then some (refused, c1)
      else elim (memcpy addr got.1.address got.1.address_length) [
        | none ↦ none
        | some out ↦ elim (memcpy nwsock.inetaddr out got.1.address_length) [
          | none ↦ none
          | some inetaddr ↦ some (
            record {
              ret = pos 0;
              nwsock =
                  some
                    (record { socket = got.1.socket; handle = got.1.handle; inetaddr = inetaddr });
              addr = out;
              addrlen = got.1.address_length;
            },
            c1,
          )
        ]
      ]

  unfoldable pub accept : ℕ → NewSocket → List ℕ → ℕ → M (Wsock E) Accepted
  accept fuel nwsock addr addrlen c =
      let (given, env) = driver.malloc c.env in
      let (now, env') = driver.time env in
      let c1 : Wsock E = record c { env = env' } in
      if not given
      then some (
        record { ret = minus_one; nwsock = none; addr = addr; addrlen = addrlen },
        record c { errno = enomem; env = env },
      )
      else if c.sock.blocking
      then elim (select_wait driver fuel fd_accept c1) [
        | none ↦ none
        | some (ret, c2) ↦
            if ret ==ℤ minus_one
            then some (
              record { ret = minus_one; nwsock = some nwsock; addr = addr; addrlen = addrlen },
              c2,
            )
            else accept_call nwsock now addr addrlen c2
      ]
      else accept_call nwsock now addr addrlen c1
