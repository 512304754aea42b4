-- ===== src/Unix/Control.antt =====
-- src/unix/u_select.c, u_fcntl.c and u_ioctl.c, and the functions of u_send.c and u_recv.c that
-- choose by the type of the socket.
use libsocket.Base.{ℕ, Bool, ◌==◌, if◌then◌else◌, Option, none, some, List, M}
use libsocket.Base.Int.{ℤ, pos, negsuc, minus_one, ◌==ℤ◌}
use libsocket.Layer.Types.{einval, eopnotsupp, sock_stream, sock_dgram}
use libsocket.Unix.Dgram.{send_dgram, recv_dgram}
use libsocket.Unix.Names.{getpeername}
use libsocket.Unix.Recv.{recv_stream}
use libsocket.Unix.Send.{send_stream}
use libsocket.Unix.Types.{Files, Unix, Io, fail}

-- FD_READ and FD_WRITE.
abbrev pub fd_read : ℕ
fd_read = 1

abbrev pub fd_write : ℕ
fd_write = 2

-- `ret = (ret > 0) ? 1 : ret`.
abbrev pub at_most_one : ℤ → ℤ
at_most_one (pos n) = if n == 0 then pos 0 else pos 1
at_most_one (negsuc n) = negsuc n

-- The result of a call of `select` or `ioctl` on the state.
abbrev pub answer : {E : Type 0} → (ℤ → ℤ) → Io E ℤ → M (Unix E) ℤ
answer f call c =
    let (ret, e, env) = call c.errno c.env in some (f ret, record c { errno = e; env = env })

module _ {E : Type 0} where
  -- `__unix_select`. The arguments are the library's `select` for reading, for writing, and on two
  -- descriptors for exceptions, with no time to wait.
  unfoldable pub select : (ℤ → Io E ℤ) → (ℤ → Io E ℤ) → (ℤ → ℤ → Io E ℤ) → ℕ → M (Unix E) ℤ
  select readable writable exceptional event c =
      if event == fd_read
      then answer at_most_one (readable c.usock.fd_r) c
      else if event == fd_write
      then answer at_most_one (writable c.usock.fd_w) c
      else answer at_most_one (exceptional c.usock.fd_w c.usock.fd_r) c

-- FIONBIO and FIONREAD with their parameter, and any other request.
pub data Request : Type 0 where
  fionbio : ℕ → Request
  fionread : Request
  other_request : Request

-- F_SETFL with whether O_NONBLOCK is in the request, F_GETFL, and any other command.
pub data Command : Type 0 where
  f_setfl : Bool → Command
  f_getfl : Command
  other_command : Command

module _ {E : Type 0} (files : Files E) where
  -- FIONBIO: the reading end is set only if the writing end can be.
  unfoldable pub set_nonblocking : M (Unix E) (Option ℤ)
  set_nonblocking c =
      let (ret, e, env) = files.set_nonblock c.usock.fd_w c.errno c.env in
      let (ret', e', env') = files.set_nonblock c.usock.fd_r e env in
      if ret ==ℤ minus_one
      then some (some (pos 0), record c { errno = e; env = env })
      else some (some (pos 0), record c { errno = e'; env = env' })

  -- `__unix_ioctl`: `none` is a request that is not handled. `waiting` is the library's FIONREAD.
  unfoldable pub ioctl : (ℤ → Io E ℤ) → Request → M (Unix E) (Option ℤ)
  unfolding set_nonblocking
  ioctl waiting (fionbio param) c =
      if param == 1 then set_nonblocking c else some (some minus_one, record c { errno = einval })
  ioctl waiting fionread c =
      let (ret, e, env) = waiting c.usock.fd_w c.errno c.env in
      some (some ret, record c { errno = e; env = env })
  ioctl waiting other_request c = some (none, c)

  -- `__unix_fcntl`; O_NONBLOCK is the flag's value.
  unfoldable pub fcntl : ℕ → (ℤ → Io E ℤ) → Command → M (Unix E) (Option ℤ)
  unfolding ioctl
  fcntl o_nonblock waiting (f_setfl wanted) c = ioctl waiting (fionbio (if wanted then 1 else 0)) c
  fcntl o_nonblock waiting f_getfl c =
      some (some (if c.sock.blocking then pos o_nonblock else pos 0), c)
  fcntl o_nonblock waiting other_command c = some (none, c)

  -- `__unix_sendto`. `__unix_send` gives no address.
  unfoldable pub sendto :
      (List ℕ → M (Unix E) ℤ) → List ℕ → List ℕ → ℕ → Option (List ℕ) → ℕ → M (Unix E) ℤ
  sendto bind scratch msg len to tolen c =
      if c.sock.type == sock_stream
      then send_stream files msg len c
      else if c.sock.type == sock_dgram
      then send_dgram files bind scratch msg len to tolen c
      else fail eopnotsupp c

  unfoldable pub send : (List ℕ → M (Unix E) ℤ) → List ℕ → List ℕ → ℕ → M (Unix E) ℤ
  unfolding sendto
  send bind scratch msg len = sendto bind scratch msg len none 0

  unfoldable pub recv : ℕ → List ℕ → ℕ → ℕ → M (Unix E) (ℤ × List ℕ)
  recv fuel buf len flags c =
      if c.sock.type == sock_stream
      then recv_stream files fuel buf len flags c
      else if c.sock.type == sock_dgram
      then elim (recv_dgram files fuel buf len flags none c) [
        | none ↦ none
        | some ((ret, out, from), c') ↦ some ((ret, out), c')
      ]
      else some ((minus_one, buf), record c { errno = eopnotsupp })

  -- The address of a stream's peer, where it is asked for and there was no error.
  unfoldable pub stream_from :
      List ℕ → ℤ → List ℕ → Option (List ℕ × ℕ) → M (Unix E) (ℤ × List ℕ × Option (List ℕ × ℕ))
  stream_from scratch ret out none c = some ((ret, out, none), c)
  stream_from scratch ret out (some (addr, size)) c =
      if ret ==ℤ minus_one
      then some ((ret, out, some (addr, size)), c)
      else elim (getpeername scratch addr size c) [
        | none ↦ none
        | some ((rv, name, namelen), c') ↦ some ((ret, out, some (name, namelen)), c')
      ]

  unfoldable pub recvfrom :
      ℕ
      → List ℕ
      → List ℕ
      → ℕ
      → ℕ
      → Option (List ℕ × ℕ)
      → M (Unix E) (ℤ × List ℕ × Option (List ℕ × ℕ))
  unfolding stream_from
  recvfrom fuel scratch buf len flags from c =
      if c.sock.type == sock_stream
      then elim (recv_stream files fuel buf len flags c) [
        | none ↦ none
        | some ((ret, out), c') ↦ stream_from scratch ret out from c'
      ]
      else if c.sock.type == sock_dgram
      then recv_dgram files fuel buf len flags from c
      else some ((minus_one, buf, from), record c { errno = eopnotsupp })
