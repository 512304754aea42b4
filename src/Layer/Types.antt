-- ===== src/Layer/Types.antt =====
-- Error numbers, constants and the socket descriptor: include/lsck/errno.h,
-- include/sys/socket.h and the LSCK_SOCKET of include/lsck/if.h.
use libsocket.Base.{ℕ, ◌+◌, ◌*◌, Bool, true, false, Option, List, ◌∷◌}
use libsocket.Base.Int.{ℤ}

-- The error numbers that the layer sets or tests; `other` is any number that an interface or the
-- C library may set besides. EWOULDBLOCK is EAGAIN.
pub data Errno : Type 0 where
  eagain ebadf efault einval emfile enfile enodev enomem eperm epipe espipe : Errno
  enobufs eisconn enotconn eopnotsupp eafnosupport eprotonosupport edestaddrreq : Errno
  enoprotoopt ealready einprogress enametoolong eacces eio enetunreach : Errno
  econnrefused econnreset enotsock ebusy eaddrinuse etimedout ehostunreach : Errno
  eintr emsgsize eprototype esocktnosupport epfnosupport eaddrnotavail enetdown enetreset : Errno
  econnaborted eshutdown etoomanyrefs eloop ehostdown enotempty eusers edquot : Errno
  estale eremote : Errno
  other : ℕ → Errno

abbrev pub is_ewouldblock : Errno → Bool
is_ewouldblock eagain = true
is_ewouldblock _ = false

abbrev pub sock_stream : ℕ
sock_stream = 1

abbrev pub sock_dgram : ℕ
sock_dgram = 2

abbrev pub sock_raw : ℕ
sock_raw = 3

abbrev pub af_inet : ℕ
af_inet = 2

abbrev pub ipproto_tcp : ℕ
ipproto_tcp = 6

abbrev pub ipproto_udp : ℕ
ipproto_udp = 17

-- sizeof (struct sockaddr), and sizeof (struct sockaddr_un) of include/sys/un.h.
abbrev pub sockaddr_common_size : ℕ
sockaddr_common_size = 16

abbrev pub sockaddr_max_size : ℕ
sockaddr_max_size = 110

-- The `sa_family` of an address in memory: its first two bytes, the low one first.
abbrev pub sa_family : List ℕ → ℕ
sa_family (lo ∷ (hi ∷ rest)) = lo + 256 * hi
sa_family _ = 0

-- LSCK_SOCKET; `error` is its field `errno`. `sockname` and `peername` are the address with its padding, as bytes; the
-- `interface` is the address of an interface's table, and `idata` the interface's own data.
pub record Socket : Type 0 where
  pub fd : ℤ
  pub family : ℕ
  pub type : ℕ
  pub protocol : ℕ
  pub error : ℤ
  pub sockname : List ℕ
  pub socknamelen : ℕ
  pub peername : List ℕ
  pub peernamelen : ℕ
  pub bound : Bool
  pub accepted : Bool
  pub connected : Bool
  pub connecting : Bool
  pub blocking : Bool
  pub outbound : Bool
  pub inbound : Bool
  pub listening : Bool
  pub backlog : ℤ
  pub send_timeout : ℤ
  pub recv_timeout : ℤ
  pub urgent_pid : ℤ
  pub interface : Option ℕ
  pub idata : Option ℕ
