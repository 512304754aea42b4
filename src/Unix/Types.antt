-- ===== src/Unix/Types.antt =====
-- The data of src/unix/unix.h, and what the interface uses of the C library.
use libsocket.Base.{ℕ, Bool, Option, none, some, List, [], ◌∷◌, if◌then◌else◌, ◌==◌, M}
use libsocket.Base.Int.{ℤ, minus_one}
use libsocket.Layer.Types.{Errno, Socket}

-- UNIX_MSG_SECRET. A `long` is kept as its 32 bits.
pub record Secret : Type 0 where
  pub n : ℕ
  pub pid : ℕ

-- LSCK_SOCKET_UNIX. The paths are kept up to their NUL.
pub record UnixSocket : Type 0 where
  pub sockpath : List ℕ
  pub peerpath : List ℕ
  pub fd_w : ℤ
  pub fd_r : ℤ
  pub secret : Secret
  pub seq_w : ℕ
  pub seq_r : ℕ

-- A call of the C library reads and writes `errno` and its own state `E`.
abbrev pub Io : Type 0 → Type 0 → Type 0
Io E A = Errno → E → A × Errno × E

-- What the interface uses of the C library. The open functions give -1 for failure, `read` hands
-- back the buffer that it fills, and `miopeek` is `ioctl (fd, MIOPEEK, &flag)`.
pub record Files (E : Type 0) : Type 0 where
  pub open_reader : List ℕ → Io E ℤ
  pub open_writer : List ℕ → Io E ℤ
  pub read : ℤ → List ℕ → ℕ → Io E (ℤ × List ℕ)
  pub write : ℤ → List ℕ → Io E ℤ
  pub miopeek : ℤ → Bool → Io E ℤ
  pub set_nonblock : ℤ → Io E ℤ
  pub close : ℤ → Io E ℤ
  pub random : Io E ℕ
  pub getpid : ℕ
  pub getcwd : Io E (Option (List ℕ))
  pub max_path : ℕ

-- What a function of the interface reads and writes: the descriptor that it is given, the data
-- behind `idata`, `errno`, the static buffer of the receiving function, and the library's state.
pub record Unix (E : Type 0) : Type 0 where
  pub sock : Socket
  pub usock : UnixSocket
  pub errno : Errno
  pub my_buf : List ℕ
  pub env : E

module _ {E : Type 0} where
  abbrev pub io : {A : Type 0} → Io E A → M (Unix E) A
  io f c =
      some
        ((f c.errno c.env).0, record c { errno = (f c.errno c.env).1; env = (f c.errno c.env).2 })

  abbrev pub set_usock : UnixSocket → M (Unix E) (Unit {0})
  set_usock u c = some (tt, record c { usock = u })

  -- `errno = e; return (-1);`
  abbrev pub fail : Errno → M (Unix E) ℤ
  fail e c = some (minus_one, record c { errno = e })

-- MAILSLOT_SENDSIZE, sizeof (UNIX_MSG_HEADER) and sizeof (UNIX_MSG_DGRAM).
abbrev pub sendsize : ℕ
sendsize = 4080

abbrev pub header_size : ℕ
header_size = 20

abbrev pub dgram_size : ℕ
dgram_size = 148

-- sizeof (struct sockaddr_un) and AF_UNIX.
abbrev pub sockaddr_un_size : ℕ
sockaddr_un_size = 110

abbrev pub af_unix : ℕ
af_unix = 1

abbrev pub msg_version : ℕ
msg_version = 1

abbrev pub msg_client_open : ℕ
msg_client_open = 1

abbrev pub msg_client_close : ℕ
msg_client_close = 2

abbrev pub msg_server_open : ℕ
msg_server_open = 17

abbrev pub msg_server_close : ℕ
msg_server_close = 18

abbrev pub msg_data : ℕ
msg_data = 8

-- UNIX_MSG_DATA | UNIX_MSG_DGRAM_BIT.
abbrev pub msg_data_dgram : ℕ
msg_data_dgram = 40

-- MAXINT, and 2 ^ 32.
abbrev pub maxint : ℕ
maxint = 2147483647

abbrev pub two_32 : ℕ
two_32 = 4294967296

-- A C string in memory, up to its NUL; `none` reads on beyond the end.
unfoldable pub cstring : List ℕ → Option (List ℕ)
cstring [] = none
cstring (c ∷ cs) =
    if c == 0 then some [] else elim (cstring cs) [ none ↦ none | some s ↦ some (c ∷ s) ]
