-- ===== src/Csock/Names.antt =====
-- src/csock/c_gscknm.c, c_gprnm.c and c_sckopt.c.
use Prim.Native.Nat.{bit_and}
use libsocket.Base.{
  ℕ, Bool, true, false, not, ◌==◌, ltb, leb, ◌/◌, ◌%◌, if◌then◌else◌, Option, none, some, List, [],
  ◌∷◌, length, drop, M,
}
use libsocket.Base.Int.{ℤ, pos, minus_one, ◌==ℤ◌}
use libsocket.Csock.Calls.{recv_bufsize}
use libsocket.Csock.Errors.{csock_errno}
use libsocket.Csock.Types.{Driver, Csock, sin_addr, sockaddr_in_size, store_in}
use libsocket.Layer.Types.{einval, enobufs}

-- LSCK_IF_ADDR_INET: the fields that are read.
pub record Inet : Type 0 where
  pub addr : ℕ
  pub netmask : ℕ
  pub gw_present : Bool

-- The interface's address on the peer's network, or else on the last network with a gateway that
-- comes before; `sock_addr` is the address so far.
unfoldable pub local_addr : ℕ → ℕ → List Inet → ℕ
local_addr peer sock_addr [] = sock_addr
local_addr peer sock_addr (i ∷ is) =
    if bit_and peer i.netmask == bit_and i.addr i.netmask
    then i.addr
    else local_addr peer (if i.gw_present then i.addr else sock_addr) is

-- A result with the caller's buffer and its length.
abbrev pub Named : Type 0
Named = ℤ × List ℕ × ℕ

module _ {E : Type 0} (driver : Driver E) where
  unfoldable pub getpeername : List ℕ → ℕ → M (Csock E) Named
  getpeername name namelen c =
      let (got, env) = driver.getpeername c.fd c.env in
      let c1 : Csock E = record c { env = env } in
      if ltb namelen sockaddr_in_size
      then some ((minus_one, name, namelen), record c { errno = enobufs })
      else if not (got.0 ==ℤ pos 0)
      then some ((minus_one, name, namelen), record c1 { errno = csock_errno got.0 c.errno })
      else elim (store_in name got.2 got.1) [
        | none ↦ none
        | some out ↦ some ((pos 0, out, sockaddr_in_size), c1)
      ]

  -- `inet` is the interface's list of addresses.
  unfoldable pub getsockname : List Inet → List ℕ → ℕ → M (Csock E) Named
  unfolding local_addr
  getsockname inet name namelen c =
      let (got, env) = driver.getsockname c.fd c.env in
      let c1 : Csock E = record c { env = env } in
      if ltb namelen sockaddr_in_size
      then some ((minus_one, name, namelen), record c { errno = enobufs })
      else if not (got.0 ==ℤ pos 0)
      then some ((minus_one, name, namelen), record c1 { errno = csock_errno got.0 c.errno })
      else elim (store_in name got.2 (local_addr (sin_addr c.sock.peername) 0 inet)) [
        | none ↦ none
        | some out ↦ some ((pos 0, out, sockaddr_in_size), c1)
      ]

-- The options that the switch names: an `int` with its value, a `struct timeval`, and any other.
pub data SockOption : Type 0 where
  int_option : ℕ → SockOption
  time_option : SockOption
  unknown_option : SockOption

abbrev pub so_reuseaddr : SockOption
so_reuseaddr = int_option 1

abbrev pub so_rcvbuf : SockOption
so_rcvbuf = int_option recv_bufsize

abbrev pub so_rcvlowat : SockOption
so_rcvlowat = int_option 1

abbrev pub so_sndbuf : SockOption
so_sndbuf = int_option recv_bufsize

abbrev pub so_sndlowat : SockOption
so_sndlowat = int_option 1024

-- An `int` and a `struct timeval` of zeros at the start of the option's buffer.
unfoldable pub put_int : ℕ → List ℕ → Option (List ℕ)
put_int n v =
    if leb 4 (length v)
    then some
        ((n % 256) ∷ ((n / 256 % 256) ∷ ((n / 65536 % 256) ∷ ((n / 16777216 % 256) ∷ drop 4 v))))
    else none

unfoldable pub put_time : List ℕ → Option (List ℕ)
put_time v =
    if leb 8 (length v) then some (0 ∷ (0 ∷ (0 ∷ (0 ∷ (0 ∷ (0 ∷ (0 ∷ (0 ∷ drop 8 v)))))))) else none

-- `__csock_getsockopt`: `none` is an option that is not handled. The flag is
-- `level == SOL_SOCKET`.
unfoldable pub getsockopt :
    {E : Type 0} → Bool → SockOption → List ℕ → ℕ → M (Csock E) (Option ℤ × List ℕ × ℕ)
unfolding put_int put_time
getsockopt false option v n c = some ((some minus_one, v, n), record c { errno = einval })
getsockopt true (int_option value) v n c =
    if ltb n 4
    then some ((some minus_one, v, n), record c { errno = enobufs })
    else elim (put_int value v) [ none ↦ none | some out ↦ some ((some (pos 0), out, 4), c) ]
getsockopt true time_option v n c =
    if ltb n 8
    then some ((some minus_one, v, n), record c { errno = enobufs })
    else elim (put_time v) [ none ↦ none | some out ↦ some ((some (pos 0), out, n), c) ]
getsockopt true unknown_option v n c = some ((none, v, n), c)
