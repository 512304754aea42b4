-- ===== src/Inet/Class.antt =====
-- `inet_netof`, `inet_lnaof` and `inet_makeaddr` of src/inet/i_netof.c, i_lnaof.c and i_mkaddr.c, by
-- the classes of include/netinet/in.h. An `in_addr` is its `s_addr`, in network order.
use Prim.Native.Nat.{bit_or}
use libsocket.Base.{
  ℕ, ◌+◌, ◌*◌, ◌/◌, ◌%◌, ◌<◌, ◌^◌, ◌==◌, ltb, Bool, if◌then◌else◌, ◌≡◌, ◌∙◌, ap, arith,
}
use libsocket.Inet.Order.{htonl, ntohl, htonl-ntohl, ntohl-lt}

-- The address's highest bits, of 32, say its class.
abbrev pub in_classa : ℕ → Bool
in_classa i = i / 2 ^ 31 == 0

abbrev pub in_classb : ℕ → Bool
in_classb i = i / 2 ^ 30 == 2

-- A mask of the low bits is a remainder, one of the high bits before a shift a quotient.
unfoldable pub netof_host : ℕ → ℕ
netof_host i = if in_classa i then i / 2 ^ 24 else if in_classb i then i / 2 ^ 16 else i / 2 ^ 8

unfoldable pub lnaof_host : ℕ → ℕ
lnaof_host i = if in_classa i then i % 2 ^ 24 else if in_classb i then i % 2 ^ 16 else i % 2 ^ 8

-- The address before `htonl`.
unfoldable pub makeaddr_host : ℕ → ℕ → ℕ
makeaddr_host net host =
    if ltb net 128
    then net * 2 ^ 24 % 2 ^ 32 + host % 2 ^ 24
    else if ltb net 65536
    then net * 2 ^ 16 % 2 ^ 32 + host % 2 ^ 16
    else if ltb net 16777216
    then net * 2 ^ 8 % 2 ^ 32 + host % 2 ^ 8
    else bit_or net host

unfoldable pub inet_netof : ℕ → ℕ
unfolding netof_host
inet_netof a = netof_host (ntohl a)

unfoldable pub inet_lnaof : ℕ → ℕ
unfolding lnaof_host
inet_lnaof a = lnaof_host (ntohl a)

unfoldable pub inet_makeaddr : ℕ → ℕ → ℕ
unfolding makeaddr_host
inet_makeaddr net host = htonl (makeaddr_host net host)

makeaddr_host-netof : (i : ℕ) → i < 2 ^ 32 → makeaddr_host (netof_host i) (lnaof_host i) ≡ i
unfolding makeaddr_host netof_host lnaof_host
makeaddr_host-netof i h = ground arith

-- An address of 32 bits is made again from its network and its local part.
pub inet_makeaddr-netof : (a : ℕ) → a < 2 ^ 32 → inet_makeaddr (inet_netof a) (inet_lnaof a) ≡ a
unfolding inet_makeaddr inet_netof inet_lnaof
inet_makeaddr-netof a h = ap htonl (makeaddr_host-netof (ntohl a) (ntohl-lt a)) ∙ htonl-ntohl a h
