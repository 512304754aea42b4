-- ===== src/Inet/Order.antt =====
-- The C library's `htonl` and `ntohl`, which include/netinet/in.h declares. The machine stores the low
-- byte of a number first, the network the high byte.
use libsocket.Base.{ℕ, ◌+◌, ◌*◌, ◌/◌, ◌%◌, ◌<◌, ◌^◌, ◌≡◌, arith}

unfoldable pub htonl : ℕ → ℕ
htonl n = n % 256 * 16777216 + n / 256 % 256 * 65536 + n / 65536 % 256 * 256 + n / 16777216 % 256

unfoldable pub ntohl : ℕ → ℕ
unfolding htonl
ntohl n = htonl n

pub htonl-ntohl : (n : ℕ) → n < 2 ^ 32 → htonl (ntohl n) ≡ n
unfolding htonl ntohl
htonl-ntohl n h = omega arith

pub ntohl-lt : (n : ℕ) → ntohl n < 2 ^ 32
unfolding htonl ntohl
ntohl-lt n = omega arith
