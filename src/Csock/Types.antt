-- ===== src/Csock/Types.antt =====
-- What src/csock uses of the driver SOCK.VXD, and the state of its functions.
use libsocket.Base.{
  ℕ, Bool, Option, List, ◌∷◌, length, drop, leb, ◌/◌, ◌%◌, ◌+◌, ◌*◌, if◌then◌else◌, none, some, M,
  get_elem?,
}
use libsocket.Base.Int.{ℤ, minus_one}
use libsocket.Layer.Types.{Errno, Socket}

-- The driver's answer about its descriptors (function 16): that none is used, which are, or nothing
-- of use.
pub data Usage : Type 0 where
  none_used no_answer : Usage
  used : (ℕ → Bool) → Usage

-- The functions of the driver, by the registers that the sources read and write. A `ret` is 0, or
-- what the driver leaves in EAX where it sets the carry flag.
pub record Driver (E : Type 0) : Type 0 where
  pub usage : E → Usage × E
  pub probe : ℕ → E → Bool × E
  pub socket : ℕ → ℕ → E → ℤ × E
  pub close : ℤ → E → ℤ × E
  pub bind : ℤ → ℕ → ℕ → E → ℤ × E
  pub listen : ℤ → ℤ → E → ℤ × E
  pub accept : ℤ → ℕ → E → (ℤ × ℕ × ℕ) × E
  pub connect : ℤ → ℕ → ℕ → E → ℤ × E
  pub recv : ℤ → List ℕ → ℕ → E → (ℤ × ℕ × List ℕ) × E
  pub recvfrom : ℤ → List ℕ → ℕ → E → (ℤ × ℕ × List ℕ × ℕ × ℕ) × E
  pub send : ℤ → List ℕ → ℕ → E → ℤ × E
  pub sendto : ℤ → ℕ → ℕ → List ℕ → ℕ → E → (ℤ × ℕ) × E
  pub getsockname : ℤ → E → (ℤ × ℕ × ℕ) × E
  pub getpeername : ℤ → E → (ℤ × ℕ × ℕ) × E
  pub select : ℤ → ℕ → E → (ℤ × Bool) × E
  pub set_nonblocking : ℤ → Bool → E → ℤ × E

-- One descriptor, `csock->fd` behind its `idata`, `errno`, the bits of `__csock_fd_table`,
-- `__csock_version`, and the driver's state.
pub record Csock (E : Type 0) : Type 0 where
  pub sock : Socket
  pub fd : ℤ
  pub errno : Errno
  pub fd_table : ℕ → Bool
  pub version : ℕ
  pub env : E

-- sizeof (struct sockaddr_in).
abbrev pub sockaddr_in_size : ℕ
sockaddr_in_size = 16

-- `sin_port` and `sin_addr.s_addr` of an address in memory, as the processor reads them.
abbrev pub byte_at : List ℕ → ℕ → ℕ
byte_at xs i = elim (get_elem? xs i) [ none ↦ 0 | some b ↦ b ]

abbrev pub sin_port : List ℕ → ℕ
sin_port a = byte_at a 2 + 256 * byte_at a 3

abbrev pub sin_addr : List ℕ → ℕ
sin_addr a = byte_at a 4 + 256 * byte_at a 5 + 65536 * byte_at a 6 + 16777216 * byte_at a 7

-- Family AF_INET, port and address into the first bytes of `name`; `none` goes beyond it.
unfoldable pub store_in : List ℕ → ℕ → ℕ → Option (List ℕ)
store_in name port addr =
    if leb 8 (length name)
    then some (
        2
        ∷ (0
            ∷ ((port % 256)
                ∷ ((port / 256 % 256)
                    ∷ ((addr % 256)
                        ∷ ((addr / 256 % 256)
                            ∷ ((addr / 65536 % 256) ∷ ((addr / 16777216 % 256) ∷ drop 8 name))))))))
    else none

module _ {E : Type 0} where
  abbrev pub fail : Errno → M (Csock E) ℤ
  fail e c = some (minus_one, record c { errno = e })
