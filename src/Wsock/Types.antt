-- ===== src/Wsock/Types.antt =====
-- What src/wsock uses of the driver WSOCK.VXD, and the state of its functions: src/wsock/wsock.h,
-- wsockvxd.h and callvxd.c.
use libsocket.Base.{ℕ, ◌%◌, Bool, not, ◌&&◌, ◌==◌, if◌then◌else◌, some, Option, List, M}
use libsocket.Base.Int.{ℤ, minus_one}
use libsocket.Layer.Types.{Errno, Socket, eagain}
use libsocket.Wsock.Errors.{wsock_errno, will_block}

-- FIONBIO, FIONREAD, SIOCATMARK and any other request.
pub data Request : Type 0 where
  fionbio fionread siocatmark other_request : Request

-- What the driver leaves in the parameters of WSOCK_ACCEPT_CMD, and behind them.
pub record Connected : Type 0 where
  pub socket : ℕ
  pub handle : ℕ
  pub address_length : ℕ
  pub address : List ℕ

-- The same for WSOCK_RECV_CMD; `buffer` is the memory of the selector `SocketD`.
pub record Received : Type 0 where
  pub count : ℕ
  pub buffer : List ℕ
  pub address_length : ℕ
  pub address : List ℕ

-- The same for WSOCK_GETSOCKOPT_CMD. An `int` is kept as its 32 bits.
pub record OptionValue : Type 0 where
  pub is_null : Bool
  pub value_length : ℕ
  pub int_value : ℕ
  pub value : List ℕ

-- How many of the lists of a select are filled.
pub record Counts : Type 0 where
  pub read : ℕ
  pub write : ℕ
  pub except : ℕ

-- The commands of the driver, by the fields and the memory that the sources fill and read back.
-- The first number of an answer is the error in EAX. Then the sizes of the buffers behind
-- `SocketP` and `SocketD`, the C library's `malloc` and `time`, `__dpmi_yield`, and the numbers of
-- `errno`.
pub record Driver (E : Type 0) : Type 0 where
  pub socket : ℕ → ℕ → ℕ → ℕ → E → (ℕ × ℕ × ℕ) × E
  pub close : ℕ → E → ℕ × E
  pub bind : ℕ → List ℕ → E → (ℕ × List ℕ) × E
  pub listen : ℕ → ℤ → E → ℕ × E
  pub accept : ℕ → ℕ → ℕ → E → (ℕ × Connected) × E
  pub connect : ℕ → List ℕ → E → (ℕ × List ℕ) × E
  pub send : ℕ → List ℕ → ℕ → Option (List ℕ) → E → (ℕ × ℕ) × E
  pub recv : ℕ → ℕ → ℕ → Option ℕ → E → (ℕ × Received) × E
  pub getsockname : ℕ → List ℕ → E → (ℕ × ℕ × List ℕ) × E
  pub getpeername : ℕ → List ℕ → E → (ℕ × ℕ × List ℕ) × E
  pub getsockopt : ℕ → ℕ → ℕ → List ℕ → E → (ℕ × OptionValue) × E
  pub setsockopt : ℕ → ℕ → ℕ → List ℕ → E → ℕ × E
  pub ioctl : ℕ → Request → ℕ → E → (ℕ × ℕ) × E
  pub shutdown : ℕ → ℤ → E → ℕ × E
  pub select_setup : ℕ → ℕ → ℕ → Counts → E → ℕ × E
  pub io_completed : E → ℕ × E
  pub select_cleanup : Counts → E → ℕ × E
  pub yields : E → E
  pub size_p : ℕ
  pub size_d : ℕ
  pub malloc : E → Bool × E
  pub time : E → ℕ × E
  pub number : Errno → ℕ

-- One descriptor with the LSCK_SOCKET_WSOCK behind its `idata`, `errno`, `_VXDError`,
-- `wsock_select_waiting`, and the driver's state.
pub record Wsock (E : Type 0) : Type 0 where
  pub sock : Socket
  pub socket : ℕ
  pub handle : ℕ
  pub inetaddr : List ℕ
  pub errno : Errno
  pub vxd_error : ℕ
  pub waiting : Bool
  pub env : E

-- `_VXDError && (_VXDError != 0xffff)`.
abbrev pub is_failure : ℕ → Bool
is_failure e = not (e == 0) && not (e == will_block)

module _ {E : Type 0} where
  abbrev pub fail : Errno → M (Wsock E) ℤ
  fail e c = some (minus_one, record c { errno = e })

  -- `__wsock_callvxd` and `__wsock_callvxd2`, behind the driver's command with the answer `eax`.
  unfoldable pub callvxd : ℕ → E → Wsock E → Wsock E
  callvxd eax env c =
      let e = eax % 65536 in
      record c {
        vxd_error = e;
        errno =
            if e == will_block then eagain else if is_failure e then wsock_errno e e else c.errno;
        env = env;
      }
