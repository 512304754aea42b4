-- ===== src/Wsock/Options.antt =====
-- src/wsock/w_sckopt.c and w_socket.c.
use libsocket.Base.{
  ℕ, ◌+◌, ◌/◌, ◌%◌, ◌*◌, Bool, not, ◌&&◌, ◌||◌, ◌==◌, ltb, if◌then◌else◌, Option, none, some, List,
  [], ◌∷◌, memcpy, M,
}
use libsocket.Base.Int.{ℤ, pos, minus_one}
use libsocket.Layer.Types.{enoprotoopt, enobufs, enomem, af_inet, sock_dgram, ipproto_udp}
use libsocket.Wsock.Calls.{given_bytes}
use libsocket.Wsock.Errors.{wsock_errno}
use libsocket.Wsock.Types.{OptionValue, Driver, Wsock, is_failure, fail, callvxd}

-- SOL_SOCKET and the options of include/sys/socket.h that the functions name.
abbrev pub sol_socket : ℕ
sol_socket = 65535

abbrev pub so_acceptconn : ℕ
so_acceptconn = 2

abbrev pub so_broadcast : ℕ
so_broadcast = 32

abbrev pub so_error : ℕ
so_error = 4103

-- SO_SNDLOWAT, SO_RCVLOWAT, SO_SNDTIMEO, SO_RCVTIMEO.
abbrev pub is_unsupported : ℕ → Bool
is_unsupported name = name == 4099 || name == 4100 || name == 4101 || name == 4102

-- SO_ACCEPTCONN and SO_TYPE cannot be set.
abbrev pub is_fixed : ℕ → Bool
is_fixed name = is_unsupported name || name == so_acceptconn || name == 4104

-- sizeof (WSOCK_GETSOCKOPT_PARAMS), which is that of WSOCK_SETSOCKOPT_PARAMS.
abbrev pub params_size : ℕ
params_size = 24

-- `*(int *) optval` and the bytes of an `int`.
abbrev pub int_bytes : ℕ → List ℕ
int_bytes n = (n % 256) ∷ ((n / 256 % 256) ∷ ((n / 65536 % 256) ∷ ((n / 16777216 % 256) ∷ [])))

unfoldable pub read_int : List ℕ → Option ℕ
read_int (a ∷ (b ∷ (c ∷ (d ∷ rest)))) = some (a + 256 * b + 65536 * c + 16777216 * d)
read_int _ = none

module _ {E : Type 0} (driver : Driver E) where
  -- `__wsock_setsockopt`, which handles every option: the result is `*rv`.
  unfoldable pub setsockopt : ℕ → ℕ → List ℕ → ℕ → M (Wsock E) ℤ
  unfolding callvxd given_bytes
  setsockopt level optname optval optlen c =
      if is_fixed optname
      then fail enoprotoopt c
      else if ltb driver.size_p (optlen + params_size)
      then fail enobufs c
      else elim (given_bytes optval optlen) [
        | none ↦ none
        | some bytes ↦
            let (e, env) = driver.setsockopt c.socket level optname bytes c.env in
            let c1 = callvxd e env c in
            some ((if is_failure c1.vxd_error then minus_one else pos 0), c1)
      ]

  -- What is stored for SO_ERROR: `__wsock_errno` of the value, as it stands in `optval`.
  unfoldable pub translate_error : ℕ → Wsock E → ℕ
  translate_error value c = driver.number (wsock_errno value c.vxd_error)

  -- The value of an answer into `optval`, with `*optlen`.
  unfoldable pub store_option : ℕ → OptionValue → List ℕ → Wsock E → Option (List ℕ × ℕ)
  unfolding translate_error read_int
  store_option optname got optval c =
      if got.is_null && got.value_length == 0
      then elim (memcpy optval
          (int_bytes
            (if optname == so_error then translate_error got.int_value c else got.int_value))
          4) [ none ↦ none | some out ↦ some (out, 4) ]
      else elim (memcpy optval got.value got.value_length) [
        | none ↦ none
        | some out ↦
            if optname == so_error
            then elim (read_int out) [
              | none ↦ none
              | some value ↦ elim (memcpy out (int_bytes (translate_error value c)) 4) [
                | none ↦ none
                | some stored ↦ some (stored, got.value_length)
              ]
            ]
            else some (out, got.value_length)
      ]

  -- `__wsock_getsockopt`, the same: `*rv`, and the caller's variables.
  unfoldable pub getsockopt : ℕ → ℕ → List ℕ → ℕ → M (Wsock E) (ℤ × List ℕ × ℕ)
  unfolding callvxd
  getsockopt level optname optval optlen c =
      if is_unsupported optname
      then some ((minus_one, optval, optlen), record c { errno = enoprotoopt })
      else if ltb driver.size_p (optlen + params_size)
      then some ((minus_one, optval, optlen), record c { errno = enobufs })
      else elim (given_bytes optval optlen) [
        | none ↦ none
        | some bytes ↦
            let (got, env) = driver.getsockopt c.socket level optname bytes c.env in
            let c1 = callvxd got.0 env c in
            if is_failure c1.vxd_error
            then some ((minus_one, optval, optlen), c1)
            else elim (store_option optname got.1 optval c1) [
              | none ↦ none
              | some (out, len) ↦ some ((pos 0, out, len), c1)
            ]
      ]

  -- `__wsock_socket`: the result is 0, whatever becomes of the option for broadcasts.
  unfoldable pub socket : M (Wsock E) ℤ
  unfolding callvxd setsockopt
  socket c =
      let (given, env) = driver.malloc c.env in
      let (now, env') = driver.time env in
      let (got, env'') = driver.socket c.sock.family c.sock.type c.sock.protocol now env' in
      let c1 = callvxd got.0 env'' c in
      let c2 : Wsock E = record c1 { socket = got.1; handle = got.2 } in
      if not given
      then fail enomem (record c { env = env })
      else if is_failure c1.vxd_error
      then some (minus_one, c1)
      else if c.sock.family == af_inet
          && c.sock.type == sock_dgram
          && c.sock.protocol == ipproto_udp
      then elim (setsockopt sol_socket so_broadcast (int_bytes 1) 4 c2) [
        | none ↦ none
        | some (rv, c3) ↦ some (pos 0, c3)
      ]
      else some (pos 0, c2)
