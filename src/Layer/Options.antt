-- ===== src/Layer/Options.antt =====
-- src/shtdwn.c, src/sckopt.c and src/fcntl.c.
use libsocket.Base.{
  memcpy, ℕ, Bool, true, false, not, ◌&&◌, ◌||◌, ◌==◌, ltb, if◌then◌else◌, Option, none, some, List,
  [], ◌∷◌, ◌/◌, ◌%◌, M,
}
use libsocket.Base.Int.{ℤ, pos, neg, minus_one, ◌==ℤ◌}
use libsocket.Layer.Interface.{Ctx, Interface, fail}
use libsocket.Layer.Types.{
  einval, efault, enotconn, enobufs, enoprotoopt, eperm, eopnotsupp, Socket,
}
use libsocket.Layer.World.{Sys, World, on_socket}

abbrev pub shut_rd : ℤ
shut_rd = pos 0

abbrev pub shut_wr : ℤ
shut_wr = pos 1

abbrev pub shut_rdwr : ℤ
shut_rdwr = pos 2

abbrev pub sol_socket : ℕ
sol_socket = 0xffff

abbrev pub so_acceptconn : ℕ
so_acceptconn = 0x0002

abbrev pub so_type : ℕ
so_type = 0x1008

abbrev pub f_getown : ℤ
f_getown = pos 16

abbrev pub f_setown : ℤ
f_setown = pos 17

abbrev pub is_how : ℤ → Bool
is_how how = how ==ℤ shut_rd || (how ==ℤ shut_wr || how ==ℤ shut_rdwr)

-- The flags that `shutdown` leaves.
unfoldable pub shut_flags : ℤ → Socket → Socket
shut_flags how k =
    if how ==ℤ shut_rd
    then record k { inbound = false }
    else if how ==ℤ shut_wr
    then record k { outbound = false }
    else if how ==ℤ shut_rdwr
    then record k { inbound = false; outbound = false }
    else k

-- The four bytes of a non-negative `int`, the low one first.
abbrev pub int_bytes : ℕ → List ℕ
int_bytes n = (n % 256) ∷ ((n / 256 % 256) ∷ ((n / 65536 % 256) ∷ ((n / 16777216 % 256) ∷ [])))

abbrev pub bit : Bool → ℕ
bit false = 0
bit true = 1

-- A return code with the option's buffer and its length.
abbrev pub Optioned : Type 0
Optioned = ℤ × Option (List ℕ) × Option ℕ

module _ {E : Type 0} where
  unfoldable pub shutdown_body : ℤ → Interface E → M (Ctx E) ℤ
  unfolding shut_flags
  shutdown_body how i c =
      if not c.sock.connected
      then fail enotconn c
      else if not (is_how how)
      then fail einval c
      else elim i.shutdown [
        | none ↦ fail eopnotsupp c
        | some f ↦
            let (r, c') = f how c in
            if r ==ℤ pos 0
            then some (r, record c' { sock = shut_flags how c'.sock })
            else some (r, c')
      ]

  -- `*i_optval = n; *optlen = sizeof (int);`
  abbrev pub put_int : ℕ → List ℕ → Ctx E → Option ((ℤ × List ℕ × ℕ) × Ctx E)
  put_int n optval c = elim (memcpy optval (int_bytes n) 4) [
    | none ↦ none
    | some out ↦ some ((pos 0, out, 4), c)
  ]

  unfoldable pub getsockopt_emulated : ℕ → ℕ → List ℕ → ℕ → M (Ctx E) (ℤ × List ℕ × ℕ)
  getsockopt_emulated level optname optval optlen c =
      if not (level == sol_socket)
      then some ((minus_one, optval, optlen), record c { errno = enoprotoopt })
      else if (optname == so_acceptconn || optname == so_type) && ltb optlen 4
      then some ((minus_one, optval, optlen), record c { errno = enobufs })
      else if optname == so_acceptconn
      then put_int (bit c.sock.listening) optval c
      else if optname == so_type
      then put_int c.sock.type optval c
      else some ((minus_one, optval, optlen), record c { errno = enoprotoopt })

  -- The interface's answer, or the emulation where it has none.
  unfoldable pub getsockopt_try : ℕ → ℕ → List ℕ → ℕ → Interface E → M (Ctx E) (ℤ × List ℕ × ℕ)
  unfolding getsockopt_emulated
  getsockopt_try level optname optval optlen i c = elim i.getsockopt [
    | none ↦ getsockopt_emulated level optname optval optlen c
    | some f ↦
        let (out, c') = f level optname optval optlen c in
        elim out.0 [
          | none ↦ getsockopt_emulated level optname out.1 out.2 c'
          | some rv ↦ some ((rv, out.1, out.2), c')
        ]
  ]

  -- With no `optval` the function works on its own buffer of 16 bytes, `scratch`, and drops it.
  unfoldable pub getsockopt_body :
      List ℕ → ℕ → ℕ → Option (List ℕ) → Option ℕ → Interface E → M (Ctx E) Optioned
  unfolding getsockopt_try
  getsockopt_body scratch level optname (some optval) none i c =
      some ((minus_one, some optval, none), record c { errno = efault })
  getsockopt_body scratch level optname (some optval) (some optlen) i c =
      elim (getsockopt_try level optname optval optlen i c) [
        | none ↦ none
        | some (out, c') ↦ some ((out.0, some out.1, some out.2), c')
      ]
  getsockopt_body scratch level optname none optlen i c =
      elim (getsockopt_try level optname scratch 16 i c) [
        | none ↦ none
        | some (out, c') ↦ some ((out.0, none, optlen), c')
      ]

  unfoldable pub setsockopt_emulated : M (Ctx E) ℤ
  setsockopt_emulated c = fail enoprotoopt c

  unfoldable pub setsockopt_body : ℕ → ℕ → Option (List ℕ) → ℕ → Interface E → M (Ctx E) ℤ
  unfolding setsockopt_emulated
  setsockopt_body level optname none optlen i c = fail efault c
  setsockopt_body level optname (some optval) optlen i c = elim i.setsockopt [
    | none ↦ setsockopt_emulated c
    | some f ↦
        let (handled, c') = f level optname optval optlen c in
        elim handled [ none ↦ setsockopt_emulated c' | some rv ↦ some (rv, c') ]
  ]

module _ {E : Type 0} (sys : Sys E) where
  -- The switch is on `request`, as the source has it, and not on `command`.
  unfoldable pub fcntlsocket_emulated : ℤ → ℤ → M (Ctx E) ℤ
  fcntlsocket_emulated command request c =
      if request ==ℤ f_getown
      then some (c.sock.urgent_pid, c)
      else if request ==ℤ f_setown
      then if not (request ==ℤ sys.getpid) && not (request ==ℤ neg sys.getpid)
        then fail eperm c
        else some (pos 0, record c { sock = record (c.sock) { urgent_pid = request } })
      else fail einval c

  unfoldable pub fcntl_body : ℤ → ℤ → Interface E → M (Ctx E) ℤ
  unfolding fcntlsocket_emulated
  fcntl_body command request i c = elim i.fcntl [
    | none ↦ fcntlsocket_emulated command request c
    | some f ↦
        let (handled, c') = f command request c in
        elim handled [ none ↦ fcntlsocket_emulated command request c' | some rv ↦ some (rv, c') ]
  ]

  unfoldable pub shutdown : ℤ → ℤ → M (World E) ℤ
  shutdown s how = on_socket sys minus_one s (shutdown_body how)

  unfoldable pub getsockopt : List ℕ → ℤ → ℕ → ℕ → Option (List ℕ) → Option ℕ → M (World E) Optioned
  getsockopt scratch s level optname optval optlen =
      on_socket sys (minus_one, optval, optlen) s
        (getsockopt_body scratch level optname optval optlen)

  unfoldable pub setsockopt : ℤ → ℕ → ℕ → Option (List ℕ) → ℕ → M (World E) ℤ
  setsockopt s level optname optval optlen =
      on_socket sys minus_one s (setsockopt_body level optname optval optlen)

  unfoldable pub fcntlsocket : ℤ → ℤ → ℤ → M (World E) ℤ
  fcntlsocket s command request = on_socket sys minus_one s (fcntl_body command request)
