-- ===== src/Layer/Names.antt =====
-- src/gscknm.c and src/gprnm.c.
use libsocket.Base.{ℕ, not, ◌&&◌, ◌==◌, if◌then◌else◌, Option, none, some, List, M}
use libsocket.Base.Int.{ℤ, minus_one}
use libsocket.Layer.Interface.{Ctx, Interface, Call}
use libsocket.Layer.Types.{efault, eopnotsupp, enotconn, sock_stream}
use libsocket.Layer.World.{Sys, World, on_socket}

-- A return code with the caller's buffer and its length, which the call may have written.
abbrev pub Named : Type 0
Named = ℤ × Option (List ℕ) × Option ℕ

module _ {E : Type 0} where
  -- The checks that both functions share, and the call.
  unfoldable pub ask_name :
      Option (List ℕ → ℕ → Call E (ℤ × List ℕ × ℕ)) → Option (List ℕ) → Option ℕ → M (Ctx E) Named
  ask_name entry (some name) (some namelen) c = elim entry [
    | none ↦ some ((minus_one, some name, some namelen), record c { errno = eopnotsupp })
    | some f ↦ let (out, c') = f name namelen c in some ((out.0, some out.1, some out.2), c')
  ]
  ask_name entry name namelen c = some ((minus_one, name, namelen), record c { errno = efault })

  unfoldable pub getpeername_body : Option (List ℕ) → Option ℕ → Interface E → M (Ctx E) Named
  unfolding ask_name
  getpeername_body name namelen i c =
      if c.sock.type == sock_stream && not c.sock.connected
      then some ((minus_one, name, namelen), record c { errno = enotconn })
      else ask_name i.getpeername name namelen c

module _ {E : Type 0} (sys : Sys E) where
  unfoldable pub getsockname : ℤ → Option (List ℕ) → Option ℕ → M (World E) Named
  getsockname s name namelen =
      on_socket sys (minus_one, name, namelen) s (λ i. ask_name i.getsockname name namelen)

  unfoldable pub getpeername : ℤ → Option (List ℕ) → Option ℕ → M (World E) Named
  getpeername s name namelen =
      on_socket sys (minus_one, name, namelen) s (getpeername_body name namelen)
