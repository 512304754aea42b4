-- ===== src/Layer/Bind.antt =====
-- src/bind.c and src/listen.c.
use libsocket.Base.{
  ℕ, true, false, not, ◌==◌, if◌then◌else◌, Option, none, some, List, M, return, ◌>>=◌, ◌>>◌,
  memcpy, bzero, fault,
}
use libsocket.Base.Int.{ℤ, pos, minus_one, ◌==ℤ◌}
use libsocket.Layer.Interface.{Ctx, Interface, fail}
use libsocket.Layer.Names.{getsockname}
use libsocket.Layer.Types.{
  einval, efault, eafnosupport, eopnotsupp, sa_family, sock_stream, sockaddr_common_size,
  sockaddr_max_size,
}
use libsocket.Layer.World.{Sys, World, on_socket, with_lsd, run_on}

-- How the checks and the interface's call ended: with an early return, or with the call's result.
pub data Attempt : Type 0 where
  early : Attempt
  called : ℤ → Attempt

module _ {E : Type 0} where
  unfoldable pub bind_call : Option (List ℕ) → ℕ → Interface E → M (Ctx E) Attempt
  bind_call my_addr addrlen i c =
      if c.sock.bound then some (early, record c { errno = einval }) else elim my_addr [
        | none ↦ some (early, record c { errno = efault })
        | some addr ↦
            if not (c.sock.family == sa_family addr)
            then some (early, record c { errno = eafnosupport })
            else elim i.bind [
              | none ↦ some (early, record c { errno = eopnotsupp })
              | some f ↦ let (r, c') = f addr addrlen c in some (called r, c')
            ]
      ]

  -- The copy of the bound address into the descriptor.
  unfoldable pub bind_store : List ℕ → ℕ → Interface E → M (Ctx E) (Unit {0})
  bind_store addr len i c = elim (memcpy c.sock.sockname addr len) [
    | none ↦ none
    | some name ↦ some (
      tt,
      record c { sock = record (c.sock) { sockname = name; socknamelen = len; bound = true } },
    )
  ]

  unfoldable pub bind_clear : Interface E → M (Ctx E) (Unit {0})
  bind_clear i c = elim (bzero c.sock.sockname sockaddr_common_size) [
    | none ↦ none
    | some name ↦ some (
      tt,
      record c { sock = record (c.sock) { sockname = name; socknamelen = 0; bound = false } },
    )
  ]

  unfoldable pub listen_body : ℤ → Interface E → M (Ctx E) ℤ
  listen_body backlog i c =
      if not (c.sock.type == sock_stream)
      then fail eopnotsupp c
      else if not c.sock.bound
      then fail einval c
      else elim i.listen [
        | none ↦ fail eopnotsupp c
        | some f ↦
            let (r, c') = f backlog c in
            if r ==ℤ minus_one
            then some (r, c')
            else some
                (r, record c' { sock = record (c'.sock) { listening = true; backlog = backlog } })
      ]

  unfoldable pub fd_of : Interface E → M (Ctx E) ℤ
  fd_of i c = some (c.sock.fd, c)

module _ {E : Type 0} (sys : Sys E) where
  unfoldable pub bind_named : ℕ → Option (List ℕ) → Option ℕ → M (World E) (Unit {0})
  bind_named p (some addr) (some len) = run_on sys p (bind_store addr len)
  bind_named p _ _ = fault

  -- `buf` is what the stack holds in the local array of that name, sockaddr_max_size bytes.
  unfoldable pub bind_finish : List ℕ → ℕ → ℤ → M (World E) ℤ
  unfolding fd_of bind_named
  bind_finish buf p r =
      if r ==ℤ pos 0
      then (do
        fd ← run_on sys p fd_of
        (ret, name, len) ← getsockname sys fd (some buf) (some sockaddr_max_size)
        bind_named p name len
        return r)
      else (do run_on sys p bind_clear; return r)

  unfoldable pub bind_at : List ℕ → Option (List ℕ) → ℕ → ℕ → M (World E) ℤ
  unfolding bind_finish
  bind_at buf my_addr addrlen p = do
    o ← run_on sys p (bind_call my_addr addrlen)
    elim o [ early ↦ return minus_one | called r ↦ bind_finish buf p r ]

  unfoldable pub bind : List ℕ → ℤ → Option (List ℕ) → ℕ → M (World E) ℤ
  bind buf s my_addr addrlen = with_lsd sys minus_one s (bind_at buf my_addr addrlen)

  unfoldable pub listen : ℤ → ℤ → M (World E) ℤ
  listen s backlog = on_socket sys minus_one s (listen_body backlog)
