-- ===== src/Csock/Descriptors.antt =====
-- The table of SOCK.VXD's descriptors, and the loop over them: src/csock/c_socket.c and c_close.c.
use libsocket.Base.{ℕ, zero, suc, ◌+◌, Bool, true, false, not, ◌==◌, if◌then◌else◌, some, M}
use libsocket.Base.Int.{ℤ, pos, negsuc, minus_one, ◌==ℤ◌}
use libsocket.Csock.Errors.{csock_errno, fd_inuse}
use libsocket.Csock.Types.{none_used, no_answer, used, Driver, Csock, fail}
use libsocket.Layer.Types.{emfile, enomem}
use libsocket.Layer.World.{update}

-- `__csock_fd_set_usage`: the bit is set, or changed to the other.
unfoldable pub fd_set_usage : ℕ → Bool → (ℕ → Bool) → ℕ → Bool
fd_set_usage fd true table = update table fd true
fd_set_usage fd false table = update table fd (not (table fd))

module _ {E : Type 0} (driver : Driver E) where
  abbrev pub mark : ℕ → Csock E → Csock E
  mark fd c = record c { fd_table = fd_set_usage fd true c.fd_table }

  -- `__csock_fd_get_usage` past the driver's table.
  unfoldable pub fd_probe : ℕ → Csock E → Bool × Csock E
  fd_probe fd c =
      let (taken, env) = driver.probe fd c.env in
      let c1 : Csock E = record c { env = env } in
      if c.fd_table fd then (true, c) else if taken then (true, mark fd c1) else (false, c1)

  -- Version 1 of the driver knows its descriptors.
  unfoldable pub fd_get_usage : ℕ → Csock E → Bool × Csock E
  unfolding fd_probe
  fd_get_usage fd c =
      let (reply, env) = driver.usage c.env in
      let c1 : Csock E = record c { env = env } in
      if c.version == 0 then fd_probe fd c else elim reply [
        | none_used ↦ (false, c1)
        | no_answer ↦ fd_probe fd c1
        | used table ↦ fd_probe fd (record c1 { fd_table = table })
      ]

  -- The loop from descriptor `i` on, for `n` more: the result is `ret`, and `csock->fd` is left at
  -- the descriptor that could be created.
  unfoldable pub try_fds : ℕ → ℕ → ℤ → Csock E → ℤ × Csock E
  unfolding fd_get_usage
  try_fds zero i ret c = (ret, c)
  try_fds (suc n) i ret c =
      let (busy, c1) = fd_get_usage i c in
      let (made, env) = driver.socket c1.sock.protocol i c1.env in
      let c2 : Csock E = record c1 { env = env } in
      elim busy [
        | true ↦ try_fds n (1 + i) ret c1
        | false ↦ elim (made ==ℤ pos 0) [
          | true ↦ (made, record c2 { fd = pos i })
          | false ↦ elim (made ==ℤ fd_inuse) [
            | true ↦ try_fds n (1 + i) made (mark i c2)
            | false ↦ (made, c2)
          ]
        ]
      ]

  -- What follows the loop. The last argument sets blocking mode, and its result is not looked at.
  unfoldable pub take_fd : (Csock E → Csock E) → ℤ → M (Csock E) ℤ
  take_fd blocking ret c = elim c.fd [
    | negsuc n ↦ fail emfile c
    | pos fd ↦
        if ret ==ℤ pos 0
        then some (pos 0, blocking (mark fd c))
        else fail (csock_errno ret c.errno) c
  ]

  -- `__csock_socket`; the flag says whether there is memory.
  unfoldable pub socket : (Csock E → Csock E) → Bool → M (Csock E) ℤ
  unfolding try_fds take_fd
  socket blocking memory c =
      let (ret, c1) = try_fds 31 1 minus_one (record c { fd = minus_one }) in
      if memory then take_fd blocking ret c1 else fail enomem c

  -- `__csock_close`.
  unfoldable pub close : M (Csock E) ℤ
  unfolding fd_set_usage
  close c =
      let (ret, env) = driver.close c.fd c.env in
      let c1 : Csock E = record c { env = env } in
      if ret ==ℤ pos 0
      then some (pos 0, record c1 { fd_table = clear c.fd c.fd_table })
      else fail (csock_errno ret c.errno) c1
    where
      clear : ℤ → (ℕ → Bool) → ℕ → Bool
      clear (pos fd) table = fd_set_usage fd false table
      clear (negsuc n) table = table
