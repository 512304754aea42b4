-- ===== src/Wsock/Select.antt =====
-- src/wsock/w_select.c and w_nblkio.c.
use libsocket.Base.{ℕ, zero, suc, Bool, true, false, not, ◌&&◌, ◌==◌, if◌then◌else◌, none, some, M}
use libsocket.Base.Int.{ℤ, pos, minus_one}
use libsocket.Wsock.Types.{Counts, Driver, Wsock, is_failure, callvxd}

-- FD_READ, FD_WRITE, FD_ACCEPT.
abbrev pub fd_read : ℕ
fd_read = 1

abbrev pub fd_write : ℕ
fd_write = 2

abbrev pub fd_accept : ℕ
fd_accept = 8

-- The counts of the three lists, each of which holds the socket.
unfoldable pub counts : ℕ → Counts
counts event =
    if event == fd_read
    then record { read = 1; write = 0; except = 0 }
    else if event == fd_write
    then record { read = 0; write = 1; except = 0 }
    else record { read = 0; write = 0; except = 1 }

module _ {E : Type 0} (driver : Driver E) where
  -- WSOCK_SELECT_SETUP_CMD and WSOCK_SELECT_CLEANUP_CMD.
  unfoldable pub select_setup : ℕ → Wsock E → Wsock E
  unfolding counts callvxd
  select_setup event c =
      let (e, env) = driver.select_setup c.socket event c.handle (counts event) c.env in
      callvxd e env c

  unfoldable pub select_cleanup : Counts → Wsock E → Wsock E
  unfolding callvxd
  select_cleanup lists c = let (e, env) = driver.select_cleanup lists c.env in callvxd e env c

  -- `__wsock_select`: the flag of completion, read once.
  unfoldable pub select : ℕ → Wsock E → ℤ × Wsock E
  unfolding select_setup select_cleanup
  select event c =
      let c1 = select_setup event c in
      let (t, env) = driver.io_completed c1.env in
      let c2 = select_cleanup (counts event) (record c1 { env = env }) in
      if is_failure c1.vxd_error
      then (minus_one, c1)
      else if is_failure c2.vxd_error
      then (minus_one, c2)
      else (pos t, c2)

  -- The loop that waits for the flag; it has no bound of its own.
  unfoldable pub wait_loop : ℕ → M (Wsock E) (Unit {0})
  wait_loop zero c = none
  wait_loop (suc fuel) c =
      let (flag, env) = driver.io_completed (driver.yields c.env) in
      elim (flag == 0) [
        | true ↦ wait_loop fuel (record c { env = env })
        | false ↦ some (tt, record c { waiting = false; env = env })
      ]

  -- `__wsock_select_wait`.
  unfoldable pub select_wait : ℕ → ℕ → M (Wsock E) ℤ
  select_wait fuel event c =
      let c1 = select_setup event c in
      if is_failure c1.vxd_error
      then some (minus_one, c1)
      else elim (wait_loop fuel (record c1 { waiting = true })) [
        | none ↦ none
        | some (u, c2) ↦
            let c3 = select_cleanup (counts event) c2 in
            some ((if is_failure c3.vxd_error then minus_one else pos 1), c3)
      ]

  -- `__wsock_select_wait_kill`, with what the parameters of the last cleanup were.
  unfoldable pub select_wait_kill : Counts → Wsock E → Wsock E
  unfolding select_cleanup
  select_wait_kill lists c = if c.waiting then select_cleanup lists c else c

  -- `__wsock_nonblocking_check`.
  abbrev pub is_positive : ℤ → Bool
  is_positive (pos zero) = false
  is_positive (pos (suc n)) = true
  is_positive _ = false

  unfoldable pub nonblocking_check : Wsock E → ℤ × Wsock E
  unfolding select
  nonblocking_check c =
      let (ready, c1) = select fd_write c in
      if c.sock.connecting && not c.sock.connected
      then if is_positive ready
        then (pos 0, record c1 { sock = record c1.sock { connecting = false; connected = true } })
        else (pos 0, c1)
      else (pos 0, c)
