-- ===== src/Wsock/Outcomes/Blocking.antt =====
-- src/wsock/w_connct.c, which leaves blocking mode for a while.
use libsocket.Base.{
  ℕ, zero, suc, ◌≤◌, ◌<◌, Bool, true, false, not, ◌&&◌, ◌==◌, Option, none, some, List, length,
  take, memcpy-given, ◌≡◌, ◌⊎◌, inl, inr, refl, ap, sym, ◌∙◌, arith, Returns, Returns-mono,
  given-Returns, if-Returns, Bool-cases, length-take,
}
use libsocket.Base.Int.{ℤ, pos, minus_one}
use libsocket.Layer.Types.{Errno, Socket}
use libsocket.Wsock.Calls.{given_bytes, given_bytes-given, ioctl, ioctl_call}
use libsocket.Wsock.Select.{select_setup, select_cleanup, wait_loop, select_wait, fd_write}
use libsocket.Wsock.Transfer.{is_retried, negated, keep_address, connect_wait, connect}
use libsocket.Wsock.Types.{fionbio, Driver, Wsock, is_failure, callvxd}

-- What the functions rely on in the driver: FIONBIO succeeds and leaves its flag, an address comes
-- back as long as it went, and a select completes: with every look at the flag that finds it clear,
-- `turns` falls, which is below `fuel`.
pub record IsReliable {E : Type 0} (driver : Driver E) (fuel : ℕ) : Type 0 where
  pub nonblocking : (s p : ℕ) (env : E) → (driver.ioctl s fionbio p env).0 ≡ (0, p)
  pub address : (s : ℕ) (a : List ℕ) (env : E) → length (driver.connect s a env).0.1 ≡ length a
  pub turns : E → ℕ
  pub bounded : (env : E) → turns env < fuel
  pub falls :
      (env : E)
      → (driver.io_completed (driver.yields env)).0 ≡ 0
      → turns (driver.io_completed (driver.yields env)).1 < turns env

module _ {E : Type 0} (driver : Driver E) (bound : ℕ) (reliable : IsReliable driver bound) where
  -- FIONBIO with this flag.
  ioctl-fionbio :
      (p : ℕ) (c : Wsock E)
      → ((ioctl driver fionbio p c).0.1 ≡ p)
        × ((ioctl driver fionbio p c).1.sock ≡ record c.sock { blocking = p == 0 })
        × ((ioctl driver fionbio p c).1.errno ≡ c.errno)
        × ((ioctl driver fionbio p c).1.inetaddr ≡ c.inetaddr)
  unfolding ioctl ioctl_call callvxd
  ioctl-fionbio p c = rw (reliable.nonblocking c.socket p c.env) (refl, refl, refl, refl)

  wait_loop-Returns :
      (fuel : ℕ) (c : Wsock E)
      → reliable.turns c.env < fuel
      → Returns (wait_loop driver fuel c) (λ u c'. (c'.sock ≡ c.sock) × (c'.inetaddr ≡ c.inetaddr))
  unfolding wait_loop
  wait_loop-Returns zero c h = absurd (omega arith)
  wait_loop-Returns (suc fuel) c h =
      let (flag, env) = driver.io_completed (driver.yields c.env) in
      elim (Bool-cases (flag == 0)) [
        | inl e ↦
            let none_yet : flag ≡ 0 = ground arith in
            let less = reliable.falls c.env none_yet in
            rw (e, wait_loop)
              (wait_loop-Returns fuel (record c { env = env }) (omega (arith, less)))
        | inr e ↦ rw (e, wait_loop) (refl, refl)
      ]

  -- A call that keeps the descriptor behind one that does.
  waited-Returns :
      {A B : Type 0} (o : Option (A × Wsock E)) (g : Wsock E → B × Wsock E) (c : Wsock E)
      → ((c' : Wsock E) → ((g c').1.sock ≡ c'.sock) × ((g c').1.inetaddr ≡ c'.inetaddr))
      → Returns o (λ a c'. (c'.sock ≡ c.sock) × (c'.inetaddr ≡ c.inetaddr))
      → Returns
          (elim o [ none ↦ none | some (a, c') ↦ some (g c') ])
          (λ b c'. (c'.sock ≡ c.sock) × (c'.inetaddr ≡ c.inetaddr))
  waited-Returns none g c keep h = h
  waited-Returns (some (a, c')) g c keep h = ((keep c').0 ∙ h.0, (keep c').1 ∙ h.1)

  select_setup-Kept :
      (event : ℕ) (c : Wsock E)
      → ((select_setup driver event c).sock ≡ c.sock)
        × ((select_setup driver event c).inetaddr ≡ c.inetaddr)
  unfolding select_setup callvxd
  select_setup-Kept event c = (refl, refl)

  pub select_wait-Kept :
      (event : ℕ) (c : Wsock E)
      → Returns
          (select_wait driver bound event c)
          (λ a c'. (c'.sock ≡ c.sock) × (c'.inetaddr ≡ c.inetaddr))
  unfolding select_wait select_cleanup callvxd
  select_wait-Kept event c =
      let c1 = select_setup driver event c in
      if-Returns (is_failure c1.vxd_error) _ _ _ (λ _. select_setup-Kept event c)
        (λ _.
          waited-Returns (wait_loop driver bound (record c1 { waiting = true })) _ c
            (λ c'. (refl, refl))
            (Returns-mono (wait_loop driver bound (record c1 { waiting = true })) _ _
              (wait_loop-Returns bound (record c1 { waiting = true }) (reliable.bounded _))
              (λ u c' h.
                (h.0 ∙ (select_setup-Kept event c).0, h.1 ∙ (select_setup-Kept event c).1))))

  -- A failure of the connection leaves the caller's address, and on a socket that blocks it is none
  -- that asks to wait.
  abbrev IsAnswer : Wsock E → List ℕ → ℤ × List ℕ → Wsock E → Type 0
  IsAnswer c serv_addr out c' =
      (c'.sock ≡ c.sock)
      × ((out.0 ≡ pos 0)
          ⊎ ((out.0 ≡ minus_one)
              × (out.1 ≡ serv_addr)
              × ((c.sock.blocking && is_retried c'.errno) ≡ false)))

  keep_address-IsAnswer :
      (c0 c : Wsock E) (serv_addr address : List ℕ) (addrlen : ℕ)
      → addrlen ≤ length serv_addr
      → addrlen ≤ length address
      → addrlen ≤ length c.inetaddr
      → c.sock ≡ c0.sock
      → Returns (keep_address driver serv_addr addrlen address c) (IsAnswer c0 serv_addr)
  unfolding keep_address
  keep_address-IsAnswer c0 c serv_addr address addrlen inside given room same =
      let (out, copied, size) = memcpy-given serv_addr address addrlen inside given in
      let (inetaddr, kept, size') =
        memcpy-given c.inetaddr out addrlen room (omega (arith, size, inside)) in
      rw (copied, kept, keep_address) (same, inl refl)

  callvxd-sock : (e : ℕ) (env : E) (c : Wsock E) → (callvxd e env c).sock ≡ c.sock
  unfolding callvxd
  callvxd-sock e env c = refl

  callvxd-inetaddr : (e : ℕ) (env : E) (c : Wsock E) → (callvxd e env c).inetaddr ≡ c.inetaddr
  unfolding callvxd
  callvxd-inetaddr e env c = refl

  pub then-Returns :
      {A B : Type 0} (o : Option (A × Wsock E)) (g : A → Wsock E → Option (B × Wsock E))
      (c : Wsock E) (R : B → Wsock E → Type 0)
      → Returns o (λ a c'. (c'.sock ≡ c.sock) × (c'.inetaddr ≡ c.inetaddr))
      → ((a : A) (c' : Wsock E)
          → (c'.sock ≡ c.sock) × (c'.inetaddr ≡ c.inetaddr)
          → Returns (g a c') R)
      → Returns (elim o [ none ↦ none | some (a, c') ↦ g a c' ]) R
  then-Returns none g c R h f = h
  then-Returns (some (a, c')) g c R h f = f a c' h

  -- The mode after both calls of FIONBIO.
  back_again : (k : Socket) → k.blocking ≡ true → record k { blocking = true } ≡ k
  back_again k h = ap (λ b. record k { blocking = b }) (sym h)

  restored :
      (flag : ℕ) (c0 c : Wsock E)
      → flag ≡ 1
      → c0.sock.blocking ≡ true
      → c.sock ≡ record c0.sock { blocking = false }
      → (ioctl driver fionbio (negated flag) c).1.sock ≡ c0.sock
  restored flag c0 c one blocks same =
      (ioctl-fionbio (negated flag) c).1
      ∙ ap (λ n. record c.sock { blocking = negated n == 0 }) one
      ∙ ap (λ (k : Socket). record k { blocking = true }) same
      ∙ back_again c0.sock blocks

  not_retried :
      (b : Bool) (e e' : Errno) (failed : Bool)
      → failed && not (is_retried e) ≡ true
      → e' ≡ e
      → (b && is_retried e') ≡ false
  not_retried b e e' failed h same = rw same (ground (arith))

  connect_wait-IsAnswer :
      (c : Wsock E) (serv_addr bytes : List ℕ) (addrlen : ℕ)
      → c.sock.blocking ≡ true
      → addrlen ≤ length serv_addr
      → length bytes ≡ addrlen
      → addrlen ≤ length c.inetaddr
      → Returns (connect_wait driver bound serv_addr addrlen bytes c) (IsAnswer c serv_addr)
  unfolding connect_wait
  connect_wait-IsAnswer c serv_addr bytes addrlen blocks inside size room =
      let (first, c1) = ioctl driver fionbio 1 c in
      let (got, env) = driver.connect c1.socket bytes c1.env in
      let c2 = callvxd got.0 env c1 in
      let (flag, sock1, errno1, inet1) = ioctl-fionbio 1 c in
      if-Returns (not (c2.vxd_error == 0) && not (is_retried c2.errno)) _ _ _
        (λ e. (
          restored first.1 c c2 flag blocks (callvxd-sock got.0 env c1 ∙ sock1),
          inr (
            refl,
            refl,
            not_retried c.sock.blocking c2.errno _ _ e (ioctl-fionbio (negated first.1) c2).2,
          ),
        ))
        (λ _.
          then-Returns (select_wait driver bound fd_write c2) _ c2 _ (select_wait-Kept fd_write c2)
            (λ a c3 h.
              let c4 = (ioctl driver fionbio (negated first.1) c3).1 in
              keep_address-IsAnswer c c4 serv_addr got.1 addrlen inside
                (omega (arith, size, reliable.address c1.socket bytes c1.env))
                (rw
                  (
                    (ioctl-fionbio (negated first.1) c3).3,
                    h.1,
                    callvxd-inetaddr got.0 env c1,
                    inet1,
                  )
                  room)
                (restored first.1 c c3 flag blocks (h.0 ∙ callvxd-sock got.0 env c1 ∙ sock1))))

  blocking_false : (b r : Bool) → b ≡ false → (b && r) ≡ false
  blocking_false b r h = ground arith

  -- `__wsock_connect` ends and leaves the descriptor as it was, its blocking mode included, which it
  -- changes for the time of the call. It answers 0, or -1 with the caller's address untouched, and a
  -- socket in blocking mode never fails with EWOULDBLOCK or EINPROGRESS. The address is within the
  -- caller's buffer and at most as long as `inetaddr`, and the driver is one to rely on.
  pub connect-IsAnswer :
      (serv_addr : List ℕ) (addrlen : ℕ) (c : Wsock E)
      → addrlen ≤ length serv_addr
      → addrlen ≤ length c.inetaddr
      → Returns (connect driver bound serv_addr addrlen c) (IsAnswer c serv_addr)
  unfolding connect
  connect-IsAnswer serv_addr addrlen c inside room =
      let bytes = take addrlen serv_addr in
      let size : length bytes ≡ addrlen = omega (arith, length-take addrlen serv_addr, inside) in
      let (got, env) = driver.connect c.socket bytes c.env in
      let c1 = callvxd got.0 env c in
      given-Returns (given_bytes serv_addr addrlen) bytes _ _
        (given_bytes-given serv_addr addrlen inside)
        (if-Returns c.sock.blocking _ _ _
          (λ blocks. connect_wait-IsAnswer c serv_addr bytes addrlen blocks inside size room)
          (λ free.
            if-Returns (is_failure c1.vxd_error) _ _ _
              (λ _.
                (callvxd-sock got.0 env c, inr (refl, refl, blocking_false c.sock.blocking _ free)))
              (λ _.
                keep_address-IsAnswer c c1 serv_addr got.1 addrlen inside
                  (omega (arith, size, reliable.address c.socket bytes c.env))
                  (rw (callvxd-inetaddr got.0 env c) room) (callvxd-sock got.0 env c))))
