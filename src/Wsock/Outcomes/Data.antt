-- ===== src/Wsock/Outcomes/Data.antt =====
-- The data that src/wsock/w_recv.c stores.
use libsocket.Base.{
  ℕ, min, ◌≤◌, true, ◌&&◌, ◌==◌, leb, Option, none, some, List, length, take, drop, ◌++◌, memcpy,
  ◌≡◌, ◌⊎◌, inl, inr, refl, ap, sym, arith, Returns, if-Returns, length-append, length-take,
  length-drop,
}
use libsocket.Base.Int.{ℤ, pos, minus_one, ◌==ℤ◌}
use libsocket.Wsock.Outcomes.Blocking.{IsReliable, select_wait-Kept, then-Returns}
use libsocket.Wsock.Select.{select_wait, fd_read}
use libsocket.Wsock.Transfer.{recv_call, recv_wait, recv, transfer_len, would_block}
use libsocket.Wsock.Types.{Received, Driver, Wsock}

-- What the driver says that it has received fits what it was asked for, and is there.
pub record IsHonest {E : Type 0} (driver : Driver E) : Type 0 where
  pub fits :
      (s len flags : ℕ) (a : Option ℕ) (env : E) → (driver.recv s len flags a env).0.1.count ≤ len
  pub there :
      (s len flags : ℕ) (a : Option ℕ) (env : E)
      → (driver.recv s len flags a env).0.1.count
        ≤ length (driver.recv s len flags a env).0.1.buffer

module _ {E : Type 0} (driver : Driver E) (bound : ℕ) (reliable : IsReliable driver bound)
    (honest : IsHonest driver) where
  -- At most so much is there to store.
  abbrev Fits : ℕ → Option Received → Type 0
  Fits len none = Unit {0}
  Fits len (some got) = (got.count ≤ min len driver.size_d) × (got.count ≤ length got.buffer)

  recv_call-Fits :
      (len flags : ℕ) (a : Option ℕ) (c : Wsock E)
      → Fits len (some (recv_call driver len flags a c).0)
  unfolding recv_call
  recv_call-Fits len flags a c = (
    honest.fits c.socket (transfer_len driver len) flags a c.env,
    honest.there c.socket (transfer_len driver len) flags a c.env,
  )

  recv_wait-Fits :
      (len flags : ℕ) (a : Option ℕ) (c : Wsock E)
      → Returns (recv_wait driver bound len flags a c) (λ got c'. Fits len got)
  unfolding recv_wait
  recv_wait-Fits len flags a c =
      let c1 = (recv_call driver len flags a c).1 in
      if-Returns (would_block c1.vxd_error) _ _ _
        (λ _.
          if-Returns c1.sock.blocking _ _ _
            (λ _.
              then-Returns driver bound reliable (select_wait driver bound fd_read c1) _ c1 _
                (select_wait-Kept driver bound reliable fd_read c1)
                (λ ret c2 h.
                  let (again, c3) = recv_call driver len flags a c2 in
                  if-Returns (ret ==ℤ minus_one) _ _ _ (λ _. tt)
                    (λ _.
                      if-Returns (c3.vxd_error == 0) _ _ _ (λ _. recv_call-Fits len flags a c2)
                        (λ _. tt))))
            (λ _. tt))
        (λ _. if-Returns (c1.vxd_error == 0) _ _ _ (λ _. recv_call-Fits len flags a c) (λ _. tt))

  -- The call fails and leaves the caller's buffer, or stores at its start the bytes of the driver's
  -- buffer, at most `limit` of them.
  pub IsStored : List ℕ → ℕ → ℤ × List ℕ → Type 0
  IsStored buf limit out =
      ((out.0 ≡ minus_one) × (out.1 ≡ buf))
      ⊎ ((bytes : List ℕ) × (out.0 ≡ pos (length bytes))
          × (length bytes ≤ limit)
          × (out.1 ≡ bytes ++ drop (length bytes) buf)
          × (length out.1 ≡ length buf))

  store-Returns :
      (o : Option (Option Received × Wsock E)) (buf : List ℕ) (len : ℕ)
      → len ≤ length buf
      → Returns o (λ got c'. Fits len got)
      → Returns
          (elim o [
            | none ↦ none
            | some (none, c') ↦ some ((minus_one, buf), c')
            | some (some got, c') ↦ elim (memcpy buf got.buffer got.count) [
              | none ↦ none
              | some out ↦ some ((pos got.count, out), c')
            ]
          ])
          (λ out c'. IsStored buf (min len driver.size_d) out)
  unfolding memcpy IsStored
  store-Returns none buf len room h = h
  store-Returns (some (none, c)) buf len room h = inl (refl, refl)
  store-Returns (some (some got, c)) buf len room h =
      let bytes = take got.count got.buffer in
      let size : length bytes ≡ got.count = omega (arith, length-take got.count got.buffer) in
      let inside : (leb got.count (length buf) && leb got.count (length got.buffer)) ≡ true =
        ground arith in
      rw (inside, memcpy)
        (inr (
          bytes,
          ap pos (sym size),
          omega (arith, size),
          ap (λ n. bytes ++ drop n buf) (sym size),
          omega (arith, length-append bytes (drop got.count buf), length-drop got.count buf, size),
        ))

  -- `__wsock_recv` ends, and fails with the caller's buffer untouched or stores bytes at its start:
  -- never more than the caller asked for nor than the buffer of the driver holds, and the rest of
  -- the caller's buffer stays. The caller's buffer is as long as he says, the driver's counts are
  -- honest, and its selects complete.
  pub recv-IsStored :
      (buf : List ℕ) (len flags : ℕ) (c : Wsock E)
      → len ≤ length buf
      → Returns
          (recv driver bound buf len flags c)
          (λ out c'. IsStored buf (min len driver.size_d) out)
  unfolding recv
  recv-IsStored buf len flags c room =
      store-Returns (recv_wait driver bound len flags none c) buf len room
        (recv_wait-Fits len flags none c)
