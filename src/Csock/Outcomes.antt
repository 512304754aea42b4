-- ===== src/Csock/Outcomes.antt =====
-- How the functions of src/csock answer the errors of the driver.
use libsocket.Base.{ℕ, suc, ◌+◌, ◌≤◌, ◌<◌, true, false, ltb, List, ◌≡◌, ◌⊎◌, refl, arith, Returns}
use libsocket.Base.Int.{ℤ, pos, negsuc, minus_one}
use libsocket.Csock.Descriptors.{fd_get_usage, socket}
use libsocket.Csock.Errors.{csock_errno, select_case}
use libsocket.Csock.Transfer.{send, recv}
use libsocket.Csock.Types.{Driver, Csock}
use libsocket.Layer.Types.{Errno, emfile, enomem}

small_negative : (n : ℕ) (e : Errno) → n < 255 → csock_errno (negsuc n) e ≡ e
unfolding csock_errno select_case
small_negative n e h = ground arith

module _ {E : Type 0} (driver : Driver E) where
  recv_error :
      (buf : List ℕ) (len n : ℕ) (c : Csock E)
      → n < 255
      → (driver.recv c.fd buf len c.env).0.0 ≡ negsuc n
      → Returns (recv driver buf len 0 c) (λ out c'. (out.0 ≡ minus_one) × (c'.errno ≡ c.errno))
  unfolding recv
  recv_error buf len n c h e = rw (e, recv) (refl, small_negative n c.errno h)

  send_error :
      (msg : List ℕ) (len n : ℕ) (c : Csock E)
      → n < 255
      → (driver.send c.fd msg len c.env).0 ≡ negsuc n
      → Returns
          (send driver msg len 0 c)
          (λ out c'. (out ≡ minus_one) × (c'.errno ≡ csock_errno (pos (suc n)) c.errno))
  unfolding send
  send_error msg len n c h e =
      let small : ltb (suc n) 256 ≡ true = ground arith in rw (e, send) (rw small (refl, refl))

  -- Where the driver answers with the negated number of a TDI error, `__csock_send` and
  -- `__csock_recv` both fail; the first sets `errno` by that error, the second leaves it.
  pub recv-send_errno :
      (buf msg : List ℕ) (len n : ℕ) (c : Csock E)
      → n < 255
      → (driver.recv c.fd buf len c.env).0.0 ≡ negsuc n
      → (driver.send c.fd msg len c.env).0 ≡ negsuc n
      → Returns (recv driver buf len 0 c) (λ out c'. (out.0 ≡ minus_one) × (c'.errno ≡ c.errno))
        × Returns
            (send driver msg len 0 c)
            (λ out c'. (out ≡ minus_one) × (c'.errno ≡ csock_errno (pos (suc n)) c.errno))
  recv-send_errno buf msg len n c h r s = (recv_error buf len n c h r, send_error msg len n c h s)

  -- Descriptor `j` was found free, in some state of the loop, and the driver has then created it.
  abbrev pub Opened : ℕ → Type 0
  Opened j =
      (c : Csock E) × ((fd_get_usage driver j c).0 ≡ false)
      × (let c1 = (fd_get_usage driver j c).1 in
          (driver.socket c1.sock.protocol j c1.env).0 ≡ pos 0)

  -- Where the loop stops: as it began, or at a free descriptor that the driver has created.
  abbrev pub Stops : ℕ → ℕ → ℤ → ℤ × Csock E → Type 0
  Stops n i fd out =
      (out.1.fd ≡ fd)
      ⊎ ((j : ℕ) × (i ≤ j) × (j < i + n) × (out.1.fd ≡ pos j) × (out.0 ≡ pos 0) × Opened j)

  -- The two results of `__csock_socket`.
  abbrev pub Made : ℤ → Csock E → Type 0
  Made ret c =
      ((ret ≡ pos 0)
        × ((j : ℕ) × (1 ≤ j) × (j < 32) × (c.fd ≡ pos j) × (c.fd_table j ≡ true) × Opened j))
      ⊎ ((ret ≡ minus_one) × ((c.errno ≡ emfile) ⊎ (c.errno ≡ enomem)))
