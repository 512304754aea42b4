-- ===== src/Csock/Honest/Calls.antt =====
-- What the functions of src/csock leave of the layer's descriptor: most of them all of it.
use libsocket.Base.{
  ℕ, ◌&&◌, not, Bool, true, false, Option, some, List, ◌≡◌, ◌∙◌, arith, M, Option-cases, Bool-cases,
  inl, inr, ◌⊎◌,
}
use libsocket.Base.Int.{ℤ, pos, ◌==ℤ◌}
use libsocket.Csock.Calls.{
  bind, listen, connect, select, fcntl, nonblocking_check, Command, f_setfl, f_getfl, other_command,
  finish, with_address, set_blocking, fd_write,
}
use libsocket.Csock.Descriptors.{close}
use libsocket.Csock.Names.{
  Inet, getsockname, getpeername, getsockopt, SockOption, int_option, time_option, unknown_option,
}
use libsocket.Csock.Transfer.{send, recv}
use libsocket.Csock.Types.{Driver, Csock}
use libsocket.Layer.Sound.{IsSound}
use libsocket.Csock.Honest.Mild.{Mild, Mild-refl, Mild-eq, Mild-blocking, Mild-connected}

module _ {E : Type 0} (driver : Driver E) where
  abbrev pub Same : {A : Type 0} → M (Csock E) A → Type 0
  Same {A = A} m = (c d : Csock E) (a : A) → m c ≡ some (a, d) → d.sock ≡ c.sock

  pub bind-Same : (a : List ℕ) (n : ℕ) → Same (bind driver a n)
  unfolding bind with_address finish
  bind-Same a n c d r h = ground arith

  pub listen-Same : (b : ℤ) → Same (listen driver b)
  unfolding listen finish
  listen-Same b c d r h = ground arith

  pub connect-Same : (a : List ℕ) (n : ℕ) → Same (connect driver a n)
  unfolding connect with_address finish
  connect-Same a n c d r h = ground arith

  pub close-Same : Same (close driver)
  unfolding close
  close-Same c d r h = ground arith

  pub select-Same : (e : ℕ) → Same (select driver e)
  unfolding select
  select-Same e c d r h = ground arith

  pub send-Same : (b : List ℕ) (n g : ℕ) → Same (send driver b n g)
  unfolding send
  send-Same b n g c d r h = ground arith

  pub recv-Same : (b : List ℕ) (n g : ℕ) → Same (recv driver b n g)
  unfolding recv
  recv-Same b n g c d r h = ground arith

  pub getsockname-Same :
      (inet : List Inet) (a : List ℕ) (n : ℕ) → Same (getsockname driver inet a n)
  unfolding getsockname
  getsockname-Same inet a n c d r h = ground arith

  pub getpeername-Same : (a : List ℕ) (n : ℕ) → Same (getpeername driver a n)
  unfolding getpeername
  getpeername-Same a n c d r h = ground arith

  pub set_blocking-Mild :
      (b : Bool) (c : Csock E) → IsSound c.sock → Mild c.sock (set_blocking driver b c).1.sock
  unfolding set_blocking
  set_blocking-Mild b c s = elim (Bool-cases ((driver.set_nonblocking c.fd b c.env).0 ==ℤ pos 0)) [
    | inl e ↦ rw (e, set_blocking) (Mild-blocking (not b) c.sock s)
    | inr e ↦ rw (e, set_blocking) (Mild-refl c.sock s)
  ]

  pub fcntl-Mild :
      (n : ℕ) (k : Command) (c d : Csock E) (a : Option ℤ)
      → IsSound c.sock
      → fcntl driver n k c ≡ some (a, d)
      → Mild c.sock d.sock
  unfolding fcntl
  fcntl-Mild n (f_setfl wanted) c d a s h =
      let same : d.sock ≡ (set_blocking driver wanted c).1.sock = ground arith in
      rw same (set_blocking-Mild wanted c s)
  fcntl-Mild n f_getfl c d a s h = Mild-eq c.sock d.sock s (ground arith)
  fcntl-Mild n other_command c d a s h = Mild-eq c.sock d.sock s (ground arith)

  pub check-Mild :
      (c d : Csock E) (a : ℤ)
      → IsSound c.sock
      → nonblocking_check driver c ≡ some (a, d)
      → Mild c.sock d.sock
  unfolding nonblocking_check
  check-Mild c d a s h = elim (Bool-cases (c.sock.connecting && not c.sock.connected)) [
    | inl e ↦ elim (Option-cases (select driver fd_write c)) [
      | inl n ↦ ground arith
      | inr ((r, c'), n) ↦
          let kept : c'.sock ≡ c.sock = select-Same fd_write c c' r n in
          let out : (d.sock ≡ c'.sock)
              ⊎ (d.sock ≡ record c'.sock { connecting = false; connected = true }) =
            ground arith in
          elim out [
            | inl e' ↦ Mild-eq c.sock d.sock s (e' ∙ kept)
            | inr e' ↦ rw (e', kept) (Mild-connected false true c.sock s)
          ]
    ]
    | inr e ↦ Mild-eq c.sock d.sock s (ground arith)
  ]

  pub getsockopt-Same :
      (l : Bool) (o : SockOption) (v : List ℕ) (n : ℕ) → Same (getsockopt {E = E} l o v n)
  unfolding getsockopt
  getsockopt-Same false o v n c d a h = ground arith
  getsockopt-Same true (int_option x) v n c d a h = ground arith
  getsockopt-Same true time_option v n c d a h = ground arith
  getsockopt-Same true unknown_option v n c d a h = ground arith
