-- ===== src/Csock/Honest/Names.antt =====
-- The sizes of what the functions of src/csock hand back.
use libsocket.Base.{
  ℕ, ◌≤◌, Bool, true, false, Option, some, List, length, ◌≡◌, arith, Bool-cases, inl, inr,
  length-drop, leb,
}
use libsocket.Base.Int.{ℤ}
use libsocket.Csock.Names.{
  Inet, local_addr, getsockname, getsockopt, SockOption, int_option, time_option, unknown_option,
  put_int, put_time,
}
use libsocket.Csock.Types.{Driver, Csock, store_in, sin_addr}

module _ {E : Type 0} (driver : Driver E) where
  length-store_in :
      (a : List ℕ) (p n : ℕ) (out : List ℕ) → store_in a p n ≡ some out → length out ≡ length a
  unfolding store_in
  length-store_in a p n out h = elim (Bool-cases (leb 8 (length a))) [
    | inl e ↦ ground (arith, length-drop 8 a)
    | inr e ↦ ground arith
  ]

  pub getsockname-fits :
      (inet : List Inet) (a : List ℕ) (n : ℕ) (c d : Csock E) (y : ℤ) (out : List ℕ) (k : ℕ)
      → getsockname driver inet a n c ≡ some ((y, out, k), d)
      → (length out ≡ length a) × (n ≤ length a → k ≤ length a)
  unfolding getsockname
  getsockname-fits inet a n c d y out k h = ground (
    arith,
    length-store_in a (driver.getsockname c.fd c.env).0.2
        (local_addr (sin_addr c.sock.peername) 0 inet) out,
  )

  length-put_int : (x : ℕ) (v out : List ℕ) → put_int x v ≡ some out → length out ≡ length v
  unfolding put_int
  length-put_int x v out h = elim (Bool-cases (leb 4 (length v))) [
    | inl e ↦ ground (arith, length-drop 4 v)
    | inr e ↦ ground arith
  ]

  length-put_time : (v out : List ℕ) → put_time v ≡ some out → length out ≡ length v
  unfolding put_time
  length-put_time v out h = elim (Bool-cases (leb 8 (length v))) [
    | inl e ↦ ground (arith, length-drop 8 v)
    | inr e ↦ ground arith
  ]

  pub getsockopt-fits :
      (l : Bool) (o : SockOption) (v : List ℕ) (n : ℕ) (c d : Csock E) (y : Option ℤ) (out : List ℕ)
      (k : ℕ)
      → getsockopt l o v n c ≡ some ((y, out, k), d)
      → (length out ≡ length v) × (n ≤ length v → k ≤ length v)
  unfolding getsockopt
  getsockopt-fits false o v n c d y out k h = ground arith
  getsockopt-fits true (int_option x) v n c d y out k h = ground (arith, length-put_int x v out)
  getsockopt-fits true time_option v n c d y out k h = ground (arith, length-put_time v out)
  getsockopt-fits true unknown_option v n c d y out k h = ground arith
