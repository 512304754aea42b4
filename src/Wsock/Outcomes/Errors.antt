-- ===== src/Wsock/Outcomes/Errors.antt =====
-- SO_ERROR of src/wsock/w_sckopt.c, through `__wsock_errno` of src/wsock/w_errors.c.
use libsocket.Base.{
  ℕ, ◌+◌, ◌%◌, ◌≤◌, false, ◌&&◌, ◌==◌, ltb, Option, none, some, List, [], ◌∷◌, ◌++◌, length, take,
  drop, memcpy, memcpy-given, ◌≡◌, ◌⊎◌, inl, inr, refl, ap, ◌∙◌, arith, Returns, if-Returns,
  Bool-cases,
}
use libsocket.Base.Int.{ℤ, pos}
use libsocket.Layer.Types.{other}
use libsocket.Wsock.Calls.{given_bytes-given}
use libsocket.Wsock.Errors.{wsock_errno, find_error}
use libsocket.Wsock.Options.{
  read_int, int_bytes, translate_error, store_option, getsockopt, so_error,
}
use libsocket.Wsock.Types.{OptionValue, Driver, Wsock, is_failure, callvxd}

success-cases : (e : ℕ) → is_failure e ≡ false → (e ≡ 0) ⊎ (e ≡ 65535)
success-cases e h = ground arith

no_error : (n e : ℕ) → is_failure e ≡ false → wsock_errno n e ≡ other 0
unfolding wsock_errno find_error
no_error n e h = elim (success-cases e h) [ inl z ↦ rw z refl | inr z ↦ rw z refl ]

read_int-given : (xs : List ℕ) → 4 ≤ length xs → (n : ℕ) × (read_int xs ≡ some n)
unfolding read_int
read_int-given [] h = absurd (omega arith)
read_int-given (a ∷ []) h = absurd (omega arith)
read_int-given (a ∷ (b ∷ [])) h = absurd (omega arith)
read_int-given (a ∷ (b ∷ (c ∷ []))) h = absurd (omega arith)
read_int-given (a ∷ (b ∷ (c ∷ (d ∷ xs)))) h = (_, refl)

store-zero :
    (xs : List ℕ) → 4 ≤ length xs → memcpy xs (int_bytes 0) 4 ≡ some (int_bytes 0 ++ drop 4 xs)
unfolding memcpy
store-zero xs h = ground arith

read-zero : (xs : List ℕ) → read_int (int_bytes 0 ++ xs) ≡ some 0
unfolding read_int
read-zero xs = refl

module _ {E : Type 0} (driver : Driver E) (numbers : driver.number (other 0) ≡ 0) where
  translate-zero :
      (n : ℕ) (c : Wsock E) → is_failure c.vxd_error ≡ false → translate_error driver n c ≡ 0
  unfolding translate_error
  translate-zero n c h = ap driver.number (no_error n c.vxd_error h) ∙ numbers

  -- What is stored, whichever way the driver gives its value.
  abbrev IsStored : Option (List ℕ × ℕ) → Type 0
  IsStored none = ⊥
  IsStored (some (out, len)) = read_int out ≡ some 0

  store_option-IsStored :
      (got : OptionValue) (optval : List ℕ) (c : Wsock E)
      → is_failure c.vxd_error ≡ false
      → 4 ≤ length optval
      → got.value_length ≤ length optval
      → got.value_length ≤ length got.value
      → IsStored (store_option driver so_error got optval c)
  unfolding store_option
  store_option-IsStored got optval c ok room fits given =
      elim (Bool-cases (got.is_null && got.value_length == 0)) [
        | inl z ↦
            rw (z, translate-zero got.int_value c ok, store-zero optval room, store_option)
              (read-zero (drop 4 optval))
        | inr z ↦
            let (out, copied, size) = memcpy-given optval got.value got.value_length fits given in
            let four : 4 ≤ length out = omega (arith, size, room) in
            let (value, read) = read_int-given out four in
            rw (z, copied, read, translate-zero value c ok, store-zero out four, store_option)
              (read-zero (drop 4 out))
      ]

  stored-Returns :
      (o : Option (List ℕ × ℕ)) (c : Wsock E)
      → IsStored o
      → Returns
          (elim o [ none ↦ none | some (out, len) ↦ some ((pos 0, out, len), c) ])
          (λ (a : ℤ × List ℕ × ℕ) c'. (a.0 ≡ pos 0) × (read_int a.1 ≡ some 0))
  stored-Returns none c h = h
  stored-Returns (some (out, len)) c h = (refl, h)

  -- `__wsock_getsockopt` stores 0 for SO_ERROR whenever the driver's command succeeds, whatever
  -- error the driver reports for the socket: `__wsock_errno` looks for the error of the command
  -- where it is given the one of the socket. The option's buffer holds an `int` and what the
  -- driver says that it has put there, and the request fits the buffer of the driver.
  pub getsockopt-so_error :
      (level optlen : ℕ) (optval : List ℕ) (c : Wsock E)
      → 4 ≤ length optval
      → optlen ≤ length optval
      → optlen + 24 ≤ driver.size_p
      → let (got, env) = driver.getsockopt c.socket level so_error (take optlen optval) c.env in
        is_failure (got.0 % 65536) ≡ false
        → got.1.value_length ≤ length optval
        → got.1.value_length ≤ length got.1.value
        → Returns
            (getsockopt driver level so_error optval optlen c)
            (λ a c'. (a.0 ≡ pos 0) × (read_int a.1 ≡ some 0))
  unfolding getsockopt
  getsockopt-so_error level optlen optval c room inside fits ok stored given =
      let (got, env) = driver.getsockopt c.socket level so_error (take optlen optval) c.env in
      let c1 = callvxd got.0 env c in
      if-Returns (ltb driver.size_p (optlen + 24)) _ _ _ (λ e. absurd (ground arith))
        (λ _. rw (given_bytes-given optval optlen inside) (
          if-Returns (is_failure c1.vxd_error) _ _ _ (λ f. absurd (ground arith))
            (λ _.
              stored-Returns (store_option driver so_error got.1 optval c1) c1
                (store_option-IsStored got.1 optval c1 ok room stored given))))
