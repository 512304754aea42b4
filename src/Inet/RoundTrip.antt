-- ===== src/Inet/RoundTrip.antt =====
-- `inet_aton` of src/inet/i_addr.c on the texts of `inet_ntoa`.
use libsocket.Base.{
  ℕ, suc, ◌+◌, ◌-◌, ◌*◌, ◌/◌, ◌%◌, ◌<◌, ◌^◌, ◌==◌, ltb, true, false, some, List, [], ◌∷◌, ◌++◌,
  append-nil, ◌≡◌, refl, sym, ap, ◌∙◌, arith, Bool-cases, inl, inr,
}
use libsocket.Inet.Order.{htonl}
use libsocket.Inet.Text.{
  is_digit, scan_digits, scan_prefixed, scan_number, starts_dot, scan_parts, concoct, ends_text,
  inet_aton, decimal, inet_ntoa,
}

-- The text goes on with no digit.
pub data Stops : List ℕ → Type 0 where
  at_end : Stops []
  at_dot : {cs : List ℕ} → Stops (b'.' ∷ cs)

scan_digits-Stops : (val : ℕ) (rest : List ℕ) → Stops rest → scan_digits 10 val rest ≡ (val, rest)
unfolding scan_digits
scan_digits-Stops val [] at_end = refl
scan_digits-Stops val (c ∷ cs) at_dot = refl

scan_prefixed-Stops : (rest : List ℕ) → Stops rest → scan_prefixed rest ≡ (0, rest)
unfolding scan_prefixed
scan_prefixed-Stops [] at_end = refl
scan_prefixed-Stops (c ∷ cs) at_dot = refl

scan_digits-digit :
    (val d v : ℕ) (rest : List ℕ)
    → d < 10
    → val < 1000
    → val * 10 + d ≡ v
    → scan_digits 10 val ((b'0' + d) ∷ rest) ≡ scan_digits 10 v rest
unfolding scan_digits
scan_digits-digit val d v rest h k e =
    let digit : is_digit (b'0' + d) ≡ true = ground arith in
    let value : (val * 10 + (b'0' + d - b'0')) % 2 ^ 32 ≡ v = omega (arith, e) in
    rw (digit, value) refl

-- The last digits of a number of at most three.
scan_last :
    (val d v : ℕ) (rest : List ℕ)
    → d < 10
    → val < 1000
    → val * 10 + d ≡ v
    → Stops rest
    → scan_digits 10 val ((b'0' + d) ∷ rest) ≡ (v, rest)
scan_last val d v rest h k e stops =
    scan_digits-digit val d v rest h k e ∙ scan_digits-Stops v rest stops

scan_number-digit :
    (d : ℕ) (rest : List ℕ)
    → 0 < d
    → d < 10
    → scan_number ((b'0' + d) ∷ rest) ≡ scan_digits 10 d rest
unfolding scan_number
scan_number-digit d rest z h =
    let no_zero : (b'0' + d == b'0') ≡ false = ground arith in
    rw no_zero (scan_digits-digit 0 d d rest h (omega arith) (omega arith))

scan_number-zero : (rest : List ℕ) → Stops rest → scan_number (b'0' ∷ rest) ≡ (0, rest)
unfolding scan_number
scan_number-zero rest stops = scan_prefixed-Stops rest stops

-- The number of a byte is read back, and what follows is left.
pub scan_number-decimal :
    (n : ℕ) (rest : List ℕ) → n < 256 → Stops rest → scan_number (decimal n ++ rest) ≡ (n, rest)
unfolding decimal
scan_number-decimal n rest h stops = elim (Bool-cases (ltb n 10)) [
  | inl one ↦ elim (Bool-cases (n == 0)) [
    | inl z ↦ let zero : n ≡ 0 = ground arith in rw (one, zero) (scan_number-zero rest stops)
    | inr nz ↦
        rw one
          (scan_number-digit n rest (ground arith) (ground arith) ∙ scan_digits-Stops n rest stops)
  ]
  | inr more ↦ elim (Bool-cases (ltb n 100)) [
    | inl two ↦
        rw (more, two)
          (scan_number-digit (n / 10) ((b'0' + n % 10) ∷ rest) (ground arith) (ground arith)
            ∙ scan_last (n / 10) (n % 10) n rest (omega arith) (ground arith) (omega arith) stops)
    | inr three ↦
        rw (more, three)
          (scan_number-digit (n / 100) ((b'0' + n / 10 % 10) ∷ ((b'0' + n % 10) ∷ rest))
              (ground arith) (omega arith)
            ∙ scan_digits-digit (n / 100) (n / 10 % 10) (n / 10) ((b'0' + n % 10) ∷ rest)
                (omega arith) (omega arith) (omega arith)
            ∙ scan_last (n / 10) (n % 10) n rest (omega arith) (omega arith) (omega arith) stops)
  ]
]

scan_parts-dot :
    (room : ℕ) (parts : List ℕ) (n : ℕ) (cs : List ℕ)
    → n < 256
    → scan_parts (suc room) parts (decimal n ++ (b'.' ∷ cs))
      ≡ scan_parts room (parts ++ (n ∷ [])) cs
unfolding scan_parts starts_dot
scan_parts-dot room parts n cs h = ground (arith, scan_number-decimal n (b'.' ∷ cs) h at_dot)

pub scan_number-end : (n : ℕ) → n < 256 → scan_number (decimal n) ≡ (n, [])
scan_number-end n h = rw (sym (append-nil (decimal n))) (scan_number-decimal n [] h at_end)

scan_parts-end :
    (parts : List ℕ) (n : ℕ) → n < 256 → scan_parts 0 parts (decimal n) ≡ some (parts, n, [])
unfolding scan_parts starts_dot
scan_parts-end parts n h = ground (arith, scan_number-end n h)

scan_parts-inet_ntoa :
    (a : ℕ)
    → scan_parts 3 [] (inet_ntoa a)
      ≡ some (a % 256 ∷ (a / 256 % 256 ∷ (a / 65536 % 256 ∷ [])), a / 16777216 % 256, [])
unfolding inet_ntoa
scan_parts-inet_ntoa a =
    scan_parts-dot 2 [] (a % 256) _ (omega arith)
    ∙ scan_parts-dot 1 (a % 256 ∷ []) (a / 256 % 256) _ (omega arith)
    ∙ scan_parts-dot 0 (a % 256 ∷ (a / 256 % 256 ∷ [])) (a / 65536 % 256) _ (omega arith)
    ∙ scan_parts-end (a % 256 ∷ (a / 256 % 256 ∷ (a / 65536 % 256 ∷ []))) (a / 16777216 % 256)
        (omega arith)

-- Every address of 32 bits is read back by `inet_aton` from the text that `inet_ntoa` writes.
pub inet_aton-inet_ntoa : (a : ℕ) → a < 2 ^ 32 → inet_aton (inet_ntoa a) ≡ some a
unfolding inet_aton concoct ends_text htonl
inet_aton-inet_ntoa a h =
    let small : ltb 0xff (a / 16777216 % 256) ≡ false = ground arith in
    rw (scan_parts-inet_ntoa a, inet_aton, small) (ap some (omega arith))
