-- ===== src/Inet/Text.antt =====
-- `inet_aton` and `inet_addr` of src/inet/i_addr.c and `inet_ntoa` of src/inet/i_ntoa.c. A text is the
-- list of its characters before the terminating 0; `u_long` has 32 bits.
use libsocket.Base.{
  is_space, ℕ, zero, suc, ◌+◌, ◌-◌, ◌*◌, ◌/◌, ◌%◌, ◌^◌, ◌==◌, leb, ltb, Bool, true, ◌&&◌, ◌||◌,
  if◌then◌else◌, Option, none, some, List, [], ◌∷◌, ◌++◌,
}
use libsocket.Inet.Order.{htonl}

abbrev pub is_digit : ℕ → Bool
is_digit c = leb b'0' c && leb c b'9'

abbrev pub is_lower : ℕ → Bool
is_lower c = leb b'a' c && leb c b'z'

abbrev pub is_xdigit : ℕ → Bool
is_xdigit c = is_digit c || ((leb b'a' c && leb c b'f') || (leb b'A' c && leb c b'F'))

-- The loop over digits, with what follows them. The digits 8 and 9 count in every base.
unfoldable pub scan_digits : ℕ → ℕ → List ℕ → ℕ × List ℕ
scan_digits base val [] = (val, [])
scan_digits base val (c ∷ cs) =
    if is_digit c
    then scan_digits base ((val * base + (c - b'0')) % 2 ^ 32) cs
    else if base == 16 && is_xdigit c
    then scan_digits base ((val * 16 + (c + 10 - (if is_lower c then b'a' else b'A'))) % 2 ^ 32) cs
    else (val, c ∷ cs)

-- What follows a leading 0: hexadecimal behind an x, else octal.
unfoldable pub scan_prefixed : List ℕ → ℕ × List ℕ
unfolding scan_digits
scan_prefixed [] = (0, [])
scan_prefixed (c ∷ cs) =
    if c == b'x' || c == b'X' then scan_digits 16 0 cs else scan_digits 8 0 (c ∷ cs)

unfoldable pub scan_number : List ℕ → ℕ × List ℕ
unfolding scan_digits scan_prefixed
scan_number [] = (0, [])
scan_number (c ∷ cs) = if c == b'0' then scan_prefixed cs else scan_digits 10 0 (c ∷ cs)

-- What follows a dot.
unfoldable pub starts_dot : List ℕ → Option (List ℕ)
starts_dot [] = none
starts_dot (c ∷ cs) = if c == b'.' then some cs else none

-- The numbers before a dot, the last number and what follows it, or `none` where the function
-- returns 0. The numeral says how many parts may still be stored.
unfoldable pub scan_parts : ℕ → List ℕ → List ℕ → Option (List ℕ × ℕ × List ℕ)
unfolding scan_number starts_dot
scan_parts zero parts text = elim (starts_dot (scan_number text).1) [
  | some rest ↦ none
  | none ↦ some (parts, (scan_number text).0, (scan_number text).1)
]
scan_parts (suc room) parts text = elim (starts_dot (scan_number text).1) [
  | some rest ↦
      let more = scan_parts room (parts ++ ((scan_number text).0 ∷ [])) rest in
      if ltb 0xff (scan_number text).0 then none else more
  | none ↦ some (parts, (scan_number text).0, (scan_number text).1)
]

unfoldable pub concoct : List ℕ → ℕ → Option ℕ
concoct [] val = some val
concoct (a ∷ []) val = if ltb 0xffffff val then none else some (a * 2 ^ 24 + val)
concoct (a ∷ (b ∷ [])) val = if ltb 0xffff val then none else some (a * 2 ^ 24 + b * 2 ^ 16 + val)
concoct (a ∷ (b ∷ (c ∷ parts))) val =
    if ltb 0xff val then none else some (a * 2 ^ 24 + b * 2 ^ 16 + c * 2 ^ 8 + val)

-- The check for trailing characters.
unfoldable pub ends_text : List ℕ → Bool
ends_text [] = true
ends_text (c ∷ cs) = is_space c

-- The address in network order, or `none` for the result 0.
unfoldable pub inet_aton : List ℕ → Option ℕ
unfolding scan_parts ends_text concoct
inet_aton text = elim (scan_parts 3 [] text) [
  | none ↦ none
  | some (parts, val, rest) ↦
      if ends_text rest
      then elim (concoct parts val) [ none ↦ none | some a ↦ some (htonl a) ]
      else none
]

-- INADDR_NONE is the address of 32 ones.
unfoldable pub inet_addr : List ℕ → ℕ
unfolding inet_aton
inet_addr text = elim (inet_aton text) [ none ↦ 0xffffffff | some a ↦ a ]

-- `sprintf` of a byte with %d.
unfoldable pub decimal : ℕ → List ℕ
decimal n =
    if ltb n 10
    then (b'0' + n) ∷ []
    else if ltb n 100
    then (b'0' + n / 10) ∷ ((b'0' + n % 10) ∷ [])
    else (b'0' + n / 100) ∷ ((b'0' + n / 10 % 10) ∷ ((b'0' + n % 10) ∷ []))

-- The bytes of the address as it lies in memory, the low one first.
unfoldable pub inet_ntoa : ℕ → List ℕ
inet_ntoa a =
    decimal (a % 256)
    ++ (b'.'
        ∷ (decimal (a / 256 % 256)
            ++ (b'.' ∷ (decimal (a / 65536 % 256) ++ (b'.' ∷ decimal (a / 16777216 % 256))))))
