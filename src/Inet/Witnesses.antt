-- ===== src/Inet/Witnesses.antt =====
-- The theorems about addresses, applied to the address 127.0.0.1 and to a text of it.
use libsocket.Base.{ℕ, some, List, [], ◌∷◌, ◌≡◌, refl, arith}
use libsocket.Inet.RoundTrip.{inet_aton-inet_ntoa}
use libsocket.Inet.Text.{scan_parts, scan_number, scan_digits, starts_dot, inet_aton, inet_ntoa}

-- As `in_addr` holds it.
abbrev loopback : ℕ
loopback = 16777343

-- "127.1"
abbrev short_text : List ℕ
short_text = b'1' ∷ (b'2' ∷ (b'7' ∷ (b'.' ∷ (b'1' ∷ []))))

-- The parts before its last number.
abbrev stored : List ℕ
stored = 127 ∷ []

inet_aton-inet_ntoa_example : inet_aton (inet_ntoa loopback) ≡ some loopback
inet_aton-inet_ntoa_example = inet_aton-inet_ntoa loopback (omega arith)

scan_run : scan_parts 3 [] short_text ≡ some (stored, 1, [])
unfolding scan_parts starts_dot scan_number scan_digits
scan_run = refl
