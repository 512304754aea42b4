-- ===== src/Inet/Network.antt =====
-- `inet_network` of src/inet/i_net.c. Its numbers are read as those of `inet_aton`.
pub mod Laws
use libsocket.Base.{
  ℕ, zero, suc, ◌+◌, ◌*◌, ◌%◌, ◌^◌, leb, Bool, if◌then◌else◌, Option, none, some, List, [], ◌∷◌,
  ◌++◌, length,
}
use libsocket.Inet.Text.{scan_number, starts_dot, ends_text}

-- The result in host order, or a store behind the end of `parts`.
pub data Network : Type 0 where
  network : ℕ → Network
  overrun : Network

-- The parts before a dot, the last number and what follows it, or `none` at a dot with no place
-- left. The numeral says how many places there still are by the test in the loop.
unfoldable pub scan_fields : ℕ → List ℕ → List ℕ → Option (List ℕ × ℕ × List ℕ)
scan_fields zero parts text = elim (starts_dot (scan_number text).1) [
  | some rest ↦ none
  | none ↦ some (parts, (scan_number text).0, (scan_number text).1)
]
scan_fields (suc room) parts text = elim (starts_dot (scan_number text).1) [
  | some rest ↦ scan_fields room (parts ++ ((scan_number text).0 ∷ [])) rest
  | none ↦ some (parts, (scan_number text).0, (scan_number text).1)
]

-- The low bytes of the parts, one behind another, from `val` on.
unfoldable pub join_parts : ℕ → List ℕ → ℕ
join_parts val [] = val
join_parts val (p ∷ ps) = join_parts (val * 2 ^ 8 % 2 ^ 32 + p % 256) ps

-- The last number is stored before the parts are counted.
unfoldable pub inet_network : List ℕ → Network
unfolding scan_fields join_parts
inet_network text = elim (scan_fields 4 [] text) [
  | none ↦ network 0xffffffff
  | some (parts, val, rest) ↦
      if ends_text rest
      then if leb 4 (length parts) then overrun else network (join_parts 0 (parts ++ (val ∷ [])))
      else network 0xffffffff
]
