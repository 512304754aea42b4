-- ===== src/Inet/Network/Laws.antt =====
-- `inet_network` on texts of four and of five numbers.
use libsocket.Base.{
  ℕ, zero, suc, ◌/◌, ◌%◌, ◌<◌, some, List, [], ◌∷◌, ◌++◌, ◌≡◌, refl, ap, ◌∙◌, arith,
}
use libsocket.Inet.Network.{network, overrun, scan_fields, join_parts, inet_network}
use libsocket.Inet.Order.{htonl, ntohl}
use libsocket.Inet.RoundTrip.{at_dot, scan_number-decimal, scan_number-end}
use libsocket.Inet.Text.{starts_dot, ends_text, decimal, inet_ntoa}

scan_fields-dot :
    (room : ℕ) (parts : List ℕ) (n : ℕ) (cs : List ℕ)
    → n < 256
    → scan_fields (suc room) parts (decimal n ++ (b'.' ∷ cs))
      ≡ scan_fields room (parts ++ (n ∷ [])) cs
unfolding scan_fields starts_dot
scan_fields-dot room parts n cs h = ground (arith, scan_number-decimal n (b'.' ∷ cs) h at_dot)

scan_fields-end :
    (room : ℕ) (parts : List ℕ) (n : ℕ)
    → n < 256
    → scan_fields room parts (decimal n) ≡ some (parts, n, [])
unfolding scan_fields starts_dot
scan_fields-end zero parts n h = ground (arith, scan_number-end n h)
scan_fields-end (suc room) parts n h = ground (arith, scan_number-end n h)

scan_fields-inet_ntoa :
    (a : ℕ)
    → scan_fields 4 [] (inet_ntoa a)
      ≡ some (a % 256 ∷ (a / 256 % 256 ∷ (a / 65536 % 256 ∷ [])), a / 16777216 % 256, [])
unfolding inet_ntoa
scan_fields-inet_ntoa a =
    scan_fields-dot 3 [] (a % 256) _ (omega arith)
    ∙ scan_fields-dot 2 (a % 256 ∷ []) (a / 256 % 256) _ (omega arith)
    ∙ scan_fields-dot 1 (a % 256 ∷ (a / 256 % 256 ∷ [])) (a / 65536 % 256) _ (omega arith)
    ∙ scan_fields-end 1 (a % 256 ∷ (a / 256 % 256 ∷ (a / 65536 % 256 ∷ []))) (a / 16777216 % 256)
        (omega arith)

-- From the text that `inet_ntoa` writes of an address, `inet_network` reads the address in host
-- order.
pub inet_network-inet_ntoa : (a : ℕ) → inet_network (inet_ntoa a) ≡ network (ntohl a)
unfolding inet_network join_parts ends_text ntohl htonl
inet_network-inet_ntoa a = rw (scan_fields-inet_ntoa a, inet_network) (ap network (omega arith))

-- On a text of five bytes with dots between them, `inet_network` stores behind the end of its array
-- of four parts.
pub inet_network_five :
    (a b c d e : ℕ)
    → a < 256
    → b < 256
    → c < 256
    → d < 256
    → e < 256
    → inet_network (
        decimal a
        ++ (b'.'
            ∷ (decimal b ++ (b'.' ∷ (decimal c ++ (b'.' ∷ (decimal d ++ (b'.' ∷ decimal e))))))))
      ≡ overrun
unfolding inet_network ends_text
inet_network_five a b c d e ha hb hc hd he =
    let fields =
      scan_fields-dot 3 [] a _ ha
      ∙ scan_fields-dot 2 (a ∷ []) b _ hb
      ∙ scan_fields-dot 1 (a ∷ (b ∷ [])) c _ hc
      ∙ scan_fields-dot 0 (a ∷ (b ∷ (c ∷ []))) d _ hd
      ∙ scan_fields-end 0 (a ∷ (b ∷ (c ∷ (d ∷ [])))) e he in
    rw (fields, inet_network) refl
