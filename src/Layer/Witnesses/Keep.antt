-- ===== src/Layer/Witnesses/Keep.antt =====
-- Calls from well-formed states of the network.
use libsocket.Base.{ℕ, ◌≤◌, Option, none, some, List, [], ◌∷◌, length, replicate, ◌≡◌, refl, arith}
use libsocket.Base.Int.{pos}
use libsocket.Layer.Bind.{bind, listen}
use libsocket.Layer.Connect.{connect}
use libsocket.Layer.Keep.Binding.{bind-Stays}
use libsocket.Layer.Keep.Calls.{
  Preserves, connect-Preserves, sendto-Preserves, calls-Preserve, getsockopt-Preserves,
}
use libsocket.Layer.Reach.{Makes, Reach, here, next, shuts, selects, Reach-IsWellFormed}
use libsocket.Layer.Sound.{Stays}
use libsocket.Layer.World.{World, on_socket}
use libsocket.Layer.Options.{shutdown, shutdown_body, getsockopt, sol_socket, so_type}
use libsocket.Layer.Tests.{
  host, peer_socket, fresh_socket, alone, peer_socket-IsSound, fresh_socket-IsSound, unbound_socket,
  unbound_socket-IsSound, network-IsHonest, alone-IsWellFormed, signals-SameFds,
}
use libsocket.Layer.Transfer.{sendto, selectsocket, select_body}
use libsocket.Layer.Witnesses.{addr, four_bytes}

connect-Preserves_example :
    Preserves host (alone fresh_socket) (connect host (pos 3) (some addr) 16)
connect-Preserves_example =
    connect-Preserves host (pos 3) (some addr) 16 (λ t. network-IsHonest) (omega arith)
      (omega arith) (alone fresh_socket) (alone-IsWellFormed fresh_socket fresh_socket-IsSound refl)

bind-Stays_example :
    Preserves host (alone unbound_socket) (bind host (replicate 110 0) (pos 3) (some addr) 16)
bind-Stays_example =
    bind-Stays host (λ t. network-IsHonest) (replicate 110 0) (pos 3) (some addr) 16
      (alone unbound_socket) refl (alone-IsWellFormed unbound_socket unbound_socket-IsSound refl)

sendto-Preserves_example :
    Preserves host (alone peer_socket) (sendto host (pos 3) (some (1 ∷ [])) 1 0 none 0)
sendto-Preserves_example =
    sendto-Preserves host (pos 3) (some (1 ∷ [])) 1 0 none 0 (λ t. network-IsHonest) signals-SameFds
      tt (alone peer_socket) (alone-IsWellFormed peer_socket peer_socket-IsSound refl)

calls-Preserve_example : Preserves host (alone fresh_socket) (listen host (pos 3) (pos 5))
calls-Preserve_example =
    (calls-Preserve host (pos 3) (alone fresh_socket) (λ t. network-IsHonest)
        (alone-IsWellFormed fresh_socket fresh_socket-IsSound refl)).0
      (pos 5)

four_bytes-fit : (v : List ℕ) (n : ℕ) → some four_bytes ≡ some v → some 4 ≡ some n → n ≤ length v
four_bytes-fit v n e f = ground arith

getsockopt-Preserves_example :
    Preserves host
      (alone peer_socket)
      (getsockopt host (replicate 16 0) (pos 3) sol_socket so_type (some four_bytes) (some 4))
getsockopt-Preserves_example =
    getsockopt-Preserves host (replicate 16 0) (pos 3) sol_socket so_type (some four_bytes) (some 4)
      (λ t. network-IsHonest) refl four_bytes-fit (alone peer_socket)
      (alone-IsWellFormed peer_socket peer_socket-IsSound refl)

-- The state that a call leaves.
abbrev after : {A : Type 0} → Option (A × World ℕ) → World ℕ → World ℕ
after none w = w
after (some (a, w')) w = w'

abbrev shut : World ℕ
shut = after (shutdown host (pos 3) (pos 1) (alone peer_socket)) (alone peer_socket)

abbrev shut_asked : World ℕ
shut_asked = after (selectsocket host (pos 3) 1 shut) shut

made_shut : Makes host (shutdown host (pos 3) (pos 1)) (alone peer_socket) shut
unfolding shutdown on_socket shutdown_body
made_shut = (pos 0, refl)

made_ask : Makes host (selectsocket host (pos 3) 1) shut shut_asked
unfolding shutdown selectsocket on_socket shutdown_body select_body
made_ask = (pos 1, refl)

two_calls : Reach host (alone peer_socket) shut_asked
two_calls = next (next here (shuts (pos 3) (pos 1) made_shut)) (selects (pos 3) 1 made_ask)

Reach-IsWellFormed_example : Stays host (alone peer_socket) shut_asked
Reach-IsWellFormed_example =
    Reach-IsWellFormed host (λ t. network-IsHonest) signals-SameFds two_calls
      (alone-IsWellFormed peer_socket peer_socket-IsSound refl)
