-- ===== src/Layer/Witnesses.antt =====
-- The theorems about the layer, applied on the network of the tests, and the data for that.
mod Keep
mod Laws
use libsocket.Base.{ℕ, List, ◌∷◌, replicate}

-- An Internet address.
abbrev pub addr : List ℕ
addr = 2 ∷ replicate 15 0

abbrev pub four_bytes : List ℕ
four_bytes = replicate 4 0
