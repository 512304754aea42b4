-- ===== src/Unix/Stream.antt =====
-- The mailslot between two connected stream sockets, as a stream of bytes: what a sequence of
-- messages carries for the receiver, and the mailslots that src/unix/u_send.c and u_recv.c use.
pub mod Lists
pub mod Sending
pub mod Receiving
pub mod Delivery
pub mod Numbers
use libsocket.Base.{
  ℕ, ◌+◌, ◌-◌, ◌≤◌, ◌<◌, Bool, true, false, not, List, [], ◌∷◌, ◌++◌, length, drop, ◌≡◌, ◌⊎◌,
}
use libsocket.Base.Int.{ℤ, pos}
use libsocket.Layer.Types.{Errno}
use libsocket.Unix.Message.{Header, header_bytes, Fits, same_secret}
use libsocket.Unix.Recv.{is_data, is_dgram, is_close}
use libsocket.Unix.Types.{Secret, Files}

-- The header of `n` bytes of data that begin with number `start`.
abbrev pub frame_header : Secret → ℕ → ℕ → Header
frame_header s start n = record {
  version = 1;
  type = 8;
  secret = s;
  seq_start = start;
  seq_end = start + n - 1;
  offset = 20;
}

-- The message carries the bytes `payload`, whose numbers do not pass MAXINT.
pub record IsFrame (s : Secret) (m payload : List ℕ) : Type 0 where
  pub start : ℕ
  pub bytes : m ≡ header_bytes (frame_header s start (length payload)) ++ payload
  pub not_empty : 1 ≤ length payload
  pub fits : length payload ≤ 4060
  pub numbers : start + length payload < 2147483647

-- The message is of no use to the receiver: it closes nothing of his, and either it is no data, or
-- it is data of a stream with another secret.
pub record IsNoise (accepted : Bool) (s : Secret) (m : List ℕ) : Type 0 where
  pub header : Header
  pub rest : List ℕ
  pub bytes : m ≡ header_bytes header ++ rest
  pub fits : Fits header
  pub size : length m ≤ 4080
  pub not_close : is_close accepted (same_secret s header.secret) header ≡ false
  pub useless :
      (is_data header.type ≡ false)
      ⊎ ((is_dgram header.type ≡ false) × (same_secret s header.secret ≡ false))

-- The messages carry these bytes, in order; those that are `Stray` carry none.
abbrev pub Carries : (List ℕ → Type 0) → Secret → List (List ℕ) → List ℕ → Type 0
Carries Stray s [] bytes = bytes ≡ []
Carries Stray s (m ∷ q) bytes =
    (Stray m × Carries Stray s q bytes)
    ⊎ ((payload rest : List ℕ) × IsFrame s m payload
        × (bytes ≡ payload ++ rest)
        × Carries Stray s q rest)

-- No message is a stray one.
abbrev pub NoStray : List ℕ → Type 0
NoStray m = ⊥

-- What the two ends rely on in a mailslot that is written through `w` and read through `r`: a
-- message is written and read whole, and the oldest one first.
module _ {E : Type 0} (files : Files E) (w r : ℤ) (queue : E → List (List ℕ)) where
  pub record IsMailslot : Type 0 where
    pub writes :
        (m : List ℕ) (e : Errno) (env : E)
        → length m ≤ 4080
        → ((files.write w m e env).0 ≡ pos (length m))
          × (queue (files.write w m e env).2 ≡ queue env ++ (m ∷ []))
    pub reads :
        (buf m : List ℕ) (q : List (List ℕ)) (e : Errno) (env : E)
        → length buf ≡ 4080
        → length m ≤ 4080
        → queue env ≡ m ∷ q
        → ((files.read r buf 4080 e env).0 ≡ (pos (length m), m ++ drop (length m) buf))
          × (queue (files.read r buf 4080 e env).2 ≡ q)
