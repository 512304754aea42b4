-- ===== src/Unix/Datagrams.antt =====
-- A datagram through a mailslot: `__unix_send_dgram` of src/unix/u_send.c, which writes one message.
pub mod Receiving
pub mod Delivery
use libsocket.Base.{
  ℕ, zero, suc, ◌+◌, ◌-◌, min, ◌≤◌, ◌<◌, Bool, true, false, ltb, Option, none, some, List, [], ◌∷◌,
  ◌++◌, length, take, drop, replicate, memcpy, ◌≡◌, refl, sym, ap, ◌∙◌, arith, Returns, if-Returns,
  Returns-mono, length-append, length-drop, length-take, append_assoc,
}
use libsocket.Base.Int.{ℤ, pos, minus_one, ◌==ℤ◌}
use libsocket.Layer.Types.{Errno, sock_dgram}
use libsocket.Unix.Dgram.{
  dgram_header, dgram_bytes, send_dgram_packet, send_dgram_loop, send_dgram_to, store_from,
  take_dgram, recv_dgram_loop, recv_dgram,
}
use libsocket.Unix.Message.{
  header_bytes, length-header_bytes, read_header, read_header-header_bytes, Fits,
}
use libsocket.Unix.Path.{path_field}
use libsocket.Unix.Recv.{is_peek, recv_len, read_message}
use libsocket.Unix.Send.{slice, fill, to_int, send_len}
use libsocket.Unix.Stream.{IsMailslot}
use libsocket.Unix.Stream.Lists.{drop-append}
use libsocket.Unix.Stream.Receiving.{IsReceiver, read_message-Read}
use libsocket.Unix.Types.{Files, Unix, cstring, af_unix}

-- A C string without its NUL.
abbrev pub IsText : List ℕ → Type 0
IsText [] = Unit
IsText (c ∷ cs) = (1 ≤ c) × IsText cs

pub cstring-IsText : (s rest : List ℕ) → IsText s → cstring (s ++ (0 ∷ rest)) ≡ some s
unfolding cstring
cstring-IsText [] rest h = refl
cstring-IsText (c ∷ cs) rest h =
    let low = h.0 in let tail = cstring-IsText cs rest h.1 in rw tail (ground arith)

-- The `struct sockaddr_un` with this path.
abbrev pub address_of : List ℕ → List ℕ
address_of path = af_unix ∷ (0 ∷ path_field path (replicate 108 0))

pub length-path_field :
    (path field : List ℕ)
    → length path < length field
    → length (path_field path field) ≡ length field
length-path_field path field h = omega (
  arith,
  length-append path (0 ∷ drop (1 + length path) field),
  length-drop (1 + length path) field,
)

pub length-dgram_bytes :
    (scratch path : List ℕ) (n : ℕ)
    → length scratch ≡ 128
    → length path < 128
    → length (dgram_bytes scratch path n) ≡ 148
unfolding dgram_bytes
length-dgram_bytes scratch path n e h = omega (
  arith,
  length-append (header_bytes (dgram_header n)) (path_field path scratch),
  length-header_bytes (dgram_header n),
  length-path_field path scratch (omega (arith, e, h)),
  e,
)

pub dgram_header-Fits : (n : ℕ) → Fits (dgram_header n)
unfolding dgram_header
dgram_header-Fits n = record {
  n = omega arith;
  pid = omega arith;
  seq_start = omega arith;
  seq_end = omega arith;
  offset = omega arith;
}

pub recv_len-dgram_header : (n : ℕ) → 1 ≤ n → n < 4294967296 → recv_len (dgram_header n) ≡ n
unfolding recv_len dgram_header
recv_len-dgram_header n h k = omega arith

send_len-whole : (n : ℕ) → n ≤ 3932 → send_len 148 0 n ≡ n
send_len-whole n h = ground arith

pub take-whole {ℓ} : {A : Type ℓ} (xs : List A) → take (length xs) xs ≡ xs
take-whole [] = refl
take-whole (x ∷ xs) = ap (λ ys. x ∷ ys) (take-whole xs)

slice-whole : (msg : List ℕ) → slice msg 0 (length msg) ≡ some msg
unfolding slice
slice-whole msg = rw (take-whole msg) (ground arith)

fill-dgram :
    (head msg : List ℕ) → length head ≡ 148 → length msg ≤ 3932 → fill head msg ≡ some (head ++ msg)
unfolding fill
fill-dgram head msg e h = ground arith

-- Opening the mailslot at `path` gives the writing end `w`; opening and closing leave the messages.
pub record IsNamed {E : Type 0} (files : Files E) (path : List ℕ) (w : ℤ)
    (queue : E → List (List ℕ)) : Type 0 where
  pub opens : (e : Errno) (env : E) → (files.open_writer path e env).0 ≡ w
  pub is_open : (w ==ℤ minus_one) ≡ false
  pub keeps : (e : Errno) (env : E) → queue (files.open_writer path e env).2 ≡ queue env
  pub closes : (e : Errno) (env : E) → queue (files.close w e env).2 ≡ queue env

module _ {E : Type 0} (files : Files E) (w r : ℤ) (queue : E → List (List ℕ))
    (mail : IsMailslot files w r queue) where
  send_dgram_packet-Written :
      (head msg : List ℕ) (n : ℕ) (c : Unix E)
      → n ≡ length msg
      → length head ≡ 148
      → length msg ≤ 3932
      → Returns
          (send_dgram_packet files w head msg 0 n c)
          (λ ok c'. (ok ≡ true) × (queue c'.env ≡ queue c.env ++ ((head ++ msg) ∷ [])))
  unfolding send_dgram_packet
  send_dgram_packet-Written head msg n c whole e h =
      let size : length (head ++ msg) ≡ 148 + length msg =
        omega (arith, length-append head msg, e) in
      let wrote = mail.writes (head ++ msg) c.errno c.env (omega (arith, size, h)) in
      rw (whole, slice-whole msg, fill-dgram head msg e h, wrote.0, size, send_dgram_packet)
        (if-Returns (pos (148 + length msg) ==ℤ pos (148 + n)) _ _ _ (λ _. (refl, wrote.1))
          (λ f. absurd (ground arith)))

  -- The loop ends behind the last byte.
  send_dgram_loop-end :
      (fuel total : ℕ) (head msg : List ℕ) (c : Unix E)
      → total ≡ length msg
      → length msg ≤ 3932
      → ((e : Errno) (env : E) → queue (files.close w e env).2 ≡ queue env)
      → Returns
          (send_dgram_loop files (suc fuel) w head msg total (length msg) c)
          (λ a c'. (a ≡ pos (length msg)) × (queue c'.env ≡ queue c.env))
  unfolding send_dgram_loop
  send_dgram_loop-end fuel total head msg c whole h closes =
      if-Returns (ltb total (length msg)) _ _ _ (λ e. absurd (ground arith))
        (λ _. (ground arith, closes c.errno c.env))

  loop-Returns :
      (o : Option (Bool × Unix E)) (k : Unix E → Option (ℤ × Unix E)) (q : List (List ℕ))
      (R : ℤ → Unix E → Type 0)
      → Returns o (λ ok c'. (ok ≡ true) × (queue c'.env ≡ q))
      → ((c' : Unix E) → queue c'.env ≡ q → Returns (k c') R)
      → Returns
          (elim o [
            | none ↦ none
            | some (false, c') ↦ some (minus_one, c')
            | some (true, c') ↦ k c'
          ])
          R
  loop-Returns none k q R h f = h
  loop-Returns (some (true, c)) k q R h f = f c h.1
  loop-Returns (some (false, c)) k q R h f = absurd (ground (arith, h.0))

  -- The loop sends a short datagram as one message.
  send_dgram_loop-Written :
      (fuel : ℕ) (head msg : List ℕ) (c : Unix E)
      → 2 ≤ fuel
      → length head ≡ 148
      → 1 ≤ length msg
      → length msg ≤ 3932
      → ((e : Errno) (env : E) → queue (files.close w e env).2 ≡ queue env)
      → Returns
          (send_dgram_loop files fuel w head msg 0 (length msg) c)
          (λ a c'. (a ≡ pos (length msg)) × (queue c'.env ≡ queue c.env ++ ((head ++ msg) ∷ [])))
  unfolding send_dgram_loop
  send_dgram_loop-Written zero head msg c enough e low h closes = absurd (omega arith)
  send_dgram_loop-Written (suc zero) head msg c enough e low h closes = absurd (omega arith)
  send_dgram_loop-Written (suc (suc k)) head msg c enough e low h closes =
      let n = send_len 148 0 (length msg) in
      if-Returns (ltb 0 (length msg)) _ _ _
        (λ _.
          loop-Returns (send_dgram_packet files w head msg 0 n c)
            (λ c'. send_dgram_loop files (suc k) w head msg (0 + n) (length msg) c')
            (queue c.env ++ ((head ++ msg) ∷ [])) _
            (send_dgram_packet-Written head msg n c (send_len-whole (length msg) h) e h)
            (λ c' q.
              Returns-mono (send_dgram_loop files (suc k) w head msg (0 + n) (length msg) c') _ _
                (send_dgram_loop-end k (0 + n) head msg c'
                  (omega (arith, send_len-whole (length msg) h)) h closes)
                (λ a c'' g. (g.0, g.1 ∙ q))))
        (λ f. absurd (ground arith))

  pub send_dgram_to-Written :
      (scratch path dest msg : List ℕ) (c : Unix E)
      → IsNamed files dest w queue
      → length scratch ≡ 128
      → length path < 128
      → 1 ≤ length msg
      → length msg ≤ 3932
      → Returns (send_dgram_to files scratch path dest msg (length msg) c) (λ a c'.
        (a ≡ pos (length msg))
        × (queue c'.env ≡ queue c.env ++ ((dgram_bytes scratch path (length msg) ++ msg) ∷ [])))
  unfolding send_dgram_to
  send_dgram_to-Written scratch path dest msg c named e short low high =
      rw (named.opens c.errno c.env, named.is_open)
        (Returns-mono (send_dgram_loop files (1 + length msg) w _ msg 0 (length msg) _) _ _
          (send_dgram_loop-Written (1 + length msg) _ msg _ (omega arith)
            (length-dgram_bytes scratch path (length msg) e short) low high named.closes)
          (λ a c' g. (g.0, rw (named.keeps c.errno c.env) at g.1)))
