-- ===== src/Unix/Send.antt =====
-- src/unix/u_send.c.
use libsocket.Base.{
  ℕ, zero, suc, ◌+◌, ◌-◌, ◌%◌, Bool, true, false, ltb, leb, if◌then◌else◌, Option, none, some, List,
  ◌++◌, length, take, drop, M,
}
use libsocket.Base.Int.{ℤ, pos, negsuc, minus_one, ◌==ℤ◌}
use libsocket.Layer.Types.{eio}
use libsocket.Unix.Message.{Header, header_bytes}
use libsocket.Unix.Types.{Files, Unix, sendsize, header_size, msg_version, msg_data, maxint, two_32}

-- The `int` with these 32 bits.
abbrev pub to_int : ℕ → ℤ
to_int n = if ltb n 2147483648 then pos n else negsuc (4294967295 - n)

-- `memcpy` of `n` bytes from `msg + total`; `none` reads beyond the message.
unfoldable pub slice : List ℕ → ℕ → ℕ → Option (List ℕ)
slice msg total n = if leb (total + n) (length msg) then some (take n (drop total msg)) else none

-- The part of the static buffer that is written: the header, and the data behind it. `none` goes
-- beyond the buffer.
unfoldable pub fill : List ℕ → List ℕ → Option (List ℕ)
fill head bytes = if leb (length head + length bytes) sendsize then some (head ++ bytes) else none

-- `sendlen`, with `size` bytes of header.
abbrev pub send_len : ℕ → ℕ → ℕ → ℕ
send_len size total len =
    if ltb (sendsize - size) (len - total) then sendsize - size else len - total

module _ {E : Type 0} (files : Files E) where
  unfoldable pub data_header : Unix E → ℕ → Header
  data_header c n = record {
    version = msg_version;
    type = msg_data;
    secret = c.usock.secret;
    seq_start = c.usock.seq_w;
    seq_end = (c.usock.seq_w + n - 1) % two_32 % maxint;
    offset = header_size;
  }

  -- `write` and the test of its result.
  unfoldable pub write_packet : List ℕ → ℕ → M (Unix E) Bool
  write_packet packet n c =
      let (ret, e, env) = files.write c.usock.fd_w packet c.errno c.env in
      if ret ==ℤ pos (header_size + n)
      then some (
        true,
        record c {
          usock = record c.usock { seq_w = (c.usock.seq_w + n) % two_32 % maxint };
          errno = e;
          env = env;
        },
      )
      else some (false, record c { errno = eio; env = env })

  -- One turn of the loop: whether the message was written whole.
  unfoldable pub send_packet : List ℕ → ℕ → ℕ → M (Unix E) Bool
  unfolding data_header write_packet
  send_packet msg total n c = elim (slice msg total n) [
    | none ↦ none
    | some bytes ↦ elim (fill (header_bytes (data_header c n)) bytes) [
      | none ↦ none
      | some packet ↦ write_packet packet n c
    ]
  ]

  unfoldable pub send_loop : ℕ → List ℕ → ℕ → ℕ → M (Unix E) ℤ
  unfolding send_packet
  send_loop zero msg total len c = none
  send_loop (suc fuel) msg total len c =
      if ltb total len
      then elim (send_packet msg total (send_len header_size total len) c) [
        | none ↦ none
        | some (true, c') ↦ send_loop fuel msg (total + send_len header_size total len) len c'
        | some (false, c') ↦ some (minus_one, c')
      ]
      else some (to_int total, c)

  -- Every turn sends a byte at least.
  unfoldable pub send_stream : List ℕ → ℕ → M (Unix E) ℤ
  unfolding send_loop
  send_stream msg len = send_loop (1 + len) msg 0 len
