-- ===== src/Unix/Recv.antt =====
-- src/unix/u_recv.c.
use libsocket.Base.{
  ℕ, zero, suc, ◌+◌, ◌-◌, ◌/◌, ◌%◌, min, Bool, true, false, not, ◌&&◌, ◌||◌, ◌==◌, if◌then◌else◌,
  none, some, List, drop, memcpy, M,
}
use libsocket.Base.Int.{ℤ, pos, minus_one, ◌==ℤ◌}
use libsocket.Layer.Types.{eio, econnreset}
use libsocket.Unix.Close.{close}
use libsocket.Unix.Message.{Header, read_header, same_secret}
use libsocket.Unix.Types.{Files, Unix, sendsize, msg_server_close, msg_client_close, maxint, two_32}

-- `flags & MSG_PEEK`, `type & UNIX_MSG_DATA` and `type & UNIX_MSG_DGRAM_BIT`.
abbrev pub is_peek : ℕ → Bool
is_peek flags = flags / 2 % 2 == 1

abbrev pub is_data : ℕ → Bool
is_data type = type / 8 % 2 == 1

abbrev pub is_dgram : ℕ → Bool
is_dgram type = type / 32 % 2 == 1

-- `seq_end - seq_start + 1` as a `size_t`.
unfoldable pub recv_len : Header → ℕ
recv_len h = (h.seq_end + two_32 - h.seq_start + 1) % two_32

unfoldable pub is_close : Bool → Bool → Header → Bool
is_close accepted same h =
    h.type == msg_server_close && not accepted && same
    || h.type == msg_client_close && accepted && same

-- How a turn of the receiving loop ends: with the value of `ret`, and whether the packet was bad.
pub record Turn : Type 0 where
  pub ret : ℤ
  pub bad_packet : Bool
  pub stop : Bool
  pub buf : List ℕ

module _ {E : Type 0} (files : Files E) where
  -- `ioctl (fd_r, MIOPEEK, &pflag)`, where the message is to be peeked at.
  abbrev pub set_peek : Bool → Bool → Unix E → Unix E
  set_peek peeks flag c =
      let (ret, e, env) = files.miopeek c.usock.fd_r flag c.errno c.env in
      if peeks then record c { errno = e; env = env } else c

  -- The call of `read` with its peeking.
  unfoldable pub read_message : Bool → Unix E → ℤ × Unix E
  read_message peeks c =
      let c1 = set_peek peeks true c in
      let (r, e, env) = files.read c1.usock.fd_r c1.my_buf sendsize c1.errno c1.env in
      (r.0, set_peek peeks false (record c1 { my_buf = r.1; errno = e; env = env }))

  -- What follows a `read` that has returned `ret`, with the header of the message. A bad packet
  -- leaves `ret` as it is.
  unfoldable pub take_message : ℤ → Header → List ℕ → ℕ → M (Unix E) Turn
  unfolding is_close recv_len
  take_message ret h buf len c =
      let same = same_secret c.usock.secret h.secret in
      if is_close c.sock.accepted same h
      then elim (close files c) [
        | none ↦ none
        | some (rv, c') ↦ some (
          record { ret = minus_one; bad_packet = false; stop = true; buf = buf },
          record c' { errno = econnreset },
        )
      ]
      else if not (is_data h.type)
      then some (record { ret = ret; bad_packet = true; stop = false; buf = buf }, c)
      else if not (is_dgram h.type) && not same
      then some (record { ret = ret; bad_packet = true; stop = false; buf = buf }, c)
      else elim (memcpy buf (drop h.offset c.my_buf) (min len (recv_len h))) [
        | none ↦ none
        | some out ↦ some (
          record { ret = pos (min len (recv_len h)); bad_packet = false; stop = false; buf = out },
          record c {
            usock = record c.usock {
              seq_r =
                  if is_dgram h.type
                  then c.usock.seq_r
                  else (c.usock.seq_r + recv_len h) % two_32 % maxint;
            };
          },
        )
      ]

  -- One turn of the loop.
  unfoldable pub recv_turn : Bool → Bool → List ℕ → ℕ → M (Unix E) Turn
  unfolding read_message take_message
  recv_turn peeking bad_packet buf len c =
      let (ret, c1) = read_message (not bad_packet && peeking) c in
      if ret ==ℤ minus_one
      then some (
        record { ret = minus_one; bad_packet = bad_packet; stop = true; buf = buf },
        record c1 { errno = eio },
      )
      else take_message ret (read_header c1.my_buf) buf len c1

  -- The loop. It goes on after a turn that leaves `ret` at 0, as an empty read of a bad packet does,
  -- and has no bound of its own.
  unfoldable pub recv_loop : ℕ → Bool → Bool → List ℕ → ℕ → M (Unix E) (ℤ × List ℕ)
  unfolding recv_turn
  recv_loop zero peeking bad_packet buf len c = none
  recv_loop (suc fuel) peeking bad_packet buf len c =
      elim (recv_turn peeking bad_packet buf len c) [
        | none ↦ none
        | some (t, c') ↦
            if t.stop || not (t.ret ==ℤ pos 0)
            then some ((t.ret, t.buf), c')
            else recv_loop fuel peeking t.bad_packet t.buf len c'
      ]

  unfoldable pub recv_stream : ℕ → List ℕ → ℕ → ℕ → M (Unix E) (ℤ × List ℕ)
  unfolding recv_loop
  recv_stream fuel buf len flags = recv_loop fuel (is_peek flags) false buf len
