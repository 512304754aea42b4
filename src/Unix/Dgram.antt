-- ===== src/Unix/Dgram.antt =====
-- `__unix_send_dgram` of src/unix/u_send.c and `__unix_recv_dgram` of src/unix/u_recv.c.
use libsocket.Base.{
  ℕ, zero, suc, ◌+◌, ◌-◌, ◌%◌, min, Bool, true, false, not, ◌&&◌, ◌==◌, ltb, if◌then◌else◌,
  is_given, Option, none, some, List, ◌∷◌, ◌++◌, length, drop, replicate, memcpy, M,
}
use libsocket.Base.Int.{ℤ, pos, minus_one, ◌==ℤ◌}
use libsocket.Layer.Types.{einval, eio, eopnotsupp, sock_dgram}
use libsocket.Unix.Message.{Header, header_bytes, read_header}
use libsocket.Unix.Path.{local_name, client_path, made_up, path_field}
use libsocket.Unix.Recv.{is_peek, is_data, is_dgram, read_message, recv_len}
use libsocket.Unix.Send.{to_int, slice, fill, send_len}
use libsocket.Unix.Types.{
  Files, Unix, fail, cstring, header_size, dgram_size, sockaddr_un_size, af_unix, msg_version,
  msg_data_dgram, two_32,
}

-- The header of every packet of a datagram of `len` bytes.
unfoldable pub dgram_header : ℕ → Header
dgram_header len = record {
  version = msg_version;
  type = msg_data_dgram;
  secret = record { n = 0; pid = 0 };
  seq_start = 0;
  seq_end = (len + two_32 - 1) % two_32;
  offset = dgram_size;
}

-- UNIX_MSG_DGRAM with the sender's path.
unfoldable pub dgram_bytes : List ℕ → List ℕ → ℕ → List ℕ
unfolding dgram_header
dgram_bytes scratch path len = header_bytes (dgram_header len) ++ path_field path scratch

module _ {E : Type 0} (files : Files E) where
  -- One turn of the sending loop.
  unfoldable pub send_dgram_packet : ℤ → List ℕ → List ℕ → ℕ → ℕ → M (Unix E) Bool
  send_dgram_packet fd req msg total n c = elim (slice msg total n) [
    | none ↦ none
    | some bytes ↦ elim (fill req bytes) [
      | none ↦ none
      | some packet ↦
          let (ret, e, env) = files.write fd packet c.errno c.env in
          if ret ==ℤ pos (dgram_size + n)
          then some (true, record c { errno = e; env = env })
          else some (false, record c { errno = eio; env = env })
    ]
  ]

  unfoldable pub send_dgram_loop : ℕ → ℤ → List ℕ → List ℕ → ℕ → ℕ → M (Unix E) ℤ
  unfolding send_dgram_packet
  send_dgram_loop zero fd req msg total len c = none
  send_dgram_loop (suc fuel) fd req msg total len c =
      if ltb total len
      then elim (send_dgram_packet fd req msg total (send_len dgram_size total len) c) [
        | none ↦ none
        | some (false, c') ↦ some (minus_one, c')
        | some (true, c') ↦
            send_dgram_loop fuel fd req msg (total + send_len dgram_size total len) len c'
      ]
      else let (ret, e, env) = files.close fd c.errno c.env in
        some (to_int total, record c { errno = e; env = env })

  -- From `open` on, with both paths at hand.
  unfoldable pub send_dgram_to : List ℕ → List ℕ → List ℕ → List ℕ → ℕ → M (Unix E) ℤ
  unfolding send_dgram_loop dgram_bytes
  send_dgram_to scratch path dest msg len c =
      let (fd, e, env) = files.open_writer dest c.errno c.env in
      if fd ==ℤ minus_one
      then some (minus_one, record c { errno = e; env = env })
      else send_dgram_loop (1 + len) fd (dgram_bytes scratch path len) msg 0 len
          (record c { errno = e; env = env })

  -- The names of the two ends. A null `to` is followed all the same.
  unfoldable pub send_dgram_named : List ℕ → List ℕ → ℕ → Option (List ℕ) → M (Unix E) ℤ
  unfolding send_dgram_to
  send_dgram_named scratch msg len none c = none
  send_dgram_named scratch msg len (some to) c = elim (cstring (drop 2 c.sock.sockname)) [
    | none ↦ none
    | some own ↦ elim (local_name 128 own) [
      | none ↦ none
      | some path ↦ elim (cstring (drop 2 to)) [
        | none ↦ none
        | some peer ↦ elim (local_name files.max_path peer) [
          | none ↦ none
          | some dest ↦ send_dgram_to scratch path dest msg len c
        ]
      ]
    ]
  ]

  -- `__unix_send_dgram`. `scratch` is what the local `req.path` holds, and `bind` is the public
  -- function on the descriptor's own file descriptor, with the path of the new name.
  unfoldable pub send_dgram :
      (List ℕ → M (Unix E) ℤ) → List ℕ → List ℕ → ℕ → Option (List ℕ) → ℕ → M (Unix E) ℤ
  unfolding send_dgram_named
  send_dgram bind scratch msg len to tolen c =
      let (name, e, env) = files.random c.errno c.env in
      if ltb tolen sockaddr_un_size && is_given to
      then fail einval c
      else if not (c.sock.type == sock_dgram)
      then fail eopnotsupp c
      else if c.sock.bound
      then send_dgram_named scratch msg len to c
      else elim (bind (made_up client_path name) (record c { errno = e; env = env })) [
        | none ↦ none
        | some (ret, c') ↦
            if ret ==ℤ minus_one
            then some (minus_one, c')
            else send_dgram_named scratch msg len to c'
      ]

-- What a turn of the receiving loop leaves: as for a stream, with the sender's address.
pub record DgramTurn : Type 0 where
  pub ret : ℤ
  pub bad_packet : Bool
  pub buf : List ℕ
  pub from : Option (List ℕ × ℕ)

-- The sender's address into the caller's buffer, where he asks for it.
unfoldable pub store_from : List ℕ → Option (List ℕ × ℕ) → Option (Option (List ℕ × ℕ))
store_from my_buf none = some none
store_from my_buf (some (addr, len)) = elim (cstring (drop header_size my_buf)) [
  | none ↦ none
  | some path ↦
      if ltb (length path) 108
      then elim (memcpy addr (af_unix ∷ (0 ∷ path_field path (replicate 108 0)))
          (min len sockaddr_un_size)) [
            | none ↦ none
            | some out ↦ some (some (out, min len sockaddr_un_size))
          ]
      else none
]

-- What follows a `read` that has returned `ret`, which a bad packet leaves as it is.
unfoldable pub take_dgram :
    ℤ → Header → List ℕ → List ℕ → ℕ → Option (List ℕ × ℕ) → Option DgramTurn
unfolding store_from
take_dgram ret h my_buf buf len from =
    if not (is_data h.type) && not (is_dgram h.type)
    then some (record { ret = ret; bad_packet = true; buf = buf; from = from })
    else elim (store_from my_buf from) [
      | none ↦ none
      | some stored ↦ elim (memcpy buf (drop h.offset my_buf) (min len (recv_len h))) [
        | none ↦ none
        | some out ↦ some (record {
          ret = pos (min len (recv_len h));
          bad_packet = false;
          buf = out;
          from = stored;
        })
      ]
    ]

module _ {E : Type 0} (files : Files E) where
  unfoldable pub recv_dgram_loop :
      ℕ
      → Bool
      → Bool
      → List ℕ
      → ℕ
      → Option (List ℕ × ℕ)
      → M (Unix E) (ℤ × List ℕ × Option (List ℕ × ℕ))
  unfolding take_dgram
  recv_dgram_loop zero peeking bad_packet buf len from c = none
  recv_dgram_loop (suc fuel) peeking bad_packet buf len from c =
      let (ret, c1) = read_message files (not bad_packet && peeking) c in
      elim (ret ==ℤ minus_one) [
        | true ↦ some ((minus_one, buf, from), record c1 { errno = eio })
        | false ↦ elim (take_dgram ret (read_header c1.my_buf) c1.my_buf buf len from) [
          | none ↦ none
          | some t ↦
              if not (t.ret ==ℤ pos 0)
              then some ((t.ret, t.buf, t.from), c1)
              else recv_dgram_loop fuel peeking t.bad_packet t.buf len t.from c1
        ]
      ]

  -- `__unix_recv_dgram`; `from` is given where `from` and `fromlen` both are.
  unfoldable pub recv_dgram :
      ℕ → List ℕ → ℕ → ℕ → Option (List ℕ × ℕ) → M (Unix E) (ℤ × List ℕ × Option (List ℕ × ℕ))
  unfolding recv_dgram_loop
  recv_dgram fuel buf len flags from c =
      if not (c.sock.type == sock_dgram)
      then some ((minus_one, buf, from), record c { errno = eopnotsupp })
      else recv_dgram_loop fuel (is_peek flags) false buf len from c
