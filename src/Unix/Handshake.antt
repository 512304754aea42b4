-- ===== src/Unix/Handshake.antt =====
-- src/unix/u_connct.c and src/unix/u_accept.c. The `bind` of a client that is not bound is the
-- public function on the descriptor's own file descriptor, with the path of the new name.
use libsocket.Base.{
  ℕ, ◌+◌, ◌%◌, Bool, true, false, not, ◌||◌, ◌==◌, if◌then◌else◌, Option, none, some, List, [], ◌∷◌,
  ◌++◌, length, drop, replicate, M, ◌>>=◌,
}
use libsocket.Base.Int.{ℤ, pos, minus_one, ◌==ℤ◌}
use libsocket.Layer.Types.{enetunreach, econnrefused}
use libsocket.Unix.Message.{Header, header_bytes, read_header, same_secret}
use libsocket.Unix.Path.{local_path, local_name, client_path, made_up, path_field}
use libsocket.Unix.Types.{
  Secret, Files, Unix, fail, cstring, header_size, dgram_size, msg_version, msg_client_open,
  msg_server_open, maxint, two_32,
}

-- The rest of `xs` behind `prefix`: `strstr` finds it at the start.
unfoldable pub behind : List ℕ → List ℕ → Option (List ℕ)
behind [] xs = some xs
behind (p ∷ ps) [] = none
behind (p ∷ ps) (x ∷ xs) = if p == x then behind ps xs else none

-- A header of the handshake, whose numbers count the bytes of a path.
unfoldable pub open_header : ℕ → Secret → ℕ → ℕ → Header
open_header type secret start len = record {
  version = msg_version;
  type = type;
  secret = secret;
  seq_start = start;
  seq_end = (start + len) % two_32 % maxint;
  offset = header_size;
}

-- UNIX_MSG_OPEN_REQUEST, in cleared memory.
unfoldable pub request_bytes : Header → List ℕ → List ℕ
request_bytes h path = header_bytes h ++ path_field path (replicate 128 0)

module _ {E : Type 0} (files : Files E) where
  -- `__UNIX_UNBINDME`, for a socket that the function has bound, and the error.
  unfoldable pub unbind_me : Bool → M (Unix E) ℤ
  unbind_me here c =
      let (ret, e, env) = files.close c.usock.fd_r c.errno c.env in
      if here
      then some
          (minus_one, record c { sock = record c.sock { bound = false }; errno = e; env = env })
      else some (minus_one, c)

  -- The end of `__unix_connect`, with the path in the reply; the test behind `open` is of `fd`,
  -- which has been tested before.
  unfoldable pub connect_peer : Bool → List ℕ → M (Unix E) ℤ
  unfolding unbind_me behind
  connect_peer here path c =
      let (fd, e, env) = files.open_writer path c.errno c.env in
      let c1 : Unix E = record c { usock = record c.usock { fd_w = fd }; errno = e; env = env } in
      elim (behind local_path path) [
        | none ↦ (unbind_me here >>= λ ret. fail econnrefused) c1
        | some peer ↦ some (pos 0, record c1 { usock = record c1.usock { peerpath = peer } })
      ]

  -- The reply, in `rep`.
  unfoldable pub connect_reply : Bool → List ℕ → M (Unix E) ℤ
  unfolding connect_peer
  connect_reply here rep c =
      let h = read_header rep in
      if not (same_secret h.secret c.usock.secret) || not (h.type == msg_server_open)
      then (unbind_me here >>= λ ret. fail econnrefused) c
      else elim (cstring (drop header_size rep)) [
        | none ↦ none
        | some path ↦ connect_peer here path c
      ]

  -- The request to the server at `fd` and the reply, for which `rep` is the local variable.
  unfoldable pub connect_exchange : Bool → List ℕ → ℤ → List ℕ → M (Unix E) ℤ
  unfolding connect_reply
  connect_exchange here rep fd req c =
      let (ret, e, env) = files.write fd req c.errno c.env in
      let (got, e', env') = files.read c.usock.fd_r rep dgram_size e env in
      if ret ==ℤ minus_one
      then (unbind_me here >>= λ r. fail enetunreach) (record c { errno = e; env = env })
      else if got.0 ==ℤ minus_one
      then (unbind_me here >>= λ r. fail enetunreach) (record c { errno = e'; env = env' })
      else connect_reply here got.1 (record c { errno = e'; env = env' })

  -- The request is made and sent, and the secret and the sequence number kept.
  unfoldable pub connect_request : Bool → List ℕ → ℤ → Secret → ℕ → M (Unix E) ℤ
  unfolding connect_exchange open_header request_bytes
  connect_request here rep fd secret start c = elim (local_name 128 c.usock.sockpath) [
    | none ↦ none
    | some path ↦
        let h = open_header msg_client_open secret start (length path) in
        connect_exchange here rep fd (request_bytes h path) (record c {
          usock = record c.usock { secret = secret; seq_w = (h.seq_end + 1) % two_32 % maxint };
        })
  ]

  -- Past the opening of the server's mailslot.
  unfoldable pub connect_bound : (List ℕ → M (Unix E) ℤ) → List ℕ → ℤ → M (Unix E) ℤ
  unfolding connect_request
  connect_bound bind rep fd c =
      let (n, e1, env1) = files.random c.errno c.env in
      let (start, e2, env2) = files.random e1 env1 in
      let (name, e3, env3) = files.random e2 env2 in
      let secret : Secret = record { n = n; pid = files.getpid } in
      if c.sock.bound
      then connect_request false rep fd secret start (record c { errno = e2; env = env2 })
      else elim (bind (made_up client_path name) (record c { errno = e3; env = env3 })) [
        | none ↦ none
        | some (ret, c') ↦
            if ret ==ℤ minus_one
            then some (minus_one, c')
            else connect_request true rep fd secret start c'
      ]

  -- `__unix_connect`; `rep` is what the local reply holds.
  unfoldable pub connect : (List ℕ → M (Unix E) ℤ) → List ℕ → List ℕ → ℕ → M (Unix E) ℤ
  unfolding connect_bound
  connect bind rep serv_addr addrlen c = elim (cstring (drop 2 serv_addr)) [
    | none ↦ none
    | some server ↦ elim (local_name files.max_path server) [
      | none ↦ none
      | some path ↦
          let (fd, e, env) = files.open_writer path c.errno c.env in
          let c1 : Unix E = record c {
            usock = record c.usock { peerpath = [] };
            errno = e;
            env = env;
          } in
          if fd ==ℤ minus_one then some (minus_one, c1) else connect_bound bind rep fd c1
    ]
  ]
