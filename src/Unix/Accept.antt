-- ===== src/Unix/Accept.antt =====
-- src/unix/u_accept.c.
use libsocket.Base.{
  ℕ, ◌+◌, ◌-◌, ◌^◌, ◌%◌, not, ◌==◌, ltb, if◌then◌else◌, Bool, Option, none, some, List, [], ◌∷◌,
  ◌++◌, length, drop, memcpy, M,
}
use libsocket.Base.Int.{ℤ, pos, minus_one, ◌==ℤ◌}
use libsocket.Layer.Types.{enobufs, enomem}
use libsocket.Unix.Handshake.{behind, open_header}
use libsocket.Unix.Message.{Header, header_bytes, read_header}
use libsocket.Unix.Names.{sockaddr_un}
use libsocket.Unix.Path.{local_path, hex, path_field}
use libsocket.Unix.Types.{
  UnixSocket, Files, Unix, Io, cstring, header_size, dgram_size, sockaddr_un_size, msg_client_open,
  msg_server_open, maxint, two_32,
}

-- What the function leaves in the caller's variables: its result, the data of the new descriptor,
-- if there is memory for it, and the address with its length.
pub record Accepted : Type 0 where
  pub ret : ℤ
  pub nusock : Option UnixSocket
  pub addr : List ℕ
  pub addrlen : ℕ

-- The local variables before the function sets them: `req`, the path of `rep`, the path of
-- `cli_sun`, and the memory for the new descriptor's data.
pub record Locals : Type 0 where
  pub req : List ℕ
  pub rep_path : List ℕ
  pub cli_path : List ℕ
  pub nusock : UnixSocket

-- `sprintf (path, "%s%s/%08lx", UNIX_LOCAL_PATH, sun_path, random ())` into `size` bytes.
unfoldable pub client_slot : ℕ → List ℕ → ℕ → Option (List ℕ)
client_slot size server n =
    let name : List ℕ = local_path ++ server ++ (47 ∷ hex 8 n []) in
    if ltb (length name) size then some name else none

-- `return (-1);` with the data so far.
abbrev pub refuse : {E : Type 0} → UnixSocket → List ℕ → ℕ → M (Unix E) Accepted
refuse nu addr addrlen c =
    some (record { ret = minus_one; nusock = some nu; addr = addr; addrlen = addrlen }, c)

-- `(seq_end + 1) % MAXINT` on a `long`, whose 32 bits these are: the rest of a negative number is
-- negative.
unfoldable pub next_number : ℕ → ℕ
next_number seq_end =
    let next = (seq_end + 1) % two_32 in
    if ltb next (2 ^ 31) then next % maxint else (two_32 - (two_32 - next) % maxint) % two_32

module _ {E : Type 0} (files : Files E) (locals : Locals) where
  -- The reply, whose `seq_end` counts the path of a request that has been cleared.
  unfoldable pub accept_reply : List ℕ → List ℕ → UnixSocket → List ℕ → ℕ → M (Unix E) Accepted
  accept_reply path peer nu addr addrlen c =
      let h = open_header msg_server_open nu.secret nu.seq_w 0 in
      let rep : List ℕ = header_bytes h ++ path_field path locals.rep_path in
      let (ret, e, env) = files.write nu.fd_w rep c.errno c.env in
      let c1 : Unix E = record c { errno = e; env = env } in
      if ret ==ℤ minus_one
      then refuse nu addr addrlen c1
      else elim (sockaddr_un locals.cli_path peer) [
        | none ↦ none
        | some sun ↦ elim (memcpy addr sun sockaddr_un_size) [
          | none ↦ none
          | some out ↦ some (
            record {
              ret = pos 0;
              nusock = some (record nu { seq_w = next_number h.seq_end; peerpath = peer });
              addr = out;
              addrlen = sockaddr_un_size;
            },
            c1,
          )
        ]
      ]

  -- From the second `open` on, with the request's header and path.
  unfoldable pub accept_client :
      Header → List ℕ → List ℕ → UnixSocket → List ℕ → ℕ → M (Unix E) Accepted
  unfolding accept_reply
  accept_client h client path nu addr addrlen c =
      let (fd, e, env) = files.open_writer client c.errno c.env in
      let (start, e', env') = files.random e env in
      let nu1 : UnixSocket = record nu { fd_w = fd } in
      if fd ==ℤ minus_one
      then refuse nu1 addr addrlen (record c { errno = e; env = env })
      else elim (behind local_path client) [
        | none ↦ refuse nu1 addr addrlen (record c { errno = e; env = env })
        | some peer ↦
            accept_reply path peer
              (record nu1 { secret = h.secret; seq_w = start; seq_r = next_number h.seq_end }) addr
              addrlen (record c { errno = e'; env = env' })
      ]

  -- From the making of the new mailslot's name on, with the request.
  unfoldable pub accept_request : List ℕ → List ℕ → UnixSocket → List ℕ → ℕ → M (Unix E) Accepted
  unfolding accept_client client_slot
  accept_request req server nu addr addrlen c =
      let (n, e1, env1) = files.random c.errno c.env in
      elim (client_slot files.max_path server n) [
        | none ↦ none
        | some path ↦
            let (fd, e2, env2) = files.open_reader path e1 env1 in
            let c2 : Unix E = record c { errno = e2; env = env2 } in
            let nu1 : UnixSocket = record nu { fd_r = fd } in
            if fd ==ℤ minus_one
            then refuse nu1 addr addrlen c2
            else elim (cstring (drop header_size req)) [
              | none ↦ none
              | some client ↦ accept_client (read_header req) client path nu1 addr addrlen c2
            ]
      ]

  -- From `read` on.
  unfoldable pub accept_read : UnixSocket → List ℕ → ℕ → M (Unix E) Accepted
  unfolding accept_request
  accept_read nu addr addrlen c =
      let (got, e, env) = files.read c.usock.fd_r locals.req dgram_size c.errno c.env in
      let c1 : Unix E = record c { errno = e; env = env } in
      if got.0 ==ℤ minus_one
      then refuse nu addr addrlen c1
      else if not ((read_header got.1).type == msg_client_open)
      then refuse nu addr addrlen c1
      else elim (cstring (drop 2 c.sock.sockname)) [
        | none ↦ none
        | some server ↦ accept_request got.1 server nu addr addrlen c1
      ]

  -- `__unix_accept`; `malloc` says whether there is memory.
  unfoldable pub accept : Io E Bool → List ℕ → ℕ → M (Unix E) Accepted
  unfolding accept_read
  accept malloc addr addrlen c =
      let (given, e, env) = malloc c.errno c.env in
      let nu : UnixSocket = record locals.nusock { peerpath = [] } in
      if not given
      then some (
        record { ret = minus_one; nusock = none; addr = addr; addrlen = addrlen },
        record c { errno = enomem; env = env },
      )
      else if ltb addrlen sockaddr_un_size
      then refuse nu addr addrlen (record c { errno = enobufs; env = env })
      else accept_read nu addr addrlen (record c { errno = e; env = env })
