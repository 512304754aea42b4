-- ===== src/Unix/Names.antt =====
-- src/unix/u_gscknm.c, u_gprnm.c, u_listen.c, u_shtdwn.c, u_sckopt.c, and the checks and the
-- initialisation of src/unix/u_initnt.c.
use libsocket.Base.{
  ℕ, min, Bool, not, ◌&&◌, ◌||◌, ◌==◌, ltb, if◌then◌else◌, Option, none, some, List, ◌∷◌, length,
  memcpy, M,
}
use libsocket.Base.Int.{ℤ, pos}
use libsocket.Layer.Types.{Socket, sock_stream, sock_dgram}
use libsocket.Unix.Path.{path_field}
use libsocket.Unix.Types.{Unix, af_unix, sockaddr_un_size}

-- The `struct sockaddr_un` with this path: `scratch` is what the local variable holds before. `none`
-- is a path that does not fit `sun_path`.
unfoldable pub sockaddr_un : List ℕ → List ℕ → Option (List ℕ)
sockaddr_un scratch path =
    if ltb (length path) 108 then some (af_unix ∷ (0 ∷ path_field path scratch)) else none

-- What both functions do, with the path of one end.
unfoldable pub give_name : {E : Type 0} → List ℕ → List ℕ → List ℕ → ℕ → M (Unix E) (ℤ × List ℕ × ℕ)
unfolding sockaddr_un
give_name scratch path name namelen c = elim (sockaddr_un scratch path) [
  | none ↦ none
  | some sun ↦ elim (memcpy name sun (min namelen sockaddr_un_size)) [
    | none ↦ none
    | some out ↦ some ((pos 0, out, min namelen sockaddr_un_size), c)
  ]
]

module _ {E : Type 0} where
  unfoldable pub getsockname : List ℕ → List ℕ → ℕ → M (Unix E) (ℤ × List ℕ × ℕ)
  unfolding give_name
  getsockname scratch name namelen c = give_name scratch c.usock.sockpath name namelen c

  unfoldable pub getpeername : List ℕ → List ℕ → ℕ → M (Unix E) (ℤ × List ℕ × ℕ)
  unfolding give_name
  getpeername scratch name namelen c = give_name scratch c.usock.peerpath name namelen c

  unfoldable pub listen : ℤ → M (Unix E) ℤ
  listen backlog c = some (pos 0, c)

  unfoldable pub shutdown : ℤ → M (Unix E) ℤ
  shutdown how c = some (pos 0, c)

  -- No option is handled here.
  unfoldable pub getsockopt : ℕ → M (Unix E) (Option ℤ)
  getsockopt optname c = some (none, c)

unfoldable pub proto_check : ℕ → ℕ → ℕ → Bool
proto_check domain type protocol =
    domain == af_unix && (type == sock_dgram || type == sock_stream) && protocol == 0

unfoldable pub addrlen_check : Socket → ℕ → Bool
addrlen_check k addrlen =
    k.family == af_unix
    && (k.type == sock_stream || k.type == sock_dgram)
    && not (ltb addrlen sockaddr_un_size)
