-- ===== src/Layer/Create.antt =====
-- src/socket.c: the creation of a socket. The allocation of a file descriptor, of an entry of
-- `__lsck_socket[]` and of memory is also that of src/accept.c.
use libsocket.Base.{
  ℕ, ◌+◌, Bool, true, false, not, ◌&&◌, ◌==◌, ltb, if◌then◌else◌, Option, none, some, List, [], ◌∷◌,
  M, replicate, set,
}
use libsocket.Base.Int.{ℤ, pos, minus_one, ◌==ℤ◌, is_negative}
use libsocket.Layer.Init.{init, num_socket}
use libsocket.Layer.Interface.{Interface}
use libsocket.Layer.Types.{
  Errno, enodev, emfile, enobufs, eprotonosupport, Socket, af_inet, sock_stream, sock_dgram,
  sock_raw, ipproto_tcp, ipproto_udp, sockaddr_max_size,
}
use libsocket.Layer.World.{Sys, World, update}

-- `__lsck_socket_default[]`, up to its end.
pub record SocketDefault : Type 0 where
  pub domain : ℕ
  pub type : ℕ
  pub protocol : ℕ

abbrev pub socket_default : List SocketDefault
socket_default =
    record { domain = af_inet; type = sock_stream; protocol = ipproto_tcp }
    ∷ (record { domain = af_inet; type = sock_dgram; protocol = ipproto_udp } ∷ [])

unfoldable pub find_default : List SocketDefault → ℕ → ℕ → ℕ → ℕ
find_default [] domain type protocol = protocol
find_default (d ∷ ds) domain type protocol =
    if d.domain == domain && d.type == type
    then d.protocol
    else find_default ds domain type protocol

unfoldable pub default_protocol : ℕ → ℕ → ℕ → ℕ
unfolding find_default
default_protocol domain type protocol =
    if protocol == 0 && not (type == sock_raw)
    then find_default socket_default domain type protocol
    else protocol

-- The loop for the first free descriptor, from entry `i` on. It reads an entry before it compares
-- `i` with the table's size; a read beyond the table is `none`.
unfoldable pub free_from : List (Option ℕ) → ℕ → Option ℕ
free_from [] i = none
free_from (none ∷ es) i = some i
free_from (some p ∷ es) i =
    let rest = free_from es (i + 1) in if ltb i num_socket then rest else some i

-- The first interface, of those in the list, whose `proto_check` accepts the protocol.
module _ {E : Type 0} (sys : Sys E) where
  abbrev pub accepts : Interface E → ℕ → ℕ → ℕ → Bool
  accepts i domain type protocol = elim i.proto_check [
    | none ↦ false
    | some f ↦ f domain type protocol
  ]

  unfoldable pub find_interface : List ℕ → ℕ → ℕ → ℕ → Option ℕ
  find_interface [] domain type protocol = none
  find_interface (t ∷ ts) domain type protocol =
      if accepts (sys.tables t) domain type protocol
      then some t
      else find_interface ts domain type protocol

  -- The interface that the caller names, or the first that fits.
  abbrev pub choose_interface : Option ℕ → List ℕ → ℕ → ℕ → ℕ → Option ℕ
  choose_interface (some t) ts domain type protocol = some t
  choose_interface none ts domain type protocol = find_interface ts domain type protocol

  -- `memset (lsd, 0, ...)` and the assignments that follow it.
  unfoldable pub new_lsd : ℤ → ℕ → ℕ → ℕ → Option ℕ → Socket
  new_lsd s domain type protocol my_if = record {
    fd = s;
    family = domain;
    type = type;
    protocol = protocol;
    error = pos 0;
    sockname = replicate sockaddr_max_size 0;
    socknamelen = 0;
    peername = replicate sockaddr_max_size 0;
    peernamelen = 0;
    bound = false;
    accepted = false;
    connected = false;
    connecting = false;
    blocking = true;
    outbound = true;
    inbound = true;
    listening = false;
    backlog = pos 0;
    send_timeout = pos 0;
    recv_timeout = pos 0;
    urgent_pid = sys.getpid;
    interface = my_if;
    idata = none;
  }

  -- `__FSEXT_set_function (s, NULL); _close (s);`
  abbrev pub drop_fd : ℤ → E → E
  drop_fd s env = sys.close_fd s (sys.clear_function s env)

  -- `__SOCKET_CLEANUP`
  unfoldable pub cleanup : ℤ → ℕ → ℕ → World E → World E
  cleanup s slot p w = record w {
    env = sys.close_fd s (sys.set_data s none (sys.clear_function s w.env));
    heap = update w.heap p none;
    table = set w.table slot none;
  }

  -- A file descriptor, an entry of the table and an address for the new descriptor.
  pub data Room : Type 0 where
    no_room : Errno → Room
    room : ℤ → ℕ → ℕ → Room

  -- With `errno` for a lack of file descriptors or of entries given by the caller.
  unfoldable pub allocate : Errno → M (World E) Room
  allocate full w =
      let (s, env) = sys.alloc_fd w.env in
      if is_negative s
      then some (no_room full, record w { errno = full; env = env })
      else (let env' = sys.set_binary s env in
          elim (free_from w.table 0) [
            | none ↦ none
            | some slot ↦
                if ltb slot num_socket
                then (let (found, env'') = sys.malloc env' in
                    elim found [
                      | none ↦ some (
                        no_room enobufs,
                        record w {
                          errno = enobufs;
                          table = set w.table slot none;
                          env = drop_fd s env'';
                        },
                      )
                      | some p ↦ some (
                        room s slot p,
                        record w {
                          table = set w.table slot (some p);
                          env = sys.set_data s (some p) env'';
                        },
                      )
                    ])
                else some (no_room full, record w { errno = full; env = drop_fd s env' })
          ])

  -- The interface's `socket` on the new descriptor; on failure all that was allocated goes back.
  unfoldable pub socket_start : ℤ → ℕ → ℕ → Socket → M (World E) ℤ
  unfolding cleanup
  socket_start s slot p k w = elim k.interface [
    | none ↦ some (minus_one, record (cleanup s slot p w) { errno = eprotonosupport })
    | some t ↦ elim ((sys.tables t).socket) [
      | none ↦ some (minus_one, record (cleanup s slot p w) { errno = eprotonosupport })
      | some f ↦
          let (r, c) = f (record { sock = k; errno = w.errno; env = w.env }) in
          let w' : World E = record w {
            errno = c.errno;
            heap = update w.heap p (some c.sock);
            env = c.env;
          } in
          if r ==ℤ minus_one then some (minus_one, cleanup s slot p w') else some (s, w')
    ]
  ]

  unfoldable pub socketx : ℕ → ℕ → ℕ → Option ℕ → M (World E) ℤ
  unfolding allocate socket_start new_lsd
  socketx domain type protocol my_if w = elim (init sys w) [
    | none ↦ none
    | some (false, w') ↦ some (minus_one, record w' { errno = enodev })
    | some (true, w') ↦
        let protocol' = default_protocol domain type protocol in
        elim (allocate emfile w') [
          | none ↦ none
          | some (no_room e, w'') ↦ some (minus_one, w'')
          | some (room s slot p, w'') ↦
              let chosen = choose_interface my_if w''.interfaces domain type protocol' in
              socket_start s slot p (new_lsd s domain type protocol' chosen) w''
        ]
  ]

  unfoldable pub socket : ℕ → ℕ → ℕ → M (World E) ℤ
  unfolding socketx
  socket domain type protocol = socketx domain type protocol none
