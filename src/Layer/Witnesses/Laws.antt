-- ===== src/Layer/Witnesses/Laws.antt =====
-- Single branches, and calls one behind another, on the network.
use libsocket.Base.{
  ℕ, zero, suc, memcpy, true, Option, none, some, [], ◌∷◌, ◌++◌, replicate, All, ◌≡◌, ◌≢◌, refl,
  ◌⊎◌, inl, arith, is_given,
}
use libsocket.Base.Int.{ℤ, pos, minus_one}
use libsocket.Layer.Close.{closesocket, close_body, forget}
use libsocket.Layer.Connect.{connect_body}
use libsocket.Layer.Create.{socket_start, allocate}
use libsocket.Layer.Interface.{Ctx}
use libsocket.Layer.Options.{shutdown_body, shut_flags, shut_rd, shut_wr}
use libsocket.Layer.Laws.Connection.{connect_body-Outcome, IsRefused, Asked}
use libsocket.Layer.Laws.Creation.{socket_start_outcome, GivenBack, Created, Declined}
use libsocket.Layer.Laws.Slots.{allocate_full, closesocket_dangles}
use libsocket.Layer.Laws.Stopping.{send-shutdown, sendto_body_stream, shutdown_body-Sides, Sides}
use libsocket.Layer.Tests.{
  idle, network, host, peer_socket, fresh_socket, half_closed, alone, alone_context,
  peer_socket-IsSound, network-IsHonest, alone-IsWellFormed, frees-SameFds,
}
use libsocket.Layer.Transfer.{recv, sendto_body, memcmp_ne, recv_body}
use libsocket.Layer.Types.{Socket, epipe, emfile}
use libsocket.Layer.World.{World, on_socket, update, run_on, with_lsd}
use libsocket.Layer.Witnesses.{addr, four_bytes}

pos_one-minus_one : pos 1 ≢ minus_one
pos_one-minus_one e = cc

-- The socket after `connect`.
abbrev joined : Ctx ℕ
joined = record (alone_context fresh_socket) {
  sock = record fresh_socket {
    peername = addr ++ replicate 94 0;
    peernamelen = 16;
    socknamelen = 110;
    connected = true;
  };
}

connect_run :
    connect_body (some addr) 16 network (alone_context fresh_socket) ≡ some (pos 0, joined)
unfolding connect_body memcpy
connect_run = refl

connect_body-Outcome_example :
    IsRefused (alone_context fresh_socket) (pos 0) joined
    ⊎ Asked (some addr) 16 network (alone_context fresh_socket) (pos 0) joined
connect_body-Outcome_example =
    connect_body-Outcome (some addr) 16 network (alone_context fresh_socket) joined (pos 0) refl
      connect_run

-- A socket after `shutdown`.
abbrev shut : ℤ → Ctx ℕ
shut how = alone_context (shut_flags how peer_socket)

shut_wr_run : shutdown_body shut_wr network (alone_context peer_socket) ≡ some (pos 0, shut shut_wr)
unfolding shutdown_body
shut_wr_run = refl

shut_rd_run : shutdown_body shut_rd network (alone_context peer_socket) ≡ some (pos 0, shut shut_rd)
unfolding shutdown_body
shut_rd_run = refl

send-shutdown_example :
    sendto_body host (some (1 ∷ [])) 1 0 none 0 network (shut shut_wr)
    ≡ some (minus_one, record (shut shut_wr) { errno = epipe; env = 1 })
send-shutdown_example =
    send-shutdown host shut_wr network network (alone_context peer_socket) (shut shut_wr) (1 ∷ []) 1
      0 none 0 (inl refl) (inl refl) shut_wr_run

send_run :
    sendto_body host (some (1 ∷ [])) 1 0 none 0 network (alone_context peer_socket)
    ≡ some (pos 1, alone_context peer_socket)
unfolding sendto_body memcmp_ne
send_run = refl

sendto_body_stream_example :
    (peer_socket.connected ≡ true)
    × (peer_socket.outbound ≡ true)
    × (idle (pos 1) (alone_context peer_socket) ≡ (pos 1, alone_context peer_socket))
sendto_body_stream_example =
    sendto_body_stream host network (λ b n g. idle (pos n)) (alone_context peer_socket)
      (alone_context peer_socket) (1 ∷ []) 1 0 none 0 (pos 1) refl refl pos_one-minus_one send_run

shutdown_body-Sides_example :
    (peer_socket.connected ≡ true)
    × (pos 0 ≡ pos 0)
    × Sides shut_rd (alone_context peer_socket) (shut shut_rd)
shutdown_body-Sides_example =
    shutdown_body-Sides shut_rd network (λ how. idle (pos 0)) (alone_context peer_socket)
      (shut shut_rd) refl shut_rd_run

-- The state after a call on the socket `k` of `alone`, whose descriptor is now that of `c`.
abbrev after : Socket → Ctx ℕ → World ℕ
after k c = record (alone k) {
  errno = c.errno;
  heap = update (alone k).heap 7 (some c.sock);
  env = c.env;
}

recv_run :
    recv host (pos 3) (some four_bytes) 4 0 (alone peer_socket)
    ≡ some ((pos 0, some four_bytes), after peer_socket (alone_context peer_socket))
unfolding recv on_socket recv_body
recv_run = refl

-- The state after a refused send.
abbrev refused : World ℕ
refused = after half_closed (record (alone_context half_closed) { errno = epipe; env = 1 })

-- A state whose table has no null entry.
abbrev crowded : World ℕ
crowded = record (alone peer_socket) { table = replicate 256 (some 7) }

All-replicate : (n : ℕ) → All (λ e. is_given e ≡ true) (replicate {A = Option ℕ} n (some 7))
All-replicate zero = tt
All-replicate (suc n) = (refl, All-replicate n)

allocate_full_example : allocate host emfile crowded ≡ none
allocate_full_example = allocate_full host emfile crowded refl (All-replicate 256) refl

-- The state after `closesocket`: the check for I/O and the closing both write the descriptor.
abbrev closed : World ℕ
closed =
    let w : World ℕ = after peer_socket (alone_context peer_socket) in
    forget host 7 (record w { heap = update w.heap 7 (some peer_socket) })

close_run : closesocket host (pos 3) (alone peer_socket) ≡ some (pos 0, closed)
unfolding closesocket run_on with_lsd
close_run = refl

closesocket_dangles_example : on_socket host minus_one (pos 3) (close_body host) closed ≡ none
closesocket_dangles_example =
    closesocket_dangles host (pos 3) (alone peer_socket) closed minus_one (close_body host)
      (λ t. network-IsHonest) frees-SameFds
      (alone-IsWellFormed peer_socket peer_socket-IsSound refl) close_run

-- The state after a second socket's creation, with the descriptor at 8.
abbrev second : World ℕ
second = record (alone peer_socket) { heap = update (alone peer_socket).heap 8 (some fresh_socket) }

start_run : socket_start host (pos 4) 1 8 fresh_socket (alone peer_socket) ≡ some (pos 4, second)
unfolding socket_start
start_run = refl

socket_start_outcome_example :
    Created host (pos 4) 8 fresh_socket (alone peer_socket) second (pos 4)
    ⊎ (Declined host fresh_socket (alone peer_socket)
        × (pos 4 ≡ minus_one)
        × GivenBack host 1 8 second)
socket_start_outcome_example =
    socket_start_outcome host (pos 4) 1 8 fresh_socket (alone peer_socket) second (pos 4)
      (omega arith) start_run
