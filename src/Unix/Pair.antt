-- ===== src/Unix/Pair.antt =====
-- src/unix/u_sockpr.c.
use libsocket.Base.{ℕ, true, ◌==◌, if◌then◌else◌, none, some, List, M}
use libsocket.Base.Int.{ℤ, pos, minus_one, ◌==ℤ◌}
use libsocket.Layer.Types.{Errno, Socket, eprotonosupport, sock_stream, sock_dgram}
use libsocket.Unix.Open.{bind_path}
use libsocket.Unix.Path.{local_name, pair_path, made_up}
use libsocket.Unix.Types.{Secret, UnixSocket, Files, Unix}

-- The two descriptors with the data behind them, and what they share.
pub record Pair (E : Type 0) : Type 0 where
  pub sock0 : Socket
  pub usock0 : UnixSocket
  pub sock1 : Socket
  pub usock1 : UnixSocket
  pub errno : Errno
  pub my_buf : List ℕ
  pub env : E

module _ {E : Type 0} (files : Files E) where
  abbrev first : Pair E → Unix E
  first p = record {
    sock = p.sock0;
    usock = p.usock0;
    errno = p.errno;
    my_buf = p.my_buf;
    env = p.env;
  }

  abbrev second : Pair E → Unix E
  second p = record {
    sock = p.sock1;
    usock = p.usock1;
    errno = p.errno;
    my_buf = p.my_buf;
    env = p.env;
  }

  -- `__unix_bind` of one of them to a path of its own.
  unfoldable pub bind_first : List ℕ → M (Pair E) ℤ
  bind_first path p = elim (bind_path files path (first p)) [
    | none ↦ none
    | some (ret, c) ↦
        some (ret, record p { sock0 = c.sock; usock0 = c.usock; errno = c.errno; env = c.env })
  ]

  unfoldable pub bind_second : List ℕ → M (Pair E) ℤ
  bind_second path p = elim (bind_path files path (second p)) [
    | none ↦ none
    | some (ret, c) ↦
        some (ret, record p { sock1 = c.sock; usock1 = c.usock; errno = c.errno; env = c.env })
  ]

  -- The writing ends, up to the first failure.
  unfoldable pub open_ends : List ℕ → List ℕ → Pair E → Pair E
  open_ends dest0 dest1 p =
      let (fd0, e0, env0) = files.open_writer dest0 p.errno p.env in
      let (fd1, e1, env1) = files.open_writer dest1 e0 env0 in
      if fd0 ==ℤ minus_one
      then record p { errno = e0; env = env0 }
      else if fd1 ==ℤ minus_one
      then record p { usock0 = record p.usock0 { fd_w = fd0 }; errno = e1; env = env1 }
      else record p {
        usock0 = record p.usock0 { fd_w = fd0 };
        usock1 = record p.usock1 { fd_w = fd1 };
        errno = e1;
        env = env1;
      }

  -- The branch for streams. A failure to open an end is overwritten by `ret = 0`.
  unfoldable pub pair_stream : List ℕ → List ℕ → M (Pair E) ℤ
  unfolding open_ends
  pair_stream path0 path1 p =
      let (n, e1, env1) = files.random p.errno p.env in
      let (a, e2, env2) = files.random e1 env1 in
      let (b, e3, env3) = files.random e2 env2 in
      let s : Secret = record { n = n; pid = files.getpid } in
      let p1 : Pair E = record p {
        usock0 = record p.usock0 { secret = s; seq_w = a; seq_r = b; peerpath = path1 };
        usock1 = record p.usock1 { secret = s; seq_w = b; seq_r = a; peerpath = path0 };
        errno = e3;
        env = env3;
      } in
      elim (local_name files.max_path path1) [
        | none ↦ none
        | some dest0 ↦ elim (local_name files.max_path path0) [
          | none ↦ none
          | some dest1 ↦
              let p2 = open_ends dest0 dest1 p1 in
              some (
                pos 0,
                record p2 {
                  sock0 = record p2.sock0 { connected = true; bound = true };
                  sock1 = record p2.sock1 { connected = true; bound = true };
                },
              )
        ]
      ]

  unfoldable pub pair_dgram : List ℕ → List ℕ → M (Pair E) ℤ
  pair_dgram path0 path1 p = some (
    pos 0,
    record p {
      usock0 = record p.usock0 { peerpath = path1 };
      usock1 = record p.usock1 { peerpath = path0 };
      sock0 = record p.sock0 { bound = true };
      sock1 = record p.sock1 { bound = true };
    },
  )

  unfoldable pub pair_connect : List ℕ → List ℕ → M (Pair E) ℤ
  unfolding pair_stream pair_dgram
  pair_connect path0 path1 p =
      if p.sock0.type == sock_stream
      then pair_stream path0 path1 p
      else if p.sock0.type == sock_dgram
      then pair_dgram path0 path1 p
      else some (minus_one, record p { errno = eprotonosupport })

  -- `__unix_socketpair`.
  unfoldable pub socketpair : M (Pair E) ℤ
  unfolding bind_first bind_second pair_connect made_up
  socketpair p =
      let (m, e1, env1) = files.random p.errno p.env in
      let (n, e2, env2) = files.random e1 env1 in
      let path0 = made_up pair_path m in
      let path1 = made_up pair_path n in
      elim (bind_first path0 (record p { errno = e2; env = env2 })) [
        | none ↦ none
        | some (ret0, p1) ↦
            if ret0 ==ℤ minus_one then some (minus_one, p1) else elim (bind_second path1 p1) [
              | none ↦ none
              | some (ret1, p2) ↦
                  if ret1 ==ℤ minus_one then some (minus_one, p2) else pair_connect path0 path1 p2
            ]
      ]
