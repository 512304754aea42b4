-- ===== src/Wsock/Witnesses.antt =====
-- The theorems about the Winsock interface, applied on a driver whose socket has a refused connection
-- behind it, and which has three bytes to receive.
use libsocket.Base.{
  ℕ, ◌<◌, ◌&&◌, ◌⊎◌, false, true, some, List, [], ◌∷◌, length, replicate, min, ◌≡◌, refl, arith,
  Returns,
}
use libsocket.Base.Int.{pos, minus_one}
use libsocket.Layer.Tests.{peer_socket}
use libsocket.Layer.Types.{Errno, other}
use libsocket.Wsock.Options.{getsockopt, read_int, so_error}
use libsocket.Wsock.Outcomes.Blocking.{IsReliable, connect-IsAnswer}
use libsocket.Wsock.Outcomes.Data.{IsHonest, IsStored, recv-IsStored}
use libsocket.Wsock.Outcomes.Errors.{getsockopt-so_error}
use libsocket.Wsock.Transfer.{recv, connect, is_retried}
use libsocket.Wsock.Types.{Driver, Wsock}

abbrev number : Errno → ℕ
number (other n) = n
number _ = 1

abbrev driver : Driver ℕ
driver = record {
  socket = λ family type protocol now e. ((0, 1, now), e);
  close = λ s e. (0, e);
  bind = λ s a e. ((0, a), e);
  listen = λ s backlog e. (0, e);
  accept = λ s len now e.
      ((0, record { socket = 2; handle = now; address_length = 16; address = replicate 16 0 }), e);
  connect = λ s a e. ((10035, a), e);
  send = λ s msg flags to e. ((0, length msg), e);
  recv = λ s len flags a e. (
    (
      0,
      record { count = min len 3; buffer = 7 ∷ (8 ∷ (9 ∷ [])); address_length = 0; address = [] },
    ),
    e,
  );
  getsockname = λ s a e. ((0, length a, a), e);
  getpeername = λ s a e. ((0, length a, a), e);
  getsockopt = λ s level name a e.
      ((0, record { is_null = true; value_length = 0; int_value = 10061; value = [] }), e);
  setsockopt = λ s level name a e. (0, e);
  ioctl = λ s request p e. ((0, p), e);
  shutdown = λ s how e. (0, e);
  select_setup = λ s event handle lists e. (0, e);
  io_completed = λ e. (1, e);
  select_cleanup = λ lists e. (0, e);
  yields = λ e. e;
  size_p = 4096;
  size_d = 65536;
  malloc = λ e. (true, e);
  time = λ e. (5, e);
  number = number;
}

abbrev open_socket : Wsock ℕ
open_socket = record {
  sock = peer_socket;
  socket = 1;
  handle = 5;
  inetaddr = replicate 16 0;
  errno = other 0;
  vxd_error = 0;
  waiting = false;
  env = 0;
}

one_not_zero : ◌≡◌ {A = ℕ} 1 0 → ◌<◌ 0 0
one_not_zero e = absurd (omega arith)

driver-IsReliable : IsReliable driver 1
driver-IsReliable = record {
  nonblocking = λ s p env. refl;
  address = λ s a env. refl;
  turns = λ e. 0;
  bounded = λ e. omega arith;
  falls = λ e h. one_not_zero h;
}

driver-IsHonest : IsHonest driver
driver-IsHonest = record {
  fits = λ s len flags a env. omega arith;
  there = λ s len flags a env. omega arith;
}

abbrev an_int : List ℕ
an_int = replicate 4 1

getsockopt-so_error_example :
    Returns
      (getsockopt driver 65535 so_error an_int 4 open_socket)
      (λ a c'. (a.0 ≡ pos 0) × (read_int a.1 ≡ some 0))
getsockopt-so_error_example =
    getsockopt-so_error driver refl 65535 4 an_int open_socket (omega arith) (omega arith)
      (omega arith) refl (omega arith) (omega arith)

abbrev a_name : List ℕ
a_name = replicate 16 2

connect-IsAnswer_example : Returns (connect driver 1 a_name 16 open_socket) (λ out c'.
    (c'.sock ≡ peer_socket)
    × ((out.0 ≡ pos 0)
        ⊎ ((out.0 ≡ minus_one) × (out.1 ≡ a_name) × ((true && is_retried c'.errno) ≡ false))))
connect-IsAnswer_example =
    connect-IsAnswer driver 1 driver-IsReliable a_name 16 open_socket (omega arith) (omega arith)

recv-IsStored_example :
    Returns
      (recv driver 1 (replicate 5 0) 5 0 open_socket)
      (λ out c'. IsStored driver 1 driver-IsReliable driver-IsHonest (replicate 5 0) 5 out)
recv-IsStored_example =
    recv-IsStored driver 1 driver-IsReliable driver-IsHonest (replicate 5 0) 5 0 open_socket
      (omega arith)
