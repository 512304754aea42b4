-- ===== src/Csock/Witnesses.antt =====
-- The theorems about the Coolsocket interface, applied on a driver that has one free descriptor.
use libsocket.Base.{ℕ, none, some, [], ◌==◌, true, false, not, if◌then◌else◌}
use libsocket.Base.Int.{pos, negsuc, minus_one, ◌==ℤ◌}
use libsocket.Csock.Calls.{f_getfl}
use libsocket.Csock.Names.{so_rcvbuf}
use libsocket.Csock.Table.{Net, csock_interface}
use libsocket.Layer.Interface.{Interface}
use libsocket.Layer.World.{Sys, lsck_handler}
use libsocket.Csock.Descriptors.{socket}
use libsocket.Csock.Errors.{fd_inuse}
use libsocket.Csock.Types.{no_answer, Driver, Csock}
use libsocket.Layer.Tests.{peer_socket}
use libsocket.Layer.Types.{other}

-- Descriptor 3 is free; a send and a receive meet a reset connection (TDI error 20).
abbrev driver : Driver ℕ
driver = record {
  usage = λ e. (no_answer, e);
  probe = λ fd e. (not (fd == 3), e);
  socket = λ protocol fd e. ((if fd == 3 then pos 0 else fd_inuse), e);
  close = λ fd e. (pos 0, e);
  bind = λ fd addr port e. (pos 0, e);
  listen = λ fd backlog e. (pos 0, e);
  accept = λ fd new e. ((pos 0, 80, 0), e);
  connect = λ fd addr port e. (pos 0, e);
  recv = λ fd buf len e. ((negsuc 19, 0, buf), e);
  recvfrom = λ fd buf len e. ((negsuc 19, 0, buf, 0, 0), e);
  send = λ fd msg len e. (negsuc 19, e);
  sendto = λ fd addr port msg len e. ((negsuc 19, 0), e);
  getsockname = λ fd e. ((pos 0, 0, 80), e);
  getpeername = λ fd e. ((pos 0, 0, 80), e);
  select = λ fd event e. ((pos 0, true), e);
  set_nonblocking = λ fd flag e. (pos 0, e);
}

abbrev fresh : Csock ℕ
fresh = record {
  sock = peer_socket;
  fd = minus_one;
  errno = other 0;
  fd_table = λ fd. false;
  version = 0;
  env = 0;
}

abbrev no_functions : Interface (Net ℕ ℕ)
no_functions = record {
  preuninit = none;
  uninit = none;
  socket = none;
  close = none;
  proto_check = none;
  addrlen_check = none;
  bind = none;
  listen = none;
  accept = none;
  connect = none;
  recv = none;
  recvfrom = none;
  send = none;
  sendto = none;
  getsockname = none;
  getpeername = none;
  getsockopt = none;
  setsockopt = none;
  shutdown = none;
  fcntl = none;
  select = none;
  nonblocking_check = none;
}

-- A C library with one socket, at the file descriptor 3, over this interface.
abbrev csock_table : Interface (Net ℕ ℕ)
csock_table =
    csock_interface driver [] true 4 (λ x y. f_getfl) (λ l. true) (λ o. so_rcvbuf) no_functions

abbrev csock_host : Sys (Net ℕ ℕ)
csock_host = record {
  tables = λ t. csock_table;
  inits = [];
  alloc_fd = λ e. (pos 4, e);
  get_function = λ e s. if s ==ℤ pos 3 then some lsck_handler else none;
  clear_function = λ s e. e;
  get_data = λ e s. if s ==ℤ pos 3 then some e.files else none;
  set_data = λ s d e. e;
  set_binary = λ s e. e;
  close_fd = λ s e. e;
  has_device_data = λ e s. false;
  malloc = λ e. (some 8, e);
  free_idata = λ d e. e;
  raise_sigpipe = λ e. e;
  getpid = pos 40;
}
