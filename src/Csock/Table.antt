-- ===== src/Csock/Table.antt =====
-- The interface of src/csock as a table of the socket layer, src/csock/c_initnt.c.
use libsocket.Base.{ℕ, Bool, Option, none, some, List, M}
use libsocket.Base.Int.{ℤ, minus_one}
use libsocket.Csock.Calls.{
  proto_check, bind, listen, connect, shutdown, select, fcntl, nonblocking_check, addrlen_check,
  Command,
}
use libsocket.Csock.Descriptors.{close}
use libsocket.Csock.Names.{Inet, getsockname, getpeername, getsockopt, SockOption}
use libsocket.Csock.Transfer.{send, sendto, recv, recvfrom}
use libsocket.Csock.Types.{Driver, Csock}
use libsocket.Layer.Interface.{Ctx, Call, Interface}

-- What the interface keeps beside a descriptor: `csock->fd` behind each `idata`, its bits and its
-- version, the driver's state, and the C library's own.
pub record Net (F E : Type 0) : Type 0 where
  pub fds : Option ℕ → ℤ
  pub fd_table : ℕ → Bool
  pub version : ℕ
  pub env : E
  pub files : F

module _ {F E : Type 0} where
  abbrev pub enter : Ctx (Net F E) → Csock E
  enter c = record {
    sock = c.sock;
    fd = c.env.fds c.sock.idata;
    errno = c.errno;
    fd_table = c.env.fd_table;
    version = c.env.version;
    env = c.env.env;
  }

  abbrev pub leave : Net F E → Csock E → Ctx (Net F E)
  leave e d = record {
    sock = d.sock;
    errno = d.errno;
    env = record e { fd_table = d.fd_table; version = d.version; env = d.env };
  }

  -- A function of src/csock as an entry of the table. What C leaves undefined does nothing here.
  unfoldable pub entry : {A : Type 0} → A → M (Csock E) A → Call (Net F E) A
  entry bad m c = elim (m (enter c)) [ none ↦ (bad, c) | some (a, d) ↦ (a, leave c.env d) ]

  -- `__csock_interface`, over a driver and the interface's addresses; creation, `accept` and the
  -- functions of the interface as a whole are those of `others`. The arguments behind it read the
  -- numbers of commands, levels and options.
  abbrev pub csock_interface :
      Driver E
      → List Inet
      → Bool
      → ℕ
      → (ℤ → ℤ → Command)
      → (ℕ → Bool)
      → (ℕ → SockOption)
      → Interface (Net F E)
      → Interface (Net F E)
  csock_interface driver inet inited o_nonblock command level option others = record {
    preuninit = others.preuninit;
    uninit = others.uninit;
    socket = others.socket;
    close = some (entry minus_one (close driver));
    proto_check = some (proto_check inited);
    addrlen_check = some addrlen_check;
    bind = some (λ a n. entry minus_one (bind driver a n));
    listen = some (λ b. entry minus_one (listen driver b));
    accept = others.accept;
    connect = some (λ a n. entry minus_one (connect driver a n));
    recv = some (λ b n g. entry (minus_one, b) (recv driver b n g));
    recvfrom = some (λ b n g from. entry (minus_one, b, from) (recvfrom driver b n g from));
    send = some (λ b n g. entry minus_one (send driver b n g));
    sendto = some (λ b n g to m. entry minus_one (sendto driver inet b n g to m));
    getsockname = some (λ a n. entry (minus_one, a, n) (getsockname driver inet a n));
    getpeername = some (λ a n. entry (minus_one, a, n) (getpeername driver a n));
    getsockopt =
        some (λ l o v n. entry (some minus_one, v, n) (getsockopt (level l) (option o) v n));
    setsockopt = none;
    shutdown = some (λ how. entry minus_one (shutdown driver how));
    fcntl = some (λ x y. entry (some minus_one) (fcntl driver o_nonblock (command x y)));
    select = some (λ e. entry minus_one (select driver e));
    nonblocking_check = some (entry minus_one (nonblocking_check driver));
  }
