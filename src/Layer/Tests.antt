-- ===== src/Layer/Tests.antt =====
-- One socket on a small network, on which the theorems about the layer are applied.
use libsocket.Base.{
  ℕ, zero, suc, true, false, ◌==◌, leb, if◌then◌else◌, Option, none, some, List, [], ◌∷◌, ◌≡◌, refl,
  sym, ap, ◌∙◌, inl, inr, replicate, arith, Bool-cases,
}
use libsocket.Base.Int.{ℤ, pos, ◌==ℤ◌}
use libsocket.Layer.Close.{has_entry}
use libsocket.Layer.Interface.{Ctx, Call, Interface}
use libsocket.Layer.Sound.{IsSound, IsHonest, Names, Behaves, Keeps-refl, SameFds, IsWellFormed}
use libsocket.Layer.Types.{Socket, sock_stream, af_inet, ipproto_tcp, other}
use libsocket.Layer.World.{lsck_handler, Sys, World, fd_to_lsd}

-- A call that does nothing and answers `a`.
abbrev pub idle : {E A : Type 0} → A → Call E A
idle a c = (a, c)

-- An interface whose calls succeed at once. The environment counts the signals.
abbrev pub network : Interface ℕ
network = record {
  preuninit = none;
  uninit = none;
  socket = some (idle (pos 0));
  close = some (idle (pos 0));
  proto_check = none;
  addrlen_check = some (λ k n. leb n 16);
  bind = some (λ a n. idle (pos 0));
  listen = some (λ b. idle (pos 0));
  accept = none;
  connect = some (λ a n. idle (pos 0));
  recv = some (λ b n g. idle (pos 0, b));
  recvfrom = some (λ b n g from. idle (pos 0, b, from));
  send = some (λ b n g. idle (pos n));
  sendto = some (λ b n g to m. idle (pos n));
  getsockname = some (λ a n. idle (pos 0, a, n));
  getpeername = some (λ a n. idle (pos 0, a, n));
  getsockopt = some (λ l o v n. idle (none, v, n));
  setsockopt = some (λ l o v n. idle none);
  shutdown = some (λ how. idle (pos 0));
  fcntl = some (λ x y. idle none);
  select = some (λ x. idle (pos 1));
  nonblocking_check = none;
}

abbrev pub host : Sys ℕ
host = record {
  tables = λ t. network;
  inits = (λ e. (some 0, e)) ∷ [];
  alloc_fd = λ e. (pos 4, e);
  get_function = λ e s. if s ==ℤ pos 3 then some lsck_handler else none;
  clear_function = λ s e. e;
  get_data = λ e s. if s ==ℤ pos 3 then some 7 else none;
  set_data = λ s d e. e;
  set_binary = λ s e. e;
  close_fd = λ s e. e;
  has_device_data = λ e s. false;
  malloc = λ e. (some 8, e);
  free_idata = λ d e. e;
  raise_sigpipe = suc;
  getpid = pos 40;
}

-- A connected stream socket.
abbrev pub peer_socket : Socket
peer_socket = record {
  fd = pos 3;
  family = af_inet;
  type = sock_stream;
  protocol = ipproto_tcp;
  error = pos 0;
  sockname = replicate 110 0;
  socknamelen = 16;
  peername = replicate 110 0;
  peernamelen = 16;
  bound = true;
  accepted = false;
  connected = true;
  connecting = false;
  blocking = true;
  outbound = true;
  inbound = true;
  listening = false;
  backlog = pos 0;
  send_timeout = pos 0;
  recv_timeout = pos 0;
  urgent_pid = pos 0;
  interface = some 0;
  idata = none;
}

-- The only socket of the process, whose file descriptor is 3.
abbrev pub alone : Socket → World ℕ
alone k = record {
  errno = other 0;
  inited = true;
  interfaces = 0 ∷ [];
  table = some 7 ∷ replicate 255 none;
  heap = λ p. if p == 7 then some k else none;
  env = 0;
}

abbrev pub alone_context : Socket → Ctx ℕ
alone_context k = record { sock = k; errno = other 0; env = 0 }

-- A bound socket before `connect` or `listen`, one before `bind`, and one whose sending side is
-- closed.
abbrev pub fresh_socket : Socket
fresh_socket = record peer_socket { connected = false; peernamelen = 0 }

abbrev pub unbound_socket : Socket
unbound_socket = record fresh_socket { bound = false; socknamelen = 0 }

abbrev pub half_closed : Socket
half_closed = record peer_socket { outbound = false }

pub peer_socket-IsSound : IsSound peer_socket
peer_socket-IsSound = record {
  has_interface = refl;
  sockname_size = refl;
  peername_size = refl;
  peer_fits = omega arith;
  listens_bound = λ e. cc;
  listens_stream = λ e. cc;
}

pub fresh_socket-IsSound : IsSound fresh_socket
fresh_socket-IsSound = record {
  has_interface = refl;
  sockname_size = refl;
  peername_size = refl;
  peer_fits = omega arith;
  listens_bound = λ e. cc;
  listens_stream = λ e. cc;
}

pub unbound_socket-IsSound : IsSound unbound_socket
unbound_socket-IsSound = record {
  has_interface = refl;
  sockname_size = refl;
  peername_size = refl;
  peer_fits = omega arith;
  listens_bound = λ e. cc;
  listens_stream = λ e. cc;
}

idle-Behaves : (c : Ctx ℕ) → IsSound c.sock → Behaves host c c
idle-Behaves c h = record { keeps = Keeps-refl host c h; same_type = refl; same_listening = refl }

same_name : (a : List ℕ) (n : ℕ) → Names host a n a n
same_name a n = record { same_size = refl; fits = λ h. h }

pub network-IsHonest : IsHonest host network
network-IsHonest = record {
  nonblocking_check = tt;
  bind = λ a n. idle-Behaves;
  listen = λ b c h. (idle-Behaves c h, refl);
  connect = λ a n held fits. idle-Behaves;
  close = idle-Behaves;
  recv = λ b n g. idle-Behaves;
  recvfrom = λ b n g from. idle-Behaves;
  send = λ b n g. idle-Behaves;
  sendto = λ b n g to m. idle-Behaves;
  getsockname = (λ a n. idle-Behaves, λ a n c. same_name a n);
  getpeername = λ a n. idle-Behaves;
  getsockopt = (λ l o v n. idle-Behaves, λ l o v n c. same_name v n);
  setsockopt = λ l o v n. idle-Behaves;
  shutdown = λ how. idle-Behaves;
  fcntl = λ x y. idle-Behaves;
  select = λ x. idle-Behaves;
}

has_entry-empty : (p n : ℕ) → has_entry p (replicate n none) ≡ false
unfolding has_entry
has_entry-empty p zero = refl
has_entry-empty p (suc n) = has_entry-empty p n

pub signals-SameFds : (e : ℕ) → SameFds host e (suc e)
signals-SameFds e = record { sockets = λ s. refl; datas = λ s h. refl }

pub frees-SameFds : (p : Option ℕ) (e : ℕ) → SameFds host e e
frees-SameFds p e = record { sockets = λ s. refl; datas = λ s h. refl }

module _ (k : Socket) (sound : IsSound k) (number : k.fd ≡ pos 3) where
  alone-live :
      (p : ℕ)
      → has_entry p (alone k).table ≡ true
      → (j : Socket) × ((alone k).heap p ≡ some j) × IsSound j
  unfolding has_entry
  alone-live p e = elim (Bool-cases (p == 7)) [
    | inl y ↦ (k, rw y refl, sound)
    | inr n ↦ ground (arith, has_entry-empty p 255)
  ]

  alone-linked : (s : ℤ) (p : ℕ) → fd_to_lsd host (alone k) s ≡ some p → (s ≡ pos 3) × (p ≡ 7)
  unfolding fd_to_lsd
  alone-linked s p e = ground arith

  alone-numbered :
      (s : ℤ) (p : ℕ) (j : Socket)
      → fd_to_lsd host (alone k) s ≡ some p
      → (alone k).heap p ≡ some j
      → j.fd ≡ s
  alone-numbered s p j e h =
      let (x, y) = alone-linked s p e in
      let z : some k ≡ some j = rw y at h in
      rw x (sym (ap (λ (o : Option Socket). elim o [ none ↦ pos 3 | some i ↦ i.fd ]) z) ∙ number)

  pub alone-IsWellFormed : IsWellFormed host (alone k)
  unfolding has_entry
  alone-IsWellFormed = record {
    size = refl;
    live = alone-live;
    linked = λ s p e. let (x, y) = alone-linked s p e in rw y refl;
    numbered = alone-numbered;
  }
