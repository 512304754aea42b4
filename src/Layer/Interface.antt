-- ===== src/Layer/Interface.antt =====
-- The interface table LSCK_IF of include/lsck/if.h: what each transport (WSOCK.VXD, SOCK.VXD,
-- mailslots) provides to the layer above. A null entry of the table is `none`.
use libsocket.Base.{ℕ, Bool, Option, none, some, List, M}
use libsocket.Base.Int.{ℤ, minus_one}
use libsocket.Layer.Types.{Errno, Socket}

-- What a call of an interface can read and write: the descriptor it is given, `errno`, and the
-- environment `E` (the C library's file descriptors, the system and the network).
pub record Ctx (E : Type 0) : Type 0 where
  pub sock : Socket
  pub errno : Errno
  pub env : E

abbrev pub Call : Type 0 → Type 0 → Type 0
Call E A = Ctx E → A × Ctx E

-- A buffer that a call fills is passed in and handed back. `fcntl`, `ioctl`, `getsockopt` and
-- `setsockopt` answer `none` where they return 0 for "not handled", and `some rv` otherwise.
-- `accept` gets the listening descriptor beside the new one.
pub record Interface (E : Type 0) : Type 0 where
  pub preuninit : Option (E → E)
  pub uninit : Option (E → E)
  pub socket : Option (Call E ℤ)
  pub close : Option (Call E ℤ)
  pub proto_check : Option (ℕ → ℕ → ℕ → Bool)
  pub addrlen_check : Option (Socket → ℕ → Bool)
  pub bind : Option (List ℕ → ℕ → Call E ℤ)
  pub listen : Option (ℤ → Call E ℤ)
  pub accept : Option (Socket → Ctx E → ℤ × Socket × Ctx E)
  pub connect : Option (List ℕ → ℕ → Call E ℤ)
  pub recv : Option (List ℕ → ℕ → ℕ → Call E (ℤ × List ℕ))
  pub recvfrom :
      Option (List ℕ → ℕ → ℕ → Option (List ℕ × ℕ) → Call E (ℤ × List ℕ × Option (List ℕ × ℕ)))
  pub send : Option (List ℕ → ℕ → ℕ → Call E ℤ)
  pub sendto : Option (List ℕ → ℕ → ℕ → Option (List ℕ) → ℕ → Call E ℤ)
  pub getsockname : Option (List ℕ → ℕ → Call E (ℤ × List ℕ × ℕ))
  pub getpeername : Option (List ℕ → ℕ → Call E (ℤ × List ℕ × ℕ))
  pub getsockopt : Option (ℕ → ℕ → List ℕ → ℕ → Call E (Option ℤ × List ℕ × ℕ))
  pub setsockopt : Option (ℕ → ℕ → List ℕ → ℕ → Call E (Option ℤ))
  pub shutdown : Option (ℤ → Call E ℤ)
  pub fcntl : Option (ℤ → ℤ → Call E (Option ℤ))
  pub select : Option (ℕ → Call E ℤ)
  pub nonblocking_check : Option (Call E ℤ)

module _ {E : Type 0} where
  -- A call of an entry that is not null; it returns.
  abbrev pub call : {A : Type 0} → Call E A → M (Ctx E) A
  call f c = some (f c)

  -- `errno = e; return (-1);`
  abbrev pub fail : Errno → M (Ctx E) ℤ
  fail e c = some (minus_one, record c { errno = e })

  abbrev pub get_sock : M (Ctx E) Socket
  get_sock c = some (c.sock, c)

  abbrev pub get_errno : M (Ctx E) Errno
  get_errno c = some (c.errno, c)

  abbrev pub set_errno : Errno → M (Ctx E) (Unit {0})
  set_errno e c = some (tt, record c { errno = e })

  abbrev pub set_sock : Socket → M (Ctx E) (Unit {0})
  set_sock k c = some (tt, record c { sock = k })

  abbrev pub set_env : (E → E) → M (Ctx E) (Unit {0})
  set_env f c = some (tt, record c { env = f c.env })

  -- Every public function begins so: `if (lsd->interface->nonblocking_check != NULL) ...`.
  abbrev pub poll : Interface E → M (Ctx E) (Unit {0})
  poll i c = elim i.nonblocking_check [ none ↦ some (tt, c) | some f ↦ some (tt, (f c).1) ]
