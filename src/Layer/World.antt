-- ===== src/Layer/World.antt =====
-- The state of the socket layer, and the way from a file descriptor to its socket descriptor:
-- src/socket.c (`__fd_to_lsd`), src/fsext.c (`__fd_is_socket`, `__fd_is_valid`, `isfdtype`).
use libsocket.Base.{
  ℕ, Bool, true, false, ◌==◌, if◌then◌else◌, Option, none, some, List, M, return, ◌>>◌,
}
use libsocket.Base.Int.{ℤ, minus_one, pos}
use libsocket.Layer.Interface.{Ctx, Interface, poll}
use libsocket.Layer.Types.{Errno, ebadf, einval, Socket}

-- A File System Extensions handler: the layer's own `__lsck_socket_fsext`, or another's.
pub data Handler : Type 0 where
  lsck_handler foreign_handler : Handler

-- What the C library and the system provide, over their state `E`. `tables` reads an interface's
-- table at its address, and `inits` are the initialisers of `if_init_table`.
pub record Sys (E : Type 0) : Type 0 where
  pub tables : ℕ → Interface E
  pub inits : List (E → Option ℕ × E)
  pub alloc_fd : E → ℤ × E
  pub get_function : E → ℤ → Option Handler
  pub clear_function : ℤ → E → E
  pub get_data : E → ℤ → Option ℕ
  pub set_data : ℤ → Option ℕ → E → E
  pub set_binary : ℤ → E → E
  pub close_fd : ℤ → E → E
  pub has_device_data : E → ℤ → Bool
  pub malloc : E → Option ℕ × E
  pub free_idata : Option ℕ → E → E
  pub raise_sigpipe : E → E
  pub getpid : ℤ

-- `table` is `__lsck_socket[]`, whose entries are addresses in `heap`; `interfaces` is
-- `__lsck_interface[]` up to its null, and `inited` is `__lsck_inited`.
pub record World (E : Type 0) : Type 0 where
  pub errno : Errno
  pub inited : Bool
  pub interfaces : List ℕ
  pub table : List (Option ℕ)
  pub heap : ℕ → Option Socket
  pub env : E

abbrev pub update {ℓ} : {V : Type ℓ} → (ℕ → V) → ℕ → V → ℕ → V
update m p v q = if q == p then v else m q

module _ {E : Type 0} (sys : Sys E) where
  unfoldable pub fd_is_socket : World E → ℤ → Bool
  fd_is_socket w s = elim (sys.get_function w.env s) [
    | none ↦ false
    | some lsck_handler ↦ true
    | some foreign_handler ↦ false
  ]

  unfoldable pub fd_is_valid : World E → ℤ → Bool
  fd_is_valid w s = elim (sys.get_function w.env s) [
    | some f ↦ true
    | none ↦ sys.has_device_data w.env s
  ]

  -- The flag is `fd_type == S_IFSOCK`.
  unfoldable pub isfdtype : ℤ → Bool → M (World E) ℤ
  unfolding fd_is_valid fd_is_socket
  isfdtype s sock w =
      if fd_is_valid w s
      then if sock
        then some ((if fd_is_socket w s then pos 1 else pos 0), w)
        else some (minus_one, record w { errno = einval })
      else some (minus_one, record w { errno = ebadf })

  unfoldable pub fd_to_lsd : World E → ℤ → Option ℕ
  unfolding fd_is_socket
  fd_to_lsd w s = if fd_is_socket w s then sys.get_data w.env s else none

  -- A call on the descriptor at address `p`, through the interface that it names. An address with
  -- no descriptor, or a descriptor with no interface, is an access through a bad pointer.
  unfoldable pub run_on : {A : Type 0} → ℕ → (Interface E → M (Ctx E) A) → M (World E) A
  run_on p body w = elim (w.heap p) [
    | none ↦ none
    | some k ↦ elim k.interface [
      | none ↦ none
      | some t ↦ elim (body (sys.tables t) (record { sock = k; errno = w.errno; env = w.env })) [
        | none ↦ none
        | some (a, c) ↦
            some
              (a, record w { errno = c.errno; heap = update w.heap p (some c.sock); env = c.env })
      ]
    ]
  ]

  -- How every public function begins: the socket descriptor of `s`, or -1 with the error that
  -- `isfdtype` sets; then the check for outstanding non-blocking I/O.
  unfoldable pub on_socket : {A : Type 0} → A → ℤ → (Interface E → M (Ctx E) A) → M (World E) A
  unfolding fd_to_lsd run_on isfdtype
  on_socket failure s body w = elim (fd_to_lsd w s) [
    | none ↦ (isfdtype s true >> return failure) w
    | some p ↦ run_on p (λ i. poll i >> body i) w
  ]

  -- The same beginning, for a function that goes on to use other descriptors than its own.
  unfoldable pub with_lsd : {A : Type 0} → A → ℤ → (ℕ → M (World E) A) → M (World E) A
  unfolding fd_to_lsd run_on isfdtype
  with_lsd failure s k w = elim (fd_to_lsd w s) [
    | none ↦ (isfdtype s true >> return failure) w
    | some p ↦ (run_on p poll >> k p) w
  ]
