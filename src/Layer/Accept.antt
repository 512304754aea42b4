-- ===== src/Layer/Accept.antt =====
-- src/accept.c.
use libsocket.Base.{
  ℕ, Bool, true, false, not, ◌&&◌, ◌||◌, ◌==◌, ltb, if◌then◌else◌, Option, none, some, List, M, set,
  is_given, memcpy, fault,
}
use libsocket.Base.Int.{ℤ, pos, minus_one, ◌==ℤ◌}
use libsocket.Layer.Create.{no_room, room, allocate}
use libsocket.Layer.Interface.{Ctx, Interface}
use libsocket.Layer.Types.{
  Errno, einval, efault, enfile, eopnotsupp, Socket, sock_stream, sockaddr_max_size,
}
use libsocket.Layer.World.{Sys, World, update, with_lsd}

-- -1 or the new file descriptor, with the caller's buffer for the peer's address and its length.
abbrev pub Accepted : Type 0
Accepted = ℤ × Option (List ℕ) × Option ℕ

-- `*nsd = *lsd`, and what the copy changes before the interface is called.
unfoldable pub accepted_copy : ℤ → Socket → Socket
accepted_copy newfd k = record k { fd = newfd; listening = false; peernamelen = sockaddr_max_size }

module _ {E : Type 0} where
  -- The checks before anything is allocated: the error, or `none`.
  unfoldable pub accept_refusal : Interface E → Socket → Bool → Option Errno
  accept_refusal i k given =
      if not (k.type == sock_stream) || not (is_given i.accept)
      then some eopnotsupp
      else if k.accepted || (not k.bound || not k.listening)
      then some einval
      else if not given
      then some efault
      else none

module _ {E : Type 0} (sys : Sys E) where
  -- The interface's call failed with `r`: the new descriptor goes back. The function returns
  -- `nsd->fd` unless `r` is -1, which reads the freed descriptor.
  unfoldable pub accept_undo : ℤ → ℕ → ℕ → Socket → ℤ → World E → Option (ℤ × World E)
  accept_undo newfd slot q nsd r w =
      if r ==ℤ minus_one
      then some (
        minus_one,
        record w {
          env =
              sys.free_idata nsd.idata
                (sys.close_fd newfd (sys.clear_function newfd (sys.set_data newfd none w.env)));
          heap = update w.heap q none;
          table = set w.table slot none;
        },
      )
      else none

  -- `addr` and `*addrlen` are the caller's; the copy is cut to the shorter length.
  unfoldable pub accept_take : List ℕ → ℕ → ℕ → Socket → World E → Option (Accepted × World E)
  accept_take addr addrlen q nsd w =
      let len = if ltb nsd.peernamelen addrlen then nsd.peernamelen else addrlen in
      elim (memcpy addr nsd.peername len) [
        | none ↦ none
        | some out ↦ some (
          (nsd.fd, some out, some len),
          record w {
            heap = update w.heap q (some (record nsd { accepted = true; connected = true }));
          },
        )
      ]

  -- The allocation and the call, on the listening descriptor at `p`.
  unfoldable pub accept_new :
      List ℕ → ℕ → ℕ → Socket → (Socket → Ctx E → ℤ × Socket × Ctx E) → M (World E) Accepted
  unfolding accept_undo accept_take accepted_copy
  accept_new addr addrlen p k f w = elim (allocate sys enfile w) [
    | none ↦ none
    | some (no_room e, w') ↦ some ((minus_one, some addr, some addrlen), w')
    | some (room newfd slot q, w') ↦
        let (r, k', c) =
          f k (record { sock = accepted_copy newfd k; errno = w'.errno; env = w'.env }) in
        let w'' : World E = record w' {
          errno = c.errno;
          heap = update (update w'.heap p (some k')) q (some c.sock);
          env = c.env;
        } in
        if r ==ℤ pos 0
        then accept_take addr addrlen q c.sock w''
        else elim (accept_undo newfd slot q c.sock r w'') [
          | none ↦ none
          | some (ret, w3) ↦ some ((ret, some addr, some addrlen), w3)
        ]
  ]

  unfoldable pub accept_call :
      Option (Socket → Ctx E → ℤ × Socket × Ctx E)
      → Option (List ℕ)
      → Option ℕ
      → ℕ
      → Socket
      → M (World E) Accepted
  unfolding accept_new
  accept_call (some f) (some a) (some n) p k = accept_new a n p k f
  accept_call _ _ _ p k = fault

  -- The body behind the look-up of `lsd`, at address `p`.
  unfoldable pub accept_at : Option (List ℕ) → Option ℕ → ℕ → M (World E) Accepted
  unfolding accept_refusal accept_call
  accept_at addr addrlen p w = elim (w.heap p) [
    | none ↦ none
    | some k ↦ elim k.interface [
      | none ↦ none
      | some t ↦
          let i = sys.tables t in
          elim (accept_refusal i k (is_given addr && is_given addrlen)) [
            | some e ↦ some ((minus_one, addr, addrlen), record w { errno = e })
            | none ↦ accept_call i.accept addr addrlen p k w
          ]
    ]
  ]

  unfoldable pub accept : ℤ → Option (List ℕ) → Option ℕ → M (World E) Accepted
  unfolding accept_at
  accept s addr addrlen = with_lsd sys (minus_one, addr, addrlen) s (accept_at addr addrlen)
