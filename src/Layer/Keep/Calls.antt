-- ===== src/Layer/Keep/Calls.antt =====
-- The public functions on one socket, from a well-formed state.
use libsocket.Base.{ℕ, ◌≤◌, Bool, Option, some, List, length, ◌≡◌, M, Returns}
use libsocket.Base.Int.{ℤ, minus_one}
use libsocket.Layer.Bind.{listen}
use libsocket.Layer.Connect.{connect_body, connect}
use libsocket.Layer.Interface.{Ctx, Interface}
use libsocket.Layer.Keep.Bodies.{
  listen_body-KeepsSound, shutdown_body-KeepsSound, select_body-KeepsSound, fcntl_body-KeepsSound,
  setsockopt_body-KeepsSound, recv_body-KeepsSound, recvfrom_body-KeepsSound,
}
use libsocket.Layer.Keep.Connecting.{connect_body-KeepsSound}
use libsocket.Layer.Keep.Sending.{
  sendto_body-KeepsSound, getsockname-KeepsSound, getpeername_body-KeepsSound,
  getsockopt_body-KeepsSound,
}
use libsocket.Layer.Names.{getsockname, getpeername}
use libsocket.Layer.Options.{shutdown, getsockopt, setsockopt, fcntlsocket}
use libsocket.Layer.Sound.{
  IsHonest, SameFds, Holds, KeepsSound, IsWellFormed, Stays, on_socket-IsWellFormed,
}
use libsocket.Layer.Transfer.{sendto, recv, recvfrom, selectsocket}
use libsocket.Layer.World.{Sys, World, on_socket}

module _ {E : Type 0} (sys : Sys E) where
  -- The call returns from `w`, and leaves a well-formed state, with the same table of sockets and
  -- the same sockets behind the file descriptors.
  abbrev pub Preserves : {A : Type 0} → World E → M (World E) A → Type 0
  Preserves w m = Returns (m w) (λ a w'. Stays sys w w')

  -- With well-behaved interfaces, `connect` preserves well-formed states, for an address that holds
  -- the `addrlen` bytes that the caller names and that fits the 110 bytes of the descriptor's buffer.
  pub connect-Preserves :
      (s : ℤ) (addr : Option (List ℕ)) (addrlen : ℕ)
      → ((t : ℕ) → IsHonest sys (sys.tables t))
      → Holds addr addrlen
      → addrlen ≤ 110
      → (w : World E) → IsWellFormed sys w
      → Preserves w (connect sys s addr addrlen)
  unfolding connect
  connect-Preserves s addr addrlen honest held fits w wf =
      on_socket-IsWellFormed sys minus_one s (connect_body addr addrlen) w honest
        (connect_body-KeepsSound sys addr addrlen held fits) wf

  -- With well-behaved interfaces, and signals that leave the file descriptors alone, `sendto`
  -- preserves well-formed states, if the destination holds the `tolen` bytes that the caller names.
  pub sendto-Preserves :
      (s : ℤ) (msg : Option (List ℕ)) (len flags : ℕ) (to : Option (List ℕ)) (tolen : ℕ)
      → ((t : ℕ) → IsHonest sys (sys.tables t))
      → ((e : E) → SameFds sys e (sys.raise_sigpipe e))
      → Holds to tolen
      → (w : World E) → IsWellFormed sys w
      → Preserves w (sendto sys s msg len flags to tolen)
  unfolding sendto
  sendto-Preserves s msg len flags to tolen honest sigpipe held w wf =
      on_socket-IsWellFormed sys minus_one s _ w honest
        (sendto_body-KeepsSound sys sigpipe msg len flags to tolen held) wf

  -- With well-behaved interfaces, whose calls return, `listen`, `shutdown`, `recv`, `recvfrom`, `selectsocket`,
  -- `fcntlsocket`, `setsockopt`, `getsockname` and `getpeername` preserve well-formed states,
  -- whatever arguments they are given and pass on.
  pub calls-Preserve :
      (s : ℤ) (w : World E)
      → ((t : ℕ) → IsHonest sys (sys.tables t))
      → IsWellFormed sys w
      → ((backlog : ℤ) → Preserves w (listen sys s backlog))
        × ((how : ℤ) → Preserves w (shutdown sys s how))
        × ((buf : Option (List ℕ)) (len flags : ℕ) → Preserves w (recv sys s buf len flags))
        × ((buf : Option (List ℕ)) (len flags : ℕ) (lost : Bool) (from : Option (List ℕ × ℕ))
            → Preserves w (recvfrom sys s buf len flags lost from))
        × ((event : ℕ) → Preserves w (selectsocket sys s event))
        × ((command request : ℤ) → Preserves w (fcntlsocket sys s command request))
        × ((level optname : ℕ) (optval : Option (List ℕ)) (optlen : ℕ)
            → Preserves w (setsockopt sys s level optname optval optlen))
        × ((name : Option (List ℕ)) (namelen : Option ℕ)
            → Preserves w (getsockname sys s name namelen))
        × ((name : Option (List ℕ)) (namelen : Option ℕ)
            → Preserves w (getpeername sys s name namelen))
  unfolding listen shutdown recv recvfrom selectsocket fcntlsocket setsockopt getsockname
      getpeername
  calls-Preserve s w honest wf = (
    λ b. keep minus_one _ (listen_body-KeepsSound sys b),
    λ how. keep minus_one _ (shutdown_body-KeepsSound sys how),
    λ buf len flags. keep _ _ (recv_body-KeepsSound sys buf len flags),
    λ buf len flags lost from. keep _ _ (recvfrom_body-KeepsSound sys buf len flags lost from),
    λ event. keep minus_one _ (select_body-KeepsSound sys event),
    λ command request. keep minus_one _ (fcntl_body-KeepsSound sys command request),
    λ level optname optval optlen.
        keep minus_one _ (setsockopt_body-KeepsSound sys level optname optval optlen),
    λ name namelen. keep _ _ (getsockname-KeepsSound sys name namelen),
    λ name namelen. keep _ _ (getpeername_body-KeepsSound sys name namelen),
  )
    where
      keep :
          {A : Type 0} (failure : A) (body : Interface E → M (Ctx E) A)
          → KeepsSound sys body
          → Preserves w (on_socket sys failure s body)
      keep failure body k = on_socket-IsWellFormed sys failure s body w honest k wf

  -- With well-behaved interfaces, `getsockopt` preserves well-formed states, if the option's
  -- buffer is as long as its length says; the function's own buffer has 16 bytes.
  pub getsockopt-Preserves :
      (scratch : List ℕ) (s : ℤ) (level optname : ℕ) (optval : Option (List ℕ)) (optlen : Option ℕ)
      → ((t : ℕ) → IsHonest sys (sys.tables t))
      → length scratch ≡ 16
      → ((v : List ℕ) (n : ℕ) → optval ≡ some v → optlen ≡ some n → n ≤ length v)
      → (w : World E) → IsWellFormed sys w
      → Preserves w (getsockopt sys scratch s level optname optval optlen)
  unfolding getsockopt
  getsockopt-Preserves scratch s level optname optval optlen honest size fits w wf =
      on_socket-IsWellFormed sys _ s _ w honest
        (getsockopt_body-KeepsSound sys scratch level optname optval optlen size fits) wf
