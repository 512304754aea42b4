-- ===== src/Layer/Reach.antt =====
-- The socket layer as a state machine, whose steps are the calls of the public functions on sockets
-- that exist: src/connct.c, src/send.c, src/bind.c, src/listen.c, src/shtdwn.c, src/recv.c,
-- src/select.c, src/fcntl.c, src/sckopt.c, src/gscknm.c and src/gprnm.c.
use libsocket.Base.{ℕ, ◌≤◌, Bool, Option, some, List, length, ◌≡◌, refl, M, Returns}
use libsocket.Base.Int.{ℤ}
use libsocket.Layer.Bind.{bind, listen}
use libsocket.Layer.Connect.{connect}
use libsocket.Layer.Keep.Binding.{bind-Stays}
use libsocket.Layer.Keep.Calls.{
  connect-Preserves, sendto-Preserves, calls-Preserve, getsockopt-Preserves,
}
use libsocket.Layer.Names.{getsockname, getpeername}
use libsocket.Layer.Options.{shutdown, getsockopt, setsockopt, fcntlsocket}
use libsocket.Layer.Sound.{IsHonest, SameFds, Holds, IsWellFormed, Stays, Stays-trans}
use libsocket.Layer.Transfer.{sendto, recv, recvfrom, selectsocket}
use libsocket.Layer.World.{Sys, World}

module _ {E : Type 0} (sys : Sys E) where
  -- The call returns from the first state, and leaves the second.
  abbrev pub Makes : {A : Type 0} → M (World E) A → World E → World E → Type 0
  Makes {A = A} m w w' = (a : A) × (m w ≡ some (a, w'))

  -- A call with arguments that hold what their lengths say.
  pub data Step : World E → World E → Type 0 where
    connects :
        {w w' : World E} (s : ℤ) (addr : Option (List ℕ)) (addrlen : ℕ)
        → Holds addr addrlen
        → addrlen ≤ 110
        → Makes (connect sys s addr addrlen) w w'
        → Step w w'
    sends :
        {w w' : World E} (s : ℤ) (msg : Option (List ℕ)) (len flags : ℕ) (to : Option (List ℕ))
        (tolen : ℕ)
        → Holds to tolen
        → Makes (sendto sys s msg len flags to tolen) w w'
        → Step w w'
    binds :
        {w w' : World E} (buf : List ℕ) (s : ℤ) (addr : Option (List ℕ)) (len : ℕ)
        → length buf ≡ 110
        → Makes (bind sys buf s addr len) w w'
        → Step w w'
    listens : {w w' : World E} (s backlog : ℤ) → Makes (listen sys s backlog) w w' → Step w w'
    shuts : {w w' : World E} (s how : ℤ) → Makes (shutdown sys s how) w w' → Step w w'
    recvs :
        {w w' : World E} (s : ℤ) (buf : Option (List ℕ)) (len flags : ℕ)
        → Makes (recv sys s buf len flags) w w'
        → Step w w'
    recvs_from :
        {w w' : World E} (s : ℤ) (buf : Option (List ℕ)) (len flags : ℕ) (lost : Bool)
        (from : Option (List ℕ × ℕ))
        → Makes (recvfrom sys s buf len flags lost from) w w'
        → Step w w'
    selects :
        {w w' : World E} (s : ℤ) (event : ℕ) → Makes (selectsocket sys s event) w w' → Step w w'
    controls :
        {w w' : World E} (s command request : ℤ)
        → Makes (fcntlsocket sys s command request) w w'
        → Step w w'
    sets_option :
        {w w' : World E} (s : ℤ) (level optname : ℕ) (optval : Option (List ℕ)) (optlen : ℕ)
        → Makes (setsockopt sys s level optname optval optlen) w w'
        → Step w w'
    gets_option :
        {w w' : World E} (scratch : List ℕ) (s : ℤ) (level optname : ℕ) (optval : Option (List ℕ))
        (optlen : Option ℕ)
        → length scratch ≡ 16
        → ((v : List ℕ) (n : ℕ) → optval ≡ some v → optlen ≡ some n → n ≤ length v)
        → Makes (getsockopt sys scratch s level optname optval optlen) w w'
        → Step w w'
    names_socket :
        {w w' : World E} (s : ℤ) (name : Option (List ℕ)) (namelen : Option ℕ)
        → Makes (getsockname sys s name namelen) w w'
        → Step w w'
    names_peer :
        {w w' : World E} (s : ℤ) (name : Option (List ℕ)) (namelen : Option ℕ)
        → Makes (getpeername sys s name namelen) w w'
        → Step w w'

  pub data Reach (w : World E) : World E → Type 0 where
    here : Reach w w
    next : {u v : World E} → Reach w u → Step u v → Reach w v

  stays :
      {A : Type 0} (o : Option (A × World E)) (w w' : World E) (a : A)
      → Returns o (λ a w'. Stays sys w w')
      → o ≡ some (a, w')
      → Stays sys w w'
  stays o w w' a h e = rw e at h

  module _ (honest : (t : ℕ) → IsHonest sys (sys.tables t))
      (signals : (e : E) → SameFds sys e (sys.raise_sigpipe e)) where
    Step-Stays : {w w' : World E} → Step w w' → IsWellFormed sys w → Stays sys w w'
    Step-Stays {w = w} (connects s addr addrlen held fits (a, e)) wf =
        stays _ _ _ a (connect-Preserves sys s addr addrlen honest held fits w wf) e
    Step-Stays {w = w} (sends s msg len flags to tolen held (a, e)) wf =
        stays _ _ _ a (sendto-Preserves sys s msg len flags to tolen honest signals held w wf) e
    Step-Stays {w = w} (binds buf s addr len size (a, e)) wf =
        stays _ _ _ a (bind-Stays sys honest buf s addr len w size wf) e
    Step-Stays {w = w} (listens s b (a, e)) wf =
        stays _ _ _ a ((calls-Preserve sys s w honest wf).0 b) e
    Step-Stays {w = w} (shuts s how (a, e)) wf =
        stays _ _ _ a ((calls-Preserve sys s w honest wf).1 how) e
    Step-Stays {w = w} (recvs s buf len flags (a, e)) wf =
        stays _ _ _ a ((calls-Preserve sys s w honest wf).2 buf len flags) e
    Step-Stays {w = w} (recvs_from s buf len flags lost from (a, e)) wf =
        stays _ _ _ a ((calls-Preserve sys s w honest wf).3 buf len flags lost from) e
    Step-Stays {w = w} (selects s event (a, e)) wf =
        stays _ _ _ a ((calls-Preserve sys s w honest wf).4 event) e
    Step-Stays {w = w} (controls s x y (a, e)) wf =
        stays _ _ _ a ((calls-Preserve sys s w honest wf).5 x y) e
    Step-Stays {w = w} (sets_option s l o v n (a, e)) wf =
        stays _ _ _ a ((calls-Preserve sys s w honest wf).6 l o v n) e
    Step-Stays {w = w} (gets_option scratch s l o v n size fits (a, e)) wf =
        stays _ _ _ a (getsockopt-Preserves sys scratch s l o v n honest size fits w wf) e
    Step-Stays {w = w} (names_socket s name len (a, e)) wf =
        stays _ _ _ a ((calls-Preserve sys s w honest wf).7 name len) e
    Step-Stays {w = w} (names_peer s name len (a, e)) wf =
        stays _ _ _ a ((calls-Preserve sys s w honest wf).8 name len) e

    -- Whatever calls of `connect`, `sendto`, `bind`, `listen`, `shutdown`, `recv`, `recvfrom`,
    -- `selectsocket`, `fcntlsocket`, `setsockopt`, `getsockopt`, `getsockname` and `getpeername` a
    -- program makes, one behind another, from a well-formed state: the state stays well formed, with the same table of sockets and the same sockets behind the
    -- file descriptors, if the interfaces are well behaved and signals leave the file descriptors
    -- alone. Arguments are as long as they say, and the addresses of
    -- `connect` fit the descriptor's buffer.
    pub Reach-IsWellFormed : {w w' : World E} → Reach w w' → IsWellFormed sys w → Stays sys w w'
    Reach-IsWellFormed here wf = (wf, refl, λ s. refl)
    Reach-IsWellFormed {w = w} {w' = w'} (next {u = u} r step) wf =
        let before = Reach-IsWellFormed r wf in
        Stays-trans sys honest w u w' before (Step-Stays step before.0)
