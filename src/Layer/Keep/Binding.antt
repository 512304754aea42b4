-- ===== src/Layer/Keep/Binding.antt =====
-- `bind` of src/bind.c, from a well-formed state. It asks the interface for the name through
-- `getsockname` and the file descriptor, and writes the descriptor after that.
use libsocket.Base.{
  ℕ, ◌≤◌, true, false, not, ◌==◌, Option, none, some, List, length, ◌≡◌, refl, ◌∙◌, arith, M,
  Returns, Returns-mono, Returns->>=, Bool-cases, inl, inr, return, if-Returns, memcpy-given,
  bzero-given,
}
use libsocket.Base.Int.{ℤ, pos, minus_one, ◌==ℤ◌}
use libsocket.Layer.Bind.{
  Attempt, early, called, bind_call, bind_store, bind_clear, bind_named, fd_of, bind_finish,
  bind_at, bind,
}
use libsocket.Layer.Close.{has_entry}
use libsocket.Layer.Interface.{Ctx, Interface}
use libsocket.Layer.Keep.Connecting.{stored-Returns}
use libsocket.Layer.Names.{Named, ask_name, getsockname}
use libsocket.Layer.Sound.{
  IsSound, Keeps, IsHonest, IfGiven-elim, Keeps-refl, Keeps-errno, Keeps-sock, KeepsSound,
  IsWellFormed, Stays, Stays-trans, StepsTo, context, run_on-IsWellFormed, run_on-StepsTo,
  on_socket-Result, with_lsd-IsWellFormed,
}
use libsocket.Layer.Types.{Socket, sa_family, sockaddr_max_size, sockaddr_common_size}
use libsocket.Layer.World.{Sys, World, run_on}

-- A name that fits the descriptor's own buffer.
abbrev Fits : Named → Type 0
Fits (r, name, len) =
    (a : List ℕ) × (n : ℕ) × (name ≡ some a) × (len ≡ some n) × (length a ≡ 110) × (n ≤ 110)

module _ {E : Type 0} (sys : Sys E) where
  -- After the interface's call a socket that was not bound does not listen.
  abbrev Silent : Attempt → Ctx E → Type 0
  Silent early c = Unit
  Silent (called r) c = c.sock.listening ≡ false

  silent : (k : Socket) → IsSound k → k.bound ≡ false → k.listening ≡ false
  silent k sound e = ground (arith, sound.listens_bound)

  bind_call-Silent :
      (addr : Option (List ℕ)) (len : ℕ) (i : Interface E) (c : Ctx E)
      → IsHonest sys i
      → IsSound c.sock
      → Returns (bind_call addr len i c) (λ o c'. Keeps sys c c' × Silent o c')
  unfolding bind_call
  bind_call-Silent none len i c honest sound =
      if-Returns c.sock.bound _ _ _ (λ _. (Keeps-errno sys c _ sound, tt))
        (λ _. (Keeps-errno sys c _ sound, tt))
  bind_call-Silent (some a) len i c honest sound =
      if-Returns c.sock.bound _ _ _ (λ _. (Keeps-errno sys c _ sound, tt))
        (λ unbound.
          if-Returns (not (c.sock.family == sa_family a)) _ _ _
            (λ _. (Keeps-errno sys c _ sound, tt))
            (λ _.
              IfGiven-elim sys _ i.bind _ _ _ honest.bind (Keeps-errno sys c _ sound, tt)
                (λ f g.
                  let b = g a len c sound in
                  (b.keeps, b.same_listening ∙ silent c.sock sound unbound))))

  bind_store-KeepsSound :
      (name : List ℕ) (len : ℕ)
      → length name ≡ 110
      → len ≤ 110
      → KeepsSound sys (bind_store name len)
  unfolding bind_store
  bind_store-KeepsSound name len size fits i c honest sound =
      stored-Returns sys c.sock.sockname _ _ _
        (memcpy-given c.sock.sockname name len (omega (arith, sound.sockname_size))
          (omega (arith, size)))
        (λ out l.
          Keeps-sock sys c c _ (Keeps-refl sys c sound)
            (record {
              has_interface = sound.has_interface;
              sockname_size = l ∙ sound.sockname_size;
              peername_size = sound.peername_size;
              peer_fits = sound.peer_fits;
              listens_bound = λ _. refl;
              listens_stream = sound.listens_stream;
            })
            refl)

  bind_clear-Keeps :
      (i : Interface E) (c : Ctx E)
      → IsSound c.sock
      → c.sock.listening ≡ false
      → Returns (bind_clear i c) (λ a c'. Keeps sys c c' × Unit {0})
  unfolding bind_clear
  bind_clear-Keeps i c sound quiet =
      stored-Returns sys c.sock.sockname _ _ _
        (bzero-given c.sock.sockname sockaddr_common_size (omega (arith, sound.sockname_size)))
        (λ out l. (
          Keeps-sock sys c c _ (Keeps-refl sys c sound)
              (record {
                has_interface = sound.has_interface;
                sockname_size = l ∙ sound.sockname_size;
                peername_size = sound.peername_size;
                peer_fits = sound.peer_fits;
                listens_bound = λ e. ground arith;
                listens_stream = sound.listens_stream;
              })
              refl,
          tt,
        ))

  ask_name-Fits :
      (buf : List ℕ) (i : Interface E) (c : Ctx E)
      → length buf ≡ 110
      → IsHonest sys i
      → IsSound c.sock
      → Returns
          (ask_name i.getsockname (some buf) (some sockaddr_max_size) c)
          (λ a c'. Keeps sys c c' × Fits a)
  unfolding ask_name
  ask_name-Fits buf i c size honest sound =
      IfGiven-elim sys _ i.getsockname _ _ _ honest.getsockname
        (Keeps-errno sys c _ sound, (buf, 110, refl, refl, size, omega arith))
        (λ f g.
          let named = g.1 buf 110 c in
          (
            (g.0 buf 110 c sound).keeps,
            (
              (f buf 110 c).0.1,
              (f buf 110 c).0.2,
              refl,
              refl,
              named.same_size ∙ size,
              omega (arith, named.fits (omega (arith, size)), size),
            ),
          ))

  module _ (honest : (t : ℕ) → IsHonest sys (sys.tables t)) where
    -- The entry at `p` is still one of the table's.
    still :
        (p : ℕ) (w w' : World E)
        → Stays sys w w'
        → has_entry p w.table ≡ true
        → has_entry p w'.table ≡ true
    still p w w' h e = rw h.1 e

    on_entry :
        {A : Type 0} (p : ℕ) (body : Interface E → M (Ctx E) A) (u w : World E)
        → KeepsSound sys body
        → Stays sys u w
        → has_entry p w.table ≡ true
        → Returns (run_on sys p body w) (λ a w'. Stays sys u w')
    on_entry p body u w keeps h e =
        Returns-mono (run_on sys p body w) _ _ (run_on-IsWellFormed sys p body w honest keeps h.0 e)
          (λ a w' k. Stays-trans sys honest u w w' h k)

    fd_of-KeepsSound : KeepsSound sys fd_of
    unfolding fd_of
    fd_of-KeepsSound i c honest sound = Keeps-refl sys c sound

    getsockname-Fits :
        (fd : ℤ) (buf : List ℕ) (w : World E)
        → length buf ≡ 110
        → IsWellFormed sys w
        → Returns (getsockname sys fd (some buf) (some 110) w) (λ a w'. Stays sys w w' × Fits a)
    unfolding getsockname
    getsockname-Fits fd buf w size wf =
        on_socket-Result sys honest (minus_one, some buf, some 110) fd
          (λ i. ask_name i.getsockname (some buf) (some 110)) w Fits wf
          (buf, 110, refl, refl, size, omega arith)
          (λ i c h sound. ask_name-Fits buf i c size h sound)

    bind_named-Stays :
        (p : ℕ) (out : Named) (u w : World E)
        → Fits out
        → Stays sys u w
        → has_entry p w.table ≡ true
        → Returns (bind_named sys p out.1 out.2 w) (λ a w'. Stays sys u w')
    unfolding bind_named
    bind_named-Stays p out u w (a, n, ea, en, size, fits) h e =
        rw (ea, en, bind_named)
          (on_entry p (bind_store a n) u w (bind_store-KeepsSound a n size fits) h e)

    bind_finish-Stays :
        (buf : List ℕ) (p : ℕ) (r : ℤ) (u w : World E) (c : Ctx E)
        → length buf ≡ 110
        → Stays sys u w
        → has_entry p w.table ≡ true
        → w.heap p ≡ some c.sock
        → IsSound c.sock
        → c.sock.listening ≡ false
        → Returns (bind_finish sys buf p r w) (λ a w'. Stays sys u w')
    unfolding bind_finish
    bind_finish-Stays buf p r u w c size h e hp sound quiet = elim (Bool-cases (r ==ℤ pos 0)) [
      | inl y ↦
          rw (y, bind_finish)
            (Returns->>= (run_on sys p fd_of w) _ _ _ (on_entry p fd_of u w fd_of-KeepsSound h e)
              (λ fd w1 h1.
                Returns->>= (getsockname sys fd (some buf) (some 110) w1) _ _ _
                  (getsockname-Fits fd buf w1 size h1.0)
                  (λ out w2 h2.
                    Returns->>= (bind_named sys p out.1 out.2 w2) _ _ _
                      (bind_named-Stays p out u w2 h2.1 (Stays-trans sys honest u w1 w2 h1 h2.0)
                        (still p u w2 (Stays-trans sys honest u w1 w2 h1 h2.0) (rw h.1 at e)))
                      (λ t w3 h3. h3))))
      | inr n ↦
          rw (n, bind_finish)
            (Returns->>= (run_on sys p bind_clear w) _ _ _
              (run_on-StepsTo sys honest p bind_clear w c.sock (λ a c'. Unit {0}) h.0 hp sound
                (λ i _. bind_clear-Keeps i (context sys w c.sock) sound quiet))
              (λ t w1 h1. Stays-trans sys honest u w w1 h h1.1.0))
    ]

    attempt-Stays :
        (buf : List ℕ) (p : ℕ) (o : Attempt) (w w1 : World E) (c : Ctx E)
        → length buf ≡ 110
        → StepsTo sys honest p w w1 c
        → has_entry p w.table ≡ true
        → IsSound c.sock
        → Silent o c
        → Returns
            ((elim o as (λ _. M (World E) ℤ) [
              | early ↦ return minus_one
              | called r ↦ bind_finish sys buf p r
            ])
              w1)
            (λ a w'. Stays sys w w')
    attempt-Stays buf p early w w1 c size h e sound quiet = h.0
    attempt-Stays buf p (called r) w w1 c size h e sound quiet =
        bind_finish-Stays buf p r w w1 c size h.0 (still p w w1 h.0 e) h.1 sound quiet

    bind_at-Stays :
        (buf : List ℕ) (addr : Option (List ℕ)) (len p : ℕ) (w : World E)
        → length buf ≡ 110
        → IsWellFormed sys w
        → has_entry p w.table ≡ true
        → Returns (bind_at sys buf addr len p w) (λ a w'. Stays sys w w')
    unfolding bind_at
    bind_at-Stays buf addr len p w size wf e =
        let (k, hp, sound) = wf.live p e in
        Returns->>= (run_on sys p (bind_call addr len) w) _ _ _
          (run_on-StepsTo sys honest p (bind_call addr len) w k Silent wf hp sound
            (λ i g. bind_call-Silent addr len i (context sys w k) g sound))
          (λ o w1 h. attempt-Stays buf p o w w1 h.0 size h.1 e h.2 h.3)

    -- With well-behaved interfaces, whose calls return, `bind` returns from every well-formed state and keeps it well
    -- formed, whatever its arguments, with the same table of sockets and the same sockets behind
    -- the file descriptors; its local buffer has 110 bytes.
    pub bind-Stays :
        (buf : List ℕ) (s : ℤ) (addr : Option (List ℕ)) (len : ℕ) (w : World E)
        → length buf ≡ 110
        → IsWellFormed sys w
        → Returns (bind sys buf s addr len w) (λ a w'. Stays sys w w')
    unfolding bind
    bind-Stays buf s addr len w size wf =
        with_lsd-IsWellFormed sys minus_one s (bind_at sys buf addr len) w _ honest wf (λ w' h. h)
          (λ p w' h e.
            Returns-mono (bind_at sys buf addr len p w') _ _
              (bind_at-Stays buf addr len p w' size h.0 (h.0.linked s p e))
              (λ a w'' k. Stays-trans sys honest w w' w'' h k))
