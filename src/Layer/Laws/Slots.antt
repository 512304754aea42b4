-- ===== src/Layer/Laws/Slots.antt =====
-- The table of sockets in src/socket.c and src/accept.c, and `closesocket` of src/close.c.
use libsocket.Base.{
  ℕ, suc, ◌+◌, ◌≤◌, true, false, Option, none, some, List, [], ◌∷◌, length, get_elem?, All, take,
  ◌≡◌, refl, ◌∙◌, arith, M, Returns, is_given, Returns->>=, Returns-mono, if-Returns,
}
use libsocket.Base.Int.{ℤ, pos, minus_one, is_negative, ◌==ℤ◌}
use libsocket.Layer.Close.{closesocket, close_at, close_body, forget, has_entry}
use libsocket.Layer.Create.{free_from, allocate}
use libsocket.Layer.Interface.{Ctx, Interface}
use libsocket.Layer.Sound.{
  IsWellFormed, IsHonest, SameFds, Keeps, KeepsSound, IfGiven-elim, Keeps-errno,
  with_lsd-IsWellFormed, run_on-IsWellFormed,
}
use libsocket.Layer.Types.{Errno}
use libsocket.Layer.World.{Sys, World, fd_to_lsd, on_socket, run_on}

-- From entry `i` on, the search finds the first null entry: it is `k` places further, and every entry
-- before it is in use.
pub free_from-first :
    (es : List (Option ℕ)) (i j : ℕ)
    → i + length es ≤ 256
    → free_from es i ≡ some j
    → (k : ℕ) × (j ≡ i + k)
      × (get_elem? es k ≡ some none)
      × All (λ e. is_given e ≡ true) (take k es)
unfolding free_from
free_from-first [] i j fits h = cc
free_from-first (none ∷ es) i j fits h = (0, ground arith, refl, tt)
free_from-first (some p ∷ es) i j fits h =
    let (k, e, f, g) = free_from-first es (i + 1) j (omega arith) (ground arith) in
    (suc k, omega arith, f, (refl, g))

-- In a table with no null entry the search reads the entry behind the last.
pub free_from-full :
    (es : List (Option ℕ)) (i : ℕ)
    → i + length es ≡ 256
    → All (λ e. is_given e ≡ true) es
    → free_from es i ≡ none
unfolding free_from
free_from-full [] i size full = refl
free_from-full (none ∷ es) i size full = cc
free_from-full (some p ∷ es) i size full = ground (arith, free_from-full es (i + 1))

module _ {E : Type 0} (sys : Sys E) where
  -- With all 256 entries in use, the allocation for `socket` and `accept` never answers EMFILE or
  -- ENFILE for that: once it has a file descriptor, it reads beyond the table.
  pub allocate_full :
      (full : Errno) (w : World E)
      → length w.table ≡ 256
      → All (λ e. is_given e ≡ true) w.table
      → is_negative (sys.alloc_fd w.env).0 ≡ false
      → allocate sys full w ≡ none
  unfolding allocate
  allocate_full full w size used fd = ground (arith, free_from-full w.table 0)

  close_body-KeepsSound :
      ((p : Option ℕ) (e : E) → SameFds sys e (sys.free_idata p e))
      → KeepsSound sys (close_body sys)
  unfolding close_body
  close_body-KeepsSound idata i c honest h =
      IfGiven-elim sys _ i.close _ _ _ honest.close (Keeps-errno sys c _ h) (λ f g.
        if-Returns ((f c).0 ==ℤ pos 0) _ _ _ (λ _. freed (f c).1 (g c h).keeps)
          (λ _. (g c h).keeps))
    where
      freed :
          (d : Ctx E)
          → Keeps sys c d
          → Keeps sys c (record d {
            sock = record (d.sock) { idata = none };
            env = sys.free_idata d.sock.idata d.env;
          })
      freed d k = record {
        sound = record {
          has_interface = k.sound.has_interface;
          sockname_size = k.sound.sockname_size;
          peername_size = k.sound.peername_size;
          peer_fits = k.sound.peer_fits;
          listens_bound = k.sound.listens_bound;
          listens_stream = k.sound.listens_stream;
        };
        same_fd = k.same_fd;
        same_fds = record {
          sockets = λ s. (idata d.sock.idata d.env).sockets s ∙ k.same_fds.sockets s;
          datas = λ s e.
              (idata d.sock.idata d.env).datas s (k.same_fds.sockets s ∙ e) ∙ k.same_fds.datas s e;
        };
      }

  fd_to_lsd-forget :
      (p : ℕ) (w : World E) (s : ℤ) → fd_to_lsd sys (forget sys p w) s ≡ fd_to_lsd sys w s
  unfolding forget fd_to_lsd
  fd_to_lsd-forget p w s = ground arith

  -- After `closesocket` has returned 0 the file descriptor still leads to the freed descriptor.
  abbrev Dangles : ℤ → ℤ → World E → Type 0
  Dangles s r w = r ≡ pos 0 → (p : ℕ) × (fd_to_lsd sys w s ≡ some p) × (w.heap p ≡ none)

  close_at-Dangles :
      (s : ℤ) (p : ℕ) (w : World E)
      → ((t : ℕ) → IsHonest sys (sys.tables t))
      → ((q : Option ℕ) (e : E) → SameFds sys e (sys.free_idata q e))
      → IsWellFormed sys w
      → fd_to_lsd sys w s ≡ some p
      → Returns (close_at sys p w) (Dangles s)
  unfolding close_at
  close_at-Dangles s p w honest idata wf e =
      Returns->>= (run_on sys p (close_body sys) w) _ _ _
        (run_on-IsWellFormed sys p (close_body sys) w honest (close_body-KeepsSound idata) wf
          (wf.linked s p e))
        (λ r w' k.
          if-Returns (r ==ℤ pos 0) _ _ _
            (λ z _.
              (p, fd_to_lsd-forget p w' s ∙ k.2 s ∙ e, forgotten p w' (rw k.1 (wf.linked s p e))))
            (λ z y. cc))
    where
      forgotten :
          (q : ℕ) (v : World E) → has_entry q v.table ≡ true → (forget sys q v).heap q ≡ none
      forgotten q v h = ground arith

  -- `closesocket` returns, and what it leaves.
  closesocket_leaves :
      (s : ℤ) (w : World E)
      → ((t : ℕ) → IsHonest sys (sys.tables t))
      → ((q : Option ℕ) (e : E) → SameFds sys e (sys.free_idata q e))
      → IsWellFormed sys w
      → Returns (closesocket sys s w) (λ r w'.
        r ≡ pos 0
        → (failure : ℤ) (body : Interface E → M (Ctx E) ℤ) → on_socket sys failure s body w' ≡ none)
  unfolding closesocket
  closesocket_leaves s w honest idata wf =
      with_lsd-IsWellFormed sys minus_one s (close_at sys) w _ honest wf (λ w' k e. cc)
        (λ p w' k e.
          Returns-mono (close_at sys p w') _ _ (close_at-Dangles s p w' honest idata k.0 e)
            (λ r w'' d z failure body. let (q, f, g) = d z in unfold on_socket in ground arith))

  -- From a well-formed state, and with well-behaved interfaces: when `closesocket` has returned 0,
  -- every later call of a public function on the file descriptor reads the freed descriptor,
  -- since the file descriptor still has the socket's handler and data.
  pub closesocket_dangles :
      (s : ℤ) (w w' : World E) (failure : ℤ) (body : Interface E → M (Ctx E) ℤ)
      → ((t : ℕ) → IsHonest sys (sys.tables t))
      → ((q : Option ℕ) (e : E) → SameFds sys e (sys.free_idata q e))
      → IsWellFormed sys w
      → closesocket sys s w ≡ some (pos 0, w')
      → on_socket sys failure s body w' ≡ none
  closesocket_dangles s w w' failure body honest idata wf h =
      (rw (h, Returns) at (closesocket_leaves s w honest idata wf)) refl failure body
