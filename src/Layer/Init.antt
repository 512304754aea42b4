-- ===== src/Layer/Init.antt =====
-- src/initnt.c: the start and the end of the library.
use libsocket.Base.{
  ℕ, zero, suc, ◌+◌, Bool, true, false, if◌then◌else◌, Option, none, some, List, [], ◌∷◌, M, return,
  ◌>>◌, replicate, get_elem?,
}
use libsocket.Layer.Close.{fsext_close}
use libsocket.Layer.World.{Sys, World, update}

-- __LSCK_NUM_SOCKET
abbrev pub num_socket : ℕ
num_socket = 256

module _ {E : Type 0} (sys : Sys E) where
  -- The interfaces whose initialiser succeeds, in the order of `if_init_table`.
  unfoldable pub init_interfaces : List (E → Option ℕ × E) → E → List ℕ × E
  init_interfaces [] env = ([], env)
  init_interfaces (init ∷ inits) env =
      let (found, env') = init env in
      let (rest, env'') = init_interfaces inits env' in
      elim found [ none ↦ (rest, env'') | some t ↦ (t ∷ rest, env'') ]

  abbrev run_entry : Option (E → E) → E → E
  run_entry none env = env
  run_entry (some f) env = f env

  unfoldable pub preuninit_all : List ℕ → E → E
  preuninit_all [] env = env
  preuninit_all (t ∷ ts) env = preuninit_all ts (run_entry (sys.tables t).preuninit env)

  unfoldable pub uninit_all : List ℕ → E → E
  uninit_all [] env = env
  uninit_all (t ∷ ts) env = uninit_all ts (run_entry (sys.tables t).uninit env)

  -- `free (p)` of an address or of null.
  abbrev free_lsd : Option (Option ℕ) → World E → World E
  free_lsd (some (some p)) w = record w { heap = update w.heap p none }
  free_lsd _ w = w

  -- `close (__lsck_socket[i]->fd); free (__lsck_socket[i]);` The entry is read again for `free`.
  unfoldable pub uninit_entry : ℕ → M (World E) (Unit {0})
  uninit_entry i w = elim (get_elem? w.table i) [
    | none ↦ none
    | some none ↦ some (tt, w)
    | some (some p) ↦ elim (w.heap p) [
      | none ↦ none
      | some k ↦ elim (fsext_close sys k.fd w) [
        | none ↦ none
        | some (r, w') ↦ some (tt, free_lsd (get_elem? w'.table i) w')
      ]
    ]
  ]

  -- The entries `i` up to `i + n`.
  unfoldable pub uninit_entries : ℕ → ℕ → M (World E) (Unit {0})
  unfolding uninit_entry
  uninit_entries zero i w = some (tt, w)
  uninit_entries (suc n) i w = (uninit_entry i >> uninit_entries n (i + 1)) w

  unfoldable pub uninit : M (World E) (Unit {0})
  unfolding preuninit_all uninit_all uninit_entries
  uninit w =
      if w.inited
      then elim (uninit_entries num_socket 0
          (record w { env = preuninit_all w.interfaces w.env })) [
            | none ↦ none
            | some (u, w') ↦ some (tt, record w' { env = uninit_all w'.interfaces w'.env })
          ]
      else some (tt, w)

  -- The result says whether `__lsck_init` returns a value that is not 0.
  unfoldable pub init : M (World E) Bool
  unfolding init_interfaces
  init w =
      if w.inited
      then some (true, w)
      else (let (found, env') = init_interfaces sys.inits w.env in
          let w' : World E = record w {
            inited = true;
            table = replicate num_socket none;
            interfaces = found;
            env = env';
          } in
          elim found [ [] ↦ (uninit >> return false) w' | t ∷ ts ↦ some (true, w') ])
