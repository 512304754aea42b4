-- ===== src/Layer/Close.antt =====
-- src/close.c, and the closing of a file descriptor through the handler of src/fsext.c.
use libsocket.Base.{ℕ, Bool, true, false, ◌==◌, if◌then◌else◌, Option, none, some, List, [], ◌∷◌, M}
use libsocket.Base.Int.{ℤ, pos, minus_one, ◌==ℤ◌}
use libsocket.Layer.Interface.{Ctx, Interface, fail}
use libsocket.Layer.Types.{eopnotsupp}
use libsocket.Layer.World.{Sys, World, run_on, with_lsd, update}

abbrev pub is_entry : ℕ → Option ℕ → Bool
is_entry p none = false
is_entry p (some q) = q == p

-- The loop over `__lsck_socket[]`: the first entry that is `p` becomes null.
unfoldable pub clear_entry : ℕ → List (Option ℕ) → List (Option ℕ)
clear_entry p [] = []
clear_entry p (e ∷ es) = if is_entry p e then none ∷ es else e ∷ clear_entry p es

unfoldable pub has_entry : ℕ → List (Option ℕ) → Bool
has_entry p [] = false
has_entry p (e ∷ es) = if is_entry p e then true else has_entry p es

module _ {E : Type 0} (sys : Sys E) where
  unfoldable pub close_body : Interface E → M (Ctx E) ℤ
  close_body i c = elim i.close [
    | none ↦ fail eopnotsupp c
    | some f ↦
        let (r, c') = f c in
        if r ==ℤ pos 0
        then some (
          r,
          record c' {
            sock = record (c'.sock) { idata = none };
            env = sys.free_idata c'.sock.idata c'.env;
          },
        )
        else some (r, c')
  ]

  -- The entry of the table becomes null and the descriptor is freed, if it has an entry.
  unfoldable pub forget : ℕ → World E → World E
  unfolding clear_entry has_entry
  forget p w =
      if has_entry p w.table
      then record w { table = clear_entry p w.table; heap = update w.heap p none }
      else w

  unfoldable pub close_at : ℕ → M (World E) ℤ
  unfolding close_body forget
  close_at p w = elim (run_on sys p close_body w) [
    | none ↦ none
    | some (r, w') ↦ if r ==ℤ pos 0 then some (r, forget p w') else some (r, w')
  ]

  unfoldable pub closesocket : ℤ → M (World E) ℤ
  unfolding close_at
  closesocket s = with_lsd sys minus_one s close_at

  -- `__FSEXT_close`: the C library's `close` on a descriptor of a socket.
  unfoldable pub fsext_close : ℤ → M (World E) ℤ
  fsext_close s w = elim (closesocket s w) [
    | none ↦ none
    | some (r, w') ↦
        if r ==ℤ pos 0
        then some (
          r,
          record w' { env = sys.close_fd s (sys.set_data s none (sys.clear_function s w'.env)) },
        )
        else some (r, w')
  ]
