-- ===== src/Layer/Laws/Creation.antt =====
-- The last steps of `__socketx` in src/socket.c, on success and on failure.
use libsocket.Base.{
  ℕ, ◌<◌, none, some, length, get_elem?, get_elem?-set_self, ◌≡◌, ◌≢◌, ◌⊎◌, arith, Bool-cases,
  Option-cases, inl, inr,
}
use libsocket.Base.Int.{ℤ, minus_one, ◌==ℤ◌}
use libsocket.Layer.Create.{socket_start, cleanup}
use libsocket.Layer.Interface.{Ctx}
use libsocket.Layer.Types.{Socket}
use libsocket.Layer.World.{Sys, World}

module _ {E : Type 0} (sys : Sys E) where
  -- What a failed creation leaves: the entry is null and the descriptor is freed.
  pub record GivenBack (slot p : ℕ) (w : World E) : Type 0 where
    pub entry : get_elem? w.table slot ≡ some none
    pub freed : w.heap p ≡ none

  -- How the interface is called: on the new descriptor.
  abbrev pub asked : Socket → World E → Ctx E
  asked k w = record { sock = k; errno = w.errno; env = w.env }

  -- The socket's interface creates sockets, and did not answer -1.
  abbrev pub Created : ℤ → ℕ → Socket → World E → World E → ℤ → Type 0
  Created s p k w w' r =
      (t : ℕ) × (f : Ctx E → ℤ × Ctx E) × (k.interface ≡ some t)
      × ((sys.tables t).socket ≡ some f)
      × ((f (asked k w)).0 ≢ minus_one)
      × (r ≡ s)
      × (w'.table ≡ w.table)
      × (w'.heap p ≡ some (f (asked k w)).1.sock)

  -- There is no interface, or it creates no sockets, or it answered -1.
  abbrev pub Declined : Socket → World E → Type 0
  Declined k w =
      (k.interface ≡ none)
      ⊎ ((t : ℕ) × (k.interface ≡ some t)
          × (((sys.tables t).socket ≡ none)
              ⊎ ((f : Ctx E → ℤ × Ctx E) × ((sys.tables t).socket ≡ some f)
                  × ((f (asked k w)).0 ≡ minus_one))))

  -- With an entry within the table, either the socket's interface has a function that creates
  -- sockets and it did not answer -1: then the new file descriptor is returned, the table is as it
  -- was, and the descriptor is the one the interface left. Or there is no interface, or it has no
  -- such function, or that answered -1: then the result is -1, the entry is null again and the
  -- descriptor freed.
  pub socket_start_outcome :
      (s : ℤ) (slot p : ℕ) (k : Socket) (w w' : World E) (r : ℤ)
      → slot < length w.table
      → socket_start sys s slot p k w ≡ some (r, w')
      → Created s p k w w' r ⊎ (Declined k w × (r ≡ minus_one) × GivenBack slot p w')
  unfolding socket_start cleanup
  socket_start_outcome s slot p k w w' r lt h =
      let cleared = get_elem?-set_self w.table slot none lt in
      elim (Option-cases k.interface) [
        | inl e ↦ inr (failed (inl e) (ground (arith, cleared)))
        | inr (t, e) ↦ elim (Option-cases (sys.tables t).socket) [
          | inl n ↦ inr (failed (inr (t, e, inl n)) (ground (arith, cleared)))
          | inr (f, g) ↦ elim (Bool-cases ((f (asked k w)).0 ==ℤ minus_one)) [
            | inl b ↦ inr (failed (inr (t, e, inr (f, g, ground arith))) (ground (arith, cleared)))
            | inr b ↦ inl (t, f, e, g, ground arith, ground arith, ground arith, ground arith)
          ]
        ]
      ]
    where
      failed :
          Declined k w
          → (r ≡ minus_one) × GivenBack slot p w'
          → Declined k w × (r ≡ minus_one) × GivenBack slot p w'
      failed d (m, b) = (d, m, b)
