-- ===== src/Csock/Honest/Mild.antt =====
-- What a function of src/csock may change of the layer's descriptor.
use libsocket.Base.{
  ℕ, ◌≤◌, ◌&&◌, Bool, false, Option, none, some, List, length, ◌≡◌, refl, ◌∙◌, ap, arith, M,
  Bool-cases, inl, inr, memcpy, bzero, memcpy-given, bzero-given, leb,
}
use libsocket.Csock.Types.{Csock}
use libsocket.Layer.Interface.{Ctx}
use libsocket.Layer.Sound.{IsSound, Names, Behaves, WellBehaved, Keeps-refl, SameFds}
use libsocket.Layer.Types.{Socket}
use libsocket.Layer.World.{Sys}
use libsocket.Csock.Table.{Net, entry, enter, leave}

-- A call leaves the descriptor sound, and its number, type and listening flag as they were.
pub record Mild (k k' : Socket) : Type 0 where
  pub sound : IsSound k'
  pub same_fd : k'.fd ≡ k.fd
  pub same_type : k'.type ≡ k.type
  pub same_listening : k'.listening ≡ k.listening

pub length-memcpy :
    (dest src out : List ℕ) (n : ℕ) → memcpy dest src n ≡ some out → length out ≡ length dest
unfolding memcpy
length-memcpy dest src out n h = elim (Bool-cases (leb n (length dest) && leb n (length src))) [
  | inl e ↦
      (let (o, p, q) = memcpy-given dest src n (ground arith) (ground arith) in
        let same : out ≡ o = cc in ap length same ∙ q)
  | inr e ↦ ground arith
]

pub length-bzero : (dest out : List ℕ) (n : ℕ) → bzero dest n ≡ some out → length out ≡ length dest
unfolding bzero
length-bzero dest out n h = elim (Bool-cases (leb n (length dest))) [
  | inl e ↦
      (let (o, p, q) = bzero-given dest n (ground arith) in
        let same : out ≡ o = cc in ap length same ∙ q)
  | inr e ↦ ground arith
]

pub Mild-blocking : (b : Bool) (k : Socket) → IsSound k → Mild k (record k { blocking = b })
Mild-blocking b k s = record {
  sound = record {
    has_interface = s.has_interface;
    sockname_size = s.sockname_size;
    peername_size = s.peername_size;
    peer_fits = s.peer_fits;
    listens_bound = s.listens_bound;
    listens_stream = s.listens_stream;
  };
  same_fd = refl;
  same_type = refl;
  same_listening = refl;
}

pub Mild-connected :
    (b d : Bool) (k : Socket) → IsSound k → Mild k (record k { connecting = b; connected = d })
Mild-connected b d k s = record {
  sound = record {
    has_interface = s.has_interface;
    sockname_size = s.sockname_size;
    peername_size = s.peername_size;
    peer_fits = s.peer_fits;
    listens_bound = s.listens_bound;
    listens_stream = s.listens_stream;
  };
  same_fd = refl;
  same_type = refl;
  same_listening = refl;
}

pub Mild-refl : (k : Socket) → IsSound k → Mild k k
Mild-refl k s = record { sound = s; same_fd = refl; same_type = refl; same_listening = refl }

pub Mild-eq : (k k' : Socket) → IsSound k → k' ≡ k → Mild k k'
Mild-eq k k' s e = rw e (Mild-refl k s)

pub Mild-trans : (a b c : Socket) → Mild a b → Mild b c → Mild a c
Mild-trans a b c h k = record {
  sound = k.sound;
  same_fd = k.same_fd ∙ h.same_fd;
  same_type = k.same_type ∙ h.same_type;
  same_listening = k.same_listening ∙ h.same_listening;
}

-- A name for a socket that is bound or, if it had none, is not.
pub Mild-named :
    (k : Socket) (name : List ℕ) (n : ℕ) (b : Bool)
    → IsSound k
    → k.bound ≡ false
    → length name ≡ length k.sockname
    → Mild k (record k { sockname = name; socknamelen = n; bound = b })
Mild-named k name n b s e size = record {
  sound = record {
    has_interface = s.has_interface;
    sockname_size = size ∙ s.sockname_size;
    peername_size = s.peername_size;
    peer_fits = s.peer_fits;
    listens_bound = λ h. cc (s.listens_bound h, e);
    listens_stream = s.listens_stream;
  };
  same_fd = refl;
  same_type = refl;
  same_listening = refl;
}

module _ {F E : Type 0} (sys : Sys (Net F E))
    (own : (e e' : Net F E) → e.files ≡ e'.files → SameFds sys e e') where
  pub entry-Behaves :
      {A : Type 0} (bad : A) (m : M (Csock E) A)
      → ((c d : Csock E) (a : A) → IsSound c.sock → m c ≡ some (a, d) → Mild c.sock d.sock)
      → WellBehaved sys (entry bad m)
  unfolding entry
  entry-Behaves {A = A} bad m keep c s = go (m (enter c)) refl
    where
      go : (o : Option (A × Csock E)) → m (enter c) ≡ o → Behaves sys c (entry bad m c).1
      go none e =
          rw (e, entry)
            (record { keeps = Keeps-refl sys c s; same_type = refl; same_listening = refl })
      go (some (a, d)) e =
          let mild = keep (enter c) d a s e in
          rw (e, entry)
            (record {
              keeps = record {
                sound = mild.sound;
                same_fd = mild.same_fd;
                same_fds = own c.env (leave c.env d).env refl;
              };
              same_type = mild.same_type;
              same_listening = mild.same_listening;
            })

module _ {F E : Type 0} (sys : Sys (Net F E)) where
  pub entry-Names :
      {X : Type 0} (x : X) (a : List ℕ) (n : ℕ) (m : M (Csock E) (X × List ℕ × ℕ))
      → ((c d : Csock E) (y : X) (out : List ℕ) (k : ℕ)
          → m c ≡ some ((y, out, k), d)
          → (length out ≡ length a) × (n ≤ length a → k ≤ length a))
      → (c : Ctx (Net F E)) → Names sys a n (entry (x, a, n) m c).0.1 (entry (x, a, n) m c).0.2
  unfolding entry
  entry-Names {X = X} x a n m fits c = go (m (enter c)) refl
    where
      go :
          (o : Option ((X × List ℕ × ℕ) × Csock E))
          → m (enter c) ≡ o
          → Names sys a n (entry (x, a, n) m c).0.1 (entry (x, a, n) m c).0.2
      go none e = rw (e, entry) (record { same_size = refl; fits = λ h. h })
      go (some ((y, out, k), d)) e =
          let ok = fits (enter c) d y out k e in
          rw (e, entry) (record { same_size = ok.0; fits = ok.1 })
