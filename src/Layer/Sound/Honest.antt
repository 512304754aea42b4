-- ===== src/Layer/Sound/Honest.antt =====
-- What the layer relies on in the tables of src/csock, src/wsock and src/unix.
use libsocket.Base.{
  ℕ, ◌≤◌, Bool, true, false, Option, none, some, List, length, ◌≡◌, is_given, Returns, refl, ◌∙◌,
}
use libsocket.Base.Int.{ℤ}
use libsocket.Layer.Interface.{Ctx, Call, Interface}
use libsocket.Layer.Types.{Errno, Socket, sock_stream, sockaddr_max_size}
use libsocket.Layer.World.{Sys, Handler, lsck_handler, foreign_handler}

-- A descriptor that names an interface, whose names fill their buffers, whose peer's address lies
-- within its buffer, and that listens only if it is a bound stream socket.
pub record IsSound (k : Socket) : Type 0 where
  pub has_interface : is_given k.interface ≡ true
  pub sockname_size : length k.sockname ≡ sockaddr_max_size
  pub peername_size : length k.peername ≡ sockaddr_max_size
  pub peer_fits : k.peernamelen ≤ sockaddr_max_size
  pub listens_bound : k.listening ≡ true → k.bound ≡ true
  pub listens_stream : k.listening ≡ true → k.type ≡ sock_stream

-- A buffer that is given is at least as long as the caller says.
abbrev pub Holds : Option (List ℕ) → ℕ → Type 0
Holds none n = Unit
Holds (some a) n = n ≤ length a

-- The handler of a file descriptor is the layer's own.
abbrev pub is_lsck : Option Handler → Bool
is_lsck none = false
is_lsck (some lsck_handler) = true
is_lsck (some foreign_handler) = false

module _ {E : Type 0} (sys : Sys E) where
  -- The same file descriptors as before are those of sockets, with the same descriptors behind them.
  -- Others may come and go, as those of the mailslots that src/unix/u_connct.c opens.
  pub record SameFds (e e' : E) : Type 0 where
    pub sockets : (s : ℤ) → is_lsck (sys.get_function e' s) ≡ is_lsck (sys.get_function e s)
    pub datas :
        (s : ℤ) → is_lsck (sys.get_function e s) ≡ true → sys.get_data e' s ≡ sys.get_data e s

  -- A step on one descriptor that keeps it sound, and keeps the file descriptors.
  pub record Keeps (c c' : Ctx E) : Type 0 where
    pub sound : IsSound c'.sock
    pub same_fd : c'.sock.fd ≡ c.sock.fd
    pub same_fds : SameFds c.env c'.env

  -- An interface's call moreover leaves the type and the listening flag to the layer.
  pub record Behaves (c c' : Ctx E) : Type 0 where
    pub keeps : Keeps c c'
    pub same_type : c'.sock.type ≡ c.sock.type
    pub same_listening : c'.sock.listening ≡ c.sock.listening

  abbrev pub WellBehaved : {A : Type 0} → Call E A → Type 0
  WellBehaved f = (c : Ctx E) → IsSound c.sock → Behaves c (f c).1

  -- The call hands back a name that fills the buffer it was given, and a length within it.
  pub record Names (name : List ℕ) (len : ℕ) (out : List ℕ) (out_len : ℕ) : Type 0 where
    pub same_size : length out ≡ length name
    pub fits : len ≤ length name → out_len ≤ length name

  abbrev pub IfGiven : {A : Type 0} → (A → Type 0) → Option A → Type 0
  IfGiven P none = Unit
  IfGiven P (some a) = P a

  -- What the layer relies on in an interface: its calls keep a descriptor sound and leave the file
  -- descriptors of sockets alone, and the names they hand back fit the buffer they are given. Of
  -- the addresses for `connect`, those are meant that fit the descriptor's buffer, since no
  -- `addrlen_check` of the interfaces has an upper bound.
  pub record IsHonest (i : Interface E) : Type 0 where
    pub nonblocking_check : IfGiven WellBehaved i.nonblocking_check
    pub bind : IfGiven (λ f. (a : List ℕ) (n : ℕ) → WellBehaved (f a n)) i.bind
    pub listen :
        IfGiven
          (λ f.
            (b : ℤ) (c : Ctx E)
            → IsSound c.sock
            → Behaves c (f b c).1 × ((f b c).1.sock.bound ≡ c.sock.bound))
          i.listen
    pub connect :
        IfGiven
          (λ f. (a : List ℕ) (n : ℕ) → n ≤ length a → n ≤ sockaddr_max_size → WellBehaved (f a n))
          i.connect
    pub close : IfGiven WellBehaved i.close
    pub recv : IfGiven (λ f. (b : List ℕ) (n g : ℕ) → WellBehaved (f b n g)) i.recv
    pub recvfrom :
        IfGiven
          (λ f. (b : List ℕ) (n g : ℕ) (from : Option (List ℕ × ℕ)) → WellBehaved (f b n g from))
          i.recvfrom
    pub send : IfGiven (λ f. (b : List ℕ) (n g : ℕ) → WellBehaved (f b n g)) i.send
    pub sendto :
        IfGiven
          (λ f. (b : List ℕ) (n g : ℕ) (to : Option (List ℕ)) (m : ℕ) → WellBehaved (f b n g to m))
          i.sendto
    pub getsockname :
        IfGiven
          (λ f.
            ((a : List ℕ) (n : ℕ) → WellBehaved (f a n))
            × ((a : List ℕ) (n : ℕ) (c : Ctx E) → Names a n (f a n c).0.1 (f a n c).0.2))
          i.getsockname
    pub getpeername : IfGiven (λ f. (a : List ℕ) (n : ℕ) → WellBehaved (f a n)) i.getpeername
    pub getsockopt :
        IfGiven
          (λ f.
            ((l o : ℕ) (v : List ℕ) (n : ℕ) → WellBehaved (f l o v n))
            × ((l o : ℕ) (v : List ℕ) (n : ℕ) (c : Ctx E)
                → Names v n (f l o v n c).0.1 (f l o v n c).0.2))
          i.getsockopt
    pub setsockopt :
        IfGiven (λ f. (l o : ℕ) (v : List ℕ) (n : ℕ) → WellBehaved (f l o v n)) i.setsockopt
    pub shutdown : IfGiven (λ f. (how : ℤ) → WellBehaved (f how)) i.shutdown
    pub fcntl : IfGiven (λ f. (x y : ℤ) → WellBehaved (f x y)) i.fcntl
    pub select : IfGiven (λ f. (x : ℕ) → WellBehaved (f x)) i.select

  pub Keeps-refl : (c : Ctx E) → IsSound c.sock → Keeps c c
  Keeps-refl c h = record {
    sound = h;
    same_fd = refl;
    same_fds = record { sockets = λ s. refl; datas = λ s h. refl };
  }

  pub Keeps-trans : (a b c : Ctx E) → Keeps a b → Keeps b c → Keeps a c
  Keeps-trans a b c h k = record {
    sound = k.sound;
    same_fd = k.same_fd ∙ h.same_fd;
    same_fds = record {
      sockets = λ s. k.same_fds.sockets s ∙ h.same_fds.sockets s;
      datas = λ s e. k.same_fds.datas s (h.same_fds.sockets s ∙ e) ∙ h.same_fds.datas s e;
    };
  }

  -- A step that changes `errno` alone.
  pub Keeps-errno : (c : Ctx E) (e : Errno) → IsSound c.sock → Keeps c (record c { errno = e })
  Keeps-errno c e h = record {
    sound = h;
    same_fd = refl;
    same_fds = record { sockets = λ s. refl; datas = λ s h. refl };
  }

  -- A step to another descriptor with the same number, which is sound.
  pub Keeps-sock :
      (c c' : Ctx E) (k : Socket)
      → Keeps c c'
      → IsSound k
      → k.fd ≡ c'.sock.fd
      → Keeps c (record c' { sock = k })
  Keeps-sock c c' k h s e = record {
    sound = s;
    same_fd = e ∙ h.same_fd;
    same_fds = record { sockets = h.same_fds.sockets; datas = h.same_fds.datas };
  }

  -- A call of an entry of the table, where the entry may be null.
  pub IfGiven-elim :
      {A B T : Type 0} (P : A → Type 0) (o : Option A) (x : Option (B × T)) (g : A → Option (B × T))
      (R : B → T → Type 0)
      → IfGiven P o
      → Returns x R
      → ((f : A) → P f → Returns (g f) R)
      → Returns (elim o [ none ↦ x | some f ↦ g f ]) R
  IfGiven-elim P none x g R h n s = n
  IfGiven-elim P (some f) x g R h n s = s f h
