-- ===== src/Unix/Tests.antt =====
-- One mailslot in a list, on which the theorems about stream sockets are applied.
use libsocket.Base.{
  ℕ, ◌≤◌, true, false, leb, if◌then◌else◌, none, List, [], ◌∷◌, ◌++◌, length, drop, replicate, ◌≡◌,
  refl, inl, arith,
}
use libsocket.Base.Int.{ℤ, pos, minus_one}
use libsocket.Layer.Tests.{peer_socket}
use libsocket.Layer.Types.{Errno, eio, other}
use libsocket.Unix.Message.{Header, header_bytes, length-header_bytes}
use libsocket.Unix.Recv.{is_close}
use libsocket.Unix.Stream.{IsMailslot, IsNoise}
use libsocket.Unix.Types.{Secret, Files, Unix, Io}

-- The messages that wait, the oldest one first.
abbrev pub Slot : Type 0
Slot = List (List ℕ)

abbrev pub slot_write : ℤ → List ℕ → Io Slot ℤ
slot_write fd m e q = (pos (length m), e, q ++ (m ∷ []))

abbrev pub slot_read : ℤ → List ℕ → ℕ → Io Slot (ℤ × List ℕ)
slot_read fd buf n e [] = ((minus_one, buf), eio, [])
slot_read fd buf n e (m ∷ q) =
    if leb (length m) n
    then ((pos (length m), m ++ drop (length m) buf), e, q)
    else ((minus_one, buf), eio, m ∷ q)

abbrev pub slot : Files Slot
slot = record {
  open_reader = λ path e q. (pos 6, e, q);
  open_writer = λ path e q. (pos 5, e, q);
  read = slot_read;
  write = slot_write;
  miopeek = λ fd flag e q. (pos 0, e, q);
  set_nonblock = λ fd e q. (pos 0, e, q);
  close = λ fd e q. (pos 0, e, q);
  random = λ e q. (77, e, q);
  getpid = 40;
  getcwd = λ e q. (none, e, q);
  max_path = 80;
}

slot_reads :
    (buf m : List ℕ) (q : Slot) (e : Errno) (env : Slot)
    → length m ≤ 4080
    → env ≡ m ∷ q
    → ((slot_read (pos 6) buf 4080 e env).0 ≡ (pos (length m), m ++ drop (length m) buf))
      × ((slot_read (pos 6) buf 4080 e env).2 ≡ q)
slot_reads buf m q e env h k =
    let fits : leb (length m) 4080 ≡ true = ground arith in rw k (ground (arith, fits))

pub slot-IsMailslot : IsMailslot slot (pos 5) (pos 6) (λ q. q)
slot-IsMailslot = record {
  writes = λ m e env h. (refl, refl);
  reads = λ buf m q e env size h k. slot_reads buf m q e env h k;
}

abbrev pub a_secret : Secret
a_secret = record { n = 1234; pid = 40 }

abbrev pub an_end : Unix Slot
an_end = record {
  sock = peer_socket;
  usock = record {
    sockpath = [];
    peerpath = [];
    fd_w = pos 5;
    fd_r = pos 6;
    secret = a_secret;
    seq_w = 100;
    seq_r = 100;
  };
  errno = other 0;
  my_buf = replicate 4080 0;
  env = [];
}

-- A message that is no data.
abbrev pub stray_header : Header
stray_header = record {
  version = 1;
  type = 1;
  secret = a_secret;
  seq_start = 0;
  seq_end = 0;
  offset = 20;
}

pub stray-IsNoise : IsNoise false a_secret (header_bytes stray_header)
unfolding is_close header_bytes
stray-IsNoise = record {
  header = stray_header;
  rest = [];
  bytes = refl;
  fits = record {
    n = omega arith;
    pid = omega arith;
    seq_start = omega arith;
    seq_end = omega arith;
    offset = omega arith;
  };
  size = rw (length-header_bytes stray_header) (omega arith);
  not_close = refl;
  useless = inl refl;
}
