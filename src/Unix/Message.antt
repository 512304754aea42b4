-- ===== src/Unix/Message.antt =====
-- UNIX_MSG_HEADER of src/unix/unix.h as the bytes of a message, low byte first.
use libsocket.Base.{
  ℕ, ◌+◌, ◌*◌, ◌/◌, ◌%◌, ◌<◌, Bool, ◌&&◌, ◌==◌, List, [], ◌∷◌, ◌++◌, length, get_elem?, none, some,
  ◌≡◌, refl, arith,
}
use libsocket.Unix.Types.{Secret}

pub record Header : Type 0 where
  pub version : ℕ
  pub type : ℕ
  pub secret : Secret
  pub seq_start : ℕ
  pub seq_end : ℕ
  pub offset : ℕ

-- The bytes of a `long` and of a `short`, with what follows them.
abbrev pub put4 : ℕ → List ℕ → List ℕ
put4 n xs = (n % 256) ∷ ((n / 256 % 256) ∷ ((n / 65536 % 256) ∷ ((n / 16777216 % 256) ∷ xs)))

abbrev pub put2 : ℕ → List ℕ → List ℕ
put2 n xs = (n % 256) ∷ ((n / 256 % 256) ∷ xs)

unfoldable pub header_bytes : Header → List ℕ
header_bytes h =
    h.version
    ∷ (h.type
        ∷ put4 h.secret.n
            (put4 h.secret.pid (put4 h.seq_start (put4 h.seq_end (put2 h.offset [])))))

-- The byte at `i` of a message in a buffer that is long enough; 0 beyond it.
abbrev pub byte : List ℕ → ℕ → ℕ
byte xs i = elim (get_elem? xs i) [ none ↦ 0 | some b ↦ b ]

abbrev pub get4 : List ℕ → ℕ → ℕ
get4 xs i = byte xs i + 256 * byte xs (1 + i) + 65536 * byte xs (2 + i) + 16777216 * byte xs (3 + i)

unfoldable pub read_header : List ℕ → Header
read_header xs = record {
  version = byte xs 0;
  type = byte xs 1;
  secret = record { n = get4 xs 2; pid = get4 xs 6 };
  seq_start = get4 xs 10;
  seq_end = get4 xs 14;
  offset = byte xs 18 + 256 * byte xs 19;
}

-- `memcmp` of two secrets is 0.
abbrev pub same_secret : Secret → Secret → Bool
same_secret s t = s.n == t.n && s.pid == t.pid

-- The numbers of a header fit their fields.
pub record Fits (h : Header) : Type 0 where
  pub n : h.secret.n < 4294967296
  pub pid : h.secret.pid < 4294967296
  pub seq_start : h.seq_start < 4294967296
  pub seq_end : h.seq_end < 4294967296
  pub offset : h.offset < 65536

four_bytes :
    (n : ℕ)
    → n < 4294967296
    → n % 256 + 256 * (n / 256 % 256) + 65536 * (n / 65536 % 256) + 16777216 * (n / 16777216 % 256)
      ≡ n
four_bytes n h = omega arith

two_bytes : (n : ℕ) → n < 65536 → n % 256 + 256 * (n / 256 % 256) ≡ n
two_bytes n h = omega arith

pub read_header-header_bytes :
    (h : Header) (xs : List ℕ) → Fits h → read_header (header_bytes h ++ xs) ≡ h
unfolding read_header header_bytes
read_header-header_bytes h xs f =
    rw
      (
        four_bytes h.secret.n f.n,
        four_bytes h.secret.pid f.pid,
        four_bytes h.seq_start f.seq_start,
        four_bytes h.seq_end f.seq_end,
        two_bytes h.offset f.offset,
      )
      refl

pub length-header_bytes : (h : Header) → length (header_bytes h) ≡ 20
unfolding header_bytes
length-header_bytes h = refl
