-- ===== src/Dns/Numbers.antt =====
-- `_getshort`, `_getlong`, `__putshort` and `__putlong` of src/inet/r_comp.c, with the macros of
-- include/arpa/nameser.h. The state is the memory, a list of its bytes.
use libsocket.Base.{
  ℕ, ◌+◌, ◌*◌, ◌/◌, ◌%◌, ◌≤◌, ◌<◌, ltb, if◌then◌else◌, none, some, List, M, ◌>>=◌, ◌>>◌, return,
  length, get_elem?, set, ◌≡◌, refl, ap, ◌∙◌, arith, ◌^◌, ◌⊎◌, Returns, get_elem?-set_self,
  get_elem?-set_ne, length-set,
}

-- `*cp`; `none` is a byte beyond the memory.
unfoldable pub get_byte : ℕ → M (List ℕ) ℕ
get_byte p mem = elim (get_elem? mem p) [ none ↦ none | some b ↦ some (b, mem) ]

-- `*cp = b`, of which a byte keeps the low eight bits.
unfoldable pub put_byte : ℕ → ℕ → M (List ℕ) (Unit {0})
put_byte p b mem = if ltb p (length mem) then some (tt, set mem p (b % 256)) else none

-- The bytes are below 256, so that the parts which `|` joins share no bit, and `|` is the sum.
unfoldable pub getshort : ℕ → M (List ℕ) ℕ
getshort p = do a ← get_byte p; b ← get_byte (p + 1); return (a * 256 + b)

unfoldable pub getlong : ℕ → M (List ℕ) ℕ
getlong p = do
  a ← get_byte p
  b ← get_byte (p + 1)
  c ← get_byte (p + 2)
  d ← get_byte (p + 3)
  return (a * 16777216 + b * 65536 + c * 256 + d)

unfoldable pub putshort : ℕ → ℕ → M (List ℕ) (Unit {0})
putshort s p = let t = s % 2 ^ 16 in put_byte p (t / 256) >> put_byte (p + 1) t

unfoldable pub putlong : ℕ → ℕ → M (List ℕ) (Unit {0})
putlong l p =
    let t = l % 2 ^ 32 in
    put_byte p (t / 16777216)
    >> put_byte (p + 1) (t / 65536)
    >> put_byte (p + 2) (t / 256)
    >> put_byte (p + 3) t

-- The memory with `n` bytes changed from `p` on: no other byte is, and the size is the same.
pub record Written (p n : ℕ) (mem mem' : List ℕ) : Type 0 where
  pub same_size : length mem' ≡ length mem
  pub same_bytes : (q : ℕ) → (q < p) ⊎ (p + n ≤ q) → get_elem? mem' q ≡ get_elem? mem q

put_byte-given :
    (p b : ℕ) (mem : List ℕ) → p < length mem → put_byte p b mem ≡ some (tt, set mem p (b % 256))
unfolding put_byte
put_byte-given p b mem h = ground arith

put_byte->> :
    {A : Type 0} (p b : ℕ) (k : M (List ℕ) A) (mem : List ℕ)
    → p < length mem
    → (put_byte p b >> k) mem ≡ k (set mem p (b % 256))
put_byte->> p b k mem h = rw (put_byte-given p b mem h, ◌>>◌, ◌>>=◌) refl

get_byte->>= :
    {A : Type 0} (p b : ℕ) (k : ℕ → M (List ℕ) A) (mem : List ℕ)
    → get_elem? mem p ≡ some b
    → (get_byte p >>= k) mem ≡ k b mem
unfolding get_byte
get_byte->>= p b k mem h = rw (h, ◌>>=◌) refl

set-Written :
    (p i n b : ℕ) (mem mem' : List ℕ)
    → p ≤ i
    → i < p + n
    → Written p n mem mem'
    → Written p n mem (set mem' i b)
set-Written p i n b mem mem' lo hi w = record {
  same_size = omega (arith, length-set mem' i b, w.same_size);
  same_bytes =
      λ q out. get_elem?-set_ne mem' {i = i} {j = q} b (λ e. omega arith) ∙ w.same_bytes q out;
}

Written-refl : (p n : ℕ) (mem : List ℕ) → Written p n mem mem
Written-refl p n mem = record { same_size = refl; same_bytes = λ q out. refl }

-- The memory after the two bytes, and after the four, of a number.
abbrev short_bytes : ℕ → ℕ → List ℕ → List ℕ
short_bytes t p mem = set (set mem p (t / 256 % 256)) (p + 1) (t % 256)

abbrev long_bytes : ℕ → ℕ → List ℕ → List ℕ
long_bytes t p mem =
    set
      (set (set (set mem p (t / 16777216 % 256)) (p + 1) (t / 65536 % 256)) (p + 2) (t / 256 % 256))
      (p + 3) (t % 256)

putshort-bytes :
    (s p : ℕ) (mem : List ℕ)
    → p + 1 < length mem
    → putshort s p mem ≡ some (tt, short_bytes (s % 2 ^ 16) p mem)
unfolding putshort
putshort-bytes s p mem h =
    let t : ℕ = s % 2 ^ 16 in
    let m1 : List ℕ = set mem p (t / 256 % 256) in
    let size : length m1 ≡ length mem = length-set mem p (t / 256 % 256) in
    put_byte->> p (t / 256) (put_byte (p + 1) t) mem (omega arith)
    ∙ put_byte-given (p + 1) t m1 (omega (arith, size))

getshort-bytes :
    (t p : ℕ) (mem : List ℕ)
    → p + 1 < length mem
    → t < 65536
    → getshort p (short_bytes t p mem) ≡ some (t, short_bytes t p mem)
unfolding getshort
getshort-bytes t p mem h small =
    let m1 : List ℕ = set mem p (t / 256 % 256) in
    let m2 : List ℕ = short_bytes t p mem in
    let size : length m1 ≡ length mem = length-set mem p (t / 256 % 256) in
    let high : get_elem? m2 p ≡ some (t / 256 % 256) =
      get_elem?-set_ne m1 {i = p + 1} {j = p} (t % 256) (λ e. omega arith)
      ∙ get_elem?-set_self mem p (t / 256 % 256) (omega arith) in
    let low : get_elem? m2 (p + 1) ≡ some (t % 256) =
      get_elem?-set_self m1 (p + 1) (t % 256) (omega (arith, size)) in
    get_byte->>= p (t / 256 % 256) _ m2 high
    ∙ get_byte->>= (p + 1) (t % 256) _ m2 low
    ∙ ap (λ (u : ℕ). some (u, m2)) (omega arith)

-- `__putshort` into a memory that holds both bytes writes these alone, and `_getshort` reads the
-- number back, modulo 2 ^ 16.
pub getshort-putshort :
    (s p : ℕ) (mem : List ℕ)
    → p + 1 < length mem
    → Returns
        (putshort s p mem)
        (λ _ mem'. Written p 2 mem mem' × (getshort p mem' ≡ some (s % 2 ^ 16, mem')))
getshort-putshort s p mem h =
    let t : ℕ = s % 2 ^ 16 in
    rw (putshort-bytes s p mem h, Returns)
      (
        set-Written p (p + 1) 2 (t % 256) mem _ (omega arith) (omega arith) (
            set-Written p p 2 (t / 256 % 256) mem mem (omega arith) (omega arith)
              (Written-refl p 2 mem)),
        getshort-bytes t p mem h (omega arith),
      )

putlong-bytes :
    (l p : ℕ) (mem : List ℕ)
    → p + 3 < length mem
    → putlong l p mem ≡ some (tt, long_bytes (l % 2 ^ 32) p mem)
unfolding putlong
putlong-bytes l p mem h =
    let t : ℕ = l % 2 ^ 32 in
    let m1 : List ℕ = set mem p (t / 16777216 % 256) in
    let m2 : List ℕ = set m1 (p + 1) (t / 65536 % 256) in
    let m3 : List ℕ = set m2 (p + 2) (t / 256 % 256) in
    let s1 : length m1 ≡ length mem = length-set mem p (t / 16777216 % 256) in
    let s2 : length m2 ≡ length mem = length-set m1 (p + 1) (t / 65536 % 256) ∙ s1 in
    let s3 : length m3 ≡ length mem = length-set m2 (p + 2) (t / 256 % 256) ∙ s2 in
    rw (put_byte-given p (t / 16777216) mem (omega arith), ◌>>◌, ◌>>=◌)
      (rw (put_byte-given (p + 1) (t / 65536) m1 (omega (arith, s1))) (
        rw (put_byte-given (p + 2) (t / 256) m2 (omega (arith, s2)))
          (put_byte-given (p + 3) t m3 (omega (arith, s3)))))

getlong-bytes :
    (t p : ℕ) (mem : List ℕ)
    → p + 3 < length mem
    → t < 4294967296
    → getlong p (long_bytes t p mem) ≡ some (t, long_bytes t p mem)
unfolding getlong
getlong-bytes t p mem h small =
    let a : ℕ = t / 16777216 % 256 in
    let b : ℕ = t / 65536 % 256 in
    let c : ℕ = t / 256 % 256 in
    let d : ℕ = t % 256 in
    let m1 : List ℕ = set mem p a in
    let m2 : List ℕ = set m1 (p + 1) b in
    let m3 : List ℕ = set m2 (p + 2) c in
    let m4 : List ℕ = set m3 (p + 3) d in
    let s1 : length m1 ≡ length mem = length-set mem p a in
    let s2 : length m2 ≡ length mem = length-set m1 (p + 1) b ∙ s1 in
    let s3 : length m3 ≡ length mem = length-set m2 (p + 2) c ∙ s2 in
    let ra : get_elem? m4 p ≡ some a =
      get_elem?-set_ne m3 {i = p + 3} {j = p} d (λ e. omega arith)
      ∙ get_elem?-set_ne m2 {i = p + 2} {j = p} c (λ e. omega arith)
      ∙ get_elem?-set_ne m1 {i = p + 1} {j = p} b (λ e. omega arith)
      ∙ get_elem?-set_self mem p a (omega arith) in
    let rb : get_elem? m4 (p + 1) ≡ some b =
      get_elem?-set_ne m3 {i = p + 3} {j = p + 1} d (λ e. omega arith)
      ∙ get_elem?-set_ne m2 {i = p + 2} {j = p + 1} c (λ e. omega arith)
      ∙ get_elem?-set_self m1 (p + 1) b (omega (arith, s1)) in
    let rc : get_elem? m4 (p + 2) ≡ some c =
      get_elem?-set_ne m3 {i = p + 3} {j = p + 2} d (λ e. omega arith)
      ∙ get_elem?-set_self m2 (p + 2) c (omega (arith, s2)) in
    let rd : get_elem? m4 (p + 3) ≡ some d = get_elem?-set_self m3 (p + 3) d (omega (arith, s3)) in
    get_byte->>= p a _ m4 ra
    ∙ get_byte->>= (p + 1) b _ m4 rb
    ∙ get_byte->>= (p + 2) c _ m4 rc
    ∙ get_byte->>= (p + 3) d _ m4 rd
    ∙ ap (λ (u : ℕ). some (u, m4)) (omega arith)

-- `__putlong` into a memory that holds the four bytes writes these alone, and `_getlong` reads the
-- number back, modulo 2 ^ 32.
pub getlong-putlong :
    (l p : ℕ) (mem : List ℕ)
    → p + 3 < length mem
    → Returns
        (putlong l p mem)
        (λ _ mem'. Written p 4 mem mem' × (getlong p mem' ≡ some (l % 2 ^ 32, mem')))
getlong-putlong l p mem h =
    let t : ℕ = l % 2 ^ 32 in
    rw (putlong-bytes l p mem h, Returns)
      (
        set-Written p (p + 3) 4 (t % 256) mem _ (omega arith) (omega arith) (
            set-Written p (p + 2) 4 (t / 256 % 256) mem _ (omega arith) (omega arith) (
              set-Written p (p + 1) 4 (t / 65536 % 256) mem _ (omega arith) (omega arith) (
                set-Written p p 4 (t / 16777216 % 256) mem mem (omega arith) (omega arith)
                  (Written-refl p 4 mem)))),
        getlong-bytes t p mem h (omega arith),
      )
