-- ===== src/Vector/Scatter.antt =====
-- The vectors of src/readv.c and src/writev.c as one run of bytes.
use libsocket.Base.{
  ℕ, suc, ◌+◌, ◌-◌, min, ◌≤◌, true, some, List, [], ◌∷◌, ◌++◌, length, take, drop, memcpy, All, leb,
  ltb, inl, inr, Bool-cases, ◌≡◌, ◌⊎◌, refl, sym, ap, ◌∙◌, arith, length-take, length-drop,
  append_assoc, append-nil,
}
use libsocket.Vector.{Iovec, scatter, gather, total, vectors}
use libsocket.Vector.Lists.{take-append, drop-append, take-drop, take-both, drop-take}

-- The bytes of the vectors, one behind another, and their number.
abbrev pub joined : List Iovec → List ℕ
joined [] = []
joined (v ∷ vs) = take v.len v.base ++ joined vs

abbrev pub sum : List Iovec → ℕ
sum [] = 0
sum (v ∷ vs) = v.len + sum vs

-- Every buffer is as long as its vector says.
abbrev pub Holds : List Iovec → Type 0
Holds = All (λ v. v.len ≤ length v.base)

pub vectors-all : (iov : List Iovec) → vectors (length iov) iov ≡ some iov
unfolding vectors
vectors-all [] = refl
vectors-all (v ∷ vs) = rw (vectors-all vs) refl

pub total-sum : (vs : List Iovec) → sum vs ≤ 2147483647 → total vs ≡ sum vs
unfolding total
total-sum [] h = refl
total-sum (v ∷ vs) h = omega (arith, total-sum vs (omega arith))

pub gather-joined :
    (room : ℕ) (vs : List Iovec) → sum vs ≤ room → Holds vs → gather room vs ≡ some (joined vs)
unfolding gather
gather-joined room [] fits h = refl
gather-joined room (v ∷ vs) fits (h, hs) =
    let a : leb v.len room ≡ true = ground arith in
    let b : leb v.len (length v.base) ≡ true = ground arith in
    rw (gather-joined (room - v.len) vs (omega arith) hs, a, b) refl

-- One vector: the first `n` bytes are new.
filled :
    (base buf : List ℕ) (len n : ℕ)
    → n ≤ len
    → n ≤ length buf
    → take len (take n buf ++ drop n base) ≡ take n buf ++ drop n (take len base)
filled base buf len n h k =
    let size : length (take n buf) ≡ n = omega (arith, length-take n buf) in
    take-append (take n buf) (drop n base) len (omega (arith, size))
    ∙ ap (λ xs. take n buf ++ xs)
        (ap (λ j. take (len - j) (drop n base)) size ∙ take-drop base len n h)

-- All vectors: `t` and `u` are the parts of the data, `d` and `j` what is left of the vectors.
shuffled : (t u d j : List ℕ) → (u ≡ []) ⊎ (d ≡ []) → (t ++ d) ++ (u ++ j) ≡ (t ++ u) ++ (d ++ j)
shuffled t u d j (inl e) = rw (e, append-nil t) (append_assoc t d j)
shuffled t u d j (inr e) = rw (e, append-nil t) (sym (append_assoc t u j))

memcpy-some :
    (dest src : List ℕ) (n : ℕ)
    → n ≤ length dest
    → n ≤ length src
    → memcpy dest src n ≡ some (take n src ++ drop n dest)
unfolding memcpy
memcpy-some dest src n h k = ground arith

one_is_empty :
    (base buf : List ℕ) (len remainder : ℕ)
    → (take (remainder - min len remainder) (drop (min len remainder) buf) ≡ [])
      ⊎ (drop (min len remainder) (take len base) ≡ [])
one_is_empty base buf len remainder = elim (Bool-cases (ltb len remainder)) [
  | inl y ↦ let e : min len remainder ≡ len = ground arith in inr (rw e (drop-take base len))
  | inr n ↦ let e : remainder - min len remainder ≡ 0 = ground arith in inl (rw e refl)
]

scatter_cons :
    (v : Iovec) (vs us : List Iovec) (buf out : List ℕ) (remainder : ℕ)
    → memcpy v.base buf (min v.len remainder) ≡ some out
    → scatter (drop (min v.len remainder) buf) (remainder - min v.len remainder) vs ≡ some us
    → scatter buf remainder (v ∷ vs) ≡ some (record v { base = out } ∷ us)
unfolding scatter
scatter_cons v vs us buf out remainder copied made = rw (copied, scatter) (rw made refl)

pub scatter-joined :
    (vs : List Iovec) (buf : List ℕ) (remainder : ℕ)
    → Holds vs
    → remainder ≤ length buf
    → remainder ≤ sum vs
    → (us : List Iovec) × (scatter buf remainder vs ≡ some us)
      × (length us ≡ length vs)
      × (joined us ≡ take remainder buf ++ drop remainder (joined vs))
unfolding scatter
scatter-joined [] buf remainder h k low =
    let e : remainder ≡ 0 = omega arith in ([], refl, refl, rw e refl)
scatter-joined (v ∷ vs) buf remainder (h, hs) k low =
    let n = min v.len remainder in
    let (us, made, size, rest) =
      scatter-joined vs (drop n buf) (remainder - n) hs (omega (arith, length-drop n buf))
        (omega arith) in
    let out = take n buf ++ drop n v.base in
    let copied : memcpy v.base buf n ≡ some out =
      memcpy-some v.base buf n (omega arith) (omega arith) in
    let j = drop (remainder - n) (joined vs) in
    let long : length (take v.len v.base) ≡ v.len = omega (arith, length-take v.len v.base) in
    let same : remainder - v.len ≡ remainder - n = omega arith in
    let tail : drop remainder (take v.len v.base ++ joined vs) ≡ drop n (take v.len v.base) ++ j =
      drop-append (take v.len v.base) (joined vs) remainder ∙ rw (long, same) refl in
    (
      record v { base = out } ∷ us,
      scatter_cons v vs us buf out remainder copied made,
      ap suc size,
      rw
          (
            filled v.base buf v.len n (omega arith) (omega arith),
            rest,
            tail,
            take-both buf remainder n (omega arith),
          )
          (shuffled (take n buf) _ _ j (one_is_empty v.base buf v.len remainder)),
    )
