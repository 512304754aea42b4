-- ===== src/Vector.antt =====
-- Vectors of buffers: src/readv.c and src/writev.c. The vector is the list behind `iov`.
mod Lists
mod Witnesses
pub mod Scatter
pub mod Joined
use libsocket.Base.{
  ℕ, zero, suc, ◌+◌, ◌-◌, ◌%◌, min, Bool, true, false, not, ◌||◌, ltb, leb, if◌then◌else◌, Option,
  none, some, List, [], ◌∷◌, ◌++◌, length, take, drop, memcpy,
}
use libsocket.Base.Int.{ℤ, pos, negsuc, minus_one}
use libsocket.Layer.Types.{Errno, einval, enomem}

-- `struct iovec`.
pub record Iovec : Type 0 where
  pub base : List ℕ
  pub len : ℕ

-- What the functions use of the C library: `malloc`, by whether it gives memory, and its contents
-- then; `read` and `write` on the file descriptor, which go on to the socket layer for a socket.
pub record Library (E : Type 0) : Type 0 where
  pub iov_max : ℕ
  pub malloc : ℕ → E → Option (List ℕ) × E
  pub read : ℤ → List ℕ → ℕ → Errno → E → (ℤ × List ℕ) × Errno × E
  pub write : ℤ → List ℕ → ℕ → Errno → E → ℤ × Errno × E

-- The first `count` vectors, and none if there are fewer.
unfoldable pub vectors : ℕ → List Iovec → Option (List Iovec)
vectors zero iov = some []
vectors (suc n) [] = none
vectors (suc n) (v ∷ vs) = elim (vectors n vs) [ none ↦ none | some us ↦ some (v ∷ us) ]

-- The sum of the lengths, as a `size_t`.
unfoldable pub total : List Iovec → ℕ
total [] = 0
total (v ∷ vs) = (v.len + total vs) % 4294967296

-- The copies into a buffer that has `room` bytes left; `none` goes beyond it, or beyond a vector.
unfoldable pub gather : ℕ → List Iovec → Option (List ℕ)
gather room [] = some []
gather room (v ∷ vs) = elim (gather (room - v.len) vs) [
  | none ↦ none
  | some rest ↦
      if leb v.len room
      then if leb v.len (length v.base) then some (take v.len v.base ++ rest) else none
      else none
]

-- The copies of `remainder` bytes from `buf` into the vectors.
unfoldable pub scatter : List ℕ → ℕ → List Iovec → Option (List Iovec)
scatter buf remainder [] = some []
scatter buf remainder (v ∷ vs) =
    let n = min v.len remainder in
    elim (memcpy v.base buf n) [
      | none ↦ none
      | some out ↦ elim (scatter (drop n buf) (remainder - n) vs) [
        | none ↦ none
        | some us ↦ some (record v { base = out } ∷ us)
      ]
    ]

-- `(iovcnt <= 0) || (iovcnt > IOV_MAX)`.
abbrev pub bad_count : ℕ → ℤ → Bool
bad_count iov_max (negsuc n) = true
bad_count iov_max (pos zero) = true
bad_count iov_max (pos (suc n)) = ltb iov_max (suc n)

abbrev pub count_of : ℤ → ℕ
count_of (pos n) = n
count_of (negsuc n) = 0

-- SSIZE_MAX.
abbrev pub ssize_max : ℕ
ssize_max = 2147483647

module _ {E : Type 0} (lib : Library E) where
  -- What is answered, the vectors, `errno` and the library's state; `none` is a bad access.
  abbrev pub Answer : Type 0
  Answer = Option (ℤ × List Iovec × Errno × E)

  unfoldable pub writev_copied : ℤ → List Iovec → List Iovec → Errno → E → Answer
  writev_copied fd iov vs e env = elim (gather (total vs) vs) [
    | none ↦ none
    | some bytes ↦
        let (ret, e', env') = lib.write fd bytes (total vs) e env in some (ret, iov, e', env')
  ]

  unfoldable pub writev_counted : ℤ → List Iovec → List Iovec → Errno → E → Answer
  unfolding writev_copied
  writev_counted fd iov vs e env =
      if ltb ssize_max (total vs)
      then some (minus_one, iov, einval, env)
      else let (memory, env') = lib.malloc (total vs) env in
        elim memory [
          | none ↦ some (minus_one, iov, enomem, env')
          | some buf ↦ writev_copied fd iov vs e env'
        ]

  unfoldable pub writev : ℤ → List Iovec → ℤ → Errno → E → Answer
  unfolding writev_counted
  writev fd iov iovcnt e env =
      if bad_count lib.iov_max iovcnt
      then some (minus_one, iov, einval, env)
      else elim (vectors (count_of iovcnt) iov) [
        | none ↦ none
        | some vs ↦ writev_counted fd iov vs e env
      ]

  -- From `read` on; the vectors behind the first `iovcnt` are not touched.
  unfoldable pub readv_read : ℤ → List Iovec → List Iovec → List ℕ → Errno → E → Answer
  readv_read fd iov vs buf e env =
      let (got, e', env') = lib.read fd buf (total vs) e env in
      elim got.0 [
        | negsuc n ↦ some (negsuc n, iov, e', env')
        | pos n ↦ elim (scatter got.1 n vs) [
          | none ↦ none
          | some us ↦ some (pos n, us ++ drop (length us) iov, e', env')
        ]
      ]

  unfoldable pub readv_counted : ℤ → List Iovec → List Iovec → Errno → E → Answer
  unfolding readv_read
  readv_counted fd iov vs e env =
      if ltb ssize_max (total vs)
      then some (minus_one, iov, einval, env)
      else let (memory, env') = lib.malloc (total vs) env in
        elim memory [
          | none ↦ some (minus_one, iov, enomem, env')
          | some buf ↦ readv_read fd iov vs buf e env'
        ]

  unfoldable pub readv : ℤ → List Iovec → ℤ → Errno → E → Answer
  unfolding readv_counted
  readv fd iov iovcnt e env =
      if bad_count lib.iov_max iovcnt
      then some (minus_one, iov, einval, env)
      else elim (vectors (count_of iovcnt) iov) [
        | none ↦ none
        | some vs ↦ readv_counted fd iov vs e env
      ]
