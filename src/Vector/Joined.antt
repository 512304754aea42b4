-- ===== src/Vector/Joined.antt =====
-- `readv` and `writev` of src/readv.c and src/writev.c beside one `read` and one `write`.
use libsocket.Base.{
  ℕ, zero, suc, ◌≤◌, false, ltb, some, List, ◌++◌, length, take, drop, ◌≡◌, refl, ap, ◌∙◌, arith,
  append-nil,
}
use libsocket.Base.Int.{ℤ, pos}
use libsocket.Layer.Types.{Errno}
use libsocket.Vector.{
  Iovec, Library, bad_count, ssize_max, writev, writev_counted, writev_copied, readv, readv_counted,
  readv_read, total,
}
use libsocket.Vector.Lists.{drop-length}
use libsocket.Vector.Scatter.{
  joined, sum, Holds, vectors-all, total-sum, gather-joined, scatter-joined,
}

module _ {E : Type 0} (lib : Library E) where
  good_count : (n m : ℕ) → 1 ≤ n → n ≤ m → bad_count m (pos n) ≡ false
  good_count zero m h k = absurd (omega arith)
  good_count (suc n) m h k = ground arith

  writev_copied-joined :
      (fd : ℤ) (iov : List Iovec) (e : Errno) (env : E)
      → Holds iov
      → total iov ≡ sum iov
      → writev_copied lib fd iov iov e env
        ≡ (let out = lib.write fd (joined iov) (sum iov) e env in some (out.0, iov, out.1, out.2))
  unfolding writev_copied
  writev_copied-joined fd iov e env h size =
      rw (size, gather-joined (sum iov) iov (omega arith) h, writev_copied) (rw size refl)

  writev_counted-joined :
      (fd : ℤ) (iov : List Iovec) (e : Errno) (env : E) (buf : List ℕ)
      → Holds iov
      → sum iov ≤ 2147483647
      → (lib.malloc (sum iov) env).0 ≡ some buf
      → writev_counted lib fd iov iov e env ≡ (
          let out = lib.write fd (joined iov) (sum iov) e (lib.malloc (sum iov) env).1 in
          some (out.0, iov, out.1, out.2))
  unfolding writev_counted
  writev_counted-joined fd iov e env buf h small memory =
      let size = total-sum iov small in
      let small' : ltb ssize_max (sum iov) ≡ false = ground arith in
      rw (size, small', memory)
        (rw size (writev_copied-joined fd iov e (lib.malloc (sum iov) env).1 h size))

  -- `writev` on vectors whose lengths are right and whose sum fits an `ssize_t` answers as one
  -- `write` of all their bytes, one vector behind another, if there is memory for them.
  pub writev-write :
      (fd : ℤ) (iov : List Iovec) (e : Errno) (env : E) (buf : List ℕ)
      → 1 ≤ length iov
      → length iov ≤ lib.iov_max
      → Holds iov
      → sum iov ≤ 2147483647
      → (lib.malloc (sum iov) env).0 ≡ some buf
      → writev lib fd iov (pos (length iov)) e env ≡ (
          let out = lib.write fd (joined iov) (sum iov) e (lib.malloc (sum iov) env).1 in
          some (out.0, iov, out.1, out.2))
  unfolding writev
  writev-write fd iov e env buf some_left few h small memory =
      rw (good_count (length iov) lib.iov_max some_left few, vectors-all iov)
        (writev_counted-joined fd iov e env buf h small memory)

  readv_read-joined :
      (fd : ℤ) (iov : List Iovec) (e : Errno) (env : E) (buf bytes : List ℕ) (n : ℕ)
      → Holds iov
      → total iov ≡ sum iov
      → (lib.read fd buf (sum iov) e env).0 ≡ (pos n, bytes)
      → n ≤ sum iov
      → n ≤ length bytes
      → let got = lib.read fd buf (sum iov) e env in
        (us : List Iovec) × (readv_read lib fd iov iov buf e env ≡ some (pos n, us, got.1, got.2))
        × (joined us ≡ take n bytes ++ drop n (joined iov))
  unfolding readv_read
  readv_read-joined fd iov e env buf bytes n h size read low enough =
      let (us, made, same, all) = scatter-joined iov bytes n h enough low in
      let rest : us ++ drop (length us) iov ≡ us =
        ap (λ k. us ++ drop k iov) same ∙ (ap (λ xs. us ++ xs) (drop-length iov) ∙ append-nil us) in
      let count : (lib.read fd buf (sum iov) e env).0.0 ≡ pos n = ap (λ p. p.0) read in
      let filled : (lib.read fd buf (sum iov) e env).0.1 ≡ bytes = ap (λ p. p.1) read in
      (us, rw (size, count, readv_read) (rw size (rw (filled, made) (rw (rest, size) refl))), all)

  readv_counted-joined :
      (fd : ℤ) (iov : List Iovec) (e : Errno) (env : E) (buf bytes : List ℕ) (n : ℕ)
      → Holds iov
      → sum iov ≤ 2147483647
      → (lib.malloc (sum iov) env).0 ≡ some buf
      → (lib.read fd buf (sum iov) e (lib.malloc (sum iov) env).1).0 ≡ (pos n, bytes)
      → n ≤ sum iov
      → n ≤ length bytes
      → let got = lib.read fd buf (sum iov) e (lib.malloc (sum iov) env).1 in
        (us : List Iovec) × (readv_counted lib fd iov iov e env ≡ some (pos n, us, got.1, got.2))
        × (joined us ≡ take n bytes ++ drop n (joined iov))
  unfolding readv_counted
  readv_counted-joined fd iov e env buf bytes n h small memory read low enough =
      let size = total-sum iov small in
      let small' : ltb ssize_max (sum iov) ≡ false = ground arith in
      let (us, made, all) =
        readv_read-joined fd iov e (lib.malloc (sum iov) env).1 buf bytes n h size read low
          enough in
      (us, rw (size, small', memory) (rw size made), all)

  -- `readv` on vectors whose lengths are right and whose sum fits an `ssize_t` answers the count of
  -- one `read` for that sum, and fills the vectors one behind another with just the bytes read:
  -- what lies behind them in the vectors is as before. There is memory, and `read` gives no more
  -- than it was asked for.
  pub readv-read :
      (fd : ℤ) (iov : List Iovec) (e : Errno) (env : E) (buf bytes : List ℕ) (n : ℕ)
      → 1 ≤ length iov
      → length iov ≤ lib.iov_max
      → Holds iov
      → sum iov ≤ 2147483647
      → (lib.malloc (sum iov) env).0 ≡ some buf
      → (lib.read fd buf (sum iov) e (lib.malloc (sum iov) env).1).0 ≡ (pos n, bytes)
      → n ≤ sum iov
      → n ≤ length bytes
      → let got = lib.read fd buf (sum iov) e (lib.malloc (sum iov) env).1 in
        (us : List Iovec) × (readv lib fd iov (pos (length iov)) e env
          ≡ some (pos n, us, got.1, got.2))
        × (joined us ≡ take n bytes ++ drop n (joined iov))
  unfolding readv
  readv-read fd iov e env buf bytes n some_left few h small memory read low enough =
      rw (good_count (length iov) lib.iov_max some_left few, vectors-all iov)
        (readv_counted-joined fd iov e env buf bytes n h small memory read low enough)
