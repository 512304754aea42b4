-- ===== src/Vector/Witnesses.antt =====
-- The theorems about vectors, applied on a file that is a run of bytes.
use libsocket.Base.{ℕ, some, List, [], ◌∷◌, ◌++◌, length, take, drop, replicate, ◌≡◌, refl, arith}
use libsocket.Base.Int.{pos}
use libsocket.Layer.Types.{other}
use libsocket.Vector.{Iovec, Library, readv, writev}
use libsocket.Vector.Joined.{readv-read, writev-write}
use libsocket.Vector.Scatter.{joined}

-- The state is what the file holds: `write` appends, and `read` takes from the front.
abbrev pipe : Library (List ℕ)
pipe = record {
  iov_max = 16;
  malloc = λ n file. (some (replicate n 0), file);
  read = λ fd buf n e file. (
    (pos (length (take n file)), take n file ++ drop (length (take n file)) buf),
    e,
    drop n file,
  );
  write = λ fd bytes n e file. (pos n, e, file ++ bytes);
}

abbrev two_vectors : List Iovec
two_vectors =
    record { base = 1 ∷ (2 ∷ (3 ∷ [])); len = 2 } ∷ (record { base = 4 ∷ (5 ∷ []); len = 2 } ∷ [])

writev-write_example :
    writev pipe (pos 3) two_vectors (pos 2) (other 0) []
    ≡ some (pos 4, two_vectors, other 0, 1 ∷ (2 ∷ (4 ∷ (5 ∷ []))))
writev-write_example =
    writev-write pipe (pos 3) two_vectors (other 0) [] (replicate 4 0) (omega arith) (omega arith)
      (omega arith, (omega arith, tt)) (omega arith) refl

readv-read_example :
    (us : List Iovec) × (readv pipe (pos 3) two_vectors (pos 2) (other 0) (7 ∷ (8 ∷ (9 ∷ [])))
      ≡ some (pos 3, us, other 0, []))
    × (joined us ≡ 7 ∷ (8 ∷ (9 ∷ (5 ∷ []))))
readv-read_example =
    readv-read pipe (pos 3) two_vectors (other 0) (7 ∷ (8 ∷ (9 ∷ []))) (replicate 4 0)
      (7 ∷ (8 ∷ (9 ∷ (0 ∷ [])))) 3 (omega arith) (omega arith) (omega arith, (omega arith, tt))
      (omega arith) refl refl (omega arith) (omega arith)
