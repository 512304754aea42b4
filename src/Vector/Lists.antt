-- ===== src/Vector/Lists.antt =====
-- Parts of parts of lists.
use libsocket.Base.{
  ℕ, zero, suc, ◌-◌, min, ◌≤◌, List, [], ◌∷◌, ◌++◌, length, take, drop, ◌≡◌, refl, sym, ap, ◌∙◌,
  arith,
}

sub-zero : (n : ℕ) → n ≡ n - 0
sub-zero n = omega arith

module _ {ℓ} {A : Type ℓ} where
  take-empty : (n : ℕ) → ◌≡◌ {A = List A} (take n []) []
  take-empty zero = refl
  take-empty (suc n) = refl

  pub take-append :
      (xs ys : List A) (n : ℕ) → length xs ≤ n → take n (xs ++ ys) ≡ xs ++ take (n - length xs) ys
  take-append [] ys n h = ap (λ k. take k ys) (sub-zero n)
  take-append (x ∷ xs) ys zero h = absurd (omega arith)
  take-append (x ∷ xs) ys (suc n) h =
      ap (λ zs. x ∷ zs)
        (take-append xs ys n (omega arith) ∙ ap (λ k. xs ++ take k ys) (omega arith))

  pub drop-append :
      (xs ys : List A) (n : ℕ)
      → drop n (xs ++ ys) ≡ drop (min (length xs) n) xs ++ drop (n - length xs) ys
  drop-append [] ys n =
      let least : min 0 n ≡ 0 = omega arith in rw least (ap (λ k. drop k ys) (sub-zero n))
  drop-append (x ∷ xs) ys zero =
      let least : min (suc (length xs)) 0 ≡ 0 = omega arith in
      let rest : 0 - suc (length xs) ≡ 0 = omega arith in rw (least, rest) refl
  drop-append (x ∷ xs) ys (suc n) =
      let least : min (suc (length xs)) (suc n) ≡ suc (min (length xs) n) = omega arith in
      let rest : suc n - suc (length xs) ≡ n - length xs = omega arith in
      rw (least, rest) (drop-append xs ys n)

  pub take-drop : (xs : List A) (m n : ℕ) → n ≤ m → take (m - n) (drop n xs) ≡ drop n (take m xs)
  take-drop xs m zero h = ap (λ k. take k xs) (omega arith)
  take-drop xs zero (suc n) h = absurd (omega arith)
  take-drop [] (suc m) (suc n) h = take-empty (suc m - suc n)
  take-drop (x ∷ xs) (suc m) (suc n) h =
      ap (λ k. take k (drop n xs)) (omega arith) ∙ take-drop xs m n (omega arith)

  pub take-both :
      (xs : List A) (m n : ℕ) → n ≤ m → take m xs ≡ take n xs ++ take (m - n) (drop n xs)
  take-both xs m zero h = ap (λ k. take k xs) (omega arith)
  take-both xs zero (suc n) h = absurd (omega arith)
  take-both [] (suc m) (suc n) h = sym (take-empty (suc m - suc n))
  take-both (x ∷ xs) (suc m) (suc n) h =
      ap (λ ys. x ∷ ys)
        (take-both xs m n (omega arith) ∙ ap (λ k. take n xs ++ take k (drop n xs)) (omega arith))

  pub drop-take : (xs : List A) (n : ℕ) → drop n (take n xs) ≡ []
  drop-take xs zero = refl
  drop-take [] (suc n) = refl
  drop-take (x ∷ xs) (suc n) = drop-take xs n

  pub drop-length : (xs : List A) → drop (length xs) xs ≡ []
  drop-length [] = refl
  drop-length (x ∷ xs) = drop-length xs
