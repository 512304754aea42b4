-- ===== src/Unix/Stream/Lists.antt =====
-- Parts of a message.
use libsocket.Base.{
  ℕ, zero, suc, ◌+◌, ◌≤◌, List, [], ◌∷◌, ◌++◌, length, take, drop, ◌≡◌, refl, sym, ap, ◌∙◌, arith,
}

pub take-drop-append {ℓ} : {A : Type ℓ} (xs : List A) (n : ℕ) → xs ≡ take n xs ++ drop n xs
take-drop-append xs zero = refl
take-drop-append [] (suc n) = refl
take-drop-append (x ∷ xs) (suc n) = ap (λ ys. x ∷ ys) (take-drop-append xs n)

drop-empty {ℓ} : {A : Type ℓ} (n : ℕ) → ◌≡◌ {A = List A} (drop n []) []
drop-empty zero = refl
drop-empty (suc n) = refl

pub drop-drop {ℓ} :
    {A : Type ℓ} (xs : List A) (i n j : ℕ) → j ≡ i + n → drop n (drop i xs) ≡ drop j xs
drop-drop xs zero n j e = ap (λ k. drop k xs) (omega arith)
drop-drop [] (suc i) n j e = drop-empty n ∙ sym (drop-empty j)
drop-drop (x ∷ xs) (suc i) n zero e = absurd (omega arith)
drop-drop (x ∷ xs) (suc i) n (suc j) e = drop-drop xs i n j (omega arith)

pub drop-all {ℓ} : {A : Type ℓ} (xs : List A) (n : ℕ) → length xs ≤ n → drop n xs ≡ []
drop-all [] zero h = refl
drop-all [] (suc n) h = refl
drop-all (x ∷ xs) zero h = absurd (omega arith)
drop-all (x ∷ xs) (suc n) h = drop-all xs n (omega arith)

pub take-append {ℓ} : {A : Type ℓ} (xs ys : List A) → take (length xs) (xs ++ ys) ≡ xs
take-append [] ys = refl
take-append (x ∷ xs) ys = ap (λ zs. x ∷ zs) (take-append xs ys)

pub drop-append {ℓ} : {A : Type ℓ} (xs ys : List A) → drop (length xs) (xs ++ ys) ≡ ys
drop-append [] ys = refl
drop-append (x ∷ xs) ys = drop-append xs ys
