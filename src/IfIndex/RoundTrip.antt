-- ===== src/IfIndex/RoundTrip.antt =====
-- From an interface's name to its number and back, in src/if.c.
use libsocket.Base.{
  sym, subst, ltb, length, ℕ, ◌+◌, ◌<◌, ◌==◌, Bool, true, false, if◌then◌else◌, Option, none, some,
  List, [], ◌∷◌, ◌≡◌, refl, ap, ◌∙◌, ◌⊎◌, inl, inr, arith, Bool-cases, Returns,
}
use libsocket.IfIndex.{
  Names, number_names, build_if_nameindex, same_name, index_of, name_of, if_nametoindex,
  if_indextoname,
}

pub same_name-eq : (xs ys : List ℕ) → same_name xs ys ≡ true → xs ≡ ys
same_name-eq [] [] h = refl
same_name-eq [] (y ∷ ys) h = cc
same_name-eq (x ∷ xs) [] h = cc
same_name-eq (x ∷ xs) (y ∷ ys) h =
    let e : x ≡ y = ground arith in
    let t : same_name xs ys ≡ true = ground arith in rw e (ap (λ zs. y ∷ zs) (same_name-eq xs ys t))

-- A number that is found is past those used before, and is the name's own.
name_of-index_of :
    (name : List ℕ) (count : ℕ) (is : List (Option (List ℕ)))
    → (index_of name (number_names count is) ≡ 0)
      ⊎ ((count < index_of name (number_names count is))
          × (name_of (index_of name (number_names count is)) (number_names count is) ≡ some name))
unfolding number_names index_of name_of
name_of-index_of name count [] = inl refl
name_of-index_of name count (none ∷ is) = name_of-index_of name count is
name_of-index_of name count (some x ∷ is) =
    let not_zero : (1 + count == 0) ≡ false = ground arith in
    let itself : (1 + count == 1 + count) ≡ true = ground arith in
    elim (Bool-cases (same_name x name)) [
      | inl y ↦ inr (rw y (omega arith), rw (y, not_zero, itself) (ap some (same_name-eq x name y)))
      | inr n ↦ elim (name_of-index_of name (1 + count) is) [
        | inl e ↦ inl (rw n e)
        | inr (later, found) ↦
            let differs : (1 + count == index_of name (number_names (1 + count) is)) ≡ false =
              ground arith in
            let same : index_of name (number_names count (some x ∷ is))
                ≡ index_of name (number_names (1 + count) is) =
              rw n refl in
            inr (
              omega (arith, same, later),
              ap (λ k. name_of k (number_names count (some x ∷ is))) same
                  ∙ rw (not_zero, differs) found,
            )
      ]
    ]

if_true {ℓ} : {A : Type ℓ} (b : Bool) (x y : A) → b ≡ true → (if b then x else y) ≡ x
if_true true x y h = refl
if_true false x y h = cc

built_twice : (s b : Names) → build_if_nameindex s ≡ some b → build_if_nameindex b ≡ some b
unfolding build_if_nameindex
built_twice s b h = elim (Bool-cases s.built_if_nameindex) [
  | inl y ↦
      let same : ◌≡◌ {A = Option Names} (some s) (some b) =
        sym (if_true s.built_if_nameindex (some s) _ y) ∙ h in
      let e : s ≡ b = cc same in
      subst (λ k. build_if_nameindex k ≡ some k) e (if_true s.built_if_nameindex (some s) _ y)
  | inr n ↦ elim (Bool-cases (ltb 7 (length (number_names 0 s.interfaces)))) [
    | inl full ↦ absurd (ground arith)
    | inr fits ↦
        let made : Names = record s {
          built_if_nameindex = true;
          if_nameindex = number_names 0 s.interfaces;
        } in
        let same : ◌≡◌ {A = Option Names} (some made) (some b) = ground arith in
        let e : made ≡ b = cc same in subst (λ k. build_if_nameindex k ≡ some k) e refl
  ]
]

found_again :
    (enxio n : ℕ) (b : Names) (name : List ℕ)
    → build_if_nameindex b ≡ some b
    → name_of n b.if_nameindex ≡ some name
    → Returns (if_indextoname enxio n b) (λ r s'. r ≡ some name)
unfolding if_indextoname
found_again enxio n b name k e = rw (k, if_indextoname) (rw e refl)

-- With a list that is built and numbers the interfaces, `if_nametoindex` answers 0, or a number that
-- `if_indextoname` turns back into the name.
pub if_indextoname-nametoindex :
    (enxio : ℕ) (name : List ℕ) (s b : Names) (is : List (Option (List ℕ)))
    → build_if_nameindex s ≡ some b
    → b.if_nameindex ≡ number_names 0 is
    → Returns
        (if_nametoindex (some name) s)
        (λ n s'. (n ≡ 0) ⊎ Returns (if_indextoname enxio n s') (λ r s''. r ≡ some name))
unfolding if_nametoindex
if_indextoname-nametoindex enxio name s b is built numbered =
    rw (built, if_nametoindex)
      (elim (name_of-index_of name 0 is) [
        | inl e ↦ inl (rw numbered e)
        | inr (later, found) ↦
            inr (found_again enxio _ b name (built_twice s b built) (rw numbered found))
      ])
