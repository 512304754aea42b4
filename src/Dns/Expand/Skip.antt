-- ===== src/Dns/Expand/Skip.antt =====
-- `__dn_skipname` and `dn_expand` of src/inet/r_comp.c on the same name.
use libsocket.Base.{
  ℕ, zero, suc, ◌+◌, ◌-◌, ◌≤◌, ◌<◌, true, false, ◌==◌, leb, ltb, none, some, List, [], length,
  get_elem?, get_elem?-given, ◌≡◌, ◌∙◌, refl, arith, Option-cases, inl, inr, Bool-cases,
}
use libsocket.Dns.Expand.Bounds.{copy_label-CopyGood}
use libsocket.Dns.Expand.{
  at_byte, Parse, ok, bad, oob, stuck, kind, has_space, dotted, label_step, pointer_step,
  expand_loop, dn_expand, expand_fuel, skip_loop, dn_skipname,
}

-- A step that must have succeeded.
Parse-eq-ok :
    {A B : Type 0} (p : Parse A) (k : A → Parse B) (b : B)
    → elim p [ ok a ↦ k a | bad ↦ bad | oob ↦ oob | stuck ↦ stuck ] ≡ ok b
    → (a : A) × (p ≡ ok a) × (k a ≡ ok b)
Parse-eq-ok (ok a) k b h = (a, refl, h)
Parse-eq-ok bad k b h = cc
Parse-eq-ok oob k b h = cc
Parse-eq-ok stuck k b h = cc

at_byte-eq-ok :
    {A : Type 0} (mem : List ℕ) (p : ℕ) (k : ℕ → Parse A) (a : A)
    → at_byte mem p k ≡ ok a
    → (n : ℕ) × (p < length mem) × (get_elem? mem p ≡ some n) × (k n ≡ ok a)
at_byte-eq-ok mem p k a h = elim (Option-cases (get_elem? mem p)) [
  | inl e ↦ cc (rw (e, at_byte) at h)
  | inr (n, e) ↦ (n, get_elem?-given mem p n e, e, rw (e, at_byte) at h)
]

module _ (mem : List ℕ) (comp_dn size : ℕ) where
  abbrev eom : ℕ
  eom = length mem

  -- Once the size is known it does not change.
  expand_loop-len :
      (fuel cp : ℕ) (out : List ℕ) (checked l len : ℕ) (text : List ℕ)
      → expand_loop mem eom comp_dn size fuel cp out checked (some l) ≡ ok (len, text)
      → len ≡ l
  unfolding expand_loop
  expand_loop-len zero cp out checked l len text h = cc
  expand_loop-len (suc fuel) cp out checked l len text h =
      let (n, lt, e, h1) = at_byte-eq-ok mem cp _ _ h in
      elim (Bool-cases (n == 0)) [
        | inl z ↦ elim (Bool-cases (leb size (length out))) [
          | inl y ↦ cc (rw (z, y) at h1)
          | inr y ↦ elim (Bool-cases (has_space out)) [
            | inl x ↦ cc (rw (z, y, x) at h1)
            | inr x ↦ cc (rw (z, y, x) at h1)
          ]
        ]
        | inr z ↦ elim (Bool-cases (kind n == 0)) [
          | inl y ↦
              let ((cp', out'), f, h2) =
                Parse-eq-ok (label_step mem eom comp_dn size n (cp + 1) out) _ _
                  (rw (z, y) at h1) in
              expand_loop-len fuel cp' out' (checked + n + 1) l len text h2
          | inr y ↦ elim (Bool-cases (kind n == 3)) [
            | inl x ↦
                let (t, f, h2) =
                  Parse-eq-ok (pointer_step mem eom comp_dn size n (cp + 1) checked) _ _
                    (rw (z, y, x) at h1) in
                expand_loop-len fuel t out (checked + 2) l len text h2
            | inr x ↦ cc (rw (z, y, x) at h1)
          ]
        ]
      ]

  abbrev Moved : ℕ → ℕ → Parse (ℕ × List ℕ) → Type 0
  Moved n cp (ok (cp', out')) = (cp' ≡ cp + n) × (0 < n → cp' < eom)
  Moved n cp bad = Unit
  Moved n cp oob = Unit
  Moved n cp stuck = Unit

  label_step-Moved :
      (n cp : ℕ) (out : List ℕ) → Moved n cp (label_step mem eom comp_dn size n cp out)
  unfolding label_step
  label_step-Moved n cp out =
      ground (arith, copy_label-CopyGood mem eom size n cp (dotted out) (omega arith))

  label_step-ok :
      (n cp : ℕ) (out : List ℕ) (cp' : ℕ) (out' : List ℕ)
      → label_step mem eom comp_dn size n cp out ≡ ok (cp', out')
      → (cp' ≡ cp + n) × (0 < n → cp' < eom)
  label_step-ok n cp out cp' out' e = rw e at (label_step-Moved n cp out)

  pointer_step-ok :
      (n cp checked t : ℕ) → pointer_step mem eom comp_dn size n cp checked ≡ ok t → cp < eom
  unfolding pointer_step
  pointer_step-ok n cp checked t h = let (b, lt, e, k) = at_byte-eq-ok mem cp _ _ h in lt

  skip_end :
      (g cp n : ℕ)
      → get_elem? mem cp ≡ some n
      → (n == 0) ≡ true
      → skip_loop mem eom comp_dn size (suc g) cp ≡ ok (cp + 1)
  unfolding skip_loop
  skip_end g cp n e z =
      let inside : ltb cp eom ≡ true = ground (arith, get_elem?-given mem cp n e) in ground (arith)

  skip_label :
      (g cp n : ℕ)
      → get_elem? mem cp ≡ some n
      → (n == 0) ≡ false
      → (kind n == 0) ≡ true
      → skip_loop mem eom comp_dn size (suc g) cp ≡ skip_loop mem eom comp_dn size g (cp + 1 + n)
  unfolding skip_loop
  skip_label g cp n e z y =
      let inside : ltb cp eom ≡ true = ground (arith, get_elem?-given mem cp n e) in ground (arith)

  skip_pointer :
      (g cp n : ℕ)
      → get_elem? mem cp ≡ some n
      → (n == 0) ≡ false
      → (kind n == 0) ≡ false
      → (kind n == 3) ≡ true
      → skip_loop mem eom comp_dn size (suc g) cp ≡ ok (cp + 2)
  unfolding skip_loop
  skip_pointer g cp n e z y x =
      let inside : ltb cp eom ≡ true = ground (arith, get_elem?-given mem cp n e) in ground (arith)

  -- How a skipped name ends.
  record SkipsTo (len : ℕ) (p : Parse ℕ) : Type 0 where
    last : ℕ
    ends : p ≡ ok last
    inside : last ≤ eom
    size_is : len ≡ last - comp_dn

  SkipsTo-from : {len : ℕ} {p r : Parse ℕ} → p ≡ r → SkipsTo len r → SkipsTo len p
  SkipsTo-from e s = record {
    last = s.last;
    ends = e ∙ s.ends;
    inside = s.inside;
    size_is = s.size_is;
  }

  skip-expand :
      (fuel g cp : ℕ) (out : List ℕ) (checked len : ℕ) (text : List ℕ)
      → comp_dn ≤ cp
      → eom < g + cp
      → expand_loop mem eom comp_dn size fuel cp out checked none ≡ ok (len, text)
      → SkipsTo len (skip_loop mem eom comp_dn size g cp)
  unfolding expand_loop skip_loop
  skip-expand zero g cp out checked len text fwd lt h = cc
  skip-expand (suc fuel) zero cp out checked len text fwd lt h =
      let (n, inside, e, h1) = at_byte-eq-ok mem cp _ _ h in absurd (omega arith)
  skip-expand (suc fuel) (suc g) cp out checked len text fwd lt h =
      let (n, inside, e, h1) = at_byte-eq-ok mem cp _ _ h in
      elim (Bool-cases (n == 0)) [
        | inl z ↦ elim (Bool-cases (leb size (length out))) [
          | inl y ↦ cc (rw (z, y) at h1)
          | inr y ↦ elim (Bool-cases (has_space out)) [
            | inl x ↦ cc (rw (z, y, x) at h1)
            | inr x ↦ record {
              last = cp + 1;
              ends = skip_end g cp n e z;
              inside = omega arith;
              size_is = cc (rw (z, y, x) at h1);
            }
          ]
        ]
        | inr z ↦ elim (Bool-cases (kind n == 0)) [
          | inl y ↦
              let ((cp', out'), f, h2) =
                Parse-eq-ok (label_step mem eom comp_dn size n (cp + 1) out) _ _
                  (rw (z, y) at h1) in
              let (d, within) = label_step-ok n (cp + 1) out cp' out' f in
              SkipsTo-from (skip_label g cp n e z y) (
                skip-expand fuel g (cp + 1 + n) out' (checked + n + 1) len text (omega arith)
                  (omega arith) (rw d at h2))
          | inr y ↦ elim (Bool-cases (kind n == 3)) [
            | inl x ↦
                let (t, f, h2) =
                  Parse-eq-ok (pointer_step mem eom comp_dn size n (cp + 1) checked) _ _
                    (rw (z, y, x) at h1) in
                let l : len ≡ cp + 1 - comp_dn + 1 =
                  expand_loop-len fuel t out (checked + 2) _ len text h2 in
                record {
                  last = cp + 2;
                  ends = skip_pointer g cp n e z y x;
                  inside = omega (arith, pointer_step-ok n (cp + 1) checked t f);
                  size_is = omega (arith, l);
                }
            | inr x ↦ cc (rw (z, y, x) at h1)
          ]
        ]
      ]

-- If `dn_expand` finds a name in a message, `__dn_skipname` passes over the name there, and over
-- just as many bytes as `dn_expand` says that the name takes.
pub dn_skipname-dn_expand :
    (mem : List ℕ) (comp_dn size len : ℕ) (text : List ℕ)
    → dn_expand mem (length mem) comp_dn size ≡ ok (len, text)
    → dn_skipname mem (length mem) comp_dn size ≡ ok len
unfolding dn_expand dn_skipname
dn_skipname-dn_expand mem comp_dn size len text h =
    let s : SkipsTo mem comp_dn size len
        (skip_loop mem (length mem) comp_dn size (length mem - comp_dn + 1) comp_dn) =
      skip-expand mem comp_dn size (expand_fuel mem (length mem) comp_dn size)
        (length mem - comp_dn + 1) comp_dn [] 0 len text (omega arith) (omega arith) h in
    let within : ltb (length mem) s.last ≡ false = ground (arith, s.inside) in
    ground (arith, s.ends, within, s.size_is)
