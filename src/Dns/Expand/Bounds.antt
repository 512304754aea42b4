-- ===== src/Dns/Expand/Bounds.antt =====
-- The bounds and the end of the loop in `dn_expand`, src/inet/r_comp.c.
use libsocket.Base.{
  ℕ, zero, suc, ◌+◌, ◌-◌, ◌*◌, ◌≤◌, ◌<◌, Bool, true, false, ◌==◌, leb, if◌then◌else◌, Option, none,
  some, List, [], ◌∷◌, ◌++◌, length, get_elem?, length-append, get_elem?-lt, get_elem?-none, ◌≡◌,
  refl, ap, arith, Option-cases, inl, inr,
}
use libsocket.Dns.Expand.{
  at_byte, Parse, ok, bad, oob, stuck, kind, copy_label, has_space, dotted, label_step,
  pointer_step, expand_loop, dn_expand, expand_fuel,
}

-- What a completed copy of `n` bytes says.
pub record Copied (eom size n cp : ℕ) (out : List ℕ) (cp' : ℕ) (out' : List ℕ) : Type 0 where
  pub moved : cp' ≡ cp + n
  pub within : 0 < n → cp' < eom
  pub room : length out + n < size → length out' < size

abbrev pub CopyGood : ℕ → ℕ → ℕ → ℕ → ℕ → List ℕ → Parse (ℕ × List ℕ) → Type 0
CopyGood top eom size n cp out (ok (cp', out')) = Copied eom size n cp out cp' out'
CopyGood top eom size n cp out bad = Unit
CopyGood top eom size n cp out oob = length out + n < size → top ≤ cp
CopyGood top eom size n cp out stuck = ⊥

pub copy_label-CopyGood :
    (mem : List ℕ) (eom size n cp : ℕ) (out : List ℕ)
    → eom ≤ length mem
    → CopyGood (length mem) eom size n cp out (copy_label mem eom size n cp out)
unfolding copy_label
copy_label-CopyGood mem eom size zero cp out h = record {
  moved = omega arith;
  within = λ z. omega arith;
  room = λ z. omega arith;
}
copy_label-CopyGood mem eom size (suc n) cp out h = elim (Option-cases (get_elem? mem cp)) [
  | inl e ↦ ground (arith, get_elem?-lt mem cp)
  | inr (c, e) ↦ ground (
    arith,
    copy_label-CopyGood mem eom size n (cp + 1) (out ++ (b'\\' ∷ (c ∷ []))),
    copy_label-CopyGood mem eom size n (cp + 1) (out ++ (c ∷ [])),
    length-append out (b'\\' ∷ (c ∷ [])),
    length-append out (c ∷ []),
  )
]

mul_mono : (a b m : ℕ) → a ≤ b → a * m ≤ b * m
mul_mono a b m h = grind arith

-- The call ends, stays within its bounds, and returns a text with room for its 0 in `size` bytes.
abbrev pub IsSafe : ℕ → Parse (ℕ × List ℕ) → Type 0
IsSafe size (ok (len, out)) = length out < size
IsSafe size bad = Unit
IsSafe size oob = ⊥
IsSafe size stuck = ⊥

module _ (mem : List ℕ) (eom comp_dn size : ℕ) (readable : eom < length mem) where
  abbrev LabelGood : ℕ → ℕ → Parse (ℕ × List ℕ) → Type 0
  LabelGood n cp (ok (cp', out')) = (cp' ≡ cp + n) × (0 < n → cp' < eom) × (length out' < size)
  LabelGood n cp bad = Unit
  LabelGood n cp oob = length mem ≤ cp
  LabelGood n cp stuck = ⊥

  label_step-LabelGood :
      (n cp : ℕ) (out : List ℕ) → LabelGood n cp (label_step mem eom comp_dn size n cp out)
  unfolding label_step
  label_step-LabelGood n cp out =
      ground (arith, copy_label-CopyGood mem eom size n cp (dotted out) (omega arith))

  abbrev PointerGood : ℕ → ℕ → Parse ℕ → Type 0
  PointerGood cp checked (ok t) = (t < eom) × (checked + 2 < eom)
  PointerGood cp checked bad = Unit
  PointerGood cp checked oob = length mem ≤ cp
  PointerGood cp checked stuck = ⊥

  pointer_step-PointerGood :
      (n cp checked : ℕ) → PointerGood cp checked (pointer_step mem eom comp_dn size n cp checked)
  unfolding pointer_step
  pointer_step-PointerGood n cp checked = ground (arith, get_elem?-lt mem cp)

  -- What is left of the message's size to be checked, and of the message to be read.
  abbrev measure : ℕ → ℕ → ℕ
  measure cp checked = (eom - checked) * (eom + 1) + (eom - cp)

  measure_label :
      (n cp cp' checked : ℕ)
      → cp < cp'
      → cp' < eom
      → measure cp' (checked + n + 1) < measure cp checked
  measure_label n cp cp' checked h k =
      omega (arith, mul_mono (eom - (checked + n + 1)) (eom - checked) (eom + 1) (omega arith))

  measure_pointer :
      (cp t checked : ℕ) → checked + 2 < eom → measure t (checked + 2) < measure cp checked
  measure_pointer cp t checked h =
      let left : eom - checked ≡ eom - (checked + 2) + 2 = omega arith in
      omega (arith, ap (λ (u : ℕ). u * (eom + 1)) left)

  read_then :
      (p : ℕ) (k : ℕ → Parse (ℕ × List ℕ))
      → p < length mem
      → ((b : ℕ) → IsSafe size (k b))
      → IsSafe size (at_byte mem p k)
  read_then p k lt good = elim (Option-cases (get_elem? mem p)) [
    | inl e ↦ absurd (omega (arith, get_elem?-lt mem p e))
    | inr (b, e) ↦ rw (e, at_byte, IsSafe) (good b)
  ]

  if_then :
      (b : Bool) (x y : Parse (ℕ × List ℕ))
      → (b ≡ true → IsSafe size x)
      → (b ≡ false → IsSafe size y)
      → IsSafe size (if b then x else y)
  if_then true x y f g = f refl
  if_then false x y f g = g refl

  label_then :
      (n cp : ℕ) (p : Parse (ℕ × List ℕ)) (k : ℕ → List ℕ → Parse (ℕ × List ℕ))
      → LabelGood n cp p
      → cp < length mem
      → ((cp' : ℕ) (out' : List ℕ)
          → cp' ≡ cp + n
          → (0 < n → cp' < eom)
          → length out' < size
          → IsSafe size (k cp' out'))
      → IsSafe size (elim p [ ok (cp', out') ↦ k cp' out' | bad ↦ bad | oob ↦ oob | stuck ↦ stuck ])
  label_then n cp (ok (cp', out')) k h lt f = f cp' out' h.0 h.1 h.2
  label_then n cp bad k h lt f = tt
  label_then n cp oob k h lt f = omega arith
  label_then n cp stuck k h lt f = h

  pointer_then :
      (cp checked : ℕ) (p : Parse ℕ) (k : ℕ → Parse (ℕ × List ℕ))
      → PointerGood cp checked p
      → cp < length mem
      → ((t : ℕ) → t < eom → checked + 2 < eom → IsSafe size (k t))
      → IsSafe size (elim p [ ok t ↦ k t | bad ↦ bad | oob ↦ oob | stuck ↦ stuck ])
  pointer_then cp checked (ok t) k h lt f = f t h.0 h.1
  pointer_then cp checked bad k h lt f = tt
  pointer_then cp checked oob k h lt f = omega arith
  pointer_then cp checked stuck k h lt f = h

  expand_loop-IsSafe :
      (fuel cp : ℕ) (out : List ℕ) (checked : ℕ) (len : Option ℕ)
      → cp < eom
      → length out < size
      → measure cp checked < fuel
      → IsSafe size (expand_loop mem eom comp_dn size fuel cp out checked len)
  unfolding expand_loop
  expand_loop-IsSafe zero cp out checked len lt room m = absurd (omega arith)
  expand_loop-IsSafe (suc fuel) cp out checked len lt room m = read_then cp _ (omega arith) (λ n.
      if_then (n == 0) _ _
        (λ _.
          if_then (leb size (length out)) _ _ (λ e. ground arith)
            (λ _. if_then (has_space out) _ _ (λ _. tt) (λ _. room)))
        (λ z.
          if_then (kind n == 0) _ _
            (λ _.
              label_then n (cp + 1) (label_step mem eom comp_dn size n (cp + 1) out) _
                (label_step-LabelGood n (cp + 1) out) (omega arith)
                (λ cp' out' e w r.
                  let step : cp < cp' = omega arith in
                  let inside : cp' < eom = w (ground arith) in
                  expand_loop-IsSafe fuel cp' out' (checked + n + 1) len inside r
                    (omega (arith, measure_label n cp cp' checked step inside))))
            (λ _.
              if_then (kind n == 3) _ _
                (λ _.
                  pointer_then (cp + 1) checked
                    (pointer_step mem eom comp_dn size n (cp + 1) checked) _
                    (pointer_step-PointerGood n (cp + 1) checked) (omega arith)
                    (λ t u v.
                      expand_loop-IsSafe fuel t out (checked + 2) _ u room
                        (omega (arith, measure_pointer cp t checked v))))
                (λ _. tt))))

  -- If the name starts within the message, the buffer is not empty, and the memory holds at least
  -- one byte behind the message: `dn_expand` ends, reads and writes nothing beyond the memory and
  -- the buffer, and a text that it returns fits the buffer with its terminating 0.
  pub dn_expand-IsSafe : comp_dn < eom → 0 < size → IsSafe size (dn_expand mem eom comp_dn size)
  unfolding dn_expand
  dn_expand-IsSafe start room =
      expand_loop-IsSafe (expand_fuel mem eom comp_dn size) comp_dn [] 0 none start room fuel_enough
    where
      fuel_enough : measure comp_dn 0 < (eom + 1) * (eom + 1) + 1
      fuel_enough =
          let whole : eom - 0 ≡ eom = omega arith in
          omega (arith, ap (λ (u : ℕ). u * (eom + 1)) whole)

expand_cut :
    (mem : List ℕ) (fuel comp_dn size n : ℕ)
    → comp_dn + 1 ≡ length mem
    → get_elem? mem comp_dn ≡ some n
    → kind n ≡ 3
    → expand_loop mem (length mem) comp_dn size (suc fuel) comp_dn [] 0 none ≡ oob
unfolding expand_loop
expand_cut mem fuel comp_dn size n e h k =
    ground (arith, get_elem?-none mem (comp_dn + 1) (omega arith))

-- A name whose pointer is cut off by the end of the message: `dn_expand` reads the byte behind it.
pub dn_expand_cut :
    (mem : List ℕ) (comp_dn size n : ℕ)
    → comp_dn + 1 ≡ length mem
    → get_elem? mem comp_dn ≡ some n
    → kind n ≡ 3
    → dn_expand mem (length mem) comp_dn size ≡ oob
unfolding dn_expand
dn_expand_cut mem comp_dn size n e h k =
    let fuel : expand_fuel mem (length mem) comp_dn size
        ≡ suc ((length mem + 1) * (length mem + 1)) =
      omega arith in
    rw fuel (expand_cut mem _ comp_dn size n e h k)
