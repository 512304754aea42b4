-- ===== src/Dns/Compress/RoundTrip.antt =====
-- `dn_expand` of src/inet/r_comp.c on the bytes of a name, behind `dn_comp`.
use libsocket.Base.{
  ℕ, zero, suc, ◌+◌, ◌-◌, ◌*◌, ◌≤◌, ◌<◌, Bool, true, false, ◌&&◌, ◌==◌, leb, ltb, if◌then◌else◌,
  none, some, List, [], ◌∷◌, ◌++◌, length, drop, get_elem?, ◌≡◌, refl, ap, sym, ◌∙◌, arith,
  append_assoc, append-nil, length-append, Bool-cases, inl, inr,
}
use libsocket.Unix.Stream.Lists.{drop-drop, drop-append}
use libsocket.Dns.Compress.{dn_comp, is_empty}
use libsocket.Dns.Compress.Wire.{
  escape, print, wire, IsName, escape-not_empty, length-escape, behind_label, print-cons,
  dn_comp-wire,
}
use libsocket.Dns.Expand.{
  Parse, ok, bad, oob, stuck, needs_escape, copy_label, has_space, dotted, no_room_for_dot,
  label_step, expand_loop, dn_expand, kind, at_byte,
}

suc-add_one : (n : ℕ) → suc n + 1 ≡ suc (n + 1)
suc-add_one n = omega arith

-- The byte at an offset, and what is behind it.
get_elem?-drop :
    (mem : List ℕ) (cp b : ℕ) (rest : List ℕ)
    → drop cp mem ≡ b ∷ rest
    → (get_elem? mem cp ≡ some b) × (drop (cp + 1) mem ≡ rest)
get_elem?-drop [] zero b rest h = absurd (ground arith)
get_elem?-drop [] (suc cp) b rest h = absurd (ground arith)
get_elem?-drop (x ∷ xs) zero b rest h = (cc, ground arith)
get_elem?-drop (x ∷ xs) (suc cp) b rest h =
    let (here, more) = get_elem?-drop xs cp b rest h in
    (here, ap (λ n. drop n (x ∷ xs)) (suc-add_one cp) ∙ more)

ltb-false : (a b : ℕ) → b ≤ a → ltb a b ≡ false
ltb-false a b h = ground arith

leb-false : (a b : ℕ) → b < a → leb a b ≡ false
leb-false a b h = ground arith

byte-step :
    {A : Type 0} (mem : List ℕ) (p b : ℕ) (k : ℕ → Parse A)
    → get_elem? mem p ≡ some b
    → at_byte mem p k ≡ k b
byte-step mem p b k e = rw (e, at_byte) refl

-- Three tests that fail.
three_tests :
    {A : Type 0} (b1 b2 b3 : Bool) (x y z r : Parse A)
    → b1 ≡ false
    → b2 ≡ false
    → b3 ≡ false
    → (if b1 then x else if b2 then y else if b3 then z else r) ≡ r
three_tests b1 b2 b3 x y z r e f g = rw (e, f, g) refl

two_tests :
    {A : Type 0} (b1 b2 : Bool) (x y r : Parse A)
    → b1 ≡ false
    → b2 ≡ false
    → (if b1 then x else if b2 then y else r) ≡ r
two_tests b1 b2 x y r e f = rw (e, f) refl

-- The way to the case of a label.
label_tests :
    {A : Type 0} (b1 b2 : Bool) (x r : Parse A) (o : Parse (ℕ × List ℕ)) (cp : ℕ) (out : List ℕ)
    (k : ℕ → List ℕ → Parse A)
    → b1 ≡ false
    → b2 ≡ true
    → o ≡ ok (cp, out)
    → (if b1
        then x
        else if b2
        then elim o [ ok (c, t) ↦ k c t | bad ↦ bad | oob ↦ oob | stuck ↦ stuck ]
        else r)
      ≡ k cp out
label_tests b1 b2 x r o cp out k e f g = rw (e, f, g) refl

short-kind : (n : ℕ) → n ≤ 63 → (kind n == 0) ≡ true
short-kind n h = let none_above : kind n ≡ 0 = omega arith in ap (λ k. k == 0) none_above

wire-not_empty : (ls : List (List ℕ)) → 1 ≤ length (wire ls)
wire-not_empty [] = omega arith
wire-not_empty (l ∷ ls) = omega arith

-- A character of the label in the result.
abbrev written : ℕ → List ℕ → List ℕ
written c out = if needs_escape c then out ++ (b'\\' ∷ (c ∷ [])) else out ++ (c ∷ [])

length-written :
    (c : ℕ) (out : List ℕ) → length (written c out) ≡ length out + (if needs_escape c then 2 else 1)
length-written c out =
    ground (arith, length-append out (b'\\' ∷ (c ∷ [])), length-append out (c ∷ []))

written-escape : (c : ℕ) (cs out : List ℕ) → written c out ++ escape cs ≡ out ++ escape (c ∷ cs)
written-escape c cs out = elim (Bool-cases (needs_escape c)) [
  | inl e ↦ rw e (append_assoc out (b'\\' ∷ (c ∷ [])) (escape cs))
  | inr e ↦ rw e (append_assoc out (c ∷ []) (escape cs))
]

length-escape_cons :
    (c : ℕ) (cs : List ℕ)
    → length (escape (c ∷ cs)) ≡ (if needs_escape c then 2 else 1) + length (escape cs)
length-escape_cons c cs = ground arith

tight_escape :
    (c n size total : ℕ)
    → total + (if needs_escape c then 2 else 1) + n < size
    → (needs_escape c && leb size (total + n + 2)) ≡ false
tight_escape c n size total h = ground arith

-- The bytes of a label are stored as its text.
copy_label-escape :
    (mem : List ℕ) (eom size cp : ℕ) (l rest out : List ℕ)
    → drop cp mem ≡ l ++ rest
    → length out + length (escape l) < size
    → cp + length l < eom
    → copy_label mem eom size (length l) cp out ≡ ok (cp + length l, out ++ escape l)
unfolding copy_label
copy_label-escape mem eom size cp [] rest out h room inside =
    ap (λ n. ok (n, out)) (omega arith) ∙ ap (λ t. ok (cp + 0, t)) (sym (append-nil out))
copy_label-escape mem eom size cp (c ∷ cs) rest out h room inside =
    let (here, more) = get_elem?-drop mem cp c (cs ++ rest) h in
    let grown = length-written c out in
    let text = length-escape_cons c cs in
    let least = length-escape cs in
    byte-step mem cp c _ here
    ∙ three_tests (needs_escape c && leb size (length out + length cs + 2))
        (ltb size (length (written c out))) (leb eom (cp + 1)) _ _ _ _
        (tight_escape c (length cs) size (length out) (omega (arith, text, least, room)))
        (ltb-false size (length (written c out)) (omega (arith, grown, text, room)))
        (leb-false eom (cp + 1) (omega (arith, inside)))
    ∙ copy_label-escape mem eom size (cp + 1) cs rest (written c out) more
        (omega (arith, grown, text, room)) (omega (arith, inside))
    ∙ ap (λ n. ok (n, written c out ++ escape cs)) (omega arith)
    ∙ ap (λ t. ok (cp + suc (length cs), t)) (written-escape c cs out)

-- The text behind the labels, and what was there before.
abbrev extend : List ℕ → List (List ℕ) → List ℕ
extend out [] = out
extend out (l ∷ ls) = extend (dotted out ++ escape l) ls

length-dotted : (out : List ℕ) → length out ≤ length (dotted out)
length-dotted [] = omega arith
length-dotted (c ∷ cs) = omega (arith, length-append (c ∷ cs) (b'.' ∷ []))

dot-fits : (out : List ℕ) (size : ℕ) → length (dotted out) ≤ size → no_room_for_dot out size ≡ false
dot-fits [] size h = refl
dot-fits (c ∷ cs) size h =
    leb-false size (length (c ∷ cs)) (omega (arith, length-append (c ∷ cs) (b'.' ∷ []), h))

length-extend : (ls : List (List ℕ)) (out : List ℕ) → length out ≤ length (extend out ls)
length-extend [] out = omega arith
length-extend (l ∷ ls) out = omega (
  arith,
  length-dotted out,
  length-append (dotted out) (escape l),
  length-extend ls (dotted out ++ escape l),
)

module _ (mem : List ℕ) (eom comp_dn size : ℕ) where
  label_step-escape :
      (cp : ℕ) (l rest out : List ℕ)
      → drop cp mem ≡ l ++ rest
      → length (dotted out ++ escape l) < size
      → cp + length l < eom
      → label_step mem eom comp_dn size (length l) cp out
        ≡ ok (cp + length l, dotted out ++ escape l)
  unfolding label_step
  label_step-escape cp l rest out h room inside =
      let total = length-append (dotted out) (escape l) in
      two_tests (no_room_for_dot out size) (leb size (length (dotted out) + length l)) _ _ _
        (dot-fits out size (omega (arith, total, room)))
        (leb-false size (length (dotted out) + length l)
          (omega (arith, total, room, length-escape l)))
      ∙ copy_label-escape mem eom size cp l rest (dotted out) h (omega (arith, total, room)) inside

  expand_loop-wire :
      (fuel cp : ℕ) (ls : List (List ℕ)) (rest out : List ℕ) (checked : ℕ)
      → IsName ls
      → drop cp mem ≡ wire ls ++ rest
      → length ls < fuel
      → length (extend out ls) < size
      → cp + length (wire ls) ≤ eom
      → has_space (extend out ls) ≡ false
      → expand_loop mem eom comp_dn size fuel cp out checked none
        ≡ ok (cp + length (wire ls) - comp_dn, extend out ls)
  unfolding expand_loop label_step copy_label
  expand_loop-wire zero cp ls rest out checked name h enough room inside clean =
      absurd (omega arith)
  expand_loop-wire (suc fuel) cp [] rest out checked name h enough room inside clean =
      let (here, more) = get_elem?-drop mem cp 0 rest h in
      byte-step mem cp 0 _ here
      ∙ two_tests (leb size (length out)) (has_space out) _ _ _ (leb-false size (length out) room)
          clean
  expand_loop-wire (suc fuel) cp (l ∷ ls) rest out checked (low, high, chars, name) h enough room
        inside clean =
      let total = length-append l (wire ls) in
      let (here, more) =
        get_elem?-drop mem cp (length l) (l ++ (wire ls ++ rest))
          (h ∙ ap (λ t. length l ∷ t) (append_assoc l (wire ls) rest)) in
      let behind =
        sym (drop-drop mem (cp + 1) (length l) (cp + 1 + length l) refl)
        ∙ ap (λ t. drop (length l) t) more
        ∙ drop-append l (wire ls ++ rest) in
      byte-step mem cp (length l) _ here
      ∙ label_tests (length l == 0) (kind (length l) == 0) _ _
          (label_step mem eom comp_dn size (length l) (cp + 1) out) (cp + 1 + length l)
          (dotted out ++ escape l)
          (λ c t. expand_loop mem eom comp_dn size fuel c t (checked + length l + 1) none)
          (ground arith) (short-kind (length l) high)
          (label_step-escape (cp + 1) l (wire ls ++ rest) out more
            (omega (arith, length-extend ls (dotted out ++ escape l), room))
            (omega (arith, total, wire-not_empty ls, inside)))
      ∙ expand_loop-wire fuel (cp + 1 + length l) ls rest (dotted out ++ escape l)
          (checked + length l + 1) name behind (omega arith) room (omega (arith, total, inside))
          clean
      ∙ ap (λ n. ok (n - comp_dn, extend out (l ∷ ls))) (omega (arith, total))

-- The text of the labels is `print`.
extend-behind :
    (ls : List (List ℕ)) (out : List ℕ)
    → is_empty out ≡ false
    → IsName ls
    → extend out ls ≡ out ++ behind_label ls
extend-behind [] out e name = sym (append-nil out)
extend-behind (l ∷ ls) [] e name = cc
extend-behind (l ∷ ls) (c ∷ cs) e (low, high, chars, name) =
    extend-behind ls (dotted (c ∷ cs) ++ escape l) refl name
    ∙ append_assoc (dotted (c ∷ cs)) (escape l) (behind_label ls)
    ∙ append_assoc (c ∷ cs) (b'.' ∷ []) (escape l ++ behind_label ls)
    ∙ ap (λ t. (c ∷ cs) ++ (b'.' ∷ t)) (sym (print-cons l ls))

extend-print : (ls : List (List ℕ)) → IsName ls → extend [] ls ≡ print ls
extend-print [] name = refl
extend-print (l ∷ ls) (low, high, chars, name) =
    extend-behind ls (escape l)
      (ap is_empty (sym (append-nil (escape l))) ∙ escape-not_empty l [] low) name
    ∙ sym (print-cons l ls)

length-wire : (ls : List (List ℕ)) → length ls < length (wire ls)
length-wire [] = omega arith
length-wire (l ∷ ls) = omega (arith, length-append l (wire ls), length-wire ls)

fuel-enough : (n eom : ℕ) → n ≤ eom → n < (eom + 1) * (eom + 1) + 1
fuel-enough n eom h = let square : eom + 1 ≤ (eom + 1) * (eom + 1) = grind arith in omega arith

-- What `dn_comp` writes for the text of a name, without earlier names and with the room for it,
-- `dn_expand` reads back wherever it stands in a message: the text is the same, and the size is
-- what was written. The labels have 1 to 63 bytes, none of them NUL, the text has no white space,
-- and the buffer has room for it and a NUL.
pub dn_expand-dn_comp :
    (memory pre post : List ℕ) (comp_dn comp_size room find_fuel eom exp_size : ℕ)
    (ls : List (List ℕ))
    → IsName ls
    → length (wire ls) ≤ comp_size
    → has_space (print ls) ≡ false
    → length (print ls) < exp_size
    → length pre + length (wire ls) ≤ eom
    → (out : List ℕ) × (dn_comp memory comp_dn comp_size none room find_fuel (print ls)
        ≡ (ok out, []))
      × (dn_expand (pre ++ (out ++ post)) eom (length pre) exp_size ≡ ok (length out, print ls))
unfolding dn_expand
dn_expand-dn_comp memory pre post comp_dn comp_size room find_fuel eom exp_size ls name fits clean
      space inside =
    let text = extend-print ls name in
    (
      wire ls,
      dn_comp-wire memory comp_dn comp_size room find_fuel ls name fits,
      expand_loop-wire (pre ++ (wire ls ++ post)) eom (length pre) exp_size
            ((eom + 1) * (eom + 1) + 1) (length pre) ls post [] 0 name
            (drop-append pre (wire ls ++ post))
            (fuel-enough (length ls) eom (omega (arith, length-wire ls, inside)))
            (omega (arith, ap (λ t. length t) text, space)) inside (ap has_space text ∙ clean)
          ∙ ap (λ n. ok (n, extend [] ls)) (omega arith)
          ∙ ap (λ t. ok (length (wire ls), t)) text,
    )
