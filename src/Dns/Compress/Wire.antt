-- ===== src/Dns/Compress/Wire.antt =====
-- Names as lists of labels: their text and their bytes, and what `dn_comp` of src/inet/r_comp.c does
-- with the text.
use libsocket.Base.{
  ℕ, zero, suc, ◌+◌, ◌-◌, ◌≤◌, ◌<◌, false, ◌==◌, leb, ltb, if◌then◌else◌, none, List, [], ◌∷◌, ◌++◌,
  length, ◌≡◌, refl, ap, sym, ◌∙◌, arith, append_assoc, append-nil, length-append, Bool-cases, inl,
  inr,
}
use libsocket.Dns.Expand.{ok, needs_escape}
use libsocket.Dns.Compress.{copy_chars, comp_loop, finish_name, search_name, dn_comp, is_empty}

-- The text of a label: dots and backslashes have a backslash before them.
abbrev pub escape : List ℕ → List ℕ
escape [] = []
escape (c ∷ cs) = if needs_escape c then b'\\' ∷ (c ∷ escape cs) else c ∷ escape cs

abbrev pub print : List (List ℕ) → List ℕ
print [] = []
print (l ∷ []) = escape l
print (l ∷ (m ∷ ls)) = escape l ++ (b'.' ∷ print (m ∷ ls))

-- The bytes of a name, each label behind its length, and a 0.
abbrev pub wire : List (List ℕ) → List ℕ
wire [] = 0 ∷ []
wire (l ∷ ls) = length l ∷ (l ++ wire ls)

-- Bytes that are not the NUL of a string.
abbrev pub AreChars : List ℕ → Type 0
AreChars [] = Unit
AreChars (c ∷ cs) = (1 ≤ c) × (c ≤ 255) × AreChars cs

abbrev pub IsName : List (List ℕ) → Type 0
IsName [] = Unit
IsName (l ∷ ls) = (1 ≤ length l) × (length l ≤ 63) × AreChars l × IsName ls

-- A character that has no meaning of its own, and one behind a backslash.
copy_chars-plain :
    (c : ℕ) (cs acc : List ℕ) (room : ℕ)
    → 1 ≤ room
    → needs_escape c ≡ false
    → copy_chars false room (c ∷ cs) acc ≡ copy_chars false (room - 1) cs (acc ++ (c ∷ []))
unfolding copy_chars
copy_chars-plain c cs acc room h e =
    let dot : (c == b'.') ≡ false = ground arith in
    let slash : (c == b'\\') ≡ false = ground arith in
    let some_room : (room == 0) ≡ false = ground arith in
    rw (dot, slash, some_room, copy_chars) refl

copy_chars-escaped :
    (c : ℕ) (cs acc : List ℕ) (room : ℕ)
    → 1 ≤ room
    → copy_chars false room (b'\\' ∷ (c ∷ cs)) acc
      ≡ copy_chars false (room - 1) cs (acc ++ (c ∷ []))
unfolding copy_chars
copy_chars-escaped c cs acc room h =
    let some_room : (room == 0) ≡ false = ground arith in rw (some_room, copy_chars) refl

-- A label's characters are stored as they are.
copy_chars-escape :
    (l tail acc : List ℕ) (room room' : ℕ)
    → room ≡ room' + length l
    → copy_chars false room (escape l ++ tail) acc ≡ copy_chars false room' tail (acc ++ l)
copy_chars-escape [] tail acc room room' h =
    ap (λ n. copy_chars false n tail acc) (omega (arith, h))
    ∙ ap (copy_chars false room' tail) (sym (append-nil acc))
copy_chars-escape (c ∷ cs) tail acc room room' h =
    let rest =
      copy_chars-escape cs tail (acc ++ (c ∷ [])) (room - 1) room' (omega (arith, h))
      ∙ ap (copy_chars false room' tail) (append_assoc acc (c ∷ []) cs) in
    elim (Bool-cases (needs_escape c)) [
      | inl e ↦ rw e (copy_chars-escaped c (escape cs ++ tail) acc room (omega (arith, h)) ∙ rest)
      | inr e ↦ rw e (copy_chars-plain c (escape cs ++ tail) acc room (omega (arith, h)) e ∙ rest)
    ]

pub escape-not_empty : (l tail : List ℕ) → 1 ≤ length l → is_empty (escape l ++ tail) ≡ false
escape-not_empty [] tail h = absurd (omega arith)
escape-not_empty (c ∷ cs) tail h = elim (Bool-cases (needs_escape c)) [
  | inl e ↦ rw e refl
  | inr e ↦ rw e refl
]

label-not_empty : (l : List ℕ) → 1 ≤ length l → is_empty l ≡ false
label-not_empty [] h = absurd (omega arith)
label-not_empty (c ∷ cs) h = refl

-- What stands behind a label.
abbrev pub behind_label : List (List ℕ) → List ℕ
behind_label [] = []
behind_label (l ∷ ls) = b'.' ∷ print (l ∷ ls)

pub print-cons : (l : List ℕ) (ls : List (List ℕ)) → print (l ∷ ls) ≡ escape l ++ behind_label ls
print-cons l [] = sym (append-nil (escape l))
print-cons l (m ∷ ls) = refl

pub length-escape : (l : List ℕ) → length l ≤ length (escape l)
length-escape [] = omega arith
length-escape (c ∷ cs) = ground (arith, length-escape cs)

pub length-print : (ls : List (List ℕ)) → IsName ls → length ls ≤ length (print ls)
length-print [] name = omega arith
length-print (l ∷ []) name = omega (arith, name.0, length-escape l)
length-print (l ∷ (m ∷ ls)) name = omega (
  arith,
  length-escape l,
  length-append (escape l) (b'.' ∷ print (m ∷ ls)),
  length-print (m ∷ ls) name.3,
)

-- The calls without a list of earlier names.
module _ (mem : List ℕ) (comp_dn size room find_fuel : ℕ) where
  copied_label :
      (l : List ℕ) (ls : List (List ℕ)) (n : ℕ)
      → length l ≤ n
      → copy_chars false n (print (l ∷ ls)) [] ≡ ok (l, print ls)
  unfolding copy_chars
  copied_label l [] n h =
      ap (λ t. copy_chars false n t []) (print-cons l [])
      ∙ copy_chars-escape l [] [] n (n - length l) (omega arith)
  copied_label l (m ∷ ls) n h =
      copy_chars-escape l (b'.' ∷ print (m ∷ ls)) [] n (n - length l) (omega arith)

  -- One round over the text of a label.
  comp_loop-label :
      (fuel : ℕ) (text rest label out saved : List ℕ)
      → is_empty text ≡ false
      → copy_chars false (size - (length out + 1)) text [] ≡ ok (label, rest)
      → 1 ≤ length label
      → length label ≤ 63
      → comp_loop mem comp_dn size none room find_fuel (suc fuel) text out saved
        ≡ comp_loop mem comp_dn size none room find_fuel fuel rest
            (out ++ (length label ∷ label))
            saved
  unfolding comp_loop search_name
  comp_loop-label fuel [] rest label out saved e copied low high = cc
  comp_loop-label fuel (c ∷ cs) rest label out saved e copied low high =
      let short : ltb 63 (length label) ≡ false = ground arith in
      rw (copied, label-not_empty label low, short, comp_loop) (rw (label-not_empty label low) refl)

  comp_loop-wire :
      (fuel : ℕ) (ls : List (List ℕ)) (out saved : List ℕ)
      → IsName ls
      → length out + length (wire ls) ≤ size
      → length ls < fuel
      → comp_loop mem comp_dn size none room find_fuel fuel (print ls) out saved
        ≡ (ok (out ++ wire ls), saved)
  unfolding comp_loop finish_name
  comp_loop-wire zero ls out saved name fits enough = absurd (omega arith)
  comp_loop-wire (suc fuel) [] out saved name fits enough =
      let there : leb size (length out) ≡ false = ground arith in rw (there, comp_loop) refl
  comp_loop-wire (suc fuel) (l ∷ ls) out saved (low, high, chars, name) fits enough =
      let rest : length (wire (l ∷ ls)) ≡ 1 + length l + length (wire ls) =
        omega (arith, length-append l (wire ls)) in
      let grown : length (out ++ (length l ∷ l)) ≡ length out + 1 + length l =
        omega (arith, length-append out (length l ∷ l)) in
      comp_loop-label fuel (print (l ∷ ls)) (print ls) l out saved
        (ap is_empty (print-cons l ls) ∙ escape-not_empty l (behind_label ls) low)
        (copied_label l ls (size - (length out + 1)) (omega (arith, rest, fits))) low high
      ∙ comp_loop-wire fuel ls (out ++ (length l ∷ l)) saved name (omega (arith, rest, grown, fits))
          (omega arith)
      ∙ ap (λ t. (ok t, saved)) (append_assoc out (length l ∷ l) (wire ls))

  -- `dn_comp` without a list of earlier names writes the bytes of the name.
  pub dn_comp-wire :
      (ls : List (List ℕ))
      → IsName ls
      → length (wire ls) ≤ size
      → dn_comp mem comp_dn size none room find_fuel (print ls) ≡ (ok (wire ls), [])
  unfolding dn_comp
  dn_comp-wire ls name fits =
      comp_loop-wire (1 + length (print ls)) ls [] [] name (omega (arith, fits))
        (omega (arith, length-print ls name))
