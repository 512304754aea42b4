-- ===== src/Dns/Expand.antt =====
-- `dn_expand` and `__dn_skipname` of src/inet/r_comp.c. Memory is the list of its bytes from the
-- start of the message on, and a pointer into it is an offset.
pub mod Bounds
pub mod Skip
use libsocket.Base.{
  is_space, ℕ, zero, suc, ◌+◌, ◌-◌, ◌*◌, ◌/◌, ◌%◌, Bool, true, false, ◌&&◌, ◌||◌, ◌==◌, leb, ltb,
  if◌then◌else◌, Option, none, some, List, [], ◌∷◌, ◌++◌, length, get_elem?,
}

-- How a function on the message ends: with a result, with -1, or with a read beyond the memory or
-- a write beyond the buffer.
-- `stuck` is no outcome of the code: the loop has run out of fuel.
pub data Parse (A : Type 0) : Type 0 where
  ok : A → Parse A
  bad oob stuck : Parse A

abbrev pub at_byte : {A : Type 0} → List ℕ → ℕ → (ℕ → Parse A) → Parse A
at_byte mem p k = elim (get_elem? mem p) [ none ↦ oob | some b ↦ k b ]

-- The switch on `n & INDIR_MASK`: 0 is a label, 3 a pointer.
abbrev pub kind : ℕ → ℕ
kind n = n / 64

abbrev pub needs_escape : ℕ → Bool
needs_escape c = c == b'.' || c == b'\\'

-- The inner loop over the bytes of a label; `n` are still to come. `out` is what stands in the
-- result's buffer, whose size is `size`; a write beyond it is `oob`. The result is the new `cp` and
-- `out`.
unfoldable pub copy_label : List ℕ → ℕ → ℕ → ℕ → ℕ → List ℕ → Parse (ℕ × List ℕ)
copy_label mem eom size zero cp out = ok (cp, out)
copy_label mem eom size (suc n) cp out = at_byte mem cp (λ c.
    let out' = if needs_escape c then out ++ (b'\\' ∷ (c ∷ [])) else out ++ (c ∷ []) in
    let rest = copy_label mem eom size n (cp + 1) out' in
    if needs_escape c && leb size (length out + n + 2)
    then bad
    else if ltb size (length out')
    then oob
    else if leb eom (cp + 1)
    then bad
    else rest)

-- The last loop: is there white space before the terminating 0?
unfoldable pub has_space : List ℕ → Bool
has_space [] = false
has_space (c ∷ cs) = if c == 0 then false else if is_space c then true else has_space cs

-- A size of the compressed name once it is known (`len`), else none.
abbrev pub len_or : Option ℕ → ℕ → ℕ
len_or none n = n
len_or (some len) n = len

-- The text before a label: a dot, unless it is the first.
abbrev pub dotted : List ℕ → List ℕ
dotted [] = []
dotted (c ∷ cs) = (c ∷ cs) ++ (b'.' ∷ [])

abbrev pub no_room_for_dot : List ℕ → ℕ → Bool
no_room_for_dot [] size = false
no_room_for_dot (c ∷ cs) size = leb size (length (c ∷ cs))

module _ (mem : List ℕ) (eom comp_dn size : ℕ) where
  -- The label of `n` bytes at `cp`, with its dot.
  unfoldable pub label_step : ℕ → ℕ → List ℕ → Parse (ℕ × List ℕ)
  unfolding copy_label
  label_step n cp out =
      if no_room_for_dot out size
      then bad
      else if leb size (length (dotted out) + n)
      then bad
      else copy_label mem eom size n cp (dotted out)

  -- The target of the pointer whose first byte is `n` and whose second stands at `cp`.
  unfoldable pub pointer_step : ℕ → ℕ → ℕ → Parse ℕ
  pointer_step n cp checked = at_byte mem cp (λ b.
      let target = n % 64 * 256 + b in
      if leb eom target then bad else if leb eom (checked + 2) then bad else ok target)

  -- The loop of `dn_expand`. The result is the size of the compressed name, and the text.
  unfoldable pub expand_loop : ℕ → ℕ → List ℕ → ℕ → Option ℕ → Parse (ℕ × List ℕ)
  unfolding label_step pointer_step
  expand_loop zero cp out checked len = stuck
  expand_loop (suc fuel) cp out checked len = at_byte mem cp (λ n.
      if n == 0
      then (if leb size (length out)
          then oob
          else if has_space out
          then bad
          else ok (len_or len (cp + 1 - comp_dn), out))
      else if kind n == 0
      then elim (label_step n (cp + 1) out) [
        | ok (cp', out') ↦ expand_loop fuel cp' out' (checked + n + 1) len
        | bad ↦ bad
        | oob ↦ oob
        | stuck ↦ stuck
      ]
      else if kind n == 3
      then elim (pointer_step n (cp + 1) checked) [
        | ok cp' ↦ expand_loop fuel cp' out (checked + 2) (some (len_or len (cp + 1 - comp_dn + 1)))
        | bad ↦ bad
        | oob ↦ oob
        | stuck ↦ stuck
      ]
      else bad)

  -- Each round goes forward in the message, or jumps and raises `checked`, which stays below the
  -- message's size.
  abbrev pub expand_fuel : ℕ
  expand_fuel = (eom + 1) * (eom + 1) + 1

  unfoldable pub dn_expand : Parse (ℕ × List ℕ)
  unfolding expand_loop
  dn_expand = expand_loop expand_fuel comp_dn [] 0 none

  -- The loop of `__dn_skipname`; the result is the last `cp`.
  unfoldable pub skip_loop : ℕ → ℕ → Parse ℕ
  skip_loop zero cp = stuck
  skip_loop (suc fuel) cp = elim (ltb cp eom) [
    | false ↦ ok cp
    | true ↦ at_byte mem cp (λ n. elim (n == 0) [
      | true ↦ ok (cp + 1)
      | false ↦ elim (kind n == 0) [
        | true ↦ skip_loop fuel (cp + 1 + n)
        | false ↦ if kind n == 3 then ok (cp + 2) else bad
      ]
    ])
  ]

  unfoldable pub dn_skipname : Parse ℕ
  unfolding skip_loop
  dn_skipname = elim (skip_loop (eom - comp_dn + 1) comp_dn) [
    | ok cp ↦ if ltb eom cp then bad else ok (cp - comp_dn)
    | bad ↦ bad
    | oob ↦ oob
    | stuck ↦ stuck
  ]
