-- ===== src/Dns/Compress.antt =====
-- `dn_comp` and `dn_find` of src/inet/r_comp.c. Memory is the list of its bytes from the start of the
-- message on, a pointer into it is an offset, and a name is its text up to the NUL.
pub mod Wire
pub mod RoundTrip
use Prim.Native.Nat.{bit_or}
use libsocket.Base.{
  ℕ, zero, suc, ◌+◌, ◌-◌, ◌*◌, ◌/◌, ◌%◌, Bool, true, false, not, ◌&&◌, ◌||◌, ◌==◌, leb, ltb,
  if◌then◌else◌, Option, none, some, List, [], ◌∷◌, ◌++◌, length, take, drop, get_elem?,
}
use libsocket.Dns.Expand.{Parse, ok, bad, oob, stuck, at_byte, kind}

-- `mklower`.
unfoldable pub mklower : ℕ → ℕ
mklower ch = if leb 65 ch && leb ch 90 then ch + 32 else ch

-- The inner loop of `dn_find` over the `n` bytes of a label: the rest of the text behind a label
-- that is the same, `none` for `goto next`.
unfoldable pub match_label : List ℕ → ℕ → ℕ → List ℕ → Parse (Option (List ℕ))
unfolding mklower
match_label mem cp zero text = ok (some text)
match_label mem cp (suc n) [] = at_byte mem cp (λ b. if b == 0 then oob else ok none)
match_label mem cp (suc n) (c ∷ cs) = elim (c == b'.') [
  | true ↦ ok none
  | false ↦ at_byte mem cp (λ b. elim (c == b'\\') [
    | true ↦ elim cs [
      | [] ↦ if b == 0 then oob else ok none
      | d ∷ ds ↦ elim (mklower d == mklower b) [
        | true ↦ match_label mem (cp + 1) n ds
        | false ↦ ok none
      ]
    ]
    | false ↦ elim (mklower c == mklower b) [
      | true ↦ match_label mem (cp + 1) n cs
      | false ↦ ok none
    ]
  ])
]

-- The loop over the labels of the name at `cp`: is it the text? The loop has no bound of its own
-- where pointers go in a circle. `bad` is the return with -1.
unfoldable pub match_name : List ℕ → ℕ → ℕ → List ℕ → Parse Bool
unfolding match_label
match_name mem zero cp text = stuck
match_name mem (suc fuel) cp text = at_byte mem cp (λ n. elim (n == 0) [
  | true ↦ elim text [ [] ↦ ok true | c ∷ cs ↦ ok false ]
  | false ↦ elim (kind n == 0) [
    | true ↦ elim (match_label mem (cp + 1) n text) [
      | ok none ↦ ok false
      | ok (some []) ↦ at_byte mem (cp + 1 + n) (λ b. ok (b == 0))
      | ok (some (c ∷ cs)) ↦ elim (c == b'.') [
        | true ↦ match_name mem fuel (cp + 1 + n) cs
        | false ↦ ok false
      ]
      | bad ↦ bad
      | oob ↦ oob
      | stuck ↦ stuck
    ]
    | false ↦ elim (kind n == 3) [
      | true ↦ at_byte mem (cp + 1) (λ b. match_name mem fuel (n % 64 * 256 + b) text)
      | false ↦ bad
    ]
  ]
])

-- `dn_find`: the offset of the first name that is the text.
unfoldable pub dn_find : List ℕ → ℕ → List ℕ → List ℕ → Parse (Option ℕ)
unfolding match_name
dn_find mem fuel text [] = ok none
dn_find mem fuel text (p ∷ ps) = elim (match_name mem fuel p text) [
  | ok true ↦ ok (some p)
  | ok false ↦ dn_find mem fuel text ps
  | bad ↦ ok none
  | oob ↦ oob
  | stuck ↦ stuck
]

-- The loop of `dn_comp` over the characters of a label, of which `acc` are stored and for which
-- there are `room` bytes: the label, and the text behind it. The flag says that a backslash stands
-- before.
unfoldable pub copy_chars : Bool → ℕ → List ℕ → List ℕ → Parse (List ℕ × List ℕ)
copy_chars escaped room [] acc = ok (acc, [])
copy_chars true room (c ∷ cs) acc = elim (room == 0) [
  | true ↦ bad
  | false ↦ copy_chars false (room - 1) cs (acc ++ (c ∷ []))
]
copy_chars false room (c ∷ cs) acc = elim (c == b'.') [
  | true ↦ ok (acc, cs)
  | false ↦ elim (c == b'\\') [
    | true ↦ copy_chars true room cs acc
    | false ↦ elim (room == 0) [
      | true ↦ bad
      | false ↦ copy_chars false (room - 1) cs (acc ++ (c ∷ []))
    ]
  ]
]

-- The pointer to the offset `l`.
abbrev pub pointer_bytes : ℕ → List ℕ
pointer_bytes l = (bit_or (l / 256) 192 % 256) ∷ ((l % 256) ∷ [])

abbrev pub is_empty : List ℕ → Bool
is_empty [] = true
is_empty _ = false

-- What `dn_comp` uses of its arguments: the memory, the offset of `comp_dn`, its size, and the names
-- to search, none where there is no message. `room` says how many pointers the list has room for.
module _ (mem : List ℕ) (comp_dn size : ℕ) (names : Option (List ℕ)) (room find_fuel : ℕ) where
  -- `dn_find` in the memory with what has been written.
  unfoldable pub search_name : List ℕ → List ℕ → Parse (Option ℕ)
  search_name text out = elim names [
    | none ↦ ok none
    | some ps ↦
        dn_find (take comp_dn mem ++ (out ++ drop (comp_dn + length out) mem)) find_fuel text ps
  ]

  -- The pointers that have been saved, with the one to the next label.
  abbrev pub saved_with : List ℕ → List ℕ → List ℕ
  saved_with out saved = elim names [
    | none ↦ saved
    | some ps ↦ if ltb (length saved) room then saved ++ ((comp_dn + length out) ∷ []) else saved
  ]

  -- What the loop does with a label and the text behind it: -1 (`bad`), the name's end, or another
  -- round.
  unfoldable pub finish_name : List ℕ → Parse (List ℕ)
  finish_name out = if leb size (length out) then bad else ok (out ++ (0 ∷ []))

  -- The loop over the labels: what is written, and the pointers that are saved. A failure takes the
  -- saved pointers back, but for a pointer without room.
  unfoldable pub comp_loop : ℕ → List ℕ → List ℕ → List ℕ → Parse (List ℕ) × List ℕ
  comp_loop zero text out saved = (stuck, saved)
  comp_loop (suc fuel) [] out saved = elim (finish_name out) [
    | ok all ↦ (ok all, saved)
    | bad ↦ (bad, [])
    | oob ↦ (oob, saved)
    | stuck ↦ (stuck, saved)
  ]
  comp_loop (suc fuel) (c ∷ cs) out saved = elim (search_name (c ∷ cs) out) [
    | ok (some l) ↦
        if leb size (length out + 1) then (bad, saved) else (ok (out ++ pointer_bytes l), saved)
    | ok none ↦ elim (copy_chars false (size - (length out + 1)) (c ∷ cs) []) [
      | ok (label, rest) ↦ elim (is_empty label && is_empty rest) [
        | true ↦ elim (finish_name out) [
          | ok all ↦ (ok all, saved_with out saved)
          | bad ↦ (bad, [])
          | oob ↦ (oob, saved)
          | stuck ↦ (stuck, saved)
        ]
        | false ↦ elim (is_empty label || ltb 63 (length label)) [
          | true ↦ (bad, [])
          | false ↦ comp_loop fuel rest (out ++ (length label ∷ label)) (saved_with out saved)
        ]
      ]
      | bad ↦ (bad, [])
      | oob ↦ (oob, saved)
      | stuck ↦ (stuck, saved)
    ]
    | bad ↦ (bad, saved)
    | oob ↦ (oob, saved)
    | stuck ↦ (stuck, saved)
  ]

  -- `dn_comp`: every round takes a character at least.
  unfoldable pub dn_comp : List ℕ → Parse (List ℕ) × List ℕ
  unfolding comp_loop
  dn_comp exp_dn = comp_loop (1 + length exp_dn) exp_dn [] []
