-- ===== src/Config/Profile.antt =====
-- `GetPrivateProfileString` of src/ini.c. A file is the list of the texts that `fgets` puts into
-- `buf`, and a text is the list of its characters before the NUL.
pub mod Shapes
pub mod Lookup
use libsocket.Base.{
  is_space, ℕ, zero, suc, ◌+◌, ◌-◌, Bool, true, false, ◌&&◌, ◌||◌, ◌==◌, ltb, if◌then◌else◌, Option,
  none, some, List, [], ◌∷◌, length, take,
}
use libsocket.IfIndex.{same_name}

-- `while (isspace (*line)) line++`.
abbrev pub skip_spaces : List ℕ → List ℕ
skip_spaces [] = []
skip_spaces (c ∷ cs) = if is_space c then skip_spaces cs else c ∷ cs

-- The loops that set trailing white space to NUL. On a text without another character they run out
-- of the front of `buf`: that is none.
abbrev pub trim_end : List ℕ → Option (List ℕ)
trim_end [] = none
trim_end (c ∷ cs) = elim (trim_end cs) [
  | none ↦ if is_space c then none else some (c ∷ [])
  | some t ↦ some (c ∷ t)
]

-- The last character of a text, and the text without it.
abbrev pub last_char : ℕ → List ℕ → ℕ
last_char c [] = c
last_char c (d ∷ ds) = last_char d ds

abbrev pub but_last : List ℕ → List ℕ
but_last [] = []
but_last (c ∷ []) = []
but_last (c ∷ (d ∷ ds)) = c ∷ but_last (d ∷ ds)

-- What stands before and behind the first equals sign.
unfoldable pub split_key : List ℕ → Option (List ℕ × List ℕ)
split_key [] = none
split_key (c ∷ cs) = elim (c == b'=') [
  | true ↦ some ([], cs)
  | false ↦ elim (split_key cs) [ none ↦ none | some (k, v) ↦ some (c ∷ k, v) ]
]

-- What a line is: none that counts, the name of a section, or a key, before its trailing white space
-- is cut, with its value.
pub data Line : Type 0 where
  skipped : Line
  section : List ℕ → Line
  entry : List ℕ → List ℕ → Line

unfoldable pub read_trimmed : List ℕ → Line
unfolding split_key
read_trimmed [] = skipped
read_trimmed (c ∷ cs) = elim (c == b'[' && last_char c cs == b']') [
  | true ↦ section (but_last cs)
  | false ↦ elim (split_key (c ∷ cs)) [ none ↦ skipped | some (k, v) ↦ entry k (skip_spaces v) ]
]

-- `none` is a read before the front of `buf`, as on a line of white space alone.
unfoldable pub read_line : List ℕ → Option Line
unfolding read_trimmed
read_line buf = elim (skip_spaces buf) [
  | [] ↦ none
  | c ∷ cs ↦ elim (c == b';' || c == b'#') [
    | true ↦ some skipped
    | false ↦ elim (trim_end (c ∷ cs)) [ none ↦ none | some line ↦ some (read_trimmed line) ]
  ]
]

-- The loop over the lines; the flag is `in_section`. The result is the value that is copied, none
-- where no line has the key; the whole is none where a line or a key within the section is blank.
unfoldable pub find_key : List ℕ → List ℕ → Bool → List (List ℕ) → Option (Option (List ℕ))
unfolding read_line
find_key appname keyname in_section [] = some none
find_key appname keyname in_section (buf ∷ bufs) = elim (read_line buf) [
  | none ↦ none
  | some skipped ↦ find_key appname keyname in_section bufs
  | some (section name) ↦ find_key appname keyname (same_name name appname) bufs
  | some (entry key value) ↦ elim in_section [
    | false ↦ find_key appname keyname false bufs
    | true ↦ elim (trim_end key) [
      | none ↦ none
      | some name ↦ elim (same_name keyname name) [
        | true ↦ some (some value)
        | false ↦ find_key appname keyname true bufs
      ]
    ]
  ]
]

-- A text in a buffer of `destsize` bytes, of which there is one at least.
abbrev pub copied : ℕ → List ℕ → List ℕ
copied destsize text = if ltb destsize (length text + 1) then take (destsize - 1) text else text

abbrev pub default_text : Option (List ℕ) → List ℕ
default_text none = []
default_text (some deflt) = deflt

-- A text in the buffer, with its length as the result.
abbrev pub answer : ℕ → List ℕ → ℕ × List ℕ
answer destsize text = (length (copied destsize text), copied destsize text)

-- What is stored of the outcome of the loop.
abbrev pub stored : Option (List ℕ) → ℕ → Option (Option (List ℕ)) → Option (ℕ × List ℕ)
stored deflt destsize none = none
stored deflt destsize (some none) = some (answer destsize (default_text deflt))
stored deflt destsize (some (some value)) = some (answer destsize value)

-- The result, and the text in the buffer, which was `dest`. The file is none where `fopen` fails.
-- The whole is none where the code leaves its buffers: on a blank line, and on a `dest` without a
-- byte, for which `strncpy` gets the size -1.
unfoldable pub get_private_profile_string :
    Option (List ℕ)
    → Option (List ℕ)
    → Option (List ℕ)
    → List ℕ
    → ℕ
    → Option (List (List ℕ))
    → Option (ℕ × List ℕ)
unfolding find_key
get_private_profile_string none keyname deflt dest destsize file = some (0, dest)
get_private_profile_string (some app) none deflt dest destsize file = some (0, dest)
get_private_profile_string (some app) (some key) deflt dest zero file = none
get_private_profile_string (some app) (some key) deflt dest (suc n) none =
    some (0, copied (suc n) (default_text deflt))
get_private_profile_string (some app) (some key) deflt dest (suc n) (some bufs) =
    stored deflt (suc n) (find_key app key false bufs)
