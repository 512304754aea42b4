-- ===== src/Config/Profile/Lookup.antt =====
-- The files of `GetPrivateProfileString` of src/ini.c as sections of keys with values, and what is
-- found in them.
use libsocket.Base.{
  ℕ, zero, suc, ◌-◌, ◌≤◌, ◌<◌, Bool, true, false, ◌||◌, ◌==◌, Option, none, some, List, [], ◌∷◌,
  ◌++◌, length, ◌≡◌, refl, ap, ◌∙◌, arith, if◌then◌else◌, length-take,
}
use libsocket.IfIndex.{same_name}
use libsocket.Config.Profile.{
  trim_end, stored, skipped, section, entry, read_line, find_key, copied, default_text, answer,
  get_private_profile_string,
}
use libsocket.Config.Profile.Shapes.{
  AreSpaces, EndsText, HasNoEquals, StartsKey, IsValue, trim_end-text, read_line-comment,
  read_line-section, read_line-entry,
}

-- The file of the lines `bufs` has the entries `es`, which belong to a section that began before,
-- and the sections `ss`. White space may stand at both ends of a line and around the equals sign,
-- and comments anywhere; a line of white space alone, on which the code runs out of its buffer, not.
pub data Shows
    : List (List ℕ) → List (List ℕ × List ℕ) → List (List ℕ × List (List ℕ × List ℕ)) → Type 0 where
  at_end : Shows [] [] []
  comment :
      (s : List ℕ) (c : ℕ) (cs : List ℕ) {bufs : List (List ℕ)} {es : List (List ℕ × List ℕ)}
      {ss : List (List ℕ × List (List ℕ × List ℕ))}
      → AreSpaces s
      → (c == b';' || c == b'#') ≡ true
      → Shows bufs es ss
      → Shows ((s ++ (c ∷ cs)) ∷ bufs) es ss
  header :
      (s name e : List ℕ) {bufs : List (List ℕ)} {es : List (List ℕ × List ℕ)}
      {ss : List (List ℕ × List (List ℕ × List ℕ))}
      → AreSpaces s
      → AreSpaces e
      → Shows bufs es ss
      → Shows ((s ++ ((b'[' ∷ (name ++ (b']' ∷ []))) ++ e)) ∷ bufs) [] ((name, es) ∷ ss)
  setting :
      (s k left right v e : List ℕ) {bufs : List (List ℕ)} {es : List (List ℕ × List ℕ)}
      {ss : List (List ℕ × List (List ℕ × List ℕ))}
      → AreSpaces s
      → StartsKey k
      → EndsText k
      → HasNoEquals k
      → AreSpaces left
      → AreSpaces right
      → IsValue v
      → AreSpaces e
      → Shows bufs es ss
      → Shows ((s ++ (((k ++ left) ++ (b'=' ∷ (right ++ v))) ++ e)) ∷ bufs) ((k, v) ∷ es) ss

-- The first value of a key among entries, and the first in the sections of a name.
abbrev pub or_else : Option (List ℕ) → Option (List ℕ) → Option (List ℕ)
or_else (some v) o = some v
or_else none o = o

abbrev pub value_of : List ℕ → List (List ℕ × List ℕ) → Option (List ℕ)
value_of key [] = none
value_of key ((k, v) ∷ es) = if same_name key k then some v else value_of key es

abbrev pub lookup : List ℕ → List ℕ → List (List ℕ × List (List ℕ × List ℕ)) → Option (List ℕ)
lookup app key [] = none
lookup app key ((name, es) ∷ ss) =
    or_else (if same_name name app then value_of key es else none) (lookup app key ss)

-- One line of the loop.
module _ (app key : List ℕ) (inside : Bool) (buf : List ℕ) (bufs : List (List ℕ)) where
  find_key-skipped :
      read_line buf ≡ some skipped
      → find_key app key inside (buf ∷ bufs) ≡ find_key app key inside bufs
  unfolding find_key
  find_key-skipped e = rw (e, find_key) refl

  find_key-section :
      (name : List ℕ)
      → read_line buf ≡ some (section name)
      → find_key app key inside (buf ∷ bufs) ≡ find_key app key (same_name name app) bufs
  unfolding find_key
  find_key-section name e = rw (e, find_key) refl

-- What an entry of the key `k` decides: its value, where the line is within the section.
abbrev decided : Bool → Bool → List ℕ → Option (Option (List ℕ)) → Option (Option (List ℕ))
decided true true v rest = some (some v)
decided true false v rest = rest
decided false same v rest = rest

same_decides :
    (same : Bool) (v : List ℕ) (rest : Option (Option (List ℕ)))
    → (elim same [ true ↦ some (some v) | false ↦ rest ]) ≡ decided true same v rest
same_decides true v rest = refl
same_decides false v rest = refl

find_key-entry :
    (app key : List ℕ) (inside : Bool) (buf : List ℕ) (bufs : List (List ℕ)) (raw k v : List ℕ)
    → read_line buf ≡ some (entry raw v)
    → trim_end raw ≡ some k
    → find_key app key inside (buf ∷ bufs)
      ≡ decided inside (same_name key k) v (find_key app key inside bufs)
unfolding find_key
find_key-entry app key true buf bufs raw k v e f =
    rw (e, f, find_key) (same_decides (same_name key k) v _)
find_key-entry app key false buf bufs raw k v e f = rw (e, find_key) refl

find_key-nil : (app key : List ℕ) (inside : Bool) → find_key app key inside [] ≡ some none
unfolding find_key
find_key-nil app key inside = refl

decided-or :
    (inside same : Bool) (v : List ℕ) (rest found : Option (List ℕ))
    → decided inside same v (some (or_else (if inside then rest else none) found))
      ≡ some (or_else (if inside then (if same then some v else rest) else none) found)
decided-or true true v rest found = refl
decided-or true false v rest found = refl
decided-or false same v rest found = refl

none_inside :
    (b : Bool) (found : Option (List ℕ)) → found ≡ or_else (if b then none else none) found
none_inside true found = refl
none_inside false found = refl

-- The loop finds what the sections have.
find_key-Shows :
    (app key : List ℕ) (inside : Bool) {bufs : List (List ℕ)} {es : List (List ℕ × List ℕ)}
    {ss : List (List ℕ × List (List ℕ × List ℕ))}
    → Shows bufs es ss
    → find_key app key inside bufs
      ≡ some (or_else (if inside then value_of key es else none) (lookup app key ss))
find_key-Shows app key inside at_end =
    find_key-nil app key inside ∙ ap some (none_inside inside none)
find_key-Shows app key inside (comment s c cs h e more) =
    find_key-skipped app key inside (s ++ (c ∷ cs)) _ (read_line-comment s c cs h e)
    ∙ find_key-Shows app key inside more
find_key-Shows app key inside (header s name e hs he more) =
    find_key-section app key inside _ _ name (read_line-section s name e hs he)
    ∙ find_key-Shows app key (same_name name app) more
    ∙ ap some (none_inside inside _)
find_key-Shows app key inside (setting s k left right v e hs starts ends bare hl hr value he more) =
    find_key-entry app key inside _ _ (k ++ left) k v
      (read_line-entry s k left right v e hs starts ends bare hl hr value he)
      (trim_end-text k left ends hl)
    ∙ ap (decided inside (same_name key k) v) (find_key-Shows app key inside more)
    ∙ decided-or inside (same_name key k) v _ _

abbrev pub or_default : Option (List ℕ) → Option (List ℕ) → List ℕ
or_default none deflt = default_text deflt
or_default (some v) deflt = v

stored-or :
    (o deflt : Option (List ℕ)) (destsize : ℕ)
    → stored deflt destsize (some o) ≡ some (answer destsize (or_default o deflt))
stored-or none deflt destsize = refl
stored-or (some v) deflt destsize = refl

-- For a file of sections, whatever its white space within the lines and its comments,
-- `GetPrivateProfileString` with a buffer of a byte at least stores the value of the key in the
-- first section of that name that has it, or else the default, cut to the buffer, and its result is
-- the length of what is stored.
pub get_private_profile_string-lookup :
    (app key : List ℕ) (deflt : Option (List ℕ)) (dest : List ℕ) (destsize : ℕ)
    {bufs : List (List ℕ)} {es : List (List ℕ × List ℕ)}
    {ss : List (List ℕ × List (List ℕ × List ℕ))}
    → 1 ≤ destsize
    → Shows bufs es ss
    → get_private_profile_string (some app) (some key) deflt dest destsize (some bufs)
      ≡ some (answer destsize (or_default (lookup app key ss) deflt))
unfolding get_private_profile_string
get_private_profile_string-lookup app key deflt dest zero room h = absurd (omega arith)
get_private_profile_string-lookup app key deflt dest (suc n) {ss} room h =
    ap (stored deflt (suc n)) (find_key-Shows app key false h)
    ∙ stored-or (lookup app key ss) deflt (suc n)

pub length-copied : (size : ℕ) (t : List ℕ) → 1 ≤ size → length (copied size t) < size
length-copied size t h = ground (arith, length-take (size - 1) t)
