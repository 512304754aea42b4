-- ===== src/Config/Profile/Shapes.antt =====
-- What `read_line` of a line of src/ini.c's files is, whatever white space stands in it.
use libsocket.Base.{
  Option, none, is_space, ℕ, true, false, ◌||◌, ◌==◌, some, List, [], ◌∷◌, ◌++◌, ◌≡◌, refl, ap, sym,
  ◌∙◌, arith, append_assoc, append-nil,
}
use libsocket.Config.Profile.{
  skip_spaces, trim_end, last_char, but_last, split_key, skipped, section, entry, read_trimmed,
  read_line,
}

abbrev pub AreSpaces : List ℕ → Type 0
AreSpaces [] = Unit
AreSpaces (c ∷ cs) = (is_space c ≡ true) × AreSpaces cs

AreSpaces-append : (s t : List ℕ) → AreSpaces s → AreSpaces t → AreSpaces (s ++ t)
AreSpaces-append [] t h k = k
AreSpaces-append (c ∷ cs) t (h, hs) k = (h, AreSpaces-append cs t hs k)

-- A text whose last character is no white space.
abbrev pub EndsText : List ℕ → Type 0
EndsText [] = ⊥
EndsText (c ∷ []) = is_space c ≡ false
EndsText (c ∷ (d ∷ ds)) = EndsText (d ∷ ds)

-- One whose first character is none either.
abbrev pub StartsText : List ℕ → Type 0
StartsText [] = ⊥
StartsText (c ∷ cs) = is_space c ≡ false

-- One without an equals sign.
abbrev pub HasNoEquals : List ℕ → Type 0
HasNoEquals [] = Unit
HasNoEquals (c ∷ cs) = ((c == b'=') ≡ false) × HasNoEquals cs

space-not_equals : (c : ℕ) → is_space c ≡ true → (c == b'=') ≡ false
space-not_equals c h = ground arith

HasNoEquals-spaces : (k s : List ℕ) → HasNoEquals k → AreSpaces s → HasNoEquals (k ++ s)
HasNoEquals-spaces [] [] h hs = tt
HasNoEquals-spaces [] (c ∷ cs) h (e, hs) = (space-not_equals c e, HasNoEquals-spaces [] cs h hs)
HasNoEquals-spaces (c ∷ cs) s (e, h) hs = (e, HasNoEquals-spaces cs s h hs)

pub skip_spaces-spaces : (s t : List ℕ) → AreSpaces s → skip_spaces (s ++ t) ≡ skip_spaces t
skip_spaces-spaces [] t h = refl
skip_spaces-spaces (c ∷ cs) t (h, hs) = rw h (skip_spaces-spaces cs t hs)

pub skip_spaces-text : (t : List ℕ) → StartsText t → skip_spaces t ≡ t
skip_spaces-text [] h = refl
skip_spaces-text (c ∷ cs) h = rw h refl

trim_end-spaces : (s : List ℕ) → AreSpaces s → trim_end s ≡ none
trim_end-spaces [] h = refl
trim_end-spaces (c ∷ cs) (h, hs) = rw (trim_end-spaces cs hs, h) refl

-- Trailing white space goes, and nothing else does.
pub trim_end-text : (t s : List ℕ) → EndsText t → AreSpaces s → trim_end (t ++ s) ≡ some t
trim_end-text [] s h hs = absurd h
trim_end-text (c ∷ []) s h hs = rw (trim_end-spaces s hs, h) refl
trim_end-text (c ∷ (d ∷ ds)) s h hs = rw (trim_end-text (d ∷ ds) s h hs) refl

EndsText-append : (t u : List ℕ) → EndsText u → EndsText (t ++ u)
EndsText-append [] u h = h
EndsText-append (c ∷ []) [] h = absurd h
EndsText-append (c ∷ []) (d ∷ ds) h = h
EndsText-append (c ∷ (d ∷ ds)) u h = EndsText-append (d ∷ ds) u h

split_key-text : (k v : List ℕ) → HasNoEquals k → split_key (k ++ (b'=' ∷ v)) ≡ some (k, v)
unfolding split_key
split_key-text [] v h = refl
split_key-text (c ∷ cs) v (h, hs) = rw (h, split_key-text cs v hs, split_key) refl

read_some :
    (o : Option (List ℕ)) (t : List ℕ)
    → o ≡ some t
    → (elim o [ none ↦ none | some line ↦ some (read_trimmed line) ]) ≡ some (read_trimmed t)
read_some o t e = rw e refl

-- A line is what stands between its white space.
read_line-text :
    (s e : List ℕ) (c : ℕ) (cs : List ℕ)
    → AreSpaces s
    → AreSpaces e
    → is_space c ≡ false
    → (c == b';' || c == b'#') ≡ false
    → EndsText (c ∷ cs)
    → read_line (s ++ ((c ∷ cs) ++ e)) ≡ some (read_trimmed (c ∷ cs))
unfolding read_line
read_line-text s e c cs hs he starts plain ends =
    let skipped_start : skip_spaces (s ++ ((c ∷ cs) ++ e)) ≡ (c ∷ cs) ++ e =
      skip_spaces-spaces s ((c ∷ cs) ++ e) hs ∙ skip_spaces-text ((c ∷ cs) ++ e) starts in
    rw (skipped_start, plain, read_line)
      (read_some (trim_end ((c ∷ cs) ++ e)) (c ∷ cs) (trim_end-text (c ∷ cs) e ends he))

-- A comment.
pub read_line-comment :
    (s : List ℕ) (c : ℕ) (cs : List ℕ)
    → AreSpaces s
    → (c == b';' || c == b'#') ≡ true
    → read_line (s ++ (c ∷ cs)) ≡ some skipped
unfolding read_line
read_line-comment s c cs h e =
    let visible : is_space c ≡ false = ground arith in
    let left : skip_spaces (s ++ (c ∷ cs)) ≡ c ∷ cs =
      skip_spaces-spaces s (c ∷ cs) h ∙ skip_spaces-text (c ∷ cs) visible in
    rw (left, e, read_line) refl

last_char-append : (c : ℕ) (cs : List ℕ) (d : ℕ) → last_char c (cs ++ (d ∷ [])) ≡ d
last_char-append c [] d = refl
last_char-append c (x ∷ xs) d = last_char-append x xs d

but_last-append : (cs : List ℕ) (d : ℕ) → but_last (cs ++ (d ∷ [])) ≡ cs
but_last-append [] d = refl
but_last-append (c ∷ []) d = refl
but_last-append (c ∷ (x ∷ xs)) d = ap (λ t. c ∷ t) (but_last-append (x ∷ xs) d)

-- A section's line.
pub read_line-section :
    (s name e : List ℕ)
    → AreSpaces s
    → AreSpaces e
    → read_line (s ++ ((b'[' ∷ (name ++ (b']' ∷ []))) ++ e)) ≡ some (section name)
unfolding read_trimmed
read_line-section s name e hs he =
    read_line-text s e b'[' (name ++ (b']' ∷ [])) hs he refl refl
      (EndsText-append (b'[' ∷ name) (b']' ∷ []) refl)
    ∙ rw (last_char-append b'[' name b']', read_trimmed)
        (ap (λ t. some (section t)) (but_last-append name b']'))

-- A key's first character, which makes the line neither a section nor a comment, and a value, which
-- has no white space at its ends.
abbrev pub StartsKey : List ℕ → Type 0
StartsKey [] = ⊥
StartsKey (c ∷ cs) =
    (is_space c ≡ false) × ((c == b'[') ≡ false) × ((c == b';' || c == b'#') ≡ false)

abbrev pub IsValue : List ℕ → Type 0
IsValue [] = Unit
IsValue (c ∷ cs) = (is_space c ≡ false) × EndsText (c ∷ cs)

read_trimmed-split :
    (c : ℕ) (cs k v : List ℕ)
    → (c == b'[') ≡ false
    → split_key (c ∷ cs) ≡ some (k, v)
    → read_trimmed (c ∷ cs) ≡ entry k (skip_spaces v)
unfolding read_trimmed
read_trimmed-split c cs k v plain e = rw (plain, e, read_trimmed) refl

read_trimmed-entry :
    (k left right v : List ℕ)
    → StartsKey k
    → EndsText k
    → HasNoEquals k
    → AreSpaces left
    → skip_spaces (right ++ v) ≡ v
    → read_trimmed ((k ++ left) ++ (b'=' ∷ (right ++ v))) ≡ entry (k ++ left) v
read_trimmed-entry [] left right v starts ends bare hl value = absurd starts
read_trimmed-entry (c ∷ cs) left right v (visible, plain, counts) ends bare hl value =
    read_trimmed-split c ((cs ++ left) ++ (b'=' ∷ (right ++ v))) ((c ∷ cs) ++ left) (right ++ v)
      plain
      (split_key-text ((c ∷ cs) ++ left) (right ++ v) (HasNoEquals-spaces (c ∷ cs) left bare hl))
    ∙ ap (entry ((c ∷ cs) ++ left)) value

-- A line of a key and its value, with white space before and behind each.
pub read_line-entry :
    (s k left right v e : List ℕ)
    → AreSpaces s
    → StartsKey k
    → EndsText k
    → HasNoEquals k
    → AreSpaces left
    → AreSpaces right
    → IsValue v
    → AreSpaces e
    → read_line (s ++ (((k ++ left) ++ (b'=' ∷ (right ++ v))) ++ e)) ≡ some (entry (k ++ left) v)
read_line-entry s [] left right v e hs starts ends bare hl hr value he = absurd starts
read_line-entry s (c ∷ cs) left right [] e hs (visible, plain, counts) ends bare hl hr value he =
    let blank : skip_spaces [] ≡ [] = refl in
    let split : (((c ∷ cs) ++ left) ++ (b'=' ∷ (right ++ []))) ++ e
        ≡ (((c ∷ cs) ++ left) ++ (b'=' ∷ [])) ++ (right ++ e) =
      ap (λ t. (((c ∷ cs) ++ left) ++ (b'=' ∷ t)) ++ e) (append-nil right)
      ∙ append_assoc ((c ∷ cs) ++ left) (b'=' ∷ right) e
      ∙ sym (append_assoc ((c ∷ cs) ++ left) (b'=' ∷ []) (right ++ e)) in
    ap (λ t. read_line (s ++ t)) split
    ∙ read_line-text s (right ++ e) c ((cs ++ left) ++ (b'=' ∷ [])) hs
        (AreSpaces-append right e hr he) visible counts
        (EndsText-append ((c ∷ cs) ++ left) (b'=' ∷ []) refl)
    ∙ ap some (read_trimmed-entry (c ∷ cs) left [] [] (visible, plain, counts) ends bare hl blank)
read_line-entry s (c ∷ cs) left right (x ∷ xs) e hs (visible, plain, counts) ends bare hl hr
      (shown, stops) he =
    read_line-text s e c ((cs ++ left) ++ (b'=' ∷ (right ++ (x ∷ xs)))) hs he visible counts (
      EndsText-append ((c ∷ cs) ++ left) (b'=' ∷ (right ++ (x ∷ xs)))
        (EndsText-append (b'=' ∷ right) (x ∷ xs) stops))
    ∙ ap some (
        read_trimmed-entry (c ∷ cs) left right (x ∷ xs) (visible, plain, counts) ends bare hl
          (skip_spaces-spaces right (x ∷ xs) hr ∙ skip_spaces-text (x ∷ xs) shown))
