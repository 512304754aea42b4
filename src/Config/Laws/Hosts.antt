-- ===== src/Config/Laws/Hosts.antt =====
-- The names of src/hstnm.c: they fit their buffers, and what is set is read back.
use libsocket.Base.{
  ℕ, suc, ◌+◌, ◌≤◌, ◌<◌, ◌==◌, ◌||◌, ltb, Bool, true, false, if◌then◌else◌, Option, none, some,
  List, [], ◌∷◌, ◌++◌, length, map, All, ◌>>=◌, ◌>>◌, Returns, ◌≡◌, refl, sym, arith, Bool-cases,
  inl, inr, subst,
}
use libsocket.Layer.Types.{einval}
use libsocket.Config.Address.{cut_at}
use libsocket.Config.Servers.{AddrTable}
use libsocket.Config.Profile.Lookup.{Shows}
use libsocket.Config.Hosts.{
  found_host, give_host, HostNames, Named, named, failed, lower, tidy, save, gethostname,
  sethostname, getdomainname, setdomainname,
}

-- A name that a buffer of `max` bytes holds.
abbrev pub FitsName : ℕ → Option (List ℕ) → Type 0
FitsName max none = Unit
FitsName max (some p) = length p < max

pub record Fits (max : ℕ) (s : HostNames) : Type 0 where
  pub host : FitsName max s.hostname
  pub node : length s.nodename < max
  pub domain : FitsName max s.domainname

cut_at-here :
    (d c : ℕ) (cs : List ℕ)
    → (c == d) ≡ true
    → ◌≡◌ {A = List ℕ × Option (List ℕ)} (cut_at d (c ∷ cs)) ([], some cs)
cut_at-here d c cs e = rw (e, cut_at) refl

cut_at-later :
    (d c : ℕ) (cs : List ℕ)
    → (c == d) ≡ false
    → ◌≡◌ {A = List ℕ × Option (List ℕ)} (cut_at d (c ∷ cs)) (c ∷ (cut_at d cs).0, (cut_at d cs).1)
cut_at-later d c cs e = rw (e, cut_at) refl

-- Both parts of a cut fit.
abbrev FitBoth : ℕ → List ℕ × Option (List ℕ) → Type 0
FitBoth max r = (length r.0 < max) × FitsName max r.1

-- A character of a host's name: no space, and no capital.
abbrev pub IsTidy : ℕ → Type 0
IsTidy c = ((c == 32) ≡ false) × (lower c ≡ c)

length-tidy : (p : List ℕ) → length (tidy p) ≤ length p
length-tidy [] = omega arith
length-tidy (c ∷ cs) = elim (Bool-cases (c == 32)) [
  | inl e ↦
      subst (λ r. length (map lower r.0) ≤ suc (length cs)) (sym (cut_at-here 32 c cs e))
        (omega arith)
  | inr e ↦
      subst (λ r. length (map lower r.0) ≤ suc (length cs)) (sym (cut_at-later 32 c cs e))
        (omega (arith, length-tidy cs))
]

-- An answer of `gethostname` with a buffer of `size` bytes.
abbrev pub IsHostName : ℕ → Named → Type 0
IsHostName size (named p) = (length p < size) × All IsTidy p
IsHostName size (failed e) = e ≡ einval

→ltb-false : (a b : ℕ) → b ≤ a → ltb a b ≡ false
→ltb-false a b h = ground arith

-- A configuration file that is missing, or that has sections, with no blank line.
abbrev pub IsReadable : Option (List (List ℕ)) → Type 0
IsReadable none = Unit
IsReadable (some bufs) =
    (es : List (List ℕ × List ℕ)) × (ss : List (List ℕ × List (List ℕ × List ℕ))) × Shows bufs es ss

checks-pass :
    {A : Type 0} (b1 b2 : Bool) (x y r : A)
    → b1 ≡ false
    → b2 ≡ false
    → (if b1 then x else if b2 then y else r) ≡ r
checks-pass b1 b2 x y r e f = rw (e, f) refl

size-passes : (n max : ℕ) → 1 ≤ n → n ≤ max → (n == 0 || ltb max n) ≡ false
size-passes n max h k = ground arith

-- The names that `setdomainname` leaves behind `sethostname`.
abbrev pub full_name : List ℕ → List ℕ → List ℕ
full_name h d = (cut_at b'.' h).0 ++ (b'.' ∷ d)

abbrev pub renamed : List ℕ → List ℕ → HostNames
renamed h d = record {
  hostname = some (full_name h d);
  nodename = (cut_at b'.' h).0;
  domainname = some d;
}

sethostname-saves :
    (max : ℕ) (h : List ℕ) (n : ℕ) (s : HostNames)
    → n ≤ max
    → length h < n
    → sethostname max h n s ≡ some (named h, save h s)
unfolding sethostname
sethostname-saves max h n s small fits =
    checks-pass (n == 0 || ltb max n) (ltb max (length h + 1)) _ _ _
      (size-passes n max (omega arith) small) (→ltb-false max (length h + 1) (omega arith))

setdomainname-renames :
    (max : ℕ) (h d : List ℕ) (m : ℕ) (s : HostNames)
    → 1 ≤ m
    → m ≤ max
    → length (full_name h d) < max
    → setdomainname max (some d) m (save h s) ≡ some (named d, renamed h d)
unfolding setdomainname
setdomainname-renames max h d m s low high fits =
    checks-pass (m == 0 || ltb max m) (ltb max (length (full_name h d) + 1)) _ _ _
      (size-passes m max low high) (→ltb-false max (length (full_name h d) + 1) (omega arith))

getdomainname-named :
    (max : ℕ) (d : List ℕ) (len : ℕ) (s : HostNames)
    → len ≤ max
    → length d < len
    → s.domainname ≡ some d
    → getdomainname max true len s ≡ some (named d, s)
unfolding getdomainname
getdomainname-named max d len s high fits e =
    rw (e, getdomainname)
      (checks-pass (len == 0 || ltb max len) (ltb len (length d + 1)) _ _ _
        (size-passes len max (omega arith) high) (→ltb-false len (length d + 1) (omega arith)))

checks-pass_three :
    {A : Type 0} (b1 b2 b3 : Bool) (x y z r : A)
    → b1 ≡ false
    → b2 ≡ false
    → b3 ≡ false
    → (if b1 then x else if b2 then y else if b3 then z else r) ≡ r
checks-pass_three b1 b2 b3 x y z r e f g = rw (e, f, g) refl

buffer-passes : (n : ℕ) → 1 ≤ n → (n == 0 || false) ≡ false
buffer-passes n h = ground arith

gethostname-set :
    (max : ℕ) (env : Option (List ℕ)) (file : Option (List (List ℕ))) (tables : List AddrTable)
    (old h d : List ℕ) (size : ℕ)
    → length (full_name h d) < size
    → size ≤ max
    → gethostname max env file tables old true size (renamed h d)
      ≡ some (named (tidy (full_name h d)), save (tidy (full_name h d)) (renamed h d))
unfolding gethostname found_host give_host
gethostname-set max env file tables old h d size fits high =
    let shorter = length-tidy (full_name h d) in
    checks-pass_three (size == 0 || false) (ltb size (length (tidy (full_name h d)) + 1))
      (ltb max (length (tidy (full_name h d)) + 1)) _ _ _ _ (buffer-passes size (omega arith))
      (→ltb-false size (length (tidy (full_name h d)) + 1) (omega arith))
      (→ltb-false max (length (tidy (full_name h d)) + 1) (omega arith))

-- Behind `sethostname` of `h` and `setdomainname` of `d`, whose texts and whose joined name fit the
-- buffers, `getdomainname` gives `d`, and `gethostname` the part of `h` before its first dot with
-- `d` behind a dot, up to a space and in lower case, whatever the environment, the configuration
-- file and the interfaces say.
pub gethostname-setdomainname :
    (max : ℕ) (env : Option (List ℕ)) (file : Option (List (List ℕ))) (tables : List AddrTable)
    (old h d : List ℕ) (n m len size : ℕ) (s : HostNames)
    → n ≤ max
    → length h < n
    → 1 ≤ m
    → m ≤ max
    → len ≤ max
    → length d < len
    → size ≤ max
    → length (full_name h d) < size
    → Returns ((sethostname max h n >> setdomainname max (some d) m) s) (λ a s'.
      (getdomainname max true len s' ≡ some (named d, s'))
      × Returns
          (gethostname max env file tables old true size s')
          (λ b s''. b ≡ named (tidy (full_name h d))))
gethostname-setdomainname max env file tables old h d n m len size s n_max h_fits low m_max len_max
      d_fits size_max fits =
    rw (sethostname-saves max h n s n_max h_fits, ◌>>◌, ◌>>=◌)
      (rw (setdomainname-renames max h d m s low m_max (omega arith), Returns)
        (
          getdomainname-named max d len (renamed h d) len_max d_fits refl,
          rw (gethostname-set max env file tables old h d size fits size_max, Returns) refl,
        ))
