-- ===== src/Config/Laws/Files.antt =====
-- The name of the configuration file, src/config.c.
use libsocket.Base.{
  ℕ, ◌+◌, ltb, Bool, true, false, Option, none, some, List, ◌++◌, length, ◌≡◌, refl, ap, sym, ◌∙◌,
  Bool-cases, inl, inr, subst,
}
use libsocket.Config.Files.{Settings, config_file, getfile, make_file, fresh_file, setdir, setfile}

-- A name that is given is kept.
abbrev Keeps : Option (Option (List ℕ) × Settings) → Type 0
Keeps none = Unit
Keeps (some (none, s)) = Unit
Keeps (some (some f, s)) = (s.configfileset ≡ true) × (s.configfile ≡ some f)

set-Keeps :
    (o : Option (List ℕ)) (s : Settings)
    → s.configfileset ≡ true
    → s.configfile ≡ o
    → Keeps (some (o, s))
set-Keeps none s e f = tt
set-Keeps (some x) s e f = (e, f)

make_file-Keeps :
    (path_max : ℕ) (dir : Option (List ℕ)) (s : Settings) → Keeps (make_file path_max dir s)
unfolding make_file
make_file-Keeps path_max none s = tt
make_file-Keeps path_max (some d) s =
    elim (Bool-cases (ltb path_max (length (d ++ config_file) + 1))) [
      | inl e ↦ rw (e, make_file, Keeps) tt
      | inr e ↦ rw (e, make_file, Keeps) (refl, refl)
    ]

test-true : {A : Type 0} (b : Bool) (x y : A) → b ≡ true → (elim b [ true ↦ x | false ↦ y ]) ≡ x
test-true true x y e = refl
test-true false x y e = cc

test-false : {A : Type 0} (b : Bool) (x y : A) → b ≡ false → (elim b [ true ↦ x | false ↦ y ]) ≡ y
test-false true x y e = cc
test-false false x y e = refl

module _ (lsck libsocket_dir : Option (List ℕ)) (path_max : ℕ) (memory : Option (List ℕ)) where
  getfile-set :
      (s : Settings)
      → s.configfileset ≡ true
      → getfile lsck libsocket_dir path_max memory s ≡ some (s.configfile, s)
  unfolding getfile
  getfile-set s e = test-true s.configfileset _ _ e

  fresh_file-Keeps :
      (b : Option (List ℕ)) (s : Settings) → Keeps (fresh_file lsck libsocket_dir path_max b s)
  unfolding fresh_file
  fresh_file-Keeps none s = tt
  fresh_file-Keeps (some b) s = make_file-Keeps path_max _ _

  getfile-Keeps : (s : Settings) → Keeps (getfile lsck libsocket_dir path_max memory s)
  unfolding getfile
  getfile-Keeps s = elim (Bool-cases s.configfileset) [
    | inl e ↦ subst Keeps (sym (getfile-set s e)) (set-Keeps s.configfile s e refl)
    | inr e ↦ subst Keeps (sym (test-false s.configfileset _ _ e)) (fresh_file-Keeps memory s)
  ]

-- Once `__lsck_config_getfile` has given a name, it gives the same whatever the environment has
-- become, also behind `__lsck_config_setdir`, until `__lsck_config_setfile` gives it another, which
-- then is its answer.
pub getfile-again :
    (lsck libsocket_dir lsck' libsocket_dir' : Option (List ℕ)) (path_max : ℕ)
    (memory memory' : Option (List ℕ)) (s s' : Settings) (f newdir : List ℕ) (g : Option (List ℕ))
    → getfile lsck libsocket_dir path_max memory s ≡ some (some f, s')
    → (getfile lsck' libsocket_dir' path_max memory' s' ≡ some (some f, s'))
      × (getfile lsck' libsocket_dir' path_max memory' (setdir newdir s').1
          ≡ some (some f, (setdir newdir s').1))
      × ((setfile g s').0 ≡ some f)
      × (getfile lsck' libsocket_dir' path_max memory' (setfile g s').1
          ≡ some (g, (setfile g s').1))
unfolding setdir setfile
getfile-again lsck libsocket_dir lsck' libsocket_dir' path_max memory memory' s s' f newdir g e =
    let (is_set, name) = subst Keeps e (getfile-Keeps lsck libsocket_dir path_max memory s) in
    let again = getfile-set lsck' libsocket_dir' path_max memory' in
    (
      again s' is_set ∙ ap (λ o. some (o, s')) name,
      again (setdir newdir s').1 is_set ∙ ap (λ o. some (o, (setdir newdir s').1)) name,
      name,
      again (setfile g s').1 refl,
    )
