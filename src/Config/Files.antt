-- ===== src/Config/Files.antt =====
-- src/config.c: the directory and the name of the configuration file. A string is its characters
-- before the NUL; the variables of the environment and the size of a path are parameters.
use libsocket.Base.{
  ℕ, ◌+◌, ◌==◌, ltb, Bool, true, false, if◌then◌else◌, Option, none, some, List, [], ◌∷◌, ◌++◌,
  length, M, map,
}

-- The static variables of src/config.c.
pub record Settings : Type 0 where
  pub configdir : Option (List ℕ)
  pub configdirset : Bool
  pub configfile : Option (List ℕ)
  pub configfileset : Bool

abbrev pub slash : ℕ → ℕ
slash c = if c == b'\\' then b'/' else c

-- "/lsck.cfg".
abbrev pub config_file : List ℕ
config_file = b'/' ∷ (b'l' ∷ (b's' ∷ (b'c' ∷ (b'k' ∷ (b'.' ∷ (b'c' ∷ (b'f' ∷ (b'g' ∷ []))))))))

abbrev pub or_env : Option (List ℕ) → Option (List ℕ) → Option (List ℕ)
or_env none libsocket_dir = libsocket_dir
or_env (some d) libsocket_dir = some d

-- The end of `__lsck_config_getfile`: the name in the directory. `none` is a name that the buffer of
-- `path_max` bytes does not hold.
unfoldable pub make_file : ℕ → Option (List ℕ) → M Settings (Option (List ℕ))
make_file path_max none s = some (none, s)
make_file path_max (some d) s = elim (ltb path_max (length (d ++ config_file) + 1)) [
  | true ↦ none
  | false ↦ some (
    some (d ++ config_file),
    record s { configfile = some (d ++ config_file); configfileset = true },
  )
]

-- The values of LSCK and LIBSOCKET in the environment.
module _ (lsck libsocket_dir : Option (List ℕ)) where
  -- `__lsck_config_getdir`. The slashes are turned in place.
  unfoldable pub getdir : Settings → Option (List ℕ) × Settings
  getdir s = elim (if s.configdirset then s.configdir else or_env lsck libsocket_dir) [
    | none ↦ (none, record s { configdir = none })
    | some d ↦
        (some (map slash d), record s { configdir = some (map slash d); configdirset = true })
  ]

  -- What `__lsck_config_getfile` does without a name, whose second call of `getdir` gives the same.
  -- `memory` is the buffer that `malloc` gives, with what it holds, or none.
  unfoldable pub fresh_file : ℕ → Option (List ℕ) → M Settings (Option (List ℕ))
  unfolding getdir make_file
  fresh_file path_max none s = some (none, record s { configfile = none })
  fresh_file path_max (some memory) s =
      let (dir, s') = getdir (record s { configfile = some memory }) in make_file path_max dir s'

  -- `__lsck_config_getfile`.
  unfoldable pub getfile : ℕ → Option (List ℕ) → M Settings (Option (List ℕ))
  unfolding fresh_file
  getfile path_max memory s = elim s.configfileset [
    | true ↦ some (s.configfile, s)
    | false ↦ fresh_file path_max memory s
  ]

-- `__lsck_config_setdir` and `__lsck_config_setfile`: the result is the old string.
unfoldable pub setdir : List ℕ → Settings → Option (List ℕ) × Settings
setdir newdir s =
    (s.configdir, record s { configdir = some (map slash newdir); configdirset = true })

unfoldable pub setfile : Option (List ℕ) → Settings → Option (List ℕ) × Settings
setfile newfile s = (s.configfile, record s { configfile = newfile; configfileset = true })
