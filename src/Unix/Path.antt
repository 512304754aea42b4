-- ===== src/Unix/Path.antt =====
-- The paths of src/unix: UNIX_LOCAL_PATH, and the names that `sprintf` makes up.
use libsocket.Base.{
  ℕ, zero, suc, ◌+◌, ◌/◌, ◌%◌, ltb, if◌then◌else◌, Option, none, some, List, [], ◌∷◌, ◌++◌, length,
  drop,
}

-- UNIX_LOCAL_PATH, "/dev/mailslot/local".
abbrev pub local_path : List ℕ
local_path =
    47
    ∷ (100
        ∷ (101
            ∷ (118
                ∷ (47
                    ∷ (109
                        ∷ (97
                            ∷ (105
                                ∷ (108
                                    ∷ (115
                                        ∷ (108
                                            ∷ (111
                                                ∷ (116
                                                    ∷ (47
                                                        ∷ (108
                                                            ∷ (111
                                                            ∷ (99
                                                            ∷ (97 ∷ (108 ∷ []))))))))))))))))))

-- "/tmp/lsck/client/" and "/tmp/lsck/sockpair/".
abbrev pub client_path : List ℕ
client_path =
    47
    ∷ (116
        ∷ (109
            ∷ (112
                ∷ (47
                    ∷ (108
                        ∷ (115
                            ∷ (99
                                ∷ (107
                                    ∷ (47
                                        ∷ (99
                                            ∷ (108
                                                ∷ (105
                                                    ∷ (101 ∷ (110 ∷ (116 ∷ (47 ∷ []))))))))))))))))

abbrev pub pair_path : List ℕ
pair_path =
    47
    ∷ (116
        ∷ (109
            ∷ (112
                ∷ (47
                    ∷ (108
                        ∷ (115
                            ∷ (99
                                ∷ (107
                                    ∷ (47
                                        ∷ (115
                                            ∷ (111
                                                ∷ (99
                                                    ∷ (107
                                                        ∷ (112
                                                            ∷ (97
                                                            ∷ (105
                                                            ∷ (114 ∷ (47 ∷ []))))))))))))))))))

-- The last `digits` digits of "%08lx".
unfoldable pub hex : ℕ → ℕ → List ℕ → List ℕ
hex zero n tail = tail
hex (suc digits) n tail =
    let d = n % 16 in hex digits (n / 16) ((if ltb d 10 then 48 + d else 87 + d) ∷ tail)

unfoldable pub made_up : List ℕ → ℕ → List ℕ
unfolding hex
made_up stem n = stem ++ hex 8 n []

-- `sprintf (dest, "%s%s", UNIX_LOCAL_PATH, path)` into `size` bytes; `none` goes beyond them.
unfoldable pub local_name : ℕ → List ℕ → Option (List ℕ)
local_name size path =
    if ltb (length local_path + length path) size then some (local_path ++ path) else none

-- `path` with its NUL at the start of a field.
abbrev pub path_field : List ℕ → List ℕ → List ℕ
path_field path field = path ++ (0 ∷ drop (1 + length path) field)
