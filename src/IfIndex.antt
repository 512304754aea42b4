-- ===== src/IfIndex.antt =====
-- src/if.c: the names and the numbers of the interfaces.
mod Witnesses
pub mod RoundTrip
use libsocket.Base.{
  ℕ, zero, suc, ◌+◌, ◌&&◌, ◌==◌, Bool, true, false, if◌then◌else◌, Option, none, some, List, [],
  ◌∷◌, M, ltb, length,
}
use libsocket.Base.Int.{ℤ, pos, negsuc, minus_one}
use libsocket.Layer.Types.{Errno, efault, other}

-- `struct if_nameindex`; a name is kept up to its NUL.
pub record NameIndex : Type 0 where
  pub if_index : ℕ
  pub if_name : List ℕ

-- The static list up to its null, whether it has been built, the names of `__lsck_interface[]`,
-- where an entry may be null, and `errno`.
pub record Names : Type 0 where
  pub built_if_nameindex : Bool
  pub if_nameindex : List NameIndex
  pub interfaces : List (Option (List ℕ))
  pub errno : Errno

-- The entries that are not null, numbered from `count + 1` on.
unfoldable pub number_names : ℕ → List (Option (List ℕ)) → List NameIndex
number_names count [] = []
number_names count (none ∷ is) = number_names count is
number_names count (some name ∷ is) =
    record { if_index = 1 + count; if_name = name } ∷ number_names (1 + count) is

-- `none` is a write beyond `__lsck_if_nameindex[LSCK_MAX_IF + 1]`, whose eight entries hold seven
-- interfaces and the end.
unfoldable pub build_if_nameindex : Names → Option Names
unfolding number_names
build_if_nameindex s =
    if s.built_if_nameindex
    then some s
    else if ltb 7 (length (number_names 0 s.interfaces))
    then none
    else some (record s { built_if_nameindex = true; if_nameindex = number_names 0 s.interfaces })

-- `strcmp (a, b) == 0`.
abbrev pub same_name : List ℕ → List ℕ → Bool
same_name [] [] = true
same_name (x ∷ xs) (y ∷ ys) = x == y && same_name xs ys
same_name xs ys = false

unfoldable pub index_of : List ℕ → List NameIndex → ℕ
index_of name [] = 0
index_of name (e ∷ es) = if same_name e.if_name name then e.if_index else index_of name es

-- The loop ends at an index of 0.
unfoldable pub name_of : ℕ → List NameIndex → Option (List ℕ)
name_of n [] = none
name_of n (e ∷ es) =
    if e.if_index == 0 then none else if e.if_index == n then some e.if_name else name_of n es

-- The result is an `unsigned int`: -1 is 2 ^ 32 - 1.
unfoldable pub if_nametoindex : Option (List ℕ) → M Names ℕ
unfolding build_if_nameindex index_of
if_nametoindex none s = some (4294967295, record s { errno = efault })
if_nametoindex (some name) s = elim (build_if_nameindex s) [
  | none ↦ none
  | some s' ↦ some (index_of name s'.if_nameindex, s')
]

-- The name, for the caller's buffer of IFNAMSIZ bytes; `enxio` is the error's number.
unfoldable pub if_indextoname : ℕ → ℕ → M Names (Option (List ℕ))
unfolding build_if_nameindex name_of
if_indextoname enxio n s = elim (build_if_nameindex s) [
  | none ↦ none
  | some s' ↦ elim (name_of n s'.if_nameindex) [
    | none ↦ some (none, record s' { errno = other enxio })
    | some name ↦ some (some name, s')
  ]
]

unfoldable pub if_nameindex_list : M Names (List NameIndex)
unfolding build_if_nameindex
if_nameindex_list s = elim (build_if_nameindex s) [
  | none ↦ none
  | some s' ↦ some (s'.if_nameindex, s')
]
