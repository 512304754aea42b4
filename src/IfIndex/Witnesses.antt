-- ===== src/IfIndex/Witnesses.antt =====
-- The theorems about interface numbers, applied on two interfaces.
use libsocket.Base.{ℕ, ◌≡◌, ◌⊎◌, false, true, Option, none, some, List, [], ◌∷◌, refl, Returns}
use libsocket.Layer.Types.{other}
use libsocket.IfIndex.{Names, build_if_nameindex, number_names, if_nametoindex, if_indextoname}
use libsocket.IfIndex.RoundTrip.{if_indextoname-nametoindex}

abbrev two_names : List (Option (List ℕ))
two_names = some (119 ∷ []) ∷ (none ∷ (some (117 ∷ []) ∷ []))

abbrev not_built : Names
not_built = record {
  built_if_nameindex = false;
  if_nameindex = [];
  interfaces = two_names;
  errno = other 0;
}

abbrev built : Names
built = record not_built { built_if_nameindex = true; if_nameindex = number_names 0 two_names }

built_once : build_if_nameindex not_built ≡ some built
unfolding build_if_nameindex number_names
built_once = refl

if_indextoname-nametoindex_example :
    Returns
      (if_nametoindex (some (117 ∷ [])) not_built)
      (λ n s'. (n ≡ 0) ⊎ Returns (if_indextoname 6 n s') (λ r s''. r ≡ some (117 ∷ [])))
if_indextoname-nametoindex_example =
    if_indextoname-nametoindex 6 (117 ∷ []) not_built built two_names built_once refl
