-- ===== src/Dns/Witnesses.antt =====
-- The theorems about compressed names, applied to short messages.
use libsocket.Base.{false, none, ◌++◌, length, ℕ, List, [], ◌∷◌, ◌≡◌, refl, arith}
use libsocket.Dns.Expand.{ok, oob, dn_expand, has_space, dn_skipname}
use libsocket.Dns.Expand.Bounds.{IsSafe, dn_expand-IsSafe, dn_expand_cut}
use libsocket.Dns.Compress.{dn_comp}
use libsocket.Dns.Compress.Wire.{IsName, AreChars, print}
use libsocket.Dns.Compress.RoundTrip.{dn_expand-dn_comp}
use libsocket.Dns.Expand.Skip.{dn_skipname-dn_expand}

-- The name "ab" and the root, with one byte of memory behind them.
abbrev message : List ℕ
message = 2 ∷ (97 ∷ (98 ∷ (0 ∷ (7 ∷ []))))

dn_expand-IsSafe_example : IsSafe 9 (dn_expand message 4 0 9)
dn_expand-IsSafe_example = dn_expand-IsSafe message 4 0 9 (omega arith) (omega arith) (omega arith)

-- A pointer of which only the first byte lies within the message.
abbrev cut_message : List ℕ
cut_message = 0 ∷ (192 ∷ [])

dn_expand_cut_example : dn_expand cut_message 2 1 9 ≡ oob
dn_expand_cut_example = dn_expand_cut cut_message 1 9 192 refl refl refl

expand_run : dn_expand message 5 0 9 ≡ ok (4, 97 ∷ (98 ∷ []))
unfolding dn_expand has_space
expand_run = refl

dn_skipname-dn_expand_example : dn_skipname message 5 0 9 ≡ ok 4
dn_skipname-dn_expand_example = dn_skipname-dn_expand message 0 9 4 (97 ∷ (98 ∷ [])) expand_run

-- The labels "a.b" and "c", whose text is `a\.b.c`, behind two bytes.
abbrev labels : List (List ℕ)
labels = (97 ∷ (46 ∷ (98 ∷ []))) ∷ ((99 ∷ []) ∷ [])

labels-IsName : IsName labels
labels-IsName =
    let short : AreChars (97 ∷ (46 ∷ (98 ∷ []))) =
      (omega arith, omega arith, (omega arith, omega arith, (omega arith, omega arith, tt))) in
    (
      omega arith,
      omega arith,
      short,
      (omega arith, omega arith, (omega arith, omega arith, tt), tt),
    )

no_space : has_space (print labels) ≡ false
unfolding has_space
no_space = refl

dn_expand-dn_comp_example :
    (out : List ℕ) × (dn_comp message 0 9 none 0 0 (print labels) ≡ (ok out, []))
    × (dn_expand ((1 ∷ (2 ∷ [])) ++ (out ++ (7 ∷ []))) 9 2 20 ≡ ok (length out, print labels))
dn_expand-dn_comp_example =
    dn_expand-dn_comp message (1 ∷ (2 ∷ [])) (7 ∷ []) 0 9 0 0 9 20 labels labels-IsName
      (omega arith) no_space (omega arith) (omega arith)
