-- ===== src/Config/Laws/Servers.antt =====
-- The lists of name servers of src/dnsaddr.c.
use libsocket.Base.{
  ℕ, zero, suc, ◌<◌, ◌^◌, ◌==◌, Option, none, some, List, [], ◌∷◌, ◌++◌, take, All, ◌≡◌, refl, ap,
  ◌∙◌, Bool-cases, Option-cases, inl, inr, subst,
}
use libsocket.Inet.Text.{inet_aton}
use libsocket.Inet.RoundTrip.{inet_aton-inet_ntoa}
use libsocket.Config.Address.{IfAddrInet}
use libsocket.Config.Servers.{
  if_valid, behind_prefix, nameserver, spaced, dotted_part, resolv_line, resolv_loop, entries,
  resolv_conf_getdnsaddrs, AddrTable, no_table, other_family, inet_table, servers, inet_servers,
  table_servers, getdnsaddrs,
}
use libsocket.Config.Profile.{skip_spaces}

-- A text that `inet_aton` reads.
abbrev pub IsAddress : List ℕ → Type 0
IsAddress t = (a : ℕ) × (inet_aton t ≡ some a)

-- The servers of the interfaces are numbers of 32 bits.
abbrev pub AreWords : List ℕ → Type 0
AreWords [] = Unit
AreWords (a ∷ rest) = (a < 2 ^ 32) × AreWords rest

abbrev pub InetsAreWords : List IfAddrInet → Type 0
InetsAreWords [] = Unit
InetsAreWords (inet ∷ inets) = AreWords inet.dns × InetsAreWords inets

abbrev pub TablesAreWords : List AddrTable → Type 0
TablesAreWords [] = Unit
TablesAreWords (no_table ∷ tables) = TablesAreWords tables
TablesAreWords (other_family ∷ tables) = TablesAreWords tables
TablesAreWords (inet_table inets ∷ tables) = InetsAreWords inets × TablesAreWords tables

All-append :
    (xs ys : List (List ℕ)) → All IsAddress xs → All IsAddress ys → All IsAddress (xs ++ ys)
All-append [] ys h k = k
All-append (x ∷ xs) ys (h, hs) k = (h, All-append xs ys hs k)

AreWords-take : (n : ℕ) (xs : List ℕ) → AreWords xs → AreWords (take n xs)
AreWords-take zero xs h = tt
AreWords-take (suc n) [] h = tt
AreWords-take (suc n) (x ∷ xs) (h, hs) = (h, AreWords-take n xs hs)

servers-IsAddress : (xs : List ℕ) → AreWords xs → All IsAddress (servers xs)
servers-IsAddress [] h = tt
servers-IsAddress (a ∷ rest) (h, hs) = elim (Bool-cases (a == 0)) [
  | inl e ↦ rw e tt
  | inr e ↦ rw e ((a, inet_aton-inet_ntoa a h), servers-IsAddress rest hs)
]

inet_servers-IsAddress :
    (inets : List IfAddrInet) → InetsAreWords inets → All IsAddress (inet_servers inets)
unfolding inet_servers
inet_servers-IsAddress [] h = tt
inet_servers-IsAddress (inet ∷ inets) (h, hs) =
    All-append (servers (take 4 inet.dns)) (inet_servers inets)
      (servers-IsAddress (take 4 inet.dns) (AreWords-take 4 inet.dns h))
      (inet_servers-IsAddress inets hs)

table_servers-IsAddress :
    (tables : List AddrTable) → TablesAreWords tables → All IsAddress (table_servers tables)
unfolding table_servers
table_servers-IsAddress [] h = tt
table_servers-IsAddress (no_table ∷ tables) h = table_servers-IsAddress tables h
table_servers-IsAddress (other_family ∷ tables) h = table_servers-IsAddress tables h
table_servers-IsAddress (inet_table inets ∷ tables) (h, hs) =
    All-append (inet_servers inets) (table_servers tables) (inet_servers-IsAddress inets h)
      (table_servers-IsAddress tables hs)

-- What a line gives is an address.
abbrev GivesAddress : Option (List ℕ) → Type 0
GivesAddress none = Unit
GivesAddress (some p) = IsAddress p

GivesAddress-valid :
    (o : Option ℕ) (p : List ℕ)
    → inet_aton p ≡ o
    → GivesAddress (elim o [ none ↦ none | some a ↦ some p ])
GivesAddress-valid none p e = tt
GivesAddress-valid (some a) p e = (a, e)

if_valid-GivesAddress : (p : List ℕ) → GivesAddress (if_valid p)
if_valid-GivesAddress p = GivesAddress-valid (inet_aton p) p refl

GivesAddress-elim :
    (o : Option (List ℕ)) (f : List ℕ → Option (List ℕ))
    → ((p : List ℕ) → GivesAddress (f p))
    → GivesAddress (elim o [ none ↦ none | some p ↦ f p ])
GivesAddress-elim none f h = tt
GivesAddress-elim (some p) f h = h p

resolv_line-GivesAddress : (buf : List ℕ) → GivesAddress (resolv_line buf)
unfolding resolv_line
resolv_line-GivesAddress buf =
    GivesAddress-elim (behind_prefix nameserver (skip_spaces buf)) _
      (λ p. GivesAddress-elim (spaced p) _ (λ q. if_valid-GivesAddress (dotted_part q)))

-- One line of the loop.
line-none :
    (entry : Option (List ℕ)) (buf : List ℕ) (bufs : List (List ℕ))
    → resolv_line buf ≡ none
    → resolv_loop entry (buf ∷ bufs) ≡ resolv_loop entry bufs
unfolding resolv_loop
line-none entry buf bufs e = rw (e, resolv_loop) refl

line-some :
    (entry : Option (List ℕ)) (buf p : List ℕ) (bufs : List (List ℕ))
    → resolv_line buf ≡ some p
    → resolv_loop entry (buf ∷ bufs) ≡ resolv_loop (some p) bufs
unfolding resolv_loop
line-some entry buf p bufs e = rw (e, resolv_loop) refl

loop-nil : (entry : Option (List ℕ)) → resolv_loop entry [] ≡ entry
unfolding resolv_loop
loop-nil entry = refl

resolv_loop-GivesAddress :
    (entry : Option (List ℕ)) (bufs : List (List ℕ))
    → GivesAddress entry
    → GivesAddress (resolv_loop entry bufs)
resolv_loop-GivesAddress entry [] h = rw (loop-nil entry) h
resolv_loop-GivesAddress entry (buf ∷ bufs) h = elim (Option-cases (resolv_line buf)) [
  | inl e ↦ rw (line-none entry buf bufs e) (resolv_loop-GivesAddress entry bufs h)
  | inr (p, e) ↦
      rw (line-some entry buf p bufs e) (
        resolv_loop-GivesAddress (some p) bufs
          (subst GivesAddress e (resolv_line-GivesAddress buf)))
]

entries-IsAddress : (o : Option (List ℕ)) → GivesAddress o → All IsAddress (entries o)
entries-IsAddress none h = tt
entries-IsAddress (some p) h = (h, tt)

resolv_conf-IsAddress :
    (file : Option (List (List ℕ))) → All IsAddress (resolv_conf_getdnsaddrs file)
unfolding resolv_conf_getdnsaddrs
resolv_conf-IsAddress none = tt
resolv_conf-IsAddress (some bufs) =
    entries-IsAddress (resolv_loop none bufs) (resolv_loop-GivesAddress none bufs tt)

-- `inet_aton` reads every text that `__lsck_getdnsaddrs` lists, whatever stands in resolv.conf, if
-- the servers of the interfaces are numbers of 32 bits.
pub getdnsaddrs-IsAddress :
    (resolv_conf : Option (List (List ℕ))) (tables : List AddrTable)
    → TablesAreWords tables
    → All IsAddress (getdnsaddrs resolv_conf tables)
unfolding getdnsaddrs
getdnsaddrs-IsAddress resolv_conf tables h =
    All-append (resolv_conf_getdnsaddrs resolv_conf) (table_servers tables)
      (resolv_conf-IsAddress resolv_conf) (table_servers-IsAddress tables h)

-- No line of the rest has an address.
abbrev pub HaveNone : List (List ℕ) → Type 0
HaveNone [] = Unit
HaveNone (buf ∷ bufs) = (resolv_line buf ≡ none) × HaveNone bufs

loop-HaveNone :
    (entry : Option (List ℕ)) (bufs : List (List ℕ))
    → HaveNone bufs
    → resolv_loop entry bufs ≡ entry
loop-HaveNone entry [] h = loop-nil entry
loop-HaveNone entry (buf ∷ bufs) (h, hs) = line-none entry buf bufs h ∙ loop-HaveNone entry bufs hs

loop-last :
    (entry : Option (List ℕ)) (before : List (List ℕ)) (buf p : List ℕ) (bufs : List (List ℕ))
    → resolv_line buf ≡ some p
    → HaveNone bufs
    → resolv_loop entry (before ++ (buf ∷ bufs)) ≡ some p
loop-last entry [] buf p bufs e h = line-some entry buf p bufs e ∙ loop-HaveNone (some p) bufs h
loop-last entry (b ∷ before) buf p bufs e h = elim (Option-cases (resolv_line b)) [
  | inl f ↦ line-none entry b (before ++ (buf ∷ bufs)) f ∙ loop-last entry before buf p bufs e h
  | inr (q, f) ↦
      line-some entry b q (before ++ (buf ∷ bufs)) f ∙ loop-last (some q) before buf p bufs e h
]

-- Of the addresses in resolv.conf only the last is listed, before those of the interfaces, whatever
-- lines stand before it.
pub getdnsaddrs_last :
    (before : List (List ℕ)) (buf p : List ℕ) (bufs : List (List ℕ)) (tables : List AddrTable)
    → resolv_line buf ≡ some p
    → HaveNone bufs
    → getdnsaddrs (some (before ++ (buf ∷ bufs))) tables ≡ p ∷ table_servers tables
unfolding getdnsaddrs resolv_conf_getdnsaddrs
getdnsaddrs_last before buf p bufs tables e h =
    ap (λ o. entries o ++ table_servers tables) (loop-last none before buf p bufs e h)
