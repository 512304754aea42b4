-- ===== src/Config/Servers.antt =====
-- src/dnsaddr.c: the addresses of the name servers. Memory suffices; the file is what `fopen` gives
-- for the path of resolv.conf, as the texts that `fgets` puts into `buf`.
use libsocket.Base.{
  is_space, ℕ, ◌==◌, ◌||◌, if◌then◌else◌, Option, none, some, List, [], ◌∷◌, ◌++◌, take,
}
use libsocket.Inet.Text.{is_digit, inet_aton, inet_ntoa}
use libsocket.Config.Profile.{skip_spaces}
use libsocket.Config.Address.{IfAddrInet}

abbrev pub nameserver : List ℕ
nameserver =
    b'n' ∷ (b'a' ∷ (b'm' ∷ (b'e' ∷ (b's' ∷ (b'e' ∷ (b'r' ∷ (b'v' ∷ (b'e' ∷ (b'r' ∷ [])))))))))

-- What stands behind a prefix of a text (`strncmp`).
abbrev pub behind_prefix : List ℕ → List ℕ → Option (List ℕ)
behind_prefix [] text = some text
behind_prefix (x ∷ xs) [] = none
behind_prefix (x ∷ xs) (c ∷ cs) = if x == c then behind_prefix xs cs else none

-- The digits and dots at the front.
abbrev pub dotted_part : List ℕ → List ℕ
dotted_part [] = []
dotted_part (c ∷ cs) = if is_digit c || c == b'.' then c ∷ dotted_part cs else []

-- What is behind white space, which has to be there.
abbrev pub spaced : List ℕ → Option (List ℕ)
spaced [] = none
spaced (c ∷ cs) = if is_space c then some (skip_spaces (c ∷ cs)) else none

abbrev pub if_valid : List ℕ → Option (List ℕ)
if_valid p = elim (inet_aton p) [ none ↦ none | some a ↦ some p ]

-- The address of a line, none where the loop goes on. A line that begins with # is no `nameserver`
-- line.
unfoldable pub resolv_line : List ℕ → Option (List ℕ)
unfolding inet_aton
resolv_line buf = elim (behind_prefix nameserver (skip_spaces buf)) [
  | none ↦ none
  | some p ↦ elim (spaced p) [ none ↦ none | some q ↦ if_valid (dotted_part q) ]
]

-- The loop over the lines. `count` stays 0, so that every address goes into the first entry.
unfoldable pub resolv_loop : Option (List ℕ) → List (List ℕ) → Option (List ℕ)
unfolding resolv_line
resolv_loop entry [] = entry
resolv_loop entry (buf ∷ bufs) = elim (resolv_line buf) [
  | none ↦ resolv_loop entry bufs
  | some p ↦ resolv_loop (some p) bufs
]

abbrev pub entries : Option (List ℕ) → List (List ℕ)
entries none = []
entries (some p) = p ∷ []

-- `__lsck_resolv_conf_getdnsaddrs`: none where there is no file.
unfoldable pub resolv_conf_getdnsaddrs : Option (List (List ℕ)) → List (List ℕ)
unfolding resolv_loop
resolv_conf_getdnsaddrs none = []
resolv_conf_getdnsaddrs (some bufs) = entries (resolv_loop none bufs)

-- An interface's table of addresses: none (NULL), of another family, or of Internet addresses.
pub data AddrTable : Type 0 where
  no_table other_family : AddrTable
  inet_table : List IfAddrInet → AddrTable

-- The servers before the first 0.
abbrev pub servers : List ℕ → List (List ℕ)
servers [] = []
servers (a ∷ rest) = if a == 0 then [] else inet_ntoa a ∷ servers rest

unfoldable pub inet_servers : List IfAddrInet → List (List ℕ)
inet_servers [] = []
inet_servers (inet ∷ inets) = servers (take 4 inet.dns) ++ inet_servers inets

unfoldable pub table_servers : List AddrTable → List (List ℕ)
unfolding inet_servers
table_servers [] = []
table_servers (no_table ∷ tables) = table_servers tables
table_servers (other_family ∷ tables) = table_servers tables
table_servers (inet_table inets ∷ tables) = inet_servers inets ++ table_servers tables

-- `__lsck_getdnsaddrs` over the tables of the interfaces, in their order, and `__lsck_getdnsaddr`.
unfoldable pub getdnsaddrs : Option (List (List ℕ)) → List AddrTable → List (List ℕ)
unfolding resolv_conf_getdnsaddrs table_servers
getdnsaddrs resolv_conf tables = resolv_conf_getdnsaddrs resolv_conf ++ table_servers tables

unfoldable pub getdnsaddr : Option (List (List ℕ)) → List AddrTable → Option (List ℕ)
unfolding getdnsaddrs
getdnsaddr resolv_conf tables = elim (getdnsaddrs resolv_conf tables) [
  | [] ↦ none
  | a ∷ rest ↦ some a
]
