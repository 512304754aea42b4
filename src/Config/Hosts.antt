-- ===== src/Config/Hosts.antt =====
-- src/hstnm.c: the names of the host and of its domain. A string is its characters before the NUL;
-- MAXGETHOSTNAME of the C library is a parameter, and memory suffices. A whole that is none is a
-- `strcpy` or `strcat` beyond a buffer, or a read of the configuration file that leaves its buffer.
use libsocket.Base.{
  ℕ, ◌+◌, ◌==◌, ◌||◌, ◌&&◌, leb, ltb, Bool, true, false, if◌then◌else◌, Option, none, some, List,
  [], ◌∷◌, ◌++◌, length, M, map,
}
use libsocket.Layer.Types.{Errno, einval, efault}
use libsocket.Config.Profile.{get_private_profile_string}
use libsocket.Config.Address.{IfAddrInet, cut_at, main_section, hostname_key}
use libsocket.Config.Servers.{AddrTable, no_table, other_family, inet_table}

-- The static names: none where the flag `gothostname` or `gotdomainname` is not set.
pub record HostNames : Type 0 where
  pub hostname : Option (List ℕ)
  pub nodename : List ℕ
  pub domainname : Option (List ℕ)

-- How a call ends: 0, with what is in the caller's buffer, or -1 with `errno`.
pub data Named : Type 0 where
  named : List ℕ → Named
  failed : Errno → Named

abbrev pub lower : ℕ → ℕ
lower c = if leb b'A' c && leb c b'Z' then c + 32 else c

-- The name up to its first space, in lower case.
abbrev pub tidy : List ℕ → List ℕ
tidy p = map lower (cut_at 32 p).0

-- The first name that an address of an interface has.
abbrev pub inet_host : List IfAddrInet → Option (List ℕ)
inet_host [] = none
inet_host (inet ∷ inets) = elim inet.hostname [ [] ↦ inet_host inets | c ∷ cs ↦ some (c ∷ cs) ]

abbrev pub table_host : List AddrTable → Option (List ℕ)
table_host [] = none
table_host (no_table ∷ tables) = table_host tables
table_host (other_family ∷ tables) = table_host tables
table_host (inet_table inets ∷ tables) = elim (inet_host inets) [
  | none ↦ table_host tables
  | some p ↦ some p
]

abbrev pub or_name : Option (List ℕ) → Option (List ℕ) → Option (List ℕ)
or_name none o = o
or_name (some p) o = some p

abbrev pub name_or : Option (List ℕ) → List ℕ → List ℕ
name_or none deflt = deflt
name_or (some p) deflt = p

-- The name in the configuration file, none where there is no file or no name in it.
unfoldable pub config_host : ℕ → Option (List (List ℕ)) → Option (Option (List ℕ))
config_host maxgethostname none = some none
config_host maxgethostname (some bufs) =
    elim (get_private_profile_string (some main_section) (some hostname_key) none [] maxgethostname
      (some bufs)) [ none ↦ none | some (ret, p) ↦ some (if ret == 0 then none else some p) ]

-- The name that `gethostname` starts from: its own, the variable HOSTNAME, of which `strdup` copies
-- none where it is not set, the configuration file's, that of the interfaces' tables, and what the
-- C library's function gives, which is the last resort.
unfoldable pub found_host :
    ℕ
    → Option (List ℕ)
    → Option (List ℕ)
    → Option (List (List ℕ))
    → List AddrTable
    → List ℕ
    → Option (List ℕ)
unfolding config_host
found_host maxgethostname (some p) env file tables old = some p
found_host maxgethostname none (some p) file tables old = some p
found_host maxgethostname none none file tables old = elim (config_host maxgethostname file) [
  | none ↦ none
  | some (some p) ↦ some p
  | some none ↦ some (name_or (table_host tables) old)
]

-- The names are saved; the domain stays where the name has no dot.
abbrev pub save : List ℕ → HostNames → HostNames
save p s = record s {
  hostname = some p;
  nodename = (cut_at b'.' p).0;
  domainname = or_name ((cut_at b'.' p).1) s.domainname;
}

module _ (maxgethostname : ℕ) where
  -- What `gethostname` does with the name that it has found.
  unfoldable pub give_host : List ℕ → ℕ → M HostNames Named
  give_host p size s =
      if ltb size (length p + 1)
      then some (failed einval, s)
      else if ltb maxgethostname (length p + 1)
      then none
      else some (named p, save p s)

  -- `gethostname`. A `size` that is not positive is 0; the flag says that `buf` is not NULL.
  unfoldable pub gethostname :
      Option (List ℕ)
      → Option (List (List ℕ))
      → List AddrTable
      → List ℕ
      → Bool
      → ℕ
      → M HostNames Named
  unfolding found_host give_host
  gethostname env file tables old has_buf size s =
      if size == 0 || (if has_buf then false else true)
      then some (failed einval, s)
      else elim (found_host maxgethostname s.hostname env file tables old) [
        | none ↦ none
        | some found ↦ give_host (tidy found) size s
      ]

  -- `sethostname`.
  unfoldable pub sethostname : List ℕ → ℕ → M HostNames Named
  sethostname buf size s =
      if size == 0 || ltb maxgethostname size
      then some (failed einval, s)
      else if ltb maxgethostname (length buf + 1)
      then none
      else some (named buf, save buf s)

  -- `getdomainname`, into a buffer of `len` bytes.
  unfoldable pub getdomainname : Bool → ℕ → M HostNames Named
  getdomainname has_name len s =
      if len == 0 || ltb maxgethostname len
      then some (failed einval, s)
      else if has_name
      then (if ltb len (length (name_or s.domainname []) + 1)
          then none
          else some (named (name_or s.domainname []), s))
      else some (failed efault, s)

  -- `setdomainname`.
  unfoldable pub setdomainname : Option (List ℕ) → ℕ → M HostNames Named
  setdomainname name len s =
      if len == 0 || ltb maxgethostname len then some (failed einval, s) else elim name [
        | none ↦ some (failed efault, s)
        | some d ↦
            if ltb maxgethostname (length (s.nodename ++ (b'.' ∷ d)) + 1)
            then none
            else some (
              named d,
              record s { hostname = some (s.nodename ++ (b'.' ∷ d)); domainname = some d },
            )
      ]
