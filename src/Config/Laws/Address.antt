-- ===== src/Config/Laws/Address.antt =====
-- The address of an interface that src/addr.c reads from the configuration file.
use libsocket.Base.{
  ℕ, zero, suc, ◌+◌, ◌/◌, ◌%◌, ◌^◌, ◌≤◌, ◌<◌, ◌==◌, ltb, false, Option, none, some, List, [], ◌∷◌,
  ◌++◌, length, ◌≡◌, ◌≢◌, refl, ap, sym, ◌∙◌, arith, length-append, Bool-cases, inl, inr,
}
use libsocket.IfIndex.{same_name}
use libsocket.IfIndex.RoundTrip.{same_name-eq}
use libsocket.Inet.Text.{decimal, inet_aton, inet_ntoa}
use libsocket.Inet.RoundTrip.{inet_aton-inet_ntoa}
use libsocket.Config.Profile.{get_private_profile_string, copied, answer}
use libsocket.Config.Profile.Lookup.{Shows, lookup, get_private_profile_string-lookup, or_default}
use libsocket.Config.Address.{
  if_good, split_host, read_rest, bad_ip, main_section, hostname_key, ip_address, ip_mask, gateway,
  dns_key, cut_at, read_address, read_dns, read_host, if_addr_inet_getconfig,
}

length-decimal : (n : ℕ) → length (decimal n) ≤ 3
unfolding decimal
length-decimal n = ground arith

length-inet_ntoa : (a : ℕ) → length (inet_ntoa a) ≤ 15
unfolding inet_ntoa
length-inet_ntoa a =
    let d0 : List ℕ = decimal (a % 256) in
    let d1 : List ℕ = decimal (a / 256 % 256) in
    let d2 : List ℕ = decimal (a / 65536 % 256) in
    let d3 : List ℕ = decimal (a / 16777216 % 256) in
    omega (
      arith,
      length-append d0 (b'.' ∷ (d1 ++ (b'.' ∷ (d2 ++ (b'.' ∷ d3))))),
      length-append d1 (b'.' ∷ (d2 ++ (b'.' ∷ d3))),
      length-append d2 (b'.' ∷ d3),
      length-decimal (a % 256),
      length-decimal (a / 256 % 256),
      length-decimal (a / 65536 % 256),
      length-decimal (a / 16777216 % 256),
    )

copied-fits : (n : ℕ) (t : List ℕ) → length t < n → copied n t ≡ t
copied-fits n t h = let room : ltb n (length t + 1) ≡ false = ground arith in rw (room, copied) refl

answer-fits : (n : ℕ) (t : List ℕ) → length t < n → ◌≡◌ {A = ℕ × List ℕ} (answer n t) (length t, t)
answer-fits n t h = rw (copied-fits n t h) refl

zero_address : inet_aton bad_ip ≡ some 0
unfolding inet_ntoa decimal
zero_address = inet_aton-inet_ntoa 0 (omega arith)

-- The text of an address is not BAD_IP unless the address is 0.
not_bad_ip : (a : ℕ) → a < 2 ^ 32 → a ≢ 0 → same_name (inet_ntoa a) bad_ip ≡ false
not_bad_ip a h nonzero = elim (Bool-cases (same_name (inet_ntoa a) bad_ip)) [
  | inl e ↦
      let same : ◌≡◌ {A = Option ℕ} (some a) (some 0) =
        sym (inet_aton-inet_ntoa a h)
        ∙ ap inet_aton (same_name-eq (inet_ntoa a) bad_ip e)
        ∙ zero_address in
      absurd (nonzero (cc same))
  | inr e ↦ e
]

abbrev pub HasNoDot : List ℕ → Type 0
HasNoDot [] = Unit
HasNoDot (c ∷ cs) = ((c == b'.') ≡ false) × HasNoDot cs

cut_at-dot :
    (h d : List ℕ)
    → HasNoDot h
    → ◌≡◌ {A = List ℕ × Option (List ℕ)} (cut_at b'.' (h ++ (b'.' ∷ d))) (h, some d)
cut_at-dot [] d n = refl
cut_at-dot (c ∷ cs) d (e, n) = rw (e, cut_at-dot cs d n, cut_at) refl

-- The servers that a section lists, at most `n`, from the number `i` on: they end where a key is
-- missing.
abbrev pub HasServers : List ℕ → List (List ℕ × List (List ℕ × List ℕ)) → ℕ → ℕ → List ℕ → Type 0
HasServers sect ss zero i [] = Unit
HasServers sect ss zero i (a ∷ rest) = ⊥
HasServers sect ss (suc n) i [] = lookup sect (dns_key i) ss ≡ none
HasServers sect ss (suc n) i (a ∷ rest) =
    (lookup sect (dns_key i) ss ≡ some (inet_ntoa a))
    × (a < 2 ^ 32)
    × (a ≢ 0)
    × HasServers sect ss n (i + 1) rest

abbrev names_of : List ℕ × Option (List ℕ) → Option (List ℕ × List ℕ)
names_of r = elim r.1 [ none ↦ none | some domain ↦ some (r.0, domain) ]

if_good-inet_ntoa : (a : ℕ) → a < 2 ^ 32 → a ≢ 0 → if_good (inet_ntoa a) ≡ some a
if_good-inet_ntoa a h nonzero = rw (not_bad_ip a h nonzero, if_good) (inet_aton-inet_ntoa a h)

split_host-domain :
    (c : ℕ) (cs d : List ℕ)
    → HasNoDot (c ∷ cs)
    → split_host ((c ∷ cs) ++ (b'.' ∷ d)) ≡ some (c ∷ cs, d)
split_host-domain c cs d n = ap names_of (cut_at-dot (c ∷ cs) d n)

module _ (max : ℕ) {bufs : List (List ℕ)} {es : List (List ℕ × List ℕ)}
    {ss : List (List ℕ × List (List ℕ × List ℕ))} (shows : Shows bufs es ss) where
  read_address-eq :
      (sect key : List ℕ) (out : ℕ × List ℕ)
      → get_private_profile_string (some sect) (some key) (some bad_ip) [] 16 (some bufs) ≡ some out
      → read_address max (some bufs) sect key ≡ some (if_good out.1)
  unfolding read_address
  read_address-eq sect key out e = rw (e, read_address) refl

  -- The addresses that the file gives for keys of a section.
  read_address-inet_ntoa :
      (sect key : List ℕ) (a : ℕ)
      → lookup sect key ss ≡ some (inet_ntoa a)
      → a < 2 ^ 32
      → a ≢ 0
      → read_address max (some bufs) sect key ≡ some (some a)
  read_address-inet_ntoa sect key a e h nonzero =
      read_address-eq sect key (length (inet_ntoa a), inet_ntoa a)
        (get_private_profile_string-lookup sect key (some bad_ip) [] 16 (omega arith) shows
          ∙ ap (λ o. some (answer 16 (or_default o (some bad_ip)))) e
          ∙ ap some (answer-fits 16 (inet_ntoa a) (omega (arith, length-inet_ntoa a))))
      ∙ ap some (if_good-inet_ntoa a h nonzero)

  read_address-none :
      (sect key : List ℕ)
      → lookup sect key ss ≡ none
      → read_address max (some bufs) sect key ≡ some none
  read_address-none sect key e = read_address-eq sect key (answer 16 bad_ip) (
      get_private_profile_string-lookup sect key (some bad_ip) [] 16 (omega arith) shows
      ∙ ap (λ o. some (answer 16 (or_default o (some bad_ip)))) e)

  read_dns-HasServers :
      (sect : List ℕ) (n i : ℕ) (as_read : List ℕ)
      → HasServers sect ss n i as_read
      → read_dns max (some bufs) sect n i ≡ some as_read
  unfolding read_dns
  read_dns-HasServers sect zero i [] h = refl
  read_dns-HasServers sect zero i (a ∷ rest) h = absurd h
  read_dns-HasServers sect (suc n) i [] h = rw (read_address-none sect (dns_key i) h, read_dns) refl
  read_dns-HasServers sect (suc n) i (a ∷ rest) (e, h, nonzero, more) =
      rw (read_address-inet_ntoa sect (dns_key i) a e h nonzero, read_dns)
        (rw (read_dns-HasServers sect n (i + 1) rest more) refl)

  -- The name of the host, with its domain and without one.
  read_host-text :
      (t : List ℕ)
      → lookup main_section hostname_key ss ≡ some t
      → length t < max
      → read_host max (some bufs) ≡ split_host t
  unfolding read_host
  read_host-text t e h =
      let read =
        get_private_profile_string-lookup main_section hostname_key none [] max (omega arith) shows
        ∙ ap (λ o. some (answer max (or_default o none))) e
        ∙ ap some (answer-fits max t h) in
      rw (read, read_host) refl

  -- From a file that gives an address, a mask, a gateway, servers and the name of the host with its
  -- domain, in whatever order of the keys, `__lsck_if_addr_inet_getconfig` makes just these. The
  -- numbers of 32 bits are not 0 and written as `inet_ntoa` does, the name has a dot and fits.
  pub if_addr_inet_getconfig-inet_ntoa :
      (sect : List ℕ) (a mask gw : ℕ) (dns : List ℕ) (c : ℕ) (cs d : List ℕ)
      → (lookup sect ip_address ss ≡ some (inet_ntoa a)) × (a < 2 ^ 32) × (a ≢ 0)
      → (lookup sect ip_mask ss ≡ some (inet_ntoa mask)) × (mask < 2 ^ 32) × (mask ≢ 0)
      → (lookup sect gateway ss ≡ some (inet_ntoa gw)) × (gw < 2 ^ 32) × (gw ≢ 0)
      → HasServers sect ss 4 0 dns
      → lookup main_section hostname_key ss ≡ some ((c ∷ cs) ++ (b'.' ∷ d))
      → length ((c ∷ cs) ++ (b'.' ∷ d)) < max
      → HasNoDot (c ∷ cs)
      → if_addr_inet_getconfig max (some bufs) sect
        ≡ some (
            some (record {
              addr = a;
              netmask = mask;
              gw = some gw;
              dns = dns;
              fixed = false;
              hw_type = 1;
              hw_addrlen = 6;
              hostname = c ∷ cs;
              domainname = d;
            }))
  unfolding if_addr_inet_getconfig read_rest
  if_addr_inet_getconfig-inet_ntoa sect a mask gw dns c cs d (ea, la, na) (em, lm, nm) (eg, lg, ng)
        servers host fits bare =
      let named : read_host max (some bufs) ≡ some (c ∷ cs, d) =
        read_host-text ((c ∷ cs) ++ (b'.' ∷ d)) host fits ∙ split_host-domain c cs d bare in
      rw
        (
          read_address-inet_ntoa sect ip_address a ea la na,
          read_address-inet_ntoa sect ip_mask mask em lm nm,
          if_addr_inet_getconfig,
        )
        (rw (read_address-inet_ntoa sect gateway gw eg lg ng, read_rest)
          (rw (read_dns-HasServers sect 4 0 dns servers) (rw named refl)))
