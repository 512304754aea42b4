-- ===== src/Config/Address.antt =====
-- `__lsck_if_addr_inet_loopback` and `__lsck_if_addr_inet_getconfig` of src/addr.c. `malloc` has the
-- memory; the file is what `fopen` gives for the configuration file, and the size of a host's name,
-- MAXGETHOSTNAME of the C library, a parameter.
use libsocket.Base.{ℕ, zero, suc, ◌+◌, ◌==◌, Bool, true, false, Option, none, some, List, [], ◌∷◌}
use libsocket.IfIndex.{same_name}
use libsocket.Inet.Order.{htonl}
use libsocket.Inet.Text.{inet_aton}
use libsocket.Config.Profile.{get_private_profile_string}

-- LSCK_IF_ADDR_INET of include/lsck/if.h: `gw` is none where `gw_present` is not set, the list `dns`
-- has the entries that are set, the others being 0, and the address of the hardware, which nobody
-- sets here, is left out.
pub record IfAddrInet : Type 0 where
  pub addr : ℕ
  pub netmask : ℕ
  pub gw : Option ℕ
  pub dns : List ℕ
  pub fixed : Bool
  pub hw_type : ℕ
  pub hw_addrlen : ℕ
  pub hostname : List ℕ
  pub domainname : List ℕ

abbrev pub if_addr_inet_loopback : IfAddrInet
if_addr_inet_loopback = record {
  addr = htonl 0x7f000001;
  netmask = htonl 0xff000000;
  gw = none;
  dns = [];
  fixed = true;
  hw_type = 0;
  hw_addrlen = 0;
  hostname = [];
  domainname = [];
}

-- BAD_IP and the names of the keys.
abbrev pub bad_ip : List ℕ
bad_ip = b'0' ∷ (b'.' ∷ (b'0' ∷ (b'.' ∷ (b'0' ∷ (b'.' ∷ (b'0' ∷ []))))))

abbrev pub main_section : List ℕ
main_section = b'm' ∷ (b'a' ∷ (b'i' ∷ (b'n' ∷ [])))

abbrev pub hostname_key : List ℕ
hostname_key = b'h' ∷ (b'o' ∷ (b's' ∷ (b't' ∷ (b'n' ∷ (b'a' ∷ (b'm' ∷ (b'e' ∷ [])))))))

abbrev pub ip_address : List ℕ
ip_address = b'I' ∷ (b'P' ∷ (b'A' ∷ (b'd' ∷ (b'd' ∷ (b'r' ∷ (b'e' ∷ (b's' ∷ (b's' ∷ []))))))))

abbrev pub ip_mask : List ℕ
ip_mask = b'I' ∷ (b'P' ∷ (b'M' ∷ (b'a' ∷ (b's' ∷ (b'k' ∷ [])))))

abbrev pub gateway : List ℕ
gateway = b'G' ∷ (b'a' ∷ (b't' ∷ (b'e' ∷ (b'w' ∷ (b'a' ∷ (b'y' ∷ []))))))

abbrev pub dns_key : ℕ → List ℕ
dns_key i =
    b'D'
    ∷ (b'N'
        ∷ (b'S' ∷ ((b'1' + i) ∷ b'A' ∷ (b'd' ∷ (b'd' ∷ (b'r' ∷ (b'e' ∷ (b's' ∷ (b's' ∷ [])))))))))

-- The text before the first `d`, and the text behind it where there is one (`strchr`).
abbrev pub cut_at : ℕ → List ℕ → List ℕ × Option (List ℕ)
cut_at d [] = ([], none)
cut_at d (c ∷ cs) = elim (c == d) [
  | true ↦ ([], some cs)
  | false ↦ (c ∷ (cut_at d cs).0, (cut_at d cs).1)
]

-- What is read of a text for an address: none where it is bad.
abbrev pub if_good : List ℕ → Option ℕ
if_good addrbuf = elim (same_name addrbuf bad_ip) [ true ↦ none | false ↦ inet_aton addrbuf ]

-- The two names in a text, both empty in an empty one; none where the name has no dot, as the second
-- `strcpy` has no source then.
abbrev pub split_host : List ℕ → Option (List ℕ × List ℕ)
split_host [] = some ([], [])
split_host (c ∷ cs) = elim ((cut_at b'.' (c ∷ cs)).1) [
  | none ↦ none
  | some domain ↦ some ((cut_at b'.' (c ∷ cs)).0, domain)
]

-- A whole that is none, here and below, is a read or a write that C leaves undefined.
module _ (maxgethostname : ℕ) (file : Option (List (List ℕ))) where
  -- An address of the section, none where it is missing or bad. The buffer `addrbuf` has 16 bytes.
  unfoldable pub read_address : List ℕ → List ℕ → Option (Option ℕ)
  read_address sect key =
      elim (get_private_profile_string (some sect) (some key) (some bad_ip) [] 16 file) [
        | none ↦ none
        | some out ↦ some (if_good out.1)
      ]

  -- The loop over the servers, of which `n` are to come, from the number `i` on.
  unfoldable pub read_dns : List ℕ → ℕ → ℕ → Option (List ℕ)
  read_dns sect zero i = some []
  read_dns sect (suc n) i = elim (read_address sect (dns_key i)) [
    | none ↦ none
    | some none ↦ some []
    | some (some a) ↦ elim (read_dns sect n (i + 1)) [ none ↦ none | some dns ↦ some (a ∷ dns) ]
  ]

  -- The name of the host and of its domain.
  unfoldable pub read_host : Option (List ℕ × List ℕ)
  read_host =
      elim (get_private_profile_string (some main_section) (some hostname_key) none []
        maxgethostname file) [ none ↦ none | some out ↦ split_host out.1 ]

  -- What follows the address and the mask.
  unfoldable pub read_rest : List ℕ → ℕ → ℕ → Option (Option IfAddrInet)
  read_rest sect addr netmask = elim (read_address sect gateway) [
    | none ↦ none
    | some gw ↦ elim (read_dns sect 4 0) [
      | none ↦ none
      | some dns ↦ elim read_host [
        | none ↦ none
        | some (hostname, domainname) ↦ some (
            some (record {
              addr = addr;
              netmask = netmask;
              gw = gw;
              dns = dns;
              fixed = false;
              hw_type = 1;
              hw_addrlen = 6;
              hostname = hostname;
              domainname = domainname;
            }))
      ]
    ]
  ]

  -- `__lsck_if_addr_inet_getconfig`, where there is a configuration file: the result is none where
  -- it is NULL.
  unfoldable pub if_addr_inet_getconfig : List ℕ → Option (Option IfAddrInet)
  unfolding read_rest
  if_addr_inet_getconfig sect = elim (read_address sect ip_address) [
    | none ↦ none
    | some none ↦ some none
    | some (some addr) ↦ elim (read_address sect ip_mask) [
      | none ↦ none
      | some none ↦ some none
      | some (some netmask) ↦ read_rest sect addr netmask
    ]
  ]
