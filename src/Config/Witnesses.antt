-- ===== src/Config/Witnesses.antt =====
-- The theorems about the configuration of src/, applied to a small file.
use libsocket.Base.{
  ℕ, true, false, none, some, List, [], ◌∷◌, ◌++◌, ◌≡◌, refl, arith, All, Returns, ◌>>◌,
}
use libsocket.Inet.Text.{decimal, inet_aton, inet_ntoa}
use libsocket.Config.Files.{Settings, config_file, getfile, setdir, setfile}
use libsocket.Config.Laws.Files.{getfile-again}
use libsocket.Config.Profile.{get_private_profile_string, answer}
use libsocket.Config.Profile.Lookup.{
  Shows, at_end, comment, header, setting, get_private_profile_string-lookup,
}
use libsocket.Config.Address.{
  main_section, hostname_key, ip_address, ip_mask, gateway, if_addr_inet_getconfig,
}
use libsocket.Config.Servers.{
  AddrTable, no_table, inet_table, resolv_line, table_servers, getdnsaddrs,
}
use libsocket.Config.Hosts.{
  HostNames, named, tidy, gethostname, sethostname, getdomainname, setdomainname,
}
use libsocket.Config.Laws.Servers.{IsAddress, getdnsaddrs-IsAddress, getdnsaddrs_last}
use libsocket.Config.Laws.Hosts.{full_name, gethostname-setdomainname}
use libsocket.Config.Laws.Address.{if_addr_inet_getconfig-inet_ntoa}

-- A file with the sections `main` and `if`.
abbrev lines : List (List ℕ)
lines =
    ([] ++ ((b'[' ∷ ((b'm' ∷ (b'a' ∷ (b'i' ∷ (b'n' ∷ [])))) ++ (b']' ∷ []))) ++ (10 ∷ [])))
    ∷ (([] ++ (b';' ∷ (b'x' ∷ [])))
        ∷ (((32 ∷ [])
              ++ (((hostname_key ++ (32 ∷ []))
                    ++ (b'=' ∷ ((32 ∷ []) ++ (b'a' ∷ (b'b' ∷ (b'.' ∷ (b'c' ∷ (b'd' ∷ []))))))))
                  ++ (10 ∷ [])))
            ∷ (([] ++ ((b'[' ∷ ((b'i' ∷ (b'f' ∷ [])) ++ (b']' ∷ []))) ++ (10 ∷ [])))
                ∷ (([]
                      ++ (((ip_address ++ []) ++ (b'=' ∷ ([] ++ (inet_ntoa 67305985))))
                          ++ (10 ∷ [])))
                    ∷ (([]
                          ++ (((ip_mask ++ []) ++ (b'=' ∷ ([] ++ (inet_ntoa 16777215))))
                              ++ (10 ∷ [])))
                        ∷ (([]
                              ++ (((gateway ++ []) ++ (b'=' ∷ ([] ++ (inet_ntoa 17000000))))
                                  ++ (10 ∷ [])))
                            ∷ []))))))

abbrev if_section : List ℕ
if_section = b'i' ∷ (b'f' ∷ [])

abbrev host_text : List ℕ
host_text = b'a' ∷ (b'b' ∷ (b'.' ∷ (b'c' ∷ (b'd' ∷ []))))

abbrev sections : List (List ℕ × List (List ℕ × List ℕ))
sections =
    (main_section, (hostname_key, host_text) ∷ [])
    ∷ ((
      if_section,
      (ip_address, inet_ntoa 67305985)
          ∷ ((ip_mask, inet_ntoa 16777215) ∷ ((gateway, inet_ntoa 17000000) ∷ [])),
    )
        ∷ [])

lines-Shows : Shows lines [] sections
unfolding inet_ntoa decimal
lines-Shows =
    header [] (b'm' ∷ (b'a' ∷ (b'i' ∷ (b'n' ∷ [])))) (10 ∷ []) tt (refl, tt)
      (comment [] b';' (b'x' ∷ []) tt refl (
        setting (32 ∷ []) hostname_key (32 ∷ []) (32 ∷ [])
          (b'a' ∷ (b'b' ∷ (b'.' ∷ (b'c' ∷ (b'd' ∷ []))))) (10 ∷ []) (refl, tt) (refl, refl, refl)
          refl (refl, (refl, (refl, (refl, (refl, (refl, (refl, (refl, tt)))))))) (refl, tt)
          (refl, tt) (refl, refl) (refl, tt)
          (header [] (b'i' ∷ (b'f' ∷ [])) (10 ∷ []) tt (refl, tt)
            (setting [] ip_address [] [] (inet_ntoa 67305985) (10 ∷ []) tt (refl, refl, refl) refl
              (refl, (refl, (refl, (refl, (refl, (refl, (refl, (refl, (refl, tt))))))))) tt tt
              (refl, refl) (refl, tt)
              (setting [] ip_mask [] [] (inet_ntoa 16777215) (10 ∷ []) tt (refl, refl, refl) refl
                (refl, (refl, (refl, (refl, (refl, (refl, tt)))))) tt tt (refl, refl) (refl, tt)
                (setting [] gateway [] [] (inet_ntoa 17000000) (10 ∷ []) tt (refl, refl, refl) refl
                  (refl, (refl, (refl, (refl, (refl, (refl, (refl, tt))))))) tt tt (refl, refl)
                  (refl, tt) at_end))))))

get_private_profile_string-lookup_example :
    get_private_profile_string (some main_section) (some hostname_key) none [] 4 (some lines)
    ≡ some (answer 4 host_text)
get_private_profile_string-lookup_example =
    get_private_profile_string-lookup main_section hostname_key none [] 4 (omega arith) lines-Shows

if_addr_inet_getconfig-inet_ntoa_example :
    if_addr_inet_getconfig 64 (some lines) if_section
    ≡ some (
        some (record {
          addr = 67305985;
          netmask = 16777215;
          gw = some 17000000;
          dns = [];
          fixed = false;
          hw_type = 1;
          hw_addrlen = 6;
          hostname = b'a' ∷ (b'b' ∷ []);
          domainname = b'c' ∷ (b'd' ∷ []);
        }))
if_addr_inet_getconfig-inet_ntoa_example =
    if_addr_inet_getconfig-inet_ntoa 64 lines-Shows if_section 67305985 16777215 17000000 [] b'a'
      (b'b' ∷ []) (b'c' ∷ (b'd' ∷ [])) (refl, omega arith, λ e. omega arith)
      (refl, omega arith, λ e. omega arith) (refl, omega arith, λ e. omega arith) refl refl
      (omega arith) (refl, (refl, tt))

-- Two lines of resolv.conf.
abbrev first_server : List ℕ
first_server =
    b'n'
    ∷ (b'a'
        ∷ (b'm'
            ∷ (b'e'
                ∷ (b's'
                    ∷ (b'e'
                        ∷ (b'r'
                            ∷ (b'v'
                                ∷ (b'e'
                                    ∷ (b'r'
                                        ∷ (32
                                            ∷ (b'1'
                                                ∷ (b'.'
                                                    ∷ (b'2'
                                                        ∷ (b'.'
                                                            ∷ (b'3'
                                                            ∷ (b'.' ∷ (b'4' ∷ [])))))))))))))))))

abbrev last_server : List ℕ
last_server =
    b'n'
    ∷ (b'a'
        ∷ (b'm'
            ∷ (b'e'
                ∷ (b's'
                    ∷ (b'e'
                        ∷ (b'r'
                            ∷ (b'v'
                                ∷ (b'e'
                                    ∷ (b'r'
                                        ∷ (32
                                            ∷ (b'5'
                                                ∷ (b'.'
                                                    ∷ (b'6'
                                                        ∷ (b'.'
                                                            ∷ (b'7'
                                                            ∷ (b'.' ∷ (b'8' ∷ [])))))))))))))))))

abbrev tables : List AddrTable
tables =
    no_table
    ∷ (inet_table (
          (record {
            addr = 1;
            netmask = 255;
            gw = none;
            dns = 67305985 ∷ [];
            fixed = true;
            hw_type = 1;
            hw_addrlen = 6;
            hostname = [];
            domainname = [];
          })
          ∷ [])
        ∷ [])

getdnsaddrs-IsAddress_example : All IsAddress (getdnsaddrs (some (first_server ∷ [])) tables)
getdnsaddrs-IsAddress_example =
    getdnsaddrs-IsAddress (some (first_server ∷ [])) tables (((omega arith, tt), tt), tt)

last_line :
    resolv_line last_server ≡ some (b'5' ∷ (b'.' ∷ (b'6' ∷ (b'.' ∷ (b'7' ∷ (b'.' ∷ (b'8' ∷ [])))))))
unfolding resolv_line inet_aton
last_line = refl

getdnsaddrs_last_example :
    getdnsaddrs (some ((first_server ∷ []) ++ (last_server ∷ []))) tables
    ≡ (b'5' ∷ (b'.' ∷ (b'6' ∷ (b'.' ∷ (b'7' ∷ (b'.' ∷ (b'8' ∷ []))))))) ∷ table_servers tables
getdnsaddrs_last_example =
    getdnsaddrs_last (first_server ∷ []) last_server
      (b'5' ∷ (b'.' ∷ (b'6' ∷ (b'.' ∷ (b'7' ∷ (b'.' ∷ (b'8' ∷ []))))))) [] tables last_line tt

abbrev no_names : HostNames
no_names = record { hostname = none; nodename = []; domainname = none }

gethostname-setdomainname_example :
    Returns
      ((sethostname 64 (b'A' ∷ (b'.' ∷ (b'b' ∷ []))) 10
          >> setdomainname 64 (some (b'c' ∷ (b'.' ∷ (b'd' ∷ [])))) 5)
        no_names)
      (λ a s.
        (getdomainname 64 true 9 s ≡ some (named (b'c' ∷ (b'.' ∷ (b'd' ∷ []))), s))
        × Returns (gethostname 64 none none [] [] true 20 s) (λ b s'.
          b ≡ named (tidy (full_name (b'A' ∷ (b'.' ∷ (b'b' ∷ []))) (b'c' ∷ (b'.' ∷ (b'd' ∷ [])))))))
gethostname-setdomainname_example =
    gethostname-setdomainname 64 none none [] [] (b'A' ∷ (b'.' ∷ (b'b' ∷ [])))
      (b'c' ∷ (b'.' ∷ (b'd' ∷ []))) 10 5 9 20 no_names (omega arith) (omega arith) (omega arith)
      (omega arith) (omega arith) (omega arith) (omega arith) (omega arith)

-- The first name of the file, from the directory `a\b` of LSCK.
abbrev unset : Settings
unset = record { configdir = none; configdirset = false; configfile = none; configfileset = false }

abbrev made_name : List ℕ
made_name = (b'a' ∷ (b'/' ∷ (b'b' ∷ []))) ++ config_file

abbrev made : Settings
made = record {
  configdir = some (b'a' ∷ (b'/' ∷ (b'b' ∷ [])));
  configdirset = true;
  configfile = some made_name;
  configfileset = true;
}

first_call :
    getfile (some (b'a' ∷ (b'\\' ∷ (b'b' ∷ [])))) none 80 (some []) unset
    ≡ some (some made_name, made)
unfolding getfile
first_call = refl

getfile-again_example :
    (getfile none none 80 (some []) made ≡ some (some made_name, made))
    × (getfile none none 80 (some []) (setdir (b'c' ∷ []) made).1
        ≡ some (some made_name, (setdir (b'c' ∷ []) made).1))
    × ((setfile none made).0 ≡ some made_name)
    × (getfile none none 80 (some []) (setfile none made).1 ≡ some (none, (setfile none made).1))
getfile-again_example =
    getfile-again (some (b'a' ∷ (b'\\' ∷ (b'b' ∷ [])))) none none none 80 (some []) (some []) unset
      made made_name (b'c' ∷ []) none first_call
