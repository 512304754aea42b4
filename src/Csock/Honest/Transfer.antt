-- ===== src/Csock/Honest/Transfer.antt =====
-- `recvfrom` and `sendto` of src/csock, which change the blocking mode and bind the socket.
use libsocket.Base.{
  ℕ, ◌==◌, ◌&&◌, not, Bool, true, false, Option, none, some, List, length, ◌≡◌, arith, Option-cases,
  Bool-cases, inl, inr, ltb, if◌then◌else◌, memcpy, bzero, leb,
}
use libsocket.Base.Int.{ℤ, pos, minus_one, ◌==ℤ◌}
use libsocket.Csock.Calls.{bind}
use libsocket.Csock.Names.{Inet, getsockname}
use libsocket.Csock.Transfer.{
  sendto, sendto_bound, bind_any, name_bound, recvfrom, recvfrom_named, flip, any_address,
}
use libsocket.Csock.Types.{Driver, Csock, store_in, sockaddr_in_size}
use libsocket.Layer.Sound.{IsSound}
use libsocket.Layer.Types.{Errno, sock_dgram}
use libsocket.Csock.Honest.Mild.{
  Mild, length-memcpy, length-bzero, Mild-refl, Mild-eq, Mild-trans, Mild-named,
}
use libsocket.Csock.Honest.Calls.{Same, bind-Same, getsockname-Same, set_blocking-Mild}

module _ {E : Type 0} (driver : Driver E) where
  pub flip-Mild : (b : Bool) (c : Csock E) → IsSound c.sock → Mild c.sock (flip driver b c).sock
  flip-Mild b c s = elim (Bool-cases (c.version == 0)) [
    | inl e ↦ rw e (set_blocking-Mild driver b c s)
    | inr e ↦ rw e (Mild-refl c.sock s)
  ]

  -- The end of `recvfrom_named` changes `errno` alone.
  answered :
      (c2 d : Csock E) (failed : Bool) (e : Errno) (ret : ℤ) (buf : List ℕ) (port addr : ℕ)
      (from : Option (List ℕ × ℕ)) (a : ℤ × List ℕ × Option (List ℕ × ℕ))
      → (elim from as (λ _. Option ((ℤ × List ℕ × Option (List ℕ × ℕ)) × Csock E)) [
        | none ↦ some ((ret, buf, none), (if failed then record c2 { errno = e } else c2))
        | some (name, size) ↦ elim (store_in name port addr) [
          | none ↦ none
          | some out ↦ some (
            (ret, buf, some (out, sockaddr_in_size)),
            (if failed then record c2 { errno = e } else c2),
          )
        ]
      ])
        ≡ some (a, d)
      → d.sock ≡ c2.sock
  answered c2 d failed e ret buf port addr none a h = ground arith
  answered c2 d failed e ret buf port addr (some x) a h = ground arith

  pub recvfrom_named-Mild :
      (b : List ℕ) (n : ℕ) (from : Option (List ℕ × ℕ)) (c d : Csock E)
      (a : ℤ × List ℕ × Option (List ℕ × ℕ))
      → IsSound c.sock
      → recvfrom_named driver b n from c ≡ some (a, d)
      → Mild c.sock d.sock
  unfolding recvfrom_named
  recvfrom_named-Mild b n from c d a s h =
      let flag = c.sock.blocking in
      let c1 = flip driver flag c in
      let c2 : Csock E = record c1 { env = (driver.recvfrom c1.fd b n c1.env).1 } in
      let first = flip-Mild flag c s in
      let same : d.sock ≡ (flip driver (not flag) c2).sock =
        answered (flip driver (not flag) c2) d _ _ _ _ _ _ from a h in
      rw same (Mild-trans _ _ _ first (flip-Mild (not flag) c2 first.sound))

  pub recvfrom-Mild :
      (b : List ℕ) (n g : ℕ) (from : Option (List ℕ × ℕ)) (c d : Csock E)
      (a : ℤ × List ℕ × Option (List ℕ × ℕ))
      → IsSound c.sock
      → recvfrom driver b n g from c ≡ some (a, d)
      → Mild c.sock d.sock
  unfolding recvfrom
  recvfrom-Mild b n g none c d a s h = elim (Bool-cases (not (g == 0) && not (g == 2))) [
    | inl e ↦ Mild-eq c.sock d.sock s (ground arith)
    | inr e ↦ recvfrom_named-Mild b n none c d a s (rw (e, recvfrom) at h)
  ]
  recvfrom-Mild b n g (some (addr, size)) c d a s h =
      elim (Bool-cases (ltb size sockaddr_in_size)) [
        | inl e ↦ Mild-eq c.sock d.sock s (ground arith)
        | inr f ↦ elim (Bool-cases (not (g == 0) && not (g == 2))) [
          | inl e ↦ Mild-eq c.sock d.sock s (ground arith)
          | inr e ↦ recvfrom_named-Mild b n (some (addr, size)) c d a s (rw (f, e, recvfrom) at h)
        ]
      ]

  pub name_bound-Mild :
      (inet : List Inet) (c d : Csock E)
      → IsSound c.sock
      → c.sock.bound ≡ false
      → name_bound driver inet c ≡ some d
      → Mild c.sock d.sock
  unfolding name_bound
  name_bound-Mild inet c d s e h =
      elim (Option-cases (getsockname driver inet (any_address driver) sockaddr_in_size c)) [
        | inl n ↦ ground arith
        | inr (((ret, name, len), c'), n) ↦
            let kept : c'.sock ≡ c.sock =
              getsockname-Same driver inet _ _ c c' (ret, name, len) n in
            elim (Option-cases (memcpy c'.sock.sockname name len)) [
              | inl m ↦ ground arith
              | inr (out, m) ↦
                  let size = length-memcpy c'.sock.sockname name out len m in
                  let same : d.sock
                      ≡ record c'.sock { sockname = out; socknamelen = len; bound = true } =
                    ground arith in
                  rw (same, kept) (Mild-named c.sock out len true s e (rw kept at size))
            ]
      ]

  pub bind_any-Mild :
      (inet : List Inet) (c d : Csock E) (r : ℤ)
      → IsSound c.sock
      → c.sock.bound ≡ false
      → bind_any driver inet c ≡ some (r, d)
      → Mild c.sock d.sock
  unfolding bind_any
  bind_any-Mild inet c d r s e h =
      elim (Option-cases (bind driver (any_address driver) sockaddr_in_size c)) [
        | inl n ↦ ground arith
        | inr ((ret, c'), n) ↦
            let kept : c'.sock ≡ c.sock =
              bind-Same driver (any_address driver) sockaddr_in_size c c' ret n in
            elim (Bool-cases (ret ==ℤ pos 0)) [
              | inl z ↦ elim (Option-cases (name_bound driver inet c')) [
                | inl m ↦ ground arith
                | inr (c'', m) ↦
                    let named = name_bound-Mild inet c' c'' (rw kept s) (rw kept e) m in
                    let same : d ≡ c'' = ground arith in rw (same, ← kept) named
              ]
              | inr z ↦ elim (Option-cases (bzero c'.sock.sockname 16)) [
                | inl m ↦ ground arith
                | inr (out, m) ↦
                    let size = length-bzero c'.sock.sockname out 16 m in
                    let same : d.sock
                        ≡ record c'.sock { sockname = out; socknamelen = 0; bound = false } =
                      ground arith in
                    rw (same, kept) (Mild-named c.sock out 0 false s e (rw kept at size))
              ]
            ]
      ]

  pub sendto_bound-Same :
      (b : List ℕ) (n g : ℕ) (to : List ℕ) → Same driver (sendto_bound driver b n g to)
  unfolding sendto_bound
  sendto_bound-Same b n g to c d r h = ground arith

  pub sendto-Mild :
      (inet : List Inet) (b : List ℕ) (n g : ℕ) (to : Option (List ℕ)) (m : ℕ) (c d : Csock E)
      (r : ℤ)
      → IsSound c.sock
      → sendto driver inet b n g to m c ≡ some (r, d)
      → Mild c.sock d.sock
  unfolding sendto
  sendto-Mild inet b n g none m c d r s h = ground arith
  sendto-Mild inet b n g (some to) m c d r s h = elim (Bool-cases (not (leb 8 (length to)))) [
    | inl e ↦ ground arith
    | inr e ↦ elim (Bool-cases (c.sock.type == sock_dgram && not c.sock.bound)) [
      | inr f ↦ Mild-eq c.sock d.sock s (sendto_bound-Same b n g to c d r (rw (e, f, sendto) at h))
      | inl f ↦ elim (Option-cases (bind_any driver inet c)) [
        | inl k ↦ ground arith
        | inr ((ret, c'), k) ↦
            let bound = bind_any-Mild inet c c' ret s (ground arith) k in
            elim (Bool-cases (ret ==ℤ minus_one)) [
              | inl z ↦ let same : d ≡ c' = ground arith in rw same bound
              | inr z ↦ rw (sendto_bound-Same b n g to c' d r (rw (e, f, k, z, sendto) at h)) bound
            ]
      ]
    ]
  ]
