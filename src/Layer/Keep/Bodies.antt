-- ===== src/Layer/Keep/Bodies.antt =====
-- The functions that work on one descriptor, where it is sound: src/listen.c, src/shtdwn.c,
-- src/fcntl.c, src/sckopt.c, src/recv.c and src/select.c.
use libsocket.Base.{
  ℕ, Bool, true, false, not, ◌&&◌, ◌==◌, Option, none, some, List, ◌≡◌, refl, ◌∙◌, arith, Returns,
  Returns-mono, if-Returns, elim-Returns,
}
use libsocket.Base.Int.{ℤ, pos, neg, minus_one, ◌==ℤ◌}
use libsocket.Layer.Bind.{listen_body}
use libsocket.Layer.Interface.{Ctx}
use libsocket.Layer.Options.{
  shutdown_body, shut_flags, is_how, fcntl_body, fcntlsocket_emulated, f_getown, f_setown,
  setsockopt_body,
}
use libsocket.Layer.Sound.{
  IsSound, Keeps, IfGiven-elim, Keeps-refl, Keeps-trans, Keeps-errno, Keeps-sock, KeepsSound,
}
use libsocket.Layer.Transfer.{recv_body, recvfrom_body, select_body}
use libsocket.Layer.Types.{Socket, sock_stream}
use libsocket.Layer.World.{Sys}

module _ {E : Type 0} (sys : Sys E) where
  not-false : {b : Bool} → not b ≡ false → b ≡ true
  not-false h = ground arith

  is_type : {a b : ℕ} → not (a == b) ≡ false → a ≡ b
  is_type h = ground arith

  listen-IsSound :
      (b : ℤ) (k : Socket)
      → IsSound k
      → k.bound ≡ true
      → k.type ≡ sock_stream
      → IsSound (record k { listening = true; backlog = b })
  listen-IsSound b k h e t = record {
    has_interface = h.has_interface;
    sockname_size = h.sockname_size;
    peername_size = h.peername_size;
    peer_fits = h.peer_fits;
    listens_bound = λ _. e;
    listens_stream = λ _. t;
  }

  pub listen_body-KeepsSound : (b : ℤ) → KeepsSound sys (listen_body b)
  unfolding listen_body
  listen_body-KeepsSound b i c honest sound =
      if-Returns (not (c.sock.type == sock_stream)) _ _ _ (λ _. Keeps-errno sys c _ sound)
        (λ stream.
          if-Returns (not c.sock.bound) _ _ _ (λ _. Keeps-errno sys c _ sound)
            (λ bound.
              IfGiven-elim sys _ i.listen _ _ _ honest.listen (Keeps-errno sys c _ sound) (λ f h.
                if-Returns ((f b c).0 ==ℤ minus_one) _ _ _ (λ _. (h b c sound).0.keeps)
                  (λ _.
                    Keeps-sock sys c (f b c).1 _ (h b c sound).0.keeps
                      (listen-IsSound b _ (h b c sound).0.keeps.sound
                        ((h b c sound).1 ∙ not-false bound)
                        ((h b c sound).0.same_type ∙ is_type stream))
                      refl))))

  pub shut_flags-IsSound : (how : ℤ) (k : Socket) → IsSound k → IsSound (shut_flags how k)
  unfolding shut_flags
  shut_flags-IsSound how k h = ground arith

  shut_flags-fd : (how : ℤ) (k : Socket) → (shut_flags how k).fd ≡ k.fd
  unfolding shut_flags
  shut_flags-fd how k = ground arith

  pub shutdown_body-KeepsSound : (how : ℤ) → KeepsSound sys (shutdown_body how)
  unfolding shutdown_body
  shutdown_body-KeepsSound how i c honest sound =
      if-Returns (not c.sock.connected) _ _ _ (λ _. Keeps-errno sys c _ sound)
        (λ _.
          if-Returns (not (is_how how)) _ _ _ (λ _. Keeps-errno sys c _ sound)
            (λ _.
              IfGiven-elim sys _ i.shutdown _ _ _ honest.shutdown (Keeps-errno sys c _ sound)
                (λ f h.
                  if-Returns ((f how c).0 ==ℤ pos 0) _ _ _
                    (λ _.
                      Keeps-sock sys c (f how c).1 _ (h how c sound).keeps
                        (shut_flags-IsSound how _ (h how c sound).keeps.sound)
                        (shut_flags-fd how _))
                    (λ _. (h how c sound).keeps))))

  urgent-IsSound : (k : Socket) (pid : ℤ) → IsSound k → IsSound (record k { urgent_pid = pid })
  urgent-IsSound k pid h = ground arith

  pub select_body-KeepsSound : (event : ℕ) → KeepsSound sys (select_body event)
  unfolding select_body
  select_body-KeepsSound event i c honest sound =
      IfGiven-elim sys _ i.select _ _ _ honest.select (Keeps-errno sys c _ sound)
        (λ f h. (h event c sound).keeps)

  emulated-KeepsSound :
      (command request : ℤ) (c : Ctx E)
      → IsSound c.sock
      → Returns (fcntlsocket_emulated sys command request c) (λ a c'. Keeps sys c c')
  unfolding fcntlsocket_emulated
  emulated-KeepsSound command request c sound =
      if-Returns (request ==ℤ f_getown) _ _ _ (λ _. Keeps-refl sys c sound)
        (λ _.
          if-Returns (request ==ℤ f_setown) _ _ _
            (λ _.
              if-Returns (not (request ==ℤ sys.getpid) && not (request ==ℤ neg sys.getpid)) _ _ _
                (λ _. Keeps-errno sys c _ sound)
                (λ _.
                  Keeps-sock sys c c _ (Keeps-refl sys c sound)
                    (urgent-IsSound c.sock request sound) refl))
            (λ _. Keeps-errno sys c _ sound))

  pub fcntl_body-KeepsSound :
      (command request : ℤ) → KeepsSound sys (fcntl_body sys command request)
  unfolding fcntl_body
  fcntl_body-KeepsSound command request i c honest sound =
      IfGiven-elim sys _ i.fcntl _ _ _ honest.fcntl (emulated-KeepsSound command request c sound)
        (λ f h.
          elim-Returns (f command request c).0 _ _ _
            (λ _.
              Returns-mono (fcntlsocket_emulated sys command request (f command request c).1) _ _
                (emulated-KeepsSound command request _ (h command request c sound).keeps.sound)
                (λ a c' k. Keeps-trans sys c _ c' (h command request c sound).keeps k))
            (λ rv _. (h command request c sound).keeps))

  pub setsockopt_body-KeepsSound :
      (level optname : ℕ) (optval : Option (List ℕ)) (optlen : ℕ)
      → KeepsSound sys (setsockopt_body level optname optval optlen)
  unfolding setsockopt_body
  setsockopt_body-KeepsSound l o none n i c honest sound = Keeps-errno sys c _ sound
  setsockopt_body-KeepsSound l o (some v) n i c honest sound =
      IfGiven-elim sys _ i.setsockopt _ _ _ honest.setsockopt (Keeps-errno sys c _ sound) (λ f h.
        elim-Returns (f l o v n c).0 _ _ _
          (λ _.
            Keeps-trans sys c _ _ (h l o v n c sound).keeps
              (Keeps-errno sys _ _ (h l o v n c sound).keeps.sound))
          (λ rv _. (h l o v n c sound).keeps))

  pub recv_body-KeepsSound :
      (buf : Option (List ℕ)) (len flags : ℕ) → KeepsSound sys (recv_body buf len flags)
  unfolding recv_body
  recv_body-KeepsSound none len flags i c honest sound =
      if-Returns (c.sock.type == sock_stream && not c.sock.connected) _ _ _
        (λ _. Keeps-errno sys c _ sound) (λ _. Keeps-errno sys c _ sound)
  recv_body-KeepsSound (some b) len flags i c honest sound =
      if-Returns (c.sock.type == sock_stream && not c.sock.connected) _ _ _
        (λ _. Keeps-errno sys c _ sound)
        (λ _.
          if-Returns (not c.sock.inbound) _ _ _ (λ _. Keeps-refl sys c sound)
            (λ _.
              IfGiven-elim sys _ i.recv _ _ _ honest.recv (Keeps-errno sys c _ sound)
                (λ f h. (h b len flags c sound).keeps)))

  pub recvfrom_body-KeepsSound :
      (buf : Option (List ℕ)) (len flags : ℕ) (lost : Bool) (from : Option (List ℕ × ℕ))
      → KeepsSound sys (recvfrom_body buf len flags lost from)
  unfolding recvfrom_body
  recvfrom_body-KeepsSound none len flags lost from i c honest sound = Keeps-errno sys c _ sound
  recvfrom_body-KeepsSound (some b) len flags lost from i c honest sound =
      if-Returns lost _ _ _ (λ _. Keeps-errno sys c _ sound)
        (λ _.
          if-Returns (not c.sock.inbound) _ _ _ (λ _. Keeps-refl sys c sound)
            (λ _.
              IfGiven-elim sys _ i.recvfrom _ _ _ honest.recvfrom (Keeps-errno sys c _ sound)
                (λ f h. (h b len flags from c sound).keeps)))
