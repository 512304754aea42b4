-- ===== src/Unix/Stream/Sending.antt =====
-- The sending loop of src/unix/u_send.c and the bytes that its messages carry.
use libsocket.Base.{
  ℕ, zero, suc, ◌+◌, ◌-◌, ◌≤◌, ◌<◌, Bool, true, false, ltb, Option, none, some, List, [], ◌∷◌, ◌++◌,
  length, take, drop, ◌≡◌, refl, sym, ap, ◌∙◌, inl, inr, arith, Returns, if-Returns, Returns-mono,
  length-append, length-take, length-drop, append_assoc, append-nil,
}
use libsocket.Base.Int.{ℤ, pos, minus_one, ◌==ℤ◌}
use libsocket.Unix.Message.{header_bytes, length-header_bytes}
use libsocket.Unix.Send.{
  slice, fill, write_packet, send_len, data_header, send_packet, send_loop, send_stream,
}
use libsocket.Unix.Stream.{frame_header, IsFrame, Carries, IsMailslot}
use libsocket.Unix.Stream.Lists.{take-drop-append, drop-drop, drop-all}
use libsocket.Unix.Types.{Secret, Files, Unix, header_size}

pub Carries-append :
    (Stray : List ℕ → Type 0) (s : Secret) (q : List (List ℕ)) (bytes m payload : List ℕ)
    → Carries Stray s q bytes
    → IsFrame s m payload
    → Carries Stray s (q ++ (m ∷ [])) (bytes ++ payload)
Carries-append Stray s [] bytes m payload h f =
    inr (payload, [], f, rw (h, append-nil payload) refl, refl)
Carries-append Stray s (x ∷ q) bytes m payload (inl (n, h)) f =
    inl (n, Carries-append Stray s q bytes m payload h f)
Carries-append Stray s (x ∷ q) bytes m payload (inr (p, rest, g, e, h)) f = inr (
  p,
  rest ++ payload,
  g,
  rw (e, append_assoc p rest payload) refl,
  Carries-append Stray s q rest m payload h f,
)

module _ {E : Type 0} (files : Files E) (w r : ℤ) (queue : E → List (List ℕ))
    (mail : IsMailslot files w r queue) (Stray : List ℕ → Type 0) where
  -- The sender has written the next `n` bytes.
  pub record Sent (n : ℕ) (payload : List ℕ) (c c' : Unix E) : Type 0 where
    pub same_fd : c'.usock.fd_w ≡ c.usock.fd_w
    pub same_secret : c'.usock.secret ≡ c.usock.secret
    pub advanced : c'.usock.seq_w ≡ c.usock.seq_w + n
    pub carries :
        (s : Secret) (bytes : List ℕ)
        → s ≡ c.usock.secret
        → Carries Stray s (queue c.env) bytes
        → Carries Stray s (queue c'.env) (bytes ++ payload)

  slice-given :
      (msg : List ℕ) (total n : ℕ)
      → total + n ≤ length msg
      → slice msg total n ≡ some (take n (drop total msg))
  unfolding slice
  slice-given msg total n h = ground arith

  frame-fill :
      (c : Unix E) (n : ℕ) (bytes : List ℕ)
      → length bytes ≡ n
      → n ≤ 4060
      → fill (header_bytes (data_header files c n)) bytes
        ≡ some (header_bytes (data_header files c n) ++ bytes)
  unfolding fill
  frame-fill c n bytes e h = ground (arith, length-header_bytes (data_header files c n))

  frame-eq :
      (c : Unix E) (n : ℕ)
      → 1 ≤ n
      → c.usock.seq_w + n < 2147483647
      → data_header files c n ≡ frame_header c.usock.secret c.usock.seq_w n
  unfolding data_header
  frame-eq c n h k =
      ap
        (λ e. record {
          version = 1;
          type = 8;
          secret = c.usock.secret;
          seq_start = c.usock.seq_w;
          seq_end = e;
          offset = 20;
        })
        (omega arith)

  -- The next packet, and what the mailslot does with it.
  written :
      (msg : List ℕ) (total n : ℕ) (c : Unix E)
      → total + n ≤ length msg
      → 1 ≤ n
      → n ≤ 4060
      → c.usock.seq_w + n < 2147483647
      → let bytes = take n (drop total msg) in
        let packet = header_bytes (data_header files c n) ++ bytes in
        (length bytes ≡ n)
        × IsFrame c.usock.secret packet bytes
        × ((files.write w packet c.errno c.env).0 ≡ pos (20 + n))
        × (queue (files.write w packet c.errno c.env).2 ≡ queue c.env ++ (packet ∷ []))
  written msg total n c inside low high numbers =
      let bytes = take n (drop total msg) in
      let packet = header_bytes (data_header files c n) ++ bytes in
      let size : length bytes ≡ n =
        omega (arith, length-take n (drop total msg), length-drop total msg) in
      let whole : length packet ≡ 20 + n = omega (
        arith,
        length-append (header_bytes (data_header files c n)) bytes,
        length-header_bytes (data_header files c n),
        size,
      ) in
      let wrote = mail.writes packet c.errno c.env (omega (arith, whole, high)) in
      (
        size,
        record {
          start = c.usock.seq_w;
          bytes = rw (size, frame-eq c n low numbers) refl;
          not_empty = omega (arith, size, low);
          fits = omega (arith, size, high);
          numbers = omega (arith, size, numbers);
        },
        wrote.0 ∙ ap pos whole,
        wrote.1,
      )

  write_packet-Sent :
      (packet bytes : List ℕ) (n : ℕ) (c : Unix E)
      → c.usock.fd_w ≡ w
      → IsFrame c.usock.secret packet bytes
      → c.usock.seq_w + n < 2147483647
      → (files.write w packet c.errno c.env).0 ≡ pos (20 + n)
      → queue (files.write w packet c.errno c.env).2 ≡ queue c.env ++ (packet ∷ [])
      → Returns (write_packet files packet n c) (λ a c'. (a ≡ true) × Sent n bytes c c')
  unfolding write_packet
  write_packet-Sent packet bytes n c fd frame numbers ret queued =
      if-Returns ((files.write c.usock.fd_w packet c.errno c.env).0 ==ℤ pos (20 + n)) _ _ _
        (λ _. (
          refl,
          record {
            same_fd = refl;
            same_secret = refl;
            advanced = omega arith;
            carries = λ s old e h.
                rw (fd, queued)
                  (Carries-append Stray s (queue c.env) old packet bytes h (rw e frame));
          },
        ))
        (λ e.
          let e' : ((files.write w packet c.errno c.env).0 ==ℤ pos (20 + n)) ≡ false = rw fd at e in
          let e'' : (pos (20 + n) ==ℤ pos (20 + n)) ≡ false = rw ret at e' in absurd (ground arith))

  send_packet-Sent :
      (msg : List ℕ) (total n : ℕ) (c : Unix E)
      → c.usock.fd_w ≡ w
      → total + n ≤ length msg
      → 1 ≤ n
      → n ≤ 4060
      → c.usock.seq_w + n < 2147483647
      → Returns
          (send_packet files msg total n c)
          (λ a c'. (a ≡ true) × Sent n (take n (drop total msg)) c c')
  unfolding send_packet
  send_packet-Sent msg total n c fd inside low high numbers =
      let (size, frame, ret, queued) = written msg total n c inside low high numbers in
      rw (slice-given msg total n inside, send_packet)
        (rw (frame-fill c n (take n (drop total msg)) size high)
          (write_packet-Sent _ _ n c fd frame numbers ret queued))

  turn-Returns :
      (o : Option (Bool × Unix E)) (k : Unix E → Option (ℤ × Unix E)) (Q : Unix E → Type 0)
      (R : ℤ → Unix E → Type 0)
      → Returns o (λ a c'. (a ≡ true) × Q c')
      → ((c' : Unix E) → Q c' → Returns (k c') R)
      → Returns
          (elim o [
            | none ↦ none
            | some (true, c') ↦ k c'
            | some (false, c') ↦ some (minus_one, c')
          ])
          R
  turn-Returns none k Q R h f = h
  turn-Returns (some (true, c)) k Q R h f = f c h.1
  turn-Returns (some (false, c)) k Q R h f = cc

  Sent-trans :
      (a b : ℕ) (xs ys : List ℕ) (c c' c'' : Unix E)
      → Sent a xs c c'
      → Sent b ys c' c''
      → Sent (a + b) (xs ++ ys) c c''
  Sent-trans a b xs ys c c' c'' h k = record {
    same_fd = k.same_fd ∙ h.same_fd;
    same_secret = k.same_secret ∙ h.same_secret;
    advanced = omega (arith, h.advanced, k.advanced);
    carries = λ s old e g.
        let all : Carries Stray s (queue c''.env) ((old ++ xs) ++ ys) =
          k.carries s (old ++ xs) (e ∙ sym h.same_secret) (h.carries s old e g) in
        rw (append_assoc old xs ys) at all;
  }

  Sent-eq :
      (a b : ℕ) (xs ys : List ℕ) (c c' : Unix E) → a ≡ b → ys ≡ xs → Sent a xs c c' → Sent b ys c c'
  Sent-eq a b xs ys c c' e f h = rw (f, sym e) h

  Sent-none : (c : Unix E) → Sent 0 [] c c
  Sent-none c = record {
    same_fd = refl;
    same_secret = refl;
    advanced = omega arith;
    carries = λ s old e h. rw (append-nil old) h;
  }

  send_loop-Sent :
      (fuel : ℕ) (msg : List ℕ) (total : ℕ) (c : Unix E)
      → c.usock.fd_w ≡ w
      → total ≤ length msg
      → length msg - total < fuel
      → length msg < 2147483648
      → c.usock.seq_w + (length msg - total) < 2147483647
      → Returns
          (send_loop files fuel msg total (length msg) c)
          (λ a c'. (a ≡ pos (length msg)) × Sent (length msg - total) (drop total msg) c c')
  unfolding send_loop
  send_loop-Sent zero msg total c fd inside enough short numbers = absurd (omega arith)
  send_loop-Sent (suc fuel) msg total c fd inside enough short numbers =
      let n = send_len header_size total (length msg) in
      if-Returns (ltb total (length msg)) _ _ _
        (λ more.
          turn-Returns (send_packet files msg total n c) _ _ _
            (send_packet-Sent msg total n c fd (ground arith) (ground arith) (ground arith)
              (ground arith))
            (λ c' h.
              Returns-mono (send_loop files fuel msg (total + n) (length msg) c') _ _
                (send_loop-Sent fuel msg (total + n) c' (h.same_fd ∙ fd) (ground arith)
                  (ground arith) short (ground (arith, h.advanced)))
                (λ a c'' k. (
                  k.0,
                  Sent-eq _ _ _ _ c c'' (ground arith)
                      (take-drop-append (drop total msg) n
                        ∙ ap (λ ys. take n (drop total msg) ++ ys)
                            (drop-drop msg total n (total + n) refl))
                      (Sent-trans n _ _ _ c c' c'' h k.1),
                ))))
        (λ done. (
          ground arith,
          Sent-eq 0 _ [] _ c c (ground arith) (drop-all msg total (ground arith)) (Sent-none c),
        ))

  -- Through a mailslot, `__unix_send_stream` returns the length of the message that it is given
  -- whole, and appends exactly the message to the bytes that the mailslot carries, with its
  -- sequence number advanced by as much, if the numbers of the message do not pass MAXINT.
  pub send_stream-Carries :
      (msg : List ℕ) (c : Unix E) (bytes : List ℕ)
      → c.usock.fd_w ≡ w
      → c.usock.seq_w + length msg < 2147483647
      → Carries Stray c.usock.secret (queue c.env) bytes
      → Returns (send_stream files msg (length msg) c) (λ a c'.
        (a ≡ pos (length msg))
        × (c'.usock.seq_w ≡ c.usock.seq_w + length msg)
        × Carries Stray c.usock.secret (queue c'.env) (bytes ++ msg))
  unfolding send_stream
  send_stream-Carries msg c bytes fd numbers before =
      Returns-mono (send_loop files (1 + length msg) msg 0 (length msg) c) _ _
        (send_loop-Sent (1 + length msg) msg 0 c fd (omega arith) (omega arith) (omega arith)
          (omega arith))
        (λ a c' h. (h.0, omega (arith, h.1.advanced), h.1.carries _ bytes refl before))
