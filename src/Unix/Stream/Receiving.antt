-- ===== src/Unix/Stream/Receiving.antt =====
-- The receiving loop of src/unix/u_recv.c and the bytes that the messages carry.
use libsocket.Base.{
  ℕ, suc, ◌+◌, min, ◌≤◌, ◌<◌, ◌⊎◌, Bool, true, false, not, ◌||◌, if◌then◌else◌, Option, none, some,
  List, [], ◌∷◌, ◌++◌, length, take, drop, memcpy, ◌≡◌, refl, sym, ap, ◌∙◌, inl, inr, arith,
  Bool-cases, Returns, Returns-mono, if-Returns, length-append, length-drop, append_assoc,
}
use libsocket.Base.Int.{ℤ, pos, ◌==ℤ◌}
use libsocket.Layer.Types.{Socket}
use libsocket.Unix.Message.{
  Header, header_bytes, length-header_bytes, read_header, read_header-header_bytes, Fits,
  same_secret,
}
use libsocket.Unix.Recv.{
  Turn, read_message, take_message, recv_turn, recv_loop, recv_len, is_close, is_data, is_dgram,
}
use libsocket.Unix.Stream.{frame_header, IsFrame, IsNoise, Carries, IsMailslot}
use libsocket.Unix.Stream.Lists.{take-append}
use libsocket.Unix.Types.{Secret, UnixSocket, Files, Unix}

module _ {E : Type 0} (files : Files E) (w r : ℤ) (queue : E → List (List ℕ))
    (mail : IsMailslot files w r queue) where
  -- A receiver whose reading end is the mailslot's.
  pub record IsReceiver (c : Unix E) : Type 0 where
    pub fd : c.usock.fd_r ≡ r
    pub size : length c.my_buf ≡ 4080

  -- A message that is read lies at the start of the buffer.
  pub read_message-Read :
      (c : Unix E) (m : List ℕ) (q : List (List ℕ))
      → IsReceiver c
      → length m ≤ 4080
      → queue c.env ≡ m ∷ q
      → let c' = (read_message files false c).1 in
        ((read_message files false c).0 ≡ pos (length m))
        × (c'.my_buf ≡ m ++ drop (length m) c.my_buf)
        × (queue c'.env ≡ q)
        × (c'.usock ≡ c.usock)
        × (c'.sock ≡ c.sock)
  unfolding read_message
  read_message-Read c m q h fits e =
      let got = mail.reads c.my_buf m q c.errno c.env h.size fits e in
      rw h.fd (ap (λ p. p.0) got.0, ap (λ p. p.1) got.0, got.1, refl, refl)

  take_message-noise :
      (ret : ℤ) (h : Header) (buf : List ℕ) (len : ℕ) (c : Unix E)
      → is_close c.sock.accepted (same_secret c.usock.secret h.secret) h ≡ false
      → (is_data h.type ≡ false)
        ⊎ ((is_dgram h.type ≡ false) × (same_secret c.usock.secret h.secret ≡ false))
      → take_message files ret h buf len c
        ≡ some (record { ret = ret; bad_packet = true; stop = false; buf = buf }, c)
  unfolding take_message
  take_message-noise ret h buf len c a (inl b) = rw (a, b) refl
  take_message-noise ret h buf len c a (inr (b, d)) = elim (Bool-cases (is_data h.type)) [
    | inl y ↦ rw (a, y, b, d) refl
    | inr n ↦ rw (a, n) refl
  ]

  same_secret_refl : (s : Secret) → same_secret s s ≡ true
  same_secret_refl s = ground arith

  recv_len-frame_header :
      (s : Secret) (start n : ℕ)
      → 1 ≤ n
      → start + n < 2147483647
      → recv_len (frame_header s start n) ≡ n
  unfolding recv_len
  recv_len-frame_header s start n h k = omega arith

  min-given : (n m : ℕ) → n ≤ m → min m n ≡ n
  min-given n m h = omega arith

  memcpy-payload :
      (buf payload rest : List ℕ)
      → length payload ≤ length buf
      → memcpy buf (payload ++ rest) (length payload) ≡ some (payload ++ drop (length payload) buf)
  unfolding memcpy
  memcpy-payload buf payload rest h =
      rw (take-append payload rest) (ground (arith, length-append payload rest))

  -- A turn that finds the data of its own stream.
  take_message-payload :
      (ret : ℤ) (start : ℕ) (payload rest buf : List ℕ) (len : ℕ) (c : Unix E)
      → 1 ≤ length payload
      → length payload ≤ len
      → len ≤ length buf
      → start + length payload < 2147483647
      → drop 20 c.my_buf ≡ payload ++ rest
      → Returns
          (take_message files ret (frame_header c.usock.secret start (length payload)) buf len c)
          (λ t c'.
            (t.ret ≡ pos (length payload))
            × (t.buf ≡ payload ++ drop (length payload) buf)
            × (c'.env ≡ c.env)
            × (c'.my_buf ≡ c.my_buf)
            × (c'.usock.fd_r ≡ c.usock.fd_r)
            × (c'.sock ≡ c.sock)
            × (c'.usock.secret ≡ c.usock.secret))
  unfolding take_message
  take_message-payload ret start payload rest buf len c low fits inside numbers e =
      rw
        (
          same_secret_refl c.usock.secret,
          recv_len-frame_header c.usock.secret start (length payload) low numbers,
          min-given (length payload) len fits,
          e,
          memcpy-payload buf payload rest (omega arith),
          take_message,
        )
        (
          ap pos (
              ap (min len) (recv_len-frame_header c.usock.secret start (length payload) low numbers)
              ∙ min-given (length payload) len fits),
          refl,
          refl,
          refl,
          refl,
          refl,
          refl,
        )

  -- The loop ends with a turn that does not leave 0.
  loop-Returns :
      (o : Option (Turn × Unix E)) (k : Turn → Unix E → Option ((ℤ × List ℕ) × Unix E))
      (R : ℤ × List ℕ → Unix E → Type 0)
      → Returns o (λ t c'. (n : ℕ) × (t.ret ≡ pos n) × (1 ≤ n) × R (t.ret, t.buf) c')
      → Returns
          (elim o [
            | none ↦ none
            | some (t, c') ↦
                if t.stop || not (t.ret ==ℤ pos 0) then some ((t.ret, t.buf), c') else k t c'
          ])
          R
  loop-Returns none k R h = h
  loop-Returns (some (t, c)) k R (n, e, low, h) =
      if-Returns (t.stop || not (t.ret ==ℤ pos 0)) _ _ R (λ _. h) (λ f. absurd (ground arith))

  -- A turn behind a message that is there.
  recv_turn-Read :
      (bad : Bool) (buf : List ℕ) (len n : ℕ) (c : Unix E)
      → (read_message files false c).0 ≡ pos n
      → recv_turn files false bad buf len c
        ≡ take_message files
            (read_message files false c).0
            (read_header (read_message files false c).1.my_buf)
            buf
            len
            (read_message files false c).1
  unfolding recv_turn
  recv_turn-Read true buf len n c e = rw e refl
  recv_turn-Read false buf len n c e = rw e refl

  read_header-message :
      (h : Header) (m rest tail : List ℕ)
      → Fits h
      → m ≡ header_bytes h ++ rest
      → read_header (m ++ tail) ≡ h
  read_header-message h m rest tail f e =
      rw (e, append_assoc (header_bytes h) rest tail) (read_header-header_bytes h (rest ++ tail) f)

  drop-header : (h : Header) (xs : List ℕ) → drop 20 (header_bytes h ++ xs) ≡ xs
  unfolding header_bytes
  drop-header h xs = refl

  drop-message :
      (h : Header) (m rest tail : List ℕ)
      → m ≡ header_bytes h ++ rest
      → drop 20 (m ++ tail) ≡ rest ++ tail
  drop-message h m rest tail e =
      rw (e, append_assoc (header_bytes h) rest tail) (drop-header h (rest ++ tail))

  length-read :
      (m buf : List ℕ)
      → length m ≤ 4080
      → length buf ≡ 4080
      → length (m ++ drop (length m) buf) ≡ 4080
  length-read m buf h e =
      omega (arith, length-append m (drop (length m) buf), length-drop (length m) buf)

  -- What the loop gives: some of the bytes, from the first one on; the others stay.
  pub record Taken (Stray : List ℕ → Type 0) (accepted : Bool) (s : Secret) (bytes : List ℕ)
      (bound : ℕ) (result : ℤ × List ℕ) (c : Unix E) : Type 0 where
    pub taken : List ℕ
    pub left : List ℕ
    pub split : bytes ≡ taken ++ left
    pub count : result.0 ≡ pos (length taken)
    pub progress : 1 ≤ length taken
    pub copied : take (length taken) result.1 ≡ taken
    pub carries : Carries Stray s (queue c.env) left
    pub receiver : IsReceiver c
    pub same_accepted : c.sock.accepted ≡ accepted
    pub same_secret : c.usock.secret ≡ s
    pub bounded : length (queue c.env) ≤ bound

  frame-Fits :
      (s : Secret) (start n : ℕ)
      → s.n < 4294967296
      → s.pid < 4294967296
      → start + n < 2147483647
      → Fits (frame_header s start n)
  frame-Fits s start n a b h = record {
    n = a;
    pid = b;
    seq_start = omega arith;
    seq_end = omega arith;
    offset = omega arith;
  }

  -- What the loop gives for a stray message: its length, with nothing in the caller's buffer. The
  -- message is gone, and no byte of the stream is.
  pub record Strayed (Stray : List ℕ → Type 0) (s : Secret) (bytes buf : List ℕ)
      (result : ℤ × List ℕ) (c : Unix E) : Type 0 where
    pub message : List ℕ
    pub is_stray : Stray message
    pub untouched : result ≡ (pos (length message), buf)
    pub carries : Carries Stray s (queue c.env) bytes
    pub receiver : IsReceiver c

  -- The place in which the loop stands, and what it has before it.
  abbrev Waits : Bool → Secret → List (List ℕ) → Unix E → Type 0
  Waits accepted s q c =
      IsReceiver c × (queue c.env ≡ q) × (c.sock.accepted ≡ accepted) × (c.usock.secret ≡ s)

  noise-not_empty :
      (accepted : Bool) (s : Secret) (m : List ℕ) → IsNoise accepted s m → 1 ≤ length m
  noise-not_empty accepted s m noise = omega (
    arith,
    ap length noise.bytes,
    length-append (header_bytes noise.header) noise.rest,
    length-header_bytes noise.header,
  )

  -- A turn that finds a stray message.
  recv_turn-noise :
      (Stray : List ℕ → Type 0) (accepted : Bool) (s : Secret) (m : List ℕ) (q : List (List ℕ))
      (bad : Bool) (bytes buf : List ℕ) (len : ℕ) (c : Unix E)
      → Stray m
      → IsNoise accepted s m
      → Waits accepted s (m ∷ q) c
      → Carries Stray s q bytes
      → Returns
          (recv_turn files false bad buf len c)
          (λ t c'. (t.ret ≡ pos (length m)) × Strayed Stray s bytes buf (t.ret, t.buf) c')
  recv_turn-noise Stray accepted s m q bad bytes buf len c stray noise (h, e, a, u) more =
      let c1 = (read_message files false c).1 in
      let (ret, copied, rest, same_usock, same_sock) = read_message-Read c m q h noise.size e in
      let head : read_header c1.my_buf ≡ noise.header =
        ap read_header copied
        ∙ read_header-message noise.header m noise.rest _ noise.fits noise.bytes in
      let secret : c1.usock.secret ≡ s = ap (λ (k : UnixSocket). k.secret) same_usock ∙ u in
      let taken : c1.sock.accepted ≡ accepted = ap (λ (k : Socket). k.accepted) same_sock ∙ a in
      rw (recv_turn-Read bad buf len (length m) c ret, head)
        (rw
          (take_message-noise (read_message files false c).0 noise.header buf len c1
            (rw (taken, secret) noise.not_close) (rw secret noise.useless))
          (
            ret,
            record {
              message = m;
              is_stray = stray;
              untouched = ap (λ n. (n, buf)) ret;
              carries = rw rest more;
              receiver = record {
                fd = ap (λ (k : UnixSocket). k.fd_r) same_usock ∙ h.fd;
                size = ap length copied ∙ length-read m c.my_buf noise.size h.size;
              };
            },
          ))

  frame-size : (s : Secret) (m payload : List ℕ) → IsFrame s m payload → length m ≤ 4080
  frame-size s m payload frame = omega (
    arith,
    ap length frame.bytes,
    length-append (header_bytes (frame_header s frame.start (length payload))) payload,
    length-header_bytes (frame_header s frame.start (length payload)),
    frame.fits,
  )

  -- A turn that finds data.
  recv_turn-payload :
      (Stray : List ℕ → Type 0) (accepted : Bool) (bound : ℕ) (s : Secret) (m : List ℕ)
      (q : List (List ℕ)) (bad : Bool) (bytes payload left buf : List ℕ) (len : ℕ) (c : Unix E)
      → s.n < 4294967296
      → s.pid < 4294967296
      → 4060 ≤ len
      → len ≤ length buf
      → length q ≤ bound
      → IsFrame s m payload
      → Waits accepted s (m ∷ q) c
      → bytes ≡ payload ++ left
      → Carries Stray s q left
      → Returns (recv_turn files false bad buf len c) (λ t c'.
        (t.ret ≡ pos (length payload)) × Taken Stray accepted s bytes bound (t.ret, t.buf) c')
  recv_turn-payload Stray accepted bound s m q bad bytes payload left buf len c sn sp big room short
        frame (h, e, a, u) split more =
      let head = frame_header s frame.start (length payload) in
      let size : length m ≤ 4080 = frame-size s m payload frame in
      let c1 = (read_message files false c).1 in
      let (ret, copied, rest, same_usock, same_sock) = read_message-Read c m q h size e in
      let secret : c1.usock.secret ≡ s = ap (λ (k : UnixSocket). k.secret) same_usock ∙ u in
      let taken : c1.sock.accepted ≡ accepted = ap (λ (k : Socket). k.accepted) same_sock ∙ a in
      let full : length c1.my_buf ≡ 4080 = ap length copied ∙ length-read m c.my_buf size h.size in
      let fd : c1.usock.fd_r ≡ r = ap (λ (k : UnixSocket). k.fd_r) same_usock ∙ h.fd in
      let found : read_header c1.my_buf
          ≡ frame_header c1.usock.secret frame.start (length payload) =
        ap read_header copied
        ∙ read_header-message head m payload _ (frame-Fits s frame.start _ sn sp frame.numbers)
            frame.bytes
        ∙ ap (λ k. frame_header k frame.start (length payload)) (sym secret) in
      let tail : drop 20 c1.my_buf ≡ payload ++ drop (length m) c.my_buf =
        ap (drop 20) copied ∙ drop-message head m payload _ frame.bytes in
      let within : length payload ≤ len = omega (arith, frame.fits, big) in
      rw (recv_turn-Read bad buf len (length m) c ret, found)
        (Returns-mono
          (take_message files (read_message files false c).0
            (frame_header c1.usock.secret frame.start (length payload)) buf len c1)
          _ _
          (take_message-payload (read_message files false c).0 frame.start payload _ buf len c1
            frame.not_empty within room frame.numbers tail)
          (λ t c' g. (
            g.0,
            record {
              taken = payload;
              left = left;
              split = split;
              count = g.0;
              progress = frame.not_empty;
              copied = rw g.1 (take-append payload _);
              carries = rw (g.2, rest) more;
              receiver = record { fd = g.4 ∙ fd; size = ap length g.3 ∙ full };
              same_accepted = ap (λ (k : Socket). k.accepted) g.5 ∙ taken;
              same_secret = g.6 ∙ secret;
              bounded = rw (g.2, rest) short;
            },
          )))

  -- What the loop leaves behind its only turn.
  abbrev pub Given :
      (List ℕ → Type 0) → Bool → Secret → List ℕ → List ℕ → ℕ → ℤ × List ℕ → Unix E → Type 0
  Given Stray accepted s bytes buf bound result c =
      Taken Stray accepted s bytes bound result c ⊎ Strayed Stray s bytes buf result c

  pub recv_loop-Given :
      (Stray : List ℕ → Type 0) (accepted : Bool) (bound : ℕ) (s : Secret) (q : List (List ℕ))
      (fuel : ℕ) (bytes buf : List ℕ) (len : ℕ) (c : Unix E)
      → ((m : List ℕ) → Stray m → IsNoise accepted s m)
      → s.n < 4294967296
      → s.pid < 4294967296
      → 4060 ≤ len
      → len ≤ length buf
      → length q ≤ bound
      → Waits accepted s q c
      → Carries Stray s q bytes
      → 1 ≤ length bytes
      → Returns
          (recv_loop files (suc fuel) false false buf len c)
          (Given Stray accepted s bytes buf bound)
  unfolding recv_loop
  recv_loop-Given Stray accepted bound s [] fuel bytes buf len c noisy sn sp big room short w
        none_left low =
      absurd (omega (arith, ap length none_left))
  recv_loop-Given Stray accepted bound s (m ∷ q) fuel bytes buf len c noisy sn sp big room short w
        (inl (stray, more)) low =
      loop-Returns (recv_turn files false false buf len c) _ _ (
        Returns-mono (recv_turn files false false buf len c) _ _
          (recv_turn-noise Stray accepted s m q false bytes buf len c stray (noisy m stray) w more)
          (λ t c' g. (length m, g.0, noise-not_empty accepted s m (noisy m stray), inr g.1)))
  recv_loop-Given Stray accepted bound s (m ∷ q) fuel bytes buf len c noisy sn sp big room short w
        (inr (payload, rest, frame, split, more)) low =
      loop-Returns (recv_turn files false false buf len c) _ _ (
        Returns-mono (recv_turn files false false buf len c) _ _
          (recv_turn-payload Stray accepted bound s m q false bytes payload rest buf len c sn sp big
            room (omega arith) frame w split more)
          (λ t c' g. (length payload, g.0, frame.not_empty, inl g.1)))
