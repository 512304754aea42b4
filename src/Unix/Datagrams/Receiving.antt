-- ===== src/Unix/Datagrams/Receiving.antt =====
-- One turn of `__unix_recv_dgram` of src/unix/u_recv.c with a datagram before it.
use libsocket.Base.{
  ℕ, zero, suc, ◌+◌, min, ◌≤◌, ◌<◌, Bool, true, false, not, ◌&&◌, ltb, if◌then◌else◌, Option, none,
  some, List, [], ◌∷◌, ◌++◌, length, take, drop, replicate, memcpy, ◌≡◌, refl, sym, ap, ◌∙◌, arith,
  Returns, length-append, append_assoc,
}
use libsocket.Base.Int.{ℤ, pos, minus_one, ◌==ℤ◌}
use libsocket.Unix.Datagrams.{
  IsText, cstring-IsText, address_of, length-path_field, length-dgram_bytes, dgram_header-Fits,
  recv_len-dgram_header, take-whole,
}
use libsocket.Unix.Dgram.{
  DgramTurn, dgram_header, dgram_bytes, store_from, take_dgram, recv_dgram_loop,
}
use libsocket.Unix.Message.{
  header_bytes, length-header_bytes, read_header, read_header-header_bytes,
}
use libsocket.Unix.Path.{path_field}
use libsocket.Unix.Recv.{is_data, is_dgram, read_message}
use libsocket.Unix.Stream.{IsMailslot}
use libsocket.Unix.Stream.Lists.{drop-append}
use libsocket.Unix.Stream.Receiving.{IsReceiver, read_message-Read}
use libsocket.Unix.Types.{Files, Unix}

take-within {ℓ} :
    {A : Type ℓ} (xs ys : List A) (k : ℕ) → k ≤ length xs → take k (xs ++ ys) ≡ take k xs
take-within xs ys zero h = refl
take-within [] ys (suc k) h = absurd (omega arith)
take-within (x ∷ xs) ys (suc k) h = ap (λ zs. x ∷ zs) (take-within xs ys k (omega arith))

memcpy-within :
    (dst src rest : List ℕ) (k : ℕ)
    → k ≤ length src
    → k ≤ length dst
    → memcpy dst (src ++ rest) k ≡ some (take k src ++ drop k dst)
unfolding memcpy
memcpy-within dst src rest k h g =
    rw (take-within src rest k h) (ground (arith, length-append src rest))

pub memcpy-whole :
    (dst src : List ℕ) (n : ℕ)
    → n ≡ length src
    → n ≤ length dst
    → memcpy dst src n ≡ some (src ++ drop n dst)
unfolding memcpy
memcpy-whole dst src n e h =
    let all : take n src ≡ src = ap (λ k. take k src) e ∙ take-whole src in rw all (ground arith)

ltb-below : (n m : ℕ) → n < m → ltb n m ≡ true
ltb-below n m h = ground arith

-- The address of the sender in a buffer with room for it.
store_from-Given :
    (my_buf path rest addr : List ℕ) (alen : ℕ)
    → drop 20 my_buf ≡ path ++ (0 ∷ rest)
    → IsText path
    → length path < 108
    → 110 ≤ length addr
    → 110 ≤ alen
    → store_from my_buf (some (addr, alen)) ≡ some (some (address_of path ++ drop 110 addr, 110))
unfolding store_from
store_from-Given my_buf path rest addr alen e text short room given =
    let size : length (address_of path) ≡ 110 =
      omega (arith, length-path_field path (replicate 108 0) short) in
    let copied : memcpy addr (address_of path) 110 ≡ some (address_of path ++ drop 110 addr) =
      memcpy-whole addr (address_of path) 110 (sym size) room in
    let least : min alen 110 ≡ 110 = omega arith in
    rw
      (
        e,
        cstring-IsText path rest text,
        ltb-below (length path) 108 short,
        least,
        copied,
        store_from,
      )
      (rw least refl)

dgram_header-kind :
    (n : ℕ) → (not (is_data (dgram_header n).type) && not (is_dgram (dgram_header n).type)) ≡ false
unfolding dgram_header
dgram_header-kind n = refl

dgram_header-offset : (n : ℕ) → (dgram_header n).offset ≡ 148
unfolding dgram_header
dgram_header-offset n = refl

module _ (scratch path msg tail : List ℕ) (text : IsText path) (short : length path < 108)
    (scratched : length scratch ≡ 128) (low : 1 ≤ length msg) (high : length msg ≤ 3932) where
  abbrev n : ℕ
  n = length msg

  abbrev message : List ℕ
  message = dgram_bytes scratch path n ++ msg

  -- The buffer behind the reading of the message.
  abbrev filled : List ℕ
  filled = message ++ tail

  header-filled : read_header filled ≡ dgram_header n
  unfolding dgram_bytes
  header-filled =
      ap read_header (
        append_assoc (dgram_bytes scratch path n) msg tail
        ∙ append_assoc (header_bytes (dgram_header n)) (path_field path scratch) (msg ++ tail))
      ∙ read_header-header_bytes (dgram_header n) (path_field path scratch ++ (msg ++ tail))
          (dgram_header-Fits n)

  drop-to_path : (h : List ℕ) → length h ≡ 20 → (xs : List ℕ) → drop 20 (h ++ xs) ≡ xs
  drop-to_path h e xs = ap (λ k. drop k (h ++ xs)) (sym e) ∙ drop-append h xs

  path-filled : drop 20 filled ≡ path ++ (0 ∷ (drop (1 + length path) scratch ++ (msg ++ tail)))
  unfolding dgram_bytes
  path-filled =
      ap (drop 20) (
        append_assoc (dgram_bytes scratch path n) msg tail
        ∙ append_assoc (header_bytes (dgram_header n)) (path_field path scratch) (msg ++ tail))
      ∙ drop-to_path (header_bytes (dgram_header n)) (length-header_bytes (dgram_header n)) _
      ∙ append_assoc path (0 ∷ drop (1 + length path) scratch) (msg ++ tail)

  data-filled : drop 148 filled ≡ msg ++ tail
  data-filled =
      ap (drop 148) (append_assoc (dgram_bytes scratch path n) msg tail)
      ∙ ap (λ k. drop k (dgram_bytes scratch path n ++ (msg ++ tail)))
          (sym (length-dgram_bytes scratch path n scratched (omega (arith, short))))
      ∙ drop-append (dgram_bytes scratch path n) (msg ++ tail)

  take_dgram-filled :
      (ret : ℤ) (buf addr : List ℕ) (len alen : ℕ)
      → len ≤ length buf
      → 110 ≤ length addr
      → 110 ≤ alen
      → take_dgram ret (dgram_header n) filled buf len (some (addr, alen))
        ≡ some (record {
          ret = pos (min len n);
          bad_packet = false;
          buf = take (min len n) msg ++ drop (min len n) buf;
          from = some (address_of path ++ drop 110 addr, 110);
        })
  unfolding take_dgram
  take_dgram-filled ret buf addr len alen inside room given =
      rw
        (
          store_from-Given filled path _ addr alen path-filled text short room given,
          dgram_header-kind n,
          recv_len-dgram_header n low (omega arith),
          dgram_header-offset n,
          data-filled,
          memcpy-within buf msg tail (min len n) (omega arith) (omega arith),
          take_dgram,
        )
        (rw (recv_len-dgram_header n low (omega arith)) refl)

  -- The caller's buffer and his variables for the address, behind the call.
  abbrev pub received : List ℕ → List ℕ → ℕ → ℤ × List ℕ × Option (List ℕ × ℕ)
  received buf addr len = (
    pos (min len n),
    take (min len n) msg ++ drop (min len n) buf,
    some (address_of path ++ drop 110 addr, 110),
  )

  length-message : length message ≡ 148 + n
  length-message = omega (
    arith,
    length-append (dgram_bytes scratch path n) msg,
    length-dgram_bytes scratch path n scratched (omega (arith, short)),
  )

not_zero : (len n : ℕ) → 1 ≤ len → 1 ≤ n → not (pos (min len n) ==ℤ pos 0) ≡ true
not_zero len n h k = ground arith

not_minus_one : (n : ℕ) → (pos n ==ℤ minus_one) ≡ false
not_minus_one n = refl

module _ {E : Type 0} (files : Files E) (w r : ℤ) (queue : E → List (List ℕ))
    (mail : IsMailslot files w r queue) where
  read-Returns :
      {A : Type 0} (b : Bool) (x y : Option (A × Unix E)) (R : A → Unix E → Type 0)
      → b ≡ false
      → Returns y R
      → Returns (elim b [ true ↦ x | false ↦ y ]) R
  read-Returns b x y R e h = rw e h

  -- A turn that does not leave 0 is the last.
  turn-Returns :
      (o : Option DgramTurn) (t : DgramTurn) (c : Unix E)
      (k : DgramTurn → Option ((ℤ × List ℕ × Option (List ℕ × ℕ)) × Unix E))
      (R : ℤ × List ℕ × Option (List ℕ × ℕ) → Unix E → Type 0)
      → o ≡ some t
      → not (t.ret ==ℤ pos 0) ≡ true
      → R (t.ret, t.buf, t.from) c
      → Returns
          (elim o [
            | none ↦ none
            | some t' ↦ if not (t'.ret ==ℤ pos 0) then some ((t'.ret, t'.buf, t'.from), c) else k t'
          ])
          R
  turn-Returns o t c k R e z h = rw (e, z) h

  pub recv_dgram_loop-Read :
      (scratch path msg buf addr : List ℕ) (fuel len alen : ℕ) (d : Unix E) (q : List (List ℕ))
      (text : IsText path) (short : length path < 108) (scratched : length scratch ≡ 128)
      (low : 1 ≤ length msg) (high : length msg ≤ 3932)
      → IsReceiver files w r queue mail d
      → queue d.env ≡ (dgram_bytes scratch path (length msg) ++ msg) ∷ q
      → 1 ≤ len
      → len ≤ length buf
      → 110 ≤ length addr
      → 110 ≤ alen
      → Returns
          (recv_dgram_loop files (suc fuel) false false buf len (some (addr, alen)) d)
          (λ result d'.
            (result ≡ (
              pos (min len (length msg)),
              take (min len (length msg)) msg ++ drop (min len (length msg)) buf,
              some (address_of path ++ drop 110 addr, 110),
            ))
            × (queue d'.env ≡ q))
  unfolding recv_dgram_loop
  recv_dgram_loop-Read scratch path msg buf addr fuel len alen d q text short scratched low high h e
        some_room inside room given =
      let m = dgram_bytes scratch path (length msg) ++ msg in
      let got =
        read_message-Read files w r queue mail d m q h
          (omega (arith, length-message scratch path msg [] text short scratched low high)) e in
      let rest = drop (length m) d.my_buf in
      let c1 = (read_message files false d).1 in
      let got_ret = (read_message files false d).0 in
      let taken =
        take_dgram-filled scratch path msg rest text short scratched low high got_ret buf addr len
          alen inside room given in
      read-Returns ((read_message files false d).0 ==ℤ minus_one) _ _ _
        (rw (got.0, not_minus_one (length m)) refl)
        (turn-Returns
          (take_dgram got_ret (read_header c1.my_buf) c1.my_buf buf len (some (addr, alen)))
          (record {
            ret = pos (min len (length msg));
            bad_packet = false;
            buf = take (min len (length msg)) msg ++ drop (min len (length msg)) buf;
            from = some (address_of path ++ drop 110 addr, 110);
          })
          c1 (λ t. recv_dgram_loop files fuel false t.bad_packet t.buf len t.from c1) _
          (ap (λ b. take_dgram got_ret (read_header b) b buf len (some (addr, alen))) got.1
            ∙ ap (λ head. take_dgram got_ret head (m ++ rest) buf len (some (addr, alen)))
                (header-filled scratch path msg rest text short scratched low high)
            ∙ taken)
          (not_zero len (length msg) some_room low) (refl, got.2))
