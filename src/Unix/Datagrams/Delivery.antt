-- ===== src/Unix/Datagrams/Delivery.antt =====
-- A datagram from `__unix_send_dgram` of src/unix/u_send.c to `__unix_recv_dgram` of
-- src/unix/u_recv.c.
use libsocket.Base.{
  ℕ, ◌+◌, min, ◌≤◌, ◌<◌, Bool, true, false, not, ◌&&◌, ◌==◌, ltb, if◌then◌else◌, some, List, [],
  ◌++◌, length, take, drop, M, ◌≡◌, refl, ◌∙◌, arith, Returns, if-Returns, Returns-mono,
}
use libsocket.Base.Int.{ℤ, pos}
use libsocket.Layer.Types.{sock_dgram}
use libsocket.Unix.Datagrams.{IsText, address_of, IsNamed, send_dgram_to-Written}
use libsocket.Unix.Dgram.{send_dgram_to, recv_dgram, send_dgram, send_dgram_named}
use libsocket.Unix.Path.{local_path, local_name}
use libsocket.Unix.Recv.{is_peek}
use libsocket.Unix.Stream.{IsMailslot}
use libsocket.Unix.Stream.Receiving.{IsReceiver}
use libsocket.Unix.Types.{Files, Unix, cstring}
use libsocket.Unix.Datagrams.Receiving.{recv_dgram_loop-Read}

pub if_true {ℓ} : {A : Type ℓ} (b : Bool) (x y : A) → b ≡ true → (if b then x else y) ≡ x
if_true b x y e = rw e refl

pub if_false {ℓ} : {A : Type ℓ} (b : Bool) (x y : A) → b ≡ false → (if b then x else y) ≡ y
if_false b x y e = rw e refl

pub local_name-within :
    (size : ℕ) (s : List ℕ) → 19 + length s < size → local_name size s ≡ some (local_path ++ s)
unfolding local_name
local_name-within size s h = if_true (ltb (19 + length s) size) _ _ (ground arith)

pub local_path-IsText : (s : List ℕ) → IsText s → IsText (local_path ++ s)
local_path-IsText s h = ground (arith, h)

module _ {E : Type 0} (files : Files E) (w r : ℤ) (queue : E → List (List ℕ))
    (mail : IsMailslot files w r queue) where
  -- A bound socket and an address with room for both paths lead straight to the opening.
  send_dgram-bound :
      (bind : List ℕ → M (Unix E) ℤ) (scratch own peer msg to : List ℕ) (tolen : ℕ) (c : Unix E)
      → c.sock.type ≡ sock_dgram
      → c.sock.bound ≡ true
      → 110 ≤ tolen
      → cstring (drop 2 c.sock.sockname) ≡ some own
      → cstring (drop 2 to) ≡ some peer
      → length own < 89
      → 19 + length peer < files.max_path
      → send_dgram files bind scratch msg (length msg) (some to) tolen c
        ≡ send_dgram_to files scratch (local_path ++ own) (local_path ++ peer) msg (length msg) c
  unfolding send_dgram send_dgram_named
  send_dgram-bound bind scratch own peer msg to tolen c kind bound size from_name to_name short
        fits =
      if_false (ltb tolen 110 && true) _ _ (ground arith)
      ∙ if_false (not (c.sock.type == sock_dgram)) _ _ (ground arith)
      ∙ if_true c.sock.bound _ _ bound
      ∙ rw
          (
            from_name,
            local_name-within 128 own (omega arith),
            to_name,
            local_name-within files.max_path peer fits,
            send_dgram_named,
          )
          refl

  -- A datagram of 1 to 3932 bytes that `__unix_send_dgram` of a bound socket sends to the path of
  -- an empty mailslot is read from it by one turn of `__unix_recv_dgram`: the sender is told that
  -- all bytes went, the receiver has as many of the first ones as his buffer takes, the rest is
  -- gone with the message, and the address that he is given is the sender's path behind
  -- "/dev/mailslot/local". The paths fit their fields, the receiver does not peek, and he has room
  -- for a byte and for an address.
  pub send_dgram-recv_dgram :
      (bind : List ℕ → M (Unix E) ℤ) (scratch own peer msg to buf addr : List ℕ)
      (tolen len alen flags : ℕ) (c d : Unix E)
      → c.sock.type ≡ sock_dgram
      → c.sock.bound ≡ true
      → 110 ≤ tolen
      → cstring (drop 2 c.sock.sockname) ≡ some own
      → cstring (drop 2 to) ≡ some peer
      → length own < 89
      → 19 + length peer < files.max_path
      → IsText own
      → length scratch ≡ 128
      → IsNamed files (local_path ++ peer) w queue
      → queue c.env ≡ []
      → 1 ≤ length msg
      → length msg ≤ 3932
      → d.sock.type ≡ sock_dgram
      → IsReceiver files w r queue mail d
      → is_peek flags ≡ false
      → 1 ≤ len
      → len ≤ length buf
      → 110 ≤ length addr
      → 110 ≤ alen
      → Returns (send_dgram files bind scratch msg (length msg) (some to) tolen c) (λ a c'.
        (a ≡ pos (length msg))
        × Returns
            (recv_dgram files 1 buf len flags (some (addr, alen)) (record d { env = c'.env }))
            (λ result d'.
              (result ≡ (
                pos (min len (length msg)),
                take (min len (length msg)) msg ++ drop (min len (length msg)) buf,
                some (address_of (local_path ++ own) ++ drop 110 addr, 110),
              ))
              × (queue d'.env ≡ [])))
  unfolding recv_dgram
  send_dgram-recv_dgram bind scratch own peer msg to buf addr tolen len alen flags c d kind bound
        size from_name to_name short fits text scratched named before low high kind' h no_peek
        some_room inside room given =
      rw
        (send_dgram-bound bind scratch own peer msg to tolen c kind bound size from_name to_name
          short fits)
        (Returns-mono
          (send_dgram_to files scratch (local_path ++ own) (local_path ++ peer) msg (length msg) c)
          _ _
          (send_dgram_to-Written files w r queue mail scratch (local_path ++ own) _ msg c named
            scratched (omega arith) low high)
          (λ a c' g. (
            g.0,
            if-Returns (not (d.sock.type == sock_dgram)) _ _ _ (λ z. absurd (ground arith))
                (λ _.
                  rw (no_peek, recv_dgram)
                    (recv_dgram_loop-Read files w r queue mail scratch (local_path ++ own) msg buf
                      addr 0 len alen (record d { env = c'.env }) [] (local_path-IsText own text)
                      (omega arith) scratched low high (record { fd = h.fd; size = h.size })
                      (rw before at g.1) some_room inside room given)),
          )))
