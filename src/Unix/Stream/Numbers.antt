-- ===== src/Unix/Stream/Numbers.antt =====
-- The length of a packet, as the sender of src/unix/u_send.c writes it into the sequence numbers
-- and the receiver of src/unix/u_recv.c reads it from them.
use libsocket.Base.{ℕ, ◌+◌, ◌≤◌, ◌<◌, ◌≡◌, ◌⊎◌, inl, inr, arith, Bool-cases, ltb}
use libsocket.Unix.Recv.{recv_len}
use libsocket.Unix.Send.{data_header}
use libsocket.Unix.Types.{Files, Unix}

module _ {E : Type 0} (files : Files E) where
  -- The receiver reads the length of a packet of `n` bytes as `n` where its numbers stay at most
  -- MAXINT, and as `n + 2147483649` where they pass it.
  pub recv_len-data_header :
      (c : Unix E) (n : ℕ)
      → 1 ≤ n
      → n ≤ 4060
      → c.usock.seq_w < 2147483647
      → ((c.usock.seq_w + n ≤ 2147483647) × (recv_len (data_header files c n) ≡ n))
        ⊎ ((2147483647 < c.usock.seq_w + n) × (recv_len (data_header files c n) ≡ n + 2147483649))
  unfolding recv_len data_header
  recv_len-data_header c n low high within =
      elim (Bool-cases (ltb 2147483647 (c.usock.seq_w + n))) [
        | inl y ↦ inr (ground arith, ground arith)
        | inr y ↦ inl (ground arith, ground arith)
      ]
