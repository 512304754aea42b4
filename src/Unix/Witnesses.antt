-- ===== src/Unix/Witnesses.antt =====
-- The theorems about the Unix domain interface, applied on the mailslot of the tests.
use libsocket.Base.{
  ℕ, ◌+◌, ◌≤◌, ◌<◌, ◌⊎◌, List, [], ◌∷◌, ◌++◌, drop, some, none, replicate, ◌≡◌, refl, arith,
  Returns,
}
use libsocket.Base.Int.{pos}
use libsocket.Layer.Tests.{peer_socket}
use libsocket.Layer.Types.{sock_dgram}
use libsocket.Unix.Datagrams.{address_of}
use libsocket.Unix.Datagrams.Delivery.{send_dgram-recv_dgram}
use libsocket.Unix.Dgram.{send_dgram, recv_dgram}
use libsocket.Unix.Message.{header_bytes}
use libsocket.Unix.Path.{local_path}
use libsocket.Unix.Recv.{recv_len}
use libsocket.Unix.Send.{send_stream, data_header}
use libsocket.Unix.Stream.{Carries, NoStray, frame_header}
use libsocket.Unix.Stream.Delivery.{receive, send_stream-receive}
use libsocket.Unix.Stream.Numbers.{recv_len-data_header}
use libsocket.Unix.Stream.Sending.{send_stream-Carries}
use libsocket.Unix.Tests.{Slot, slot, slot-IsMailslot, a_secret, an_end, stray_header}
use libsocket.Unix.Types.{Unix, cstring}

abbrev two_bytes : List ℕ
two_bytes = 7 ∷ (9 ∷ [])

abbrev identity : Slot → Slot
identity q = q

abbrev room_for_all : List ℕ
room_for_all = replicate 4080 0

send_stream-Carries_example :
    Returns
      (send_stream slot two_bytes 2 an_end)
      (λ a c'. (a ≡ pos 2) × (c'.usock.seq_w ≡ 102) × Carries NoStray a_secret c'.env two_bytes)
send_stream-Carries_example =
    send_stream-Carries slot (pos 5) (pos 6) identity slot-IsMailslot NoStray two_bytes an_end []
      refl (omega arith) refl

send_stream-receive_example : Returns (send_stream slot two_bytes 2 an_end) (λ a c'.
    (a ≡ pos 2)
    × Returns
        (receive slot 2 1 room_for_all 4080 2 (record an_end { env = c'.env }))
        (λ out d'. out ≡ two_bytes))
send_stream-receive_example =
    send_stream-receive slot (pos 5) (pos 6) identity slot-IsMailslot two_bytes room_for_all 4080
      an_end an_end refl (omega arith) (omega arith) (omega arith) refl
      (record { fd = refl; size = refl }) refl (omega arith) (omega arith)

-- A frame behind a message that is no data.
abbrev frame : List ℕ
frame = header_bytes (frame_header a_secret 100 2) ++ two_bytes

abbrev waiting : Unix Slot
waiting = record an_end { env = header_bytes stray_header ∷ (frame ∷ []) }

-- The end of a datagram socket, bound to the path "s".
abbrev a_name : List ℕ
a_name = 1 ∷ (0 ∷ (115 ∷ replicate 107 0))

abbrev a_dgram_end : Unix Slot
a_dgram_end = record an_end { sock = record peer_socket { type = sock_dgram; sockname = a_name } }

abbrev no_bytes : List ℕ
no_bytes = replicate 110 0

a_name-cstring : cstring (drop 2 a_name) ≡ some (115 ∷ [])
unfolding cstring
a_name-cstring = refl

-- Of the two bytes the receiver takes one.
send_dgram-recv_dgram_example :
    Returns
      (send_dgram slot (λ path c. none) (replicate 128 0) two_bytes 2 (some a_name) 110 a_dgram_end)
      (λ a c'.
        (a ≡ pos 2)
        × Returns
            (recv_dgram slot 1
              (0 ∷ [])
              1
              0
              (some (no_bytes, 110))
              (record a_dgram_end { env = c'.env }))
            (λ result d'.
              (result ≡ (pos 1, 7 ∷ [], some (address_of (local_path ++ (115 ∷ [])), 110)))
              × (d'.env ≡ [])))
send_dgram-recv_dgram_example =
    send_dgram-recv_dgram slot (pos 5) (pos 6) identity slot-IsMailslot (λ path c. none)
      (replicate 128 0) (115 ∷ []) (115 ∷ []) two_bytes a_name (0 ∷ []) no_bytes 110 1 110 0
      a_dgram_end a_dgram_end refl refl (omega arith) a_name-cstring a_name-cstring (omega arith)
      (omega arith) (omega arith, tt) refl
      (record {
        opens = λ e env. refl;
        is_open = refl;
        keeps = λ e env. refl;
        closes = λ e env. refl;
      })
      refl (omega arith) (omega arith) refl (record { fd = refl; size = refl }) refl (omega arith)
      (omega arith) (omega arith) (omega arith)

-- A packet of ten bytes that begins five numbers below MAXINT.
abbrev wrapping : Unix Slot
wrapping = record an_end { usock = record an_end.usock { seq_w = 2147483642 } }

recv_len-data_header_example :
    ((2147483642 + 10 ≤ 2147483647) × (recv_len (data_header slot wrapping 10) ≡ 10))
    ⊎ ((2147483647 < 2147483642 + 10) × (recv_len (data_header slot wrapping 10) ≡ 2147483659))
recv_len-data_header_example =
    recv_len-data_header slot wrapping 10 (omega arith) (omega arith) (omega arith)
