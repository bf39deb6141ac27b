-- ===== src/Net/Tests.antt =====
-- Runs of net/net.c on small buffers, queues and sockets.
use ceblar.Prelude.{
  ℕ, ◌+◌, ◌*◌, ◌/◌, ◌%◌, ◌^◌, ◌<◌, ◌≤◌, ◌≡◌, refl, ◌↔◌, true, false, leb, if◌then◌else◌, some, List,
  [], ◌∷◌, ◌++◌, replicate, arith, inl,
}
use ceblar.Net.Checksum.{net_checksum, add_words, fold_checksum, fold_rounds}
use ceblar.Net.Checksum.Sum.{AreBytes, word_sum, net_checksum-complement, net_checksum-verify}
use ceblar.Net.Loopback.{Loopback, net_loopback_send, net_loopback_received}
use ceblar.Net.Loopback.Fifo.{
  IsValid, waiting, waiting_after, fifo_send, fifo_receive, send_refines, received_refines,
}
use ceblar.Net.Socket.{closed, established, Socket, net_socket_open, net_socket_connect}
use ceblar.Net.Socket.Life.{opens, connects, Reach, here, next, IsSound, Reach-IsSound}
use ceblar.Net.Headers.{TcpHeader, net_ipv6_validate}
use ceblar.Net.Headers.Bounds.{ipv6_validate_iff}

-- The checksum of RFC 1071's example.
rfc_bytes : net_checksum (0x00 ∷ 0x01 ∷ 0xf2 ∷ 0x03 ∷ 0xf4 ∷ 0xf5 ∷ 0xf6 ∷ 0xf7 ∷ []) ≡ 0x220d
unfolding net_checksum add_words fold_checksum fold_rounds
rfc_bytes = refl

abbrev four_bytes : List ℕ
four_bytes = 0x45 ∷ 0xff ∷ 0xf0 ∷ 0x01 ∷ []

four_bytes-AreBytes : AreBytes four_bytes
four_bytes-AreBytes = (omega arith, (omega arith, (omega arith, (omega arith, tt))))

net_checksum-complement_example :
    (net_checksum four_bytes < 2 ^ 16)
    × ((net_checksum four_bytes + word_sum four_bytes) % 65535 ≡ 0)
    × (net_checksum four_bytes ≡ 0xffff ↔ (word_sum four_bytes ≡ 0))
net_checksum-complement_example = net_checksum-complement four_bytes four_bytes-AreBytes

net_checksum-verify_example :
    net_checksum
      (four_bytes ++ net_checksum four_bytes / 2 ^ 8 ∷ net_checksum four_bytes % 2 ^ 8 ∷ [])
    ≡ 0
net_checksum-verify_example = net_checksum-verify four_bytes four_bytes-AreBytes tt

-- Two packets, of 60 and 1500 bytes, from place 3 on.
abbrev two_packets : Loopback
two_packets = record {
  queue = λ i. [];
  queue_len = λ i. if leb 3 i then 60 else 1500;
  queue_head = 3;
  queue_tail = 1;
  queue_count = 2;
  ready = true;
}

two_packets-IsValid : IsValid two_packets
two_packets-IsValid = record { head_in = omega arith; count_in = omega arith; tail_at = refl }

send_refines_example :
    waiting_after (net_loopback_send (some four_bytes) two_packets)
    ≡ fifo_send true 4 (60 ∷ 1500 ∷ [])
send_refines_example = send_refines two_packets two_packets-IsValid four_bytes

received_refines_example :
    let (n, q) = net_loopback_received two_packets in (n, waiting q) ≡ fifo_receive (60 ∷ 1500 ∷ [])
received_refines_example = received_refines two_packets two_packets-IsValid

abbrev unused : Socket
unused = record {
  local_port = 0;
  remote_port = 0;
  sequence = 0;
  acknowledgement = 0;
  state = closed;
  used = false;
}

abbrev opened : Socket
opened = record unused { local_port = 80; sequence = 1; used = true }

abbrev connected : Socket
connected = record opened { remote_port = 443; acknowledgement = 1; state = established }

unused-IsSound : IsSound unused
unused-IsSound = record {
  two_states = inl refl;
  ports = λ e. absurd (ground (arith, e));
  named = λ e. absurd (ground (arith, e));
}

life : Reach (unused, two_packets) (connected, two_packets)
unfolding net_socket_open net_socket_connect
life =
    next (next here (opens unused opened two_packets 80 refl))
      (connects opened connected two_packets 443 refl)

Reach-IsSound_example : IsSound connected
Reach-IsSound_example = Reach-IsSound life unused-IsSound

abbrev packet : List ℕ
packet = 0x60 ∷ 0 ∷ 0 ∷ 0 ∷ 1 ∷ 4 ∷ replicate 34 0

ipv6_validate_iff_example :
    (net_ipv6_validate packet 300 ≡ true) ↔ ((0x60 / 2 ^ 4 ≡ 6) × (40 + (1 * 2 ^ 8 + 4) ≤ 300))
ipv6_validate_iff_example = ipv6_validate_iff packet 300 (omega arith) (omega arith)

abbrev segment : TcpHeader
segment = record { source = 80; destination = 443; data_offset = 0x50 }
