-- ===== src/Net/Headers.antt =====
-- Header validation of net/net.c, and the checksums over a pseudo header. A packet is the list of its
-- bytes, and the `length` that the caller passes may be another number.
pub mod Bounds
use ceblar.Prelude.{
  ℕ, ◌+◌, ◌-◌, ◌*◌, ◌/◌, ◌%◌, ◌^◌, Bool, true, false, ◌||◌, ◌&&◌, not, ◌==◌, ltb, if◌then◌else◌,
  Option, none, some, List, [], ◌∷◌, ◌++◌, get_or, take, drop, replicate, length,
}
use ceblar.Net.Checksum.{swap16, add_words, fold_checksum, net_checksum}

abbrev pub net_ipv6_header_size : ℕ
net_ipv6_header_size = 40

-- A 16-bit field in the processor's byte order, low byte first.
abbrev pub field16 : List ℕ → ℕ → ℕ
field16 bytes i = get_or bytes i 0 + get_or bytes (i + 1) 0 * 2 ^ 8

-- The field `payload_length`, bytes 4 and 5, in host order.
abbrev pub payload_length : List ℕ → ℕ
payload_length packet = swap16 (field16 packet 4)

-- Whether the code returns 0.
unfoldable pub net_ipv6_validate : List ℕ → ℕ → Bool
net_ipv6_validate packet length' =
    if ltb length' net_ipv6_header_size
    then false
    else if not (get_or packet 0 0 / 2 ^ 4 == 6)
    then false
    else not (ltb (length' - net_ipv6_header_size) (payload_length packet))

-- `net_tcp_t`, the fields that the code reads.
pub record TcpHeader : Type 0 where
  pub source : ℕ
  pub destination : ℕ
  pub data_offset : ℕ

abbrev pub header_bytes : TcpHeader → ℕ
header_bytes h = h.data_offset / 2 ^ 4 * 4

unfoldable pub net_tcp_validate : TcpHeader → ℕ → Bool
net_tcp_validate h length' =
    if ltb length' 20
    then false
    else if ltb (header_bytes h) 20 || ltb length' (header_bytes h)
    then false
    else not (h.source == 0 || h.destination == 0)

-- The 40 bytes of the pseudo header: source, destination, length and protocol.
abbrev pub pseudo_header : List ℕ → ℕ → ℕ → List ℕ
pseudo_header ipv6 length' protocol =
    take 32 (drop 8 ipv6)
    ++ (length' / 2 ^ 24 % 256)
      ∷ (length' / 2 ^ 16 % 256)
      ∷ (length' / 2 ^ 8 % 256)
      ∷ (length' % 256)
      ∷ 0
      ∷ 0
      ∷ 0
      ∷ protocol
      ∷ []

-- `t` holds the `length` bytes of the segment.
unfoldable pub net_tcp_checksum : List ℕ → List ℕ → ℕ
net_tcp_checksum ipv6 t =
    if ltb 0xffff (length t)
    then 0
    else fold_checksum (add_words (add_words 0 (pseudo_header ipv6 (length t) 6)) t)

unfoldable pub net_icmpv6_checksum : List ℕ → List ℕ → ℕ
net_icmpv6_checksum ipv6 payload =
    fold_checksum (add_words (add_words 0 (pseudo_header ipv6 (length payload) 58)) payload)

unfoldable pub net_ipv6_selftest : Bool
unfolding net_ipv6_validate swap16 net_icmpv6_checksum add_words fold_checksum
net_ipv6_selftest =
    let packet : List ℕ = 0x60 ∷ replicate 39 0 in
    net_ipv6_validate packet 40 && not (net_icmpv6_checksum packet [] == 0)
