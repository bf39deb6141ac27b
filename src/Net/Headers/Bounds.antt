-- ===== src/Net/Headers/Bounds.antt =====
-- What the validators of net/net.c guarantee, and the pseudo-header checksums as one checksum.
use ceblar.Prelude.{ℕ, ◌+◌, ◌*◌, ◌/◌, ◌^◌, ◌<◌, ◌≤◌, ◌≡◌, ◌≢◌, ◌↔◌, true, List, get_or, arith}
use ceblar.Prelude.Bits.{bit_or_disjoint}
use ceblar.Net.Checksum.{swap16}
use ceblar.Net.Headers.{net_ipv6_header_size, net_ipv6_validate, TcpHeader, net_tcp_validate}

-- Swapping the bytes of a little-endian field reads it in network order.
pub swap16_bytes : (a b : ℕ) → a < 256 → b < 256 → swap16 (a + b * 2 ^ 8) ≡ a * 2 ^ 8 + b
unfolding swap16
swap16_bytes a b la lb =
    ground
      (arith, bit_or_disjoint 8 ((a + b * 2 ^ 8) * 2 ^ 8) ((a + b * 2 ^ 8) / 2 ^ 8) (omega arith))

-- A packet of bytes is accepted exactly if its length has room for the header, its first four bits are
-- 6, and the header with the payload that bytes 4 and 5 announce, in network order, lies in the length.
pub ipv6_validate_iff :
    (packet : List ℕ) (n : ℕ)
    → get_or packet 4 0 < 256
    → get_or packet 5 0 < 256
    → (net_ipv6_validate packet n ≡ true) ↔ (
        (get_or packet 0 0 / 2 ^ 4 ≡ 6)
        × (net_ipv6_header_size + (get_or packet 4 0 * 2 ^ 8 + get_or packet 5 0) ≤ n))
unfolding net_ipv6_validate
ipv6_validate_iff packet n h4 h5 =
    rw (swap16_bytes (get_or packet 4 0) (get_or packet 5 0) h4 h5) (ground arith, ground arith)

-- A segment is accepted exactly if its header, of at least 20 bytes by its data offset, lies in the
-- length and neither port is 0.
pub tcp_validate_iff :
    (h : TcpHeader) (n : ℕ)
    → (net_tcp_validate h n ≡ true) ↔ (
        (20 ≤ h.data_offset / 2 ^ 4 * 4)
        × (h.data_offset / 2 ^ 4 * 4 ≤ n)
        × (h.source ≢ 0)
        × (h.destination ≢ 0))
unfolding net_tcp_validate
tcp_validate_iff h n = (ground arith, ground arith)
