-- ===== src/Net.antt =====
-- net/net.c: checksums, the loopback queue, sockets and header validation.
pub mod Checksum
pub mod Loopback
pub mod Socket
pub mod Headers
mod Tests
