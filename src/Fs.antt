-- ===== src/Fs.antt =====
-- Storage: drivers/block.c, fs/journal.c, fs/fat32/fat32.c and fs/vfs.c.
pub mod Block
pub mod Memory
pub mod Journal
pub mod Fat32
pub mod Vfs
