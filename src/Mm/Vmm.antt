-- ===== src/Mm/Vmm.antt =====
-- mm/vmm.c: page tables and address spaces. A page table is an array of 32-bit entries; a null
-- pointer to a table is 0, and an error code -1 is `none`.
pub mod Kernel
pub mod User
pub mod Fault
mod Tests
