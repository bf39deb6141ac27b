-- ===== src/Mm.antt =====
-- The memory manager, mm/.
pub mod Pmm
pub mod Vmm
pub mod Heap
