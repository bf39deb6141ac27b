-- ===== src/Arch.antt =====
-- arch/x86: the descriptor tables, the interrupt controllers and the dispatch of interrupts.
pub mod Gdt
pub mod Apic
pub mod Interrupts
