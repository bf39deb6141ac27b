-- ===== src/Kernel.antt =====
-- Processes, their scheduling and system calls, the loader, locks, modules and the processor record.
pub mod Pcb
pub mod Process
pub mod Elf
pub mod Scheduler
pub mod Spinlock
pub mod Syscall
pub mod Module
pub mod Percpu
