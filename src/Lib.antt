-- ===== src/Lib.antt =====
-- Verification of the ceblar kernel, a 32-bit x86 kernel in C.
--
-- The parts and their files. Mm models memory: Mm/Pmm the page allocator (mm/pmm.c: bitmap,
-- owner counts, `pmm_alloc_page`, `pmm_retain_page`, `pmm_free_page`) and Mm/Vmm virtual memory
-- (mm/vmm.c): Mm/Vmm/Kernel the kernel's tables, Mm/Vmm/User those of an address space,
-- Mm/Vmm/Fault the page fault handler, which calls the page allocator, and Mm/Heap the kernel's
-- heap (mm/heap.c), which takes its pages from Mm/Pmm and maps them with Mm/Vmm/Kernel. Fs
-- models storage: Fs/Block the registry of devices (drivers/block.c), Fs/Journal the write log
-- (fs/journal.c), a client of Fs/Block by the interface `IsStore` (in Fs/Journal/Crash with
-- devices that lose their power, `IsCut`), Fs/Fat32 the reader of FAT32 volumes
-- (fs/fat32/fat32.c: names and the scan of the root directory, and in Fs/Fat32/Volume mounting
-- and reading), and Fs/Vfs the open files of each process (fs/vfs.c), a client of both. Net
-- models net/net.c: Net/Checksum, Net/Loopback, Net/Socket and Net/Headers. Drivers models the
-- disk driver (drivers/ata/ata.c), over the machine's ports as a parameter, the text screen
-- (drivers/vga/vga.c), the keyboard's ring (drivers/keyboard/keyboard.c), the tick counter
-- (drivers/timer/pit.c), the firmware's interrupt table (drivers/acpi/acpi.c), the interrupt
-- router that uses it (arch/x86/ioapic.c), the configuration space in Drivers/Pci
-- (drivers/pci/pci.c) with the drivers that only look for their device (drivers/ahci.c,
-- drivers/nvme.c, drivers/nic.c), over Mm/Pmm the buffers of Drivers/Dma (drivers/dma/dma.c)
-- and, over both, Drivers/Virtio (drivers/virtio/virtio_blk.c). Arch models arch/x86: Arch/Gdt
-- the segment descriptors (gdt.c), Arch/Interrupts the gates and the dispatch of interrupts
-- (isr.c) and Arch/Apic the local controller and the processors that the start finds (apic.c,
-- smp.c). Kernel models processes: Kernel/Pcb the process control block (include/scheduler.h)
-- and Kernel/Scheduler the ready queue and the switches (scheduler/round_robin.c),
-- Kernel/Process the process table (kernel/process.c: creation, and below it Kernel/Process/Exit
-- for exit, wait and fork and Kernel/Process/Signal for signals and waits on a word), which
-- changes the machine of the scheduler and the files of Fs/Vfs and calls the memory manager by
-- the interface `Spaces`, Kernel/Elf the loader (kernel/elf.c), over the same interface and the
-- paging hardware, Kernel/Spinlock the lock that processors share (kernel/spinlock.c),
-- Kernel/Syscall the table of system calls (kernel/syscall.c), Kernel/Syscall/Sockets the calls
-- on sockets and Kernel/Syscall/Libc the wrappers of user programs (userspace/libc/syscalls.c);
-- in the table the handlers are a parameter. Kernel/Module models loadable modules
-- (modules/module.c) and Kernel/Percpu the processor's record (kernel/percpu.c).
--
-- A file named for a part holds its state, a record, and its operations under the names of the C
-- functions; the files below it hold lemmas, theorems and, in Tests, runs at concrete inputs. A
-- function that changes static variables takes the record and returns it; an error code is
-- `none`, `false` or the code's number. A pointer to a static object is an index, and one to a
-- buffer its bytes. Words are natural numbers, reduced by `% 2 ^ w` where the code wraps; a mask
-- whose value the code reads as a field is a division and a remainder. A section under a lock is
-- one step. A bitwise or of fields that do not overlap is a sum. Where the memory manager or the
-- hardware answers, the answer is a parameter. The loader writes byte by byte where the paging
-- leads its addresses; the image stands apart from that memory.
--
-- Loops that follow a list or a counter recurse on it. The walk along the ready queue has fuel
-- 34: the table has 32 processes, and the theorems about the walk ask for a queue shorter than
-- that. The folding of a checksum has two rounds, and the sum is proved to fit 16 bits after
-- them. The allocation loop of the heap has 65537 rounds, each but the last of which takes one
-- of the at most 65536 pages. The poll of the disk's status has the 100000 rounds of the code.
-- The scan of the root directory of a volume follows a chain on the disk, which need not end:
-- its fuel is an argument, and `none` is a scan that goes on. The read of a file has a round for
-- every byte that is asked for and one more, which is proved enough; the raw read and write have
-- a round for every byte. The poll of the virtio disk has the 1000000 rounds of the code.
--
-- Not modelled: assembly, serial output and the formatting of messages, the boot sequence, user
-- programs; and of the kernel's own logic the handlers of system calls but those of sockets, the
-- entry from the trap (syscall_from_interrupt: delivery and return of signals, exec, blocking),
-- the start of a program from a file (process_exec_path, process_create_from_path), and the
-- creation and destruction of address spaces.
pub mod Prelude
pub mod Mm
pub mod Fs
pub mod Net
pub mod Arch
pub mod Drivers
pub mod Kernel
