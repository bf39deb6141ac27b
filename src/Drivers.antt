-- ===== src/Drivers.antt =====
-- Devices: disk, text screen, keyboard, timer, ACPI, interrupt router, DMA buffers, PCI and the virtio disk.
pub mod Ata
pub mod Vga
pub mod Dma
pub mod Keyboard
pub mod Timer
pub mod Acpi
pub mod Ioapic
pub mod Pci
pub mod Virtio
