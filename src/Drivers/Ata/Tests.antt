-- ===== src/Drivers/Ata/Tests.antt =====
-- The driver of drivers/ata/ata.c on ports that remember.
use ceblar.Prelude.{
  ℕ, ◌+◌, ◌*◌, ◌^◌, ◌<◌, ◌≤◌, ◌≡◌, refl, true, ◌==◌, if◌then◌else◌, some, List, length, update,
  update_self, replicate, arith,
}
use ceblar.Drivers.Ata.{
  Ports, ata_wait, wait_from, ata_select, ata_delay, ata_read, read_from, transfer_in,
  start_transfer, read_words,
}
use ceblar.Drivers.Ata.Laws.{HasRegisters, ata_read-Bounds}

-- A port holds what was last written to it, and the data port gives sevens. The command port reads as a
-- status, which is ready for data.
abbrev Registers : Type 0
Registers = ℕ → ℕ

abbrev memory_ports : Ports Registers
memory_ports = record {
  inb = λ p w. (if p == 0x1f7 then 0x58 else w p, w);
  inw = λ p w. (7, w);
  outb = λ p v w. update w p v;
  outw = λ p v w. w;
}

memory-HasRegisters : HasRegisters memory_ports
memory-HasRegisters = record {
  register = λ w p. w p;
  written = λ p v w. update_self w p v;
  kept = λ p q v w ne. ground (arith, ne);
  idle_read = λ q w. refl;
}

abbrev blank : Registers
blank p = 0

waited : (ata_wait memory_ports 8 blank).0 ≡ true
unfolding ata_wait wait_from
waited = refl

abbrev addressed : Registers
addressed =
    update (update (update (update (update blank 0x1f6 0xe1) 0x1f2 1) 0x1f3 0x04) 0x1f4 0x03) 0x1f5
      0x02

selected : ata_select memory_ports 0x1020304 blank ≡ some addressed
unfolding ata_select ata_delay
selected = refl

abbrev sevens : List ℕ
sevens = replicate 256 7

one_read : (ata_read memory_ports true 9 1 blank).0 ≡ some sevens
unfolding ata_read read_from transfer_in start_transfer ata_select ata_delay ata_wait wait_from
    read_words
one_read = refl

ata_read-Bounds_example : (true ≡ true) × (0 < 1) × (9 + 1 ≤ 2 ^ 28) × (length sevens ≡ 256 * 1)
ata_read-Bounds_example = ata_read-Bounds memory_ports true 9 1 blank sevens one_read
