-- ===== src/Arch/Interrupts/Gates.antt =====
-- arch/x86/isr.c: the gates behind idt_init.
use ceblar.Prelude.{ℕ, ◌+◌, ◌-◌, ◌*◌, ◌/◌, ◌%◌, ◌^◌, ◌==◌, ltb, if◌then◌else◌}
use ceblar.Arch.Interrupts.{IdtEntry, Interrupts, Stubs, empty_entry}

-- The entry for a handler's address.
abbrev pub entry_for : ℕ → ℕ → IdtEntry
entry_for base flags = record {
  base_low = base % 2 ^ 16;
  selector = 0x08;
  unused = 0;
  flags = flags;
  base_high = base / 2 ^ 16 % 2 ^ 16;
}

-- The gate that each number is to have.
abbrev pub gate_of : Stubs → ℕ → IdtEntry
gate_of stubs n =
    if ltb n 32
    then entry_for (stubs.isr n) 0x8e
    else if ltb n 48
    then entry_for (stubs.irq (n - 32)) 0x8e
    else if n == 128
    then entry_for stubs.isr128 0xee
    else empty_entry

-- The privilege level of a gate, and the address that it leads to.
abbrev pub level : IdtEntry → ℕ
level e = e.flags / 2 ^ 5 % 4

abbrev pub target : IdtEntry → ℕ
target e = e.base_low + e.base_high * 2 ^ 16

-- Where the interrupt of a number is to go; 0 where there is no gate.
abbrev pub entry_point : Stubs → ℕ → ℕ
entry_point stubs n =
    if ltb n 32
    then stubs.isr n
    else if ltb n 48
    then stubs.irq (n - 32)
    else if n == 128
    then stubs.isr128
    else 0
