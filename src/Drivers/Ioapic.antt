-- ===== src/Drivers/Ioapic.antt =====
-- arch/x86/ioapic.c: the routes of interrupts. The controller's registers are a function, and its selection
-- of a register with the access behind it is one step.
use ceblar.Prelude.{
  ℕ, ◌+◌, ◌-◌, ◌*◌, ◌/◌, ◌%◌, ◌^◌, bit_or, Bool, true, false, ◌||◌, not, ◌==◌, ltb, if◌then◌else◌,
  update,
}
use ceblar.Drivers.Acpi.{Acpi, acpi_irq_to_gsi}

abbrev pub ioapic_default_base : ℕ
ioapic_default_base = 0xfec00000

abbrev pub ioapic_mask : ℕ
ioapic_mask = 0x00010000

abbrev pub ioapic_trigger_level : ℕ
ioapic_trigger_level = 0x00008000

abbrev pub ioapic_polarity_low : ℕ
ioapic_polarity_low = 0x00002000

-- The controller's registers and the static variables.
pub record Ioapic : Type 0 where
  pub registers : ℕ → ℕ
  pub available : Bool
  pub gsi_base : ℕ
  pub max_redirection : ℕ

unfoldable pub ioapic_read : ℕ → Ioapic → ℕ
ioapic_read reg c = if c.available then c.registers reg else 0xffffffff

unfoldable pub ioapic_write : ℕ → ℕ → Ioapic → Ioapic
ioapic_write reg value c =
    if c.available then record c { registers = update c.registers reg value } else c

-- `(masked ? IOAPIC_MASK : 0u) | vector`, with the polarity and the trigger mode that the flags ask for.
abbrev pub with_polarity : ℕ → ℕ → ℕ
with_polarity flags value = if flags % 4 == 3 then bit_or value ioapic_polarity_low else value

abbrev pub with_trigger : ℕ → ℕ → ℕ
with_trigger flags value = if flags / 4 % 4 == 3 then bit_or value ioapic_trigger_level else value

abbrev pub route_value : Bool → ℕ → ℕ → ℕ
route_value masked vector flags =
    with_trigger flags (with_polarity flags (bit_or (if masked then ioapic_mask else 0) vector))

unfoldable pub ioapic_route_irq : ℕ → ℕ → ℕ → Bool → Acpi → Ioapic → Ioapic
ioapic_route_irq irq vector destination masked acpi c =
    let (found, gsi, flags) = acpi_irq_to_gsi irq acpi in
    let low = (0x10 + (gsi - c.gsi_base) * 2) % 2 ^ 8 in
    if not c.available || ltb gsi c.gsi_base || ltb c.max_redirection (gsi - c.gsi_base)
    then c
    else ioapic_write low (route_value masked vector flags)
        (ioapic_write ((low + 1) % 2 ^ 8) (destination * 2 ^ 24) c)

-- `smp_apic_available()` is an argument.
unfoldable pub ioapic_init : Bool → Acpi → Ioapic → Ioapic
ioapic_init apic acpi c =
    let version = c.registers 1 in
    if not apic
      || not (acpi.ioapic_base == ioapic_default_base)
      || version == 0xffffffff
      || version == 0
    then c
    else ioapic_route_irq 1 33 0 true acpi (
        ioapic_route_irq 0 32 0 true acpi (record c {
          available = true;
          gsi_base = acpi.ioapic_gsi_base;
          max_redirection = version / 2 ^ 16 % 2 ^ 8;
        }))

unfoldable pub ioapic_enable_irq : ℕ → Acpi → Ioapic → Ioapic
ioapic_enable_irq irq = ioapic_route_irq irq ((32 + irq) % 2 ^ 8) 0 false

unfoldable pub ioapic_disable_irq : ℕ → Acpi → Ioapic → Ioapic
ioapic_disable_irq irq = ioapic_route_irq irq ((32 + irq) % 2 ^ 8) 0 true
