-- ===== src/Arch/Apic.antt =====
-- arch/x86/apic.c and arch/x86/smp.c: the local controller's registers, by their byte offsets, and what the start
-- finds of the processors. The instructions cpuid and rdmsr are arguments.
use ceblar.Prelude.{
  ℕ, ◌-◌, ◌/◌, ◌%◌, ◌^◌, bit_or, Bool, true, ◌||◌, not, ◌==◌, leb, if◌then◌else◌, update,
}
use ceblar.Drivers.Acpi.{Acpi}

abbrev pub lapic_default_base : ℕ
lapic_default_base = 0xfee00000

abbrev pub lapic_id : ℕ
lapic_id = 0x20

abbrev pub lapic_svr : ℕ
lapic_svr = 0xf0

abbrev pub lapic_eoi : ℕ
lapic_eoi = 0xb0

abbrev pub lapic_enable : ℕ
lapic_enable = 0x100

-- The registers at `lapic`, and `enabled`.
pub record Lapic : Type 0 where
  pub lapic : ℕ → ℕ
  pub enabled : Bool

-- The static variables of smp.c.
pub record Smp : Type 0 where
  pub cpu_count : ℕ
  pub apic : Bool

-- The answers of cpuid: `eax` of leaf 0 and `edx` of leaf 1.
unfoldable pub smp_init : ℕ → ℕ → Acpi → Smp → Smp
smp_init highest features acpi s = record {
  cpu_count = if acpi.cpu_count == 0 then 1 else acpi.cpu_count;
  apic = if leb 1 highest then features / 2 ^ 9 % 2 == 1 else s.apic;
}

-- `lo & 0xfffff000u`, from the low word of the register 0x1b.
abbrev pub read_apic_base : ℕ → ℕ
read_apic_base low = low - low % 2 ^ 12

unfoldable pub write_lapic : ℕ → ℕ → Lapic → Lapic
write_lapic reg value c = record c { lapic = update c.lapic reg value }

unfoldable pub apic_init : ℕ → Smp → Acpi → Lapic → Lapic
apic_init low s acpi c =
    if not s.apic
      || (not (acpi.lapic_base == lapic_default_base)
          || not (read_apic_base low == acpi.lapic_base))
    then c
    else record (write_lapic lapic_svr (bit_or (c.lapic lapic_svr) lapic_enable) c) {
      enabled = true;
    }

unfoldable pub apic_id : Lapic → ℕ
apic_id c = if c.enabled then c.lapic lapic_id / 2 ^ 24 else 0

unfoldable pub apic_eoi : Lapic → Lapic
apic_eoi c = if c.enabled then write_lapic lapic_eoi 0 c else c
