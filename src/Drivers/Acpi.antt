-- ===== src/Drivers/Acpi.antt =====
-- drivers/acpi/acpi.c: the checks of firmware tables and the table of interrupt controllers. A table is a
-- function from offsets to bytes; the search for tables in physical memory is not modelled.
use ceblar.Prelude.{
  ℕ, zero, suc, ◌+◌, ◌*◌, ◌%◌, ◌^◌, Bool, true, false, ◌&&◌, ◌||◌, ◌==◌, ltb, leb, if◌then◌else◌,
  List, [], ◌∷◌, update,
}

abbrev pub acpi_max_cpus : ℕ
acpi_max_cpus = 16

abbrev pub acpi_max_irq_overrides : ℕ
acpi_max_irq_overrides = 16

abbrev pub Table : Type 0
Table = ℕ → ℕ

-- `irq_override_t`
pub record IrqOverride : Type 0 where
  pub source : ℕ
  pub gsi : ℕ
  pub flags : ℕ

-- The static variables.
pub record Acpi : Type 0 where
  pub lapic_base : ℕ
  pub ioapic_base : ℕ
  pub ioapic_gsi_base : ℕ
  pub cpu_count : ℕ
  pub override_count : ℕ
  pub cpu_apic_ids : ℕ → ℕ
  pub overrides : ℕ → IrqOverride
  pub madt_found : Bool

-- Fields of 16 and of 32 bits.
abbrev pub half : Table → ℕ → ℕ
half p i = p i + p (i + 1) * 2 ^ 8

abbrev pub word : Table → ℕ → ℕ
word p i = half p i + half p (i + 2) * 2 ^ 16

-- Whether the bytes from `i` on are those of the list.
unfoldable pub bytes_at : Table → ℕ → List ℕ → Bool
bytes_at p i [] = true
bytes_at p i (c ∷ cs) = p i == c && bytes_at p (i + 1) cs

-- "RSD PTR "
unfoldable pub signature : Table → Bool
signature p = bytes_at p 0 (82 ∷ 83 ∷ 68 ∷ 32 ∷ 80 ∷ 84 ∷ 82 ∷ 32 ∷ [])

-- The sum of `n` bytes in a byte, by the bytes left.
unfoldable pub byte_sum : Table → ℕ → ℕ → ℕ → ℕ
byte_sum p zero i sum = sum
byte_sum p (suc n) i sum = byte_sum p n (i + 1) ((sum + p i) % 2 ^ 8)

unfoldable pub valid_rsdp : Table → Bool
valid_rsdp p = byte_sum p 20 0 0 == 0

-- `sizeof(sdt_header_t)`
abbrev pub sdt_header_size : ℕ
sdt_header_size = 36

abbrev pub length : Table → ℕ
length h = word h 4

-- A table that is there; a null pointer is no table.
unfoldable pub valid_sdt : Table → Bool
valid_sdt h =
    if ltb (length h) sdt_header_size || ltb 0x10000 (length h)
    then false
    else byte_sum h (length h) 0 0 == 0

-- `has_sig(h->signature, ...)`
unfoldable pub has_sig : Table → List ℕ → Bool
has_sig h text = bytes_at h 0 text

-- What one entry of the table changes.
unfoldable pub madt_entry : Table → ℕ → Acpi → Acpi
madt_entry p pos s =
    let kind = p pos in
    let len = p (pos + 1) in
    if kind == 0 && leb 8 len
    then (if word p (pos + 4) % 2 == 1 && ltb s.cpu_count acpi_max_cpus
        then record s {
          cpu_apic_ids = update s.cpu_apic_ids s.cpu_count (p (pos + 3));
          cpu_count = s.cpu_count + 1;
        }
        else s)
    else if kind == 1 && leb 12 len && s.ioapic_base == 0xfec00000
    then record s { ioapic_base = word p (pos + 4); ioapic_gsi_base = word p (pos + 8) }
    else if kind == 2 && leb 10 len && ltb s.override_count acpi_max_irq_overrides
    then record s {
      overrides =
          update s.overrides s.override_count
            (record { source = p (pos + 3); gsi = word p (pos + 4); flags = half p (pos + 8) });
      override_count = s.override_count + 1;
    }
    else s

-- `for (; pos + 2u <= h->length; )` on fuel; each round moves on by two bytes or more.
unfoldable pub madt_from : Table → ℕ → ℕ → Acpi → Acpi
madt_from p zero pos s = s
madt_from p (suc n) pos s =
    let stop =
      ltb (length p) (pos + 2) || ltb (p (pos + 1)) 2 || ltb (length p) (pos + p (pos + 1)) in
    elim stop [ true ↦ s | false ↦ madt_from p n (pos + p (pos + 1)) (madt_entry p pos s) ]

-- `if (cpu_count == 0) cpu_count = 1`
abbrev pub one_cpu : Acpi → Acpi
one_cpu s = if s.cpu_count == 0 then record s { cpu_count = 1 } else s

-- The fuel is the length of the table, which `valid_sdt` has bounded by 2 ^ 16.
unfoldable pub parse_madt : Table → Acpi → Acpi
parse_madt h s =
    if ltb (length h) (sdt_header_size + 8)
    then s
    else one_cpu (
        madt_from h (length h) (sdt_header_size + 8) (record s {
          madt_found = true;
          lapic_base = word h 36;
          cpu_count = 0;
          override_count = 0;
          ioapic_gsi_base = 0;
        }))

unfoldable pub acpi_cpu_apic_id : ℕ → Acpi → ℕ
acpi_cpu_apic_id index s = if ltb index s.cpu_count then s.cpu_apic_ids index else 0

-- The loop of `acpi_irq_to_gsi`, by the rounds left: the result of the code, `gsi` and `flags`.
unfoldable pub override_from : ℕ → ℕ → ℕ → Acpi → ℕ × ℕ × ℕ
override_from zero i irq s = (0, irq, 0)
override_from (suc n) i irq s =
    let later = override_from n (i + 1) irq s in
    if (s.overrides i).source == irq then (1, (s.overrides i).gsi, (s.overrides i).flags) else later

unfoldable pub acpi_irq_to_gsi : ℕ → Acpi → ℕ × ℕ × ℕ
acpi_irq_to_gsi irq s = override_from s.override_count 0 irq s
