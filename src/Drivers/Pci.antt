-- ===== src/Drivers/Pci.antt =====
-- drivers/pci/pci.c, and the drivers that only look for their device. The two ports of the configuration space
-- are hardware: `ConfigPorts` says what a write and a read of a port do.
pub mod Bars
mod Tests
use ceblar.Prelude.{
  ℕ, zero, suc, ◌+◌, ◌-◌, ◌*◌, ◌/◌, ◌%◌, ◌^◌, Bool, true, false, ◌&&◌, ◌||◌, not, ◌==◌, ltb, leb,
  if◌then◌else◌, Option, none, some, sub32, add32,
}

pub record ConfigPorts (Hw : Type 0) : Type 0 where
  pub outl : ℕ → ℕ → Hw → Hw
  pub inl : ℕ → Hw → ℕ × Hw

-- `pci_device_t`
pub record PciDevice : Type 0 where
  pub bus : ℕ
  pub slot : ℕ
  pub function : ℕ
  pub vendor : ℕ
  pub device : ℕ
  pub class_code : ℕ
  pub subclass : ℕ
  pub prog_if : ℕ
  pub header_type : ℕ

-- `pci_bar_t`
pub record PciBar : Type 0 where
  pub base : ℕ
  pub size : ℕ
  pub io : Bool
  pub prefetchable : Bool
  pub is_64bit : Bool

-- The fields do not overlap, so that the bitwise or is a sum; `offset & 0xfcu` drops the low two bits.
abbrev pub address : ℕ → ℕ → ℕ → ℕ → ℕ
address bus slot function offset =
    2 ^ 31 + bus * 2 ^ 16 + slot % 2 ^ 5 * 2 ^ 11 + function % 2 ^ 3 * 2 ^ 8 + (offset - offset % 4)

-- `x & ~(2 ^ k - 1)`, with `n` for `2 ^ k`.
abbrev pub align_down : ℕ → ℕ → ℕ
align_down x n = x - x % n

-- `(id & 0xffffu) == 0xffffu`
abbrev pub is_absent : ℕ → Bool
is_absent id = id % 2 ^ 16 == 0xffff

-- The type of a memory register: two bits from bit 1 on.
abbrev pub bar_type : ℕ → ℕ
bar_type original = original / 2 % 4

-- The base and the size, from the register's value and what it reads after all ones were written.
unfoldable pub decode_bar : Bool → Bool → ℕ → ℕ → Option PciBar
decode_bar io wide original mask =
    let low = if io then 4 else 16 in
    let size = align_down mask low in
    if size == 0 || size == 2 ^ 32 - 1
    then none
    else some (record {
      base = align_down original low;
      size = sub32 0 size;
      io = io;
      prefetchable = not io && original / 8 % 2 == 1;
      is_64bit = wide;
    })

module _ {Hw : Type 0} (ports : ConfigPorts Hw) where
  unfoldable pub pci_config_read32 : ℕ → ℕ → ℕ → ℕ → Hw → ℕ × Hw
  pci_config_read32 bus slot function offset hw =
      ports.inl 0xcfc (ports.outl 0xcf8 (address bus slot function offset) hw)

  unfoldable pub pci_config_write32 : ℕ → ℕ → ℕ → ℕ → ℕ → Hw → Hw
  pci_config_write32 bus slot function offset value hw =
      ports.outl 0xcfc value (ports.outl 0xcf8 (address bus slot function offset) hw)

  abbrev pub described : ℕ → ℕ → ℕ → ℕ → Hw → Option PciDevice × Hw
  described bus slot function id hw =
      let (class_register, hw₁) = pci_config_read32 bus slot function 8 hw in
      let (header, hw₂) = pci_config_read32 bus slot function 0x0c hw₁ in
      (
        some (record {
          bus = bus;
          slot = slot;
          function = function;
          vendor = id % 2 ^ 16;
          device = id / 2 ^ 16 % 2 ^ 16;
          class_code = class_register / 2 ^ 24 % 2 ^ 8;
          subclass = class_register / 2 ^ 16 % 2 ^ 8;
          prog_if = class_register / 2 ^ 8 % 2 ^ 8;
          header_type = header / 2 ^ 16 % 2 ^ 8;
        }),
        hw₂,
      )

  unfoldable pub read_device : ℕ → ℕ → ℕ → Hw → Option PciDevice × Hw
  read_device bus slot function hw =
      let (id, hw₁) = pci_config_read32 bus slot function 0 hw in
      if is_absent id then (none, hw₁) else described bus slot function id hw₁

  -- The two loops of `pci_init`, by the rounds left: the functions behind the first, and the slots.
  unfoldable pub count_functions : ℕ → ℕ → ℕ → Hw → ℕ × Hw
  count_functions zero slot f hw = (0, hw)
  count_functions (suc n) slot f hw =
      let (found, hw₁) = read_device 0 slot f hw in
      let (rest, hw₂) = count_functions n slot (f + 1) hw₁ in
      (elim found [ none ↦ rest | some d ↦ rest + 1 ], hw₂)

  abbrev pub count_slot : ℕ → Option PciDevice → Hw → ℕ × Hw
  count_slot slot none hw = (0, hw)
  count_slot slot (some d) hw =
      if d.header_type / 2 ^ 7 % 2 == 1
      then (let (n, hw₁) = count_functions 7 slot 1 hw in (n + 1, hw₁))
      else (1, hw)

  unfoldable pub count_slots : ℕ → ℕ → Hw → ℕ × Hw
  count_slots zero slot hw = (0, hw)
  count_slots (suc n) slot hw =
      let (found, hw₁) = read_device 0 slot 0 hw in
      let (here, hw₂) = count_slot slot found hw₁ in
      let (rest, hw₃) = count_slots n (slot + 1) hw₂ in (here + rest, hw₃)

  -- The number of device functions that the message names.
  unfoldable pub pci_init : Hw → ℕ × Hw
  pci_init hw = count_slots 32 0 hw

  -- The loop of `pci_find_class` over slots and functions, the place `i` being `slot * 8 + f`.
  unfoldable pub find_from : ℕ → ℕ → ℕ → ℕ → Hw → Option PciDevice × Hw
  find_from zero i class_code subclass hw = (none, hw)
  find_from (suc n) i class_code subclass hw =
      let (found, hw₁) = read_device 0 (i / 8) (i % 8) hw in
      let rest = find_from n (i + 1) class_code subclass hw₁ in
      elim found [
        | none ↦ rest
        | some d ↦
            if d.class_code == class_code && d.subclass == subclass then (some d, hw₁) else rest
      ]

  -- A call with a device to fill in; what a failed search leaves in it is not shown.
  unfoldable pub pci_find_class : ℕ → ℕ → Hw → Option PciDevice × Hw
  pci_find_class class_code subclass hw = find_from 256 0 class_code subclass hw

  -- The writes and the read in between, and the decoding.
  abbrev pub size_bar : PciDevice → ℕ → ℕ → Bool → Bool → Hw → Option PciBar × Hw
  size_bar d offset original io wide hw =
      let hw₁ = pci_config_write32 d.bus d.slot d.function offset (2 ^ 32 - 1) hw in
      let (mask, hw₂) = pci_config_read32 d.bus d.slot d.function offset hw₁ in
      (
        decode_bar io wide original mask,
        pci_config_write32 d.bus d.slot d.function offset original hw₂,
      )

  abbrev pub wide_bar : PciDevice → ℕ → ℕ → Hw → Option PciBar × Hw
  wide_bar d offset original hw =
      let (high, hw₁) = pci_config_read32 d.bus d.slot d.function (offset + 4) hw in
      if not (high == 0) then (none, hw₁) else size_bar d offset original false true hw₁

  -- A call with a device and a register to fill in.
  unfoldable pub pci_read_bar : PciDevice → ℕ → Hw → Option PciBar × Hw
  pci_read_bar d index hw =
      let offset = 0x10 + index * 4 in
      if leb 6 index
      then (none, hw)
      else (let (original, hw₁) = pci_config_read32 d.bus d.slot d.function offset hw in
          if original == 0 || original == 2 ^ 32 - 1
          then (none, hw₁)
          else if original % 2 == 1
          then size_bar d offset original true false hw₁
          else if bar_type original == 2
          then wide_bar d offset original hw₁
          else size_bar d offset original false false hw₁)

  -- `ahci_init`, `nvme_init` and `nic_init`: the flag `present`, which each returns as 0 or -1.
  abbrev pub is_found : Option PciDevice × Hw → Bool × Hw
  is_found (none, hw) = (false, hw)
  is_found (some d, hw) = (true, hw)

  unfoldable pub ahci_init : Hw → Bool × Hw
  ahci_init hw = is_found (pci_find_class 0x01 0x06 hw)

  unfoldable pub nvme_init : Hw → Bool × Hw
  nvme_init hw = is_found (pci_find_class 0x01 0x08 hw)

  unfoldable pub nic_init : Hw → Bool × Hw
  nic_init hw = is_found (pci_find_class 0x02 0x00 hw)
