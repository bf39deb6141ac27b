-- ===== src/Drivers/Pci/Bars.antt =====
-- drivers/pci/pci.c: the size of a base register, and the addresses of the configuration space.
use ceblar.Prelude.{
  ℕ, ◌+◌, ◌-◌, ◌*◌, ◌/◌, ◌%◌, ◌^◌, ◌<◌, ◌≤◌, ◌≡◌, ◌≢◌, refl, ap, sym, ◌∙◌, false, ◌||◌, ◌==◌, leb,
  some, sub32, arith, ne→==,
}
use ceblar.Drivers.Pci.{
  ConfigPorts, PciDevice, address, align_down, bar_type, decode_bar, pci_config_read32,
  pci_config_write32, pci_read_bar, size_bar,
}

-- Different registers of different functions have different addresses, and an address fits 32 bits.
pub address_injective :
    (bus slot function offset bus' slot' function' offset' : ℕ)
    → bus < 256
    → bus' < 256
    → offset < 256
    → offset' < 256
    → (address bus slot function offset < 2 ^ 32)
      × (address bus slot function offset ≡ address bus' slot' function' offset'
          → (bus ≡ bus')
            × (slot % 32 ≡ slot' % 32)
            × (function % 8 ≡ function' % 8)
            × (offset / 4 ≡ offset' / 4))
address_injective bus slot function offset bus' slot' function' offset' b b' o o' =
    (omega arith, λ e. (omega arith, omega arith, omega arith, omega arith))

-- A size of 16 bytes or more that divides into 16s, and a base in front of it; bit 0 of the flags is 0 and
-- the type in bits 1 and 2 is that of 32 bits.
pub record IsMemory (base size flags : ℕ) : Type 0 where
  pub sized : size % 16 ≡ 0
  pub some_size : size ≢ 0
  pub placed : base % 16 ≡ 0
  pub some_base : base ≢ 0
  pub inside : base + size ≤ 2 ^ 32
  pub few : flags < 16
  pub memory : flags % 2 ≡ 0
  pub narrow : flags / 2 % 4 ≢ 2

decode_bar_lem :
    (base size flags : ℕ)
    → IsMemory base size flags
    → decode_bar false false (base + flags) (2 ^ 32 - size + flags)
      ≡ some (record {
        base = base;
        size = size;
        io = false;
        prefetchable = flags / 8 % 2 == 1;
        is_64bit = false;
      })
unfolding decode_bar
decode_bar_lem base size flags m =
    let mask : align_down (2 ^ 32 - size + flags) 16 ≡ 2 ^ 32 - size =
      omega (arith, m.sized, m.some_size, m.few, m.inside) in
    let start : align_down (base + flags) 16 ≡ base = omega (arith, m.placed, m.few) in
    let some_mask : (2 ^ 32 - size == 0) ≡ false = ground (arith, m.inside, m.some_base) in
    let other_mask : (2 ^ 32 - size == 2 ^ 32 - 1) ≡ false =
      ne→== _ _ (omega (arith, m.sized, m.inside)) in
    let whole : sub32 0 (2 ^ 32 - size) ≡ size =
      omega (arith, m.inside, m.some_size, m.some_base) in
    let flag : (base + flags) / 8 % 2 ≡ flags / 8 % 2 = omega (arith, m.placed) in
    rw (mask, start, some_mask, other_mask, whole, flag) refl

module _ {Hw : Type 0} (ports : ConfigPorts Hw) (d : PciDevice) (index : ℕ) where
  -- A 32-bit memory register of a device, at a base, with its flags in the low four bits: a read does not change
  -- it; after all ones it reads as the complement of its size less one, with the flags; its own value it takes back.
  pub record HasBar (base size flags : ℕ) : Type 0 where
    pub register : Hw → ℕ
    pub read :
        (hw : Hw)
        → (pci_config_read32 ports d.bus d.slot d.function (0x10 + index * 4) hw).0 ≡ register hw
    pub read_keeps :
        (hw : Hw)
        → register (pci_config_read32 ports d.bus d.slot d.function (0x10 + index * 4) hw).1
          ≡ register hw
    pub write_ones :
        (hw : Hw)
        → register
            (pci_config_write32 ports d.bus d.slot d.function (0x10 + index * 4) (2 ^ 32 - 1) hw)
          ≡ 2 ^ 32 - size + flags
    pub write_back :
        (hw : Hw)
        → register
            (pci_config_write32 ports d.bus d.slot d.function (0x10 + index * 4) (base + flags) hw)
          ≡ base + flags

  size_bar_lem :
      (base size flags : ℕ) (hw : Hw) (h : HasBar base size flags)
      → IsMemory base size flags
      → ((size_bar ports d (0x10 + index * 4) (base + flags) false false hw).0
          ≡ some (record {
            base = base;
            size = size;
            io = false;
            prefetchable = flags / 8 % 2 == 1;
            is_64bit = false;
          }))
        × (h.register (size_bar ports d (0x10 + index * 4) (base + flags) false false hw).1
            ≡ base + flags)
  size_bar_lem base size flags hw h m =
      let hw₁ : Hw =
        pci_config_write32 ports d.bus d.slot d.function (0x10 + index * 4) (2 ^ 32 - 1) hw in
      let mask = h.read hw₁ ∙ h.write_ones hw in
      (
        ap (decode_bar false false (base + flags)) mask ∙ decode_bar_lem base size flags m,
        h.write_back (pci_config_read32 ports d.bus d.slot d.function (0x10 + index * 4) hw₁).1,
      )

  -- For a 32-bit memory register (`HasBar`, `IsMemory`) that holds its base and flags, `pci_read_bar` returns the
  -- base and the size, and leaves in the register what it held.
  pub read_bar-HasBar :
      (base size flags : ℕ) (hw : Hw) (h : HasBar base size flags)
      → IsMemory base size flags
      → h.register hw ≡ base + flags
      → index < 6
      → ((pci_read_bar ports d index hw).0
          ≡ some (record {
            base = base;
            size = size;
            io = false;
            prefetchable = flags / 8 % 2 == 1;
            is_64bit = false;
          }))
        × (h.register (pci_read_bar ports d index hw).1 ≡ h.register hw)
  unfolding pci_read_bar
  read_bar-HasBar base size flags hw h m holds lt =
      let original = h.read hw ∙ holds in
      let first : leb 6 index ≡ false = ground (arith, lt) in
      let given : (base + flags == 0) || (base + flags == 2 ^ 32 - 1) ≡ false =
        ground (arith, m.some_base, m.inside, m.sized, m.some_size, m.few, m.placed) in
      let in_memory : (base + flags) % 2 == 1 ≡ false =
        ne→== _ _ (omega (arith, m.placed, m.memory)) in
      let typed : bar_type (base + flags) ≡ flags / 2 % 4 = omega (arith, m.placed) in
      let narrow : bar_type (base + flags) == 2 ≡ false =
        ne→== _ _ (omega (arith, typed, m.narrow)) in
      let rest =
        size_bar_lem base size flags
          (pci_config_read32 ports d.bus d.slot d.function (0x10 + index * 4) hw).1 h m in
      (
        rw (first, original, given, in_memory, narrow) rest.0,
        rw (first, original, given, in_memory, narrow) (rest.1 ∙ sym holds),
      )
