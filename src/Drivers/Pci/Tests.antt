-- ===== src/Drivers/Pci/Tests.antt =====
-- The theorems about drivers/pci/pci.c on a device with one register of 4096 bytes.
use ceblar.Prelude.{ℕ, ◌+◌, ◌-◌, ◌^◌, ◌≡◌, refl, false, true, some, ◌==◌, if◌then◌else◌, arith}
use ceblar.Drivers.Pci.{ConfigPorts, PciDevice, pci_read_bar, pci_config_read32, pci_config_write32}
use ceblar.Drivers.Pci.Bars.{HasBar, IsMemory, read_bar-HasBar}

-- The selected address and the register, which is at 0xfeb00000 and has flag 8.
abbrev Hw : Type 0
Hw = ℕ × ℕ

abbrev ports : ConfigPorts Hw
ports = record {
  outl = λ port value hw.
      if port == 0xcf8
      then (value, hw.1)
      else (hw.0, if value == 2 ^ 32 - 1 then 2 ^ 32 - 4096 + 8 else value);
  inl = λ port hw. (hw.1, hw);
}

abbrev device : PciDevice
device = record {
  bus = 0;
  slot = 3;
  function = 0;
  vendor = 0x1af4;
  device = 0x1001;
  class_code = 1;
  subclass = 0;
  prog_if = 0;
  header_type = 0;
}

device-HasBar : HasBar ports device 1 0xfeb00000 4096 8
unfolding pci_config_read32 pci_config_write32
device-HasBar = record {
  register = λ hw. hw.1;
  read = λ hw. refl;
  read_keeps = λ hw. refl;
  write_ones = λ hw. refl;
  write_back = λ hw. refl;
}

device-IsMemory : IsMemory 0xfeb00000 4096 8
device-IsMemory = record {
  sized = refl;
  some_size = omega arith;
  placed = refl;
  some_base = omega arith;
  inside = omega arith;
  few = omega arith;
  memory = refl;
  narrow = omega arith;
}

read_bar-HasBar_example :
    ((pci_read_bar ports device 1 (0, 0xfeb00008)).0
      ≡ some (record {
        base = 0xfeb00000;
        size = 4096;
        io = false;
        prefetchable = true;
        is_64bit = false;
      }))
    × (device-HasBar.register (pci_read_bar ports device 1 (0, 0xfeb00008)).1
        ≡ device-HasBar.register (0, 0xfeb00008))
unfolding device-HasBar
read_bar-HasBar_example =
    read_bar-HasBar ports device 1 0xfeb00000 4096 8 (0, 0xfeb00008) device-HasBar device-IsMemory
      refl (omega arith)
