-- ===== src/Fs/Block.antt =====
-- drivers/block.c: the registry of block devices. A device is what its driver gives: two functions
-- over the state `Disk` of the hardware, `none` being the error code.
use ceblar.Prelude.{
  ℕ, Bool, true, false, ◌&&◌, ◌==◌, ltb, if◌then◌else◌, Option, none, some, List, [], ◌∷◌, ◌++◌,
  length, ◌≡◌, ◌≢◌,
}

abbrev pub block_max_devices : ℕ
block_max_devices = 4

-- The bytes of a sector or of another buffer.
abbrev pub Bytes : Type 0
Bytes = List ℕ

-- `block_device_t`; a null function pointer is `none`.
pub record BlockDevice (Disk : Type 0) : Type 0 where
  pub sector_size : ℕ
  pub present : Bool
  pub read_sector : Option (ℕ → Disk → Option Bytes)
  pub write_sector : Option (ℕ → Bytes → Disk → Option Disk)

-- A pointer that is not null.
abbrev pub is_given {ℓ} : {A : Type ℓ} → Option A → Bool
is_given none = false
is_given (some a) = true

module _ {Disk : Type 0} where
  -- `devices` up to `device_count`, after `block_init`.
  pub block_init : List (BlockDevice Disk)
  block_init = []

  abbrev is_usable : BlockDevice Disk → Bool
  is_usable d = d.present && d.sector_size == 512 && is_given d.read_sector

  unfoldable pub block_register :
      Option (BlockDevice Disk) → List (BlockDevice Disk) → Option (List (BlockDevice Disk))
  block_register none devices = none
  block_register (some d) devices =
      if is_usable d && ltb (length devices) block_max_devices
      then some (devices ++ d ∷ [])
      else none

  unfoldable pub block_default : List (BlockDevice Disk) → Option (BlockDevice Disk)
  block_default [] = none
  block_default (d ∷ devices) = some d

  abbrev read_by : Option (ℕ → Disk → Option Bytes) → ℕ → Disk → Option Bytes
  read_by none lba disk = none
  read_by (some read) lba disk = read lba disk

  abbrev write_by : Option (ℕ → Bytes → Disk → Option Disk) → ℕ → Bytes → Disk → Option Disk
  write_by none lba bytes disk = none
  write_by (some write) lba bytes disk = write lba bytes disk

  -- A call with a buffer; with a null one the code returns -1 before any access.
  unfoldable pub block_read_sector : List (BlockDevice Disk) → ℕ → Disk → Option Bytes
  block_read_sector [] lba disk = none
  block_read_sector (d ∷ devices) lba disk = read_by d.read_sector lba disk

  unfoldable pub block_write_sector : List (BlockDevice Disk) → ℕ → Bytes → Disk → Option Disk
  block_write_sector [] lba bytes disk = none
  block_write_sector (d ∷ devices) lba bytes disk = write_by d.write_sector lba bytes disk

  -- What a disk with `write_sector` is relied on to do: a write succeeds, is read back as the 512
  -- bytes that it was given, and changes no other sector.
  pub record IsStore (devices : List (BlockDevice Disk)) : Type 0 where
    pub written : ℕ → Bytes → Disk → Disk
    pub write_works :
        (lba : ℕ) (b : Bytes) (disk : Disk)
        → block_write_sector devices lba b disk ≡ some (written lba b disk)
    pub read_same :
        (lba : ℕ) (b : Bytes) (disk : Disk)
        → length b ≡ 512
        → block_read_sector devices lba (written lba b disk) ≡ some b
    pub read_other :
        (lba m : ℕ) (b : Bytes) (disk : Disk)
        → m ≢ lba
        → block_read_sector devices m (written lba b disk) ≡ block_read_sector devices m disk
