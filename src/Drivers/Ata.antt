-- ===== src/Drivers/Ata.antt =====
-- drivers/ata/ata.c: sectors by programmed input and output. The ports of the machine are a parameter,
-- functions over its state `W`.
pub mod Laws
mod Tests
use ceblar.Prelude.{
  ℕ, zero, suc, ◌+◌, ◌-◌, ◌*◌, ◌/◌, ◌%◌, ◌^◌, bit_and, bit_or, Bool, true, false, ◌&&◌, ◌||◌, not,
  ◌==◌, ltb, leb, if◌then◌else◌, Option, none, some, List, [], ◌∷◌, ◌++◌, length, take, drop,
  get_or, add32,
}

pub record Ports (W : Type 0) : Type 0 where
  pub inb : ℕ → W → ℕ × W
  pub inw : ℕ → W → ℕ × W
  pub outb : ℕ → ℕ → W → W
  pub outw : ℕ → ℕ → W → W

abbrev pub ata_data : ℕ
ata_data = 0x1f0

abbrev pub ata_sector_count : ℕ
ata_sector_count = 0x1f2

abbrev pub ata_lba0 : ℕ
ata_lba0 = 0x1f3

abbrev pub ata_lba1 : ℕ
ata_lba1 = 0x1f4

abbrev pub ata_lba2 : ℕ
ata_lba2 = 0x1f5

abbrev pub ata_drive : ℕ
ata_drive = 0x1f6

abbrev pub ata_status : ℕ
ata_status = 0x1f7

abbrev pub ata_command : ℕ
ata_command = 0x1f7

abbrev pub ata_control : ℕ
ata_control = 0x3f6

abbrev pub ata_cmd_read : ℕ
ata_cmd_read = 0x20

abbrev pub ata_cmd_write : ℕ
ata_cmd_write = 0x30

abbrev pub ata_cmd_identify : ℕ
ata_cmd_identify = 0xec

abbrev pub ata_cmd_cache_flush : ℕ
ata_cmd_cache_flush = 0xe7

abbrev pub ata_status_drq : ℕ
ata_status_drq = 0x08

abbrev pub ata_timeout : ℕ
ata_timeout = 100000

-- `status & (ATA_STATUS_ERR | ATA_STATUS_DF)`
abbrev pub has_error : ℕ → Bool
has_error status = not (bit_and status 0x21 == 0)

-- `!(status & ATA_STATUS_BSY) && (status & wanted) == wanted`
abbrev pub is_done : ℕ → ℕ → Bool
is_done wanted status = bit_and status 0x80 == 0 && bit_and status wanted == wanted

abbrev pub out_of_range : ℕ → ℕ → Bool
out_of_range lba sectors = sectors == 0 || leb 0x10000000 lba || ltb (0x10000000 - lba) sectors

module _ {W : Type 0} (ports : Ports W) where
  open ports use {inb, inw, outb, outw}

  -- Four reads whose values are dropped.
  unfoldable pub ata_delay : W → W
  ata_delay w = (inb ata_control (inb ata_control (inb ata_control (inb ata_control w).1).1).1).1

  -- `for (n = 0; n < ATA_TIMEOUT; n++)` of `ata_wait`, by the rounds left; the flag is whether the code
  -- returns 0.
  unfoldable pub wait_from : ℕ → ℕ → W → Bool × W
  wait_from zero wanted w = (false, w)
  wait_from (suc n) wanted w =
      let (status, w₁) = inb ata_status w in
      elim (has_error status) [
        | true ↦ (false, w₁)
        | false ↦ elim (is_done wanted status) [ true ↦ (true, w₁) | false ↦ wait_from n wanted w₁ ]
      ]

  unfoldable pub ata_wait : ℕ → W → Bool × W
  ata_wait = wait_from ata_timeout

  unfoldable pub ata_select : ℕ → W → Option W
  ata_select lba w =
      if leb 0x10000000 lba
      then none
      else (let w₁ =
            ata_delay (outb ata_drive (bit_or 0xe0 (bit_and (lba / 2 ^ 24) 0x0f) % 256) w) in
          let w₂ = outb ata_lba0 (lba % 256) (outb ata_sector_count 1 w₁) in
          some (outb ata_lba2 (lba / 2 ^ 16 % 256) (outb ata_lba1 (lba / 2 ^ 8 % 256) w₂)))

  -- The words of the buffer out of the data port, and into it.
  unfoldable pub write_words : List ℕ → W → W
  write_words [] w = w
  write_words (x ∷ xs) w = write_words xs (outw ata_data x w)

  unfoldable pub read_words : ℕ → W → List ℕ × W
  read_words zero w = ([], w)
  read_words (suc n) w =
      let (x, w₁) = inw ata_data w in let (xs, w₂) = read_words n w₁ in (x ∷ xs, w₂)

  -- The command of a transfer up to the wait for data; `command` is that of the direction.
  unfoldable pub start_transfer : Bool → ℕ → ℕ → W → Bool × W
  start_transfer present command lba w = elim (if present then ata_select lba w else none) [
    | none ↦ (false, w)
    | some w₁ ↦ ata_wait ata_status_drq (outb ata_command command w₁)
  ]

  -- `ata_transfer` with `write` 0 and 1; a buffer of a sector is its 256 words.
  unfoldable pub transfer_in : Bool → ℕ → W → Option (List ℕ) × W
  transfer_in present lba w =
      let (ok, w₁) = start_transfer present ata_cmd_read lba w in
      if ok then (let (xs, w₂) = read_words 256 w₁ in (some xs, w₂)) else (none, w₁)

  unfoldable pub transfer_out : Bool → ℕ → List ℕ → W → Bool × W
  transfer_out present lba words w =
      let (ok, w₁) = start_transfer present ata_cmd_write lba w in
      if ok
      then ata_wait 0 (outb ata_command ata_cmd_cache_flush (write_words words w₁))
      else (false, w₁)

  -- `for (i = 0; i < sectors; i++)` of `ata_read` and of `ata_write`, by the rounds left.
  unfoldable pub read_from : Bool → ℕ → ℕ → W → Option (List ℕ) × W
  read_from present lba zero w = (some [], w)
  read_from present lba (suc n) w =
      let (first, w₁) = transfer_in present lba w in
      elim first [
        | none ↦ (none, w₁)
        | some xs ↦
            let (others, w₂) = read_from present (add32 lba 1) n w₁ in
            elim others [ none ↦ (none, w₂) | some ys ↦ (some (xs ++ ys), w₂) ]
      ]

  unfoldable pub write_from : Bool → ℕ → ℕ → List ℕ → W → Bool × W
  write_from present lba zero words w = (true, w)
  write_from present lba (suc n) words w =
      let (ok, w₁) = transfer_out present lba (take 256 words) w in
      elim ok [
        | false ↦ (false, w₁)
        | true ↦ write_from present (add32 lba 1) n (drop 256 words) w₁
      ]

  -- Calls with a buffer; with a null one the code returns -1 before any access.
  unfoldable pub ata_read : Bool → ℕ → ℕ → W → Option (List ℕ) × W
  ata_read present lba sectors w =
      if out_of_range lba sectors then (none, w) else read_from present lba sectors w

  unfoldable pub ata_write : Bool → ℕ → ℕ → List ℕ → W → Bool × W
  ata_write present lba sectors words w =
      if out_of_range lba sectors then (false, w) else write_from present lba sectors words w

  unfoldable pub ata_read_sector : Bool → ℕ → W → Option (List ℕ) × W
  ata_read_sector present lba = ata_read present lba 1

  unfoldable pub ata_write_sector : Bool → ℕ → List ℕ → W → Bool × W
  ata_write_sector present lba = ata_write present lba 1

  -- The wait of `ata_init`, which is `ata_wait(ATA_STATUS_DRQ)` written out, and the words of the
  -- identification, which the code drops. The result is `present` and whether the code returns 0; where
  -- it does, the code has also registered the device.
  unfoldable pub ata_init : W → Bool × W
  ata_init w =
      let w₁ = outb ata_sector_count 0 (ata_delay (outb ata_drive 0xa0 w)) in
      let w₂ = outb ata_lba2 0 (outb ata_lba1 0 (outb ata_lba0 0 w₁)) in
      let (status, w₃) = inb ata_status (outb ata_command ata_cmd_identify w₂) in
      elim (status == 0 || status == 0xff) [
        | true ↦ (false, w₃)
        | false ↦
            let (ok, w₄) = wait_from ata_timeout ata_status_drq w₃ in
            elim ok [ false ↦ (false, w₄) | true ↦ (true, (read_words 256 w₄).1) ]
      ]
