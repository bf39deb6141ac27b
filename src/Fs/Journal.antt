-- ===== src/Fs/Journal.antt =====
-- fs/journal.c: a log of sector writes. A record is 532 bytes long, but one sector, its first 512
-- bytes, is what `block_write_sector` writes and `block_read_sector` reads; the last 20 bytes of
-- `data` stay in memory.
pub mod Crash
pub mod Recovery
mod Tests
use ceblar.Prelude.{
  ℕ, zero, suc, ◌+◌, ◌-◌, ◌*◌, ◌/◌, ◌%◌, ◌^◌, bit_xor, Bool, true, false, ◌&&◌, ◌||◌, not, ◌==◌,
  ltb, if◌then◌else◌, Option, none, some, List, [], ◌∷◌, ◌++◌, length, take, drop, get_or,
  replicate, add32, mul32,
}
use ceblar.Fs.Block.{
  Bytes, BlockDevice, is_given, block_default, block_read_sector, block_write_sector,
}

abbrev pub journal_magic : ℕ
journal_magic = 0x434a4e4c

abbrev pub journal_committed : ℕ
journal_committed = 0xa5

abbrev pub journal_max_slots : ℕ
journal_max_slots = 64

-- `journal_record_t`
pub record JournalRecord : Type 0 where
  pub magic : ℕ
  pub sequence : ℕ
  pub target_lba : ℕ
  pub checksum : ℕ
  pub committed : ℕ
  pub reserved : ℕ × ℕ × ℕ
  pub data_bytes : Bytes

-- The static variables of journal.c.
pub record Journal : Type 0 where
  pub base : ℕ
  pub slot_count : ℕ
  pub sequence : ℕ
  pub ready : Bool

-- `h ^= b; h *= 16777619u`
abbrev pub mix : ℕ → ℕ → ℕ
mix h b = mul32 (bit_xor h b) 16777619

pub mix_all : ℕ → Bytes → ℕ
mix_all h [] = h
mix_all h (b ∷ bs) = mix_all (mix h b) bs

pub checksum_of : JournalRecord → ℕ
checksum_of r = bit_xor (mix (mix_all 2166136261 r.data_bytes) r.target_lba) r.sequence

-- A `uint32_t` in memory, and read back.
abbrev pub word_bytes : ℕ → Bytes
word_bytes x = x % 256 ∷ (x / 256 % 256) ∷ (x / 2 ^ 16 % 256) ∷ (x / 2 ^ 24) ∷ []

abbrev pub word_at : Bytes → ℕ → ℕ
word_at bs i =
    get_or bs i 0
    + get_or bs (i + 1) 0 * 256
    + get_or bs (i + 2) 0 * 2 ^ 16
    + get_or bs (i + 3) 0 * 2 ^ 24

-- The bytes of a record, and the sector of them that reaches the disk.
pub record_bytes : JournalRecord → Bytes
record_bytes r =
    let (a, b, c) = r.reserved in
    word_bytes r.magic
    ++ (word_bytes r.sequence
        ++ (word_bytes r.target_lba
            ++ (word_bytes r.checksum ++ (r.committed ∷ a ∷ b ∷ c ∷ r.data_bytes))))

pub record_sector : JournalRecord → Bytes
record_sector r = take 512 (record_bytes r)

-- A record whose first 512 bytes are a sector that was read; `rest` is what the memory of the record
-- held in its last 20 bytes.
pub record_of : Bytes → Bytes → JournalRecord
record_of sector rest = record {
  magic = word_at sector 0;
  sequence = word_at sector 4;
  target_lba = word_at sector 8;
  checksum = word_at sector 12;
  committed = get_or sector 16 0;
  reserved = (get_or sector 17 0, get_or sector 18 0, get_or sector 19 0);
  data_bytes = drop 20 sector ++ rest;
}

module _ {Disk : Type 0} (devices : List (BlockDevice Disk)) where
  unfoldable pub journal_init : ℕ → ℕ → Journal
  journal_init start_lba slots =
      let n = if ltb journal_max_slots slots then journal_max_slots else slots in
      record {
        base = start_lba;
        slot_count = n;
        sequence = 1;
        ready = is_given (block_default devices) && not (n == 0);
      }

  abbrev pub is_live : JournalRecord → Bool
  is_live r =
      r.magic == journal_magic && r.committed == journal_committed && r.checksum == checksum_of r

  -- `rest` is the last 20 bytes of the local record, which no read reaches.
  unfoldable pub apply_record : Journal → ℕ → JournalRecord → ℕ × Disk → ℕ × Disk
  apply_record j i r (applied, disk) =
      if is_live r
      then (elim (block_write_sector devices r.target_lba (take 512 r.data_bytes) disk) [
        | none ↦ (applied, disk)
        | some disk₁ ↦ (
          applied + 1,
          elim (block_write_sector devices (add32 j.base i)
              (record_sector (record r { committed = 0 })) disk₁) [
                | none ↦ disk₁
                | some disk₂ ↦ disk₂
              ],
        )
      ])
      else (applied, disk)

  unfoldable pub replay_slot : Journal → Bytes → ℕ → ℕ × Disk → ℕ × Disk
  replay_slot j rest i (applied, disk) = elim (block_read_sector devices (add32 j.base i) disk) [
    | none ↦ (applied, disk)
    | some sector ↦ apply_record j i (record_of sector rest) (applied, disk)
  ]

  -- `for (i = 0; i < slot_count; i++)`, by the rounds left.
  unfoldable pub replay_from : Journal → Bytes → ℕ → ℕ → ℕ × Disk → ℕ × Disk
  replay_from j rest zero i s = s
  replay_from j rest (suc n) i s = replay_from j rest n (i + 1) (replay_slot j rest i s)

  unfoldable pub journal_replay : Journal → Bytes → Disk → Option (ℕ × Disk)
  journal_replay j rest disk =
      if j.ready then some (replay_from j rest j.slot_count 0 (0, disk)) else none

  abbrev pub slot_lba : Journal → ℕ → ℕ
  slot_lba j sequence = add32 j.base (sequence % j.slot_count)

  -- The record that `journal_write` fills in; `reserved` is what its memory held.
  abbrev pub new_record : Journal → ℕ → Bytes → ℕ × ℕ × ℕ → JournalRecord
  new_record j target sector reserved =
      let r : JournalRecord = record {
        magic = journal_magic;
        sequence = j.sequence;
        target_lba = target;
        checksum = 0;
        committed = journal_committed;
        reserved = reserved;
        data_bytes = sector;
      } in
      record r { checksum = checksum_of r }

  -- The first of the three writes of `journal_write`, and the two that follow it.
  unfoldable pub log_record : Journal → JournalRecord → Disk → Option Disk
  log_record j r disk = block_write_sector devices (slot_lba j r.sequence) (record_sector r) disk

  unfoldable pub finish_write : Journal → JournalRecord → Bytes → Disk → Bool × Disk
  finish_write j r sector disk = elim (block_write_sector devices r.target_lba sector disk) [
    | none ↦ (false, disk)
    | some disk₁ ↦ elim (log_record j (record r { committed = 0 }) disk₁) [
      | none ↦ (false, disk₁)
      | some disk₂ ↦ (true, disk₂)
    ]
  ]

  abbrev pub can_write : Option (BlockDevice Disk) → Bool
  can_write none = false
  can_write (some d) = is_given d.write_sector

  -- The flag is whether the code returns 0.
  unfoldable pub journal_write :
      Journal → ℕ → Option Bytes → ℕ × ℕ × ℕ → Disk → Bool × Journal × Disk
  journal_write j target none reserved disk = (false, j, disk)
  journal_write j target (some sector) reserved disk =
      if j.ready && can_write (block_default devices)
      then (let r = new_record j target sector reserved in
          let j₁ = record j { sequence = add32 j.sequence 1 } in
          elim (log_record j r disk) [
            | none ↦ (false, j₁, disk)
            | some disk₁ ↦ let (done, disk₂) = finish_write j r sector disk₁ in (done, j₁, disk₂)
          ])
      else (false, j, disk)

  -- `for (i = 0; i < slot_count; i++)` of `journal_clear`, by the rounds left.
  pub clear_from : Journal → ℕ → ℕ → Disk → Bool × Disk
  clear_from j zero i disk = (true, disk)
  clear_from j (suc n) i disk =
      elim (block_write_sector devices (add32 j.base i) (replicate 512 0) disk) [
        | none ↦ (false, disk)
        | some disk₁ ↦ clear_from j n (i + 1) disk₁
      ]

  pub journal_clear : Journal → Disk → Bool × Disk
  journal_clear j disk = if j.ready then clear_from j j.slot_count 0 disk else (false, disk)
