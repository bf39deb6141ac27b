-- ===== src/Fs/Journal/Crash.antt =====
-- fs/journal.c: a write of a sector that is cut off by a loss of power, and the replay after it.
use ceblar.Prelude.{
  ℕ, zero, suc, ◌%◌, ◌≡◌, ◌≢◌, ap, sym, ◌∙◌, true, Option, none, some, List, length, drop, arith,
}
use ceblar.Fs.Block.{
  Bytes, BlockDevice, block_default, block_read_sector, block_write_sector, IsStore,
}
use ceblar.Fs.Journal.{
  JournalRecord, Journal, record_sector, replay_slot, slot_lba, log_record, finish_write, can_write,
  journal_write,
}
use ceblar.Fs.Journal.Recovery.{
  entry, logged, completed, slot_read, entry_replayed, journal_write-completed,
}

-- The devices of a system that loses its power after a number of further writes: each write counts, and
-- the one after the last does not happen.
pub record IsCut {Disk : Type 0} (devices : List (BlockDevice Disk)) (store : IsStore devices)
    (dying : List (BlockDevice (ℕ × Disk))) : Type 0 where
  pub works :
      (lba : ℕ) (b : Bytes) (left : ℕ) (disk : Disk)
      → block_write_sector dying lba b (suc left, disk) ≡ some (left, store.written lba b disk)
  pub stops : (lba : ℕ) (b : Bytes) (disk : Disk) → block_write_sector dying lba b (0, disk) ≡ none
  pub writable : can_write dying (block_default dying) ≡ true

module _ {Disk : Type 0} (devices : List (BlockDevice Disk)) (store : IsStore devices)
    (dying : List (BlockDevice (ℕ × Disk))) (cut : IsCut devices store dying) (j : Journal)
    (target : ℕ) (sector : Bytes) (reserved : ℕ × ℕ × ℕ) (disk : Disk) (full : length sector ≡ 512)
    (ready : j.ready ≡ true) where
  open cut use {works, stops, writable}

  abbrev slot : ℕ
  slot = slot_lba devices j j.sequence

  abbrev log : JournalRecord
  log = entry devices store j target sector reserved disk full

  abbrev after_log : Disk
  after_log = logged devices store j target sector reserved disk full

  abbrev after_target : Disk
  after_target = store.written target sector after_log

  abbrev after_all : Disk
  after_all = completed devices store j target sector reserved disk full

  -- The disk that `journal_write` leaves when the power is lost after so many writes.
  abbrev pub left_after : ℕ → Disk
  left_after writes = (journal_write dying j target (some sector) reserved (writes, disk)).2.1

  left_after-none : left_after 0 ≡ disk
  unfolding journal_write finish_write log_record
  left_after-none = ground (arith, ready, writable, stops slot (record_sector log) disk)

  left_after-one : left_after 1 ≡ after_log
  unfolding journal_write finish_write log_record
  left_after-one =
      ground (
        arith,
        ready,
        writable,
        works slot (record_sector log) 0 disk,
        stops target sector after_log,
      )

  left_after-two : left_after 2 ≡ after_target
  unfolding journal_write finish_write log_record
  left_after-two = ground (
    arith,
    ready,
    writable,
    works slot (record_sector log) 1 disk,
    works target sector 0 after_log,
    stops slot (record_sector (record log { committed = 0 })) after_target,
  )

  left_after-all : (k : ℕ) → left_after (suc (suc (suc k))) ≡ after_all
  unfolding journal_write finish_write log_record
  left_after-all k = ground (
    arith,
    ready,
    writable,
    works slot (record_sector log) (suc (suc k)) disk,
    works target sector (suc k) after_log,
    works slot (record_sector (record log { committed = 0 })) k after_target,
  )

  -- The target, after a replay of the slot on this disk.
  abbrev target_after : Disk → ℕ → Option Bytes
  target_after d n =
      block_read_sector devices target
        (replay_slot devices j (drop 492 sector) (j.sequence % j.slot_count) (n, d)).1

  recovered-log :
      (n : ℕ) → target ≢ slot_lba devices j j.sequence → target_after after_log n ≡ some sector
  recovered-log n apart =
      entry_replayed devices store j target sector reserved disk full n after_log
        (slot_read devices store j target sector reserved disk full) apart

  recovered-target :
      (n : ℕ) → target ≢ slot_lba devices j j.sequence → target_after after_target n ≡ some sector
  recovered-target n apart =
      entry_replayed devices store j target sector reserved disk full n after_target
        (store.read_other target slot sector after_log (λ e. apart (sym e))
          ∙ slot_read devices store j target sector reserved disk full)
        apart

  recovered-all :
      (n : ℕ)
      → can_write devices (block_default devices) ≡ true
      → target ≢ slot_lba devices j j.sequence
      → target_after after_all n ≡ some sector
  recovered-all n writes apart =
      let (done, found, passed) =
        journal_write-completed devices store j target sector reserved disk full ready writes
          apart in
      ap (λ (r : ℕ × Disk). block_read_sector devices target r.1) (passed (drop 492 sector) n)
      ∙ found

  replayed :
      (k n : ℕ)
      → can_write devices (block_default devices) ≡ true
      → target ≢ slot_lba devices j j.sequence
      → target_after (left_after (suc k)) n ≡ some sector
  replayed zero n writes apart = ap (λ d. target_after d n) left_after-one ∙ recovered-log n apart
  replayed (suc zero) n writes apart =
      ap (λ d. target_after d n) left_after-two ∙ recovered-target n apart
  replayed (suc (suc k)) n writes apart =
      ap (λ d. target_after d n) (left_after-all k) ∙ recovered-all n writes apart

  -- On a disk that can write and stores what is written, with a ready journal, a target other than the
  -- log's slot, a sector of 512 bytes, and a device that loses its power after some writes (`IsCut`): without a write the disk is as it was;
  -- and wherever `journal_write` is cut off after its first write, or if it is not, replaying the slot,
  -- with the last 20 bytes of the memory of the record still those of the sector, leaves the whole
  -- sector in the target.
  pub crash_recovered :
      (k n : ℕ)
      → can_write devices (block_default devices) ≡ true
      → target ≢ slot_lba devices j j.sequence
      → (left_after 0 ≡ disk)
        × (block_read_sector devices target
              (replay_slot devices j
                (drop 492 sector)
                (j.sequence % j.slot_count)
                (n, left_after (suc k))).1
            ≡ some sector)
  crash_recovered k n writes apart = (left_after-none, replayed k n writes apart)
