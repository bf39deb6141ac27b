-- ===== src/Fs/Journal/Tests.antt =====
-- The theorems about fs/journal.c on a disk in memory.
use ceblar.Prelude.{
  ℕ, zero, suc, ◌≡◌, ◌≢◌, refl, true, Option, none, some, List, [], ◌∷◌, update, ◌++◌, length, drop,
  replicate, arith,
}
use ceblar.Fs.Block.{Bytes, BlockDevice, block_default, block_read_sector, block_write_sector}
use ceblar.Fs.Memory.{Disk, memory, memory-IsStore}
use ceblar.Fs.Journal.{
  JournalRecord, Journal, journal_init, journal_write, replay_slot, record_of, record_sector,
  record_bytes, is_live, can_write, checksum_of, mix_all,
}
use ceblar.Fs.Journal.Crash.{IsCut, left_after, crash_recovered}
use ceblar.Fs.Journal.Recovery.{
  replayed_tail, logged, completed, entry, read_back, journal_write-completed,
}

abbrev empty_disk : Disk
empty_disk lba = replicate 512 0

-- The journal that `journal_init` makes at sector 10, with four slots.
abbrev log : Journal
log = record { base = 10; slot_count = 4; sequence = 1; ready = true }

log_made : journal_init memory 10 4 ≡ log
unfolding journal_init block_default
log_made = refl

abbrev sevens : Bytes
sevens = replicate 512 7

abbrev no_bytes : ℕ × ℕ × ℕ
no_bytes = (0, 0, 0)

abbrev written_entry : JournalRecord
written_entry = entry memory memory-IsStore log 100 sevens no_bytes empty_disk refl

abbrev after_crash : Disk
after_crash = logged memory memory-IsStore log 100 sevens no_bytes empty_disk refl

abbrev after_write : Disk
after_write = completed memory memory-IsStore log 100 sevens no_bytes empty_disk refl

writable : can_write memory (block_default memory) ≡ true
unfolding block_default
writable = refl

live_again : is_live memory (record_of (record_sector written_entry) (replicate 20 7)) ≡ true
unfolding record_of record_sector record_bytes checksum_of mix_all
live_again = refl

logged_size : length (record_sector written_entry) ≡ 512
unfolding record_sector record_bytes
logged_size = refl

logged_target : (record_of (record_sector written_entry) (replicate 20 7)).target_lba ≢ 11
unfolding record_of record_sector record_bytes
logged_target = omega arith

logged_at : block_read_sector memory 11 after_crash ≡ some (record_sector written_entry)
unfolding block_read_sector record_sector memory-IsStore
logged_at = refl

other_checksum :
    checksum_of
      (read_back memory memory-IsStore log 100 sevens no_bytes empty_disk refl (replicate 20 0))
    ≢ written_entry.checksum
unfolding checksum_of mix_all
other_checksum = omega arith

-- The disk in memory, which stops after a number of writes.
abbrev dying_write : ℕ → Bytes → ℕ × Disk → Option (ℕ × Disk)
dying_write lba b (zero, disk) = none
dying_write lba b (suc left, disk) = some (left, update disk lba b)

abbrev dying : List (BlockDevice (ℕ × Disk))
dying =
    (record {
      sector_size = 512;
      present = true;
      read_sector = some (λ lba s. some (s.1 lba));
      write_sector = some dying_write;
    })
    ∷ []

dying-IsCut : IsCut memory memory-IsStore dying
unfolding block_write_sector block_default memory-IsStore
dying-IsCut = record {
  works = λ lba b left disk. refl;
  stops = λ lba b disk. refl;
  writable = refl;
}

-- The power is lost after the second of the three writes.
crash_recovered_example :
    (left_after memory memory-IsStore dying dying-IsCut log 100 sevens no_bytes empty_disk refl refl
        0
      ≡ empty_disk)
    × (block_read_sector memory 100
          (replay_slot memory log (replicate 20 7) 1 (
            0,
            left_after memory memory-IsStore dying dying-IsCut log 100 sevens no_bytes empty_disk
                refl refl 2,
          )).1
        ≡ some sevens)
crash_recovered_example =
    crash_recovered memory memory-IsStore dying dying-IsCut log 100 sevens no_bytes empty_disk refl
      refl 1 0 writable (omega arith)

journal_write-completed_example :
    (journal_write memory log 100 (some sevens) no_bytes empty_disk
      ≡ (true, record log { sequence = 2 }, after_write))
    × (block_read_sector memory 100 after_write ≡ some sevens)
    × ((rest : Bytes) (n : ℕ) → replay_slot memory log rest 1 (n, after_write) ≡ (n, after_write))
journal_write-completed_example =
    journal_write-completed memory memory-IsStore log 100 sevens no_bytes empty_disk refl refl
      writable (omega arith)

replayed_tail_example :
    block_read_sector memory
      (record_of (record_sector written_entry) (replicate 20 7)).target_lba
      (replay_slot memory log (replicate 20 7) 1 (0, after_crash)).1
    ≡ some (drop 20 (record_sector written_entry) ++ replicate 20 7)
replayed_tail_example =
    replayed_tail memory memory-IsStore log (replicate 20 7) (record_sector written_entry) 1 0
      after_crash logged_size refl logged_at live_again logged_target
