-- ===== src/Fs/Journal/Recovery.antt =====
-- What a replay of the log of fs/journal.c brings back from the entry of a write.
use ceblar.Prelude.{
  ℕ, zero, suc, ◌+◌, ◌*◌, ◌/◌, ◌%◌, ◌^◌, ◌≤◌, ◌≡◌, ◌≢◌, refl, ap, sym, ◌∙◌, true, false, some, List,
  [], ◌∷◌, ◌++◌, length, take, drop, add32, arith, take-append-drop, length-take, length-drop,
  length-append, ne→==,
}
use ceblar.Fs.Block.{Bytes, BlockDevice, block_default, block_read_sector, IsStore}
use ceblar.Fs.Journal.{
  JournalRecord, Journal, checksum_of, record_bytes, record_sector, record_of, is_live, replay_slot,
  apply_record, slot_lba, new_record, log_record, finish_write, can_write, journal_write,
}

word_join :
    (x : ℕ) → x % 256 + x / 256 % 256 * 256 + x / 2 ^ 16 % 256 * 2 ^ 16 + x / 2 ^ 24 * 2 ^ 24 ≡ x
word_join x = omega arith

-- A record read back from its sector has all its fields, but for the last 20 bytes of its data, which
-- are those that the memory held.
pub record_of-record_sector :
    (r : JournalRecord) (rest : Bytes)
    → record_of (record_sector r) rest ≡ record r { data_bytes = take 492 r.data_bytes ++ rest }
unfolding record_of record_sector record_bytes
record_of-record_sector r rest = λ i. record {
  magic = word_join r.magic i;
  sequence = word_join r.sequence i;
  target_lba = word_join r.target_lba i;
  checksum = word_join r.checksum i;
  committed = r.committed;
  reserved = r.reserved;
  data_bytes = take 492 r.data_bytes ++ rest;
}

length-record_sector :
    (r : JournalRecord) → length r.data_bytes ≡ 512 → length (record_sector r) ≡ 512
unfolding record_sector record_bytes
length-record_sector r e = omega (arith, length-take 492 r.data_bytes)

drop-record_sector : (r : JournalRecord) → drop 20 (record_sector r) ≡ take 492 r.data_bytes
unfolding record_sector record_bytes
drop-record_sector r = refl

take_all {ℓ} : {A : Type ℓ} (xs : List A) (n : ℕ) → length xs ≤ n → take n xs ≡ xs
take_all [] zero le = refl
take_all [] (suc n) le = refl
take_all (x ∷ xs) zero le = absurd (omega arith)
take_all (x ∷ xs) (suc n) le = ap (◌∷◌ x) (take_all xs n (omega arith))

module _ {Disk : Type 0} (devices : List (BlockDevice Disk)) (store : IsStore devices) where
  open store use {written, write_works, read_same, read_other}

  -- On a disk that stores what is written: a slot whose record is live is replayed to its target, and
  -- then marked as not committed.
  replay_live :
      (j : Journal) (rest sector : Bytes) (i n : ℕ) (disk : Disk)
      → block_read_sector devices (add32 j.base i) disk ≡ some sector
      → is_live devices (record_of sector rest) ≡ true
      → let r = record_of sector rest in
        replay_slot devices j rest i (n, disk) ≡ (
          n + 1,
          written
              (add32 j.base i)
              (record_sector (record r { committed = 0 }))
              (written r.target_lba (take 512 r.data_bytes) disk),
        )
  unfolding replay_slot apply_record
  replay_live j rest sector i n disk found live =
      let r : JournalRecord = record_of sector rest in
      ground (
        arith,
        found,
        live,
        write_works r.target_lba (take 512 r.data_bytes) disk,
        write_works (add32 j.base i) (record_sector (record r { committed = 0 }))
            (written r.target_lba (take 512 r.data_bytes) disk),
      )

  -- A slot whose record is not live is passed over.
  replay_dead :
      (j : Journal) (rest sector : Bytes) (i n : ℕ) (disk : Disk)
      → block_read_sector devices (add32 j.base i) disk ≡ some sector
      → is_live devices (record_of sector rest) ≡ false
      → replay_slot devices j rest i (n, disk) ≡ (n, disk)
  unfolding replay_slot apply_record
  replay_dead j rest sector i n disk found dead = ground (arith, found, dead)

  -- Replaying a live record to a target outside its slot gives the target the 492 bytes of data that
  -- the slot holds, followed by the bytes `rest` that the memory of the record happened to hold.
  pub replayed_tail :
      (j : Journal) (rest sector : Bytes) (i n : ℕ) (disk : Disk)
      → length sector ≡ 512
      → length rest ≡ 20
      → block_read_sector devices (add32 j.base i) disk ≡ some sector
      → is_live devices (record_of sector rest) ≡ true
      → (record_of sector rest).target_lba ≢ add32 j.base i
      → block_read_sector devices
          (record_of sector rest).target_lba
          (replay_slot devices j rest i (n, disk)).1
        ≡ some (drop 20 sector ++ rest)
  unfolding record_of
  replayed_tail j rest sector i n disk len len_rest found live apart =
      let r : JournalRecord = record_of sector rest in
      let bytes : Bytes = drop 20 sector ++ rest in
      let size : length bytes ≡ 512 =
        omega (arith, length-append (drop 20 sector) rest, length-drop 20 sector) in
      rw
        (
          replay_live j rest sector i n disk found live,
          read_other (add32 j.base i) r.target_lba (record_sector (record r { committed = 0 }))
              (written r.target_lba (take 512 bytes) disk) apart,
          take_all bytes 512 (omega arith),
        )
        (read_same r.target_lba bytes disk size)

-- The log entry of a write, on a disk that stores what is written.
module _ {Disk : Type 0} (devices : List (BlockDevice Disk)) (store : IsStore devices) (j : Journal)
    (target : ℕ) (sector : Bytes) (reserved : ℕ × ℕ × ℕ) (disk : Disk)
    (full : length sector ≡ 512) where
  open store use {written, write_works, read_same, read_other}

  abbrev pub entry : JournalRecord
  entry = new_record devices j target sector reserved

  -- The disk after the first of the three writes.
  abbrev pub logged : Disk
  logged = written (slot_lba devices j j.sequence) (record_sector entry) disk

  log_record-logged : log_record devices j entry disk ≡ some logged
  unfolding log_record
  log_record-logged = write_works _ _ _

  pub slot_read :
      block_read_sector devices (slot_lba devices j j.sequence) logged ≡ some (record_sector entry)
  slot_read = read_same _ _ _ (length-record_sector entry full)

  abbrev pub read_back : (rest : Bytes) → JournalRecord
  read_back rest = record entry { data_bytes = take 492 sector ++ rest }

  record_of-entry : (rest : Bytes) → record_of (record_sector entry) rest ≡ read_back rest
  record_of-entry rest = record_of-record_sector entry rest

  read_back-entry : read_back (drop 492 sector) ≡ entry
  read_back-entry =
      ap (λ (d : Bytes). record entry { data_bytes = d }) (take-append-drop 492 sector)

  entry_live : is_live devices entry ≡ true
  unfolding checksum_of
  entry_live = ground arith

  -- On a disk whose slot holds the log entry, and with the last 20 bytes of the memory of the record
  -- still those of the sector, replaying the slot writes the whole sector to its target.
  pub entry_replayed :
      (n : ℕ) (d : Disk)
      → block_read_sector devices (slot_lba devices j j.sequence) d ≡ some (record_sector entry)
      → target ≢ slot_lba devices j j.sequence
      → block_read_sector devices target
          (replay_slot devices j (drop 492 sector) (j.sequence % j.slot_count) (n, d)).1
        ≡ some sector
  entry_replayed n d found apart =
      let rest : Bytes = drop 492 sector in
      let whole : record_of (record_sector entry) rest ≡ entry =
        record_of-entry rest ∙ read_back-entry in
      let same : (record_of (record_sector entry) rest).target_lba ≡ target =
        ap (λ (r : JournalRecord). r.target_lba) whole in
      let after =
        replayed_tail devices store j rest (record_sector entry) (j.sequence % j.slot_count) n d
          (length-record_sector entry full) (omega (arith, length-drop 492 sector)) found
          (rw whole entry_live) (rw same apart) in
      (rw same at after)
      ∙ ap some
          (ap (λ (d : Bytes). d ++ rest) (drop-record_sector entry) ∙ take-append-drop 492 sector)

  -- Where with the last 20 bytes of the memory of the record the checksum is another one, replaying
  -- the slot on the disk after the first write does nothing: the write is lost.
  pub entry_lost :
      (n : ℕ) (rest : Bytes)
      → checksum_of (read_back rest) ≢ entry.checksum
      → replay_slot devices j rest (j.sequence % j.slot_count) (n, logged) ≡ (n, logged)
  entry_lost n rest differs =
      let dead : is_live devices (record_of (record_sector entry) rest) ≡ false =
        rw (record_of-entry rest) (ne→== _ _ (λ e. differs (sym e))) in
      replay_dead devices store j rest (record_sector entry) (j.sequence % j.slot_count) n logged
        slot_read dead

  -- The disk after the three writes.
  abbrev pub completed : Disk
  completed =
      written (slot_lba devices j j.sequence) (record_sector (record entry { committed = 0 }))
        (written target sector logged)

  -- With a ready journal and a device that can write, `journal_write` returns 0; afterwards the
  -- target, if it is not the slot itself, holds the sector, and replaying the slot does nothing,
  -- whatever the memory of the record holds.
  pub journal_write-completed :
      j.ready ≡ true
      → can_write devices (block_default devices) ≡ true
      → target ≢ slot_lba devices j j.sequence
      → (journal_write devices j target (some sector) reserved disk
          ≡ (true, record j { sequence = add32 j.sequence 1 }, completed))
        × (block_read_sector devices target completed ≡ some sector)
        × ((rest : Bytes) (n : ℕ)
            → replay_slot devices j rest (j.sequence % j.slot_count) (n, completed)
              ≡ (n, completed))
  unfolding journal_write finish_write log_record
  journal_write-completed ready writes apart =
      let slot : ℕ = slot_lba devices j j.sequence in
      let cleared : JournalRecord = record entry { committed = 0 } in
      (
        ground (
          arith,
          ready,
          writes,
          write_works slot (record_sector entry) disk,
          write_works target sector logged,
          write_works slot (record_sector cleared) (written target sector logged),
        ),
        read_other slot target (record_sector cleared) (written target sector logged) apart
            ∙ read_same target sector logged full,
        λ rest n.
            replay_dead devices store j rest (record_sector cleared) (j.sequence % j.slot_count) n
              completed
              (read_same slot (record_sector cleared) (written target sector logged)
                (length-record_sector cleared full))
              (rw (record_of-record_sector cleared rest) (ground arith)),
      )
