-- ===== src/Fs/Vfs/Tests.antt =====
-- The theorems about fs/vfs.c on a disk in memory.
use ceblar.Prelude.{
  ℕ, ◌≡◌, refl, true, false, none, some, [], ◌∷◌, replicate, arith, length-replicate,
}
use ceblar.Fs.Block.{Bytes, block_read_sector}
use ceblar.Fs.Memory.{Disk, memory, memory-IsStore}
use ceblar.Fs.Fat32.{Fat32}
use ceblar.Fs.Vfs.{Vfs, VfsFile, file_at, set_file, vfs_init, vfs_read, vfs_write, slot_for_pid}
use ceblar.Fs.Vfs.Raw.{Holds, range, byte_in, vfs_read-range}
use ceblar.Fs.Vfs.Raw.Write.{overlay, vfs_write-overlay}

abbrev no_volume : Fat32
no_volume = record {
  partition_lba = 0;
  fat_lba = 0;
  data_lba = 0;
  sectors_per_cluster = 0;
  bytes_per_sector = 0;
  fat_size = 0;
  root_cluster = 0;
  mounted = false;
}

abbrev unused : VfsFile
unused = record {
  name = none;
  flags = 0;
  position = 0;
  kind = 0;
  fat = record { first_cluster = 0; size = 0; position = 0; directory = false };
}

-- The tables after start, the raw descriptor of process 1 being 510 bytes on.
abbrev tables : Vfs
tables =
    let s = vfs_init true (record { files = λ p fd. unused; active_pid = 1 }) in
    set_file s 3 (record (file_at s 3) { position = 510 })

abbrev sevens : Disk
sevens lba = replicate 512 7

sevens-Holds : Holds memory sevens sevens
unfolding block_read_sector
sevens-Holds = record { reads = λ lba. refl; full = λ lba. length-replicate {A = ℕ} 512 7 }

vfs_read-range_example :
    vfs_read memory no_volume sevens none 3 4 tables
    ≡ some (
      some (range (byte_in sevens) 510 4),
      set_file tables 3 (record (file_at tables 3) { position = 514 }),
    )
unfolding vfs_init slot_for_pid
vfs_read-range_example =
    vfs_read-range memory sevens sevens sevens-Holds no_volume none 4 tables (104 ∷ 100 ∷ 97 ∷ [])
      refl (omega arith)

abbrev three : Bytes
three = 1 ∷ 2 ∷ 3 ∷ []

vfs_write-overlay_example :
    (vfs_write memory sevens 3 three tables).0 ≡ some 3
    × (vfs_write memory sevens 3 three tables).1
      ≡ set_file tables 3 (record (file_at tables 3) { position = 513 })
    × (after : ℕ → Bytes) × Holds memory (vfs_write memory sevens 3 three tables).2 after
    × ((k : ℕ) → byte_in after k ≡ overlay (byte_in sevens) 510 three k)
unfolding vfs_init slot_for_pid
vfs_write-overlay_example =
    vfs_write-overlay memory memory-IsStore sevens sevens three tables (104 ∷ 100 ∷ 97 ∷ [])
      sevens-Holds refl (omega arith)
