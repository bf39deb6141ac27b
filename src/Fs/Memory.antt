-- ===== src/Fs/Memory.antt =====
-- A disk in memory behind one block device, for tests of what lies on fs/block.c.
use ceblar.Prelude.{ℕ, ◌≡◌, ◌≢◌, refl, ap, true, some, List, [], ◌∷◌, update, update_self, arith}
use ceblar.Fs.Block.{Bytes, BlockDevice, block_read_sector, block_write_sector, IsStore}

abbrev pub Disk : Type 0
Disk = ℕ → Bytes

abbrev pub memory : List (BlockDevice Disk)
memory =
    (record {
      sector_size = 512;
      present = true;
      read_sector = some (λ lba disk. some (disk lba));
      write_sector = some (λ lba b disk. some (update disk lba b));
    })
    ∷ []

pub memory_other : (disk : Disk) (lba m : ℕ) (b : Bytes) → m ≢ lba → update disk lba b m ≡ disk m
memory_other disk lba m b ne = ground (arith, ne)

unfoldable pub memory-IsStore : IsStore memory
unfolding block_read_sector block_write_sector
memory-IsStore = record {
  written = λ lba b disk. update disk lba b;
  write_works = λ lba b disk. refl;
  read_same = λ lba b disk len. ap some (update_self disk lba b);
  read_other = λ lba m b disk ne. ap some (memory_other disk lba m b ne);
}
