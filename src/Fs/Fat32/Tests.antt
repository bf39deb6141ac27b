-- ===== src/Fs/Fat32/Tests.antt =====
-- The theorems about fs/fat32/fat32.c on a small volume in memory.
use ceblar.Prelude.{
  ℕ, ◌≡◌, ◌<◌, ◌≤◌, ◌+◌, refl, ap, sym, ◌∙◌, true, false, Option, none, some, [], ◌∷◌, ◌++◌, length,
  replicate, arith, if◌then◌else◌, ◌==◌, Bool,
}
use ceblar.Fs.Block.{Bytes, block_read_sector}
use ceblar.Fs.Memory.{Disk, memory}
use ceblar.Fs.Fat32.{
  Fat32, Fat32File, opened, listed, named, numbered, make_83, skip_slashes, short_name, scan_root,
  scan_clusters, scan_sectors, scan_entries, scan_entry, same_bytes, base_from, extension_from,
  until_space, next_cluster, fat32_open, fat32_readdir,
}
use ceblar.Fs.Fat32.Names.{IsPlain, short_name-make_83}
use ceblar.Fs.Fat32.Cycle.{scan_root_cycle}
use ceblar.Fs.Fat32.Scan.{Delivers, OnDisk, open-Delivers, readdir-Delivers}
use ceblar.Fs.Fat32.Volume.{fat32_read_file}
use ceblar.Fs.Fat32.Volume.Reading.{Readable, count, read_file-Ends}

-- The FAT in sector 1, clusters of one sector from sector 2 on.
abbrev volume : Fat32
volume = record {
  partition_lba = 0;
  fat_lba = 1;
  data_lba = 2;
  sectors_per_cluster = 1;
  bytes_per_sector = 512;
  fat_size = 1;
  root_cluster = 2;
  mounted = true;
}

-- A FAT in which cluster 2 is its own successor.
abbrev own_successor : Bytes
own_successor = replicate 8 0 ++ 2 ∷ replicate 503 0

-- "A.TXT" and its entry of 5 bytes in cluster 3, and the entry of a directory "SUB".
abbrev path : Bytes
path = 65 ∷ 46 ∷ 84 ∷ 88 ∷ 84 ∷ []

abbrev file_entry : Bytes
file_entry =
    65 ∷ replicate 7 32 ++ 84 ∷ 88 ∷ 84 ∷ 0x20 ∷ replicate 14 0 ++ 3 ∷ 0 ∷ 5 ∷ 0 ∷ 0 ∷ 0 ∷ []

abbrev sub_entry : Bytes
sub_entry = 83 ∷ 85 ∷ 66 ∷ replicate 8 32 ++ 0x10 ∷ replicate 14 0 ++ 4 ∷ replicate 5 0

abbrev root : Bytes
root = file_entry ++ sub_entry ++ replicate 448 0

abbrev disk : Disk
disk lba = if lba == 2 then root else replicate 512 9

-- Every entry of this root directory is deleted.
abbrev deleted : Disk
deleted lba = if lba == 1 then own_successor else replicate 512 0xe5

abbrev file : Fat32File
file = record { first_cluster = 3; size = 5; position = 0; directory = false }

abbrev DiskEntries : Bytes → Type 0
DiskEntries = OnDisk memory disk

open-Delivers_example : Delivers DiskEntries (named (make_83 (skip_slashes path))) (opened file)
unfolding fat32_open skip_slashes scan_root scan_clusters scan_sectors block_read_sector
    scan_entries scan_entry same_bytes make_83 base_from extension_from
open-Delivers_example = open-Delivers memory disk volume 1 path file refl

readdir-Delivers_example : Delivers DiskEntries (numbered 1 13) (listed (83 ∷ 85 ∷ 66 ∷ []) 0)
unfolding fat32_readdir scan_root scan_clusters scan_sectors block_read_sector scan_entries
    scan_entry short_name until_space
readdir-Delivers_example = readdir-Delivers memory disk volume 1 1 13 0 (83 ∷ 85 ∷ 66 ∷ []) refl

scan_root_cycle_example : scan_root memory deleted 100 volume (numbered 0 13) ≡ none
unfolding next_cluster scan_sectors block_read_sector scan_entries scan_entry
scan_root_cycle_example =
    scan_root_cycle memory deleted volume (numbered 0 13) refl refl (λ index. (index, refl)) 100

abbrev IsLarge : ℕ → Type 0
IsLarge c = (47 < c) × (c < 97)

large-IsPlain : (c : ℕ) → IsLarge c → IsPlain c
large-IsPlain c (low, high) = record {
  no_space = omega arith;
  no_dot = omega arith;
  no_slash = omega arith;
  no_small = ground arith;
}

short_name-make_83_example : short_name (make_83 path ++ []) 13 ≡ path
short_name-make_83_example =
    short_name-make_83 (65 ∷ []) (88 ∷ 84 ∷ []) 84 [] (omega arith) (omega arith)
      (large-IsPlain 65 (omega arith, omega arith), tt)
      (
        large-IsPlain 84 (omega arith, omega arith),
        (
          large-IsPlain 88 (omega arith, omega arith),
          (large-IsPlain 84 (omega arith, omega arith), tt),
        ),
      )
      13 (omega arith)

content : {a b : Bytes} → some a ≡ some b → a ≡ b
content e = grind (arith, e)

sector_full : (b : Bool) → length (if b then root else replicate 512 9) ≡ 512
sector_full true = refl
sector_full false = refl

volume-Readable : Readable memory disk volume
unfolding block_read_sector
volume-Readable = record {
  sector_bytes = refl;
  some_sectors = omega arith;
  full = λ lba b e. ap (λ (x : Bytes). length x) (sym (content e)) ∙ sector_full (lba == 2);
}

read_file-Ends_example :
    (result : Option Bytes) × (f' : Fat32File) × (fat32_read_file memory disk volume file 3
      ≡ some (result, f'))
    × (count result ≤ 3)
    × (f'.position ≡ file.position + count result)
read_file-Ends_example = read_file-Ends memory disk volume file 3 volume-Readable (omega arith)
