-- ===== src/Fs/Fat32/Volume.antt =====
-- fs/fat32/fat32.c: mounting a volume, and reading a file along its chain of clusters.
pub mod Reading
use ceblar.Prelude.{
  ℕ, zero, suc, ◌+◌, ◌-◌, ◌*◌, ◌/◌, ◌%◌, ◌^◌, bit_and, bit_or, Bool, true, false, ◌&&◌, ◌||◌, not,
  ◌==◌, ltb, leb, if◌then◌else◌, Option, none, some, List, [], ◌∷◌, ◌++◌, length, get_or, take,
  drop, replicate, add32, sub32, mul32, min,
}
use ceblar.Fs.Block.{
  Bytes, BlockDevice, is_given, block_default, block_read_sector, block_write_sector,
}
use ceblar.Fs.Journal.{Journal, journal_write}
use ceblar.Fs.Fat32.{Fat32, Fat32File, le16, le32, cluster_lba, valid_cluster, next_cluster}

-- The first of the four partitions, from number `p` on, that has a FAT32 type: its first sector, or 0.
unfoldable pub partition_from : ℕ → ℕ → Bytes → ℕ
partition_from zero p sector = 0
partition_from (suc n) p sector =
    let rest = partition_from n (p + 1) sector in
    let e = 446 + p * 16 in
    let kind = get_or sector (e + 4) 0 in
    if kind == 0x0b || kind == 0x0c then le32 sector (e + 8) else rest

abbrev pub partition_of : Bytes → ℕ
partition_of sector =
    if get_or sector 510 0 == 0x55 && get_or sector 511 0 == 0xaa && not (get_or sector 450 0 == 0)
    then partition_from 4 0 sector
    else 0

-- The fields that the boot sector of the volume sets, before they are checked.
abbrev pub boot_fields : Bytes → Fat32 → Fat32
boot_fields sector v = record v {
  bytes_per_sector = le16 sector 11;
  sectors_per_cluster = get_or sector 13 0;
  fat_size = le32 sector 36;
  root_cluster = le32 sector 44;
}

abbrev pub is_volume : Bytes → Fat32 → Bool
is_volume sector v =
    v.bytes_per_sector == 512
    && not (v.sectors_per_cluster == 0)
    && not (get_or sector 16 0 == 0)
    && not (v.fat_size == 0)
    && valid_cluster v.root_cluster

abbrev pub mount_volume : Bytes → Fat32 → Bool × Fat32
mount_volume sector v =
    let fat = add32 v.partition_lba (le16 sector 14) in
    if is_volume sector v
    then (
      true,
      record v {
        fat_lba = fat;
        data_lba = add32 fat (mul32 (get_or sector 16 0) v.fat_size);
        mounted = true;
      },
    )
    else (false, v)

-- A read under way: the bytes in the buffer, the file's position, and whether a sector could not be read.
pub record Progress : Type 0 where
  pub out : Bytes
  pub at : ℕ
  pub failed : Bool

-- `take` of the code: what is left of the sector, or of the request of `n` bytes.
abbrev pub chunk_size : Fat32 → ℕ → Progress → ℕ
chunk_size v n r = min (v.bytes_per_sector - r.at % v.bytes_per_sector) (n - length r.out)

abbrev pub read_chunk : Fat32 → ℕ → Bytes → Progress → Progress
read_chunk v n sector r = record r {
  out = r.out ++ take (chunk_size v n r) (drop (r.at % v.bytes_per_sector) sector);
  at = add32 r.at (chunk_size v n r);
}

-- The number of the sector in its cluster.
abbrev pub sector_in_cluster : Fat32 → Progress → ℕ
sector_in_cluster v r = r.at / v.bytes_per_sector % v.sectors_per_cluster

-- The result and the file: `none` is -1, and the count is the length of the bytes.
abbrev pub read_result : Fat32File → Progress → Option Bytes × Fat32File
read_result f r =
    (if r.failed && length r.out == 0 then none else some r.out, record f { position = r.at })

abbrev pub finish_read : Fat32File → Option Progress → Option (Option Bytes × Fat32File)
finish_read f none = none
finish_read f (some r) = some (read_result f r)

module _ {Disk : Type 0} (devices : List (BlockDevice Disk)) (disk : Disk) where
  abbrev read_lba : ℕ → Option Bytes
  read_lba lba = block_read_sector devices lba disk

  -- The flag is whether the code returns 0.
  unfoldable pub fat32_mount : Fat32 → Bool × Fat32
  fat32_mount v =
      if not (is_given (block_default devices)) then (false, v) else (elim (read_lba 0) [
        | none ↦ (false, v)
        | some first ↦
            let v₁ = record v { partition_lba = partition_of first } in
            elim (read_lba v₁.partition_lba) [
              | none ↦ (false, v₁)
              | some boot ↦ mount_volume boot (boot_fields boot v₁)
            ]
      ])

  -- `while (skip-- && valid_cluster(cluster))`
  unfoldable pub skip_clusters : Fat32 → ℕ → ℕ → ℕ
  skip_clusters v zero cluster = cluster
  skip_clusters v (suc skip) cluster = elim (valid_cluster cluster) [
    | true ↦ skip_clusters v skip (next_cluster devices disk v cluster)
    | false ↦ cluster
  ]

  -- `for (; s < sectors_per_cluster && done < length; s++)`, by the rounds left.
  unfoldable pub read_sectors : Fat32 → ℕ → ℕ → ℕ → Progress → Progress
  read_sectors v n zero lba r = r
  read_sectors v n (suc rounds) lba r = elim (ltb (length r.out) n) [
    | false ↦ r
    | true ↦ elim (read_lba lba) [
      | none ↦ record r { failed = true }
      | some sector ↦ read_sectors v n rounds (add32 lba 1) (read_chunk v n sector r)
    ]
  ]

  -- `while (done < length && valid_cluster(cluster))` on fuel.
  unfoldable pub read_clusters : ℕ → Fat32 → ℕ → ℕ → Progress → Option Progress
  read_clusters zero v n cluster r = none
  read_clusters (suc fuel) v n cluster r = elim (ltb (length r.out) n && valid_cluster cluster) [
    | false ↦ some r
    | true ↦
        let s = sector_in_cluster v r in
        let r₁ = read_sectors v n (v.sectors_per_cluster - s) (add32 (cluster_lba v cluster) s) r in
        elim r₁.failed [
          | true ↦ some r₁
          | false ↦ read_clusters fuel v n (next_cluster devices disk v cluster) r₁
        ]
  ]

  -- A call with a file and a buffer. Each round of the loop over clusters reads a byte or more.
  unfoldable pub fat32_read_file : Fat32 → Fat32File → ℕ → Option (Option Bytes × Fat32File)
  fat32_read_file v f n =
      if not v.mounted || f.directory || leb f.size f.position
      then some (some [], f)
      else (let m = min n (f.size - f.position) in
          let skip = f.position / mul32 v.sectors_per_cluster v.bytes_per_sector in
          finish_read f (
            read_clusters (m + 1) v m (skip_clusters v skip f.first_cluster)
              (record { out = []; at = f.position; failed = false })))

-- A call with a buffer. `reserved` is what the memory of the journal's record holds.
unfoldable pub fat32_write_sector :
    {Disk : Type 0}
    → List (BlockDevice Disk)
    → Fat32
    → Journal
    → ℕ
    → Bytes
    → ℕ × ℕ × ℕ
    → Disk
    → Bool × Journal × Disk
fat32_write_sector devices v j lba buffer reserved disk =
    if not v.mounted
    then (false, j, disk)
    else if j.ready
    then journal_write devices j lba (some buffer) reserved disk
    else (elim (block_write_sector devices lba buffer disk) [
      | none ↦ (false, j, disk)
      | some disk₁ ↦ (true, j, disk₁)
    ])
