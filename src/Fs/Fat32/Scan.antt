-- ===== src/Fs/Fat32/Scan.antt =====
-- Which entries the scan of fs/fat32/fat32.c delivers.
use ceblar.Prelude.{
  ℕ, zero, suc, ◌+◌, ◌/◌, ◌≡◌, refl, subst, Bool, true, false, ◌||◌, not, ◌==◌, leb, if◌then◌else◌,
  Option, none, some, List, [], ◌∷◌, get_or, drop, add32,
}
use ceblar.Fs.Block.{Bytes, BlockDevice, block_read_sector}
use ceblar.Fs.Fat32.{
  Fat32, Fat32File, Query, named, numbered, Outcome, opened, listed, missing, pass, after,
  is_directory, is_skipped, open_path, scan_directory, scan_file, same_bytes, file_of, short_name,
  le32, scan_entry, scan_entries, scan_sectors, scan_clusters, scan_root, cluster_lba,
  valid_cluster, next_cluster, fat32_eoc, fat32_readdir, fat32_open, skip_slashes, make_83,
}

-- The rest of a sector that a step of 32 bytes reaches.
pub data EntryOf (sector : Bytes) : Bytes → Type 0 where
  first : EntryOf sector sector
  next : {d : Bytes} → EntryOf sector d → EntryOf sector (drop 32 d)

-- A part of a sector, at a multiple of 32 bytes, that can be read from the disk.
pub record OnDisk {Disk : Type 0} (devices : List (BlockDevice Disk)) (disk : Disk) (d : Bytes)
    : Type 0 where
  pub lba : ℕ
  pub sector : Bytes
  pub reads : block_read_sector devices lba disk ≡ some sector
  pub within : EntryOf sector d

-- What a scan of entries that satisfy `P` may deliver: for a name, a file whose entry bears it and is no
-- directory; for a number, a directory.
abbrev pub Delivers : (Bytes → Type 0) → Query → Outcome → Type 0
Delivers P (named w) (opened f) =
    (d : Bytes) × P d × (is_directory d ≡ false) × (same_bytes 11 d w ≡ true) × (f ≡ file_of d)
Delivers P (numbered i capacity) (opened f) = ⊥
Delivers P (named w) (listed t s) = ⊥
Delivers P (numbered i capacity) (listed t s) =
    (d : Bytes) × P d × (is_directory d ≡ true) × (t ≡ short_name d capacity) × (s ≡ le32 d 28)
Delivers P q missing = Unit {0}
Delivers P q (pass i) = Unit {0}

Delivers-if :
    (P : Bytes → Type 0) (q : Query) (b : Bool) (x y : Outcome)
    → (b ≡ true → Delivers P q x)
    → (b ≡ false → Delivers P q y)
    → Delivers P q (if b then x else y)
Delivers-if P q true x y yes_case no_case = yes_case refl
Delivers-if P q false x y yes_case no_case = no_case refl

Delivers-after :
    (P : Bytes → Type 0) (q : Query) (o : Outcome) (k : ℕ → Outcome)
    → Delivers P q o
    → ((i : ℕ) → Delivers P q (k i))
    → Delivers P q (after (λ r. r) o k)
Delivers-after P q (opened f) k d all = d
Delivers-after P q (listed t s) k d all = d
Delivers-after P q missing k d all = d
Delivers-after P q (pass i) k d all = all i

pass-Delivers : (P : Bytes → Type 0) (q : Query) (i : ℕ) → Delivers P q (pass i)
pass-Delivers P (named w) i = tt
pass-Delivers P (numbered j capacity) i = tt

missing-Delivers : (P : Bytes → Type 0) (q : Query) → Delivers P q missing
missing-Delivers P (named w) = tt
missing-Delivers P (numbered j capacity) = tt

scan_directory-Delivers :
    (P : Bytes → Type 0) (q : Query) (d : Bytes) (index : ℕ)
    → P d
    → is_directory d ≡ true
    → Delivers P q (scan_directory q d index)
scan_directory-Delivers P (named w) d index on dir = tt
scan_directory-Delivers P (numbered i capacity) d index on dir =
    Delivers-if P (numbered i capacity) (i == index) (listed (short_name d capacity) (le32 d 28))
      (pass (index + 1)) (λ here. (d, on, dir, refl, refl)) (λ other. tt)

scan_file-Delivers :
    (P : Bytes → Type 0) (q : Query) (d : Bytes) (index : ℕ)
    → P d
    → is_directory d ≡ false
    → Delivers P q (scan_file q d index)
scan_file-Delivers P (named w) d index on file =
    Delivers-if P (named w) (same_bytes 11 d w) (opened (file_of d)) (pass (index + 1))
      (λ same. (d, on, file, same, refl)) (λ other. tt)
scan_file-Delivers P (numbered i capacity) d index on file = tt

scan_entry-Delivers :
    (P : Bytes → Type 0) (q : Query) (d : Bytes) (index : ℕ)
    → P d
    → Delivers P q (scan_entry q d index)
unfolding scan_entry
scan_entry-Delivers P q d index on =
    let kind : Outcome = if is_directory d then scan_directory q d index else scan_file q d index in
    let kind-Delivers : Delivers P q kind =
      Delivers-if P q (is_directory d) (scan_directory q d index) (scan_file q d index)
        (λ dir. scan_directory-Delivers P q d index on dir)
        (λ file. scan_file-Delivers P q d index on file) in
    Delivers-if P q (get_or d 0 0 == 0) missing (if is_skipped d then pass index else kind)
      (λ e. missing-Delivers P q)
      (λ e.
        Delivers-if P q (is_skipped d) (pass index) kind (λ e'. pass-Delivers P q index)
          (λ e'. kind-Delivers))

scan_entries-Delivers :
    (P : Bytes → Type 0) (q : Query) (n : ℕ) (d sector : Bytes) (index : ℕ)
    → ((e : Bytes) → EntryOf sector e → P e)
    → EntryOf sector d
    → Delivers P q (scan_entries q n d index)
unfolding scan_entries
scan_entries-Delivers P q zero d sector index all here = pass-Delivers P q index
scan_entries-Delivers P q (suc n) d sector index all here =
    Delivers-after P q (scan_entry q d index) (λ i. scan_entries q n (drop 32 d) i)
      (scan_entry-Delivers P q d index (all d here))
      (λ i. scan_entries-Delivers P q n (drop 32 d) sector i all (next here))

module _ {Disk : Type 0} (devices : List (BlockDevice Disk)) (disk : Disk) (v : Fat32) where
  scan_sectors-Delivers :
      (q : Query) (n lba index : ℕ)
      → Delivers (OnDisk devices disk) q (scan_sectors devices disk v q n lba index)
  unfolding scan_sectors
  scan_sectors-Delivers q zero lba index = pass-Delivers (OnDisk devices disk) q index
  scan_sectors-Delivers q (suc n) lba index =
      (elim (block_read_sector devices lba disk)
          as (λ o.
            block_read_sector devices lba disk ≡ o
            → Delivers (OnDisk devices disk) q (elim o [
              | none ↦ missing
              | some sector ↦
                  after (λ r. r) (scan_entries q (v.bytes_per_sector / 32) sector index)
                    (λ i. scan_sectors devices disk v q n (add32 lba 1) i)
            ])) [
              | none ↦ λ e. missing-Delivers (OnDisk devices disk) q
              | some sector ↦ λ e.
                  Delivers-after (OnDisk devices disk) q
                    (scan_entries q (v.bytes_per_sector / 32) sector index)
                    (λ i. scan_sectors devices disk v q n (add32 lba 1) i)
                    (scan_entries-Delivers (OnDisk devices disk) q (v.bytes_per_sector / 32) sector
                      sector index
                      (λ d inside. record {
                        lba = lba;
                        sector = sector;
                        reads = e;
                        within = inside;
                      })
                      first)
                    (λ i. scan_sectors-Delivers q n (add32 lba 1) i)
            ])
        refl

  -- The same for the loop over clusters, on any fuel.
  abbrev pub DeliversIf : Query → Option Outcome → Type 0
  DeliversIf q none = Unit {0}
  DeliversIf q (some o) = Delivers (OnDisk devices disk) q o

  DeliversIf-after :
      (q : Query) (o : Outcome) (k : ℕ → Option Outcome)
      → Delivers (OnDisk devices disk) q o
      → ((i : ℕ) → DeliversIf q (k i))
      → DeliversIf q (after some o k)
  DeliversIf-after q (opened f) k d all = d
  DeliversIf-after q (listed t s) k d all = d
  DeliversIf-after q missing k d all = d
  DeliversIf-after q (pass i) k d all = all i

  scan_clusters-Delivers :
      (fuel : ℕ) (q : Query) (cluster index : ℕ)
      → DeliversIf q (scan_clusters devices disk fuel v q cluster index)
  unfolding scan_clusters
  scan_clusters-Delivers zero q cluster index = tt
  scan_clusters-Delivers (suc fuel) q cluster index =
      elim (valid_cluster cluster)
        as (λ b. DeliversIf q (elim b [
          | false ↦ some missing
          | true ↦
              after some
                (scan_sectors devices disk v q v.sectors_per_cluster (cluster_lba v cluster) index)
                (λ i. elim (leb fat32_eoc (next_cluster devices disk v cluster)) [
                  | true ↦ some missing
                  | false ↦
                      scan_clusters devices disk fuel v q (next_cluster devices disk v cluster) i
                ])
        ])) [
          | false ↦ missing-Delivers (OnDisk devices disk) q
          | true ↦
              DeliversIf-after q
                (scan_sectors devices disk v q v.sectors_per_cluster (cluster_lba v cluster) index)
                (λ i. elim (leb fat32_eoc (next_cluster devices disk v cluster)) [
                  | true ↦ some missing
                  | false ↦
                      scan_clusters devices disk fuel v q (next_cluster devices disk v cluster) i
                ])
                (scan_sectors-Delivers q v.sectors_per_cluster (cluster_lba v cluster) index)
                (λ i.
                  elim (leb fat32_eoc (next_cluster devices disk v cluster))
                    as (λ b. DeliversIf q (elim b [
                      | true ↦ some missing
                      | false ↦
                          scan_clusters devices disk fuel v q (next_cluster devices disk v cluster)
                            i
                    ])) [
                      | true ↦ missing-Delivers (OnDisk devices disk) q
                      | false ↦
                          scan_clusters-Delivers fuel q (next_cluster devices disk v cluster) i
                    ])
        ]

  scan_root-Delivers : (fuel : ℕ) (q : Query) → DeliversIf q (scan_root devices disk fuel v q)
  unfolding scan_root
  scan_root-Delivers fuel q = scan_clusters-Delivers fuel q v.root_cluster 0

  DeliversIf-if :
      (q : Query) (b : Bool) (x y : Option Outcome)
      → DeliversIf q x
      → DeliversIf q y
      → DeliversIf q (if b then x else y)
  DeliversIf-if q true x y dx dy = dx
  DeliversIf-if q false x y dx dy = dy

  open_path-Delivers :
      (fuel : ℕ) (p : Bytes) → DeliversIf (named (make_83 p)) (open_path devices disk fuel v p)
  open_path-Delivers fuel [] = tt
  open_path-Delivers fuel (c ∷ p) = scan_root-Delivers fuel (named (make_83 (c ∷ p)))

  fat32_open-Delivers :
      (fuel : ℕ) (path : Bytes)
      → DeliversIf (named (make_83 (skip_slashes path))) (fat32_open devices disk fuel v path)
  unfolding fat32_open
  fat32_open-Delivers fuel path =
      let p = skip_slashes path in
      DeliversIf-if (named (make_83 p)) v.mounted (open_path devices disk fuel v p) (some missing)
        (open_path-Delivers fuel p) tt

  fat32_readdir-Delivers :
      (fuel index capacity : ℕ)
      → DeliversIf (numbered index capacity) (fat32_readdir devices disk fuel v index capacity)
  unfolding fat32_readdir
  fat32_readdir-Delivers fuel index capacity =
      DeliversIf-if (numbered index capacity) (not v.mounted || capacity == 0) (some missing)
        (scan_root devices disk fuel v (numbered index capacity)) tt
        (scan_root-Delivers fuel (numbered index capacity))

  -- Whatever the disk holds, a file that `fat32_open` opens is that of an entry of a sector of it, which is no directory and
  -- bears the name, made by `make_83`, of the path without its leading slashes.
  pub open-Delivers :
      (fuel : ℕ) (path : Bytes) (f : Fat32File)
      → fat32_open devices disk fuel v path ≡ some (opened f)
      → Delivers (OnDisk devices disk) (named (make_83 (skip_slashes path))) (opened f)
  open-Delivers fuel path f e =
      subst (DeliversIf (named (make_83 (skip_slashes path)))) e (fat32_open-Delivers fuel path)

  -- Whatever the disk holds, what `fat32_readdir` lists is an entry of a sector of it that is a directory: it lists no
  -- file.
  pub readdir-Delivers :
      (fuel index capacity size : ℕ) (name : Bytes)
      → fat32_readdir devices disk fuel v index capacity ≡ some (listed name size)
      → Delivers (OnDisk devices disk) (numbered index capacity) (listed name size)
  readdir-Delivers fuel index capacity size name e =
      subst (DeliversIf (numbered index capacity)) e (fat32_readdir-Delivers fuel index capacity)
