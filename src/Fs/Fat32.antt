-- ===== src/Fs/Fat32.antt =====
-- fs/fat32/fat32.c: a reader of FAT32 volumes. A sector buffer is the list of its bytes; the static buffer is
-- filled before each use, so it is no part of the state. A text is the list of its characters without the
-- final 0.
pub mod Names
pub mod Scan
pub mod Cycle
pub mod Volume
mod Tests
use ceblar.Prelude.{
  ℕ, zero, suc, ◌+◌, ◌-◌, ◌*◌, ◌/◌, ◌%◌, ◌^◌, bit_and, bit_or, Bool, true, false, ◌&&◌, ◌||◌, not,
  ◌==◌, ltb, leb, if◌then◌else◌, Option, none, some, List, [], ◌∷◌, ◌++◌, length, get_or, take,
  drop, replicate, add32, sub32, mul32, min,
}
use ceblar.Fs.Block.{
  Bytes, BlockDevice, is_given, block_default, block_read_sector, block_write_sector,
}
use ceblar.Fs.Journal.{Journal, journal_write}

abbrev pub fat32_eoc : ℕ
fat32_eoc = 0x0ffffff8

abbrev pub fat32_max_cluster : ℕ
fat32_max_cluster = 0x0ffffff6

-- The static variables.
pub record Fat32 : Type 0 where
  pub partition_lba : ℕ
  pub fat_lba : ℕ
  pub data_lba : ℕ
  pub sectors_per_cluster : ℕ
  pub bytes_per_sector : ℕ
  pub fat_size : ℕ
  pub root_cluster : ℕ
  pub mounted : Bool

-- `fat32_file_t`
pub record Fat32File : Type 0 where
  pub first_cluster : ℕ
  pub size : ℕ
  pub position : ℕ
  pub directory : Bool

abbrev pub le16 : Bytes → ℕ → ℕ
le16 p i = get_or p i 0 + get_or p (i + 1) 0 * 2 ^ 8

abbrev pub le32 : Bytes → ℕ → ℕ
le32 p i = le16 p i + le16 p (i + 2) * 2 ^ 16

abbrev pub cluster_lba : Fat32 → ℕ → ℕ
cluster_lba v c = add32 v.data_lba (mul32 (sub32 c 2) v.sectors_per_cluster)

abbrev pub valid_cluster : ℕ → Bool
valid_cluster c = leb 2 c && leb c fat32_max_cluster

-- `n[i] = e[i]` while it is not a space, for at most `n` characters.
unfoldable pub until_space : ℕ → Bytes → Bytes
until_space zero e = []
until_space (suc n) [] = []
until_space (suc n) (c ∷ e) = let rest = until_space n e in if c == 32 then [] else c ∷ rest

-- The text that is left in the buffer of `capacity` bytes.
unfoldable pub short_name : Bytes → ℕ → Bytes
short_name e capacity =
    let base = until_space (min 8 (capacity - 1)) e in
    if get_or e 8 0 == 32 || not (ltb (length base + 1) capacity)
    then base
    else base ++ 46 ∷ until_space (min 3 (capacity - (length base + 2))) (drop 8 e)

abbrev pub upper : ℕ → ℕ
upper c = if leb 97 c && leb c 122 then c - 97 + 65 else c

-- The first loop of `make_83`: the characters before the dot, and the path behind what it read.
unfoldable pub base_from : ℕ → Bytes → Bytes × Bytes
base_from zero p = ([], p)
base_from (suc n) [] = ([], [])
base_from (suc n) (c ∷ p) =
    let (rest, p') = base_from n p in
    if c == 47 then ([], c ∷ p) else if upper c == 46 then ([], p) else (upper c ∷ rest, p')

-- The second loop.
unfoldable pub extension_from : ℕ → Bytes → Bytes
extension_from zero p = []
extension_from (suc n) [] = []
extension_from (suc n) (c ∷ p) =
    let rest = extension_from n p in if c == 47 then [] else upper c ∷ rest

-- `if (*p == '.') p++;`
abbrev pub skip_dot : Bytes → Bytes
skip_dot [] = []
skip_dot (c ∷ p) = if c == 46 then p else c ∷ p

-- Spaces up to `n` characters.
abbrev pub pad : ℕ → Bytes → Bytes
pad n xs = xs ++ replicate (n - length xs) 32

unfoldable pub make_83 : Bytes → Bytes
make_83 p =
    let (base, rest) = base_from 8 p in pad 8 base ++ pad 3 (extension_from 3 (skip_dot rest))

-- What a scan looks for: a name of 11 characters, or the entry of a number, whose name goes to a buffer of
-- `capacity` bytes.
pub data Query : Type 0 where
  named : Bytes → Query
  numbered : ℕ → ℕ → Query

-- How a scan goes on: a file, a listed name with its size, -1, or the number of entries passed.
pub data Outcome : Type 0 where
  opened : Fat32File → Outcome
  listed : Bytes → ℕ → Outcome
  missing : Outcome
  pass : ℕ → Outcome

abbrev pub is_skipped : Bytes → Bool
is_skipped d =
    get_or d 0 0 == 0xe5 || get_or d 11 0 == 0x0f || not (bit_and (get_or d 11 0) 0x08 == 0)

abbrev pub is_directory : Bytes → Bool
is_directory d = not (bit_and (get_or d 11 0) 0x10 == 0)

-- The first `n` bytes of both are the same.
unfoldable pub same_bytes : ℕ → Bytes → Bytes → Bool
same_bytes zero d w = true
same_bytes (suc n) [] w = false
same_bytes (suc n) (c ∷ d) [] = false
same_bytes (suc n) (c ∷ d) (c' ∷ w) = c == c' && same_bytes n d w

abbrev pub file_of : Bytes → Fat32File
file_of d = record {
  first_cluster = le16 d 20 * 2 ^ 16 + le16 d 26;
  size = le32 d 28;
  position = 0;
  directory = false;
}

-- The body of the loop over the entries of a sector, from the directory test on.
abbrev pub scan_directory : Query → Bytes → ℕ → Outcome
scan_directory (named w) d index = pass (index + 1)
scan_directory (numbered i capacity) d index =
    if i == index then listed (short_name d capacity) (le32 d 28) else pass (index + 1)

abbrev pub scan_file : Query → Bytes → ℕ → Outcome
scan_file (named w) d index = if same_bytes 11 d w then opened (file_of d) else pass (index + 1)
scan_file (numbered i capacity) d index = pass (index + 1)

unfoldable pub scan_entry : Query → Bytes → ℕ → Outcome
scan_entry q d index =
    if get_or d 0 0 == 0
    then missing
    else if is_skipped d
    then pass index
    else if is_directory d
    then scan_directory q d index
    else scan_file q d index

-- Goes on behind the entries passed, or returns.
abbrev pub after : {A : Type 0} → (Outcome → A) → Outcome → (ℕ → A) → A
after return (opened f) go_on = return (opened f)
after return (listed t s) go_on = return (listed t s)
after return missing go_on = return missing
after return (pass i) go_on = go_on i

-- `for (e = 0; e < bytes_per_sector; e += 32u)`, by the rounds left, `d` being what is left of the sector.
unfoldable pub scan_entries : Query → ℕ → Bytes → ℕ → Outcome
scan_entries q zero d index = pass index
scan_entries q (suc n) d index =
    after (λ o. o) (scan_entry q d index) (λ i. scan_entries q n (drop 32 d) i)

-- `while (*path == '/') path++;`
unfoldable pub skip_slashes : Bytes → Bytes
skip_slashes [] = []
skip_slashes (c ∷ p) = let rest = skip_slashes p in if c == 47 then rest else c ∷ p

module _ {Disk : Type 0} (devices : List (BlockDevice Disk)) (disk : Disk) where
  abbrev read_lba : ℕ → Option Bytes
  read_lba lba = block_read_sector devices lba disk

  -- 0 where the sector cannot be read.
  unfoldable pub next_cluster : Fat32 → ℕ → ℕ
  next_cluster v c = elim (read_lba (add32 v.fat_lba (mul32 c 4 / v.bytes_per_sector))) [
    | none ↦ 0
    | some sector ↦ le32 sector (mul32 c 4 % v.bytes_per_sector) % 2 ^ 28
  ]

  -- `for (s = 0; s < sectors_per_cluster; s++)`, by the rounds left.
  unfoldable pub scan_sectors : Fat32 → Query → ℕ → ℕ → ℕ → Outcome
  scan_sectors v q zero lba index = pass index
  scan_sectors v q (suc n) lba index = elim (read_lba lba) [
    | none ↦ missing
    | some sector ↦
        after (λ o. o) (scan_entries q (v.bytes_per_sector / 32) sector index)
          (λ i. scan_sectors v q n (add32 lba 1) i)
  ]

  -- `while (valid_cluster(cluster))` on fuel; `none` means that the loop goes on.
  unfoldable pub scan_clusters : ℕ → Fat32 → Query → ℕ → ℕ → Option Outcome
  scan_clusters zero v q cluster index = none
  scan_clusters (suc fuel) v q cluster index = elim (valid_cluster cluster) [
    | false ↦ some missing
    | true ↦ after some (scan_sectors v q v.sectors_per_cluster (cluster_lba v cluster) index) (λ i.
        elim (leb fat32_eoc (next_cluster v cluster)) [
          | true ↦ some missing
          | false ↦ scan_clusters fuel v q (next_cluster v cluster) i
        ])
  ]

  unfoldable pub scan_root : ℕ → Fat32 → Query → Option Outcome
  scan_root fuel v q = scan_clusters fuel v q v.root_cluster 0

  abbrev pub open_path : ℕ → Fat32 → Bytes → Option Outcome
  open_path fuel v [] = some missing
  open_path fuel v (c ∷ p) = scan_root fuel v (named (make_83 (c ∷ p)))

  -- A call with a path and a file to fill in; `missing` is the result -1.
  unfoldable pub fat32_open : ℕ → Fat32 → Bytes → Option Outcome
  fat32_open fuel v path = if v.mounted then open_path fuel v (skip_slashes path) else some missing

  unfoldable pub fat32_readdir : ℕ → Fat32 → ℕ → ℕ → Option Outcome
  fat32_readdir fuel v index capacity =
      if not v.mounted || capacity == 0
      then some missing
      else scan_root fuel v (numbered index capacity)
