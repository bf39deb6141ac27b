-- ===== src/Fs/Vfs/Raw.antt =====
-- The raw descriptor of fs/vfs.c: reads and writes through sectors against the disk as one array of bytes.
mod Patch
pub mod Write
use ceblar.Prelude.{
  ℕ, zero, suc, ◌+◌, ◌-◌, ◌*◌, ◌/◌, ◌%◌, ◌^◌, ◌<◌, ◌≤◌, ◌≡◌, ◌≢◌, refl, ap, sym, ◌∙◌, subst, Bool,
  true, false, ◌&&◌, ◌||◌, not, ◌==◌, ltb, leb, if◌then◌else◌, Option, none, some, List, [], ◌∷◌,
  ◌++◌, length, take, drop, get_or, min, add32, arith, length-take, length-drop, length-append,
  Bool-cases, Option-cases, inl, inr, ne→==,
}
use ceblar.Fs.Block.{Bytes, BlockDevice, block_read_sector, block_write_sector, IsStore}
use ceblar.Fs.Fat32.{Fat32}
use ceblar.Fs.Vfs.{
  Vfs, VfsFile, Transfer, chunk, raw_read, raw_write, patched, old_sector, file_at, set_file,
  vfs_read, vfs_write,
}

-- `n` bytes of an array, from `at` on.
abbrev pub range : (ℕ → ℕ) → ℕ → ℕ → Bytes
range mem at zero = []
range mem at (suc n) = mem at ∷ range mem (at + 1) n

range-append :
    (mem : ℕ → ℕ) (at k n : ℕ) → range mem at (k + n) ≡ range mem at k ++ range mem (at + k) n
range-append mem at zero n =
    let here : at + 0 ≡ at = omega arith in
    let rest : 0 + n ≡ n = omega arith in rw (here, rest) refl
range-append mem at (suc k) n =
    let more : suc k + n ≡ suc (k + n) = omega arith in
    let moved : at + suc k ≡ at + 1 + k = omega arith in
    rw (more, moved) (ap (◌∷◌ (mem at)) (range-append mem (at + 1) k n))

drop-get_or :
    (xs : Bytes) (off : ℕ) → off < length xs → drop off xs ≡ get_or xs off 0 ∷ drop (suc off) xs
drop-get_or [] off lt = absurd (omega arith)
drop-get_or (x ∷ xs) zero lt = refl
drop-get_or (x ∷ xs) (suc off) lt = drop-get_or xs off (omega arith)

-- A part of a list that holds the bytes from `base` on.
range-part :
    (mem : ℕ → ℕ) (xs : Bytes) (base off k : ℕ)
    → ((j : ℕ) → j < length xs → mem (base + j) ≡ get_or xs j 0)
    → off + k ≤ length xs
    → take k (drop off xs) ≡ range mem (base + off) k
range-part mem xs base off zero holds le = refl
range-part mem xs base off (suc k) holds le =
    let rest = range-part mem xs base (suc off) k holds (omega arith) in
    let moved : base + suc off ≡ base + off + 1 = omega arith in
    rw (drop-get_or xs off (omega arith), holds off (omega arith), rest, moved) refl

-- The byte of an address in a disk of sectors.
abbrev pub byte_in : (ℕ → Bytes) → ℕ → ℕ
byte_in sectors k = get_or (sectors (k / 512)) (k % 512) 0

range-sector :
    (sectors : ℕ → Bytes) (at k : ℕ)
    → length (sectors (at / 512)) ≡ 512
    → at % 512 + k ≤ 512
    → take k (drop (at % 512) (sectors (at / 512))) ≡ range (byte_in sectors) at k
range-sector sectors at k full le =
    let start : at / 512 * 512 + at % 512 ≡ at = omega arith in
    range-part (byte_in sectors) (sectors (at / 512)) (at / 512 * 512) (at % 512) k
      (λ j lt.
        let q : (at / 512 * 512 + j) / 512 ≡ at / 512 = omega (arith, full) in
        let o : (at / 512 * 512 + j) % 512 ≡ j = omega (arith, full) in rw (q, o) refl)
      (omega (arith, full))
    ∙ ap (λ a. range (byte_in sectors) a k) start

append_assoc : (xs ys zs : Bytes) → (xs ++ ys) ++ zs ≡ xs ++ (ys ++ zs)
append_assoc [] ys zs = refl
append_assoc (x ∷ xs) ys zs = ap (◌∷◌ x) (append_assoc xs ys zs)

append_nil : (xs : Bytes) → xs ++ [] ≡ xs
append_nil [] = refl
append_nil (x ∷ xs) = ap (◌∷◌ x) (append_nil xs)

module _ {Disk : Type 0} (devices : List (BlockDevice Disk)) where
  -- The disk holds these sectors, of 512 bytes each.
  pub record Holds (disk : Disk) (sectors : ℕ → Bytes) : Type 0 where
    pub reads : (lba : ℕ) → block_read_sector devices lba disk ≡ some (sectors lba)
    pub full : (lba : ℕ) → length (sectors lba) ≡ 512

  module _ (disk : Disk) (sectors : ℕ → Bytes) (h : Holds disk sectors) where
    raw_read_none : (fuel : ℕ) (r : Transfer) → raw_read devices fuel disk 0 r ≡ r
    unfolding raw_read
    raw_read_none zero r = refl
    raw_read_none (suc fuel) r = refl

    abbrev next_part : ℕ → Transfer → Transfer
    next_part left r = record r {
      bytes = r.bytes ++ take (chunk r.at left) (drop (r.at % 512) (sectors (r.at / 512)));
      at = add32 r.at (chunk r.at left);
    }

    raw_read_more :
        (fuel left : ℕ) (r : Transfer)
        → left ≢ 0
        → raw_read devices (suc fuel) disk left r
          ≡ raw_read devices fuel disk (left - chunk r.at left) (next_part left r)
    unfolding raw_read
    raw_read_more fuel left r ne =
        let test : left == 0 ≡ false = ne→== _ _ ne in ground (arith, test, h.reads (r.at / 512))

    abbrev reading : Bytes → ℕ → Transfer
    reading bytes at = record { bytes = bytes; at = at; failed = false }

    part_read :
        (left : ℕ) (bytes : Bytes) (at : ℕ)
        → at + left < 2 ^ 32
        → next_part left (reading bytes at)
          ≡ reading (bytes ++ range (byte_in sectors) at (chunk at left)) (at + chunk at left)
    part_read left bytes at fits =
        let same = range-sector sectors at (chunk at left) (h.full (at / 512)) (omega arith) in
        let moved : add32 at (chunk at left) ≡ at + chunk at left = omega arith in
        rw (same, moved) refl

    raw_read_lem :
        (fuel left : ℕ) (bytes : Bytes) (at : ℕ)
        → left ≤ fuel
        → at + left < 2 ^ 32
        → raw_read devices fuel disk left (reading bytes at)
          ≡ reading (bytes ++ range (byte_in sectors) at left) (at + left)
    raw_read_lem fuel zero bytes at le fits =
        let here : at + 0 ≡ at = omega arith in
        raw_read_none fuel (reading bytes at) ∙ rw (here, append_nil bytes) refl
    raw_read_lem zero (suc left) bytes at le fits = absurd (omega arith)
    raw_read_lem (suc fuel) (suc left) bytes at le fits =
        let k : ℕ = chunk at (suc left) in
        let ih =
          raw_read_lem fuel (suc left - k) (bytes ++ range (byte_in sectors) at k) (at + k)
            (omega arith) (omega arith) in
        let parts : range (byte_in sectors) at (k + (suc left - k)) ≡ _ =
          range-append (byte_in sectors) at k (suc left - k) in
        let whole : k + (suc left - k) ≡ suc left = omega arith in
        let end : at + k + (suc left - k) ≡ at + suc left = omega arith in
        let content =
          append_assoc bytes (range (byte_in sectors) at k)
            (range (byte_in sectors) (at + k) (suc left - k))
          ∙ ap (λ (ys : Bytes). bytes ++ ys) (sym parts ∙ ap (range (byte_in sectors) at) whole) in
        raw_read_more fuel (suc left) (reading bytes at) (omega arith)
        ∙ ap (raw_read devices fuel disk (suc left - k)) (part_read (suc left) bytes at fits)
        ∙ ih
        ∙ (λ i. reading (content i) (end i))

    -- On a disk that holds these sectors, a read of `n` bytes from the open raw descriptor returns the bytes of
    -- the disk from the descriptor's position on, across sectors, and moves the position by `n`, as long as it
    -- stays below 2 ^ 32.
    pub vfs_read-range :
        (v : Fat32) (input : Option ℕ) (n : ℕ) (s : Vfs) (name : Bytes)
        → (file_at s 3).name ≡ some name
        → (file_at s 3).position + n < 2 ^ 32
        → vfs_read devices v disk input 3 n s
          ≡ some (
            some (range (byte_in sectors) (file_at s 3).position n),
            set_file s 3 (record (file_at s 3) { position = (file_at s 3).position + n }),
          )
    unfolding vfs_read
    vfs_read-range v input n s name given fits =
        let done = raw_read_lem n n [] (file_at s 3).position (omega arith) fits in
        rw (given, done) refl
