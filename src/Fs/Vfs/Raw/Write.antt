-- ===== src/Fs/Vfs/Raw/Write.antt =====
-- A raw write of fs/vfs.c is a write to the disk as one array of bytes.
use ceblar.Prelude.{
  ℕ, zero, suc, ◌+◌, ◌-◌, ◌/◌, ◌%◌, ◌^◌, ◌<◌, ◌≤◌, ◌≡◌, ◌≢◌, refl, ap, sym, ◌∙◌, subst, false, ◌&&◌,
  ◌||◌, not, ◌==◌, ltb, leb, if◌then◌else◌, some, List, [], ◌∷◌, ◌++◌, length, take, drop, get_or,
  add32, arith, length-take, length-drop, Bool-cases, inl, inr, ne→==, update, update_self,
  ℕ_discrete,
}
use ceblar.Fs.Block.{Bytes, BlockDevice, block_read_sector, IsStore}
use ceblar.Fs.Vfs.{
  Vfs, Transfer, chunk, raw_write, patched, old_sector, file_at, set_file, vfs_write, result_of,
}
use ceblar.Fs.Vfs.Raw.{Holds, byte_in}
use ceblar.Fs.Vfs.Raw.Patch.{get_or-take, get_or-drop, length-patched, get_or-patched}

-- The array with these bytes written at `at`.
abbrev pub overlay : (ℕ → ℕ) → ℕ → Bytes → ℕ → ℕ
overlay mem at bytes k =
    if leb at k && ltb k (at + length bytes) then get_or bytes (k - at) 0 else mem k

overlay-cong :
    (f g : ℕ → ℕ) (at : ℕ) (bytes : Bytes) (k : ℕ)
    → f k ≡ g k
    → overlay f at bytes k ≡ overlay g at bytes k
overlay-cong f g at bytes k e = rw (e) refl

overlay_parts :
    (mem : ℕ → ℕ) (at n : ℕ) (bytes : Bytes) (k : ℕ)
    → n ≤ length bytes
    → overlay (overlay mem at (take n bytes)) (at + n) (drop n bytes) k ≡ overlay mem at bytes k
overlay_parts mem at n bytes k le = ground (
  arith,
  length-take n bytes,
  length-drop n bytes,
  get_or-take n bytes (k - at),
  get_or-drop n bytes (k - (at + n)),
)

drop_all {ℓ} : {A : Type ℓ} (n : ℕ) (xs : List A) → length xs ≤ n → drop n xs ≡ []
drop_all zero [] le = refl
drop_all zero (x ∷ xs) le = absurd (omega arith)
drop_all (suc n) [] le = refl
drop_all (suc n) (x ∷ xs) le = drop_all n xs (omega arith)

module _ {Disk : Type 0} (devices : List (BlockDevice Disk)) (store : IsStore devices) where
  open store use {written, write_works, read_same, read_other}

  -- Writing a part of a sector.
  update-overlay :
      (sectors : ℕ → Bytes) (at : ℕ) (new : Bytes) (k : ℕ)
      → ((lba : ℕ) → length (sectors lba) ≡ 512)
      → at % 512 + length new ≤ 512
      → byte_in (update sectors (at / 512) (patched (at % 512) new (sectors (at / 512)))) k
        ≡ overlay (byte_in sectors) at new k
  update-overlay sectors at new k full le = elim (ℕ_discrete (at / 512) (k / 512)) [
    | yes e ↦
        let size = full (at / 512) in
        let here = update_self sectors (at / 512) (patched (at % 512) new (sectors (at / 512))) in
        let byte =
          get_or-patched (at % 512) new (sectors (at / 512)) (k % 512) (omega (arith, size)) in
        let low : leb (at % 512) (k % 512) ≡ leb at k = ground (arith, e) in
        let high : ltb (k % 512) (at % 512 + length new) ≡ ltb k (at + length new) =
          ground (arith, e) in
        let index : k % 512 - at % 512 ≡ k - at = omega (arith, e) in
        rw (← e, here, byte, low, high, index) refl
    | no ne ↦
        let far : leb at k && ltb k (at + length new) ≡ false = ground (arith, ne, le) in
        let kept : update sectors (at / 512) (patched (at % 512) new (sectors (at / 512))) (k / 512)
            ≡ sectors (k / 512) =
          ground (arith, ne) in
        rw (kept, far) refl
  ]

  Holds-update :
      (disk : Disk) (sectors : ℕ → Bytes) (q : ℕ) (b : Bytes)
      → Holds devices disk sectors
      → length b ≡ 512
      → Holds devices (written q b disk) (update sectors q b)
  Holds-update disk sectors q b h len = record {
    reads = λ lba. elim (ℕ_discrete q lba) [
      | yes e ↦
          subst (λ m. block_read_sector devices m (written q b disk) ≡ some (update sectors q b m))
            e (read_same q b disk len ∙ ap some (sym (update_self sectors q b)))
      | no ne ↦
          let kept : update sectors q b lba ≡ sectors lba = ground (arith, ne) in
          read_other q lba b disk (λ e. ne (sym e)) ∙ h.reads lba ∙ ap some (sym kept)
    ];
    full = λ lba. ground (arith, h.full lba, len);
  }

  -- What a write leaves: these sectors, with the bytes in place, and nothing left to write.
  pub record Written (sectors : ℕ → Bytes) (bytes : Bytes) (at : ℕ) (r : Transfer × Disk)
      : Type 0 where
    pub after : ℕ → Bytes
    pub holds : Holds devices r.1 after
    pub in_place : (k : ℕ) → byte_in after k ≡ overlay (byte_in sectors) at bytes k
    pub ended : r.0 ≡ record { bytes = []; at = at + length bytes; failed = false }

  -- The old sector that a round takes gives the same bytes as the one on the disk.
  old_sector_lem :
      (disk : Disk) (sectors : ℕ → Bytes) (at left : ℕ) (new : Bytes)
      → Holds devices disk sectors
      → length new ≡ chunk at left
      → (s : Bytes) × (old_sector devices disk at left ≡ some s)
        × (patched (at % 512) new s ≡ patched (at % 512) new (sectors (at / 512)))
  old_sector_lem disk sectors at left new h len =
      elim (Bool-cases (not (at % 512 == 0) || ltb (chunk at left) 512)) [
        | inl part ↦ (sectors (at / 512), rw (part) (h.reads (at / 512)), refl)
        | inr whole ↦
            let start : at % 512 ≡ 0 = ground (arith, whole) in
            let all : length new ≡ 512 = ground (arith, whole, len) in
            let rest : drop (0 + length new) (sectors (at / 512)) ≡ [] =
              drop_all (0 + length new) _ (omega (arith, h.full (at / 512))) in
            let none_left : drop (0 + length new) [] ≡ [] =
              drop_all {A = ℕ} (0 + length new) [] (omega arith) in
            ([], rw (whole) refl, rw (start) (ap (λ x. new ++ x) (none_left ∙ sym rest)))
      ]

  abbrev writing : Bytes → ℕ → Transfer
  writing bytes at = record { bytes = bytes; at = at; failed = false }

  raw_write_none :
      (fuel : ℕ) (disk : Disk) (at : ℕ)
      → raw_write devices fuel disk (writing [] at) ≡ (writing [] at, disk)
  unfolding raw_write
  raw_write_none zero disk at = refl
  raw_write_none (suc fuel) disk at = refl

  raw_write_more :
      (fuel : ℕ) (disk : Disk) (bytes sector : Bytes) (at : ℕ)
      → length bytes ≢ 0
      → old_sector devices disk at (length bytes) ≡ some sector
      → raw_write devices (suc fuel) disk (writing bytes at)
        ≡ raw_write devices fuel
            (written
              (at / 512)
              (patched (at % 512) (take (chunk at (length bytes)) bytes) sector)
              disk)
            (writing (drop (chunk at (length bytes)) bytes) (add32 at (chunk at (length bytes))))
  unfolding raw_write
  raw_write_more fuel disk bytes sector at ne old =
      let test : length bytes == 0 ≡ false = ne→== _ _ ne in
      let done =
        write_works (at / 512) (patched (at % 512) (take (chunk at (length bytes)) bytes) sector)
          disk in
      ground (arith, test, old, done)

  -- A round and the rest of the write.
  Written-join :
      (sectors : ℕ → Bytes) (at n : ℕ) (s bytes : Bytes) {r : Transfer × Disk}
      → ((lba : ℕ) → length (sectors lba) ≡ 512)
      → n ≡ chunk at (length bytes)
      → patched (at % 512) (take n bytes) s ≡ patched (at % 512) (take n bytes) (sectors (at / 512))
      → Written
          (update sectors (at / 512) (patched (at % 512) (take n bytes) s))
          (drop n bytes)
          (at + n)
          r
      → Written sectors bytes at r
  Written-join sectors at n s bytes full part same w = record {
    after = w.after;
    holds = w.holds;
    in_place = λ k.
        w.in_place k
        ∙ overlay-cong (byte_in (update sectors (at / 512) (patched (at % 512) (take n bytes) s)))
            (overlay (byte_in sectors) at (take n bytes)) (at + n) (drop n bytes) k
            (ap (λ (x : Bytes). byte_in (update sectors (at / 512) x) k) same
              ∙ update-overlay sectors at (take n bytes) k full
                  (omega (arith, length-take n bytes)))
        ∙ overlay_parts (byte_in sectors) at n bytes k (omega arith);
    ended =
        w.ended
        ∙ ap (λ a. record { bytes = []; at = a; failed = false })
            (omega (arith, length-drop n bytes));
  }

  raw_write_lem :
      (fuel : ℕ) (disk : Disk) (sectors : ℕ → Bytes) (bytes : Bytes) (at : ℕ)
      → Holds devices disk sectors
      → length bytes ≤ fuel
      → at + length bytes < 2 ^ 32
      → Written sectors bytes at (raw_write devices fuel disk (writing bytes at))
  raw_write_lem fuel disk sectors [] at h le fits =
      let here : at + 0 ≡ at = omega arith in
      subst (Written sectors [] at) (sym (raw_write_none fuel disk at)) (record {
        after = sectors;
        holds = h;
        in_place = λ k. ground arith;
        ended = ap (λ a. record { bytes = []; at = a; failed = false }) (sym here);
      })
  raw_write_lem zero disk sectors (b ∷ bytes) at h le fits = absurd (omega arith)
  raw_write_lem (suc fuel) disk sectors (b ∷ bytes) at h le fits =
      let all : Bytes = b ∷ bytes in
      let n : ℕ = chunk at (length all) in
      let cut = length-take n all in
      let left = length-drop n all in
      let (s, old, same) =
        old_sector_lem disk sectors at (length all) (take n all) h (omega (arith, cut)) in
      let next : ℕ → Bytes = update sectors (at / 512) (patched (at % 512) (take n all) s) in
      let size : length (patched (at % 512) (take n all) s) ≡ 512 =
        ap (λ (x : Bytes). length x) same
        ∙ length-patched (at % 512) (take n all) (sectors (at / 512))
            (omega (arith, cut, h.full (at / 512)))
        ∙ h.full (at / 512) in
      let ih =
        raw_write_lem fuel (written (at / 512) (patched (at % 512) (take n all) s) disk) next
          (drop n all) (at + n)
          (Holds-update disk sectors (at / 512) (patched (at % 512) (take n all) s) h size)
          (omega (arith, left)) (omega (arith, left)) in
      let moved : add32 at n ≡ at + n = omega arith in
      let step =
        raw_write_more fuel disk all s at (omega arith) old
        ∙ ap
            (λ a.
              raw_write devices fuel (written (at / 512) (patched (at % 512) (take n all) s) disk)
                (writing (drop n all) a))
            moved in
      subst (Written sectors all at) (sym step)
        (Written-join sectors at n s all h.full refl same ih)

  -- On a store that holds these sectors, a write to the open raw descriptor returns the number of its bytes, moves
  -- the descriptor's position by it, and leaves a disk of full sectors in which the bytes stand from the old
  -- position on and every other byte is as before, as long as the position stays below 2 ^ 32.
  pub vfs_write-overlay :
      (disk : Disk) (sectors : ℕ → Bytes) (bytes : Bytes) (s : Vfs) (name : Bytes)
      → Holds devices disk sectors
      → (file_at s 3).name ≡ some name
      → (file_at s 3).position + length bytes < 2 ^ 32
      → (vfs_write devices disk 3 bytes s).0 ≡ some (length bytes)
        × (vfs_write devices disk 3 bytes s).1
          ≡ set_file s 3 (record (file_at s 3) { position = (file_at s 3).position + length bytes })
        × (after : ℕ → Bytes) × Holds devices (vfs_write devices disk 3 bytes s).2 after
        × ((k : ℕ) → byte_in after k ≡ overlay (byte_in sectors) (file_at s 3).position bytes k)
  unfolding vfs_write
  vfs_write-overlay disk sectors bytes s name h given fits =
      let w =
        raw_write_lem (length bytes) disk sectors bytes (file_at s 3).position h (omega arith)
          fits in
      let count =
        ap (λ (r : Transfer). result_of r.failed (length bytes - length r.bytes)) w.ended
        ∙ ap some (omega arith) in
      let moved = ap (λ (r : Transfer). r.at) w.ended in
      (rw (given) count, rw (given, moved) refl, w.after, rw (given) w.holds, w.in_place)
