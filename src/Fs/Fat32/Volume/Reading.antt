-- ===== src/Fs/Fat32/Volume/Reading.antt =====
-- The read of fs/fat32/fat32.c ends, and advances the file by what it delivers.
use ceblar.Prelude.{
  ℕ, zero, suc, ◌+◌, ◌-◌, ◌/◌, ◌%◌, ◌^◌, ◌<◌, ◌≤◌, ◌≡◌, ◌≢◌, refl, ap, sym, ◌∙◌, subst, true, false,
  ◌&&◌, ◌||◌, not, ◌==◌, ltb, leb, Option, none, some, List, [], length, take, drop, add32, mul32,
  min, arith, length-take, length-drop, length-append, Bool-cases, Option-cases, inl, inr,
}
use ceblar.Fs.Block.{Bytes, BlockDevice, block_read_sector}
use ceblar.Fs.Fat32.{Fat32, Fat32File, cluster_lba, valid_cluster, next_cluster}
use ceblar.Fs.Fat32.Volume.{
  Progress, chunk_size, read_chunk, read_sectors, sector_in_cluster, read_clusters, read_result,
  finish_read, skip_clusters, fat32_read_file,
}

-- From `r` to `r'` the read of `n` bytes went on, within `n`, and the position with it.
pub record Advances (n : ℕ) (r r' : Progress) : Type 0 where
  pub more : length r.out ≤ length r'.out
  pub within : length r'.out ≤ n
  pub moved : r'.at + length r.out ≡ r.at + length r'.out

Advances-trans : (n : ℕ) (r s t : Progress) → Advances n r s → Advances n s t → Advances n r t
Advances-trans n r s t a b = omega (arith, a.more, a.within, a.moved, b.more, b.within, b.moved)

module _ {Disk : Type 0} (devices : List (BlockDevice Disk)) (disk : Disk) (v : Fat32) where
  -- A volume as `fat32_mount` leaves it, on a disk whose sectors are 512 bytes.
  pub record Readable : Type 0 where
    pub sector_bytes : v.bytes_per_sector ≡ 512
    pub some_sectors : v.sectors_per_cluster ≢ 0
    pub full : (lba : ℕ) (b : Bytes) → block_read_sector devices lba disk ≡ some b → length b ≡ 512

  module _ (h : Readable) (n : ℕ) where
    offset_small : (at : ℕ) → at % v.bytes_per_sector < 512
    offset_small at = subst (λ k. at % k < 512) (sym h.sector_bytes) (omega arith)

    read_chunk-Advances :
        (r : Progress) (sector : Bytes)
        → length sector ≡ 512
        → length r.out < n
        → r.at + n < 2 ^ 32 + length r.out
        → Advances n r (read_chunk v n sector r)
          × (length r.out < length (read_chunk v n sector r).out)
    read_chunk-Advances r sector full lt fits =
        let size =
          length-append r.out (take (chunk_size v n r) (drop (r.at % v.bytes_per_sector) sector)) in
        let taken = length-take (chunk_size v n r) (drop (r.at % v.bytes_per_sector) sector) in
        let dropped = length-drop (r.at % v.bytes_per_sector) sector in
        let small = offset_small r.at in omega (arith, size, taken, dropped, small, h.sector_bytes)

    -- Reading `rounds` sectors of a cluster: the read goes on, and delivers a byte or fails.
    abbrev Reads : ℕ → Progress → Progress → Type 0
    Reads rounds r r' =
        Advances n r r'
        × (length r.out < n → 0 < rounds → r'.failed ≡ false → length r.out < length r'.out)

    stops_full :
        (rounds lba : ℕ) (r : Progress)
        → ltb (length r.out) n ≡ false
        → read_sectors devices disk v n (suc rounds) lba r ≡ r
    unfolding read_sectors
    stops_full rounds lba r full = rw (full, read_sectors) refl

    stops_unread :
        (rounds lba : ℕ) (r : Progress)
        → ltb (length r.out) n ≡ true
        → block_read_sector devices lba disk ≡ none
        → read_sectors devices disk v n (suc rounds) lba r ≡ record r { failed = true }
    unfolding read_sectors
    stops_unread rounds lba r more bad = ground (arith, more, bad)

    reads_on :
        (rounds lba : ℕ) (r : Progress) (sector : Bytes)
        → ltb (length r.out) n ≡ true
        → block_read_sector devices lba disk ≡ some sector
        → read_sectors devices disk v n (suc rounds) lba r
          ≡ read_sectors devices disk v n rounds (add32 lba 1) (read_chunk v n sector r)
    unfolding read_sectors
    reads_on rounds lba r sector more got = ground (arith, more, got)

    read_sectors-Reads :
        (rounds lba : ℕ) (r : Progress)
        → length r.out ≤ n
        → r.at + n < 2 ^ 32 + length r.out
        → Reads rounds r (read_sectors devices disk v n rounds lba r)
    read_sectors-Reads zero lba r le fits =
        unfold read_sectors in (omega arith, λ lt some_rounds ok. absurd (omega arith))
    read_sectors-Reads (suc rounds) lba r le fits = elim (Bool-cases (ltb (length r.out) n)) [
      | inl more ↦ elim (Option-cases (block_read_sector devices lba disk)) [
        | inl bad ↦
            subst (Reads (suc rounds) r) (sym (stops_unread rounds lba r more bad))
              (omega arith, λ lt some_rounds ok. cc)
        | inr (sector, got) ↦
            let (step, grew) =
              read_chunk-Advances r sector (h.full lba sector got) (ground arith) fits in
            let (rest, onwards) =
              read_sectors-Reads rounds (add32 lba 1) (read_chunk v n sector r) step.within
                (omega (arith, step.moved, step.more)) in
            subst (Reads (suc rounds) r) (sym (reads_on rounds lba r sector more got)) (
              Advances-trans n r _ _ step rest,
              λ lt some_rounds ok. omega (arith, grew, rest.more),
            )
      ]
      | inr enough ↦
          subst (Reads (suc rounds) r) (sym (stops_full rounds lba r enough))
            (omega arith, λ lt some_rounds ok. absurd (ground arith))
    ]

    -- The result of a read: it is there, and the read went on within `n`.
    abbrev Ends : Progress → Option Progress → Type 0
    Ends r found = (r' : Progress) × (found ≡ some r') × Advances n r r'

    clusters_stop :
        (fuel cluster : ℕ) (r : Progress)
        → ltb (length r.out) n && valid_cluster cluster ≡ false
        → read_clusters devices disk (suc fuel) v n cluster r ≡ some r
    unfolding read_clusters
    clusters_stop fuel cluster r stop = ground (arith, stop)

    abbrev cluster_read : ℕ → Progress → Progress
    cluster_read cluster r =
        read_sectors devices disk v n (v.sectors_per_cluster - sector_in_cluster v r)
          (add32 (cluster_lba v cluster) (sector_in_cluster v r)) r

    clusters_fail :
        (fuel cluster : ℕ) (r : Progress)
        → ltb (length r.out) n && valid_cluster cluster ≡ true
        → (cluster_read cluster r).failed ≡ true
        → read_clusters devices disk (suc fuel) v n cluster r ≡ some (cluster_read cluster r)
    unfolding read_clusters
    clusters_fail fuel cluster r more bad = ground (arith, more, bad)

    clusters_on :
        (fuel cluster : ℕ) (r : Progress)
        → ltb (length r.out) n && valid_cluster cluster ≡ true
        → (cluster_read cluster r).failed ≡ false
        → read_clusters devices disk (suc fuel) v n cluster r
          ≡ read_clusters devices disk fuel v n
              (next_cluster devices disk v cluster)
              (cluster_read cluster r)
    unfolding read_clusters
    clusters_on fuel cluster r more ok = ground (arith, more, ok)

    -- More fuel than bytes to read is enough.
    read_clusters-Ends :
        (fuel cluster : ℕ) (r : Progress)
        → length r.out ≤ n
        → n < fuel + length r.out
        → r.at + n < 2 ^ 32 + length r.out
        → Ends r (read_clusters devices disk fuel v n cluster r)
    read_clusters-Ends zero cluster r le enough fits = absurd (omega arith)
    read_clusters-Ends (suc fuel) cluster r le enough fits =
        elim (Bool-cases (ltb (length r.out) n && valid_cluster cluster)) [
          | inr stop ↦ (r, clusters_stop fuel cluster r stop, omega arith)
          | inl more ↦
              let r₁ = cluster_read cluster r in
              let rounds : 0 < v.sectors_per_cluster - sector_in_cluster v r =
                grind (arith, h.some_sectors) in
              let (step, grew) =
                read_sectors-Reads (v.sectors_per_cluster - sector_in_cluster v r)
                  (add32 (cluster_lba v cluster) (sector_in_cluster v r)) r le fits in
              elim (Bool-cases r₁.failed) [
                | inl bad ↦ (r₁, clusters_fail fuel cluster r more bad, step)
                | inr ok ↦
                    let longer = grew (ground (arith, more)) rounds ok in
                    let (r', e, rest) =
                      read_clusters-Ends fuel (next_cluster devices disk v cluster) r₁ step.within
                        (omega (arith, longer)) (omega (arith, step.moved, step.more)) in
                    (r', clusters_on fuel cluster r more ok ∙ e, Advances-trans n r r₁ r' step rest)
              ]
        ]

-- The count of a result, 0 for -1.
abbrev pub count : Option Bytes → ℕ
count none = 0
count (some b) = length b

count-read_result : (f : Fat32File) (r : Progress) → count (read_result f r).0 ≡ length r.out
count-read_result f r = elim (Bool-cases (r.failed && length r.out == 0)) [
  | inl nothing ↦ rw nothing (ground (arith, nothing))
  | inr something ↦ rw something refl
]

-- On a mounted volume whose sectors are 512 bytes, and for a file of fewer than 2 ^ 32 bytes,
-- `fat32_read_file` ends, whatever the chain of clusters is; it delivers at most `n` bytes, and the
-- position of the file moves on by as many.
pub read_file-Ends :
    {Disk : Type 0} (devices : List (BlockDevice Disk)) (disk : Disk) (v : Fat32) (f : Fat32File)
    (n : ℕ)
    → Readable devices disk v
    → f.size < 2 ^ 32
    → (result : Option Bytes) × (f' : Fat32File) × (fat32_read_file devices disk v f n
        ≡ some (result, f'))
      × (count result ≤ n)
      × (f'.position ≡ f.position + count result)
unfolding fat32_read_file
read_file-Ends devices disk v f n h small =
    elim (Bool-cases (not v.mounted || f.directory || leb f.size f.position)) [
      | inl nothing ↦ (some [], f, rw nothing refl, omega arith, omega arith)
      | inr readable ↦
          let m = min n (f.size - f.position) in
          let start : Progress = record { out = []; at = f.position; failed = false } in
          let cluster =
            skip_clusters devices disk v
              (f.position / mul32 v.sectors_per_cluster v.bytes_per_sector) f.first_cluster in
          let (r', e, a) =
            read_clusters-Ends devices disk v h m (m + 1) cluster start (omega arith) (omega arith)
              (ground (arith, readable, small)) in
          let counted = count-read_result f r' in
          (
            (read_result f r').0,
            (read_result f r').1,
            rw readable (ap (finish_read f) e),
            omega (arith, counted, a.within),
            omega (arith, counted, a.moved),
          )
    ]
