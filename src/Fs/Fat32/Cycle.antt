-- ===== src/Fs/Fat32/Cycle.antt =====
-- Where the scan of fs/fat32/fat32.c never ends.
use ceblar.Prelude.{ℕ, zero, suc, ◌≡◌, refl, true, false, leb, none, List, arith}
use ceblar.Fs.Block.{BlockDevice}
use ceblar.Fs.Fat32.{
  Fat32, Query, pass, scan_sectors, scan_clusters, scan_root, cluster_lba, valid_cluster,
  next_cluster, fat32_eoc,
}

module _ {Disk : Type 0} (devices : List (BlockDevice Disk)) (disk : Disk) (v : Fat32) where
  scan_clusters_cycle :
      (q : Query)
      → valid_cluster v.root_cluster ≡ true
      → next_cluster devices disk v v.root_cluster ≡ v.root_cluster
      → ((index : ℕ)
          → (i : ℕ) × (scan_sectors devices disk v q v.sectors_per_cluster
                (cluster_lba v v.root_cluster)
                index
              ≡ pass i))
      → (fuel index : ℕ) → scan_clusters devices disk fuel v q v.root_cluster index ≡ none
  unfolding scan_clusters
  scan_clusters_cycle q valid own passes zero index = refl
  scan_clusters_cycle q valid own passes (suc fuel) index =
      let (i, passed) = passes index in
      let later = scan_clusters_cycle q valid own passes fuel i in
      let more : leb fat32_eoc v.root_cluster ≡ false = ground (arith, valid) in
      ground (arith, valid, passed, own, more, later)

  -- Where the root directory's first cluster is its own successor and the scan of its sectors ends neither
  -- with an answer nor with the end mark, the scan of `fat32_open` and `fat32_readdir` never ends.
  pub scan_root_cycle :
      (q : Query)
      → valid_cluster v.root_cluster ≡ true
      → next_cluster devices disk v v.root_cluster ≡ v.root_cluster
      → ((index : ℕ)
          → (i : ℕ) × (scan_sectors devices disk v q v.sectors_per_cluster
                (cluster_lba v v.root_cluster)
                index
              ≡ pass i))
      → (fuel : ℕ) → scan_root devices disk fuel v q ≡ none
  unfolding scan_root
  scan_root_cycle q valid own passes fuel = scan_clusters_cycle q valid own passes fuel 0
