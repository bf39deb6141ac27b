-- ===== src/Mm/Vmm/Kernel/Laws.antt =====
-- Mapping, looking up and unmapping one kernel page.
use ceblar.Prelude.{ℕ, ◌+◌, ◌*◌, ◌/◌, ◌%◌, ◌^◌, ◌≡◌, ◌≢◌, bit_or, true, false, ◌==◌, arith}
use ceblar.Prelude.Bits.{bit_or-div, bit_or_bit, bit_or-zero, frame-bit_or}
use ceblar.Mm.Vmm.Kernel.{
  KernelTables, page_present, directory_index, table_index, frame, is_present, kernel_pte, vmm_map,
  vmm_unmap, vmm_get_physical,
}

module _ (phys flags : ℕ) where
  kernel_pte-present : is_present (kernel_pte phys flags) ≡ true
  kernel_pte-present = ground (
    arith,
    bit_or_bit 0 (frame phys) (bit_or flags page_present),
    bit_or_bit 0 flags page_present,
  )

  kernel_pte-frame : kernel_pte phys flags / 2 ^ 12 ≡ bit_or (phys / 2 ^ 12) (flags / 2 ^ 12)
  kernel_pte-frame = ground (
    arith,
    bit_or-div 12 (frame phys) (bit_or flags page_present),
    bit_or-div 12 flags page_present,
    bit_or-zero (flags / 2 ^ 12),
  )

module _ (virt phys flags : ℕ) (k : KernelTables) where
  entry_after_map :
      (w : ℕ)
      → k.kernel_tables (directory_index virt) ≢ 0
      → w / 2 ^ 12 ≡ virt / 2 ^ 12
      → ((vmm_map virt phys flags k).kernel_tables (directory_index w) == 0 ≡ false)
        × ((vmm_map virt phys flags k).entries
              ((vmm_map virt phys flags k).kernel_tables (directory_index w))
              (table_index w)
            ≡ kernel_pte phys flags)
  unfolding vmm_map
  entry_after_map w ne same = (ground arith, ground arith)

  -- Where the directory has a table, after `vmm_map` of a page every address in it has the frame of
  -- `phys`, to which `|` adds the bits of `flags` above the low twelve.
  pub get-vmm_map_same :
      (w : ℕ)
      → k.kernel_tables (directory_index virt) ≢ 0
      → w / 2 ^ 12 ≡ virt / 2 ^ 12
      → vmm_get_physical w (vmm_map virt phys flags k)
        ≡ bit_or (phys / 2 ^ 12) (flags / 2 ^ 12) * 2 ^ 12 + w % 2 ^ 12
  unfolding vmm_get_physical
  get-vmm_map_same w ne same =
      let (table, entry) = entry_after_map w ne same in
      rw (
        table,
        entry,
        kernel_pte-present phys flags,
        frame-bit_or (kernel_pte phys flags / 2 ^ 12) (w % 2 ^ 12) (omega arith),
        kernel_pte-frame phys flags,
      )

  -- `vmm_map` changes no table pointer, so the pages of a directory entry without a table stay
  -- unmapped.
  pub tables-vmm_map : (vmm_map virt phys flags k).kernel_tables ≡ k.kernel_tables
  unfolding vmm_map
  tables-vmm_map = ground arith

  -- Where the directory has no table, `vmm_map` does nothing, and the page has no physical address.
  pub vmm_map_missing :
      k.kernel_tables (directory_index virt) ≡ 0
      → (vmm_map virt phys flags k ≡ k) × (vmm_get_physical virt (vmm_map virt phys flags k) ≡ 0)
  unfolding vmm_map vmm_get_physical
  vmm_map_missing e = (ground arith, ground arith)

-- `vmm_unmap` leaves the page without a physical address.
pub get-vmm_unmap :
    (virt w : ℕ) (k : KernelTables)
    → w / 2 ^ 12 ≡ virt / 2 ^ 12
    → vmm_get_physical w (vmm_unmap virt k) ≡ 0
unfolding vmm_unmap vmm_get_physical
get-vmm_unmap virt w k same = ground arith
