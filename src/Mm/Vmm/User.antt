-- ===== src/Mm/Vmm/User.antt =====
-- An address space of mm/vmm.c: its page tables and its list of mapped areas, with the functions that
-- read and write one page-table entry.
pub mod Laws
use ceblar.Prelude.{
  ℕ, ◌+◌, ◌-◌, ◌*◌, ◌/◌, ◌%◌, ◌^◌, bit_or, Bool, true, false, ◌&&◌, ◌||◌, not, ◌==◌, ltb, leb,
  if◌then◌else◌, Option, none, some, update,
}
use ceblar.Mm.Pmm.{Pmm, pmm_alloc_page, pmm_free_page, page_size}
use ceblar.Mm.Vmm.Kernel.{
  page_present, page_write, page_user, directory_index, table_index, frame, is_present, is_user,
}

-- `vma_t`; `end` is the first address behind the area.
pub record Vma : Type 0 where
  pub start : ℕ
  pub end : ℕ
  pub flags : ℕ
  pub used : Bool

abbrev pub vmm_max_vmas : ℕ
vmm_max_vmas = 64

-- `address_space_t`, with the address `tables_at` of its array `user_tables`.
pub record AddressSpace : Type 0 where
  pub page_directory : ℕ → ℕ
  pub user_tables : ℕ → ℕ → ℕ
  pub table_used : ℕ → Bool
  pub vmas : ℕ → Vma
  pub refs : ℕ
  pub tables_at : ℕ

-- `virt<0x400000u||virt>=0xc0000000u` and `di<1||di>8`, the other way round.
abbrev pub in_user_range : ℕ → Bool
in_user_range virt = leb 0x400000 virt && ltb virt 0xc0000000

abbrev pub in_tables : ℕ → Bool
in_tables virt = leb 1 (directory_index virt) && leb (directory_index virt) 8

abbrev pub slot_of : ℕ → ℕ
slot_of virt = directory_index virt - 1

-- `(phys & ~0xfffu) | (flags | PAGE_PRESENT | PAGE_USER)`
abbrev pub user_pte : ℕ → ℕ → ℕ
user_pte phys flags = bit_or (frame phys) (bit_or (bit_or flags page_present) page_user)

abbrev pub pte_at : AddressSpace → ℕ → ℕ
pte_at s virt = s.user_tables (slot_of virt) (table_index virt)

abbrev pub write_pte : AddressSpace → ℕ → ℕ → AddressSpace
write_pte s virt v = record s {
  user_tables =
      update s.user_tables (slot_of virt)
        (update (s.user_tables (slot_of virt)) (table_index virt) v);
}

-- `if (!s->table_used[slot]) { … }`
abbrev pub use_table : AddressSpace → ℕ → AddressSpace
use_table s virt = if s.table_used (slot_of virt) then s else record s {
  table_used = update s.table_used (slot_of virt) true;
  page_directory = update s.page_directory (directory_index virt) (
      bit_or (bit_or (bit_or (s.tables_at + slot_of virt * page_size) page_present) page_write)
        page_user);
}

unfoldable pub vmm_map_user : ℕ → ℕ → ℕ → AddressSpace → Option AddressSpace
vmm_map_user virt phys flags s =
    if in_user_range virt && in_tables virt
    then some (write_pte (use_table s virt) virt (user_pte phys flags))
    else none

unfoldable pub vmm_unmap_user : ℕ → AddressSpace → Pmm → Option (AddressSpace × Pmm)
vmm_unmap_user virt s m =
    if in_user_range virt && in_tables virt && s.table_used (slot_of virt)
    then (if is_present (pte_at s virt)
        then some (write_pte s virt 0, pmm_free_page (frame (pte_at s virt)) m)
        else none)
    else none

unfoldable pub vmm_get_user_physical : ℕ → AddressSpace → ℕ
vmm_get_user_physical virt s =
    if in_user_range virt && in_tables virt && s.table_used (slot_of virt)
    then (if is_present (pte_at s virt) && is_user (pte_at s virt)
        then bit_or (frame (pte_at s virt)) (virt % 2 ^ 12)
        else 0)
    else 0
