-- ===== src/Mm/Vmm/Kernel.antt =====
-- The kernel's page tables of mm/vmm.c: `vmm_map`, `vmm_unmap`, `vmm_get_physical` and the tables
-- that `vmm_init` builds.
pub mod Laws
use ceblar.Prelude.{
  ℕ, suc, ◌+◌, ◌-◌, ◌*◌, ◌/◌, ◌%◌, ◌^◌, ◌≤◌, ◌<◌, ◌≡◌, ◌≢◌, refl, bit_or, Bool, true, false, ◌&&◌,
  ◌||◌, not, ◌==◌, if◌then◌else◌, arith, update,
}
use ceblar.Prelude.Bits.{bit_or-div, bit_or-mod, bit_or_bit, bit_or-zero}

abbrev pub page_present : ℕ
page_present = 1

abbrev pub page_write : ℕ
page_write = 2

abbrev pub page_user : ℕ
page_user = 4

abbrev pub page_cow : ℕ
page_cow = 0x200

-- `virt >> 22` and `(virt >> 12) & 1023`.
abbrev pub directory_index : ℕ → ℕ
directory_index virt = virt / 2 ^ 22

abbrev pub table_index : ℕ → ℕ
table_index virt = virt / 2 ^ 12 % 2 ^ 10

-- `x & ~0xfff`, and the tests `pte & flag` for one-bit flags `2 ^ k`.
abbrev pub frame : ℕ → ℕ
frame x = x / 2 ^ 12 * 2 ^ 12

abbrev pub has : ℕ → ℕ → Bool
has k pte = pte / 2 ^ k % 2 == 1

abbrev pub is_present : ℕ → Bool
is_present = has 0

abbrev pub is_writable : ℕ → Bool
is_writable = has 1

abbrev pub is_user : ℕ → Bool
is_user = has 2

abbrev pub is_cow : ℕ → Bool
is_cow = has 9

-- The tables that `kernel_tables` points to; `first_table`, `heap_table` and `lapic_table` are 1, 2
-- and 3, and 0 is the null pointer.
pub record KernelTables : Type 0 where
  pub kernel_tables : ℕ → ℕ
  pub entries : ℕ → ℕ → ℕ

-- `(phys & ~0xfffu) | (flags | PAGE_PRESENT)`
abbrev pub kernel_pte : ℕ → ℕ → ℕ
kernel_pte phys flags = bit_or (frame phys) (bit_or flags page_present)

abbrev pub write_entry : KernelTables → ℕ → ℕ → ℕ → KernelTables
write_entry k t i v = record k { entries = update k.entries t (update (k.entries t) i v) }

unfoldable pub vmm_map : ℕ → ℕ → ℕ → KernelTables → KernelTables
vmm_map virt phys flags k =
    let t = k.kernel_tables (directory_index virt) in
    if t == 0 then k else write_entry k t (table_index virt) (kernel_pte phys flags)

unfoldable pub vmm_unmap : ℕ → KernelTables → KernelTables
vmm_unmap virt k =
    let t = k.kernel_tables (directory_index virt) in
    if t == 0 then k else write_entry k t (table_index virt) 0

unfoldable pub vmm_get_physical : ℕ → KernelTables → ℕ
vmm_get_physical virt k =
    let t = k.kernel_tables (directory_index virt) in
    if t == 0 || not (is_present (k.entries t (table_index virt)))
    then 0
    else bit_or (frame (k.entries t (table_index virt))) (virt % 2 ^ 12)

-- The tables after `vmm_init`: the first 4 MiB map to themselves, the heap's table is empty, and one
-- table serves both the local APIC's and the I/O APIC's directory entry.
unfoldable pub vmm_init : KernelTables
vmm_init = record {
  kernel_tables = λ d.
      if d == 0
      then 1
      else if d == directory_index 0xd0000000
      then 2
      else if d == directory_index 0xfee00000 || d == directory_index 0xfec00000
      then 3
      else 0;
  entries = λ t i.
      if t == 1
      then bit_or (bit_or (i * 4096) page_present) page_write
      else if t == 3 && i == table_index 0xfee00000
      then bit_or (bit_or 0xfee00000 page_present) page_write
      else if t == 3 && i == table_index 0xfec00000
      then bit_or (bit_or 0xfec00000 page_present) page_write
      else 0;
}
