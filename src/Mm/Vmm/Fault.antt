-- ===== src/Mm/Vmm/Fault.antt =====
-- `vmm_page_fault` of mm/vmm.c: demand paging and copy on write, with the contents of the physical
-- frames. The code reaches a frame's bytes through the window at 0x003ff000 of the kernel's tables.
pub mod Cow
pub mod Lazy
use ceblar.Prelude.{
  ℕ, zero, suc, ◌+◌, ◌-◌, ◌*◌, ◌/◌, ◌%◌, ◌^◌, bit_or, Bool, true, false, ◌&&◌, ◌||◌, not, ◌==◌, ltb,
  leb, if◌then◌else◌, Option, none, some, update,
}
use ceblar.Mm.Pmm.{Pmm, pmm_alloc_page, pmm_free_page, page_size}
use ceblar.Mm.Vmm.Kernel.{
  KernelTables, page_present, page_write, page_user, frame, has, is_present, is_cow, vmm_map,
  vmm_get_physical,
}
use ceblar.Mm.Vmm.User.{
  Vma, vmm_max_vmas, AddressSpace, in_tables, slot_of, pte_at, write_pte, vmm_map_user,
  vmm_get_user_physical,
}

-- What the functions of vmm.c share: the frame allocator, the kernel's tables, the bytes of each
-- frame by its number, the array `spaces`, the flags `space_used`, and `current_space` by its index.
pub record World : Type 0 where
  pub pmm : Pmm
  pub kernel : KernelTables
  pub contents : ℕ → ℕ → ℕ
  pub spaces : ℕ → AddressSpace
  pub space_used : ℕ → Bool
  pub current_space : Option ℕ

abbrev pub window : ℕ
window = 0x003ff000

-- The frame that the window shows.
abbrev pub window_frame : KernelTables → ℕ
window_frame k = vmm_get_physical window k / page_size

-- The first area, of the `n` from number `i` on, that is in use and holds the address.
unfoldable pub find_vma : ℕ → ℕ → AddressSpace → ℕ → Option Vma
find_vma zero i s page = none
find_vma (suc n) i s page =
    let rest = find_vma n (i + 1) s page in
    if (s.vmas i).used && leb (s.vmas i).start page && ltb page (s.vmas i).end
    then some (s.vmas i)
    else rest

abbrev pub zeroes : ℕ → ℕ
zeroes o = 0

-- A call of `vmm_map_user` whose result is not looked at.
abbrev pub after_map : AddressSpace → Option AddressSpace → AddressSpace
after_map s none = s
after_map s (some t) = t

-- The demand page: the window's frame is cleared, the window then shows the new page, which is
-- entered in the space and handed to `pmm_free_page`.
unfoldable pub demand_page : World → ℕ → Vma → ℕ → Option World
demand_page w i v page =
    let (new_page, m) = pmm_alloc_page w.pmm in
    if new_page == 0
    then none
    else let cleared = update w.contents (window_frame w.kernel) zeroes in
      let k = vmm_map window new_page page_write w.kernel in
      let s =
        after_map (w.spaces i)
          (vmm_map_user page new_page (bit_or v.flags page_write) (w.spaces i)) in
      some (record w {
        pmm = pmm_free_page new_page m;
        kernel = k;
        contents = cleared;
        spaces = update w.spaces i s;
      })

-- Copy on write: a new page with the bytes of the shared one takes its place in the entry.
unfoldable pub copy_on_write : World → ℕ → ℕ → Option World
copy_on_write w i page =
    let pte = pte_at (w.spaces i) page in
    let (new_page, m) = pmm_alloc_page w.pmm in
    if new_page == 0
    then none
    else let k₁ = vmm_map window (frame pte) 0 w.kernel in
      let copy_page = w.contents (window_frame k₁) in
      let k₂ = vmm_map window new_page page_write k₁ in
      let copied = update w.contents (window_frame k₂) copy_page in
      let k₃ = vmm_map window window page_write k₂ in
      let entry = bit_or (bit_or (bit_or new_page page_present) page_user) page_write in
      some (record w {
        pmm = pmm_free_page (frame pte) m;
        kernel = k₃;
        contents = copied;
        spaces = update w.spaces i (write_pte (w.spaces i) page entry);
      })

-- The part of the handler behind the search for a demand page; `none` is the panic at its end.
unfoldable pub protection_fault : World → ℕ → ℕ → ℕ → Option World
protection_fault w i error page =
    if has 1 error
      && has 2 error
      && in_tables page
      && (w.spaces i).table_used (slot_of page)
      && is_cow (pte_at (w.spaces i) page)
      && is_present (pte_at (w.spaces i) page)
    then copy_on_write w i page
    else none

unfoldable pub fault_in : World → ℕ → ℕ → ℕ → Option World
fault_in w i error page =
    if in_tables page
    then (elim (find_vma vmm_max_vmas 0 (w.spaces i) page) [
      | none ↦ protection_fault w i error page
      | some v ↦
          if vmm_get_user_physical page (w.spaces i) == 0
          then demand_page w i v page
          else protection_fault w i error page
    ])
    else none

-- `cr2` is the address that the processor reports.
unfoldable pub vmm_page_fault : ℕ → ℕ → ℕ → World → Option World
vmm_page_fault cr2 error address w = elim w.current_space [
  | none ↦ none
  | some i ↦ fault_in w i error (frame (if address == 0 then cr2 else address))
]
