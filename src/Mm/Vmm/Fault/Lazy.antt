-- ===== src/Mm/Vmm/Fault/Lazy.antt =====
-- Demand paging: what `vmm_page_fault` leaves behind when it fills a page of a lazy area.
use ceblar.Prelude.{
  ℕ, ◌*◌, ◌/◌, ◌%◌, ◌^◌, ◌<◌, ◌≡◌, ◌≢◌, refl, bit_or, true, false, ◌&&◌, ◌==◌, none, some, update,
  update_self, arith, inl, inr, ap, ◌∙◌,
}
use ceblar.Prelude.Bits.{bit_or-div, bit_or-zero}
use ceblar.Mm.Pmm.{Pmm, pmm_alloc_page, pmm_free_page, page_size}
use ceblar.Mm.Pmm.Spec.{view, IsValid}
use ceblar.Mm.Pmm.Alloc.{pmm_alloc_page-Allocates}
use ceblar.Mm.Pmm.Ledger.{free-alloc}
use ceblar.Mm.Vmm.Kernel.{page_write, vmm_map}
use ceblar.Mm.Vmm.User.{
  Vma, vmm_max_vmas, AddressSpace, in_user_range, in_tables, write_pte, use_table, user_pte,
  vmm_map_user, vmm_get_user_physical,
}
use ceblar.Mm.Vmm.User.Laws.{get-map_same}
use ceblar.Mm.Vmm.Fault.{
  World, window, window_frame, find_vma, zeroes, demand_page, fault_in, vmm_page_fault,
}

map_user_some :
    (virt phys flags : ℕ) (s : AddressSpace)
    → in_user_range virt && in_tables virt ≡ true
    → (t : AddressSpace) × (vmm_map_user virt phys flags s ≡ some t)
unfolding vmm_map_user
map_user_some virt phys flags s h = (write_pte (use_table s virt) virt (user_pte phys flags), rw h)

-- A demand fault at `page` of space `i`: the space is current, the page lies in the user's tables and
-- in an area whose flags have no bit above the low twelve, it has no frame, and a frame is free.
pub record Demand (w : World) (i page : ℕ) (v : Vma) : Type 0 where
  pub valid : IsValid w.pmm
  pub current : w.current_space ≡ some i
  pub aligned : page % 2 ^ 12 ≡ 0
  pub nonzero : 0 < page
  pub mappable : in_user_range page && in_tables page ≡ true
  pub area : find_vma vmm_max_vmas 0 (w.spaces i) page ≡ some v
  pub plain : v.flags < 2 ^ 12
  pub absent : vmm_get_user_physical page (w.spaces i) ≡ 0
  pub room : (pmm_alloc_page w.pmm).0 ≢ 0

demand_page_result :
    (w : World) (i page : ℕ) (v : Vma) (t : AddressSpace)
    → (pmm_alloc_page w.pmm).0 ≢ 0
    → vmm_map_user page (pmm_alloc_page w.pmm).0 (bit_or v.flags page_write) (w.spaces i) ≡ some t
    → demand_page w i v page
      ≡ some (record w {
        pmm = pmm_free_page (pmm_alloc_page w.pmm).0 (pmm_alloc_page w.pmm).1;
        kernel = vmm_map window (pmm_alloc_page w.pmm).0 page_write w.kernel;
        contents = update w.contents (window_frame w.kernel) zeroes;
        spaces = update w.spaces i t;
      })
unfolding demand_page
demand_page_result w i page v t room e =
    let found : (pmm_alloc_page w.pmm).0 == 0 ≡ false = ground arith in rw (found, e)

-- The address that a successful allocation returns is that of a free frame, and ends in twelve zeros.
alloc_free_frame :
    (m : Pmm)
    → IsValid m
    → (pmm_alloc_page m).0 ≢ 0
    → (view m ((pmm_alloc_page m).0 / page_size) ≡ none)
      × ((pmm_alloc_page m).0 / 2 ^ 12 * 2 ^ 12 ≡ (pmm_alloc_page m).0)
alloc_free_frame m v room = elim (pmm_alloc_page-Allocates m v) [
  | inl (e, all) ↦ absurd (room (ap (λ r. r.0) e))
  | inr (p, pos, lt, was, low, e, now) ↦
      (rw (let same : (pmm_alloc_page m).0 / page_size ≡ p = omega arith in same) was, omega arith)
]

module _ (w : World) (i page : ℕ) (v : Vma) (d : Demand w i page v) where
  fault_in-demand : (error : ℕ) → fault_in w i error page ≡ demand_page w i v page
  unfolding fault_in
  fault_in-demand error =
      let tables : in_tables page ≡ true = ground (arith, d.mappable) in
      rw (tables, d.area, d.absent)

  page_fault-demand : (cr2 error : ℕ) → vmm_page_fault cr2 error page w ≡ demand_page w i v page
  unfolding vmm_page_fault
  page_fault-demand cr2 error =
      let set : page == 0 ≡ false = ground (arith, d.nonzero) in
      let same : page / 2 ^ 12 * 2 ^ 12 ≡ page = omega (arith, d.aligned) in
      ground (arith, d.current, set, same, fault_in-demand error)

  -- A demand fault (`Demand`: a lazy area with flags below 2 ^ 12, a page without a frame, a free
  -- frame at hand) is handled, and maps the page to the frame that the allocator returned, but every
  -- frame is as free or as held as before: the mapped frame itself is free again.
  pub lazy_page_unowned :
      (cr2 error : ℕ)
      → (w' : World) × (vmm_page_fault cr2 error page w ≡ some w')
        × (vmm_get_user_physical page (w'.spaces i) ≡ (pmm_alloc_page w.pmm).0)
        × ((q : ℕ) → view w'.pmm q ≡ view w.pmm q)
        × (view w'.pmm (vmm_get_user_physical page (w'.spaces i) / page_size) ≡ none)
  lazy_page_unowned cr2 error =
      let a : ℕ = (pmm_alloc_page w.pmm).0 in
      let flags : ℕ = bit_or v.flags page_write in
      let (t, mapped) = map_user_some page a flags (w.spaces i) d.mappable in
      let (free, whole) = alloc_free_frame w.pmm d.valid d.room in
      let low : v.flags / 2 ^ 12 ≡ 0 = omega (arith, d.plain) in
      let plain : flags / 2 ^ 12 ≡ 0 = bit_or-div 12 v.flags page_write ∙ rw low (bit_or-zero 0) in
      let found : vmm_get_user_physical page t ≡ a =
        get-map_same page a flags (w.spaces i) mapped page refl
        ∙ rw (plain, bit_or-zero (a / 2 ^ 12), d.aligned) (omega arith) in
      let self = update_self w.spaces i t in
      (
        record w {
          pmm = pmm_free_page a (pmm_alloc_page w.pmm).1;
          kernel = vmm_map window a page_write w.kernel;
          contents = update w.contents (window_frame w.kernel) zeroes;
          spaces = update w.spaces i t;
        },
        page_fault-demand cr2 error ∙ demand_page_result w i page v t d.room mapped,
        rw self found,
        free-alloc w.pmm d.valid d.room,
        rw (self, found) (free-alloc w.pmm d.valid d.room (a / page_size) ∙ free),
      )
