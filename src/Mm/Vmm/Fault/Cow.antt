-- ===== src/Mm/Vmm/Fault/Cow.antt =====
-- Copy on write: `vmm_page_fault` on a write to a shared page.
use ceblar.Prelude.{
  ℕ, ◌*◌, ◌/◌, ◌%◌, ◌^◌, ◌<◌, ◌≡◌, ◌≢◌, refl, bit_or, true, false, ◌&&◌, ◌==◌, if◌then◌else◌,
  Option, none, some, update, update_self, arith, ℕ_discrete, inl, inr, ap, ◌∙◌, subst, max,
  Option-cases,
}
use ceblar.Prelude.Bits.{bit_or-div, bit_or-zero, bit_or_bit, frame-bit_or}
use ceblar.Mm.Pmm.{pmm_alloc_page, pmm_free_page, page_size}
use ceblar.Mm.Pmm.Spec.{view, released, is_managed, IsValid}
use ceblar.Mm.Pmm.Alloc.{pmm_alloc_page-Allocates, pmm_alloc_page-IsValid, view-free}
use ceblar.Mm.Pmm.Ledger.{total-alloc}
use ceblar.Mm.Vmm.Kernel.{
  KernelTables, page_present, page_write, page_user, has, is_present, is_user, is_writable, is_cow,
  vmm_map,
}
use ceblar.Mm.Vmm.Kernel.Laws.{get-vmm_map_same, tables-vmm_map}
use ceblar.Mm.Vmm.User.{
  vmm_max_vmas, AddressSpace, in_user_range, in_tables, slot_of, pte_at, write_pte,
  vmm_get_user_physical,
}
use ceblar.Mm.Vmm.Fault.{
  World, window, window_frame, find_vma, copy_on_write, protection_fault, fault_in, vmm_page_fault,
}

-- After the window is mapped to a frame it shows that frame.
window_frame-map :
    (q flags : ℕ) (k : KernelTables)
    → k.kernel_tables 0 ≢ 0
    → flags < 2 ^ 12
    → window_frame (vmm_map window (q * 2 ^ 12) flags k) ≡ q
window_frame-map q flags k ne small =
    let low : flags / 2 ^ 12 ≡ 0 = omega arith in
    let same : q * 2 ^ 12 / 2 ^ 12 ≡ q = omega arith in
    rw (get-vmm_map_same window (q * 2 ^ 12) flags k window ne refl, low, same, bit_or-zero q)
      (omega arith)

-- The entry of a private copy.
abbrev private_pte : ℕ → ℕ
private_pte a = bit_or (bit_or (bit_or a page_present) page_user) page_write

module _ (a : ℕ) (whole : a % 2 ^ 12 ≡ 0) where
  private_pte-bits :
      (is_present (private_pte a) ≡ true)
      × (is_user (private_pte a) ≡ true)
      × (is_writable (private_pte a) ≡ true)
      × (is_cow (private_pte a) ≡ false)
  private_pte-bits = (
    ground (arith, bits 0, bits' 0, bits'' 0),
    ground (arith, bits 2, bits' 2, bits'' 2),
    ground (arith, bits 1, bits' 1, bits'' 1),
    ground (arith, bits 9, bits' 9, bits'' 9),
  )
    where
      bits :
          (k : ℕ)
          → private_pte a / 2 ^ k % 2
            ≡ max (bit_or (bit_or a page_present) page_user / 2 ^ k % 2) (page_write / 2 ^ k % 2)
      bits k = bit_or_bit k (bit_or (bit_or a page_present) page_user) page_write

      bits' :
          (k : ℕ)
          → bit_or (bit_or a page_present) page_user / 2 ^ k % 2
            ≡ max (bit_or a page_present / 2 ^ k % 2) (page_user / 2 ^ k % 2)
      bits' k = bit_or_bit k (bit_or a page_present) page_user

      bits'' :
          (k : ℕ)
          → bit_or a page_present / 2 ^ k % 2 ≡ max (a / 2 ^ k % 2) (page_present / 2 ^ k % 2)
      bits'' k = bit_or_bit k a page_present

  private_pte-frame : private_pte a / 2 ^ 12 ≡ a / 2 ^ 12
  private_pte-frame =
      bit_or-div 12 (bit_or (bit_or a page_present) page_user) page_write
      ∙ bit_or-zero _
      ∙ bit_or-div 12 (bit_or a page_present) page_user
      ∙ bit_or-zero _
      ∙ bit_or-div 12 a page_present
      ∙ bit_or-zero _

-- Taking a free frame and dropping an owner of a held one are two frames' business.
take_then_drop :
    (f : ℕ → Option ℕ) (o p q n : ℕ)
    → f o ≡ some n
    → f p ≡ none
    → (if o == q
        then released (if p == q then some 1 else f q)
        else (if p == q then some 1 else f q))
      ≡ (if p == q then some 1 else if o == q then released (f q) else f q)
take_then_drop f o p q n held was =
    let apart : o ≢ p = λ e. ground (arith, subst (λ x. f x ≡ some n) e held) in
    elim (ℕ_discrete o q) [ yes e ↦ ground (arith, apart) | no e ↦ ground arith ]

-- A write fault at `page` of space `i`: the space is current, the entry is present, a user's and
-- marked copy-on-write, its frame is held and not frame 0, the kernel's first table is there, and a
-- frame is free.
pub record SharedPage (w : World) (i page owners : ℕ) : Type 0 where
  pub valid : IsValid w.pmm
  pub current : w.current_space ≡ some i
  pub aligned : page % 2 ^ 12 ≡ 0
  pub mapped : in_user_range page && in_tables page && (w.spaces i).table_used (slot_of page) ≡ true
  pub present : is_present (pte_at (w.spaces i) page) ≡ true
  pub user : is_user (pte_at (w.spaces i) page) ≡ true
  pub cow : is_cow (pte_at (w.spaces i) page) ≡ true
  pub managed : is_managed w.pmm (pte_at (w.spaces i) page / 2 ^ 12) ≡ true
  pub held : view w.pmm (pte_at (w.spaces i) page / 2 ^ 12) ≡ some owners
  pub low_table : w.kernel.kernel_tables 0 ≢ 0
  pub room : (pmm_alloc_page w.pmm).0 ≢ 0

module _ (w : World) (i page owners : ℕ) (s : SharedPage w i page owners) where
  has_frame : vmm_get_user_physical page (w.spaces i) == 0 ≡ false
  unfolding vmm_get_user_physical
  has_frame =
      rw (s.mapped, s.present, s.user)
        (ground (
          arith,
          s.managed,
          frame-bit_or (pte_at (w.spaces i) page / 2 ^ 12) (page % 2 ^ 12) (omega arith),
        ))

  protection_fault-cow :
      (error : ℕ)
      → has 1 error ≡ true
      → has 2 error ≡ true
      → protection_fault w i error page ≡ copy_on_write w i page
  unfolding protection_fault
  protection_fault-cow error e1 e2 = ground (arith, s.mapped, s.cow, s.present, e1, e2)

  fault_in-cow :
      (error : ℕ)
      → has 1 error ≡ true
      → has 2 error ≡ true
      → fault_in w i error page ≡ copy_on_write w i page
  unfolding fault_in
  fault_in-cow error e1 e2 =
      let tables : in_tables page ≡ true = ground (arith, s.mapped) in
      let protect = protection_fault-cow error e1 e2 in
      elim (Option-cases (find_vma vmm_max_vmas 0 (w.spaces i) page)) [
        | inl e ↦ rw (tables, e) protect
        | inr (v, e) ↦ rw (tables, e, has_frame) protect
      ]

  page_fault-cow :
      (cr2 error : ℕ)
      → has 1 error ≡ true
      → has 2 error ≡ true
      → vmm_page_fault cr2 error page w ≡ copy_on_write w i page
  unfolding vmm_page_fault
  page_fault-cow cr2 error e1 e2 =
      let set : page == 0 ≡ false = ground (arith, s.mapped) in
      let same : page / 2 ^ 12 * 2 ^ 12 ≡ page = omega (arith, s.aligned) in
      ground (arith, s.current, set, same, fault_in-cow error e1 e2)

  old_frame : ℕ
  old_frame = pte_at (w.spaces i) page / 2 ^ 12

  copied_world : ℕ → World
  copied_world p = record w {
    pmm = pmm_free_page (old_frame * 2 ^ 12) (pmm_alloc_page w.pmm).1;
    kernel =
        vmm_map window window page_write
          (vmm_map window (p * 2 ^ 12) page_write (vmm_map window (old_frame * 2 ^ 12) 0 w.kernel));
    contents = update w.contents p (w.contents old_frame);
    spaces = update w.spaces i (write_pte (w.spaces i) page (private_pte (p * 2 ^ 12)));
  }

  copy_on_write-copied :
      (p : ℕ)
      → (pmm_alloc_page w.pmm).0 ≡ p * 2 ^ 12
      → copy_on_write w i page ≡ some (copied_world p)
  unfolding copy_on_write copied_world old_frame
  copy_on_write-copied p e =
      let found : (pmm_alloc_page w.pmm).0 == 0 ≡ false = ground (arith, s.room) in
      let k₁ : KernelTables = vmm_map window (old_frame * 2 ^ 12) 0 w.kernel in
      let table : k₁.kernel_tables 0 ≢ 0 =
        rw (tables-vmm_map window (old_frame * 2 ^ 12) 0 w.kernel) s.low_table in
      rw (
        found,
        e,
        window_frame-map old_frame 0 w.kernel s.low_table (omega arith),
        window_frame-map p page_write k₁ table (omega arith),
      )

  private_lookup :
      (p : ℕ)
      → let t = write_pte (w.spaces i) page (private_pte (p * 2 ^ 12)) in
        vmm_get_user_physical page t ≡ p * 2 ^ 12
  unfolding vmm_get_user_physical
  private_lookup p =
      let a : ℕ = p * 2 ^ 12 in
      let whole : a % 2 ^ 12 ≡ 0 = omega arith in
      let (present, user, writable, cow) = private_pte-bits a whole in
      let t : AddressSpace = write_pte (w.spaces i) page (private_pte a) in
      let entry : pte_at t page ≡ private_pte a = ground arith in
      let page_low : page % 2 ^ 12 ≡ 0 = s.aligned in
      rw (s.mapped, entry, present, user, private_pte-frame a whole, page_low, bit_or-zero _)
        (omega arith)

  view-copied :
      (p q : ℕ)
      → (pmm_alloc_page w.pmm).0 ≡ p * 2 ^ 12
      → view w.pmm p ≡ none
      → ((r : ℕ) → view (pmm_alloc_page w.pmm).1 r ≡ (if p == r then some 1 else view w.pmm r))
      → view (copied_world p).pmm q ≡ (
          if p == q
          then some 1
          else if old_frame == q
          then released (view w.pmm q)
          else view w.pmm q)
  unfolding copied_world old_frame
  view-copied p q e was now =
      let frame_of : pte_at (w.spaces i) page / 2 ^ 12 * 2 ^ 12 / page_size
          ≡ pte_at (w.spaces i) page / 2 ^ 12 =
        omega arith in
      rw
        (
          view-free (pmm_alloc_page w.pmm).1 (pmm_alloc_page-IsValid w.pmm s.valid)
              (pte_at (w.spaces i) page / 2 ^ 12 * 2 ^ 12) q,
          frame_of,
          total-alloc w.pmm,
          now q,
          s.managed,
        )
        (take_then_drop (view w.pmm) old_frame p q owners s.held was)

  -- A write fault on a shared page (`SharedPage`) is handled: the page gets a frame that was free,
  -- with the bytes of the old one, and a writable entry without the copy-on-write mark; no other
  -- frame's bytes and no other space change; the new frame has one owner and the old one loses one.
  pub cow_fault_copies :
      (cr2 error : ℕ)
      → has 1 error ≡ true
      → has 2 error ≡ true
      → (w' : World) × (p : ℕ) × (vmm_page_fault cr2 error page w ≡ some w')
        × (view w.pmm p ≡ none)
        × (vmm_get_user_physical page (w'.spaces i) ≡ p * 2 ^ 12)
        × (is_writable (pte_at (w'.spaces i) page) ≡ true)
        × (is_cow (pte_at (w'.spaces i) page) ≡ false)
        × (w'.contents p ≡ w.contents (pte_at (w.spaces i) page / 2 ^ 12))
        × ((f : ℕ) → f ≢ p → w'.contents f ≡ w.contents f)
        × ((j : ℕ) → j ≢ i → w'.spaces j ≡ w.spaces j)
        × ((q : ℕ)
            → view w'.pmm q ≡ (
                if p == q
                then some 1
                else if pte_at (w.spaces i) page / 2 ^ 12 == q
                then released (view w.pmm q)
                else view w.pmm q))
  unfolding copied_world old_frame
  cow_fault_copies cr2 error e1 e2 = elim (pmm_alloc_page-Allocates w.pmm s.valid) [
    | inl (e, all) ↦ absurd (s.room (ap (λ r. r.0) e))
    | inr (p, pos, lt, was, low, e, now) ↦
        let self =
          update_self w.spaces i (write_pte (w.spaces i) page (private_pte (p * 2 ^ 12))) in
        let (present, user, writable, cow) = private_pte-bits (p * 2 ^ 12) (omega arith) in
        (
          copied_world p,
          p,
          page_fault-cow cr2 error e1 e2 ∙ copy_on_write-copied p e,
          was,
          rw self (private_lookup p),
          ground (arith, writable),
          ground (arith, cow),
          ground arith,
          (λ f ne. ground arith),
          (λ j ne. ground arith),
          (λ q. view-copied p q e was now),
        )
  ]
