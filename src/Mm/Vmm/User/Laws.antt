-- ===== src/Mm/Vmm/User/Laws.antt =====
-- Mapping, looking up and unmapping one user page.
use ceblar.Prelude.{ℕ, ◌+◌, ◌*◌, ◌/◌, ◌%◌, ◌^◌, ◌≡◌, ◌≢◌, bit_or, true, false, ◌&&◌, some, arith}
use ceblar.Prelude.Bits.{bit_or-div, bit_or_bit, bit_or-zero, frame-bit_or}
use ceblar.Mm.Pmm.{Pmm, pmm_free_page}
use ceblar.Mm.Vmm.Kernel.{page_present, page_user, table_index, frame, is_present, is_user}
use ceblar.Mm.Vmm.User.{
  AddressSpace, in_user_range, in_tables, slot_of, user_pte, pte_at, write_pte, vmm_map_user,
  vmm_unmap_user, vmm_get_user_physical,
}

module _ (phys flags : ℕ) where
  user_pte-present : is_present (user_pte phys flags) ≡ true
  user_pte-present = ground (
    arith,
    bit_or_bit 0 (frame phys) (bit_or (bit_or flags page_present) page_user),
    bit_or_bit 0 (bit_or flags page_present) page_user,
    bit_or_bit 0 flags page_present,
  )

  user_pte-user : is_user (user_pte phys flags) ≡ true
  user_pte-user = ground (
    arith,
    bit_or_bit 2 (frame phys) (bit_or (bit_or flags page_present) page_user),
    bit_or_bit 2 (bit_or flags page_present) page_user,
  )

  -- The frame field of an entry: that of the physical address, with the high bits of `flags`.
  pub user_pte-frame : user_pte phys flags / 2 ^ 12 ≡ bit_or (phys / 2 ^ 12) (flags / 2 ^ 12)
  user_pte-frame = ground (
    arith,
    bit_or-div 12 (frame phys) (bit_or (bit_or flags page_present) page_user),
    bit_or-div 12 (bit_or flags page_present) page_user,
    bit_or-div 12 flags page_present,
    bit_or-zero (flags / 2 ^ 12),
  )

-- A table that is not in use has no entries.
pub record IsClean (s : AddressSpace) : Type 0 where
  pub unused_empty : (t i : ℕ) → s.table_used t ≡ false → s.user_tables t i ≡ 0

pub vmm_map_user-IsClean :
    (virt phys flags : ℕ) (s : AddressSpace) {t : AddressSpace}
    → IsClean s
    → vmm_map_user virt phys flags s ≡ some t
    → IsClean t
unfolding vmm_map_user
vmm_map_user-IsClean virt phys flags s c e = record {
  unused_empty = λ t i. ground (arith, c.unused_empty t i);
}

module _ (virt phys flags : ℕ) (s : AddressSpace) {t : AddressSpace}
    (e : vmm_map_user virt phys flags s ≡ some t) where
  pte_at-map : pte_at t virt ≡ user_pte phys flags
  unfolding vmm_map_user
  pte_at-map = ground arith

  mapped_lookup :
      (w : ℕ)
      → w / 2 ^ 12 ≡ virt / 2 ^ 12
      → (in_user_range w && in_tables w && t.table_used (slot_of w) ≡ true)
        × (pte_at t w ≡ user_pte phys flags)
  unfolding vmm_map_user
  mapped_lookup w same = (ground arith, ground arith)

  -- After `vmm_map_user` of a page, every address in it has for its physical frame the frame of
  -- `phys`, to which `|` adds the bits of `flags` above the low twelve.
  pub get-map_same :
      (w : ℕ)
      → w / 2 ^ 12 ≡ virt / 2 ^ 12
      → vmm_get_user_physical w t ≡ bit_or (phys / 2 ^ 12) (flags / 2 ^ 12) * 2 ^ 12 + w % 2 ^ 12
  unfolding vmm_get_user_physical
  get-map_same w same =
      let (mapped, entry) = mapped_lookup w same in
      rw (
        mapped,
        entry,
        user_pte-present phys flags,
        user_pte-user phys flags,
        frame-bit_or (user_pte phys flags / 2 ^ 12) (w % 2 ^ 12) (omega arith),
        user_pte-frame phys flags,
      )

  -- In a space whose unused tables are empty, `vmm_map_user` changes the lookup of no other page.
  pub get-map_other :
      IsClean s
      → (w : ℕ) → w / 2 ^ 12 ≢ virt / 2 ^ 12
      → vmm_get_user_physical w t ≡ vmm_get_user_physical w s
  unfolding vmm_map_user vmm_get_user_physical
  get-map_other c w other = ground (arith, c.unused_empty (slot_of w) (table_index w))

  -- `vmm_unmap_user` after `vmm_map_user` succeeds, gives back the frame that the entry held, and
  -- leaves every address of the page without a physical address.
  pub unmap-map :
      (m : Pmm)
      → (u : AddressSpace) × (vmm_unmap_user virt t m
          ≡ some (u, pmm_free_page (bit_or (phys / 2 ^ 12) (flags / 2 ^ 12) * 2 ^ 12) m))
        × ((w : ℕ) → w / 2 ^ 12 ≡ virt / 2 ^ 12 → vmm_get_user_physical w u ≡ 0)
  unfolding vmm_map_user vmm_unmap_user vmm_get_user_physical
  unmap-map m = (
    write_pte t virt 0,
    ground (arith, user_pte-present phys flags, user_pte-frame phys flags),
    λ w same. ground arith,
  )
