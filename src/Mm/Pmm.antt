-- ===== src/Mm/Pmm.antt =====
-- mm/pmm.c: the physical page allocator. The file's static variables are the fields of `Pmm`, and
-- each function takes the state and returns the new one.
pub mod Bits
pub mod Spec
pub mod Alloc
pub mod Ledger
mod Tests
use ceblar.Prelude.{
  ℕ, zero, suc, ◌+◌, ◌-◌, ◌*◌, ◌/◌, ◌%◌, ◌^◌, ◌<◌, bit_and, bit_or, Bool, true, false, ◌&&◌, not,
  ◌==◌, ltb, if◌then◌else◌, update, add32, sub32, mul32,
}

abbrev pub page_size : ℕ
page_size = 4096

abbrev pub max_phys_pages : ℕ
max_phys_pages = 65536

-- The static variables of pmm.c, less the lock.
pub record Pmm : Type 0 where
  pub page_bitmap : ℕ → ℕ
  pub page_refs : ℕ → ℕ
  pub total_pages_count : ℕ
  pub used_pages_count : ℕ

-- `1u << (p & 7)` in a byte.
abbrev pub page_mask : ℕ → ℕ
page_mask p = 2 ^ (p % 8)

unfoldable pub bit_set : ℕ → Pmm → Pmm
bit_set p s = record s {
  page_bitmap = update s.page_bitmap (p / 8) (bit_or (s.page_bitmap (p / 8)) (page_mask p));
}

unfoldable pub bit_clear : ℕ → Pmm → Pmm
bit_clear p s = record s {
  page_bitmap = update s.page_bitmap (p / 8) (bit_and (s.page_bitmap (p / 8)) (255 - page_mask p));
}

unfoldable pub bit_test : ℕ → Pmm → Bool
bit_test p s = (s.page_bitmap (p / 8) / page_mask p) % 2 == 1

-- The body of the loop of `pmm_alloc_page` at a clear bit, up to its `break`.
unfoldable pub take_page : ℕ → Pmm → Pmm
take_page p s =
    let t = bit_set p s in
    record t { page_refs = update t.page_refs p 1; used_pages_count = add32 t.used_pages_count 1 }

-- `for (p = 1; p < total_pages_count; p++)`, by the rounds left.
unfoldable pub alloc_from : ℕ → ℕ → Pmm → ℕ × Pmm
alloc_from zero p s = (0, s)
alloc_from (suc n) p s =
    let rest = alloc_from n (p + 1) s in
    if bit_test p s then rest else (mul32 p page_size, take_page p s)

unfoldable pub pmm_alloc_page : Pmm → ℕ × Pmm
pmm_alloc_page s = alloc_from (s.total_pages_count - 1) 1 s

unfoldable pub pmm_retain_page : ℕ → Pmm → Pmm
pmm_retain_page a s =
    let p = a / page_size in
    if ltb 0 p && ltb p s.total_pages_count && bit_test p s && not (s.page_refs p == 0xffff)
    then record s { page_refs = update s.page_refs p (s.page_refs p + 1) }
    else s

-- The two branches of `pmm_free_page`: a page with more than one owner, and the last owner.
unfoldable pub drop_ref : ℕ → Pmm → Pmm
drop_ref p s =
    if ltb 1 (s.page_refs p)
    then record s { page_refs = update s.page_refs p (s.page_refs p - 1) }
    else let t = bit_clear p (record s { page_refs = update s.page_refs p 0 }) in
      record t { used_pages_count = t.used_pages_count - 1 }

unfoldable pub pmm_free_page : ℕ → Pmm → Pmm
pmm_free_page a s =
    let p = a / page_size in
    if ltb 0 p && ltb p s.total_pages_count && bit_test p s then drop_ref p s else s

pub pmm_total_pages : Pmm → ℕ
pmm_total_pages s = s.total_pages_count

pub pmm_used_pages : Pmm → ℕ
pmm_used_pages s = s.used_pages_count

pub pmm_free_pages : Pmm → ℕ
pmm_free_pages s = sub32 s.total_pages_count s.used_pages_count
