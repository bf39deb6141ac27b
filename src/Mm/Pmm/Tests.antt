-- ===== src/Mm/Pmm/Tests.antt =====
-- The theorems about mm/pmm.c at a small machine: of pages 0 to 3, pages 1 to 3 are free.
use ceblar.Prelude.{
  ℕ, ◌*◌, ◌/◌, ◌≡◌, ◌≢◌, refl, ◌&&◌, if◌then◌else◌, ◌==◌, some, [], ◌∷◌, Every, arith, count_below,
}
use ceblar.Mm.Pmm.{
  Pmm, page_size, max_phys_pages, bit_test, bit_set, bit_clear, drop_ref, take_page, alloc_from,
  pmm_alloc_page, pmm_free_page,
}
use ceblar.Mm.Pmm.Spec.{view, released, is_managed, IsValid, Accounts, alloc, free, step, run}
use ceblar.Mm.Pmm.Alloc.{Allocates, pmm_alloc_page-Allocates, view-free, pmm_alloc_page-IsValid}
use ceblar.Mm.Pmm.Ledger.{held_not_reused}

abbrev boot : Pmm
boot = record {
  page_bitmap = λ i. if i == 0 then 0xf1 else 0xff;
  page_refs = λ p. 0;
  total_pages_count = 4;
  used_pages_count = 0;
}

-- The set bits that are no allocation of the machine at boot.
abbrev reserved : ℕ
reserved = count_below max_phys_pages (λ p. bit_test p boot)

boot-IsValid : IsValid boot
boot-IsValid = record {
  bytes = λ i. ground arith;
  small = omega arith;
  unowned = λ p e. refl;
  refs_small = λ p. omega arith;
}

boot-Accounts : Accounts reserved boot
boot-Accounts = omega arith

abbrev one_taken : Pmm
one_taken = (pmm_alloc_page boot).1

one_taken-IsValid : IsValid one_taken
one_taken-IsValid = pmm_alloc_page-IsValid boot boot-IsValid

one_taken-view : view one_taken 1 ≡ some 1
unfolding pmm_alloc_page alloc_from take_page bit_set bit_test
one_taken-view = refl

one_taken_used : one_taken.used_pages_count ≡ 1
unfolding pmm_alloc_page alloc_from take_page bit_set bit_test
one_taken_used = refl

first_pages :
    (run (alloc ∷ alloc ∷ free 4096 ∷ alloc ∷ alloc ∷ alloc ∷ []) boot).0
    ≡ 4096 ∷ 8192 ∷ 0 ∷ 4096 ∷ 12288 ∷ 0 ∷ []
unfolding run step pmm_alloc_page alloc_from take_page bit_set bit_test pmm_free_page drop_ref
    bit_clear
first_pages = refl

pmm_alloc_page-Allocates_example : Allocates boot (pmm_alloc_page boot)
pmm_alloc_page-Allocates_example = pmm_alloc_page-Allocates boot boot-IsValid

view-free_example : view (pmm_free_page 4096 one_taken) 1 ≡ (
    if is_managed one_taken (4096 / page_size) && (4096 / page_size == 1)
    then released (view one_taken 1)
    else view one_taken 1)
view-free_example = view-free one_taken one_taken-IsValid 4096 1

first_alloc_succeeds : (pmm_alloc_page boot).0 ≢ 0
unfolding pmm_alloc_page alloc_from take_page bit_set bit_test
first_alloc_succeeds = omega arith

held_not_reused_example :
    Every (λ a. a ≢ 1 * page_size) (run (alloc ∷ free 8192 ∷ alloc ∷ []) one_taken).0
held_not_reused_example =
    held_not_reused 1 (alloc ∷ free 8192 ∷ alloc ∷ []) one_taken one_taken-IsValid (omega arith)
      (ground (arith, one_taken-view)) (ground arith)
