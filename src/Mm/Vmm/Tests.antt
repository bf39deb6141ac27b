-- ===== src/Mm/Vmm/Tests.antt =====
-- The theorems about mm/vmm.c at one small address space.
use ceblar.Prelude.{
  ℕ, ◌*◌, ◌/◌, ◌%◌, ◌+◌, ◌^◌, ◌≡◌, ◌≢◌, refl, bit_or, true, false, ◌==◌, if◌then◌else◌, none, some,
  arith,
}
use ceblar.Mm.Pmm.{
  Pmm, page_size, pmm_alloc_page, pmm_free_page, alloc_from, take_page, bit_set, bit_test,
}
use ceblar.Mm.Pmm.Spec.{view, released, IsValid}
use ceblar.Mm.Pmm.Alloc.{pmm_alloc_page-IsValid}
use ceblar.Mm.Vmm.Kernel.{vmm_init, vmm_map, vmm_get_physical, is_writable, is_cow}
use ceblar.Mm.Vmm.Kernel.Laws.{vmm_map_missing}
use ceblar.Mm.Vmm.User.{
  AddressSpace, pte_at, write_pte, use_table, user_pte, vmm_map_user, vmm_unmap_user,
  vmm_get_user_physical,
}
use ceblar.Mm.Vmm.User.Laws.{IsClean, get-map_same, get-map_other, unmap-map}
use ceblar.Mm.Vmm.Fault.{World, find_vma, vmm_page_fault}
use ceblar.Mm.Vmm.Fault.Lazy.{Demand, lazy_page_unowned}
use ceblar.Mm.Vmm.Fault.Cow.{SharedPage, cow_fault_copies}

-- Of pages 0 to 3, pages 1 to 3 are free.
abbrev frames : Pmm
frames = record {
  page_bitmap = λ i. if i == 0 then 0xf1 else 0xff;
  page_refs = λ p. 0;
  total_pages_count = 4;
  used_pages_count = 0;
}

frames-IsValid : IsValid frames
frames-IsValid = record {
  bytes = λ i. ground arith;
  small = omega arith;
  unowned = λ p e. refl;
  refs_small = λ p. omega arith;
}

-- A space without pages, and with one area from 0x400000 to 0x500000.
abbrev one_area : AddressSpace
one_area = record {
  page_directory = λ d. 0;
  user_tables = λ t i. 0;
  table_used = λ t. false;
  vmas = λ n. record { start = 0x400000; end = 0x500000; flags = 0; used = n == 0 };
  refs = 1;
  tables_at = 0x200000;
}

one_area-IsClean : IsClean one_area
one_area-IsClean = record { unused_empty = λ t i e. refl }

abbrev mapped : AddressSpace
mapped = write_pte (use_table one_area 0x401000) 0x401000 (user_pte 0x3000 2)

mapped_by : vmm_map_user 0x401000 0x3000 2 one_area ≡ some mapped
unfolding vmm_map_user
mapped_by = refl

abbrev idle : World
idle = record {
  pmm = frames;
  kernel = vmm_init;
  contents = λ f o. f;
  spaces = λ i. one_area;
  space_used = λ i. true;
  current_space = some 0;
}

idle-Demand :
    Demand idle 0 0x401000 (record { start = 0x400000; end = 0x500000; flags = 0; used = true })
unfolding find_vma vmm_get_user_physical pmm_alloc_page alloc_from take_page bit_set bit_test
idle-Demand = record {
  valid = frames-IsValid;
  current = refl;
  aligned = refl;
  nonzero = omega arith;
  mappable = refl;
  area = refl;
  plain = omega arith;
  absent = refl;
  room = omega arith;
}

-- Page 1 is held and is mapped, marked copy-on-write, at 0x401000.
abbrev shared : World
shared = record idle {
  pmm = (pmm_alloc_page frames).1;
  spaces = λ i. write_pte (use_table one_area 0x401000) 0x401000 0x1205;
}

shared-SharedPage : SharedPage shared 0 0x401000 1
unfolding pmm_alloc_page alloc_from take_page bit_set bit_test vmm_init
shared-SharedPage = record {
  valid =
      unfold pmm_alloc_page alloc_from take_page bit_set bit_test in
      pmm_alloc_page-IsValid frames frames-IsValid;
  current = refl;
  aligned = refl;
  mapped = refl;
  present = refl;
  user = refl;
  cow = refl;
  managed = refl;
  held = refl;
  low_table = omega arith;
  room = omega arith;
}

vmm_map_missing_example :
    (vmm_map 0xd0400000 0x5000 2 vmm_init ≡ vmm_init)
    × (vmm_get_physical 0xd0400000 (vmm_map 0xd0400000 0x5000 2 vmm_init) ≡ 0)
unfolding vmm_init
vmm_map_missing_example = vmm_map_missing 0xd0400000 0x5000 2 vmm_init refl

get-map_same_example :
    vmm_get_user_physical 0x401234 mapped
    ≡ bit_or (0x3000 / 2 ^ 12) (2 / 2 ^ 12) * 2 ^ 12 + 0x401234 % 2 ^ 12
get-map_same_example = get-map_same 0x401000 0x3000 2 one_area mapped_by 0x401234 refl

get-map_other_example :
    vmm_get_user_physical 0x402000 mapped ≡ vmm_get_user_physical 0x402000 one_area
get-map_other_example =
    get-map_other 0x401000 0x3000 2 one_area mapped_by one_area-IsClean 0x402000 (omega arith)

unmap-map_example :
    (u : AddressSpace) × (vmm_unmap_user 0x401000 mapped frames
      ≡ some (u, pmm_free_page (bit_or (0x3000 / 2 ^ 12) (2 / 2 ^ 12) * 2 ^ 12) frames))
    × ((w : ℕ) → w / 2 ^ 12 ≡ 0x401000 / 2 ^ 12 → vmm_get_user_physical w u ≡ 0)
unmap-map_example = unmap-map 0x401000 0x3000 2 one_area mapped_by frames

lazy_page_unowned_example :
    (w' : World) × (vmm_page_fault 0 6 0x401000 idle ≡ some w')
    × (vmm_get_user_physical 0x401000 (w'.spaces 0) ≡ (pmm_alloc_page frames).0)
    × ((q : ℕ) → view w'.pmm q ≡ view frames q)
    × (view w'.pmm (vmm_get_user_physical 0x401000 (w'.spaces 0) / page_size) ≡ none)
lazy_page_unowned_example =
    lazy_page_unowned idle 0 0x401000
      (record { start = 0x400000; end = 0x500000; flags = 0; used = true }) idle-Demand 0 6

cow_fault_copies_example :
    (w' : World) × (p : ℕ) × (vmm_page_fault 0 6 0x401000 shared ≡ some w')
    × (view shared.pmm p ≡ none)
    × (vmm_get_user_physical 0x401000 (w'.spaces 0) ≡ p * 2 ^ 12)
    × (is_writable (pte_at (w'.spaces 0) 0x401000) ≡ true)
    × (is_cow (pte_at (w'.spaces 0) 0x401000) ≡ false)
    × (w'.contents p ≡ shared.contents (pte_at (shared.spaces 0) 0x401000 / 2 ^ 12))
    × ((f : ℕ) → f ≢ p → w'.contents f ≡ shared.contents f)
    × ((j : ℕ) → j ≢ 0 → w'.spaces j ≡ shared.spaces j)
    × ((q : ℕ)
        → view w'.pmm q ≡ (
            if p == q
            then some 1
            else if pte_at (shared.spaces 0) 0x401000 / 2 ^ 12 == q
            then released (view shared.pmm q)
            else view shared.pmm q))
cow_fault_copies_example = cow_fault_copies shared 0 0x401000 1 shared-SharedPage 0 6 refl refl
