-- ===== src/Mm/Heap.antt =====
-- mm/heap.c: the kernel's allocator. The linked list of headers is a list of blocks, a block being at the
-- address of its header, and `none` an empty `head`. A header's magic number is that of a block in the list.
-- `krealloc` is not modelled.
pub mod Regions
pub mod Calls
mod Tests
use ceblar.Prelude.{
  ℕ, zero, suc, ◌+◌, ◌-◌, ◌*◌, ◌/◌, ◌%◌, ◌^◌, Bool, true, false, ◌&&◌, not, ◌==◌, leb,
  if◌then◌else◌, Option, none, some, List, [], ◌∷◌, ◌++◌, add32, sub32,
}
use ceblar.Mm.Pmm.{Pmm, page_size, pmm_alloc_page}
use ceblar.Mm.Vmm.Kernel.{KernelTables, vmm_map}

abbrev pub heap_bytes : ℕ
heap_bytes = 0x100000

abbrev pub heap_virt_start : ℕ
heap_virt_start = 0xd0000000

-- `sizeof(block_t)`
abbrev pub header_size : ℕ
header_size = 16

pub record Block : Type 0 where
  pub address : ℕ
  pub size : ℕ
  pub free : Bool

-- The static variables, and the page allocator and the kernel's tables that `grow` changes.
pub record Heap : Type 0 where
  pub blocks : List Block
  pub heap_virt_top : ℕ
  pub pmm : Pmm
  pub tables : KernelTables

-- The block behind the one that is cut to `n` bytes.
abbrev pub remainder : Block → ℕ → Block
remainder b n = record {
  address = add32 (add32 b.address header_size) n;
  size = sub32 (sub32 b.size n) header_size;
  free = true;
}

-- The block and the one behind it, if it was cut, in front of the others.
unfoldable pub split : Block → ℕ → List Block → List Block
split b n rest =
    if leb (add32 (add32 n header_size) 8) b.size
    then record b { size = n } ∷ remainder b n ∷ rest
    else b ∷ rest

abbrev pub join : Block → Block → Block
join b c = record b { size = add32 b.size (add32 header_size c.size) }

-- `merge` from the block `b` on.
unfoldable pub merge_from : Block → List Block → List Block
merge_from b [] = b ∷ []
merge_from b (c ∷ rest) =
    let joined = merge_from (join b c) rest in
    let kept = merge_from c rest in if b.free && c.free then joined else b ∷ kept

unfoldable pub merge : List Block → List Block
merge [] = []
merge (b ∷ rest) = merge_from b rest

abbrev pub page_block : ℕ → Block
page_block top = record { address = top; size = page_size - header_size; free = true }

-- `none` is the result -1.
unfoldable pub grow : Heap → Option Heap
grow h =
    let (page, pmm₁) = pmm_alloc_page h.pmm in
    if page == 0
    then none
    else some (record {
      blocks = h.blocks ++ page_block h.heap_virt_top ∷ [];
      heap_virt_top = add32 h.heap_virt_top page_size;
      pmm = pmm₁;
      tables = vmm_map h.heap_virt_top page 2 h.tables;
    })

-- The block at the start of `heap_area`, whose address the linker chooses.
unfoldable pub heap_init : ℕ → Heap → Heap
heap_init heap_area h = record h {
  blocks = record { address = heap_area; size = heap_bytes - header_size; free = true } ∷ [];
}

-- The first free block that is large enough, taken: the address behind its header, and the new list.
unfoldable pub take_block : ℕ → List Block → Option (ℕ × List Block)
take_block n [] = none
take_block n (b ∷ rest) =
    let later = take_block n rest in
    if b.free && leb n b.size
    then some (add32 b.address header_size, split (record b { free = false }) n rest)
    else elim later [ none ↦ none | some (p, rest') ↦ some (p, b ∷ rest') ]

-- `for (;;)` of `kmalloc` on fuel; a round that does not return takes a page from the allocator.
unfoldable pub kmalloc_rounds : ℕ → ℕ → Heap → ℕ × Heap
kmalloc_rounds zero n h = (0, h)
kmalloc_rounds (suc fuel) n h = elim (take_block n h.blocks) [
  | some (p, blocks') ↦ (p, record h { blocks = blocks' })
  | none ↦ elim (grow h) [ none ↦ (0, h) | some h₁ ↦ kmalloc_rounds fuel n h₁ ]
]

-- `(n + 7u) & ~7u`
abbrev pub round_up : ℕ → ℕ
round_up n = add32 n 7 / 8 * 8

-- `if (!head) heap_init();`
unfoldable pub with_head : ℕ → List Block → Heap → Heap
with_head heap_area [] h = heap_init heap_area h
with_head heap_area (b ∷ rest) h = h

-- The allocator has 65536 pages, so no more rounds than these get a page.
unfoldable pub kmalloc : ℕ → ℕ → Heap → ℕ × Heap
kmalloc heap_area n h =
    let h₁ = with_head heap_area h.blocks h in
    if n == 0 then (0, h₁) else kmalloc_rounds 65537 (round_up n) h₁

-- Freeing the block whose bytes begin at `p`, if it is in the list and not free.
unfoldable pub release : ℕ → List Block → Option (List Block)
release p [] = none
release p (b ∷ rest) =
    let later = release p rest in
    if b.address == sub32 p header_size
    then (if b.free then none else some (record b { free = true } ∷ rest))
    else elim later [ none ↦ none | some rest' ↦ some (b ∷ rest') ]

-- A pointer to a block's bytes, or null.
unfoldable pub kfree : ℕ → Heap → Heap
kfree p h =
    if p == 0
    then h
    else elim (release p h.blocks) [ none ↦ h | some blocks' ↦ record h { blocks = merge blocks' } ]
