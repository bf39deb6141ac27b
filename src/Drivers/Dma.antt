-- ===== src/Drivers/Dma.antt =====
-- drivers/dma/dma.c: buffers of neighbouring pages, over the page allocator.
use ceblar.Prelude.{
  ℕ, zero, suc, ◌+◌, ◌/◌, Bool, true, false, ◌&&◌, ◌||◌, not, ◌==◌, leb, if◌then◌else◌, Option,
  none, some, add32, sub32, mul32,
}
use ceblar.Mm.Pmm.{Pmm, page_size, pmm_alloc_page, pmm_free_page}

abbrev pub dma_max_address : ℕ
dma_max_address = 0x00400000

-- `dma_buffer_t`
pub record DmaBuffer : Type 0 where
  pub virtual_address : ℕ
  pub physical_address : ℕ
  pub length : ℕ
  pub pages : ℕ

-- The page number `i` behind `first`.
abbrev pub page_at : ℕ → ℕ → ℕ
page_at first i = add32 first (mul32 i page_size)

-- `for (j = 0; j < n; j++) pmm_free_page(first + j * PAGE_SIZE)`, by the rounds left.
unfoldable pub free_pages : ℕ → ℕ → ℕ → Pmm → Pmm
free_pages zero j first m = m
free_pages (suc n) j first m = free_pages n (j + 1) first (pmm_free_page (page_at first j) m)

abbrev pub is_unfit : ℕ → ℕ → ℕ → Bool
is_unfit p i first = p == 0 || leb dma_max_address p || (not (i == 0) && not (p == page_at first i))

-- The loop over the pages, by the rounds left; `none` is the result -1, with every page given back.
unfoldable pub take_pages : ℕ → ℕ → ℕ → Pmm → Option ℕ × Pmm
take_pages zero i first m = (some first, m)
take_pages (suc n) i first m =
    let (p, m₁) = pmm_alloc_page m in
    elim (is_unfit p i first) [
      | true ↦ (none, free_pages i 0 first (if p == 0 then m₁ else pmm_free_page p m₁))
      | false ↦ take_pages n (i + 1) (if i == 0 then p else first) m₁
    ]

abbrev pub buffer_of : ℕ → ℕ → Option ℕ × Pmm → Option DmaBuffer × Pmm
buffer_of n pages (none, m) = (none, m)
buffer_of n pages (some first, m) = (
  some (record { virtual_address = first; physical_address = first; length = n; pages = pages }),
  m,
)

-- `(length + PAGE_SIZE - 1u) / PAGE_SIZE`
abbrev pub page_count : ℕ → ℕ
page_count n = sub32 (add32 n page_size) 1 / page_size

-- A call with a buffer to fill in; `initialized` is what `dma_init` sets.
unfoldable pub dma_alloc : Bool → ℕ → Pmm → Option DmaBuffer × Pmm
dma_alloc initialized n m =
    if not initialized || n == 0
    then (none, m)
    else buffer_of n (page_count n) (take_pages (page_count n) 0 0 m)

unfoldable pub dma_free : DmaBuffer → Pmm → DmaBuffer × Pmm
dma_free b m = if b.physical_address == 0 || b.pages == 0 then (b, m) else (
  record { virtual_address = 0; physical_address = 0; length = 0; pages = 0 },
  free_pages b.pages 0 b.physical_address m,
)
