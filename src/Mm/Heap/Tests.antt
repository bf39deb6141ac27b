-- ===== src/Mm/Heap/Tests.antt =====
-- The heap of mm/heap.c with three blocks.
use ceblar.Prelude.{ℕ, ◌≡◌, refl, Bool, true, false, some, List, [], ◌∷◌, sub32, arith}
use ceblar.Mm.Heap.{Block, Heap, take_block, split, kmalloc, kfree}
use ceblar.Mm.Heap.Regions.{After, given, Gains, Coalesced, take_block-Gains}
use ceblar.Mm.Heap.Calls.{kfree-kmalloc}

abbrev block : ℕ → ℕ → Bool → Block
block a n f = record { address = a; size = n; free = f }

-- A taken block of 48 bytes, and two free ones of 48 and of 96.
abbrev three : List Block
three = block 4096 48 false ∷ block 4160 48 true ∷ block 4224 96 true ∷ []

abbrev cut : List Block
cut = block 4096 48 false ∷ block 4160 48 true ∷ block 4224 64 false ∷ block 4304 16 true ∷ []

three-After : After 4096 three
three-After = (omega arith, (omega arith, (omega arith, omega arith)))

taken : take_block 64 three ≡ some (4240, cut)
unfolding take_block split
taken = refl

take_block-Gains_example : After 4096 cut × Gains (given three) (given cut) (sub32 4240 16) 64
take_block-Gains_example = take_block-Gains 64 4240 4096 three cut (omega arith) three-After taken

abbrev heap : Heap
heap = record {
  blocks = three;
  heap_virt_top = 0xd0000000;
  pmm = record {
    page_bitmap = λ i. 0;
    page_refs = λ p. 0;
    total_pages_count = 0;
    used_pages_count = 0;
  };
  tables = record { kernel_tables = λ d. 0; entries = λ t i. 0 };
}

kfree-kmalloc_example :
    let (q, h₁) = kmalloc 4096 60 heap in
    (q ≡ 4240)
    × (given (kfree q h₁).blocks ≡ given three)
    × After 4096 (kfree q h₁).blocks
    × Coalesced (kfree q h₁).blocks
kfree-kmalloc_example =
    kfree-kmalloc 4096 60 4240 4096 heap cut (omega arith) three-After (omega arith) (omega arith)
      taken
