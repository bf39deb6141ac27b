-- ===== src/Mm/Pmm/Spec.antt =====
-- What mm/pmm.c promises: a page frame is free, or held with a count of its owners (0 for a frame
-- that is reserved at boot).
use ceblar.Prelude.{
  ℕ, ◌+◌, ◌-◌, ◌≤◌, ◌≡◌, Bool, false, ◌&&◌, ◌==◌, ltb, if◌then◌else◌, Option, none, some, List, [],
  ◌∷◌, count_below,
}
use ceblar.Mm.Pmm.{Pmm, bit_test, max_phys_pages, pmm_alloc_page, pmm_retain_page, pmm_free_page}
use ceblar.Mm.Pmm.Bits.{IsBytes}

abbrev pub view : Pmm → ℕ → Option ℕ
view s p = if bit_test p s then some (s.page_refs p) else none

-- One owner more, up to the largest count, and one owner less.
abbrev pub retained : Option ℕ → Option ℕ
retained none = none
retained (some n) = some (if n == 0xffff then n else (n + 1))

abbrev pub released : Option ℕ → Option ℕ
released none = none
released (some n) = if ltb 1 n then some (n - 1) else none

abbrev pub is_managed : Pmm → ℕ → Bool
is_managed s p = ltb 0 p && ltb p s.total_pages_count

-- The bitmap holds bytes, the pages lie in the bitmap, a free page has no owner, and the counts
-- fit `uint16_t`.
pub record IsValid (s : Pmm) : Type 0 where
  pub bytes : IsBytes s
  pub small : s.total_pages_count ≤ max_phys_pages
  pub unowned : (p : ℕ) → bit_test p s ≡ false → s.page_refs p ≡ 0
  pub refs_small : (p : ℕ) → s.page_refs p ≤ 0xffff

-- `used_pages_count` and the `h` pages that were never handed to the allocator make up the set bits.
abbrev pub Accounts : ℕ → Pmm → Type 0
Accounts h s = count_below max_phys_pages (λ p. bit_test p s) ≡ s.used_pages_count + h

-- A client's calls in order, with the address that each returns.
pub data Call : Type 0 where
  alloc : Call
  retain : ℕ → Call
  free : ℕ → Call

unfoldable pub step : Call → Pmm → ℕ × Pmm
step alloc s = pmm_alloc_page s
step (retain a) s = (0, pmm_retain_page a s)
step (free a) s = (0, pmm_free_page a s)

unfoldable pub run : List Call → Pmm → List ℕ × Pmm
run [] s = ([], s)
run (c ∷ cs) s = let (a, t) = step c s in let (as', u) = run cs t in (a ∷ as', u)
