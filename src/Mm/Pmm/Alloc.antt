-- ===== src/Mm/Pmm/Alloc.antt =====
-- `pmm_alloc_page`, `pmm_retain_page` and `pmm_free_page` as operations on the set of page frames.
use ceblar.Prelude.{
  ℕ, zero, suc, ◌+◌, ◌-◌, ◌*◌, ◌/◌, ◌≤◌, ◌<◌, ◌≡◌, ◌≢◌, refl, ◌⊎◌, inl, inr, true, false, ◌&&◌, not,
  ◌==◌, ltb, if◌then◌else◌, none, some, arith, Bool-cases, update, mul32, ℕ_discrete,
}
use ceblar.Mm.Pmm.{
  Pmm, page_size, bit_set, bit_clear, bit_test, take_page, alloc_from, pmm_alloc_page,
  pmm_retain_page, drop_ref, pmm_free_page,
}
use ceblar.Mm.Pmm.Bits.{bit_test-bit_set, bit_test-bit_clear, bit_set-IsBytes, bit_clear-IsBytes}
use ceblar.Mm.Pmm.Spec.{view, retained, released, is_managed, IsValid}

-- The scan stops at the first clear bit of `p`, …, `p + n - 1`.
pub alloc_from_cases :
    (n p : ℕ) (s : Pmm)
    → ((alloc_from n p s ≡ (0, s)) × ((q : ℕ) → p ≤ q → q < p + n → bit_test q s ≡ true))
      ⊎ ((k : ℕ) × (p ≤ k)
          × (k < p + n)
          × (bit_test k s ≡ false)
          × ((q : ℕ) → p ≤ q → q < k → bit_test q s ≡ true)
          × (alloc_from n p s ≡ (mul32 k page_size, take_page k s)))
unfolding alloc_from
alloc_from_cases zero p s = inl (refl, λ q a b. absurd (omega arith))
alloc_from_cases (suc n) p s = elim (Bool-cases (bit_test p s)) [
  | inl held ↦ elim (alloc_from_cases n (p + 1) s) [
    | inl (e, all) ↦ inl (
      rw held e,
      λ q a b. elim (ℕ_discrete p q) [
        | yes same ↦ rw (← same) held
        | no other ↦ all q (omega arith) (omega arith)
      ],
    )
    | inr (k, lo, hi, clear, all, e) ↦ inr (
      k,
      omega arith,
      omega arith,
      clear,
      (λ q a b. elim (ℕ_discrete p q) [
        | yes same ↦ rw (← same) held
        | no other ↦ all q (omega arith) b
      ]),
      rw held e,
    )
  ]
  | inr clear ↦ inr (p, omega arith, omega arith, clear, (λ q a b. absurd (omega arith)), rw clear)
]

module _ (s : Pmm) (k : ℕ) (v : IsValid s) where
  pub bit_test-take_page :
      (q : ℕ) → bit_test q (take_page k s) ≡ (if k == q then true else bit_test q s)
  unfolding take_page bit_test bit_set
  bit_test-take_page = bit_test-bit_set s k v.bytes

  view-take_page : (q : ℕ) → view (take_page k s) q ≡ (if k == q then some 1 else view s q)
  unfolding take_page bit_set
  view-take_page q = ground (arith, bit_test-take_page q)

  pub take_page-IsValid : IsValid (take_page k s)
  unfolding take_page bit_set
  take_page-IsValid = record {
    bytes = λ i. unfold take_page bit_set in bit_set-IsBytes s k v.bytes i;
    small = v.small;
    unowned = λ p e. ground (arith, bit_test-take_page p, v.unowned p);
    refs_small = λ p. ground (arith, v.refs_small p);
  }

  pub bit_test-drop_ref :
      (q : ℕ)
      → bit_test q (drop_ref k s)
        ≡ (if k == q && not (ltb 1 (s.page_refs k)) then false else bit_test q s)
  unfolding drop_ref bit_test bit_clear
  bit_test-drop_ref q = ground (arith, bit_test-bit_clear s k v.bytes q)

  view-drop_ref :
      (q : ℕ) → view (drop_ref k s) q ≡ (if k == q then released (view s q) else view s q)
  unfolding drop_ref bit_clear
  view-drop_ref q = ground (arith, bit_test-drop_ref q)

  drop_ref-IsValid : IsValid (drop_ref k s)
  unfolding drop_ref bit_clear
  drop_ref-IsValid = record {
    bytes = λ i. ground (
      arith,
      v.bytes i,
      bit_clear-IsBytes (record s { page_refs = update s.page_refs k 0 }) k v.bytes i,
    );
    small = ground (arith, v.small);
    unowned = λ p e. ground (arith, bit_test-drop_ref p, v.unowned p);
    refs_small = λ p. ground (arith, v.refs_small p, v.refs_small k);
  }

-- What `pmm_alloc_page` does: with no free page among those it manages it returns 0 and changes
-- nothing; otherwise it returns the lowest free one, which then has one owner.
abbrev pub Allocates : Pmm → ℕ × Pmm → Type 0
Allocates s r =
    ((r ≡ (0, s)) × ((q : ℕ) → 0 < q → q < s.total_pages_count → view s q ≢ none))
    ⊎ ((p : ℕ) × (0 < p)
        × (p < s.total_pages_count)
        × (view s p ≡ none)
        × ((q : ℕ) → 0 < q → q < p → view s q ≢ none)
        × (r.0 ≡ p * page_size)
        × ((q : ℕ) → view r.1 q ≡ (if p == q then some 1 else view s q)))

module _ (s : Pmm) (v : IsValid s) where
  -- On a valid state `pmm_alloc_page` returns 0 and changes nothing if every managed page is held;
  -- otherwise it returns the address of the lowest free page, gives it one owner and leaves every
  -- other page as it was.
  pub pmm_alloc_page-Allocates : Allocates s (pmm_alloc_page s)
  unfolding pmm_alloc_page
  pmm_alloc_page-Allocates = elim (alloc_from_cases (s.total_pages_count - 1) 1 s) [
    | inl (e, all) ↦ inl (e, λ q a b. ground (arith, all q (omega arith) (omega arith)))
    | inr (k, lo, hi, clear, all, e) ↦ inr (
      k,
      lo,
      omega arith,
      rw clear,
      (λ q a b. ground (arith, all q (omega arith) b)),
      rw e (omega (arith, v.small)),
      (λ q. rw e (view-take_page s k v q)),
    )
  ]

  -- On a valid state `pmm_retain_page` gives the page of the address one owner more, up to 65535, if
  -- it is managed and held, and leaves every other page as it was.
  pub view-retain :
      (a q : ℕ)
      → view (pmm_retain_page a s) q ≡ (
          if is_managed s (a / page_size) && (a / page_size == q)
          then retained (view s q)
          else view s q)
  unfolding pmm_retain_page bit_test
  view-retain a q = ground arith

  -- On a valid state `pmm_free_page` takes one owner from the page of the address if it is managed
  -- and held, frees it with the last one, and leaves every other page as it was.
  pub view-free :
      (a q : ℕ)
      → view (pmm_free_page a s) q ≡ (
          if is_managed s (a / page_size) && (a / page_size == q)
          then released (view s q)
          else view s q)
  unfolding pmm_free_page
  view-free a q = ground (arith, view-drop_ref s (a / page_size) v q)

  pub pmm_alloc_page-IsValid : IsValid (pmm_alloc_page s).1
  unfolding pmm_alloc_page
  pmm_alloc_page-IsValid = elim (alloc_from_cases (s.total_pages_count - 1) 1 s) [
    | inl (e, all) ↦ rw e v
    | inr (k, lo, hi, clear, all, e) ↦ rw e (take_page-IsValid s k v)
  ]

  pub bit_test-retain : (a p : ℕ) → bit_test p (pmm_retain_page a s) ≡ bit_test p s
  unfolding pmm_retain_page bit_test
  bit_test-retain a p = ground arith

  pub pmm_retain_page-IsValid : (a : ℕ) → IsValid (pmm_retain_page a s)
  unfolding pmm_retain_page
  pmm_retain_page-IsValid a = record {
    bytes = λ i. ground (arith, v.bytes i);
    small = ground (arith, v.small);
    unowned = λ p e. ground (arith, bit_test-retain a p, v.unowned p);
    refs_small = λ p. ground (arith, v.refs_small p, v.refs_small (a / page_size));
  }

  pub pmm_free_page-IsValid : (a : ℕ) → IsValid (pmm_free_page a s)
  unfolding pmm_free_page
  pmm_free_page-IsValid a =
      elim (Bool-cases (
        ltb 0 (a / page_size)
        && ltb (a / page_size) s.total_pages_count
        && bit_test (a / page_size) s)) [
          | inl e ↦ rw e (drop_ref-IsValid s (a / page_size) v)
          | inr e ↦ rw e v
        ]
