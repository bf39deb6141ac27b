-- ===== src/Mm/Pmm/Ledger.antt =====
-- Sequences of calls on mm/pmm.c: the count of used pages, pairs of calls that undo one another, and
-- pages that are not handed out twice.
use ceblar.Prelude.{
  ℕ, zero, suc, ◌+◌, ◌-◌, ◌*◌, ◌/◌, ◌%◌, ◌^◌, ◌<◌, ◌≡◌, ◌≢◌, refl, inl, inr, true, false, ◌&&◌,
  ◌==◌, ltb, if◌then◌else◌, Every, none, some, List, [], ◌∷◌, arith, Bool-cases, ap, ℕ_discrete,
  subst, count_below_ext, count_below_le, count_below_turn_on, sym,
}
use ceblar.Mm.Pmm.{
  Pmm, page_size, max_phys_pages, bit_set, bit_clear, bit_test, take_page, alloc_from,
  pmm_alloc_page, pmm_retain_page, drop_ref, pmm_free_page,
}
use ceblar.Mm.Pmm.Spec.{view, IsValid, Accounts, Call, alloc, retain, free, step, run}
use ceblar.Mm.Pmm.Alloc.{
  alloc_from_cases, bit_test-take_page, bit_test-drop_ref, bit_test-retain,
  pmm_alloc_page-Allocates, pmm_alloc_page-IsValid, pmm_retain_page-IsValid, pmm_free_page-IsValid,
  view-retain, view-free,
}

used-take_page :
    (p : ℕ) (s : Pmm) → (take_page p s).used_pages_count ≡ (s.used_pages_count + 1) % 2 ^ 32
unfolding take_page bit_set
used-take_page p s = refl

used-drop_ref :
    (p : ℕ) (s : Pmm)
    → (drop_ref p s).used_pages_count
      ≡ (if ltb 1 (s.page_refs p) then s.used_pages_count else (s.used_pages_count - 1))
unfolding drop_ref bit_clear
used-drop_ref p s = ground arith

used-retain : (a : ℕ) (s : Pmm) → (pmm_retain_page a s).used_pages_count ≡ s.used_pages_count
unfolding pmm_retain_page
used-retain a s = ground arith

module _ (s : Pmm) (h : ℕ) (v : IsValid s) (acc : Accounts h s) where
  take_page-Accounts :
      (p : ℕ) → p < max_phys_pages → bit_test p s ≡ false → Accounts h (take_page p s)
  take_page-Accounts p lt clear = omega (
    arith,
    used-take_page p s,
    count_below_le max_phys_pages (λ q. bit_test q s),
    count_below_turn_on max_phys_pages (λ q. bit_test q s) (λ q. bit_test q (take_page p s)) p lt
        clear (bit_test-take_page s p v),
  )

  drop_ref-Accounts :
      (p : ℕ)
      → p < max_phys_pages
      → bit_test p s ≡ true
      → 0 < s.used_pages_count
      → Accounts h (drop_ref p s)
  drop_ref-Accounts p lt held some_used = elim (Bool-cases (ltb 1 (s.page_refs p))) [
    | inl more ↦ omega (
      arith,
      (rw more at (used-drop_ref p s)),
      count_below_ext max_phys_pages (λ q. bit_test q (drop_ref p s)) (λ q. bit_test q s)
          (λ i b. ground (arith, bit_test-drop_ref s p v i)),
    )
    | inr last ↦ omega (
      arith,
      (rw last at (used-drop_ref p s)),
      count_below_turn_on max_phys_pages (λ q. bit_test q (drop_ref p s)) (λ q. bit_test q s) p lt
          (ground (arith, bit_test-drop_ref s p v p))
          (λ i. ground (arith, bit_test-drop_ref s p v i)),
    )
  ]

  -- On a valid state whose used count and `h` make up the set bits, `pmm_alloc_page` keeps that
  -- account.
  pub pmm_alloc_page-Accounts : Accounts h (pmm_alloc_page s).1
  unfolding pmm_alloc_page
  pmm_alloc_page-Accounts = elim (alloc_from_cases (s.total_pages_count - 1) 1 s) [
    | inl (e, all) ↦ rw e acc
    | inr (k, lo, hi, clear, all, e) ↦ rw e (take_page-Accounts k (omega (arith, v.small)) clear)
  ]

  -- On a valid state whose used count and `h` make up the set bits, and with a used page,
  -- `pmm_free_page` keeps that account, for every address.
  pub pmm_free_page-Accounts : (a : ℕ) → 0 < s.used_pages_count → Accounts h (pmm_free_page a s)
  unfolding pmm_free_page
  pmm_free_page-Accounts a some_used =
      elim (Bool-cases (
        ltb 0 (a / page_size)
        && ltb (a / page_size) s.total_pages_count
        && bit_test (a / page_size) s)) [
          | inl e ↦
              rw e (
                drop_ref-Accounts (a / page_size) (ground (arith, v.small)) (ground arith)
                  some_used)
          | inr e ↦ rw e acc
        ]

  -- On a valid state whose used count and `h` make up the set bits, `pmm_retain_page` keeps that
  -- account.
  pub pmm_retain_page-Accounts : (a : ℕ) → Accounts h (pmm_retain_page a s)
  pmm_retain_page-Accounts a = omega (
    arith,
    used-retain a s,
    count_below_ext max_phys_pages (λ q. bit_test q (pmm_retain_page a s)) (λ q. bit_test q s)
        (λ i b. bit_test-retain s v a i),
  )

bit_test-eq : (s t : Pmm) (q : ℕ) → view s q ≡ view t q → bit_test q s ≡ bit_test q t
bit_test-eq s t q e = ground arith

total-alloc_from :
    (n p : ℕ) (s : Pmm) → (alloc_from n p s).1.total_pages_count ≡ s.total_pages_count
unfolding alloc_from take_page bit_set
total-alloc_from zero p s = refl
total-alloc_from (suc n) p s = ground (arith, total-alloc_from n (p + 1) s)

pub total-alloc : (s : Pmm) → (pmm_alloc_page s).1.total_pages_count ≡ s.total_pages_count
unfolding pmm_alloc_page
total-alloc s = total-alloc_from (s.total_pages_count - 1) 1 s

-- Freeing the one owner of page `p` in `t` gives the pages of `s`, if `t` is `s` with `p` taken.
free_undoes :
    (s t : Pmm) (p a q : ℕ)
    → IsValid t
    → t.total_pages_count ≡ s.total_pages_count
    → 0 < p
    → p < s.total_pages_count
    → a ≡ p * page_size
    → view s p ≡ none
    → ((i : ℕ) → view t i ≡ (if p == i then some 1 else view s i))
    → view (pmm_free_page a t) q ≡ view s q
free_undoes s t p a q vt total pos lt ea was now =
    let at_p : a / page_size ≡ p = omega arith in
    elim (ℕ_discrete p q) [
      | yes e ↦ rw (view-free t vt a q, at_p, now q) (rw (← e, was) (ground arith))
      | no e ↦ rw (view-free t vt a q, at_p, now q) (ground arith)
    ]

total-retain : (a : ℕ) (s : Pmm) → (pmm_retain_page a s).total_pages_count ≡ s.total_pages_count
unfolding pmm_retain_page
total-retain a s = ground arith

module _ (s : Pmm) (v : IsValid s) where
  -- On a valid state, freeing the page that a successful `pmm_alloc_page` returned gives back every
  -- page as it was before.
  pub free-alloc :
      (pmm_alloc_page s).0 ≢ 0
      → (q : ℕ) → view (pmm_free_page (pmm_alloc_page s).0 (pmm_alloc_page s).1) q ≡ view s q
  free-alloc ne q = elim (pmm_alloc_page-Allocates s v) [
    | inl (e, all) ↦ absurd (ne (ap (λ r. r.0) e))
    | inr (p, pos, lt, was, low, e, now) ↦
        free_undoes s (pmm_alloc_page s).1 p (pmm_alloc_page s).0 q (pmm_alloc_page-IsValid s v)
          (total-alloc s) pos lt e was now
  ]

  -- On a valid state, a retained page with at least one and fewer than 65535 owners is given back by
  -- `pmm_free_page`: every page is as it was before.
  pub free-retain :
      (a q n : ℕ)
      → view s (a / page_size) ≡ some (suc n)
      → suc n < 0xffff
      → view (pmm_free_page a (pmm_retain_page a s)) q ≡ view s q
  free-retain a q n e lt = elim (ℕ_discrete (a / page_size) q) [
    | yes same ↦
        let held : view s q ≡ some (suc n) = subst (λ i. view s i ≡ some (suc n)) same e in
        rw
          (
            view-free (pmm_retain_page a s) (pmm_retain_page-IsValid s v a) a q,
            view-retain s v a q,
            held,
            total-retain a s,
          )
          (ground arith)
    | no other ↦
        rw
          (view-free (pmm_retain_page a s) (pmm_retain_page-IsValid s v a) a q, view-retain s v a q)
          (ground arith)
  ]

-- No call of the list frees page `p`.
abbrev pub NeverFrees : ℕ → List Call → Type 0
NeverFrees p [] = Unit {0}
NeverFrees p (free a ∷ cs) = (a / page_size ≢ p) × NeverFrees p cs
NeverFrees p (alloc ∷ cs) = NeverFrees p cs
NeverFrees p (retain a ∷ cs) = NeverFrees p cs

module _ (p : ℕ) (s : Pmm) (v : IsValid s) (held : view s p ≢ none) where
  alloc_keeps : view (pmm_alloc_page s).1 p ≢ none
  alloc_keeps = elim (pmm_alloc_page-Allocates s v) [
    | inl (e, all) ↦ subst (λ r. view r.1 p ≢ none) (sym e) held
    | inr (k, pos, lt, was, low, e, now) ↦ rw (now p) (ground arith)
  ]

  alloc_avoids : 0 < p → (pmm_alloc_page s).0 ≢ p * page_size
  alloc_avoids pos = elim (pmm_alloc_page-Allocates s v) [
    | inl (e, all) ↦ subst (λ r. r.0 ≢ p * page_size) (sym e) (omega arith)
    | inr (k, lo, lt, was, low, e, now) ↦
        λ same. held (subst (λ i. view s i ≡ none) (omega arith) was)
  ]

  retain_keeps : (a : ℕ) → view (pmm_retain_page a s) p ≢ none
  retain_keeps a = rw (view-retain s v a p) (ground arith)

  free_keeps : (a : ℕ) → a / page_size ≢ p → view (pmm_free_page a s) p ≢ none
  free_keeps a ne = rw (view-free s v a p) (ground arith)

-- From a valid state, a page that is held and that no call frees is handed out by no call: no call
-- returns its address.
pub held_not_reused :
    (p : ℕ) (cs : List Call) (s : Pmm)
    → IsValid s
    → 0 < p
    → view s p ≢ none
    → NeverFrees p cs
    → Every (λ a. a ≢ p * page_size) (run cs s).0
unfolding run step
held_not_reused p [] s v pos held nf = tt
held_not_reused p (alloc ∷ cs) s v pos held nf = (
  alloc_avoids p s v held pos,
  held_not_reused p cs (pmm_alloc_page s).1 (pmm_alloc_page-IsValid s v) pos
      (alloc_keeps p s v held) nf,
)
held_not_reused p (retain a ∷ cs) s v pos held nf = (
  omega arith,
  held_not_reused p cs (pmm_retain_page a s) (pmm_retain_page-IsValid s v a) pos
      (retain_keeps p s v held a) nf,
)
held_not_reused p (free a ∷ cs) s v pos held nf = (
  omega arith,
  held_not_reused p cs (pmm_free_page a s) (pmm_free_page-IsValid s v a) pos
      (free_keeps p s v held a nf.0) nf.1,
)
