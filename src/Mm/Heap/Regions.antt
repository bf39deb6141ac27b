-- ===== src/Mm/Heap/Regions.antt =====
-- The regions that mm/heap.c has given out: its operations on the list of blocks add one, take one away, and
-- never let two overlap.
use ceblar.Prelude.{
  ℕ, ◌+◌, ◌^◌, ◌≤◌, ◌≡◌, refl, ap, sym, ◌∙◌, subst, Bool, true, false, ◌&&◌, leb, if◌then◌else◌,
  some, List, [], ◌∷◌, ◌++◌, add32, sub32, arith, Bool-cases, Option-cases, inl, inr,
}
use ceblar.Mm.Heap.{Block, header_size, split, join, merge_from, merge, take_block}

-- The blocks follow each other from `lo` on, below 2 ^ 32, and do not overlap.
abbrev pub After : ℕ → List Block → Type 0
After lo [] = lo ≤ 2 ^ 32
After lo (b ∷ rest) = (lo ≤ b.address) × After (b.address + header_size + b.size) rest

pub After-end : (lo : ℕ) (bs : List Block) → After lo bs → lo ≤ 2 ^ 32
After-end lo [] a = a
After-end lo (b ∷ rest) a =
    let later = After-end (b.address + header_size + b.size) rest a.1 in omega (arith, later, a.0)

After-lower : (lo lo' : ℕ) (bs : List Block) → lo' ≤ lo → After lo bs → After lo' bs
After-lower lo lo' [] le a = omega arith
After-lower lo lo' (b ∷ rest) le a = (omega (arith, a.0), a.1)

-- The blocks given out, each with the address of its header and its size.
abbrev pub given : List Block → List (ℕ × ℕ)
given [] = []
given (b ∷ rest) = if b.free then given rest else (b.address, b.size) ∷ given rest

-- The second list is the first with one region more.
pub record Gains (xs ys : List (ℕ × ℕ)) (address n : ℕ) : Type 0 where
  pub before : List (ℕ × ℕ)
  pub behind : List (ℕ × ℕ)
  pub size : ℕ
  pub enough : n ≤ size
  pub without : xs ≡ before ++ behind
  pub with_it : ys ≡ before ++ (address, size) ∷ behind

Gains-behind :
    (b : Block) (xs ys : List Block) (address n : ℕ)
    → Gains (given xs) (given ys) address n
    → Gains (given (b ∷ xs)) (given (b ∷ ys)) address n
Gains-behind b xs ys address n g = elim (Bool-cases b.free) [
  | inl free ↦ rw free g
  | inr taken ↦ rw taken (record {
    before = (b.address, b.size) ∷ g.before;
    behind = g.behind;
    size = g.size;
    enough = g.enough;
    without = ap (◌∷◌ (b.address, b.size)) g.without;
    with_it = ap (◌∷◌ (b.address, b.size)) g.with_it;
  })
]

pub split-After :
    (b : Block) (n lo : ℕ) (rest : List Block)
    → 16 ≤ lo
    → n ≤ b.size
    → After lo (b ∷ rest)
    → After lo (split (record b { free = false }) n rest)
unfolding split
split-After b n lo rest high fits a =
    let end = After-end (b.address + header_size + b.size) rest a.1 in ground (arith, a.0, a.1, end)

split-Gains :
    (b : Block) (n : ℕ) (rest : List Block)
    → b.free ≡ true
    → n ≤ b.size
    → Gains (given (b ∷ rest)) (given (split (record b { free = false }) n rest)) b.address n
unfolding split
split-Gains b n rest free fits = elim (Bool-cases (leb (add32 (add32 n header_size) 8) b.size)) [
  | inl cut ↦
      rw (free, cut)
        (record {
          before = [];
          behind = given rest;
          size = n;
          enough = omega arith;
          without = refl;
          with_it = refl;
        })
  | inr whole ↦
      rw (free, whole)
        (record {
          before = [];
          behind = given rest;
          size = b.size;
          enough = fits;
          without = refl;
          with_it = refl;
        })
]

-- From blocks in order, above the first 16 bytes of memory, an allocation of `n` bytes that succeeds leaves
-- blocks in order, gives out one region more, of `n` bytes or more, and returns the address behind its
-- header.
pub take_block-Gains :
    (n p lo : ℕ) (bs bs' : List Block)
    → 16 ≤ lo
    → After lo bs
    → take_block n bs ≡ some (p, bs')
    → After lo bs' × Gains (given bs) (given bs') (sub32 p header_size) n
unfolding take_block
take_block-Gains n p lo [] bs' high a e = absurd (ground (arith, e))
take_block-Gains n p lo (b ∷ rest) bs' high a e = elim (Bool-cases (b.free && leb n b.size)) [
  | inl fits ↦
      let free : b.free ≡ true = ground (arith, fits) in
      let room : n ≤ b.size = ground (arith, fits) in
      let end = After-end (b.address + header_size + b.size) rest a.1 in
      let place : add32 b.address header_size ≡ p = ground (arith, e, fits) in
      let list : split (record b { free = false }) n rest ≡ bs' = ground (arith, e, fits) in
      let header : b.address ≡ sub32 p header_size = omega (arith, place, a.0, end) in
      subst
        (λ (ys : List Block).
          After lo ys × Gains (given (b ∷ rest)) (given ys) (sub32 p header_size) n)
        list
        (
          split-After b n lo rest high room a,
          subst
              (λ k. Gains (given (b ∷ rest)) (given (split (record b { free = false }) n rest)) k n)
              header (split-Gains b n rest free room),
        )
  | inr other ↦ elim (Option-cases (take_block n rest)) [
    | inl failed ↦ absurd (ground (arith, e, other, failed))
    | inr ((q, rest'), got) ↦
        let place : q ≡ p = ground (arith, e, other, got) in
        let list : b ∷ rest' ≡ bs' = ground (arith, e, other, got) in
        let (order, gains) =
          take_block-Gains n q (b.address + header_size + b.size) rest rest' (omega (arith, a.0))
            a.1 got in
        subst
          (λ (ys : List Block).
            After lo ys × Gains (given (b ∷ rest)) (given ys) (sub32 p header_size) n)
          list
          (
            (a.0, order),
            subst (λ k. Gains (given (b ∷ rest)) (given (b ∷ rest')) (sub32 k header_size) n) place
                (Gains-behind b rest rest' (sub32 q header_size) n gains),
          )
  ]
]

-- Whether the list begins with a free block.
abbrev pub head_free : List Block → Bool
head_free [] = false
head_free (b ∷ rest) = b.free

-- No two free blocks stand side by side.
abbrev pub Coalesced : List Block → Type 0
Coalesced [] = Unit {0}
Coalesced (b ∷ rest) = (b.free && head_free rest ≡ false) × Coalesced rest

join-After :
    (b c : Block) (lo : ℕ) (rest : List Block)
    → After lo (b ∷ c ∷ rest)
    → After lo (join b c ∷ rest)
join-After b c lo rest a =
    let end = After-end (c.address + header_size + c.size) rest a.1.1 in
    (
      a.0,
      After-lower (c.address + header_size + c.size)
          (b.address + header_size + add32 b.size (add32 header_size c.size)) rest
          (omega (arith, a.1.0, end)) a.1.1,
    )

merge_from_free : (b : Block) (rest : List Block) → head_free (merge_from b rest) ≡ b.free
unfolding merge_from
merge_from_free b [] = refl
merge_from_free b (c ∷ rest) = ground (arith, merge_from_free (join b c) rest)

merge_from-join :
    (b c : Block) (rest : List Block)
    → b.free && c.free ≡ true
    → merge_from b (c ∷ rest) ≡ merge_from (join b c) rest
unfolding merge_from
merge_from-join b c rest both = rw both refl

merge_from_keep :
    (b c : Block) (rest : List Block)
    → b.free && c.free ≡ false
    → merge_from b (c ∷ rest) ≡ b ∷ merge_from c rest
unfolding merge_from
merge_from_keep b c rest apart = rw apart refl

-- What merging keeps and brings about.
abbrev pub Merges : ℕ → List Block → List Block → Type 0
Merges lo bs bs' = After lo bs' × (given bs' ≡ given bs) × Coalesced bs'

merge_from-Merges :
    (b : Block) (lo : ℕ) (rest : List Block)
    → After lo (b ∷ rest)
    → Merges lo (b ∷ rest) (merge_from b rest)
merge_from-Merges b lo [] a = unfold merge_from in (a, refl, (ground arith, tt))
merge_from-Merges b lo (c ∷ rest) a = elim (Bool-cases (b.free && c.free)) [
  | inl both ↦
      let (order, same, apart) = merge_from-Merges (join b c) lo rest (join-After b c lo rest a) in
      subst (Merges lo (b ∷ c ∷ rest)) (sym (merge_from-join b c rest both))
        (order, same ∙ ground (arith, both), apart)
  | inr split_up ↦
      let (order, same, apart) = merge_from-Merges c (b.address + header_size + b.size) rest a.1 in
      subst (Merges lo (b ∷ c ∷ rest)) (sym (merge_from_keep b c rest split_up)) (
        (a.0, order),
        ap (λ (ys : List (ℕ × ℕ)). if b.free then ys else (b.address, b.size) ∷ ys) same,
        (rw (merge_from_free c rest) split_up, apart),
      )
]

-- `merge` keeps blocks in order and the regions given out, and leaves no two free blocks side by side.
pub merge-Merges : (lo : ℕ) (bs : List Block) → After lo bs → Merges lo bs (merge bs)
unfolding merge
merge-Merges lo [] a = (a, refl, tt)
merge-Merges lo (b ∷ rest) a = merge_from-Merges b lo rest a
