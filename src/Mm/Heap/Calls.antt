-- ===== src/Mm/Heap/Calls.antt =====
-- `kmalloc` and `kfree` of mm/heap.c together.
use ceblar.Prelude.{
  ℕ, suc, ◌+◌, ◌≤◌, ◌≡◌, ◌≢◌, refl, ap, sym, ◌∙◌, subst, true, false, ◌&&◌, ◌==◌, leb,
  if◌then◌else◌, some, List, [], ◌∷◌, add32, sub32, arith, Bool-cases, Option-cases, inl, inr,
}
use ceblar.Mm.Heap.{
  Block, Heap, header_size, remainder, split, merge, take_block, release, with_head, round_up,
  kmalloc_rounds, kmalloc, kfree,
}
use ceblar.Mm.Heap.Regions.{After, After-end, given, Coalesced, split-After, merge-Merges}

-- The block at `p` can be released, and then the same regions are given out as in `bs`.
record Returns (lo : ℕ) (bs bs' : List Block) (p : ℕ) : Type 0 where
  pub blocks : List Block
  pub released : release p bs' ≡ some blocks
  pub order : After lo blocks
  pub same : given blocks ≡ given bs
  pub above : lo ≤ sub32 p header_size

split_cut :
    (b : Block) (n : ℕ) (rest : List Block)
    → leb (add32 (add32 n header_size) 8) b.size ≡ true
    → split (record b { free = false }) n rest
      ≡ record b { size = n; free = false } ∷ remainder b n ∷ rest
unfolding split
split_cut b n rest cut = rw cut refl

split_whole :
    (b : Block) (n : ℕ) (rest : List Block)
    → leb (add32 (add32 n header_size) 8) b.size ≡ false
    → split (record b { free = false }) n rest ≡ record b { free = false } ∷ rest
unfolding split
split_whole b n rest whole = rw whole refl

-- A taken block in front is the one released.
release_front :
    (a m p : ℕ) (rest : List Block)
    → a ≡ sub32 p header_size
    → release p (record { address = a; size = m; free = false } ∷ rest)
      ≡ some (record { address = a; size = m; free = true } ∷ rest)
unfolding release
release_front a m p rest here =
    let test : a == sub32 p header_size ≡ true = ground (arith, here) in rw test refl

split-Returns :
    (n p lo : ℕ) (b : Block) (rest : List Block)
    → 16 ≤ lo
    → After lo (b ∷ rest)
    → b.free ≡ true
    → n ≤ b.size
    → b.address ≡ sub32 p header_size
    → Returns lo (b ∷ rest) (split (record b { free = false }) n rest) p
split-Returns n p lo b rest high a free room here =
    let ordered = split-After b n lo rest high room a in
    elim (Bool-cases (leb (add32 (add32 n header_size) 8) b.size)) [
      | inl cut ↦
          let shape = split_cut b n rest cut in
          let order = subst (After lo) shape ordered in
          subst (λ (ys : List Block). Returns lo (b ∷ rest) ys p) (sym shape)
            (record {
              blocks = record b { size = n; free = true } ∷ remainder b n ∷ rest;
              released = release_front b.address n p (remainder b n ∷ rest) here;
              order = order;
              same = ground (arith, free);
              above = omega (arith, here, a.0);
            })
      | inr whole ↦
          let shape = split_whole b n rest whole in
          let order = subst (After lo) shape ordered in
          subst (λ (ys : List Block). Returns lo (b ∷ rest) ys p) (sym shape)
            (record {
              blocks = record b { free = true } ∷ rest;
              released = release_front b.address b.size p rest here;
              order = order;
              same = ground (arith, free);
              above = omega (arith, here, a.0);
            })
    ]

release_behind :
    (b : Block) (p : ℕ) (rest blocks : List Block)
    → b.address == sub32 p header_size ≡ false
    → release p rest ≡ some blocks
    → release p (b ∷ rest) ≡ some (b ∷ blocks)
unfolding release
release_behind b p rest blocks other e = rw (other, e) refl

behind :
    (b : Block) (rest rest' : List Block) (q lo : ℕ)
    → lo ≤ b.address
    → Returns (b.address + header_size + b.size) rest rest' q
    → Returns lo (b ∷ rest) (b ∷ rest') q
behind b rest rest' q lo low r = record {
  blocks = b ∷ r.blocks;
  released = release_behind b q rest' r.blocks (ground (arith, r.above)) r.released;
  order = (low, r.order);
  same = ap (λ (ys : List (ℕ × ℕ)). if b.free then ys else (b.address, b.size) ∷ ys) r.same;
  above = omega (arith, r.above);
}

take_block-Returns :
    (n p lo : ℕ) (bs bs' : List Block)
    → 16 ≤ lo
    → After lo bs
    → take_block n bs ≡ some (p, bs')
    → Returns lo bs bs' p
unfolding take_block
take_block-Returns n p lo [] bs' high a e = absurd (ground (arith, e))
take_block-Returns n p lo (b ∷ rest) bs' high a e = elim (Bool-cases (b.free && leb n b.size)) [
  | inl fits ↦
      let free : b.free ≡ true = ground (arith, fits) in
      let room : n ≤ b.size = ground (arith, fits) in
      let end = After-end (b.address + header_size + b.size) rest a.1 in
      let place : add32 b.address header_size ≡ p = ground (arith, e, fits) in
      let list : split (record b { free = false }) n rest ≡ bs' = ground (arith, e, fits) in
      subst (λ (ys : List Block). Returns lo (b ∷ rest) ys p) list
        (split-Returns n p lo b rest high a free room (omega (arith, place, a.0, end)))
  | inr other ↦ elim (Option-cases (take_block n rest)) [
    | inl failed ↦ absurd (ground (arith, e, other, failed))
    | inr ((q, rest'), got) ↦
        let place : q ≡ p = ground (arith, e, other, got) in
        let list : b ∷ rest' ≡ bs' = ground (arith, e, other, got) in
        let back =
          take_block-Returns n q (b.address + header_size + b.size) rest rest' (omega (arith, a.0))
            a.1 got in
        subst (λ k. Returns lo (b ∷ rest) bs' k) place
          (subst (λ (ys : List Block). Returns lo (b ∷ rest) ys q) list
            (behind b rest rest' q lo a.0 back))
  ]
]

with_head_lem :
    (heap_area n : ℕ) (h : Heap) (bs : List Block) (r : ℕ × List Block)
    → take_block n bs ≡ some r
    → with_head heap_area bs h ≡ h
unfolding with_head take_block
with_head_lem heap_area n h [] r e = absurd (ground (arith, e))
with_head_lem heap_area n h (b ∷ rest) r e = refl

kmalloc_rounds_found :
    (fuel n p : ℕ) (h : Heap) (bs' : List Block)
    → take_block n h.blocks ≡ some (p, bs')
    → kmalloc_rounds (suc fuel) n h ≡ (p, record h { blocks = bs' })
unfolding kmalloc_rounds
kmalloc_rounds_found fuel n p h bs' found = rw (found, kmalloc_rounds) refl

module _ (heap_area n p lo : ℕ) (h : Heap) (bs' : List Block) (high : 16 ≤ lo)
    (order : After lo h.blocks) (some_bytes : n ≢ 0) (nonzero : p ≢ 0)
    (found : take_block (round_up n) h.blocks ≡ some (p, bs')) where
  kmalloc_found : kmalloc heap_area n h ≡ (p, record h { blocks = bs' })
  unfolding kmalloc
  kmalloc_found =
      let test : n == 0 ≡ false = ground (arith, some_bytes) in
      let same = with_head_lem heap_area (round_up n) h h.blocks (p, bs') found in
      rw (same, test) (kmalloc_rounds_found 65536 (round_up n) p h bs' found)

  kfree_found :
      (bs'' : List Block)
      → release p bs' ≡ some bs''
      → kfree p (record h { blocks = bs' }) ≡ record h { blocks = merge bs'' }
  unfolding kfree
  kfree_found bs'' e = let test : p == 0 ≡ false = ground (arith, nonzero) in rw (test, e) refl

  -- With blocks in order and one that is free and large enough, `kmalloc` returns the address behind its
  -- header, and `kfree` of that address, if it is not null, gives back the regions as they were; the blocks are in order after it, and no two free
  -- ones stand side by side.
  pub kfree-kmalloc :
      let (q, h₁) = kmalloc heap_area n h in
      (q ≡ p)
      × (given (kfree q h₁).blocks ≡ given h.blocks)
      × After lo (kfree q h₁).blocks
      × Coalesced (kfree q h₁).blocks
  kfree-kmalloc =
      let back = take_block-Returns (round_up n) p lo h.blocks bs' high order found in
      let (after, same, apart) = merge-Merges lo back.blocks back.order in
      subst
        (λ (r : ℕ × Heap).
          (r.0 ≡ p)
          × (given (kfree r.0 r.1).blocks ≡ given h.blocks)
          × After lo (kfree r.0 r.1).blocks
          × Coalesced (kfree r.0 r.1).blocks)
        (sym kmalloc_found)
        (subst
          (λ (r : Heap).
            (p ≡ p) × (given r.blocks ≡ given h.blocks) × After lo r.blocks × Coalesced r.blocks)
          (sym (kfree_found back.blocks back.released)) (refl, same ∙ back.same, after, apart))
