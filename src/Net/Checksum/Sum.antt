-- ===== src/Net/Checksum/Sum.antt =====
-- The checksum against the sum of the buffer's 16-bit words modulo 65535.
use ceblar.Prelude.{
  ℕ, ◌+◌, ◌*◌, ◌/◌, ◌%◌, ◌^◌, ◌<◌, ◌≡◌, ◌≢◌, ◌↔◌, List, [], ◌∷◌, ◌++◌, add32, arith, Every,
}
use ceblar.Net.Checksum.{carry, add_words, fold_rounds, fold_checksum, net_checksum}

abbrev pub AreBytes : List ℕ → Type 0
AreBytes = Every (λ b. b < 256)

-- The words of a buffer in network order, a last single byte being the high half of one.
unfoldable pub word_sum : List ℕ → ℕ
word_sum [] = 0
word_sum (a ∷ []) = a * 2 ^ 8
word_sum (a ∷ b ∷ rest) = a * 2 ^ 8 + b + word_sum rest

-- Two rounds bring a 32-bit sum below 2 ^ 16 and keep it modulo 65535; only 0 becomes 0.
fold_rounds_lem :
    (s : ℕ)
    → s < 2 ^ 32
    → (fold_rounds 2 s < 2 ^ 16)
      × (fold_rounds 2 s % 65535 ≡ s % 65535)
      × (fold_rounds 2 s ≡ 0 → s ≡ 0)
      × (s ≡ 0 → fold_rounds 2 s ≡ 0)
unfolding fold_rounds
fold_rounds_lem s lt = ground arith

-- The loop of `add_words` keeps the sum below 2 ^ 17, where nothing wraps, and right modulo 65535.
add_words_lem :
    (s : ℕ) (bytes : List ℕ)
    → AreBytes bytes
    → s < 2 ^ 16
    → (add_words s bytes < 2 ^ 17)
      × (add_words s bytes % 65535 ≡ (s + word_sum bytes) % 65535)
      × (add_words s bytes ≡ 0 → s + word_sum bytes ≡ 0)
      × (s + word_sum bytes ≡ 0 → add_words s bytes ≡ 0)
unfolding add_words word_sum
add_words_lem s [] are lt = omega arith
add_words_lem s (a ∷ []) are lt = ground arith
add_words_lem s (a ∷ b ∷ rest) are lt =
    let s' : ℕ = carry (add32 s (a * 2 ^ 8 + b)) in
    let small : s' < 2 ^ 16 = ground arith in
    let same : s' % 65535 ≡ (s + (a * 2 ^ 8 + b)) % 65535 = ground arith in
    let none_lost : s' ≡ 0 → s + (a * 2 ^ 8 + b) ≡ 0 = ground arith in
    let none_made : s + (a * 2 ^ 8 + b) ≡ 0 → s' ≡ 0 = ground arith in
    let (below, congruent, zero_only, cleared) = add_words_lem s' rest are.1.1 small in
    (
      below,
      omega (arith, congruent, same),
      (λ e. omega (arith, none_lost, zero_only e)),
      (λ e. cleared (omega (arith, none_made, e))),
    )

module _ (bytes : List ℕ) (are : AreBytes bytes) where
  -- For a buffer of bytes, `net_checksum` fits 16 bits, makes the sum of the words a multiple of 65535
  -- when it is added, and is 0xffff exactly if the words sum to 0.
  pub net_checksum-complement :
      (net_checksum bytes < 2 ^ 16)
      × ((net_checksum bytes + word_sum bytes) % 65535 ≡ 0)
      × (net_checksum bytes ≡ 0xffff ↔ (word_sum bytes ≡ 0))
  unfolding net_checksum fold_checksum
  net_checksum-complement =
      let (below, congruent, zero_only, cleared) = add_words_lem 0 bytes are (omega arith) in
      let (short, kept, nonzero, null) = fold_rounds_lem (add_words 0 bytes) (omega arith) in
      (
        omega arith,
        omega (arith, kept, congruent, short),
        (
          (λ e. omega (arith, zero_only (nonzero (omega (arith, short, e))))),
          (λ e. omega (arith, null (cleared (omega (arith, e))))),
        ),
      )

-- Pairs of bytes.
abbrev pub IsEven : List ℕ → Type 0
IsEven [] = Unit {0}
IsEven (a ∷ []) = ⊥
IsEven (a ∷ b ∷ rest) = IsEven rest

word_sum-append : (xs ys : List ℕ) → IsEven xs → word_sum (xs ++ ys) ≡ word_sum xs + word_sum ys
unfolding word_sum
word_sum-append [] ys even = omega arith
word_sum-append (a ∷ []) ys even = absurd even
word_sum-append (a ∷ b ∷ rest) ys even = omega (arith, word_sum-append rest ys even)

AreBytes-append : (xs ys : List ℕ) → AreBytes xs → AreBytes ys → AreBytes (xs ++ ys)
AreBytes-append [] ys are are' = are'
AreBytes-append (x ∷ xs) ys are are' = (are.0, AreBytes-append xs ys are.1 are')

-- A checksum of 0 is that of a buffer whose words sum to a positive multiple of 65535.
net_checksum-zero :
    (bytes : List ℕ)
    → AreBytes bytes
    → word_sum bytes % 65535 ≡ 0
    → word_sum bytes ≢ 0
    → net_checksum bytes ≡ 0
unfolding net_checksum fold_checksum
net_checksum-zero bytes are multiple ne =
    let (below, congruent, zero_only, cleared) = add_words_lem 0 bytes are (omega arith) in
    let (short, kept, nonzero, null) = fold_rounds_lem (add_words 0 bytes) (omega arith) in
    let some_sum : fold_rounds 2 (add_words 0 bytes) ≢ 0 =
      λ e. ne (omega (arith, zero_only (nonzero e))) in
    omega (arith, kept, congruent, short, some_sum)

-- The receiver's check: a buffer of an even number of bytes with its checksum behind it, in network
-- order, has the checksum 0.
pub net_checksum-verify :
    (bytes : List ℕ)
    → AreBytes bytes
    → IsEven bytes
    → net_checksum (bytes ++ net_checksum bytes / 2 ^ 8 ∷ net_checksum bytes % 2 ^ 8 ∷ []) ≡ 0
unfolding word_sum
net_checksum-verify bytes are even =
    let (short, complement, full) = net_checksum-complement bytes are in
    let c : ℕ = net_checksum bytes in
    let sent : List ℕ = c / 2 ^ 8 ∷ (c % 2 ^ 8) ∷ [] in
    let total = word_sum-append bytes sent even in
    net_checksum-zero (bytes ++ sent)
      (AreBytes-append bytes sent are (omega (arith, short), (omega arith, tt)))
      (omega (arith, total, complement)) (λ e. omega (arith, total, full.1, e))
