-- ===== src/Net/Checksum.antt =====
-- The Internet checksum of net/net.c over a buffer, a list of bytes.
pub mod Sum
use ceblar.Prelude.{
  ℕ, zero, suc, ◌+◌, ◌-◌, ◌*◌, ◌/◌, ◌%◌, ◌^◌, bit_or, ◌==◌, ltb, if◌then◌else◌, List, [], ◌∷◌,
  add32,
}

-- `(uint16_t)((x << 8) | (x >> 8))`
unfoldable pub swap16 : ℕ → ℕ
swap16 x = bit_or (x * 2 ^ 8) (x / 2 ^ 8) % 2 ^ 16

-- The end-around carry inside the loop of `add_words`.
abbrev pub carry : ℕ → ℕ
carry s = if ltb 0xffff s then (s % 2 ^ 16 + s / 2 ^ 16) else s

-- Two bytes of a word of the sum; `<<` and `|` put them side by side.
unfoldable pub add_words : ℕ → List ℕ → ℕ
add_words sum [] = sum
add_words sum (a ∷ []) = add32 sum (a * 2 ^ 8)
add_words sum (a ∷ b ∷ rest) = add_words (carry (add32 sum (a * 2 ^ 8 + b))) rest

-- `while (sum >> 16) sum = (sum & 0xffff) + (sum >> 16)` with fuel; a 32-bit sum needs two rounds.
unfoldable pub fold_rounds : ℕ → ℕ → ℕ
fold_rounds zero s = s
fold_rounds (suc n) s =
    let rest = fold_rounds n (s % 2 ^ 16 + s / 2 ^ 16) in if s / 2 ^ 16 == 0 then s else rest

unfoldable pub fold_checksum : ℕ → ℕ
fold_checksum sum = 0xffff - fold_rounds 2 sum % 2 ^ 16

unfoldable pub net_checksum : List ℕ → ℕ
net_checksum bytes = fold_checksum (add_words 0 bytes)
