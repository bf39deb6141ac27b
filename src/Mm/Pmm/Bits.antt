-- ===== src/Mm/Pmm/Bits.antt =====
-- The bitmap of mm/pmm.c as a set of pages: one bit changes and the others stay.
use ceblar.Prelude.{
  ℕ, ◌-◌, ◌/◌, ◌%◌, ◌^◌, ◌<◌, bit_and, bit_or, ◌≡◌, refl, Bool, true, false, ◌&&◌, ◌||◌, ◌==◌, ltb,
  if◌then◌else◌, arith, all_below, all_below_sound,
}
use ceblar.Mm.Pmm.{Pmm, bit_set, bit_clear, bit_test}

-- Every entry of `page_bitmap` is a byte.
abbrev pub IsBytes : Pmm → Type 0
IsBytes s = (i : ℕ) → s.page_bitmap i < 256

bool_eq : Bool → Bool → Bool
bool_eq true b = b
bool_eq false true = false
bool_eq false false = true

bool_eq_sound : (a b : Bool) → bool_eq a b ≡ true → a ≡ b
unfolding bool_eq
bool_eq_sound true true h = refl
bool_eq_sound true false h = ground arith
bool_eq_sound false true h = ground arith
bool_eq_sound false false h = refl

abbrev byte_bit : ℕ → ℕ → Bool
byte_bit b j = (b / 2 ^ j) % 2 == 1

abbrev set_law : ℕ → ℕ → ℕ → Bool
set_law b k j = bool_eq (byte_bit (bit_or b (2 ^ k)) j) (if k == j then true else byte_bit b j)

set_table : all_below 256 (λ b. all_below 8 (λ k. all_below 8 (λ j. set_law b k j))) ≡ true
unfolding all_below bool_eq
set_table = refl

abbrev clear_law : ℕ → ℕ → ℕ → Bool
clear_law b k j =
    bool_eq (byte_bit (bit_and b (255 - 2 ^ k)) j) (if k == j then false else byte_bit b j)

clear_table : all_below 256 (λ b. all_below 8 (λ k. all_below 8 (λ j. clear_law b k j))) ≡ true
unfolding all_below bool_eq
clear_table = refl

-- Setting and clearing a bit stay in a byte, and clearing undoes setting.
abbrev byte_law : ℕ → ℕ → Bool
byte_law b k =
    ltb (bit_or b (2 ^ k)) 256
    && ltb (bit_and b (255 - 2 ^ k)) 256
    && (byte_bit b k || (bit_and (bit_or b (2 ^ k)) (255 - 2 ^ k) == b))

byte_table : all_below 256 (λ b. all_below 8 (byte_law b)) ≡ true
unfolding all_below
byte_table = refl

module _ (b k : ℕ) (hb : b < 256) (hk : k < 8) where
  set_at : (j : ℕ) → j < 8 → byte_bit (bit_or b (2 ^ k)) j ≡ (if k == j then true else byte_bit b j)
  set_at j hj =
      bool_eq_sound _ _
        (all_below_sound 8 _ j (all_below_sound 8 _ k (all_below_sound 256 _ b set_table hb) hk) hj)

  clear_at :
      (j : ℕ)
      → j < 8
      → byte_bit (bit_and b (255 - 2 ^ k)) j ≡ (if k == j then false else byte_bit b j)
  clear_at j hj =
      bool_eq_sound _ _ (
        all_below_sound 8 _ j (all_below_sound 8 _ k (all_below_sound 256 _ b clear_table hb) hk)
          hj)

  byte_at : byte_law b k ≡ true
  byte_at = all_below_sound 8 _ k (all_below_sound 256 _ b byte_table hb) hk

module _ (s : Pmm) (p : ℕ) (bytes : IsBytes s) where
  pub bit_set-IsBytes : IsBytes (bit_set p s)
  unfolding bit_set
  bit_set-IsBytes i =
      ground (arith, bytes i, byte_at (s.page_bitmap (p / 8)) (p % 8) (bytes (p / 8)) (omega arith))

  pub bit_clear-IsBytes : IsBytes (bit_clear p s)
  unfolding bit_clear
  bit_clear-IsBytes i =
      ground (arith, bytes i, byte_at (s.page_bitmap (p / 8)) (p % 8) (bytes (p / 8)) (omega arith))

  -- Setting a bit turns on that page and no other.
  pub bit_test-bit_set :
      (q : ℕ) → bit_test q (bit_set p s) ≡ (if p == q then true else bit_test q s)
  unfolding bit_test bit_set
  bit_test-bit_set q = ground (
    arith,
    set_at (s.page_bitmap (p / 8)) (p % 8) (bytes (p / 8)) (omega arith) (q % 8) (omega arith),
  )

  -- Clearing a bit turns off that page and no other.
  pub bit_test-bit_clear :
      (q : ℕ) → bit_test q (bit_clear p s) ≡ (if p == q then false else bit_test q s)
  unfolding bit_test bit_clear
  bit_test-bit_clear q = ground (
    arith,
    clear_at (s.page_bitmap (p / 8)) (p % 8) (bytes (p / 8)) (omega arith) (q % 8) (omega arith),
  )
