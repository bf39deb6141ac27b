-- ===== src/Prelude/Bits.antt =====
-- Laws of the bitwise operations at variables: how `|` and `&` go through a division by a power of
-- two, and what they do to the low digits.
use Prim.Native.Nat.{
  ℕ, zero, suc, ◌+◌, ◌*◌, ◌/◌, ◌%◌, ◌^◌, ◌≤◌, ◌<◌, max, bit_or, digits, bit_or-bitwise,
}
use mathlib.Core.Path.{◌≡◌, refl, ◌∙◌, ap, sym}
use native.Mathlib.Omega.{arith}
use native.Mathlib.Nat.{div-eq_of_lt, mod-eq_of_lt, pow-suc, one-le-pow}

-- What `|` means: digit by digit, with a count of digits that is large enough.
abbrev or_digits : ℕ → ℕ → ℕ → ℕ
or_digits = digits (λ y. y) max

or_digits-nil : (count b : ℕ) → or_digits count 0 b ≡ b
or_digits-nil zero b = refl
or_digits-nil (suc count) b = refl

or_digits_enough :
    (few many a b : ℕ) → a ≤ few → few ≤ many → or_digits many a b ≡ or_digits few a b
or_digits_enough few many zero b below more = or_digits-nil many b ∙ sym (or_digits-nil few b)
or_digits_enough (suc few) (suc many) (suc a) b below more =
    ap (λ high. high * 2 + max (suc a % 2) (b % 2))
      (or_digits_enough few many (suc a / 2) (b / 2) (omega arith) (omega arith))
or_digits_enough zero many (suc a) b below more = absurd (omega arith)
or_digits_enough (suc few) zero (suc a) b below more = absurd (omega arith)

pub zero-bit_or : (b : ℕ) → bit_or 0 b ≡ b
zero-bit_or b = bit_or-bitwise 0 b

-- The lowest digit apart from the others.
or_digit : (x y : ℕ) → bit_or x y ≡ max (x % 2) (y % 2) + 2 * bit_or (x / 2) (y / 2)
or_digit zero b = rw (zero-bit_or b, zero-bit_or (b / 2)) (omega arith)
or_digit (suc a) b =
    let half : ℕ = suc a / 2 in
    let enough = or_digits_enough half a half (b / 2) (omega arith) (omega arith) in
    bit_or-bitwise (suc a) b
    ∙ ap (λ high. high * 2 + max (suc a % 2) (b % 2)) (enough ∙ sym (bit_or-bitwise half (b / 2)))
    ∙ omega arith

or_zero_upto : (n a : ℕ) → a ≤ n → bit_or a 0 ≡ a
or_zero_upto n zero le = refl
or_zero_upto zero (suc a) le = absurd (omega arith)
or_zero_upto (suc n) (suc a) le =
    omega (arith, or_digit (suc a) 0, or_zero_upto n (suc a / 2) (omega arith))

pub bit_or-zero : (a : ℕ) → bit_or a 0 ≡ a
bit_or-zero a = or_zero_upto a a (omega arith)

-- What `|` does below and above a divisor `d`.
abbrev Splits : ℕ → Type 0
Splits d =
    (a b : ℕ)
    → (bit_or a b ≡ bit_or (a / d) (b / d) * d + bit_or (a % d) (b % d))
      × (bit_or (a % d) (b % d) < d)

-- From a divisor to its double.
module _ (d : ℕ) (pos : 0 < d) where
  double_div : (a : ℕ) → a / (d * 2) ≡ a / 2 / d
  double_div a = grind (arith)

  double_mod : (a : ℕ) → a % (d * 2) ≡ a / 2 % d * 2 + a % 2
  double_mod a = grind (arith)

  Splits-double : Splits d → Splits (d * 2)
  Splits-double h a b =
      let above = h (a / 2) (b / 2) in
      ground (
        arith,
        above,
        or_digit a b,
        or_digit (a % (d * 2)) (b % (d * 2)),
        double_div a,
        double_div b,
        double_mod a,
        double_mod b,
      )

Splits-pow : (k : ℕ) → Splits (2 ^ k)
Splits-pow zero = λ a b. ground (arith, bit_or-zero 0)
Splits-pow (suc k) =
    rw (pow-suc 2 k) (Splits-double (2 ^ k) (one-le-pow k 2 (omega arith)) (Splits-pow k))

add-mul-mod_self : (q r d : ℕ) → r < d → (q * d + r) % d ≡ r
add-mul-mod_self q r d lt = grind arith

module _ (k a b : ℕ) where
  -- `(a | b) >> k`
  pub bit_or-div : bit_or a b / 2 ^ k ≡ bit_or (a / 2 ^ k) (b / 2 ^ k)
  bit_or-div = grind (arith, Splits-pow k a b)

  -- `(a | b) & (2 ^ k - 1)`
  pub bit_or-mod : bit_or a b % 2 ^ k ≡ bit_or (a % 2 ^ k) (b % 2 ^ k)
  bit_or-mod =
      let (whole, low) = Splits-pow k a b in
      rw whole (
        add-mul-mod_self (bit_or (a / 2 ^ k) (b / 2 ^ k)) (bit_or (a % 2 ^ k) (b % 2 ^ k)) (2 ^ k)
          low)

  pub bit_or-lt : a < 2 ^ k → b < 2 ^ k → bit_or a b < 2 ^ k
  bit_or-lt la lb =
      let (whole, low) = Splits-pow k a b in
      let ea = mod-eq_of_lt la in let eb = mod-eq_of_lt lb in ground (arith, low, ea, eb)

  -- `(a | b) >> k & 1`
  pub bit_or_bit : bit_or a b / 2 ^ k % 2 ≡ max (a / 2 ^ k % 2) (b / 2 ^ k % 2)
  bit_or_bit = omega (arith, bit_or-div, or_digit (a / 2 ^ k) (b / 2 ^ k))

-- A frame address and an offset below a page do not overlap.
pub frame-bit_or : (q r : ℕ) → r < 2 ^ 12 → bit_or (q * 2 ^ 12) r ≡ q * 2 ^ 12 + r
frame-bit_or q r lt = ground (
  arith,
  bit_or-div 12 (q * 2 ^ 12) r,
  bit_or-mod 12 (q * 2 ^ 12) r,
  bit_or-zero q,
  zero-bit_or r,
)

-- `(q << k) | r` is a sum if `r` fits `k` bits.
pub bit_or_disjoint : (k x r : ℕ) → r < 2 ^ k → x % 2 ^ k ≡ 0 → bit_or x r ≡ x + r
bit_or_disjoint k x r lt low =
    let (whole, small) = Splits-pow k x r in
    let none_above : r / 2 ^ k ≡ 0 = div-eq_of_lt lt in
    let all_below : r % 2 ^ k ≡ r = mod-eq_of_lt lt in
    let high : bit_or (x / 2 ^ k) 0 ≡ x / 2 ^ k = bit_or-zero (x / 2 ^ k) in
    let parts : bit_or x r ≡ x / 2 ^ k * 2 ^ k + r =
      whole ∙ rw (none_above, all_below, low, high, zero-bit_or r) in
    grind (arith, parts, low)
