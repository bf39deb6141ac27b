-- ===== src/Prelude/Words.antt =====
-- Machine words of C as native numbers: the wrap-around is written out.
use Prim.Native.Nat.{ℕ, zero, suc, ◌+◌, ◌-◌, ◌*◌, ◌%◌, ◌^◌, ◌<◌}
use mathlib.Core.Path.{◌≡◌}
use mathlib.Core.Bool.{Bool, true, ◌&&◌}
use native.Mathlib.Omega.{arith}

-- uint32_t addition, subtraction and multiplication.
abbrev pub u32 : ℕ → ℕ
u32 a = a % 2 ^ 32

abbrev pub add32 : ℕ → ℕ → ℕ
add32 a b = (a + b) % 2 ^ 32

abbrev pub sub32 : ℕ → ℕ → ℕ
sub32 a b = (a + 2 ^ 32 - b) % 2 ^ 32

abbrev pub mul32 : ℕ → ℕ → ℕ
mul32 a b = (a * b) % 2 ^ 32

-- A law of bytes is checked at every value below a bound by evaluation.
unfoldable pub all_below : ℕ → (ℕ → Bool) → Bool
all_below zero law = true
all_below (suc bound) law = all_below bound law && law bound

pub all_below_sound :
    (bound : ℕ) (law : ℕ → Bool) (value : ℕ)
    → all_below bound law ≡ true
    → value < bound
    → law value ≡ true
unfolding all_below
all_below_sound (suc bound) law value checked below =
    ground (arith, all_below_sound bound law value)
all_below_sound zero law value checked below = absurd (omega arith)
