-- ===== src/Prelude/Arrays.antt =====
-- A C array as a function of its index, and the number of its entries that pass a test.
use Prim.Native.Nat.{ℕ, zero, suc, ◌+◌, ◌≤◌, ◌<◌}
use mathlib.Core.Path.{◌≡◌, refl}
use mathlib.Core.Logic.{◌≢◌}
use mathlib.Core.Bool.{Bool, true, false}
use native.Mathlib.Omega.{arith}
use native.Mathlib.Decide.{ℕ_discrete}
use ceblar.Prelude.Tests.{◌==◌, if◌then◌else◌}

-- `a[i] = v`
abbrev pub update {ℓ} : {A : Type ℓ} → (ℕ → A) → ℕ → A → ℕ → A
update a i v j = if i == j then v else a j

pub update_self {ℓ} : {A : Type ℓ} (a : ℕ → A) (i : ℕ) (v : A) → update a i v i ≡ v
update_self a i v = ground arith

pub update_else {ℓ} :
    {A : Type ℓ} (a : ℕ → A) (i : ℕ) (v : A) (j : ℕ) → i ≢ j → update a i v j ≡ a j
update_else a i v j ne = ground (arith, ne)

-- The number of indices below `n` at which `f` holds.
unfoldable pub count_below : ℕ → (ℕ → Bool) → ℕ
count_below zero f = 0
count_below (suc n) f = count_below n f + (if f n then 1 else 0)

pub count_below_le : (n : ℕ) (f : ℕ → Bool) → count_below n f ≤ n
unfolding count_below
count_below_le zero f = omega arith
count_below_le (suc n) f = ground (arith, count_below_le n f)

pub count_below_ext :
    (n : ℕ) (f g : ℕ → Bool) → ((i : ℕ) → i < n → f i ≡ g i) → count_below n f ≡ count_below n g
unfolding count_below
count_below_ext zero f g h = refl
count_below_ext (suc n) f g h =
    ground (arith, h n, count_below_ext n f g (λ i lt. h i (omega arith)))

-- Turning one entry on adds one.
pub count_below_turn_on :
    (n : ℕ) (f g : ℕ → Bool) (p : ℕ)
    → p < n
    → f p ≡ false
    → ((i : ℕ) → g i ≡ (if p == i then true else f i))
    → count_below n g ≡ count_below n f + 1
unfolding count_below
count_below_turn_on zero f g p lt off same = absurd (omega arith)
count_below_turn_on (suc n) f g p lt off same = elim (ℕ_discrete p n) [
  | yes e ↦ ground (arith, same n, count_below_ext n g f (λ i h. ground (arith, same i)))
  | no e ↦ ground (arith, same n, count_below_turn_on n f g p)
]
