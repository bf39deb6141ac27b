-- ===== src/Fs/Vfs/Raw/Patch.antt =====
-- Single bytes of a list that is cut, joined or patched.
use ceblar.Prelude.{
  ℕ, zero, suc, ◌+◌, ◌-◌, ◌<◌, ◌≤◌, ◌≡◌, refl, ◌&&◌, ltb, leb, if◌then◌else◌, List, [], ◌∷◌, ◌++◌,
  length, take, drop, get_or, arith, length-take, length-drop, length-append,
}
use ceblar.Fs.Vfs.{patched}

pub get_or-append :
    (xs ys : List ℕ) (j : ℕ)
    → get_or (xs ++ ys) j 0
      ≡ (if ltb j (length xs) then get_or xs j 0 else get_or ys (j - length xs) 0)
get_or-append [] ys zero = refl
get_or-append [] ys (suc j) = ground arith
get_or-append (x ∷ xs) ys zero = ground arith
get_or-append (x ∷ xs) ys (suc j) = ground (arith, get_or-append xs ys j)

pub get_or-take : (n : ℕ) (xs : List ℕ) (j : ℕ) → j < n → get_or (take n xs) j 0 ≡ get_or xs j 0
get_or-take zero xs j lt = absurd (omega arith)
get_or-take (suc n) [] j lt = refl
get_or-take (suc n) (x ∷ xs) zero lt = refl
get_or-take (suc n) (x ∷ xs) (suc j) lt = get_or-take n xs j (omega arith)

pub get_or-drop : (n : ℕ) (xs : List ℕ) (j : ℕ) → get_or (drop n xs) j 0 ≡ get_or xs (n + j) 0
get_or-drop zero xs j = ground arith
get_or-drop (suc n) [] j = ground arith
get_or-drop (suc n) (x ∷ xs) j = ground (arith, get_or-drop n xs j)

pub length-patched :
    (off : ℕ) (new sector : List ℕ)
    → off + length new ≤ length sector
    → length (patched off new sector) ≡ length sector
length-patched off new sector le = omega (
  arith,
  length-append (take off sector) (new ++ drop (off + length new) sector),
  length-append new (drop (off + length new) sector),
  length-take off sector,
  length-drop (off + length new) sector,
)

pub get_or-patched :
    (off : ℕ) (new sector : List ℕ) (j : ℕ)
    → off + length new ≤ length sector
    → get_or (patched off new sector) j 0 ≡ (
        if leb off j && ltb j (off + length new) then get_or new (j - off) 0 else get_or sector j 0)
get_or-patched off new sector j le =
    let size = length-take off sector in
    let outer = get_or-append (take off sector) (new ++ drop (off + length new) sector) j in
    let inner = get_or-append new (drop (off + length new) sector) (j - length (take off sector)) in
    let behind =
      get_or-drop (off + length new) sector (j - length (take off sector) - length new) in
    ground (arith, size, outer, inner, behind, get_or-take off sector j)
