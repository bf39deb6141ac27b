-- ===== src/Fs/Fat32/Names.antt =====
-- The two forms of a name in fs/fat32/fat32.c: `make_83` and back by `short_name`.
use ceblar.Prelude.{
  ℕ, zero, suc, ◌+◌, ◌-◌, ◌≤◌, ◌≡◌, ◌≢◌, refl, ap, sym, ◌∙◌, Bool, true, false, ◌==◌, ltb,
  if◌then◌else◌, [], ◌∷◌, ◌++◌, length, get_or, drop, replicate, Every, min, arith, ne→==,
  length-append, length-replicate,
}
use ceblar.Fs.Block.{Bytes}
use ceblar.Fs.Fat32.{
  until_space, short_name, upper, base_from, extension_from, skip_dot, pad, make_83,
}

-- A character that both forms keep: no space, dot, slash or small letter.
pub record IsPlain (c : ℕ) : Type 0 where
  pub no_space : c ≢ 32
  pub no_dot : c ≢ 46
  pub no_slash : c ≢ 47
  pub no_small : upper c ≡ c

base_from_lem :
    (n : ℕ) (base ext : Bytes)
    → length base ≤ n
    → Every IsPlain base
    → ((base_from n (base ++ 46 ∷ ext)).0 ≡ base)
      × ((base_from n (base ++ 46 ∷ ext)).1 ≡ (if length base == n then 46 ∷ ext else ext))
unfolding base_from
base_from_lem zero [] ext le plain = (refl, refl)
base_from_lem (suc n) [] ext le plain = (refl, ground arith)
base_from_lem zero (c ∷ base) ext le plain = absurd (omega arith)
base_from_lem (suc n) (c ∷ base) ext le plain =
    let (same, behind) = base_from_lem n base ext (omega arith) plain.1 in
    let h = plain.0 in
    let slash : c == 47 ≡ false = ne→== _ _ h.no_slash in
    let dot : upper c == 46 ≡ false = ne→== _ _ (λ e. h.no_dot (sym h.no_small ∙ e)) in
    let counted : suc (length base) == suc n ≡ length base == n = ground arith in
    rw (slash, dot, counted) (ground (arith, h.no_small, same), behind)

extension_from_lem :
    (n : ℕ) (ext : Bytes) → length ext ≤ n → Every IsPlain ext → extension_from n ext ≡ ext
unfolding extension_from
extension_from_lem zero [] le plain = refl
extension_from_lem (suc n) [] le plain = refl
extension_from_lem zero (c ∷ ext) le plain = absurd (omega arith)
extension_from_lem (suc n) (c ∷ ext) le plain =
    let ih = extension_from_lem n ext (omega arith) plain.1 in
    let h = plain.0 in
    let slash : c == 47 ≡ false = ne→== _ _ h.no_slash in
    rw (slash, ih) (ap (λ k. k ∷ ext) h.no_small)

until_space_lem :
    (n : ℕ) (xs r : Bytes) → length xs ≤ n → Every IsPlain xs → until_space n (pad n xs ++ r) ≡ xs
unfolding until_space
until_space_lem zero [] r le plain = refl
until_space_lem (suc n) [] r le plain = ground arith
until_space_lem zero (c ∷ xs) r le plain = absurd (omega arith)
until_space_lem (suc n) (c ∷ xs) r le plain =
    let ih = until_space_lem n xs r (omega arith) plain.1 in
    let h = plain.0 in
    let space : c == 32 ≡ false = ne→== _ _ h.no_space in
    let fewer : suc n - suc (length xs) ≡ n - length xs = omega arith in rw (space, fewer, ih) refl

drop_append : (n : ℕ) (xs ys : Bytes) → length xs ≡ n → drop n (xs ++ ys) ≡ ys
drop_append zero [] ys e = refl
drop_append (suc n) [] ys e = absurd (omega arith)
drop_append zero (x ∷ xs) ys e = absurd (omega arith)
drop_append (suc n) (x ∷ xs) ys e = drop_append n xs ys (omega arith)

get_or-drop : (n : ℕ) (xs : Bytes) → get_or xs n 0 ≡ get_or (drop n xs) 0 0
get_or-drop zero xs = refl
get_or-drop (suc n) [] = refl
get_or-drop (suc n) (x ∷ xs) = get_or-drop n xs

length-pad : (n : ℕ) (xs : Bytes) → length xs ≤ n → length (pad n xs) ≡ n
length-pad n xs le =
    let sum = length-append xs (replicate (n - length xs) 32) in
    let spaces = length-replicate {A = ℕ} (n - length xs) 32 in omega (arith, sum, spaces)

append_assoc : (xs ys zs : Bytes) → (xs ++ ys) ++ zs ≡ xs ++ (ys ++ zs)
append_assoc [] ys zs = refl
append_assoc (x ∷ xs) ys zs = ap (◌∷◌ x) (append_assoc xs ys zs)

skip_dot_lem :
    (b : Bool) (e : ℕ) (ext : Bytes)
    → IsPlain e
    → skip_dot (if b then 46 ∷ e ∷ ext else e ∷ ext) ≡ e ∷ ext
skip_dot_lem true e ext h = refl
skip_dot_lem false e ext h = let dot : e == 46 ≡ false = ne→== _ _ h.no_dot in rw dot refl

module _ (base ext : Bytes) (e : ℕ) (rest : Bytes) (short : length base ≤ 8) (few : length ext ≤ 2)
    (base_plain : Every IsPlain base) (ext_plain : Every IsPlain (e ∷ ext)) where
  make_83-name : make_83 (base ++ 46 ∷ e ∷ ext) ≡ pad 8 base ++ pad 3 (e ∷ ext)
  unfolding make_83
  make_83-name =
      let (same, behind) = base_from_lem 8 base (e ∷ ext) short base_plain in
      rw
        (
          same,
          behind,
          skip_dot_lem (length base == 8) e ext ext_plain.0,
          extension_from_lem 3 (e ∷ ext) (omega arith) ext_plain,
        )
        refl

  -- A name of at most 8 characters with an extension of 1 to 3, all of them plain (`IsPlain`): `short_name`
  -- of the entry that bears its 11 characters gives it back, in a buffer of 13 bytes or more.
  pub short_name-make_83 :
      (capacity : ℕ)
      → 13 ≤ capacity
      → short_name (make_83 (base ++ 46 ∷ e ∷ ext) ++ rest) capacity ≡ base ++ 46 ∷ e ∷ ext
  unfolding short_name
  short_name-make_83 capacity room =
      let entry : Bytes = pad 8 base ++ (pad 3 (e ∷ ext) ++ rest) in
      let shape : make_83 (base ++ 46 ∷ e ∷ ext) ++ rest ≡ entry =
        ap (λ (x : Bytes). x ++ rest) make_83-name
        ∙ append_assoc (pad 8 base) (pad 3 (e ∷ ext)) rest in
      let behind : drop 8 entry ≡ pad 3 (e ∷ ext) ++ rest =
        drop_append 8 (pad 8 base) (pad 3 (e ∷ ext) ++ rest) (length-pad 8 base short) in
      let eight : min 8 (capacity - 1) ≡ 8 = omega arith in
      let first : until_space 8 entry ≡ base =
        until_space_lem 8 base (pad 3 (e ∷ ext) ++ rest) short base_plain in
      let second : until_space 3 (drop 8 entry) ≡ e ∷ ext =
        ap (until_space 3) behind ∙ until_space_lem 3 (e ∷ ext) rest (omega arith) ext_plain in
      let three : min 3 (capacity - (length base + 2)) ≡ 3 = omega arith in
      let head : get_or entry 8 0 == 32 ≡ false =
        rw (get_or-drop 8 entry, behind) (ne→== _ _ ext_plain.0.no_space) in
      let fits : ltb (length base + 1) capacity ≡ true = ground (arith, short, room) in
      rw (shape, eight, first, head, fits, three, second) refl
