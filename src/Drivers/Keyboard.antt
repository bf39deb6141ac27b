-- ===== src/Drivers/Keyboard.antt =====
-- drivers/keyboard/keyboard.c: the ring of characters between the interrupt and its reader. The scan code
-- that the port gives is an argument.
use ceblar.Prelude.{ℕ, ◌+◌, ◌%◌, ◌||◌, ◌==◌, leb, if◌then◌else◌, List, [], ◌∷◌, get_or, update}

abbrev pub key_buf_size : ℕ
key_buf_size = 64

-- The characters of scan codes; the codes behind the end have none.
abbrev pub map : List ℕ
map =
    0 ∷ 27 ∷ 49 ∷ 50 ∷ 51 ∷ 52 ∷ 53 ∷ 54 ∷ 55 ∷ 56 ∷ 57 ∷ 48 ∷ 45 ∷ 61 ∷ 8 ∷ 9 ∷ 113 ∷ 119 ∷ 101
    ∷ 114 ∷ 116 ∷ 121 ∷ 117 ∷ 105 ∷ 111 ∷ 112 ∷ 91 ∷ 93 ∷ 10 ∷ 0 ∷ 97 ∷ 115 ∷ 100 ∷ 102 ∷ 103 ∷ 104
    ∷ 106 ∷ 107 ∷ 108 ∷ 59 ∷ 39 ∷ 96 ∷ 0 ∷ 92 ∷ 122 ∷ 120 ∷ 99 ∷ 118 ∷ 98 ∷ 110 ∷ 109 ∷ 44 ∷ 46 ∷ 47
    ∷ 0 ∷ 42 ∷ 0 ∷ 32 ∷ 95 ∷ []

pub record Keyboard : Type 0 where
  pub key_buf : ℕ → ℕ
  pub key_head : ℕ
  pub key_tail : ℕ

-- A key that is pressed and has a character, with room for it.
unfoldable pub keyboard_irq : ℕ → Keyboard → Keyboard
keyboard_irq code k =
    let n = (k.key_tail + 1) % key_buf_size in
    if leb 128 code || get_or map code 0 == 0 || n == k.key_head
    then k
    else record k { key_buf = update k.key_buf k.key_tail (get_or map code 0); key_tail = n }

unfoldable pub keyboard_getc : Keyboard → ℕ × Keyboard
keyboard_getc k =
    if k.key_head == k.key_tail
    then (0, k)
    else (k.key_buf k.key_head, record k { key_head = (k.key_head + 1) % key_buf_size })
