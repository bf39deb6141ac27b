-- ===== src/Drivers/Vga.antt =====
-- drivers/vga/vga.c: the text screen, 25 rows of 80 cells. The cursor's ports are not modelled.
pub mod Cursor
mod Tests
use ceblar.Prelude.{
  ℕ, zero, suc, ◌+◌, ◌-◌, ◌*◌, ◌/◌, ◌%◌, ◌^◌, bit_or, Bool, true, false, ◌==◌, ltb, leb,
  if◌then◌else◌, List, [], ◌∷◌, update,
}

-- `video`, whose cells are numbered from 0xb8000 on, and the static variables.
pub record Screen : Type 0 where
  pub video : ℕ → ℕ
  pub row : ℕ
  pub col : ℕ
  pub color : ℕ

-- `((uint16_t)color << 8) | c`
abbrev pub cell : ℕ → ℕ → ℕ
cell color c = bit_or (color * 2 ^ 8) c

unfoldable pub vga_set_color : ℕ → ℕ → Screen → Screen
vga_set_color fg bg s = record s { color = bit_or (bg * 2 ^ 4) (fg % 2 ^ 4) % 2 ^ 8 }

-- Rows 1 to 24 move up by one, all cells at once, and the last one is blank.
unfoldable pub vga_scroll : Screen → Screen
vga_scroll s = record s {
  video = λ i.
      if ltb i 1920 then s.video (i + 80) else if ltb i 2000 then cell s.color 32 else s.video i;
  row = 24;
}

unfoldable pub vga_clear : Screen → Screen
vga_clear s = record s {
  video = λ i. if ltb i 2000 then cell s.color 32 else s.video i;
  row = 0;
  col = 0;
}

-- `video[row*80+col] = ...; if (++col >= 80) { col = 0; row++; }`
unfoldable pub put_glyph : ℕ → Screen → Screen
put_glyph c s =
    let s₁ = record s { video = update s.video (s.row * 80 + s.col) (cell s.color c) } in
    if leb 80 ((s.col + 1) % 256)
    then record s₁ { col = 0; row = (s.row + 1) % 256 }
    else record s₁ { col = (s.col + 1) % 256 }

-- `(uint8_t)((col + 8) & ~7u)`
abbrev pub next_tab : ℕ → ℕ
next_tab col = (col + 8) / 8 * 8 % 256

unfoldable pub move_cursor : ℕ → Screen → Screen
move_cursor c s =
    if c == 10
    then record s { col = 0; row = (s.row + 1) % 256 }
    else if c == 13
    then record s { col = 0 }
    else if c == 9
    then record s { col = next_tab s.col }
    else put_glyph c s

unfoldable pub vga_putc : ℕ → Screen → Screen
vga_putc c s = let s₁ = move_cursor c s in if leb 25 s₁.row then vga_scroll s₁ else s₁

unfoldable pub vga_write : List ℕ → Screen → Screen
vga_write [] s = s
vga_write (c ∷ cs) s = vga_write cs (vga_putc c s)
