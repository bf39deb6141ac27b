-- ===== src/Drivers/Vga/Cursor.antt =====
-- Where the cursor of drivers/vga/vga.c can stand, and which cells are written.
use ceblar.Prelude.{ℕ, ◌<◌, ◌≤◌, ◌≡◌, ◌≢◌, refl, ◌∙◌, List, [], ◌∷◌, Every, arith}
use ceblar.Drivers.Vga.{Screen, cell, vga_scroll, put_glyph, move_cursor, vga_putc, vga_write}

-- The cursor is in a row of the screen, and in a column up to 248, where tabs can take it.
pub record InRows (s : Screen) : Type 0 where
  pub row_in : s.row < 25
  pub col_near : s.col ≤ 248

vga_putc-InRows : (c : ℕ) (s : Screen) → InRows s → InRows (vga_putc c s)
unfolding vga_putc move_cursor put_glyph vga_scroll
vga_putc-InRows c s v = ground (arith, v.row_in, v.col_near)

vga_putc-near : (c i : ℕ) (s : Screen) → InRows s → 2169 ≤ i → (vga_putc c s).video i ≡ s.video i
unfolding vga_putc move_cursor put_glyph vga_scroll
vga_putc-near c i s v out = ground (arith, v.row_in, v.col_near, out)

-- Whatever is written, the cursor stays in the rows of the screen and in columns up to 248, and no cell
-- from 2169 on changes.
pub vga_write-InRows :
    (text : List ℕ) (s : Screen)
    → InRows s
    → InRows (vga_write text s) × ((i : ℕ) → 2169 ≤ i → (vga_write text s).video i ≡ s.video i)
unfolding vga_write
vga_write-InRows [] s v = (v, λ i out. refl)
vga_write-InRows (c ∷ cs) s v =
    let (rows, near) = vga_write-InRows cs (vga_putc c s) (vga_putc-InRows c s v) in
    (rows, λ i out. near i out ∙ vga_putc-near c i s v out)

abbrev IsColumn : Screen → Type 0
IsColumn s = s.col < 80

untabbed :
    (c : ℕ) (s : Screen)
    → InRows s
    → IsColumn s
    → c ≢ 9
    → IsColumn (vga_putc c s) × ((i : ℕ) → 2000 ≤ i → (vga_putc c s).video i ≡ s.video i)
unfolding vga_putc move_cursor put_glyph vga_scroll
untabbed c s v column no_tab = (
  ground (arith, v.row_in, column, no_tab),
  λ i out. ground (arith, v.row_in, column, no_tab, out),
)

-- Text without tabs, from a column of the screen, writes no cell behind the 2000 of the screen.
pub vga_write-inside :
    (text : List ℕ) (s : Screen)
    → InRows s
    → s.col < 80
    → Every (λ c. c ≢ 9) text
    → (i : ℕ) → 2000 ≤ i
    → (vga_write text s).video i ≡ s.video i
unfolding vga_write
vga_write-inside [] s v column plain i out = refl
vga_write-inside (c ∷ cs) s v column plain i out =
    let (next_column, kept) = untabbed c s v column plain.0 in
    vga_write-inside cs (vga_putc c s) (vga_putc-InRows c s v) next_column plain.1 i out
    ∙ kept i out

-- In the last row, a tab in one of the last eight columns followed by a character that is not a control
-- character puts it in the cell behind the screen.
pub tab_overruns :
    (c : ℕ) (s : Screen)
    → s.row ≡ 24
    → 72 ≤ s.col
    → s.col < 80
    → 32 ≤ c
    → (vga_putc c (vga_putc 9 s)).video 2000 ≡ cell s.color c
unfolding vga_putc move_cursor put_glyph vga_scroll
tab_overruns c s row late column visible = ground (arith, row, late, column, visible)
