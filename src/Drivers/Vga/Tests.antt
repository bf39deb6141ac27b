-- ===== src/Drivers/Vga/Tests.antt =====
-- The screen of drivers/vga/vga.c at the end of its last row.
use ceblar.Prelude.{ℕ, ◌≡◌, refl, List, [], ◌∷◌, arith}
use ceblar.Drivers.Vga.{Screen, cell, vga_putc}
use ceblar.Drivers.Vga.Cursor.{InRows, tab_overruns}

abbrev late : Screen
late = record { video = λ i. 0; row = 24; col = 77; color = 7 }

late-InRows : InRows late
late-InRows = record { row_in = omega arith; col_near = omega arith }

abbrev text : List ℕ
text = 97 ∷ 10 ∷ 98 ∷ []

tab_overruns_example : (vga_putc 97 (vga_putc 9 late)).video 2000 ≡ cell 7 97
tab_overruns_example = tab_overruns 97 late refl (omega arith) (omega arith) (omega arith)
