-- ===== src/Kernel/Elf/Keeps.antt =====
-- kernel/elf.c: a load, page by page and segment by segment, and the bytes of memory that it leaves alone.
use ceblar.Prelude.{ℕ}
use ceblar.Kernel.Process.{Spaces}
use ceblar.Kernel.Elf.{Loading}
use ceblar.Kernel.Elf.Range.{IsApart, Holds}

module _ {Vm : Type 0} (spaces : Spaces Vm) (get_physical translate : ℕ → Vm → ℕ) (space : ℕ)
    (Safe : Vm → Type 0) (x : ℕ) (apart : IsApart spaces translate space Safe x) (v : ℕ) where
  open apart use {other_frame, alloc_safe, free_safe, map_safe}

  abbrev After : Loading Vm → Type 0
  After = Holds Safe x v
