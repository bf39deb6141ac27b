-- ===== src/Arch/Gdt.antt =====
-- arch/x86/gdt.c: the segment descriptors and the task state. The loading of the registers is the processor's.
use ceblar.Prelude.{ℕ, ◌+◌, ◌-◌, ◌*◌, ◌/◌, ◌%◌, ◌^◌, ◌<◌, ◌≡◌, ◌==◌, if◌then◌else◌, update, arith}

-- The fields of `tss_t` that the code sets.
pub record Tss : Type 0 where
  pub esp0 : ℕ
  pub ss0 : ℕ
  pub io_base : ℕ

-- `gdt` and `kernel_tss`
pub record Tables : Type 0 where
  pub gdt : ℕ → ℕ
  pub kernel_tss : Tss

-- The fields do not overlap, so that the bitwise or is a sum.
unfoldable pub make_tss_desc : ℕ → ℕ → ℕ
make_tss_desc base limit =
    limit % 2 ^ 16
    + base % 2 ^ 24 * 2 ^ 16
    + 0x89 * 2 ^ 40
    + limit / 2 ^ 16 % 2 ^ 4 * 2 ^ 48
    + base / 2 ^ 24 % 2 ^ 8 * 2 ^ 56

unfoldable pub tss_set_kernel_stack : ℕ → Tables → Tables
tss_set_kernel_stack esp t = record t { kernel_tss = record t.kernel_tss { esp0 = esp } }

-- `sizeof(kernel_tss)`: 25 words and two half words.
abbrev pub tss_size : ℕ
tss_size = 104

-- With the stack pointer in force and the address of `kernel_tss`.
unfoldable pub tss_init : ℕ → ℕ → ℕ → Tables → Tables
tss_init current tss_address top t = record {
  gdt = update t.gdt 5 (make_tss_desc tss_address (tss_size - 1));
  kernel_tss = record { esp0 = if top == 0 then current else top; ss0 = 0x10; io_base = tss_size };
}

unfoldable pub gdt_init : Tables → Tables
gdt_init t = record t {
  gdt = λ i.
      if i == 0
      then 0
      else if i == 1
      then 0x00cf9a000000ffff
      else if i == 2
      then 0x00cf92000000ffff
      else if i == 3
      then 0x00cffa000000ffff
      else if i == 4
      then 0x00cff2000000ffff
      else if i == 5
      then 0
      else t.gdt i;
}

-- What the processor reads from a descriptor.
abbrev pub base_of : ℕ → ℕ
base_of d = d / 2 ^ 16 % 2 ^ 24 + d / 2 ^ 56 % 2 ^ 8 * 2 ^ 24

abbrev pub limit_of : ℕ → ℕ
limit_of d = d % 2 ^ 16 + d / 2 ^ 48 % 2 ^ 4 * 2 ^ 16

abbrev pub access_of : ℕ → ℕ
access_of d = d / 2 ^ 40 % 2 ^ 8

-- From the descriptor of `make_tss_desc` the processor reads the base of 32 bits and the limit of 20 bits that it
-- was given, and the access byte of an available task state; it fits 64 bits.
pub make_tss_desc_lem :
    (base limit : ℕ)
    → base < 2 ^ 32
    → limit < 2 ^ 20
    → (base_of (make_tss_desc base limit) ≡ base)
      × (limit_of (make_tss_desc base limit) ≡ limit)
      × (access_of (make_tss_desc base limit) ≡ 0x89)
      × (make_tss_desc base limit < 2 ^ 64)
unfolding make_tss_desc
make_tss_desc_lem base limit b l = (omega arith, omega arith, omega arith, omega arith)
