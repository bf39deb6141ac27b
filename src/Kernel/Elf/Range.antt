-- ===== src/Kernel/Elf/Range.antt =====
-- kernel/elf.c: what a load leaves alone.
use ceblar.Prelude.{
  ℕ, zero, suc, ◌+◌, ◌/◌, ◌%◌, ◌^◌, ◌<◌, ◌≤◌, ◌≡◌, ◌≢◌, refl, ◌∙◌, Bool, ◌==◌, if◌then◌else◌, some,
  get_or, update, arith,
}
use ceblar.Fs.Block.{Bytes}
use ceblar.Fs.Fat32.{le32}
use ceblar.Kernel.Process.{Spaces}
use ceblar.Kernel.Elf.{
  Elf32Program, Loading, zero_bytes, copy_bytes, down, load_pages, page_rounds, fill_segment,
}

-- The image is one of bytes.
abbrev pub IsBytes : Bytes → Type 0
IsBytes image = (i : ℕ) → get_or image i 0 < 2 ^ 8

pub IsBytes-le32 : (image : Bytes) (i : ℕ) → IsBytes image → le32 image i < 2 ^ 32
IsBytes-le32 image i b = omega (arith, b i, b (i + 1), b (i + 2), b (i + 2 + 1))

-- What the memory manager and its tables are relied on to do for the byte `x` of memory in the states that are
-- `Safe`: no address of a user program leads to it, its frame is never handed out, and the calls of the loader,
-- when they are about other frames, keep the state safe.
pub record IsApart {Vm : Type 0} (spaces : Spaces Vm) (translate : ℕ → Vm → ℕ) (space : ℕ)
    (Safe : Vm → Type 0) (x : ℕ) : Type 0 where
  pub unreached :
      (va : ℕ) (vm : Vm) → Safe vm → 0x400000 ≤ va → va < 0xc0000000 → translate va vm ≢ x
  pub other_frame :
      (vm : Vm)
      → Safe vm
      → (spaces.pmm_alloc_page vm).0 ≢ 0
      → (spaces.pmm_alloc_page vm).0 / 4096 ≢ x / 4096
  pub alloc_safe : (vm : Vm) → Safe vm → Safe (spaces.pmm_alloc_page vm).1
  pub free_safe :
      (page : ℕ) (vm : Vm) → Safe vm → page / 4096 ≢ x / 4096 → Safe (spaces.pmm_free_page page vm)
  pub map_safe :
      (va page flags : ℕ) (vm : Vm)
      → Safe vm
      → page / 4096 ≢ x / 4096
      → 0x400000 ≤ va
      → va < 0xc0000000
      → Safe (spaces.vmm_map_user (some space) va page flags vm).1

-- The byte `x` is `v`, and the state is safe.
abbrev pub Holds : {Vm : Type 0} → (Vm → Type 0) → ℕ → ℕ → Loading Vm → Type 0
Holds Safe x v s = (s.memory x ≡ v) × Safe s.vm

-- The pages of a segment, and its bytes.
module _ {Vm : Type 0} (spaces : Spaces Vm) (get_physical translate : ℕ → Vm → ℕ) (space : ℕ) where
  abbrev pub pages : Elf32Program → Loading Vm → Bool × Loading Vm
  pages p s =
      load_pages spaces get_physical translate space (page_rounds p) (down p.vaddr)
        (if p.flags / 2 % 2 == 1 then 2 else 0) s

  abbrev pub loaded : Elf32Program → Bytes → Loading Vm → Bool × Loading Vm
  loaded p image s = fill_segment spaces get_physical translate space image p (pages p s)

module _ {Vm : Type 0} (spaces : Spaces Vm) (get_physical translate : ℕ → Vm → ℕ) (space : ℕ)
    (Safe : Vm → Type 0) (x : ℕ) (apart : IsApart spaces translate space Safe x) where
  open apart use {unreached, other_frame, alloc_safe, free_safe, map_safe}

  pub update_keeps :
      (at b : ℕ) (vm : Vm) (memory : ℕ → ℕ)
      → Safe vm
      → 0x400000 ≤ at
      → at < 0xc0000000
      → update memory (translate at vm) b x ≡ memory x
  update_keeps at b vm memory safe low high = ground (arith, unreached at vm safe low high)

  pub zero_bytes_keeps :
      (n at : ℕ) (vm : Vm) (memory : ℕ → ℕ)
      → Safe vm
      → 0x400000 ≤ at
      → at + n ≤ 0xc0000000
      → zero_bytes translate n at vm memory x ≡ memory x
  unfolding zero_bytes
  zero_bytes_keeps zero at vm memory safe low high = refl
  zero_bytes_keeps (suc n) at vm memory safe low high =
      zero_bytes_keeps n (at + 1) vm (update memory (translate at vm) 0) safe (omega (arith, low))
        (omega (arith, high))
      ∙ update_keeps at 0 vm memory safe low (omega (arith, high))

  pub copy_bytes_keeps :
      (n at : ℕ) (image : Bytes) (offset : ℕ) (vm : Vm) (memory : ℕ → ℕ)
      → Safe vm
      → 0x400000 ≤ at
      → at + n ≤ 0xc0000000
      → copy_bytes translate n at image offset vm memory x ≡ memory x
  unfolding copy_bytes
  copy_bytes_keeps zero at image offset vm memory safe low high = refl
  copy_bytes_keeps (suc n) at image offset vm memory safe low high =
      copy_bytes_keeps n (at + 1) image (offset + 1) vm
        (update memory (translate at vm) (get_or image offset 0)) safe (omega (arith, low))
        (omega (arith, high))
      ∙ update_keeps at (get_or image offset 0) vm memory safe low (omega (arith, high))
