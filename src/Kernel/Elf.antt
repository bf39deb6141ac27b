-- ===== src/Kernel/Elf.antt =====
-- kernel/elf.c: the loader. The bytes of memory stand by their physical addresses, and the image apart from them. Pages
-- and mappings are the memory manager's (`Spaces`), whose tables are in its state; `get_physical` is its
-- vmm_get_physical, which looks in the kernel's tables, and `translate` is where the processor finds an address in the
-- space that it has switched to.
pub mod Range
pub mod Keeps
pub mod Contents
pub mod Flags
mod Tests
use ceblar.Prelude.{
  ℕ, zero, suc, ◌+◌, ◌-◌, ◌*◌, ◌/◌, ◌%◌, ◌^◌, Bool, true, false, ◌&&◌, ◌||◌, not, ◌==◌, ltb, leb,
  if◌then◌else◌, Option, none, some, List, get_or, add32, update,
}
use ceblar.Fs.Block.{Bytes}
use ceblar.Fs.Fat32.{le16, le32}
use ceblar.Kernel.Process.{Spaces}

abbrev pub pt_load : ℕ
pt_load = 1

abbrev pub elfclass32 : ℕ
elfclass32 = 1

abbrev pub em_386 : ℕ
em_386 = 3

-- The fields of `elf32_header_t` that the code reads, at their places in the image.
pub record Elf32Header : Type 0 where
  pub machine : ℕ
  pub entry : ℕ
  pub phoff : ℕ
  pub phentsize : ℕ
  pub phnum : ℕ

abbrev pub header_of : Bytes → Elf32Header
header_of image = record {
  machine = le16 image 18;
  entry = le32 image 24;
  phoff = le32 image 28;
  phentsize = le16 image 42;
  phnum = le16 image 44;
}

-- `elf32_program_t`, but for `paddr` and `align`.
pub record Elf32Program : Type 0 where
  pub kind : ℕ
  pub offset : ℕ
  pub vaddr : ℕ
  pub filesz : ℕ
  pub memsz : ℕ
  pub flags : ℕ

abbrev pub program_at : Bytes → ℕ → Elf32Program
program_at image at = record {
  kind = le32 image at;
  offset = le32 image (at + 4);
  vaddr = le32 image (at + 8);
  filesz = le32 image (at + 16);
  memsz = le32 image (at + 20);
  flags = le32 image (at + 24);
}

abbrev pub down : ℕ → ℕ
down x = x - x % 4096

abbrev pub up : ℕ → ℕ
up x = down (add32 x 4095)

-- `zero` and `copy`: `n` bytes from the address `at` on, each of which the paging leads to its place.
module _ {Vm : Type 0} (translate : ℕ → Vm → ℕ) where
  unfoldable pub zero_bytes : ℕ → ℕ → Vm → (ℕ → ℕ) → ℕ → ℕ
  zero_bytes zero at vm memory = memory
  zero_bytes (suc n) at vm memory = zero_bytes n (at + 1) vm (update memory (translate at vm) 0)

  -- From `offset` of the image on.
  unfoldable pub copy_bytes : ℕ → ℕ → Bytes → ℕ → Vm → (ℕ → ℕ) → ℕ → ℕ
  copy_bytes zero at image offset vm memory = memory
  copy_bytes (suc n) at image offset vm memory =
      copy_bytes n (at + 1) image (offset + 1) vm
        (update memory (translate at vm) (get_or image offset 0))

abbrev pub bad_magic : Bytes → Bool
bad_magic image =
    not (get_or image 0 0 == 0x7f)
    || not (get_or image 1 0 == 69)
    || not (get_or image 2 0 == 76)
    || not (get_or image 3 0 == 70)
    || not (get_or image 4 0 == elfclass32)

-- The tests of the header, behind that of the image's size.
abbrev pub bad_header : Bytes → ℕ → Elf32Header → Bool
bad_header image size h =
    bad_magic image
    || not (h.machine == em_386)
    || not (h.phentsize == 32)
    || ltb size h.phoff
    || ltb ((size - h.phoff) / 32) h.phnum

-- `(p->flags & 6u) == 6u`
abbrev pub is_refused : Elf32Program → Bool
is_refused p = p.flags / 2 % 4 == 3

unfoldable pub bad_range : ℕ → Elf32Program → Bool
bad_range size p =
    ltb p.memsz p.filesz
    || ltb size p.offset
    || ltb (size - p.offset) p.filesz
    || ltb p.vaddr 0x400000
    || ltb (add32 p.vaddr p.memsz) p.vaddr
    || leb 0xc0000000 (add32 p.vaddr p.memsz)

-- A load under way.
pub record Loading (Vm : Type 0) : Type 0 where
  pub memory : ℕ → ℕ
  pub vm : Vm

abbrev page_rounds : Elf32Program → ℕ
page_rounds p = (up (p.vaddr + p.memsz) - down p.vaddr + 4095) / 4096

module _ {Vm : Type 0} (spaces : Spaces Vm) (get_physical translate : ℕ → Vm → ℕ) (space : ℕ) where
  -- A page that was allocated, with whether it was mapped.
  abbrev mapped_page : ℕ → ℕ → (ℕ → ℕ) → Bool × Vm → Bool × Loading Vm
  mapped_page va page memory (true, vm) =
      (true, record { memory = zero_bytes translate 4096 va vm memory; vm = vm })
  mapped_page va page memory (false, vm) =
      (false, record { memory = memory; vm = spaces.pmm_free_page page vm })

  abbrev new_page : ℕ → ℕ → (ℕ → ℕ) → ℕ × Vm → Bool × Loading Vm
  new_page va flags memory (page, vm) =
      if page == 0
      then (false, record { memory = memory; vm = vm })
      else mapped_page va page memory (spaces.vmm_map_user (some space) va page flags vm)

  unfoldable pub load_page : ℕ → ℕ → Loading Vm → Bool × Loading Vm
  load_page va flags s =
      if get_physical va s.vm == 0
      then new_page va flags s.memory (spaces.pmm_alloc_page s.vm)
      else (true, s)

  -- `for (va = first; va < last; va += PAGE_SIZE)`, by the rounds left.
  unfoldable pub load_pages : ℕ → ℕ → ℕ → Loading Vm → Bool × Loading Vm
  load_pages zero va flags s = (true, s)
  load_pages (suc n) va flags s =
      let (loaded, s₁) = load_page va flags s in
      let rest = load_pages n (va + 4096) flags s₁ in if loaded then rest else (false, s₁)

  abbrev fill_segment : Bytes → Elf32Program → Bool × Loading Vm → Bool × Loading Vm
  fill_segment image p (false, s) = (false, s)
  fill_segment image p (true, s) = (
    true,
    record s {
      memory =
          zero_bytes translate (p.memsz - p.filesz) (p.vaddr + p.filesz) s.vm
            (copy_bytes translate p.filesz p.vaddr image p.offset s.vm s.memory);
    },
  )

  -- A segment of type PT_LOAD.
  unfoldable pub load_segment : Bytes → ℕ → Elf32Program → Loading Vm → Bool × Loading Vm
  load_segment image size p s =
      if is_refused p || bad_range size p
      then (false, s)
      else fill_segment image p
          (load_pages (page_rounds p) (down p.vaddr) (if p.flags / 2 % 2 == 1 then 2 else 0) s)

  -- The loop over the program headers, by the rounds left.
  unfoldable pub load_segments : ℕ → ℕ → Bytes → ℕ → Loading Vm → Bool × Loading Vm
  load_segments zero at image size s = (true, s)
  load_segments (suc n) at image size s =
      let p = program_at image at in
      let (loaded, s₁) = (if p.kind == pt_load then load_segment image size p s else (true, s)) in
      let rest = load_segments n (at + 32) image size s₁ in if loaded then rest else (false, s₁)

  abbrev entry_if : ℕ → Bool × Loading Vm → Option ℕ × Loading Vm
  entry_if entry (false, s) = (none, s)
  entry_if entry (true, s) = (some entry, s)

  -- A call with an image of `size` bytes, a space and an entry to fill in; `none` is -1.
  unfoldable pub elf32_load : Bytes → ℕ → Loading Vm → Option ℕ × Loading Vm
  elf32_load image size s =
      let h = header_of image in
      if ltb size 52 || bad_header image size h
      then (none, s)
      else entry_if h.entry (load_segments h.phnum h.phoff image size s)
