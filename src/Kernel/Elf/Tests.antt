-- ===== src/Kernel/Elf/Tests.antt =====
-- The theorems about kernel/elf.c on small images.
use ceblar.Prelude.{
  ℕ, ◌+◌, ◌*◌, ◌/◌, ◌%◌, ◌<◌, ◌≡◌, ◌≢◌, ◌∙◌, if◌then◌else◌, ◌==◌, refl, update, true, Bool, ◌&&◌,
  ltb, some, none, [], ◌∷◌, ◌++◌, replicate, arith,
}
use ceblar.Fs.Block.{Bytes}
use ceblar.Kernel.Process.{Spaces}
use ceblar.Kernel.Elf.{
  Elf32Program, program_at, Loading, elf32_load, load_segments, load_segment, bad_range, load_pages,
  load_page,
}
use ceblar.Kernel.Elf.Flags.{elf32_load_refuses}
use ceblar.Kernel.Elf.Contents.{IsInjective, byte_at, expected, load_segment-holds}

-- A page table, by frames, and the next frame to hand out: frames are handed out once, and every mapping is
-- entered.
abbrev Paging : Type 0
Paging = (ℕ → ℕ) × ℕ

abbrev spaces : Spaces Paging
spaces = record {
  vmm_create_address_space = λ vm. (none, vm);
  vmm_clone_address_space_cow = λ space vm. (none, vm);
  vmm_retain_address_space = λ space vm. vm;
  vmm_destroy_address_space = λ space vm. vm;
  vmm_validate_user_ptr = λ space a len write vm. true;
  pmm_alloc_page = λ vm. (vm.1 * 4096, (vm.0, vm.1 + 1));
  pmm_free_page = λ page vm. vm;
  vmm_map_user = λ space a page flags vm. (true, (update vm.0 (a / 4096) (page / 4096), vm.1));
}

-- The kernel's tables have no user page.
abbrev get_physical : ℕ → Paging → ℕ
get_physical va vm = 0

abbrev translate : ℕ → Paging → ℕ
translate va vm = vm.0 (va / 4096) * 4096 + va % 4096

-- No page is in frame 5, nor will be.
abbrev Safe : Paging → Type 0
Safe vm = ((page : ℕ) → vm.0 page ≢ 5) × (5 < vm.1)

abbrev byte : ℕ
byte = 5 * 4096 + 7

-- The header, with its entry at 0x400000 and one program header behind it, which has these flags.
abbrev image : ℕ → Bytes
image flags =
    0x7f ∷ 69 ∷ 76 ∷ 70 ∷ 1 ∷ replicate 11 0
    ++ (2 ∷ 0 ∷ 3 ∷ 0 ∷ 1 ∷ 0 ∷ 0 ∷ 0 ∷ 0 ∷ 0 ∷ 0x40 ∷ 0 ∷ 52 ∷ replicate 11 0
        ++ (52 ∷ 0 ∷ 32 ∷ 0 ∷ 1 ∷ replicate 7 0
            ++ (1 ∷ replicate 9 0
                ++ (0x40 ∷ replicate 5 0
                    ++ (4 ∷ 0 ∷ 0 ∷ 0 ∷ 8 ∷ 0 ∷ 0 ∷ 0 ∷ flags ∷ replicate 7 0)))))

abbrev all_bytes : Bytes → Bool
all_bytes [] = true
all_bytes (b ∷ bs) = ltb b 256 && all_bytes bs

-- Pages are in frame 0 at first, and frames from 9 on are free.
abbrev initial_load : Loading Paging
initial_load = record { memory = λ a. 7; vm = (λ page. 0, 9) }

loaded_entry :
    (elf32_load spaces get_physical translate 1 (image 5) 84 initial_load).0 ≡ some 0x400000
unfolding elf32_load load_segments load_segment bad_range load_pages load_page
loaded_entry = refl

-- The segment's first byte is in frame 9.
loaded_byte : (elf32_load spaces get_physical translate 1 (image 5) 84 initial_load).1.vm.0 1024 ≡ 9
unfolding elf32_load load_segments load_segment bad_range load_pages load_page
loaded_byte = refl

elf32_load_refuses_example :
    (elf32_load spaces get_physical translate 1 (image 6) 84 initial_load).0 ≡ none
elf32_load_refuses_example =
    elf32_load_refuses spaces get_physical translate 1 (image 6) 84 initial_load 0 (omega arith)
      refl refl refl

abbrev segment : Elf32Program
segment = program_at (image 5) 52

abbrev segment_load : Bool × Loading Paging
segment_load = load_segment spaces get_physical translate 1 (image 5) 84 segment initial_load

segment_done : segment_load.0 ≡ true
unfolding load_segment bad_range load_pages load_page
segment_done = refl

segment_page : (page : ℕ) → segment_load.1.vm.0 page ≡ (if 1024 == page then 9 else 0)
unfolding load_segment bad_range load_pages load_page
segment_page page = ground arith

segment-IsInjective : IsInjective translate segment_load.1.vm 0x400000 8
segment-IsInjective a b from to from' to' e =
    let at_a : segment_load.1.vm.0 (a / 4096) ≡ 9 =
      segment_page (a / 4096) ∙ ground (arith, from, to) in
    let at_b : segment_load.1.vm.0 (b / 4096) ≡ 9 =
      segment_page (b / 4096) ∙ ground (arith, from', to') in
    omega (arith, from, to, from', to', e, at_a, at_b)

-- The third byte of the segment is the image's, of value 0x4c.
load_segment-holds_example :
    byte_at spaces get_physical translate 1 (image 5) segment 2 segment_load.1
    ≡ expected spaces get_physical translate 1 (image 5) segment 2
load_segment-holds_example =
    load_segment-holds spaces get_physical translate 1 (image 5) segment 84 2 initial_load
      segment_done segment-IsInjective (omega arith)
