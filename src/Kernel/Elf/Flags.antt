-- ===== src/Kernel/Elf/Flags.antt =====
-- kernel/elf.c: the segments that a load refuses by their flags.
use ceblar.Prelude.{
  ℕ, zero, suc, ◌+◌, ◌*◌, ◌/◌, ◌%◌, ◌<◌, ◌≡◌, refl, ap, ◌∙◌, Bool, true, false, ◌||◌, ◌==◌, ltb,
  if◌then◌else◌, Option, none, arith,
}
use ceblar.Fs.Block.{Bytes}
use ceblar.Kernel.Process.{Spaces}
use ceblar.Kernel.Elf.{
  Elf32Program, Loading, program_at, header_of, is_refused, bad_range, load_segment, load_segments,
  entry_if, elf32_load, pt_load, bad_header,
}
use ceblar.Kernel.Elf.Range.{loaded}

-- The flags of bits 1 and 2, which in the format are write and read.
both_flags : (p : Elf32Program) → p.flags / 2 % 2 ≡ 1 → p.flags / 4 % 2 ≡ 1 → is_refused p ≡ true
both_flags p writes reads = ground (arith, writes, reads)

module _ {Vm : Type 0} (spaces : Spaces Vm) (get_physical translate : ℕ → Vm → ℕ) (space : ℕ) where
  entry_if-none :
      (entry : ℕ) (r : Bool × Loading Vm)
      → r.0 ≡ false
      → (entry_if spaces get_physical translate space entry r).0 ≡ none
  entry_if-none entry (false, s) e = refl
  entry_if-none entry (true, s) e = absurd (grind (arith, e))

  abbrev one_segment : ℕ → Bytes → ℕ → Loading Vm → Bool × Loading Vm
  one_segment at image size s =
      let p = program_at image at in
      if p.kind == pt_load
      then load_segment spaces get_physical translate space image size p s
      else (true, s)

  one_segment_refuses :
      (at : ℕ) (image : Bytes) (size : ℕ) (s : Loading Vm)
      → (program_at image at).kind ≡ pt_load
      → (program_at image at).flags / 2 % 2 ≡ 1
      → (program_at image at).flags / 4 % 2 ≡ 1
      → (one_segment at image size s).0 ≡ false
  unfolding load_segment
  one_segment_refuses at image size s kind writes reads =
      let p = program_at image at in
      let test : p.kind == pt_load ≡ true = ground (arith, kind) in
      let either : (is_refused p || bad_range size p) ≡ true =
        ap (λ b. b || bad_range size p) (both_flags p writes reads) in
      ap
        (λ b.
          (if◌then◌else◌ {A = Bool × Loading Vm} b
            (load_segment spaces get_physical translate space image size p s) (true, s)).0)
        test
      ∙ ap
          (λ b.
            (if◌then◌else◌ {A = Bool × Loading Vm} b (false, s)
              (loaded spaces get_physical translate space p image s)).0)
          either

  -- The loop ends with a failure at header `i`, or before it.
  load_segments_refuses :
      (i n at : ℕ) (image : Bytes) (size : ℕ) (s : Loading Vm)
      → i < n
      → (program_at image (at + 32 * i)).kind ≡ pt_load
      → (program_at image (at + 32 * i)).flags / 2 % 2 ≡ 1
      → (program_at image (at + 32 * i)).flags / 4 % 2 ≡ 1
      → (load_segments spaces get_physical translate space n at image size s).0 ≡ false
  unfolding load_segments
  load_segments_refuses i zero at image size s some_headers kind writes reads =
      absurd (omega (arith, some_headers))
  load_segments_refuses zero (suc n) at image size s some_headers kind writes reads =
      let one : Bool × Loading Vm = one_segment at image size s in
      let here : at + 32 * 0 ≡ at = omega arith in
      ap
        (λ b.
          (if◌then◌else◌ {A = Bool × Loading Vm} b
            (load_segments spaces get_physical translate space n (at + 32) image size one.1)
            (false, one.1)).0)
        (one_segment_refuses at image size s (rw here at kind) (rw here at writes)
          (rw here at reads))
  load_segments_refuses (suc i) (suc n) at image size s some_headers kind writes reads =
      let one : Bool × Loading Vm = one_segment at image size s in
      let next : at + 32 + 32 * i ≡ at + 32 * suc i = omega arith in
      elim one.0
        as (λ b.
          (if◌then◌else◌ {A = Bool × Loading Vm} b
            (load_segments spaces get_physical translate space n (at + 32) image size one.1)
            (false, one.1)).0
          ≡ false) [
            | true ↦
                load_segments_refuses i n (at + 32) image size one.1 (omega arith) (rw next kind)
                  (rw next writes) (rw next reads)
            | false ↦ refl
          ]

  -- An image with a segment to load, at any place of its program headers, that has both the flags of bits 1
  -- and 2, which in the format are write and read, is never loaded, whatever the rest of it is.
  pub elf32_load_refuses :
      (image : Bytes) (size : ℕ) (s : Loading Vm) (i : ℕ)
      → i < (header_of image).phnum
      → (program_at image ((header_of image).phoff + 32 * i)).kind ≡ pt_load
      → (program_at image ((header_of image).phoff + 32 * i)).flags / 2 % 2 ≡ 1
      → (program_at image ((header_of image).phoff + 32 * i)).flags / 4 % 2 ≡ 1
      → (elf32_load spaces get_physical translate space image size s).0 ≡ none
  unfolding elf32_load
  elf32_load_refuses image size s i some_headers kind writes reads =
      let h = header_of image in
      let segments : Bool × Loading Vm =
        load_segments spaces get_physical translate space h.phnum h.phoff image size s in
      elim (ltb size 52 || bad_header image size h)
        as (λ c.
          (if◌then◌else◌ {A = Option ℕ × Loading Vm} c (none, s)
            (entry_if spaces get_physical translate space h.entry segments)).0
          ≡ none) [
            | true ↦ refl
            | false ↦ entry_if-none h.entry segments (
                load_segments_refuses i h.phnum h.phoff image size s some_headers kind writes reads)
          ]
