-- ===== src/Kernel/Elf/Contents.antt =====
-- kernel/elf.c: the bytes that a segment has in memory once it is loaded.
use ceblar.Prelude.{
  ℕ, zero, suc, ◌+◌, ◌-◌, ◌<◌, ◌≤◌, ◌≡◌, ◌≢◌, refl, ap, sym, ◌∙◌, Bool, true, false, ◌||◌, ltb,
  if◌then◌else◌, get_or, update, update_self, update_else, arith, Bool-cases, inl, inr, subst,
}
use ceblar.Fs.Block.{Bytes}
use ceblar.Kernel.Process.{Spaces}
use ceblar.Kernel.Elf.{
  Elf32Program, Loading, zero_bytes, copy_bytes, is_refused, bad_range, fill_segment, load_segment,
}
use ceblar.Kernel.Elf.Range.{pages, loaded}

module _ {Vm : Type 0} (translate : ℕ → Vm → ℕ) (vm : Vm) where
  -- No two of the `n` addresses from `at` on lead to the same byte.
  abbrev pub IsInjective : ℕ → ℕ → Type 0
  IsInjective at n =
      (a b : ℕ)
      → at ≤ a
      → a < at + n
      → at ≤ b
      → b < at + n
      → translate a vm ≡ translate b vm
      → a ≡ b

  zero_bytes_other :
      (n at y : ℕ) (memory : ℕ → ℕ)
      → ((a : ℕ) → at ≤ a → a < at + n → translate a vm ≢ y)
      → zero_bytes translate n at vm memory y ≡ memory y
  unfolding zero_bytes
  zero_bytes_other zero at y memory other = refl
  zero_bytes_other (suc n) at y memory other =
      zero_bytes_other n (at + 1) y (update memory (translate at vm) 0)
        (λ a from to. other a (omega (arith, from)) (omega (arith, to)))
      ∙ update_else memory (translate at vm) 0 y (other at (omega arith) (omega arith))

  copy_bytes_other :
      (n at y : ℕ) (image : Bytes) (offset : ℕ) (memory : ℕ → ℕ)
      → ((a : ℕ) → at ≤ a → a < at + n → translate a vm ≢ y)
      → copy_bytes translate n at image offset vm memory y ≡ memory y
  unfolding copy_bytes
  copy_bytes_other zero at y image offset memory other = refl
  copy_bytes_other (suc n) at y image offset memory other =
      copy_bytes_other n (at + 1) y image (offset + 1)
        (update memory (translate at vm) (get_or image offset 0))
        (λ a from to. other a (omega (arith, from)) (omega (arith, to)))
      ∙ update_else memory (translate at vm) (get_or image offset 0) y
          (other at (omega arith) (omega arith))

  zero_bytes_at :
      (n at k : ℕ) (memory : ℕ → ℕ)
      → IsInjective at n
      → k < n
      → zero_bytes translate n at vm memory (translate (at + k) vm) ≡ 0
  unfolding zero_bytes
  zero_bytes_at zero at k memory inj less = absurd (omega (arith, less))
  zero_bytes_at (suc n) at zero memory inj less =
      let here : at + 0 ≡ at = omega arith in
      rw here (
        zero_bytes_other n (at + 1) (translate at vm) (update memory (translate at vm) 0)
          (λ a from to e.
            let same : a ≡ at =
              inj a at (omega (arith, from)) (omega (arith, to)) (omega arith) (omega arith) e in
            omega (arith, from, same))
        ∙ update_self memory (translate at vm) 0)
  zero_bytes_at (suc n) at (suc k) memory inj less =
      let next : at + 1 + k ≡ at + suc k = omega arith in
      rw next at (
        zero_bytes_at n (at + 1) k (update memory (translate at vm) 0)
          (λ a b from to from' to'.
            inj a b (omega (arith, from)) (omega (arith, to)) (omega (arith, from'))
              (omega (arith, to')))
          (omega (arith, less)))

  copy_bytes_at :
      (n at k : ℕ) (image : Bytes) (offset : ℕ) (memory : ℕ → ℕ)
      → IsInjective at n
      → k < n
      → copy_bytes translate n at image offset vm memory (translate (at + k) vm)
        ≡ get_or image (offset + k) 0
  unfolding copy_bytes
  copy_bytes_at zero at k image offset memory inj less = absurd (omega (arith, less))
  copy_bytes_at (suc n) at zero image offset memory inj less =
      let here : at + 0 ≡ at = omega arith in
      let start : offset + 0 ≡ offset = omega arith in
      rw (here, start)
        (copy_bytes_other n (at + 1) (translate at vm) image (offset + 1)
            (update memory (translate at vm) (get_or image offset 0))
            (λ a from to e.
              let same : a ≡ at =
                inj a at (omega (arith, from)) (omega (arith, to)) (omega arith) (omega arith) e in
              omega (arith, from, same))
          ∙ update_self memory (translate at vm) (get_or image offset 0))
  copy_bytes_at (suc n) at (suc k) image offset memory inj less =
      let next : at + 1 + k ≡ at + suc k = omega arith in
      let later : offset + 1 + k ≡ offset + suc k = omega arith in
      rw (next, later) at
        (copy_bytes_at n (at + 1) k image (offset + 1)
          (update memory (translate at vm) (get_or image offset 0))
          (λ a b from to from' to'.
            inj a b (omega (arith, from)) (omega (arith, to)) (omega (arith, from'))
              (omega (arith, to')))
          (omega (arith, less)))

module _ {Vm : Type 0} (spaces : Spaces Vm) (get_physical translate : ℕ → Vm → ℕ) (space : ℕ)
    (image : Bytes) (p : Elf32Program) where
  -- The byte at place `k` of the segment.
  abbrev pub byte_at : ℕ → Loading Vm → ℕ
  byte_at k s = s.memory (translate (p.vaddr + k) s.vm)

  abbrev pub expected : ℕ → ℕ
  expected k = if ltb k p.filesz then get_or image (p.offset + k) 0 else 0

  filled :
      (k : ℕ) (s : Loading Vm)
      → p.filesz ≤ p.memsz
      → IsInjective translate s.vm p.vaddr p.memsz
      → k < p.memsz
      → zero_bytes translate
          (p.memsz - p.filesz)
          (p.vaddr + p.filesz)
          s.vm
          (copy_bytes translate p.filesz p.vaddr image p.offset s.vm s.memory)
          (translate (p.vaddr + k) s.vm)
        ≡ expected k
  filled k s sizes inj less =
      let copy : ℕ → ℕ = copy_bytes translate p.filesz p.vaddr image p.offset s.vm s.memory in
      elim (Bool-cases (ltb k p.filesz)) [
        | inl in_file ↦
            let low : k < p.filesz = ground (arith, in_file) in
            zero_bytes_other translate s.vm (p.memsz - p.filesz) (p.vaddr + p.filesz)
              (translate (p.vaddr + k) s.vm) copy
              (λ a from to e.
                let same : a ≡ p.vaddr + k =
                  inj a (p.vaddr + k) (omega (arith, from)) (omega (arith, to, sizes)) (omega arith)
                    (omega (arith, less)) e in
                omega (arith, from, same, low))
            ∙ copy_bytes_at translate s.vm p.filesz p.vaddr k image p.offset s.memory
                (λ a b from to from' to'.
                  inj a b from (omega (arith, to, sizes)) from' (omega (arith, to', sizes)))
                low
            ∙ sym (ap (λ c. if c then get_or image (p.offset + k) 0 else 0) in_file)
        | inr behind ↦
            let high : p.filesz ≤ k = ground (arith, behind) in
            let place : p.vaddr + p.filesz + (k - p.filesz) ≡ p.vaddr + k = omega (arith, high) in
            (rw place at (
              zero_bytes_at translate s.vm (p.memsz - p.filesz) (p.vaddr + p.filesz) (k - p.filesz)
                copy
                (λ a b from to from' to'.
                  inj a b (omega (arith, from)) (omega (arith, to, sizes)) (omega (arith, from'))
                    (omega (arith, to', sizes)))
                (omega (arith, high, less))))
            ∙ sym (ap (λ c. if c then get_or image (p.offset + k) 0 else 0) behind)
      ]

  fill_segment_holds :
      (k : ℕ) (r : Bool × Loading Vm)
      → let t = fill_segment spaces get_physical translate space image p r in
        p.filesz ≤ p.memsz
        → t.0 ≡ true
        → IsInjective translate t.1.vm p.vaddr p.memsz
        → k < p.memsz
        → byte_at k t.1 ≡ expected k
  fill_segment_holds k (false, s) sizes done inj less = absurd (ground (arith, done))
  fill_segment_holds k (true, s) sizes done inj less = filled k s sizes inj less

  -- A segment that is loaded, where the paging leads no two of its addresses to the same byte: each byte of it
  -- in memory is that of the image, and 0 behind the bytes that the image has.
  pub load_segment-holds :
      (size k : ℕ) (s : Loading Vm)
      → (load_segment spaces get_physical translate space image size p s).0 ≡ true
      → IsInjective translate
          (load_segment spaces get_physical translate space image size p s).1.vm
          p.vaddr
          p.memsz
      → k < p.memsz
      → byte_at k (load_segment spaces get_physical translate space image size p s).1 ≡ expected k
  unfolding load_segment bad_range
  load_segment-holds size k s done inj less =
      let body : Bool → Bool × Loading Vm = λ b.
        if◌then◌else◌ {A = Bool × Loading Vm} b (false, s)
          (loaded spaces get_physical translate space p image s) in
      elim (Bool-cases (is_refused p || bad_range size p)) [
        | inl refused ↦
            absurd (subst (λ b. (body b).0 ≡ true → ⊥) (sym refused) (λ e. ground (arith, e)) done)
        | inr fits ↦
            let sizes : p.filesz ≤ p.memsz = ground (arith, fits) in
            subst
              (λ b.
                (body b).0 ≡ true
                → IsInjective translate (body b).1.vm p.vaddr p.memsz
                → byte_at k (body b).1 ≡ expected k)
              (sym fits)
              (λ e i.
                fill_segment_holds k (pages spaces get_physical translate space p s) sizes e i less)
              done inj
      ]
