-- ===== src/Drivers/Ata/Laws.antt =====
-- What the driver of drivers/ata/ata.c tells the disk, and what its results mean.
use ceblar.Prelude.{
  ℕ, zero, suc, ◌+◌, ◌*◌, ◌/◌, ◌%◌, ◌^◌, ◌<◌, ◌≤◌, ◌≡◌, ◌≢◌, refl, ap, sym, ◌∙◌, subst, bit_and,
  bit_or, Bool, true, false, ◌==◌, leb, some, List, length, length-append, add32, arith, Bool-cases,
  Option-cases, inl, inr, all_below, all_below_sound,
}
use ceblar.Drivers.Ata.{
  Ports, ata_sector_count, ata_lba0, ata_lba1, ata_lba2, ata_drive, ata_status, ata_control,
  has_error, is_done, ata_delay, wait_from, ata_wait, ata_select, ata_timeout, read_words,
  start_transfer, transfer_in, read_from, ata_read, out_of_range, ata_cmd_read,
}

-- The byte for the drive register.
drive_byte : (x : ℕ) → x < 16 → bit_or 0xe0 (bit_and x 0x0f) % 256 ≡ 0xe0 + x
unfolding all_below
drive_byte x lt =
    ground
      (arith, all_below_sound 16 (λ y. bit_or 0xe0 (bit_and y 0x0f) % 256 == 0xe0 + y) x refl lt)

module _ {W : Type 0} (ports : Ports W) where
  open ports use {inb, inw, outb}

  -- A poll of the status register, which gave `w`.
  pub record Polled (wanted : ℕ) (w : W) : Type 0 where
    pub before : W
    pub same : (inb ata_status before).1 ≡ w
    pub no_error : has_error (inb ata_status before).0 ≡ false
    pub done : is_done wanted (inb ata_status before).0 ≡ true

  wait_from_done :
      (n wanted : ℕ) (w : W)
      → has_error (inb ata_status w).0 ≡ false
      → is_done wanted (inb ata_status w).0 ≡ true
      → wait_from ports (suc n) wanted w ≡ (true, (inb ata_status w).1)
  unfolding wait_from
  wait_from_done n wanted w good done = ground (arith, good, done)

  wait_from_busy :
      (n wanted : ℕ) (w : W)
      → has_error (inb ata_status w).0 ≡ false
      → is_done wanted (inb ata_status w).0 ≡ false
      → wait_from ports (suc n) wanted w ≡ wait_from ports n wanted (inb ata_status w).1
  unfolding wait_from
  wait_from_busy n wanted w good busy = ground (arith, good, busy)

  wait_from-Polled :
      (n wanted : ℕ) (w : W)
      → (wait_from ports n wanted w).0 ≡ true
      → Polled wanted (wait_from ports n wanted w).1
  unfolding wait_from
  wait_from-Polled zero wanted w e = absurd (ground (arith, e))
  wait_from-Polled (suc n) wanted w e = elim (Bool-cases (has_error (inb ata_status w).0)) [
    | inl bad ↦ absurd (ground (arith, e, bad))
    | inr good ↦ elim (Bool-cases (is_done wanted (inb ata_status w).0)) [
      | inl done ↦
          subst (λ (v : W). Polled wanted v)
            (sym (ap (λ (r : Bool × W). r.1) (wait_from_done n wanted w good done)))
            (record { before = w; same = refl; no_error = good; done = done })
      | inr busy ↦
          subst (λ (v : W). Polled wanted v)
            (sym (ap (λ (r : Bool × W). r.1) (wait_from_busy n wanted w good busy)))
            (wait_from-Polled n wanted (inb ata_status w).1
              (sym (ap (λ (r : Bool × W). r.0) (wait_from_busy n wanted w good busy)) ∙ e))
    ]
  ]

  length-read_words : (n : ℕ) (w : W) → length (read_words ports n w).0 ≡ n
  unfolding read_words
  length-read_words zero w = refl
  length-read_words (suc n) w = omega (arith, length-read_words n (inw 0x1f0 w).1)

  start_transfer_lem :
      (present : Bool) (command lba : ℕ) (w : W)
      → (start_transfer ports present command lba w).0 ≡ true
      → (present ≡ true) × (lba < 0x10000000)
  unfolding start_transfer ata_select
  start_transfer_lem false command lba w e = absurd (ground (arith, e))
  start_transfer_lem true command lba w e = elim (Bool-cases (leb 0x10000000 lba)) [
    | inl big ↦ absurd (ground (arith, e, big))
    | inr small ↦ (refl, ground (arith, small))
  ]

  transfer_in_lem :
      (present : Bool) (lba : ℕ) (w : W) (xs : List ℕ)
      → (transfer_in ports present lba w).0 ≡ some xs
      → (present ≡ true) × (lba < 0x10000000) × (length xs ≡ 256)
  unfolding transfer_in
  transfer_in_lem present lba w xs e =
      let started = start_transfer ports present ata_cmd_read lba w in
      let size = length-read_words 256 started.1 in
      elim (Bool-cases started.0) [
        | inl ok ↦
            let (here, small) = start_transfer_lem present ata_cmd_read lba w ok in
            (here, small, ground (arith, e, ok, size))
        | inr failed ↦ absurd (ground (arith, e, failed))
      ]

  -- The registers of a disk: each holds what was last written to it, and reading the control port
  -- changes none.
  pub record HasRegisters : Type 0 where
    pub register : W → ℕ → ℕ
    pub written : (p v : ℕ) (w : W) → register (outb p v w) p ≡ v
    pub kept : (p q v : ℕ) (w : W) → q ≢ p → register (outb p v w) q ≡ register w q
    pub idle_read : (q : ℕ) (w : W) → register (inb ata_control w).1 q ≡ register w q

  module _ (has : HasRegisters) where
    open has use {register}

    selected : ℕ → ℕ → ℕ → ℕ → W → W
    unfolding ata_delay
    selected d a b c w = outb ata_lba2 c (
        outb ata_lba1 b
          (outb ata_lba0 a (outb ata_sector_count 1 (ata_delay ports (outb ata_drive d w)))))

    selected_registers :
        (d a b c : ℕ) (w : W)
        → (register (selected d a b c w) ata_sector_count ≡ 1)
          × (register (selected d a b c w) ata_drive ≡ d)
          × (register (selected d a b c w) ata_lba0 ≡ a)
          × (register (selected d a b c w) ata_lba1 ≡ b)
          × (register (selected d a b c w) ata_lba2 ≡ c)
    unfolding selected ata_delay
    selected_registers d a b c w =
        let hold = has.written in
        let keep = has.kept in
        let idle = has.idle_read in
        (
          rw
              (
                keep ata_lba2 ata_sector_count c _ (omega arith),
                keep ata_lba1 ata_sector_count b _ (omega arith),
                keep ata_lba0 ata_sector_count a _ (omega arith),
              )
              (hold _ _ _),
          rw
              (
                keep ata_lba2 ata_drive c _ (omega arith),
                keep ata_lba1 ata_drive b _ (omega arith),
                keep ata_lba0 ata_drive a _ (omega arith),
                keep ata_sector_count ata_drive 1 _ (omega arith),
                idle ata_drive _,
                idle ata_drive _,
                idle ata_drive _,
                idle ata_drive _,
              )
              (hold _ _ _),
          rw (keep ata_lba2 ata_lba0 c _ (omega arith), keep ata_lba1 ata_lba0 b _ (omega arith))
              (hold _ _ _),
          rw (keep ata_lba2 ata_lba1 c _ (omega arith)) (hold _ _ _),
          hold _ _ _,
        )

    abbrev chosen : ℕ → W → W
    chosen lba w =
        selected (bit_or 0xe0 (bit_and (lba / 2 ^ 24) 0x0f) % 256) (lba % 256) (lba / 2 ^ 8 % 256)
          (lba / 2 ^ 16 % 256) w

    ata_select-chosen :
        (lba : ℕ) (w : W) → lba < 2 ^ 28 → ata_select ports lba w ≡ some (chosen lba w)
    unfolding ata_select selected ata_delay
    ata_select-chosen lba w small =
        let test : leb 0x10000000 lba ≡ false = ground arith in rw test refl

    -- A number below 2 ^ 28 in the registers: one sector, the mode bits 1110, and the number in four parts.
    pub Addresses : ℕ → W → Type 0
    Addresses lba v =
        (lba < 2 ^ 28)
        × (register v ata_sector_count ≡ 1)
        × (register v ata_drive / 2 ^ 4 ≡ 0xe)
        × (register v ata_drive % 2 ^ 4 * 2 ^ 24
              + register v ata_lba2 * 2 ^ 16
              + register v ata_lba1 * 2 ^ 8
              + register v ata_lba0
            ≡ lba)

    chosen-Addresses : (lba : ℕ) (w : W) → lba < 2 ^ 28 → Addresses lba (chosen lba w)
    unfolding Addresses
    chosen-Addresses lba w small =
        let (count, drive, low, middle, high) =
          selected_registers (bit_or 0xe0 (bit_and (lba / 2 ^ 24) 0x0f) % 256) (lba % 256)
            (lba / 2 ^ 8 % 256) (lba / 2 ^ 16 % 256) w in
        let top = drive_byte (lba / 2 ^ 24) (omega arith) in
        let byte : register (chosen lba w) ata_drive ≡ 0xe0 + lba / 2 ^ 24 = drive ∙ top in
        (small, count, rw byte (omega arith), rw (byte, low, middle, high) (omega arith))

    -- `ata_select` refuses a number of 28 bits or more, and otherwise addresses it in the registers of
    -- the disk (`Addresses`).
    pub ata_select-Addresses :
        (lba : ℕ) (w w' : W) → ata_select ports lba w ≡ some w' → Addresses lba w'
    unfolding ata_select
    ata_select-Addresses lba w w' e =
        let small : lba < 2 ^ 28 = ground (arith, e) in
        let same : chosen lba w ≡ w' = ground (arith, e, ata_select-chosen lba w small) in
        subst (Addresses lba) same (chosen-Addresses lba w small)

  read_from_lem :
      (n lba : ℕ) (w : W) (xs : List ℕ)
      → (read_from ports true lba n w).0 ≡ some xs
      → length xs ≡ 256 * n
  unfolding read_from
  read_from_lem zero lba w xs e = ground (arith, e)
  read_from_lem (suc n) lba w xs e = elim (Option-cases (transfer_in ports true lba w).0) [
    | inl failed ↦ absurd (ground (arith, e, failed))
    | inr (first, got) ↦
        let (here, small, size) = transfer_in_lem true lba w first got in
        let w₁ : W = (transfer_in ports true lba w).1 in
        elim (Option-cases (read_from ports true (add32 lba 1) n w₁).0) [
          | inl stopped ↦ absurd (ground (arith, e, got, stopped))
          | inr (others, more) ↦
              let rest = read_from_lem n (add32 lba 1) w₁ others more in
              ground (arith, e, got, more, size, rest, length-append first others)
        ]
  ]

  read_from_absent :
      (n lba : ℕ) (w : W) (xs : List ℕ) → (read_from ports false lba (suc n) w).0 ≢ some xs
  unfolding read_from transfer_in start_transfer
  read_from_absent n lba w xs e = ground (arith, e)

  read_present :
      (present : Bool) (lba n : ℕ) (w : W) (xs : List ℕ)
      → 0 < n
      → lba + n ≤ 2 ^ 28
      → (read_from ports present lba n w).0 ≡ some xs
      → (present ≡ true) × (0 < n) × (lba + n ≤ 2 ^ 28) × (length xs ≡ 256 * n)
  read_present present lba zero w xs some_sectors below e = absurd (omega arith)
  read_present false lba (suc n) w xs some_sectors below e = absurd (read_from_absent n lba w xs e)
  read_present true lba (suc n) w xs some_sectors below e =
      (refl, some_sectors, below, read_from_lem (suc n) lba w xs e)

  -- If `ata_read` returns 0, a disk is present, the sectors are at least one and all below 2 ^ 28, and the
  -- buffer has received 256 words for each.
  pub ata_read-Bounds :
      (present : Bool) (lba n : ℕ) (w : W) (xs : List ℕ)
      → (ata_read ports present lba n w).0 ≡ some xs
      → (present ≡ true) × (0 < n) × (lba + n ≤ 2 ^ 28) × (length xs ≡ 256 * n)
  unfolding ata_read
  ata_read-Bounds present lba n w xs e = elim (Bool-cases (out_of_range lba n)) [
    | inl out ↦ absurd (ground (arith, e, out))
    | inr fits ↦
        let read : (read_from ports present lba n w).0 ≡ some xs = ground (arith, e, fits) in
        let some_sectors : 0 < n = ground (arith, fits) in
        let below : lba + n ≤ 2 ^ 28 = ground (arith, fits) in
        read_present present lba n w xs some_sectors below read
  ]

  -- If `ata_wait` returns 0, the last status that it read has neither the error bits nor the busy bit, and
  -- all the bits that were asked for.
  pub ata_wait-Polled :
      (wanted : ℕ) (w : W)
      → (ata_wait ports wanted w).0 ≡ true
      → Polled wanted (ata_wait ports wanted w).1
  unfolding ata_wait
  ata_wait-Polled wanted w e = wait_from-Polled ata_timeout wanted w e
