-- ===== src/Kernel/Spinlock/Exclusion.antt =====
-- kernel/spinlock.c: one processor at a time holds the lock, with its interrupts off.
use ceblar.Prelude.{
  ℕ, ◌≡◌, ◌≢◌, refl, ap, sym, subst, update, update_self, update_else, ◌==◌, if◌then◌else◌, Bool,
  true, false, arith, Bool-cases, inl, inr, ℕ_discrete,
}
use ceblar.Kernel.Spinlock.{
  disabled, Place, outside, spinning, inside, Cpu, Spinlock, start_lock, exchange, finish, LockStep,
  enter, attempt, leave, LockReach, begin, after, irq_save_disable, irq_restore,
}

abbrev pub is_inside : Place → Bool
is_inside (inside saved) = true
is_inside _ = false

-- Inside the calls the flags are the saved ones without the interrupt flag; outside, those of the start_lock.
abbrev pub FlaggedAt : ℕ → ℕ → Place → Type 0
FlaggedAt first flags outside = flags ≡ first
FlaggedAt first flags (spinning saved) = (saved ≡ first) × (flags ≡ disabled first)
FlaggedAt first flags (inside saved) = (saved ≡ first) × (flags ≡ disabled first)

abbrev pub Flagged : ℕ → Cpu → Type 0
Flagged first c = FlaggedAt first c.flags c.place

-- Who is inside, the lock word and the flags agree.
pub record IsExclusive (first : ℕ → ℕ) (l : Spinlock) : Type 0 where
  pub taken : (i : ℕ) → is_inside (l.cpus i).place ≡ true → l.value ≡ 1
  pub only :
      (i j : ℕ) → is_inside (l.cpus i).place ≡ true → is_inside (l.cpus j).place ≡ true → i ≡ j
  pub flagged : (i : ℕ) → Flagged (first i) (l.cpus i)

update_case :
    (P : ℕ → Cpu → Type 0) (a : ℕ → Cpu) (i : ℕ) (c : Cpu) (k : ℕ)
    → P i c
    → (i ≢ k → P k (a k))
    → P k (update a i c k)
update_case P a i c k here there = elim (ℕ_discrete i k) [
  | yes e ↦ subst (λ x. P x (update a i c x)) e (subst (P i) (sym (update_self a i c)) here)
  | no ne ↦ subst (P k) (sym (update_else a i c k ne)) (there ne)
]

module _ (first : ℕ → ℕ) where
  -- A step that leaves the processor `i` not inside, and whom else as before.
  out_step :
      (l : Spinlock) (i : ℕ) (c : Cpu) (value : ℕ)
      → IsExclusive first l
      → is_inside c.place ≡ false
      → Flagged (first i) c
      → ((k : ℕ) → i ≢ k → is_inside (l.cpus k).place ≡ true → value ≡ 1)
      → IsExclusive first (record { value = value; cpus = update l.cpus i c })
  out_step l i c value h out flagged held = record {
    taken = λ k.
        update_case (λ k c. is_inside c.place ≡ true → value ≡ 1) l.cpus i c k
          (λ e. absurd (grind (arith, e, out))) (λ ne. held k ne);
    only = λ j k.
        update_case
          (λ j cj. is_inside cj.place ≡ true → is_inside (update l.cpus i c k).place ≡ true → j ≡ k)
          l.cpus i c j (λ e. absurd (grind (arith, e, out)))
          (λ ne in_j.
            update_case (λ k ck. is_inside ck.place ≡ true → j ≡ k) l.cpus i c k
              (λ e. absurd (grind (arith, e, out))) (λ ne' in_k. h.only j k in_j in_k));
    flagged =
        λ k. update_case (λ k c. Flagged (first k) c) l.cpus i c k flagged (λ ne. h.flagged k);
  }

  -- A processor that gets inside a lock in which nobody is.
  in_step :
      (l : Spinlock) (i : ℕ) (c : Cpu)
      → IsExclusive first l
      → l.value ≡ 0
      → Flagged (first i) c
      → IsExclusive first (record { value = 1; cpus = update l.cpus i c })
  in_step l i c h free flagged =
      let nobody : (k : ℕ) → is_inside (l.cpus k).place ≡ false = λ k.
        elim (Bool-cases (is_inside (l.cpus k).place)) [
          | inl on ↦ absurd (omega (arith, h.taken k on, free))
          | inr off ↦ off
        ] in
      record {
        taken = λ k e. refl;
        only = λ j k.
            update_case
              (λ j cj.
                is_inside cj.place ≡ true → is_inside (update l.cpus i c k).place ≡ true → j ≡ k)
              l.cpus i c j
              (λ e.
                update_case (λ k ck. is_inside ck.place ≡ true → i ≡ k) l.cpus i c k (λ e'. refl)
                  (λ ne in_k. absurd (grind (arith, in_k, nobody k))))
              (λ ne in_j. absurd (grind (arith, in_j, nobody j)));
        flagged =
            λ k. update_case (λ k c. Flagged (first k) c) l.cpus i c k flagged (λ ne. h.flagged k);
      }

  step-IsExclusive : (l l' : Spinlock) → IsExclusive first l → LockStep l l' → IsExclusive first l'
  unfolding irq_save_disable irq_restore
  step-IsExclusive l _ h (enter i e) =
      let flags : (l.cpus i).flags ≡ first i =
        subst (FlaggedAt (first i) (l.cpus i).flags) e (h.flagged i) in
      out_step l i (start_lock (l.cpus i)) l.value h refl (flags, ap disabled flags)
        (λ k ne on. h.taken k on)
  step-IsExclusive l _ h (attempt i saved e) =
      let flags : (saved ≡ first i) × ((l.cpus i).flags ≡ disabled (first i)) =
        subst (FlaggedAt (first i) (l.cpus i).flags) e (h.flagged i) in
      let flagged : Flagged (first i) (exchange saved l.value (l.cpus i)) =
        elim (l.value == 0)
          as (λ b.
            FlaggedAt (first i) (l.cpus i).flags (if b then inside saved else spinning saved)) [
              | true ↦ flags
              | false ↦ flags
            ] in
      elim (Bool-cases (l.value == 0)) [
        | inl free ↦
            in_step l i (exchange saved l.value (l.cpus i)) h (ground (arith, free)) flagged
        | inr busy ↦
            out_step l i (exchange saved l.value (l.cpus i)) 1 h
              (ap (λ b. is_inside (if b then inside saved else spinning saved)) busy) flagged
              (λ k ne on. refl)
      ]
  step-IsExclusive l _ h (leave i saved e) =
      let flags : (saved ≡ first i) × ((l.cpus i).flags ≡ disabled (first i)) =
        subst (FlaggedAt (first i) (l.cpus i).flags) e (h.flagged i) in
      out_step l i (finish saved (l.cpus i)) 0 h refl flags.0
        (λ k ne on. absurd (ne (h.only i k (ap is_inside e) on)))

  -- Whatever steps the processors take on a lock that was free: two processors behind their `spin_lock_irqsave`
  -- are the same, a processor in the loop or behind it has the flags of before its call with interrupts off, and
  -- behind its `spin_unlock_irqrestore` those of before.
  pub LockReach-IsExclusive : (l : Spinlock) → LockReach first l → IsExclusive first l
  LockReach-IsExclusive _ begin = record {
    taken = λ i e. absurd (grind (arith, e));
    only = λ i j e. absurd (grind (arith, e));
    flagged = λ i. refl;
  }
  LockReach-IsExclusive _ (after r s) = step-IsExclusive _ _ (LockReach-IsExclusive _ r) s
