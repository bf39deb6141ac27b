-- ===== src/Kernel/Process/Pids.antt =====
-- kernel/process.c: the pids that new_pcb gives.
use ceblar.Prelude.{
  ℕ, zero, suc, ◌+◌, ◌*◌, ◌^◌, ◌<◌, ◌≤◌, ◌≡◌, ◌≢◌, refl, ap, sym, ◌∙◌, subst, Bool, true, false,
  ◌==◌, if◌then◌else◌, Option, none, some, update, update_self, update_else, arith, Bool-cases,
  Option-cases, inl, inr, ℕ_discrete,
}
use ceblar.Kernel.Pcb.{Pcb, Machine, max_processes, set_process}
use ceblar.Kernel.Process.{
  Spaces, System, pcb_of, find_process, is_free, next_generation, named_pcb, fresh_pcb, fill_slot,
  grown, fill, new_pcb,
}

-- The pid that a slot was given last; 0 in one that was never used.
abbrev pub pid_of : ℕ → ℕ → ℕ
pid_of i g = if g == 0 then 0 else g * 2 ^ 8 + (i + 1)

-- Each slot bears the pid of its generation, and the allocated ones have been given one.
pub record IsNamed (m : Machine) : Type 0 where
  pub named :
      (i : ℕ) → i < max_processes → (m.processes i).pid ≡ pid_of i (m.processes i).generation
  pub small : (i : ℕ) → i < max_processes → (m.processes i).generation < 2 ^ 24
  pub live :
      (i : ℕ)
      → i < max_processes
      → (m.processes i).allocated ≡ true
      → (m.processes i).generation ≢ 0

pub find_process_lem :
    (n i : ℕ) (test : Pcb → Bool) (m : Machine) (k : ℕ)
    → find_process n i test m ≡ some k
    → (i ≤ k) × (k < i + n) × (test (m.processes k) ≡ true)
unfolding find_process
find_process_lem zero i test m k e = absurd (grind (arith, e))
find_process_lem (suc n) i test m k e = elim (Bool-cases (test (m.processes i))) [
  | inl yes_test ↦
      let same : i ≡ k = grind (arith, e, yes_test) in
      (
        omega (arith, same),
        omega (arith, same),
        subst (λ x. test (m.processes x) ≡ true) same yes_test,
      )
  | inr no_test ↦
      let later : find_process n (i + 1) test m ≡ some k = grind (arith, e, no_test) in
      let (low, high, holds) = find_process_lem n (i + 1) test m k later in
      (omega arith, omega arith, holds)
]

-- A pid of the slot `i` that differs from every pid that a slot has, in use or not.
abbrev pub IsNew : Machine → ℕ → ℕ → Type 0
IsNew m i pid = (pid ≢ 0) × ((k : ℕ) → k < max_processes → (m.processes k).pid ≢ pid)

next_generation_lem :
    (g : ℕ)
    → g < 2 ^ 24
    → (next_generation g ≢ 0) × (next_generation g < 2 ^ 24) × (next_generation g ≢ g)
next_generation_lem g lt = (ground arith, ground arith, ground arith)

-- Two pids of used slots are equal only for the same slot and generation.
pid_of_lem :
    (i k g g' : ℕ)
    → i < max_processes
    → k < max_processes
    → g' ≢ 0
    → pid_of k g ≡ g' * 2 ^ 8 + (i + 1)
    → (k ≡ i) × (g ≡ g')
pid_of_lem i k g g' lt below some_generation e =
    let used : g == 0 ≡ false = ground (arith, e, some_generation) in
    let sum : g * 2 ^ 8 + (k + 1) ≡ g' * 2 ^ 8 + (i + 1) = ground (arith, used, e) in
    (omega arith, omega arith)

named_pcb-IsNew :
    (m : Machine) (i : ℕ)
    → IsNamed m
    → i < max_processes
    → IsNew m i (named_pcb i (m.processes i)).pid
named_pcb-IsNew m i h lt =
    let (some_generation, small, other) =
      next_generation_lem (m.processes i).generation (h.small i lt) in
    (
      omega arith,
      λ k below e.
          let (same, generation) =
            pid_of_lem i k (m.processes k).generation (next_generation (m.processes i).generation)
              lt below some_generation (sym (h.named k below) ∙ e) in
          other (sym generation ∙ ap (λ x. (m.processes x).generation) same),
    )

pid_of_some : (i g : ℕ) → g ≢ 0 → pid_of i g ≡ g * 2 ^ 8 + (i + 1)
pid_of_some i g ne = ground (arith, ne)

update_case :
    (P : ℕ → Pcb → Type 0) (a : ℕ → Pcb) (i : ℕ) (p : Pcb) (k : ℕ)
    → P i p
    → P k (a k)
    → P k (update a i p k)
update_case P a i p k here there = elim (ℕ_discrete i k) [
  | yes e ↦ subst (λ x. P x (update a i p x)) e (subst (P i) (sym (update_self a i p)) here)
  | no ne ↦ subst (P k) (sym (update_else a i p k ne)) there
]

-- A machine in which the slot `i` has been named anew.
set_process-IsNamed :
    (m : Machine) (i : ℕ) (p : Pcb)
    → IsNamed m
    → i < max_processes
    → p.generation ≡ next_generation (m.processes i).generation
    → p.pid ≡ next_generation (m.processes i).generation * 2 ^ 8 + (i + 1)
    → IsNamed (set_process m i p)
set_process-IsNamed m i p h lt g e =
    let (some_generation, small, other) =
      next_generation_lem (m.processes i).generation (h.small i lt) in
    record {
      named = λ k below.
          update_case (λ k p. p.pid ≡ pid_of k p.generation) m.processes i p k
            (e ∙ sym (pid_of_some i _ some_generation) ∙ ap (pid_of i) (sym g)) (h.named k below);
      small = λ k below.
          update_case (λ k p. p.generation < 2 ^ 24) m.processes i p k (omega (arith, g, small))
            (h.small k below);
      live = λ k below.
          update_case (λ k p. p.allocated ≡ true → p.generation ≢ 0) m.processes i p k
            (λ on zero_generation. some_generation (sym g ∙ zero_generation)) (h.live k below);
    }

-- What a slot gets: a machine that is still named, and if a process is made of it a new pid, in a slot that was free.
fill_slot-IsNamed :
    (i : ℕ) (space : Option ℕ) (m : Machine)
    → IsNamed m
    → i < max_processes
    → IsNamed (fill_slot i space m).1
unfolding fill_slot
fill_slot-IsNamed i none m h lt =
    set_process-IsNamed m i
      (record (named_pcb i (m.processes i)) { address_space = none; allocated = false }) h lt refl
      refl
fill_slot-IsNamed i (some space) m h lt =
    set_process-IsNamed (grown i m) i (fresh_pcb space (named_pcb i (m.processes i)))
      (record { named = h.named; small = h.small; live = h.live }) lt refl refl

some_same : {a b : ℕ} → some a ≡ some b → a ≡ b
some_same e = grind (arith, e)

module _ {Vm : Type 0} (spaces : Spaces Vm) where
  -- What `new_pcb` gives: a machine that is still named; if it gives a process, then in a slot that was free, with
  -- a pid that no slot had as its own or as its last one, and with every other process as before.
  pub record Names (s : System Vm) (r : Option ℕ × System Vm) : Type 0 where
    pub still_named : IsNamed r.1.machine
    pub slot_free : (i : ℕ) → r.0 ≡ some i → (i < max_processes) × ((pcb_of s i).allocated ≡ false)
    pub pid_new : (i : ℕ) → r.0 ≡ some i → IsNew s.machine i (pcb_of r.1 i).pid
    pub others_kept : (i j : ℕ) → r.0 ≡ some i → i ≢ j → pcb_of r.1 j ≡ pcb_of s j

  full-Names : (s : System Vm) → IsNamed s.machine → Names s (none, s)
  full-Names s h = record {
    still_named = h;
    slot_free = λ i e. absurd (grind (arith, e));
    pid_new = λ i e. absurd (grind (arith, e));
    others_kept = λ i j e. absurd (grind (arith, e));
  }

  fill_slot-Names :
      (s : System Vm) (i : ℕ) (space : Option ℕ) (vm : Vm)
      → IsNamed s.machine
      → i < max_processes
      → (pcb_of s i).allocated ≡ false
      → Names s (
        (fill_slot i space s.machine).0,
        record s { machine = (fill_slot i space s.machine).1; vm = vm },
      )
  unfolding fill_slot
  fill_slot-Names s i none vm h lt free = record {
    still_named = fill_slot-IsNamed i none s.machine h lt;
    slot_free = λ k e. absurd (grind (arith, e));
    pid_new = λ k e. absurd (grind (arith, e));
    others_kept = λ k j e. absurd (grind (arith, e));
  }
  fill_slot-Names s i (some space) vm h lt free =
      let p : Pcb = fresh_pcb space (named_pcb i (s.machine.processes i)) in
      record {
        still_named = fill_slot-IsNamed i (some space) s.machine h lt;
        slot_free = λ k e.
            let same : i ≡ k = some_same e in
            subst (λ x. (x < max_processes) × ((pcb_of s x).allocated ≡ false)) same (lt, free);
        pid_new = λ k e.
            let same : i ≡ k = some_same e in
            subst (λ x. IsNew s.machine x (update s.machine.processes i p x).pid) same
              (subst (λ (q : Pcb). IsNew s.machine i q.pid)
                (sym (update_self s.machine.processes i p)) (named_pcb-IsNew s.machine i h lt));
        others_kept = λ k j e ne.
            update_else s.machine.processes i p j (λ same. ne (sym (some_same e) ∙ same));
      }

  -- On a machine whose slots bear the pids of their generations (`IsNamed`), and whatever the memory manager
  -- answers, `new_pcb` keeps that; a process that it gives is in a slot that was free and has a pid that no slot
  -- had, as its own or as its last one; every other process is as before (`Names`).
  pub new_pcb-Names : (s : System Vm) → IsNamed s.machine → Names s (new_pcb spaces s)
  unfolding new_pcb
  new_pcb-Names s h = elim (Option-cases (find_process max_processes 0 is_free s.machine)) [
    | inl full ↦ subst (Names s) (sym (ap (λ o. fill spaces o s) full)) (full-Names s h)
    | inr (i, e) ↦
        let (low, lt, free) = find_process_lem max_processes 0 is_free s.machine i e in
        let (space, vm) = spaces.vmm_create_address_space s.vm in
        subst (Names s) (sym (ap (λ o. fill spaces o s) e))
          (fill_slot-Names s i space vm h lt (ground (arith, free)))
  ]
