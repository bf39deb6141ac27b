-- ===== src/Kernel/Process/Signal/Timeouts.antt =====
-- kernel/process.c: which processes process_poll_timeouts leaves waiting.
use ceblar.Prelude.{
  ℕ, zero, suc, ◌+◌, ◌<◌, ◌≡◌, ◌≢◌, refl, ap, sym, ◌∙◌, subst, Bool, true, false, ◌==◌,
  if◌then◌else◌, update, update_self, update_else, arith, Bool-cases, inl, inr, ℕ_discrete, ◌-◌,
  ◌^◌, ne→==,
}
use ceblar.Kernel.Pcb.{Pcb, ready, running}
use ceblar.Kernel.Process.{System, pcb_of, put}
use ceblar.Kernel.Process.Exit.{added, set_eax}
use ceblar.Kernel.Process.Exit.Family.{process_at, scheduler_add_keeps, set_eax-machine}
use ceblar.Kernel.Process.Signal.{is_due, expire, timed_out, poll_from, process_poll_timeouts}

false_here : (b x : Bool) → (b ≡ true → x ≡ false) → x ≡ (if b then false else x)
false_here true x h = h refl
false_here false x h = refl

else_false : (b x : Bool) → (b ≡ false → x ≡ false) → (if b then false else x) ≡ false
else_false true x h = refl
else_false false x h = h refl

same_index : (i j : ℕ) → (i == j) ≡ true → i ≡ j
same_index i j e = ground (arith, e)

different_index : (i j : ℕ) → (i == j) ≡ false → i ≢ j
different_index i j e = ground (arith, e)

module _ {Vm : Type 0} (now j : ℕ) where
  -- Whether the process `j` is due.
  abbrev due : System Vm → Bool
  due s = is_due now (pcb_of s j)

  from_unlinked :
      (s s' : System Vm) → process_at s'.machine j ≡ process_at s.machine j → due s' ≡ due s
  from_unlinked s s' e = ap (λ (p : Pcb). is_due now p) e

  due-put :
      (i : ℕ) (p : Pcb) (s : System Vm)
      → is_due now p ≡ false
      → due (put i p s) ≡ (if i == j then false else due s)
  due-put i p s not_due = elim (ℕ_discrete i j) [
    | yes e ↦
        let test : i == j ≡ true = ground (arith, e) in
        subst (λ k. is_due now (update s.machine.processes i p k) ≡ false) e
          (ap (λ (q : Pcb). is_due now q) (update_self s.machine.processes i p) ∙ not_due)
        ∙ sym (ap (λ b. if b then false else due s) test)
    | no ne ↦
        let test : i == j ≡ false = ne→== i j ne in
        ap (λ (q : Pcb). is_due now q) (update_else s.machine.processes i p j ne)
        ∙ sym (ap (λ b. if b then false else due s) test)
  ]

  -- The two ways of a process that is due.
  abbrev resumed : ℕ → System Vm → System Vm
  resumed i s = put i (record (timed_out (pcb_of s i)) { state = running }) s

  abbrev queued : ℕ → System Vm → System Vm
  queued i s = added i (
      set_eax (pcb_of s i).interrupt_frame (2 ^ 32 - 110)
        (put i (record (timed_out (pcb_of s i)) { state = ready }) s))

  due-queued : (i : ℕ) (s : System Vm) → due (queued i s) ≡ (if i == j then false else due s)
  due-queued i s =
      let p : Pcb = record (timed_out (pcb_of s i)) { state = ready } in
      let s₁ : System Vm = put i p s in
      let s₂ : System Vm = set_eax (pcb_of s i).interrupt_frame (2 ^ 32 - 110) s₁ in
      from_unlinked s₁ (added i s₂) (
        scheduler_add_keeps i s₂.machine j
        ∙ ap (λ m. process_at m j) (set_eax-machine (pcb_of s i).interrupt_frame (2 ^ 32 - 110) s₁))
      ∙ due-put i p s (ground arith)

  due-expire : (i : ℕ) (s : System Vm) → due (expire i s) ≡ (if i == j then false else due s)
  due-expire i s =
      elim (i == s.machine.current)
        as (λ b. due (if b then resumed i s else queued i s) ≡ (if i == j then false else due s)) [
          | true ↦ due-put i (record (timed_out (pcb_of s i)) { state = running }) s (ground arith)
          | false ↦ due-queued i s
        ]

  -- One round of the loop.
  due_round :
      (i : ℕ) (s : System Vm)
      → due (if is_due now (pcb_of s i) then expire i s else s) ≡ (if i == j then false else due s)
  due_round i s = elim (Bool-cases (is_due now (pcb_of s i))) [
    | inl e ↦ ap (λ b. due (if b then expire i s else s)) e ∙ due-expire i s
    | inr e ↦
        ap (λ b. due (if b then expire i s else s)) e
        ∙ false_here (i == j) (due s)
            (λ same. subst (λ k. is_due now (pcb_of s k) ≡ false) (same_index i j same) e)
  ]

  due-poll_from :
      (n i : ℕ) (s : System Vm)
      → j < i + n
      → (j < i → due s ≡ false)
      → due (poll_from n i now s) ≡ false
  unfolding poll_from
  due-poll_from zero i s lt before = before (omega arith)
  due-poll_from (suc n) i s lt before =
      due-poll_from n (i + 1) (if is_due now (pcb_of s i) then expire i s else s) (omega arith)
        (λ below.
          due_round i s
          ∙ else_false (i == j) (due s)
              (λ differs. before (omega (arith, different_index i j differs))))

  -- After `process_poll_timeouts` no process of the table is blocked on a word with a deadline that has passed.
  pub poll_timeouts_due :
      (s : System Vm)
      → j < s.machine.process_count
      → is_due now (pcb_of (process_poll_timeouts now s) j) ≡ false
  unfolding process_poll_timeouts
  poll_timeouts_due s lt =
      due-poll_from s.machine.process_count 0 s (omega arith) (λ none_before. absurd (omega arith))
