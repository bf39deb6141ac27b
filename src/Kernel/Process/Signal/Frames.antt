-- ===== src/Kernel/Process/Signal/Frames.antt =====
-- kernel/process.c: a signal handler's frame and the return from it.
use ceblar.Prelude.{
  ℕ, zero, suc, ◌+◌, ◌-◌, ◌^◌, ◌<◌, ◌≡◌, ◌≢◌, refl, ap, sym, ◌∙◌, Bool, true, false, not, ◌||◌,
  ◌==◌, ltb, if◌then◌else◌, update_self, arith, Bool-cases, inl, inr, bit_and,
}
use ceblar.Kernel.Pcb.{Pcb, FramePointer, null, saved, initial}
use ceblar.Kernel.Process.{Spaces, System, pcb_of, put, same_frame, store_frame, useresp}
use ceblar.Kernel.Process.Signal.{
  deliver_from, process_deliver_signal, process_signal_return, enter_handler, stored_frame,
  restored_words, bit, complement,
}

same_frame_refl : (f : FramePointer) → f ≢ null → same_frame f f ≡ true
same_frame_refl null given = absurd (given refl)
same_frame_refl (saved n) given = ground arith
same_frame_refl (initial n) given = ground arith

true_not_false : true ≡ false → ⊥
true_not_false e = absurd (grind (arith, e))

restored_lem :
    (p : Pcb) (words : ℕ → ℕ) (i : ℕ) → i < 15 → restored_words p words i ≡ p.signal_saved_frame i
restored_lem p words i lt = ground (arith, lt)

-- Whether the process that runs is in a handler.
abbrev pub active : {Vm : Type 0} → System Vm → Bool
active s = (pcb_of s s.machine.current).signal_active

module _ {Vm : Type 0} (spaces : Spaces Vm) (r : FramePointer) where
  -- After a delivery, seen from the frame that it got: nothing was delivered, or the process is in the handler, with
  -- the frame's words saved.
  record Delivered (words : ℕ → ℕ) (s : System Vm) : Type 0 where
    pub idle_frame : active s ≡ false → s.frames r ≡ words
    pub saved_words :
        active s ≡ true
        → (i : ℕ) → i < 15
        → (pcb_of s s.machine.current).signal_saved_frame i ≡ words i

  Delivered-if :
      (words : ℕ → ℕ) (b : Bool) (s t : System Vm)
      → Delivered words s
      → Delivered words t
      → Delivered words (if b then s else t)
  Delivered-if words true s t ds dt = ds
  Delivered-if words false s t ds dt = dt

  enter_handler-Delivered :
      (signal handler : ℕ) (p : Pcb) (s : System Vm)
      → Delivered (s.frames r) (enter_handler r signal handler p s)
  enter_handler-Delivered signal handler p s =
      let here =
        update_self s.machine.processes s.machine.current
          (record p { signal_saved_frame = stored_frame r p s; signal_active = true }) in
      record {
        idle_frame =
            λ e. absurd (true_not_false (sym (ap (λ (x : Pcb). x.signal_active) here) ∙ e));
        saved_words = λ e i lt. ap (λ (x : Pcb). x.signal_saved_frame i) here ∙ ground (arith, lt);
      }

  deliver_from-Delivered :
      (n signal pending : ℕ) (s : System Vm)
      → active s ≡ false
      → Delivered (s.frames r) (deliver_from spaces n signal pending r s)
  unfolding deliver_from
  deliver_from-Delivered zero signal pending s off = record {
    idle_frame = λ e. refl;
    saved_words = λ e. absurd (grind (arith, e, off));
  }
  deliver_from-Delivered (suc n) signal pending s off =
      let p = pcb_of s s.machine.current in
      let q : Pcb = record p {
        pending_signals = bit_and p.pending_signals (complement (bit signal));
      } in
      let s₁ : System Vm = put s.machine.current q s in
      let off₁ : active s₁ ≡ false =
        ap (λ (x : Pcb). x.signal_active) (update_self s.machine.processes s.machine.current q)
        ∙ off in
      let rest = deliver_from-Delivered n (signal + 1) pending s off in
      let skipped = deliver_from-Delivered n (signal + 1) pending s₁ off₁ in
      let entered = enter_handler-Delivered signal (q.signal_handlers signal) q s in
      Delivered-if (s.frames r) (bit_and pending (bit signal) == 0) _ _ rest (
        Delivered-if (s.frames r) (q.signal_handlers signal == 0) _ _ skipped (
          Delivered-if (s.frames r)
            (ltb (s.frames r useresp) 0x400008
              || not (
                  spaces.vmm_validate_user_ptr q.address_space (s.frames r useresp - 8) 8 true
                    s.vm))
            _ _ skipped entered))

  deliver_signal-Delivered :
      (s : System Vm)
      → active s ≡ false
      → Delivered (s.frames r) (process_deliver_signal spaces r s)
  unfolding process_deliver_signal
  deliver_signal-Delivered s off =
      let p = pcb_of s s.machine.current in
      Delivered-if (s.frames r) (not p.user_mode || p.signal_active) _ _
        (record { idle_frame = λ e. refl; saved_words = λ e. absurd (grind (arith, e, off)) })
        (deliver_from-Delivered 31 1
          (bit_and (bit_and p.pending_signals (complement p.signal_mask)) (2 ^ 32 - 2)) s off)

  abbrev returned : System Vm → System Vm
  returned s =
      let p = pcb_of s s.machine.current in
      store_frame r (restored_words p (s.frames r))
        (put s.machine.current (record p { signal_active = false }) s)

  -- A return in the handler puts the saved words back.
  signal_return_lem :
      (words : ℕ → ℕ) (s : System Vm)
      → r ≢ null
      → Delivered words s
      → ((i : ℕ) → i < 15 → (process_signal_return r s).frames r i ≡ words i)
        × (active (process_signal_return r s) ≡ false)
  unfolding process_signal_return
  signal_return_lem words s given d = elim (Bool-cases (active s)) [
    | inl on ↦
        let p = pcb_of s s.machine.current in
        let step : process_signal_return r s ≡ returned s =
          ap (λ b. if b then returned s else s) on in
        (
          λ i lt.
              ap (λ (t : System Vm). t.frames r i) step
              ∙ ap (λ b. (if b then restored_words p (s.frames r) else s.frames r) i)
                  (same_frame_refl r given)
              ∙ restored_lem p (s.frames r) i lt
              ∙ d.saved_words on i lt,
          ap active step
              ∙ ap (λ (x : Pcb). x.signal_active)
                  (update_self s.machine.processes s.machine.current
                    (record p { signal_active = false })),
        )
    | inr off ↦
        let step : process_signal_return r s ≡ s = ap (λ b. if b then returned s else s) off in
        (
          λ i lt.
              ap (λ (t : System Vm). t.frames r i) step
              ∙ ap (λ (w : ℕ → ℕ). w i) (d.idle_frame off),
          ap active step ∙ off,
        )
  ]

  -- From a process that is in no handler: after `process_deliver_signal` on a frame, whether it delivers a signal or
  -- not, `process_signal_return` leaves the frame with all its 15 words as they were, and the process in no handler.
  pub signal_return-deliver_signal :
      (s : System Vm)
      → r ≢ null
      → active s ≡ false
      → ((i : ℕ)
          → i < 15
          → (process_signal_return r (process_deliver_signal spaces r s)).frames r i ≡ s.frames r i)
        × (active (process_signal_return r (process_deliver_signal spaces r s)) ≡ false)
  signal_return-deliver_signal s given off =
      signal_return_lem (s.frames r) (process_deliver_signal spaces r s) given
        (deliver_signal-Delivered s off)
