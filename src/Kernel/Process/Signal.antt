-- ===== src/Kernel/Process/Signal.antt =====
-- kernel/process.c: signals, and the waits on a word of memory (futex). The result of a function that returns 0
-- or a negative number is whether it is 0.
pub mod Frames
pub mod Timeouts
use ceblar.Prelude.{
  ℕ, zero, suc, ◌+◌, ◌-◌, ◌*◌, ◌%◌, ◌^◌, bit_and, bit_or, bit_xor, Bool, true, false, ◌&&◌, ◌||◌,
  not, ◌==◌, ltb, leb, if◌then◌else◌, Option, none, some, update, add32, sub32,
}
use ceblar.Kernel.Pcb.{
  ready, running, blocked, is_blocked, is_zombie, null, saved, initial, FramePointer, Pcb, Machine,
}
use ceblar.Kernel.Process.{
  Spaces, System, pcb_of, put, store_frame, eax, eip, useresp, find_process, find_pid, has_pid,
}
use ceblar.Kernel.Process.Exit.{added, set_eax, store_word, process_exit_with_status}

-- `1u << n` and `~x`
abbrev pub bit : ℕ → ℕ
bit n = 2 ^ n

abbrev pub complement : ℕ → ℕ
complement x = bit_xor x (2 ^ 32 - 1)

abbrev pub is_given_space : Option ℕ → Bool
is_given_space none = false
is_given_space (some space) = true

abbrev pub unblocked : Pcb → Pcb
unblocked p = record p { state = ready; futex_key = 0; futex_deadline = 0 }

-- `if (*word == expected)`: the word of an address in the address space in use.
abbrev pub user_word : {Vm : Type 0} → ℕ → System Vm → ℕ
user_word a s = s.words s.machine.active_space a

-- The handler's frame.
abbrev pub handler_words : ℕ → ℕ → ℕ → (ℕ → ℕ) → ℕ → ℕ
handler_words signal handler new_stack words =
    update (update (update words useresp new_stack) eip handler) eax signal

-- `for (i = 0; i < 15u; i++) ((uint32_t *)r)[i] = p->signal_saved_frame[i]`
abbrev pub restored_words : Pcb → (ℕ → ℕ) → ℕ → ℕ
restored_words p words i = if ltb i 15 then p.signal_saved_frame i else words i

abbrev pub is_waiting_on : ℕ → Pcb → Bool
is_waiting_on key p = is_blocked p.state && p.futex_key == key

-- The tests of `process_poll_timeouts`: the deadline is not ahead of the clock, by the sign of the difference.
abbrev pub is_due : ℕ → Pcb → Bool
is_due now p =
    p.allocated
    && is_blocked p.state
    && not (p.futex_key == 0)
    && not (p.futex_deadline == 0)
    && ltb (sub32 now p.futex_deadline) (2 ^ 31)

abbrev pub timed_out : Pcb → Pcb
timed_out p = record p { futex_key = 0; futex_expected = 0; futex_deadline = 0 }

module _ {Vm : Type 0} where
  abbrev pub signalled : ℕ → System Vm → Option ℕ → Bool × System Vm
  signalled signal s none = (false, s)
  signalled signal s (some i) =
      let p : Pcb = record (pcb_of s i) {
        pending_signals = bit_or (pcb_of s i).pending_signals (bit signal);
      } in
      if is_blocked p.state then (true, added i (put i (unblocked p) s)) else (true, put i p s)

  unfoldable pub process_send_signal : ℕ → ℕ → System Vm → Bool × System Vm
  process_send_signal pid signal s =
      if signal == 0 || ltb 31 signal
      then (false, s)
      else if signal == 9
      then process_exit_with_status pid 137 s
      else signalled signal s (
          find_process s.machine.process_count 0 (λ p. has_pid pid p && not (is_zombie p.state))
            s.machine)

  abbrev pub masked : ℕ → System Vm → Option ℕ → Bool × System Vm
  masked mask s none = (false, s)
  masked mask s (some i) =
      (true, put i (record (pcb_of s i) { signal_mask = bit_and mask (complement (bit 9)) }) s)

  unfoldable pub process_signal_set_mask : ℕ → ℕ → System Vm → Bool × System Vm
  process_signal_set_mask pid mask s = masked mask s (find_pid pid s.machine)

  abbrev pub stored_frame : FramePointer → Pcb → System Vm → ℕ → ℕ
  stored_frame r p s i = if ltb i 15 then s.frames r i else p.signal_saved_frame i

  abbrev pub enter_handler : FramePointer → ℕ → ℕ → Pcb → System Vm → System Vm
  enter_handler r signal handler p s =
      let new_stack = s.frames r useresp - 8 in
      store_frame r (handler_words signal handler new_stack (s.frames r)) (
        store_word (new_stack + 4) signal (
          store_word new_stack 0 (
            put s.machine.current
              (record p { signal_saved_frame = stored_frame r p s; signal_active = true }) s)))

  -- A call with a frame.
  unfoldable pub process_signal_return : FramePointer → System Vm → System Vm
  process_signal_return r s =
      let p = pcb_of s s.machine.current in
      if p.signal_active
      then store_frame r (restored_words p (s.frames r))
          (put s.machine.current (record p { signal_active = false }) s)
      else s

  abbrev pub wake_waiter : ℕ → System Vm → System Vm
  wake_waiter i s =
      added i (set_eax (pcb_of s i).interrupt_frame 0 (put i (unblocked (pcb_of s i)) s))

  -- The loop from `i` on, by the rounds left, with the number of processes woken.
  unfoldable pub wake_from : ℕ → ℕ → ℕ → ℕ → ℕ → System Vm → ℕ × System Vm
  wake_from zero i key count woken s = (woken, s)
  wake_from (suc n) i key count woken s =
      let next : ℕ × System Vm =
        (if is_waiting_on key (pcb_of s i) then (woken + 1, wake_waiter i s) else (woken, s)) in
      let rest = wake_from n (i + 1) key count next.0 next.1 in
      if count == 0 || ltb woken count then rest else (woken, s)

  -- `none` is -1.
  unfoldable pub process_futex_wake : ℕ → ℕ → System Vm → Option ℕ × System Vm
  process_futex_wake key count s =
      if key == 0
      then (none, s)
      else (let (woken, s₁) = wake_from s.machine.process_count 0 key count 0 s in (some woken, s₁))

  -- `(uint32_t)-110` goes to the frame of a process that does not run.
  abbrev pub expire : ℕ → System Vm → System Vm
  expire i s =
      if i == s.machine.current
      then put i (record (timed_out (pcb_of s i)) { state = running }) s
      else added i (
          set_eax (pcb_of s i).interrupt_frame (2 ^ 32 - 110)
            (put i (record (timed_out (pcb_of s i)) { state = ready }) s))

  unfoldable pub poll_from : ℕ → ℕ → ℕ → System Vm → System Vm
  poll_from zero i now s = s
  poll_from (suc n) i now s =
      poll_from n (i + 1) now (if is_due now (pcb_of s i) then expire i s else s)

  -- `now` is `timer_uptime_ms()`.
  unfoldable pub process_poll_timeouts : ℕ → System Vm → System Vm
  process_poll_timeouts now s = poll_from s.machine.process_count 0 now s

module _ {Vm : Type 0} (spaces : Spaces Vm) where
  abbrev handler_given : ℕ → ℕ → System Vm → Option ℕ → Bool × System Vm
  handler_given signal handler s none = (false, s)
  handler_given signal handler s (some i) =
      let p = pcb_of s i in
      if not (handler == 0)
        && (ltb handler 0x400000
            || leb 0xc0000000 handler
            || not (is_given_space p.address_space)
            || not (spaces.vmm_validate_user_ptr p.address_space handler 1 false s.vm))
      then (false, s)
      else (true, put i (record p { signal_handlers = update p.signal_handlers signal handler }) s)

  unfoldable pub process_signal_action : ℕ → ℕ → ℕ → System Vm → Bool × System Vm
  process_signal_action pid signal handler s =
      if signal == 0 || ltb 31 signal || signal == 9
      then (false, s)
      else handler_given signal handler s (find_pid pid s.machine)

  -- The loop over the signals from `signal` on, by the rounds left.
  unfoldable pub deliver_from : ℕ → ℕ → ℕ → FramePointer → System Vm → System Vm
  deliver_from zero signal pending r s = s
  deliver_from (suc n) signal pending r s =
      let p = pcb_of s s.machine.current in
      let q : Pcb = record p {
        pending_signals = bit_and p.pending_signals (complement (bit signal));
      } in
      let s₁ = put s.machine.current q s in
      let rest = deliver_from n (signal + 1) pending r s in
      let skipped = deliver_from n (signal + 1) pending r s₁ in
      if bit_and pending (bit signal) == 0
      then rest
      else if q.signal_handlers signal == 0
      then skipped
      else if ltb (s.frames r useresp) 0x400008
          || not (spaces.vmm_validate_user_ptr q.address_space (s.frames r useresp - 8) 8 true s.vm)
      then skipped
      else enter_handler r signal (q.signal_handlers signal) q s

  -- A call with a frame.
  unfoldable pub process_deliver_signal : FramePointer → System Vm → System Vm
  process_deliver_signal r s =
      let p = pcb_of s s.machine.current in
      if not p.user_mode || p.signal_active
      then s
      else deliver_from 31 1
          (bit_and (bit_and p.pending_signals (complement p.signal_mask)) (2 ^ 32 - 2)) r s

  -- The word is read once: nothing changes it between its two tests.
  unfoldable pub process_futex_wait : ℕ → ℕ → ℕ → ℕ → System Vm → Bool × System Vm
  process_futex_wait key expected timeout_ms now s =
      let p = pcb_of s s.machine.current in
      if key == 0
        || not (spaces.vmm_validate_user_ptr p.address_space key 4 true s.vm)
        || not (user_word key s == expected)
      then (false, s)
      else (
        true,
        put s.machine.current
            (record p {
              futex_key = key;
              futex_expected = expected;
              futex_deadline = if timeout_ms == 0 then 0 else add32 now timeout_ms;
              state = blocked;
            })
            s,
      )
