-- ===== src/Kernel/Scheduler/Rotation.antt =====
-- The tick of scheduler/round_robin.c moves the running process behind the queue and runs its first.
use ceblar.Prelude.{
  ℕ, zero, suc, ◌+◌, ◌^◌, ◌<◌, ◌≡◌, ◌≢◌, refl, ap, ◌∙◌, sym, subst, true, false, ◌==◌, ltb,
  if◌then◌else◌, List, [], ◌∷◌, ◌++◌, length, arith, Option-cases, inl, inr, length-append, ne→==,
}
use ceblar.Kernel.Pcb.{idle, ready, running, is_running, Machine}
use ceblar.Kernel.Scheduler.{
  quantum_ticks, set_state, queue_fuel, enqueue, is_runnable, drop_head, next_from, next_ready,
  activate, count_tick, reset_ticks, requeue_current, switch_to, rr_tick,
}
use ceblar.Kernel.Scheduler.Queue.{
  Chain, NotIn, Distinct, Chain-update, enqueue-Chain, pick, Finds, next_from-pick, next_from_empty,
  next_from_head, state-enqueue,
}

NotIn-append : (p q : ℕ) (xs : List ℕ) → NotIn p xs → q ≢ p → NotIn p (xs ++ q ∷ [])
NotIn-append p q [] out ne = (ne, tt)
NotIn-append p q (x ∷ xs) out ne = (out.0, NotIn-append p q xs out.1 ne)

Distinct-append : (q : ℕ) (xs : List ℕ) → Distinct xs → NotIn q xs → Distinct (xs ++ q ∷ [])
Distinct-append q [] apart out = (tt, tt)
Distinct-append q (x ∷ xs) apart out =
    (NotIn-append x q xs apart.0 (λ e. out.0 (sym e)), Distinct-append q xs apart.1 out.1)

state-next_from :
    (n i : ℕ) (m : Machine) → ((next_from n m).1.processes i).state ≡ (m.processes i).state
state-next_from zero i m = unfold next_from in refl
state-next_from (suc n) i m = elim (Option-cases m.ready_head) [
  | inl e ↦ ap (λ (r : ℕ × Machine). (r.1.processes i).state) (next_from_empty n m e)
  | inr (x, e) ↦
      ap (λ (r : ℕ × Machine). (r.1.processes i).state) (next_from_head n x m e)
      ∙ ground (arith, state-next_from n i (drop_head x m))
]

-- A running process whose tick counter does not wrap, and a queue of other processes, without a
-- repetition, whose first is ready.
pub record Rotates (m : Machine) (p : ℕ) (rest : List ℕ) : Type 0 where
  pub queue : Chain m.processes m.ready_head (p ∷ rest)
  pub apart : Distinct (p ∷ rest)
  pub outside : NotIn m.current (p ∷ rest)
  pub few : length rest < 32
  pub busy : m.current ≢ idle
  pub runs : (m.processes m.current).state ≡ running
  pub live : (m.processes m.current).allocated ≡ true
  pub stacked : (m.processes m.current).esp ≢ 0
  pub counting : (m.processes m.current).ticks + 1 < 2 ^ 32
  pub first_allocated : (m.processes p).allocated ≡ true
  pub first_ready : (m.processes p).state ≡ ready

module _ (m : Machine) (p : ℕ) (rest : List ℕ) (h : Rotates m p rest) where
  -- The machine when the running process has been made ready, before it joins the queue.
  abbrev counted : Machine
  counted = set_state (reset_ticks (count_tick m)) m.current ready

  abbrev queued : Machine
  queued = enqueue m.current counted

  quantum_over : ltb ((count_tick m).processes m.current).ticks quantum_ticks ≡ false
  quantum_over = ground (arith, h.counting)

  requeued : requeue_current (reset_ticks (count_tick m)) ≡ queued
  unfolding requeue_current
  requeued =
      let other : m.current == idle ≡ false = ne→== _ _ h.busy in
      let runs : is_running ((reset_ticks (count_tick m)).processes m.current).state ≡ true =
        ground (arith, h.runs) in
      rw (other, runs)

  tick_path : rr_tick m ≡ switch_to m.current (next_ready queued)
  unfolding rr_tick
  tick_path = rw (quantum_over, requeued)

  counted-queue : Chain counted.processes counted.ready_head (p ∷ rest)
  counted-queue = Chain-update _ m.current _ m.ready_head (p ∷ rest) h.outside (
      Chain-update _ m.current _ m.ready_head (p ∷ rest) h.outside
        (Chain-update m.processes m.current _ m.ready_head (p ∷ rest) h.outside h.queue))

  queued-queue : Chain queued.processes queued.ready_head (p ∷ (rest ++ m.current ∷ []))
  queued-queue =
      enqueue-Chain m.current counted (p ∷ rest) counted-queue h.apart h.outside
        (omega (arith, h.few)) (ground (arith, h.live, h.stacked))

  found : Finds (next_ready queued) (p, rest ++ m.current ∷ [])
  unfolding next_ready
  found =
      let apart = Distinct-append m.current (p ∷ rest) h.apart h.outside in
      let size = length-append rest (m.current ∷ []) in
      let picked =
        next_from-pick queue_fuel queued (p ∷ (rest ++ m.current ∷ [])) (omega (arith, size, h.few))
          queued-queue apart in
      let (state, alive) = state-enqueue m.current p counted in
      let test : is_runnable (queued.processes p) ≡ true =
        rw (state, alive) (ground (arith, h.first_allocated, h.first_ready, h.outside.0)) in
      let first : pick (λ i. is_runnable (queued.processes i)) (p ∷ (rest ++ m.current ∷ []))
          ≡ (p, rest ++ m.current ∷ []) =
        rw test refl in
      subst (Finds (next_from queue_fuel queued)) first picked

  -- The process found is switched to.
  switched : rr_tick m ≡ activate p (next_ready queued).1
  switched =
      let other : p == m.current ≡ false = ne→== _ _ h.outside.0 in
      tick_path
      ∙ ap (λ n. if n == m.current then (next_ready queued).1 else activate n (next_ready queued).1)
          found.0
      ∙ rw other refl

  current_ready : ((next_ready queued).1.processes m.current).state ≡ ready
  unfolding next_ready
  current_ready =
      state-next_from queue_fuel m.current queued
      ∙ (state-enqueue m.current m.current counted).0
      ∙ ground arith

  -- A tick at the end of the quantum, with another process ready at the head of the queue (`Rotates`),
  -- runs that process and puts the one that ran, now ready, behind the queue; the others keep their
  -- order.
  pub tick_rotates :
      ((rr_tick m).current ≡ p)
      × (((rr_tick m).processes p).state ≡ running)
      × (((rr_tick m).processes m.current).state ≡ ready)
      × Chain (rr_tick m).processes (rr_tick m).ready_head (rest ++ m.current ∷ [])
  unfolding activate
  tick_rotates =
      let after : Machine = (next_ready queued).1 in
      let kept : ((activate p after).processes m.current).state
          ≡ (after.processes m.current).state =
        ground (arith, h.outside.0) in
      let runs : ((activate p after).processes p).state ≡ running = ground arith in
      let clear = NotIn-append p m.current rest h.apart.0 (λ e. h.outside.0 (sym e)) in
      let chain =
        Chain-update after.processes p (record (after.processes p) { state = running })
          after.ready_head (rest ++ m.current ∷ []) clear found.1 in
      subst
        (λ (r : Machine).
          (r.current ≡ p)
          × ((r.processes p).state ≡ running)
          × ((r.processes m.current).state ≡ ready)
          × Chain r.processes r.ready_head (rest ++ m.current ∷ []))
        (sym switched) (refl, runs, kept ∙ current_ready, chain)
