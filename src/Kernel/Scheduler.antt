-- ===== src/Kernel/Scheduler.antt =====
-- scheduler/round_robin.c: the ready queue, linked through `next`, and the switches of processes.
pub mod Queue
pub mod Rotation
mod Tests
use ceblar.Prelude.{
  ℕ, zero, suc, ◌+◌, Bool, true, false, ◌&&◌, ◌||◌, not, ◌==◌, ltb, if◌then◌else◌, Option, none,
  some, update, add32,
}
use ceblar.Kernel.Pcb.{
  idle, ProcessState, ready, running, blocked, zombie, is_ready, is_running, is_blocked, is_zombie,
  FramePointer, null, initial, Pcb, Machine, set_process,
}

abbrev pub quantum_ticks : ℕ
quantum_ticks = 1

abbrev pub set_next : Machine → ℕ → Option ℕ → Machine
set_next m i n = set_process m i (record (m.processes i) { next = n })

abbrev pub set_state : Machine → ℕ → ProcessState → Machine
set_state m i s = set_process m i (record (m.processes i) { state = s })

-- `while (q->next) q = q->next; q->next = p` on fuel.
unfoldable pub append_at : ℕ → ℕ → ℕ → Machine → Machine
append_at zero q p m = m
append_at (suc n) q p m = elim (m.processes q).next [
  | none ↦ set_next m q (some p)
  | some r ↦ append_at n r p m
]

-- A queue without a repetition has at most 33 processes.
abbrev pub queue_fuel : ℕ
queue_fuel = 34

abbrev pub can_queue : Pcb → Bool
can_queue p = p.allocated && not (is_zombie p.state) && not (p.esp == 0)

abbrev pub link : Option ℕ → ℕ → Machine → Machine
link none p m = record m { ready_head = some p }
link (some h) p m = append_at queue_fuel h p m

unfoldable pub enqueue : ℕ → Machine → Machine
enqueue p m = if can_queue (m.processes p) then link m.ready_head p (set_next m p none) else m

abbrev pub is_runnable : Pcb → Bool
is_runnable p = p.allocated && is_ready p.state

-- `ready_head = p->next; p->next = 0`
abbrev pub drop_head : ℕ → Machine → Machine
drop_head p m = record (set_next m p none) { ready_head = (m.processes p).next }

-- `while ((p = ready_head) != 0)` on fuel.
unfoldable pub next_from : ℕ → Machine → ℕ × Machine
next_from zero m = (idle, m)
next_from (suc n) m = elim m.ready_head [
  | none ↦ (idle, m)
  | some p ↦
      let rest = next_from n (drop_head p m) in
      if is_runnable (m.processes p) then (p, drop_head p m) else rest
]

unfoldable pub next_ready : Machine → ℕ × Machine
next_ready = next_from queue_fuel

unfoldable pub activate : ℕ → Machine → Machine
activate p m = record (set_state m p running) {
  active_space = (m.processes p).address_space;
  stack_of = p;
  current = p;
  percpu_current = p;
  file_pid = (m.processes p).pid;
}

unfoldable pub rr_init : Machine → Machine
rr_init m = record m { current = idle; ready_head = none }

-- The head of a tick: the process's tick counter, and a running process at the end of its quantum goes
-- back to the queue.
abbrev pub count_tick : Machine → Machine
count_tick m =
    set_process m m.current
      (record (m.processes m.current) { ticks = add32 (m.processes m.current).ticks 1 })

abbrev pub reset_ticks : Machine → Machine
reset_ticks m = set_process m m.current (record (m.processes m.current) { ticks = 0 })

unfoldable pub requeue_current : Machine → Machine
requeue_current m =
    if not (m.current == idle) && is_running (m.processes m.current).state
    then enqueue m.current (set_state m m.current ready)
    else m

-- `context_switch`, which saves and loads registers, is the processor's work.
abbrev pub switch_to : ℕ → ℕ × Machine → Machine
switch_to previous (n, m) = if n == previous then m else activate n m

unfoldable pub rr_tick : Machine → Machine
rr_tick m =
    let m₁ = count_tick m in
    if ltb (m₁.processes m.current).ticks quantum_ticks
    then m₁
    else switch_to m.current (next_ready (requeue_current (reset_ticks m₁)))

unfoldable pub scheduler_add : ℕ → Machine → Bool × Machine
scheduler_add p m =
    if not (m.processes p).allocated || (m.processes p).esp == 0
    then (false, m)
    else (true, enqueue p m)

-- The frame to return to: the process's interrupt frame, or its initial one.
abbrev pub resume_frame : FramePointer → ℕ → FramePointer
resume_frame null n = initial n
resume_frame f n = f

abbrev pub keep_running : ℕ → Machine → Machine
keep_running previous m = record m {
  current = if is_running (m.processes previous).state then previous else idle;
}

abbrev pub tick_switch : FramePointer → ℕ → ℕ × Machine → FramePointer × Machine
tick_switch r previous (n, m) =
    if n == previous
    then (r, m)
    else if n == idle
    then (
      r,
      keep_running previous (
          if not (previous == idle) && is_ready (m.processes previous).state
          then set_state m previous running
          else m),
    )
    else (resume_frame (m.processes n).interrupt_frame n, activate n m)

-- `scheduler_timer_tick` behind its call of `process_poll_timeouts`.
unfoldable pub timer_tick : FramePointer → Machine → FramePointer × Machine
timer_tick r m =
    let m₁ =
      count_tick
        (set_process m m.current (record (m.processes m.current) { interrupt_frame = r })) in
    if ltb (m₁.processes m.current).ticks quantum_ticks
    then (r, m₁)
    else tick_switch r m.current (next_ready (requeue_current (reset_ticks m₁)))

abbrev pub block_switch : FramePointer → ℕ → ℕ × Machine → FramePointer × Machine
block_switch r previous (n, m) =
    if n == idle
    then (
      r,
      keep_running previous (
          if not (previous == idle)
            && not (is_blocked (m.processes previous).state)
            && not (is_zombie (m.processes previous).state)
          then set_state m previous running
          else m),
    )
    else (resume_frame (m.processes n).interrupt_frame n, activate n m)

-- `scheduler_block_current`
unfoldable pub switch_from_current : FramePointer → Machine → FramePointer × Machine
switch_from_current r m =
    let m₁ = set_process m m.current (record (m.processes m.current) { interrupt_frame = r }) in
    let m₂ =
      (if is_running (m₁.processes m.current).state then set_state m₁ m.current blocked else m₁) in
    block_switch r m.current (next_ready m₂)

unfoldable pub scheduler_set_current : ℕ → Machine → Machine
scheduler_set_current p m =
    record (set_process m p (record (m.processes p) { state = running; interrupt_frame = null })) {
      current = p;
      percpu_current = p;
      file_pid = (m.processes p).pid;
    }

unfoldable pub scheduler_yield : Machine → Machine
scheduler_yield m =
    rr_tick (set_process m m.current (record (m.processes m.current) { ticks = quantum_ticks }))
