-- ===== src/Kernel/Scheduler/Tests.antt =====
-- Runs of the scheduler on a machine of three processes.
use ceblar.Prelude.{
  ℕ, ◌==◌, if◌then◌else◌, ◌≡◌, refl, true, false, Option, none, some, [], ◌∷◌, arith,
}
use ceblar.Kernel.Pcb.{ProcessState, ready, running, blocked, null, Pcb, Machine}
use ceblar.Kernel.Scheduler.{rr_tick}
use ceblar.Kernel.Scheduler.Queue.{Chain}
use ceblar.Kernel.Scheduler.Rotation.{Rotates, tick_rotates}

abbrev process : ProcessState → Option ℕ → Pcb
process s n = record {
  pid = 7;
  state = s;
  ticks = 0;
  esp = 4096;
  next = n;
  address_space = none;
  parent_pid = 0;
  exit_code = 0;
  wait_for_pid = 0;
  wait_status_ptr = 0;
  wait_status = 0;
  pending_signals = 0;
  signal_mask = 0;
  futex_key = 0;
  futex_expected = 0;
  futex_deadline = 0;
  interrupt_frame = null;
  allocated = true;
  generation = 1;
  entry_point = 0;
  user_stack = 0;
  user_mode = false;
  credentials = record { uid = 0; gid = 0; euid = 0; egid = 0; capabilities = 0 };
  signal_handlers = λ n. 0;
  signal_saved_frame = λ n. 0;
  signal_active = false;
}

-- Process 0 runs; 1 and 2 wait in the queue.
abbrev three : ℕ → Pcb
three i =
    if i == 0
    then process running none
    else if i == 1
    then process ready (some 2)
    else if i == 2
    then process ready none
    else process blocked none

abbrev machine : Machine
machine = record {
  processes = three;
  process_count = 3;
  ready_head = some 1;
  current = 0;
  active_space = none;
  stack_of = 0;
  percpu_current = 0;
  file_pid = 7;
}

machine-Rotates : Rotates machine 1 (2 ∷ [])
machine-Rotates = record {
  queue = (refl, (refl, refl));
  apart = ((omega arith, tt), (tt, tt));
  outside = (omega arith, (omega arith, tt));
  few = omega arith;
  busy = omega arith;
  runs = refl;
  live = refl;
  stacked = omega arith;
  counting = omega arith;
  first_allocated = refl;
  first_ready = refl;
}

tick_rotates_example :
    ((rr_tick machine).current ≡ 1)
    × (((rr_tick machine).processes 1).state ≡ running)
    × (((rr_tick machine).processes 0).state ≡ ready)
    × Chain (rr_tick machine).processes (rr_tick machine).ready_head (2 ∷ 0 ∷ [])
tick_rotates_example = tick_rotates machine 1 (2 ∷ []) machine-Rotates
