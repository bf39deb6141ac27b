-- ===== src/Kernel/Process/Tests.antt =====
-- The theorems about kernel/process.c on small tables of processes.
use ceblar.Prelude.{
  ℕ, ◌+◌, ◌<◌, ◌≡◌, refl, true, false, none, some, Bool, ◌==◌, if◌then◌else◌, arith,
}
use ceblar.Kernel.Pcb.{ProcessState, ready, running, blocked, null, saved, Pcb}
use ceblar.Kernel.Process.{Spaces, System, pcb_of, new_pcb, find_process}
use ceblar.Kernel.Process.Pids.{IsNamed, Names, new_pcb-Names}
use ceblar.Kernel.Process.Exit.{process_exit_with_status}
use ceblar.Kernel.Process.Exit.Family.{unlinked, exit_keeps}
use ceblar.Kernel.Process.Signal.{
  is_due, process_poll_timeouts, process_deliver_signal, process_signal_return,
}
use ceblar.Kernel.Process.Signal.Timeouts.{poll_timeouts_due}
use ceblar.Kernel.Process.Signal.Frames.{active, signal_return-deliver_signal}

-- Spaces are numbered; there is no free page.
abbrev spaces : Spaces ℕ
spaces = record {
  vmm_create_address_space = λ n. (some n, n + 1);
  vmm_clone_address_space_cow = λ space n. (some n, n + 1);
  vmm_retain_address_space = λ space n. n;
  vmm_destroy_address_space = λ space n. n;
  vmm_validate_user_ptr = λ space a len write n. true;
  pmm_alloc_page = λ n. (0, n);
  pmm_free_page = λ page n. n;
  vmm_map_user = λ space a page flags n. (false, n);
}

abbrev process : Bool → ℕ → ProcessState → ℕ → Pcb
process used number s parent = record {
  pid = number;
  state = s;
  ticks = 0;
  esp = 4096;
  next = none;
  address_space = none;
  parent_pid = parent;
  exit_code = 0;
  wait_for_pid = 258;
  wait_status_ptr = 0;
  wait_status = 0;
  pending_signals = 2;
  signal_mask = 0;
  futex_key = 4096;
  futex_expected = 0;
  futex_deadline = 5;
  interrupt_frame = null;
  allocated = used;
  generation = if used then 1 else 0;
  entry_point = 0;
  user_stack = 0;
  user_mode = true;
  credentials = record { uid = 0; gid = 0; euid = 0; egid = 0; capabilities = 0 };
  signal_handlers = λ n. 0x500000;
  signal_saved_frame = λ n. 0;
  signal_active = false;
}

-- The process 257 waits for its child 258, which runs.
abbrev table : ℕ → Pcb
table i =
    if i == 0
    then process true 257 blocked 0
    else if i == 1
    then process true 258 running 257
    else process false 0 ready 0

abbrev system : System ℕ
system = record {
  machine = record {
    processes = table;
    process_count = 2;
    ready_head = none;
    current = 1;
    active_space = none;
    stack_of = 1;
    percpu_current = 1;
    file_pid = 258;
  };
  files = record {
    files = λ p fd. record {
      name = none;
      flags = 0;
      position = 0;
      kind = 0;
      fat = record { first_cluster = 0; size = 0; position = 0; directory = false };
    };
    active_pid = 258;
  };
  frames = λ f i. 0x600000 + i;
  words = λ space a. 0;
  vm = 7;
}

exit_keeps_example :
    unlinked (pcb_of (process_exit_with_status 258 9 system).1 0) ≡ unlinked (pcb_of system 0)
unfolding find_process
exit_keeps_example = exit_keeps 258 0 9 system (λ e. absurd (grind (arith, e))) (omega arith)

system-IsNamed : IsNamed system.machine
system-IsNamed = record {
  named = λ i lt. ground arith;
  small = λ i lt. ground arith;
  live = λ i lt. ground arith;
}

new_pcb-Names_example : Names spaces system (new_pcb spaces system)
new_pcb-Names_example = new_pcb-Names spaces system system-IsNamed

poll_timeouts_due_example : is_due 9 (pcb_of (process_poll_timeouts 9 system) 0) ≡ false
poll_timeouts_due_example = poll_timeouts_due 9 0 system (omega arith)

signal_return-deliver_signal_example :
    ((i : ℕ)
      → i < 15
      → (process_signal_return (saved 3) (process_deliver_signal spaces (saved 3) system)).frames
          (saved 3)
          i
        ≡ system.frames (saved 3) i)
    × (active (process_signal_return (saved 3) (process_deliver_signal spaces (saved 3) system))
        ≡ false)
signal_return-deliver_signal_example =
    signal_return-deliver_signal spaces (saved 3) system (λ e. absurd (grind (arith, e))) refl
