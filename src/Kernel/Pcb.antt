-- ===== src/Kernel/Pcb.antt =====
-- The process control block of include/scheduler.h and the store that kernel/process.c and
-- scheduler/round_robin.c share. A pointer to a process is its index in `processes`, and `idle` is the
-- index behind the last one.
use ceblar.Prelude.{ℕ, Bool, true, false, Option, update}

abbrev pub max_processes : ℕ
max_processes = 32

abbrev pub idle : ℕ
idle = 32

-- PROCESS_READY, PROCESS_RUNNING, PROCESS_BLOCKED, PROCESS_ZOMBIE
pub data ProcessState : Type 0 where
  ready running blocked zombie : ProcessState

abbrev pub is_ready : ProcessState → Bool
is_ready ready = true
is_ready _ = false

abbrev pub is_running : ProcessState → Bool
is_running running = true
is_running _ = false

abbrev pub is_blocked : ProcessState → Bool
is_blocked blocked = true
is_blocked _ = false

abbrev pub is_zombie : ProcessState → Bool
is_zombie zombie = true
is_zombie _ = false

-- A pointer to saved registers: null, one that an interrupt gave, or the initial frame of a process.
pub data FramePointer : Type 0 where
  null : FramePointer
  saved : ℕ → FramePointer
  initial : ℕ → FramePointer

-- `credentials_t`
pub record Credentials : Type 0 where
  pub uid : ℕ
  pub gid : ℕ
  pub euid : ℕ
  pub egid : ℕ
  pub capabilities : ℕ

-- The fields of `pcb_t` that the modelled functions use; a number is 0 where the code tests for it.
pub record Pcb : Type 0 where
  pub pid : ℕ
  pub state : ProcessState
  pub ticks : ℕ
  pub esp : ℕ
  pub next : Option ℕ
  pub address_space : Option ℕ
  pub parent_pid : ℕ
  pub exit_code : ℕ
  pub wait_for_pid : ℕ
  pub wait_status_ptr : ℕ
  pub wait_status : ℕ
  pub pending_signals : ℕ
  pub signal_mask : ℕ
  pub futex_key : ℕ
  pub futex_expected : ℕ
  pub futex_deadline : ℕ
  pub interrupt_frame : FramePointer
  pub allocated : Bool
  pub generation : ℕ
  pub entry_point : ℕ
  pub user_stack : ℕ
  pub user_mode : Bool
  pub credentials : Credentials
  pub signal_handlers : ℕ → ℕ
  pub signal_saved_frame : ℕ → ℕ
  pub signal_active : Bool

-- The static variables of round_robin.c and `processes`, with what `activate` sets elsewhere: the
-- address space in use, the process whose kernel stack is set, `percpu`'s process and the process of
-- the file tables.
pub record Machine : Type 0 where
  pub processes : ℕ → Pcb
  pub process_count : ℕ
  pub ready_head : Option ℕ
  pub current : ℕ
  pub active_space : Option ℕ
  pub stack_of : ℕ
  pub percpu_current : ℕ
  pub file_pid : ℕ

abbrev pub set_process : Machine → ℕ → Pcb → Machine
set_process m i p = record m { processes = update m.processes i p }
