-- ===== src/Kernel/Process.antt =====
-- kernel/process.c: the process table over the machine of the scheduler, the files of each process and the
-- memory manager, whose calls are the record `Spaces`. A frame of `registers_t` is the function from the number
-- of a word to it.
pub mod Pids
pub mod Exit
pub mod Signal
mod Tests
use ceblar.Prelude.{
  ℕ, zero, suc, ◌+◌, ◌*◌, ◌%◌, ◌^◌, Bool, true, false, ◌&&◌, ◌||◌, not, ◌==◌, ltb, if◌then◌else◌,
  Option, none, some, update, add32, sub32, ◌-◌,
}
use ceblar.Fs.Vfs.{Vfs, vfs_inherit_process}
use ceblar.Kernel.Pcb.{
  max_processes, ready, null, saved, initial, FramePointer, Pcb, Machine, set_process,
}

-- USER_STACK_TOP
abbrev pub user_stack_top : ℕ
user_stack_top = 0x00bff000

-- The memory manager's calls; an address space is a number, and a null one is `none`.
pub record Spaces (Vm : Type 0) : Type 0 where
  pub vmm_create_address_space : Vm → Option ℕ × Vm
  pub vmm_clone_address_space_cow : ℕ → Vm → Option ℕ × Vm
  pub vmm_retain_address_space : ℕ → Vm → Vm
  pub vmm_destroy_address_space : ℕ → Vm → Vm
  -- An address, a length and whether it is to be written.
  pub vmm_validate_user_ptr : Option ℕ → ℕ → ℕ → Bool → Vm → Bool
  -- The page is 0 where there is none.
  pub pmm_alloc_page : Vm → ℕ × Vm
  pub pmm_free_page : ℕ → Vm → Vm
  pub vmm_map_user : Option ℕ → ℕ → ℕ → ℕ → Vm → Bool × Vm

-- What the functions change: also the saved frames, and the words of each address space.
pub record System (Vm : Type 0) : Type 0 where
  pub machine : Machine
  pub files : Vfs
  pub frames : FramePointer → ℕ → ℕ
  pub words : Option ℕ → ℕ → ℕ
  pub vm : Vm

abbrev pub pcb_of : {Vm : Type 0} → System Vm → ℕ → Pcb
pcb_of s i = s.machine.processes i

abbrev pub put : {Vm : Type 0} → ℕ → Pcb → System Vm → System Vm
put i p s = record s { machine = set_process s.machine i p }

abbrev pub same_frame : FramePointer → FramePointer → Bool
same_frame null null = true
same_frame (saved a) (saved b) = a == b
same_frame (initial a) (initial b) = a == b
same_frame _ _ = false

-- A store of a whole frame.
abbrev pub store_frame : {Vm : Type 0} → FramePointer → (ℕ → ℕ) → System Vm → System Vm
store_frame f words s = record s { frames = λ g. if same_frame g f then words else s.frames g }

-- `edi`, …, `ss` by their places in `registers_t`.
abbrev pub eax : ℕ
eax = 7

abbrev pub eip : ℕ
eip = 10

abbrev pub cs : ℕ
cs = 11

abbrev pub eflags : ℕ
eflags = 12

abbrev pub useresp : ℕ
useresp = 13

abbrev pub ss : ℕ
ss = 14

-- The words that `frame_for` stores in the frame of a new process.
unfoldable pub frame_words : ℕ → ℕ → Bool → ℕ → ℕ
frame_words entry stack user i =
    if i == eip
    then entry
    else if i == cs
    then (if user then 0x1b else 0x08)
    else if i == eflags
    then 0x202
    else if i == useresp
    then stack
    else if i == ss
    then (if user then 0x23 else 0x10)
    else 0

abbrev pub frame_for : {Vm : Type 0} → ℕ → ℕ → ℕ → Bool → System Vm → System Vm
frame_for i entry stack user s =
    store_frame (initial i) (frame_words entry stack user)
      (put i (record (pcb_of s i) { interrupt_frame = null }) s)

-- The first process from `i` on, of `n`, that satisfies the test.
unfoldable pub find_process : ℕ → ℕ → (Pcb → Bool) → Machine → Option ℕ
find_process zero i test m = none
find_process (suc n) i test m =
    let rest = find_process n (i + 1) test m in if test (m.processes i) then some i else rest

abbrev pub has_pid : ℕ → Pcb → Bool
has_pid pid p = p.allocated && p.pid == pid

-- `for (i = 0; i < process_count; i++) if (processes[i].allocated && processes[i].pid == pid)`
abbrev pub find_pid : ℕ → Machine → Option ℕ
find_pid pid m = find_process m.process_count 0 (has_pid pid) m

abbrev pub next_generation : ℕ → ℕ
next_generation g = if (g + 1) % 2 ^ 24 == 0 then 1 else (g + 1) % 2 ^ 24

-- The fields that `new_pcb` sets before it asks for an address space. The shift leaves the low 8 bits of the
-- pid clear, so that the bitwise or is a sum.
abbrev pub named_pcb : ℕ → Pcb → Pcb
named_pcb i p = record p {
  generation = next_generation p.generation;
  pid = next_generation p.generation * 2 ^ 8 + (i + 1);
  allocated = true;
  state = ready;
  ticks = 0;
  next = none;
  entry_point = 0;
  user_stack = 0;
  user_mode = false;
}

-- The fields that it sets behind that.
abbrev pub fresh_pcb : ℕ → Pcb → Pcb
fresh_pcb space p = record p {
  address_space = some space;
  parent_pid = 0;
  exit_code = 0;
  wait_for_pid = 0;
  wait_status_ptr = 0;
  wait_status = 0;
  credentials = record { uid = 0; gid = 0; euid = 0; egid = 0; capabilities = 3 };
  pending_signals = 0;
  signal_mask = 0;
  futex_key = 0;
  futex_expected = 0;
  interrupt_frame = null;
  signal_active = false;
  futex_deadline = 0;
  signal_handlers = λ n. if ltb n 32 then 0 else p.signal_handlers n;
  signal_saved_frame = λ n. if ltb n 15 then 0 else p.signal_saved_frame n;
}

-- A slot that was behind the last one is counted.
abbrev pub grown : ℕ → Machine → Machine
grown i m = record m {
  process_count = if i == m.process_count then m.process_count + 1 else m.process_count;
}

-- `new_pcb` on the slot `i`, with the result of `vmm_create_address_space`.
unfoldable pub fill_slot : ℕ → Option ℕ → Machine → Option ℕ × Machine
fill_slot i none m = (
  none,
  set_process m i
      (record (named_pcb i (m.processes i)) { address_space = none; allocated = false }),
)
fill_slot i (some space) m =
    (some i, set_process (grown i m) i (fresh_pcb space (named_pcb i (m.processes i))))

abbrev pub is_free : Pcb → Bool
is_free p = not p.allocated

module _ {Vm : Type 0} (spaces : Spaces Vm) where
  abbrev pub fill : Option ℕ → System Vm → Option ℕ × System Vm
  fill none s = (none, s)
  fill (some i) s =
      let (space, vm) = spaces.vmm_create_address_space s.vm in
      let (found, m) = fill_slot i space s.machine in (found, record s { machine = m; vm = vm })

  unfoldable pub new_pcb : System Vm → Option ℕ × System Vm
  new_pcb s = fill (find_process max_processes 0 is_free s.machine) s

  -- `&kernel_stack[4096]` of each process.
  module _ (stack_end : ℕ → ℕ) where
    -- The entry point is 0 where there is none; `(eip, esp)` of the saved context stand in the frame.
    abbrev started_at : ℕ → Option ℕ × System Vm → Option ℕ × System Vm
    started_at entry (none, s) = (none, s)
    started_at entry (some i, s) =
        let s₁ = put i (record (pcb_of s i) { entry_point = entry }) s in
        if entry == 0
        then (some i, s₁)
        else (let top = sub32 (stack_end i) 64 in
            (some i, frame_for i entry top false (put i (record (pcb_of s₁ i) { esp = top }) s₁)))

    unfoldable pub process_create_entry : ℕ → System Vm → Option ℕ × System Vm
    process_create_entry entry s = started_at entry (new_pcb s)

    abbrev destroy : Option ℕ → Vm → Vm
    destroy none vm = vm
    destroy (some space) vm = spaces.vmm_destroy_address_space space vm

    abbrev adopt : ℕ → Pcb → Option ℕ × System Vm → Option ℕ × System Vm
    adopt space owner (none, s) = (none, s)
    adopt space owner (some i, s) =
        let vm = spaces.vmm_retain_address_space space (destroy (pcb_of s i).address_space s.vm) in
        (
          some i,
          put i (record (pcb_of s i) { address_space = some space; parent_pid = owner.pid })
              (record s { vm = vm }),
        )

    abbrev thread_of : Pcb → ℕ → Option ℕ → System Vm → Option ℕ × System Vm
    thread_of owner entry none s = (none, s)
    thread_of owner entry (some space) s =
        if owner.user_mode || entry == 0
        then (none, s)
        else adopt space owner (process_create_entry entry s)

    unfoldable pub process_create_thread : ℕ → System Vm → Option ℕ × System Vm
    process_create_thread entry s =
        let owner = pcb_of s s.machine.current in thread_of owner entry owner.address_space s

  -- With the page for the stack and, if there is one, whether it was mapped.
  abbrev with_stack : ℕ → ℕ → ℕ × Vm → System Vm → Option ℕ × System Vm
  with_stack entry i (page, vm) s =
      if page == 0
      then (none, record s { vm = vm })
      else (let (mapped, vm₁) =
            spaces.vmm_map_user (pcb_of s i).address_space (user_stack_top - 4096) page 2 vm in
          if mapped
          then (
            some i,
            frame_for i entry user_stack_top true (
                put i
                  (record (pcb_of s i) {
                    entry_point = entry;
                    user_stack = user_stack_top;
                    user_mode = true;
                    esp = user_stack_top;
                  })
                  (record s { vm = vm₁ })),
          )
          else (none, record s { vm = spaces.pmm_free_page page vm₁ }))

  abbrev user_from : ℕ → Option ℕ × System Vm → Option ℕ × System Vm
  user_from entry (none, s) = (none, s)
  user_from entry (some i, s) = with_stack entry i (spaces.pmm_alloc_page s.vm) s

  unfoldable pub process_create_user : ℕ → System Vm → Option ℕ × System Vm
  process_create_user entry s = user_from entry (new_pcb s)
