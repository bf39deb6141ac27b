-- ===== src/Kernel/Process/Exit.antt =====
-- kernel/process.c: process_exit_with_status, process_wait, process_get_credentials and process_fork.
pub mod Family
use ceblar.Prelude.{
  ℕ, zero, suc, ◌+◌, Bool, true, false, ◌&&◌, ◌||◌, not, ◌==◌, if◌then◌else◌, Option, none, some,
  update,
}
use ceblar.Fs.Vfs.{Vfs, vfs_release_process, vfs_inherit_process}
use ceblar.Kernel.Pcb.{
  ready, blocked, zombie, is_blocked, is_zombie, null, saved, initial, FramePointer, Pcb, Machine,
  Credentials, set_process,
}
use ceblar.Kernel.Scheduler.{scheduler_add}
use ceblar.Kernel.Process.{
  Spaces, System, pcb_of, put, store_frame, eax, find_process, find_pid, has_pid, frame_for,
  new_pcb,
}

unfoldable pub process_get_credentials : ℕ → Machine → Option Credentials
process_get_credentials pid m = elim (find_pid pid m) [
  | none ↦ none
  | some i ↦ some (m.processes i).credentials
]

abbrev pub is_orphan : ℕ → Pcb → Bool
is_orphan pid p = p.allocated && p.parent_pid == pid && is_zombie p.state

abbrev pub woken : ℕ → Pcb → Pcb
woken status p = record p { state = ready; wait_for_pid = 0; wait_status = status }

abbrev pub orphaned : Pcb → Pcb
orphaned p = record p { parent_pid = 0 }

abbrev pub is_woken : ℕ → Pcb → Bool
is_woken pid p = p.allocated && p.parent_pid == pid && is_blocked p.state && p.wait_for_pid == pid

module _ {Vm : Type 0} where
  -- `scheduler_add`, whose result is not used.
  abbrev pub added : ℕ → System Vm → System Vm
  added i s = record s { machine = (scheduler_add i s.machine).1 }

  -- A word that the code stores through a pointer, in the address space in use.
  abbrev pub store_word : ℕ → ℕ → System Vm → System Vm
  store_word ptr v s = record s {
    words = λ space a.
        if (elim space [
          | none ↦ elim s.machine.active_space [ none ↦ true | some x ↦ false ]
          | some y ↦ elim s.machine.active_space [ none ↦ false | some x ↦ x == y ]
        ])
          && a == ptr
        then v
        else s.words space a;
  }

  abbrev pub store_if : ℕ → ℕ → System Vm → System Vm
  store_if ptr v s = if ptr == 0 then s else store_word ptr v s

  -- `if (f) f->eax = v`
  abbrev pub set_eax : FramePointer → ℕ → System Vm → System Vm
  set_eax null v s = s
  set_eax f v s = store_frame f (update (s.frames f) eax v) s

  -- The loop over the zombies among the children, by the rounds left.
  unfoldable pub clear_parents : ℕ → ℕ → ℕ → System Vm → System Vm
  clear_parents zero j pid s = s
  clear_parents (suc n) j pid s =
      clear_parents n (j + 1) pid
        (if is_orphan pid (pcb_of s j) then put j (orphaned (pcb_of s j)) s else s)

  abbrev pub wake : ℕ → ℕ → ℕ → System Vm → System Vm
  wake pid status j s =
      let p = pcb_of s j in
      added j (
        set_eax p.interrupt_frame pid
          (store_if p.wait_status_ptr status (put j (woken status p) s)))

  -- The loop over the children that wait.
  unfoldable pub wake_children : ℕ → ℕ → ℕ → ℕ → System Vm → System Vm
  wake_children zero j pid status s = s
  wake_children (suc n) j pid status s =
      wake_children n (j + 1) pid status
        (if is_woken pid (pcb_of s j) then wake pid status j s else s)

  abbrev pub ended : ℕ → ℕ → ℕ → System Vm → System Vm
  ended pid status i s =
      record (put i (record (pcb_of s i) { state = zombie; exit_code = status }) s) {
        files = vfs_release_process pid s.files;
      }

  abbrev pub exit_from : ℕ → ℕ → System Vm → Option ℕ → Bool × System Vm
  exit_from pid status s none = (false, s)
  exit_from pid status s (some i) =
      let n = s.machine.process_count in
      (true, wake_children n 0 pid status (clear_parents n 0 pid (ended pid status i s)))

  -- The flag is whether the code returns 0.
  unfoldable pub process_exit_with_status : ℕ → ℕ → System Vm → Bool × System Vm
  process_exit_with_status pid status s = exit_from pid status s (find_pid pid s.machine)

-- The fields of a process that has been waited for.
abbrev pub reaped : Pcb → Pcb
reaped p = record p {
  address_space = none;
  parent_pid = 0;
  state = ready;
  next = none;
  interrupt_frame = null;
  allocated = false;
}

abbrev pub is_child : ℕ → ℕ → Pcb → Bool
is_child child parent p = has_pid child p && p.parent_pid == parent

module _ {Vm : Type 0} (spaces : Spaces Vm) where
  abbrev pub destroyed : Option ℕ → Vm → Vm
  destroyed none vm = vm
  destroyed (some space) vm = spaces.vmm_destroy_address_space space vm

  abbrev pub reap : ℕ → ℕ → ℕ → System Vm → System Vm
  reap child status i s =
      let s₁ = store_if status (pcb_of s i).exit_code s in
      record (put i (reaped (pcb_of s i)) s₁) {
        files = vfs_release_process child s.files;
        vm = destroyed (pcb_of s i).address_space s.vm;
      }

  -- The parent waits for the child.
  abbrev pub wait_blocked : ℕ → ℕ → System Vm → System Vm
  wait_blocked child status s =
      put s.machine.current
        (record (pcb_of s s.machine.current) {
          wait_for_pid = child;
          wait_status_ptr = status;
          state = blocked;
        })
        s

  abbrev pub wait_for : ℕ → ℕ → System Vm → Option ℕ → Option ℕ × System Vm
  wait_for child status s none = (none, s)
  wait_for child status s (some i) =
      if is_zombie (pcb_of s i).state
      then (some child, reap child status i s)
      else (some 0, wait_blocked child status s)

  -- `none` is -1; a null pointer to the status is 0.
  unfoldable pub process_wait : ℕ → ℕ → System Vm → Option ℕ × System Vm
  process_wait child status s = wait_for child status s (
      find_process s.machine.process_count 0 (is_child child (pcb_of s s.machine.current).pid)
        s.machine)

  -- What a child of `process_fork` takes over.
  abbrev pub inherited : Pcb → Pcb → Pcb
  inherited parent p = record p {
    esp = parent.esp;
    entry_point = parent.entry_point;
    user_mode = parent.user_mode;
    credentials = parent.credentials;
    user_stack = parent.user_stack;
    parent_pid = parent.pid;
  }

  abbrev pub fork_frame : Pcb → ℕ → System Vm → System Vm
  fork_frame parent i s =
      let p = pcb_of s i in
      if parent.user_mode
      then frame_for i p.entry_point p.user_stack true s
      else if p.entry_point == 0
      then s
      else frame_for i p.entry_point p.esp false s

  abbrev pub fork_space : Pcb → ℕ → System Vm → Option ℕ × Vm → Option ℕ × System Vm
  fork_space parent i s (none, vm) =
      (none, (process_exit_with_status (pcb_of s i).pid 0 (record s { vm = vm })).1)
  fork_space parent i s (some clone, vm) = (
    some (pcb_of s i).pid,
    fork_frame parent i (
        put i (record (pcb_of s i) { address_space = some clone })
          (record s { vm = destroyed (pcb_of s i).address_space vm })),
  )

  abbrev pub fork_clone : Pcb → ℕ → Option ℕ → System Vm → Option ℕ × System Vm
  fork_clone parent i none s = (some (pcb_of s i).pid, fork_frame parent i s)
  fork_clone parent i (some space) s =
      fork_space parent i s (spaces.vmm_clone_address_space_cow space s.vm)

  abbrev pub forked : Pcb → Option ℕ × System Vm → Option ℕ × System Vm
  forked parent (none, s) = (none, s)
  forked parent (some i, s) =
      let s₁ = put i (inherited parent (pcb_of s i)) s in
      fork_clone parent i parent.address_space
        (record s₁ { files = vfs_inherit_process parent.pid (pcb_of s i).pid s.files })

  -- The pid of the child, or -1; the process that runs is the parent.
  unfoldable pub process_fork : System Vm → Option ℕ × System Vm
  process_fork s = forked (pcb_of s s.machine.current) (new_pcb spaces s)
