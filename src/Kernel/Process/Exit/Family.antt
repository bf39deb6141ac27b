-- ===== src/Kernel/Process/Exit/Family.antt =====
-- kernel/process.c: what an exit does to the other processes.
use ceblar.Prelude.{
  ℕ, zero, suc, ◌+◌, ◌≡◌, ◌≢◌, refl, ap, sym, ◌∙◌, subst, Bool, true, false, ◌||◌, not, ◌==◌,
  if◌then◌else◌, Option, none, some, update, update_self, update_else, arith, ℕ_discrete,
}
use ceblar.Kernel.Pcb.{zombie, null, saved, initial, FramePointer, Pcb, Machine}
use ceblar.Kernel.Scheduler.{
  enqueue, append_at, set_next, can_queue, link, queue_fuel, scheduler_add,
}
use ceblar.Kernel.Process.{System, pcb_of, put, find_pid}
use ceblar.Kernel.Process.Exit.{
  wake, is_woken, is_orphan, clear_parents, wake_children, exit_from, woken, orphaned, ended,
  process_exit_with_status, set_eax, store_if, store_word,
}

-- A process without its link in the ready queue.
abbrev pub unlinked : Pcb → Pcb
unlinked p = record p { next = none }

abbrev pub process_at : Machine → ℕ → Pcb
process_at m j = unlinked (m.processes j)

-- What an update of one process leaves.
pub update_keeps :
    {A : Type 0} (f : Pcb → A) (a : ℕ → Pcb) (i : ℕ) (v : Pcb) (j : ℕ)
    → f v ≡ f (a i)
    → f (update a i v j) ≡ f (a j)
update_keeps f a i v j same = elim (ℕ_discrete i j) [
  | yes e ↦ subst (λ k. f (update a i v k) ≡ f (a k)) e (ap f (update_self a i v) ∙ same)
  | no ne ↦ ap f (update_else a i v j ne)
]

set_next_keeps :
    (m : Machine) (i : ℕ) (n : Option ℕ) (j : ℕ) → process_at (set_next m i n) j ≡ process_at m j
set_next_keeps m i n j =
    update_keeps unlinked m.processes i (record (m.processes i) { next = n }) j refl

append_at_keeps :
    (n q p : ℕ) (m : Machine) (j : ℕ) → process_at (append_at n q p m) j ≡ process_at m j
unfolding append_at
append_at_keeps zero q p m j = refl
append_at_keeps (suc n) q p m j =
    elim (m.processes q).next
      as (λ o.
        process_at (elim o [ none ↦ set_next m q (some p) | some r ↦ append_at n r p m ]) j
        ≡ process_at m j) [
          | none ↦ set_next_keeps m q (some p) j
          | some r ↦ append_at_keeps n r p m j
        ]

link_keeps :
    (o : Option ℕ) (p : ℕ) (m : Machine) (j : ℕ) → process_at (link o p m) j ≡ process_at m j
link_keeps none p m j = refl
link_keeps (some h) p m j = append_at_keeps queue_fuel h p m j

enqueue_keeps : (p : ℕ) (m : Machine) (j : ℕ) → process_at (enqueue p m) j ≡ process_at m j
unfolding enqueue
enqueue_keeps p m j =
    elim (can_queue (m.processes p))
      as (λ b.
        process_at (if b then link m.ready_head p (set_next m p none) else m) j ≡ process_at m j) [
          | true ↦ link_keeps m.ready_head p (set_next m p none) j ∙ set_next_keeps m p none j
          | false ↦ refl
        ]

pub scheduler_add_keeps :
    (p : ℕ) (m : Machine) (j : ℕ) → process_at (scheduler_add p m).1 j ≡ process_at m j
unfolding scheduler_add
scheduler_add_keeps p m j =
    elim (not (m.processes p).allocated || (m.processes p).esp == 0)
      as (λ b.
        process_at (if◌then◌else◌ {A = Bool × Machine} b (false, m) (true, enqueue p m)).1 j
        ≡ process_at m j) [ true ↦ refl | false ↦ enqueue_keeps p m j ]

orphan_parent : (pid : ℕ) (p : Pcb) → is_orphan pid p ≡ true → p.parent_pid ≡ pid
orphan_parent pid p h = ground (arith, h)

woken_parent : (pid : ℕ) (p : Pcb) → is_woken pid p ≡ true → p.parent_pid ≡ pid
woken_parent pid p h = ground (arith, h)

pub set_eax-machine :
    {Vm : Type 0} (f : FramePointer) (v : ℕ) (s : System Vm) → (set_eax f v s).machine ≡ s.machine
set_eax-machine null v s = refl
set_eax-machine (saved n) v s = refl
set_eax-machine (initial n) v s = refl

module _ {Vm : Type 0} (pid j : ℕ) where
  -- The process `j`, without its link.
  abbrev kept : System Vm → Pcb
  kept s = process_at s.machine j

  set_eax_keeps : (f : FramePointer) (v : ℕ) (s : System Vm) → kept (set_eax f v s) ≡ kept s
  set_eax_keeps f v s = ap (λ m. process_at m j) (set_eax-machine f v s)

  store_if_keeps : (ptr v : ℕ) (s : System Vm) → kept (store_if ptr v s) ≡ kept s
  store_if_keeps ptr v s =
      elim (ptr == 0) as (λ b. kept (if b then s else store_word ptr v s) ≡ kept s) [
        | true ↦ refl
        | false ↦ refl
      ]

  put_keeps : (i : ℕ) (p : Pcb) (s : System Vm) → i ≢ j → kept (put i p s) ≡ kept s
  put_keeps i p s ne = ap unlinked (update_else s.machine.processes i p j ne)

  step_keeps :
      (b : Bool) (t s : System Vm)
      → (b ≡ true → kept t ≡ kept s)
      → kept (if b then t else s) ≡ kept s
  step_keeps true t s h = h refl
  step_keeps false t s h = refl

  -- A child is another process.
  child_differs :
      (i : ℕ) (s : System Vm) → (kept s).parent_pid ≢ pid → (pcb_of s i).parent_pid ≡ pid → i ≢ j
  child_differs i s other child e = other (subst (λ k. (pcb_of s k).parent_pid ≡ pid) e child)

  clear_parents_keeps :
      (n i : ℕ) (s : System Vm)
      → (kept s).parent_pid ≢ pid
      → kept (clear_parents n i pid s) ≡ kept s
  unfolding clear_parents
  clear_parents_keeps zero i s other = refl
  clear_parents_keeps (suc n) i s other =
      let step = step_keeps (is_orphan pid (pcb_of s i)) (put i (orphaned (pcb_of s i)) s) s (λ h.
        put_keeps i (orphaned (pcb_of s i)) s
          (child_differs i s other (orphan_parent pid (pcb_of s i) h))) in
      clear_parents_keeps n (i + 1)
        (if is_orphan pid (pcb_of s i) then put i (orphaned (pcb_of s i)) s else s)
        (λ e. other (sym (ap (λ (p : Pcb). p.parent_pid) step) ∙ e))
      ∙ step

  wake_keeps : (status i : ℕ) (s : System Vm) → i ≢ j → kept (wake pid status i s) ≡ kept s
  wake_keeps status i s ne =
      let s₁ : System Vm = put i (woken status (pcb_of s i)) s in
      let s₂ : System Vm = store_if (pcb_of s i).wait_status_ptr status s₁ in
      let s₃ : System Vm = set_eax (pcb_of s i).interrupt_frame pid s₂ in
      scheduler_add_keeps i s₃.machine j
      ∙ set_eax_keeps (pcb_of s i).interrupt_frame pid s₂
      ∙ store_if_keeps (pcb_of s i).wait_status_ptr status s₁
      ∙ put_keeps i (woken status (pcb_of s i)) s ne

  wake_children_keeps :
      (n i status : ℕ) (s : System Vm)
      → (kept s).parent_pid ≢ pid
      → kept (wake_children n i pid status s) ≡ kept s
  unfolding wake_children
  wake_children_keeps zero i status s other = refl
  wake_children_keeps (suc n) i status s other =
      let step =
        step_keeps (is_woken pid (pcb_of s i)) (wake pid status i s) s (λ h.
          wake_keeps status i s (child_differs i s other (woken_parent pid (pcb_of s i) h))) in
      wake_children_keeps n (i + 1) status
        (if is_woken pid (pcb_of s i) then wake pid status i s else s)
        (λ e. other (sym (ap (λ (p : Pcb). p.parent_pid) step) ∙ e))
      ∙ step

  exit_from_keeps :
      (status : ℕ) (s : System Vm) (found : Option ℕ)
      → found ≢ some j
      → (pcb_of s j).parent_pid ≢ pid
      → kept (exit_from pid status s found).1 ≡ kept s
  exit_from_keeps status s none not_it other = refl
  exit_from_keeps status s (some i) not_it other =
      let n = s.machine.process_count in
      let first : kept (ended pid status i s) ≡ kept s =
        put_keeps i (record (pcb_of s i) { state = zombie; exit_code = status }) s
          (λ e. not_it (ap some e)) in
      let cleared : kept (clear_parents n 0 pid (ended pid status i s)) ≡ kept s =
        clear_parents_keeps n 0 (ended pid status i s)
          (λ e. other (sym (ap (λ (p : Pcb). p.parent_pid) first) ∙ e))
        ∙ first in
      wake_children_keeps n 0 status (clear_parents n 0 pid (ended pid status i s))
        (λ e. other (sym (ap (λ (p : Pcb). p.parent_pid) cleared) ∙ e))
      ∙ cleared

  -- An exit of `pid` changes no process but the one with that pid and those whose parent it is: every other one,
  -- a parent that waits for `pid` among them, keeps all its fields but its link in the ready queue.
  pub exit_keeps :
      (status : ℕ) (s : System Vm)
      → find_pid pid s.machine ≢ some j
      → (pcb_of s j).parent_pid ≢ pid
      → unlinked (pcb_of (process_exit_with_status pid status s).1 j) ≡ unlinked (pcb_of s j)
  unfolding process_exit_with_status
  exit_keeps status s not_it other = exit_from_keeps status s (find_pid pid s.machine) not_it other
