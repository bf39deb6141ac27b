-- ===== src/Kernel/Spinlock/Tests.antt =====
-- The theorem about kernel/spinlock.c on a run of two processors.
use ceblar.Prelude.{ℕ, refl, update}
use ceblar.Kernel.Spinlock.{
  Spinlock, outside, Cpu, start_lock, exchange, enter, attempt, LockReach, begin, after,
  irq_save_disable,
}
use ceblar.Kernel.Spinlock.Exclusion.{IsExclusive, LockReach-IsExclusive}

abbrev flags : ℕ → ℕ
flags i = 0x202

abbrev cpus : ℕ → Cpu
cpus i = record { flags = 0x202; place = outside }

-- Both call `spin_lock_irqsave`.
abbrev both : ℕ → Cpu
both = let one = update cpus 0 (start_lock (cpus 0)) in update one 1 (start_lock (one 1))

abbrev one_inside : ℕ → Cpu
one_inside = update both 1 (exchange 0x202 0 (both 1))

-- Processor 1 gets the lock; processor 0 tries in vain.
abbrev contended : Spinlock
contended = record { value = 1; cpus = update one_inside 0 (exchange 0x202 1 (one_inside 0)) }

contended-LockReach : LockReach flags contended
unfolding irq_save_disable
contended-LockReach =
    after (after (after (after begin (enter 0 refl)) (enter 1 refl)) (attempt 1 0x202 refl))
      (attempt 0 0x202 refl)

LockReach-IsExclusive_example : IsExclusive flags contended
LockReach-IsExclusive_example = LockReach-IsExclusive flags contended contended-LockReach
