-- ===== src/Kernel/Spinlock.antt =====
-- kernel/spinlock.c: the lock word and the interrupt flag, and the steps of processors that use one lock. The
-- exchange of the lock word is one step; nothing else is shared.
pub mod Exclusion
mod Tests
use ceblar.Prelude.{
  ℕ, ◌-◌, ◌^◌, ◌≡◌, bit_and, bit_xor, update, ◌==◌, if◌then◌else◌, Bool, true, false,
}

-- EFLAGS without its interrupt flag, bit 9.
abbrev pub disabled : ℕ → ℕ
disabled flags = bit_and flags (2 ^ 32 - 1 - 2 ^ 9)

-- The flags that are returned, and those in force behind the call.
unfoldable pub irq_save_disable : ℕ → ℕ × ℕ
irq_save_disable flags = (flags, disabled flags)

-- The flags in force behind the call with these.
unfoldable pub irq_restore : ℕ → ℕ
irq_restore flags = flags

-- Where a processor is: in neither call, in the loop of `spin_lock_irqsave`, or behind it, with the flags saved.
pub data Place : Type 0 where
  outside : Place
  spinning : ℕ → Place
  inside : ℕ → Place

pub record Cpu : Type 0 where
  pub flags : ℕ
  pub place : Place

-- `spinlock_t`, and the processors that use it.
pub record Spinlock : Type 0 where
  pub value : ℕ
  pub cpus : ℕ → Cpu

-- `*flags = irq_save_disable()`
abbrev pub start_lock : Cpu → Cpu
start_lock c =
    let (saved, flags) = irq_save_disable c.flags in
    record { flags = flags; place = spinning saved }

-- `lock xchg` with 1, and the test of what it gave.
abbrev pub exchange : ℕ → ℕ → Cpu → Cpu
exchange saved previous c = record c {
  place = if previous == 0 then inside saved else spinning saved;
}

-- The store of 0 and `irq_restore(flags)`.
abbrev pub finish : ℕ → Cpu → Cpu
finish saved c = record { flags = irq_restore saved; place = outside }

-- A step of the processor `i`.
pub data LockStep (l : Spinlock) : Spinlock → Type 0 where
  enter :
      (i : ℕ)
      → (l.cpus i).place ≡ outside
      → LockStep l (record l { cpus = update l.cpus i (start_lock (l.cpus i)) })
  attempt :
      (i saved : ℕ)
      → (l.cpus i).place ≡ spinning saved
      → LockStep l
          (record { value = 1; cpus = update l.cpus i (exchange saved l.value (l.cpus i)) })
  leave :
      (i saved : ℕ)
      → (l.cpus i).place ≡ inside saved
      → LockStep l (record { value = 0; cpus = update l.cpus i (finish saved (l.cpus i)) })

-- The steps from a lock that is free, with every processor outside.
pub data LockReach (first : ℕ → ℕ) : Spinlock → Type 0 where
  begin :
      LockReach first
        (record { value = 0; cpus = λ i. record { flags = first i; place = outside } })
  after : {l l' : Spinlock} → LockReach first l → LockStep l l' → LockReach first l'
