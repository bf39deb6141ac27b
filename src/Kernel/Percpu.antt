-- ===== src/Kernel/Percpu.antt =====
-- kernel/percpu.c: the one processor's record. A process is its index.
use ceblar.Prelude.{ℕ, ◌-◌, Option, none, add32}

pub record CpuLocal : Type 0 where
  pub id : ℕ
  pub apic_id : ℕ
  pub irq_depth : ℕ
  pub current : Option ℕ
  pub online : ℕ

unfoldable pub percpu_init : ℕ → ℕ → CpuLocal
percpu_init id apic = record { id = id; apic_id = apic; irq_depth = 0; current = none; online = 1 }

unfoldable pub percpu_set_current : Option ℕ → CpuLocal → CpuLocal
percpu_set_current p c = record c { current = p }

unfoldable pub percpu_irq_enter : CpuLocal → CpuLocal
percpu_irq_enter c = record c { irq_depth = add32 c.irq_depth 1 }

-- At 0 the code does not count down, and the subtraction stops there too.
unfoldable pub percpu_irq_leave : CpuLocal → CpuLocal
percpu_irq_leave c = record c { irq_depth = c.irq_depth - 1 }
