-- ===== src/Drivers/Timer.antt =====
-- drivers/timer/pit.c: the tick counter. The programming of the timer chip is not modelled.
use ceblar.Prelude.{ℕ, ◌/◌, ◌==◌, if◌then◌else◌, add32, mul32}

pub record Timer : Type 0 where
  pub uptime_ticks : ℕ
  pub timer_hz : ℕ

unfoldable pub pit_init : ℕ → Timer → Timer
pit_init hz t = record t { timer_hz = if hz == 0 then 100 else hz }

unfoldable pub timer_irq : Timer → Timer
timer_irq t = record t { uptime_ticks = add32 t.uptime_ticks 1 }

unfoldable pub timer_uptime_ms : Timer → ℕ
timer_uptime_ms t = mul32 t.uptime_ticks 1000 / t.timer_hz

-- The tick at which `ksleep_ms` returns.
unfoldable pub sleep_target : ℕ → Timer → ℕ
sleep_target ms t = add32 t.uptime_ticks (add32 (mul32 ms t.timer_hz) 999 / 1000)
