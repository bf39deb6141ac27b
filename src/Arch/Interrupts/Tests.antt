-- ===== src/Arch/Interrupts/Tests.antt =====
-- The theorem about arch/x86/isr.c on a table of entry points.
use ceblar.Prelude.{◌+◌, ◌*◌, none}
use ceblar.Arch.Interrupts.{Interrupts, Stubs, empty_entry}

abbrev stubs : Stubs
stubs = record {
  isr = λ n. 0x100000 + n * 16;
  irq = λ n. 0x101000 + n * 16;
  isr128 = 0x102000;
  table = 0x103000;
}

abbrev blank : Interrupts
blank = record {
  idt = λ n. empty_entry;
  idtp = record { limit = 0; base = 0 };
  irq_handlers = λ n. none;
  master_mask = 0;
  slave_mask = 0;
}
