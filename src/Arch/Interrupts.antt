-- ===== src/Arch/Interrupts.antt =====
-- arch/x86/isr.c: the gates, the two interrupt controllers' masks and the dispatch of an interrupt. What leaves the
-- module, as a write to a port or a call of another part, is an event in order.
pub mod Gates
mod Tests
use ceblar.Prelude.{
  ℕ, zero, suc, ◌+◌, ◌-◌, ◌*◌, ◌/◌, ◌%◌, ◌^◌, bit_and, Bool, true, false, ◌&&◌, ◌==◌, ltb, leb,
  if◌then◌else◌, Option, none, some, List, [], ◌∷◌, ◌++◌, update,
}

-- `idt_entry_t`
pub record IdtEntry : Type 0 where
  pub base_low : ℕ
  pub selector : ℕ
  pub unused : ℕ
  pub flags : ℕ
  pub base_high : ℕ

-- `idt_ptr_t`
pub record IdtPtr : Type 0 where
  pub limit : ℕ
  pub base : ℕ

-- A handler is a number. The masks are what the data ports 0x21 and 0xa1 hold.
pub record Interrupts : Type 0 where
  pub idt : ℕ → IdtEntry
  pub idtp : IdtPtr
  pub irq_handlers : ℕ → Option ℕ
  pub master_mask : ℕ
  pub slave_mask : ℕ

-- A write of a port; the call of a handler; calls of vmm_page_fault, panic, apic_eoi, scheduler_timer_tick and
-- syscall_from_interrupt.
pub data Event : Type 0 where
  outb : ℕ → ℕ → Event
  handler : ℕ → Event
  page_fault panic signal_eoi timer_tick system_call : Event

unfoldable pub set_gate : ℕ → ℕ → ℕ → Interrupts → Interrupts
set_gate n base flags s = record s {
  idt = update s.idt n (record {
    base_low = base % 2 ^ 16;
    selector = 0x08;
    unused = 0;
    flags = flags;
    base_high = base / 2 ^ 16 % 2 ^ 16;
  });
}

-- The writes in order, the last of which set the masks.
unfoldable pub pic_remap : Interrupts → List Event × Interrupts
pic_remap s = (
  outb 0x20 0x11
      ∷ outb 0xa0 0x11
      ∷ outb 0x21 0x20
      ∷ outb 0xa1 0x28
      ∷ outb 0x21 4
      ∷ outb 0xa1 2
      ∷ outb 0x21 1
      ∷ outb 0xa1 1
      ∷ outb 0x21 0xff
      ∷ outb 0xa1 0xff
      ∷ [],
  record s { master_mask = 0xff; slave_mask = 0xff },
)

-- `for (i = 0; i < n; i++) set_gate(first + i, stubs[i], 0x8e)`
unfoldable pub set_gates : ℕ → ℕ → ℕ → (ℕ → ℕ) → Interrupts → Interrupts
set_gates zero i first stubs s = s
set_gates (suc n) i first stubs s =
    set_gates n (i + 1) first stubs (set_gate (first + i) (stubs i) 0x8e s)

abbrev pub empty_entry : IdtEntry
empty_entry = record { base_low = 0; selector = 0; unused = 0; flags = 0; base_high = 0 }

-- The entry points of isr.S: of the 32 exceptions, the 16 lines, the system call; and the table's address.
pub record Stubs : Type 0 where
  pub isr : ℕ → ℕ
  pub irq : ℕ → ℕ
  pub isr128 : ℕ
  pub table : ℕ

unfoldable pub idt_init : Stubs → Interrupts → List Event × Interrupts
idt_init stubs s =
    let (events, s₁) = pic_remap (
      set_gate 128 stubs.isr128 0xee (
        set_gates 16 0 32 stubs.irq (
          set_gates 32 0 0 stubs.isr
            (record s { idt = λ i. if ltb i 256 then empty_entry else s.idt i })))) in
    (events, record s₁ { idtp = record { limit = 256 * 8 - 1; base = stubs.table } })

unfoldable pub register_irq_handler : ℕ → Option ℕ → Interrupts → Interrupts
register_irq_handler irq h s =
    if ltb irq 16 then record s { irq_handlers = update s.irq_handlers irq h } else s

-- `m &= (uint8_t)~(1u << n)`
abbrev pub without_bit : ℕ → ℕ → ℕ
without_bit m n = bit_and m (2 ^ 8 - 1 - 2 ^ n)

abbrev pub unmask_master : ℕ → Interrupts → Interrupts
unmask_master n s = record s { master_mask = without_bit s.master_mask n }

-- Line 2 of the master is the slave.
unfoldable pub pic_unmask : ℕ → Interrupts → Interrupts
pic_unmask irq s =
    if ltb irq 8
    then unmask_master irq s
    else unmask_master 2 (record s { slave_mask = without_bit s.slave_mask (irq - 8) })

unfoldable pub isr_handler : ℕ → List Event
isr_handler int_no =
    if ltb int_no 32 then (if int_no == 14 then page_fault ∷ [] else panic ∷ []) else []

-- `(uint8_t)(r->int_no - 32)`
abbrev pub line_of : ℕ → ℕ
line_of int_no = (int_no + 2 ^ 32 - 32) % 2 ^ 8

abbrev pub handled : ℕ → Interrupts → List Event
handled irq s =
    if ltb irq 16 then elim (s.irq_handlers irq) [ none ↦ [] | some h ↦ handler h ∷ [] ] else []

unfoldable pub irq_handler : ℕ → Interrupts → List Event
irq_handler int_no s =
    let irq = line_of int_no in
    handled irq s
    ++ ((if leb 8 irq then outb 0xa0 0x20 ∷ [] else []) ++ outb 0x20 0x20 ∷ signal_eoi ∷ [])

unfoldable pub interrupt_dispatch : ℕ → Interrupts → List Event
interrupt_dispatch int_no s =
    if ltb int_no 32
    then isr_handler int_no
    else if int_no == 32
    then irq_handler int_no s ++ timer_tick ∷ []
    else if ltb int_no 48
    then irq_handler int_no s
    else if int_no == 128
    then system_call ∷ []
    else []
