-- ===== src/Drivers/Virtio.antt =====
-- drivers/virtio/virtio_blk.c: a legacy virtio disk with one request at a time. The ports are hardware; so is the
-- device's side of the shared memory: an `Answer` says what each round of the poll loop finds in it, from the
-- state in which the driver rang.
pub mod Requests
mod Tests
use ceblar.Prelude.{
  ℕ, zero, suc, ◌+◌, ◌-◌, ◌*◌, ◌/◌, ◌%◌, ◌^◌, bit_or, Bool, true, false, ◌&&◌, ◌||◌, not, ◌==◌, ltb,
  leb, if◌then◌else◌, Option, none, some, update,
}
use ceblar.Mm.Pmm.{Pmm}
use ceblar.Drivers.Dma.{DmaBuffer, dma_alloc, dma_free}
use ceblar.Drivers.Pci.{ConfigPorts, PciDevice, PciBar, pci_find_class, pci_read_bar}

abbrev pub virtio_vendor : ℕ
virtio_vendor = 0x1af4

abbrev pub virtio_blk_device : ℕ
virtio_blk_device = 0x1001

abbrev pub virtq_desc_f_next : ℕ
virtq_desc_f_next = 1

abbrev pub virtq_desc_f_write : ℕ
virtq_desc_f_write = 2

abbrev pub virtio_status_ack : ℕ
virtio_status_ack = 1

abbrev pub virtio_status_driver : ℕ
virtio_status_driver = 2

abbrev pub virtio_status_driver_ok : ℕ
virtio_status_driver_ok = 4

abbrev pub virtio_status_failed : ℕ
virtio_status_failed = 128

abbrev pub virtio_blk_t_in : ℕ
virtio_blk_t_in = 0

abbrev pub virtio_blk_queue : ℕ
virtio_blk_queue = 0

abbrev pub virtio_queue_size : ℕ
virtio_queue_size = 8

abbrev pub virtio_poll_limit : ℕ
virtio_poll_limit = 1000000

-- `virtq_desc_t`; an unused field of a structure is left out below.
pub record VirtqDesc : Type 0 where
  pub address : ℕ
  pub length : ℕ
  pub flags : ℕ
  pub next : ℕ

-- `virtq_avail_t`
pub record VirtqAvail : Type 0 where
  pub idx : ℕ
  pub ring : ℕ → ℕ

-- `virtio_blk_req_t`
pub record VirtioBlkReq : Type 0 where
  pub kind : ℕ
  pub reserved : ℕ
  pub sector : ℕ

-- The static variables; `bytes` (`data`) is the 512 bytes of the request's page.
pub record VirtioBlk : Type 0 where
  pub io_base : ℕ
  pub present : Bool
  pub queue_dma : DmaBuffer
  pub request_dma : DmaBuffer
  pub desc : ℕ → VirtqDesc
  pub avail : VirtqAvail
  pub request : VirtioBlkReq
  pub bytes : ℕ → ℕ
  pub status : ℕ
  pub last_used : ℕ

-- What a round of the poll loop finds: `used->idx`, the status byte and the data.
pub record Seen : Type 0 where
  pub used_idx : ℕ
  pub status : ℕ
  pub bytes : ℕ → ℕ

abbrev pub Answer : Type 0
Answer = VirtioBlk → ℕ → Seen

-- `avail->ring[avail->idx % VIRTIO_QUEUE_SIZE] = 0; avail->idx++`
abbrev pub offered : VirtqAvail → VirtqAvail
offered a = record {
  idx = (a.idx + 1) % 2 ^ 16;
  ring = update a.ring (a.idx % virtio_queue_size) 0;
}

-- The loop from the round `wait` on, by the rounds left.
unfoldable pub poll : ℕ → ℕ → (ℕ → Seen) → ℕ → Option Seen
poll zero wait answer last_used = none
poll (suc n) wait answer last_used =
    let rest = poll n (wait + 1) answer last_used in
    if (answer wait).used_idx == last_used then rest else some (answer wait)

-- The state in which a read rings.
abbrev pub read_request : ℕ → VirtioBlk → VirtioBlk
read_request lba v = record v {
  request = record { kind = virtio_blk_t_in; reserved = 0; sector = lba };
  status = 0xff;
  bytes = λ i. if ltb i 512 then 0 else v.bytes i;
  avail = offered v.avail;
}

-- The memory and `last_used` behind a poll that found something.
abbrev pub answered : Seen → VirtioBlk → VirtioBlk
answered seen v = record v { status = seen.status; bytes = seen.bytes; last_used = seen.used_idx }

abbrev pub read_end : VirtioBlk → Option Seen → Option (ℕ → ℕ) × VirtioBlk
read_end v none = (none, v)
read_end v (some seen) = (if seen.status == 0 then some seen.bytes else none, answered seen v)

-- A call with a buffer, which gets the 512 bytes of the result.
unfoldable pub virtio_blk_read_sector : Answer → ℕ → VirtioBlk → Option (ℕ → ℕ) × VirtioBlk
virtio_blk_read_sector answer lba v =
    let rung = read_request lba v in
    if not v.present
    then (none, v)
    else read_end rung (poll virtio_poll_limit 0 (answer rung) v.last_used)

abbrev pub with_flags : ℕ → VirtioBlk → VirtioBlk
with_flags f v = record v { desc = update v.desc 1 (record (v.desc 1) { flags = f }) }

-- The state in which a write rings: the device is to read the data.
abbrev pub write_request : ℕ → (ℕ → ℕ) → VirtioBlk → VirtioBlk
write_request lba buffer v = with_flags virtq_desc_f_next (record v {
  request = record { kind = 1; reserved = 0; sector = lba };
  bytes = λ i. if ltb i 512 then buffer i else v.bytes i;
  status = 0xff;
  avail = offered v.avail;
})

-- `VIRTQ_DESC_F_NEXT|VIRTQ_DESC_F_WRITE`
abbrev pub next_and_write : ℕ
next_and_write = bit_or virtq_desc_f_next virtq_desc_f_write

abbrev pub write_end : VirtioBlk → Option Seen → Bool × VirtioBlk
write_end v none = (false, with_flags next_and_write v)
write_end v (some seen) = (seen.status == 0, with_flags next_and_write (answered seen v))

-- A call with a buffer; the flag is whether the code returns 0.
unfoldable pub virtio_blk_write_sector : Answer → ℕ → (ℕ → ℕ) → VirtioBlk → Bool × VirtioBlk
virtio_blk_write_sector answer lba buffer v =
    let rung = write_request lba buffer v in
    if not v.present
    then (false, v)
    else write_end rung (poll virtio_poll_limit 0 (answer rung) v.last_used)

-- The descriptors that `virtio_blk_init` makes: the request, the data and the status byte.
unfoldable pub descriptors : ℕ → ℕ → VirtqDesc
descriptors physical i =
    if i == 0
    then record { address = physical; length = 16; flags = virtq_desc_f_next; next = 1 }
    else if i == 1
    then record { address = physical + 64; length = 512; flags = next_and_write; next = 2 }
    else if i == 2
    then record { address = physical + 576; length = 1; flags = virtq_desc_f_write; next = 0 }
    else record { address = 0; length = 0; flags = 0; next = 0 }

-- `(uint16_t)(io_base + n)`
abbrev pub port_at : ℕ → ℕ → ℕ
port_at io_base n = (io_base + n) % 2 ^ 16

-- The ports of the device, beside those of the configuration space.
pub record VirtioPorts (Hw : Type 0) : Type 0 where
  pub pci : ConfigPorts Hw
  pub outb : ℕ → ℕ → Hw → Hw
  pub outw : ℕ → ℕ → Hw → Hw
  pub inb : ℕ → Hw → ℕ × Hw

-- Both buffers, or neither.
abbrev pub give_back : DmaBuffer → Option DmaBuffer × Pmm → Option (DmaBuffer × DmaBuffer) × Pmm
give_back queue (none, m) = (none, (dma_free queue m).1)
give_back queue (some request, m) = (some (queue, request), m)

abbrev buffers_from : Bool → Option DmaBuffer × Pmm → Option (DmaBuffer × DmaBuffer) × Pmm
buffers_from initialized (none, m) = (none, m)
buffers_from initialized (some queue, m) = give_back queue (dma_alloc initialized 4096 m)

module _ {Hw : Type 0} (ports : VirtioPorts Hw) where
  abbrev set_status : ℕ → ℕ → Hw → Hw
  set_status io_base value hw = ports.outb (port_at io_base 18) value hw

  -- `set_status(cfg_status() | VIRTIO_STATUS_FAILED)`
  abbrev fail : ℕ → Hw → Hw
  fail io_base hw =
      let (status, hw₁) = ports.inb (port_at io_base 18) hw in
      set_status io_base (bit_or status virtio_status_failed) hw₁

  -- From the reset to the queue's size.
  abbrev greet : ℕ → Hw → ℕ × Hw
  greet io_base hw =
      let hw₁ = (ports.pci.inl (port_at io_base 0) (set_status io_base 0 hw)).1 in
      let hw₂ =
        set_status io_base (bit_or virtio_status_ack virtio_status_driver)
          (ports.pci.outl (port_at io_base 4) 0 hw₁) in
      let (size, hw₃) =
        ports.pci.inl (port_at io_base 12) (ports.outw (port_at io_base 14) virtio_blk_queue hw₂) in
      (size % 2 ^ 16, hw₃)

  -- The driver's state, the hardware and the pages behind `virtio_blk_init`.
  abbrev ready_with :
      ℕ → Hw → VirtioBlk → Option (DmaBuffer × DmaBuffer) × Pmm → VirtioBlk × Hw × Pmm
  ready_with io_base hw v (none, m) = (record v { io_base = io_base }, fail io_base hw, m)
  ready_with io_base hw v (some (queue, request), m) = (
    record v {
      io_base = io_base;
      present = true;
      queue_dma = queue;
      request_dma = request;
      desc = descriptors request.physical_address;
      avail = record { idx = 0; ring = λ i. 0 };
      last_used = 0;
    },
    set_status io_base
        (bit_or (bit_or virtio_status_ack virtio_status_driver) virtio_status_driver_ok)
        (ports.pci.outl (port_at io_base 8) (queue.physical_address / 2 ^ 12) hw),
    m,
  )

  abbrev with_bar : Bool → VirtioBlk → Pmm → Option PciBar × Hw → VirtioBlk × Hw × Pmm
  with_bar initialized v m (none, hw) = (v, hw, m)
  with_bar initialized v m (some bar, hw) =
      if not bar.io || ltb 0xffff bar.base
      then (v, hw, m)
      else (let (size, hw₁) = greet bar.base hw in
          if ltb size virtio_queue_size
          then (record v { io_base = bar.base }, fail bar.base hw₁, m)
          else ready_with bar.base hw₁ v (buffers_from initialized (dma_alloc initialized 8192 m)))

  abbrev with_device : Bool → VirtioBlk → Pmm → Option PciDevice × Hw → VirtioBlk × Hw × Pmm
  with_device initialized v m (none, hw) = (v, hw, m)
  with_device initialized v m (some d, hw) =
      if not (d.vendor == virtio_vendor) || not (d.device == virtio_blk_device)
      then (v, hw, m)
      else with_bar initialized v m (pci_read_bar ports.pci d 0 hw)

  -- `initialized` is the flag of drivers/dma/dma.c. The device is registered where it is present behind the call.
  unfoldable pub virtio_blk_init : Bool → VirtioBlk → Hw → Pmm → VirtioBlk × Hw × Pmm
  virtio_blk_init initialized v hw m =
      with_device initialized v m (pci_find_class ports.pci 0x01 0x00 hw)
