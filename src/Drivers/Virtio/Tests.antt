-- ===== src/Drivers/Virtio/Tests.antt =====
-- The theorems about drivers/virtio/virtio_blk.c with a device that answers in its third round.
use ceblar.Prelude.{refl, true, ltb, if◌then◌else◌, arith}
use ceblar.Drivers.Virtio.{
  VirtioBlk, Answer, descriptors, read_request, virtio_poll_limit, virtio_blk_read_sector,
  virtio_blk_write_sector,
}
use ceblar.Drivers.Virtio.Requests.{IsReady, Answered, requests-IsReady}

abbrev disk : VirtioBlk
disk = record {
  io_base = 0xc000;
  present = true;
  queue_dma = record {
    virtual_address = 0x10000;
    physical_address = 0x10000;
    length = 8192;
    pages = 2;
  };
  request_dma = record {
    virtual_address = 0x12000;
    physical_address = 0x12000;
    length = 4096;
    pages = 1;
  };
  desc = descriptors 0x12000;
  avail = record { idx = 0; ring = λ i. 0 };
  request = record { kind = 0; reserved = 0; sector = 0 };
  bytes = λ i. 0;
  status = 0;
  last_used = 0;
}

disk-IsReady : IsReady disk
disk-IsReady = record { present_set = refl; chained = λ i. refl }

-- The device gives the number of the sector as every byte.
abbrev answer : Answer
answer v wait = record {
  used_idx = if ltb wait 2 then 0 else 1;
  status = 0;
  bytes = λ i. v.request.sector;
}

answer-Answered : Answered (answer (read_request 5 disk)) disk.last_used virtio_poll_limit 0 2
answer-Answered = record {
  in_time = omega arith;
  moved = omega arith;
  before = λ k lt. ground (arith, lt);
}

requests-IsReady_example :
    IsReady (virtio_blk_read_sector answer 5 disk).1
    × IsReady (virtio_blk_write_sector answer 5 (λ i. 0) disk).1
requests-IsReady_example = requests-IsReady answer 5 (λ i. 0) disk disk-IsReady
