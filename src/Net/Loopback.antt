-- ===== src/Net/Loopback.antt =====
-- The loopback queue of net/net.c: four packet buffers in a circle.
pub mod Fifo
use ceblar.Prelude.{
  ℕ, zero, suc, ◌+◌, ◌-◌, ◌%◌, Bool, true, false, ◌&&◌, ◌||◌, not, ◌==◌, ltb, leb, if◌then◌else◌,
  Option, none, some, List, [], ◌∷◌, length, get_or, update,
}

abbrev pub net_queue_size : ℕ
net_queue_size = 4

abbrev pub net_packet_size : ℕ
net_packet_size = 1536

-- The queue's static variables and `ready`; a buffer holds the bytes that were last copied to it.
pub record Loopback : Type 0 where
  pub queue : ℕ → List ℕ
  pub queue_len : ℕ → ℕ
  pub queue_head : ℕ
  pub queue_tail : ℕ
  pub queue_count : ℕ
  pub ready : Bool

-- `queue_head=0;queue_tail=0;queue_count=0;ready=1` of `net_init`.
unfoldable pub reset_queue : Loopback → Loopback
reset_queue q = record q { queue_head = 0; queue_tail = 0; queue_count = 0; ready = true }

abbrev pub store_packet : Loopback → List ℕ → Loopback
store_packet q packet = record q {
  queue = update q.queue q.queue_tail packet;
  queue_len = update q.queue_len q.queue_tail (length packet);
  queue_tail = (q.queue_tail + 1) % net_queue_size;
  queue_count = q.queue_count + 1;
}

-- The argument `length` is that of the list, and a null packet is `none`; `none` is the code's -1.
unfoldable pub net_loopback_send : Option (List ℕ) → Loopback → Option Loopback
net_loopback_send none q = none
net_loopback_send (some packet) q =
    if not q.ready
      || length packet == 0
      || ltb net_packet_size (length packet)
      || leb net_queue_size q.queue_count
    then none
    else some (store_packet q packet)

unfoldable pub net_loopback_received : Loopback → ℕ × Loopback
net_loopback_received q = if q.queue_count == 0 then (0, q) else (
  q.queue_len q.queue_head,
  record q { queue_head = (q.queue_head + 1) % net_queue_size; queue_count = q.queue_count - 1 },
)
