-- ===== src/Drivers/Virtio/Requests.antt =====
-- drivers/virtio/virtio_blk.c: the requests that the device finds, and what a read and a write return.
use ceblar.Prelude.{
  ℕ, zero, suc, ◌+◌, ◌<◌, ◌≡◌, ◌≢◌, refl, ap, sym, ◌∙◌, subst, Bool, true, false, not, ◌==◌,
  if◌then◌else◌, Option, none, some, update, update_self, update_else, arith, ℕ_discrete, ne→==,
}
use ceblar.Drivers.Virtio.{
  VirtqDesc, VirtioBlk, Seen, Answer, poll, read_request, write_request, read_end, write_end,
  with_flags, next_and_write, virtq_desc_f_next, virtio_poll_limit, virtio_blk_read_sector,
  virtio_blk_write_sector, descriptors,
}

abbrev readable : VirtqDesc → VirtqDesc
readable d = record d { flags = virtq_desc_f_next }

-- The three descriptors are those that `virtio_blk_init` made.
pub record IsReady (v : VirtioBlk) : Type 0 where
  pub present_set : v.present ≡ true
  pub chained : (i : ℕ) → v.desc i ≡ descriptors v.request_dma.physical_address i

-- The first round, from `wait` on, in which the device has moved its index.
pub record Answered (answer : ℕ → Seen) (last_used n wait round : ℕ) : Type 0 where
  pub in_time : round < n
  pub moved : (answer (wait + round)).used_idx ≢ last_used
  pub before : (k : ℕ) → k < round → (answer (wait + k)).used_idx ≡ last_used

shift_by : (wait k : ℕ) → wait + suc k ≡ wait + 1 + k
shift_by wait k = omega arith

poll_lem :
    (n wait : ℕ) (answer : ℕ → Seen) (last_used round : ℕ)
    → Answered answer last_used n wait round
    → poll n wait answer last_used ≡ some (answer (wait + round))
unfolding poll
poll_lem zero wait answer last_used round a = absurd (omega (arith, a.in_time))
poll_lem (suc n) wait answer last_used zero a =
    let here : wait + 0 ≡ wait = omega arith in
    let test : (answer wait).used_idx == last_used ≡ false =
      ne→== _ _ (subst (λ w. (answer w).used_idx ≢ last_used) here a.moved) in
    rw (test, here) refl
poll_lem (suc n) wait answer last_used (suc round) a =
    let here : wait + 0 ≡ wait = omega arith in
    let idle : (answer wait).used_idx ≡ last_used =
      subst (λ w. (answer w).used_idx ≡ last_used) here (a.before 0 (omega arith)) in
    let test : (answer wait).used_idx == last_used ≡ true = ground (arith, idle) in
    let shift : wait + suc round ≡ wait + 1 + round = omega arith in
    let rest = poll_lem n (wait + 1) answer last_used round (record {
      in_time = omega (arith, a.in_time);
      moved = subst (λ w. (answer w).used_idx ≢ last_used) shift a.moved;
      before = λ k lt.
          subst (λ w. (answer w).used_idx ≡ last_used) (shift_by wait k)
            (a.before (suc k) (omega (arith, lt)));
    }) in
    rw (test, shift) rest

-- On a driver that is ready, and with a device that moves its index in some round below the limit: a read returns
-- the bytes of that round if its status byte is 0 and fails otherwise.
pub read_sector-Answered :
    (answer : Answer) (lba round : ℕ) (v : VirtioBlk)
    → IsReady v
    → Answered (answer (read_request lba v)) v.last_used virtio_poll_limit 0 round
    → (virtio_blk_read_sector answer lba v).0 ≡ (
        if (answer (read_request lba v) round).status == 0
        then some (answer (read_request lba v) round).bytes
        else none)
unfolding virtio_blk_read_sector
read_sector-Answered answer lba round v h a =
    let found = poll_lem virtio_poll_limit 0 (answer (read_request lba v)) v.last_used round a in
    let there : 0 + round ≡ round = omega arith in
    let rung : VirtioBlk = read_request lba v in
    ap
      (λ b.
        (if not b
          then (none, v)
          else read_end rung (poll virtio_poll_limit 0 (answer rung) v.last_used)).0)
      h.present_set
    ∙ ap (λ o. (read_end rung o).0) found
    ∙ ap (λ k. if (answer rung k).status == 0 then some (answer rung k).bytes else none) there

-- The flags of the data's descriptor, taken off and put back.
chained_again :
    (v : VirtioBlk)
    → IsReady v
    → (i : ℕ)
    → (with_flags next_and_write (with_flags virtq_desc_f_next v)).desc i
      ≡ descriptors v.request_dma.physical_address i
unfolding descriptors
chained_again v h i =
    let off : ℕ → VirtqDesc = (with_flags virtq_desc_f_next v).desc in
    let back : VirtqDesc = record (off 1) { flags = next_and_write } in
    elim (ℕ_discrete 1 i) [
      | yes e ↦
          subst (λ k. update off 1 back k ≡ descriptors v.request_dma.physical_address k) e
            (update_self off 1 back
              ∙ ap (λ (d : VirtqDesc). record d { flags = next_and_write })
                  (update_self v.desc 1 (record (v.desc 1) { flags = virtq_desc_f_next })
                    ∙ ap readable (h.chained 1)))
      | no ne ↦
          update_else off 1 back i ne
          ∙ update_else v.desc 1 (record (v.desc 1) { flags = virtq_desc_f_next }) i ne
          ∙ h.chained i
    ]

write_end-IsReady :
    (lba : ℕ) (buffer : ℕ → ℕ) (v : VirtioBlk) (o : Option Seen)
    → IsReady v
    → IsReady (write_end (write_request lba buffer v) o).1
write_end-IsReady lba buffer v none h = record {
  present_set = h.present_set;
  chained = chained_again v h;
}
write_end-IsReady lba buffer v (some seen) h = record {
  present_set = h.present_set;
  chained = chained_again v h;
}

read_end-IsReady :
    (lba : ℕ) (v : VirtioBlk) (o : Option Seen)
    → IsReady v
    → IsReady (read_end (read_request lba v) o).1
read_end-IsReady lba v none h = record { present_set = h.present_set; chained = h.chained }
read_end-IsReady lba v (some seen) h = record { present_set = h.present_set; chained = h.chained }

-- Whatever the device does, and whether the polling runs out or not, a read and a write keep a ready driver ready:
-- the three descriptors are again those that `virtio_blk_init` made.
pub requests-IsReady :
    (answer : Answer) (lba : ℕ) (buffer : ℕ → ℕ) (v : VirtioBlk)
    → IsReady v
    → IsReady (virtio_blk_read_sector answer lba v).1
      × IsReady (virtio_blk_write_sector answer lba buffer v).1
unfolding virtio_blk_read_sector virtio_blk_write_sector
requests-IsReady answer lba buffer v h =
    let rung : VirtioBlk = read_request lba v in
    let rung_write : VirtioBlk = write_request lba buffer v in
    let read : Option Seen = poll virtio_poll_limit 0 (answer rung) v.last_used in
    let write : Option Seen = poll virtio_poll_limit 0 (answer rung_write) v.last_used in
    (
      subst
          (λ b.
            IsReady
              (if◌then◌else◌ {A = Option (ℕ → ℕ) × VirtioBlk} (not b) (none, v)
                (read_end rung read)).1)
          (sym h.present_set) (read_end-IsReady lba v read h),
      subst
          (λ b.
            IsReady
              (if◌then◌else◌ {A = Bool × VirtioBlk} (not b) (false, v)
                (write_end rung_write write)).1)
          (sym h.present_set) (write_end-IsReady lba buffer v write h),
    )
