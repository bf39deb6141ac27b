-- ===== src/Net/Loopback/Fifo.antt =====
-- The loopback queue behaves as a first-in first-out queue of at most four packet lengths.
use ceblar.Prelude.{
  ℕ, zero, suc, ◌+◌, ◌-◌, ◌%◌, ◌<◌, ◌≤◌, ◌≡◌, refl, ap, Bool, ◌&&◌, ◌==◌, ltb, leb, if◌then◌else◌,
  Option, none, some, List, [], ◌∷◌, ◌++◌, length, update, arith, Bool-cases, inl, inr,
}
use ceblar.Net.Loopback.{
  Loopback, net_queue_size, net_packet_size, store_packet, net_loopback_send, net_loopback_received,
}

-- The indices lie in the circle, and the tail is `queue_count` places behind the head.
pub record IsValid (q : Loopback) : Type 0 where
  pub head_in : q.queue_head < net_queue_size
  pub count_in : q.queue_count ≤ net_queue_size
  pub tail_at : q.queue_tail ≡ (q.queue_head + q.queue_count) % net_queue_size

-- The `n` lengths from place `h` on.
abbrev pub lengths_from : (ℕ → ℕ) → ℕ → ℕ → List ℕ
lengths_from len h zero = []
lengths_from len h (suc n) = len h ∷ lengths_from len ((h + 1) % net_queue_size) n

-- Oldest first.
abbrev pub waiting : Loopback → List ℕ
waiting q = lengths_from q.queue_len q.queue_head q.queue_count

-- Writing behind the last place of a part of the circle adds that place to it.
lengths_from-update :
    (len : ℕ → ℕ) (v n h i : ℕ)
    → h < net_queue_size
    → n < net_queue_size
    → i ≡ (h + n) % net_queue_size
    → lengths_from (update len i v) h (suc n) ≡ lengths_from len h n ++ v ∷ []
lengths_from-update len v zero h i lt few e = ground arith
lengths_from-update len v (suc n) h i lt few e =
    let rest =
      lengths_from-update len v n ((h + 1) % net_queue_size) i (omega arith) (omega arith)
        (omega arith) in
    let kept : update len i v h ≡ len h = ground arith in rw (kept, rest)

length-lengths_from : (len : ℕ → ℕ) (h n : ℕ) → length (lengths_from len h n) ≡ n
length-lengths_from len h zero = refl
length-lengths_from len h (suc n) = ap suc (length-lengths_from len ((h + 1) % net_queue_size) n)

-- A queue of packet lengths with the limits of the code.
abbrev pub fifo_send : Bool → ℕ → List ℕ → Option (List ℕ)
fifo_send ready n xs =
    if ready && ltb 0 n && leb n net_packet_size && ltb (length xs) net_queue_size
    then some (xs ++ n ∷ [])
    else none

-- The oldest length, or 0 if none waits.
abbrev pub fifo_receive : List ℕ → ℕ × List ℕ
fifo_receive [] = (0, [])
fifo_receive (n ∷ xs) = (n, xs)

fifo_receive-lengths_from :
    (len : ℕ → ℕ) (h n : ℕ)
    → fifo_receive (lengths_from len h n)
      ≡ (if n == 0 then (0, []) else (len h, lengths_from len ((h + 1) % net_queue_size) (n - 1)))
fifo_receive-lengths_from len h zero = refl
fifo_receive-lengths_from len h (suc n) =
    let less : suc n - 1 ≡ n = omega arith in rw less (ground arith)

abbrev pub waiting_after : Option Loopback → Option (List ℕ)
waiting_after none = none
waiting_after (some q) = some (waiting q)

module _ (q : Loopback) (v : IsValid q) where
  store_packet-waiting :
      (packet : List ℕ)
      → q.queue_count < net_queue_size
      → waiting (store_packet q packet) ≡ waiting q ++ length packet ∷ []
  store_packet-waiting packet few =
      let later : q.queue_count + 1 ≡ suc q.queue_count = omega arith in
      rw later (
        lengths_from-update q.queue_len (length packet) q.queue_count q.queue_head q.queue_tail
          v.head_in few v.tail_at)

  -- On a valid queue `net_loopback_send` of a packet does to the lengths that wait what the bounded
  -- queue does, refusals included.
  pub send_refines :
      (packet : List ℕ)
      → waiting_after (net_loopback_send (some packet) q)
        ≡ fifo_send q.ready (length packet) (waiting q)
  unfolding net_loopback_send
  send_refines packet =
      let n = length-lengths_from q.queue_len q.queue_head q.queue_count in
      rw n (ground (arith, store_packet-waiting packet))

  pub send-IsValid :
      (packet : Option (List ℕ)) {q' : Loopback} → net_loopback_send packet q ≡ some q' → IsValid q'
  unfolding net_loopback_send
  send-IsValid none e = ground arith
  send-IsValid (some packet) e = ground (arith, v.head_in, v.count_in, v.tail_at)

  -- On a valid queue `net_loopback_received` returns the oldest length and takes it away, or returns 0
  -- where none waits.
  pub received_refines :
      let (n, q') = net_loopback_received q in (n, waiting q') ≡ fifo_receive (waiting q)
  unfolding net_loopback_received
  received_refines =
      rw (fifo_receive-lengths_from q.queue_len q.queue_head q.queue_count)
        (elim (Bool-cases (q.queue_count == 0)) [
          | inl none_left ↦ let empty : q.queue_count ≡ 0 = ground arith in rw (none_left, empty)
          | inr some_left ↦ rw some_left
        ])

  pub received-IsValid : IsValid (net_loopback_received q).1
  unfolding net_loopback_received
  received-IsValid = ground (arith, v.head_in, v.count_in, v.tail_at)
