-- ===== src/Net/Socket/Life.antt =====
-- The life of a socket: what each call needs, and the states that calls can reach.
use ceblar.Prelude.{ℕ, ◌≡◌, ◌≢◌, true, some, List, arith, ◌⊎◌}
use ceblar.Net.Loopback.{Loopback, net_loopback_send}
use ceblar.Net.Socket.{
  closed, established, Socket, net_socket_open, net_socket_connect, net_socket_send,
  net_socket_close,
}

-- One call on a socket, with the queue that it shares with the others; the queue may also change by
-- the calls of others.
pub data Step : Socket × Loopback → Socket × Loopback → Type 0 where
  opens :
      (s t : Socket) (q : Loopback) (port : ℕ)
      → net_socket_open q port s ≡ some t
      → Step (s, q) (t, q)
  connects :
      (s t : Socket) (q : Loopback) (port : ℕ)
      → net_socket_connect port s ≡ some t
      → Step (s, q) (t, q)
  sends :
      (s t : Socket) (q q' : Loopback) (packet : List ℕ) (n : ℕ)
      → net_socket_send (some packet) s q ≡ some (n, t, q')
      → Step (s, q) (t, q')
  closes : (s t : Socket) (q : Loopback) → net_socket_close s ≡ some t → Step (s, q) (t, q)
  others : (s : Socket) (q q' : Loopback) → Step (s, q) (s, q')

pub data Reach (start : Socket × Loopback) : Socket × Loopback → Type 0 where
  here : Reach start start
  next : {p p' : Socket × Loopback} → Reach start p → Step p p' → Reach start p'

-- A socket is closed or established; an established one is in use, with both ports set.
pub record IsSound (s : Socket) : Type 0 where
  pub two_states : (s.state ≡ closed) ⊎ (s.state ≡ established)
  pub ports : s.state ≡ established → (s.used ≡ true) × (s.local_port ≢ 0) × (s.remote_port ≢ 0)
  pub named : s.used ≡ true → s.local_port ≢ 0

Step-IsSound : {p p' : Socket × Loopback} → Step p p' → IsSound p.0 → IsSound p'.0
unfolding net_socket_open net_socket_connect net_socket_send net_socket_close
Step-IsSound (opens s t q port e) v = ground arith
Step-IsSound (connects s t q port e) v = ground (arith, v.two_states, v.ports, v.named)
Step-IsSound (sends s t q q' packet n e) v =
    ground (arith, v.two_states, v.ports, v.named, net_loopback_send (some packet) q)
Step-IsSound (closes s t q e) v = ground (arith, v.two_states, v.ports, v.named)
Step-IsSound (others s q q') v = v

-- From a sound socket, whatever calls are made on it and on the queue, it stays sound: it is closed or
-- established, never half open, and an established one is in use with both ports set.
pub Reach-IsSound : {p p' : Socket × Loopback} → Reach p p' → IsSound p.0 → IsSound p'.0
Reach-IsSound here v = v
Reach-IsSound (next r st) v = Step-IsSound st (Reach-IsSound r v)
