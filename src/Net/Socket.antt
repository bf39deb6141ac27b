-- ===== src/Net/Socket.antt =====
-- The sockets of net/net.c. A null pointer to a socket is not modelled: a socket is a value, and its
-- caller, kernel/syscall.c, passes an entry of an array.
pub mod Life
use ceblar.Prelude.{
  ℕ, suc, ◌+◌, Bool, true, false, ◌&&◌, ◌||◌, not, ◌==◌, if◌then◌else◌, Option, none, some, List,
  length, add32,
}
use ceblar.Net.Loopback.{Loopback, net_loopback_send}

-- NET_SOCKET_CLOSED, NET_SOCKET_SYN_SENT, NET_SOCKET_ESTABLISHED, NET_SOCKET_FIN_WAIT
pub data SocketState : Type 0 where
  closed syn_sent established fin_wait : SocketState

-- `net_socket_t`
pub record Socket : Type 0 where
  pub local_port : ℕ
  pub remote_port : ℕ
  pub sequence : ℕ
  pub acknowledgement : ℕ
  pub state : SocketState
  pub used : Bool

abbrev pub is_closed : SocketState → Bool
is_closed closed = true
is_closed _ = false

abbrev pub is_established : SocketState → Bool
is_established established = true
is_established _ = false

-- `none` is the result -1, which leaves the socket as it was.
unfoldable pub net_socket_open : Loopback → ℕ → Socket → Option Socket
net_socket_open q port s =
    if not q.ready || port == 0
    then none
    else some (record {
      local_port = port;
      remote_port = 0;
      sequence = 1;
      acknowledgement = 0;
      state = closed;
      used = true;
    })

unfoldable pub net_socket_connect : ℕ → Socket → Option Socket
net_socket_connect port s =
    if not s.used || port == 0 || not (is_closed s.state)
    then none
    else some (record s { remote_port = port; acknowledgement = 1; state = established })

abbrev pub after_send : Socket → ℕ → Option Loopback → Option (ℕ × Socket × Loopback)
after_send s n none = none
after_send s n (some q) = some (n, record s { sequence = add32 s.sequence n }, q)

unfoldable pub net_socket_send :
    Option (List ℕ) → Socket → Loopback → Option (ℕ × Socket × Loopback)
net_socket_send none s q = none
net_socket_send (some packet) s q =
    if not s.used || not (is_established s.state) || length packet == 0
    then none
    else after_send s (length packet) (net_loopback_send (some packet) q)

unfoldable pub net_socket_close : Socket → Option Socket
net_socket_close s = if s.used then some (record s { state = closed; used = false }) else none
