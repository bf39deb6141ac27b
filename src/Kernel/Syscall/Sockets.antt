-- ===== src/Kernel/Syscall/Sockets.antt =====
-- kernel/syscall.c: the check of a user buffer, and the system calls on the kernel's table of sockets, which are
-- those of net/net.c by their numbers. `none` is the result -1.
use ceblar.Prelude.{
  ℕ, zero, suc, ◌+◌, ◌%◌, ◌^◌, ◌<◌, ◌≤◌, ◌≡◌, ◌≢◌, refl, ap, sym, ◌∙◌, subst, Bool, true, false,
  ◌&&◌, ◌||◌, not, ◌==◌, ltb, leb, if◌then◌else◌, Option, none, some, List, update, update_else,
  arith, Bool-cases, inl, inr,
}
use ceblar.Net.Loopback.{Loopback}
use ceblar.Net.Socket.{
  Socket, net_socket_open, net_socket_connect, net_socket_send, net_socket_close,
}
use ceblar.Kernel.Process.{Spaces, System, pcb_of}

-- `kernel_sockets`, and the queue that they share.
pub record Sockets : Type 0 where
  pub kernel_sockets : ℕ → Socket
  pub queue : Loopback

unfoldable pub user_buf : {Vm : Type 0} → Spaces Vm → System Vm → ℕ → ℕ → Bool → Bool
user_buf spaces s p n write =
    if n == 0
    then leb 0x400000 p && ltb p 0xc0000000
    else spaces.vmm_validate_user_ptr (pcb_of s s.machine.current).address_space p n write s.vm

abbrev pub replaced : ℕ → Sockets → Option Socket → Bool × Sockets
replaced i s none = (false, s)
replaced i s (some socket) = (true, record s { kernel_sockets = update s.kernel_sockets i socket })

-- The loop from the socket `i` on, by the rounds left.
unfoldable pub open_from : ℕ → ℕ → ℕ → Sockets → Option ℕ × Sockets
open_from zero i port s = (none, s)
open_from (suc n) i port s =
    let rest = open_from n (i + 1) port s in
    let (opened, s₁) = replaced i s (net_socket_open s.queue port (s.kernel_sockets i)) in
    if (s.kernel_sockets i).used then rest else if opened then (some i, s₁) else rest

unfoldable pub socket_sys : ℕ → Sockets → Option ℕ × Sockets
socket_sys a s = open_from 8 0 (a % 2 ^ 16) s

-- Whether the code returns 0.
unfoldable pub connect_sys : ℕ → ℕ → Sockets → Bool × Sockets
connect_sys a b s =
    if leb 8 a
    then (false, s)
    else replaced a s (net_socket_connect (b % 2 ^ 16) (s.kernel_sockets a))

unfoldable pub close_socket_sys : ℕ → Sockets → Bool × Sockets
close_socket_sys a s =
    if leb 8 a then (false, s) else replaced a s (net_socket_close (s.kernel_sockets a))

abbrev pub sent : ℕ → Sockets → Option (ℕ × Socket × Loopback) → Option ℕ × Sockets
sent a s none = (none, s)
sent a s (some (n, socket, queue)) =
    (some n, record { kernel_sockets = update s.kernel_sockets a socket; queue = queue })

-- `valid` is the result of `user_buf` for the packet.
unfoldable pub send_sys : ℕ → List ℕ → Bool → Sockets → Option ℕ × Sockets
send_sys a packet valid s =
    if leb 8 a || not valid
    then (none, s)
    else sent a s (net_socket_send (some packet) (s.kernel_sockets a) s.queue)

number : {a b : ℕ} → some a ≡ some b → a ≡ b
number e = grind (arith, e)

-- The round on a socket that is not in use.
abbrev tried : Option ℕ × Sockets → ℕ → Sockets → Bool × Sockets → Option ℕ × Sockets
tried rest i s (opened, s₁) = if opened then (some i, s₁) else rest

-- What the opening of a socket leaves: a number below the bound, which was not in use, and the others as before.
pub record Opens (s : Sockets) (bound : ℕ) (r : Option ℕ × Sockets) : Type 0 where
  pub in_range : (k : ℕ) → r.0 ≡ some k → k < bound
  pub was_unused : (k : ℕ) → r.0 ≡ some k → (s.kernel_sockets k).used ≡ false
  pub others_kept : (k j : ℕ) → r.0 ≡ some k → k ≢ j → r.1.kernel_sockets j ≡ s.kernel_sockets j
  pub none_kept : r.0 ≡ none → r.1 ≡ s

opened_here :
    (s : Sockets) (i bound : ℕ) (socket : Socket)
    → i < bound
    → (s.kernel_sockets i).used ≡ false
    → Opens s bound (some i, record s { kernel_sockets = update s.kernel_sockets i socket })
opened_here s i bound socket lt unused = record {
  in_range = λ k e. subst (λ x. x < bound) (number e) lt;
  was_unused = λ k e. subst (λ x. (s.kernel_sockets x).used ≡ false) (number e) unused;
  others_kept =
      λ k j e ne. update_else s.kernel_sockets i socket j (λ same. ne (sym (number e) ∙ same));
  none_kept = λ e. absurd (grind (arith, e));
}

open_from-Opens :
    (n i bound port : ℕ) (s : Sockets) → i + n ≤ bound → Opens s bound (open_from n i port s)
unfolding open_from
open_from-Opens zero i bound port s le = record {
  in_range = λ k e. absurd (grind (arith, e));
  was_unused = λ k e. absurd (grind (arith, e));
  others_kept = λ k j e. absurd (grind (arith, e));
  none_kept = λ e. refl;
}
open_from-Opens (suc n) i bound port s le =
    let later = open_from-Opens n (i + 1) bound port s (omega (arith, le)) in
    let rest = open_from n (i + 1) port s in
    elim (Bool-cases (s.kernel_sockets i).used) [
      | inl used ↦
          subst (Opens s bound)
            (sym (
              ap
                (λ b.
                  if b
                  then rest
                  else tried rest i s
                      (replaced i s (net_socket_open s.queue port (s.kernel_sockets i))))
                used))
            later
      | inr unused ↦
          subst (Opens s bound)
            (sym (
              ap
                (λ b.
                  if b
                  then rest
                  else tried rest i s
                      (replaced i s (net_socket_open s.queue port (s.kernel_sockets i))))
                unused))
            (elim (net_socket_open s.queue port (s.kernel_sockets i))
              as (λ o. Opens s bound (tried rest i s (replaced i s o))) [
                | none ↦ later
                | some socket ↦ opened_here s i bound socket (omega (arith, le)) unused
              ])
    ]

-- `socket_sys` gives a number below 8 of a socket that was not in use, and leaves the other sockets as they were;
-- where it fails, all of them (`Opens`).
pub socket_sys-Opens : (a : ℕ) (s : Sockets) → Opens s 8 (socket_sys a s)
unfolding socket_sys
socket_sys-Opens a s = open_from-Opens 8 0 8 (a % 2 ^ 16) s (omega arith)
