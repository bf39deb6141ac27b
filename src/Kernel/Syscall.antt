-- ===== src/Kernel/Syscall.antt =====
-- kernel/syscall.c: the table of system calls and its dispatcher, and the numbers of include/syscall.h. What the
-- handlers do is left to the parts that they call: a system gives the handler's name a meaning. What
-- syscall_from_interrupt does around the dispatch is not modelled.
pub mod Libc
pub mod Sockets
use ceblar.Prelude.{
  ℕ, zero, suc, ◌+◌, ◌-◌, ◌%◌, ◌^◌, Bool, true, false, ltb, if◌then◌else◌, Option, none, some, List,
  [], ◌∷◌,
}

abbrev pub sys_read : ℕ
sys_read = 0

abbrev pub sys_write : ℕ
sys_write = 1

abbrev pub sys_open : ℕ
sys_open = 2

abbrev pub sys_close : ℕ
sys_close = 3

abbrev pub sys_fork : ℕ
sys_fork = 4

abbrev pub sys_exit : ℕ
sys_exit = 5

abbrev pub sys_getpid : ℕ
sys_getpid = 6

abbrev pub sys_yield : ℕ
sys_yield = 7

abbrev pub sys_sleep : ℕ
sys_sleep = 8

abbrev pub sys_wait : ℕ
sys_wait = 9

abbrev pub sys_exec : ℕ
sys_exec = 10

abbrev pub sys_mmap : ℕ
sys_mmap = 11

abbrev pub sys_uname : ℕ
sys_uname = 12

abbrev pub sys_munmap : ℕ
sys_munmap = 13

abbrev pub sys_kill : ℕ
sys_kill = 14

abbrev pub sys_futex_wait : ℕ
sys_futex_wait = 15

abbrev pub sys_futex_wake : ℕ
sys_futex_wake = 16

abbrev pub sys_sigaction : ℕ
sys_sigaction = 17

abbrev pub sys_sigreturn : ℕ
sys_sigreturn = 18

abbrev pub sys_getcred : ℕ
sys_getcred = 19

abbrev pub sys_socket : ℕ
sys_socket = 20

abbrev pub sys_connect : ℕ
sys_connect = 21

abbrev pub sys_send : ℕ
sys_send = 22

abbrev pub sys_close_socket : ℕ
sys_close_socket = 23

abbrev pub sys_count : ℕ
sys_count = 24

-- The functions that `syscall_init` enters.
pub data Handler : Type 0 where
  rd wr op cl fk ex gp yl sl wt ee mm un mu kill_sys futex_wait_sys futex_wake_sys sigaction_sys
        sigreturn_sys getcred_sys socket_sys connect_sys send_sys close_socket_sys :
      Handler

-- `table`, after `syscall_init`.
abbrev pub syscall_init : List Handler
syscall_init =
    rd ∷ wr ∷ op ∷ cl ∷ fk ∷ ex ∷ gp ∷ yl ∷ sl ∷ wt ∷ ee ∷ mm ∷ un ∷ mu ∷ kill_sys ∷ futex_wait_sys
    ∷ futex_wake_sys ∷ sigaction_sys ∷ sigreturn_sys ∷ getcred_sys ∷ socket_sys ∷ connect_sys
    ∷ send_sys ∷ close_socket_sys ∷ []

-- `table[n]`, which is null behind its last entry.
unfoldable pub entry : List Handler → ℕ → Option Handler
entry [] n = none
entry (h ∷ table) zero = some h
entry (h ∷ table) (suc n) = entry table n

-- The word of `-1`.
abbrev pub minus_one : ℕ
minus_one = 2 ^ 32 - 1

module _ {W : Type 0} (run : Handler → ℕ → ℕ → ℕ → W → ℕ × W) where
  abbrev pub call_handler : Option Handler → ℕ → ℕ → ℕ → W → ℕ × W
  call_handler none a b c w = (minus_one, w)
  call_handler (some h) a b c w = run h a b c w

  unfoldable pub syscall_dispatch : ℕ → ℕ → ℕ → ℕ → W → ℕ × W
  syscall_dispatch n a b c w =
      if ltb n sys_count then call_handler (entry syscall_init n) a b c w else (minus_one, w)
