-- ===== src/Kernel/Syscall/Libc.antt =====
-- userspace/libc/syscalls.c: the calls of a user program. `call3` is the instruction `int $0x80` with the
-- number and three words in registers. `u_exit`, which never returns, is not modelled.
use ceblar.Prelude.{ℕ, ◌%◌, ◌^◌}
use ceblar.Kernel.Syscall.{
  sys_read, sys_write, sys_open, sys_close, sys_fork, sys_getpid, sys_yield, sys_sleep, sys_wait,
  sys_exec, sys_mmap, sys_uname, sys_munmap, sys_kill, sys_futex_wait, sys_futex_wake,
  sys_sigaction, sys_sigreturn, sys_getcred, sys_socket, sys_connect, sys_send, sys_close_socket,
}

module _ {W : Type 0} (call3 : ℕ → ℕ → ℕ → ℕ → W → ℕ × W) where
  abbrev pub u_read : ℕ → ℕ → ℕ → W → ℕ × W
  u_read fd buffer length = call3 sys_read fd buffer length

  abbrev pub u_write : ℕ → ℕ → ℕ → W → ℕ × W
  u_write fd buffer length = call3 sys_write fd buffer length

  abbrev pub u_open : ℕ → ℕ → W → ℕ × W
  u_open path flags = call3 sys_open path flags 0

  abbrev pub u_close : ℕ → W → ℕ × W
  u_close fd = call3 sys_close fd 0 0

  abbrev pub u_fork : W → ℕ × W
  u_fork = call3 sys_fork 0 0 0

  abbrev pub u_getpid : W → ℕ × W
  u_getpid = call3 sys_getpid 0 0 0

  abbrev pub u_yield : W → ℕ × W
  u_yield = call3 sys_yield 0 0 0

  abbrev pub u_sleep : ℕ → W → ℕ × W
  u_sleep milliseconds = call3 sys_sleep milliseconds 0 0

  abbrev pub u_wait : ℕ → ℕ → W → ℕ × W
  u_wait pid status = call3 sys_wait pid status 0

  abbrev pub u_exec : ℕ → W → ℕ × W
  u_exec path = call3 sys_exec path 0 0

  abbrev pub u_mmap : ℕ → ℕ → ℕ → W → ℕ × W
  u_mmap address length flags = call3 sys_mmap address length flags

  abbrev pub u_uname : ℕ → W → ℕ × W
  u_uname buffer = call3 sys_uname buffer 0 0

  abbrev pub u_munmap : ℕ → ℕ → W → ℕ × W
  u_munmap address length = call3 sys_munmap address length 0

  abbrev pub u_getcred : ℕ → W → ℕ × W
  u_getcred credentials = call3 sys_getcred credentials 0 0

  abbrev pub u_socket : ℕ → W → ℕ × W
  u_socket local_port = call3 sys_socket (local_port % 2 ^ 16) 0 0

  abbrev pub u_connect : ℕ → ℕ → W → ℕ × W
  u_connect socket remote_port = call3 sys_connect socket (remote_port % 2 ^ 16) 0

  abbrev pub u_send : ℕ → ℕ → ℕ → W → ℕ × W
  u_send socket data_start length = call3 sys_send socket data_start length

  abbrev pub u_socket_close : ℕ → W → ℕ × W
  u_socket_close socket = call3 sys_close_socket socket 0 0

  abbrev pub u_kill : ℕ → ℕ → W → ℕ × W
  u_kill pid signal = call3 sys_kill pid signal 0

  abbrev pub u_sigaction : ℕ → ℕ → ℕ → W → ℕ × W
  u_sigaction signal handler mask = call3 sys_sigaction signal handler mask

  abbrev pub u_sigreturn : W → ℕ × W
  u_sigreturn = call3 sys_sigreturn 0 0 0

  abbrev pub u_futex_wait : ℕ → ℕ → W → ℕ × W
  u_futex_wait word expected = call3 sys_futex_wait word expected 0

  abbrev pub u_futex_wait_timeout : ℕ → ℕ → ℕ → W → ℕ × W
  u_futex_wait_timeout word expected timeout_ms = call3 sys_futex_wait word expected timeout_ms

  abbrev pub u_futex_wake : ℕ → ℕ → W → ℕ × W
  u_futex_wake word count = call3 sys_futex_wake word count 0
