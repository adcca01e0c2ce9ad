-- ===== src/Interceptor.antt =====
-- A1/interceptor.c and A1/interceptor.h: the state of the module. The kernel's functions are named by
-- numbers, and what the kernel answers about processes is a parameter, `Kernel`.
pub mod Monad
pub mod PidList
pub mod Syscall
pub mod Module
pub mod Invariant
pub mod Effects
pub mod Entries
pub mod Checks
pub mod Safety
pub mod Behaviour
pub mod Logging
pub mod Exit
pub mod Lifecycle
mod Tests
pub use csc369_uoft.Base.Int.{ℤ, pos, negsuc, is_negative, to_ℕ}
use csc369_uoft.Base.{ℕ, Bool, true, false, List, Option, none, some, ◌==◌, if◌then◌else◌}

-- What an entry of a call table points to: a function of the kernel or one of this module.
pub data Handler : Type 0 where
  kernel : ℕ → Handler
  interceptor my_syscall my_exit_group : Handler

-- `mytable`: the metadata of one system call.
pub record Entry : Type 0 where
  pub f : Handler
  pub intercepted : ℕ
  pub monitored : ℕ
  pub listcount : ℕ
  pub my_list : List ℕ

-- The page table entry that covers `sys_call_table`: `_PAGE_RW`, and the other bits.
pub record Pte : Type 0 where
  pub rw : Bool
  pub others : ℕ

pub record State : Type 0 where
  pub sys_call_table : ℕ → Handler
  pub page : Pte
  pub table : ℕ → Entry
  pub my_table_lock : Bool
  pub sys_call_table_lock : Bool
  pub orig_custom_syscall : Handler
  pub orig_exit_group : Handler

-- The kernel while a call runs: `pid_task` gives the owner of an existing process, `kmalloc` may
-- fail, and `current` is the calling process.
pub record Kernel : Type 0 where
  pub nr_syscalls : ℕ
  pub nr_exit_group : ℕ
  pub pid_task : ℕ → Option ℕ
  pub current_pid : ℕ
  pub current_uid : ℕ
  pub kmalloc_succeeds : Bool

pub data Command : Type 0 where
  syscall_intercept syscall_release start_monitoring stop_monitoring : Command

-- The requests by their numbers in interceptor.h.
unfoldable pub decode : ℤ → Option Command
decode (pos n) =
    if n == 1
    then some syscall_intercept
    else if n == 2
    then some syscall_release
    else if n == 3
    then some start_monitoring
    else if n == 4
    then some stop_monitoring
    else none
decode (negsuc n) = none

pub data Errno : Type 0 where
  einval eperm ebusy enomem : Errno
