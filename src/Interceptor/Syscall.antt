-- ===== src/Interceptor/Syscall.antt =====
-- `my_syscall` and `interceptor` of A1/interceptor.c.
use csc369_uoft.Base.{
  ℕ, Bool, true, false, not, ◌&&◌, ◌||◌, Option, none, some, ◌==◌, ltb, if◌then◌else◌,
}
use csc369_uoft.Interceptor.{
  ℤ, is_negative, to_ℕ, Handler, interceptor, Kernel, Command, syscall_intercept, syscall_release,
  start_monitoring, stop_monitoring, decode, einval, eperm, ebusy,
}
use csc369_uoft.Interceptor.Monad.{
  M, pure, throw, throw_if, ◌>>=◌, ◌>>◌, load_entry, store_entry, load_call, store_call,
  set_addr_rw, set_addr_ro, lock_my_table, unlock_my_table, lock_call_table, unlock_call_table,
}
use csc369_uoft.Interceptor.PidList.{
  Status, add_pid_sysc, del_pid_sysc, destroy_list, check_pids_same_owner, check_pid_monitored,
}

unfoldable pub is_some : Option ℕ → Bool
is_some none = false
is_some (some a) = true

-- The checks that read no table: the system call's number, then the process's.
unfoldable pub check_syscall : Kernel → ℤ → M (Unit {0})
check_syscall k syscall =
    throw_if (is_negative syscall || ltb k.nr_syscalls (to_ℕ syscall) || to_ℕ syscall == 0) einval

abbrev pub is_monitoring : Command → Bool
is_monitoring syscall_intercept = false
is_monitoring syscall_release = false
is_monitoring start_monitoring = true
is_monitoring stop_monitoring = true

unfoldable pub check_pid : Kernel → Command → ℤ → M (Unit {0})
unfolding is_some
check_pid k cmd pid =
    throw_if
      (is_monitoring cmd
        && (is_negative pid || (not (is_some (k.pid_task (to_ℕ pid))) && not (to_ℕ pid == 0))))
      einval

-- Root may do all; another user only monitor a process of its own.
unfoldable pub check_permission : Kernel → Command → ℕ → M (Unit {0})
unfolding check_pids_same_owner
check_permission k cmd pid =
    if k.current_uid == 0
    then pure tt
    else if is_monitoring cmd
    then if pid == 0
      then throw eperm
      else (do same ← check_pids_same_owner k k.current_pid pid; throw_if (not same) eperm)
    else throw eperm

-- The conditions on what is intercepted and monitored already.
unfoldable pub check_context : Kernel → Command → ℕ → ℕ → M (Unit {0})
unfolding load_entry check_pid_monitored
check_context k syscall_intercept sysc pid = do
  e ← load_entry k sysc
  throw_if (e.intercepted == 1) ebusy
check_context k syscall_release sysc pid = do
  e ← load_entry k sysc
  throw_if (e.intercepted == 0) einval
check_context k start_monitoring sysc pid = do
  e ← load_entry k sysc
  throw_if (pid == 0 && e.monitored == 2) ebusy
  found ← check_pid_monitored k sysc pid
  throw_if (found && not (pid == 0)) ebusy
check_context k stop_monitoring sysc pid = do
  found ← check_pid_monitored k sysc pid
  e ← load_entry k sysc
  throw_if ((not found && not (pid == 0)) || e.intercepted == 0) einval

unfoldable pub intercept : Kernel → ℕ → M (Unit {0})
unfolding load_entry store_entry load_call store_call set_addr_rw set_addr_ro lock_my_table
    unlock_my_table lock_call_table unlock_call_table
intercept k sysc = do
  lock_my_table
  h ← load_call k sysc
  e ← load_entry k sysc
  store_entry k sysc (record e { f = h; intercepted = 1 })
  unlock_my_table
  lock_call_table
  set_addr_rw
  store_call k sysc interceptor
  set_addr_ro
  unlock_call_table

unfoldable pub release : Kernel → ℕ → M (Unit {0})
unfolding load_entry store_entry load_call store_call set_addr_rw set_addr_ro lock_my_table
    unlock_my_table lock_call_table unlock_call_table destroy_list
release k sysc = do
  lock_call_table
  set_addr_rw
  e ← load_entry k sysc
  store_call k sysc e.f
  set_addr_ro
  unlock_call_table
  lock_my_table
  destroy_list k sysc
  e ← load_entry k sysc
  store_entry k sysc (record e { intercepted = 0 })
  unlock_my_table

-- A failure of a list operation is returned once the lock is given back.
unfoldable pub return_status : Status → M (Unit {0})
unfolding unlock_my_table
return_status none = unlock_my_table
return_status (some e) = unlock_my_table >> throw e

unfoldable pub start : Kernel → ℕ → ℕ → M (Unit {0})
unfolding load_entry store_entry lock_my_table unlock_my_table add_pid_sysc return_status
start k sysc pid = do
  lock_my_table
  if pid == 0
      then (do
        e ← load_entry k sysc
        store_entry k sysc (record e { monitored = 2 })
        unlock_my_table)
      else (do
        check ← add_pid_sysc k pid sysc
        elim check [
          | none ↦ do
            e ← load_entry k sysc
            store_entry k sysc (if e.monitored == 0 then record e { monitored = 1 } else e)
            unlock_my_table
          | some e ↦ return_status (some e)
        ])

unfoldable pub stop : Kernel → ℕ → ℕ → M (Unit {0})
unfolding destroy_list lock_my_table unlock_my_table del_pid_sysc return_status
stop k sysc pid = do
  lock_my_table
  if pid == 0
      then destroy_list k sysc >> unlock_my_table
      else (do check ← del_pid_sysc k pid sysc; return_status check)

unfoldable pub perform : Kernel → Command → ℕ → ℕ → M (Unit {0})
perform k syscall_intercept sysc pid = intercept k sysc
perform k syscall_release sysc pid = release k sysc
perform k start_monitoring sysc pid = start k sysc pid
perform k stop_monitoring sysc pid = stop k sysc pid

-- `my_syscall`; `ok` is the return of 0.
unfoldable pub request : Kernel → Option Command → ℤ → ℤ → M (Unit {0})
request k none syscall pid = throw einval
request k (some cmd) syscall pid = do
  check_syscall k syscall
  check_pid k cmd pid
  check_permission k cmd (to_ℕ pid)
  check_context k cmd (to_ℕ syscall) (to_ℕ pid)
  perform k cmd (to_ℕ syscall) (to_ℕ pid)

unfoldable pub my_syscall : Kernel → ℤ → ℤ → ℤ → M (Unit {0})
unfolding decode request
my_syscall k cmd syscall pid = request k (decode cmd) syscall pid

-- `interceptor` at the number in `reg.ax`: whether it logs a message, and what it then calls.
unfoldable pub intercepted_call : Kernel → ℕ → M (Bool × Handler)
unfolding load_entry check_pid_monitored
intercepted_call k ax = do
  e ← load_entry k ax
  found ← if e.intercepted == 1 then check_pid_monitored k ax k.current_pid else pure false
  pure (e.intercepted == 1 && (found || e.monitored == 2), e.f)
