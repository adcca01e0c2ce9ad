-- ===== src/Interceptor/Checks.antt =====
-- What a request of `my_syscall` that passes its checks may assume.
use csc369_uoft.Base.{ℕ, ◌<◌, ◌≡◌, ◌≢◌, refl, true, false, arith, contains, some, ◌⊎◌}
use csc369_uoft.Interceptor.{
  ℤ, pos, negsuc, to_ℕ, Entry, State, Kernel, Command, syscall_intercept, syscall_release,
  start_monitoring, stop_monitoring,
}
use csc369_uoft.Interceptor.Monad.{Run, ok, err, fault, M, bind_run}
use csc369_uoft.Interceptor.Invariant.{Keeps}
use csc369_uoft.Interceptor.Syscall.{
  check_syscall, check_pid, check_permission, check_context, is_some,
}

-- A check leaves the state alone and does not fault; where it passes, `P` holds.
abbrev pub Checks : Type 0 → State → Run (Unit {0}) → Type 0
Checks P s (ok a t) = (t ≡ s) × P
Checks P s (err e t) = t ≡ s
Checks P s fault = ⊥

pub Checks-bind :
    (k : Kernel) {P : Type 0} (s : State) (r : Run (Unit {0})) (f : Unit {0} → M (Unit {0}))
    → Checks P s r
    → (P → Keeps k s (f tt s))
    → Keeps k s (bind_run r f)
Checks-bind k s (ok a t) f c next = rw c.0 (next c.1)
Checks-bind k s (err e t) f c next = c
Checks-bind k s fault f c next = c

-- The entry allows the command.
abbrev pub Allows : Command → ℕ → Entry → Type 0
Allows syscall_intercept pid e = e.intercepted ≢ 1
Allows syscall_release pid e = e.intercepted ≢ 0
Allows start_monitoring pid e = (pid ≡ 0) ⊎ (contains pid e.my_list ≡ false)
Allows stop_monitoring pid e = (pid ≡ 0) ⊎ (contains pid e.my_list ≡ true)

-- The process of a monitoring command exists, or all processes are meant.
abbrev pub IsKnown : Kernel → Command → ℕ → Type 0
IsKnown k syscall_intercept pid = Unit
IsKnown k syscall_release pid = Unit
IsKnown k start_monitoring pid = (pid ≡ 0) ⊎ (is_some (k.pid_task pid) ≡ true)
IsKnown k stop_monitoring pid = (pid ≡ 0) ⊎ (is_some (k.pid_task pid) ≡ true)

module _ (k : Kernel) (s : State) where
  pub check_syscall-Checks :
      (syscall : ℤ)
      → syscall ≢ pos k.nr_syscalls
      → Checks ((0 < to_ℕ syscall) × (to_ℕ syscall < k.nr_syscalls)) s (check_syscall k syscall s)
  unfolding check_syscall
  check_syscall-Checks (pos n) ne = ground arith
  check_syscall-Checks (negsuc n) ne = refl

  pub check_pid-Checks :
      (c : Command) (pid : ℤ) → Checks (IsKnown k c (to_ℕ pid)) s (check_pid k c pid s)
  unfolding check_pid
  check_pid-Checks syscall_intercept pid = (refl, tt)
  check_pid-Checks syscall_release pid = (refl, tt)
  check_pid-Checks start_monitoring (pos n) = ground arith
  check_pid-Checks start_monitoring (negsuc n) = refl
  check_pid-Checks stop_monitoring (pos n) = ground arith
  check_pid-Checks stop_monitoring (negsuc n) = refl

  pub check_permission-Checks :
      (c : Command) (pid : ℕ) {uid : ℕ}
      → k.pid_task k.current_pid ≡ some uid
      → IsKnown k c pid
      → Checks Unit s (check_permission k c pid s)
  unfolding check_permission is_some
  check_permission-Checks syscall_intercept pid here known = ground arith
  check_permission-Checks syscall_release pid here known = ground arith
  check_permission-Checks start_monitoring pid here known = ground arith
  check_permission-Checks stop_monitoring pid here known = ground arith

  pub check_context-Checks :
      (c : Command) (i pid : ℕ)
      → i < k.nr_syscalls
      → Checks (Allows c pid (s.table i)) s (check_context k c i pid s)
  unfolding check_context
  check_context-Checks syscall_intercept i pid lt = ground arith
  check_context-Checks syscall_release i pid lt = ground arith
  check_context-Checks start_monitoring i pid lt = ground arith
  check_context-Checks stop_monitoring i pid lt = ground arith
