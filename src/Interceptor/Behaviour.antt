-- ===== src/Interceptor/Behaviour.antt =====
-- What `my_syscall` and `interceptor` do together: permissions, interception and its undoing, logging.
use csc369_uoft.Base.{
  update, ℕ, ◌<◌, ◌≡◌, ◌≢◌, refl, true, false, arith, ◌==◌, if◌then◌else◌, some, ◌⊎◌,
}
use csc369_uoft.Interceptor.{
  ℤ, pos, negsuc, interceptor, State, Kernel, Command, syscall_intercept, syscall_release,
  start_monitoring, stop_monitoring, decode, einval, eperm, ebusy,
}
use csc369_uoft.Interceptor.Monad.{ok, err, ◌>>◌}
use csc369_uoft.Interceptor.Invariant.{IsValid}
use csc369_uoft.Interceptor.Effects.{
  intercept_lem, release_lem, with_entry, emptied, with_entry-IsValid,
}
use csc369_uoft.Interceptor.Syscall.{
  check_syscall, check_pid, check_permission, check_context, perform, my_syscall, is_monitoring,
}

-- The number of a command in interceptor.h.
abbrev pub code : Command → ℤ
code syscall_intercept = pos 1
code syscall_release = pos 2
code start_monitoring = pos 3
code stop_monitoring = pos 4

pub decode-code : (c : Command) → decode (code c) ≡ some c
unfolding decode
decode-code syscall_intercept = refl
decode-code syscall_release = refl
decode-code start_monitoring = refl
decode-code stop_monitoring = refl

-- Any other number is no command.
pub decode-inv : (n : ℤ) (c : Command) → decode n ≡ some c → n ≡ code c
unfolding decode
decode-inv (pos n) syscall_intercept h = ground arith
decode-inv (pos n) syscall_release h = ground arith
decode-inv (pos n) start_monitoring h = ground arith
decode-inv (pos n) stop_monitoring h = ground arith
decode-inv (negsuc n) c h = cc

module _ (k : Kernel) (s : State) (i : ℕ) (inside : i < k.nr_syscalls) (nz : 0 < i) where
  -- For a system call's number in range, whatever the state, a user other than root who asks to
  -- intercept or to release gets EPERM, and nothing changes.
  not_root_denied :
      (c : Command) (pid : ℤ)
      → is_monitoring c ≡ false
      → k.current_uid ≢ 0
      → my_syscall k (code c) (pos i) pid s ≡ err eperm s
  unfolding my_syscall check_syscall check_pid check_permission
  not_root_denied syscall_intercept pid m other = ground arith
  not_root_denied syscall_release pid m other = ground arith
  not_root_denied start_monitoring pid m other = cc
  not_root_denied stop_monitoring pid m other = cc

  -- For a system call's number in range, whatever the state, a user other than root who asks to
  -- start or stop monitoring all processes, or an existing process of another owner, gets EPERM,
  -- and nothing changes.
  not_owner_denied :
      (c : Command) (pid : ℕ) {mine : ℕ}
      → is_monitoring c ≡ true
      → k.current_uid ≢ 0
      → k.pid_task k.current_pid ≡ some mine
      → (pid ≡ 0) ⊎ ((owner : ℕ) × (k.pid_task pid ≡ some owner) × (mine ≢ owner))
      → my_syscall k (code c) (pos i) (pos pid) s ≡ err eperm s
  unfolding my_syscall check_syscall check_pid check_permission
  not_owner_denied start_monitoring pid m other here foreign = ground arith
  not_owner_denied stop_monitoring pid m other here foreign = ground arith
  not_owner_denied syscall_intercept pid m other here foreign = cc
  not_owner_denied syscall_release pid m other here foreign = cc

module _ {k : Kernel} {s : State} (v : IsValid k s) (i : ℕ) (inside : i < k.nr_syscalls)
    (nz : 0 < i) (root : k.current_uid ≡ 0) where
  -- With the tables in agreement and a number in range, root's request to intercept gets EBUSY if
  -- the call is intercepted already; else it saves the kernel's function, puts `interceptor` in
  -- its place, and changes nothing else.
  pub my_syscall-intercept :
      (pid : ℤ)
      → my_syscall k (pos 1) (pos i) pid s ≡ (
          if (s.table i).intercepted == 1
          then err ebusy s
          else ok tt (
              with_entry s i
                (record (s.table i) { f = s.sys_call_table i; intercepted = 1 })
                interceptor))
  unfolding my_syscall check_syscall check_pid check_permission check_context perform
  my_syscall-intercept pid = ground (arith, intercept_lem v i inside)

  -- With the tables in agreement and a number in range, root's request to release gets EINVAL if
  -- the call is not intercepted; else it puts the saved function back, empties the list of
  -- processes, and changes nothing else.
  my_syscall-release :
      (pid : ℤ)
      → my_syscall k (pos 2) (pos i) pid s ≡ (
          if (s.table i).intercepted == 0
          then err einval s
          else ok tt
              (with_entry s i (emptied (record (s.table i) { intercepted = 0 })) (s.table i).f))
  unfolding my_syscall check_syscall check_pid check_permission check_context perform
  my_syscall-release pid = ground (arith, release_lem v i inside)

module _ {k : Kernel} {s : State} (v : IsValid k s) (i : ℕ) (inside : i < k.nr_syscalls)
    (nz : 0 < i) (root : k.current_uid ≡ 0) where
  intercepted-IsValid :
      (s.table i).intercepted ≡ 0
      → IsValid k (
          with_entry s i
            (record (s.table i) { f = s.sys_call_table i; intercepted = 1 })
            interceptor)
  intercepted-IsValid free =
      with_entry-IsValid v i inside _ _ (ground (arith, v.entries i inside))
        (ground (arith, v.hooks i inside nz, v.entries i inside))

  -- With the tables in agreement and a number in range, where the call is not intercepted, root's
  -- intercept and release after each other leave the kernel's table as it was, and of the metadata
  -- an empty list and the saved function.
  intercept_release :
      (pid pid' : ℤ)
      → (s.table i).intercepted ≡ 0
      → (my_syscall k (pos 1) (pos i) pid >> my_syscall k (pos 2) (pos i) pid') s
        ≡ ok tt (record s {
          table =
              update s.table i
                (emptied (record (s.table i) { f = s.sys_call_table i; intercepted = 0 }));
        })
  intercept_release pid pid' free =
      rw
        (
          my_syscall-intercept v i inside nz root pid,
          free,
          my_syscall-release (intercepted-IsValid free) i inside nz root pid',
        )
        (ground (arith, v.free_table, v.free_calls, v.read_only))
