-- ===== src/Interceptor/Safety.antt =====
-- `my_syscall` of A1/interceptor.c as a whole, and the agreement of its tables.
use csc369_uoft.Base.{
  ℕ, zero, suc, ◌<◌, ◌≡◌, ◌≢◌, refl, true, arith, contains, Option, none, some, inl, inr,
  Bool-cases,
}
use csc369_uoft.Interceptor.{
  ℤ, pos, to_ℕ, State, Kernel, Command, syscall_intercept, syscall_release, start_monitoring,
  stop_monitoring, decode,
}
use csc369_uoft.Interceptor.Invariant.{IsValid, Keeps}
use csc369_uoft.Interceptor.Effects.{
  intercept_lem, release_lem, start_all, start_one, start_no_memory, stop_all, stop_one,
  with_entry-IsValid, with_metadata-IsValid,
}
use csc369_uoft.Interceptor.Entries.{added-EntryIsValid, removed-EntryIsValid, emptied-EntryIsValid}
use csc369_uoft.Interceptor.Checks.{
  Checks-bind, Allows, check_syscall-Checks, check_pid-Checks, check_permission-Checks,
  check_context-Checks,
}
use csc369_uoft.Interceptor.Syscall.{intercept, release, start, stop, perform, request, my_syscall}

module _ {k : Kernel} {s : State} (v : IsValid k s) (i : ℕ) (lt : i < k.nr_syscalls)
    (nz : 0 < i) where
  intercept-Keeps : Allows syscall_intercept 0 (s.table i) → Keeps k s (intercept k i s)
  intercept-Keeps free = rw (intercept_lem v i lt) (
      with_entry-IsValid v i lt _ _ (ground (arith, v.entries i lt))
        (ground (arith, v.hooks i lt nz, v.entries i lt)))

  release-Keeps : Allows syscall_release 0 (s.table i) → Keeps k s (release k i s)
  release-Keeps taken = rw (release_lem v i lt) (
      with_entry-IsValid v i lt _ _ (ground arith)
        (ground (arith, v.hooks i lt nz, v.entries i lt)))

  start-Keeps : (pid : ℕ) → Allows start_monitoring pid (s.table i) → Keeps k s (start k i pid s)
  start-Keeps zero free =
      rw (start_all v i lt)
        (with_metadata-IsValid v i lt _ (ground (arith, v.entries i lt)) refl refl)
  start-Keeps (suc p) free = elim (Bool-cases k.kmalloc_succeeds) [
    | inl room ↦ rw (start_one v i lt (suc p) (omega arith) room) (
        with_metadata-IsValid v i lt _ (added-EntryIsValid (suc p) (v.entries i lt) (ground arith))
          refl refl)
    | inr full ↦ rw (start_no_memory v i lt (suc p) (omega arith) full)
  ]

  stop-Keeps : (pid : ℕ) → Allows stop_monitoring pid (s.table i) → Keeps k s (stop k i pid s)
  stop-Keeps zero listed =
      rw (stop_all v i lt)
        (with_metadata-IsValid v i lt _ (emptied-EntryIsValid (v.entries i lt)) refl refl)
  stop-Keeps (suc p) listed =
      let found : contains (suc p) (s.table i).my_list ≡ true = ground arith in
      rw (stop_one v i lt (suc p) (omega arith) found) (
        with_metadata-IsValid v i lt _ (removed-EntryIsValid (suc p) (v.entries i lt) found) refl
          refl)

  pub perform-Keeps :
      (c : Command) (pid : ℕ) → Allows c pid (s.table i) → Keeps k s (perform k c i pid s)
  unfolding perform
  perform-Keeps syscall_intercept pid a = intercept-Keeps a
  perform-Keeps syscall_release pid a = release-Keeps a
  perform-Keeps start_monitoring pid a = start-Keeps pid a
  perform-Keeps stop_monitoring pid a = stop-Keeps pid a

request-Keeps :
    {k : Kernel} {s : State} {uid : ℕ} (c : Option Command) (syscall pid : ℤ)
    → k.pid_task k.current_pid ≡ some uid
    → syscall ≢ pos k.nr_syscalls
    → IsValid k s
    → Keeps k s (request k c syscall pid s)
unfolding request
request-Keeps none syscall pid here ne v = refl
request-Keeps {k} {s} (some c) syscall pid here ne v =
    Checks-bind k s _ _ (check_syscall-Checks k s syscall ne) λ inside.
      Checks-bind k s _ _ (check_pid-Checks k s c pid) λ known.
        Checks-bind k s _ _ (check_permission-Checks k s c (to_ℕ pid) here known) λ _.
          Checks-bind k s _ _ (check_context-Checks k s c (to_ℕ syscall) (to_ℕ pid) inside.1)
            λ allowed. perform-Keeps v (to_ℕ syscall) inside.1 inside.0 c (to_ℕ pid) allowed

-- Where the calling process exists, the tables are in agreement and the system call's number is
-- not NR_syscalls, `my_syscall` returns, whatever its arguments: without a fault, with the tables
-- in agreement if it returns 0, and with nothing changed if it returns an error.
pub my_syscall-Keeps :
    {k : Kernel} {s : State} {uid : ℕ} (cmd syscall pid : ℤ)
    → k.pid_task k.current_pid ≡ some uid
    → syscall ≢ pos k.nr_syscalls
    → IsValid k s
    → Keeps k s (my_syscall k cmd syscall pid s)
unfolding my_syscall
my_syscall-Keeps cmd syscall pid here ne v = request-Keeps (decode cmd) syscall pid here ne v
