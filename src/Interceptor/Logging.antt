-- ===== src/Interceptor/Logging.antt =====
-- Which processes `interceptor` logs, as successful requests change it.
use csc369_uoft.Base.{
  ℕ, ◌<◌, ◌≡◌, ◌≢◌, Bool, false, not, ◌&&◌, ◌||◌, arith, contains, ◌==◌, some, inl, inr, Bool-cases,
  sym, ◌∙◌,
}
use csc369_uoft.Interceptor.{
  pos, Handler, State, Kernel, Command, start_monitoring, stop_monitoring,
}
use csc369_uoft.Interceptor.Monad.{Run, ok, err, fault, M, bind_run}
use csc369_uoft.Interceptor.Invariant.{IsValid}
use csc369_uoft.Interceptor.Effects.{
  start_one, start_no_memory, stop_one, with_metadata, added, removed,
}
use csc369_uoft.Interceptor.Entries.{contains-unlink_ne, contains-unlink_self}
use csc369_uoft.Interceptor.Checks.{
  Checks, Allows, check_syscall-Checks, check_pid-Checks, check_permission-Checks,
  check_context-Checks,
}
use csc369_uoft.Interceptor.Syscall.{perform, request, my_syscall, intercepted_call}
use csc369_uoft.Interceptor.Behaviour.{code, decode-code}

Checks-inv :
    {P : Type 0} (s : State) (r : Run (Unit {0})) (f : Unit {0} → M (Unit {0})) {t : State}
    → Checks P s r
    → bind_run r f ≡ ok tt t
    → P × (f tt s ≡ ok tt t)
Checks-inv s (ok a u) f c e = (c.1, rw c.0 at e)
Checks-inv s (err x u) f c e = cc
Checks-inv s fault f c e = absurd c

-- A request that succeeds passed its checks, and did what its command does.
pub record Granted (k : Kernel) (s t : State) (c : Command) (i pid : ℕ) : Type 0 where
  pub positive : 0 < i
  pub inside : i < k.nr_syscalls
  pub allowed : Allows c pid (s.table i)
  pub done : perform k c i pid s ≡ ok tt t

-- For an existing calling process and a number other than NR_syscalls, a call of `my_syscall` that
-- returns 0 had a number in range, passed the check on what is intercepted and monitored already,
-- and did what its command does.
my_syscall-Granted :
    {k : Kernel} {s t : State} {uid : ℕ} (c : Command) (i pid : ℕ)
    → k.pid_task k.current_pid ≡ some uid
    → i ≢ k.nr_syscalls
    → my_syscall k (code c) (pos i) (pos pid) s ≡ ok tt t
    → Granted k s t c i pid
unfolding my_syscall request
my_syscall-Granted {k} {s} c i pid here ne e =
    let e' : request k (some c) (pos i) (pos pid) s ≡ ok _ _ = rw decode-code at e in
    let (inside, e1) = Checks-inv s _ _ (check_syscall-Checks k s (pos i) (ground arith)) e' in
    let (known, e2) = Checks-inv s _ _ (check_pid-Checks k s c (pos pid)) e1 in
    let (_, e3) = Checks-inv s _ _ (check_permission-Checks k s c pid here known) e2 in
    let (allowed, e4) = Checks-inv s _ _ (check_context-Checks k s c i pid inside.1) e3 in
    record { positive = inside.0; inside = inside.1; allowed = allowed; done = e4 }

-- Whether process `p` is logged when it makes system call `i` through `interceptor`.
abbrev pub log_of : Run (Bool × Handler) → Bool
log_of (ok a t) = a.0
log_of (err e t) = false
log_of fault = false

unfoldable pub logs : Kernel → State → ℕ → ℕ → Bool
unfolding intercepted_call
logs k s i p = log_of (intercepted_call (record k { current_pid = p }) i s)

logs_lem :
    (k : Kernel) (s : State) (i p : ℕ)
    → i < k.nr_syscalls
    → logs k s i p ≡ (
        (s.table i).intercepted == 1
        && (contains p (s.table i).my_list || (s.table i).monitored == 2))
unfolding logs
logs_lem k s i p lt = ground arith

ok-inj : {s t : State} → ok tt s ≡ ok tt t → s ≡ t
ok-inj e = cc

started :
    {k : Kernel} {s t : State} (v : IsValid k s) (i pid : ℕ)
    → pid ≢ 0
    → Granted k s t start_monitoring i pid
    → t ≡ with_metadata s i (added pid (s.table i))
unfolding perform
started {k} v i pid some_pid g = elim (Bool-cases k.kmalloc_succeeds) [
  | inl room ↦ ok-inj (sym g.done ∙ start_one v i g.inside pid some_pid room)
  | inr full ↦ cc (g.done, start_no_memory v i g.inside pid some_pid full)
]

stopped :
    {k : Kernel} {s t : State} (v : IsValid k s) (i pid : ℕ)
    → pid ≢ 0
    → Granted k s t stop_monitoring i pid
    → t ≡ with_metadata s i (removed pid (s.table i))
unfolding perform
stopped {k} v i pid some_pid g =
    ok-inj (sym g.done ∙ stop_one v i g.inside pid some_pid (ground (arith, g.allowed)))

module _ {k : Kernel} {s t : State} {uid : ℕ} (v : IsValid k s) (i : ℕ)
    (here : k.pid_task k.current_pid ≡ some uid) (ne : i ≢ k.nr_syscalls)
    (taken : (s.table i).intercepted ≡ 1) where
  -- For a call that is intercepted, with the tables in agreement and an existing calling process,
  -- a start of monitoring for a process other than 0 that succeeds makes `interceptor` log that
  -- process, and changes nothing for any other.
  pub logs-start :
      (pid p : ℕ)
      → pid ≢ 0
      → my_syscall k (code start_monitoring) (pos i) (pos pid) s ≡ ok tt t
      → logs k t i p ≡ (pid == p || logs k s i p)
  unfolding logs perform
  logs-start pid p some_pid e =
      let g = my_syscall-Granted start_monitoring i pid here ne e in
      rw (started v i pid some_pid g, logs_lem k s i p g.inside, logs_lem k _ i p g.inside)
        (ground arith)

  -- For a call that is intercepted and does not monitor all processes, with the tables in
  -- agreement and an existing calling process, a stop of monitoring for a process other than 0
  -- that succeeds makes `interceptor` no longer log that process, and changes nothing for any
  -- other.
  pub logs-stop :
      (pid p : ℕ)
      → pid ≢ 0
      → my_syscall k (code stop_monitoring) (pos i) (pos pid) s ≡ ok tt t
      → (s.table i).monitored ≢ 2
      → logs k t i p ≡ (not (pid == p) && logs k s i p)
  unfolding logs perform
  logs-stop pid p some_pid e partial =
      let g = my_syscall-Granted stop_monitoring i pid here ne e in
      rw (stopped v i pid some_pid g, logs_lem k s i p g.inside, logs_lem k _ i p g.inside)
        (ground (
          arith,
          contains-unlink_ne pid p (s.table i).my_list,
          contains-unlink_self pid (s.table i).my_list,
          v.entries i g.inside,
        ))
