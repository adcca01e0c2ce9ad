-- ===== src/Interceptor/Tests.antt =====
-- Runs of the model of A1/interceptor.c on a small call table.
use csc369_uoft.Base.{
  ℕ, ◌≡◌, refl, true, false, [], ◌∷◌, some, arith, Bool-cases, update, inl, inr, ◌==◌,
  if◌then◌else◌,
}
use csc369_uoft.Interceptor.{
  pos, kernel, interceptor, Entry, State, Kernel, syscall_intercept, start_monitoring,
  stop_monitoring, ebusy,
}
use csc369_uoft.Interceptor.Monad.{ok, err, fault}
use csc369_uoft.Interceptor.PidList
use csc369_uoft.Interceptor.PidList.{
  add_pid_sysc, del_pid_sysc, unlink, destroy_list, check_pids_same_owner, check_pid_monitored,
}
use csc369_uoft.Interceptor.Syscall
use csc369_uoft.Interceptor.Module
use csc369_uoft.Interceptor.Invariant.{IsValid, Keeps, EntryIsValid, IsHooked}
use csc369_uoft.Interceptor.Safety.{my_syscall-Keeps}
use csc369_uoft.Interceptor.Behaviour.{code, my_syscall-intercept}
use csc369_uoft.Interceptor.Logging.{logs, logs-start, logs-stop}
use csc369_uoft.Interceptor.Lifecycle.{
  IsStock, Loaded, init_function-Loaded, Unloaded, exit_function-Unloaded, my_syscall_past_end,
}

-- Four system calls, of which number 3 is `exit_group`. Process 7 calls, for root.
abbrev machine : Kernel
machine = record {
  nr_syscalls = 4;
  nr_exit_group = 3;
  pid_task = λ p. some (if p == 7 then 0 else 5);
  current_pid = 7;
  current_uid = 0;
  kmalloc_succeeds = true;
}

-- The same with user 6 calling.
abbrev guest : Kernel
guest = record machine { current_uid = 6 }

abbrev free_entry : Entry
free_entry = record { f = kernel 0; intercepted = 0; monitored = 0; listcount = 0; my_list = [] }

abbrev taken_entry : Entry
taken_entry = record {
  f = kernel 1;
  intercepted = 1;
  monitored = 1;
  listcount = 2;
  my_list = 7 ∷ 8 ∷ [];
}

-- Call 1 is intercepted, for processes 7 and 8.
abbrev loaded : State
loaded = record {
  sys_call_table = λ i. if i == 1 then interceptor else kernel i;
  page = record { rw = false; others = 1 };
  table = λ i. if i == 1 then taken_entry else free_entry;
  my_table_lock = false;
  sys_call_table_lock = false;
  orig_custom_syscall = kernel 0;
  orig_exit_group = kernel 3;
}

abbrev stock : State
stock = record loaded { sys_call_table = λ i. kernel i; table = λ i. free_entry }

entries_ok : (i : ℕ) → EntryIsValid (loaded.table i)
entries_ok i = elim (Bool-cases (i == 1)) [
  | inl e ↦ rw e record {
    count = refl;
    distinct_pids = refl;
    flag = omega arith;
    mode = omega arith;
    unmonitored = λ z. ground arith;
    some_pids = λ z. omega arith;
  }
  | inr e ↦ rw e record {
    count = refl;
    distinct_pids = refl;
    flag = omega arith;
    mode = omega arith;
    unmonitored = λ z. refl;
    some_pids = λ z. ground arith;
  }
]

hooks_ok : (i : ℕ) → IsHooked (loaded.table i) (loaded.sys_call_table i)
hooks_ok i = elim (Bool-cases (i == 1)) [
  | inl e ↦
      rw e
        record { hooked = λ z. refl; saved = λ z w. ground arith; unhooked = λ z w. ground arith }
  | inr e ↦ rw e record {
    hooked = λ z. ground arith;
    saved = λ z w. ground arith;
    unhooked = λ z w. ground arith;
  }
]

loaded-IsValid : (uid : ℕ) → IsValid (record machine { current_uid = uid }) loaded
loaded-IsValid uid = record {
  free_table = refl;
  free_calls = refl;
  read_only = refl;
  present = λ e. ground arith;
  entries = λ i h. entries_ok i;
  hooks = λ i h nz. hooks_ok i;
}

stock-IsStock : IsStock machine stock
stock-IsStock = record {
  exit_group = omega arith;
  inside = omega arith;
  present = λ e. ground arith;
  own = λ i e. ground arith;
}

my_syscall-Keeps_example :
    Keeps machine loaded (Syscall.my_syscall machine (pos 3) (pos 1) (pos 9) loaded)
my_syscall-Keeps_example =
    my_syscall-Keeps {k = machine} {s = loaded} {uid = 0} (pos 3) (pos 1) (pos 9) refl
      (λ e. ground arith) (loaded-IsValid 0)

my_syscall-intercept_example :
    Syscall.my_syscall machine (pos 1) (pos 1) (pos 0) loaded ≡ err ebusy loaded
my_syscall-intercept_example =
    my_syscall-intercept (loaded-IsValid 0) 1 (omega arith) (omega arith) refl (pos 0)

init_function-Loaded_example :
    (t : State) × (Module.init_function machine stock ≡ ok tt t) × Loaded machine stock t
init_function-Loaded_example = init_function-Loaded stock-IsStock

exit_function-Unloaded_example :
    (t : State) × (Module.exit_function machine loaded ≡ ok tt t) × Unloaded machine loaded t
exit_function-Unloaded_example = exit_function-Unloaded (loaded-IsValid 0) (omega arith)

my_syscall_past_end_example : Syscall.my_syscall machine (pos 1) (pos 4) (pos 0) loaded ≡ fault
my_syscall_past_end_example =
    my_syscall_past_end machine loaded syscall_intercept refl (omega arith)

-- After a start for process 9.
abbrev longer_entry : Entry
longer_entry = record taken_entry { listcount = 3; my_list = 9 ∷ 7 ∷ 8 ∷ [] }

abbrev started : State
started = record loaded { table = update (update loaded.table 1 longer_entry) 1 longer_entry }

start_run :
    Syscall.my_syscall machine (code start_monitoring) (pos 1) (pos 9) loaded ≡ ok tt started
unfolding Syscall.my_syscall Syscall.request Syscall.check_syscall Syscall.check_pid
    Syscall.check_permission Syscall.check_context Syscall.perform Syscall.start
start_run = refl

-- After a stop for process 7.
abbrev stopped : State
stopped = record loaded {
  table = update loaded.table 1 (record taken_entry { listcount = 1; my_list = 8 ∷ [] });
}

stop_run : Syscall.my_syscall machine (code stop_monitoring) (pos 1) (pos 7) loaded ≡ ok tt stopped
unfolding Syscall.my_syscall Syscall.request Syscall.check_syscall Syscall.check_pid
    Syscall.check_permission Syscall.check_context Syscall.perform Syscall.stop
stop_run = refl

logs-start_example : logs machine started 1 9 ≡ true
logs-start_example =
    logs-start {k = machine} {s = loaded} {t = started} {uid = 0} (loaded-IsValid 0) 1 refl
      (λ e. ground arith) refl 9 9 (λ e. ground arith) start_run

logs-stop_example : logs machine stopped 1 7 ≡ false
logs-stop_example =
    logs-stop {k = machine} {s = loaded} {t = stopped} {uid = 0} (loaded-IsValid 0) 1 refl
      (λ e. ground arith) refl 7 7 (λ e. ground arith) stop_run (λ e. ground arith)
