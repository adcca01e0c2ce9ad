-- ===== src/Interceptor/Lifecycle.antt =====
-- Loading and unloading the module.
use csc369_uoft.Base.{
  update, ℕ, zero, suc, ◌+◌, ◌-◌, ◌≤◌, ◌<◌, ◌≡◌, ◌≢◌, refl, true, false, [], arith,
}
use csc369_uoft.Interceptor.{
  pos, interceptor, my_syscall, my_exit_group, Entry, State, Kernel, Command, syscall_intercept,
  syscall_release, start_monitoring, stop_monitoring,
}
use csc369_uoft.Interceptor.Monad.{Run, ok, fault}
use csc369_uoft.Interceptor.Module.{
  init_function, hijack, clear_table, exit_function, restore, destroy_lists,
}
use csc369_uoft.Interceptor.Invariant.{IsValid}
use csc369_uoft.Interceptor.Effects.{emptied}
use csc369_uoft.Interceptor.Syscall.{
  my_syscall as syscall, check_syscall, check_pid, check_permission, check_context,
}
use csc369_uoft.Interceptor.Behaviour.{code}

abbrev cleared : Entry → Entry
cleared e = record e { intercepted = 0; monitored = 0; listcount = 0; my_list = [] }

-- A loop over entries that returns: what it leaves in the table.
record Looped (n index : ℕ) (change : Entry → Entry) (s : State) (r : Run (Unit {0})) : Type 0 where
  table : ℕ → Entry
  runs : r ≡ ok tt (record s { table = table })
  changed : (i : ℕ) → index ≤ i → i < index + n → table i ≡ change (s.table i)
  outside : (i : ℕ) → i < index → table i ≡ s.table i

clear_table-Looped :
    (k : Kernel) (n index : ℕ) (s : State)
    → index + n ≤ k.nr_syscalls
    → Looped n index cleared s (clear_table k n index s)
unfolding clear_table
clear_table-Looped k zero index s fits = record {
  table = s.table;
  runs = refl;
  changed = λ i le lt. absurd (omega arith);
  outside = λ i lt. refl;
}
clear_table-Looped k (suc n) index s fits =
    let rest =
      clear_table-Looped k n (index + 1)
        (record s { table = update s.table index (cleared (s.table index)) }) (omega arith) in
    record {
      table = rest.table;
      runs = ground (arith, rest.runs);
      changed = λ i le lt. ground (arith, rest.changed i, rest.outside i);
      outside = λ i lt. ground (arith, rest.outside i);
    }

destroy_lists-Looped :
    (k : Kernel) (n index : ℕ) (s : State)
    → index + n ≤ k.nr_syscalls
    → Looped n index emptied s (destroy_lists k n index s)
unfolding destroy_lists
destroy_lists-Looped k zero index s fits = record {
  table = s.table;
  runs = refl;
  changed = λ i le lt. absurd (omega arith);
  outside = λ i lt. refl;
}
destroy_lists-Looped k (suc n) index s fits =
    let rest =
      destroy_lists-Looped k n (index + 1)
        (record s { table = update s.table index (emptied (s.table index)) }) (omega arith) in
    record {
      table = rest.table;
      runs = ground (arith, rest.runs);
      changed = λ i le lt. ground (arith, rest.changed i, rest.outside i);
      outside = λ i lt. ground (arith, rest.outside i);
    }

-- The state after the first half of `init_function`.
abbrev hijacked : Kernel → State → State
hijacked k s = record s {
  sys_call_table = update (update s.sys_call_table 0 my_syscall) k.nr_exit_group my_exit_group;
  page = record { rw = false; others = s.page.others };
  my_table_lock = false;
  sys_call_table_lock = false;
  orig_custom_syscall = s.sys_call_table 0;
  orig_exit_group = s.sys_call_table k.nr_exit_group;
}

hijack_lem :
    (k : Kernel) (s : State)
    → 0 < k.nr_exit_group
    → k.nr_exit_group < k.nr_syscalls
    → s.page.others ≢ 0
    → hijack k (record s { my_table_lock = false; sys_call_table_lock = false })
      ≡ ok tt (hijacked k s)
unfolding hijack
hijack_lem k s exit_group lt present = ground arith

-- The kernel before the module is loaded.
pub record IsStock (k : Kernel) (s : State) : Type 0 where
  pub exit_group : 0 < k.nr_exit_group
  pub inside : k.nr_exit_group < k.nr_syscalls
  pub present : s.page.others ≢ 0
  pub own : (i : ℕ) → s.sys_call_table i ≢ interceptor

-- What is true after `init_function`: the tables are in agreement, and two calls are replaced.
pub record Loaded (k : Kernel) (s t : State) : Type 0 where
  pub valid : IsValid k t
  pub custom : t.sys_call_table 0 ≡ my_syscall
  pub exit_group : t.sys_call_table k.nr_exit_group ≡ my_exit_group
  pub saved_custom : t.orig_custom_syscall ≡ s.sys_call_table 0
  pub saved_exit_group : t.orig_exit_group ≡ s.sys_call_table k.nr_exit_group
  pub others : (i : ℕ) → 0 < i → i ≢ k.nr_exit_group → t.sys_call_table i ≡ s.sys_call_table i

hijacked-Loaded :
    {k : Kernel} {s : State} {r : Run (Unit {0})}
    → IsStock k s
    → (w : Looped k.nr_syscalls 0 cleared (record (hijacked k s) { my_table_lock = true }) r)
    → Loaded k s (record (hijacked k s) { table = w.table })
hijacked-Loaded stock w = record {
  valid = record {
    free_table = refl;
    free_calls = refl;
    read_only = refl;
    present = stock.present;
    entries = λ i lt. rw (w.changed i (omega arith) (omega arith)) (ground arith);
    hooks = λ i lt nz. rw (w.changed i (omega arith) (omega arith)) (ground (arith, stock.own i));
  };
  custom = ground (arith, stock.exit_group);
  exit_group = ground arith;
  saved_custom = refl;
  saved_exit_group = refl;
  others = λ i nz ne. ground arith;
}

-- On a kernel with none of its calls replaced, `init_function` returns 0 with the tables in
-- agreement, the custom call and `exit_group` replaced and saved, and the other calls as they
-- were.
pub init_function-Loaded :
    {k : Kernel} {s : State}
    → IsStock k s
    → (t : State) × (init_function k s ≡ ok tt t) × Loaded k s t
unfolding init_function
init_function-Loaded {k} {s} stock = (
  record (hijacked k s) { table = w.table },
  ground (arith, hijack_lem k s stock.exit_group stock.inside stock.present, w.runs),
  hijacked-Loaded stock w,
)
  where
    w :
        Looped k.nr_syscalls 0 cleared
          (record (hijacked k s) { my_table_lock = true })
          (clear_table k k.nr_syscalls 0 (record (hijacked k s) { my_table_lock = true }))
    w =
        clear_table-Looped k k.nr_syscalls 0 (record (hijacked k s) { my_table_lock = true })
          (omega arith)

-- The state after the first half of `exit_function`.
abbrev restored : Kernel → State → State
restored k s = record s {
  sys_call_table =
      update (update s.sys_call_table 0 s.orig_custom_syscall) k.nr_exit_group s.orig_exit_group;
  page = record { rw = false; others = s.page.others };
}

restore_lem :
    {k : Kernel} {s : State}
    → IsValid k s
    → k.nr_exit_group < k.nr_syscalls
    → restore k s ≡ ok tt (restored k s)
unfolding restore
restore_lem v lt = ground (arith, v.free_calls, v.present)

-- What is true after `exit_function`. An entry that was intercepted still points into the module, except that
-- of `exit_group`.
pub record Unloaded (k : Kernel) (s t : State) : Type 0 where
  pub custom : 0 < k.nr_exit_group → t.sys_call_table 0 ≡ s.orig_custom_syscall
  pub exit_group : t.sys_call_table k.nr_exit_group ≡ s.orig_exit_group
  pub lists : (i : ℕ) → 0 < i → i < k.nr_syscalls → (t.table i).my_list ≡ []
  pub still_hooked :
      (i : ℕ)
      → 0 < i
      → i < k.nr_syscalls
      → i ≢ k.nr_exit_group
      → (s.table i).intercepted ≡ 1
      → t.sys_call_table i ≡ interceptor

-- With the tables in agreement and the number of `exit_group` inside the table, `exit_function`
-- runs to its end without a fault. Then `exit_group` points to what was saved for it, and so does
-- the custom call where it is not that call, the lists of all calls but the custom one are empty,
-- but any other call that was intercepted still points to `interceptor`.
pub exit_function-Unloaded :
    {k : Kernel} {s : State}
    → IsValid k s
    → k.nr_exit_group < k.nr_syscalls
    → (t : State) × (exit_function k s ≡ ok tt t) × Unloaded k s t
unfolding exit_function
exit_function-Unloaded {k} {s} v lt = (
  record (restored k s) { table = w.table },
  ground (arith, restore_lem v lt, w.runs),
  record {
    custom = λ nz. ground arith;
    exit_group = ground arith;
    lists = λ i nz inside. rw (w.changed i nz (omega arith));
    still_hooked = λ i nz inside ne on. ground (arith, (v.hooks i inside nz).hooked on);
  },
)
  where
    w :
        Looped
          (k.nr_syscalls - 1)
          1
          emptied
          (restored k s)
          (destroy_lists k (k.nr_syscalls - 1) 1 (restored k s))
    w = destroy_lists-Looped k (k.nr_syscalls - 1) 1 (restored k s) (omega arith)

-- Where there is at least one system call, a request by root for process 0 and for the number
-- NR_syscalls passes the check of the number and is an access past the end of the table.
pub my_syscall_past_end :
    (k : Kernel) (s : State) (c : Command)
    → k.current_uid ≡ 0
    → 0 < k.nr_syscalls
    → syscall k (code c) (pos k.nr_syscalls) (pos 0) s ≡ fault
unfolding syscall check_syscall check_pid check_permission check_context
my_syscall_past_end k s syscall_intercept root some_calls = ground arith
my_syscall_past_end k s syscall_release root some_calls = ground arith
my_syscall_past_end k s start_monitoring root some_calls = ground arith
my_syscall_past_end k s stop_monitoring root some_calls = ground arith
