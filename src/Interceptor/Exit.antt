-- ===== src/Interceptor/Exit.antt =====
-- `my_exit_group` of A1/interceptor.c and the lists of processes.
use csc369_uoft.Base.{
  distinct, update, ℕ, ◌+◌, ◌≤◌, ◌<◌, ◌≡◌, ◌≢◌, Bool, true, false, List, contains, length,
}
use csc369_uoft.Interceptor.{Entry, State, Kernel}
use csc369_uoft.Interceptor.Monad.{ok}
use csc369_uoft.Interceptor.PidList.{Purged, purge, del_pid_from}
use csc369_uoft.Interceptor.Invariant.{EntryIsValid, IsValid}

record Consistent (l : List ℕ) (c m : ℕ) (r : Purged) : Type 0 where
  count : r.count + length l ≡ c + length r.kept
  distinct_pids : distinct r.kept ≡ true
  mode : r.monitored ≤ 2
  unmonitored : r.monitored ≡ 0 → r.count ≡ 0
  some_pids : r.monitored ≡ 1 → 0 < r.count

-- What `del_pid` does to one entry.
pub record IsPurged (pid : ℕ) (e e' : Entry) : Type 0 where
  pub valid : EntryIsValid e'
  pub gone : contains pid e'.my_list ≡ false
  pub others : (q : ℕ) → q ≢ pid → contains q e'.my_list ≡ contains q e.my_list
  pub same_flag : e'.intercepted ≡ e.intercepted
  pub same_f : e'.f ≡ e.f

abbrev purged : ℕ → Entry → Bool → Entry
purged pid e b =
    let r = purge pid e.my_list e.listcount e.monitored b in
    record e { my_list = r.kept; listcount = r.count; monitored = r.monitored }

-- The loop from `sysc`, with `n` rounds left, returns, and changes the entries that it passes.
record Swept (k : Kernel) (pid n sysc : ℕ) (b : Bool) (s : State) : Type 0 where
  ispid : Bool
  table : ℕ → Entry
  runs : del_pid_from k pid n sysc b s ≡ ok ispid (record s { table = table })
  below : (i : ℕ) → i < sysc → table i ≡ s.table i
  swept : (i : ℕ) → sysc ≤ i → i < sysc + n → IsPurged pid (s.table i) (table i)

abbrev after_round : ℕ → ℕ → Bool → State → State
after_round pid sysc b s = record s { table = update s.table sysc (purged pid (s.table sysc) b) }

abbrev found_in : ℕ → ℕ → Bool → State → Bool
found_in pid sysc b s =
    (purge pid (s.table sysc).my_list (s.table sysc).listcount (s.table sysc).monitored b).ispid

-- `my_exit_group` returns what was the kernel's own function, with the exiting process out of every
-- list, every other process where it was, and the tables in agreement.
pub record Left (k : Kernel) (s t : State) : Type 0 where
  pub valid : IsValid k t
  pub gone :
      (i : ℕ) → i < k.nr_syscalls → 0 < i → contains k.current_pid (t.table i).my_list ≡ false
  pub others :
      (i q : ℕ)
      → i < k.nr_syscalls
      → 0 < i
      → q ≢ k.current_pid
      → contains q (t.table i).my_list ≡ contains q (s.table i).my_list
