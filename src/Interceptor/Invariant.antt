-- ===== src/Interceptor/Invariant.antt =====
-- What A1/interceptor.c keeps true of its tables between two system calls.
use csc369_uoft.Base.{distinct, ℕ, ◌≤◌, ◌<◌, ◌≡◌, ◌≢◌, true, false, length}
use csc369_uoft.Interceptor.{Handler, interceptor, Entry, State, Kernel}
use csc369_uoft.Interceptor.Monad.{Run, ok, err, fault}

-- The fields of an entry agree.
pub record EntryIsValid (e : Entry) : Type 0 where
  pub count : e.listcount ≡ length e.my_list
  pub distinct_pids : distinct e.my_list ≡ true
  pub flag : e.intercepted ≤ 1
  pub mode : e.monitored ≤ 2
  pub unmonitored : e.monitored ≡ 0 → e.listcount ≡ 0
  pub some_pids : e.monitored ≡ 1 → 0 < e.listcount

-- An entry and the kernel's pointer for the same number agree.
pub record IsHooked (e : Entry) (h : Handler) : Type 0 where
  pub hooked : e.intercepted ≡ 1 → h ≡ interceptor
  pub saved : e.intercepted ≡ 1 → e.f ≢ interceptor
  pub unhooked : e.intercepted ≡ 0 → h ≢ interceptor

pub record IsValid (k : Kernel) (s : State) : Type 0 where
  pub free_table : s.my_table_lock ≡ false
  pub free_calls : s.sys_call_table_lock ≡ false
  pub read_only : s.page.rw ≡ false
  pub present : s.page.others ≢ 0
  pub entries : (i : ℕ) → i < k.nr_syscalls → EntryIsValid (s.table i)
  pub hooks : (i : ℕ) → i < k.nr_syscalls → 0 < i → IsHooked (s.table i) (s.sys_call_table i)

-- A call returns, keeps the invariant if it succeeds, and changes nothing if it fails.
abbrev pub Keeps : Kernel → State → Run (Unit {0}) → Type 0
Keeps k s (ok a t) = IsValid k t
Keeps k s (err e t) = t ≡ s
Keeps k s fault = ⊥
