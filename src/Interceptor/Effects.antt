-- ===== src/Interceptor/Effects.antt =====
-- What each request of `my_syscall` does to a valid state.
use csc369_uoft.Base.{
  update, ℕ, ◌+◌, ◌-◌, ◌<◌, ◌≡◌, ◌≢◌, refl, true, false, [], ◌∷◌, arith, contains, ◌==◌,
  if◌then◌else◌, Bool-cases, inl, inr,
}
use csc369_uoft.Interceptor.{Handler, interceptor, Entry, State, Kernel, enomem}
use csc369_uoft.Interceptor.Monad.{ok, err}
use csc369_uoft.Interceptor.Invariant.{EntryIsValid, IsHooked, IsValid}
use csc369_uoft.Interceptor.PidList.{unlink, stop_if_empty}
use csc369_uoft.Interceptor.Syscall.{intercept, release, start, stop}

-- The entry after a process was added to the list or taken from it.
abbrev pub added : ℕ → Entry → Entry
added pid e = record e {
  my_list = pid ∷ e.my_list;
  listcount = e.listcount + 1;
  monitored = if e.monitored == 0 then 1 else e.monitored;
}

abbrev pub removed : ℕ → Entry → Entry
removed pid e = record e {
  my_list = unlink pid e.my_list;
  listcount = e.listcount - 1;
  monitored = stop_if_empty (e.listcount - 1) e.monitored;
}

abbrev pub emptied : Entry → Entry
emptied e = record e { my_list = []; listcount = 0; monitored = 0 }

-- The state with entry `i` replaced.
abbrev pub with_metadata : State → ℕ → Entry → State
with_metadata s i e = record s { table = update s.table i e; my_table_lock = false }

-- The state with entry `i` and pointer `i` replaced.
abbrev pub with_entry : State → ℕ → Entry → Handler → State
with_entry s i e h = record s {
  table = update s.table i e;
  sys_call_table = update s.sys_call_table i h;
  page = record { rw = false; others = s.page.others };
  my_table_lock = false;
  sys_call_table_lock = false;
}

module _ {k : Kernel} {s : State} (v : IsValid k s) (i : ℕ) (inside : i < k.nr_syscalls) where
  open v use {free_table, free_calls, read_only, present}

  pub with_entry-IsValid :
      (e : Entry) (h : Handler) → EntryIsValid e → IsHooked e h → IsValid k (with_entry s i e h)
  with_entry-IsValid e h ve vh = record {
    free_table = refl;
    free_calls = refl;
    read_only = refl;
    present = present;
    entries = λ j lt. elim (Bool-cases (i == j)) [
      | inl same ↦ rw same ve
      | inr other ↦ rw other (v.entries j lt)
    ];
    hooks = λ j lt pos. elim (Bool-cases (i == j)) [
      | inl same ↦ rw same vh
      | inr other ↦ rw other (v.hooks j lt pos)
    ];
  }

  pub with_metadata-IsValid :
      (e : Entry)
      → EntryIsValid e
      → e.intercepted ≡ (s.table i).intercepted
      → e.f ≡ (s.table i).f
      → IsValid k (with_metadata s i e)
  with_metadata-IsValid e ve same_flag same_f = record {
    free_table = refl;
    free_calls = free_calls;
    read_only = read_only;
    present = present;
    entries = λ j lt. elim (Bool-cases (i == j)) [
      | inl same ↦ rw same ve
      | inr other ↦ rw other (v.entries j lt)
    ];
    hooks = λ j lt pos. elim (Bool-cases (i == j)) [
      | inl same ↦ rw same (ground (arith, v.hooks j lt pos))
      | inr other ↦ rw other (v.hooks j lt pos)
    ];
  }

  pub intercept_lem :
      intercept k i s
      ≡ ok tt (
          with_entry s i
            (record (s.table i) { f = s.sys_call_table i; intercepted = 1 })
            interceptor)
  unfolding intercept
  intercept_lem = ground arith

  pub release_lem :
      release k i s
      ≡ ok tt (
          with_entry s i
            (record (s.table i) { intercepted = 0; my_list = []; listcount = 0; monitored = 0 })
            (s.table i).f)
  unfolding release
  release_lem = ground arith

  pub start_all : start k i 0 s ≡ ok tt (with_metadata s i (record (s.table i) { monitored = 2 }))
  unfolding start
  start_all = ground arith

  pub start_one :
      (pid : ℕ)
      → pid ≢ 0
      → k.kmalloc_succeeds ≡ true
      → start k i pid s ≡ ok tt (with_metadata s i (added pid (s.table i)))
  unfolding start
  start_one pid ne room = ground arith

  pub start_no_memory :
      (pid : ℕ) → pid ≢ 0 → k.kmalloc_succeeds ≡ false → start k i pid s ≡ err enomem s
  unfolding start
  start_no_memory pid ne full = ground arith

  pub stop_all : stop k i 0 s ≡ ok tt (with_metadata s i (emptied (s.table i)))
  unfolding stop
  stop_all = ground arith

  pub stop_one :
      (pid : ℕ)
      → pid ≢ 0
      → contains pid (s.table i).my_list ≡ true
      → stop k i pid s ≡ ok tt (with_metadata s i (removed pid (s.table i)))
  unfolding stop
  stop_one pid ne listed = ground arith
