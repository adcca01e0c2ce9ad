-- ===== src/Interceptor/PidList.antt =====
-- The list operations of A1/interceptor.c. A status is `none` for 0 and `some e` for -e.
use csc369_uoft.Base.{
  ℕ, zero, suc, ◌-◌, ◌+◌, Bool, true, false, ◌&&◌, Option, none, some, List, [], ◌∷◌, ◌==◌,
  if◌then◌else◌, contains,
}
use csc369_uoft.Interceptor.{Kernel, Errno, einval, enomem, Handler}
use csc369_uoft.Interceptor.Monad.{
  ok, fault, M, pure, ◌>>=◌, ◌>>◌, load_entry, store_entry, lock_my_table, unlock_my_table,
}

abbrev pub Status : Type 0
Status = Option Errno

unfoldable pub add_pid_sysc : Kernel → ℕ → ℕ → M Status
unfolding load_entry store_entry
add_pid_sysc k pid sysc =
    if k.kmalloc_succeeds
    then (do
      e ← load_entry k sysc
      store_entry k sysc (record e { my_list = pid ∷ e.my_list; listcount = e.listcount + 1 })
      pure none)
    else pure (some enomem)

-- The first node that holds `pid` is unlinked.
unfoldable pub unlink : ℕ → List ℕ → List ℕ
unlink pid [] = []
unlink pid (p ∷ ps) = if p == pid then ps else p ∷ unlink pid ps

-- `if (listcount == 0 && monitored == 1) monitored = 0`
abbrev pub stop_if_empty : ℕ → ℕ → ℕ
stop_if_empty listcount monitored = if (listcount == 0) && (monitored == 1) then 0 else monitored

unfoldable pub del_pid_sysc : Kernel → ℕ → ℕ → M Status
unfolding load_entry store_entry unlink
del_pid_sysc k pid sysc = do
  e ← load_entry k sysc
  if contains pid e.my_list
      then (do
        store_entry k sysc (record e {
          my_list = unlink pid e.my_list;
          listcount = e.listcount - 1;
          monitored = stop_if_empty (e.listcount - 1) e.monitored;
        })
        pure none)
      else pure (some einval)

-- `list_for_each_safe` over the nodes that are left: what stays in the list, and the fields.
pub record Purged : Type 0 where
  pub kept : List ℕ
  pub count : ℕ
  pub monitored : ℕ
  pub ispid : Bool

unfoldable pub purge : ℕ → List ℕ → ℕ → ℕ → Bool → Purged
purge pid [] c m ispid = record { kept = []; count = c; monitored = m; ispid = ispid }
purge pid (p ∷ ps) c m ispid =
    let rest =
      purge pid ps (if p == pid then c - 1 else c) (if p == pid then stop_if_empty (c - 1) m else m)
        (if p == pid then true else ispid) in
    if p == pid then rest else record rest { kept = p ∷ rest.kept }

-- The loop `for (s = 1; s < NR_syscalls; s++)` of `del_pid`, with `n` rounds left.
unfoldable pub del_pid_from : Kernel → ℕ → ℕ → ℕ → Bool → M Bool
unfolding load_entry store_entry purge
del_pid_from k pid zero sysc ispid = pure ispid
del_pid_from k pid (suc n) sysc ispid = do
  e ← load_entry k sysc
  let r = purge pid e.my_list e.listcount e.monitored ispid
  store_entry k sysc (record e { my_list = r.kept; listcount = r.count; monitored = r.monitored })
  del_pid_from k pid n (sysc + 1) r.ispid

-- `true` for 0, `false` for -1
unfoldable pub del_pid : Kernel → ℕ → M Bool
unfolding del_pid_from
del_pid k pid = del_pid_from k pid (k.nr_syscalls - 1) 1 false

unfoldable pub destroy_list : Kernel → ℕ → M (Unit {0})
unfolding load_entry store_entry
destroy_list k sysc = do
  e ← load_entry k sysc
  store_entry k sysc (record e { my_list = []; listcount = 0; monitored = 0 })

-- `true` for 0, `false` for -EPERM; a process that does not exist is a null pointer.
unfoldable pub check_pids_same_owner : Kernel → ℕ → ℕ → M Bool
check_pids_same_owner k pid1 pid2 s = elim (k.pid_task pid1) [
  | none ↦ fault
  | some uid1 ↦ elim (k.pid_task pid2) [ none ↦ fault | some uid2 ↦ ok (uid1 == uid2) s ]
]

unfoldable pub check_pid_monitored : Kernel → ℕ → ℕ → M Bool
unfolding load_entry
check_pid_monitored k sysc pid = do e ← load_entry k sysc; pure (contains pid e.my_list)

-- Also gives the call of the original `exit_group` that ends the function.
unfoldable pub my_exit_group : Kernel → M Handler
unfolding del_pid lock_my_table unlock_my_table
my_exit_group k = do
  lock_my_table
  found ← del_pid k k.current_pid
  unlock_my_table
  λ s. ok s.orig_exit_group s
