-- ===== src/Interceptor/Module.antt =====
-- `init_function` and `exit_function` of A1/interceptor.c.
use csc369_uoft.Base.{ℕ, zero, suc, ◌+◌, ◌-◌, false, []}
use csc369_uoft.Interceptor.{my_syscall, my_exit_group, Kernel}
use csc369_uoft.Interceptor.Monad.{
  ok, M, pure, ◌>>=◌, ◌>>◌, load_entry, store_entry, load_call, store_call, set_addr_rw,
  set_addr_ro, lock_my_table, unlock_my_table, lock_call_table, unlock_call_table,
}
use csc369_uoft.Interceptor.PidList.{destroy_list}

-- `spin_lock_init` of both locks
unfoldable pub init_locks : M (Unit {0})
init_locks s = ok tt (record s { my_table_lock = false; sys_call_table_lock = false })

-- The loop over the metadata, with `n` rounds left.
unfoldable pub clear_table : Kernel → ℕ → ℕ → M (Unit {0})
unfolding load_entry store_entry
clear_table k zero index = pure tt
clear_table k (suc n) index = do
  e ← load_entry k index
  store_entry k index (record e { intercepted = 0; monitored = 0; listcount = 0; my_list = [] })
  clear_table k n (index + 1)

unfoldable pub hijack : Kernel → M (Unit {0})
unfolding load_call store_call set_addr_rw set_addr_ro lock_call_table unlock_call_table
hijack k = do
  lock_call_table
  set_addr_rw
  h ← load_call k 0
  λ s. ok tt (record s { orig_custom_syscall = h })
  store_call k 0 my_syscall
  h ← load_call k k.nr_exit_group
  λ s. ok tt (record s { orig_exit_group = h })
  store_call k k.nr_exit_group my_exit_group
  set_addr_ro
  unlock_call_table

unfoldable pub init_function : Kernel → M (Unit {0})
unfolding init_locks clear_table hijack lock_my_table unlock_my_table
init_function k = do
  init_locks
  hijack k
  lock_my_table
  clear_table k k.nr_syscalls 0
  unlock_my_table

-- The loop over the lists, from 1, with `n` rounds left.
unfoldable pub destroy_lists : Kernel → ℕ → ℕ → M (Unit {0})
unfolding destroy_list
destroy_lists k zero index = pure tt
destroy_lists k (suc n) index = do destroy_list k index; destroy_lists k n (index + 1)

unfoldable pub restore : Kernel → M (Unit {0})
unfolding load_call store_call set_addr_rw set_addr_ro lock_call_table unlock_call_table
restore k = do
  lock_call_table
  set_addr_rw
  h ← λ s. ok s.orig_custom_syscall s
  store_call k 0 h
  h ← λ s. ok s.orig_exit_group s
  store_call k k.nr_exit_group h
  set_addr_ro
  unlock_call_table

unfoldable pub exit_function : Kernel → M (Unit {0})
unfolding restore destroy_lists
exit_function k = do restore k; destroy_lists k (k.nr_syscalls - 1) 1
