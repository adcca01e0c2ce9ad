-- ===== src/Interceptor/Monad.antt =====
-- Kernel code as state passing: `throw` is an early return of an error number, and a fault is an
-- access out of range, a null pointer, a write to a read-only page or a lock taken twice.
use csc369_uoft.Base.{update, ℕ, Bool, true, false, ltb, ◌==◌, if◌then◌else◌}
use csc369_uoft.Interceptor.{Handler, Entry, State, Kernel, Errno}

pub data Run (A : Type 0) : Type 0 where
  ok : A → State → Run A
  err : Errno → State → Run A
  fault : Run A

abbrev pub M : Type 0 → Type 0
M A = State → Run A

abbrev pub pure : {A : Type 0} → A → M A
pure a s = ok a s

abbrev pub throw : {A : Type 0} → Errno → M A
throw e s = err e s

abbrev pub bind_run : {A B : Type 0} → Run A → (A → M B) → Run B
bind_run (ok a s) f = f a s
bind_run (err e s) f = err e s
bind_run fault f = fault

infixl 5 ◌>>=◌ ◌>>◌
abbrev pub ◌>>=◌ : {A B : Type 0} → M A → (A → M B) → M B
◌>>=◌ m f s = bind_run (m s) f

abbrev pub ◌>>◌ : {B : Type 0} → M (Unit {0}) → M B → M B
m >> k = m >>= λ _. k

-- `if (b) return -e;`
abbrev pub throw_if : Bool → Errno → M (Unit {0})
throw_if true e = throw e
throw_if false e = pure tt

-- Both tables have `NR_syscalls` entries.
unfoldable pub load_entry : Kernel → ℕ → M Entry
load_entry k i s = if ltb i k.nr_syscalls then ok (s.table i) s else fault

unfoldable pub store_entry : Kernel → ℕ → Entry → M (Unit {0})
store_entry k i e s =
    if ltb i k.nr_syscalls then ok tt (record s { table = update s.table i e }) else fault

unfoldable pub load_call : Kernel → ℕ → M Handler
load_call k i s = if ltb i k.nr_syscalls then ok (s.sys_call_table i) s else fault

unfoldable pub store_call : Kernel → ℕ → Handler → M (Unit {0})
store_call k i h s =
    if ltb i k.nr_syscalls
    then if s.page.rw
      then ok tt (record s { sys_call_table = update s.sys_call_table i h })
      else fault
    else fault

-- `set_addr_rw` tests the bits other than `_PAGE_RW`.
unfoldable pub set_addr_rw : M (Unit {0})
set_addr_rw s = ok tt (
    if s.page.others == 0
    then s
    else record s { page = record { rw = true; others = s.page.others } })

unfoldable pub set_addr_ro : M (Unit {0})
set_addr_ro s = ok tt (record s { page = record { rw = false; others = s.page.others } })

-- A spinlock taken by its own holder never comes free.
unfoldable pub lock_my_table : M (Unit {0})
lock_my_table s = if s.my_table_lock then fault else ok tt (record s { my_table_lock = true })

unfoldable pub unlock_my_table : M (Unit {0})
unlock_my_table s = ok tt (record s { my_table_lock = false })

unfoldable pub lock_call_table : M (Unit {0})
lock_call_table s =
    if s.sys_call_table_lock then fault else ok tt (record s { sys_call_table_lock = true })

unfoldable pub unlock_call_table : M (Unit {0})
unlock_call_table s = ok tt (record s { sys_call_table_lock = false })
