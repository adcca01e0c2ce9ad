-- ===== src/Paging/Rand.antt =====
-- A3/rand.c. The state of `random`, a function of the C library, is a parameter.
use csc369_uoft.Base.{ℕ, ◌%◌, Option, none, some, ltb, if◌then◌else◌}
use csc369_uoft.Paging.{Vm}
use csc369_uoft.Paging.Table.{Algorithm}

module _ {File : Type 0} (random : Vm File → ℕ) where
  -- `none` is the division by zero where there is no frame.
  unfoldable pub rand_evict : Vm File → Option (ℕ × Vm File)
  rand_evict s = if ltb 0 s.memsize then some (random s % s.memsize, s) else none

  -- `rand_ref`, which does nothing
  abbrev pub rand_ref : ℕ → Vm File → Option (Vm File)
  rand_ref p s = some s

  abbrev pub rand : Algorithm File
  rand = record { ref = rand_ref; evict = rand_evict }
