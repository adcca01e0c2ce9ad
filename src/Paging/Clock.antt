-- ===== src/Paging/Clock.antt =====
-- A3/clock.c: the victim is the first frame of the circle whose page has its reference bit clear.
pub mod Victim
use csc369_uoft.Base.{
  ℕ, zero, suc, ◌+◌, ◌-◌, ◌≤◌, ◌<◌, ◌≡◌, ◌≢◌, refl, Bool, true, false, Option, none, some, ltb,
  ◌==◌, if◌then◌else◌, update, arith,
}
use csc369_uoft.Paging.{Pte, Frame, Vm}
use csc369_uoft.Paging.Flags.{Flag, pg_ref, has, add, remove}
use csc369_uoft.Paging.Table.{Algorithm, set_frame}

-- The frame after frame `i`.
abbrev pub next_index : (memsize : ℕ) → ℕ → ℕ
next_index memsize i = if i + 1 == memsize then 0 else i + 1

module _ {File : Type 0} where
  unfoldable pub clock_init : Vm File → Vm File
  clock_init s = record s { clock_current_index = 0 }

  -- The loop of `clock_evict` with `n` rounds left. `none` is an access out of range, a null pointer,
  -- or a loop that is not at its end.
  unfoldable pub clock_from : ℕ → Vm File → Option (ℕ × Vm File)
  clock_from zero s = none
  clock_from (suc n) s =
      if ltb s.clock_current_index s.memsize
      then (elim (s.coremap s.clock_current_index).pte [
        | none ↦ none
        | some v ↦
            let w = (s.pgtbl v).frame in
            let u = record s { clock_current_index = next_index s.memsize s.clock_current_index } in
            let rest = clock_from n (set_frame v (remove pg_ref w) u) in
            if has pg_ref w
            then rest
            else some (s.clock_current_index, set_frame v (add pg_ref w) u)
      ])
      else none

  -- One round for each frame, and one more for the first.
  unfoldable pub clock_evict : Vm File → Option (ℕ × Vm File)
  clock_evict s = clock_from (suc s.memsize) s

  -- `clock_ref`, which does nothing
  abbrev pub clock_ref : ℕ → Vm File → Option (Vm File)
  clock_ref p s = some s

  abbrev pub clock : Algorithm File
  clock = record { ref = clock_ref; evict = clock_evict }
