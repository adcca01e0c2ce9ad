-- ===== src/Paging/Sim.antt =====
-- A3/sim.c: memory accesses and the replay of a trace.
pub mod Counts
pub mod Policies
use csc369_uoft.Base.{
  ℕ, zero, suc, ◌+◌, ◌*◌, ◌%◌, ◌^◌, ◌≡◌, refl, Bool, true, false, Option, none, some, List, [], ◌∷◌,
  ltb, ◌==◌, not, if◌then◌else◌, update, arith, length,
}
use csc369_uoft.Paging.{Page, FileOps, Vm}
use csc369_uoft.Paging.Table.{Algorithm, find_physpage}
use csc369_uoft.Paging.Opt.{Line, comment, reference}

module _ {File : Type 0} (io : FileOps File) (alg : Algorithm File) where
  -- Whether the page had the expected address, or else an error is printed, and the new state.
  unfoldable pub access_mem : (is_write : Bool) → ℕ → Vm File → Option (Bool × Vm File)
  access_mem is_write vaddr s = elim (find_physpage io alg vaddr is_write s) [
    | none ↦ none
    | some (frame, t) ↦
        let page = t.physmem frame in
        some (
          page.checkaddr == vaddr,
          if is_write
              then record t {
                physmem =
                    update t.physmem frame (record page { version = (page.version + 1) % 2 ^ 32 });
              }
              else t,
        )
  ]

  -- The number of errors printed, and the state at the end of the lines.
  unfoldable pub replay_trace : List Line → ℕ → Vm File → Option (ℕ × Vm File)
  replay_trace [] errors s = some (errors, s)
  replay_trace (comment ∷ lines) errors s = replay_trace lines errors s
  replay_trace (reference is_write vaddr ∷ lines) errors s = elim (access_mem is_write vaddr s) [
    | none ↦ none
    | some (ok, t) ↦ replay_trace lines (if ok then errors else errors + 1) t
  ]
