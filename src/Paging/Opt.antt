-- ===== src/Paging/Opt.antt =====
-- A3/opt.c: the victim is the frame whose page the trace needs last. The linked list of the source
-- is the list `trace` of the state.
pub mod Farthest
use csc369_uoft.Base.{
  ℕ, zero, suc, ◌+◌, ◌-◌, ◌/◌, ◌≤◌, ◌<◌, ◌≡◌, refl, Bool, true, false, Option, none, some, List, [],
  ◌∷◌, ◌++◌, ltb, ◌==◌, if◌then◌else◌, arith,
}
use csc369_uoft.Paging.{Page, Vm}
use csc369_uoft.Paging.Table.{Algorithm}

-- The loop over the list: how far the next use of page `vaddr` is, `none` if it is never used again.
unfoldable pub next_use : ℕ → (index : ℕ) → List ℕ → Option ℕ
next_use vaddr index [] = none
next_use vaddr index (value ∷ rest) =
    if value == vaddr then some index else next_use vaddr (index + 1) rest

-- The page of frame `i`, from the address that it keeps for error checking.
abbrev pub page_in : (ℕ → Page) → ℕ → ℕ
page_in physmem i = (physmem i).checkaddr / 4096

-- The loop over the frames, from frame `i` with `n` rounds left.
unfoldable pub farthest_from :
    ℕ → (i : ℕ) → (top_index : ℕ) → (evict_frame : ℕ) → (ℕ → Page) → List ℕ → ℕ
farthest_from zero i top e physmem trace = e
farthest_from (suc n) i top e physmem trace = elim (next_use (page_in physmem i) 0 trace) [
  | none ↦ i
  | some index ↦
      if ltb top index
      then farthest_from n (i + 1) index i physmem trace
      else farthest_from n (i + 1) top e physmem trace
]

-- A line of the trace file as `fgets` and `sscanf` hand it over: one that starts with '=', or one
-- with the address in it.
pub data Line : Type 0 where
  comment : Line
  reference : (is_write : Bool) → (vaddr : ℕ) → Line

module _ {File : Type 0} where
  abbrev pub init_list : Vm File → Vm File
  init_list s = record s { trace = [] }

  abbrev pub add_to_list : ℕ → Vm File → Vm File
  add_to_list value s = record s { trace = s.trace ++ value ∷ [] }

  -- `none` is the null pointer of an empty list.
  unfoldable pub pop_list : Vm File → Option (Vm File)
  pop_list s = elim s.trace [ [] ↦ none | value ∷ rest ↦ some (record s { trace = rest }) ]

  unfoldable pub opt_evict : Vm File → Option (ℕ × Vm File)
  opt_evict s = some (farthest_from s.memsize 0 0 0 s.physmem s.trace, s)

  unfoldable pub opt_ref : ℕ → Vm File → Option (Vm File)
  opt_ref p s = pop_list s

  -- The loop of `opt_init` over the lines of the file.
  unfoldable pub add_lines : List Line → Vm File → Vm File
  add_lines [] s = s
  add_lines (comment ∷ lines) s = add_lines lines s
  add_lines (reference is_write vaddr ∷ lines) s = add_lines lines (add_to_list (vaddr / 4096) s)

  -- `none` is a file that does not open, which ends the program.
  unfoldable pub opt_init : Option (List Line) → Vm File → Option (Vm File)
  opt_init none s = none
  opt_init (some lines) s = some (add_lines lines (init_list s))

  abbrev pub opt : Algorithm File
  opt = record { ref = opt_ref; evict = opt_evict }
