-- ===== src/Paging/Print.antt =====
-- `print_pagetbl` and `print_pagedirectory` of A3/pagetable.c, as the lines that they print. The
-- address of a table, which `%p` prints, is left out.
pub mod Listing
pub mod Tables
use csc369_uoft.Base.{
  ℕ, zero, suc, ◌+◌, ◌*◌, Bool, true, false, List, [], ◌∷◌, ◌++◌, Option, none, some, not, ◌&&◌,
  if◌then◌else◌,
}
use csc369_uoft.Paging.{Pte, Vm}
use csc369_uoft.Paging.Flags.{pg_valid, pg_dirty, pg_onswap, has, frame_no}
use csc369_uoft.Paging.Table.{ptrs_per_pgdir, ptrs_per_pgtbl}

-- A line of `print_pagetbl`. An offset in the swap file is `none` for INVALID_SWAP.
pub data EntryLine : Type 0 where
  invalid_entries : (first last : ℕ) → EntryLine
  valid_entry : (i : ℕ) → (dirty : Bool) → (frame : ℕ) → EntryLine
  onswap_entry : (i : ℕ) → (offset : Option ℕ) → EntryLine

-- `first_invalid` and `last_invalid`, `none` for -1, with entry `i` added.
abbrev pub add_invalid : ℕ → Option (ℕ × ℕ) → Option (ℕ × ℕ)
add_invalid i none = some (i, i)
add_invalid i (some (first, last)) = some (first, i)

-- The line for the entries seen as invalid, if there are any.
abbrev pub flush : Option (ℕ × ℕ) → List EntryLine
flush none = []
flush (some (first, last)) = invalid_entries first last ∷ []

-- The line of an entry that is valid or on swap; `none` is the failed assertion.
unfoldable pub entry_line : ℕ → Pte → Option EntryLine
entry_line i e =
    if has pg_valid e.frame
    then some (valid_entry i (has pg_dirty e.frame) (frame_no e.frame))
    else if has pg_onswap e.frame
    then some (onswap_entry i e.swap_off)
    else none

-- The lines before the rest.
abbrev pub print_before {ℓ} : {L : Type ℓ} → List L → Option L → Option (List L) → Option (List L)
print_before before none rest = none
print_before before (some line) none = none
print_before before (some line) (some rest) = some (before ++ line ∷ rest)

-- The loop of `print_pagetbl` from entry `i` with `n` rounds left.
unfoldable pub print_entries : ℕ → ℕ → Option (ℕ × ℕ) → (ℕ → Pte) → Option (List EntryLine)
print_entries zero i run pgtbl = some (flush run)
print_entries (suc n) i run pgtbl =
    elim (not (has pg_valid (pgtbl i).frame) && not (has pg_onswap (pgtbl i).frame)) [
      | true ↦ print_entries n (i + 1) (add_invalid i run) pgtbl
      | false ↦
          print_before (flush run) (entry_line i (pgtbl i)) (print_entries n (i + 1) none pgtbl)
    ]

unfoldable pub print_pagetbl : (ℕ → Pte) → Option (List EntryLine)
print_pagetbl pgtbl = print_entries ptrs_per_pgtbl 0 none pgtbl

-- A line of `print_pagedirectory`, a table with the lines that follow it.
pub data DirLine : Type 0 where
  invalid_tables : (first last : ℕ) → DirLine
  valid_table : (i : ℕ) → (entries : List EntryLine) → DirLine

abbrev pub flush_tables : Option (ℕ × ℕ) → List DirLine
flush_tables none = []
flush_tables (some (first, last)) = invalid_tables first last ∷ []

abbrev pub table_line : ℕ → Option (List EntryLine) → Option DirLine
table_line i none = none
table_line i (some entries) = some (valid_table i entries)

-- The entries of the table at index `i` of the directory.
abbrev pub table_at : (ℕ → Pte) → ℕ → ℕ → Pte
table_at pgtbl i j = pgtbl (i * ptrs_per_pgtbl + j)

-- The loop of `print_pagedirectory`, which prints nothing after its end.
unfoldable pub print_tables :
    ℕ → ℕ → Option (ℕ × ℕ) → (ℕ → Bool) → (ℕ → Pte) → Option (List DirLine)
print_tables zero i run pgdir pgtbl = some []
print_tables (suc n) i run pgdir pgtbl = elim (pgdir i) [
  | false ↦ print_tables n (i + 1) (add_invalid i run) pgdir pgtbl
  | true ↦
      print_before (flush_tables run) (table_line i (print_pagetbl (table_at pgtbl i)))
        (print_tables n (i + 1) none pgdir pgtbl)
]

unfoldable pub print_pagedirectory : {File : Type 0} → Vm File → Option (List DirLine)
print_pagedirectory s = print_tables ptrs_per_pgdir 0 none s.pgdir s.pgtbl
