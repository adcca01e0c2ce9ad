-- ===== src/Paging/Print/Tables.antt =====
-- What the lines of `print_pagedirectory` say of the tables.
use csc369_uoft.Base.{
  ℕ, zero, suc, ◌+◌, ◌-◌, ◌≡◌, ◌∙◌, ap, ap₂, refl, sym, Bool, true, false, List, [], ◌∷◌, ◌++◌,
  Option, none, some, arith, Bool-cases, inl, inr, append_assoc, append-nil, if◌then◌else◌,
}
use csc369_uoft.Paging.{Pte, Vm}
use csc369_uoft.Paging.Table.{ptrs_per_pgdir, ptrs_per_pgtbl}
use csc369_uoft.Paging.Print.{
  add_invalid, DirLine, invalid_tables, valid_table, flush_tables, table_at, print_tables,
  print_pagedirectory,
}
use csc369_uoft.Paging.Print.Listing.{
  Status, statuses, blanks, IsRun, run_of, run-add_invalid, read_entries, print_pagetbl-reads,
}

-- A place of the directory: no table, or a table with the status of its entries.
abbrev pub Place : Type 0
Place = Option (List (ℕ × Status))

abbrev place_of : Bool → List (ℕ × Status) → Place
place_of b entries = if b then some entries else none

unfoldable pub place : (ℕ → Bool) → (ℕ → Pte) → ℕ → Place
place pgdir pgtbl i = place_of (pgdir i) (statuses ptrs_per_pgtbl 0 (table_at pgtbl i))

place_absent : (b : Bool) (l : List (ℕ × Status)) → b ≡ false → place_of b l ≡ none
place_absent b l h = rw h refl

place_there : (b : Bool) (l r : List (ℕ × Status)) → b ≡ true → r ≡ l → place_of b l ≡ some r
place_there b l r h e = rw (h, e) refl

abbrev pub places : ℕ → ℕ → (ℕ → Bool) → (ℕ → Pte) → List (ℕ × Place)
places zero i pgdir pgtbl = []
places (suc n) i pgdir pgtbl = (i, place pgdir pgtbl i) ∷ places n (i + 1) pgdir pgtbl

-- What the lines say, place by place.
abbrev pub read_tables : List DirLine → List (ℕ × Place)
read_tables [] = []
read_tables (invalid_tables first last ∷ lines) =
    blanks none (last + 1 - first) first ++ read_tables lines
read_tables (valid_table i entries ∷ lines) = (i, some (read_entries entries)) ∷ read_tables lines

read_tables-append : (a b : List DirLine) → read_tables (a ++ b) ≡ read_tables a ++ read_tables b
read_tables-append [] b = refl
read_tables-append (invalid_tables first last ∷ a) b =
    ap (λ l. blanks none (last + 1 - first) first ++ l) (read_tables-append a b)
    ∙ sym (append_assoc (blanks none (last + 1 - first) first) (read_tables a) (read_tables b))
read_tables-append (valid_table i entries ∷ a) b =
    ap (λ l. (i, some (read_entries entries)) ∷ l) (read_tables-append a b)

read_tables-flush : (run : Option (ℕ × ℕ)) → read_tables (flush_tables run) ≡ run_of none run
read_tables-flush none = refl
read_tables-flush (some (first, last)) = append-nil _

-- The lines from a place on, and the `rest` places at the end that they leave out, none of which has
-- a table.
abbrev pub ReadsTables : ℕ → ℕ → Option (ℕ × ℕ) → (ℕ → Bool) → (ℕ → Pte) → Type 0
ReadsTables n i run pgdir pgtbl =
    (l : List DirLine) × (rest : ℕ) × (print_tables n i run pgdir pgtbl ≡ some l)
    × (read_tables l ++ blanks none rest (i + n - rest) ≡ run_of none run ++ places n i pgdir pgtbl)

print_tables-ReadsTables :
    (n i : ℕ) (run : Option (ℕ × ℕ)) (pgdir : ℕ → Bool) (pgtbl : ℕ → Pte)
    → IsRun i run
    → ReadsTables n i run pgdir pgtbl
unfolding print_tables place
print_tables-ReadsTables zero i none pgdir pgtbl h = ([], 0, refl, refl)
print_tables-ReadsTables zero i (some (first, last)) pgdir pgtbl h =
    let k : i + 0 - (last + 1 - first) ≡ first = omega arith in
    ([], last + 1 - first, refl, ap (λ x. blanks none (last + 1 - first) x) k ∙ sym (append-nil _))
print_tables-ReadsTables (suc n) i run pgdir pgtbl h = elim (Bool-cases (pgdir i)) [
  | inr b ↦
      let (kept, more) = run-add_invalid {L = Place} none i run h in
      let (l, k, e, r) = print_tables-ReadsTables n (i + 1) (add_invalid i run) pgdir pgtbl kept in
      let blank : place pgdir pgtbl i ≡ none = place_absent (pgdir i) _ b in
      let at : i + suc n - k ≡ i + 1 + n - k = omega arith in
      (
        l,
        k,
        rw (print_tables, b) e,
        ap (λ x. read_tables l ++ blanks none k x) at
            ∙ r
            ∙ ap (λ x. x ++ places n (i + 1) pgdir pgtbl) more
            ∙ append_assoc (run_of none run) ((i, none) ∷ []) (places n (i + 1) pgdir pgtbl)
            ∙ ap (λ x. run_of none run ++ (i, x) ∷ places n (i + 1) pgdir pgtbl) (sym blank),
      )
  | inl b ↦
      let (l, k, e, r) = print_tables-ReadsTables n (i + 1) none pgdir pgtbl tt in
      let (entries, f, q) = print_pagetbl-reads (table_at pgtbl i) in
      let there : place pgdir pgtbl i ≡ some (read_entries entries) =
        place_there (pgdir i) _ _ b q in
      let at : i + suc n - k ≡ i + 1 + n - k = omega arith in
      (
        flush_tables run ++ valid_table i entries ∷ l,
        k,
        rw (print_tables, b, f, e) refl,
        ap₂ (λ x y. x ++ blanks none k y)
              (read_tables-append (flush_tables run) (valid_table i entries ∷ l)) at
            ∙ append_assoc (read_tables (flush_tables run))
                ((i, some (read_entries entries)) ∷ read_tables l) (blanks none k (i + 1 + n - k))
            ∙ ap₂ (λ x y. x ++ y) (read_tables-flush run) (ap₂ (λ x y. (i, x) ∷ y) (sym there) r),
      )
]

-- `print_pagedirectory` never fails an assertion, and its lines, read place by place, with as many
-- places without a table added at the end as they leave out there, are the 4096 places of the
-- directory in order, each without a table, or with the status of its 4096 entries: nothing, valid
-- with the frame and the dirty bit, or on swap with the offset.
pub print_pagedirectory-reads :
    {File : Type 0} (s : Vm File)
    → (l : List DirLine) × (rest : ℕ) × (print_pagedirectory s ≡ some l)
      × (read_tables l ++ blanks none rest (ptrs_per_pgdir - rest)
          ≡ places ptrs_per_pgdir 0 s.pgdir s.pgtbl)
unfolding print_pagedirectory
print_pagedirectory-reads s = print_tables-ReadsTables ptrs_per_pgdir 0 none s.pgdir s.pgtbl tt
