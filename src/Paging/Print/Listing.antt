-- ===== src/Paging/Print/Listing.antt =====
-- What the lines of `print_pagetbl` and `print_pagedirectory` say of the entries.
use csc369_uoft.Base.{
  ℕ, zero, suc, ◌+◌, ◌-◌, ◌≤◌, ◌≡◌, ◌∙◌, ap, ap₂, refl, sym, Bool, false, List, [], ◌∷◌, ◌++◌,
  Option, none, some, not, ◌&&◌, if◌then◌else◌, arith, Bool-cases, inl, inr, append_assoc,
  append-nil,
}
use csc369_uoft.Paging.{Pte}
use csc369_uoft.Paging.Flags.{pg_valid, pg_dirty, pg_onswap, has, frame_no}
use csc369_uoft.Paging.Table.{ptrs_per_pgtbl}
use csc369_uoft.Paging.Print.{
  EntryLine, invalid_entries, valid_entry, onswap_entry, add_invalid, flush, entry_line,
  print_entries, print_pagetbl,
}

-- An entry as its bits say it is.
pub data Status : Type 0 where
  nothing : Status
  in_frame : (dirty : Bool) → (frame : ℕ) → Status
  in_swap : (offset : Option ℕ) → Status

abbrev pub status : Pte → Status
status e =
    if has pg_valid e.frame
    then in_frame (has pg_dirty e.frame) (frame_no e.frame)
    else if has pg_onswap e.frame
    then in_swap e.swap_off
    else nothing

-- The `n` entries from `i` on, each with its status.
abbrev pub statuses : ℕ → ℕ → (ℕ → Pte) → List (ℕ × Status)
statuses zero i pgtbl = []
statuses (suc n) i pgtbl = (i, status (pgtbl i)) ∷ statuses n (i + 1) pgtbl

abbrev pub blanks {ℓ} : {L : Type ℓ} → L → ℕ → ℕ → List (ℕ × L)
blanks l zero i = []
blanks l (suc n) i = (i, l) ∷ blanks l n (i + 1)

-- What the lines say, entry by entry.
abbrev pub read_entries : List EntryLine → List (ℕ × Status)
read_entries [] = []
read_entries (invalid_entries first last ∷ lines) =
    blanks nothing (last + 1 - first) first ++ read_entries lines
read_entries (valid_entry i dirty frame ∷ lines) = (i, in_frame dirty frame) ∷ read_entries lines
read_entries (onswap_entry i offset ∷ lines) = (i, in_swap offset) ∷ read_entries lines

-- A run of invalid entries up to `i`.
abbrev pub IsRun : ℕ → Option (ℕ × ℕ) → Type 0
IsRun i none = Unit
IsRun i (some (first, last)) = (first ≤ last) × (last + 1 ≡ i)

abbrev pub run_of {ℓ} : {L : Type ℓ} → L → Option (ℕ × ℕ) → List (ℕ × L)
run_of l none = []
run_of l (some (first, last)) = blanks l (last + 1 - first) first

read-append : (a b : List EntryLine) → read_entries (a ++ b) ≡ read_entries a ++ read_entries b
read-append [] b = refl
read-append (invalid_entries first last ∷ a) b =
    ap (λ l. blanks nothing (last + 1 - first) first ++ l) (read-append a b)
    ∙ sym (append_assoc (blanks nothing (last + 1 - first) first) (read_entries a) (read_entries b))
read-append (valid_entry i dirty frame ∷ a) b =
    ap (λ l. (i, in_frame dirty frame) ∷ l) (read-append a b)
read-append (onswap_entry i offset ∷ a) b = ap (λ l. (i, in_swap offset) ∷ l) (read-append a b)

pub blanks-end {ℓ} :
    {L : Type ℓ} (l : L) (n i : ℕ) → blanks l (suc n) i ≡ blanks l n i ++ (i + n, l) ∷ []
blanks-end l zero i = ap (λ k. (k, l) ∷ []) (omega arith)
blanks-end l (suc n) i =
    ap (λ r. (i, l) ∷ r)
      (blanks-end l n (i + 1) ∙ ap (λ k. blanks l n (i + 1) ++ (k, l) ∷ []) (omega arith))

-- An entry more in the run.
pub run-add_invalid {ℓ} :
    {L : Type ℓ} (l : L) (i : ℕ) (run : Option (ℕ × ℕ))
    → IsRun i run
    → IsRun (i + 1) (add_invalid i run)
      × (run_of l (add_invalid i run) ≡ run_of l run ++ (i, l) ∷ [])
run-add_invalid l i none h = let k : i + 1 - i ≡ 1 = omega arith in ((omega arith, refl), rw k refl)
run-add_invalid l i (some (first, last)) h =
    let k : i + 1 - first ≡ suc (last + 1 - first) = omega arith in
    (
      (omega arith, refl),
      rw k (
          blanks-end l (last + 1 - first) first
          ∙ ap (λ j. blanks l (last + 1 - first) first ++ (j, l) ∷ []) (omega arith)),
    )

read_entries-flush : (run : Option (ℕ × ℕ)) → read_entries (flush run) ≡ run_of nothing run
read_entries-flush none = refl
read_entries-flush (some (first, last)) = append-nil _

-- An entry that is valid or on swap has its line.
entry_line-reads :
    (i : ℕ) (e : Pte)
    → (not (has pg_valid e.frame) && not (has pg_onswap e.frame)) ≡ false
    → (line : EntryLine) × (entry_line i e ≡ some line)
      × ((r : List EntryLine) → read_entries (line ∷ r) ≡ (i, status e) ∷ read_entries r)
unfolding entry_line
entry_line-reads i e h = elim (Bool-cases (has pg_valid e.frame)) [
  | inl v ↦ (
    valid_entry i (has pg_dirty e.frame) (frame_no e.frame),
    rw (entry_line, v) refl,
    λ r. rw v refl,
  )
  | inr v ↦ elim (Bool-cases (has pg_onswap e.frame)) [
    | inl o ↦ (onswap_entry i e.swap_off, rw (entry_line, v, o) refl, λ r. rw (v, o) refl)
    | inr o ↦ absurd (ground (arith, h, v, o))
  ]
]

-- The lines from an entry on, with the run of invalid entries before it.
abbrev Reads : ℕ → ℕ → Option (ℕ × ℕ) → (ℕ → Pte) → Type 0
Reads n i run pgtbl =
    (l : List EntryLine) × (print_entries n i run pgtbl ≡ some l)
    × (read_entries l ≡ run_of nothing run ++ statuses n i pgtbl)

print_entries-Reads :
    (n i : ℕ) (run : Option (ℕ × ℕ)) (pgtbl : ℕ → Pte) → IsRun i run → Reads n i run pgtbl
unfolding print_entries
print_entries-Reads zero i run pgtbl h =
    (flush run, refl, read_entries-flush run ∙ sym (append-nil (run_of nothing run)))
print_entries-Reads (suc n) i run pgtbl h =
    elim (Bool-cases (not (has pg_valid (pgtbl i).frame) && not (has pg_onswap (pgtbl i).frame))) [
      | inl b ↦
          let (kept, more) = run-add_invalid nothing i run h in
          let (l, e, r) = print_entries-Reads n (i + 1) (add_invalid i run) pgtbl kept in
          let blank : status (pgtbl i) ≡ nothing = ground (arith, b) in
          (
            l,
            rw (print_entries, b) e,
            r
                ∙ ap (λ x. x ++ statuses n (i + 1) pgtbl) more
                ∙ append_assoc (run_of nothing run) ((i, nothing) ∷ []) (statuses n (i + 1) pgtbl)
                ∙ ap (λ x. run_of nothing run ++ (i, x) ∷ statuses n (i + 1) pgtbl) (sym blank),
          )
      | inr b ↦
          let (l, e, r) = print_entries-Reads n (i + 1) none pgtbl tt in
          let (line, f, q) = entry_line-reads i (pgtbl i) b in
          (
            flush run ++ line ∷ l,
            rw (print_entries, b, f, e) refl,
            read-append (flush run) (line ∷ l)
                ∙ ap₂ (λ x y. x ++ y) (read_entries-flush run)
                    (q l ∙ ap (λ x. (i, status (pgtbl i)) ∷ x) r),
          )
    ]

-- `print_pagetbl` never fails its assertion, and its lines, read entry by entry, are the status of
-- each of the 4096 entries in order: nothing, valid with its frame and dirty bit, or on swap with
-- its offset.
pub print_pagetbl-reads :
    (pgtbl : ℕ → Pte)
    → (l : List EntryLine) × (print_pagetbl pgtbl ≡ some l)
      × (read_entries l ≡ statuses ptrs_per_pgtbl 0 pgtbl)
unfolding print_pagetbl
print_pagetbl-reads pgtbl = print_entries-Reads ptrs_per_pgtbl 0 none pgtbl tt
