-- ===== src/Ext2/Gaps/Missed.antt =====
-- `check_with_gaps` where only the last entry of a block has a gap.
use csc369_uoft.Base.{
  ℕ, zero, suc, ◌+◌, ◌*◌, ◌≤◌, ◌<◌, ◌≡◌, refl, ◌∙◌, sym, true, false, some, List, [], ◌∷◌, ◌==◌,
  arith, length, inl, inr, subst, Bool-cases,
}
use csc369_uoft.Base.Int.{pos}
use csc369_uoft.Ext2.Bytes.{same_text}
use csc369_uoft.Ext2.Entries.{DirEntry, load_entry, entry_at, image_size}
use csc369_uoft.Ext2.Entries.Layout.{Laid, IsBlock, Laid-le, entry_at-Laid}
use csc369_uoft.Ext2.Gaps.{gap_from, check_gap, gaps_from, check_with_gaps}
use csc369_uoft.Ext2.Paths.{tokens, last_of}
use csc369_uoft.Ext2.Write.{size_needed}

-- There is no gap behind the entry.
abbrev pub IsTight : DirEntry → Type 0
IsTight e = e.rec_len ≡ size_needed (length e.name)

-- No entry but the last has a gap behind it.
abbrev pub AllTight : DirEntry → List DirEntry → Type 0
AllTight e [] = Unit
AllTight e (f ∷ fs) = IsTight e × AllTight f fs

gap_from-stop :
    (n : ℕ) (m : ℕ → ℕ) (base size current temp_size : ℕ) (final : List ℕ)
    → temp_size ≡ size + (load_entry m current).rec_len
    → gap_from (suc n) m base size current temp_size final ≡ some (true, m)
unfolding gap_from
gap_from-stop n m base size current temp_size final e =
    let done : (temp_size == size + (load_entry m current).rec_len) ≡ true = ground arith in
    rw (gap_from, done) refl

-- An entry without a gap is passed, whether the code looks for its gap at the right place or not.
check_gap-IsTight :
    (m : ℕ → ℕ) (base size current : ℕ) (final : List ℕ) (e : DirEntry)
    → load_entry m current ≡ e
    → entry_at m current ≡ some e
    → IsTight e
    → check_gap m base size current final ≡ some (true, m)
unfolding check_gap
check_gap-IsTight m base size current final e here found tight =
    let stop =
      gap_from-stop 131071 m base size current (size + size_needed (length e.name)) final
        (rw (here, tight) refl) in
    elim (Bool-cases (e.rec_len == size + size_needed (length e.name))) [
      | inl same ↦ rw (check_gap, found, same) refl
      | inr other ↦ rw (check_gap, found, other) stop
    ]

gaps_from-AllTight :
    (n : ℕ) (m : ℕ → ℕ) (base size current : ℕ) (final : List ℕ) (e : DirEntry) (es : List DirEntry)
    → length es < n
    → base + 1024 ≤ image_size
    → base ≤ current
    → base + size ≡ current + e.rec_len
    → Laid m current (base + 1024) (e ∷ es)
    → AllTight e es
    → gaps_from n m base size current final ≡ some (pos 0, m)
unfolding gaps_from
gaps_from-AllTight zero m base size current final e es enough inside from at l tight =
    absurd (omega arith)
gaps_from-AllTight (suc n) m base size current final e [] enough inside from at l tight =
    let done : (size == 1024) ≡ true = ground (arith, l.2) in rw (gaps_from, done) refl
gaps_from-AllTight (suc n) m base size current final e (f ∷ fs) enough inside from at
      (here, room, rest) tight =
    let rest' = subst (λ (y : ℕ). Laid m y (base + 1024) (f ∷ fs)) (sym at) rest in
    let low = Laid-le m (base + size) (base + 1024) (f ∷ fs) rest' in
    let more : (size == 1024) ≡ false = ground arith in
    let passed =
      check_gap-IsTight m base size current final e here
        (entry_at-Laid m current (base + 1024) e (f ∷ fs) inside (here, room, rest)) tight.0 in
    let found = entry_at-Laid m (base + size) (base + 1024) f fs inside rest' in
    rw (gaps_from, more, passed, found)
      (gaps_from-AllTight n m base (size + f.rec_len) (base + size) final f fs (omega arith) inside
        (omega arith) (omega arith) rest' tight.1)

-- The first round of the loop leaves the loop at the first entry.
gaps_from_first :
    (n : ℕ) (m : ℕ → ℕ) (base : ℕ) (final : List ℕ) (e : DirEntry)
    → check_gap m base 0 base final ≡ some (true, m)
    → entry_at m base ≡ some e
    → gaps_from (suc n) m base 0 base final ≡ gaps_from n m base e.rec_len base final
unfolding gaps_from
gaps_from_first n m base final e passed first =
    let start : base + 0 ≡ base = omega arith in
    let len : 0 + e.rec_len ≡ e.rec_len = omega arith in
    rw (gaps_from, passed, start, first, start, len) refl

-- On a block of two entries or more, none of which but the last has a gap behind it and the first
-- of which does not have the name, `check_with_gaps` returns 0 and changes nothing, so that no
-- entry in the gap of the last one is restored.
pub check_with_gaps-AllTight :
    (m : ℕ → ℕ) (b : ℕ) (path final : List ℕ) (e f : DirEntry) (es : List DirEntry)
    → last_of (tokens path) ≡ some final
    → b < 128
    → IsBlock m b (e ∷ f ∷ es)
    → AllTight e (f ∷ es)
    → same_text e.name final ≡ false
    → check_with_gaps m b path ≡ some (pos 0, m)
unfolding check_with_gaps
check_with_gaps-AllTight m b path final e f es named lt l tight differ =
    let base = 1024 * b in
    let first = entry_at-Laid m base (base + 1024) e (f ∷ es) (omega arith) l in
    let low = Laid-le m base (base + 1024) (e ∷ f ∷ es) l in
    let passed = check_gap-IsTight m base 0 base final e l.0 first tight.0 in
    let rest =
      gaps_from-AllTight 131071 m base e.rec_len base final e (f ∷ es) (omega arith) (omega arith)
        (omega arith) refl l tight in
    rw (check_with_gaps, named, first, differ)
      (gaps_from_first 131071 m base final e passed first ∙ rest)
