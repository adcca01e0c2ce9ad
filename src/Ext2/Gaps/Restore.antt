-- ===== src/Ext2/Gaps/Restore.antt =====
-- `check_with_gaps` on a block from which `rm_from_directory` of A4/utility.c took an entry.
use csc369_uoft.Base.{
  ℕ, suc, ◌+◌, ◌-◌, ◌*◌, ◌%◌, ◌≤◌, ◌<◌, ◌≡◌, ◌≢◌, refl, ap, ◌∙◌, sym, true, false, some, List, ◌∷◌,
  ◌==◌, arith, length, ◌⊎◌, inr, subst,
}
use csc369_uoft.Base.Int.{pos, negsuc}
use csc369_uoft.Ext2.Bytes.{same_text}
use csc369_uoft.Ext2.Entries.{
  DirEntry, load_entry, entry_at, store_rec_len, ext2_ft_reg_file, ext2_ft_dir, image_size,
}
use csc369_uoft.Ext2.Entries.Layout.{
  Laid, IsBlock, Laid-le, Laid-frame, entry_at-Laid, store_rec_len-frame, load_entry-store_rec_len,
}
use csc369_uoft.Ext2.Gaps.Missed.{IsTight}
use csc369_uoft.Ext2.Gaps.{sub_rec_len, gap_from, check_gap, gaps_from, check_with_gaps}
use csc369_uoft.Ext2.Paths.{tokens, last_of}
use csc369_uoft.Ext2.Remove.{add_rec_len, rm_from, rm_from_directory}
use csc369_uoft.Ext2.Remove.Merge.{SameOutside, rm_from_first}
use csc369_uoft.Ext2.Write.{size_needed}

rm_from-take :
    (n : ℕ) (m : ℕ → ℕ) (base size current : ℕ) (final : List ℕ) (x : DirEntry)
    → size ≢ 1024
    → entry_at m (base + size) ≡ some x
    → same_text x.name final ≡ true
    → x.file_type ≡ ext2_ft_reg_file
    → rm_from (suc n) m base size current final ≡ some (pos 1, add_rec_len m current x.rec_len)
unfolding rm_from
rm_from-take n m base size current final x more found same file =
    let within : (size == 1024) ≡ false = ground arith in
    let other : (x.file_type == ext2_ft_dir) ≡ false = ground arith in
    rw (rm_from, within, found, same, other) refl

gap_from-other :
    (n : ℕ) (m : ℕ → ℕ) (base size current temp_size : ℕ) (final : List ℕ) (y : DirEntry)
    → temp_size ≢ size + (load_entry m current).rec_len
    → entry_at m (base + temp_size) ≡ some y
    → same_text y.name final ≡ false
    → gap_from (suc n) m base size current temp_size final ≡ some (false, m)
unfolding gap_from
gap_from-other n m base size current temp_size final y more found differ =
    let go : (temp_size == size + (load_entry m current).rec_len) ≡ false = ground arith in
    rw (gap_from, go, found, differ) refl

-- The gap begins with the entry `x` of the name, and `y`, which is none of the name, comes after it.
gap_from-take :
    (n : ℕ) (m : ℕ → ℕ) (base size current temp_size : ℕ) (final : List ℕ) (x y : DirEntry)
    → temp_size ≢ size + (load_entry m current).rec_len
    → entry_at m (base + temp_size) ≡ some x
    → same_text x.name final ≡ true
    → x.file_type ≡ ext2_ft_reg_file
    → load_entry (sub_rec_len m current x.rec_len) (base + temp_size) ≡ x
    → temp_size + x.rec_len ≢ size + (load_entry (sub_rec_len m current x.rec_len) current).rec_len
    → entry_at (sub_rec_len m current x.rec_len) (base + (temp_size + x.rec_len)) ≡ some y
    → same_text y.name final ≡ false
    → gap_from (suc (suc n)) m base size current temp_size final
      ≡ some (false, sub_rec_len m current x.rec_len)
unfolding gap_from
gap_from-take n m base size current temp_size final x y more found same file kept past next differ =
    let m' = sub_rec_len m current x.rec_len in
    let go : (temp_size == size + (load_entry m current).rec_len) ≡ false = ground arith in
    let type : (x.file_type == ext2_ft_reg_file) ≡ true = ground arith in
    rw (gap_from, go, found, same, type)
      (ap (λ (e : DirEntry). gap_from (suc n) m' base size current (temp_size + e.rec_len) final)
          kept
        ∙ gap_from-other n m' base size current (temp_size + x.rec_len) final y past next differ)

gaps_from-found :
    (n : ℕ) (m : ℕ → ℕ) (base : ℕ) (final : List ℕ) {m' : ℕ → ℕ}
    → check_gap m base 0 base final ≡ some (false, m')
    → gaps_from (suc n) m base 0 base final ≡ some (negsuc 0, m')
unfolding gaps_from
gaps_from-found n m base final e = rw (gaps_from, e) refl

module _ (m : ℕ → ℕ) (base : ℕ) (p x y : DirEntry) (ys : List DirEntry)
    (inside : base + 1024 ≤ image_size) (l : Laid m base (base + 1024) (p ∷ x ∷ y ∷ ys)) where
  abbrev joined : ℕ → ℕ
  joined = store_rec_len m base (p.rec_len + x.rec_len)

  abbrev parted : ℕ → ℕ
  parted = store_rec_len joined base p.rec_len

  bound : base + p.rec_len + x.rec_len + y.rec_len ≤ base + 1024
  bound =
      omega (arith, Laid-le m (base + p.rec_len + x.rec_len + y.rec_len) (base + 1024) ys l.2.2.2)

  joined-frame : (j : ℕ) → (j < base) ⊎ (base + 8 ≤ j) → joined j ≡ m j
  joined-frame j h = store_rec_len-frame m base (p.rec_len + x.rec_len) j (ground arith)

  parted-frame : (j : ℕ) → (j < base) ⊎ (base + 8 ≤ j) → parted j ≡ m j
  parted-frame j h = store_rec_len-frame joined base p.rec_len j (ground arith) ∙ joined-frame j h

  behind :
      (m' : ℕ → ℕ)
      → ((j : ℕ) → (j < base) ⊎ (base + 8 ≤ j) → m' j ≡ m j)
      → Laid m' (base + p.rec_len) (base + 1024) (x ∷ y ∷ ys)
  behind m' h =
      Laid-frame m m' (base + p.rec_len) (base + 1024) (x ∷ y ∷ ys)
        (λ j u v. h j (inr (omega (arith, l.1)))) l.2

  joined-first : load_entry joined base ≡ record p { rec_len = p.rec_len + x.rec_len }
  joined-first =
      load_entry-store_rec_len m base (p.rec_len + x.rec_len) p (omega (arith, bound)) l.0

  parted-first : load_entry parted base ≡ p
  parted-first =
      load_entry-store_rec_len joined base p.rec_len _ (omega (arith, bound)) joined-first

  parted-Laid : Laid parted base (base + 1024) (p ∷ x ∷ y ∷ ys)
  parted-Laid = (parted-first, l.1, behind parted parted-frame)

  add_rec_len-joined : add_rec_len m base x.rec_len ≡ joined
  unfolding add_rec_len
  add_rec_len-joined = ap (λ (e : DirEntry). store_rec_len m base (e.rec_len + x.rec_len)) l.0

  sub_rec_len-parted : sub_rec_len joined base x.rec_len ≡ parted
  unfolding sub_rec_len
  sub_rec_len-parted =
      let back : (p.rec_len + x.rec_len + 65536 - x.rec_len) % 65536 ≡ p.rec_len =
        omega (arith, bound) in
      ap (λ (e : DirEntry). store_rec_len joined base ((e.rec_len + 65536 - x.rec_len) % 65536))
        joined-first
      ∙ ap (store_rec_len joined base) back

  joined_entry : entry_at joined base ≡ some (record p { rec_len = p.rec_len + x.rec_len })
  joined_entry =
      let same : base + p.rec_len + x.rec_len ≡ base + (p.rec_len + x.rec_len) = omega arith in
      entry_at-Laid joined base (base + 1024) _ (y ∷ ys) inside (
        joined-first,
        omega (arith, l.1),
        subst (λ (a : ℕ). Laid joined a (base + 1024) (y ∷ ys)) same (behind joined joined-frame).2,
      )

  -- The first entry's gap is found, and its length taken off.
  check_gap-parted :
      (final : List ℕ)
      → IsTight p
      → same_text x.name final ≡ true
      → x.file_type ≡ ext2_ft_reg_file
      → same_text y.name final ≡ false
      → check_gap joined base 0 base final ≡ some (false, parted)
  unfolding check_gap
  check_gap-parted final tight same file differ =
      let len : size_needed (length p.name) ≡ p.rec_len = sym tight in
      let room = l.2.1 in
      let gap : (p.rec_len + x.rec_len == 0 + size_needed (length p.name)) ≡ false =
        ground (arith, len) in
      let rest = behind joined joined-frame in
      let next = (behind parted parted-frame).2 in
      let taken =
        subst
          (λ (m' : ℕ → ℕ).
            gap_from image_size joined base 0 base (0 + p.rec_len) final ≡ some (false, m'))
          sub_rec_len-parted
          (gap_from-take 131070 joined base 0 base (0 + p.rec_len) final x y
            (omega (arith, ap (λ (e : DirEntry). e.rec_len) joined-first, room))
            (ap (entry_at joined) (omega arith)
              ∙ entry_at-Laid joined (base + p.rec_len) (base + 1024) x (y ∷ ys) inside rest)
            same file
            (rw sub_rec_len-parted
              (ap (load_entry parted) (omega arith) ∙ (behind parted parted-frame).0))
            (rw (sub_rec_len-parted, parted-first) (omega (arith, room)))
            (rw sub_rec_len-parted (
              ap (entry_at parted) (omega arith)
              ∙ entry_at-Laid parted (base + p.rec_len + x.rec_len) (base + 1024) y ys inside next))
            differ) in
      rw (check_gap, joined_entry, gap)
        (ap (λ (k : ℕ). gap_from image_size joined base 0 base (0 + k) final) len ∙ taken)

-- Where the second of three or more entries of a block is a regular file of the name, and neither
-- the first, which has no gap behind it, nor the third has the name: `rm_from_directory` removes
-- the file, `check_with_gaps` on its result returns -1, the block then has its old entries again,
-- and no byte outside the block changes.
pub rm_from_directory-check_with_gaps :
    (m : ℕ → ℕ) (b : ℕ) (path final : List ℕ) (p x y : DirEntry) (ys : List DirEntry)
    → last_of (tokens path) ≡ some final
    → b < 128
    → IsBlock m b (p ∷ x ∷ y ∷ ys)
    → IsTight p
    → same_text p.name final ≡ false
    → same_text x.name final ≡ true
    → x.file_type ≡ ext2_ft_reg_file
    → same_text y.name final ≡ false
    → (m' : ℕ → ℕ) × (rm_from_directory m b path ≡ some (pos 1, m'))
      × (m'' : ℕ → ℕ) × (check_with_gaps m' b path ≡ some (negsuc 0, m''))
      × IsBlock m'' b (p ∷ x ∷ y ∷ ys)
      × SameOutside (1024 * b) (1024 * b + 1024) m m''
unfolding rm_from_directory check_with_gaps
rm_from_directory-check_with_gaps m b path final p x y ys named lt l tight other same file differ =
    let base = 1024 * b in
    let inside : base + 1024 ≤ image_size = omega arith in
    let first = entry_at-Laid m base (base + 1024) p (x ∷ y ∷ ys) inside l in
    let second = entry_at-Laid m (base + p.rec_len) (base + 1024) x (y ∷ ys) inside l.2 in
    let taken =
      rm_from_first 131071 m base final p first other
      ∙ rm_from-take 131070 m base p.rec_len base final x
          (omega (arith, bound m base p x y ys inside l, l.2.1)) second same file
      ∙ ap (λ (f : ℕ → ℕ). some (pos 1, f)) (add_rec_len-joined m base p x y ys inside l) in
    let found = joined_entry m base p x y ys inside l in
    (
      joined m base p x y ys inside l,
      rw (rm_from_directory, named, first, other) taken,
      parted m base p x y ys inside l,
      rw (check_with_gaps, named, found, other)
          (gaps_from-found 131071 _ base final
            (check_gap-parted m base p x y ys inside l final tight same file differ)),
      parted-Laid m base p x y ys inside l,
      λ j h. parted-frame m base p x y ys inside l j (ground arith),
    )
