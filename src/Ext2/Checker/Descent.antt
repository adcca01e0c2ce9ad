-- ===== src/Ext2/Checker/Descent.antt =====
-- A pass over a tree of directories ends, and every inode that the tree names is repaired.
use csc369_uoft.Base.{
  ℕ, zero, suc, ◌+◌, ◌*◌, ◌/◌, ◌≤◌, ◌<◌, ◌≡◌, ◌≢◌, refl, ap, ◌∙◌, sym, subst, Bool, true, false,
  Option, some, List, [], ◌∷◌, ◌==◌, ltb, arith, length, ◌⊎◌, inl, inr, Bool-cases,
}
use mathlib.Core.List.{Memᴰ}
use mathlib.Core.List.Memᴰ
use csc369_uoft.Base.Int.{pos}
use csc369_uoft.Ext2.{Disk}
use csc369_uoft.Ext2.Checker.Passes.{
  Checked, check_entries, check_blocks_of, check_tree, descend, check_entry,
}
use csc369_uoft.Ext2.Checker.Tree.{
  Same, Same-trans, enters, IsRead, IsDirTree, Reached, listed, nested, Repair,
}
use csc369_uoft.Ext2.Entries.{DirEntry, load_entry, entry_at, image_size}
use csc369_uoft.Ext2.Entries.Layout.{Laid, Laid-le, entry_at-Laid}
use csc369_uoft.Ext2.Walk.{inode_at}

le-cases : (i j : ℕ) → i ≤ j → (i ≡ j) ⊎ (i + 1 ≤ j)
le-cases i j h = ground arith

pub Same-inode_at :
    (d d' : Disk) (num : ℕ)
    → Same d d'
    → inode_at d (pos num) ≡ some (d.inodes num)
    → inode_at d' (pos num) ≡ some (d'.inodes num)
unfolding inode_at
Same-inode_at d d' num same h = ground (arith, same.number)

module _ (d : Disk) (is_dir : ℕ → Bool) (blocks : ℕ → ℕ → List DirEntry) (height : ℕ → ℕ)
    (Valid : ℕ → Type 0) (fix : ℕ → Checked → Option Checked)
    (tree : IsDirTree d is_dir blocks height Valid) (r : Repair d Valid fix) where
  -- A computation from `s` ends in a state with `Q`, by steps of the pass.
  abbrev Ends : Option Checked → Checked → (Checked → Type 0) → Type 0
  Ends o s Q = (t : Checked) × (o ≡ some t) × r.Allowed s t × Q t

  check_entries_lem :
      (n : ℕ) (visit : ℕ → Checked → Option Checked) (P : DirEntry → Checked → Type 0)
      (mono : (e : DirEntry) (s t : Checked) → r.Allowed s t → P e s → P e t) (base size : ℕ)
      (s : Checked) (es : List DirEntry)
      → length es < n
      → base + 1024 ≤ image_size
      → Laid d.bytes (base + size) (base + 1024) es
      → Same d s.0
      → ((a : ℕ) (e : DirEntry) (s : Checked)
          → Memᴰ e es
          → entry_at d.bytes a ≡ some e
          → Same d s.0
          → Ends (visit a s) s (P e))
      → Ends (check_entries n visit base size s) s (λ t. (e : DirEntry) → Memᴰ e es → P e t)
  unfolding check_entries
  check_entries_lem zero visit P mono base size s es enough inside l same each =
      absurd (omega arith)
  check_entries_lem (suc n) visit P mono base size s [] enough inside l same each =
      let done : ltb size 1024 ≡ false = ground (arith, l) in
      rw (check_entries, done) (s, refl, r.Allowed-refl s, λ e m. absurd (Memᴰ.not-nil m))
  check_entries_lem (suc n) visit P mono base size s (e ∷ es) enough inside l same each =
      let here = entry_at-Laid d.bytes (base + size) (base + 1024) e es inside l in
      let (t, visited, step, p) = each (base + size) e s (Memᴰ.head refl) here same in
      let same' = Same-trans d s.0 t.0 same (r.Allowed-Same s t step) in
      let len : (load_entry t.0.bytes (base + size)).rec_len ≡ e.rec_len =
        ap (λ (m : ℕ → ℕ). (load_entry m (base + size)).rec_len) same'.bytes
        ∙ ap (λ (x : DirEntry). x.rec_len) l.0 in
      let low = Laid-le d.bytes (base + size + e.rec_len) (base + 1024) es l.2 in
      let more : ltb size 1024 ≡ true = ground (arith, l.1) in
      let next : base + size + e.rec_len ≡ base + (size + e.rec_len) = omega arith in
      let (u, rest, step', ps) =
        check_entries_lem n visit P mono base (size + e.rec_len) t es (omega arith) inside
          (subst (λ (x : ℕ). Laid d.bytes x (base + 1024) es) next l.2) same'
          (λ a x v m. each a x v (Memᴰ.tail m)) in
      rw (check_entries, more, visited, len)
        (
          u,
          rest,
          r.Allowed-trans s t u step step',
          λ x m. elim (Memᴰ.cases_cons m) [
            | inl e' ↦ subst (λ (y : DirEntry). P y u) (sym e') (mono e t u step' p)
            | inr m' ↦ ps x m'
          ],
        )

  check_blocks_of_lem :
      (n i num : ℕ) (visit : ℕ → Checked → Option Checked) (P : DirEntry → Checked → Type 0)
      (mono : (e : DirEntry) (s t : Checked) → r.Allowed s t → P e s → P e t) (s : Checked)
      → i + n ≡ 12
      → is_dir num ≡ true
      → Same d s.0
      → ((j a : ℕ) (e : DirEntry) (s : Checked)
          → IsRead d num j
          → Memᴰ e (blocks num j)
          → entry_at d.bytes a ≡ some e
          → Same d s.0
          → Ends (visit a s) s (P e))
      → Ends
          (check_blocks_of n i visit num s)
          s
          (λ t. (j : ℕ) (e : DirEntry) → i ≤ j → IsRead d num j → Memᴰ e (blocks num j) → P e t)
  unfolding check_blocks_of
  check_blocks_of_lem zero i num visit P mono s e h same each =
      (s, refl, r.Allowed-refl s, λ j x from read m. absurd (omega (arith, read.0)))
  check_blocks_of_lem (suc n) i num visit P mono s e h same each =
      let inode = Same-inode_at d s.0 num same (tree.number num h) in
      elim (Bool-cases (ltb i ((d.inodes num).i_blocks / 2))) [
        | inl more ↦
            let read : IsRead d num i = (omega arith, ground (arith, more)) in
            let (lt, l) = tree.held num i h read in
            let start : 1024 * (d.inodes num).i_block i ≡ 1024 * (d.inodes num).i_block i + 0 =
              omega arith in
            let low =
              Laid-le d.bytes (1024 * (d.inodes num).i_block i)
                (1024 * (d.inodes num).i_block i + 1024) (blocks num i) l in
            let (t, checked, step, p) =
              check_entries_lem image_size visit P mono (1024 * (d.inodes num).i_block i) 0 s
                (blocks num i) (omega arith) (omega arith)
                (subst
                  (λ (x : ℕ).
                    Laid d.bytes x (1024 * (d.inodes num).i_block i + 1024) (blocks num i))
                  start l)
                same (λ a x v. each i a x v read) in
            let same' = Same-trans d s.0 t.0 same (r.Allowed-Same s t step) in
            let (u, rest, step', ps) =
              check_blocks_of_lem n (i + 1) num visit P mono t (omega arith) h same' each in
            rw (check_blocks_of, inode, same.i_blocks num, more, same.i_block num i, checked)
              (
                u,
                rest,
                r.Allowed-trans s t u step step',
                λ j x from read' m. elim (le-cases i j from) [
                  | inl here ↦
                      mono x t u step' (p x (subst (λ (k : ℕ). Memᴰ x (blocks num k)) (sym here) m))
                  | inr after ↦ ps j x after read' m
                ],
              )
        | inr done ↦
            rw (check_blocks_of, inode, same.i_blocks num, done)
              (s, refl, r.Allowed-refl s, λ j x from read m. absurd (ground (arith, read.1, done)))
      ]

  -- What holds for an entry after its visit: its inode and those below it are repaired.
  abbrev Visited : DirEntry → Checked → Type 0
  Visited e t =
      e.inode ≢ 0
      → r.Done e.inode t
        × (enters e ≡ true → (f : DirEntry) → Reached d blocks e.inode f → r.Done f.inode t)

  Visited-Allowed : (e : DirEntry) (s t : Checked) → r.Allowed s t → Visited e s → Visited e t
  Visited-Allowed e s t step v ne =
      let (own, below) = v ne in
      (
        r.Done-Allowed e.inode s t step own,
        λ en f reach. r.Done-Allowed f.inode s t step (below en f reach),
      )

  -- The visit of an entry, where the pass for a directory below does what it should.
  check_entry_lem :
      (below : ℕ → Checked → Option Checked) (num i a : ℕ) (e : DirEntry) (s : Checked)
      → is_dir num ≡ true
      → IsRead d num i
      → Memᴰ e (blocks num i)
      → entry_at d.bytes a ≡ some e
      → Same d s.0
      → (enters e ≡ true
          → e.inode ≢ 0
          → (t : Checked) → Same d t.0
          → Ends
              (below e.inode t)
              t
              (λ u. (f : DirEntry) → Reached d blocks e.inode f → r.Done f.inode u))
      → Ends (check_entry fix below a s) s (Visited e)
  unfolding check_entry descend
  check_entry_lem below num i a e s h read m here same deeper =
      let at : entry_at s.0.bytes a ≡ some e = ap (λ (b : ℕ → ℕ). entry_at b a) same.bytes ∙ here in
      elim (Bool-cases (e.inode == 0)) [
        | inl deleted ↦
            rw (check_entry, at, deleted)
              (s, refl, r.Allowed-refl s, λ ne. absurd (ground (arith, deleted, ne)))
        | inr kept ↦
            let ne : e.inode ≢ 0 = ground (arith, kept) in
            let (t, fixed, step, own) = r.fixed e.inode s (tree.valid num i e h read m ne) same in
            elim (Bool-cases (enters e)) [
              | inl en ↦
                  let (u, went, step', reached) =
                    deeper en ne t (Same-trans d s.0 t.0 same (r.Allowed-Same s t step)) in
                  rw (check_entry, at, kept, fixed, descend, en)
                    (
                      u,
                      went,
                      r.Allowed-trans s t u step step',
                      λ _. (r.Done-Allowed e.inode t u step' own, λ _ f reach. reached f reach),
                    )
              | inr stays ↦
                  rw (check_entry, at, kept, fixed, descend, stays)
                    (t, refl, step, λ _. (own, λ en f reach. absurd (ground (arith, stays, en))))
            ]
      ]

  -- With more fuel than the directory is high, a pass from it ends; it changes only what it may, and every inode
  -- that is named in the directory or below it is repaired.
  pub check_tree_lem :
      (n num : ℕ) (s : Checked)
      → height num < n
      → is_dir num ≡ true
      → Same d s.0
      → (t : Checked) × (check_tree n (check_entry fix) num s ≡ some t)
        × r.Allowed s t
        × ((f : DirEntry) → Reached d blocks num f → r.Done f.inode t)
  unfolding check_tree
  check_tree_lem zero num s enough h same = absurd (omega arith)
  check_tree_lem (suc n) num s enough h same =
      let (t, checked, step, p) =
        check_blocks_of_lem 12 0 num (check_entry fix (check_tree n (check_entry fix))) Visited
          Visited-Allowed s refl h same
          (λ i a e v read m here same'.
            check_entry_lem (check_tree n (check_entry fix)) num i a e v h read m here same'
              (λ en ne u same''.
                let (dir, lower) = tree.child num i e h read m ne en in
                check_tree_lem n e.inode u (omega arith) dir same'')) in
      (t, checked, step, λ f reach. at_reached num t p f reach)
    where
      at_reached :
          (num : ℕ) (t : Checked)
          → ((j : ℕ) (e : DirEntry) → 0 ≤ j → IsRead d num j → Memᴰ e (blocks num j) → Visited e t)
          → (f : DirEntry) → Reached d blocks num f
          → r.Done f.inode t
      at_reached num t p f (listed i read m ne) = (p i f (omega arith) read m ne).0
      at_reached num t p f (nested i e read m ne en reach) =
          (p i e (omega arith) read m ne).1 en f reach
