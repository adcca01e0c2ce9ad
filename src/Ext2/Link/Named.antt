-- ===== src/Ext2/Link/Named.antt =====
-- The search for a name in A4/ext2_ln.c against the list of the entries of a directory.
use csc369_uoft.Base.{
  ℕ, zero, suc, ◌+◌, ◌*◌, ◌/◌, ◌≤◌, ◌<◌, ◌≡◌, ◌≢◌, refl, true, false, not, ◌&&◌, Option, some, List,
  [], ◌∷◌, ◌++◌, ◌==◌, ltb, if◌then◌else◌, arith, length, subst, inl, inr, Bool-cases,
}
use csc369_uoft.Base.Int.{pos}
use csc369_uoft.Ext2.{Disk, Inode}
use csc369_uoft.Ext2.Bytes.{same_text}
use csc369_uoft.Ext2.Entries.{DirEntry, image_size}
use csc369_uoft.Ext2.Entries.Layout.{Laid, IsBlock, Laid-le, entry_at-Laid}
use csc369_uoft.Ext2.Link.{has_in_block, has_in_blocks, directory_has_file}
use csc369_uoft.Ext2.Walk.{inode_at}

-- The inode of the first entry of the name that is not deleted, or 0.
unfoldable pub find_named : List DirEntry → List ℕ → ℕ
find_named [] file_name = 0
find_named (e ∷ es) file_name =
    if not (e.inode == 0) && same_text e.name file_name then e.inode else find_named es file_name

-- The entries of the blocks that are read, from block `i`: at most 12, and no more than the inode has.
unfoldable pub entries_read : ℕ → (i i_blocks : ℕ) → (ℕ → List DirEntry) → List DirEntry
entries_read zero i i_blocks es = []
entries_read (suc n) i i_blocks es =
    if ltb i (i_blocks / 2) then es i ++ entries_read n (i + 1) i_blocks es else []

pub find_named-append :
    (xs ys : List DirEntry) (file_name : List ℕ)
    → find_named (xs ++ ys) file_name
      ≡ elim (find_named xs file_name) [ zero ↦ find_named ys file_name | suc num ↦ suc num ]
unfolding find_named
find_named-append [] ys file_name = refl
find_named-append (x ∷ xs) ys file_name =
    elim (Bool-cases (not (x.inode == 0) && same_text x.name file_name)) [
      | inl here ↦
          rw (find_named, here) (nonzero x.inode (ground (arith, here)) (find_named ys file_name))
      | inr other ↦ rw (find_named, other) (find_named-append xs ys file_name)
    ]
  where
    nonzero : (k : ℕ) → k ≢ 0 → (rest : ℕ) → k ≡ elim k [ zero ↦ rest | suc num ↦ suc num ]
    nonzero zero h rest = absurd (h refl)
    nonzero (suc k) h rest = refl

has_in_block_lem :
    (n : ℕ) (m : ℕ → ℕ) (base size : ℕ) (file_name : List ℕ) (es : List DirEntry)
    → length es < n
    → base + 1024 ≤ image_size
    → Laid m (base + size) (base + 1024) es
    → has_in_block n m base size file_name ≡ some (find_named es file_name)
unfolding has_in_block find_named
has_in_block_lem zero m base size file_name es enough inside l = absurd (omega arith)
has_in_block_lem (suc n) m base size file_name [] enough inside l =
    let done : ltb size 1024 ≡ false = ground (arith, l) in rw (has_in_block, done) refl
has_in_block_lem (suc n) m base size file_name (e ∷ es) enough inside l =
    let here = entry_at-Laid m (base + size) (base + 1024) e es inside l in
    let low = Laid-le m (base + size + e.rec_len) (base + 1024) es l.2 in
    let more : ltb size 1024 ≡ true = ground (arith, l.1) in
    let next : base + size + e.rec_len ≡ base + (size + e.rec_len) = omega arith in
    let ih =
      has_in_block_lem n m base (size + e.rec_len) file_name es (omega arith) inside
        (subst (λ (x : ℕ). Laid m x (base + 1024) es) next l.2) in
    elim (Bool-cases (not (e.inode == 0) && same_text e.name file_name)) [
      | inl found ↦ rw (has_in_block, find_named, more, here, found) refl
      | inr other ↦ rw (has_in_block, find_named, more, here, other) ih
    ]

has_in_blocks_lem :
    (n i : ℕ) (m : ℕ → ℕ) (inode : Inode) (file_name : List ℕ) (es : ℕ → List DirEntry)
    → i + n ≡ 12
    → ((j : ℕ)
        → j < 12
        → j < inode.i_blocks / 2
        → (inode.i_block j < 128) × IsBlock m (inode.i_block j) (es j))
    → has_in_blocks n i m inode file_name
      ≡ some (find_named (entries_read n i inode.i_blocks es) file_name)
unfolding has_in_blocks entries_read find_named
has_in_blocks_lem zero i m inode file_name es e held = refl
has_in_blocks_lem (suc n) i m inode file_name es e held =
    elim (Bool-cases (ltb i (inode.i_blocks / 2))) [
      | inl more ↦
          let (lt, l) = held i (omega arith) (ground (arith, more)) in
          let start : 1024 * inode.i_block i ≡ 1024 * inode.i_block i + 0 = omega arith in
          let low = Laid-le m (1024 * inode.i_block i) (1024 * inode.i_block i + 1024) (es i) l in
          let here =
            has_in_block_lem image_size m (1024 * inode.i_block i) 0 file_name (es i) (omega arith)
              (omega arith)
              (subst (λ (x : ℕ). Laid m x (1024 * inode.i_block i + 1024) (es i)) start l) in
          let rest = has_in_blocks_lem n (i + 1) m inode file_name es (omega arith) held in
          rw
            (
              has_in_blocks,
              more,
              here,
              find_named-append (es i) (entries_read n (i + 1) inode.i_blocks es) file_name,
            )
            (either (find_named (es i) file_name) (has_in_blocks n (i + 1) m inode file_name)
              (find_named (entries_read n (i + 1) inode.i_blocks es) file_name) rest)
      | inr done ↦ rw (has_in_blocks, done) refl
    ]
  where
    either :
        (k : ℕ) (o : Option ℕ) (f : ℕ)
        → o ≡ some f
        → elim k [ zero ↦ o | suc num ↦ some (suc num) ]
          ≡ some (elim k [ zero ↦ f | suc num ↦ suc num ])
    either zero o f h = h
    either (suc k) o f h = refl

-- For a directory whose blocks, up to twelve of them, hold lists of entries, `directory_has_file`
-- ends, stays inside the image, and returns the inode of the first entry of the name that is not
-- deleted, or 0 where there is none.
pub directory_has_file_lem :
    (d : Disk) (num : ℕ) (inode : Inode) (file_name : List ℕ) (es : ℕ → List DirEntry)
    → inode_at d (pos num) ≡ some inode
    → inode.i_mode / 4096 ≡ 4
    → ((j : ℕ)
        → j < 12
        → j < inode.i_blocks / 2
        → (inode.i_block j < 128) × IsBlock d.bytes (inode.i_block j) (es j))
    → directory_has_file d num file_name
      ≡ some (find_named (entries_read 12 0 inode.i_blocks es) file_name)
unfolding directory_has_file
directory_has_file_lem d num inode file_name es at mode held =
    let dir : (inode.i_mode / 4096 == 4) ≡ true = ground arith in
    rw (directory_has_file, at, dir) (has_in_blocks_lem 12 0 d.bytes inode file_name es refl held)
