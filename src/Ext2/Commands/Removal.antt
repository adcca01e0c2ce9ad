-- ===== src/Ext2/Commands/Removal.antt =====
-- `ext2_rm` on a path, against the tree of directories and the list of the entries of a block.
use csc369_uoft.Base.{
  ℕ, zero, suc, ◌+◌, ◌*◌, ◌<◌, ◌≡◌, ◌≢◌, refl, ap, ◌∙◌, Bool, false, Option, some, List, ◌∷◌, ◌==◌,
  arith,
}
use csc369_uoft.Base.Int.{ℤ, pos, negsuc}
use csc369_uoft.Ext2.{Disk, Inode}
use csc369_uoft.Ext2.Commands.{parent_of, act_on, act_on_blocks, command, ext2_rm}
use csc369_uoft.Ext2.Entries.{DirEntry, ext2_ft_dir}
use csc369_uoft.Ext2.Entries.Layout.{IsBlock}
use csc369_uoft.Ext2.Link.{returned}
use csc369_uoft.Ext2.Paths.{tokens, last_of, join, AreParts, tokens-join}
use csc369_uoft.Ext2.Remove.{rm_from_directory}
use csc369_uoft.Ext2.Remove.Merge.{remove_entry, SameOutside, rm_from_directory-remove_entry}
use csc369_uoft.Ext2.Search.Find.{find_entry}
use csc369_uoft.Ext2.Walk.{enoent, inode_at, walk_path}
use csc369_uoft.Ext2.Walk.Resolve.{walk_path-resolve_path}
use csc369_uoft.Ext2.Walk.Tree.{resolve_path, IsTree, dir_of}

-- A result that is not 0 ends the loop over the blocks.
act_on_first :
    (act : (ℕ → ℕ) → ℕ → List ℕ → Option (ℤ × (ℕ → ℕ))) (d : Disk) (dir : Inode) (path : List ℕ)
    (r : ℤ) (m : ℕ → ℕ)
    → act d.bytes (dir.i_block 0) path ≡ some (r, m)
    → r ≢ pos 0
    → act_on_blocks act d dir path ≡ some (returned 0, record d { bytes = m })
unfolding act_on_blocks act_on
act_on_first act d dir path (pos zero) m e ne = absurd (ne refl)
act_on_first act d dir path (pos (suc k)) m e ne = rw (act_on_blocks, act_on, e) refl
act_on_first act d dir path (negsuc k) m e ne = rw (act_on_blocks, act_on, e) refl

parent_of_lem :
    (d : Disk) (path t u : List ℕ) (us : List (List ℕ)) (type num : ℕ)
    → tokens path ≡ t ∷ u ∷ us
    → walk_path d path type ≡ some (pos num)
    → num ≢ enoent
    → parent_of d path type ≡ some (returned (pos num))
unfolding parent_of
parent_of_lem d path t u us type num parts walked ne =
    let other : (num == enoent) ≡ false = ground arith in rw (parent_of, parts, walked, other) refl

-- On an image whose directories are a tree, with the blocks of the root marked in use, for an
-- absolute path of two parts or more that resolves to a directory other than the root: where the
-- removal of the last part from the entries of the directory's first block has a result other than
-- 0, `ext2_rm` ends with the code 0, the entries of the block afterwards are those of the removal,
-- and nothing outside the block changes.
pub ext2_rm-removed :
    (d : Disk) (is_dir : ℕ → Bool) (blocks : ℕ → ℕ → List DirEntry) (t u final : List ℕ)
    (us : List (List ℕ)) (k num : ℕ) (dir : Inode) (e : DirEntry) (es : List DirEntry)
    → IsTree d is_dir blocks
    → AreParts (t ∷ u ∷ us)
    → last_of (t ∷ u ∷ us) ≡ some final
    → find_entry (dir_of blocks 2) t ext2_ft_dir ≡ some k
    → resolve_path (dir_of blocks) k (u ∷ us) 1 ≡ pos num
    → num ≢ enoent
    → inode_at d (pos num) ≡ some dir
    → dir.i_block 0 < 128
    → IsBlock d.bytes (dir.i_block 0) (e ∷ es)
    → (remove_entry final e es).0 ≢ pos 0
    → (m : ℕ → ℕ) × (ext2_rm (join (t ∷ u ∷ us)) d ≡ some (returned 0, record d { bytes = m }))
      × IsBlock m (dir.i_block 0) (remove_entry final e es).1
      × SameOutside (1024 * dir.i_block 0) (1024 * dir.i_block 0 + 1024) d.bytes m
unfolding ext2_rm command
ext2_rm-removed d is_dir blocks t u final us k num dir e es tree parts named found led ne at lt l
      hit =
    let path = join (t ∷ u ∷ us) in
    let cut = tokens-join (t ∷ u ∷ us) parts in
    let walked : walk_path d path 1 ≡ some (pos num) =
      walk_path-resolve_path d is_dir blocks tree t u us 1 parts ∙ rw (found, led) refl in
    let (m, removed, after, outside) =
      rm_from_directory-remove_entry d.bytes (dir.i_block 0) path final e es
        (ap last_of cut ∙ named) lt l in
    (
      m,
      rw (command, parent_of_lem d path t u us 1 num cut walked ne, at)
          (act_on_first rm_from_directory d dir path (remove_entry final e es).0 m removed hit),
      after,
      outside,
    )
