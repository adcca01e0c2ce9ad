-- ===== src/Ext2/Checker/Tree.antt =====
-- What a pass needs of its repairs, and what it then does to a tree of directories.
use csc369_uoft.Base.{ℕ, ◌/◌, ◌<◌, ◌≡◌, ◌≢◌, ◌∙◌, Bool, true, ◌&&◌, Option, some, List, ◌==◌}
use mathlib.Core.List.{Memᴰ}
use csc369_uoft.Base.Int.{pos}
use csc369_uoft.Ext2.{Disk}
use csc369_uoft.Ext2.Checker.Passes.{Checked, is_proper}
use csc369_uoft.Ext2.Entries.{DirEntry, ext2_ft_dir}
use csc369_uoft.Ext2.Entries.Layout.{IsBlock}
use csc369_uoft.Ext2.Walk.{inode_at}

-- Two images with the same bytes, whose inodes have the same blocks.
pub record Same (d d' : Disk) : Type 0 where
  pub bytes : d'.bytes ≡ d.bytes
  pub number : d'.s_inodes_count ≡ d.s_inodes_count
  pub i_blocks : (num : ℕ) → (d'.inodes num).i_blocks ≡ (d.inodes num).i_blocks
  pub i_block : (num i : ℕ) → (d'.inodes num).i_block i ≡ (d.inodes num).i_block i

pub Same-trans : (a b c : Disk) → Same a b → Same b c → Same a c
Same-trans a b c h k = record {
  bytes = k.bytes ∙ h.bytes;
  number = k.number ∙ h.number;
  i_blocks = λ num. k.i_blocks num ∙ h.i_blocks num;
  i_block = λ num i. k.i_block num i ∙ h.i_block num i;
}

-- The entry is a directory other than "." and "..".
abbrev pub enters : DirEntry → Bool
enters e = (e.file_type == ext2_ft_dir) && is_proper e.name

-- Block `i` of a directory is one of those that the passes read.
abbrev pub IsRead : Disk → (num i : ℕ) → Type 0
IsRead d num i = (i < 12) × (i < (d.inodes num).i_blocks / 2)

-- The directories of an image: those that `is_dir` tells, with the entries of each of their blocks. A directory is
-- higher than those that it lists, and every inode that an entry names is `Valid`.
pub record IsDirTree (d : Disk) (is_dir : ℕ → Bool) (blocks : ℕ → ℕ → List DirEntry)
    (height : ℕ → ℕ) (Valid : ℕ → Type 0) : Type 0 where
  pub number : (num : ℕ) → is_dir num ≡ true → inode_at d (pos num) ≡ some (d.inodes num)
  pub held :
      (num i : ℕ)
      → is_dir num ≡ true
      → IsRead d num i
      → ((d.inodes num).i_block i < 128) × IsBlock d.bytes ((d.inodes num).i_block i) (blocks num i)
  pub valid :
      (num i : ℕ) (e : DirEntry)
      → is_dir num ≡ true
      → IsRead d num i
      → Memᴰ e (blocks num i)
      → e.inode ≢ 0
      → Valid e.inode
  pub child :
      (num i : ℕ) (e : DirEntry)
      → is_dir num ≡ true
      → IsRead d num i
      → Memᴰ e (blocks num i)
      → e.inode ≢ 0
      → enters e ≡ true
      → (is_dir e.inode ≡ true) × (height e.inode < height num)

-- The entries in a directory and in those below it.
pub data Reached (d : Disk) (blocks : ℕ → ℕ → List DirEntry) : ℕ → DirEntry → Type 0 where
  listed :
      {num : ℕ} {e : DirEntry} (i : ℕ)
      → IsRead d num i
      → Memᴰ e (blocks num i)
      → e.inode ≢ 0
      → Reached d blocks num e
  nested :
      {num : ℕ} {f : DirEntry} (i : ℕ) (e : DirEntry)
      → IsRead d num i
      → Memᴰ e (blocks num i)
      → e.inode ≢ 0
      → enters e ≡ true
      → Reached d blocks e.inode f
      → Reached d blocks num f

-- The repair of one inode: what a pass may change, and what holds for the inode from then on.
pub record Repair (d : Disk) (Valid : ℕ → Type 0) (fix : ℕ → Checked → Option Checked)
    : Type 1 where
  pub Allowed : Checked → Checked → Type 0
  pub Done : ℕ → Checked → Type 0
  pub Allowed-refl : (s : Checked) → Allowed s s
  pub Allowed-trans : (s t u : Checked) → Allowed s t → Allowed t u → Allowed s u
  pub Allowed-Same : (s t : Checked) → Allowed s t → Same s.0 t.0
  pub Done-Allowed : (num : ℕ) (s t : Checked) → Allowed s t → Done num s → Done num t
  pub fixed :
      (num : ℕ) (s : Checked)
      → Valid num
      → Same d s.0
      → (t : Checked) × (fix num s ≡ some t) × Allowed s t × Done num t
