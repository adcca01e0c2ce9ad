-- ===== src/Ext2/Walk/Tree.antt =====
-- A tree of directories, each the list of its entries, and what a path leads to in it.
use csc369_uoft.Base.{
  ℕ, zero, suc, ◌+◌, ◌^◌, ◌≤◌, ◌<◌, ◌≡◌, ◌≢◌, refl, Bool, true, false, ◌&&◌, Option, none, some,
  List, [], ◌∷◌, ◌++◌, ◌==◌, if◌then◌else◌, arith,
}
use csc369_uoft.Base.Int.{ℤ, pos, negsuc}
use csc369_uoft.Ext2.{Disk}
use csc369_uoft.Ext2.Alloc.{is_data_block_used}
use csc369_uoft.Ext2.Entries.{DirEntry, ext2_ft_dir}
use csc369_uoft.Ext2.Search.Find.{find_entry, IsDirBlock}
use csc369_uoft.Ext2.Walk.{enoent}

-- The entries of `n` blocks from block `i`.
unfoldable pub entries_of : ℕ → (i : ℕ) → (ℕ → List DirEntry) → List DirEntry
entries_of zero i es = []
entries_of (suc n) i es = es i ++ entries_of n (i + 1) es

unfoldable pub is_some : Option ℕ → Bool
is_some none = false
is_some (some n) = true

-- The parent of the last part of a path from directory `num`; -1 where that part is a directory already
-- and one is asked for, and ENOENT where a directory on the way is missing.
unfoldable pub resolve_path : (ℕ → List DirEntry) → (num : ℕ) → List (List ℕ) → (type : ℕ) → ℤ
resolve_path dir num [] type = pos enoent
resolve_path dir num (t ∷ []) type =
    if (type == ext2_ft_dir) && is_some (find_entry (dir num) t ext2_ft_dir)
    then negsuc 0
    else pos num
resolve_path dir num (t ∷ u ∷ ts) type = elim (find_entry (dir num) t ext2_ft_dir) [
  | none ↦ pos enoent
  | some k ↦ resolve_path dir k (u ∷ ts) type
]

-- The directories of an image: those that `is_dir` tells, with the entries of each of their 12 blocks.
pub record IsTree (d : Disk) (is_dir : ℕ → Bool) (blocks : ℕ → ℕ → List DirEntry) : Type 0 where
  pub root : is_dir 2 ≡ true
  pub number : (num : ℕ) → is_dir num ≡ true → (1 ≤ num) × (num ≤ d.s_inodes_count) × (num < 2 ^ 31)
  pub held :
      (num i : ℕ)
      → is_dir num ≡ true
      → i < 12
      → IsDirBlock d.bytes ((d.inodes num).i_block i) (blocks num i)
  pub child :
      (num i k : ℕ) (d_name : List ℕ)
      → is_dir num ≡ true
      → i < 12
      → find_entry (blocks num i) d_name ext2_ft_dir ≡ some k
      → is_dir k ≡ true
  pub used : (i : ℕ) → i < 12 → is_data_block_used ((d.inodes 2).i_block i) d ≢ some false

-- The entries of a directory.
abbrev pub dir_of : (ℕ → ℕ → List DirEntry) → ℕ → List DirEntry
dir_of blocks num = entries_of 12 0 (blocks num)

pub find_entry-append :
    (xs ys : List DirEntry) (d_name : List ℕ) (type : ℕ)
    → find_entry (xs ++ ys) d_name type
      ≡ elim (find_entry xs d_name type) [ none ↦ find_entry ys d_name type | some k ↦ some k ]
unfolding find_entry
find_entry-append [] ys d_name type = refl
find_entry-append (x ∷ xs) ys d_name type = ground (arith, find_entry-append xs ys d_name type)
