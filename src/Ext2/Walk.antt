-- ===== src/Ext2/Walk.antt =====
-- `find_starting_inode` and `walk_path` of A4/utility.c: the directory that a path leads to. A result is
-- `none` where the C code reads outside the image or the inode table, or never ends.
pub mod Tree
pub mod Ends
pub mod Resolve
use csc369_uoft.Base.{
  ℕ, zero, suc, ◌+◌, Bool, true, false, ◌&&◌, Option, none, some, List, [], ◌∷◌, leb, ◌==◌,
  if◌then◌else◌,
}
use csc369_uoft.Base.Int.{ℤ, pos, negsuc}
use csc369_uoft.Ext2.{Disk, Inode}
use csc369_uoft.Ext2.Alloc.{is_data_block_used}
use csc369_uoft.Ext2.Entries.{ext2_ft_dir}
use csc369_uoft.Ext2.Paths.{slash, tokens}
use csc369_uoft.Ext2.Search.{search_directory}

abbrev pub enoent : ℕ
enoent = 2

-- `inodes[num - 1]`
unfoldable pub inode_at : Disk → ℤ → Option Inode
inode_at d (pos n) = if leb 1 n && leb n d.s_inodes_count then some (d.inodes n) else none
inode_at d (negsuc n) = none

-- The result of `is_data_block_used` as a condition: -1 is true.
unfoldable pub is_nonzero : Option Bool → Bool
is_nonzero none = true
is_nonzero (some b) = b

-- The loop over the blocks of the root, with `n` rounds left.
unfoldable pub starting_from : ℕ → (i : ℕ) → Disk → List ℕ → Option ℤ
starting_from zero i d d_name = some (negsuc 0)
starting_from (suc n) i d d_name =
    elim (is_nonzero (is_data_block_used ((d.inodes 2).i_block i) d)) [
      | false ↦ starting_from n (i + 1) d d_name
      | true ↦ elim (search_directory d.bytes ((d.inodes 2).i_block i) d_name ext2_ft_dir) [
        | none ↦ none
        | some (pos num) ↦ some (pos num)
        | some (negsuc num) ↦ starting_from n (i + 1) d d_name
      ]
    ]

unfoldable pub find_starting_inode : Disk → List ℕ → Option ℤ
find_starting_inode d d_name = starting_from 12 0 d d_name

-- The loop of `walk_path` over the blocks of a directory on the way: the next directory, or a negative
-- number.
unfoldable pub enter_blocks : ℕ → (i : ℕ) → (ℕ → ℕ) → (ℕ → ℕ) → List ℕ → Option ℤ
enter_blocks zero i m i_block d_name = some (negsuc 0)
enter_blocks (suc n) i m i_block d_name = elim (search_directory m (i_block i) d_name ext2_ft_dir) [
  | none ↦ none
  | some (pos num) ↦ some (pos num)
  | some (negsuc num) ↦ enter_blocks n (i + 1) m i_block d_name
]

-- The loop over the blocks of the last directory: whether the name exists where a directory is to be made.
unfoldable pub check_blocks : ℕ → (i : ℕ) → (ℕ → ℕ) → (ℕ → ℕ) → List ℕ → (type : ℕ) → Option Bool
check_blocks zero i m i_block d_name type = some false
check_blocks (suc n) i m i_block d_name type = elim (search_directory m (i_block i) d_name type) [
  | none ↦ none
  | some (pos num) ↦ elim (type == ext2_ft_dir) [
    | true ↦ some true
    | false ↦ check_blocks n (i + 1) m i_block d_name type
  ]
  | some (negsuc num) ↦ check_blocks n (i + 1) m i_block d_name type
]

-- The loop over the tokens after the first, from the directory `inode_num`.
unfoldable pub walk_from : List (List ℕ) → (inode_num : ℤ) → Disk → (type : ℕ) → Option ℤ
walk_from [] inode_num d type = some (pos enoent)
walk_from (t ∷ []) inode_num d type = elim (inode_at d inode_num) [
  | none ↦ none
  | some inode ↦ elim (check_blocks 12 0 d.bytes inode.i_block t type) [
    | none ↦ none
    | some true ↦ some (negsuc 0)
    | some false ↦ some inode_num
  ]
]
walk_from (t ∷ u ∷ ts) inode_num d type = elim (inode_at d inode_num) [
  | none ↦ none
  | some inode ↦ elim (enter_blocks 12 0 d.bytes inode.i_block t) [
    | none ↦ none
    | some (pos num) ↦ walk_from (u ∷ ts) (pos num) d type
    | some (negsuc num) ↦ some (pos enoent)
  ]
]

-- `absolute_path[strlen(absolute_path) - 1]`
unfoldable pub last_byte : List ℕ → Option ℕ
last_byte [] = none
last_byte (c ∷ []) = some c
last_byte (c ∷ d ∷ ds) = last_byte (d ∷ ds)

unfoldable pub walk_path : Disk → (absolute_path : List ℕ) → (type : ℕ) → Option ℤ
walk_path d absolute_path type = elim (last_byte absolute_path) [
  | none ↦ none
  | some c ↦ elim (c == slash) [
    | true ↦ some (pos enoent)
    | false ↦ elim (tokens absolute_path) [
      | [] ↦ none
      | t ∷ ts ↦ elim (find_starting_inode d t) [
        | none ↦ none
        | some inode_num ↦ walk_from ts inode_num d type
      ]
    ]
  ]
]
