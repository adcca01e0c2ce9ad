-- ===== src/Ext2/Commands.antt =====
-- `main` of A4/ext2_rm.c and of A4/ext2_restore.c, once the image is mapped.
pub mod Make
pub mod Copy
pub mod Removal
use csc369_uoft.Base.{
  ℕ, zero, suc, ◌+◌, ◌*◌, Bool, true, false, Option, none, some, List, [], ◌∷◌, ◌==◌, if◌then◌else◌,
}
use csc369_uoft.Base.Int.{ℤ, pos, negsuc}
use csc369_uoft.Ext2.{Disk, Inode}
use csc369_uoft.Ext2.Gaps.{check_with_gaps}
use csc369_uoft.Ext2.Link.{Exit, returned, exited, eexist}
use csc369_uoft.Ext2.Paths.{slash, tokens}
use csc369_uoft.Ext2.Remove.{rm_from_directory}
use csc369_uoft.Ext2.Walk.{enoent, inode_at, walk_path}

unfoldable pub until_slash : List ℕ → List ℕ
until_slash [] = []
until_slash (c ∷ cs) = let rest = until_slash cs in if c == slash then [] else c ∷ rest

-- What is left of a path in its buffer after `strtok` has gone through it: a null byte stands for the slash after
-- the first token.
unfoldable pub cut_path : List ℕ → List ℕ
cut_path [] = []
cut_path (c ∷ cs) = let rest = cut_path cs in if c == slash then c ∷ rest else c ∷ until_slash cs

-- The directory of the command: the root for a path of one part, else what `walk_path` gives, or the code that
-- `main` returns.
unfoldable pub parent_of : Disk → List ℕ → (type : ℕ) → Option (Exit ℤ)
parent_of d path type = elim (tokens path) [
  | [] ↦ some (returned (pos 2))
  | t ∷ ts ↦ elim ts [
    | [] ↦ some (returned (pos 2))
    | u ∷ us ↦ elim (walk_path d path type) [
      | none ↦ none
      | some (negsuc k) ↦ some (exited eexist)
      | some (pos num) ↦ some (if num == enoent then exited enoent else returned (pos num))
    ]
  ]
]

-- The loops over the blocks, with `n` rounds left: `block` gives their numbers from the bytes, and `act` works on one of them. A result
-- that is not 0 ends the loop. The first call of `act` cuts the path for the others.
unfoldable pub act_on :
    ℕ
    → (i : ℕ) → ((ℕ → ℕ) → ℕ → List ℕ → Option (ℤ × (ℕ → ℕ)))
    → (block : (ℕ → ℕ) → ℕ → ℕ) → (ℕ → ℕ)
    → List ℕ
    → Option (Bool × (ℕ → ℕ) × List ℕ)
act_on zero i act block m path = some (false, m, path)
act_on (suc n) i act block m path = elim (act m (block m i) path) [
  | none ↦ none
  | some (negsuc k, m') ↦ some (true, m', cut_path path)
  | some (pos zero, m') ↦ act_on n (i + 1) act block m' (cut_path path)
  | some (pos (suc k), m') ↦ some (true, m', cut_path path)
]

-- The twelve blocks of the directory, then the bytes of the indirect block, which the code reads one by one.
unfoldable pub act_on_blocks :
    ((ℕ → ℕ) → ℕ → List ℕ → Option (ℤ × (ℕ → ℕ))) → Disk → Inode → List ℕ → Option (Exit ℕ × Disk)
act_on_blocks act d dir path = elim (act_on 12 0 act (λ m i. dir.i_block i) d.bytes path) [
  | none ↦ none
  | some (true, m, path') ↦ some (returned 0, record d { bytes = m })
  | some (false, m, path') ↦
      elim (act_on 256 0 act (λ m' y. m' (1024 * dir.i_block 12 + y)) m path') [
        | none ↦ none
        | some (found, m', path'') ↦ some (returned 0, record d { bytes = m' })
      ]
]

unfoldable pub command :
    ((ℕ → ℕ) → ℕ → List ℕ → Option (ℤ × (ℕ → ℕ)))
    → (absolute_path : List ℕ) → Disk
    → Option (Exit ℕ × Disk)
command act absolute_path d = elim (parent_of d absolute_path 1) [
  | none ↦ none
  | some (exited code) ↦ some (returned code, d)
  | some (returned r) ↦ elim (inode_at d r) [
    | none ↦ none
    | some dir ↦ act_on_blocks act d dir absolute_path
  ]
]

unfoldable pub ext2_rm : (absolute_path : List ℕ) → Disk → Option (Exit ℕ × Disk)
ext2_rm absolute_path d = command rm_from_directory absolute_path d

unfoldable pub ext2_restore : (absolute_path : List ℕ) → Disk → Option (Exit ℕ × Disk)
ext2_restore absolute_path d = command check_with_gaps absolute_path d
