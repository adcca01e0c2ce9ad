-- ===== src/Ext2/Link.antt =====
-- A4/ext2_ln.c: its own walk along a path, and the names of a link.
pub mod Create
pub mod Named
pub mod Place
pub mod Insert
pub mod Hard
pub mod Found
use csc369_uoft.Base.{
  ℕ, zero, suc, ◌+◌, ◌*◌, ◌/◌, Bool, true, false, not, ◌&&◌, Option, none, some, List, [], ◌∷◌,
  ◌==◌, ltb, if◌then◌else◌,
}
use csc369_uoft.Base.Int.{pos}
use csc369_uoft.Ext2.{Disk, Inode}
use csc369_uoft.Ext2.Bytes.{same_text}
use csc369_uoft.Ext2.Entries.{entry_at, image_size}
use csc369_uoft.Ext2.Paths.{slash, tokens}
use csc369_uoft.Ext2.Walk.{enoent, inode_at, last_byte}

abbrev pub eexist : ℕ
eexist = 17

abbrev pub enotdir : ℕ
enotdir = 20

abbrev pub eisdir : ℕ
eisdir = 21

-- A result, or the code of `exit`. Beside it, `none` stands for an access outside the image, the inode table or a
-- string, and for a loop without end.
pub data Exit {ℓ} (A : Type ℓ) : Type ℓ where
  returned : A → Exit A
  exited : ℕ → Exit A

unfoldable pub is_path_trailed : List ℕ → Bool
is_path_trailed path = elim (last_byte path) [ none ↦ false | some c ↦ c == slash ]

unfoldable pub is_path_begin_with_slash : List ℕ → Bool
is_path_begin_with_slash [] = false
is_path_begin_with_slash (c ∷ cs) = c == slash

-- The loop over the entries of the block at `base`, with `size` bytes behind it: the inode of the name, or 0.
unfoldable pub has_in_block : ℕ → (ℕ → ℕ) → (base size : ℕ) → List ℕ → Option ℕ
has_in_block zero m base size file_name = none
has_in_block (suc n) m base size file_name = elim (ltb size 1024) [
  | false ↦ some 0
  | true ↦ elim (entry_at m (base + size)) [
    | none ↦ none
    | some e ↦ elim (not (e.inode == 0) && same_text e.name file_name) [
      | true ↦ some e.inode
      | false ↦ has_in_block n m base (size + e.rec_len) file_name
    ]
  ]
]

-- The loop over the blocks, from index `i` with `n` rounds left.
unfoldable pub has_in_blocks : ℕ → (i : ℕ) → (ℕ → ℕ) → Inode → List ℕ → Option ℕ
has_in_blocks zero i m inode file_name = some 0
has_in_blocks (suc n) i m inode file_name = elim (ltb i (inode.i_blocks / 2)) [
  | false ↦ some 0
  | true ↦ elim (has_in_block image_size m (1024 * inode.i_block i) 0 file_name) [
    | none ↦ none
    | some zero ↦ has_in_blocks n (i + 1) m inode file_name
    | some (suc num) ↦ some (suc num)
  ]
]

unfoldable pub is_directory : Disk → ℕ → Option Bool
is_directory d inode_number = elim (inode_at d (pos inode_number)) [
  | none ↦ none
  | some inode ↦ some (inode.i_mode / 4096 == 4)
]

unfoldable pub directory_has_file : Disk → (inode_num : ℕ) → (file_name : List ℕ) → Option ℕ
directory_has_file d inode_num file_name = elim (inode_at d (pos inode_num)) [
  | none ↦ none
  | some inode ↦ elim (inode.i_mode / 4096 == 4) [
    | false ↦ some 0
    | true ↦ has_in_blocks 12 0 d.bytes inode file_name
  ]
]

-- The loop over the tokens.
unfoldable pub follow : Disk → (inode_number : ℕ) → List (List ℕ) → Option ℕ
follow d inode_number [] = some inode_number
follow d inode_number (t ∷ ts) = elim (directory_has_file d inode_number t) [
  | none ↦ none
  | some zero ↦ some 0
  | some (suc num) ↦ follow d (suc num) ts
]

-- The inode of a path, or 0. A path with a slash at its end has to lead to a directory.
unfoldable pub get_inode_from_path : Disk → List ℕ → Option ℕ
get_inode_from_path d path = elim (is_path_begin_with_slash path) [
  | false ↦ some 0
  | true ↦ elim (follow d 2 (tokens path)) [
    | none ↦ none
    | some zero ↦ some 0
    | some (suc num) ↦ elim (is_path_trailed path) [
      | false ↦ some (suc num)
      | true ↦ elim (is_directory d (suc num)) [
        | none ↦ none
        | some true ↦ some (suc num)
        | some false ↦ some 0
      ]
    ]
  ]
]

-- A path cut after its last slash; the first part is empty where there is none.
unfoldable pub split_last : List ℕ → List ℕ × List ℕ
split_last [] = ([], [])
split_last (c ∷ cs) =
    let (path, name) = split_last cs in
    elim path [
      | [] ↦ if c == slash then (c ∷ [], name) else ([], c ∷ name)
      | b ∷ bs ↦ (c ∷ b ∷ bs, name)
    ]

-- The directory of the new link, and its name, which is empty for the name of the source.
unfoldable pub parse_destinition_path : Disk → List ℕ → Option (Exit (ℕ × List ℕ))
parse_destinition_path d path = elim (get_inode_from_path d path) [
  | none ↦ none
  | some (suc num) ↦ elim (is_directory d (suc num)) [
    | none ↦ none
    | some true ↦ some (returned (suc num, []))
    | some false ↦ some (exited eexist)
  ]
  | some zero ↦ elim (is_path_trailed path) [
    | true ↦ some (exited enotdir)
    | false ↦ elim (is_path_begin_with_slash path) [
      | false ↦ some (exited enotdir)
      | true ↦ elim (get_inode_from_path d (split_last path).0) [
        | none ↦ none
        | some zero ↦ some (exited enoent)
        | some (suc num) ↦ some (returned (suc num, (split_last path).1))
      ]
    ]
  ]
]

unfoldable pub parse_source_path : Disk → List ℕ → (is_symbol : Bool) → Option (Exit ℕ)
parse_source_path d path is_symbol = elim (get_inode_from_path d path) [
  | none ↦ none
  | some zero ↦ some (exited enoent)
  | some (suc num) ↦ elim (is_directory d (suc num)) [
    | none ↦ none
    | some dir ↦ some (if not is_symbol && dir then exited eisdir else returned (suc num))
  ]
]

-- Without the last byte.
unfoldable pub trim : List ℕ → List ℕ
trim [] = []
trim (c ∷ []) = []
trim (c ∷ d ∷ ds) = c ∷ trim (d ∷ ds)

unfoldable pub get_name_from_path : List ℕ → Option (Exit (List ℕ))
get_name_from_path path = elim (is_path_begin_with_slash path) [
  | false ↦ some (exited enoent)
  | true ↦
      let (directory, name) = split_last (if is_path_trailed path then trim path else path) in
      elim directory [ [] ↦ none | b ∷ bs ↦ some (returned name) ]
]
