-- ===== src/Ext2/Search.antt =====
-- `search_directory` of A4/utility.c: the entry of a name in a block of a directory.
pub mod Find
use csc369_uoft.Base.{
  ℕ, zero, suc, ◌+◌, ◌*◌, Bool, true, false, ◌&&◌, Option, none, some, List, ◌==◌,
}
use csc369_uoft.Base.Int.{ℤ, negsuc, int32}
use csc369_uoft.Ext2.Bytes.{same_text}
use csc369_uoft.Ext2.Entries.{DirEntry, entry_at, ext2_ft_dir, image_size}

-- The entry is of the type and has the name.
unfoldable pub matches : List ℕ → ℕ → DirEntry → Bool
matches d_name type e = (e.file_type == type) && same_text e.name d_name

-- The loop over the entries of the block at `base`, with `size` bytes behind it: the number of the inode,
-- or -1. It is `none` where the loop leaves the image, and where it runs out of the fuel: then an entry of
-- length 0 keeps it at one place for ever.
unfoldable pub search_from : ℕ → (ℕ → ℕ) → (base size : ℕ) → List ℕ → ℕ → Option ℤ
search_from zero m base size d_name type = none
search_from (suc n) m base size d_name type = elim (size == 1024) [
  | true ↦ some (negsuc 0)
  | false ↦ elim (entry_at m (base + size)) [
    | none ↦ none
    | some e ↦ elim (matches d_name type e) [
      | true ↦ some (int32 e.inode)
      | false ↦ search_from n m base (size + e.rec_len) d_name type
    ]
  ]
]

-- `search_directory(data_block, d_name, type)`
unfoldable pub search_directory : (ℕ → ℕ) → (data_block : ℕ) → List ℕ → ℕ → Option ℤ
search_directory m data_block d_name type = elim (data_block == 0) [
  | true ↦ some (negsuc 0)
  | false ↦ elim (entry_at m (1024 * data_block)) [
    | none ↦ none
    | some e ↦ elim (e.file_type == ext2_ft_dir) [
      | true ↦ search_from image_size m (1024 * data_block) 0 d_name type
      | false ↦ some (negsuc 0)
    ]
  ]
]
