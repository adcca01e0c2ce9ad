-- ===== src/Ext2/Remove.antt =====
-- `rm_from_directory` of A4/utility.c: the entry of a name taken out of a block of a directory.
pub mod Merge
use csc369_uoft.Base.{ℕ, zero, suc, ◌+◌, ◌*◌, Bool, true, false, Option, none, some, List, ◌==◌}
use csc369_uoft.Base.Int.{ℤ, pos, negsuc}
use csc369_uoft.Ext2.Bytes.{store32, same_text}
use csc369_uoft.Ext2.Entries.{
  DirEntry, load_entry, entry_at, store_rec_len, ext2_ft_dir, image_size,
}
use csc369_uoft.Ext2.Paths.{tokens, last_of}

-- `current_entry->rec_len += next_entry->rec_len`
unfoldable pub add_rec_len : (ℕ → ℕ) → (current len : ℕ) → ℕ → ℕ
add_rec_len m current len = store_rec_len m current ((load_entry m current).rec_len + len)

-- The loop over the entries of the block at `base`, with `size` bytes behind it and the entry before at
-- `current`: the result and the bytes. It is `none` where the loop leaves the image or never ends.
unfoldable pub rm_from : ℕ → (ℕ → ℕ) → (base size current : ℕ) → List ℕ → Option (ℤ × (ℕ → ℕ))
rm_from zero m base size current final = none
rm_from (suc n) m base size current final = elim (size == 1024) [
  | true ↦ some (pos 0, m)
  | false ↦ elim (entry_at m (base + size)) [
    | none ↦ none
    | some next ↦ elim (same_text next.name final) [
      | true ↦ elim (next.file_type == ext2_ft_dir) [
        | true ↦ some (negsuc 0, m)
        | false ↦ some (pos 1, add_rec_len m current next.rec_len)
      ]
      | false ↦ rm_from n m base (size + next.rec_len) (base + size) final
    ]
  ]
]

-- The result 1 stands for an entry that was removed, 0 for none, and -1 for a directory.
unfoldable pub rm_from_directory :
    (ℕ → ℕ) → (data_block : ℕ) → (absolute_path : List ℕ) → Option (ℤ × (ℕ → ℕ))
rm_from_directory m data_block absolute_path = elim (last_of (tokens absolute_path)) [
  | none ↦ none
  | some final ↦ elim (entry_at m (1024 * data_block)) [
    | none ↦ none
    | some first ↦ elim (same_text first.name final) [
      | true ↦ some (pos 1, store32 m (1024 * data_block) 0)
      | false ↦ rm_from image_size m (1024 * data_block) 0 (1024 * data_block) final
    ]
  ]
]
