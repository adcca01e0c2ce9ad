-- ===== src/Ext2/Write.antt =====
-- `write_to_directory` and `write_inode` of A4/utility.c: a new entry at the end of a block of a directory.
pub mod Append
pub mod Lookup
use csc369_uoft.Base.{
  ℕ, zero, suc, ◌+◌, ◌-◌, ◌*◌, ◌%◌, Bool, true, false, Option, none, some, List, ◌==◌, leb, length,
  update,
}
use csc369_uoft.Base.Int.{pos}
use csc369_uoft.Ext2.{Disk, Inode}
use csc369_uoft.Ext2.Entries.{
  DirEntry, load_entry, entry_at, store_rec_len, store_entry, ext2_ft_dir, ext2_ft_reg_file,
  image_size,
}
use csc369_uoft.Ext2.Paths.{tokens, last_of}
use csc369_uoft.Ext2.Walk.{inode_at}

-- The bytes of an entry whose name has this length, up to the next multiple of 4.
abbrev pub size_needed : ℕ → ℕ
size_needed len = 8 + (4 - (8 + len) % 4) % 4 + len

-- The loop to the end of the block at `base`, with `size` bytes behind it: where the last entry begins.
-- It is `none` where the loop leaves the image and where the fuel runs out, as an entry of length 0 makes it.
unfoldable pub last_from : ℕ → (ℕ → ℕ) → (base size : ℕ) → Option ℕ
last_from zero m base size = none
last_from (suc n) m base size = elim (entry_at m (base + size)) [
  | none ↦ none
  | some e ↦ elim (size + e.rec_len == 1024) [
    | true ↦ some size
    | false ↦ last_from n m base (size + e.rec_len)
  ]
]

-- `inode->i_links_count++`
unfoldable pub add_link : Inode → Inode
add_link inode = record inode { i_links_count = (inode.i_links_count + 1) % 65536 }

-- The entry for `final` with `size` bytes of the block before it. The length of the name is kept in a byte,
-- and `1024 - size` in 16 bits.
unfoldable pub new_entry : (size free_inode_num file_type : ℕ) → List ℕ → DirEntry
new_entry size free_inode_num file_type final = record {
  inode = free_inode_num;
  rec_len = (65536 + 1024 - size) % 65536;
  name_len = length final % 256;
  file_type = file_type;
  name = final;
}

-- The stores where the last entry, at `size`, is cut to its own `total_num_bits` bytes and the new one comes
-- after it. They are `none` where the new entry does not lie inside the image.
unfoldable pub append_entry :
    (ℕ → ℕ) → (base size total_num_bits free_inode_num file_type : ℕ) → List ℕ → Option (ℕ → ℕ)
append_entry m base size total_num_bits free_inode_num file_type final =
    elim (leb (base + (size + total_num_bits) + 8 + length final + 1) image_size) [
      | false ↦ none
      | true ↦ some (
          store_entry (store_rec_len m (base + size) total_num_bits)
            (base + (size + total_num_bits))
            (new_entry (size + total_num_bits) free_inode_num file_type final))
    ]

-- The body of both functions, which differ in the type of the new entry. A result of `none` stands for
-- an access outside the image or the inode table, and for a loop without end.
unfoldable pub write_entry :
    (file_type : ℕ)
    → Disk
    → (data_block parent_inode_num : ℕ) → (absolute_path : List ℕ) → (free_inode_num : ℕ)
    → Option (Bool × Disk)
write_entry file_type d data_block parent_inode_num absolute_path free_inode_num =
    elim (last_of (tokens absolute_path)) [
      | none ↦ none
      | some final ↦ elim (last_from image_size d.bytes (1024 * data_block) 0) [
        | none ↦ none
        | some size ↦
            elim (leb (size_needed (length final))
              (load_entry d.bytes (1024 * data_block + size)).rec_len) [
                | false ↦ some (false, d)
                | true ↦ elim (inode_at d (pos parent_inode_num)) [
                  | none ↦ none
                  | some inode ↦
                      elim (append_entry d.bytes (1024 * data_block) size
                        (size_needed (load_entry d.bytes (1024 * data_block + size)).name_len)
                        free_inode_num file_type final) [
                          | none ↦ none
                          | some bytes ↦ some (
                            true,
                            record d {
                              inodes = update d.inodes parent_inode_num (add_link inode);
                              bytes = bytes;
                            },
                          )
                        ]
                ]
              ]
      ]
    ]

unfoldable pub write_to_directory :
    Disk → (data_block parent_inode_num : ℕ) → List ℕ → (free_inode_num : ℕ) → Option (Bool × Disk)
write_to_directory d data_block parent_inode_num absolute_path free_inode_num =
    write_entry ext2_ft_dir d data_block parent_inode_num absolute_path free_inode_num

unfoldable pub write_inode :
    Disk → (data_block parent_inode_num : ℕ) → List ℕ → (free_inode_num : ℕ) → Option (Bool × Disk)
write_inode d data_block parent_inode_num absolute_path free_inode_num =
    write_entry ext2_ft_reg_file d data_block parent_inode_num absolute_path free_inode_num
