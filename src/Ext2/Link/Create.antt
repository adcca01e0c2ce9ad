-- ===== src/Ext2/Link/Create.antt =====
-- A4/ext2_ln.c: the entry, the inode and the block of a new link, and `main`.
use csc369_uoft.Base.{
  ℕ, zero, suc, ◌+◌, ◌-◌, ◌*◌, ◌/◌, ◌%◌, ◌^◌, Bool, true, false, Option, none, some, List, [], ◌∷◌,
  ◌==◌, leb, ltb, if◌then◌else◌, update, length,
}
use csc369_uoft.Base.Int.{pos}
use csc369_uoft.Ext2.{Disk, Inode}
use csc369_uoft.Ext2.Alloc.{find_free_inode, find_free_data_block}
use csc369_uoft.Ext2.Bytes.{store_text}
use csc369_uoft.Ext2.Entries.{
  entry_at, store_header, store_rec_len, ext2_ft_dir, ext2_ft_reg_file, ext2_ft_symlink, image_size,
}
use csc369_uoft.Ext2.Link.{
  eexist, Exit, returned, exited, directory_has_file, parse_source_path, parse_destinition_path,
  get_name_from_path,
}
use csc369_uoft.Ext2.Walk.{inode_at}
use csc369_uoft.Ext2.Write.{add_link}

abbrev pub enotsup : ℕ
enotsup = 95

-- The loop of `get_next_entry_position` over the block at `base`, with `size` bytes behind it: where the last entry
-- begins, and where the next one can.
unfoldable pub next_from : ℕ → (ℕ → ℕ) → (base size last_entry new_entry : ℕ) → Option (ℕ × ℕ)
next_from zero m base size last_entry new_entry = none
next_from (suc n) m base size last_entry new_entry = elim (ltb size 1024) [
  | false ↦ some (last_entry, new_entry)
  | true ↦ elim (entry_at m (base + size)) [
    | none ↦ none
    | some e ↦ elim (ltb 1023 (size + e.rec_len)) [
      | true ↦ next_from n m base (size + e.rec_len) size (size + (e.name_len / 4 + 1) * 4 + 8)
      | false ↦ next_from n m base (size + e.rec_len) last_entry new_entry
    ]
  ]
]

unfoldable pub get_next_entry_position : (ℕ → ℕ) → (block_num : ℕ) → Option (ℕ × ℕ)
get_next_entry_position m block_num = next_from image_size m (1024 * block_num) 0 0 0

-- `strncpy` of `n` bytes of a string.
unfoldable pub store_bytes : (ℕ → ℕ) → (a n : ℕ) → List ℕ → ℕ → ℕ
store_bytes m a zero s = m
store_bytes m a (suc n) [] = store_bytes (update m a 0) (a + 1) n []
store_bytes m a (suc n) (c ∷ cs) = store_bytes (update m a c) (a + 1) n cs

-- The stores of a new entry, whose name has no null byte after it.
unfoldable pub put_entry : (ℕ → ℕ) → (address rec_len inode file_type : ℕ) → List ℕ → ℕ → ℕ
put_entry m address rec_len inode file_type name =
    store_bytes
      (store_header m address record {
        inode = inode;
        rec_len = rec_len;
        name_len = length name % 256;
        file_type = file_type;
        name = name;
      })
      (address + 8) (length name % 256) name

-- The loop over the blocks of the directory: the bytes with the new entry, or none where no block has room.
unfoldable pub place_entry :
    ℕ → (i : ℕ) → (ℕ → ℕ) → Inode → (inode file_type : ℕ) → List ℕ → Option (Option (ℕ → ℕ))
place_entry zero i m dir inode file_type name = some none
place_entry (suc n) i m dir inode file_type name = elim (ltb i (dir.i_blocks / 2)) [
  | false ↦ some none
  | true ↦ elim (get_next_entry_position m (dir.i_block i)) [
    | none ↦ none
    | some (last_entry, new_entry) ↦ elim (ltb (new_entry + (8 + (length name / 4 + 1) * 4)) 1025) [
      | true ↦ some (
          some (
            store_rec_len
              (put_entry m (1024 * dir.i_block i + new_entry) (1024 - new_entry) inode file_type
                name)
              (1024 * dir.i_block i + last_entry) (new_entry - last_entry)))
      | false ↦ place_entry n (i + 1) m dir inode file_type name
    ]
  ]
]

-- The second half of both functions: the entry in a block with room, else in a new block of the directory.
unfoldable pub link_entry :
    Disk → (destination_inode inode file_type : ℕ) → List ℕ → Option (Exit ℕ × Disk)
link_entry d destination_inode inode file_type name = elim (inode_at d (pos destination_inode)) [
  | none ↦ none
  | some dir ↦ elim (place_entry 12 0 d.bytes dir inode file_type name) [
    | none ↦ none
    | some (some bytes) ↦ some (returned 0, record d { bytes = bytes })
    | some none ↦ elim (ltb 11 (dir.i_blocks / 2)) [
      | true ↦ some (exited enotsup, d)
      | false ↦ elim (find_free_data_block d) [
        | none ↦ some (exited 1, d)
        | some (block, d') ↦ elim (leb (1024 * block + 1024) image_size) [
          | false ↦ none
          | true ↦ some (
            returned 0,
            record d' {
              inodes = update d'.inodes destination_inode (record dir {
                i_block = update dir.i_block (dir.i_blocks / 2) block;
                i_blocks = (dir.i_blocks + 2) % 2 ^ 32;
              });
              bytes = put_entry d'.bytes (1024 * block) 1024 inode file_type name;
            },
          )
        ]
      ]
    ]
  ]
]

-- The type of an entry from `i_mode`; EXT2_FT_UNKNOWN is 0.
unfoldable pub type_of_mode : ℕ → ℕ
type_of_mode i_mode =
    if i_mode / 4096 == 8
    then ext2_ft_reg_file
    else if i_mode / 4096 == 10
    then ext2_ft_symlink
    else if i_mode / 4096 == 4
    then ext2_ft_dir
    else 0

unfoldable pub create_hard_link :
    Disk → (destination_inode source_inode : ℕ) → List ℕ → Option (Exit ℕ × Disk)
create_hard_link d destination_inode source_inode name = elim (inode_at d (pos source_inode)) [
  | none ↦ none
  | some source ↦
      link_entry (record d { inodes = update d.inodes source_inode (add_link source) })
        destination_inode source_inode (type_of_mode source.i_mode) name
]

-- `now` is the result of `time`. EXT2_S_IFLNK is 40960.
unfoldable pub create_soft_link :
    (now : ℕ)
    → Disk
    → (destination_inode : ℕ) → (source_path name : List ℕ) → Option (Exit ℕ × Disk)
create_soft_link now d destination_inode source_path name = elim (find_free_data_block d) [
  | none ↦ some (exited 1, d)
  | some (block, d1) ↦ elim (leb (1024 * block + length source_path + 1) image_size) [
    | false ↦ none
    | true ↦
        let d2 = record d1 { bytes = store_text d1.bytes (1024 * block) source_path } in
        elim (find_free_inode d2) [
          | none ↦ some (exited 1, d2)
          | some (num, d3) ↦
              link_entry
                (record d3 {
                  inodes = update d3.inodes num (record (d3.inodes num) {
                    i_mode = 40960;
                    i_size = length source_path;
                    i_ctime = now;
                    i_dtime = 0;
                    i_links_count = 1;
                    i_blocks = 2;
                    i_block = update (d3.inodes num).i_block 0 block;
                  });
                })
                destination_inode num ext2_ft_symlink name
        ]
  ]
]

-- The new link, once its directory and its name are known.
unfoldable pub create_link :
    (now : ℕ)
    → Disk
    → (is_symbol : Bool) → (directory source : ℕ) → (path1 name : List ℕ) → Option (Exit ℕ × Disk)
create_link now d is_symbol directory source path1 name =
    elim (directory_has_file d directory name) [
      | none ↦ none
      | some (suc num) ↦ some (exited eexist, d)
      | some zero ↦ elim is_symbol [
        | true ↦ create_soft_link now d directory path1 name
        | false ↦ create_hard_link d directory source name
      ]
    ]

-- `main` once the arguments are read and the image is mapped.
unfoldable pub ext2_ln :
    (now : ℕ) → (is_symbol : Bool) → (path1 path2 : List ℕ) → Disk → Option (Exit ℕ × Disk)
ext2_ln now is_symbol path1 path2 d = elim (parse_source_path d path1 is_symbol) [
  | none ↦ none
  | some (exited code) ↦ some (exited code, d)
  | some (returned source) ↦ elim (parse_destinition_path d path2) [
    | none ↦ none
    | some (exited code) ↦ some (exited code, d)
    | some (returned (directory, [])) ↦ elim (get_name_from_path path1) [
      | none ↦ none
      | some (exited code) ↦ some (exited code, d)
      | some (returned name) ↦ create_link now d is_symbol directory source path1 name
    ]
    | some (returned (directory, c ∷ cs)) ↦
        create_link now d is_symbol directory source path1 (c ∷ cs)
  ]
]
