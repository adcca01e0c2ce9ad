-- ===== src/Ext2/Commands/Make.antt =====
-- `main` of A4/ext2_mkdir.c, once the image is mapped.
use csc369_uoft.Base.{
  ℕ, zero, suc, ◌+◌, ◌*◌, ◌%◌, ◌^◌, true, false, Option, none, some, List, [], ◌∷◌, leb, update,
}
use csc369_uoft.Base.Int.{pos, negsuc}
use csc369_uoft.Ext2.{Disk}
use csc369_uoft.Ext2.Alloc.{find_free_inode, find_free_data_block, is_data_block_used}
use csc369_uoft.Ext2.Commands.{cut_path, parent_of}
use csc369_uoft.Ext2.Entries.{store_entry, ext2_ft_dir, image_size}
use csc369_uoft.Ext2.Link.{Exit, returned, exited}
use csc369_uoft.Ext2.Walk.{inode_at, is_nonzero}
use csc369_uoft.Ext2.Write.{write_to_directory}

abbrev pub enospc : ℕ
enospc = 28

-- `inodes[num - 1].i_block[i] = block`
unfoldable pub set_block : Disk → (num i block : ℕ) → Disk
set_block d num i block = record d {
  inodes =
      update d.inodes num
        (record (d.inodes num) { i_block = update (d.inodes num).i_block i block });
}

-- `inodes[num - 1].i_blocks += 2`
unfoldable pub add_blocks : Disk → (num : ℕ) → Disk
add_blocks d num = record d {
  inodes =
      update d.inodes num
        (record (d.inodes num) { i_blocks = ((d.inodes num).i_blocks + 2) % 2 ^ 32 });
}

-- The stores to the new inode and to the counters of the group, of 16 bits. EXT2_S_IFDIR is 16384.
unfoldable pub make_inode : (now : ℕ) → Disk → (num : ℕ) → Disk
make_inode now d num = record d {
  inodes = update d.inodes num (record (d.inodes num) {
    i_mode = 16384;
    i_size = 1024;
    i_ctime = now;
    i_links_count = 1;
    i_blocks = 2;
  });
  bg_free_inodes_count = (d.bg_free_inodes_count + 65535) % 65536;
  bg_used_dirs_count = (d.bg_used_dirs_count + 1) % 65536;
}

-- The entries "." and ".." in the block of the new directory.
unfoldable pub make_dots : (ℕ → ℕ) → (block num parent : ℕ) → ℕ → ℕ
make_dots m block num parent =
    store_entry
      (store_entry m (1024 * block) (record {
        inode = num;
        rec_len = 12;
        name_len = 1;
        file_type = ext2_ft_dir;
        name = 46 ∷ [];
      }))
      (1024 * block + 12)
      (record {
        inode = parent;
        rec_len = 1012;
        name_len = 2;
        file_type = ext2_ft_dir;
        name = 46 ∷ 46 ∷ [];
      })

-- The loop over the blocks of the parent, with `n` rounds left. A call of `write_to_directory` cuts the path for the
-- next one.
unfoldable pub enter_parent :
    ℕ → (dirnum : ℕ) → Disk → (r : ℕ) → List ℕ → (num : ℕ) → Option (Exit ℕ × Disk)
enter_parent zero dirnum d r path num = some (returned 0, d)
enter_parent (suc n) dirnum d r path num =
    elim (is_nonzero (is_data_block_used ((d.inodes r).i_block dirnum) d)) [
      | true ↦ elim (write_to_directory d ((d.inodes r).i_block dirnum) r path num) [
        | none ↦ none
        | some (true, d') ↦ some (returned 0, d')
        | some (false, d') ↦ enter_parent n (dirnum + 1) d' r (cut_path path) num
      ]
      | false ↦ elim (find_free_data_block d) [
        | none ↦ some (returned enospc, d)
        | some (block, d1) ↦
            let d2 =
              set_block
                (record d1 { bg_free_blocks_count = (d1.bg_free_blocks_count + 65535) % 65536 }) r
                dirnum block in
            elim (write_to_directory d2 block r path num) [
              | none ↦ none
              | some (true, d') ↦ some (returned 0, add_blocks d' r)
              | some (false, d') ↦ enter_parent n (dirnum + 1) d' r (cut_path path) num
            ]
      ]
    ]

-- From the inode `r` of the parent on.
unfoldable pub make_directory :
    (now : ℕ) → (path : List ℕ) → (r : ℕ) → Disk → Option (Exit ℕ × Disk)
make_directory now path r d = elim (find_free_inode d) [
  | none ↦ some (returned enospc, d)
  | some (num, d1) ↦ elim (find_free_data_block (make_inode now d1 num)) [
    | none ↦ some (returned enospc, make_inode now d1 num)
    | some (block, d2) ↦ elim (leb (1024 * block + 1024) image_size) [
      | false ↦ none
      | true ↦
          let d3 = set_block d2 num 0 block in
          enter_parent 12 0 (record d3 { bytes = make_dots d3.bytes block num r }) r path num
    ]
  ]
]

unfoldable pub ext2_mkdir : (now : ℕ) → (input_path : List ℕ) → Disk → Option (Exit ℕ × Disk)
ext2_mkdir now input_path d = elim (parent_of d input_path ext2_ft_dir) [
  | none ↦ none
  | some (exited code) ↦ some (returned code, d)
  | some (returned (negsuc k)) ↦ none
  | some (returned (pos r)) ↦ elim (inode_at d (pos r)) [
    | none ↦ none
    | some inode ↦ make_directory now input_path r d
  ]
]
