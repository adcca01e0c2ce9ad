-- ===== src/Ext2/Commands/Copy.antt =====
-- `main` of A4/ext2_cp.c, once the image is mapped and the file is open. What `fgets` leaves in the buffer is a
-- parameter: one buffer for each call that does not give NULL.
use csc369_uoft.Base.{
  ℕ, zero, suc, ◌+◌, ◌-◌, ◌*◌, ◌%◌, ◌^◌, Bool, true, false, ◌&&◌, Option, none, some, List, [], ◌∷◌,
  ◌==◌, leb, ltb, if◌then◌else◌, update,
}
use csc369_uoft.Base.Int.{pos, negsuc}
use csc369_uoft.Ext2.{Disk}
use csc369_uoft.Ext2.Alloc.{find_free_inode, find_free_data_block, is_data_block_used}
use csc369_uoft.Ext2.Commands.{cut_path}
use csc369_uoft.Ext2.Commands.Make.{enospc, set_block, add_blocks}
use csc369_uoft.Ext2.Entries.{image_size}
use csc369_uoft.Ext2.Link.{Exit, returned, eexist}
use csc369_uoft.Ext2.Walk.{enoent, inode_at, is_nonzero, walk_path}
use csc369_uoft.Ext2.Write.{write_inode}

-- `memcpy` of a block.
unfoldable pub copy_block : (ℕ → ℕ) → (block : ℕ) → (buffer : ℕ → ℕ) → ℕ → ℕ
copy_block m block buffer j =
    if leb (1024 * block) j && ltb j (1024 * block + 1024) then buffer (j - 1024 * block) else m j

-- The stores to the new inode and to the counter of the group. EXT2_S_IFREG is 32768.
unfoldable pub make_file : (now : ℕ) → Disk → (num : ℕ) → Disk
make_file now d num = record d {
  inodes = update d.inodes num (record (d.inodes num) {
    i_mode = 32768;
    i_size = 0;
    i_ctime = now;
    i_links_count = 1;
    i_blocks = 0;
  });
  bg_free_inodes_count = (d.bg_free_inodes_count + 65535) % 65536;
}

-- `gd->bg_free_blocks_count--`
unfoldable pub take_block : Disk → Disk
take_block d = record d { bg_free_blocks_count = (d.bg_free_blocks_count + 65535) % 65536 }

-- The loop over the indirect block, with `n` rounds left, which copies one buffer again and again. The test for a
-- full image is `free_data_block == 1`: for -1 the copy goes to an address before the image. The table is of bytes.
unfoldable pub copy_indirect :
    ℕ → (y : ℕ) → Disk → (num table : ℕ) → (buffer : ℕ → ℕ) → Option (Bool × Disk)
copy_indirect zero y d num table buffer = some (true, d)
copy_indirect (suc n) y d num table buffer = elim (find_free_data_block d) [
  | none ↦ none
  | some (block, d1) ↦ elim (block == 1) [
    | true ↦ some (false, d1)
    | false ↦ elim (leb (1024 * block + 1024) image_size && ltb (1024 * table + y) image_size) [
      | false ↦ none
      | true ↦
          let d2 =
            add_blocks
              (take_block (record d1 { bytes = update d1.bytes (1024 * table + y) (block % 256) }))
              num in
          copy_indirect n (y + 1) (record d2 { bytes = copy_block d2.bytes block buffer }) num table
            buffer
    ]
  ]
]

-- The loop over the blocks of the new file, with `n` rounds left; false for the result ENOSPC.
unfoldable pub copy_blocks :
    ℕ → (i : ℕ) → Disk → (num file_size : ℕ) → (buffers : List (ℕ → ℕ)) → Option (Bool × Disk)
copy_blocks zero i d num file_size buffers = some (true, d)
copy_blocks (suc n) i d num file_size [] = some (
  true,
  record d {
    inodes =
        update d.inodes num
          (record (d.inodes num) { i_size = ((d.inodes num).i_size + file_size) % 2 ^ 32 });
  },
)
copy_blocks (suc n) i d num file_size (buffer ∷ buffers) = elim (i == 12) [
  | true ↦ elim (copy_indirect 256 0 d num ((d.inodes num).i_block 12) buffer) [
    | none ↦ none
    | some (false, d') ↦ some (false, d')
    | some (true, d') ↦ copy_blocks n (i + 1) d' num file_size buffers
  ]
  | false ↦ elim (find_free_data_block d) [
    | none ↦ some (false, d)
    | some (block, d1) ↦ elim (leb (1024 * block + 1024) image_size) [
      | false ↦ none
      | true ↦
          let d2 = add_blocks (set_block (take_block d1) num i block) num in
          copy_blocks n (i + 1) (record d2 { bytes = copy_block d2.bytes block buffer }) num
            file_size buffers
    ]
  ]
]

-- The loop over the blocks of the directory. In a block that is in use it ends whatever `write_inode` returns.
unfoldable pub enter_directory :
    ℕ → (dirnum : ℕ) → Disk → (r : ℕ) → List ℕ → (num : ℕ) → Option (Exit ℕ × Disk)
enter_directory zero dirnum d r path num = some (returned 0, d)
enter_directory (suc n) dirnum d r path num =
    elim (is_nonzero (is_data_block_used ((d.inodes r).i_block dirnum) d)) [
      | true ↦ elim (write_inode d ((d.inodes r).i_block dirnum) r path num) [
        | none ↦ none
        | some (written, d') ↦ some (returned 0, d')
      ]
      | false ↦ elim (find_free_data_block d) [
        | none ↦ some (returned enospc, d)
        | some (block, d1) ↦ elim (write_inode (set_block d1 r dirnum block) block r path num) [
          | none ↦ none
          | some (true, d') ↦ some (returned 0, add_blocks d' r)
          | some (false, d') ↦ enter_directory n (dirnum + 1) d' r (cut_path path) num
        ]
      ]
    ]

-- From the inode `r` of the directory on.
unfoldable pub copy_file :
    (now file_size : ℕ)
    → (buffers : List (ℕ → ℕ)) → (path : List ℕ) → (r : ℕ) → Disk
    → Option (Exit ℕ × Disk)
copy_file now file_size buffers path r d = elim (find_free_inode d) [
  | none ↦ some (returned enospc, d)
  | some (num, d1) ↦ elim (copy_blocks 13 0 (make_file now d1 num) num file_size buffers) [
    | none ↦ none
    | some (false, d2) ↦ some (returned enospc, d2)
    | some (true, d2) ↦ enter_directory 12 0 d2 r path num
  ]
]

unfoldable pub ext2_cp :
    (now file_size : ℕ)
    → (buffers : List (ℕ → ℕ)) → (absolute_path : List ℕ) → Disk
    → Option (Exit ℕ × Disk)
ext2_cp now file_size buffers absolute_path d = elim (walk_path d absolute_path 1) [
  | none ↦ none
  | some (negsuc k) ↦ some (returned eexist, d)
  | some (pos r) ↦ elim (r == enoent) [
    | true ↦ some (returned enoent, d)
    | false ↦ elim (inode_at d (pos r)) [
      | none ↦ none
      | some inode ↦ copy_file now file_size buffers absolute_path r d
    ]
  ]
]
