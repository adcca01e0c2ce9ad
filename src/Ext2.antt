-- ===== src/Ext2.antt =====
-- A4: an ext2 image of one block group, with blocks of 1024 bytes. What A4/ext2.h lays out as the
-- superblock, the group descriptor, the inode table and the bitmaps are fields here; a bitmap is a
-- function from the number of a byte to the byte. The blocks of directories and files are bytes.
pub mod Bytes
pub mod Paths
pub mod Entries
pub mod Alloc
pub mod Search
pub mod Remove
pub mod Walk
pub mod Checker
pub mod Link
pub mod Gaps
pub mod Commands
pub mod Write
mod Sample
mod SampleTrees
mod Tests
use csc369_uoft.Base.{ℕ}

-- `struct ext2_inode`, the fields that are read or written. `i_block` is a function of the index.
pub record Inode : Type 0 where
  pub i_mode : ℕ
  pub i_size : ℕ
  pub i_ctime : ℕ
  pub i_dtime : ℕ
  pub i_links_count : ℕ
  pub i_blocks : ℕ
  pub i_block : ℕ → ℕ

pub record Disk : Type 0 where
  pub s_inodes_count : ℕ
  pub s_blocks_count : ℕ
  pub s_free_blocks_count : ℕ
  pub s_free_inodes_count : ℕ
  pub s_first_ino : ℕ
  pub bg_free_blocks_count : ℕ
  pub bg_free_inodes_count : ℕ
  pub bg_used_dirs_count : ℕ
  pub inode_bits : ℕ → ℕ
  pub block_bits : ℕ → ℕ
  -- by the number of the inode, which is its index and one more
  pub inodes : ℕ → Inode
  -- by the address in the image
  pub bytes : ℕ → ℕ
