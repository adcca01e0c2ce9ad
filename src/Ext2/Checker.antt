-- ===== src/Ext2/Checker.antt =====
-- A4/ext2_checker.c: the bits of the bitmaps, and the counters of free blocks and inodes.
pub mod Counts
pub mod Passes
pub mod Tree
pub mod Descent
pub mod Repairs
pub mod Blocks
use csc369_uoft.Base.{
  ℕ, zero, suc, ◌+◌, ◌-◌, ◌*◌, ◌/◌, ◌%◌, ◌^◌, Bool, true, false, ◌==◌, if◌then◌else◌, update,
  Option, none, some, ltb,
}
use csc369_uoft.Base.Bits.{has_bit, set_bit, clear_bit}
use csc369_uoft.Ext2.{Disk}

-- The bits of the block that a bitmap has in the image.
abbrev pub bitmap_size : ℕ
bitmap_size = 8192

unfoldable pub bit_at : (ℕ → ℕ) → ℕ → Bool
bit_at bits index = has_bit (index % 8) (bits (index / 8))

unfoldable pub put_bit : (ℕ → ℕ) → ℕ → Bool → ℕ → ℕ
put_bit bits index value =
    let the_byte = clear_bit (index % 8) (bits (index / 8)) in
    update bits (index / 8) (if value then set_bit (index % 8) the_byte else the_byte)

-- `getBitmap(bitmap_addr, index)`. The code does not test the index; an access behind the bitmap's block is
-- `none`.
unfoldable pub get_bitmap : (ℕ → ℕ) → ℕ → Option Bool
get_bitmap bits index = if ltb index bitmap_size then some (bit_at bits index) else none

-- `setBitmap(bitmap_addr, index, value)`, likewise
unfoldable pub set_bitmap : (ℕ → ℕ) → ℕ → Bool → Option (ℕ → ℕ)
set_bitmap bits index value =
    if ltb index bitmap_size then some (put_bit bits index value) else none

-- The loop over the bits of a byte, from bit `j` with `n` rounds left: how many are clear.
unfoldable pub count_byte : ℕ → (j seg : ℕ) → ℕ
count_byte zero j seg = 0
count_byte (suc n) j seg = (if has_bit j seg then 0 else 1) + count_byte n (j + 1) seg

-- The loop over the bytes of a bitmap.
unfoldable pub count_free : ℕ → (i : ℕ) → (ℕ → ℕ) → ℕ
count_free zero i bits = 0
count_free (suc n) i bits = count_byte 8 0 (bits i) + count_free n (i + 1) bits

-- What a comparison adds to the counter where `to_be_counted` is set.
unfoldable pub count_fix : (to_be_counted : Bool) → (free stored : ℕ) → ℕ
count_fix to_be_counted free stored = if free == stored then 0 else if to_be_counted then 1 else 0

-- `check_free_blocks_inodes(counter, toBeCounted)`. The counters of the superblock have 32 bits, those of
-- the group 16.
unfoldable pub check_free_blocks_inodes : (to_be_counted : Bool) → Disk × ℕ → Disk × ℕ
check_free_blocks_inodes to_be_counted (d, counter) =
    let free_blocks = count_free (d.s_blocks_count / 8) 0 d.block_bits in
    let free_inodes = count_free (d.s_inodes_count / 8) 0 d.inode_bits in
    (
      record d {
        s_free_blocks_count =
            if free_blocks == d.s_free_blocks_count
            then d.s_free_blocks_count
            else free_blocks % 2 ^ 32;
        bg_free_blocks_count =
            if free_blocks == d.bg_free_blocks_count
            then d.bg_free_blocks_count
            else free_blocks % 65536;
        s_free_inodes_count =
            if free_inodes == d.s_free_inodes_count
            then d.s_free_inodes_count
            else free_inodes % 2 ^ 32;
        bg_free_inodes_count =
            if free_inodes == d.bg_free_inodes_count
            then d.bg_free_inodes_count
            else free_inodes % 65536;
      },
      counter
          + count_fix to_be_counted free_blocks d.s_free_blocks_count
          + count_fix to_be_counted free_blocks d.bg_free_blocks_count
          + count_fix to_be_counted free_inodes d.s_free_inodes_count
          + count_fix to_be_counted free_inodes d.bg_free_inodes_count,
    )
