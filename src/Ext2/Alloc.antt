-- ===== src/Ext2/Alloc.antt =====
-- `find_free_inode`, `find_free_data_block`, `is_inode_used` and `is_data_block_used` of A4/utility.c.
-- An inode or a block has the number of its bit and one more; `none` is the result -1.
pub mod Free
pub mod Used
use csc369_uoft.Base.{
  ℕ, zero, suc, ◌+◌, ◌/◌, Bool, true, false, not, ◌&&◌, Option, none, some, leb, ◌==◌,
  if◌then◌else◌, update,
}
use csc369_uoft.Base.Bits.{has_bit, set_bit}
use csc369_uoft.Ext2.{Disk}

-- The loop over the bits of byte `w`, from `bit` with `n` rounds left: the first bit that is clear, where
-- its index is not less than `least`. For a data block `least` is 0.
unfoldable pub find_bit : ℕ → (bit index least w : ℕ) → Option ℕ
find_bit zero bit index least w = none
find_bit (suc n) bit index least w =
    let rest = find_bit n (bit + 1) (index + 1) least w in
    if not (has_bit bit w) && leb least index then some bit else rest

-- The loop over the bytes: the number found and the bitmap with its bit set.
unfoldable pub find_byte : ℕ → (byte index least : ℕ) → (ℕ → ℕ) → Option (ℕ × (ℕ → ℕ))
find_byte zero byte index least bits = none
find_byte (suc n) byte index least bits = elim (find_bit 8 0 index least (bits byte)) [
  | none ↦ find_byte n (byte + 1) (index + 8) least bits
  | some bit ↦ some (index + bit + 1, update bits byte (set_bit bit (bits byte)))
]

unfoldable pub find_free_inode : Disk → Option (ℕ × Disk)
find_free_inode d = elim (find_byte (d.s_inodes_count / 8) 0 0 d.s_first_ino d.inode_bits) [
  | none ↦ none
  | some (num, bits) ↦ some (num, record d { inode_bits = bits })
]

unfoldable pub find_free_data_block : Disk → Option (ℕ × Disk)
find_free_data_block d = elim (find_byte (d.s_blocks_count / 8) 0 0 0 d.block_bits) [
  | none ↦ none
  | some (num, bits) ↦ some (num, record d { block_bits = bits })
]

-- The loop over the bits of byte `w`: whether the bit of number `num` is set, if it is among them.
unfoldable pub test_bit : ℕ → (bit number num w : ℕ) → Option Bool
test_bit zero bit number num w = none
test_bit (suc n) bit number num w =
    let rest = test_bit n (bit + 1) (number + 1) num w in
    if number == num then some (has_bit bit w) else rest

unfoldable pub test_byte : ℕ → (byte number num : ℕ) → (ℕ → ℕ) → Option Bool
test_byte zero byte number num bits = none
test_byte (suc n) byte number num bits = elim (test_bit 8 0 number num (bits byte)) [
  | none ↦ test_byte n (byte + 1) (number + 8) num bits
  | some used ↦ some used
]

unfoldable pub is_inode_used : ℕ → Disk → Option Bool
is_inode_used num d = test_byte (d.s_inodes_count / 8) 0 1 num d.inode_bits

unfoldable pub is_data_block_used : ℕ → Disk → Option Bool
is_data_block_used block_num d = test_byte (d.s_blocks_count / 8) 0 1 block_num d.block_bits
