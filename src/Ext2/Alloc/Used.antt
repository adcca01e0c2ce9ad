-- ===== src/Ext2/Alloc/Used.antt =====
-- What the tests of an inode and of a block of A4/utility.c say.
use csc369_uoft.Base.{
  ℕ, zero, suc, ◌+◌, ◌-◌, ◌*◌, ◌/◌, ◌≡◌, refl, ◌∙◌, ◌&&◌, none, some, leb, ltb, ◌==◌, if◌then◌else◌,
  arith, Bool-cases, inl, inr,
}
use csc369_uoft.Base.Bits.{has_bit}
use csc369_uoft.Ext2.{Disk}
use csc369_uoft.Ext2.Alloc.{test_bit, test_byte, is_inode_used, is_data_block_used}
use csc369_uoft.Ext2.Alloc.Free.{in_use, in_use_in}

test_bit_lem :
    (n bit number num w : ℕ)
    → test_bit n bit number num w ≡ (
        if leb number num && ltb num (number + n)
        then some (has_bit (bit + (num - number)) w)
        else none)
unfolding test_bit
test_bit_lem zero bit number num w = ground arith
test_bit_lem (suc n) bit number num w = elim (Bool-cases (number == num)) [
  | inl e ↦ ground (arith, e)
  | inr e ↦ rw (e, test_bit_lem n (bit + 1) (number + 1) num w) (ground arith)
]

test_byte_lem :
    (n byte number num : ℕ) (bits : ℕ → ℕ)
    → number ≡ byte * 8 + 1
    → test_byte n byte number num bits
      ≡ (if leb number num && leb num ((byte + n) * 8) then some (in_use bits (num - 1)) else none)
unfolding test_byte
test_byte_lem zero byte number num bits e = ground arith
test_byte_lem (suc n) byte number num bits e =
    elim (Bool-cases (leb number num && ltb num (number + 8))) [
      | inl here ↦
          rw (test_byte, test_bit_lem 8 0 number num (bits byte), here)
            (ground (arith, here, e, in_use_in bits byte (num - 1) (ground arith) (ground arith)))
      | inr beyond ↦
          rw (test_byte, test_bit_lem 8 0 number num (bits byte), beyond)
            (test_byte_lem n (byte + 1) (number + 8) num bits (omega arith)
              ∙ ground (arith, beyond))
    ]

-- For the number of an inode in the bitmap, `is_inode_used` returns whether its bit is set; for
-- any other number it returns -1.
is_inode_used_lem :
    (num : ℕ) (d : Disk)
    → is_inode_used num d ≡ (
        if leb 1 num && leb num (d.s_inodes_count / 8 * 8)
        then some (in_use d.inode_bits (num - 1))
        else none)
unfolding is_inode_used
is_inode_used_lem num d =
    test_byte_lem (d.s_inodes_count / 8) 0 1 num d.inode_bits refl ∙ ground arith

-- For the number of a block in the bitmap, `is_data_block_used` returns whether its bit is set;
-- for any other number it returns -1.
is_data_block_used_lem :
    (num : ℕ) (d : Disk)
    → is_data_block_used num d ≡ (
        if leb 1 num && leb num (d.s_blocks_count / 8 * 8)
        then some (in_use d.block_bits (num - 1))
        else none)
unfolding is_data_block_used
is_data_block_used_lem num d =
    test_byte_lem (d.s_blocks_count / 8) 0 1 num d.block_bits refl ∙ ground arith
