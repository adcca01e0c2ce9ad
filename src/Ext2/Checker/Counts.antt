-- ===== src/Ext2/Checker/Counts.antt =====
-- The counters of free blocks and inodes after the check.
use csc369_uoft.Base.{
  ℕ, zero, suc, ◌+◌, ◌*◌, ◌/◌, ◌%◌, ◌^◌, ◌≤◌, ◌<◌, ◌≡◌, refl, ap, ◌∙◌, Bool, true, false, ◌==◌,
  if◌then◌else◌, arith, sym, some,
}
use csc369_uoft.Base.Bits.{has_bit, clear_bit, has_bit-set_bit, has_bit-clear_bit}
use csc369_uoft.Ext2.{Disk}
use csc369_uoft.Ext2.Alloc.Free.{in_use_at}
use csc369_uoft.Ext2.Checker.{
  bitmap_size, get_bitmap, set_bitmap, bit_at, put_bit, count_byte, count_free, count_fix,
  check_free_blocks_inodes,
}

-- A bit that was set to a value reads that value, and the others read what they read before.
pub bit_at-put_bit :
    (bits : ℕ → ℕ) (index j : ℕ) (value : Bool)
    → bit_at (put_bit bits index value) j ≡ (if j == index then value else bit_at bits j)
unfolding bit_at put_bit
bit_at-put_bit bits index j true = ground (
  arith,
  has_bit-set_bit (j % 8) (index % 8) (clear_bit (index % 8) (bits (index / 8))),
  has_bit-clear_bit (j % 8) (index % 8) (bits (index / 8)),
)
bit_at-put_bit bits index j false =
    ground (arith, has_bit-clear_bit (j % 8) (index % 8) (bits (index / 8)))

-- How many of the `n` bits from index `from` are clear.
unfoldable pub count_clear : ℕ → (from : ℕ) → (ℕ → ℕ) → ℕ
count_clear zero from bits = 0
count_clear (suc n) from bits = (if bit_at bits from then 0 else 1) + count_clear n (from + 1) bits

pub count_clear-le : (n from : ℕ) (bits : ℕ → ℕ) → count_clear n from bits ≤ n
unfolding count_clear
count_clear-le zero from bits = omega arith
count_clear-le (suc n) from bits = ground (arith, count_clear-le n (from + 1) bits)

count_clear-add :
    (n k from : ℕ) (bits : ℕ → ℕ)
    → count_clear (n + k) from bits ≡ count_clear n from bits + count_clear k (from + n) bits
unfolding count_clear
count_clear-add zero k from bits = ground arith
count_clear-add (suc n) k from bits =
    let e : suc n + k ≡ suc (n + k) = omega arith in
    let f : from + 1 + n ≡ from + suc n = omega arith in
    rw e (ground (arith, count_clear-add n k (from + 1) bits, f))

count_byte_lem :
    (n j i : ℕ) (bits : ℕ → ℕ)
    → j + n ≤ 8
    → count_byte n j (bits i) ≡ count_clear n (i * 8 + j) bits
unfolding count_byte count_clear bit_at
count_byte_lem zero j i bits h = refl
count_byte_lem (suc n) j i bits h =
    let e : i * 8 + (j + 1) ≡ i * 8 + j + 1 = omega arith in
    let here = in_use_at bits i j (omega arith) in
    rw (here, ← e)
      (ap (λ (x : ℕ). (if has_bit j (bits i) then 0 else 1) + x)
        (count_byte_lem n (j + 1) i bits (omega arith)))

pub count_free_lem :
    (n i : ℕ) (bits : ℕ → ℕ) → count_free n i bits ≡ count_clear (n * 8) (i * 8) bits
unfolding count_free count_clear
count_free_lem zero i bits = refl
count_free_lem (suc n) i bits =
    let e : suc n * 8 ≡ 8 + n * 8 = omega arith in
    let f : (i + 1) * 8 ≡ i * 8 + 8 = omega arith in
    let g : i * 8 + 0 ≡ i * 8 = omega arith in
    rw
      (
        e,
        count_clear-add 8 (n * 8) (i * 8) bits,
        count_free,
        count_byte_lem 8 0 i bits (omega arith),
        g,
        count_free_lem n (i + 1) bits,
        f,
      )
      refl

-- The blocks and the inodes that the bitmaps show as free.
unfoldable pub free_blocks : Disk → ℕ
free_blocks d = count_clear (d.s_blocks_count / 8 * 8) 0 d.block_bits

unfoldable pub free_inodes : Disk → ℕ
free_inodes d = count_clear (d.s_inodes_count / 8 * 8) 0 d.inode_bits

kept32 :
    (free stored : ℕ) → free < 65536 → (if free == stored then stored else free % 2 ^ 32) ≡ free
kept32 free stored h = ground arith

kept16 : (free stored : ℕ) → free < 65536 → (if free == stored then stored else free % 65536) ≡ free
kept16 free stored h = ground arith

pub check_free_blocks_inodes_lem :
    (to_be_counted : Bool) (d : Disk) (counter : ℕ)
    → d.s_blocks_count < 65536
    → d.s_inodes_count < 65536
    → (check_free_blocks_inodes to_be_counted (d, counter)).0 ≡ record d {
      s_free_blocks_count = free_blocks d;
      bg_free_blocks_count = free_blocks d;
      s_free_inodes_count = free_inodes d;
      bg_free_inodes_count = free_inodes d;
    }
unfolding check_free_blocks_inodes free_blocks free_inodes
check_free_blocks_inodes_lem to_be_counted d counter hb hi =
    let b = count_free_lem (d.s_blocks_count / 8) 0 d.block_bits in
    let i = count_free_lem (d.s_inodes_count / 8) 0 d.inode_bits in
    let lb = count_clear-le (d.s_blocks_count / 8 * 8) 0 d.block_bits in
    let li = count_clear-le (d.s_inodes_count / 8 * 8) 0 d.inode_bits in
    rw
      (
        b,
        i,
        kept32 (free_blocks d) d.s_free_blocks_count (omega arith),
        kept16 (free_blocks d) d.bg_free_blocks_count (omega arith),
        kept32 (free_inodes d) d.s_free_inodes_count (omega arith),
        kept16 (free_inodes d) d.bg_free_inodes_count (omega arith),
      )
      refl

-- The four counters have the numbers that the bitmaps show.
abbrev pub IsCounted : Disk → Type 0
IsCounted d =
    (d.s_free_blocks_count ≡ free_blocks d)
    × (d.bg_free_blocks_count ≡ free_blocks d)
    × (d.s_free_inodes_count ≡ free_inodes d)
    × (d.bg_free_inodes_count ≡ free_inodes d)

same_count : (free stored : ℕ) → free ≡ stored → (free == stored) ≡ true
same_count free stored h = ground arith

check_free_blocks_inodes-IsCounted :
    (to_be_counted : Bool) (d : Disk) (counter : ℕ)
    → IsCounted d
    → check_free_blocks_inodes to_be_counted (d, counter) ≡ (d, counter)
unfolding check_free_blocks_inodes free_blocks free_inodes count_fix
check_free_blocks_inodes-IsCounted to_be_counted d counter (sb, gb, si, gi) =
    let b = count_free_lem (d.s_blocks_count / 8) 0 d.block_bits in
    let i = count_free_lem (d.s_inodes_count / 8) 0 d.inode_bits in
    let none_added : counter + 0 + 0 + 0 + 0 ≡ counter = omega arith in
    rw
      (
        same_count (count_free (d.s_blocks_count / 8) 0 d.block_bits) d.s_free_blocks_count
            (b ∙ sym sb),
        same_count (count_free (d.s_blocks_count / 8) 0 d.block_bits) d.bg_free_blocks_count
            (b ∙ sym gb),
        same_count (count_free (d.s_inodes_count / 8) 0 d.inode_bits) d.s_free_inodes_count
            (i ∙ sym si),
        same_count (count_free (d.s_inodes_count / 8) 0 d.inode_bits) d.bg_free_inodes_count
            (i ∙ sym gi),
        none_added,
      )
      refl

-- With less than 2^16 blocks and inodes, a second `check_free_blocks_inodes` changes nothing and
-- counts no repair, whether either call counts or not.
check_free_blocks_inodes_idem :
    (to_be_counted again : Bool) (d : Disk) (counter : ℕ)
    → d.s_blocks_count < 65536
    → d.s_inodes_count < 65536
    → check_free_blocks_inodes again (check_free_blocks_inodes to_be_counted (d, counter))
      ≡ check_free_blocks_inodes to_be_counted (d, counter)
unfolding free_blocks free_inodes
check_free_blocks_inodes_idem to_be_counted again d counter hb hi =
    let e = check_free_blocks_inodes_lem to_be_counted d counter hb hi in
    let s = check_free_blocks_inodes to_be_counted (d, counter) in
    let b = ap free_blocks e in
    let i = ap free_inodes e in
    check_free_blocks_inodes-IsCounted again s.0 s.1 (
      ap (λ (x : Disk). x.s_free_blocks_count) e ∙ sym b,
      ap (λ (x : Disk). x.bg_free_blocks_count) e ∙ sym b,
      ap (λ (x : Disk). x.s_free_inodes_count) e ∙ sym i,
      ap (λ (x : Disk). x.bg_free_inodes_count) e ∙ sym i,
    )

pub get_bitmap_lem :
    (bits : ℕ → ℕ) (index : ℕ)
    → index < bitmap_size
    → get_bitmap bits index ≡ some (bit_at bits index)
unfolding get_bitmap
get_bitmap_lem bits index lt = ground arith

pub set_bitmap_lem :
    (bits : ℕ → ℕ) (index : ℕ) (value : Bool)
    → index < bitmap_size
    → set_bitmap bits index value ≡ some (put_bit bits index value)
unfolding set_bitmap
set_bitmap_lem bits index value lt = ground arith
