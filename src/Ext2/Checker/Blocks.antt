-- ===== src/Ext2/Checker/Blocks.antt =====
-- The pass over the bitmap of the blocks.
use csc369_uoft.Base.{
  ℕ, zero, suc, ◌+◌, ◌-◌, ◌*◌, ◌/◌, ◌≤◌, ◌<◌, ◌≡◌, ◌≢◌, refl, ap, ◌∙◌, subst, Bool, true, some,
  List, leb, ◌||◌, ◌==◌, min, arith, inl, inr, Bool-cases, if◌then◌else◌, fun_ext,
}
use csc369_uoft.Base.Int.{pos}
use csc369_uoft.Ext2.{Disk}
use csc369_uoft.Ext2.Bytes.{load32}
use csc369_uoft.Ext2.Checker.{bitmap_size, bit_at, put_bit}
use csc369_uoft.Ext2.Checker.Counts.{bit_at-put_bit, get_bitmap_lem, set_bitmap_lem}
use csc369_uoft.Ext2.Checker.Descent.{check_tree_lem, Same-inode_at}
use csc369_uoft.Ext2.Checker.Passes.{
  Checked, fix_block_bit, fix_block_bits, mark_blocks, fix_blocks, check_blocks_bitmap,
}
use csc369_uoft.Ext2.Checker.Tree.{Same, IsDirTree, Reached, Repair}
use csc369_uoft.Ext2.Entries.{DirEntry, image_size}
use csc369_uoft.Ext2.Walk.{inode_at}

-- The block has a bit in the bitmap.
abbrev pub HasBit : ℕ → Type 0
HasBit block = (block ≢ 0) × (block ≤ bitmap_size)

-- A set bit stays set.
abbrev pub Keeps : (ℕ → ℕ) → (ℕ → ℕ) → Type 0
Keeps bits bits' = (j : ℕ) → bit_at bits j ≡ true → bit_at bits' j ≡ true

-- The blocks `block j`, from `j`, have their bit set.
abbrev pub AllMarked : (from to : ℕ) → (ℕ → ℕ) → (ℕ → ℕ) → Type 0
AllMarked from to block bits = (j : ℕ) → from ≤ j → j < to → bit_at bits (block j - 1) ≡ true

fix_block_bit_lem :
    (block : ℕ) (bits : ℕ → ℕ) (fixed : ℕ)
    → HasBit block
    → (bits' : ℕ → ℕ) × (fixed' : ℕ) × (fix_block_bit block (bits, fixed) ≡ some (bits', fixed'))
      × Keeps bits bits'
      × (bit_at bits' (block - 1) ≡ true)
unfolding fix_block_bit
fix_block_bit_lem zero bits fixed ne = absurd (ne.0 refl)
fix_block_bit_lem (suc index) bits fixed ne =
    let e : suc index - 1 ≡ index = omega arith in
    let lt : index < bitmap_size = omega (arith, ne.1) in
    let read = get_bitmap_lem bits index lt in
    elim (Bool-cases (bit_at bits index)) [
      | inl used ↦ rw (fix_block_bit, read, used, e) (bits, fixed, refl, λ j h. h, used)
      | inr free ↦
          rw (fix_block_bit, read, free, set_bitmap_lem bits index true lt, e)
            (
              put_bit bits index true,
              fixed + 1,
              refl,
              λ j h. ground (arith, bit_at-put_bit bits index j true, h),
              ground (arith, bit_at-put_bit bits index index true),
            )
    ]

fix_block_bits_lem :
    (n from : ℕ) (block bits : ℕ → ℕ) (fixed : ℕ)
    → ((j : ℕ) → from ≤ j → j < from + n → HasBit (block j))
    → (bits' : ℕ → ℕ) × (fixed' : ℕ) × (fix_block_bits n from block (bits, fixed)
        ≡ some (bits', fixed'))
      × Keeps bits bits'
      × AllMarked from (from + n) block bits'
unfolding fix_block_bits
fix_block_bits_lem zero from block bits fixed ne =
    (bits, fixed, refl, λ j h. h, λ j l u. absurd (omega arith))
fix_block_bits_lem (suc n) from block bits fixed ne =
    let (b1, f1, first, keeps, marked) =
      fix_block_bit_lem (block from) bits fixed (ne from (omega arith) (omega arith)) in
    let (b2, f2, rest, keeps', all) =
      fix_block_bits_lem n (from + 1) block b1 f1 (λ j l u. ne j (omega arith) (omega arith)) in
    rw (fix_block_bits, first)
      (
        b2,
        f2,
        rest,
        λ j h. keeps' j (keeps j h),
        λ j l u. elim (Bool-cases (from == j)) [
          | inl here ↦
              let same : from ≡ j = ground (arith, here) in
              subst (λ (x : ℕ). bit_at b2 (block x - 1) ≡ true) same
                (keeps' (block from - 1) marked)
          | inr after ↦ all j (ground (arith, after)) (omega arith)
        ],
      )

-- The direct blocks of an inode, and the numbers in its indirect block.
abbrev pub direct : Disk → ℕ → ℕ
direct d num = min ((d.inodes num).i_blocks / 2) 12

abbrev pub listed_block : Disk → (num j : ℕ) → ℕ
listed_block d num j = load32 d.bytes (1024 * (d.inodes num).i_block 12 + 4 * j)

-- An inode whose blocks have bits in the bitmap, and whose indirect block is in the image where it has one.
abbrev pub HasBlocks : Disk → ℕ → Type 0
HasBlocks d num =
    (inode_at d (pos num) ≡ some (d.inodes num))
    × ((j : ℕ) → 0 ≤ j → j < 0 + direct d num → HasBit ((d.inodes num).i_block j))
    × ((j : ℕ) → 0 ≤ j → j < 0 + ((d.inodes num).i_blocks / 2 - 12) → HasBit (listed_block d num j))
    × (12 < (d.inodes num).i_blocks / 2
        → 1024 * (d.inodes num).i_block 12 + 4 * ((d.inodes num).i_blocks / 2 - 12) ≤ image_size)

-- All blocks of an inode are marked in use.
abbrev pub BlocksMarked : Disk → ℕ → (ℕ → ℕ) → Type 0
BlocksMarked d num bits =
    AllMarked 0 (direct d num) (d.inodes num).i_block bits
    × AllMarked 0 ((d.inodes num).i_blocks / 2 - 12) (listed_block d num) bits

-- What `check_blocks_bitmap` may do: set bits of blocks.
abbrev pub SetsBlocks : Disk → Checked → Checked → Type 0
SetsBlocks d s t =
    (t.0 ≡ record s.0 { block_bits = t.0.block_bits }) × Keeps s.0.block_bits t.0.block_bits

mark_blocks_lem :
    (d : Disk) (num : ℕ) (bits : ℕ → ℕ)
    → HasBlocks d num
    → (bits' : ℕ → ℕ) × (fixed : ℕ) × (mark_blocks
          (d.inodes num).i_blocks
          (d.inodes num).i_block
          d.bytes
          bits
        ≡ some (bits', fixed))
      × Keeps bits bits'
      × BlocksMarked d num bits'
unfolding mark_blocks
mark_blocks_lem d num bits (here, direct_ne, listed_ne, inside) =
    let (b1, f1, first, keeps, marked) =
      fix_block_bits_lem (direct d num) 0 (d.inodes num).i_block bits 0 direct_ne in
    let (b2, f2, rest, keeps', listed) =
      fix_block_bits_lem ((d.inodes num).i_blocks / 2 - 12) 0 (listed_block d num) b1 f1
        listed_ne in
    let fits : (leb (1024 * (d.inodes num).i_block 12 + 4 * ((d.inodes num).i_blocks / 2 - 12))
            image_size
          || leb ((d.inodes num).i_blocks / 2) 12)
        ≡ true =
      ground (arith, inside) in
    (
      b2,
      f2,
      rw (mark_blocks, first, fits) rest,
      λ j h. keeps' j (keeps j h),
      (
        λ j l u. keeps' ((d.inodes num).i_block j - 1) (marked j l (omega arith)),
        λ j l u. listed j l (omega arith),
      ),
    )

fix_blocks_lem :
    (d : Disk) (num : ℕ) (s : Checked)
    → HasBlocks d num
    → Same d s.0
    → (t : Checked) × (fix_blocks num s ≡ some t)
      × SetsBlocks d s t
      × BlocksMarked d num t.0.block_bits
unfolding fix_blocks
fix_blocks_lem d num (e, count) valid same =
    let at = Same-inode_at d e num same valid.0 in
    let (bits, fixed, marks, keeps, marked) = mark_blocks_lem d num e.block_bits valid in
    let same_call : mark_blocks (e.inodes num).i_blocks (e.inodes num).i_block e.bytes e.block_bits
        ≡ mark_blocks (d.inodes num).i_blocks (d.inodes num).i_block d.bytes e.block_bits =
      ap (λ (x : ℕ). mark_blocks x (e.inodes num).i_block e.bytes e.block_bits) (same.i_blocks num)
      ∙ ap (λ (f : ℕ → ℕ). mark_blocks (d.inodes num).i_blocks f e.bytes e.block_bits)
          (fun_ext (λ i. same.i_block num i))
      ∙ ap
          (λ (f : ℕ → ℕ). mark_blocks (d.inodes num).i_blocks (d.inodes num).i_block f e.block_bits)
          same.bytes in
    rw (fix_blocks, at, same_call, marks)
      (
        (record e { block_bits = bits }, count + (if fixed == 0 then 0 else 1)),
        refl,
        (refl, keeps),
        marked,
      )

abbrev block_bit_repair : (d : Disk) → Repair d (HasBlocks d) fix_blocks
block_bit_repair d = record {
  Allowed = SetsBlocks d;
  Done = λ num s. BlocksMarked d num s.0.block_bits;
  Allowed-refl = λ s. (refl, λ j h. h);
  Allowed-trans = λ s t u h k. (
    k.0 ∙ ap (λ (x : Disk). record x { block_bits = u.0.block_bits }) h.0,
    λ j e. k.1 j (h.1 j e),
  );
  Allowed-Same = λ s t h. record {
    bytes = ap (λ (x : Disk). x.bytes) h.0;
    number = ap (λ (x : Disk). x.s_inodes_count) h.0;
    i_blocks = λ num. ap (λ (x : Disk). (x.inodes num).i_blocks) h.0;
    i_block = λ num i. ap (λ (x : Disk). (x.inodes num).i_block i) h.0;
  };
  Done-Allowed = λ num s t h m. (
    λ j l u. h.1 ((d.inodes num).i_block j - 1) (m.0 j l u),
    λ j l u. h.1 (listed_block d num j - 1) (m.1 j l u),
  );
  fixed = λ num s valid same. fix_blocks_lem d num s valid same;
}

-- On an image whose directories are a tree, where the blocks of every inode that an entry names
-- have numbers from 1 to 8192, which have a bit in the bitmap's block, and its indirect block is
-- inside the image where it has one: with more fuel than the directory is high,
-- `check_blocks_bitmap` ends. Then all blocks of every inode that is named in the directory or
-- below it, those of its indirect block included, are marked in use, no bit was cleared, and
-- nothing but the bitmap and the count changed.
pub check_blocks_bitmap_lem :
    (d : Disk) (is_dir : ℕ → Bool) (blocks : ℕ → ℕ → List DirEntry) (height : ℕ → ℕ)
    (fuel num count : ℕ)
    → IsDirTree d is_dir blocks height (HasBlocks d)
    → is_dir num ≡ true
    → height num < fuel
    → (t : Checked) × (check_blocks_bitmap fuel num (d, count) ≡ some t)
      × SetsBlocks d (d, count) t
      × ((e : DirEntry) → Reached d blocks num e → BlocksMarked d e.inode t.0.block_bits)
unfolding check_blocks_bitmap
check_blocks_bitmap_lem d is_dir blocks height fuel num count tree h enough =
    check_tree_lem d is_dir blocks height (HasBlocks d) fix_blocks tree (block_bit_repair d) fuel
      num (d, count) enough h
      (record { bytes = refl; number = refl; i_blocks = λ num. refl; i_block = λ num i. refl })
