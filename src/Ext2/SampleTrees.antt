-- ===== src/Ext2/SampleTrees.antt =====
-- The directories of the small image as trees.
use csc369_uoft.Base.{
  ℕ, zero, suc, ◌+◌, ◌-◌, ◌/◌, ◌≤◌, ◌<◌, ◌≡◌, ◌≢◌, refl, subst, sym, true, false, some, List, [],
  ◌∷◌, arith, inl, inr,
}
use mathlib.Core.List.{Memᴰ}
use mathlib.Core.List.Memᴰ
use csc369_uoft.Base.Int.{pos}
use csc369_uoft.Ext2.Alloc.{is_data_block_used, test_byte, test_bit}
use csc369_uoft.Ext2.Bytes.{same_text}
use csc369_uoft.Ext2.Checker.Passes.{is_proper}
use csc369_uoft.Ext2.Checker.Blocks.{HasBit, HasBlocks, direct, listed_block}
use csc369_uoft.Ext2.Checker.Repairs.{IsInode}
use csc369_uoft.Ext2.Checker.Tree.{IsDirTree, IsRead, enters}
use csc369_uoft.Ext2.Entries.{DirEntry, ext2_ft_dir}
use csc369_uoft.Ext2.Entries.Layout.{IsBlock}
use csc369_uoft.Ext2.Sample.{
  sample_bytes, entry, entry_a, entry_f, root_entries, a_entries, root_entries-IsBlock,
  a_entries-IsBlock, image, is_dir, height, blocks, is_dir-cases,
}
use csc369_uoft.Ext2.Search.{matches}
use csc369_uoft.Ext2.Search.Find.{find_entry, IsDirBlock}
use csc369_uoft.Ext2.Walk.{inode_at}
use csc369_uoft.Ext2.Walk.Tree.{IsTree}

root-IsDirBlock : IsDirBlock sample_bytes 9 root_entries
root-IsDirBlock = (λ e. absurd (omega arith), omega arith, refl, root_entries-IsBlock)

pub a-IsDirBlock : IsDirBlock sample_bytes 10 a_entries
a-IsDirBlock = (λ e. absurd (omega arith), omega arith, refl, a_entries-IsBlock)

-- The trees of the image.
is_dir-inode : (num : ℕ) → is_dir num ≡ true → inode_at image (pos num) ≡ some (image.inodes num)
unfolding inode_at
is_dir-inode num h = elim (is_dir-cases num h) [
  | inl e ↦ subst (λ (x : ℕ). inode_at image (pos x) ≡ some (image.inodes x)) (sym e) refl
  | inr e ↦ subst (λ (x : ℕ). inode_at image (pos x) ≡ some (image.inodes x)) (sym e) refl
]

-- Every block of the directories is the first one, or is not there.
held_at :
    (num i : ℕ)
    → is_dir num ≡ true
    → IsDirBlock sample_bytes ((image.inodes num).i_block i) (blocks num i)
held_at num zero h = elim (is_dir-cases num h) [
  | inl e ↦
      subst (λ (x : ℕ). IsDirBlock sample_bytes ((image.inodes x).i_block 0) (blocks x 0)) (sym e)
        root-IsDirBlock
  | inr e ↦
      subst (λ (x : ℕ). IsDirBlock sample_bytes ((image.inodes x).i_block 0) (blocks x 0)) (sym e)
        a-IsDirBlock
]
held_at num (suc i) h = elim (is_dir-cases num h) [
  | inl e ↦
      subst
        (λ (x : ℕ). IsDirBlock sample_bytes ((image.inodes x).i_block (suc i)) (blocks x (suc i)))
        (sym e) refl
  | inr e ↦
      subst
        (λ (x : ℕ). IsDirBlock sample_bytes ((image.inodes x).i_block (suc i)) (blocks x (suc i)))
        (sym e) refl
]

-- A directory that is found is one of the two.
found_is_dir :
    (num i k : ℕ) (d_name : List ℕ)
    → is_dir num ≡ true
    → find_entry (blocks num i) d_name ext2_ft_dir ≡ some k
    → is_dir k ≡ true
unfolding find_entry matches
found_is_dir num zero k d_name h found = elim (is_dir-cases num h) [
  | inl e ↦
      in_root k d_name
        (subst (λ (x : ℕ). find_entry (blocks x 0) d_name ext2_ft_dir ≡ some k) e found)
  | inr e ↦
      in_a k d_name (subst (λ (x : ℕ). find_entry (blocks x 0) d_name ext2_ft_dir ≡ some k) e found)
]
  where
    in_root :
        (k : ℕ) (d_name : List ℕ)
        → find_entry root_entries d_name ext2_ft_dir ≡ some k
        → is_dir k ≡ true
    in_root k d_name found = ground (arith, found)

    in_a :
        (k : ℕ) (d_name : List ℕ)
        → find_entry a_entries d_name ext2_ft_dir ≡ some k
        → is_dir k ≡ true
    in_a k d_name found = ground (arith, found)
found_is_dir num (suc i) k d_name h found = elim (is_dir-cases num h) [
  | inl e ↦ absurd (
      ground (
        arith,
        subst (λ (x : ℕ). find_entry (blocks x (suc i)) d_name ext2_ft_dir ≡ some k) e found,
      ))
  | inr e ↦ absurd (
      ground (
        arith,
        subst (λ (x : ℕ). find_entry (blocks x (suc i)) d_name ext2_ft_dir ≡ some k) e found,
      ))
]

root_used : (i : ℕ) → is_data_block_used ((image.inodes 2).i_block i) image ≢ some false
unfolding is_data_block_used test_byte test_bit
root_used zero e = absurd (ground (arith, e))
root_used (suc i) e = absurd (ground (arith, e))

pub image-IsTree : IsTree image is_dir blocks
image-IsTree = record {
  root = refl;
  number = λ num h. elim (is_dir-cases num h) [
    | inl e ↦ (omega arith, omega arith, omega arith)
    | inr e ↦ (omega arith, omega arith, omega arith)
  ];
  held = λ num i h lt. held_at num i h;
  child = λ num i k d_name h lt found. found_is_dir num i k d_name h found;
  used = λ i lt. root_used i;
}

-- The directories with their heights, for the checker.
held-IsBlock :
    (num i : ℕ)
    → is_dir num ≡ true
    → IsRead image num i
    → ((image.inodes num).i_block i < 128)
      × IsBlock sample_bytes ((image.inodes num).i_block i) (blocks num i)
held-IsBlock num zero h read = elim (is_dir-cases num h) [
  | inl e ↦
      subst
        (λ (x : ℕ).
          ((image.inodes x).i_block 0 < 128)
          × IsBlock sample_bytes ((image.inodes x).i_block 0) (blocks x 0))
        (sym e) (omega arith, root_entries-IsBlock)
  | inr e ↦
      subst
        (λ (x : ℕ).
          ((image.inodes x).i_block 0 < 128)
          × IsBlock sample_bytes ((image.inodes x).i_block 0) (blocks x 0))
        (sym e) (omega arith, a_entries-IsBlock)
]
held-IsBlock num (suc i) h read = absurd (no_second num i h read.1)
  where
    no_second : (num i : ℕ) → is_dir num ≡ true → suc i < (image.inodes num).i_blocks / 2 → ⊥
    no_second num i h lt = elim (is_dir-cases num h) [
      | inl e ↦ beyond i (subst (λ (x : ℕ). suc i < (image.inodes x).i_blocks / 2) e lt)
      | inr e ↦ beyond i (subst (λ (x : ℕ). suc i < (image.inodes x).i_blocks / 2) e lt)
    ]
      where
        beyond : (i : ℕ) → suc i < 2 / 2 → ⊥
        beyond i lt = omega arith

all_three :
    (P : DirEntry → Type 0) (x y z e : DirEntry) → P x → P y → P z → Memᴰ e (x ∷ y ∷ z ∷ []) → P e
all_three P x y z e px py pz m = elim (Memᴰ.cases_cons m) [
  | inl here ↦ subst P (sym here) px
  | inr m1 ↦ elim (Memᴰ.cases_cons m1) [
    | inl here ↦ subst P (sym here) py
    | inr m2 ↦ subst P (sym (Memᴰ.eq_of_singleton m2)) pz
  ]
]

module _ (Valid : ℕ → Type 0) (valid_two : Valid 2) (valid_twelve : Valid 12)
    (valid_thirteen : Valid 13) where
  -- What holds of every entry that a directory lists.
  abbrev Listed : DirEntry → ℕ → Type 0
  Listed e num =
      Valid e.inode × (enters e ≡ true → (is_dir e.inode ≡ true) × (height e.inode < height num))

  Listed-root : (e : DirEntry) → Memᴰ e root_entries → Listed e 2
  unfolding is_proper same_text
  Listed-root e m =
      all_three (λ (x : DirEntry). Listed x 2) (entry 2 12 2 (46 ∷ []) 1)
        (entry 2 12 2 (46 ∷ 46 ∷ []) 2) entry_a e (valid_two, λ en. absurd (ground (arith, en)))
        (valid_two, λ en. absurd (ground (arith, en))) (valid_twelve, λ en. (refl, omega arith)) m

  Listed-a : (e : DirEntry) → Memᴰ e a_entries → Listed e 12
  unfolding is_proper same_text
  Listed-a e m =
      all_three (λ (x : DirEntry). Listed x 12) (entry 12 12 2 (46 ∷ []) 1)
        (entry 2 12 2 (46 ∷ 46 ∷ []) 2) entry_f e (valid_twelve, λ en. absurd (ground (arith, en)))
        (valid_two, λ en. absurd (ground (arith, en)))
        (valid_thirteen, λ en. absurd (ground (arith, en))) m

  Listed-at : (num i : ℕ) (e : DirEntry) → is_dir num ≡ true → Memᴰ e (blocks num i) → Listed e num
  Listed-at num zero e h m = elim (is_dir-cases num h) [
    | inl two ↦
        subst (λ (x : ℕ). Listed e x) (sym two)
          (Listed-root e (subst (λ (x : ℕ). Memᴰ e (blocks x 0)) two m))
    | inr twelve ↦
        subst (λ (x : ℕ). Listed e x) (sym twelve)
          (Listed-a e (subst (λ (x : ℕ). Memᴰ e (blocks x 0)) twelve m))
  ]
  Listed-at num (suc i) e h m = elim (is_dir-cases num h) [
    | inl two ↦ absurd (Memᴰ.not-nil (subst (λ (x : ℕ). Memᴰ e (blocks x (suc i))) two m))
    | inr twelve ↦ absurd (Memᴰ.not-nil (subst (λ (x : ℕ). Memᴰ e (blocks x (suc i))) twelve m))
  ]

  pub image-IsDirTree : IsDirTree image is_dir blocks height Valid
  image-IsDirTree = record {
    number = is_dir-inode;
    held = held-IsBlock;
    valid = λ num i e h read m ne. (Listed-at num i e h m).0;
    child = λ num i e h read m ne en. (Listed-at num i e h m).1 en;
  }

pub inode-IsDirTree : IsDirTree image is_dir blocks height (IsInode image)
inode-IsDirTree =
    image-IsDirTree (IsInode image) (omega arith, omega arith) (omega arith, omega arith)
      (omega arith, omega arith)

-- An inode of one block.
image-HasBlocks :
    (num b : ℕ)
    → inode_at image (pos num) ≡ some (image.inodes num)
    → (image.inodes num).i_blocks ≡ 2
    → (image.inodes num).i_block 0 ≡ b
    → HasBit b
    → HasBlocks image num
image-HasBlocks num b at two first ne = (at, direct_ne, listed_ne, λ h. absurd (omega arith))
  where
    direct_ne : (j : ℕ) → 0 ≤ j → j < 0 + direct image num → HasBit ((image.inodes num).i_block j)
    direct_ne zero l u = rw first ne
    direct_ne (suc j) l u = absurd (omega arith)

    listed_ne :
        (j : ℕ)
        → 0 ≤ j
        → j < 0 + ((image.inodes num).i_blocks / 2 - 12)
        → HasBit (listed_block image num j)
    listed_ne j l u = absurd (omega arith)

pub block-IsDirTree : IsDirTree image is_dir blocks height (HasBlocks image)
unfolding inode_at
block-IsDirTree =
    image-IsDirTree (HasBlocks image)
      (image-HasBlocks 2 9 refl refl refl ((λ e. absurd (omega arith)), omega arith))
      (image-HasBlocks 12 10 refl refl refl ((λ e. absurd (omega arith)), omega arith))
      (image-HasBlocks 13 11 refl refl refl ((λ e. absurd (omega arith)), omega arith))
