-- ===== src/Ext2/Checker/Repairs.antt =====
-- The passes over the bitmap of the inodes and over the deletion times.
use csc369_uoft.Base.{
  ℕ, zero, suc, ◌+◌, ◌-◌, ◌≤◌, ◌<◌, ◌≡◌, refl, ap, ◌∙◌, Bool, true, false, ◌&&◌, some, List, ◌==◌,
  leb, ltb, arith, ◌⊎◌, inl, inr, Bool-cases, if◌then◌else◌, update,
}
use csc369_uoft.Base.Int.{pos}
use csc369_uoft.Ext2.{Disk, Inode}
use csc369_uoft.Ext2.Checker.{bitmap_size, bit_at, put_bit}
use csc369_uoft.Ext2.Checker.Counts.{count_clear, bit_at-put_bit, get_bitmap_lem, set_bitmap_lem}
use csc369_uoft.Ext2.Checker.Descent.{check_tree_lem}
use csc369_uoft.Ext2.Checker.Passes.{
  Checked, fix_inode_bit, fix_dtime, check_inode_bitmap, check_dtime,
}
use csc369_uoft.Ext2.Checker.Tree.{Same, IsDirTree, Reached, Repair}
use csc369_uoft.Ext2.Entries.{DirEntry}
use csc369_uoft.Ext2.Walk.{inode_at}

-- A number of the inode table.
abbrev pub IsInode : Disk → ℕ → Type 0
IsInode d num = (1 ≤ num) × (num ≤ d.s_inodes_count)

count_clear-set :
    (n from k : ℕ) (bits : ℕ → ℕ)
    → bit_at bits k ≡ false
    → count_clear n from bits
      ≡ count_clear n from (put_bit bits k true) + (if leb from k && ltb k (from + n) then 1 else 0)
unfolding count_clear
count_clear-set zero from k bits h = ground arith
count_clear-set (suc n) from k bits h =
    ground (arith, h, bit_at-put_bit bits k from true, count_clear-set n (from + 1) k bits h)

-- What `check_inode_bitmap` may do: set bits, each counted once.
abbrev pub SetsInodes : ℕ → Checked → Checked → Type 0
SetsInodes n s t =
    (t.0 ≡ record s.0 { inode_bits = t.0.inode_bits })
    × ((j : ℕ) → bit_at s.0.inode_bits j ≡ true → bit_at t.0.inode_bits j ≡ true)
    × (t.1 + count_clear n 0 t.0.inode_bits ≡ s.1 + count_clear n 0 s.0.inode_bits)

fix_inode_bit_lem :
    (n num : ℕ) (s : Checked)
    → 1 ≤ num
    → num ≤ n
    → n ≤ bitmap_size
    → (t : Checked) × (fix_inode_bit num s ≡ some t)
      × SetsInodes n s t
      × (bit_at t.0.inode_bits (num - 1) ≡ true)
unfolding fix_inode_bit
fix_inode_bit_lem n num (d, count) low high small =
    let read_bit = get_bitmap_lem d.inode_bits (num - 1) (omega arith) in
    elim (Bool-cases (bit_at d.inode_bits (num - 1))) [
      | inl used ↦
          rw (fix_inode_bit, read_bit, used) ((d, count), refl, (refl, λ j h. h, refl), used)
      | inr free ↦
          let bits = put_bit d.inode_bits (num - 1) true in
          let read = bit_at-put_bit d.inode_bits (num - 1) in
          rw
            (
              fix_inode_bit,
              read_bit,
              free,
              set_bitmap_lem d.inode_bits (num - 1) true (omega arith),
            )
            (
              (record d { inode_bits = bits }, count + 1),
              refl,
              (
                refl,
                λ j h. ground (arith, read j true, h),
                ground (arith, count_clear-set n 0 (num - 1) d.inode_bits free),
              ),
              ground (arith, read (num - 1) true),
            )
    ]

abbrev inode_bit_repair :
    (d : Disk) → d.s_inodes_count ≤ bitmap_size → Repair d (IsInode d) fix_inode_bit
inode_bit_repair d small = record {
  Allowed = SetsInodes d.s_inodes_count;
  Done = λ num s. bit_at s.0.inode_bits (num - 1) ≡ true;
  Allowed-refl = λ s. (refl, λ j h. h, refl);
  Allowed-trans = λ s t u h k. (
    k.0 ∙ ap (λ (x : Disk). record x { inode_bits = u.0.inode_bits }) h.0,
    λ j e. k.1 j (h.1 j e),
    k.2 ∙ h.2,
  );
  Allowed-Same = λ s t h. record {
    bytes = ap (λ (x : Disk). x.bytes) h.0;
    number = ap (λ (x : Disk). x.s_inodes_count) h.0;
    i_blocks = λ num. ap (λ (x : Disk). (x.inodes num).i_blocks) h.0;
    i_block = λ num i. ap (λ (x : Disk). (x.inodes num).i_block i) h.0;
  };
  Done-Allowed = λ num s t h e. h.1 (num - 1) e;
  fixed = λ num s valid same. fix_inode_bit_lem d.s_inodes_count num s valid.0 valid.1 small;
}

-- What `check_dtime` may do: clear deletion times.
abbrev pub ClearsDtime : Checked → Checked → Type 0
ClearsDtime s t =
    (t.0 ≡ record s.0 { inodes = t.0.inodes })
    × ((num : ℕ)
        → (t.0.inodes num ≡ s.0.inodes num)
          ⊎ (t.0.inodes num ≡ record (s.0.inodes num) { i_dtime = 0 }))

fix_dtime_lem :
    (d : Disk) (num : ℕ) (s : Checked)
    → IsInode d num
    → Same d s.0
    → (t : Checked) × (fix_dtime num s ≡ some t) × ClearsDtime s t × ((t.0.inodes num).i_dtime ≡ 0)
unfolding fix_dtime inode_at
fix_dtime_lem d num (e, count) valid same =
    let at : inode_at e (pos num) ≡ some (e.inodes num) = ground (arith, valid, same.number) in
    elim (Bool-cases ((e.inodes num).i_dtime == 0)) [
      | inl zero_time ↦
          rw (fix_dtime, at, zero_time)
            ((e, count), refl, (refl, λ k. inl refl), ground (arith, zero_time))
      | inr deleted ↦
          let cleared = record (e.inodes num) { i_dtime = 0 } in
          rw (fix_dtime, at, deleted)
            (
              (record e { inodes = update e.inodes num cleared }, count + 1),
              refl,
              (refl, λ k. update-cases e.inodes num k),
              ground arith,
            )
    ]
  where
    update-cases :
        (f : ℕ → Inode) (i k : ℕ)
        → (update f i (record (f i) { i_dtime = 0 }) k ≡ f k)
          ⊎ (update f i (record (f i) { i_dtime = 0 }) k ≡ record (f k) { i_dtime = 0 })
    update-cases f i k = elim (Bool-cases (i == k)) [
      | inl same ↦
          let e : i ≡ k = ground (arith, same) in
          inr (rw same (ap (λ (x : ℕ). record (f x) { i_dtime = 0 }) e))
      | inr other ↦ inl (rw other refl)
    ]

ClearsDtime-trans : (s t u : Checked) → ClearsDtime s t → ClearsDtime t u → ClearsDtime s u
ClearsDtime-trans s t u h k = (
  k.0 ∙ ap (λ (x : Disk). record x { inodes = u.0.inodes }) h.0,
  λ num. both num (h.1 num) (k.1 num),
)
  where
    both :
        (num : ℕ)
        → (t.0.inodes num ≡ s.0.inodes num)
          ⊎ (t.0.inodes num ≡ record (s.0.inodes num) { i_dtime = 0 })
        → (u.0.inodes num ≡ t.0.inodes num)
          ⊎ (u.0.inodes num ≡ record (t.0.inodes num) { i_dtime = 0 })
        → (u.0.inodes num ≡ s.0.inodes num)
          ⊎ (u.0.inodes num ≡ record (s.0.inodes num) { i_dtime = 0 })
    both num (inl a) (inl b) = inl (b ∙ a)
    both num (inl a) (inr b) = inr (b ∙ ap (λ (x : Inode). record x { i_dtime = 0 }) a)
    both num (inr a) (inl b) = inr (b ∙ a)
    both num (inr a) (inr b) = inr (b ∙ ap (λ (x : Inode). record x { i_dtime = 0 }) a)

-- A field that no pass over the deletion times changes.
ClearsDtime-field {ℓ} :
    {A : Type ℓ} (g : Inode → A) (s t : Checked) (num : ℕ)
    → ((x : Inode) → g (record x { i_dtime = 0 }) ≡ g x)
    → ClearsDtime s t
    → g (t.0.inodes num) ≡ g (s.0.inodes num)
ClearsDtime-field g s t num kept h = elim (h.1 num) [
  | inl same ↦ ap g same
  | inr cleared ↦ ap g cleared ∙ kept (s.0.inodes num)
]

ClearsDtime-Done :
    (s t : Checked) (num : ℕ)
    → ClearsDtime s t
    → (s.0.inodes num).i_dtime ≡ 0
    → (t.0.inodes num).i_dtime ≡ 0
ClearsDtime-Done s t num h e = elim (h.1 num) [
  | inl same ↦ ap (λ (x : Inode). x.i_dtime) same ∙ e
  | inr cleared ↦ ap (λ (x : Inode). x.i_dtime) cleared
]

abbrev dtime_repair : (d : Disk) → Repair d (IsInode d) fix_dtime
dtime_repair d = record {
  Allowed = ClearsDtime;
  Done = λ num s. (s.0.inodes num).i_dtime ≡ 0;
  Allowed-refl = λ s. (refl, λ num. inl refl);
  Allowed-trans = ClearsDtime-trans;
  Allowed-Same = λ s t h. record {
    bytes = ap (λ (x : Disk). x.bytes) h.0;
    number = ap (λ (x : Disk). x.s_inodes_count) h.0;
    i_blocks = λ num. ClearsDtime-field (λ (x : Inode). x.i_blocks) s t num (λ x. refl) h;
    i_block = λ num i. ClearsDtime-field (λ (x : Inode). x.i_block i) s t num (λ x. refl) h;
  };
  Done-Allowed = λ num s t h e. ClearsDtime-Done s t num h e;
  fixed = λ num s valid same. fix_dtime_lem d num s valid same;
}

module _ (d : Disk) (is_dir : ℕ → Bool) (blocks : ℕ → ℕ → List DirEntry) (height : ℕ → ℕ)
    (tree : IsDirTree d is_dir blocks height (IsInode d)) where
  Same-refl : Same d d
  Same-refl = record {
    bytes = refl;
    number = refl;
    i_blocks = λ num. refl;
    i_block = λ num i. refl;
  }

  -- On an image of at most 8192 inodes, as many as the bitmap's block has bits, whose directories
  -- are a tree, with more fuel than the directory is high, `check_inode_bitmap` ends. Then the bit
  -- of every inode that is named in the directory or below it is set, no bit was cleared, nothing
  -- but the bitmap and the count changed, and the count rose by the number of bits of the image's
  -- inodes that were set.
  pub check_inode_bitmap_lem :
      (fuel num count : ℕ)
      → d.s_inodes_count ≤ bitmap_size
      → is_dir num ≡ true
      → height num < fuel
      → (t : Checked) × (check_inode_bitmap fuel num (d, count) ≡ some t)
        × SetsInodes d.s_inodes_count (d, count) t
        × ((e : DirEntry) → Reached d blocks num e → bit_at t.0.inode_bits (e.inode - 1) ≡ true)
  unfolding check_inode_bitmap
  check_inode_bitmap_lem fuel num count small h enough =
      check_tree_lem d is_dir blocks height (IsInode d) fix_inode_bit tree
        (inode_bit_repair d small) fuel num (d, count) enough h Same-refl

  -- On an image whose directories are a tree, with more fuel than the directory is high,
  -- `check_dtime` ends. Then no inode that is named in the directory or below it has a deletion
  -- time, and the image changed in nothing but deletion times, which were set to 0.
  pub check_dtime_lem :
      (fuel num count : ℕ)
      → is_dir num ≡ true
      → height num < fuel
      → (t : Checked) × (check_dtime fuel num (d, count) ≡ some t)
        × ClearsDtime (d, count) t
        × ((e : DirEntry) → Reached d blocks num e → (t.0.inodes e.inode).i_dtime ≡ 0)
  unfolding check_dtime
  check_dtime_lem fuel num count h enough =
      check_tree_lem d is_dir blocks height (IsInode d) fix_dtime tree (dtime_repair d) fuel num
        (d, count) enough h Same-refl
