-- ===== src/Ext2/Alloc/Free.antt =====
-- What the searches for a free inode and a free block of A4/utility.c find.
use csc369_uoft.Base.{
  ℕ, zero, suc, ◌+◌, ◌-◌, ◌*◌, ◌/◌, ◌%◌, ◌≤◌, ◌<◌, ◌≡◌, refl, ap, ◌∙◌, Bool, true, false, not, ◌&&◌,
  ◌||◌, Option, none, some, leb, ltb, ◌==◌, update, arith, Bool-cases, inl, inr,
}
use csc369_uoft.Base.Bits.{has_bit, set_bit, has_bit-set_bit}
use csc369_uoft.Ext2.{Disk}
use csc369_uoft.Ext2.Alloc.{find_bit, find_byte, find_free_inode, find_free_data_block}

-- Bit `j` of a bitmap.
abbrev pub in_use : (ℕ → ℕ) → ℕ → Bool
in_use bits j = has_bit (j % 8) (bits (j / 8))

-- The result of `find_bit`: the lowest bit that is clear, from `bit` on and with its index not less than
-- `least`.
abbrev FoundBit : ℕ → (bit index least w : ℕ) → Option ℕ → Type 0
FoundBit n bit index least w none = (k : ℕ) → k < n → least ≤ index + k → has_bit (bit + k) w ≡ true
FoundBit n bit index least w (some r) =
    (k : ℕ) × (k < n)
    × (r ≡ bit + k)
    × (least ≤ index + k)
    × (has_bit r w ≡ false)
    × ((i : ℕ) → i < k → least ≤ index + i → has_bit (bit + i) w ≡ true)

bit_eq : (a b w : ℕ) → a ≡ b → has_bit a w ≡ has_bit b w
bit_eq a b w e = ap (λ (m : ℕ). has_bit m w) e

FoundBit-next :
    (n bit index least w : ℕ) (r : Option ℕ)
    → (least ≤ index → has_bit bit w ≡ true)
    → FoundBit n (bit + 1) (index + 1) least w r
    → FoundBit (suc n) bit index least w r
FoundBit-next n bit index least w none here h = all
  where
    all : FoundBit (suc n) bit index least w none
    all zero lt l = bit_eq (bit + 0) bit w (omega arith) ∙ here (omega arith)
    all (suc k) lt l =
        bit_eq (bit + suc k) (bit + 1 + k) w (omega arith) ∙ h k (omega arith) (omega arith)
FoundBit-next n bit index least w (some r) here (k, lt, e, l, clear, before) =
    (suc k, omega arith, omega arith, omega arith, clear, all)
  where
    all : (i : ℕ) → i < suc k → least ≤ index + i → has_bit (bit + i) w ≡ true
    all zero lt l = bit_eq (bit + 0) bit w (omega arith) ∙ here (omega arith)
    all (suc i) lt l =
        bit_eq (bit + suc i) (bit + 1 + i) w (omega arith) ∙ before i (omega arith) (omega arith)

find_bit-FoundBit :
    (n bit index least w : ℕ) → FoundBit n bit index least w (find_bit n bit index least w)
unfolding find_bit
find_bit-FoundBit zero bit index least w = λ k lt. absurd (omega arith)
find_bit-FoundBit (suc n) bit index least w =
    elim (Bool-cases (not (has_bit bit w) && leb least index)) [
      | inl c ↦
          rw c
            (0, omega arith, omega arith, ground arith, ground arith, λ i lt. absurd (omega arith))
      | inr c ↦ rw c (
          FoundBit-next n bit index least w (find_bit n (bit + 1) (index + 1) least w)
            (λ l. ground arith) (find_bit-FoundBit n (bit + 1) (index + 1) least w))
    ]

-- The result of a search of bitmap `bits` from bit `from` up to bit `to`, not included: the bit with the
-- lowest index, not less than `least`, that is clear, and the bitmap with that bit alone set.
abbrev pub FoundFree : (from to least : ℕ) → (ℕ → ℕ) → Option (ℕ × (ℕ → ℕ)) → Type 0
FoundFree from to least bits none = (j : ℕ) → from ≤ j → j < to → least ≤ j → in_use bits j ≡ true
FoundFree from to least bits (some (num, after)) =
    (0 < num)
    × (num ≤ to)
    × (least < num)
    × (in_use bits (num - 1) ≡ false)
    × ((j : ℕ) → from ≤ j → j < num - 1 → least ≤ j → in_use bits j ≡ true)
    × ((j : ℕ) → in_use after j ≡ (num - 1 == j || in_use bits j))

-- A bit by its byte and its place.
pub in_use_at :
    (bits : ℕ → ℕ) (byte k : ℕ) → k < 8 → in_use bits (byte * 8 + k) ≡ has_bit k (bits byte)
in_use_at bits byte k lt =
    let place : (byte * 8 + k) % 8 ≡ k = omega arith in
    let where_it_is : (byte * 8 + k) / 8 ≡ byte = omega arith in rw (place, where_it_is) refl

-- The bit of number `j`, which lies in byte `byte`.
pub in_use_in :
    (bits : ℕ → ℕ) (byte j : ℕ)
    → byte * 8 ≤ j
    → j < (byte + 1) * 8
    → in_use bits j ≡ has_bit (j - byte * 8) (bits byte)
in_use_in bits byte j l lt =
    let place : j % 8 ≡ j - byte * 8 = omega arith in
    let where_it_is : j / 8 ≡ byte = omega arith in rw (place, where_it_is) refl

in_use-set :
    (bits : ℕ → ℕ) (byte bit j : ℕ)
    → bit < 8
    → in_use (update bits byte (set_bit bit (bits byte))) j ≡ (byte * 8 + bit == j || in_use bits j)
in_use-set bits byte bit j lt = elim (Bool-cases (byte == j / 8)) [
  | inl e ↦ ground (arith, e, has_bit-set_bit (j % 8) bit (bits byte))
  | inr e ↦ ground (arith, e)
]

FoundFree-next :
    (n byte index least : ℕ) (bits : ℕ → ℕ) (r : Option (ℕ × (ℕ → ℕ)))
    → ((j : ℕ) → index ≤ j → j < index + 8 → least ≤ j → in_use bits j ≡ true)
    → FoundFree (index + 8) ((byte + 1 + n) * 8) least bits r
    → FoundFree index ((byte + suc n) * 8) least bits r
FoundFree-next n byte index least bits none here h = λ j a b l.
    elim (Bool-cases (ltb j (index + 8))) [
      | inl under ↦ here j a (ground arith) l
      | inr over ↦ h j (ground arith) (omega arith) l
    ]
FoundFree-next n byte index least bits (some (num, after)) here (pos, top, l, clear, before, set) =
    (
      pos,
      omega arith,
      l,
      clear,
      λ j a b l'. elim (Bool-cases (ltb j (index + 8))) [
        | inl under ↦ here j a (ground arith) l'
        | inr over ↦ before j (ground arith) b l'
      ],
      set,
    )

find_byte-FoundFree :
    (n byte index least : ℕ) (bits : ℕ → ℕ)
    → index ≡ byte * 8
    → FoundFree index ((byte + n) * 8) least bits (find_byte n byte index least bits)
unfolding find_byte
find_byte-FoundFree zero byte index least bits e = λ j a b. absurd (omega arith)
find_byte-FoundFree (suc n) byte index least bits e =
    go (find_bit 8 0 index least (bits byte)) refl (find_bit-FoundBit 8 0 index least (bits byte))
      (find_byte-FoundFree n (byte + 1) (index + 8) least bits (omega arith))
  where
    go :
        (r : Option ℕ)
        → find_bit 8 0 index least (bits byte) ≡ r
        → FoundBit 8 0 index least (bits byte) r
        → FoundFree
            (index + 8)
            ((byte + 1 + n) * 8)
            least
            bits
            (find_byte n (byte + 1) (index + 8) least bits)
        → FoundFree index ((byte + suc n) * 8) least bits (find_byte (suc n) byte index least bits)
    go none q f rest =
        rw (find_byte, q)
          (FoundFree-next n byte index least bits (find_byte n (byte + 1) (index + 8) least bits)
            (λ j a b l.
              in_use_in bits byte j (omega arith) (omega arith)
              ∙ bit_eq (j - byte * 8) (0 + (j - byte * 8)) (bits byte) (omega arith)
              ∙ f (j - byte * 8) (omega arith) (omega arith))
            rest)
    go (some bit) q (k, lt, at_bit, l, clear, before) rest =
        rw (find_byte, q)
          (
            omega arith,
            omega arith,
            omega arith,
            in_use_in bits byte (index + bit + 1 - 1) (omega arith) (omega arith)
                ∙ bit_eq (index + bit + 1 - 1 - byte * 8) bit (bits byte) (omega arith)
                ∙ clear,
            λ j a b l'.
                in_use_in bits byte j (omega arith) (omega arith)
                ∙ bit_eq (j - byte * 8) (0 + (j - byte * 8)) (bits byte) (omega arith)
                ∙ before (j - byte * 8) (omega arith) (omega arith),
            λ j. in_use-set bits byte bit j (omega arith) ∙ ground (arith, e),
          )

-- The result of `find_free_inode`, with bitmap and superblock.
abbrev pub FreeInode : Disk → Option (ℕ × Disk) → Type 0
FreeInode d none = FoundFree 0 (d.s_inodes_count / 8 * 8) d.s_first_ino d.inode_bits none
FreeInode d (some (num, d')) =
    FoundFree 0 (d.s_inodes_count / 8 * 8) d.s_first_ino d.inode_bits (some (num, d'.inode_bits))
    × (d' ≡ record d { inode_bits = d'.inode_bits })

abbrev pub FreeBlock : Disk → Option (ℕ × Disk) → Type 0
FreeBlock d none = FoundFree 0 (d.s_blocks_count / 8 * 8) 0 d.block_bits none
FreeBlock d (some (num, d')) =
    FoundFree 0 (d.s_blocks_count / 8 * 8) 0 d.block_bits (some (num, d'.block_bits))
    × (d' ≡ record d { block_bits = d'.block_bits })

-- `find_free_inode` finds the inode with the lowest bit that is clear among those of index at
-- least `s_first_ino`, and sets that bit alone; or none is clear and it returns -1.
find_free_inode-FreeInode : (d : Disk) → FreeInode d (find_free_inode d)
unfolding find_free_inode
find_free_inode-FreeInode d =
    go (find_byte (d.s_inodes_count / 8) 0 0 d.s_first_ino d.inode_bits) refl
      (find_byte-FoundFree (d.s_inodes_count / 8) 0 0 d.s_first_ino d.inode_bits refl)
  where
    go :
        (r : Option (ℕ × (ℕ → ℕ)))
        → find_byte (d.s_inodes_count / 8) 0 0 d.s_first_ino d.inode_bits ≡ r
        → FoundFree 0 ((0 + d.s_inodes_count / 8) * 8) d.s_first_ino d.inode_bits r
        → FreeInode d (find_free_inode d)
    go none q f = rw (find_free_inode, q) (λ j a b l. f j a (omega arith) l)
    go (some (num, bits)) q (pos, top, l, clear, before, set) =
        rw (find_free_inode, q) ((pos, omega arith, l, clear, before, set), refl)

-- `find_free_data_block` finds the block with the lowest bit that is clear, and sets that bit
-- alone; or none is clear and it returns -1.
find_free_data_block-FreeBlock : (d : Disk) → FreeBlock d (find_free_data_block d)
unfolding find_free_data_block
find_free_data_block-FreeBlock d =
    go (find_byte (d.s_blocks_count / 8) 0 0 0 d.block_bits) refl
      (find_byte-FoundFree (d.s_blocks_count / 8) 0 0 0 d.block_bits refl)
  where
    go :
        (r : Option (ℕ × (ℕ → ℕ)))
        → find_byte (d.s_blocks_count / 8) 0 0 0 d.block_bits ≡ r
        → FoundFree 0 ((0 + d.s_blocks_count / 8) * 8) 0 d.block_bits r
        → FreeBlock d (find_free_data_block d)
    go none q f = rw (find_free_data_block, q) (λ j a b l. f j a (omega arith) l)
    go (some (num, bits)) q (pos, top, l, clear, before, set) =
        rw (find_free_data_block, q) ((pos, omega arith, l, clear, before, set), refl)
