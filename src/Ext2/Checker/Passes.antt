-- ===== src/Ext2/Checker/Passes.antt =====
-- The four passes of A4/ext2_checker.c over the tree of directories. The state is the image and the number of
-- repairs. `none` stands for an access outside the image or the inode table, and for a pass without end.
use csc369_uoft.Base.{
  ℕ, zero, suc, ◌+◌, ◌-◌, ◌*◌, ◌/◌, Bool, true, false, not, ◌&&◌, Option, none, some, List, [], ◌∷◌,
  ◌==◌, leb, ltb, if◌then◌else◌, update, min, ◌||◌,
}
use csc369_uoft.Base.Int.{pos}
use csc369_uoft.Ext2.{Disk}
use csc369_uoft.Ext2.Bytes.{load32, same_text}
use csc369_uoft.Ext2.Checker.{get_bitmap, set_bitmap, check_free_blocks_inodes}
use csc369_uoft.Ext2.Entries.{
  DirEntry, load_entry, entry_at, ext2_ft_reg_file, ext2_ft_dir, ext2_ft_symlink, image_size,
}
use csc369_uoft.Ext2.Walk.{inode_at}

abbrev pub Checked : Type 0
Checked = Disk × ℕ

-- The name is neither "." nor "..".
unfoldable pub is_proper : List ℕ → Bool
is_proper name = not (same_text name (46 ∷ 46 ∷ [])) && not (same_text name (46 ∷ []))

-- The loop over the entries of the block at `base`, with `size` bytes behind it. `visit` is its body for the entry
-- at an address; the length of the entry is read after it.
unfoldable pub check_entries :
    ℕ → (ℕ → Checked → Option Checked) → (base size : ℕ) → Checked → Option Checked
check_entries zero visit base size s = none
check_entries (suc n) visit base size s = elim (ltb size 1024) [
  | false ↦ some s
  | true ↦ elim (visit (base + size) s) [
    | none ↦ none
    | some (d, count) ↦
        check_entries n visit base (size + (load_entry d.bytes (base + size)).rec_len) (d, count)
  ]
]

-- The loop over the blocks of an inode, from index `i` with `n` rounds left.
unfoldable pub check_blocks_of :
    ℕ → (i : ℕ) → (ℕ → Checked → Option Checked) → (inode_num : ℕ) → Checked → Option Checked
check_blocks_of zero i visit inode_num s = some s
check_blocks_of (suc n) i visit inode_num (d, count) = elim (inode_at d (pos inode_num)) [
  | none ↦ none
  | some inode ↦ elim (ltb i (inode.i_blocks / 2)) [
    | false ↦ some (d, count)
    | true ↦ elim (check_entries image_size visit (1024 * inode.i_block i) 0 (d, count)) [
      | none ↦ none
      | some s ↦ check_blocks_of n (i + 1) visit inode_num s
    ]
  ]
]

-- A pass from a directory. The fuel bounds how deep the calls are nested; `body` is given the call for a
-- directory below.
unfoldable pub check_tree :
    ℕ
    → ((ℕ → Checked → Option Checked) → ℕ → Checked → Option Checked)
    → (inode_num : ℕ) → Checked
    → Option Checked
check_tree zero body inode_num s = none
check_tree (suc n) body inode_num s = check_blocks_of 12 0 (body (check_tree n body)) inode_num s

-- A directory below is checked too, but not "." and "..".
unfoldable pub descend : (ℕ → Checked → Option Checked) → DirEntry → Checked → Option Checked
descend below e s = elim ((e.file_type == ext2_ft_dir) && is_proper e.name) [
  | true ↦ below e.inode s
  | false ↦ some s
]

-- The body of three of the passes: `fix` for the inode of an entry that is not deleted, then the directory below.
unfoldable pub check_entry :
    (ℕ → Checked → Option Checked)
    → (ℕ → Checked → Option Checked)
    → (address : ℕ) → Checked
    → Option Checked
check_entry fix below address (d, count) = elim (entry_at d.bytes address) [
  | none ↦ none
  | some e ↦ elim (e.inode == 0) [
    | true ↦ some (d, count)
    | false ↦ elim (fix e.inode (d, count)) [ none ↦ none | some s ↦ descend below e s ]
  ]
]

-- `p->file_type = file_type`, where it is not so, with the count
unfoldable pub fix_type : (file_type address : ℕ) → Checked → Checked
fix_type file_type address (d, count) =
    if d.bytes (address + 7) == file_type
    then (d, count)
    else (record d { bytes = update d.bytes (address + 7) file_type }, count + 1)

-- The body of `check_type`: `i_mode >> 12` is 4 for a directory, 8 for a file and 10 for a symbolic link.
unfoldable pub check_type_entry :
    (ℕ → Checked → Option Checked) → (address : ℕ) → Checked → Option Checked
check_type_entry below address (d, count) = elim (entry_at d.bytes address) [
  | none ↦ none
  | some e ↦ elim (e.inode == 0) [
    | true ↦ some (d, count)
    | false ↦ elim (inode_at d (pos e.inode)) [
      | none ↦ none
      | some inode ↦ elim (inode.i_mode / 4096 == 4) [
        | true ↦ elim (is_proper e.name) [
          | true ↦ below e.inode (fix_type ext2_ft_dir address (d, count))
          | false ↦ some (fix_type ext2_ft_dir address (d, count))
        ]
        | false ↦ some (
            if inode.i_mode / 4096 == 8
            then fix_type ext2_ft_reg_file address (d, count)
            else if inode.i_mode / 4096 == 10
            then fix_type ext2_ft_symlink address (d, count)
            else (d, count))
      ]
    ]
  ]
]

-- The repairs of the other passes for an inode. `check_inode_bitmap`:
unfoldable pub fix_inode_bit : (inode_num : ℕ) → Checked → Option Checked
fix_inode_bit inode_num (d, count) = elim (get_bitmap d.inode_bits (inode_num - 1)) [
  | none ↦ none
  | some true ↦ some (d, count)
  | some false ↦ elim (set_bitmap d.inode_bits (inode_num - 1) true) [
    | none ↦ none
    | some bits ↦ some (record d { inode_bits = bits }, count + 1)
  ]
]

-- `check_dtime`
unfoldable pub fix_dtime : (inode_num : ℕ) → Checked → Option Checked
fix_dtime inode_num (d, count) = elim (inode_at d (pos inode_num)) [
  | none ↦ none
  | some inode ↦ some (
      if inode.i_dtime == 0 then (d, count) else (
        record d { inodes = update d.inodes inode_num (record inode { i_dtime = 0 }) },
        count + 1,
      ))
]

-- A block of a file that is not in the bitmap is put there; the counter is that of one inode. Block 0 has no bit.
unfoldable pub fix_block_bit : (block : ℕ) → (ℕ → ℕ) × ℕ → Option ((ℕ → ℕ) × ℕ)
fix_block_bit zero s = none
fix_block_bit (suc index) (bits, fixed) = elim (get_bitmap bits index) [
  | none ↦ none
  | some true ↦ some (bits, fixed)
  | some false ↦ elim (set_bitmap bits index true) [
    | none ↦ none
    | some bits' ↦ some (bits', fixed + 1)
  ]
]

-- The loop over `n` blocks from the `j`th.
unfoldable pub fix_block_bits : ℕ → (j : ℕ) → (ℕ → ℕ) → (ℕ → ℕ) × ℕ → Option ((ℕ → ℕ) × ℕ)
fix_block_bits zero j block s = some s
fix_block_bits (suc n) j block s = elim (fix_block_bit (block j) s) [
  | none ↦ none
  | some s' ↦ fix_block_bits n (j + 1) block s'
]

-- The direct blocks of an inode, then those that its indirect block lists. The indirect block is inside the image.
unfoldable pub mark_blocks : (i_blocks : ℕ) → (i_block bytes bits : ℕ → ℕ) → Option ((ℕ → ℕ) × ℕ)
mark_blocks i_blocks i_block bytes bits =
    elim (fix_block_bits (min (i_blocks / 2) 12) 0 i_block (bits, 0)) [
      | none ↦ none
      | some s ↦
          elim (leb (1024 * i_block 12 + 4 * (i_blocks / 2 - 12)) image_size
            || leb (i_blocks / 2) 12) [
              | false ↦ none
              | true ↦
                  fix_block_bits (i_blocks / 2 - 12) 0
                    (λ j. load32 bytes (1024 * i_block 12 + 4 * j)) s
            ]
    ]

-- `check_blocks_bitmap`: one repair is counted for an inode with any block that was not marked.
unfoldable pub fix_blocks : (inode_num : ℕ) → Checked → Option Checked
fix_blocks inode_num (d, count) = elim (inode_at d (pos inode_num)) [
  | none ↦ none
  | some inode ↦ elim (mark_blocks inode.i_blocks inode.i_block d.bytes d.block_bits) [
    | none ↦ none
    | some (bits, fixed) ↦
        some (record d { block_bits = bits }, count + (if fixed == 0 then 0 else 1))
  ]
]

-- The four functions, with the fuel for the depth of the tree.
unfoldable pub check_type : ℕ → (inode_number : ℕ) → Checked → Option Checked
check_type fuel inode_number s = check_tree fuel check_type_entry inode_number s

unfoldable pub check_inode_bitmap : ℕ → (inode_num : ℕ) → Checked → Option Checked
check_inode_bitmap fuel inode_num s = check_tree fuel (check_entry fix_inode_bit) inode_num s

unfoldable pub check_dtime : ℕ → (inode_num : ℕ) → Checked → Option Checked
check_dtime fuel inode_num s = check_tree fuel (check_entry fix_dtime) inode_num s

unfoldable pub check_blocks_bitmap : ℕ → (inode_num : ℕ) → Checked → Option Checked
check_blocks_bitmap fuel inode_num s = check_tree fuel (check_entry fix_blocks) inode_num s

infixl 5 ◌>>=◌
abbrev ◌>>=◌ : Option Checked → (Checked → Option Checked) → Option Checked
none >>= pass = none
some s >>= pass = pass s

-- `main` after the image is mapped: the passes in turn, from the root, and the counters again after the bitmaps.
unfoldable pub check_image : ℕ → Disk → Option Checked
check_image fuel d = do
  s1 ← check_type fuel 2 (check_free_blocks_inodes true (d, 0))
  s2 ← check_inode_bitmap fuel 2 s1
  s3 ← check_dtime fuel 2 (check_free_blocks_inodes false s2)
  s4 ← check_blocks_bitmap fuel 2 s3
  some (check_free_blocks_inodes false s4)
