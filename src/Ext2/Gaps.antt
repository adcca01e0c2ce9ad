-- ===== src/Ext2/Gaps.antt =====
-- `check_with_gaps` of A4/utility.c: the search for a removed entry in the gaps of a block.
pub mod Missed
pub mod Restore
use csc369_uoft.Base.{
  ℕ, zero, suc, ◌+◌, ◌-◌, ◌*◌, ◌%◌, Bool, true, false, ◌&&◌, Option, none, some, List, ◌==◌, length,
}
use csc369_uoft.Base.Int.{ℤ, pos, negsuc}
use csc369_uoft.Ext2.Bytes.{store32, same_text}
use csc369_uoft.Ext2.Entries.{load_entry, entry_at, store_rec_len, ext2_ft_reg_file, image_size}
use csc369_uoft.Ext2.Paths.{tokens, last_of}
use csc369_uoft.Ext2.Write.{size_needed}

-- `current_entry->rec_len -= len`
unfoldable pub sub_rec_len : (ℕ → ℕ) → (current len : ℕ) → ℕ → ℕ
sub_rec_len m current len =
    store_rec_len m current (((load_entry m current).rec_len + 65536 - len) % 65536)

-- The loop over the gap behind the entry at `current`, up to `size + current_entry->rec_len`: false for the result -1.
-- It is `none` where the loop leaves the image or never ends.
unfoldable pub gap_from :
    ℕ → (ℕ → ℕ) → (base size current temp_size : ℕ) → List ℕ → Option (Bool × (ℕ → ℕ))
gap_from zero m base size current temp_size final = none
gap_from (suc n) m base size current temp_size final =
    elim (temp_size == size + (load_entry m current).rec_len) [
      | true ↦ some (true, m)
      | false ↦ elim (entry_at m (base + temp_size)) [
        | none ↦ none
        | some gap ↦ elim (same_text gap.name final && (gap.file_type == ext2_ft_reg_file)) [
          | false ↦ some (false, m)
          | true ↦
              let m' = sub_rec_len m current gap.rec_len in
              gap_from n m' base size current
                (temp_size + (load_entry m' (base + temp_size)).rec_len) final
        ]
      ]
    ]

-- The gap of the entry at `current`, where the code takes it to have one.
unfoldable pub check_gap : (ℕ → ℕ) → (base size current : ℕ) → List ℕ → Option (Bool × (ℕ → ℕ))
check_gap m base size current final = elim (entry_at m current) [
  | none ↦ none
  | some e ↦ elim (e.rec_len == size + size_needed (length e.name)) [
    | true ↦ some (true, m)
    | false ↦ gap_from image_size m base size current (size + size_needed (length e.name)) final
  ]
]

-- The loop over the entries.
unfoldable pub gaps_from : ℕ → (ℕ → ℕ) → (base size current : ℕ) → List ℕ → Option (ℤ × (ℕ → ℕ))
gaps_from zero m base size current final = none
gaps_from (suc n) m base size current final = elim (size == 1024) [
  | true ↦ some (pos 0, m)
  | false ↦ elim (check_gap m base size current final) [
    | none ↦ none
    | some (false, m') ↦ some (negsuc 0, m')
    | some (true, m') ↦ elim (entry_at m' (base + size)) [
      | none ↦ none
      | some e ↦ gaps_from n m' base (size + e.rec_len) (base + size) final
    ]
  ]
]

unfoldable pub check_with_gaps :
    (ℕ → ℕ) → (data_block : ℕ) → (absolute_path : List ℕ) → Option (ℤ × (ℕ → ℕ))
check_with_gaps m data_block absolute_path = elim (last_of (tokens absolute_path)) [
  | none ↦ none
  | some final ↦ elim (entry_at m (1024 * data_block)) [
    | none ↦ none
    | some first ↦ elim (same_text first.name final) [
      | true ↦ some (pos 1, store32 m (1024 * data_block) 1)
      | false ↦ gaps_from image_size m (1024 * data_block) 0 (1024 * data_block) final
    ]
  ]
]
