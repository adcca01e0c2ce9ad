-- ===== src/Ext2/Link/Hard.antt =====
-- `create_hard_link` of A4/ext2_ln.c in a directory with room.
use csc369_uoft.Base.{
  ℕ, zero, suc, ◌+◌, ◌-◌, ◌*◌, ◌/◌, ◌^◌, ◌≤◌, ◌<◌, ◌≡◌, ◌≢◌, refl, sym, true, false, some, List, [],
  ◌∷◌, ◌++◌, ltb, arith, length, subst, ◌⊎◌, inl, inr, update, ◌==◌, Bool-cases,
}
use csc369_uoft.Base.Int.{pos}
use csc369_uoft.Ext2.{Disk, Inode}
use csc369_uoft.Ext2.Bytes.{IsText}
use csc369_uoft.Ext2.Entries.{DirEntry, image_size}
use csc369_uoft.Ext2.Entries.Layout.{IsBlock}
use csc369_uoft.Ext2.Link.{returned}
use csc369_uoft.Ext2.Link.Create.{place_entry, link_entry, create_hard_link, type_of_mode}
use csc369_uoft.Ext2.Link.Insert.{link_of, inserted, inserted-Laid, inserted-outside}
use csc369_uoft.Ext2.Link.Place.{rounded, next_place, get_next_entry_position_lem}
use csc369_uoft.Ext2.Walk.{inode_at}
use csc369_uoft.Ext2.Write.{add_link}

module _ (m : ℕ → ℕ) (dir : Inode) (k inode file_type : ℕ) (name : List ℕ)
    (front : ℕ → List DirEntry) (last : ℕ → DirEntry) (exists : k < dir.i_blocks / 2)
    (held : (j : ℕ)
      → j ≤ k
      → (dir.i_block j < 128) × IsBlock m (dir.i_block j) (front j ++ (last j ∷ [])))
    (full : (j : ℕ) → j < k → 1024 < next_place (front j) (last j) + rounded (length name))
    (room : next_place (front k) (last k) + rounded (length name) ≤ 1024) (small : inode < 2 ^ 32)
    (short : length name < 256) (text : IsText name) where
  inside : 1024 * dir.i_block k + 1024 ≤ image_size
  inside = omega (arith, (held k (omega arith)).0)

  -- The bytes with the entry in block `k`.
  abbrev placed : ℕ → ℕ
  placed =
      inserted m (1024 * dir.i_block k) inode file_type (front k) (last k) name inside
        (held k (omega arith)).1 room small short text

  place_entry_here : (n : ℕ) → place_entry (suc n) k m dir inode file_type name ≡ some (some placed)
  unfolding place_entry
  place_entry_here n =
      let (b, l) = held k (omega arith) in
      let position = get_next_entry_position_lem m (dir.i_block k) (front k) (last k) b l in
      let more : ltb k (dir.i_blocks / 2) ≡ true = ground arith in
      let fits : ltb (next_place (front k) (last k) + (8 + (length name / 4 + 1) * 4)) 1025 ≡ true =
        ground arith in
      rw (place_entry, more, position, fits) refl

  place_entry_lem :
      (n i : ℕ)
      → i ≤ k
      → k < i + n
      → place_entry n i m dir inode file_type name ≡ some (some placed)
  unfolding place_entry
  place_entry_lem zero i le lt = absurd (omega arith)
  place_entry_lem (suc n) i le lt =
      let (b, l) = held i le in
      let pos_lem = get_next_entry_position_lem m (dir.i_block i) (front i) (last i) b l in
      let more : ltb i (dir.i_blocks / 2) ≡ true = ground arith in
      elim (Bool-cases (i == k)) [
        | inl here ↦
            let same : i ≡ k = ground (arith, here) in
            subst (λ (x : ℕ). place_entry (suc n) x m dir inode file_type name ≡ some (some placed))
              (sym same) (place_entry_here n)
        | inr before ↦
            let no_room : ltb (next_place (front i) (last i) + (8 + (length name / 4 + 1) * 4)) 1025
                ≡ false =
              ground (arith, full i (ground (arith, before))) in
            rw (place_entry, more, pos_lem, no_room)
              (place_entry_lem n (i + 1) (ground (arith, before)) (omega arith))
      ]

  -- In a directory whose block `k` is the first with room, the entry is put in that block.
  pub link_entry-placed :
      (d : Disk) (destination : ℕ)
      → d.bytes ≡ m
      → k < 12
      → inode_at d (pos destination) ≡ some dir
      → (bytes : ℕ → ℕ) × (link_entry d destination inode file_type name
          ≡ some (returned 0, record d { bytes = bytes }))
        × IsBlock bytes (dir.i_block k) (
            front k
            ++ (record (last k) { rec_len = rounded (last k).name_len }
                ∷ link_of (1024 - next_place (front k) (last k)) inode file_type name
                ∷ []))
        × ((j : ℕ) → (j < 1024 * dir.i_block k) ⊎ (1024 * dir.i_block k + 1024 ≤ j) → bytes j ≡ m j)
  unfolding link_entry
  link_entry-placed d destination same lt at = (
    placed,
    rw (link_entry, at, same, place_entry_lem 12 0 (omega arith) (omega arith)) refl,
    inserted-Laid m (1024 * dir.i_block k) inode file_type (front k) (last k) name inside
        (held k (omega arith)).1 room small short text,
    inserted-outside m (1024 * dir.i_block k) inode file_type (front k) (last k) name inside
        (held k (omega arith)).1 room small short text,
  )

-- For a link to an inode other than the directory, where a block of the directory and those before
-- it hold entries, and this block is the first with room, `create_hard_link` returns. The last
-- entry of the block is cut where the new one begins, the entry of the link follows up to the end
-- of the block, with the type of the source, the source has one link more modulo 2^16, and no byte
-- outside the block changes.
pub create_hard_link_lem :
    (d : Disk) (destination source k : ℕ) (dir inode : Inode) (name : List ℕ)
    (front : ℕ → List DirEntry) (last : ℕ → DirEntry)
    → inode_at d (pos source) ≡ some inode
    → inode_at d (pos destination) ≡ some dir
    → source ≢ destination
    → k < 12
    → k < dir.i_blocks / 2
    → ((j : ℕ)
        → j ≤ k
        → (dir.i_block j < 128) × IsBlock d.bytes (dir.i_block j) (front j ++ (last j ∷ [])))
    → ((j : ℕ) → j < k → 1024 < next_place (front j) (last j) + rounded (length name))
    → next_place (front k) (last k) + rounded (length name) ≤ 1024
    → source < 2 ^ 32
    → length name < 256
    → IsText name
    → (bytes : ℕ → ℕ) × (create_hard_link d destination source name
        ≡ some (
          returned 0,
          record d { inodes = update d.inodes source (add_link inode); bytes = bytes },
        ))
      × IsBlock bytes (dir.i_block k) (
          front k
          ++ (record (last k) { rec_len = rounded (last k).name_len }
              ∷ link_of
                  (1024 - next_place (front k) (last k))
                  source
                  (type_of_mode inode.i_mode)
                  name
              ∷ []))
      × ((j : ℕ)
          → (j < 1024 * dir.i_block k) ⊎ (1024 * dir.i_block k + 1024 ≤ j)
          → bytes j ≡ d.bytes j)
unfolding create_hard_link inode_at
create_hard_link_lem d destination source k dir inode name front last at dest ne lt exists held full
      room small short text =
    let d' = record d { inodes = update d.inodes source (add_link inode) } in
    let dest' : inode_at d' (pos destination) ≡ some dir = ground (arith, dest, ne) in
    rw (create_hard_link, at)
      (link_entry-placed d.bytes dir k source (type_of_mode inode.i_mode) name front last exists
        held full room small short text d' destination refl lt dest')
