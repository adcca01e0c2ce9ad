-- ===== src/Ext2/Tests.antt =====
-- Runs of the model of A4 on a small image.
mod Gaps
use csc369_uoft.Base.{
  ℕ, zero, suc, ◌-◌, ◌/◌, ◌≤◌, ◌<◌, ◌≡◌, ◌≢◌, refl, true, false, none, some, List, [], ◌∷◌, ◌++◌,
  ◌==◌, ◌&&◌, arith, update, ◌⊎◌,
}
use csc369_uoft.Base.Int.{pos, negsuc, int32}
use csc369_uoft.Ext2.{Disk, Inode}
use csc369_uoft.Ext2.Bytes.{same_text, IsText}
use csc369_uoft.Ext2.Checker.{bit_at}
use csc369_uoft.Ext2.Checker.Passes.{check_blocks_bitmap, Checked, check_inode_bitmap, check_dtime}
use csc369_uoft.Ext2.Checker.Blocks.{BlocksMarked, SetsBlocks, check_blocks_bitmap_lem}
use csc369_uoft.Ext2.Checker.Repairs.{
  SetsInodes, ClearsDtime, check_inode_bitmap_lem, check_dtime_lem,
}
use csc369_uoft.Ext2.Checker.Tree.{Reached}
use csc369_uoft.Ext2.Entries.{DirEntry}
use csc369_uoft.Ext2.Commands.{ext2_rm}
use csc369_uoft.Ext2.Commands.Removal.{ext2_rm-removed}
use csc369_uoft.Ext2.Entries.Layout.{IsBlock}
use csc369_uoft.Ext2.Link.{directory_has_file, returned}
use csc369_uoft.Ext2.Link.Create.{create_hard_link, type_of_mode}
use csc369_uoft.Ext2.Link.Insert.{link_of}
use csc369_uoft.Ext2.Link.Found.{create_hard_link-directory_has_file}
use csc369_uoft.Ext2.Link.Hard.{create_hard_link_lem}
use csc369_uoft.Ext2.Link.Named.{directory_has_file_lem, find_named, entries_read}
use csc369_uoft.Ext2.Paths.{join, tokens, last_of, begin_token, extend, AreParts}
use csc369_uoft.Ext2.Remove.{rm_from_directory}
use csc369_uoft.Ext2.Remove.Merge.{rm_from_directory-remove_entry, remove_entry, merge, SameOutside}
use csc369_uoft.Ext2.Sample.{
  sample_bytes, entry, entry_f, a_entries, a_entries-IsBlock, image, is_dir, height, blocks,
  inode_of,
}
use csc369_uoft.Ext2.SampleTrees.{a-IsDirBlock, image-IsTree, inode-IsDirTree, block-IsDirTree}
use csc369_uoft.Ext2.Search.{matches, search_directory}
use csc369_uoft.Ext2.Search.Find.{find_entry}
use csc369_uoft.Ext2.Walk.{walk_path, inode_at}
use csc369_uoft.Ext2.Walk.Resolve.{walk_path-resolve_path}
use csc369_uoft.Ext2.Walk.Tree.{dir_of, resolve_path, entries_of}
use csc369_uoft.Ext2.Write.{write_entry, add_link, new_entry}
use csc369_uoft.Ext2.Write.Append.{appended}
use csc369_uoft.Ext2.Write.Lookup.{write_entry_lem, write_entry-search_directory}

gh-IsText : IsText (103 ∷ 104 ∷ [])
gh-IsText = (λ e. absurd (omega arith), (λ e. absurd (omega arith), tt))

abbrev path_f : List ℕ
path_f = 47 ∷ 97 ∷ 47 ∷ 102 ∷ []

abbrev path_gh : List ℕ
path_gh = 47 ∷ 97 ∷ 47 ∷ 103 ∷ 104 ∷ []

path_f-last : last_of (tokens path_f) ≡ some (102 ∷ [])
unfolding tokens last_of begin_token extend
path_f-last = refl

path_gh-last : last_of (tokens path_gh) ≡ some (103 ∷ 104 ∷ [])
unfolding tokens last_of begin_token extend
path_gh-last = refl

-- The entry of "f" goes over to the one before it.
abbrev removed : List DirEntry
removed = entry 12 12 2 (46 ∷ []) 1 ∷ entry 2 1012 2 (46 ∷ 46 ∷ []) 2 ∷ []

rm_from_directory-remove_entry_example :
    (m : ℕ → ℕ) × (rm_from_directory sample_bytes 10 path_f ≡ some (pos 1, m))
    × IsBlock m 10 removed
    × SameOutside 10240 11264 sample_bytes m
unfolding remove_entry merge same_text
rm_from_directory-remove_entry_example =
    rm_from_directory-remove_entry sample_bytes 10 path_f (102 ∷ []) (entry 12 12 2 (46 ∷ []) 1)
      (entry 2 12 2 (46 ∷ 46 ∷ []) 2 ∷ entry_f ∷ []) path_f-last (omega arith) a_entries-IsBlock

-- The inode of "a".
abbrev inode_a : Inode
inode_a = inode_of 16877 0 10

inode_at_a : inode_at image (pos 12) ≡ some inode_a
unfolding inode_at
inode_at_a = refl

abbrev before_f : List DirEntry
before_f = entry 12 12 2 (46 ∷ []) 1 ∷ entry 2 12 2 (46 ∷ 46 ∷ []) 2 ∷ []

-- A file "gh" with inode 14 is added to "a".
write_entry_lem_example :
    (bytes : ℕ → ℕ) × (write_entry 1 image 10 12 path_gh 14
      ≡ some (
        true,
        record image { inodes = update image.inodes 12 (add_link inode_a); bytes = bytes },
      ))
    × IsBlock bytes 10
        (before_f ++ (entry 13 12 1 (102 ∷ []) 1 ∷ entry 14 988 1 (103 ∷ 104 ∷ []) 2 ∷ []))
    × ((j : ℕ) → (j < 10240) ⊎ (11264 ≤ j) → bytes j ≡ sample_bytes j)
unfolding appended new_entry
write_entry_lem_example =
    write_entry_lem 1 image 10 12 14 path_gh (103 ∷ 104 ∷ []) inode_a before_f entry_f path_gh-last
      inode_at_a (omega arith) a_entries-IsBlock (omega arith) (omega arith) (omega arith) gh-IsText

write_entry-search_directory_example :
    (d : Disk) × (write_entry 1 image 10 12 path_gh 14 ≡ some (true, d))
    × ((d_name : List ℕ) (type : ℕ)
        → search_directory d.bytes 10 d_name type
          ≡ some (elim (find_entry a_entries d_name type) [
            | none ↦ elim ((1 == type) && same_text (103 ∷ 104 ∷ []) d_name) [
              | true ↦ pos 14
              | false ↦ negsuc 0
            ]
            | some k ↦ int32 k
          ]))
write_entry-search_directory_example =
    write_entry-search_directory 1 image 10 12 14 path_gh (103 ∷ 104 ∷ []) inode_a before_f entry_f
      path_gh-last inode_at_a a-IsDirBlock (omega arith) (omega arith) (omega arith) gh-IsText

parts_a_gh : AreParts ((97 ∷ []) ∷ (103 ∷ 104 ∷ []) ∷ [])
parts_a_gh = (
  λ e. absurd (ground (arith, e)),
  (λ e. absurd (omega arith), tt),
  (
    λ e. absurd (ground (arith, e)),
    (λ e. absurd (omega arith), (λ e. absurd (omega arith), tt)),
    tt,
  ),
)

-- The path "/a/gh" leads to inode 12.
walk_path-resolve_path_example : walk_path image path_gh 1 ≡ some (pos 12)
unfolding find_entry matches same_text resolve_path entries_of join
walk_path-resolve_path_example =
    walk_path-resolve_path image is_dir blocks image-IsTree (97 ∷ []) (103 ∷ 104 ∷ []) [] 1
      parts_a_gh

check_blocks_bitmap_lem_example :
    (t : Checked) × (check_blocks_bitmap 2 2 (image, 0) ≡ some t)
    × SetsBlocks image (image, 0) t
    × ((e : DirEntry) → Reached image blocks 2 e → BlocksMarked image e.inode t.0.block_bits)
check_blocks_bitmap_lem_example =
    check_blocks_bitmap_lem image is_dir blocks height 2 2 0 block-IsDirTree refl (omega arith)

-- The bit of inode 12 was missing, and is set; all 32 inodes of the image are counted.
check_inode_bitmap_lem_example :
    (t : Checked) × (check_inode_bitmap 2 2 (image, 0) ≡ some t)
    × SetsInodes 32 (image, 0) t
    × ((e : DirEntry) → Reached image blocks 2 e → bit_at t.0.inode_bits (e.inode - 1) ≡ true)
check_inode_bitmap_lem_example =
    check_inode_bitmap_lem image is_dir blocks height inode-IsDirTree 2 2 0 (omega arith) refl
      (omega arith)

check_dtime_lem_example :
    (t : Checked) × (check_dtime 2 2 (image, 0) ≡ some t)
    × ClearsDtime (image, 0) t
    × ((e : DirEntry) → Reached image blocks 2 e → (t.0.inodes e.inode).i_dtime ≡ 0)
check_dtime_lem_example =
    check_dtime_lem image is_dir blocks height inode-IsDirTree 2 2 0 refl (omega arith)

-- The blocks of inode 12.
held_by_a :
    (j : ℕ)
    → j < 12
    → j < inode_a.i_blocks / 2
    → (inode_a.i_block j < 128) × IsBlock sample_bytes (inode_a.i_block j) (blocks 12 j)
held_by_a zero h k = (omega arith, a_entries-IsBlock)
held_by_a (suc j) h k = absurd (omega arith)

inode_at_f : inode_at image (pos 13) ≡ some (inode_of 33188 7 11)
unfolding inode_at
inode_at_f = refl

last_held_by_a :
    (j : ℕ)
    → j ≤ 0
    → (inode_a.i_block j < 128)
      × IsBlock sample_bytes (inode_a.i_block j) (before_f ++ (entry_f ∷ []))
last_held_by_a zero h = (omega arith, a_entries-IsBlock)
last_held_by_a (suc j) h = absurd (omega arith)

-- A second name of "f".
create_hard_link_lem_example :
    (bytes : ℕ → ℕ) × (create_hard_link image 12 13 (103 ∷ 104 ∷ [])
      ≡ some (
        returned 0,
        record image {
          inodes = update image.inodes 13 (add_link (inode_of 33188 7 11));
          bytes = bytes;
        },
      ))
    × IsBlock bytes 10
        (before_f ++ (entry 13 12 1 (102 ∷ []) 1 ∷ entry 13 988 1 (103 ∷ 104 ∷ []) 2 ∷ []))
    × ((j : ℕ) → (j < 10240) ⊎ (11264 ≤ j) → bytes j ≡ sample_bytes j)
unfolding link_of type_of_mode
create_hard_link_lem_example =
    create_hard_link_lem image 12 13 0 inode_a (inode_of 33188 7 11) (103 ∷ 104 ∷ [])
      (λ j. before_f) (λ j. entry_f) inode_at_f inode_at_a (λ e. absurd (omega arith)) (omega arith)
      (omega arith) last_held_by_a (λ j h. absurd (omega arith)) (omega arith) (omega arith)
      (omega arith) gh-IsText

parts_a_f : AreParts ((97 ∷ []) ∷ (102 ∷ []) ∷ [])
parts_a_f = (
  λ e. absurd (ground (arith, e)),
  (λ e. absurd (omega arith), tt),
  (λ e. absurd (ground (arith, e)), (λ e. absurd (omega arith), tt), tt),
)

found_a : find_entry (dir_of blocks 2) (97 ∷ []) 2 ≡ some 12
unfolding find_entry matches same_text entries_of
found_a = refl

led_to_a : resolve_path (dir_of blocks) 12 ((102 ∷ []) ∷ []) 1 ≡ pos 12
unfolding resolve_path
led_to_a = refl

f_is_hit :
    (remove_entry
      (102 ∷ [])
      (entry 12 12 2 (46 ∷ []) 1)
      (entry 2 12 2 (46 ∷ 46 ∷ []) 2 ∷ entry_f ∷ [])).0
    ≢ pos 0
unfolding remove_entry merge same_text
f_is_hit e = cc

last_part_f : last_of ((97 ∷ []) ∷ (102 ∷ []) ∷ []) ≡ some (102 ∷ [])
unfolding last_of
last_part_f = refl

ext2_rm-removed_example :
    (m : ℕ → ℕ) × (ext2_rm path_f image ≡ some (returned 0, record image { bytes = m }))
    × IsBlock m 10 removed
    × SameOutside 10240 11264 sample_bytes m
unfolding join remove_entry merge same_text
ext2_rm-removed_example =
    ext2_rm-removed image is_dir blocks (97 ∷ []) (102 ∷ []) (102 ∷ []) [] 12 12 inode_a
      (entry 12 12 2 (46 ∷ []) 1) (entry 2 12 2 (46 ∷ 46 ∷ []) 2 ∷ entry_f ∷ []) image-IsTree
      parts_a_f last_part_f found_a led_to_a (λ e. absurd (omega arith)) inode_at_a (omega arith)
      a_entries-IsBlock f_is_hit

-- "a" has no "gh".
no_gh : directory_has_file image 12 (103 ∷ 104 ∷ []) ≡ some 0
unfolding find_named entries_read same_text
no_gh =
    directory_has_file_lem image 12 inode_a (103 ∷ 104 ∷ []) (blocks 12) inode_at_a refl held_by_a

held_in_a :
    (j : ℕ)
    → j < 12
    → j < inode_a.i_blocks / 2
    → (inode_a.i_block j < 128)
      × IsBlock sample_bytes (inode_a.i_block j) (before_f ++ (entry_f ∷ []))
held_in_a zero h k = (omega arith, a_entries-IsBlock)
held_in_a (suc j) h k = absurd (omega arith)

create_hard_link-directory_has_file_example :
    (d : Disk) × (create_hard_link image 12 13 (103 ∷ 104 ∷ []) ≡ some (returned 0, d))
    × (directory_has_file d 12 (103 ∷ 104 ∷ []) ≡ some 13)
create_hard_link-directory_has_file_example =
    create_hard_link-directory_has_file image 12 13 0 inode_a (inode_of 33188 7 11) (103 ∷ 104 ∷ [])
      (λ j. before_f) (λ j. entry_f) inode_at_f inode_at_a refl (λ e. absurd (omega arith))
      (λ e. absurd (omega arith)) (omega arith) (omega arith) held_in_a
      (λ j h k ne e. absurd (omega arith)) (λ j h. absurd (omega arith)) (omega arith) (omega arith)
      (omega arith) gh-IsText no_gh
