-- ===== src/Ext2/Walk/Resolve.antt =====
-- `walk_path` on an image against the resolution of the path in its tree of directories.
use csc369_uoft.Base.{
  ℕ, zero, suc, ◌+◌, ◌^◌, ◌<◌, ◌≡◌, refl, ◌∙◌, sym, Bool, true, false, none, some, List, [], ◌∷◌,
  ◌==◌, arith, Option-cases, Bool-cases, inl, inr, ◌⊎◌, subst,
}
use csc369_uoft.Base.Int.{ℤ, pos, negsuc}
use csc369_uoft.Ext2.{Disk}
use csc369_uoft.Ext2.Alloc.{is_data_block_used}
use csc369_uoft.Ext2.Entries.{DirEntry, ext2_ft_dir}
use csc369_uoft.Ext2.Paths.{join, AreParts, tokens-join}
use csc369_uoft.Ext2.Search.{search_directory}
use csc369_uoft.Ext2.Search.Find.{find_entry, as_int, search_directory_lem}
use csc369_uoft.Ext2.Walk.{
  inode_at, is_nonzero, starting_from, find_starting_inode, enter_blocks, check_blocks, walk_from,
  walk_path,
}
use csc369_uoft.Ext2.Walk.Ends.{last_byte-join}
use csc369_uoft.Ext2.Walk.Tree.{
  entries_of, is_some, resolve_path, IsTree, dir_of, find_entry-append,
}

ℤ-cases : (z : ℤ) → ((k : ℕ) × (z ≡ pos k)) ⊎ ((k : ℕ) × (z ≡ negsuc k))
ℤ-cases (pos k) = inl (k, refl)
ℤ-cases (negsuc k) = inr (k, refl)

as_int-some : (k : ℕ) → k < 2 ^ 31 → as_int (some k) ≡ pos k
as_int-some k h = ground arith

walk_from-out :
    (u : List ℕ) (ts : List (List ℕ)) (d : Disk) (type : ℕ)
    → walk_from (u ∷ ts) (negsuc 0) d type ≡ none
unfolding walk_from inode_at
walk_from-out u [] d type = refl
walk_from-out u (t ∷ ts) d type = refl

module _ (d : Disk) (is_dir : ℕ → Bool) (blocks : ℕ → ℕ → List DirEntry)
    (tree : IsTree d is_dir blocks) where
  -- The search of a directory's block: nothing found, or a directory.
  searched :
      (num i : ℕ) (d_name : List ℕ)
      → is_dir num ≡ true
      → i < 12
      → ((find_entry (blocks num i) d_name ext2_ft_dir ≡ none)
          × (search_directory d.bytes ((d.inodes num).i_block i) d_name ext2_ft_dir
              ≡ some (negsuc 0)))
        ⊎ ((k : ℕ) × (is_dir k ≡ true)
            × (find_entry (blocks num i) d_name ext2_ft_dir ≡ some k)
            × (search_directory d.bytes ((d.inodes num).i_block i) d_name ext2_ft_dir
                ≡ some (pos k)))
  searched num i d_name h lt =
      let e =
        search_directory_lem d.bytes ((d.inodes num).i_block i) d_name ext2_ft_dir (blocks num i)
          (tree.held num i h lt) in
      elim (Option-cases (find_entry (blocks num i) d_name ext2_ft_dir)) [
        | inl missing ↦ inl (missing, e ∙ rw missing refl)
        | inr (k, found) ↦
            let c = tree.child num i k d_name h lt found in
            inr (k, c, found, e ∙ rw (found, as_int-some k (tree.number k c).2) refl)
      ]

  enter_blocks_lem :
      (n i num : ℕ) (d_name : List ℕ)
      → i + n ≡ 12
      → is_dir num ≡ true
      → enter_blocks n i d.bytes (d.inodes num).i_block d_name
        ≡ some (as_int (find_entry (entries_of n i (blocks num)) d_name ext2_ft_dir))
  unfolding enter_blocks entries_of find_entry
  enter_blocks_lem zero i num d_name e h = refl
  enter_blocks_lem (suc n) i num d_name e h =
      let split =
        find_entry-append (blocks num i) (entries_of n (i + 1) (blocks num)) d_name ext2_ft_dir in
      elim (searched num i d_name h (omega arith)) [
        | inl (missing, s) ↦
            rw (enter_blocks, s, split, missing)
              (enter_blocks_lem n (i + 1) num d_name (omega arith) h)
        | inr (k, c, found, s) ↦
            rw (enter_blocks, s, split, found, as_int-some k (tree.number k c).2) refl
      ]

  starting_from_lem :
      (n i : ℕ) (d_name : List ℕ)
      → i + n ≡ 12
      → starting_from n i d d_name
        ≡ some (as_int (find_entry (entries_of n i (blocks 2)) d_name ext2_ft_dir))
  unfolding starting_from is_nonzero entries_of find_entry
  starting_from_lem zero i d_name e = refl
  starting_from_lem (suc n) i d_name e =
      let split =
        find_entry-append (blocks 2 i) (entries_of n (i + 1) (blocks 2)) d_name ext2_ft_dir in
      let used : is_nonzero (is_data_block_used ((d.inodes 2).i_block i) d) ≡ true =
        ground (arith, tree.used i (omega arith)) in
      elim (searched 2 i d_name tree.root (omega arith)) [
        | inl (missing, s) ↦
            rw (starting_from, used, s, split, missing)
              (starting_from_lem n (i + 1) d_name (omega arith))
        | inr (k, c, found, s) ↦
            rw (starting_from, used, s, split, found, as_int-some k (tree.number k c).2) refl
      ]

  child_of :
      (n i num k : ℕ) (d_name : List ℕ)
      → i + n ≡ 12
      → is_dir num ≡ true
      → find_entry (entries_of n i (blocks num)) d_name ext2_ft_dir ≡ some k
      → is_dir k ≡ true
  unfolding entries_of find_entry
  child_of zero i num k d_name e h found = absurd (ground arith)
  child_of (suc n) i num k d_name e h found =
      let split =
        find_entry-append (blocks num i) (entries_of n (i + 1) (blocks num)) d_name ext2_ft_dir in
      elim (searched num i d_name h (omega arith)) [
        | inl (missing, s) ↦
            child_of n (i + 1) num k d_name (omega arith) h (ground (arith, split, missing, found))
        | inr (j, c, here, s) ↦
            let same : j ≡ k = ground (arith, split, here, found) in
            subst (λ (x : ℕ). is_dir x ≡ true) same c
      ]

  -- Where no directory is asked for, the last loop finds nothing wrong.
  check_blocks-other :
      (n i num type : ℕ) (d_name : List ℕ)
      → i + n ≡ 12
      → is_dir num ≡ true
      → (type == ext2_ft_dir) ≡ false
      → check_blocks n i d.bytes (d.inodes num).i_block d_name type ≡ some false
  unfolding check_blocks
  check_blocks-other zero i num type d_name e h other = refl
  check_blocks-other (suc n) i num type d_name e h other =
      let ih = check_blocks-other n (i + 1) num type d_name (omega arith) h other in
      let s =
        search_directory_lem d.bytes ((d.inodes num).i_block i) d_name type (blocks num i)
          (tree.held num i h (omega arith)) in
      elim (ℤ-cases (as_int (find_entry (blocks num i) d_name type))) [
        | inl (k, found) ↦ rw (check_blocks, s, found, other) ih
        | inr (k, missing) ↦ rw (check_blocks, s, missing) ih
      ]

  check_blocks-dir :
      (n i num : ℕ) (d_name : List ℕ)
      → i + n ≡ 12
      → is_dir num ≡ true
      → check_blocks n i d.bytes (d.inodes num).i_block d_name ext2_ft_dir
        ≡ some (is_some (find_entry (entries_of n i (blocks num)) d_name ext2_ft_dir))
  unfolding check_blocks entries_of find_entry is_some
  check_blocks-dir zero i num d_name e h = refl
  check_blocks-dir (suc n) i num d_name e h =
      let split =
        find_entry-append (blocks num i) (entries_of n (i + 1) (blocks num)) d_name ext2_ft_dir in
      elim (searched num i d_name h (omega arith)) [
        | inl (missing, s) ↦
            rw (check_blocks, s, split, missing)
              (check_blocks-dir n (i + 1) num d_name (omega arith) h)
        | inr (k, c, found, s) ↦ rw (check_blocks, s, split, found) refl
      ]

  inode_at-dir : (num : ℕ) → is_dir num ≡ true → inode_at d (pos num) ≡ some (d.inodes num)
  unfolding inode_at
  inode_at-dir num h = ground (arith, tree.number num h)

  walk_from_lem :
      (ts : List (List ℕ)) (num type : ℕ)
      → is_dir num ≡ true
      → walk_from ts (pos num) d type ≡ some (resolve_path (dir_of blocks) num ts type)
  unfolding walk_from resolve_path
  walk_from_lem [] num type h = refl
  walk_from_lem (t ∷ []) num type h = elim (Bool-cases (type == ext2_ft_dir)) [
    | inl dir ↦
        let same : type ≡ ext2_ft_dir = ground (arith, dir) in
        subst
          (λ (x : ℕ).
            walk_from (t ∷ []) (pos num) d x ≡ some (resolve_path (dir_of blocks) num (t ∷ []) x))
          (sym same)
          (rw (walk_from, inode_at-dir num h, check_blocks-dir 12 0 num t refl h) (ground arith))
    | inr other ↦
        rw (walk_from, inode_at-dir num h, check_blocks-other 12 0 num type t refl h other)
          (ground (arith, other))
  ]
  walk_from_lem (t ∷ u ∷ ts) num type h =
      let entered = enter_blocks_lem 12 0 num t refl h in
      elim (Option-cases (find_entry (dir_of blocks num) t ext2_ft_dir)) [
        | inl missing ↦ rw (walk_from, resolve_path, inode_at-dir num h, entered, missing) refl
        | inr (k, found) ↦
            let c = child_of 12 0 num k t refl h found in
            rw
              (
                walk_from,
                resolve_path,
                inode_at-dir num h,
                entered,
                found,
                as_int-some k (tree.number k c).2,
              )
              (walk_from_lem (u ∷ ts) k type c)
      ]

  -- On an image whose directories are a tree, with the blocks of the root marked in use, for an
  -- absolute path of two parts or more: where the root has a directory of the first part's name,
  -- `walk_path` ends, stays inside the image, and returns what the rest of the path resolves to in
  -- the lists of entries, which is the parent of the last part, or -1 where that part is a
  -- directory already and one is asked for, or ENOENT where a directory on the way is missing.
  -- Where the root has none, it reads outside the inode table.
  pub walk_path-resolve_path :
      (t u : List ℕ) (ts : List (List ℕ)) (type : ℕ)
      → AreParts (t ∷ u ∷ ts)
      → walk_path d (join (t ∷ u ∷ ts)) type ≡ elim (find_entry (dir_of blocks 2) t ext2_ft_dir) [
        | none ↦ none
        | some k ↦ some (resolve_path (dir_of blocks) k (u ∷ ts) type)
      ]
  unfolding walk_path find_starting_inode walk_from inode_at
  walk_path-resolve_path t u ts type parts =
      let start = starting_from_lem 12 0 t refl in
      let (c, last, ne) = last_byte-join t (u ∷ ts) parts in
      elim (Option-cases (find_entry (dir_of blocks 2) t ext2_ft_dir)) [
        | inl missing ↦
            rw (walk_path, last, ne, tokens-join (t ∷ u ∷ ts) parts, start, missing)
              (walk_from-out u ts d type)
        | inr (k, found) ↦
            let h = child_of 12 0 2 k t refl tree.root found in
            rw
              (
                walk_path,
                last,
                ne,
                tokens-join (t ∷ u ∷ ts) parts,
                start,
                found,
                as_int-some k (tree.number k h).2,
              )
              (walk_from_lem (u ∷ ts) k type h)
      ]
