-- ===== src/Ext2/Link/Found.antt =====
-- A hard link of A4/ext2_ln.c is found in its directory.
use csc369_uoft.Base.{
  ℕ, zero, suc, ◌+◌, ◌-◌, ◌*◌, ◌/◌, ◌^◌, ◌≤◌, ◌<◌, ◌≡◌, ◌≢◌, refl, ap, ◌∙◌, sym, Bool, true, false,
  some, List, [], ◌∷◌, ◌++◌, ◌==◌, ltb, arith, length, subst, inl, inr, ◌⊎◌, update, if◌then◌else◌,
  Bool-cases, ==_refl,
}
use csc369_uoft.Base.Int.{pos}
use csc369_uoft.Ext2.{Disk, Inode}
use csc369_uoft.Ext2.Bytes.{IsText, same_text_refl}
use csc369_uoft.Ext2.Entries.{DirEntry}
use csc369_uoft.Ext2.Entries.Layout.{IsBlock, Laid-frame}
use csc369_uoft.Ext2.Link.{returned, directory_has_file}
use csc369_uoft.Ext2.Link.Create.{create_hard_link, type_of_mode}
use csc369_uoft.Ext2.Link.Hard.{create_hard_link_lem}
use csc369_uoft.Ext2.Link.Insert.{link_of}
use csc369_uoft.Ext2.Link.Named.{
  find_named, find_named-append, entries_read, directory_has_file_lem,
}
use csc369_uoft.Ext2.Link.Place.{rounded, next_place}
use csc369_uoft.Ext2.Walk.{inode_at}
use csc369_uoft.Ext2.Write.{add_link}

-- A name that a block does not have is found there once its entry is added.
find_named-link :
    (name : List ℕ) (front : List DirEntry) (e : DirEntry) (v rec_len source file_type : ℕ)
    → source ≢ 0
    → find_named (front ++ (e ∷ [])) name ≡ 0
    → find_named
        (front ++ (record e { rec_len = v } ∷ link_of rec_len source file_type name ∷ []))
        name
      ≡ source
unfolding find_named link_of
find_named-link name [] e v rec_len source file_type ne absent =
    ground (arith, ne, absent, same_text_refl name)
find_named-link name (x ∷ xs) e v rec_len source file_type ne absent =
    ground (arith, ne, absent, find_named-link name xs e v rec_len source file_type ne)

first_nonzero : (a b : ℕ) → a ≢ 0 → elim a [ zero ↦ b | suc n ↦ suc n ] ≡ a
first_nonzero zero b ne = absurd (ne refl)
first_nonzero (suc a) b ne = refl

both_zero : (a b : ℕ) → elim a [ zero ↦ b | suc n ↦ suc n ] ≡ 0 → (a ≡ 0) × (b ≡ 0)
both_zero zero b e = (refl, e)
both_zero (suc a) b e = absurd (omega arith)

-- Where one of the blocks that are read comes to have the name.
find_named-entries_read :
    (n i k i_blocks source : ℕ) (name : List ℕ) (es es' : ℕ → List DirEntry)
    → i ≤ k
    → k < i + n
    → k < i_blocks / 2
    → source ≢ 0
    → ((j : ℕ) → j < k → es' j ≡ es j)
    → find_named (es' k) name ≡ source
    → find_named (entries_read n i i_blocks es) name ≡ 0
    → find_named (entries_read n i i_blocks es') name ≡ source
unfolding entries_read
find_named-entries_read zero i k i_blocks source name es es' le lt read ne same found absent =
    absurd (omega arith)
find_named-entries_read (suc n) i k i_blocks source name es es' le lt read ne same found absent =
    let more : ltb i (i_blocks / 2) ≡ true = ground arith in
    let split = find_named-append (es i) (entries_read n (i + 1) i_blocks es) name in
    let split' = find_named-append (es' i) (entries_read n (i + 1) i_blocks es') name in
    elim (Bool-cases (i == k)) [
      | inl here ↦
          let at : find_named (es' i) name ≡ source =
            subst (λ (x : ℕ). find_named (es' x) name ≡ source) (sym (ground (arith, here)))
              found in
          rw (more, split', at)
            (first_nonzero source (find_named (entries_read n (i + 1) i_blocks es') name) ne)
      | inr before ↦
          let lower : i < k = ground (arith, before) in
          let (none_here, none_after) =
            both_zero (find_named (es i) name)
              (find_named (entries_read n (i + 1) i_blocks es) name)
              (sym split
                ∙ (ap
                      (λ (b : Bool).
                        find_named (if b then es i ++ entries_read n (i + 1) i_blocks es else [])
                          name)
                      (sym more)
                    ∙ absent)) in
          let ih =
            find_named-entries_read n (i + 1) k i_blocks source name es es' (omega arith)
              (omega arith) read ne same found none_after in
          rw (more, split', same i lower, none_here) ih
    ]

-- Where no block that is read has the name, the `k`th does not.
read_zero :
    (n i k i_blocks : ℕ) (name : List ℕ) (es : ℕ → List DirEntry)
    → i ≤ k
    → k < i + n
    → k < i_blocks / 2
    → find_named (entries_read n i i_blocks es) name ≡ 0
    → find_named (es k) name ≡ 0
unfolding entries_read
read_zero zero i k i_blocks name es le lt read absent = absurd (omega arith)
read_zero (suc n) i k i_blocks name es le lt read absent =
    let more : ltb i (i_blocks / 2) ≡ true = ground arith in
    let split = find_named-append (es i) (entries_read n (i + 1) i_blocks es) name in
    let (none_here, none_after) =
      both_zero (find_named (es i) name) (find_named (entries_read n (i + 1) i_blocks es) name) (
        sym split
        ∙ (ap
              (λ (b : Bool).
                find_named (if b then es i ++ entries_read n (i + 1) i_blocks es else []) name)
              (sym more)
            ∙ absent)) in
    elim (Bool-cases (i == k)) [
      | inl here ↦
          let same : i ≡ k = ground (arith, here) in
          subst (λ (x : ℕ). find_named (es x) name ≡ 0) same none_here
      | inr before ↦
          let lower : i < k = ground (arith, before) in
          read_zero n (i + 1) k i_blocks name es (omega arith) (omega arith) read none_after
    ]

update_other :
    (es : ℕ → List DirEntry) (k j : ℕ) (new : List DirEntry) → j < k → update es k new j ≡ es j
update_other es k j new lower = let other : (k == j) ≡ false = ground arith in rw other refl

-- The blocks of the directory after the change of block `k`.
held_after :
    (m m' : ℕ → ℕ) (dir : Inode) (k : ℕ) (es : ℕ → List DirEntry) (new : List DirEntry)
    → ((j : ℕ)
        → j < 12
        → j < dir.i_blocks / 2
        → (dir.i_block j < 128) × IsBlock m (dir.i_block j) (es j))
    → ((j : ℕ) → j < 12 → j < dir.i_blocks / 2 → j ≢ k → dir.i_block j ≢ dir.i_block k)
    → IsBlock m' (dir.i_block k) new
    → ((j : ℕ) → (j < 1024 * dir.i_block k) ⊎ (1024 * dir.i_block k + 1024 ≤ j) → m' j ≡ m j)
    → (j : ℕ) → j < 12
    → j < dir.i_blocks / 2
    → (dir.i_block j < 128) × IsBlock m' (dir.i_block j) (update es k new j)
held_after m m' dir k es new held apart block outside j lt read = elim (Bool-cases (k == j)) [
  | inl here ↦
      let same : k ≡ j = ground (arith, here) in
      ((held j lt read).0, rw here (subst (λ (x : ℕ). IsBlock m' (dir.i_block x) new) same block))
  | inr other ↦
      let ne = apart j lt read (λ e. ground (arith, e, other)) in
      (
        (held j lt read).0,
        rw other (
            Laid-frame m m' (1024 * dir.i_block j) (1024 * dir.i_block j + 1024) (es j)
              (λ x low high. outside x (ground (arith, low, high, ne))) (held j lt read).1),
      )
]

-- The entries of a block, the last of them apart.
abbrev all_of : (ℕ → List DirEntry) → (ℕ → DirEntry) → ℕ → List DirEntry
all_of front last j = front j ++ (last j ∷ [])

-- For a link to an inode other than 0 and than the directory, where the blocks that
-- `directory_has_file` reads of the directory hold entries, the block that gets the entry is none
-- of the others, it is the first with room, and `directory_has_file` does not find the name:
-- `create_hard_link` returns, and `directory_has_file` then finds the inode under the name.
pub create_hard_link-directory_has_file :
    (d : Disk) (destination source k : ℕ) (dir inode : Inode) (name : List ℕ)
    (front : ℕ → List DirEntry) (last : ℕ → DirEntry)
    → inode_at d (pos source) ≡ some inode
    → inode_at d (pos destination) ≡ some dir
    → dir.i_mode / 4096 ≡ 4
    → source ≢ destination
    → source ≢ 0
    → k < 12
    → k < dir.i_blocks / 2
    → ((j : ℕ)
        → j < 12
        → j < dir.i_blocks / 2
        → (dir.i_block j < 128) × IsBlock d.bytes (dir.i_block j) (front j ++ (last j ∷ [])))
    → ((j : ℕ) → j < 12 → j < dir.i_blocks / 2 → j ≢ k → dir.i_block j ≢ dir.i_block k)
    → ((j : ℕ) → j < k → 1024 < next_place (front j) (last j) + rounded (length name))
    → next_place (front k) (last k) + rounded (length name) ≤ 1024
    → source < 2 ^ 32
    → length name < 256
    → IsText name
    → directory_has_file d destination name ≡ some 0
    → (d' : Disk) × (create_hard_link d destination source name ≡ some (returned 0, d'))
      × (directory_has_file d' destination name ≡ some source)
unfolding inode_at
create_hard_link-directory_has_file d destination source k dir inode name front last at dest mode ne
      ne0 lt read held apart full room small short text absent =
    let (bytes, linked, block, outside) =
      create_hard_link_lem d destination source k dir inode name front last at dest ne lt read
        (λ j le. held j (omega arith) (omega arith)) full room small short text in
    let d' = record d { inodes = update d.inodes source (add_link inode); bytes = bytes } in
    let dest' : inode_at d' (pos destination) ≡ some dir = ground (arith, dest, ne) in
    let es = all_of front last in
    let new =
      front k
      ++ (record (last k) { rec_len = rounded (last k).name_len }
          ∷ link_of (1024 - next_place (front k) (last k)) source (type_of_mode inode.i_mode) name
          ∷ []) in
    let before = directory_has_file_lem d destination dir name es dest mode held in
    let missing : find_named (entries_read 12 0 dir.i_blocks es) name ≡ 0 =
      ground (arith, before, absent) in
    let gone = read_zero 12 0 k dir.i_blocks name es (omega arith) (omega arith) read missing in
    let here : find_named (update es k new k) name ≡ source = rw (==_refl k) (
      find_named-link name (front k) (last k) (rounded (last k).name_len)
        (1024 - next_place (front k) (last k)) source (type_of_mode inode.i_mode) ne0 gone) in
    (
      d',
      linked,
      directory_has_file_lem d' destination dir name (update es k new) dest' mode
            (held_after d.bytes bytes dir k es new held apart block outside)
          ∙ ap some (
              find_named-entries_read 12 0 k dir.i_blocks source name es (update es k new)
                (omega arith) (omega arith) read ne0 (λ j lower. update_other es k j new lower) here
                missing),
    )
