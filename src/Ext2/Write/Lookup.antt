-- ===== src/Ext2/Write/Lookup.antt =====
-- A write of an entry to a block of a directory: the block after it, and what a search finds there.
use csc369_uoft.Base.{
  ℕ, ◌+◌, ◌*◌, ◌^◌, ◌≤◌, ◌<◌, ◌≡◌, refl, ap, ◌∙◌, Bool, true, false, ◌&&◌, Option, none, some, List,
  [], ◌∷◌, ◌++◌, ◌==◌, arith, length, length-append, ◌⊎◌, subst, leb, update,
}
use csc369_uoft.Base.Int.{pos, negsuc, int32}
use csc369_uoft.Ext2.{Disk, Inode}
use csc369_uoft.Ext2.Bytes.{IsText, same_text}
use csc369_uoft.Ext2.Entries.{DirEntry, image_size}
use csc369_uoft.Ext2.Entries.Layout.{Laid, IsBlock, Laid-le, Laid-split, total}
use csc369_uoft.Ext2.Paths.{tokens, last_of}
use csc369_uoft.Ext2.Search.{matches, search_directory}
use csc369_uoft.Ext2.Search.Find.{find_entry, as_int, IsDirBlock, search_directory_lem}
use csc369_uoft.Ext2.Walk.{inode_at}
use csc369_uoft.Ext2.Write.{size_needed, last_from, new_entry, add_link, write_entry}
use csc369_uoft.Ext2.Write.Append.{
  HasRoom, appended, stored, stored-Laid, stored-outside, append_entry_lem, last_from_lem,
}

-- The loop of a write finds the last entry of the block.
last_from_block :
    (m : ℕ → ℕ) (b : ℕ) (front : List DirEntry) (e : DirEntry)
    → b < 128
    → IsBlock m b (front ++ (e ∷ []))
    → last_from image_size m (1024 * b) 0 ≡ some (total front)
last_from_block m b front e lt l =
    let low = Laid-le m (1024 * b) (1024 * b + 1024) (front ++ (e ∷ [])) l in
    let len = length-append front (e ∷ []) in
    let start : 1024 * b ≡ 1024 * b + 0 = omega arith in
    last_from_lem image_size m (1024 * b) 0 front e (omega arith) (omega arith)
      (subst (λ (x : ℕ). Laid m x (1024 * b + 1024) (front ++ (e ∷ []))) start l)
    ∙ ap some (omega arith)

-- In a block that holds a list of entries, the last of which has room for the name and a null byte
-- after it, with an inode below 2^32 and a name of less than 256 bytes, a write ends with the
-- result 1. The last entry is cut to the bytes that it uses, the new one follows up to the end of
-- the block, the parent has one link more modulo 2^16, and no byte outside the block changes.
pub write_entry_lem :
    (file_type : ℕ) (d : Disk) (b parent num : ℕ) (path final : List ℕ) (inode : Inode)
    (front : List DirEntry) (e : DirEntry)
    → last_of (tokens path) ≡ some final
    → inode_at d (pos parent) ≡ some inode
    → b < 128
    → IsBlock d.bytes b (front ++ (e ∷ []))
    → HasRoom e final
    → num < 2 ^ 32
    → length final < 256
    → IsText final
    → (bytes : ℕ → ℕ) × (write_entry file_type d b parent path num
        ≡ some (true, record d { inodes = update d.inodes parent (add_link inode); bytes = bytes }))
      × IsBlock bytes b (front ++ appended (total front) num file_type e final)
      × ((j : ℕ) → (j < 1024 * b) ⊎ (1024 * b + 1024 ≤ j) → bytes j ≡ d.bytes j)
unfolding write_entry
write_entry_lem file_type d b parent num path final inode front e named parent_at lt l room small
      short text =
    let m = d.bytes in
    let found = last_from_block m b front e lt l in
    let here = (Laid-split m (1024 * b) (1024 * b + 1024) front (e ∷ []) l).1.0 in
    let enough : leb (size_needed (length final)) e.rec_len ≡ true = ground arith in
    let added =
      append_entry_lem m (1024 * b) num file_type front e final (omega arith) l room small short
        text in
    (
      stored m (1024 * b) num file_type front e final (omega arith) l room small short text,
      rw (write_entry, named, found, here, enough, parent_at, here, added) refl,
      stored-Laid m (1024 * b) num file_type front e final (omega arith) l room small short text,
      stored-outside m (1024 * b) num file_type front e final (omega arith) l room small short text,
    )

-- In a block that holds a list of entries, the last of which is shorter than the new one, a write
-- ends with the result 0 and changes nothing.
write_entry-full :
    (file_type : ℕ) (d : Disk) (b parent num : ℕ) (path final : List ℕ) (front : List DirEntry)
    (e : DirEntry)
    → last_of (tokens path) ≡ some final
    → b < 128
    → IsBlock d.bytes b (front ++ (e ∷ []))
    → e.rec_len < size_needed (length final)
    → write_entry file_type d b parent path num ≡ some (false, d)
unfolding write_entry
write_entry-full file_type d b parent num path final front e named lt l full =
    let m = d.bytes in
    let found = last_from_block m b front e lt l in
    let here = (Laid-split m (1024 * b) (1024 * b + 1024) front (e ∷ []) l).1.0 in
    let short : leb (size_needed (length final)) e.rec_len ≡ false = ground arith in
    rw (write_entry, named, found, here, short) refl

find_entry-appended :
    (file_type num size : ℕ) (final d_name : List ℕ) (type : ℕ) (front : List DirEntry)
    (e : DirEntry)
    → find_entry (front ++ appended size num file_type e final) d_name type
      ≡ elim (find_entry (front ++ (e ∷ [])) d_name type) [
        | none ↦ elim ((file_type == type) && same_text final d_name) [
          | true ↦ some num
          | false ↦ none
        ]
        | some k ↦ some k
      ]
unfolding appended find_entry matches new_entry
find_entry-appended file_type num size final d_name type [] e = ground arith
find_entry-appended file_type num size final d_name type (x ∷ xs) e =
    ground (arith, find_entry-appended file_type num size final d_name type xs e)

IsDirBlock-appended :
    (m m' : ℕ → ℕ) (b num file_type : ℕ) (final : List ℕ) (front : List DirEntry) (e : DirEntry)
    → IsDirBlock m b (front ++ (e ∷ []))
    → IsBlock m' b (front ++ appended (total front) num file_type e final)
    → IsDirBlock m' b (front ++ appended (total front) num file_type e final)
unfolding appended
IsDirBlock-appended m m' b num file_type final [] e h l = (h.0, h.1, h.2, l)
IsDirBlock-appended m m' b num file_type final (x ∷ xs) e h l = (h.0, h.1, h.2, l)

IsDirBlock-last :
    (m : ℕ → ℕ) (b : ℕ) (front : List DirEntry) (e : DirEntry)
    → IsDirBlock m b (front ++ (e ∷ []))
    → (b < 128) × IsBlock m b (front ++ (e ∷ []))
IsDirBlock-last m b [] e h = (h.1, h.3)
IsDirBlock-last m b (x ∷ xs) e h = (h.1, h.3)

found_as_int :
    (num : ℕ) (o : Option ℕ) (new : Bool)
    → num < 2 ^ 31
    → some
        (as_int (elim o [ none ↦ elim new [ true ↦ some num | false ↦ none ] | some k ↦ some k ]))
      ≡ some (elim o [ none ↦ elim new [ true ↦ pos num | false ↦ negsuc 0 ] | some k ↦ int32 k ])
found_as_int num none true h = ground arith
found_as_int num none false h = refl
found_as_int num (some k) new h = refl

-- After a write of an entry to a block of a directory whose last entry has room for it, with an
-- inode below 2^31 and a name of less than 256 bytes, a search of the block for any name and type
-- finds what is first among the old entries; where there is none, it finds the new inode for the
-- new name and type, and returns -1 for every other.
pub write_entry-search_directory :
    (file_type : ℕ) (d : Disk) (b parent num : ℕ) (path final : List ℕ) (inode : Inode)
    (front : List DirEntry) (e : DirEntry)
    → last_of (tokens path) ≡ some final
    → inode_at d (pos parent) ≡ some inode
    → IsDirBlock d.bytes b (front ++ (e ∷ []))
    → HasRoom e final
    → num < 2 ^ 31
    → length final < 256
    → IsText final
    → (d' : Disk) × (write_entry file_type d b parent path num ≡ some (true, d'))
      × ((d_name : List ℕ) (type : ℕ)
          → search_directory d'.bytes b d_name type
            ≡ some (elim (find_entry (front ++ (e ∷ [])) d_name type) [
              | none ↦ elim ((file_type == type) && same_text final d_name) [
                | true ↦ pos num
                | false ↦ negsuc 0
              ]
              | some k ↦ int32 k
            ]))
write_entry-search_directory file_type d b parent num path final inode front e named parent_at dir
      room small short text =
    let (lt, l) = IsDirBlock-last d.bytes b front e dir in
    let (bytes, written, after, outside) =
      write_entry_lem file_type d b parent num path final inode front e named parent_at lt l room
        (omega arith) short text in
    let block = IsDirBlock-appended d.bytes bytes b num file_type final front e dir after in
    (
      record d { inodes = update d.inodes parent (add_link inode); bytes = bytes },
      written,
      λ d_name type.
          search_directory_lem bytes b d_name type
            (front ++ appended (total front) num file_type e final) block
          ∙ rw (find_entry-appended file_type num (total front) final d_name type front e) (
              found_as_int num (find_entry (front ++ (e ∷ [])) d_name type)
                ((file_type == type) && same_text final d_name) small),
    )
