-- ===== src/Ext2/Search/Find.antt =====
-- The search in a block of a directory against the search in the list of its entries.
use csc369_uoft.Base.{
  ℕ, zero, suc, ◌+◌, ◌*◌, ◌≤◌, ◌<◌, ◌≡◌, ◌≢◌, refl, true, false, Option, none, some, List, [], ◌∷◌,
  ◌==◌, if◌then◌else◌, arith, length, inl, inr, Bool-cases, subst,
}
use csc369_uoft.Base.Int.{ℤ, negsuc, int32}
use csc369_uoft.Ext2.Entries.{DirEntry, ext2_ft_dir, image_size}
use csc369_uoft.Ext2.Entries.Layout.{Laid, IsBlock, Laid-le, entry_at-Laid}
use csc369_uoft.Ext2.Search.{matches, search_from, search_directory}

-- The number of the inode of the first entry that matches.
unfoldable pub find_entry : List DirEntry → List ℕ → ℕ → Option ℕ
find_entry [] d_name type = none
find_entry (e ∷ es) d_name type =
    let rest = find_entry es d_name type in if matches d_name type e then some e.inode else rest

-- A result as the C code returns it.
abbrev pub as_int : Option ℕ → ℤ
as_int none = negsuc 0
as_int (some n) = int32 n

-- The entries of block `b` of a directory: a block in the image whose first entry is a directory, or
-- block 0, which stands for none.
abbrev pub IsDirBlock : (ℕ → ℕ) → ℕ → List DirEntry → Type 0
IsDirBlock m b [] = b ≡ 0
IsDirBlock m b (e ∷ es) = (b ≢ 0) × (b < 128) × (e.file_type ≡ ext2_ft_dir) × IsBlock m b (e ∷ es)

pub search_from_lem :
    (n : ℕ) (m : ℕ → ℕ) (base size : ℕ) (d_name : List ℕ) (type : ℕ) (es : List DirEntry)
    → length es < n
    → base + 1024 ≤ image_size
    → Laid m (base + size) (base + 1024) es
    → search_from n m base size d_name type ≡ some (as_int (find_entry es d_name type))
unfolding search_from find_entry
search_from_lem zero m base size d_name type es enough inside l = absurd (omega arith)
search_from_lem (suc n) m base size d_name type [] enough inside l =
    let e : size ≡ 1024 = omega arith in ground (arith, e)
search_from_lem (suc n) m base size d_name type (e ∷ es) enough inside l =
    let here = entry_at-Laid m (base + size) (base + 1024) e es inside l in
    let (same, room, rest) = l in
    let low = Laid-le m (base + size + e.rec_len) (base + 1024) es rest in
    let next : base + size + e.rec_len ≡ base + (size + e.rec_len) = omega arith in
    let ih =
      search_from_lem n m base (size + e.rec_len) d_name type es (omega arith) inside
        (subst (λ (x : ℕ). Laid m x (base + 1024) es) next rest) in
    let within : (size == 1024) ≡ false = ground arith in
    elim (Bool-cases (matches d_name type e)) [
      | inl found ↦ rw (search_from, within, here, found) refl
      | inr other ↦ rw (search_from, within, here, other) ih
    ]

-- On a block of a directory, `search_directory` ends, stays inside the image, and returns, as an
-- `int`, the inode of the first entry of the block that has the type and the name, or -1 where
-- there is none.
pub search_directory_lem :
    (m : ℕ → ℕ) (b : ℕ) (d_name : List ℕ) (type : ℕ) (es : List DirEntry)
    → IsDirBlock m b es
    → search_directory m b d_name type ≡ some (as_int (find_entry es d_name type))
unfolding search_directory find_entry
search_directory_lem m b d_name type [] h = ground (arith, h)
search_directory_lem m b d_name type (e ∷ es) (nonzero, lt, dir, l) =
    let here = entry_at-Laid m (1024 * b) (1024 * b + 1024) e es (omega arith) l in
    let low = Laid-le m (1024 * b) (1024 * b + 1024) (e ∷ es) l in
    let same : 1024 * b ≡ 1024 * b + 0 = omega arith in
    let found =
      search_from_lem image_size m (1024 * b) 0 d_name type (e ∷ es) (omega arith) (omega arith)
        (subst (λ (x : ℕ). Laid m x (1024 * b + 1024) (e ∷ es)) same l) in
    let within : (b == 0) ≡ false = ground arith in
    let first : (e.file_type == ext2_ft_dir) ≡ true = ground arith in
    rw (search_directory, within, here, first) found
