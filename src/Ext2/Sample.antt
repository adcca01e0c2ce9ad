-- ===== src/Ext2/Sample.antt =====
-- A small image for the tests: the root has a directory "a", which has a file "f".
use csc369_uoft.Base.{
  ℕ, zero, suc, ◌-◌, ◌≡◌, refl, Bool, true, ◌||◌, List, [], ◌∷◌, ◌==◌, leb, if◌then◌else◌, arith,
  ◌⊎◌,
}
use csc369_uoft.Ext2.{Disk, Inode}
use csc369_uoft.Ext2.Bytes.{load16, load32, load_text}
use csc369_uoft.Ext2.Entries.{DirEntry, load_entry}
use csc369_uoft.Ext2.Entries.Layout.{IsBlock}

abbrev pub nth : List ℕ → ℕ → ℕ
nth [] i = 0
nth (b ∷ bs) zero = b
nth (b ∷ bs) (suc i) = nth bs i

abbrev dot_entries : ℕ → List ℕ → List ℕ
dot_entries num rest =
    num ∷ 0 ∷ 0 ∷ 0 ∷ 12 ∷ 0 ∷ 1 ∷ 2 ∷ 46 ∷ 0 ∷ 0 ∷ 0 ∷ 2 ∷ 0 ∷ 0 ∷ 0 ∷ 12 ∷ 0 ∷ 2 ∷ 2 ∷ 46 ∷ 46 ∷ 0
    ∷ 0 ∷ rest

abbrev pub sample_bytes : ℕ → ℕ
sample_bytes j =
    if leb 10240 j
    then nth (dot_entries 12 (13 ∷ 0 ∷ 0 ∷ 0 ∷ 232 ∷ 3 ∷ 1 ∷ 1 ∷ 102 ∷ [])) (j - 10240)
    else if leb 9216 j
    then nth (dot_entries 2 (12 ∷ 0 ∷ 0 ∷ 0 ∷ 232 ∷ 3 ∷ 1 ∷ 2 ∷ 97 ∷ [])) (j - 9216)
    else 0

abbrev pub entry : (inode rec_len file_type : ℕ) → List ℕ → ℕ → DirEntry
entry inode rec_len file_type name name_len = record {
  inode = inode;
  rec_len = rec_len;
  name_len = name_len;
  file_type = file_type;
  name = name;
}

abbrev pub dots : ℕ → List DirEntry
dots num = entry num 12 2 (46 ∷ []) 1 ∷ entry 2 12 2 (46 ∷ 46 ∷ []) 2 ∷ []

abbrev pub entry_a : DirEntry
entry_a = entry 12 1000 2 (97 ∷ []) 1

abbrev pub entry_f : DirEntry
entry_f = entry 13 1000 1 (102 ∷ []) 1

abbrev pub root_entries : List DirEntry
root_entries = entry 2 12 2 (46 ∷ []) 1 ∷ entry 2 12 2 (46 ∷ 46 ∷ []) 2 ∷ entry_a ∷ []

abbrev pub a_entries : List DirEntry
a_entries = entry 12 12 2 (46 ∷ []) 1 ∷ entry 2 12 2 (46 ∷ 46 ∷ []) 2 ∷ entry_f ∷ []

pub root_entries-IsBlock : IsBlock sample_bytes 9 root_entries
unfolding load_entry load16 load32 load_text
root_entries-IsBlock = (refl, omega arith, (refl, omega arith, (refl, omega arith, refl)))

pub a_entries-IsBlock : IsBlock sample_bytes 10 a_entries
unfolding load_entry load16 load32 load_text
a_entries-IsBlock = (refl, omega arith, (refl, omega arith, (refl, omega arith, refl)))

-- A directory or a file of one block.
abbrev pub one_block : (block : ℕ) → ℕ → ℕ
one_block block zero = block
one_block block (suc i) = 0

abbrev pub inode_of : (mode dtime block : ℕ) → Inode
inode_of mode dtime block = record {
  i_mode = mode;
  i_size = 1024;
  i_ctime = 0;
  i_dtime = dtime;
  i_links_count = 1;
  i_blocks = 2;
  i_block = one_block block;
}

-- Inodes 1 to 11 and 13 are used, and blocks 1 to 10. File 13 has a deletion time, and the bits of inode 12 and
-- of block 11 are missing.
abbrev pub image : Disk
image = record {
  s_inodes_count = 32;
  s_blocks_count = 128;
  s_free_blocks_count = 100;
  s_free_inodes_count = 20;
  s_first_ino = 11;
  bg_free_blocks_count = 100;
  bg_free_inodes_count = 20;
  bg_used_dirs_count = 2;
  inode_bits = λ i. if i == 0 then 255 else if i == 1 then 23 else 0;
  block_bits = λ i. if i == 0 then 255 else if i == 1 then 3 else 0;
  inodes = λ num.
      if num == 2
      then inode_of 16877 0 9
      else if num == 12
      then inode_of 16877 0 10
      else inode_of 33188 7 11;
  bytes = sample_bytes;
}

abbrev pub is_dir : ℕ → Bool
is_dir num = (num == 2) || (num == 12)

abbrev pub height : ℕ → ℕ
height num = if num == 2 then 1 else 0

-- The entries of a directory of one block.
abbrev first : List DirEntry → ℕ → List DirEntry
first es zero = es
first es (suc i) = []

abbrev pub blocks : ℕ → ℕ → List DirEntry
blocks num = if num == 2 then first root_entries else first a_entries

pub is_dir-cases : (num : ℕ) → is_dir num ≡ true → (num ≡ 2) ⊎ (num ≡ 12)
is_dir-cases num h = ground arith
