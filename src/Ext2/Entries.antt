-- ===== src/Ext2/Entries.antt =====
-- Directory entries in the bytes of an image, and a block as a list of entries.
pub mod Layout
use csc369_uoft.Base.{
  ℕ, zero, suc, ◌+◌, ◌*◌, ◌≤◌, ◌<◌, ◌≡◌, refl, Bool, true, false, Option, none, some, List, [], ◌∷◌,
  leb, if◌then◌else◌, update, arith,
}
use csc369_uoft.Ext2.Bytes.{load16, load32, load_text, store16, store32, store_text}

-- `struct ext2_dir_entry`, with the name as a C string.
pub record DirEntry : Type 0 where
  pub inode : ℕ
  pub rec_len : ℕ
  pub name_len : ℕ
  pub file_type : ℕ
  pub name : List ℕ

-- EXT2_FT_REG_FILE, EXT2_FT_DIR and EXT2_FT_SYMLINK
abbrev pub ext2_ft_reg_file : ℕ
ext2_ft_reg_file = 1

abbrev pub ext2_ft_dir : ℕ
ext2_ft_dir = 2

abbrev pub ext2_ft_symlink : ℕ
ext2_ft_symlink = 7

-- The size of an image, 128 * 1024 bytes.
abbrev pub image_size : ℕ
image_size = 131072

unfoldable pub load_entry : (ℕ → ℕ) → ℕ → DirEntry
load_entry m a = record {
  inode = load32 m a;
  rec_len = load16 m (a + 4);
  name_len = m (a + 6);
  file_type = m (a + 7);
  name = load_text m (a + 8) (m (a + 6));
}

-- The entry at an address; one that is not inside the image is `none`.
unfoldable pub entry_at : (ℕ → ℕ) → ℕ → Option DirEntry
entry_at m a = if leb (a + 8 + m (a + 6)) image_size then some (load_entry m a) else none

-- The stores to the fields of an entry.
unfoldable pub store_rec_len : (ℕ → ℕ) → ℕ → ℕ → ℕ → ℕ
store_rec_len m a v = store16 m (a + 4) v

-- The stores to all fields but the name.
unfoldable pub store_header : (ℕ → ℕ) → ℕ → DirEntry → ℕ → ℕ
store_header m a e =
    update (update (store16 (store32 m a e.inode) (a + 4) e.rec_len) (a + 6) e.name_len) (a + 7)
      e.file_type

unfoldable pub store_entry : (ℕ → ℕ) → ℕ → DirEntry → ℕ → ℕ
store_entry m a e = store_text (store_header m a e) (a + 8) e.name
