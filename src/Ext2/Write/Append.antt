-- ===== src/Ext2/Write/Append.antt =====
-- The stores of a new entry against the list of the entries of a block.
use csc369_uoft.Base.{
  ℕ, zero, suc, ◌+◌, ◌^◌, ◌≤◌, ◌<◌, ◌≡◌, refl, ap, ◌∙◌, true, false, some, List, [], ◌∷◌, ◌++◌,
  ◌==◌, arith, length, length-append, ◌⊎◌, inl, subst, leb,
}
use csc369_uoft.Ext2.Bytes.{IsText}
use csc369_uoft.Ext2.Entries.{DirEntry, load_entry, store_rec_len, store_entry, image_size}
use csc369_uoft.Ext2.Entries.Layout.{
  Laid, Laid-le, Laid-frame, Laid-split, Laid-append, entry_at-Laid, name_len_at, total, Fits,
  store_rec_len-frame, load_entry-store_rec_len, store_entry-frame, load_entry-store_entry,
  load_entry-frame,
}
use csc369_uoft.Ext2.Write.{size_needed, last_from, new_entry, append_entry}

-- The loop finds the last entry.
pub last_from_lem :
    (n : ℕ) (m : ℕ → ℕ) (base size : ℕ) (front : List DirEntry) (e : DirEntry)
    → length front < n
    → base + 1024 ≤ image_size
    → Laid m (base + size) (base + 1024) (front ++ (e ∷ []))
    → last_from n m base size ≡ some (size + total front)
unfolding last_from
last_from_lem zero m base size front e enough inside l = absurd (omega arith)
last_from_lem (suc n) m base size [] e enough inside l =
    let here = entry_at-Laid m (base + size) (base + 1024) e [] inside l in
    let done : (size + e.rec_len == 1024) ≡ true = ground (arith, l.2) in
    rw (last_from, here, done) (ground arith)
last_from_lem (suc n) m base size (x ∷ xs) e enough inside l =
    let here = entry_at-Laid m (base + size) (base + 1024) x (xs ++ (e ∷ [])) inside l in
    let low = Laid-le m (base + size + x.rec_len) (base + 1024) (xs ++ (e ∷ [])) l.2 in
    let some_left = length-append xs (e ∷ []) in
    let more : (size + x.rec_len == 1024) ≡ false = ground (arith, low, some_left) in
    let next : base + size + x.rec_len ≡ base + (size + x.rec_len) = omega arith in
    let ih =
      last_from_lem n m base (size + x.rec_len) xs e (omega arith) inside
        (subst (λ (y : ℕ). Laid m y (base + 1024) (xs ++ (e ∷ []))) next l.2) in
    rw (last_from, here, more) (ih ∙ ap some (omega arith))

-- What the block holds after the stores: the last entry, cut, and the new one.
unfoldable pub appended : (size free_inode_num file_type : ℕ) → DirEntry → List ℕ → List DirEntry
appended size free_inode_num file_type e final =
    record e { rec_len = size_needed e.name_len }
    ∷ new_entry (size + size_needed e.name_len) free_inode_num file_type final
    ∷ []

-- The last entry has room, after its own bytes, for a new one and the null byte after its name.
abbrev pub HasRoom : DirEntry → List ℕ → Type 0
HasRoom e final = size_needed e.name_len + 8 + length final < e.rec_len

module _ (m : ℕ → ℕ) (base num file_type : ℕ) (front : List DirEntry) (e : DirEntry)
    (final : List ℕ) (inside : base + 1024 ≤ image_size)
    (l : Laid m base (base + 1024) (front ++ (e ∷ []))) (room : HasRoom e final)
    (small : num < 2 ^ 32) (short : length final < 256) (text : IsText final) where
  abbrev at : ℕ
  at = base + total front

  abbrev used : ℕ
  used = total front + size_needed e.name_len

  abbrev fresh : DirEntry
  fresh = new_entry used num file_type final

  abbrev cut : ℕ → ℕ
  cut = store_rec_len m at (size_needed e.name_len)

  abbrev pub stored : ℕ → ℕ
  stored = store_entry cut (base + used) fresh

  last_here : load_entry m at ≡ e
  last_here = (Laid-split m base (base + 1024) front (e ∷ []) l).1.0

  last_end : at + e.rec_len ≡ base + 1024
  last_end = (Laid-split m base (base + 1024) front (e ∷ []) l).1.2

  fresh-Fits : Fits fresh
  unfolding new_entry
  fresh-Fits = record { inode = small; rec_len = omega arith; name_len = omega arith; text = text }

  stored-frame : (j : ℕ) → (j < base + used) ⊎ (base + 1024 ≤ j) → stored j ≡ cut j
  unfolding new_entry
  stored-frame j h = store_entry-frame cut (base + used) fresh j (ground (arith, last_end))

  stored-cut : load_entry stored at ≡ record e { rec_len = size_needed e.name_len }
  stored-cut =
      let cut_here =
        load_entry-store_rec_len m at (size_needed e.name_len) e (omega (arith, last_end))
          last_here in
      let len = name_len_at cut at (record e { rec_len = size_needed e.name_len }) cut_here in
      load_entry-frame cut stored at (λ j p q. stored-frame j (inl (omega (arith, len)))) ∙ cut_here

  pub stored-Laid :
      Laid stored base (base + 1024) (front ++ appended (total front) num file_type e final)
  unfolding appended new_entry
  stored-Laid =
      let before =
        Laid-frame m stored base at front
          (λ j p q.
            stored-frame j (inl (omega arith))
            ∙ store_rec_len-frame m at (size_needed e.name_len) j (inl (omega arith)))
          (Laid-split m base (base + 1024) front (e ∷ []) l).0 in
      let next : base + used ≡ at + size_needed e.name_len = omega arith in
      let new_here = load_entry-store_entry cut (base + used) fresh fresh-Fits in
      let tail : Laid stored (base + used) (base + 1024) (fresh ∷ []) =
        (new_here, omega (arith, last_end), omega (arith, last_end)) in
      Laid-append stored base at (base + 1024) front (appended (total front) num file_type e final)
        before
        (
          stored-cut,
          omega arith,
          subst (λ (x : ℕ). Laid stored x (base + 1024) (fresh ∷ [])) next tail,
        )

  -- Nothing outside the block changes.
  pub stored-outside : (j : ℕ) → (j < base) ⊎ (base + 1024 ≤ j) → stored j ≡ m j
  stored-outside j h =
      let below = (Laid-split m base (base + 1024) front (e ∷ []) l).0 in
      let le = Laid-le m base at front below in
      stored-frame j (ground (arith, le))
      ∙ store_rec_len-frame m at (size_needed e.name_len) j (ground (arith, le, last_end))

  pub append_entry_lem :
      append_entry m base (total front) (size_needed e.name_len) num file_type final ≡ some stored
  unfolding append_entry
  append_entry_lem =
      let fits : leb (base + used + 8 + length final + 1) image_size ≡ true =
        ground (arith, last_end) in
      rw (append_entry, fits) refl
