-- ===== src/Ext2/Link/Insert.antt =====
-- The new entry of A4/ext2_ln.c in a block of a directory.
use csc369_uoft.Base.{
  ℕ, ◌+◌, ◌-◌, ◌%◌, ◌^◌, ◌≤◌, ◌<◌, ◌≡◌, ◌≢◌, refl, ap, ◌∙◌, List, [], ◌∷◌, ◌++◌, arith, length,
  subst, ◌⊎◌, inl, inr,
}
use csc369_uoft.Ext2.Bytes.{IsText}
use csc369_uoft.Ext2.Entries.{
  DirEntry, load_entry, store_header, store_rec_len, store_entry, image_size,
}
use csc369_uoft.Ext2.Entries.Layout.{
  Laid, Laid-le, Laid-frame, Laid-split, Laid-append, name_len_at, total, Fits, load_entry-frame,
  load_entry-store_entry, store_header-frame, store_rec_len-frame, load_entry-store_rec_len,
}
use csc369_uoft.Ext2.Link.Create.{put_entry, store_bytes}
use csc369_uoft.Ext2.Link.Place.{rounded, next_place, store_bytes-store_text, store_bytes-frame}

-- The entry of a new link.
unfoldable pub link_of : (rec_len inode file_type : ℕ) → List ℕ → DirEntry
link_of rec_len inode file_type name = record {
  inode = inode;
  rec_len = rec_len;
  name_len = length name;
  file_type = file_type;
  name = name;
}

put_entry_lem :
    (m : ℕ → ℕ) (a rec_len inode file_type : ℕ) (name : List ℕ)
    → Fits (link_of rec_len inode file_type name)
    → length name < 256
    → (load_entry (put_entry m a rec_len inode file_type name) a
        ≡ link_of rec_len inode file_type name)
      × ((j : ℕ)
          → (j < a) ⊎ (a + 8 + length name ≤ j)
          → put_entry m a rec_len inode file_type name j ≡ m j)
unfolding put_entry link_of store_entry
put_entry_lem m a rec_len inode file_type name fits short =
    let e = link_of rec_len inode file_type name in
    let len : length name % 256 ≡ length name = omega arith in
    let same = λ (j : ℕ) (ne : j ≢ a + 8 + length name).
      store_bytes-store_text (store_header m a e) (a + 8) name j ne in
    let stored = load_entry-store_entry m a e fits in
    let at = name_len_at (store_entry m a e) a e stored in
    rw len (
      load_entry-frame (store_entry m a e)
            (store_bytes (store_header m a e) (a + 8) (length name) name) a
            (λ j p q. same j (λ x. absurd (omega (arith, at))))
          ∙ stored,
      λ j h.
          store_bytes-frame (store_header m a e) (a + 8) name j (ground arith)
          ∙ store_header-frame m a e j (ground arith),
    )

module _ (m : ℕ → ℕ) (base inode file_type : ℕ) (front : List DirEntry) (e : DirEntry)
    (name : List ℕ) (inside : base + 1024 ≤ image_size)
    (l : Laid m base (base + 1024) (front ++ (e ∷ [])))
    (room : next_place front e + rounded (length name) ≤ 1024) (small : inode < 2 ^ 32)
    (short : length name < 256) (text : IsText name) where
  abbrev at : ℕ
  at = base + total front

  abbrev place : ℕ
  place = next_place front e

  abbrev link : DirEntry
  link = link_of (1024 - place) inode file_type name

  abbrev put : ℕ → ℕ
  put = put_entry m (base + place) (1024 - place) inode file_type name

  abbrev pub inserted : ℕ → ℕ
  inserted = store_rec_len put at (place - total front)

  last_here : load_entry m at ≡ e
  last_here = (Laid-split m base (base + 1024) front (e ∷ []) l).1.0

  last_end : at + e.rec_len ≡ base + 1024
  last_end = (Laid-split m base (base + 1024) front (e ∷ []) l).1.2

  link-Fits : Fits link
  unfolding link_of
  link-Fits = record { inode = small; rec_len = omega arith; name_len = refl; text = text }

  put-link : load_entry put (base + place) ≡ link
  put-link = (put_entry_lem m (base + place) (1024 - place) inode file_type name link-Fits short).0

  put-frame : (j : ℕ) → (j < base + place) ⊎ (base + 1024 ≤ j) → put j ≡ m j
  put-frame j h =
      (put_entry_lem m (base + place) (1024 - place) inode file_type name link-Fits short).1 j
        (ground (arith, room))

  inserted-frame : (j : ℕ) → (j < at + 4) ⊎ (at + 6 ≤ j) → inserted j ≡ put j
  inserted-frame j h = store_rec_len-frame put at (place - total front) j h

  pub inserted-outside : (j : ℕ) → (j < base) ⊎ (base + 1024 ≤ j) → inserted j ≡ m j
  inserted-outside j h =
      let below = Laid-le m base at front (Laid-split m base (base + 1024) front (e ∷ []) l).0 in
      inserted-frame j (ground (arith, room, below)) ∙ put-frame j (ground (arith, below))

  -- The last entry, cut where the new one begins, and the new one up to the end of the block.
  pub inserted-Laid :
      Laid inserted base
        (base + 1024)
        (front ++ (record e { rec_len = rounded e.name_len } ∷ link ∷ []))
  unfolding link_of
  inserted-Laid =
      let before =
        Laid-frame m inserted base at front
          (λ j p q. inserted-frame j (inl (omega arith)) ∙ put-frame j (inl (omega arith)))
          (Laid-split m base (base + 1024) front (e ∷ []) l).0 in
      let len : place - total front ≡ rounded e.name_len = omega arith in
      let kept =
        load_entry-frame m put at
          (λ j p q. put-frame j (inl (omega (arith, name_len_at m at e last_here))))
        ∙ last_here in
      let cut =
        load_entry-store_rec_len put at (place - total front) e (omega arith) kept
        ∙ ap (λ (v : ℕ). record e { rec_len = v }) len in
      let new =
        load_entry-frame put inserted (base + place) (λ j p q. inserted-frame j (inr (omega arith)))
        ∙ put-link in
      let next : base + place ≡ at + rounded e.name_len = omega arith in
      let tail : Laid inserted (base + place) (base + 1024) (link ∷ []) =
        (new, omega arith, omega arith) in
      Laid-append inserted base at (base + 1024) front
        (record e { rec_len = rounded e.name_len } ∷ link ∷ []) before
        (cut, omega arith, subst (λ (x : ℕ). Laid inserted x (base + 1024) (link ∷ [])) next tail)
