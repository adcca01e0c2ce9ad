-- ===== src/Ext2/Entries/Layout.antt =====
-- A block of a directory as the list of its entries, one after another up to the end of the block.
use csc369_uoft.Base.{
  ℕ, ◌+◌, ◌*◌, ◌^◌, ◌≤◌, ◌<◌, ◌≡◌, refl, ap, ◌∙◌, sym, some, List, [], ◌∷◌, ◌++◌, arith, length,
  ◌⊎◌, inl, inr, subst,
}
use csc369_uoft.Ext2.Bytes.{
  load16, load32, load_text, store16, store32, load_text-frame, store16-frame, store32-frame,
  store_text-frame, load16-store16, load32-frame, load16-frame, load32-store32,
  load_text-store_text, IsText,
}
use csc369_uoft.Ext2.Entries.{
  DirEntry, load_entry, entry_at, store_rec_len, store_header, store_entry, image_size,
}

-- The entries from address `a` up to address `stop`. Each has room for its name.
abbrev pub Laid : (ℕ → ℕ) → (a stop : ℕ) → List DirEntry → Type 0
Laid m a stop [] = a ≡ stop
Laid m a stop (e ∷ es) =
    (load_entry m a ≡ e) × (8 + e.name_len ≤ e.rec_len) × Laid m (a + e.rec_len) stop es

-- Block `b` holds these entries.
abbrev pub IsBlock : (ℕ → ℕ) → (b : ℕ) → List DirEntry → Type 0
IsBlock m b es = Laid m (1024 * b) (1024 * b + 1024) es

-- The length of the name is in the entry's seventh byte.
pub name_len_at : (m : ℕ → ℕ) (a : ℕ) (e : DirEntry) → load_entry m a ≡ e → m (a + 6) ≡ e.name_len
unfolding load_entry
name_len_at m a e h = ap (λ (x : DirEntry). x.name_len) h

pub Laid-le :
    (m : ℕ → ℕ) (a stop : ℕ) (es : List DirEntry) → Laid m a stop es → a + 8 * length es ≤ stop
Laid-le m a stop [] h = omega arith
Laid-le m a stop (e ∷ es) h = omega (arith, h.1, Laid-le m (a + e.rec_len) stop es h.2)

-- Entries depend on their own bytes.
pub load_entry-frame :
    (m m' : ℕ → ℕ) (a : ℕ)
    → ((j : ℕ) → a ≤ j → j < a + 8 + m (a + 6) → m' j ≡ m j)
    → load_entry m' a ≡ load_entry m a
unfolding load_entry load16 load32
load_entry-frame m m' a h =
    let h0 = h a (omega arith) (omega arith) in
    let h1 = h (a + 1) (omega arith) (omega arith) in
    let h2 = h (a + 2) (omega arith) (omega arith) in
    let h3 = h (a + 3) (omega arith) (omega arith) in
    let h4 = h (a + 4) (omega arith) (omega arith) in
    let h5 = h (a + 4 + 1) (omega arith) (omega arith) in
    let h6 = h (a + 6) (omega arith) (omega arith) in
    let h7 = h (a + 7) (omega arith) (omega arith) in
    rw
      (
        h0,
        h1,
        h2,
        h3,
        h4,
        h5,
        h6,
        h7,
        load_text-frame m m' (a + 8) (m (a + 6)) (λ j l u. h j (omega arith) (omega arith)),
      )
      refl

pub Laid-frame :
    (m m' : ℕ → ℕ) (a stop : ℕ) (es : List DirEntry)
    → ((j : ℕ) → a ≤ j → j < stop → m' j ≡ m j)
    → Laid m a stop es
    → Laid m' a stop es
Laid-frame m m' a stop [] h l = l
Laid-frame m m' a stop (e ∷ es) h (here, room, rest) =
    let le = Laid-le m (a + e.rec_len) stop es rest in
    (
      load_entry-frame m m' a (λ j p q. h j p (omega (arith, name_len_at m a e here))) ∙ here,
      room,
      Laid-frame m m' (a + e.rec_len) stop es (λ j p q. h j (omega arith) q) rest,
    )

abbrev pub total : List DirEntry → ℕ
total [] = 0
total (e ∷ es) = e.rec_len + total es

pub Laid-split :
    (m : ℕ → ℕ) (a stop : ℕ) (xs ys : List DirEntry)
    → Laid m a stop (xs ++ ys)
    → Laid m a (a + total xs) xs × Laid m (a + total xs) stop ys
Laid-split m a stop [] ys l =
    let e : a ≡ a + 0 = omega arith in (e, subst (λ (x : ℕ). Laid m x stop ys) e l)
Laid-split m a stop (x ∷ xs) ys (here, room, rest) =
    let (l, r) = Laid-split m (a + x.rec_len) stop xs ys rest in
    let e : a + x.rec_len + total xs ≡ a + (x.rec_len + total xs) = omega arith in
    (
      (here, room, subst (λ (t : ℕ). Laid m (a + x.rec_len) t xs) e l),
      subst (λ (t : ℕ). Laid m t stop ys) e r,
    )

pub Laid-append :
    (m : ℕ → ℕ) (a mid stop : ℕ) (xs ys : List DirEntry)
    → Laid m a mid xs
    → Laid m mid stop ys
    → Laid m a stop (xs ++ ys)
Laid-append m a mid stop [] ys e r = subst (λ (t : ℕ). Laid m t stop ys) (sym e) r
Laid-append m a mid stop (x ∷ xs) ys (here, room, rest) r =
    (here, room, Laid-append m (a + x.rec_len) mid stop xs ys rest r)

pub total-Laid :
    (m : ℕ → ℕ) (a stop : ℕ) (xs : List DirEntry) → Laid m a stop xs → a + total xs ≡ stop
total-Laid m a stop [] e = omega arith
total-Laid m a stop (x ∷ xs) (here, room, rest) =
    omega (arith, total-Laid m (a + x.rec_len) stop xs rest)

-- An entry of a block lies inside the image where the block does.
pub entry_at-Laid :
    (m : ℕ → ℕ) (a stop : ℕ) (e : DirEntry) (es : List DirEntry)
    → stop ≤ image_size
    → Laid m a stop (e ∷ es)
    → entry_at m a ≡ some e
unfolding entry_at
entry_at-Laid m a stop e es h (here, room, rest) =
    ground (arith, name_len_at m a e here, Laid-le m (a + e.rec_len) stop es rest, here)

-- The fields of an entry that can be stored.
pub record Fits (e : DirEntry) : Type 0 where
  pub inode : e.inode < 2 ^ 32
  pub rec_len : e.rec_len < 65536
  pub name_len : e.name_len ≡ length e.name
  pub text : IsText e.name

pub store_rec_len-frame :
    (m : ℕ → ℕ) (a v j : ℕ) → (j < a + 4) ⊎ (a + 6 ≤ j) → store_rec_len m a v j ≡ m j
unfolding store_rec_len
store_rec_len-frame m a v j h = store16-frame m (a + 4) v j (ground arith)

pub load_entry-store_rec_len :
    (m : ℕ → ℕ) (a v : ℕ) (e : DirEntry)
    → v < 65536
    → load_entry m a ≡ e
    → load_entry (store_rec_len m a v) a ≡ record e { rec_len = v }
unfolding load_entry store_rec_len load32
load_entry-store_rec_len m a v e lt h =
    let g = λ (j : ℕ) (k : (j < a + 4) ⊎ (a + 4 + 2 ≤ j)). store16-frame m (a + 4) v j k in
    rw
      (
        load16-store16 m (a + 4) v lt,
        g a (inl (omega arith)),
        g (a + 1) (inl (omega arith)),
        g (a + 2) (inl (omega arith)),
        g (a + 3) (inl (omega arith)),
        g (a + 6) (inr (omega arith)),
        g (a + 7) (inr (omega arith)),
        load_text-frame m (store16 m (a + 4) v) (a + 8) (m (a + 6))
            (λ j l u. g j (inr (omega arith))),
      )
      (ap (λ (x : DirEntry). record x { rec_len = v }) h)

pub store_header-frame :
    (m : ℕ → ℕ) (a : ℕ) (e : DirEntry) (j : ℕ) → (j < a) ⊎ (a + 8 ≤ j) → store_header m a e j ≡ m j
unfolding store_header
store_header-frame m a e j h = ground (
  arith,
  h,
  store16-frame (store32 m a e.inode) (a + 4) e.rec_len j (ground arith),
  store32-frame m a e.inode j (ground arith),
)

store_header-inode :
    (m : ℕ → ℕ) (a : ℕ) (e : DirEntry) → e.inode < 2 ^ 32 → load32 (store_header m a e) a ≡ e.inode
unfolding store_header
store_header-inode m a e h =
    load32-frame (store32 m a e.inode) (store_header m a e) a
      (λ j l u. ground (arith, store16-frame (store32 m a e.inode) (a + 4) e.rec_len j (inl u)))
    ∙ load32-store32 m a e.inode h

store_header-rec_len :
    (m : ℕ → ℕ) (a : ℕ) (e : DirEntry)
    → e.rec_len < 65536
    → load16 (store_header m a e) (a + 4) ≡ e.rec_len
unfolding store_header
store_header-rec_len m a e h =
    load16-frame (store16 (store32 m a e.inode) (a + 4) e.rec_len) (store_header m a e) (a + 4)
      (λ j l u. ground arith)
    ∙ load16-store16 (store32 m a e.inode) (a + 4) e.rec_len h

pub store_entry-frame :
    (m : ℕ → ℕ) (a : ℕ) (e : DirEntry) (j : ℕ)
    → (j < a) ⊎ (a + 8 + length e.name < j)
    → store_entry m a e j ≡ m j
unfolding store_entry
store_entry-frame m a e j h =
    store_text-frame (store_header m a e) (a + 8) e.name j (ground arith)
    ∙ store_header-frame m a e j (ground arith)

-- An entry that is stored is loaded again.
pub load_entry-store_entry :
    (m : ℕ → ℕ) (a : ℕ) (e : DirEntry) → Fits e → load_entry (store_entry m a e) a ≡ e
unfolding load_entry store_entry
load_entry-store_entry m a e h =
    let g =
      λ (j : ℕ) (lt : j < a + 8). store_text-frame (store_header m a e) (a + 8) e.name j (inl lt) in
    let inode =
      load32-frame (store_header m a e) (store_entry m a e) a (λ j l u. g j (omega arith))
      ∙ store_header-inode m a e h.inode in
    let rec_len =
      load16-frame (store_header m a e) (store_entry m a e) (a + 4) (λ j l u. g j (omega arith))
      ∙ store_header-rec_len m a e h.rec_len in
    let name_len : store_entry m a e (a + 6) ≡ e.name_len =
      g (a + 6) (omega arith) ∙ (unfold store_header in ground arith) in
    let file_type : store_entry m a e (a + 7) ≡ e.file_type =
      g (a + 7) (omega arith) ∙ (unfold store_header in ground arith) in
    let name : load_text (store_entry m a e) (a + 8) (store_entry m a e (a + 6)) ≡ e.name =
      ap (load_text (store_entry m a e) (a + 8)) (name_len ∙ h.name_len)
      ∙ load_text-store_text (store_header m a e) (a + 8) e.name h.text in
    ground (arith, inode, rec_len, name_len, file_type, name)
