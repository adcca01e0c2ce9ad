-- ===== src/Ext2/Remove/Merge.antt =====
-- The removal of an entry in a block against its removal in the list of the entries.
use csc369_uoft.Base.{
  ℕ, zero, suc, ◌+◌, ◌*◌, ◌≤◌, ◌<◌, ◌≡◌, refl, ap, ◌∙◌, sym, true, false, some, List, [], ◌∷◌, ◌==◌,
  arith, length, ◌⊎◌, inl, inr, subst, Bool-cases,
}
use csc369_uoft.Base.Int.{ℤ, pos, negsuc}
use csc369_uoft.Ext2.Bytes.{
  same_text, store32, store32-frame, load_text-frame, load16-frame, load32-store32,
}
use csc369_uoft.Ext2.Entries.{
  DirEntry, load_entry, entry_at, store_rec_len, ext2_ft_dir, image_size,
}
use csc369_uoft.Ext2.Entries.Layout.{
  Laid, IsBlock, Laid-le, Laid-frame, entry_at-Laid, load_entry-frame, name_len_at,
  store_rec_len-frame, load_entry-store_rec_len,
}
use csc369_uoft.Ext2.Paths.{tokens, last_of}
use csc369_uoft.Ext2.Remove.{add_rec_len, rm_from, rm_from_directory}

-- The result and the entries where `p` comes before `es`: the entry of the name goes over to the one before it.
unfoldable pub merge : List ℕ → DirEntry → List DirEntry → ℤ × List DirEntry
merge final p [] = (pos 0, p ∷ [])
merge final p (x ∷ xs) = elim (same_text x.name final) [
  | true ↦ elim (x.file_type == ext2_ft_dir) [
    | true ↦ (negsuc 0, p ∷ x ∷ xs)
    | false ↦ (pos 1, record p { rec_len = p.rec_len + x.rec_len } ∷ xs)
  ]
  | false ↦ let (r, rest) = merge final x xs in (r, p ∷ rest)
]

-- The first entry of a block stays, with inode 0.
unfoldable pub remove_entry : List ℕ → DirEntry → List DirEntry → ℤ × List DirEntry
remove_entry final e es = elim (same_text e.name final) [
  | true ↦ (pos 1, record e { inode = 0 } ∷ es)
  | false ↦ merge final e es
]

-- Outside the bytes from `a` up to `stop` two images are the same.
abbrev pub SameOutside : (a stop : ℕ) → (ℕ → ℕ) → (ℕ → ℕ) → Type 0
SameOutside a stop m m' = (j : ℕ) → (j < a) ⊎ (stop ≤ j) → m' j ≡ m j

pub add_rec_len_lem :
    (m : ℕ → ℕ) (a stop : ℕ) (p x : DirEntry) (xs : List DirEntry)
    → stop ≤ image_size
    → stop ≤ a + 1024
    → Laid m a stop (p ∷ x ∷ xs)
    → Laid (add_rec_len m a x.rec_len) a stop (record p { rec_len = p.rec_len + x.rec_len } ∷ xs)
      × SameOutside a stop m (add_rec_len m a x.rec_len)
unfolding add_rec_len
add_rec_len_lem m a stop p x xs inside short (here, room, (next, room', rest)) =
    let le = Laid-le m (a + p.rec_len + x.rec_len) stop xs rest in
    let m' = store_rec_len m a (p.rec_len + x.rec_len) in
    let same : add_rec_len m a x.rec_len ≡ m' =
      ap (λ (e : DirEntry). store_rec_len m a (e.rec_len + x.rec_len)) here in
    let frame = λ (j : ℕ) (h : (j < a + 4) ⊎ (a + 6 ≤ j)).
      store_rec_len-frame m a (p.rec_len + x.rec_len) j h in
    let after : a + p.rec_len + x.rec_len ≡ a + (p.rec_len + x.rec_len) = omega arith in
    let tail =
      Laid-frame m m' (a + p.rec_len + x.rec_len) stop xs (λ j u v. frame j (inr (omega arith)))
        rest in
    (
      subst (λ (f : ℕ → ℕ). Laid f a stop (record p { rec_len = p.rec_len + x.rec_len } ∷ xs))
          (sym same)
          (
            load_entry-store_rec_len m a (p.rec_len + x.rec_len) p (omega arith) here,
            omega arith,
            subst (λ (y : ℕ). Laid m' y stop xs) after tail,
          ),
      λ j h. subst (λ (f : ℕ → ℕ). f j ≡ m j) (sym same) (frame j (ground arith)),
    )

-- What the loop does, from the entry after `p`.
rm_from_lem :
    (n : ℕ) (m : ℕ → ℕ) (base size current : ℕ) (final : List ℕ) (p : DirEntry) (es : List DirEntry)
    → length es < n
    → base + 1024 ≤ image_size
    → base ≤ current
    → base + size ≡ current + p.rec_len
    → Laid m current (base + 1024) (p ∷ es)
    → (m' : ℕ → ℕ) × (rm_from n m base size current final ≡ some ((merge final p es).0, m'))
      × Laid m' current (base + 1024) (merge final p es).1
      × SameOutside current (base + 1024) m m'
unfolding rm_from merge
rm_from_lem zero m base size current final p es enough inside from e l = absurd (omega arith)
rm_from_lem (suc n) m base size current final p [] enough inside from e l =
    let done : (size == 1024) ≡ true = ground (arith, l.2) in
    (m, rw (rm_from, done) refl, l, λ j h. refl)
rm_from_lem (suc n) m base size current final p (x ∷ xs) enough inside from e (here, room, rest) =
    let rest' = subst (λ (y : ℕ). Laid m y (base + 1024) (x ∷ xs)) (sym e) rest in
    let low = Laid-le m (base + size) (base + 1024) (x ∷ xs) rest' in
    let more : (size == 1024) ≡ false = ground arith in
    let found = entry_at-Laid m (base + size) (base + 1024) x xs inside rest' in
    elim (Bool-cases (same_text x.name final)) [
      | inl same ↦ elim (Bool-cases (x.file_type == ext2_ft_dir)) [
        | inl dir ↦
            rw (rm_from, merge, more, found, same, dir) (m, refl, (here, room, rest), λ j h. refl)
        | inr other ↦
            let (l, outside) =
              add_rec_len_lem m current (base + 1024) p x xs inside (omega arith)
                (here, room, rest) in
            rw (rm_from, merge, more, found, same, other)
              (add_rec_len m current x.rec_len, refl, l, outside)
      ]
      | inr differ ↦
          let (m', e', l, outside) =
            rm_from_lem n m base (size + x.rec_len) (base + size) final x xs (omega arith) inside
              (omega arith) (omega arith) rest' in
          let kept =
            load_entry-frame m m' current
              (λ j u v. outside j (inl (omega (arith, name_len_at m current p here))))
            ∙ here in
          let after = subst (λ (y : ℕ). Laid m' y (base + 1024) (merge final x xs).1) e l in
          rw (rm_from, merge, more, found, differ)
            (m', e', (kept, room, after), λ j h. outside j (ground arith))
    ]

clear_inode_lem :
    (m : ℕ → ℕ) (a stop : ℕ) (e : DirEntry) (es : List DirEntry)
    → Laid m a stop (e ∷ es)
    → Laid (store32 m a 0) a stop (record e { inode = 0 } ∷ es)
      × SameOutside a stop m (store32 m a 0)
unfolding load_entry
clear_inode_lem m a stop e es (here, room, rest) =
    let le = Laid-le m (a + e.rec_len) stop es rest in
    let frame = λ (j : ℕ) (h : (j < a) ⊎ (a + 4 ≤ j)). store32-frame m a 0 j h in
    let len = load16-frame m (store32 m a 0) (a + 4) (λ j u v. frame j (inr u)) in
    let text =
      load_text-frame m (store32 m a 0) (a + 8) (m (a + 6))
        (λ j u v. frame j (inr (omega arith))) in
    (
      (
        rw
            (
              load32-store32 m a 0 (omega arith),
              len,
              frame (a + 6) (inr (omega arith)),
              frame (a + 7) (inr (omega arith)),
              text,
            )
            (ap (λ (x : DirEntry). record x { inode = 0 }) here),
        room,
        Laid-frame m (store32 m a 0) (a + e.rec_len) stop es (λ j u v. frame j (inr (omega arith)))
            rest,
      ),
      λ j h. frame j (ground arith),
    )

-- The first round of the loop is at the first entry, which does not have the name.
pub rm_from_first :
    (n : ℕ) (m : ℕ → ℕ) (base : ℕ) (final : List ℕ) (e : DirEntry)
    → entry_at m base ≡ some e
    → same_text e.name final ≡ false
    → rm_from (suc n) m base 0 base final ≡ rm_from n m base e.rec_len base final
unfolding rm_from
rm_from_first n m base final e first differ =
    let start : base + 0 ≡ base = omega arith in
    let len : 0 + e.rec_len ≡ e.rec_len = omega arith in
    rw (rm_from, start, first, differ, start, len) refl

-- On a block that holds a list of entries, `rm_from_directory` ends, and no byte outside the block
-- changes. Its result and the entries of the block afterwards are those of the removal from the
-- list: the first entry of the block is kept with inode 0, any other entry of the name goes over
-- to the one before it, and a directory after the first entry is refused with -1.
pub rm_from_directory-remove_entry :
    (m : ℕ → ℕ) (b : ℕ) (path final : List ℕ) (e : DirEntry) (es : List DirEntry)
    → last_of (tokens path) ≡ some final
    → b < 128
    → IsBlock m b (e ∷ es)
    → (m' : ℕ → ℕ) × (rm_from_directory m b path ≡ some ((remove_entry final e es).0, m'))
      × IsBlock m' b (remove_entry final e es).1
      × SameOutside (1024 * b) (1024 * b + 1024) m m'
unfolding rm_from_directory remove_entry
rm_from_directory-remove_entry m b path final e es named lt l =
    let first = entry_at-Laid m (1024 * b) (1024 * b + 1024) e es (omega arith) l in
    let low = Laid-le m (1024 * b) (1024 * b + 1024) (e ∷ es) l in
    elim (Bool-cases (same_text e.name final)) [
      | inl same ↦
          let (l', outside) = clear_inode_lem m (1024 * b) (1024 * b + 1024) e es l in
          rw (rm_from_directory, remove_entry, named, first, same)
            (store32 m (1024 * b) 0, refl, l', outside)
      | inr differ ↦
          let (m', e', l', outside) =
            rm_from_lem 131071 m (1024 * b) e.rec_len (1024 * b) final e es (omega arith)
              (omega arith) (omega arith) refl l in
          rw (rm_from_directory, remove_entry, named, first, differ)
            (m', rm_from_first 131071 m (1024 * b) final e first differ ∙ e', l', outside)
    ]
