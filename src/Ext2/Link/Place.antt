-- ===== src/Ext2/Link/Place.antt =====
-- The place of a new entry in A4/ext2_ln.c against the list of the entries of a block.
use csc369_uoft.Base.{
  ℕ, zero, suc, ◌+◌, ◌*◌, ◌/◌, ◌≤◌, ◌<◌, ◌≡◌, ◌≢◌, refl, ap₂, ◌∙◌, true, false, some, List, [], ◌∷◌,
  ◌++◌, ltb, arith, length, length-append, subst, ◌⊎◌, update,
}
use csc369_uoft.Ext2.Bytes.{store_text}
use csc369_uoft.Ext2.Entries.{DirEntry, image_size}
use csc369_uoft.Ext2.Entries.Layout.{Laid, IsBlock, Laid-le, entry_at-Laid, total}
use csc369_uoft.Ext2.Link.Create.{next_from, get_next_entry_position, store_bytes}

-- The bytes that the code keeps for an entry whose name has this length.
abbrev pub rounded : ℕ → ℕ
rounded len = (len / 4 + 1) * 4 + 8

-- Where the entry after the last one, `e`, can begin.
abbrev pub next_place : List DirEntry → DirEntry → ℕ
next_place front e = total front + rounded e.name_len

next_from_lem :
    (n : ℕ) (m : ℕ → ℕ) (base size a b : ℕ) (front : List DirEntry) (e : DirEntry)
    → length front + 1 < n
    → base + 1024 ≤ image_size
    → Laid m (base + size) (base + 1024) (front ++ (e ∷ []))
    → next_from n m base size a b
      ≡ some (size + total front, size + total front + rounded e.name_len)
unfolding next_from
next_from_lem zero m base size a b front e enough inside l = absurd (omega arith)
next_from_lem (suc zero) m base size a b front e enough inside l = absurd (omega arith)
next_from_lem (suc (suc n)) m base size a b [] e enough inside l =
    let here = entry_at-Laid m (base + size) (base + 1024) e [] inside l in
    let more : ltb size 1024 ≡ true = ground (arith, l.1, l.2) in
    let last : ltb 1023 (size + e.rec_len) ≡ true = ground (arith, l.2) in
    let done : ltb (size + e.rec_len) 1024 ≡ false = ground (arith, l.2) in
    let x : size ≡ size + 0 = omega arith in
    let y : size + (e.name_len / 4 + 1) * 4 + 8 ≡ size + 0 + rounded e.name_len = omega arith in
    rw (next_from, more, here, last, next_from, done) (ap₂ (λ (u v : ℕ). some (u, v)) x y)
next_from_lem (suc (suc n)) m base size a b (f ∷ fs) e enough inside l =
    let here = entry_at-Laid m (base + size) (base + 1024) f (fs ++ (e ∷ [])) inside l in
    let low = Laid-le m (base + size + f.rec_len) (base + 1024) (fs ++ (e ∷ [])) l.2 in
    let len = length-append fs (e ∷ []) in
    let more : ltb size 1024 ≡ true = ground (arith, l.1, low) in
    let inner : ltb 1023 (size + f.rec_len) ≡ false = ground (arith, low, len) in
    let next : base + size + f.rec_len ≡ base + (size + f.rec_len) = omega arith in
    let ih =
      next_from_lem (suc n) m base (size + f.rec_len) a b fs e (omega arith) inside
        (subst (λ (x : ℕ). Laid m x (base + 1024) (fs ++ (e ∷ []))) next l.2) in
    let x : size + f.rec_len + total fs ≡ size + (f.rec_len + total fs) = omega arith in
    let y : size + f.rec_len + total fs + rounded e.name_len
        ≡ size + (f.rec_len + total fs) + rounded e.name_len =
      omega arith in
    rw (next_from, more, here, inner) (ih ∙ ap₂ (λ (u v : ℕ). some (u, v)) x y)

pub get_next_entry_position_lem :
    (m : ℕ → ℕ) (b : ℕ) (front : List DirEntry) (e : DirEntry)
    → b < 128
    → IsBlock m b (front ++ (e ∷ []))
    → get_next_entry_position m b ≡ some (total front, next_place front e)
unfolding get_next_entry_position
get_next_entry_position_lem m b front e lt l =
    let low = Laid-le m (1024 * b) (1024 * b + 1024) (front ++ (e ∷ [])) l in
    let len = length-append front (e ∷ []) in
    let start : 1024 * b ≡ 1024 * b + 0 = omega arith in
    let x : 0 + total front ≡ total front = omega arith in
    let y : 0 + total front + rounded e.name_len ≡ next_place front e = omega arith in
    next_from_lem image_size m (1024 * b) 0 0 0 front e (omega arith) (omega arith)
      (subst (λ (x : ℕ). Laid m x (1024 * b + 1024) (front ++ (e ∷ []))) start l)
    ∙ ap₂ (λ (u v : ℕ). some (u, v)) x y

-- Without its null byte, a copied name is the same.
pub store_bytes-store_text :
    (m : ℕ → ℕ) (a : ℕ) (s : List ℕ) (j : ℕ)
    → j ≢ a + length s
    → store_bytes m a (length s) s j ≡ store_text m a s j
unfolding store_bytes store_text
store_bytes-store_text m a [] j ne = ground arith
store_bytes-store_text m a (c ∷ cs) j ne =
    store_bytes-store_text (update m a c) (a + 1) cs j (λ e. ne (omega arith))

pub store_bytes-frame :
    (m : ℕ → ℕ) (a : ℕ) (s : List ℕ) (j : ℕ)
    → (j < a) ⊎ (a + length s ≤ j)
    → store_bytes m a (length s) s j ≡ m j
unfolding store_bytes
store_bytes-frame m a [] j h = refl
store_bytes-frame m a (c ∷ cs) j h =
    store_bytes-frame (update m a c) (a + 1) cs j (ground arith) ∙ ground arith
