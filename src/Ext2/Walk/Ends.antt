-- ===== src/Ext2/Walk/Ends.antt =====
-- The last byte of a path from parts, which `walk_path` reads first.
use csc369_uoft.Base.{
  ℕ, ◌≡◌, ◌≢◌, refl, ap, ◌∙◌, append-nil, false, some, List, [], ◌∷◌, ◌++◌, ◌==◌, arith,
}
use csc369_uoft.Ext2.Paths.{slash, join, NoSlash, AreParts}
use csc369_uoft.Ext2.Walk.{last_byte}

last_byte-append : (s : List ℕ) (c : ℕ) (t : List ℕ) → last_byte (s ++ (c ∷ t)) ≡ last_byte (c ∷ t)
unfolding last_byte
last_byte-append [] c t = refl
last_byte-append (b ∷ []) c t = refl
last_byte-append (b ∷ x ∷ xs) c t = last_byte-append (x ∷ xs) c t

last_byte-part :
    (c : ℕ) (s : List ℕ)
    → c ≢ slash
    → NoSlash s
    → (b : ℕ) × (last_byte (c ∷ s) ≡ some b) × ((b == slash) ≡ false)
unfolding last_byte
last_byte-part c [] h n = (c, refl, ground arith)
last_byte-part c (x ∷ xs) h n = last_byte-part x xs n.0 n.1

pub last_byte-join :
    (t : List ℕ) (ts : List (List ℕ))
    → AreParts (t ∷ ts)
    → (b : ℕ) × (last_byte (join (t ∷ ts)) ≡ some b) × ((b == slash) ≡ false)
unfolding last_byte join
last_byte-join [] ts h = absurd (h.0 refl)
last_byte-join (c ∷ s) [] h =
    let (b, e, ne) = last_byte-part c s h.1.0 h.1.1 in
    (b, ap (λ (x : List ℕ). last_byte (c ∷ x)) (append-nil s) ∙ e, ne)
last_byte-join (c ∷ s) (u ∷ us) h =
    let (b, e, ne) = last_byte-join u us h.2 in
    (b, last_byte-append (c ∷ s) slash (u ++ join us) ∙ e, ne)
