-- ===== src/Ext2/Bytes.antt =====
-- Numbers and texts in the bytes of an image, lowest byte first, as the C code reads and writes them
-- through its structures.
unfoldable pub use csc369_uoft.Base.Texts.{same_text}
use csc369_uoft.Base.{
  ℕ, zero, suc, ◌+◌, ◌*◌, ◌/◌, ◌%◌, ◌^◌, ◌≤◌, ◌<◌, ◌≡◌, ◌≢◌, refl, ◌∙◌, true, List, [], ◌∷◌, ◌==◌,
  if◌then◌else◌, update, arith, length, ◌⊎◌, inl,
}

unfoldable pub load16 : (ℕ → ℕ) → ℕ → ℕ
load16 m a = m a + 256 * m (a + 1)

unfoldable pub load32 : (ℕ → ℕ) → ℕ → ℕ
load32 m a = m a + 256 * m (a + 1) + 65536 * m (a + 2) + 16777216 * m (a + 3)

unfoldable pub store16 : (ℕ → ℕ) → ℕ → ℕ → ℕ → ℕ
store16 m a v = update (update m a (v % 256)) (a + 1) (v / 256 % 256)

unfoldable pub store32 : (ℕ → ℕ) → ℕ → ℕ → ℕ → ℕ
store32 m a v =
    update
      (update (update (update m a (v % 256)) (a + 1) (v / 256 % 256)) (a + 2) (v / 65536 % 256))
      (a + 3) (v / 16777216 % 256)

-- A text of at most `n` bytes, up to its null byte: what `strncpy` copies into a buffer of zeros.
unfoldable pub load_text : (ℕ → ℕ) → ℕ → ℕ → List ℕ
load_text m a zero = []
load_text m a (suc n) = let rest = load_text m (a + 1) n in if m a == 0 then [] else m a ∷ rest

-- `strcpy`
unfoldable pub store_text : (ℕ → ℕ) → ℕ → List ℕ → ℕ → ℕ
store_text m a [] = update m a 0
store_text m a (c ∷ cs) = store_text (update m a c) (a + 1) cs

pub load16-store16 : (m : ℕ → ℕ) (a v : ℕ) → v < 65536 → load16 (store16 m a v) a ≡ v
unfolding load16 store16
load16-store16 m a v h = ground arith

pub load32-store32 : (m : ℕ → ℕ) (a v : ℕ) → v < 2 ^ 32 → load32 (store32 m a v) a ≡ v
unfolding load32 store32
load32-store32 m a v h = ground arith

-- A store changes its own bytes only.
pub store16-frame : (m : ℕ → ℕ) (a v j : ℕ) → (j < a) ⊎ (a + 2 ≤ j) → store16 m a v j ≡ m j
unfolding store16
store16-frame m a v j h = ground arith

pub store32-frame : (m : ℕ → ℕ) (a v j : ℕ) → (j < a) ⊎ (a + 4 ≤ j) → store32 m a v j ≡ m j
unfolding store32
store32-frame m a v j h = ground arith

pub store_text-frame :
    (m : ℕ → ℕ) (a : ℕ) (s : List ℕ) (j : ℕ)
    → (j < a) ⊎ (a + length s < j)
    → store_text m a s j ≡ m j
unfolding store_text
store_text-frame m a [] j h = ground arith
store_text-frame m a (c ∷ cs) j h =
    store_text-frame (update m a c) (a + 1) cs j (ground arith) ∙ ground arith

-- A C string's bytes: none is null.
abbrev pub IsText : List ℕ → Type 0
IsText [] = Unit
IsText (c ∷ cs) = (c ≢ 0) × IsText cs

pub load_text-store_text :
    (m : ℕ → ℕ) (a : ℕ) (s : List ℕ) → IsText s → load_text (store_text m a s) a (length s) ≡ s
unfolding load_text store_text
load_text-store_text m a [] h = refl
load_text-store_text m a (c ∷ cs) h = ground (
  arith,
  h.0,
  load_text-store_text (update m a c) (a + 1) cs h.1,
  store_text-frame (update m a c) (a + 1) cs a (inl (omega arith)),
)

-- What is loaded depends on the bytes that are read.
pub load_text-frame :
    (m m' : ℕ → ℕ) (a n : ℕ)
    → ((j : ℕ) → a ≤ j → j < a + n → m' j ≡ m j)
    → load_text m' a n ≡ load_text m a n
unfolding load_text
load_text-frame m m' a zero h = refl
load_text-frame m m' a (suc n) h = ground (
  arith,
  h a (omega arith) (omega arith),
  load_text-frame m m' (a + 1) n (λ j l u. h j (omega arith) (omega arith)),
)

pub same_text-eq : (s t : List ℕ) → same_text s t ≡ true → s ≡ t
unfolding same_text
same_text-eq [] [] h = refl
same_text-eq [] (d ∷ ds) h = cc
same_text-eq (c ∷ cs) [] h = cc
same_text-eq (c ∷ cs) (d ∷ ds) h = ground (arith, same_text-eq cs ds)

pub same_text_refl : (s : List ℕ) → same_text s s ≡ true
unfolding same_text
same_text_refl [] = refl
same_text_refl (c ∷ cs) = ground (arith, same_text_refl cs)

pub load32-frame :
    (m m' : ℕ → ℕ) (a : ℕ) → ((j : ℕ) → a ≤ j → j < a + 4 → m' j ≡ m j) → load32 m' a ≡ load32 m a
unfolding load32
load32-frame m m' a h =
    rw
      (
        h a (omega arith) (omega arith),
        h (a + 1) (omega arith) (omega arith),
        h (a + 2) (omega arith) (omega arith),
        h (a + 3) (omega arith) (omega arith),
      )
      refl

pub load16-frame :
    (m m' : ℕ → ℕ) (a : ℕ) → ((j : ℕ) → a ≤ j → j < a + 2 → m' j ≡ m j) → load16 m' a ≡ load16 m a
unfolding load16
load16-frame m m' a h =
    rw (h a (omega arith) (omega arith), h (a + 1) (omega arith) (omega arith)) refl
