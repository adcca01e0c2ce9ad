-- ===== src/Paging/Bitmap/Alloc.antt =====
-- `bitmap_alloc`: the lowest clear bit of the map, and no other.
use csc369_uoft.Base.{
  ℕ, zero, suc, ◌+◌, ◌-◌, ◌*◌, ◌/◌, ◌%◌, ◌^◌, ◌≤◌, ◌<◌, ◌≡◌, ◌≢◌, refl, Bool, true, false, Option,
  none, some, arith, ◌==◌, Bool-cases, inl, inr, get_elem?, set, length, get_elem?_lt,
  get_elem?-set_self, get_elem?-set_ne, length-set, ◌||◌, ltb, ◌∙◌, ap, lt→ltb,
}
use csc369_uoft.Base.Bits.{has_bit, set_bit, has_bit-set_bit, set_bit-lt, all_ones_has_bit}
use csc369_uoft.Paging.{Bits}
use csc369_uoft.Paging.Bitmap.{
  word_allbits, words_of, find_offset, Allocation, allocated, full, failed, alloc_at, alloc_in,
  alloc_from, bitmap_alloc,
}
use csc369_uoft.Paging.Bitmap.Words.{Found, find_offset-Found, all_set}

-- Bit `j` of the map; a bit outside the words counts as clear.
unfoldable pub is_set : Bits → ℕ → Bool
is_set b j = elim (get_elem? b.v (j / 32)) [ none ↦ false | some w ↦ has_bit (j % 32) w ]

-- The words cover the bits, and the bits past the end are marked in use.
pub record IsMap (b : Bits) : Type 0 where
  pub words : length b.v ≡ words_of b.nbits
  pub small : b.nbits ≤ 2 ^ 32 - 32
  pub word : (i w : ℕ) → get_elem? b.v i ≡ some w → w < 2 ^ 32
  pub tail : (j : ℕ) → b.nbits ≤ j → j < words_of b.nbits * 32 → is_set b j ≡ true

-- What an allocation promises.
pub record Allocates (b : Bits) (i : ℕ) (b' : Bits) : Type 0 where
  pub in_range : i < b.nbits
  pub was_free : is_set b i ≡ false
  pub lowest : (j : ℕ) → j < i → is_set b j ≡ true
  pub after : (j : ℕ) → is_set b' j ≡ (i == j || is_set b j)
  pub same_size : b'.nbits ≡ b.nbits
  pub valid : IsMap b'

abbrev pub Promises : Bits → Allocation → Type 0
Promises b (allocated i b') = Allocates b i b'
Promises b full = (j : ℕ) → j < b.nbits → is_set b j ≡ true
Promises b failed = ⊥

pub is_set-set :
    (b : Bits) (ix w offset j : ℕ)
    → get_elem? b.v ix ≡ some w
    → ix < length b.v
    → offset < 32
    → is_set (record b { v = set b.v ix (set_bit offset w) }) j
      ≡ (ix * 32 + offset == j || is_set b j)
unfolding is_set
is_set-set b ix w offset j e lt small = elim (Bool-cases (ix == j / 32)) [
  | inl same ↦
      ground
        (arith, get_elem?-set_self b.v ix (set_bit offset w) lt, has_bit-set_bit (j % 32) offset w)
  | inr other ↦ ground (arith, get_elem?-set_ne b.v ix (j / 32) (set_bit offset w))
]

-- The word at index `ix`, with a bit set, keeps the map in order.
pub set-IsMap :
    {b : Bits} (ix w offset : ℕ)
    → IsMap b
    → get_elem? b.v ix ≡ some w
    → ix < length b.v
    → offset < 32
    → IsMap (record b { v = set b.v ix (set_bit offset w) })
set-IsMap {b} ix w offset m e lt small = record {
  words = length-set b.v ix (set_bit offset w) ∙ m.words;
  small = m.small;
  word = λ i u f. elim (Bool-cases (ix == i)) [
    | inl same ↦ ground (
      arith,
      get_elem?-set_self b.v ix (set_bit offset w) lt,
      set_bit-lt 32 offset w small (m.word ix w e),
    )
    | inr other ↦ ground (arith, get_elem?-set_ne b.v ix i (set_bit offset w), m.word i u)
  ];
  tail = λ j le lt'. ground (arith, is_set-set b ix w offset j e lt small, m.tail j);
}

is_set_of :
    (b : Bits) (ix w k j : ℕ)
    → j / 32 ≡ ix
    → j % 32 ≡ k
    → get_elem? b.v ix ≡ some w
    → is_set b j ≡ has_bit k w
unfolding is_set
is_set_of b ix w k j q r e = rw (q, is_set, e) (ap (λ (m : ℕ). has_bit m w) r)

pub is_set_at :
    (b : Bits) (ix w k : ℕ)
    → get_elem? b.v ix ≡ some w
    → k < 32
    → is_set b (ix * 32 + k) ≡ has_bit k w
is_set_at b ix w k e lt = is_set_of b ix w k (ix * 32 + k) (omega arith) (omega arith) e

words_of_cover : (n : ℕ) → n ≤ 2 ^ 32 - 32 → n ≤ words_of n * 32
unfolding words_of
words_of_cover n h = omega arith

-- All bits of a word of ones are set.
is_set_full :
    (b : Bits) (ix : ℕ)
    → get_elem? b.v ix ≡ some word_allbits
    → ((j : ℕ) → j < ix * 32 → is_set b j ≡ true)
    → (j : ℕ) → j < (ix + 1) * 32
    → is_set b j ≡ true
is_set_full b ix e below j lt = elim (Bool-cases (ltb j (ix * 32))) [
  | inl under ↦ below j (ground arith)
  | inr over ↦
      let k : j ≡ ix * 32 + (j - ix * 32) = ground arith in
      rw (k, is_set_at b ix word_allbits (j - ix * 32) e (ground arith))
        (all_ones_has_bit 32 (j - ix * 32) (ground arith))
]

module _ (b : Bits) (ix w : ℕ) (m : IsMap b) (below : (j : ℕ) → j < ix * 32 → is_set b j ≡ true)
    (e : get_elem? b.v ix ≡ some w) (lt : ix < length b.v) where
  alloc_at-Promises :
      (r : Option ℕ) → w ≢ word_allbits → Found 32 0 w r → Promises b (alloc_at b ix w r)
  unfolding alloc_at
  alloc_at-Promises none ne f =
      absurd (ne (all_set 32 w (m.word ix w e) (λ j h. f j (omega arith) (omega arith))))
  alloc_at-Promises (some k) ne f =
      let clear : is_set b (ix * 32 + k) ≡ false = is_set_at b ix w k e f.1 ∙ f.2 in
      let inside : ix * 32 + k < b.nbits = ground (arith, m.tail (ix * 32 + k), m.words) in
      rw (lt→ltb _ _ inside) record {
        in_range = inside;
        was_free = clear;
        lowest = λ j h. elim (Bool-cases (ltb j (ix * 32))) [
          | inl under ↦ below j (ground arith)
          | inr over ↦
              let at : j ≡ ix * 32 + (j - ix * 32) = ground arith in
              rw (at, is_set_at b ix w (j - ix * 32) e (ground arith))
                (f.3 (j - ix * 32) (omega arith) (ground arith))
        ];
        after = λ j. is_set-set b ix w k j e lt f.1;
        same_size = refl;
        valid = set-IsMap ix w k m e lt f.1;
      }

  alloc_in-Promises : w ≢ word_allbits → Promises b (alloc_in b ix w)
  unfolding alloc_in
  alloc_in-Promises ne = alloc_at-Promises (find_offset 32 0 w) ne (find_offset-Found 32 0 w)

alloc_from-Promises :
    (n ix : ℕ) (b : Bits)
    → IsMap b
    → ix + n ≡ length b.v
    → ((j : ℕ) → j < ix * 32 → is_set b j ≡ true)
    → Promises b (alloc_from n ix b)
unfolding alloc_from
alloc_from-Promises zero ix b m all below =
    λ j h. below j (omega (arith, words_of_cover b.nbits m.small, m.words))
alloc_from-Promises (suc n) ix b m all below =
    let (w, e) = get_elem?_lt b.v ix (omega arith) in
    elim (Bool-cases (w == word_allbits)) [
      | inl ones ↦
          let f : get_elem? b.v ix ≡ some word_allbits = ground arith in
          rw (e, alloc_from, ones)
            (alloc_from-Promises n (ix + 1) b m (omega arith) (is_set_full b ix f below))
      | inr other ↦
          rw (e, alloc_from, other)
            (alloc_in-Promises b ix w m below e (omega arith) (ground arith))
    ]

-- On a map in order `bitmap_alloc` never fails an assertion: it takes the lowest clear bit, sets
-- that bit alone and leaves a map in order, or it reports a full map and all bits are set.
pub bitmap_alloc-Promises : (b : Bits) → IsMap b → Promises b (bitmap_alloc b)
unfolding bitmap_alloc
bitmap_alloc-Promises b m =
    alloc_from-Promises (words_of b.nbits) 0 b m (omega (arith, m.words))
      (λ j h. absurd (omega arith))
