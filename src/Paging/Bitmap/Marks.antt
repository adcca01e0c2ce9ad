-- ===== src/Paging/Bitmap/Marks.antt =====
-- `bitmap_mark` and `bitmap_unmark` of A3/swap.c.
use csc369_uoft.Base.{
  ℕ, ◌+◌, ◌*◌, ◌/◌, ◌%◌, ◌≤◌, ◌<◌, ◌≡◌, refl, Bool, true, false, Option, none, some, arith, ◌==◌,
  Bool-cases, inl, inr, get_elem?, set, length, get_elem?_lt, get_elem?-set_self, get_elem?-set_ne,
  length-set, ◌&&◌, not, ltb, ◌∙◌, if◌then◌else◌, ◌⊎◌,
}
use csc369_uoft.Base.Bits.{has_bit, clear_bit, has_bit-clear_bit, clear_bit-le}
use csc369_uoft.Paging.{Bits}
use csc369_uoft.Paging.Bitmap.{words_of, bitmap_mark, bitmap_unmark}
use csc369_uoft.Paging.Bitmap.Alloc.{is_set, IsMap, is_set-set, set-IsMap}

is_set-clear :
    (b : Bits) (ix w offset j : ℕ)
    → get_elem? b.v ix ≡ some w
    → ix < length b.v
    → offset < 32
    → is_set (record b { v = set b.v ix (clear_bit offset w) }) j
      ≡ (not (ix * 32 + offset == j) && is_set b j)
unfolding is_set
is_set-clear b ix w offset j e lt small = elim (Bool-cases (ix == j / 32)) [
  | inl same ↦ ground (
    arith,
    get_elem?-set_self b.v ix (clear_bit offset w) lt,
    has_bit-clear_bit (j % 32) offset w,
  )
  | inr other ↦ ground (arith, get_elem?-set_ne b.v ix (j / 32) (clear_bit offset w))
]

clear-IsMap :
    {b : Bits} (ix w offset : ℕ)
    → IsMap b
    → get_elem? b.v ix ≡ some w
    → ix < length b.v
    → offset < 32
    → ix * 32 + offset < b.nbits
    → IsMap (record b { v = set b.v ix (clear_bit offset w) })
clear-IsMap {b} ix w offset m e lt small inside = record {
  words = length-set b.v ix (clear_bit offset w) ∙ m.words;
  small = m.small;
  word = λ i u f. elim (Bool-cases (ix == i)) [
    | inl same ↦ ground (
      arith,
      get_elem?-set_self b.v ix (clear_bit offset w) lt,
      clear_bit-le offset w,
      m.word ix w e,
    )
    | inr other ↦ ground (arith, get_elem?-set_ne b.v ix i (clear_bit offset w), m.word i u)
  ];
  tail = λ j le lt'. ground (arith, is_set-clear b ix w offset j e lt small, m.tail j);
}

-- From map `b` to map `b'` bit `i` becomes `value`, and nothing else changes.
pub record Becomes (b : Bits) (i : ℕ) (value : Bool) (b' : Bits) : Type 0 where
  pub after : (j : ℕ) → is_set b' j ≡ (if i == j then value else is_set b j)
  pub same_size : b'.nbits ≡ b.nbits
  pub valid : IsMap b'

-- What an operation does that gives bit `i` another value: it fails if the bit is outside the map or
-- has the value already.
abbrev pub Flips : Bits → ℕ → Bool → Option Bits → Type 0
Flips b i value none = (b.nbits ≤ i) ⊎ (is_set b i ≡ value)
Flips b i value (some b') = (i < b.nbits) × (is_set b i ≡ not value) × Becomes b i value b'

module _ (b : Bits) (m : IsMap b) (i : ℕ) where
  word_of : i < b.nbits → (w : ℕ) × (get_elem? b.v (i / 32) ≡ some w) × (i / 32 < length b.v)
  unfolding words_of
  word_of lt =
      let inside : i / 32 < length b.v = omega (arith, m.words, m.small) in
      let (w, e) = get_elem?_lt b.v (i / 32) inside in (w, e, inside)

  bit_of : (w : ℕ) → get_elem? b.v (i / 32) ≡ some w → is_set b i ≡ has_bit (i % 32) w
  unfolding is_set
  bit_of w e = rw (is_set, e) refl

  place : i / 32 * 32 + i % 32 ≡ i
  place = omega arith

  -- With the map in order, `bitmap_mark` sets a bit of the map that is clear, and no other, and
  -- leaves a map in order; or the bit is outside the map or set already and an assertion fails.
  bitmap_mark-Flips : Flips b i true (bitmap_mark b i)
  unfolding bitmap_mark
  bitmap_mark-Flips = elim (Bool-cases (ltb i b.nbits)) [
    | inr out ↦ rw (bitmap_mark, out) (inl (ground arith))
    | inl inside ↦
        let (w, e, lt) = word_of (ground arith) in
        elim (Bool-cases (has_bit (i % 32) w)) [
          | inl on ↦ rw (bitmap_mark, inside, e, on) (inr (bit_of w e ∙ on))
          | inr off ↦
              rw (bitmap_mark, inside, e, off)
                (
                  ground arith,
                  bit_of w e ∙ off,
                  record {
                    after = λ j.
                        is_set-set b (i / 32) w (i % 32) j e lt (omega arith)
                        ∙ rw place (ground arith);
                    same_size = refl;
                    valid = set-IsMap (i / 32) w (i % 32) m e lt (omega arith);
                  },
                )
        ]
  ]

  -- With the map in order, `bitmap_unmark` clears a bit of the map that is set, and no other, and
  -- leaves a map in order; or the bit is outside the map or clear already and an assertion fails.
  bitmap_unmark-Flips : Flips b i false (bitmap_unmark b i)
  unfolding bitmap_unmark
  bitmap_unmark-Flips = elim (Bool-cases (ltb i b.nbits)) [
    | inr out ↦ rw (bitmap_unmark, out) (inl (ground arith))
    | inl inside ↦
        let (w, e, lt) = word_of (ground arith) in
        elim (Bool-cases (has_bit (i % 32) w)) [
          | inr off ↦ rw (bitmap_unmark, inside, e, off) (inr (bit_of w e ∙ off))
          | inl on ↦
              rw (bitmap_unmark, inside, e, on)
                (
                  ground arith,
                  bit_of w e ∙ on,
                  record {
                    after = λ j.
                        is_set-clear b (i / 32) w (i % 32) j e lt (omega arith)
                        ∙ rw place (ground arith);
                    same_size = refl;
                    valid =
                        clear-IsMap (i / 32) w (i % 32) m e lt (omega arith)
                          (ground (arith, place));
                  },
                )
        ]
  ]
