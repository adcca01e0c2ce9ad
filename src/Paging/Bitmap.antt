-- ===== src/Paging/Bitmap.antt =====
-- The bitmap of A3/swap.c. A failed assertion, and an access to a word out of range, is a result of
-- its own.
pub mod Words
pub mod Alloc
pub mod Marks
pub mod Create
use csc369_uoft.Base.{
  ℕ, zero, suc, ◌+◌, ◌-◌, ◌*◌, ◌/◌, ◌%◌, ◌^◌, Bool, true, false, List, [], ◌∷◌, Option, none, some,
  get_elem?, set, replicate, ◌==◌, ltb, not, ◌||◌, if◌then◌else◌,
}
use csc369_uoft.Base.Bits.{has_bit, set_bit, clear_bit}
use csc369_uoft.Paging.{Bits}

-- WORD_ALLBITS
abbrev pub word_allbits : ℕ
word_allbits = 2 ^ 32 - 1

-- DIVROUNDUP(nbits, BITS_PER_WORD), in unsigned arithmetic
unfoldable pub words_of : ℕ → ℕ
words_of nbits = (nbits + 31) % 2 ^ 32 / 32

-- `for (j = overbits; j < BITS_PER_WORD; j++) v[ix] |= 1 << j`, with `n` rounds left
unfoldable pub mark_from : ℕ → ℕ → ℕ → ℕ
mark_from zero j w = w
mark_from (suc n) j w = mark_from n (j + 1) (set_bit j w)

unfoldable pub bitmap_create : (malloc_succeeds : Bool) → ℕ → Option Bits
unfolding words_of mark_from
bitmap_create false nbits = none
bitmap_create true nbits =
    let words = words_of nbits in
    let zeros = replicate words 0 in
    let overbits = nbits - (words - 1) * 32 in
    some (
      if ltb (nbits / 32) words
      then record {
        nbits = nbits;
        v = set zeros (words - 1) (mark_from (32 - overbits) overbits 0);
      }
      else record { nbits = nbits; v = zeros })

pub data Allocation : Type 0 where
  allocated : ℕ → Bits → Allocation
  full : Allocation
  failed : Allocation

-- The loop over the bits of a word, with `n` rounds left.
unfoldable pub find_offset : ℕ → ℕ → ℕ → Option ℕ
find_offset zero offset w = none
find_offset (suc n) offset w =
    let rest = find_offset n (offset + 1) w in if has_bit offset w then rest else some offset

-- What happens at the word `w` of index `ix`, which has a bit clear.
unfoldable pub alloc_at : Bits → ℕ → ℕ → Option ℕ → Allocation
alloc_at b ix w none = failed
alloc_at b ix w (some offset) =
    if ltb (ix * 32 + offset) b.nbits
    then allocated (ix * 32 + offset) (record b { v = set b.v ix (set_bit offset w) })
    else failed

unfoldable pub alloc_in : Bits → ℕ → ℕ → Allocation
alloc_in b ix w = alloc_at b ix w (find_offset 32 0 w)

-- The loop over the words, with `n` rounds left.
unfoldable pub alloc_from : ℕ → ℕ → Bits → Allocation
alloc_from zero ix b = full
alloc_from (suc n) ix b = elim (get_elem? b.v ix) [
  | none ↦ failed
  | some w ↦
      let rest = alloc_from n (ix + 1) b in if w == word_allbits then rest else alloc_in b ix w
]

unfoldable pub bitmap_alloc : Bits → Allocation
bitmap_alloc b = alloc_from (words_of b.nbits) 0 b

-- `bitmap_translate`: the word of a bit, and the bit's place in it.
unfoldable pub bitmap_translate : ℕ → ℕ × ℕ
bitmap_translate bitno = (bitno / 32, bitno % 32)

unfoldable pub bitmap_mark : Bits → ℕ → Option Bits
unfolding bitmap_translate
bitmap_mark b index =
    if ltb index b.nbits
    then (elim (get_elem? b.v (bitmap_translate index).0) [
      | none ↦ none
      | some w ↦
          if has_bit (bitmap_translate index).1 w
          then none
          else some (record b {
            v = set b.v (bitmap_translate index).0 (set_bit (bitmap_translate index).1 w);
          })
    ])
    else none

unfoldable pub bitmap_unmark : Bits → ℕ → Option Bits
unfolding bitmap_translate
bitmap_unmark b index =
    if ltb index b.nbits
    then (elim (get_elem? b.v (bitmap_translate index).0) [
      | none ↦ none
      | some w ↦
          if has_bit (bitmap_translate index).1 w
          then some (record b {
            v = set b.v (bitmap_translate index).0 (clear_bit (bitmap_translate index).1 w);
          })
          else none
    ])
    else none

unfoldable pub bitmap_isset : Bits → ℕ → Option Bool
unfolding bitmap_translate
bitmap_isset b index = elim (get_elem? b.v (bitmap_translate index).0) [
  | none ↦ none
  | some w ↦ some (has_bit (bitmap_translate index).1 w)
]
