-- ===== src/Paging/Bitmap/Create.antt =====
-- The map that `bitmap_create` of A3/swap.c makes.
use csc369_uoft.Base.{
  ℕ, zero, suc, ◌+◌, ◌-◌, ◌*◌, ◌/◌, ◌%◌, ◌^◌, ◌≤◌, ◌<◌, ◌≡◌, refl, true, false, Option, none, some,
  arith, ◌==◌, Bool-cases, inl, inr, get_elem?, set, replicate, length, length-set,
  length-replicate, get_elem?-replicate, get_elem?_ge, get_elem?-set_self, get_elem?-set_ne, ◌&&◌,
  ◌||◌, ltb, leb, ◌∙◌, if◌then◌else◌,
}
use csc369_uoft.Base.Bits.{has_bit, set_bit, has_bit-set_bit, set_bit-lt, all_ones_has_bit}
use csc369_uoft.Paging.{Bits}
use csc369_uoft.Paging.Bitmap.{words_of, mark_from, bitmap_create}
use csc369_uoft.Paging.Bitmap.Alloc.{is_set, IsMap}

has_bit-zero : (k : ℕ) → has_bit k 0 ≡ false
has_bit-zero zero = refl
has_bit-zero (suc k) = has_bit-zero k

has_bit-mark_from :
    (n j k w : ℕ) → has_bit k (mark_from n j w) ≡ ((leb j k && ltb k (j + n)) || has_bit k w)
unfolding mark_from
has_bit-mark_from zero j k w = ground arith
has_bit-mark_from (suc n) j k w =
    ground (arith, has_bit-mark_from n (j + 1) k (set_bit j w), has_bit-set_bit k j w)

mark_from-lt : (n j w : ℕ) → j + n ≤ 32 → w < 2 ^ 32 → mark_from n j w < 2 ^ 32
unfolding mark_from
mark_from-lt zero j w h lt = lt
mark_from-lt (suc n) j w h lt =
    mark_from-lt n (j + 1) (set_bit j w) (omega arith) (set_bit-lt 32 j w (omega arith) lt)

-- A new map of `n` bits is in order, and its bits are clear.
pub record IsFresh (n : ℕ) (b : Bits) : Type 0 where
  pub size : b.nbits ≡ n
  pub clear : (j : ℕ) → j < n → is_set b j ≡ false
  pub valid : IsMap b

words_of_lem : (n : ℕ) → n ≤ 2 ^ 32 - 32 → words_of n ≡ (n + 31) / 32
unfolding words_of
words_of_lem n h = omega arith

-- Word `i` of the new map, where `last` is the word of the first bit past the end.
abbrev word_at : (n last i : ℕ) → Option ℕ
word_at n last i = if ltb i (words_of n) then some (if i == n / 32 then last else 0) else none

module _ (b : Bits) (last : ℕ) (small : b.nbits ≤ 2 ^ 32 - 32) (fits : last < 2 ^ 32)
    (bits : (k : ℕ) → k < 32 → has_bit k last ≡ leb (b.nbits % 32) k)
    (words : length b.v ≡ words_of b.nbits)
    (word : (i : ℕ) → get_elem? b.v i ≡ word_at b.nbits last i) where
  described : (j : ℕ) → is_set b j ≡ (leb b.nbits j && ltb j (words_of b.nbits * 32))
  unfolding is_set
  described j = elim (Bool-cases (ltb (j / 32) (words_of b.nbits))) [
    | inr out ↦ rw (is_set, word (j / 32), out) (ground arith)
    | inl inside ↦ elim (Bool-cases (j / 32 == b.nbits / 32)) [
      | inl at_last ↦
          rw (is_set, word (j / 32), inside, at_last) (bits (j % 32) (omega arith) ∙ ground arith)
      | inr elsewhere ↦
          rw (is_set, word (j / 32), inside, elsewhere)
            (has_bit-zero (j % 32) ∙ ground (arith, words_of_lem b.nbits small))
    ]
  ]

  described-IsFresh : IsFresh b.nbits b
  described-IsFresh = record {
    size = refl;
    clear = λ j lt. described j ∙ ground arith;
    valid = record {
      words = words;
      small = small;
      word = λ i w e. ground (arith, word i, fits);
      tail = λ j le lt. described j ∙ ground arith;
    };
  }

replicate-word_at :
    (n last i : ℕ) → words_of n ≤ n / 32 → get_elem? (replicate (words_of n) 0) i ≡ word_at n last i
replicate-word_at n last i whole = elim (Bool-cases (ltb i (words_of n))) [
  | inl inside ↦ get_elem?-replicate (words_of n) i 0 (ground arith) ∙ ground (arith, inside)
  | inr out ↦
      get_elem?_ge (replicate (words_of n) 0) i
        (ground (arith, length-replicate {A = ℕ} (words_of n) 0))
      ∙ ground (arith, out)
]

set-word_at :
    (n last i : ℕ)
    → words_of n ≡ n / 32 + 1
    → get_elem? (set (replicate (words_of n) 0) (words_of n - 1) last) i ≡ word_at n last i
set-word_at n last i part = elim (Bool-cases (words_of n - 1 == i)) [
  | inl same ↦ ground (
    arith,
    get_elem?-set_self (replicate (words_of n) 0) (words_of n - 1) last
        (omega (arith, length-replicate {A = ℕ} (words_of n) 0)),
  )
  | inr other ↦
      get_elem?-set_ne (replicate (words_of n) 0) (words_of n - 1) i last (ground arith)
      ∙ elim (Bool-cases (ltb i (words_of n))) [
        | inl inside ↦ get_elem?-replicate (words_of n) i 0 (ground arith) ∙ ground arith
        | inr out ↦
            get_elem?_ge (replicate (words_of n) 0) i
              (ground (arith, length-replicate {A = ℕ} (words_of n) 0))
            ∙ ground arith
      ]
]

-- For up to 2^32 - 32 bits, `bitmap_create` returns, where `malloc` succeeds, a map of that many
-- bits that is in order, with all of them clear.
pub bitmap_create-IsFresh :
    (nbits : ℕ)
    → nbits ≤ 2 ^ 32 - 32
    → (b : Bits) × (bitmap_create true nbits ≡ some b) × IsFresh nbits b
unfolding bitmap_create
bitmap_create-IsFresh nbits small = elim (Bool-cases (ltb (nbits / 32) (words_of nbits))) [
  | inr whole ↦ (
    record { nbits = nbits; v = replicate (words_of nbits) 0 },
    rw (bitmap_create, whole) refl,
    described-IsFresh (record { nbits = nbits; v = replicate (words_of nbits) 0 }) (2 ^ 32 - 1)
        small (omega arith)
        (λ k lt. all_ones_has_bit 32 k lt ∙ ground (arith, whole, words_of_lem nbits small))
        (length-replicate (words_of nbits) 0)
        (λ i. replicate-word_at nbits (2 ^ 32 - 1) i (ground arith)),
  )
  | inl part ↦
      let count : words_of nbits ≡ nbits / 32 + 1 =
        ground (arith, part, words_of_lem nbits small) in
      let over = nbits - (words_of nbits - 1) * 32 in
      let last = mark_from (32 - over) over 0 in
      (
        record { nbits = nbits; v = set (replicate (words_of nbits) 0) (words_of nbits - 1) last },
        rw (bitmap_create, part) refl,
        described-IsFresh
            (record {
              nbits = nbits;
              v = set (replicate (words_of nbits) 0) (words_of nbits - 1) last;
            })
            last small (mark_from-lt (32 - over) over 0 (omega arith) (omega arith))
            (λ k lt. has_bit-mark_from (32 - over) over k 0 ∙ ground (arith, has_bit-zero k))
            (length-set (replicate (words_of nbits) 0) (words_of nbits - 1) last
              ∙ length-replicate (words_of nbits) 0)
            (λ i. set-word_at nbits last i count),
      )
]
