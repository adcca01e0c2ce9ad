-- ===== src/Paging/Bitmap/Words.antt =====
-- Single words: the search for a clear bit, and when there is none.
use csc369_uoft.Base.{
  ℕ, zero, suc, ◌+◌, ◌-◌, ◌/◌, ◌^◌, ◌≤◌, ◌<◌, ◌≡◌, true, false, Option, none, some, arith, ◌==◌,
  Bool-cases, inl, inr,
}
use native.Mathlib.Nat.{pow-suc}
use csc369_uoft.Base.Bits.{has_bit, pow_pos}
use csc369_uoft.Paging.Bitmap.{find_offset}

-- What the search over bits `offset` to `offset + n` gives.
abbrev pub Found : ℕ → ℕ → ℕ → Option ℕ → Type 0
Found n offset w none = (j : ℕ) → offset ≤ j → j < offset + n → has_bit j w ≡ true
Found n offset w (some k) =
    (offset ≤ k)
    × (k < offset + n)
    × (has_bit k w ≡ false)
    × ((j : ℕ) → offset ≤ j → j < k → has_bit j w ≡ true)

pub find_offset-Found : (n offset w : ℕ) → Found n offset w (find_offset n offset w)
unfolding find_offset
find_offset-Found zero offset w = λ j le lt. absurd (omega arith)
find_offset-Found (suc n) offset w = elim (Bool-cases (has_bit offset w)) [
  | inr clear ↦ rw clear (omega arith, omega arith, clear, λ j le lt. absurd (omega arith))
  | inl set_here ↦ rw set_here (
      further n offset w (find_offset n (offset + 1) w) set_here
        (find_offset-Found n (offset + 1) w))
]
  where
    further :
        (n offset w : ℕ) (r : Option ℕ)
        → has_bit offset w ≡ true
        → Found n (offset + 1) w r
        → Found (suc n) offset w r
    further n offset w none here f = λ j le lt. elim (Bool-cases (offset == j)) [
      | inl same ↦ let e : j ≡ offset = ground arith in rw e here
      | inr other ↦ f j (ground arith) (omega arith)
    ]
    further n offset w (some k) here f = (
      omega arith,
      omega arith,
      f.2,
      λ j le lt. elim (Bool-cases (offset == j)) [
        | inl same ↦ let e : j ≡ offset = ground arith in rw e here
        | inr other ↦ f.3 j (ground arith) lt
      ],
    )

-- A word of n bits with all of them set.
pub all_set : (n w : ℕ) → w < 2 ^ n → ((j : ℕ) → j < n → has_bit j w ≡ true) → w ≡ 2 ^ n - 1
all_set zero w lt h = omega arith
all_set (suc n) w lt h = ground (
  arith,
  pow-suc 2 n,
  pow_pos n,
  h 0 (omega arith),
  all_set n (w / 2) (omega (arith, pow-suc 2 n)) (λ j lt'. h (suc j) (omega arith)),
)
