-- ===== src/Base/Bits.antt =====
-- Single bits of a machine word, by division and remainder.
use Prim.Native.Nat.{ℕ, zero, suc, ◌+◌, ◌-◌, ◌*◌, ◌/◌, ◌%◌, ◌≤◌, ◌<◌, ◌^◌}
use mathlib.Core.Path.{◌≡◌}
use mathlib.Core.Bool.{Bool, true, false}
use native.Mathlib.Omega.{arith}
use native.Mathlib.Nat.{pow-suc}
use csc369_uoft.Base.Tests.{◌==◌, if◌then◌else◌}

-- `w & (1 << k)` is not zero.
abbrev pub has_bit : ℕ → ℕ → Bool
has_bit zero w = w % 2 == 1
has_bit (suc k) w = has_bit k (w / 2)

-- `w | (1 << k)`
abbrev pub set_bit : ℕ → ℕ → ℕ
set_bit zero w = w / 2 * 2 + 1
set_bit (suc k) w = set_bit k (w / 2) * 2 + w % 2

-- `w & ~(1 << k)`
abbrev pub clear_bit : ℕ → ℕ → ℕ
clear_bit zero w = w / 2 * 2
clear_bit (suc k) w = clear_bit k (w / 2) * 2 + w % 2

-- What a bit reads after another was set or cleared.
pub has_bit-set_bit : (j k w : ℕ) → has_bit j (set_bit k w) ≡ (if j == k then true else has_bit j w)
has_bit-set_bit zero zero w = ground arith
has_bit-set_bit zero (suc k) w = ground arith
has_bit-set_bit (suc j) zero w =
    let e : (w / 2 * 2 + 1) / 2 ≡ w / 2 = omega arith in rw e (ground arith)
has_bit-set_bit (suc j) (suc k) w =
    let e : (set_bit k (w / 2) * 2 + w % 2) / 2 ≡ set_bit k (w / 2) = omega arith in
    rw e (ground (arith, has_bit-set_bit j k (w / 2)))

pub has_bit-clear_bit :
    (j k w : ℕ) → has_bit j (clear_bit k w) ≡ (if j == k then false else has_bit j w)
has_bit-clear_bit zero zero w = ground arith
has_bit-clear_bit zero (suc k) w = ground arith
has_bit-clear_bit (suc j) zero w =
    let e : w / 2 * 2 / 2 ≡ w / 2 = omega arith in rw e (ground arith)
has_bit-clear_bit (suc j) (suc k) w =
    let e : (clear_bit k (w / 2) * 2 + w % 2) / 2 ≡ clear_bit k (w / 2) = omega arith in
    rw e (ground (arith, has_bit-clear_bit j k (w / 2)))

-- A word of n bits stays one when a bit below n is set.
pub set_bit-lt : (n k w : ℕ) → k < n → w < 2 ^ n → set_bit k w < 2 ^ n
set_bit-lt zero k w h lt = absurd (omega arith)
set_bit-lt (suc n) zero w h lt = omega (arith, pow-suc 2 n)
set_bit-lt (suc n) (suc k) w h lt =
    omega (arith, pow-suc 2 n, set_bit-lt n k (w / 2) (omega arith) (omega (arith, pow-suc 2 n)))

pub pow_pos : (n : ℕ) → 0 < 2 ^ n
pow_pos zero = omega arith
pow_pos (suc n) = omega (arith, pow-suc 2 n, pow_pos n)

-- A word with some bit clear is not the word of all ones.
pub all_ones_has_bit : (n k : ℕ) → k < n → has_bit k (2 ^ n - 1) ≡ true
all_ones_has_bit zero k h = absurd (omega arith)
all_ones_has_bit (suc n) zero h = ground (arith, pow-suc 2 n, pow_pos n)
all_ones_has_bit (suc n) (suc k) h =
    let e : (2 ^ suc n - 1) / 2 ≡ 2 ^ n - 1 = omega (arith, pow-suc 2 n, pow_pos n) in
    rw e (all_ones_has_bit n k (omega arith))

pub clear_bit-le : (k w : ℕ) → clear_bit k w ≤ w
clear_bit-le zero w = omega arith
clear_bit-le (suc k) w = omega (arith, clear_bit-le k (w / 2))
