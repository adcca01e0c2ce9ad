-- ===== src/Paging/Flags.antt =====
-- The status bits of a page table entry, and the frame number above them: the macros of
-- A3/pagetable.h.
use csc369_uoft.Base.{ℕ, ◌*◌, ◌/◌, ◌%◌, ◌^◌, ◌<◌, ◌≡◌, Bool, true, false, ◌||◌, ◌&&◌, not, arith}
use csc369_uoft.Base.Bits.{has_bit, set_bit, clear_bit, has_bit-set_bit, has_bit-clear_bit}

pub data Flag : Type 0 where
  pg_valid pg_dirty pg_ref pg_onswap : Flag

-- The bit of the mask: 0x1, 0x2, 0x4, 0x8.
abbrev pub flag_bit : Flag → ℕ
flag_bit pg_valid = 0
flag_bit pg_dirty = 1
flag_bit pg_ref = 2
flag_bit pg_onswap = 3

abbrev pub same_flag : Flag → Flag → Bool
same_flag pg_valid pg_valid = true
same_flag pg_dirty pg_dirty = true
same_flag pg_ref pg_ref = true
same_flag pg_onswap pg_onswap = true
same_flag _ _ = false

-- `w & PG_…`
unfoldable pub has : Flag → ℕ → Bool
has f w = has_bit (flag_bit f) w

-- `w | PG_…`
unfoldable pub add : Flag → ℕ → ℕ
add f w = set_bit (flag_bit f) w

-- `w & ~PG_…`
unfoldable pub remove : Flag → ℕ → ℕ
remove f w = clear_bit (flag_bit f) w

-- `w >> PAGE_SHIFT`
unfoldable pub frame_no : ℕ → ℕ
frame_no w = w / 4096

-- `n << PAGE_SHIFT`, in an unsigned of 32 bits
unfoldable pub frame_word : ℕ → ℕ
frame_word n = n * 4096 % 2 ^ 32

pub has-add : (f g : Flag) (w : ℕ) → has f (add g w) ≡ (same_flag f g || has f w)
unfolding has add
has-add pg_valid pg_valid w = has_bit-set_bit 0 0 w
has-add pg_valid pg_dirty w = has_bit-set_bit 0 1 w
has-add pg_valid pg_ref w = has_bit-set_bit 0 2 w
has-add pg_valid pg_onswap w = has_bit-set_bit 0 3 w
has-add pg_dirty pg_valid w = has_bit-set_bit 1 0 w
has-add pg_dirty pg_dirty w = has_bit-set_bit 1 1 w
has-add pg_dirty pg_ref w = has_bit-set_bit 1 2 w
has-add pg_dirty pg_onswap w = has_bit-set_bit 1 3 w
has-add pg_ref pg_valid w = has_bit-set_bit 2 0 w
has-add pg_ref pg_dirty w = has_bit-set_bit 2 1 w
has-add pg_ref pg_ref w = has_bit-set_bit 2 2 w
has-add pg_ref pg_onswap w = has_bit-set_bit 2 3 w
has-add pg_onswap pg_valid w = has_bit-set_bit 3 0 w
has-add pg_onswap pg_dirty w = has_bit-set_bit 3 1 w
has-add pg_onswap pg_ref w = has_bit-set_bit 3 2 w
has-add pg_onswap pg_onswap w = has_bit-set_bit 3 3 w

pub has-remove : (f g : Flag) (w : ℕ) → has f (remove g w) ≡ (not (same_flag f g) && has f w)
unfolding has remove
has-remove pg_valid pg_valid w = has_bit-clear_bit 0 0 w
has-remove pg_valid pg_dirty w = has_bit-clear_bit 0 1 w
has-remove pg_valid pg_ref w = has_bit-clear_bit 0 2 w
has-remove pg_valid pg_onswap w = has_bit-clear_bit 0 3 w
has-remove pg_dirty pg_valid w = has_bit-clear_bit 1 0 w
has-remove pg_dirty pg_dirty w = has_bit-clear_bit 1 1 w
has-remove pg_dirty pg_ref w = has_bit-clear_bit 1 2 w
has-remove pg_dirty pg_onswap w = has_bit-clear_bit 1 3 w
has-remove pg_ref pg_valid w = has_bit-clear_bit 2 0 w
has-remove pg_ref pg_dirty w = has_bit-clear_bit 2 1 w
has-remove pg_ref pg_ref w = has_bit-clear_bit 2 2 w
has-remove pg_ref pg_onswap w = has_bit-clear_bit 2 3 w
has-remove pg_onswap pg_valid w = has_bit-clear_bit 3 0 w
has-remove pg_onswap pg_dirty w = has_bit-clear_bit 3 1 w
has-remove pg_onswap pg_ref w = has_bit-clear_bit 3 2 w
has-remove pg_onswap pg_onswap w = has_bit-clear_bit 3 3 w

pub frame_no-add : (f : Flag) (w : ℕ) → frame_no (add f w) ≡ frame_no w
unfolding frame_no add
frame_no-add pg_valid w = omega arith
frame_no-add pg_dirty w = omega arith
frame_no-add pg_ref w = omega arith
frame_no-add pg_onswap w = omega arith

pub frame_no-remove : (f : Flag) (w : ℕ) → frame_no (remove f w) ≡ frame_no w
unfolding frame_no remove
frame_no-remove pg_valid w = omega arith
frame_no-remove pg_dirty w = omega arith
frame_no-remove pg_ref w = omega arith
frame_no-remove pg_onswap w = omega arith

pub frame_no-frame_word : (n : ℕ) → n < 2 ^ 20 → frame_no (frame_word n) ≡ n
unfolding frame_no frame_word
frame_no-frame_word n h = omega arith

pub has-frame_word : (f : Flag) (n : ℕ) → has f (frame_word n) ≡ false
unfolding has frame_word
has-frame_word pg_valid n = ground arith
has-frame_word pg_dirty n = ground arith
has-frame_word pg_ref n = ground arith
has-frame_word pg_onswap n = ground arith
