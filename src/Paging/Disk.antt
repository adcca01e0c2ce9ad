-- ===== src/Paging/Disk.antt =====
-- What A3/swap.c asks of the swap file, and the pages that it keeps there.
use csc369_uoft.Base.{
  ℕ, ◌+◌, ◌*◌, ◌%◌, ◌^◌, ◌≤◌, ◌≡◌, ap, true, false, none, some, arith, ◌⊎◌, Bool-cases, some_inj,
  ltb, inl, inr,
}
use csc369_uoft.Paging.{Page, Bits, FileOps, Vm}
use csc369_uoft.Paging.Bitmap.{Allocation, allocated, full, failed, bitmap_alloc}
use csc369_uoft.Paging.Bitmap.Alloc.{IsMap, is_set, Promises, bitmap_alloc-Promises}
use csc369_uoft.Paging.Swap.{swap_pageout, write_page, simpagesize}

-- Two pages of the file that share no byte.
abbrev pub Apart : ℕ → ℕ → Type 0
Apart a b = (a + simpagesize ≤ b) ⊎ (b + simpagesize ≤ a)

-- A file: what was written at an offset is read there, and a write changes nothing apart from it.
pub record IsFile {File : Type 0} (io : FileOps File) : Type 0 where
  pub same :
      (f g : File) (offset : ℕ) (page : Page)
      → io.write f offset page ≡ (g, true)
      → (old : Page) → io.read g offset old ≡ page
  pub other :
      (f g : File) (offset : ℕ) (page : Page) (j : ℕ)
      → io.write f offset page ≡ (g, true)
      → Apart offset j
      → io.read g j ≡ io.read f j

module _ {File : Type 0} (io : FileOps File) where
  -- A write that has an offset as its result.
  write_page-some :
      (frame offset : ℕ) (s : Vm File) (o : ℕ) (t : Vm File)
      → write_page io frame offset s ≡ (some o, t)
      → (o ≡ offset)
        × (t ≡ record s { swapfile = t.swapfile })
        × (io.write s.swapfile offset (s.physmem frame) ≡ (t.swapfile, true))
  unfolding write_page
  write_page-some frame offset s o t e = elim (Bool-cases (ltb offset (2 ^ 31))) [
    | inl small ↦ elim (Bool-cases (io.write s.swapfile offset (s.physmem frame)).1) [
      | inl whole ↦ ground (arith, e, small, whole)
      | inr part ↦ absurd (ground (arith, e, small, part))
    ]
    | inr large ↦ absurd (ground (arith, e, large))
  ]

  -- What a page-out has done when its result is an offset.
  pub record Stored (frame : ℕ) (s : Vm File) (o : ℕ) (t : Vm File) : Type 0 where
    pub bits : Bits
    pub after : t ≡ record s { swapmap = bits; swapfile = t.swapfile }
    pub written : io.write s.swapfile o (s.physmem frame) ≡ (t.swapfile, true)

  -- A new place in the file: a slot of the map that was free, and is now taken.
  pub record NewSlot (s : Vm File) (o : ℕ) (t : Vm File) : Type 0 where
    pub idx : ℕ
    pub place : o ≡ idx * simpagesize
    pub inside : o + simpagesize ≤ s.swapmap.nbits * simpagesize
    pub was_free : is_set s.swapmap idx ≡ false
    pub taken : is_set t.swapmap idx ≡ true
    pub valid : IsMap t.swapmap

  -- With a swap map in order, of at most 2^27 bits: the offset that `swap_pageout` returns for a
  -- page without a place is that of a slot that was free and is now taken, and the whole page lies
  -- within the slots of the map.
  pub swap_pageout-NewSlot :
      (frame : ℕ) (s : Vm File) (o : ℕ) (t : Vm File)
      → IsMap s.swapmap
      → s.swapmap.nbits ≤ 2 ^ 27
      → swap_pageout io frame none s ≡ some (some o, t)
      → NewSlot s o t
  unfolding swap_pageout
  swap_pageout-NewSlot frame s o t m few e =
      by_result (bitmap_alloc s.swapmap) (bitmap_alloc-Promises s.swapmap m) e
    where
      by_result :
          (a : Allocation)
          → Promises s.swapmap a
          → (elim a [
            | failed ↦ none
            | full ↦ some (none, s)
            | allocated idx b ↦
                some (write_page io frame (idx * simpagesize % 2 ^ 32) (record s { swapmap = b }))
          ])
            ≡ some (some o, t)
          → NewSlot s o t
      by_result (allocated idx b) h k =
          let (same, after, written) =
            write_page-some frame (idx * simpagesize % 2 ^ 32) (record s { swapmap = b }) o t
              (some_inj _ _ k) in
          let bits : t.swapmap ≡ b = ap (λ u. u.swapmap) after in
          record {
            idx = idx;
            place = omega (arith, same, h.in_range);
            inside = omega (arith, same, h.in_range);
            was_free = h.was_free;
            taken = rw bits (ground (arith, h.after idx));
            valid = rw bits h.valid;
          }
      by_result full h k = cc
      by_result failed h k = absurd h
