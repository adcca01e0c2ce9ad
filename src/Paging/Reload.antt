-- ===== src/Paging/Reload.antt =====
-- What A3/pagetable.c remembers of a page that it reads in from the swap file.
use csc369_uoft.Base.{
  ℕ, ◌+◌, ◌/◌, ◌≡◌, true, false, Option, none, some, arith, Option-cases, inl, inr, ◌∙◌, ap,
}
use csc369_uoft.Paging.{FileOps, Vm}
use csc369_uoft.Paging.Flags.{
  pg_valid, pg_dirty, pg_ref, pg_onswap, has, add, frame_word, has-add, has-remove, has-frame_word,
}
use csc369_uoft.Paging.Swap.{swap_pagein}
use csc369_uoft.Paging.Table.{
  Algorithm, set_frame, find_physpage, resolve, miss, touch, evict_page, allocate_frame,
}

-- The entry of a page that was read in, and then read.
read_dirty : (n : ℕ) → has pg_dirty (add pg_ref (add pg_valid (frame_word n))) ≡ false
read_dirty n =
    has-add pg_dirty pg_ref (add pg_valid (frame_word n))
    ∙ has-add pg_dirty pg_valid (frame_word n)
    ∙ has-frame_word pg_dirty n

read_onswap : (n : ℕ) → has pg_onswap (add pg_ref (add pg_valid (frame_word n))) ≡ false
read_onswap n =
    has-add pg_onswap pg_ref (add pg_valid (frame_word n))
    ∙ has-add pg_onswap pg_valid (frame_word n)
    ∙ has-frame_word pg_onswap n

module _ {File : Type 0} (io : FileOps File) (alg : Algorithm File) where
  pagein-pgtbl :
      (i : ℕ) (o : Option ℕ) (s t : Vm File) → swap_pagein io i o s ≡ some t → t.pgtbl ≡ s.pgtbl
  unfolding swap_pagein
  pagein-pgtbl i none s t e = cc
  pagein-pgtbl i (some o) s t e = ground (arith, e)

  miss-frame :
      (p vaddr : ℕ) (s t : Vm File)
      → has pg_onswap (s.pgtbl p).frame ≡ true
      → miss io alg p vaddr s ≡ some t
      → (i : ℕ) × ((t.pgtbl p).frame ≡ frame_word i)
  unfolding miss
  miss-frame p vaddr s t on e = elim (Option-cases (allocate_frame io alg p s)) [
    | inl x ↦ absurd (ground (arith, e, x))
    | inr ((i, u), x) ↦ (
      i,
      ap (λ g. (g p).frame)
            (pagein-pgtbl i (u.pgtbl p).swap_off (set_frame p (frame_word i) u) t
              (ground (arith, e, x, on)))
          ∙ ground arith,
    )
  ]

  -- An algorithm's `ref` that leaves the page tables alone.
  abbrev pub KeepsTables : Type 0
  KeepsTables = (p : ℕ) (s t : Vm File) → alg.ref p s ≡ some t → t.pgtbl ≡ s.pgtbl

  read-frame :
      (vaddr : ℕ) (s : Vm File) (i : ℕ) (t : Vm File)
      → KeepsTables
      → s.pgdir (vaddr / 4096 / 4096) ≡ true
      → has pg_valid (s.pgtbl (vaddr / 4096)).frame ≡ false
      → has pg_onswap (s.pgtbl (vaddr / 4096)).frame ≡ true
      → find_physpage io alg vaddr false s ≡ some (i, t)
      → (n : ℕ) × ((t.pgtbl (vaddr / 4096)).frame ≡ add pg_ref (add pg_valid (frame_word n)))
  unfolding find_physpage resolve touch
  read-frame vaddr s i t keeps dir off on e =
      let p = vaddr / 4096 in
      elim (Option-cases (miss io alg p vaddr (record s { miss_count = s.miss_count + 1 }))) [
        | inl x ↦ absurd (ground (arith, e, x, dir, off))
        | inr (u, x) ↦ elim (Option-cases (touch io alg p false u)) [
          | inl y ↦ absurd (ground (arith, e, x, y, dir, off))
          | inr (w, y) ↦
              let (n, q) = miss-frame p vaddr (record s { miss_count = s.miss_count + 1 }) u on x in
              let same : t ≡ w = ground (arith, e, x, y, dir, off) in
              (n, rw (same, keeps p _ w y, q) (ground arith))
        ]
      ]

  -- With an algorithm whose `ref` leaves the page tables alone, a page whose table is there, that
  -- is on swap and not valid, and that a read by `find_physpage` brings in, is neither valid nor
  -- on swap after its eviction by the next `evict_page`.
  pub find_physpage-evict_page :
      (vaddr : ℕ) (s : Vm File) (i : ℕ) (t : Vm File) (frame : ℕ) (u : Vm File)
      → KeepsTables
      → s.pgdir (vaddr / 4096 / 4096) ≡ true
      → has pg_valid (s.pgtbl (vaddr / 4096)).frame ≡ false
      → has pg_onswap (s.pgtbl (vaddr / 4096)).frame ≡ true
      → find_physpage io alg vaddr false s ≡ some (i, t)
      → evict_page io alg frame (vaddr / 4096) t ≡ some u
      → (has pg_valid (u.pgtbl (vaddr / 4096)).frame ≡ false)
        × (has pg_onswap (u.pgtbl (vaddr / 4096)).frame ≡ false)
  unfolding evict_page
  find_physpage-evict_page vaddr s i t frame u keeps dir off on e g =
      let p = vaddr / 4096 in
      let (n, q) = read-frame vaddr s i t keeps dir off on e in
      let w = (t.pgtbl p).frame in
      let dirty : has pg_dirty w ≡ false = rw q (read_dirty n) in
      let swapped : has pg_onswap w ≡ false = rw q (read_onswap n) in
      ground
        (arith, g, dirty, swapped, has-remove pg_valid pg_valid w, has-remove pg_onswap pg_valid w)
