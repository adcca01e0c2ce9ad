-- ===== src/Paging/Swap.antt =====
-- Pages in and out of the swap file: A3/swap.c. The system calls on the file are the parameter `io`.
use csc369_uoft.Base.{
  ℕ, ◌*◌, ◌%◌, ◌^◌, Bool, true, false, ltb, if◌then◌else◌, Option, none, some, update,
}
use csc369_uoft.Paging.{FileOps, Vm}
use csc369_uoft.Paging.Bitmap.{allocated, full, failed, bitmap_create, bitmap_alloc}

-- SIMPAGESIZE
abbrev pub simpagesize : ℕ
simpagesize = 16

-- What the program holds of files and memory: how many trace files are open, the coremap and the
-- frames, the text of the swap file's name, the swap file in its directory, its descriptor, and the
-- bitmap's memory.
pub record Held : Type 0 where
  pub traces : ℕ
  pub coremap : Bool
  pub physmem : Bool
  pub fname : Bool
  pub swapfile : Bool
  pub swapfd : Bool
  pub swapmap : Bool

module _ {File : Type 0} (io : FileOps File) where
  -- `none` is a failure of `mkstemp` or of `bitmap_create`, which ends the program.
  unfoldable pub swap_init :
      (malloc_succeeds : Bool) → Option File → ℕ → Held → Vm File → Held × Option (Vm File)
  swap_init malloc_succeeds none swapsize h s = (record h { fname = true }, none)
  swap_init malloc_succeeds (some file) swapsize h s =
      let made = record h { fname = true; swapfile = true; swapfd = true } in
      elim (bitmap_create malloc_succeeds swapsize) [
        | none ↦ (made, none)
        | some b ↦
            (record made { swapmap = true }, some (record s { swapmap = b; swapfile = file }))
      ]

  -- `none` is the failed assertion on INVALID_SWAP. The callers ignore the status, so it is left
  -- out.
  unfoldable pub swap_pagein : ℕ → Option ℕ → Vm File → Option (Vm File)
  swap_pagein frame none s = none
  swap_pagein frame (some offset) s =
      some (record s {
        physmem = update s.physmem frame (io.read s.swapfile offset (s.physmem frame));
      })

  -- The write at an offset that is allocated: the offset, or INVALID_SWAP after a failure.
  -- An offset from 2^31 on is negative as an `int`, and `lseek` fails on it.
  unfoldable pub write_page : ℕ → ℕ → Vm File → Option ℕ × Vm File
  write_page frame offset s = elim (ltb offset (2 ^ 31)) [
    | false ↦ (none, s)
    | true ↦
        let (file, whole) = io.write s.swapfile offset (s.physmem frame) in
        (if whole then some offset else none, record s { swapfile = file })
  ]

  -- `none` is a failed assertion in `bitmap_alloc`; the inner `none` is INVALID_SWAP.
  unfoldable pub swap_pageout : ℕ → Option ℕ → Vm File → Option (Option ℕ × Vm File)
  swap_pageout frame (some offset) s = some (write_page frame offset s)
  swap_pageout frame none s = elim (bitmap_alloc s.swapmap) [
    | failed ↦ none
    | full ↦ some (none, s)
    | allocated idx b ↦
        some (write_page frame (idx * simpagesize % 2 ^ 32) (record s { swapmap = b }))
  ]

unfoldable pub bitmap_destroy : Held → Held
bitmap_destroy h = record h { swapmap = false }

unfoldable pub swap_destroy : Held → Held
unfolding bitmap_destroy
swap_destroy h = bitmap_destroy (record h { swapfd = false; swapfile = false })
