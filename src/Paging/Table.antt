-- ===== src/Paging/Table.antt =====
-- `allocate_frame` and `find_physpage` of A3/pagetable.c. The functions of the replacement algorithm,
-- which the source calls through pointers, are a parameter. `none` is an access out of range, a null
-- pointer or a failed assertion.
use csc369_uoft.Base.{
  ℕ, zero, suc, ◌+◌, ◌/◌, Bool, true, false, Option, none, some, ltb, ◌==◌, if◌then◌else◌, update,
}
use csc369_uoft.Paging.{Frame, FileOps, Vm}
use csc369_uoft.Paging.Flags.{
  pg_valid, pg_dirty, pg_ref, pg_onswap, has, add, remove, frame_no, frame_word,
}
use csc369_uoft.Paging.Swap.{swap_pagein, swap_pageout}

-- `struct functions` of sim.h, less its name: `init`, `ref` and `evict`.
pub record Algorithm (File : Type 0) : Type 0 where
  pub ref : ℕ → Vm File → Option (Vm File)
  pub evict : Vm File → Option (ℕ × Vm File)

-- PTRS_PER_PGDIR and PTRS_PER_PGTBL
abbrev pub ptrs_per_pgdir : ℕ
ptrs_per_pgdir = 4096

abbrev pub ptrs_per_pgtbl : ℕ
ptrs_per_pgtbl = 4096

-- The search for a frame that is not in use, from frame `i` with `n` rounds left.
unfoldable pub find_free : ℕ → ℕ → (ℕ → Frame) → Option ℕ
find_free zero i coremap = none
find_free (suc n) i coremap =
    let rest = find_free n (i + 1) coremap in if (coremap i).in_use then rest else some i

module _ {File : Type 0} where
  -- A store to `p->frame`.
  abbrev pub set_frame : ℕ → ℕ → Vm File → Vm File
  set_frame p w s = record s {
    pgtbl = update s.pgtbl p (record { frame = w; swap_off = (s.pgtbl p).swap_off });
  }

  -- `init_pagetable`; a table that is not there has no entries to speak of.
  unfoldable pub init_pagetable : Vm File → Vm File
  init_pagetable s = record s { pgdir = λ i. false }

  -- `init_second_level` for entry `idx` of the directory. That its `posix_memalign` may fail, which
  -- ends the program, is left out.
  unfoldable pub init_second_level : ℕ → Vm File → Vm File
  init_second_level idx s = record s {
    pgdir = update s.pgdir idx true;
    pgtbl =
        λ p. if p / ptrs_per_pgtbl == idx then record { frame = 0; swap_off = none } else s.pgtbl p;
  }

  unfoldable pub init_frame : ℕ → ℕ → Vm File → Vm File
  init_frame frame vaddr s = record s {
    physmem = update s.physmem frame (record { version = 0; checkaddr = vaddr });
  }

module _ {File : Type 0} (io : FileOps File) (alg : Algorithm File) where
  -- The victim `v` in frame `frame` goes to swap if it is dirty, and is no longer valid.
  unfoldable pub evict_page : ℕ → ℕ → Vm File → Option (Vm File)
  evict_page frame v s =
      if has pg_dirty (s.pgtbl v).frame
      then (elim (swap_pageout io frame (s.pgtbl v).swap_off s) [
        | none ↦ none
        | some (updated_offset, t) ↦ some (record t {
          pgtbl = update t.pgtbl v (record {
            frame = remove pg_valid (add pg_onswap (t.pgtbl v).frame);
            swap_off = updated_offset;
          });
          evict_dirty_count = t.evict_dirty_count + 1;
        })
      ])
      else some (record s {
        pgtbl =
            update s.pgtbl v (record {
              frame = remove pg_valid (s.pgtbl v).frame;
              swap_off = (s.pgtbl v).swap_off;
            });
        evict_clean_count = s.evict_clean_count + 1;
      })

  -- Frame `frame` now holds the page of entry `p`.
  abbrev pub occupy : ℕ → ℕ → Vm File → ℕ × Vm File
  occupy frame p s = (
    frame,
    record s {
      coremap =
          update s.coremap frame
            (record { in_use = true; pte = some p; recent = (s.coremap frame).recent });
    },
  )

  unfoldable pub evict_for : ℕ → ℕ × Vm File → Option (ℕ × Vm File)
  evict_for p (frame, s) =
      if ltb frame s.memsize
      then (elim (s.coremap frame).pte [
        | none ↦ none
        | some v ↦ elim (evict_page frame v s) [ none ↦ none | some t ↦ some (occupy frame p t) ]
      ])
      else none

  unfoldable pub allocate_frame : ℕ → Vm File → Option (ℕ × Vm File)
  allocate_frame p s = elim (find_free s.memsize 0 s.coremap) [
    | some frame ↦ some (occupy frame p s)
    | none ↦ elim (alg.evict s) [ none ↦ none | some r ↦ evict_for p r ]
  ]

  -- The case of an entry that is not valid. `vaddr` is the address that is referenced.
  unfoldable pub miss : ℕ → ℕ → Vm File → Option (Vm File)
  miss p vaddr s = elim (allocate_frame p s) [
    | none ↦ none
    | some (frame, t) ↦
        if has pg_onswap (s.pgtbl p).frame
        then swap_pagein io frame (t.pgtbl p).swap_off (set_frame p (frame_word frame) t)
        else some (
            let u = init_frame frame vaddr (set_frame p (frame_word frame) t) in
            set_frame p (add pg_dirty (u.pgtbl p).frame) u)
  ]

  -- What `find_physpage` does once the entry is valid: its bits, the count, and `ref_fcn`.
  unfoldable pub touch : ℕ → (is_write : Bool) → Vm File → Option (Vm File)
  touch p is_write s =
      let w = add pg_ref (add pg_valid (s.pgtbl p).frame) in
      alg.ref p (record (set_frame p (if is_write then add pg_dirty w else w) s) {
        ref_count = s.ref_count + 1;
      })

  unfoldable pub resolve : ℕ → ℕ → Vm File → Option (Vm File)
  resolve p vaddr s =
      if has pg_valid (s.pgtbl p).frame
      then some (record s { hit_count = s.hit_count + 1 })
      else miss p vaddr (record s { miss_count = s.miss_count + 1 })

  -- The frame whose address `find_physpage` returns, and the new state. `is_write` says whether the
  -- access is of type 'M' or 'S'.
  unfoldable pub find_physpage : ℕ → (is_write : Bool) → Vm File → Option (ℕ × Vm File)
  find_physpage vaddr is_write s =
      let p = vaddr / 4096 in
      let idx = p / ptrs_per_pgtbl in
      if ltb idx ptrs_per_pgdir
      then (elim (resolve p vaddr (if s.pgdir idx then s else init_second_level idx s)) [
        | none ↦ none
        | some t ↦ elim (touch p is_write t) [
          | none ↦ none
          | some u ↦ some (frame_no (u.pgtbl p).frame, u)
        ]
      ])
      else none
