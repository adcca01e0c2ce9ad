-- ===== src/Paging/Mapped/Claim.antt =====
-- `swap_pageout`, `swap_pagein`, `evict_page` and `allocate_frame` of A3 on a state whose pages are
-- mapped: they return, and the new page has its frame to itself.
use csc369_uoft.Base.{
  ltb, if◌then◌else◌, ℕ, ◌+◌, ◌*◌, ◌%◌, ◌^◌, ◌/◌, ◌<◌, ◌≡◌, ◌∙◌, refl, true, false, Option, none,
  some, List, update, arith, Bool-cases, Option-cases, inl, inr, lt→ltb,
}
use csc369_uoft.Paging.{Pte, Page, Bits, FileOps, Vm}
use csc369_uoft.Paging.Flags.{pg_valid, pg_dirty, pg_onswap, has, add, remove, has-remove}
use csc369_uoft.Paging.Bitmap.{Allocation, allocated, full, failed, bitmap_alloc}
use csc369_uoft.Paging.Bitmap.Alloc.{IsMap, Promises, bitmap_alloc-Promises}
use csc369_uoft.Paging.Swap.{swap_pagein, swap_pageout, write_page, simpagesize}
use csc369_uoft.Paging.Table.{Algorithm, find_free, evict_page, occupy, evict_for, allocate_frame}
use csc369_uoft.Paging.Mapped.{Pending}
use csc369_uoft.Paging.Mapped.Take.{find_free-some, find_free-none, take_free, take_victim}
use csc369_uoft.Paging.Mapped.Same.{IsMapped, IsSound, SameMap-valid, SameMap-IsMapped}

module _ {File : Type 0} where
  -- The state after a page has gone to swap.
  abbrev pub paged_out : Vm File → Bits → File → Vm File
  paged_out s b file = record s { swapmap = b; swapfile = file }

  pub record PagedOut (s : Vm File) (r : Option (Option ℕ × Vm File)) : Type 0 where
    pub offset : Option ℕ
    pub bits : Bits
    pub file : File
    pub gives : r ≡ some (offset, paged_out s bits file)
    pub slots : IsMap bits

  pub record PagedIn (s : Vm File) (r : Option (Vm File)) : Type 0 where
    pub memory : ℕ → Page
    pub gives : r ≡ some (record s { physmem = memory })

  -- Page `v` is no longer valid, and the swap map is in order.
  pub record Evicted (v : ℕ) (s : Vm File) (r : Option (Vm File)) : Type 0 where
    pub entry : Pte
    pub bits : Bits
    pub file : File
    pub clean : ℕ
    pub dirty : ℕ
    pub gives :
        r
        ≡ some (record (paged_out s bits file) {
          pgtbl = update s.pgtbl v entry;
          evict_clean_count = clean;
          evict_dirty_count = dirty;
        })
    pub gone : has pg_valid entry.frame ≡ false
    pub slots : IsMap bits

  -- Frame `i` is page `p`'s, whose entry is still to be written.
  pub record Claimed (p i : ℕ) (s : Vm File) : Type 0 where
    pub pending : Pending p i s.memsize s.pgdir s.pgtbl s.coremap
    pub used : (s.coremap i).in_use ≡ true
    pub back : (s.coremap i).pte ≡ some p
    pub table : s.pgdir (p / 4096) ≡ true
    pub fifo_in : s.first_in < s.memsize
    pub clock_in : s.clock_current_index < s.memsize
    pub slots : IsMap s.swapmap

  pub record Allocated (p : ℕ) (s : Vm File) (r : Option (ℕ × Vm File)) : Type 0 where
    pub frame : ℕ
    pub after : Vm File
    pub gives : r ≡ some (frame, after)
    pub claimed : Claimed p frame after
    pub swap_off : (after.pgtbl p).swap_off ≡ (s.pgtbl p).swap_off
    pub trace : after.trace ≡ s.trace

module _ {File : Type 0} (io : FileOps File) where
  write_page-PagedOut :
      (frame offset : ℕ) (s : Vm File)
      → IsMap s.swapmap
      → PagedOut s (some (write_page io frame offset s))
  unfolding write_page
  write_page-PagedOut frame offset s m = elim (Bool-cases (ltb offset (2 ^ 31))) [
    | inl small ↦
        let (file, whole) = io.write s.swapfile offset (s.physmem frame) in
        record {
          offset = if whole then some offset else none;
          bits = s.swapmap;
          file = file;
          gives = rw (write_page, small) refl;
          slots = m;
        }
    | inr large ↦ record {
      offset = none;
      bits = s.swapmap;
      file = s.swapfile;
      gives = rw (write_page, large) refl;
      slots = m;
    }
  ]

  pub swap_pageout-PagedOut :
      (frame : ℕ) (o : Option ℕ) (s : Vm File)
      → IsMap s.swapmap
      → PagedOut s (swap_pageout io frame o s)
  unfolding swap_pageout
  swap_pageout-PagedOut frame (some o) s m = write_page-PagedOut frame o s m
  swap_pageout-PagedOut frame none s m =
      by_result (bitmap_alloc s.swapmap) refl (bitmap_alloc-Promises s.swapmap m)
    where
      by_result :
          (a : Allocation)
          → bitmap_alloc s.swapmap ≡ a
          → Promises s.swapmap a
          → PagedOut s (swap_pageout io frame none s)
      by_result (allocated idx b) e h =
          let r =
            write_page-PagedOut frame (idx * simpagesize % 2 ^ 32) (record s { swapmap = b })
              h.valid in
          rw (swap_pageout, e)
            (record {
              offset = r.offset;
              bits = r.bits;
              file = r.file;
              gives = r.gives;
              slots = r.slots;
            })
      by_result full e h =
          rw (swap_pageout, e)
            (record { offset = none; bits = s.swapmap; file = s.swapfile; gives = refl; slots = m })
      by_result failed e h = absurd h

  pub swap_pagein-PagedIn :
      (frame : ℕ) (o : Option ℕ) (offset : ℕ) (s : Vm File)
      → o ≡ some offset
      → PagedIn s (swap_pagein io frame o s)
  unfolding swap_pagein
  swap_pagein-PagedIn frame o offset s at = record {
    memory = update s.physmem frame (io.read s.swapfile offset (s.physmem frame));
    gives = rw (at, swap_pagein) refl;
  }

module _ {File : Type 0} (io : FileOps File) (alg : Algorithm File) where
  pub evict_page-Evicted :
      (frame v : ℕ) (s : Vm File) → IsMap s.swapmap → Evicted v s (evict_page io alg frame v s)
  unfolding evict_page
  evict_page-Evicted frame v s m = elim (Bool-cases (has pg_dirty (s.pgtbl v).frame)) [
    | inl e ↦
        let r = swap_pageout-PagedOut io frame (s.pgtbl v).swap_off s m in
        record {
          entry = record {
            frame = remove pg_valid (add pg_onswap (s.pgtbl v).frame);
            swap_off = r.offset;
          };
          bits = r.bits;
          file = r.file;
          clean = s.evict_clean_count;
          dirty = s.evict_dirty_count + 1;
          gives = rw (evict_page, e, r.gives) refl;
          gone = ground (arith, has-remove pg_valid pg_valid (add pg_onswap (s.pgtbl v).frame));
          slots = r.slots;
        }
    | inr e ↦ record {
      entry = record { frame = remove pg_valid (s.pgtbl v).frame; swap_off = (s.pgtbl v).swap_off };
      bits = s.swapmap;
      file = s.swapfile;
      clean = s.evict_clean_count + 1;
      dirty = s.evict_dirty_count;
      gives = rw (evict_page, e) refl;
      gone = ground (arith, has-remove pg_valid pg_valid (s.pgtbl v).frame);
      slots = m;
    }
  ]

  evict_for-Allocated :
      (p i : ℕ) (s : Vm File)
      → IsMapped s
      → IsMap s.swapmap
      → i < s.memsize
      → (s.coremap i).in_use ≡ true
      → has pg_valid (s.pgtbl p).frame ≡ false
      → s.pgdir (p / 4096) ≡ true
      → Allocated p s (evict_for io alg p (i, s))
  unfolding evict_for
  evict_for-Allocated p i s m slots inside used absent table =
      let h = m.map.frames i inside used in
      let r = evict_page-Evicted i h.page s slots in
      record {
        frame = i;
        after =
            (occupy io alg i p (record (paged_out s r.bits r.file) {
              pgtbl = update s.pgtbl h.page r.entry;
              evict_clean_count = r.clean;
              evict_dirty_count = r.dirty;
            })).1;
        gives = rw (evict_for, lt→ltb i s.memsize inside, h.points, r.gives) refl;
        claimed = record {
          pending = take_victim p i h.page r.entry _ m.map inside used h.points r.gone absent;
          used = ground arith;
          back = ground arith;
          table = table;
          fifo_in = m.fifo_in;
          clock_in = m.clock_in;
          slots = r.slots;
        };
        swap_off = ground (arith, h.valid, absent);
        trace = refl;
      }

  pub allocate_frame-Allocated :
      {Ready : ℕ → List ℕ → Type 0} (p : ℕ) (s : Vm File)
      → IsSound alg Ready
      → IsMapped s
      → IsMap s.swapmap
      → has pg_valid (s.pgtbl p).frame ≡ false
      → s.pgdir (p / 4096) ≡ true
      → Allocated p s (allocate_frame io alg p s)
  unfolding allocate_frame
  allocate_frame-Allocated p s sound m slots absent table =
      elim (Option-cases (find_free s.memsize 0 s.coremap)) [
        | inr (i, e) ↦
            let (inside, free) = find_free-some s.memsize 0 s.coremap i e in
            record {
              frame = i;
              after = (occupy io alg i p s).1;
              gives = rw (allocate_frame, e) refl;
              claimed = record {
                pending = take_free p i _ m.map (omega arith) free absent;
                used = ground arith;
                back = ground arith;
                table = table;
                fifo_in = m.fifo_in;
                clock_in = m.clock_in;
                slots = slots;
              };
              swap_off = refl;
              trace = refl;
            }
        | inl e ↦
            let all = find_free-none s.memsize 0 s.coremap e in
            let c = sound.evict s m (λ i lt. all i (omega arith) (omega arith)) in
            let r =
              evict_for-Allocated p c.frame c.after (SameMap-IsMapped c.same m)
                (rw c.same.swapmap slots) (omega (arith, c.inside, c.same.memsize))
                (rw (c.same.in_use c.frame) (all c.frame (omega arith) (omega (arith, c.inside))))
                (rw (SameMap-valid c.same p) absent) (rw c.same.pgdir table) in
            record {
              frame = r.frame;
              after = r.after;
              gives = rw (allocate_frame, e, c.gives) r.gives;
              claimed = r.claimed;
              swap_off = r.swap_off ∙ c.same.swap_off p;
              trace = r.trace ∙ c.trace;
            }
      ]
