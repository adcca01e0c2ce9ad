-- ===== src/Paging/Mapped/Resolve.antt =====
-- The entry of a page in `find_physpage` of A3/pagetable.c, on a state whose pages are mapped: after a
-- hit or a miss it names a frame that is the page's.
use csc369_uoft.Base.{
  ℕ, ◌+◌, ◌/◌, ◌≡◌, ◌∙◌, refl, true, false, Option, none, some, List, arith, Bool-cases, inl, inr,
}
use csc369_uoft.Paging.{FileOps, Vm}
use csc369_uoft.Paging.Flags.{
  pg_valid, pg_dirty, pg_onswap, has, add, frame_no, frame_word, frame_no-add, frame_no-frame_word,
}
use csc369_uoft.Paging.Bitmap.Alloc.{IsMap}
use csc369_uoft.Paging.Swap.{swap_pagein}
use csc369_uoft.Paging.Table.{Algorithm, set_frame, init_second_level, init_frame, miss, resolve}
use csc369_uoft.Paging.Mapped.{release_page, rewrite_entry}
use csc369_uoft.Paging.Mapped.Take.{add_table}
use csc369_uoft.Paging.Mapped.Same.{IsMapped, IsSound}
use csc369_uoft.Paging.Mapped.Claim.{Claimed, allocate_frame-Allocated, swap_pagein-PagedIn}

module _ {File : Type 0} where
  -- A page that is on swap and not in memory has its place in the swap file.
  abbrev pub HasOffset : Vm File → ℕ → Type 0
  HasOffset s p =
      has pg_valid (s.pgtbl p).frame ≡ false
      → has pg_onswap (s.pgtbl p).frame ≡ true
      → (o : ℕ) × ((s.pgtbl p).swap_off ≡ some o)

  -- Page `p` is marked as on swap, is not in memory, and its entry has no place in the swap file.
  pub record IsLost (s : Vm File) (p : ℕ) : Type 0 where
    pub table : s.pgdir (p / 4096) ≡ true
    pub absent : has pg_valid (s.pgtbl p).frame ≡ false
    pub sent : has pg_onswap (s.pgtbl p).frame ≡ true
    pub nowhere : (s.pgtbl p).swap_off ≡ none

  -- Page `p` has a frame, which its entry names.
  pub record Resolved (p : ℕ) (s : Vm File) (r : Option (Vm File)) : Type 0 where
    pub frame : ℕ
    pub after : Vm File
    pub gives : r ≡ some after
    pub claimed : Claimed p frame after
    pub number : frame_no (after.pgtbl p).frame ≡ frame
    pub trace : after.trace ≡ s.trace

  pub set_frame-Claimed : (p i w : ℕ) (s : Vm File) → Claimed p i s → Claimed p i (set_frame p w s)
  set_frame-Claimed p i w s c = record {
    pending = rewrite_entry _ c.pending;
    used = c.used;
    back = c.back;
    table = c.table;
    fifo_in = c.fifo_in;
    clock_in = c.clock_in;
    slots = c.slots;
  }

  pub init_second_level-IsMapped :
      (idx : ℕ) (s : Vm File)
      → IsMapped s
      → s.pgdir idx ≡ false
      → IsMapped (init_second_level idx s)
  unfolding init_second_level has
  init_second_level-IsMapped idx s m free = record {
    map = add_table idx _ m.map free (λ v h. ground arith) (λ v h. ground arith);
    fifo_in = m.fifo_in;
    clock_in = m.clock_in;
  }

module _ {File : Type 0} (io : FileOps File) (alg : Algorithm File) {Ready : ℕ → List ℕ → Type 0}
    (sound : IsSound alg Ready) where
  miss-Resolved :
      (p vaddr : ℕ) (s : Vm File)
      → IsMapped s
      → IsMap s.swapmap
      → has pg_valid (s.pgtbl p).frame ≡ false
      → s.pgdir (p / 4096) ≡ true
      → HasOffset s p
      → Resolved p s (miss io alg p vaddr s)
  unfolding miss init_frame
  miss-Resolved p vaddr s m slots absent table offset =
      let a = allocate_frame-Allocated io alg p s sound m slots absent table in
      let t = set_frame p (frame_word a.frame) a.after in
      let c = set_frame-Claimed p a.frame (frame_word a.frame) a.after a.claimed in
      let number : frame_no (frame_word a.frame) ≡ a.frame =
        frame_no-frame_word a.frame
          (omega (arith, a.claimed.pending.inside, a.claimed.pending.small)) in
      elim (Bool-cases (has pg_onswap (s.pgtbl p).frame)) [
        | inl on ↦
            let (o, at) = offset absent on in
            let r =
              swap_pagein-PagedIn io a.frame (a.after.pgtbl p).swap_off o t (a.swap_off ∙ at) in
            record {
              frame = a.frame;
              after = record t { physmem = r.memory };
              gives = rw (miss, a.gives, on) r.gives;
              claimed = record {
                pending = c.pending;
                used = c.used;
                back = c.back;
                table = c.table;
                fifo_in = c.fifo_in;
                clock_in = c.clock_in;
                slots = c.slots;
              };
              number = ground (arith, number);
              trace = a.trace;
            }
        | inr off ↦
            let u = init_frame a.frame vaddr t in
            let d = set_frame-Claimed p a.frame (add pg_dirty (t.pgtbl p).frame) t c in
            record {
              frame = a.frame;
              after = set_frame p (add pg_dirty (u.pgtbl p).frame) u;
              gives = rw (miss, a.gives, off) refl;
              claimed = record {
                pending = d.pending;
                used = d.used;
                back = d.back;
                table = d.table;
                fifo_in = d.fifo_in;
                clock_in = d.clock_in;
                slots = d.slots;
              };
              number = ground (arith, number, frame_no-add pg_dirty (frame_word a.frame));
              trace = a.trace;
            }
      ]

  pub resolve-Resolved :
      (p vaddr : ℕ) (s : Vm File)
      → IsMapped s
      → IsMap s.swapmap
      → s.pgdir (p / 4096) ≡ true
      → HasOffset s p
      → Resolved p s (resolve io alg p vaddr s)
  unfolding resolve
  resolve-Resolved p vaddr s m slots table offset =
      elim (Bool-cases (has pg_valid (s.pgtbl p).frame)) [
        | inl valid ↦
            let r = m.map.pages p valid in
            record {
              frame = frame_no (s.pgtbl p).frame;
              after = record s { hit_count = s.hit_count + 1 };
              gives = rw (resolve, valid) refl;
              claimed = record {
                pending = release_page m.map valid refl;
                used = r.used;
                back = r.back;
                table = table;
                fifo_in = m.fifo_in;
                clock_in = m.clock_in;
                slots = slots;
              };
              number = refl;
              trace = refl;
            }
        | inr absent ↦
            let u = record s { miss_count = s.miss_count + 1 } in
            let r =
              miss-Resolved p vaddr u
                (record { map = m.map; fifo_in = m.fifo_in; clock_in = m.clock_in }) slots absent
                table offset in
            record {
              frame = r.frame;
              after = r.after;
              gives = rw (resolve, absent) r.gives;
              claimed = r.claimed;
              number = r.number;
              trace = r.trace;
            }
      ]

  -- A page that is lost cannot be brought back: the assertion on its offset fails.
  pub resolve-lost :
      (p vaddr : ℕ) (s : Vm File)
      → IsMapped s
      → IsMap s.swapmap
      → IsLost s p
      → resolve io alg p vaddr s ≡ none
  unfolding resolve miss swap_pagein
  resolve-lost p vaddr s m slots lost =
      let u = record s { miss_count = s.miss_count + 1 } in
      let a =
        allocate_frame-Allocated io alg p u sound
          (record { map = m.map; fifo_in = m.fifo_in; clock_in = m.clock_in }) slots lost.absent
          lost.table in
      rw (resolve, lost.absent, miss, a.gives, lost.sent, a.swap_off, lost.nowhere) refl
