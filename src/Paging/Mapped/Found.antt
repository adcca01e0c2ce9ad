-- ===== src/Paging/Mapped/Found.antt =====
-- `find_physpage` of A3/pagetable.c on a state whose pages are mapped, with any algorithm that is sound.
use csc369_uoft.Base.{
  ℕ, suc, ◌+◌, ◌/◌, ◌^◌, ◌<◌, ◌≡◌, ◌∙◌, refl, Bool, true, false, Option, some, List, arith,
  Bool-cases, inl, inr, lt→ltb, if◌then◌else◌,
}
use csc369_uoft.Paging.{FileOps, Vm}
use csc369_uoft.Paging.Flags.{pg_valid, pg_dirty, pg_ref, has, add, frame_no, has-add, frame_no-add}
use csc369_uoft.Paging.Bitmap.Alloc.{IsMap}
use csc369_uoft.Paging.Table.{
  Algorithm, set_frame, init_second_level, touch, resolve, find_physpage,
}
use csc369_uoft.Paging.Mapped.{settle}
use csc369_uoft.Paging.Mapped.Same.{IsMapped, IsSound, SameMap-IsMapped, SameMap-valid}
use csc369_uoft.Paging.Mapped.Resolve.{
  HasOffset, Resolved, set_frame-Claimed, init_second_level-IsMapped, resolve-Resolved,
}
use csc369_uoft.Paging.Mapped.Claim.{Claimed}

-- The word that `find_physpage` leaves in an entry.
abbrev touched : (is_write : Bool) → ℕ → ℕ
touched is_write w = let v = add pg_ref (add pg_valid w) in if is_write then add pg_dirty v else v

touched-valid : (is_write : Bool) (w : ℕ) → has pg_valid (touched is_write w) ≡ true
touched-valid true w = ground (
  arith,
  has-add pg_valid pg_dirty (add pg_ref (add pg_valid w)),
  has-add pg_valid pg_ref (add pg_valid w),
  has-add pg_valid pg_valid w,
)
touched-valid false w =
    ground (arith, has-add pg_valid pg_ref (add pg_valid w), has-add pg_valid pg_valid w)

touched-dirty :
    (is_write : Bool) (w : ℕ) → is_write ≡ true → has pg_dirty (touched is_write w) ≡ true
touched-dirty true w e = ground (arith, has-add pg_dirty pg_dirty (add pg_ref (add pg_valid w)))
touched-dirty false w e = cc

touched-number : (is_write : Bool) (w : ℕ) → frame_no (touched is_write w) ≡ frame_no w
touched-number true w =
    frame_no-add pg_dirty (add pg_ref (add pg_valid w))
    ∙ frame_no-add pg_ref (add pg_valid w)
    ∙ frame_no-add pg_valid w
touched-number false w = frame_no-add pg_ref (add pg_valid w) ∙ frame_no-add pg_valid w

module _ {File : Type 0} where
  -- Frame `i` holds page `p`, the page is valid, and dirty after a write, and the pages are mapped.
  pub record ServedIn (Ready : ℕ → List ℕ → Type 0) (n p : ℕ) (is_write : Bool) (i : ℕ)
      (t : Vm File) : Type 0 where
    pub inside : i < t.memsize
    pub back : (t.coremap i).pte ≡ some p
    pub number : frame_no (t.pgtbl p).frame ≡ i
    pub valid : has pg_valid (t.pgtbl p).frame ≡ true
    pub dirty : is_write ≡ true → has pg_dirty (t.pgtbl p).frame ≡ true
    pub mapped : IsMapped t
    pub slots : IsMap t.swapmap
    pub ready : Ready n t.trace

  pub record Served (Ready : ℕ → List ℕ → Type 0) (n p : ℕ) (is_write : Bool)
      (r : Option (ℕ × Vm File)) : Type 0 where
    pub frame : ℕ
    pub after : Vm File
    pub gives : r ≡ some (frame, after)
    pub held : ServedIn Ready n p is_write frame after

  record Touched (Ready : ℕ → List ℕ → Type 0) (n p : ℕ) (is_write : Bool) (i : ℕ)
      (r : Option (Vm File)) : Type 0 where
    pub after : Vm File
    pub gives : r ≡ some after
    pub held : ServedIn Ready n p is_write i after

module _ {File : Type 0} (io : FileOps File) (alg : Algorithm File) {Ready : ℕ → List ℕ → Type 0}
    (sound : IsSound alg Ready) where
  touch-Touched :
      (n p i : ℕ) (is_write : Bool) (s : Vm File)
      → Claimed p i s
      → frame_no (s.pgtbl p).frame ≡ i
      → Ready (suc n) s.trace
      → Touched Ready n p is_write i (touch io alg p is_write s)
  unfolding touch
  touch-Touched n p i is_write s c number ready =
      let w = touched is_write (s.pgtbl p).frame in
      let u = record (set_frame p w s) { ref_count = s.ref_count + 1 } in
      let d = set_frame-Claimed p i w s c in
      let valid : has pg_valid (u.pgtbl p).frame ≡ true =
        ground (arith, touched-valid is_write (s.pgtbl p).frame) in
      let named : frame_no (u.pgtbl p).frame ≡ i =
        ground (arith, touched-number is_write (s.pgtbl p).frame, number) in
      let r = sound.ref n p u ready (omega (arith, named, c.pending.inside)) in
      let m : IsMapped u = record {
        map = settle d.pending d.used d.back valid named d.table;
        fifo_in = c.fifo_in;
        clock_in = c.clock_in;
      } in
      record {
        after = r.after;
        gives = r.gives;
        held = record {
          inside = omega (arith, r.same.memsize, c.pending.inside);
          back = r.same.pte i ∙ c.back;
          number = r.same.number p ∙ named;
          valid = SameMap-valid r.same p ∙ valid;
          dirty = λ e.
              r.same.flags pg_dirty p (λ k. cc)
              ∙ ground (arith, touched-dirty is_write (s.pgtbl p).frame e);
          mapped = SameMap-IsMapped r.same m;
          slots = rw r.same.swapmap c.slots;
          ready = r.ready;
        };
      }

  -- The reference once the table is there.
  record Walked (n p vaddr : ℕ) (is_write : Bool) (s : Vm File) : Type 0 where
    pub entry : Resolved p s (resolve io alg p vaddr s)
    pub last : Touched Ready n p is_write entry.frame (touch io alg p is_write entry.after)

  walk :
      (n p vaddr : ℕ) (is_write : Bool) (s : Vm File)
      → IsMapped s
      → IsMap s.swapmap
      → s.pgdir (p / 4096) ≡ true
      → HasOffset s p
      → Ready (suc n) s.trace
      → Walked n p vaddr is_write s
  walk n p vaddr is_write s m slots table offset ready =
      let r = resolve-Resolved io alg sound p vaddr s m slots table offset in
      record {
        entry = r;
        last = touch-Touched n p r.frame is_write r.after r.claimed r.number (rw r.trace ready);
      }

  -- With an algorithm that is sound, on a state whose pages are mapped to its frames, for an
  -- address below 2^36 whose page, if it is on swap and not in memory, has its place in the swap
  -- file: `find_physpage` returns, with a frame of memory that holds the page, the page valid,
  -- named by its entry, and dirty after a write, and with the pages mapped and the swap map in
  -- order.
  pub find_physpage-Served :
      (n vaddr : ℕ) (is_write : Bool) (s : Vm File)
      → IsMapped s
      → IsMap s.swapmap
      → vaddr < 2 ^ 36
      → (s.pgdir (vaddr / 4096 / 4096) ≡ true → HasOffset s (vaddr / 4096))
      → Ready (suc n) s.trace
      → Served Ready n (vaddr / 4096) is_write (find_physpage io alg vaddr is_write s)
  unfolding find_physpage init_second_level has
  find_physpage-Served n vaddr is_write s m slots small offset ready =
      let idx = vaddr / 4096 / 4096 in
      let inside = lt→ltb idx 4096 (omega arith) in
      elim (Bool-cases (s.pgdir idx)) [
        | inl there ↦
            let k = walk n (vaddr / 4096) vaddr is_write s m slots there (offset there) ready in
            record {
              frame = k.entry.frame;
              after = k.last.after;
              gives =
                  rw (find_physpage, inside, there, k.entry.gives, k.last.gives, k.last.held.number)
                    refl;
              held = k.last.held;
            }
        | inr new ↦
            let s' = init_second_level idx s in
            let k =
              walk n (vaddr / 4096) vaddr is_write s' (init_second_level-IsMapped idx s m new) slots
                (ground arith) (λ absent on. absurd (ground (arith, on))) ready in
            record {
              frame = k.entry.frame;
              after = k.last.after;
              gives =
                  rw (find_physpage, inside, new, k.entry.gives, k.last.gives, k.last.held.number)
                    refl;
              held = k.last.held;
            }
      ]
