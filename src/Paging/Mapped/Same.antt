-- ===== src/Paging/Mapped/Same.antt =====
-- What `find_physpage` of A3/pagetable.c asks of a replacement algorithm: to choose a frame of memory,
-- and to leave the map of pages to frames alone.
use csc369_uoft.Base.{ℕ, suc, ◌<◌, ◌≡◌, ◌≢◌, ◌∙◌, refl, true, Option, some, List, arith}
use csc369_uoft.Paging.{Frame, Vm}
use csc369_uoft.Paging.Flags.{Flag, pg_valid, pg_ref, has, frame_no}
use csc369_uoft.Paging.Table.{Algorithm}
use csc369_uoft.Paging.Mapped.{Mapped}

valid_not_ref : pg_valid ≢ pg_ref
valid_not_ref e = cc

module _ {File : Type 0} where
  -- The map of the state's pages to its frames, and the cursors of fifo.c and clock.c in range.
  pub record IsMapped (s : Vm File) : Type 0 where
    pub map : Mapped s.memsize s.pgdir s.pgtbl s.coremap
    pub fifo_in : s.first_in < s.memsize
    pub clock_in : s.clock_current_index < s.memsize

  -- `t` is `s` but for reference bits, times of use, and the algorithm's own cursors.
  pub record SameMap (s t : Vm File) : Type 0 where
    pub memsize : t.memsize ≡ s.memsize
    pub pgdir : t.pgdir ≡ s.pgdir
    pub in_use : (i : ℕ) → (t.coremap i).in_use ≡ (s.coremap i).in_use
    pub pte : (i : ℕ) → (t.coremap i).pte ≡ (s.coremap i).pte
    pub flags : (f : Flag) (v : ℕ) → f ≢ pg_ref → has f (t.pgtbl v).frame ≡ has f (s.pgtbl v).frame
    pub number : (v : ℕ) → frame_no (t.pgtbl v).frame ≡ frame_no (s.pgtbl v).frame
    pub swap_off : (v : ℕ) → (t.pgtbl v).swap_off ≡ (s.pgtbl v).swap_off
    pub physmem : t.physmem ≡ s.physmem
    pub swapmap : t.swapmap ≡ s.swapmap
    pub swapfile : t.swapfile ≡ s.swapfile
    pub fifo_in : s.first_in < s.memsize → t.first_in < t.memsize
    pub clock_in : s.clock_current_index < s.memsize → t.clock_current_index < t.memsize

  -- A victim: a frame of memory, chosen without changing the map or the trace.
  pub record Chosen (s : Vm File) (r : Option (ℕ × Vm File)) : Type 0 where
    pub frame : ℕ
    pub after : Vm File
    pub gives : r ≡ some (frame, after)
    pub inside : frame < s.memsize
    pub same : SameMap s after
    pub trace : after.trace ≡ s.trace

  -- The result of `ref`, after which the trace has at least `n` pages where it must.
  pub record Noted (Ready : ℕ → List ℕ → Type 0) (n : ℕ) (s : Vm File) (r : Option (Vm File))
      : Type 0 where
    pub after : Vm File
    pub gives : r ≡ some after
    pub same : SameMap s after
    pub ready : Ready n after.trace

  -- `Ready n` is what the algorithm needs of the trace that is left, for `n` references more.
  pub record IsSound (alg : Algorithm File) (Ready : ℕ → List ℕ → Type 0) : Type 0 where
    pub evict :
        (s : Vm File)
        → IsMapped s
        → ((i : ℕ) → i < s.memsize → (s.coremap i).in_use ≡ true)
        → Chosen s (alg.evict s)
    pub ref :
        (n p : ℕ) (s : Vm File)
        → Ready (suc n) s.trace
        → frame_no (s.pgtbl p).frame < s.memsize
        → Noted Ready n s (alg.ref p s)

  pub SameMap-refl : (s : Vm File) → SameMap s s
  SameMap-refl s = record {
    memsize = refl;
    pgdir = refl;
    in_use = λ i. refl;
    pte = λ i. refl;
    flags = λ f v h. refl;
    number = λ v. refl;
    swap_off = λ v. refl;
    physmem = refl;
    swapmap = refl;
    swapfile = refl;
    fifo_in = λ h. h;
    clock_in = λ h. h;
  }

  pub SameMap-trans : {s t u : Vm File} → SameMap s t → SameMap t u → SameMap s u
  SameMap-trans a b = record {
    memsize = b.memsize ∙ a.memsize;
    pgdir = b.pgdir ∙ a.pgdir;
    in_use = λ i. b.in_use i ∙ a.in_use i;
    pte = λ i. b.pte i ∙ a.pte i;
    flags = λ f v h. b.flags f v h ∙ a.flags f v h;
    number = λ v. b.number v ∙ a.number v;
    swap_off = λ v. b.swap_off v ∙ a.swap_off v;
    physmem = b.physmem ∙ a.physmem;
    swapmap = b.swapmap ∙ a.swapmap;
    swapfile = b.swapfile ∙ a.swapfile;
    fifo_in = λ h. b.fifo_in (a.fifo_in h);
    clock_in = λ h. b.clock_in (a.clock_in h);
  }

  -- Times of use, the cursors, the counter and the trace may change.
  pub changed-SameMap :
      (s : Vm File) (first hand count : ℕ) (frames : ℕ → Frame) (rest : List ℕ)
      → (s.first_in < s.memsize → first < s.memsize)
      → (s.clock_current_index < s.memsize → hand < s.memsize)
      → ((i : ℕ) → (frames i).in_use ≡ (s.coremap i).in_use)
      → ((i : ℕ) → (frames i).pte ≡ (s.coremap i).pte)
      → SameMap s (record s {
        first_in = first;
        clock_current_index = hand;
        counter = count;
        coremap = frames;
        trace = rest;
      })
  changed-SameMap s first hand count frames rest a b c d = record {
    memsize = refl;
    pgdir = refl;
    in_use = c;
    pte = d;
    flags = λ f v h. refl;
    number = λ v. refl;
    swap_off = λ v. refl;
    physmem = refl;
    swapmap = refl;
    swapfile = refl;
    fifo_in = a;
    clock_in = b;
  }

  pub SameMap-valid :
      {s t : Vm File}
      → SameMap s t
      → (v : ℕ) → has pg_valid (t.pgtbl v).frame ≡ has pg_valid (s.pgtbl v).frame
  SameMap-valid e v = e.flags pg_valid v valid_not_ref

  pub SameMap-IsMapped : {s t : Vm File} → SameMap s t → IsMapped s → IsMapped t
  SameMap-IsMapped {s} {t} e m = record {
    map = record {
      small = omega (arith, e.memsize, m.map.small);
      pages = λ v h.
          let r = m.map.pages v (rw (SameMap-valid e v) at h) in
          record {
            inside = omega (arith, e.number v, e.memsize, r.inside);
            used = rw (e.number v, e.in_use _) r.used;
            back = rw (e.number v, e.pte _) r.back;
          };
      frames = λ i lt h.
          let k = m.map.frames i (omega (arith, lt, e.memsize)) (rw (e.in_use i) at h) in
          record {
            page = k.page;
            points = rw (e.pte i) k.points;
            valid = rw (SameMap-valid e k.page) k.valid;
            number = rw (e.number k.page) k.number;
          };
      tables = λ v h. rw e.pgdir (m.map.tables v (rw (SameMap-valid e v) at h));
    };
    fifo_in = e.fifo_in m.fifo_in;
    clock_in = e.clock_in m.clock_in;
  }
