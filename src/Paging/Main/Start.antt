-- ===== src/Paging/Main/Start.antt =====
-- The state in which `main` of A3/sim.c begins the replay, with each algorithm of its table.
use csc369_uoft.Base.{
  ℕ, zero, suc, ◌+◌, ◌/◌, ◌^◌, ◌≤◌, ◌<◌, ◌≡◌, ◌∙◌, sym, subst, refl, true, List, [], ◌∷◌, ◌++◌,
  Option, some, arith, Bool-cases, some_inj, inl, inr, update, length, length-append,
}
use csc369_uoft.Base.Int.{negsuc}
use csc369_uoft.Base.Texts.{same_text}
use csc369_uoft.Paging.{Page, Frame, Vm}
use csc369_uoft.Paging.Flags.{has}
use csc369_uoft.Paging.Bitmap.Alloc.{IsMap}
use csc369_uoft.Paging.Clock.{clock_init}
use csc369_uoft.Paging.Lru.{lru_init, reset_recent, set_recent}
use csc369_uoft.Paging.Opt.{Line, comment, reference, opt_init, add_lines, init_list}
use csc369_uoft.Paging.Sim.Counts.{references, KeepsCounts}
use csc369_uoft.Paging.Sim.Policies.{
  fifo-KeepsCounts, rand-KeepsCounts, clock-KeepsCounts, lru-KeepsCounts, opt-KeepsCounts,
}
use csc369_uoft.Paging.Mapped.Same.{IsMapped, changed-SameMap, SameMap-IsMapped, IsSound}
use csc369_uoft.Paging.Mapped.Policies.{
  Always, Enough, fifo-IsSound, rand-IsSound, lru-IsSound, opt-IsSound,
}
use csc369_uoft.Paging.Mapped.Hand.{clock-IsSound}
use csc369_uoft.Paging.Main.{
  Library, ready, Functions, initial, opt_name, open_trace, find_functions, init_opt, algs,
}

reset_recent-keeps :
    (n i : ℕ) (coremap : ℕ → Frame) (j : ℕ)
    → ((reset_recent n i coremap j).in_use ≡ (coremap j).in_use)
      × ((reset_recent n i coremap j).pte ≡ (coremap j).pte)
unfolding reset_recent
reset_recent-keeps zero i coremap j = (refl, refl)
reset_recent-keeps (suc n) i coremap j =
    ground
      (arith, reset_recent-keeps n (i + 1) (update coremap i (set_recent (negsuc 0) (coremap i))) j)

module _ {File : Type 0} where
  -- A state before the first reference, with its memory mapped.
  pub record IsStart (s : Vm File) : Type 0 where
    pub mapped : IsMapped s
    pub slots : IsMap s.swapmap
    pub hits : s.hit_count ≡ 0
    pub misses : s.miss_count ≡ 0
    pub refs : s.ref_count ≡ 0

  -- The functions of an algorithm, which begin a replay of `lines` and are sound.
  pub record Fits (f : Functions File) (tracefile : Option (List ℕ)) (lines : List Line)
      : Type 1 where
    pub Ready : ℕ → List ℕ → Type 0
    pub sound : IsSound f.algorithm Ready
    pub keeps : KeepsCounts f.algorithm
    pub begin :
        (s : Vm File)
        → IsStart s
        → (t : Vm File) × (f.init tracefile s ≡ ready t)
          × IsStart t
          × Ready (references lines) t.trace

  pub initial-IsMapped :
      (memsize : ℕ) (memory : ℕ → Page) (file : File)
      → 0 < memsize
      → memsize ≤ 2 ^ 19
      → IsMapped (initial memsize memory file)
  unfolding has
  initial-IsMapped memsize memory file lo hi = record {
    map = record {
      small = hi;
      pages = λ v h. absurd (ground (arith, h));
      frames = λ i lt h. absurd (ground (arith, h));
      tables = λ v h. absurd (ground (arith, h));
    };
    fifo_in = lo;
    clock_in = lo;
  }

  lru_init-IsMapped : (s : Vm File) → IsMapped s → IsMapped (lru_init s)
  unfolding lru_init
  lru_init-IsMapped s m =
      SameMap-IsMapped
        (changed-SameMap s s.first_in s.clock_current_index 0 (reset_recent s.memsize 0 s.coremap)
          s.trace (λ h. h) (λ h. h) (λ i. (reset_recent-keeps s.memsize 0 s.coremap i).0)
          (λ i. (reset_recent-keeps s.memsize 0 s.coremap i).1))
        m

  -- Each line that is a reference is a page of the trace.
  length-add_lines :
      (lines : List Line) (s : Vm File)
      → length (add_lines lines s).trace ≡ length s.trace + references lines
  unfolding add_lines
  length-add_lines [] s = omega arith
  length-add_lines (comment ∷ lines) s = length-add_lines lines s
  length-add_lines (reference w vaddr ∷ lines) s =
      length-add_lines lines (record s { trace = s.trace ++ vaddr / 4096 ∷ [] })
      ∙ omega (arith, length-append s.trace (vaddr / 4096 ∷ []))

  add_lines-same :
      (lines : List Line) (s : Vm File)
      → add_lines lines s ≡ record s { trace = (add_lines lines s).trace }
  unfolding add_lines
  add_lines-same [] s = refl
  add_lines-same (comment ∷ lines) s = add_lines-same lines s
  add_lines-same (reference w vaddr ∷ lines) s =
      add_lines-same lines (record s { trace = s.trace ++ vaddr / 4096 ∷ [] })

  with_trace : (l : List ℕ) (s : Vm File) → IsStart s → IsStart (record s { trace = l })
  with_trace l s h = record {
    mapped = record {
      map = h.mapped.map;
      fifo_in = h.mapped.fifo_in;
      clock_in = h.mapped.clock_in;
    };
    slots = h.slots;
    hits = h.hits;
    misses = h.misses;
    refs = h.refs;
  }

  add_lines-IsStart :
      (lines : List Line) (s : Vm File) → IsStart s → IsStart (add_lines lines (init_list s))
  add_lines-IsStart lines s h =
      subst IsStart (sym (add_lines-same lines (init_list s)))
        (with_trace (add_lines lines (init_list s)).trace s h)

  lru_init-IsStart : (s : Vm File) → IsStart s → IsStart (lru_init s)
  unfolding lru_init
  lru_init-IsStart s h = record {
    mapped = lru_init-IsMapped s h.mapped;
    slots = h.slots;
    hits = h.hits;
    misses = h.misses;
    refs = h.refs;
  }

  clock_init-IsStart : (s : Vm File) → IsStart s → IsStart (clock_init s)
  unfolding clock_init
  clock_init-IsStart s h = record {
    mapped = record {
      map = h.mapped.map;
      fifo_in = h.mapped.fifo_in;
      clock_in = omega (arith, h.mapped.fifo_in);
    };
    slots = h.slots;
    hits = h.hits;
    misses = h.misses;
    refs = h.refs;
  }

module _ {File : Type 0} (P : Functions File → Type 1) (name : List ℕ) where
  -- `P` holds of each of the functions that the name may find.
  abbrev Each : List (Functions File) → Type 1
  Each [] = Unit
  Each (f ∷ fs) = (same_text f.name name ≡ true → P f) × Each fs

  found :
      (fs : List (Functions File)) (f : Functions File)
      → Each fs
      → find_functions name fs ≡ some f
      → P f
  unfolding find_functions
  found [] f all e = cc
  found (g ∷ fs) f all e = elim (Bool-cases (same_text g.name name)) [
    | inl b ↦ subst P (some_inj g f (rw (find_functions, b) at e)) (all.0 b)
    | inr b ↦ found fs f all.1 (rw (find_functions, b) at e)
  ]

module _ {File : Type 0} (lib : Library File) (tracefile : Option (List ℕ)) (lines : List Line)
    (opens : open_trace lib tracefile ≡ some lines) where
  opt_begin :
      (s : Vm File)
      → IsStart s
      → (path : List ℕ) × (tracefile ≡ some path)
      → (t : Vm File) × (init_opt lib tracefile s ≡ ready t)
        × IsStart t
        × Enough (references lines) t.trace
  unfolding init_opt opt_init open_trace
  opt_begin s h (path, named) =
      let from : lib.lines_of path ≡ some lines = ground (arith, opens, named) in
      (
        add_lines lines (init_list s),
        rw (named, init_opt, opt_init, from) refl,
        add_lines-IsStart lines s h,
        omega (arith, length-add_lines lines (init_list s)),
      )

  -- An algorithm that asks nothing of the trace.
  plain :
      {f : Functions File}
      → IsSound f.algorithm Always
      → KeepsCounts f.algorithm
      → ((s : Vm File) → IsStart s → (t : Vm File) × (f.init tracefile s ≡ ready t) × IsStart t)
      → Fits f tracefile lines
  plain sound keeps begin = record {
    Ready = Always;
    sound = sound;
    keeps = keeps;
    begin = λ s h. let (t, e, k) = begin s h in (t, e, k, tt);
  }

  -- Each of the five algorithms, as the table's search finds it by name, is sound and leaves the
  -- counters alone, and its init function begins from a mapped state with all that a replay of the
  -- trace asks of it; opt where a trace file is given.
  pub find_functions-Fits :
      (name : List ℕ) (f : Functions File)
      → (same_text opt_name name ≡ true → (path : List ℕ) × (tracefile ≡ some path))
      → find_functions name (algs lib) ≡ some f
      → Fits f tracefile lines
  find_functions-Fits name f named e =
      found (λ g. Fits g tracefile lines) name (algs lib) f
        (
          (λ b.
              plain (rand-IsSound lib.random) (rand-KeepsCounts lib.random) (λ s h. (s, refl, h))),
          (
            (λ b.
                plain lru-IsSound lru-KeepsCounts
                  (λ s h. (lru_init s, refl, lru_init-IsStart s h))),
            (
              (λ b. plain fifo-IsSound fifo-KeepsCounts (λ s h. (s, refl, h))),
              (
                (λ b.
                    plain clock-IsSound clock-KeepsCounts
                      (λ s h. (clock_init s, refl, clock_init-IsStart s h))),
                (
                  (λ b. record {
                    Ready = Enough;
                    sound = opt-IsSound;
                    keeps = opt-KeepsCounts;
                    begin = λ s h. opt_begin s h (named b);
                  }),
                  tt,
                ),
              ),
            ),
          ),
        )
        e
