-- ===== src/Paging/Main/Runs.antt =====
-- A whole run of A3/sim.c, from the options to the report.
use csc369_uoft.Base.{
  ℕ, ◌+◌, ◌-◌, ◌^◌, ◌≤◌, ◌<◌, ◌≡◌, refl, true, false, List, Option, some, arith, ◌⊎◌, inl, inr,
}
use csc369_uoft.Base.Texts.{same_text}
use csc369_uoft.Paging.{Vm}
use csc369_uoft.Paging.Swap.{Held, swap_destroy, bitmap_destroy}
use csc369_uoft.Paging.Opt.{Line}
use csc369_uoft.Paging.Sim.Counts.{references, replay_trace-More}
use csc369_uoft.Paging.Mapped.Replay.{InRange, Loses, replay_trace-Ends}
use csc369_uoft.Paging.Print.Tables.{print_pagedirectory-reads}
use csc369_uoft.Paging.Main.{
  Library, Args, Functions, Report, Ending, crashed, finished, nothing_held, hold_trace,
  find_functions, algs, opt_name, open_trace, report_of, simulate,
}
use csc369_uoft.Paging.Main.Start.{IsStart, Fits}

module _ {File : Type 0} (lib : Library File) where
  -- The run ends with a report on `n` references, each a hit or a miss, and with the swap file closed
  -- and removed and its bitmap freed.
  pub record Reported (n : ℕ) (r : Ending × Held) : Type 0 where
    pub report : Report
    pub held : Held
    pub gives : r ≡ (finished report, held)
    pub closed : held.swapfd ≡ false
    pub removed : held.swapfile ≡ false
    pub freed : held.swapmap ≡ false
    pub refs : report.references ≡ n
    pub counts : report.hits + report.misses ≡ n

  -- The run stops in the replay, at a page that is marked as on swap and has no place there, and
  -- the swap file stays.
  pub record Stopped (f : Functions File) (lines : List Line) (r : Ending × Held) : Type 0 where
    pub start : Vm File
    pub begins : IsStart start
    pub loses : Loses lib.io f.algorithm lines 0 start
    pub held : Held
    pub gives : r ≡ (crashed, held)
    pub left : held.swapfile ≡ true

  pub simulate-Reported :
      (f : Functions File) (tracefile : Option (List ℕ)) (lines : List Line) (h : Held)
      (s : Vm File)
      → h.swapfile ≡ true
      → Fits f tracefile lines
      → IsStart s
      → InRange lines
      → Reported (references lines) (simulate lib f tracefile lines h s)
        ⊎ Stopped f lines (simulate lib f tracefile lines h s)
  unfolding simulate swap_destroy bitmap_destroy
  simulate-Reported f tracefile lines h s made fits at_start small =
      let (t, e, start, enough) = fits.begin s at_start in
      elim (replay_trace-Ends lib.io f.algorithm fits.sound lines 0 t start.mapped start.slots small
        enough) [
          | inr lost ↦ inr (record {
            start = t;
            begins = start;
            loses = lost;
            held = record h { traces = h.traces + f.traces };
            gives = rw (simulate, e, lost.stops) refl;
            left = made;
          })
          | inl r ↦
              let (directory, rest, print, reads) = print_pagedirectory-reads r.after in
              let (both, refs) =
                replay_trace-More lib.io f.algorithm fits.keeps lines 0 t r.printed r.after
                  r.gives in
              inl (record {
                report = report_of lib r.printed directory r.after;
                held = swap_destroy (record h { traces = h.traces + f.traces });
                gives = rw (simulate, e, r.gives, print) refl;
                closed = refl;
                removed = refl;
                freed = refl;
                refs = omega (arith, refs, start.refs);
                counts = omega (arith, both, start.hits, start.misses);
              })
        ]

  abbrev with_swap : Held → Held
  with_swap h = record h { fname = true; swapfile = true; swapfd = true; swapmap = true }

  -- What is held when the algorithm begins.
  abbrev at_begin : Option (List ℕ) → Held
  at_begin tracefile =
      with_swap (record (hold_trace lib tracefile nothing_held) { coremap = true; physmem = true })

  -- The options ask for a run that the machine has room for.
  pub record IsRun (a : Args) (lines : List Line) : Type 0 where
    pub some_memory : 0 < a.memsize
    pub memory_fits : a.memsize ≤ 2 ^ 19
    pub swap_fits : a.swapsize ≤ 2 ^ 32 - 32
    pub name : List ℕ
    pub named : a.replacement_alg ≡ some name
    pub known : (f : Functions File) × (find_functions name (algs lib) ≡ some f)
    pub reads : same_text opt_name name ≡ true → (path : List ℕ) × (a.tracefile ≡ some path)
    pub opens : open_trace lib a.tracefile ≡ some lines
    pub in_range : InRange lines
