-- ===== src/Paging/Tests.antt =====
-- Runs of the model of A3 on a small memory.
mod Programs
use csc369_uoft.Base.{
  ℕ, ◌+◌, ◌-◌, ◌*◌, ◌++◌, ◌⊎◌, update, ◌<◌, ◌≡◌, refl, true, false, List, [], ◌∷◌, Option, some,
  none, arith, ◌==◌, if◌then◌else◌,
}
use csc369_uoft.Base.Int.{pos}
use csc369_uoft.Paging.{Bits, Page, FileOps, Vm}
use csc369_uoft.Paging.Bitmap.{words_of, bitmap_alloc}
use csc369_uoft.Paging.Bitmap.Alloc.{IsMap, is_set, Promises, bitmap_alloc-Promises}
use csc369_uoft.Paging.Bitmap.{bitmap_create}
use csc369_uoft.Paging.Bitmap.Create.{IsFresh, bitmap_create-IsFresh}
use csc369_uoft.Paging.Fifo.{nth_victim}
use csc369_uoft.Paging.Lru.{lru_evict}
use csc369_uoft.Paging.Lru.Least.{IsLeast, lru_evict-IsLeast}
use csc369_uoft.Paging.Clock.{clock_evict}
use csc369_uoft.Paging.Clock.Victim.{IsFull, IsVictim, clock_evict-IsVictim}
use csc369_uoft.Paging.Opt.{Line, comment, reference, opt_evict}
use csc369_uoft.Paging.Opt.Farthest.{IsFarthest, opt_evict-IsFarthest}
use csc369_uoft.Paging.Reload.{find_physpage-evict_page}
use csc369_uoft.Paging.Flags.{pg_valid, pg_onswap, has, frame_no, add, frame_word}
use csc369_uoft.Paging.Bitmap
use csc369_uoft.Paging.Swap
use csc369_uoft.Paging.Table
use csc369_uoft.Paging.Table.{Algorithm, find_physpage}
use csc369_uoft.Paging.Fifo.{fifo, fifo_evict}
use csc369_uoft.Paging.Sim.{access_mem, replay_trace}
use csc369_uoft.Paging.Sim.Counts.{More, replay_trace-More}
use csc369_uoft.Paging.Sim.Policies.{fifo-KeepsCounts}
use csc369_uoft.Paging.Opt.{opt}
use csc369_uoft.Paging.Mapped.Same.{IsMapped}
use csc369_uoft.Paging.Mapped.Found.{Served, find_physpage-Served}
use csc369_uoft.Paging.Mapped.Policies.{Enough, opt-IsSound}
use csc369_uoft.Base.Texts.{same_text}
use csc369_uoft.Paging.Mapped.Replay.{Ends, Loses, replay_trace-Ends}
use csc369_uoft.Paging.Print.{DirLine, EntryLine, print_pagedirectory, print_pagetbl}
use csc369_uoft.Paging.Print.Listing.{statuses, blanks, read_entries, print_pagetbl-reads}
use csc369_uoft.Paging.Print.Tables.{read_tables, places, print_pagedirectory-reads}
use csc369_uoft.Paging.Main.{
  Args, opt_name, init_opt, find_functions, open_trace, parse_options, no_args, main,
}
use csc369_uoft.Paging.Main.Start.{Fits, find_functions-Fits}
use csc369_uoft.Paging.Main.Runs.{IsRun, Reported, Stopped}
use csc369_uoft.Paging.Disk.{IsFile, Apart, NewSlot, swap_pageout-NewSlot}
use csc369_uoft.Paging.Swap.{swap_pagein, swap_pageout, write_page}
use csc369_uoft.Paging.Samples.{memory, no_file, list_file, find_page, machine, options}

lru_evict-IsLeast_example :
    (frame : ℕ) × (lru_evict memory ≡ some (frame, memory)) × IsLeast memory.coremap 3 frame
lru_evict-IsLeast_example = lru_evict-IsLeast memory (omega arith)

opt_evict-IsFarthest_example :
    (frame : ℕ) × (opt_evict memory ≡ some (frame, memory))
    × (frame < 3)
    × IsFarthest memory.physmem memory.trace 3 frame
opt_evict-IsFarthest_example = opt_evict-IsFarthest memory (omega arith)

memory-IsFull : IsFull memory
memory-IsFull = record {
  inside = omega arith;
  page = λ i h. (i + 5, refl);
  apart = λ i j v a b p q. ground arith;
}

clock_evict-IsVictim_example : IsVictim memory 3 (clock_evict memory)
clock_evict-IsVictim_example = clock_evict-IsVictim memory memory-IsFull

pub memory-IsMap : IsMap memory.swapmap
unfolding words_of is_set
memory-IsMap = record {
  words = refl;
  small = omega arith;
  word = λ i w e. ground arith;
  tail = λ j a b. ground arith;
}

bitmap_alloc-Promises_example : Promises memory.swapmap (bitmap_alloc memory.swapmap)
bitmap_alloc-Promises_example = bitmap_alloc-Promises memory.swapmap memory-IsMap

abbrev pub lines : List Line
lines = reference true 20480 ∷ comment ∷ reference false 36864 ∷ []

-- The state at the end of a replay.
abbrev state_of : Option (ℕ × Vm (List Page)) → Vm (List Page)
state_of none = memory
state_of (some (errors, s)) = s

abbrev replayed : Vm (List Page)
replayed = state_of (replay_trace no_file fifo lines 0 memory)

replay_run : replay_trace no_file fifo lines 0 memory ≡ some (0, replayed)
unfolding replay_trace access_mem find_physpage fifo_evict Table.resolve has Table.touch Table.miss
    Table.allocate_frame Table.find_free Table.evict_for Table.evict_page Table.init_frame frame_no
    add frame_word
replay_run = refl

-- The same memory with page 9 on swap.
abbrev swapped : Vm (List Page)
swapped = record memory {
  pgtbl = λ v. if v == 9 then record { frame = 8; swap_off = some 0 } else memory.pgtbl v;
}

abbrev frame_of : Option (ℕ × Vm (List Page)) → ℕ × Vm (List Page)
frame_of none = (0, memory)
frame_of (some r) = r

abbrev loaded : ℕ × Vm (List Page)
loaded = frame_of (find_physpage no_file fifo 36864 false swapped)

abbrev vm_of : Option (Vm (List Page)) → Vm (List Page)
vm_of none = memory
vm_of (some s) = s

abbrev evicted : Vm (List Page)
evicted = vm_of (Table.evict_page no_file fifo 1 9 loaded.1)

load_run : find_physpage no_file fifo 36864 false swapped ≡ some loaded
unfolding find_physpage Table.resolve has Table.touch Table.miss Table.allocate_frame
    Table.find_free Table.evict_for Table.evict_page Table.init_frame frame_no add frame_word
    fifo_evict Swap.swap_pagein
load_run = refl

evict_run : Table.evict_page no_file fifo 1 9 loaded.1 ≡ some evicted
unfolding find_physpage Table.evict_page has Table.resolve Table.miss Table.allocate_frame
    Table.find_free fifo_evict Table.evict_for Swap.swap_pagein Table.touch add frame_word
evict_run = refl

find_physpage-evict_page_example :
    (has pg_valid (evicted.pgtbl 9).frame ≡ false) × (has pg_onswap (evicted.pgtbl 9).frame ≡ false)
unfolding has
find_physpage-evict_page_example =
    find_physpage-evict_page no_file fifo 36864 swapped loaded.0 loaded.1 1 evicted
      (λ p s t e. ground (arith, e)) refl refl refl load_run evict_run

-- The memory with its swap map and its pages in order.
memory-IsMapped : IsMapped memory
unfolding has frame_no
memory-IsMapped = record {
  map = record {
    small = omega arith;
    pages = λ v h. record { inside = ground (arith, h); used = refl; back = ground (arith, h) };
    frames = λ i lt used. record {
      page = i + 5;
      points = refl;
      valid = ground (arith, lt);
      number = ground (arith, lt);
    };
    tables = λ v h. ground (arith, h);
  };
  fifo_in = omega arith;
  clock_in = omega arith;
}

find_physpage-Served_example : Served Enough 2 9 true (find_physpage no_file opt 36865 true memory)
unfolding has
find_physpage-Served_example =
    find_physpage-Served no_file opt opt-IsSound 2 36865 true memory memory-IsMapped memory-IsMap
      (omega arith) (λ there absent on. absurd (ground (arith, on))) (omega arith)

replay_trace-Ends_example : Ends no_file opt lines 0 memory ⊎ Loses no_file opt lines 0 memory
replay_trace-Ends_example =
    replay_trace-Ends no_file opt opt-IsSound lines 0 memory memory-IsMapped memory-IsMap
      (omega arith, (omega arith, tt)) (omega arith)

print_pagedirectory-reads_example :
    (l : List DirLine) × (rest : ℕ) × (print_pagedirectory memory ≡ some l)
    × (read_tables l ++ blanks none rest (4096 - rest) ≡ places 4096 0 memory.pgdir memory.pgtbl)
print_pagedirectory-reads_example = print_pagedirectory-reads memory
