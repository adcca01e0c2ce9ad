-- ===== src/Paging/Tests/Programs.antt =====
-- Whole runs of the model of A3, and pages in its swap file.
use csc369_uoft.Base.{ℕ, ◌≡◌, refl, true, false, List, [], ◌∷◌, some, none, arith}
use csc369_uoft.Paging.{Page, Vm}
use csc369_uoft.Paging.Bitmap.{words_of, bitmap_alloc}
use csc369_uoft.Paging.Opt.{comment, reference}
use csc369_uoft.Paging.Bitmap
use csc369_uoft.Paging.Opt.{opt}
use csc369_uoft.Base.Texts.{same_text}
use csc369_uoft.Paging.Main.{Args, opt_name, init_opt, find_functions, open_trace}
use csc369_uoft.Paging.Main.Start.{Fits, find_functions-Fits}
use csc369_uoft.Paging.Main.Runs.{IsRun}
use csc369_uoft.Paging.Disk.{NewSlot, swap_pageout-NewSlot}
use csc369_uoft.Paging.Swap.{swap_pageout, write_page}
use csc369_uoft.Paging.Samples.{memory, list_file, machine}
use csc369_uoft.Paging.Tests.{lines, memory-IsMap}

-- The run of the options on the machine, and the functions that it finds.
abbrev args : Args
args = record {
  tracefile = some (116 ∷ []);
  memsize = 2;
  replacement_alg = some opt_name;
  swapsize = 4096;
}

opt_run : IsRun machine args (reference true 20480 ∷ comment ∷ reference false 36864 ∷ [])
unfolding find_functions same_text open_trace
opt_run = record {
  some_memory = omega arith;
  memory_fits = omega arith;
  swap_fits = omega arith;
  name = opt_name;
  named = refl;
  known = (record { name = opt_name; init = init_opt machine; algorithm = opt; traces = 1 }, refl);
  reads = λ b. (116 ∷ [], refl);
  opens = refl;
  in_range = (omega arith, (omega arith, tt));
}

find_functions-Fits_example :
    Fits
      (record { name = opt_name; init = init_opt machine; algorithm = opt; traces = 1 })
      args.tracefile
      lines
unfolding opt_run
find_functions-Fits_example =
    find_functions-Fits machine args.tracefile lines opt_run.opens opt_name _ opt_run.reads
      opt_run.known.1

-- A page-out of frame 1, which has no place in the file yet.
abbrev disk : Vm (List (ℕ × Page))
disk = record {
  memsize = 3;
  pgdir = memory.pgdir;
  pgtbl = memory.pgtbl;
  coremap = memory.coremap;
  physmem = memory.physmem;
  swapmap = memory.swapmap;
  swapfile = [];
  hit_count = 0;
  miss_count = 0;
  ref_count = 0;
  evict_clean_count = 0;
  evict_dirty_count = 0;
  first_in = 1;
  clock_current_index = 0;
  counter = 9;
  trace = [];
}

abbrev stored : Vm (List (ℕ × Page))
stored = record disk {
  swapmap = record { nbits = 32; v = 7 ∷ [] };
  swapfile = (32, memory.physmem 1) ∷ [];
}

store_run : swap_pageout list_file 1 none disk ≡ some (some 32, stored)
unfolding swap_pageout bitmap_alloc words_of write_page Bitmap.alloc_from Bitmap.alloc_in
    Bitmap.alloc_at Bitmap.find_offset
store_run = refl

swap_pageout-NewSlot_example : NewSlot list_file disk 32 stored
swap_pageout-NewSlot_example =
    swap_pageout-NewSlot list_file 1 disk 32 stored memory-IsMap (omega arith) store_run
