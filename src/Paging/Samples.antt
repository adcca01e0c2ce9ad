-- ===== src/Paging/Samples.antt =====
-- Small states for the runs of the model of A3.
use csc369_uoft.Base.{ℕ, ◌+◌, ◌*◌, true, false, List, [], ◌∷◌, some, none, ◌==◌, if◌then◌else◌}
use csc369_uoft.Base.Int.{pos}
use csc369_uoft.Paging.{Page, FileOps, Vm}
use csc369_uoft.Paging.Opt.{comment, reference}
use csc369_uoft.Paging.Main.{Library, Choice, opt_m, opt_f, opt_a, opt_name}

-- Three frames with pages 5, 6 and 7, of which page 6 has its reference bit clear.
abbrev pub memory : Vm (List Page)
memory = record {
  memsize = 3;
  pgdir = λ i. i == 0;
  pgtbl = λ v. record {
    frame = if v == 5 then 5 else if v == 6 then 4097 else if v == 7 then 8197 else 0;
    swap_off = none;
  };
  coremap = λ i. record { in_use = true; pte = some (i + 5); recent = pos (i * 4) };
  physmem = λ i. record { version = 0; checkaddr = (i + 5) * 4096 };
  swapmap = record { nbits = 32; v = 3 ∷ [] };
  swapfile = [];
  hit_count = 0;
  miss_count = 0;
  ref_count = 0;
  evict_clean_count = 0;
  evict_dirty_count = 0;
  first_in = 1;
  clock_current_index = 0;
  counter = 9;
  trace = 5 ∷ 7 ∷ 6 ∷ [];
}

-- A file that holds nothing.
abbrev pub no_file : FileOps (List Page)
no_file = record { read = λ file offset old. old; write = λ file offset page. (file, false) }

-- A file of pages, kept as a list of the writes to it, the last one first.
abbrev pub find_page : List (ℕ × Page) → ℕ → Page → Page
find_page [] offset old = old
find_page ((at, page) ∷ file) offset old = if at == offset then page else find_page file offset old

abbrev pub list_file : FileOps (List (ℕ × Page))
list_file = record { read = find_page; write = λ file offset page. ((offset, page) ∷ file, true) }

-- A machine with 2 frames, for which every number is 2, with a file of two references.
abbrev pub machine : Library (List Page)
machine = record {
  strtoul = λ text. 2;
  lines_of = λ path. some (reference true 20480 ∷ comment ∷ reference false 36864 ∷ []);
  input = [];
  mkstemp = some [];
  malloc_succeeds = true;
  memory = λ i. record { version = 7; checkaddr = 7 };
  random = λ s. 5;
  io = no_file;
}

-- `sim -m 2 -f t -a opt`
abbrev pub options : List Choice
options = opt_m (50 ∷ []) ∷ opt_f (116 ∷ []) ∷ opt_a opt_name ∷ []
