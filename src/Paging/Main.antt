-- ===== src/Paging/Main.antt =====
-- `main` of A3/sim.c: the options, the table of algorithms, and the run. The C library's functions on
-- the arguments, the files and memory are a parameter.
pub mod Start
pub mod Runs
use csc369_uoft.Base.{
  ℕ, ◌+◌, ◌%◌, ◌^◌, Bool, true, false, List, [], ◌∷◌, Option, none, some, if◌then◌else◌,
}
use csc369_uoft.Base.Int.{pos}
use csc369_uoft.Base.Texts.{same_text}
use csc369_uoft.Paging.{Page, FileOps, Vm}
use csc369_uoft.Paging.Swap.{Held, swap_init, swap_destroy}
use csc369_uoft.Paging.Table.{Algorithm, init_pagetable}
use csc369_uoft.Paging.Fifo.{fifo}
use csc369_uoft.Paging.Rand.{rand}
use csc369_uoft.Paging.Clock.{clock, clock_init}
use csc369_uoft.Paging.Lru.{lru, lru_init}
use csc369_uoft.Paging.Opt.{Line, opt, opt_init}
use csc369_uoft.Paging.Sim.{replay_trace}
use csc369_uoft.Paging.Print.{DirLine, print_pagedirectory}

-- An option as `getopt` reports it, with its argument; `opt_other` is any other result.
pub data Choice : Type 0 where
  opt_f opt_m opt_a opt_s : (optarg : List ℕ) → Choice
  opt_other : Choice

-- What the options set.
pub record Args : Type 0 where
  pub tracefile : Option (List ℕ)
  pub memsize : ℕ
  pub replacement_alg : Option (List ℕ)
  pub swapsize : ℕ

-- The C library. `lines_of` is what `fopen`, `fgets` and `sscanf` make of a file, `none` if it does
-- not open; `memory` is what `malloc` leaves in the frames.
pub record Library (File : Type 0) : Type 0 where
  pub strtoul : List ℕ → ℕ
  pub lines_of : List ℕ → Option (List Line)
  pub input : List Line
  pub mkstemp : Option File
  pub malloc_succeeds : Bool
  pub memory : ℕ → Page
  pub random : Vm File → ℕ
  pub io : FileOps File

-- The result of an `init_fcn`: a state, the end of the program, or undefined behaviour.
pub data Init (File : Type 0) : Type 0 where
  ready : Vm File → Init File
  no_trace : Init File
  undefined : Init File

-- `struct functions`, with how many trace files `init` opens
pub record Functions (File : Type 0) : Type 0 where
  pub name : List ℕ
  pub init : (tracefile : Option (List ℕ)) → Vm File → Init File
  pub algorithm : Algorithm File
  pub traces : ℕ

-- What `main` prints at the end, less the two rates, which are floating-point numbers.
pub record Report : Type 0 where
  pub errors : ℕ
  pub directory : List DirLine
  pub hits : ℕ
  pub misses : ℕ
  pub clean : ℕ
  pub dirty : ℕ
  pub references : ℕ

pub data Ending : Type 0 where
  usage cannot_open no_swap invalid_algorithm crashed : Ending
  finished : Report → Ending

abbrev pub no_args : Args
no_args = record { tracefile = none; memsize = 0; replacement_alg = none; swapsize = 4096 }

abbrev pub nothing_held : Held
nothing_held = record {
  traces = 0;
  coremap = false;
  physmem = false;
  fname = false;
  swapfile = false;
  swapfd = false;
  swapmap = false;
}

-- The loop over the options; `none` is the message on usage.
unfoldable pub parse_options : (strtoul : List ℕ → ℕ) → List Choice → Args → Option Args
parse_options strtoul [] a = some a
parse_options strtoul (opt_f optarg ∷ rest) a =
    parse_options strtoul rest (record a { tracefile = some optarg })
parse_options strtoul (opt_m optarg ∷ rest) a =
    parse_options strtoul rest (record a { memsize = strtoul optarg % 2 ^ 32 })
parse_options strtoul (opt_a optarg ∷ rest) a =
    parse_options strtoul rest (record a { replacement_alg = some optarg })
parse_options strtoul (opt_s optarg ∷ rest) a =
    parse_options strtoul rest (record a { swapsize = strtoul optarg % 2 ^ 32 })
parse_options strtoul (opt_other ∷ rest) a = none

module _ {File : Type 0} where
  -- The globals, with `coremap` and `physmem` allocated; the entries of the tables that are not there
  -- are zero, and the swap file and its map are `swap_init`'s to set.
  abbrev pub initial : ℕ → (ℕ → Page) → File → Vm File
  initial memsize memory file = record {
    memsize = memsize;
    pgdir = λ i. false;
    pgtbl = λ v. record { frame = 0; swap_off = none };
    coremap = λ i. record { in_use = false; pte = none; recent = pos 0 };
    physmem = memory;
    swapmap = record { nbits = 0; v = [] };
    swapfile = file;
    hit_count = 0;
    miss_count = 0;
    ref_count = 0;
    evict_clean_count = 0;
    evict_dirty_count = 0;
    first_in = 0;
    clock_current_index = 0;
    counter = 0;
    trace = [];
  }

  -- The search of the table by name.
  unfoldable pub find_functions : List ℕ → List (Functions File) → Option (Functions File)
  find_functions name [] = none
  find_functions name (f ∷ fs) = if same_text f.name name then some f else find_functions name fs

-- The name opt.
abbrev pub opt_name : List ℕ
opt_name = 111 ∷ 112 ∷ 116 ∷ []

module _ {File : Type 0} (lib : Library File) where
  -- `opt_init` on the global `tracefile`; to open the null pointer is undefined.
  unfoldable pub init_opt : Option (List ℕ) → Vm File → Init File
  init_opt none s = undefined
  init_opt (some path) s = elim (opt_init (lib.lines_of path) s) [
    | none ↦ no_trace
    | some t ↦ ready t
  ]

  -- `algs`, with the names rand, lru, fifo, clock and opt
  abbrev pub algs : List (Functions File)
  algs =
      record {
        name = 114 ∷ 97 ∷ 110 ∷ 100 ∷ [];
        init = λ f s. ready s;
        algorithm = rand lib.random;
        traces = 0;
      }
      ∷ record {
        name = 108 ∷ 114 ∷ 117 ∷ [];
        init = λ f s. ready (lru_init s);
        algorithm = lru;
        traces = 0;
      }
      ∷ record {
        name = 102 ∷ 105 ∷ 102 ∷ 111 ∷ [];
        init = λ f s. ready s;
        algorithm = fifo;
        traces = 0;
      }
      ∷ record {
        name = 99 ∷ 108 ∷ 111 ∷ 99 ∷ 107 ∷ [];
        init = λ f s. ready (clock_init s);
        algorithm = clock;
        traces = 0;
      }
      ∷ record { name = opt_name; init = init_opt; algorithm = opt; traces = 1 }
      ∷ []

  -- The file that is replayed.
  unfoldable pub open_trace : Option (List ℕ) → Option (List Line)
  open_trace none = some lib.input
  open_trace (some path) = lib.lines_of path

  -- What `main` prints of the state at the end.
  abbrev pub report_of : ℕ → List DirLine → Vm File → Report
  report_of errors directory s = record {
    errors = errors;
    directory = directory;
    hits = s.hit_count;
    misses = s.miss_count;
    clean = s.evict_clean_count;
    dirty = s.evict_dirty_count;
    references = s.ref_count;
  }

  -- What `main` holds once it has the file.
  unfoldable pub hold_trace : Option (List ℕ) → Held → Held
  hold_trace none h = h
  hold_trace (some path) h = record h { traces = h.traces + 1 }

  -- From the call of `init_fcn` on. The list of opt is left out of what is held.
  unfoldable pub simulate :
      Functions File → Option (List ℕ) → List Line → Held → Vm File → Ending × Held
  simulate f tracefile lines h s = elim (f.init tracefile s) [
    | no_trace ↦ (cannot_open, h)
    | undefined ↦ (crashed, h)
    | ready t ↦
        let h' = record h { traces = h.traces + f.traces } in
        elim (replay_trace lib.io f.algorithm lines 0 t) [
          | none ↦ (crashed, h')
          | some (errors, u) ↦ elim (print_pagedirectory u) [
            | none ↦ (crashed, h')
            | some directory ↦ (finished (report_of errors directory u), swap_destroy h')
          ]
        ]
  ]

  -- From the choice of the algorithm on.
  unfoldable pub choose : Args → List Line → Held → Vm File → Ending × Held
  choose a lines h s = elim a.replacement_alg [
    | none ↦ (usage, h)
    | some name ↦ elim (find_functions name algs) [
      | none ↦ (invalid_algorithm, h)
      | some f ↦ simulate f a.tracefile lines h s
    ]
  ]

  -- From the calls that allocate the data structures on.
  unfoldable pub set_up : Args → List Line → Held → Ending × Held
  set_up a lines h =
      let h' = record h { coremap = true; physmem = true } in
      elim lib.mkstemp [
        | none ↦ (no_swap, record h' { fname = true })
        | some file ↦
            let (held, begun) =
              swap_init lib.io lib.malloc_succeeds (some file) a.swapsize h'
                (initial a.memsize lib.memory file) in
            elim begun [ none ↦ (no_swap, held) | some s ↦ choose a lines held (init_pagetable s) ]
      ]

  -- How the program ends, and what it still holds then.
  unfoldable pub main : List Choice → Ending × Held
  main choices = elim (parse_options lib.strtoul choices no_args) [
    | none ↦ (usage, nothing_held)
    | some a ↦ elim (open_trace a.tracefile) [
      | none ↦ (cannot_open, nothing_held)
      | some lines ↦ set_up a lines (hold_trace a.tracefile nothing_held)
    ]
  ]
