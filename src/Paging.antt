-- ===== src/Paging.antt =====
-- A3: the state of the virtual memory simulator, its globals in one record.
-- A page is named by its number, the virtual address without its low 12 bits: 12 bits of index into
-- the page directory, then 12 bits of index into a second-level table.
pub mod Flags
pub mod Bitmap
pub mod Swap
pub mod Table
pub mod Fifo
pub mod Rand
pub mod Clock
pub mod Lru
pub mod Opt
pub mod Sim
pub mod Reload
pub mod Mapped
pub mod Main
pub mod Print
pub mod Disk
mod Samples
mod Tests
use csc369_uoft.Base.{ℕ, Bool, List, Option}
use csc369_uoft.Base.Int.{ℤ}

-- `pgtbl_entry_t`: the frame number above 12 status bits, and the offset in the swap file, `none` for
-- INVALID_SWAP.
pub record Pte : Type 0 where
  pub frame : ℕ
  pub swap_off : Option ℕ

-- `struct frame`. `pte` points to the entry of a page, `none` for the null pointer.
pub record Frame : Type 0 where
  pub in_use : Bool
  pub pte : Option ℕ
  pub recent : ℤ

-- One simulated page frame of SIMPAGESIZE bytes: the version counter in its first 4 bytes, and the
-- address kept for error checking in the next 8. The last 4 are zero and never read.
pub record Page : Type 0 where
  pub version : ℕ
  pub checkaddr : ℕ

-- `struct bitmap`
pub record Bits : Type 0 where
  pub nbits : ℕ
  pub v : List ℕ

-- What the system calls do with the swap file: `lseek` and `read`, or `lseek` and `write`, of one
-- page at a byte offset. `read` says what is then in the frame that the page is read to, in place of the
-- page that was there before; `write` what the file is then, and whether the whole page was written.
pub record FileOps (File : Type 0) : Type 0 where
  pub read : File → ℕ → Page → Page
  pub write : File → ℕ → Page → File × Bool

-- The globals of pagetable.c, swap.c, sim.c and of the replacement algorithms.
pub record Vm (File : Type 0) : Type 0 where
  pub memsize : ℕ
  -- `pgdir`: whether an entry of the directory has its table
  pub pgdir : ℕ → Bool
  -- the entries of all tables, by page number
  pub pgtbl : ℕ → Pte
  pub coremap : ℕ → Frame
  pub physmem : ℕ → Page
  pub swapmap : Bits
  pub swapfile : File
  pub hit_count : ℕ
  pub miss_count : ℕ
  pub ref_count : ℕ
  pub evict_clean_count : ℕ
  pub evict_dirty_count : ℕ
  -- fifo.c
  pub first_in : ℕ
  -- clock.c
  pub clock_current_index : ℕ
  -- lru.c
  pub counter : ℕ
  -- opt.c: the pages that the trace has still to reference
  pub trace : List ℕ
