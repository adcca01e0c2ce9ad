-- ===== src/Paging/Sim/Policies.antt =====
-- The algorithms of A3/sim.c's table and the counters.
use csc369_uoft.Base.{ℕ, zero, suc, ◌≡◌, some, arith, Option-cases, inl, inr}
use csc369_uoft.Paging.{Vm}
use csc369_uoft.Paging.Flags.{pg_ref, remove}
use csc369_uoft.Paging.Table.{set_frame}
use csc369_uoft.Paging.Sim.Counts.{Counted, KeepsCounts}
use csc369_uoft.Paging.Fifo.{fifo, fifo_evict}
use csc369_uoft.Paging.Rand.{rand, rand_evict}
use csc369_uoft.Paging.Clock.{clock, clock_evict, clock_from, next_index}
use csc369_uoft.Paging.Lru.{lru, lru_evict, lru_ref}
use csc369_uoft.Paging.Opt.{opt, opt_evict, opt_ref, pop_list}

module _ {File : Type 0} where
  clock_from-counts :
      (n : ℕ) (s : Vm File) (i : ℕ) (t : Vm File) → clock_from n s ≡ some (i, t) → Counted 0 0 0 s t
  unfolding clock_from
  clock_from-counts zero s i t e = ground arith
  clock_from-counts (suc n) s i t e = elim (Option-cases (s.coremap s.clock_current_index).pte) [
    | inl x ↦ ground (arith, e, x)
    | inr (v, x) ↦
        let u =
          set_frame v (remove pg_ref (s.pgtbl v).frame)
            (record s { clock_current_index = next_index s.memsize s.clock_current_index }) in
        elim (Option-cases (clock_from n u)) [
          | inl y ↦ ground (arith, e, x, y)
          | inr ((j, w), y) ↦ ground (arith, e, x, y, clock_from-counts n u j w y)
        ]
  ]

  pub fifo-KeepsCounts : KeepsCounts {File = File} fifo
  unfolding fifo_evict
  fifo-KeepsCounts = record {
    ref = λ p s t e. ground (arith, e);
    evict = λ s i t e. ground (arith, e);
  }

  pub rand-KeepsCounts : (random : Vm File → ℕ) → KeepsCounts (rand random)
  unfolding rand_evict
  rand-KeepsCounts random = record {
    ref = λ p s t e. ground (arith, e);
    evict = λ s i t e. ground (arith, e);
  }

  pub clock-KeepsCounts : KeepsCounts {File = File} clock
  unfolding clock_evict
  clock-KeepsCounts = record {
    ref = λ p s t e. ground (arith, e);
    evict = λ s i t e. clock_from-counts (suc s.memsize) s i t e;
  }

  pub lru-KeepsCounts : KeepsCounts {File = File} lru
  unfolding lru_evict lru_ref
  lru-KeepsCounts = record {
    ref = λ p s t e. ground (arith, e);
    evict = λ s i t e. ground (arith, e);
  }

  pub opt-KeepsCounts : KeepsCounts {File = File} opt
  unfolding opt_evict opt_ref pop_list
  opt-KeepsCounts = record {
    ref = λ p s t e. ground (arith, e);
    evict = λ s i t e. ground (arith, e);
  }
