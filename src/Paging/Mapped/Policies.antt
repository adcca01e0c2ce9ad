-- ===== src/Paging/Mapped/Policies.antt =====
-- The algorithms of the table in A3/sim.c: what they choose, and what they leave alone.
use csc369_uoft.Base.{
  ℕ, zero, suc, ◌+◌, ◌%◌, ◌≤◌, ◌<◌, refl, List, arith, inl, inr, length, lt→ltb, List-cases, update,
  if◌then◌else◌, ◌==◌,
}
use csc369_uoft.Base.Int.{ℤ, int32}
use csc369_uoft.Paging.{Frame, Vm}
use csc369_uoft.Paging.Flags.{frame_no}
use csc369_uoft.Paging.Fifo.{fifo, fifo_evict}
use csc369_uoft.Paging.Rand.{rand, rand_evict}
use csc369_uoft.Paging.Lru.{lru, lru_evict, lru_ref, least_from, set_recent}
use csc369_uoft.Paging.Opt.{opt, opt_evict, opt_ref, pop_list}
use csc369_uoft.Paging.Opt.Farthest.{opt_evict-IsFarthest}
use csc369_uoft.Paging.Mapped.Same.{SameMap-refl, changed-SameMap, IsSound}

-- What the algorithms but opt need of the trace: nothing.
abbrev pub Always : ℕ → List ℕ → Type 0
Always n trace = Unit {0}

-- What opt needs: a page of the trace for each reference.
abbrev pub Enough : ℕ → List ℕ → Type 0
Enough n trace = n ≤ length trace

least_from-lt :
    (n i : ℕ) (c : ℤ) (l m : ℕ) (coremap : ℕ → Frame)
    → i + n ≤ m
    → l < m
    → least_from n i c l coremap < m
unfolding least_from
least_from-lt zero i c l m coremap h k = k
least_from-lt (suc n) i c l m coremap h k = ground (
  arith,
  least_from-lt n (i + 1) (coremap i).recent i m coremap,
  least_from-lt n (i + 1) c l m coremap,
)

module _ {File : Type 0} where
  pub rand-IsSound : (random : Vm File → ℕ) → IsSound (rand random) Always
  unfolding rand_evict
  rand-IsSound random = record {
    evict = λ s m all. record {
      frame = random s % s.memsize;
      after = s;
      gives = rw (lt→ltb 0 s.memsize (omega (arith, m.fifo_in))) refl;
      inside = omega (arith, m.fifo_in);
      same = SameMap-refl s;
      trace = refl;
    };
    ref =
        λ n p s ready inside. record { after = s; gives = refl; same = SameMap-refl s; ready = tt };
  }

  pub fifo-IsSound : IsSound {File = File} fifo Always
  unfolding fifo_evict
  fifo-IsSound = record {
    evict = λ s m all. record {
      frame = s.first_in;
      after = _;
      gives = refl;
      inside = m.fifo_in;
      same =
          changed-SameMap s (if s.first_in + 1 == s.memsize then 0 else s.first_in + 1)
            s.clock_current_index s.counter s.coremap s.trace (λ h. ground arith) (λ h. h)
            (λ i. refl) (λ i. refl);
      trace = refl;
    };
    ref =
        λ n p s ready inside. record { after = s; gives = refl; same = SameMap-refl s; ready = tt };
  }

  pub lru-IsSound : IsSound {File = File} lru Always
  unfolding lru_evict lru_ref
  lru-IsSound = record {
    evict = λ s m all. record {
      frame = least_from s.memsize 0 (s.coremap 0).recent 0 s.coremap;
      after = s;
      gives = rw (lt→ltb 0 s.memsize (omega (arith, m.fifo_in))) refl;
      inside =
          least_from-lt s.memsize 0 (s.coremap 0).recent 0 s.memsize s.coremap (omega arith)
            (omega (arith, m.fifo_in));
      same = SameMap-refl s;
      trace = refl;
    };
    ref = λ n p s ready inside. record {
      after = _;
      gives = rw (lru_ref, lt→ltb _ _ inside) refl;
      same =
          changed-SameMap s s.first_in s.clock_current_index (s.counter + 1)
            (update s.coremap (frame_no (s.pgtbl p).frame)
              (set_recent (int32 s.counter) (s.coremap (frame_no (s.pgtbl p).frame))))
            s.trace (λ h. h) (λ h. h) (λ i. ground arith) (λ i. ground arith);
      ready = tt;
    };
  }

  pub opt-IsSound : IsSound {File = File} opt Enough
  unfolding opt_evict opt_ref pop_list
  opt-IsSound = record {
    evict = λ s m all.
        let (i, e, inside, far) = opt_evict-IsFarthest s (omega (arith, m.fifo_in)) in
        record {
          frame = i;
          after = s;
          gives = e;
          inside = inside;
          same = SameMap-refl s;
          trace = refl;
        };
    ref = λ n p s ready inside. elim (List-cases s.trace) [
      | inl e ↦ absurd (ground (arith, ready, e))
      | inr (x, rest, e) ↦ record {
        after = record s { trace = rest };
        gives = rw (opt_ref, pop_list, e) refl;
        same =
            changed-SameMap s s.first_in s.clock_current_index s.counter s.coremap rest (λ h. h)
              (λ h. h) (λ i. refl) (λ i. refl);
        ready = ground (arith, e, ready);
      }
    ];
  }
