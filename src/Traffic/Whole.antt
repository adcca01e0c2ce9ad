-- ===== src/Traffic/Whole.antt =====
-- `main` and `verify` of A2/traffic.c: the four lanes with their eight threads and the quadrants together.
-- A step of a thread that does not hold its lane's lock past its test is one of `System`; `car_cross`
-- past its test takes the quadrants of the first car one by one, moves the car, gives them back one by
-- one, and leaves.
pub mod Invariant
pub mod Ends
pub mod Bound
pub mod Verify
pub mod Apart
use csc369_uoft.Base.{
  ℕ, zero, suc, ◌+◌, ◌<◌, ◌≡◌, ◌≢◌, Bool, List, [], ◌∷◌, ◌++◌, Option, none, some, get_elem?,
  update,
}
use csc369_uoft.Traffic.{Direction, Car, Lane}
use csc369_uoft.Traffic.Buffer.{init_lane, cross}
use csc369_uoft.Traffic.Schedule.{Lanes}
use csc369_uoft.Traffic.Route.{compute_path, quads}
use csc369_uoft.Traffic.System.{idle, inside, Threads, signal, Step, start}
use csc369_uoft.Traffic.Crossing.{Crossing}

-- Where `car_cross` stands past its test: before `compute_path`, at the locks, or at the unlocks.
pub data Phase : Type 0 where
  outside locking unlocking : Phase

-- The lanes by the number of their direction, with their threads. The mutexes of the quadrants are
-- held by the `car_cross` of a lane.
pub record Whole : Type 0 where
  pub lanes : ℕ → Threads
  pub crossing : Crossing
  pub phase : ℕ → Phase

-- A step in lane `i`.
pub data Move (spurious : Bool) (i : ℕ) (s t : Whole) : Type 0 where
  lane_step :
      {u : Threads}
      → (s.lanes i).crosser ≢ inside
      → Step spurious (s.lanes i) u
      → t ≡ record s { lanes = update s.lanes i u }
      → Move spurious i s t
  -- compute_path, for the first car of the buffer
  take_path :
      (c : Car)
      → s.phase i ≡ outside
      → (s.lanes i).crosser ≡ inside
      → get_elem? (s.lanes i).lane.buffer (s.lanes i).lane.head ≡ some (some c)
      → t ≡ record s {
        crossing = record (s.crossing) {
          wanted = update s.crossing.wanted i (quads (compute_path c.in_dir c.out_dir));
        };
        phase = update s.phase i locking;
      }
      → Move spurious i s t
  lock_quad :
      (q : ℕ) (rest : List ℕ)
      → s.phase i ≡ locking
      → s.crossing.wanted i ≡ q ∷ rest
      → s.crossing.quad q ≡ none
      → t ≡ record s {
        crossing = record {
          quad = update s.crossing.quad q (some i);
          held = update s.crossing.held i (q ∷ s.crossing.held i);
          wanted = update s.crossing.wanted i rest;
        };
      }
      → Move spurious i s t
  -- the car moves to `out_cars`
  pass_car :
      {l : Lane}
      → s.phase i ≡ locking
      → s.crossing.wanted i ≡ []
      → cross (s.lanes i).lane ≡ some l
      → t ≡ record s {
        lanes = update s.lanes i (record (s.lanes i) { lane = l });
        phase = update s.phase i unlocking;
      }
      → Move spurious i s t
  unlock_quad :
      (q : ℕ) (rest : List ℕ)
      → s.phase i ≡ unlocking
      → s.crossing.held i ≡ q ∷ rest
      → t ≡ record s {
        crossing = record (s.crossing) {
          quad = update s.crossing.quad q none;
          held = update s.crossing.held i rest;
        };
      }
      → Move spurious i s t
  -- signal, unlock the lane
  leave :
      s.phase i ≡ unlocking
      → s.crossing.held i ≡ []
      → t ≡ record s {
        lanes = update s.lanes i (record {
          lane = (s.lanes i).lane;
          arriver = signal (s.lanes i).arriver;
          crosser = idle;
        });
        phase = update s.phase i outside;
      }
      → Move spurious i s t

-- A run of `n` steps, each in one of the four lanes.
pub data Moves (spurious : Bool) (s : Whole) : ℕ → Whole → Type 0 where
  at_start : Moves spurious s 0 s
  then_move :
      {n : ℕ} {t u : Whole} (i : ℕ)
      → i < 4
      → Moves spurious s n t
      → Move spurious i t u
      → Moves spurious s (suc n) u

-- The lane with this number; a lane past the fourth stands empty.
abbrev pub numbered : Lanes → ℕ → Lane
numbered s zero = s.north_lane
numbered s (suc zero) = s.west_lane
numbered s (suc (suc zero)) = s.south_lane
numbered s (suc (suc (suc zero))) = s.east_lane
numbered s (suc (suc (suc (suc n)))) = init_lane

-- `main` once the threads are made.
abbrev pub start_threads : Lanes → Whole
start_threads s = record {
  lanes = λ i. start (numbered s i);
  crossing = record { quad = λ q. none; held = λ j. []; wanted = λ j. [] };
  phase = λ i. outside;
}

-- A line of `verify`.
pub data Output : Type 0 where
  dashes equals : Output
  car_line : (in_dir out_dir : Direction) → (id : ℕ) → Output

-- The loop over the cars of a lane.
unfoldable pub car_lines : List Car → List Output
car_lines [] = []
car_lines (c ∷ cs) = car_line c.in_dir c.out_dir c.id ∷ car_lines cs

-- The loop over the lanes, from lane `i` with `n` rounds left.
unfoldable pub lane_lines : ℕ → ℕ → (ℕ → Threads) → List Output
lane_lines zero i lanes = []
lane_lines (suc n) i lanes = car_lines (lanes i).lane.out_cars ++ lane_lines n (i + 1) lanes

unfoldable pub verify : Whole → List Output
verify s = dashes ∷ lane_lines 4 0 s.lanes ++ equals ∷ []
