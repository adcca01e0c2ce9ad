-- ===== src/Traffic/System.antt =====
-- One lane with its two threads, `car_arrive` and `car_cross` of A2/cars.c: the steps that they take
-- in any order. Both test and change the buffer under the lane's lock only, so a step ends where
-- a thread gives the lock back, or holds it and has passed its test. The quadrants that `car_cross`
-- locks meanwhile are in `Crossing`.
use csc369_uoft.Base.{ℕ, suc, ◌≡◌, ◌≢◌, Bool, true, [], some}
use csc369_uoft.Traffic.{Lane}
use csc369_uoft.Traffic.Buffer.{arrive, cross}

-- Where a thread stands.
pub data Pc : Type 0 where
  idle : Pc  -- at the test of its `while`, or before it has the lock
  waiting : Pc  -- in `pthread_cond_wait`
  woken : Pc  -- signalled, and waits for the lock
  inside : Pc  -- past its `if`, with the lock

-- The lock is held exactly by a thread that is `inside`.
pub record Threads : Type 0 where
  pub lane : Lane
  pub arriver : Pc
  pub crosser : Pc

-- `pthread_cond_signal`: a thread that waits is woken.
unfoldable pub signal : Pc → Pc
signal idle = idle
signal waiting = woken
signal woken = woken
signal inside = inside

-- `spurious` says whether `pthread_cond_wait` may return without a signal.
pub data Step (spurious : Bool) (s t : Threads) : Type 0 where
  -- car_arrive: lock, and go past the `if`
  arrive_enter :
      s.arriver ≡ idle
      → s.lane.in_cars ≢ []
      → s.crosser ≢ inside
      → s.lane.in_buf ≢ s.lane.capacity
      → t ≡ record s { arriver = inside }
      → Step spurious s t
  -- car_arrive: lock, and wait for room
  arrive_wait :
      s.arriver ≡ idle
      → s.lane.in_cars ≢ []
      → s.crosser ≢ inside
      → s.lane.in_buf ≡ s.lane.capacity
      → t ≡ record s { arriver = waiting }
      → Step spurious s t
  arrive_wake :
      s.arriver ≡ woken → s.crosser ≢ inside → t ≡ record s { arriver = inside } → Step spurious s t
  -- car_arrive: put a car in the buffer, signal, unlock
  arrive_done :
      {l : Lane}
      → s.arriver ≡ inside
      → arrive s.lane ≡ some l
      → t ≡ record { lane = l; arriver = idle; crosser = signal s.crosser }
      → Step spurious s t
  -- car_cross, likewise
  cross_enter :
      s.crosser ≡ idle
      → s.lane.passed ≢ s.lane.inc
      → s.arriver ≢ inside
      → s.lane.in_buf ≢ 0
      → t ≡ record s { crosser = inside }
      → Step spurious s t
  cross_wait :
      s.crosser ≡ idle
      → s.lane.passed ≢ s.lane.inc
      → s.arriver ≢ inside
      → s.lane.in_buf ≡ 0
      → t ≡ record s { crosser = waiting }
      → Step spurious s t
  cross_wake :
      s.crosser ≡ woken → s.arriver ≢ inside → t ≡ record s { crosser = inside } → Step spurious s t
  cross_done :
      {l : Lane}
      → s.crosser ≡ inside
      → cross s.lane ≡ some l
      → t ≡ record { lane = l; arriver = signal s.arriver; crosser = idle }
      → Step spurious s t
  arrive_spurious :
      spurious ≡ true → s.arriver ≡ waiting → t ≡ record s { arriver = woken } → Step spurious s t
  cross_spurious :
      spurious ≡ true → s.crosser ≡ waiting → t ≡ record s { crosser = woken } → Step spurious s t

-- A run of `n` steps.
pub data Steps (spurious : Bool) (s : Threads) : ℕ → Threads → Type 0 where
  here : Steps spurious s 0 s
  next :
      {n : ℕ} {t u : Threads}
      → Steps spurious s n t
      → Step spurious t u
      → Steps spurious s (suc n) u

-- The two threads of a lane as `main` starts them.
abbrev pub start : Lane → Threads
start l = record { lane = l; arriver = idle; crosser = idle }
