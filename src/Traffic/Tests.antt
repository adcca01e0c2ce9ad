-- ===== src/Traffic/Tests.antt =====
-- Runs of the model of A2/cars.c on a few cars.
mod Programs
use csc369_uoft.Base.{
  ℕ, ◌+◌, ◌≤◌, ◌≡◌, refl, true, false, List, [], ◌∷◌, ◌++◌, some, none, arith, replicate, reverse,
  length, contains, inr, update, set,
}
use csc369_uoft.Traffic.{north, south, east, Car, Lane}
use csc369_uoft.Traffic.Buffer.{init_lane, arrive, cross}
use csc369_uoft.Traffic.Route.{
  compute_path, quads, entry_quad, exit_quad, drive, compute_path-drive,
}
use csc369_uoft.Traffic.Schedule.{Lanes, init_intersection, lane_of, parse_schedule}
use csc369_uoft.Traffic.System.{
  idle, waiting, Threads, signal, Step, Steps, start, arrive_enter, arrive_wait, arrive_wake,
  arrive_done, cross_enter, cross_wait, cross_wake, cross_done, arrive_spurious, cross_spurious,
  here, next,
}
use csc369_uoft.Traffic.Invariant.{Inv, IsReady, start-Inv}
use csc369_uoft.Traffic.Progress.{conserved}
use csc369_uoft.Traffic.Spurious.{IsOverrun, spurious-IsOverrun}
use csc369_uoft.Traffic.Crossing.{
  Crossing, Advance, lock, begin, Reach, free, advanced, begun, quad_progress,
}
use csc369_uoft.Traffic.Ready.{coming}

abbrev car : ℕ → Car
car n = record { id = n; in_dir = north; out_dir = south }

-- A lane with one car to come.
abbrev one_lane : Lane
one_lane = record {
  in_cars = car 0 ∷ [];
  out_cars = [];
  inc = 1;
  passed = 0;
  buffer = replicate 10 none;
  head = 0;
  tail = 0;
  capacity = 10;
  in_buf = 0;
}

one_lane-IsReady : IsReady (car 0 ∷ []) one_lane
one_lane-IsReady = record {
  scheduled = refl;
  counted = refl;
  none_out = refl;
  none_passed = refl;
  empty = record {
    slots = refl;
    head_in = omega arith;
    count = refl;
    count_in = omega arith;
    tail_at = refl;
    held = tt;
  };
}

abbrev filled_lane : Lane
filled_lane = record one_lane {
  in_cars = [];
  buffer = set (replicate 10 none) 0 (some (car 0));
  tail = 1;
  in_buf = 1;
}

abbrev passed_lane : Lane
passed_lane = record filled_lane { out_cars = car 0 ∷ []; head = 1; passed = 1; in_buf = 0 }

arrive_run : arrive one_lane ≡ some filled_lane
unfolding arrive
arrive_run = refl

cross_run : cross filled_lane ≡ some passed_lane
unfolding cross
cross_run = refl

run : Steps false (start one_lane) 4 (start passed_lane)
unfolding signal
run =
    next
      (next
        (next
          (next here
            (arrive_enter refl (λ e. ground arith) (λ e. ground arith) (λ e. ground arith) refl))
          (arrive_done refl arrive_run refl))
        (cross_enter refl (λ e. ground arith) (λ e. ground arith) (λ e. ground arith) refl))
      (cross_done refl cross_run refl)

conserved_example : 0 + 0 + 1 ≡ 1
conserved_example = conserved {cars = car 0 ∷ []} {s = start one_lane} (start-Inv one_lane-IsReady)

abbrev schedule_of_three : List Car
schedule_of_three = car 0 ∷ record { id = 1; in_dir = east; out_dir = north } ∷ car 2 ∷ []

compute_path-drive_example :
    contains 3 (quads (compute_path north south))
    ≡ contains 3 (drive 3 (entry_quad north) (exit_quad south))
compute_path-drive_example = compute_path-drive north south 3 (λ e. cc) (λ e. cc) (λ e. cc)

abbrev three_lanes : Lanes
three_lanes = record {
  north_lane = record init_lane { in_cars = car 2 ∷ car 0 ∷ []; inc = 2 };
  west_lane = init_lane;
  south_lane = init_lane;
  east_lane = record init_lane {
    in_cars = record { id = 1; in_dir = east; out_dir = north } ∷ [];
    inc = 1;
  };
}

parse_run : parse_schedule schedule_of_three init_intersection ≡ some three_lanes
unfolding parse_schedule init_intersection init_lane
parse_run = refl

lane_run : lane_of north three_lanes ≡ some three_lanes.north_lane
unfolding lane_of
lane_run = refl

-- No quadrant is taken.
abbrev nobody : Crossing
nobody = record { quad = λ q. none; held = λ j. []; wanted = λ j. [] }

-- Thread 0 has a car from north to south, and has locked its first quadrant.
abbrev begun_state : Crossing
begun_state = record nobody { wanted = update nobody.wanted 0 (quads (compute_path north south)) }

abbrev locked_state : Crossing
locked_state = record {
  quad = update nobody.quad 2 (some 0);
  held = update nobody.held 0 (2 ∷ []);
  wanted = update begun_state.wanted 0 (3 ∷ []);
}

quads_run : quads (compute_path north south) ≡ 2 ∷ 3 ∷ []
unfolding quads compute_path
quads_run = refl

locked_state-Reach : Reach locked_state
locked_state-Reach =
    advanced {s = begun_state} {t = locked_state} 0
      (begun {s = nobody} {t = begun_state} 0 free
        (begin north south (λ e. cc) (λ e. cc) refl refl refl))
      (lock 2 (3 ∷ []) quads_run refl refl)

quad_progress_example : (j : ℕ) × (t : Crossing) × Advance j locked_state t
quad_progress_example =
    quad_progress {s = locked_state} locked_state-Reach 0 (inr (λ e. ground arith))

-- A lane that is full, with one car still to come, which the arriver waits to put in.
abbrev full_threads : Threads
full_threads = record {
  lane = record {
    in_cars = car 10 ∷ [];
    out_cars = [];
    inc = 11;
    passed = 0;
    buffer =
        some (car 0)
        ∷ some (car 1)
        ∷ some (car 2)
        ∷ some (car 3)
        ∷ some (car 4)
        ∷ some (car 5)
        ∷ some (car 6)
        ∷ some (car 7)
        ∷ some (car 8)
        ∷ some (car 9)
        ∷ [];
    head = 0;
    tail = 0;
    capacity = 10;
    in_buf = 10;
  };
  arriver = waiting;
  crosser = idle;
}

abbrev ten_cars : List Car
ten_cars = car 0 ∷ car 1 ∷ car 2 ∷ car 3 ∷ car 4 ∷ car 5 ∷ car 6 ∷ car 7 ∷ car 8 ∷ car 9 ∷ []

full_threads-Inv : Inv (ten_cars ++ car 10 ∷ []) full_threads
full_threads-Inv = record {
  queue = ten_cars;
  buffer = record {
    slots = refl;
    head_in = omega arith;
    count = refl;
    count_in = omega arith;
    tail_at = refl;
    held = (refl, (refl, (refl, (refl, (refl, (refl, (refl, (refl, (refl, (refl, tt))))))))));
  };
  order = refl;
  all = refl;
  passed = refl;
  exclusive = λ e. cc;
  arriver = (refl, λ e. ground arith);
  crosser = tt;
}

spurious-IsOverrun_example :
    (c : Car) × (t : Threads) × Steps true full_threads 3 t × IsOverrun c t.lane
spurious-IsOverrun_example =
    spurious-IsOverrun {cars = ten_cars ++ car 10 ∷ []} {s = full_threads} full_threads-Inv refl
      (λ e. cc)
