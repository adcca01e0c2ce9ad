-- ===== src/Traffic/Tests/Programs.antt =====
-- A run of the whole program of A2 on one car, which turns right from the north.
use csc369_uoft.Base.{ℕ, zero, suc, ◌≤◌, ◌<◌, ◌≡◌, ◌≢◌, refl, false, [], ◌∷◌, some, arith}
use csc369_uoft.Traffic.{north, west, Car, lane_length}
use csc369_uoft.Traffic.Buffer.{init_lane, arrive, cross}
use csc369_uoft.Traffic.Route.{compute_path, quads}
use csc369_uoft.Traffic.Schedule.{Lanes, init_intersection, parse_schedule}
use csc369_uoft.Traffic.System.{
  idle, inside, Threads, signal, Step, arrive_enter, arrive_wait, arrive_wake, arrive_done,
  cross_enter, cross_wait, cross_wake, cross_done, arrive_spurious, cross_spurious,
}
use csc369_uoft.Traffic.Ready.{coming, same_direction}
use csc369_uoft.Traffic.Whole.{
  outside, Whole, Move, lane_step, take_path, lock_quad, pass_car, unlock_quad, leave, Moves,
  at_start, then_move, start_threads, dashes, equals, car_line, car_lines, verify,
}
use csc369_uoft.Traffic.Whole.Invariant.{AllWays}
use csc369_uoft.Traffic.Whole.Apart.{Passing, way, cars_apart}
use csc369_uoft.Traffic.Route.{drive, entry_quad, exit_quad, next_quad}
use csc369_uoft.Traffic.{south, east}
use csc369_uoft.Base.{contains}
use csc369_uoft.Traffic.Whole.Verify.{main-verify, main-bounded}

abbrev turner : Car
turner = record { id = 7; in_dir = north; out_dir = west }

abbrev lanes : Lanes
unfolding init_intersection init_lane
lanes = record init_intersection {
  north_lane = record init_lane { in_cars = turner ∷ []; inc = 1 };
}

parsed : parse_schedule (turner ∷ []) init_intersection ≡ some lanes
unfolding parse_schedule init_intersection init_lane
parsed = refl

idle-outside : idle ≢ inside
idle-outside e = cc

some_car : turner ∷ [] ≢ []
some_car e = cc

none_yet : ◌≢◌ {A = ℕ} 0 lane_length
none_yet e = omega arith

none_passed : ◌≢◌ {A = ℕ} 0 1
none_passed e = omega arith

one_waits : ◌≢◌ {A = ℕ} 1 0
one_waits e = omega arith

first : 0 < 4
first = omega arith

-- The eight steps of the car: onto the lane, off it, and over quadrant 2.
abbrev run : (t : Whole) × Moves false (start_threads lanes) 8 t
unfolding init_intersection init_lane arrive cross compute_path quads signal
run = (
  _,
  then_move 0 first
      (then_move 0 first
        (then_move 0 first
          (then_move 0 first
            (then_move 0 first
              (then_move 0 first
                (then_move 0 first
                  (then_move 0 first at_start (
                    lane_step idle-outside (arrive_enter refl some_car idle-outside none_yet refl)
                      refl))
                  (lane_step idle-outside (arrive_done refl refl refl) refl))
                (lane_step idle-outside (cross_enter refl none_passed idle-outside one_waits refl)
                  refl))
              (take_path turner refl refl refl refl))
            (lock_quad 2 [] refl refl refl refl))
          (pass_car refl refl refl refl))
        (unlock_quad 2 [] refl refl refl))
      (leave refl refl refl),
)

-- A lane without cars, whose threads hold and want nothing.
record IsStill (s : Whole) (i : ℕ) : Type 0 where
  phase : s.phase i ≡ outside
  arriver : (s.lanes i).arriver ≡ idle
  crosser : (s.lanes i).crosser ≡ idle
  arrived : (s.lanes i).lane.in_cars ≡ []
  passed : (s.lanes i).lane.passed ≡ (s.lanes i).lane.inc

still-Step : {s : Whole} {i : ℕ} → IsStill s i → (u : Threads) → ¬ Step false (s.lanes i) u
still-Step h u (arrive_enter p c q f e) = c h.arrived
still-Step h u (arrive_wait p c q f e) = c h.arrived
still-Step h u (arrive_wake p q e) = absurd (grind (arith, p, h.arriver))
still-Step h u (arrive_done p a e) = absurd (grind (arith, p, h.arriver))
still-Step h u (cross_enter p c q f e) = c h.passed
still-Step h u (cross_wait p c q f e) = c h.passed
still-Step h u (cross_wake p q e) = absurd (grind (arith, p, h.crosser))
still-Step h u (cross_done p a e) = absurd (grind (arith, p, h.crosser))
still-Step h u (arrive_spurious b p e) = absurd (grind (arith, b))
still-Step h u (cross_spurious b p e) = absurd (grind (arith, b))

still-Move : {s : Whole} {i : ℕ} → IsStill s i → (u : Whole) → ¬ Move false i s u
still-Move h u (lane_step ne st e) = still-Step h _ st
still-Move h u (take_path c p q f e) = absurd (grind (arith, q, h.crosser))
still-Move h u (lock_quad q rest p w f e) = absurd (grind (arith, p, h.phase))
still-Move h u (pass_car p w a e) = absurd (grind (arith, p, h.phase))
still-Move h u (unlock_quad q rest p w e) = absurd (grind (arith, p, h.phase))
still-Move h u (leave p w e) = absurd (grind (arith, p, h.phase))

still : (i : ℕ) → i < 4 → IsStill run.0 i
unfolding init_intersection init_lane arrive cross compute_path quads signal
still zero lt = record {
  phase = refl;
  arriver = refl;
  crosser = refl;
  arrived = refl;
  passed = refl;
}
still (suc zero) lt = record {
  phase = refl;
  arriver = refl;
  crosser = refl;
  arrived = refl;
  passed = refl;
}
still (suc (suc zero)) lt = record {
  phase = refl;
  arriver = refl;
  crosser = refl;
  arrived = refl;
  passed = refl;
}
still (suc (suc (suc zero))) lt = record {
  phase = refl;
  arriver = refl;
  crosser = refl;
  arrived = refl;
  passed = refl;
}
still (suc (suc (suc (suc n)))) lt = absurd (omega arith)

ways : AllWays (turner ∷ [])
ways = ((λ e. cc, λ e. cc), tt)

main-verify_example : verify run.0 ≡ dashes ∷ car_line north west 7 ∷ equals ∷ []
unfolding coming same_direction car_lines
main-verify_example =
    main-verify (turner ∷ []) lanes ways parsed run.1 (λ i u lt. still-Move (still i lt) u)

main-bounded_example : 8 ≤ 480
main-bounded_example = main-bounded (turner ∷ []) lanes ways parsed run.1

-- A car from the south, which turns right too.
abbrev opposite : Car
opposite = record { id = 8; in_dir = south; out_dir = east }

abbrev two_lanes : Lanes
unfolding init_intersection init_lane
two_lanes = record lanes { south_lane = record init_lane { in_cars = opposite ∷ []; inc = 1 } }

two_parsed : parse_schedule (turner ∷ opposite ∷ []) init_intersection ≡ some two_lanes
unfolding parse_schedule init_intersection init_lane
two_parsed = refl

another_car : opposite ∷ [] ≢ []
another_car e = cc

third : 2 < 4
third = omega arith

-- Both cars have their quadrant.
abbrev both_run : (t : Whole) × Moves false (start_threads two_lanes) 10 t
unfolding init_intersection init_lane arrive cross compute_path quads signal
both_run = (
  _,
  then_move 2 third
      (then_move 2 third
        (then_move 2 third
          (then_move 2 third
            (then_move 2 third
              (then_move 0 first
                (then_move 0 first
                  (then_move 0 first
                    (then_move 0 first
                      (then_move 0 first at_start (
                        lane_step idle-outside
                          (arrive_enter refl some_car idle-outside none_yet refl) refl))
                      (lane_step idle-outside (arrive_done refl refl refl) refl))
                    (lane_step idle-outside
                      (cross_enter refl none_passed idle-outside one_waits refl) refl))
                  (take_path turner refl refl refl refl))
                (lock_quad 2 [] refl refl refl refl))
              (lane_step idle-outside (arrive_enter refl another_car idle-outside none_yet refl)
                refl))
            (lane_step idle-outside (arrive_done refl refl refl) refl))
          (lane_step idle-outside (cross_enter refl none_passed idle-outside one_waits refl) refl))
        (take_path opposite refl refl refl refl))
      (lock_quad 4 [] refl refl refl refl),
)

turner-Passing : Passing both_run.0 0 turner
unfolding init_intersection init_lane arrive cross compute_path quads signal
turner-Passing = record { phase = refl; locked = refl; first = refl; through = λ e. cc }

opposite-Passing : Passing both_run.0 2 opposite
unfolding init_intersection init_lane arrive cross compute_path quads signal
opposite-Passing = record { phase = refl; locked = refl; first = refl; through = λ e. cc }

both_ways : AllWays (turner ∷ opposite ∷ [])
both_ways = ((λ e. cc, λ e. cc), ((λ e. cc, λ e. cc), tt))

cars_apart_example : contains 2 (way opposite) ≡ false
unfolding drive entry_quad exit_quad next_quad
cars_apart_example =
    cars_apart (turner ∷ opposite ∷ []) two_lanes both_ways two_parsed both_run.1 0 2 turner
      opposite (λ e. omega arith) turner-Passing opposite-Passing 2 refl
