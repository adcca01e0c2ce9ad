-- ===== src/Traffic/Whole/Verify.antt =====
-- The whole program of A2, from the schedule to the lines of `verify`.
use csc369_uoft.Base.{
  ℕ, zero, suc, ◌+◌, ◌*◌, ◌≤◌, ◌<◌, ◌≡◌, ◌∙◌, refl, sym, ap, false, List, [], ◌∷◌, ◌++◌, some,
  arith, length, reverse, append_assoc, append-nil, inl, inr, Bool-cases,
}
use mathlib.Core.List.{reverse-reverse}
use csc369_uoft.Traffic.{Direction, north, west, south, east, max_direction, Car}
use csc369_uoft.Traffic.Invariant.{IsReady, reverse-cons}
use csc369_uoft.Traffic.Progress.{done_lem, length-reverse}
use csc369_uoft.Traffic.Ready.{coming, same_direction, parse_schedule-IsReady}
use csc369_uoft.Traffic.Schedule.{Lanes, init_intersection, lane_of, parse_schedule}
use csc369_uoft.Traffic.System.{Threads}
use csc369_uoft.Traffic.Whole.{
  Phase, outside, locking, unlocking, Whole, Move, Moves, numbered, start_threads, dashes, equals,
  car_lines, lane_lines, verify,
}
use csc369_uoft.Traffic.Whole.Invariant.{
  WholeInv, AllWays, seen, start_threads-WholeInv, Moves-WholeInv,
}
use csc369_uoft.Traffic.Whole.Bound.{Moves-bounded}
use csc369_uoft.Traffic.Whole.Ends.{WholeInv_progress}

-- The cars of a schedule in the lane with this number, in the order of their arrival.
abbrev pub of_lane : List Car → ℕ → List Car
of_lane cs zero = reverse (coming north cs)
of_lane cs (suc zero) = reverse (coming west cs)
of_lane cs (suc (suc zero)) = reverse (coming south cs)
of_lane cs (suc (suc (suc zero))) = reverse (coming east cs)
of_lane cs (suc (suc (suc (suc n)))) = []

AllWays-append : (a b : List Car) → AllWays a → AllWays b → AllWays (a ++ b)
AllWays-append [] b h k = k
AllWays-append (c ∷ a) b h k = (h.0, AllWays-append a b h.1 k)

AllWays-reverse : (a : List Car) → AllWays a → AllWays (reverse a)
AllWays-reverse [] h = tt
AllWays-reverse (c ∷ a) h =
    rw (reverse-cons c a) (AllWays-append (reverse a) (c ∷ []) (AllWays-reverse a h.1) (h.0, tt))

AllWays-coming : (d : Direction) (cs : List Car) → AllWays cs → AllWays (coming d cs)
unfolding coming
AllWays-coming d [] h = tt
AllWays-coming d (c ∷ cs) h = elim (Bool-cases (same_direction c.in_dir d)) [
  | inl same ↦ rw same (h.0, AllWays-coming d cs h.1)
  | inr other ↦ rw other (AllWays-coming d cs h.1)
]

pub of_lane-ways : (cs : List Car) → AllWays cs → (i : ℕ) → AllWays (of_lane cs i)
of_lane-ways cs h zero = AllWays-reverse _ (AllWays-coming north cs h)
of_lane-ways cs h (suc zero) = AllWays-reverse _ (AllWays-coming west cs h)
of_lane-ways cs h (suc (suc zero)) = AllWays-reverse _ (AllWays-coming south cs h)
of_lane-ways cs h (suc (suc (suc zero))) = AllWays-reverse _ (AllWays-coming east cs h)
of_lane-ways cs h (suc (suc (suc (suc n)))) = tt

pub of_lane-IsReady :
    (cs : List Car) (lanes : Lanes)
    → parse_schedule cs init_intersection ≡ some lanes
    → (i : ℕ) → IsReady (of_lane cs i) (numbered lanes i)
unfolding lane_of parse_schedule init_intersection coming
of_lane-IsReady cs lanes e zero = parse_schedule-IsReady north cs e refl
of_lane-IsReady cs lanes e (suc zero) = parse_schedule-IsReady west cs e refl
of_lane-IsReady cs lanes e (suc (suc zero)) = parse_schedule-IsReady south cs e refl
of_lane-IsReady cs lanes e (suc (suc (suc zero))) = parse_schedule-IsReady east cs e refl
of_lane-IsReady cs lanes e (suc (suc (suc (suc n)))) =
    parse_schedule-IsReady north [] {t = init_intersection} refl refl

seen-out_cars : (p : Phase) (t : Threads) → (seen p t).lane.out_cars ≡ t.lane.out_cars
seen-out_cars outside t = refl
seen-out_cars locking t = refl
seen-out_cars unlocking t = refl

-- Where the cars of a schedule go between the four directions and the schedule is read after
-- `init_intersection`: when a run of the eight threads with their quadrants, without spurious
-- wake-ups, comes to a state in which no thread can take a step, `verify` prints the line of
-- dashes, then for north, west, south and east the cars that came from there in the order of the
-- schedule, and the line of equals signs.
pub main-verify :
    (cs : List Car) (lanes : Lanes) {t : Whole} {n : ℕ}
    → AllWays cs
    → parse_schedule cs init_intersection ≡ some lanes
    → Moves false (start_threads lanes) n t
    → ((i : ℕ) (u : Whole) → i < 4 → ¬ Move false i t u)
    → verify t
      ≡ dashes
        ∷ (car_lines (coming north cs)
            ++ (car_lines (coming west cs)
                ++ (car_lines (coming south cs) ++ (car_lines (coming east cs) ++ equals ∷ []))))
unfolding verify lane_lines
main-verify cs lanes {t} ways e run stuck =
    rw
      (
        across 0 (omega arith),
        across 1 (omega arith),
        across 2 (omega arith),
        across 3 (omega arith),
      )
      (simp (append_assoc, append-nil, reverse-reverse) refl)
  where
    inv : WholeInv (of_lane cs) t
    inv =
        Moves-WholeInv
          (start_threads-WholeInv (of_lane cs) lanes (of_lane-IsReady cs lanes e)
            (of_lane-ways cs ways))
          run

    across : (i : ℕ) → i < 4 → (t.lanes i).lane.out_cars ≡ reverse (of_lane cs i)
    across i lt = elim (WholeInv_progress inv i lt) [
      | inr (j, jt, u, m) ↦ absurd (stuck j u jt m)
      | inl done ↦
          sym (seen-out_cars (t.phase i) (t.lanes i))
          ∙ sym (reverse-reverse _)
          ∙ ap reverse (done_lem (inv.cells i).lane done).0
    ]

-- Each car comes from one direction at most.
coming-le :
    (cs : List Car)
    → length (coming north cs)
        + length (coming west cs)
        + length (coming south cs)
        + length (coming east cs)
      ≤ length cs
unfolding coming same_direction
coming-le [] = omega arith
coming-le (c ∷ cs) = by_direction (coming-le cs) c.in_dir refl
  where
    by_direction :
        length (coming north cs)
            + length (coming west cs)
            + length (coming south cs)
            + length (coming east cs)
          ≤ length cs
        → (d : Direction) → c.in_dir ≡ d
        → length (coming north (c ∷ cs))
            + length (coming west (c ∷ cs))
            + length (coming south (c ∷ cs))
            + length (coming east (c ∷ cs))
          ≤ suc (length cs)
    by_direction le north e = rw e (omega (arith, le))
    by_direction le west e = rw e (omega (arith, le))
    by_direction le south e = rw e (omega (arith, le))
    by_direction le east e = rw e (omega (arith, le))
    by_direction le max_direction e = rw e (omega (arith, le))

-- Where the cars of a schedule go between the four directions and the schedule is read after
-- `init_intersection`, no run of the eight threads with their quadrants, without spurious
-- wake-ups, is longer than 192 steps for each car and 288 more.
pub main-bounded :
    (cs : List Car) (lanes : Lanes) {t : Whole} {n : ℕ}
    → AllWays cs
    → parse_schedule cs init_intersection ≡ some lanes
    → Moves false (start_threads lanes) n t
    → n ≤ 192 * length cs + 288
main-bounded cs lanes ways e run = omega (
  arith,
  Moves-bounded (of_lane cs) lanes (of_lane-IsReady cs lanes e) (of_lane-ways cs ways) run,
  length-reverse (coming north cs),
  length-reverse (coming west cs),
  length-reverse (coming south cs),
  length-reverse (coming east cs),
  coming-le cs,
)
