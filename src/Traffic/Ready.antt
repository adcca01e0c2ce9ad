-- ===== src/Traffic/Ready.antt =====
-- The lanes that `parse_schedule` of A2/cars.c makes.
use csc369_uoft.Base.{
  ◌+◌, ◌≡◌, ◌≢◌, refl, List, [], ◌∷◌, ◌++◌, none, some, if◌then◌else◌, arith, length, Bool, true,
  false, reverse, append_assoc, append-nil, ◌∙◌, sym, length-append, Option-cases, inl, inr,
  Bool-cases,
}
use csc369_uoft.Traffic.{Direction, north, west, south, east, max_direction, Car, Lane}
use csc369_uoft.Traffic.Buffer.{init_lane}
use csc369_uoft.Traffic.Route.{IsDirection}
use csc369_uoft.Traffic.Schedule.{
  Lanes, init_intersection, lane_of, schedule_car, schedule, parse_schedule,
}
use csc369_uoft.Traffic.Invariant.{IsReady, reverse-cons, some-inj}

unfoldable pub same_direction : Direction → Direction → Bool
same_direction north north = true
same_direction west west = true
same_direction south south = true
same_direction east east = true
same_direction max_direction max_direction = true
same_direction _ _ = false

-- The cars of a schedule that come from `d`, in the order of the schedule.
unfoldable pub coming : Direction → List Car → List Car
unfolding same_direction
coming d [] = []
coming d (c ∷ cs) = if same_direction c.in_dir d then c ∷ coming d cs else coming d cs

-- `t` is `s` with the cars before those that it had.
record Scheduled (front : List Car) (s t : Lane) : Type 0 where
  cars : t.in_cars ≡ front ++ s.in_cars
  count : t.inc ≡ length front + s.inc
  rest : t ≡ record s { in_cars = t.in_cars; inc = t.inc }

Scheduled-step :
    (front : List Car) (c : Car) (s t : Lane)
    → Scheduled front (schedule_car c s) t
    → Scheduled (front ++ c ∷ []) s t
unfolding schedule_car
Scheduled-step front c s t h = record {
  cars = h.cars ∙ sym (append_assoc front (c ∷ []) s.in_cars);
  count = omega (arith, h.count, length-append front (c ∷ []));
  rest = h.rest;
}

schedule_lem :
    (d : Direction) (c : Car) (s : Lanes) {s' : Lanes} {l' : Lane}
    → schedule c s ≡ some s'
    → lane_of d s' ≡ some l'
    → (l : Lane) × (lane_of d s ≡ some l)
      × (l' ≡ (if same_direction c.in_dir d then schedule_car c l else l))
unfolding schedule lane_of same_direction
schedule_lem north c s e q = (s.north_lane, refl, ground arith)
schedule_lem west c s e q = (s.west_lane, refl, ground arith)
schedule_lem south c s e q = (s.south_lane, refl, ground arith)
schedule_lem east c s e q = (s.east_lane, refl, ground arith)
schedule_lem max_direction c s e q = cc

parse_Scheduled :
    (d : Direction) (cs : List Car) (s : Lanes) {t : Lanes} {l' : Lane}
    → parse_schedule cs s ≡ some t
    → lane_of d t ≡ some l'
    → (l : Lane) × (lane_of d s ≡ some l) × Scheduled (reverse (coming d cs)) l l'
unfolding parse_schedule coming
parse_Scheduled d [] s {t} {l'} e q =
    let same : s ≡ t = some-inj e in
    (l', rw same q, record { cars = refl; count = omega arith; rest = refl })
parse_Scheduled d (c ∷ cs) s {t} {l'} e q = elim (Option-cases (schedule c s)) [
  | inl failed ↦ let bad : none ≡ some t = rw (failed, parse_schedule) at e in cc
  | inr (s', f) ↦
      let e' : parse_schedule cs s' ≡ some t = rw (f, parse_schedule) at e in
      let (l1, p1, h1) = parse_Scheduled d cs s' e' q in
      let (l, p, h) = schedule_lem d c s f p1 in
      (
        l,
        p,
        elim (Bool-cases (same_direction c.in_dir d)) [
          | inl same ↦
              let h' : l1 ≡ schedule_car c l = rw same at h in
              rw (same, reverse-cons) (Scheduled-step (reverse (coming d cs)) c l l' (rw h' at h1))
          | inr other ↦ let h' : l1 ≡ l = rw other at h in rw other (rw h' at h1)
        ],
      )
]

init_lane_of : (d : Direction) {l : Lane} → lane_of d init_intersection ≡ some l → l ≡ init_lane
unfolding lane_of init_intersection
init_lane_of north e = some-inj (sym e)
init_lane_of west e = some-inj (sym e)
init_lane_of south e = some-inj (sym e)
init_lane_of east e = some-inj (sym e)
init_lane_of max_direction e = cc

init_lane-Scheduled : (front : List Car) (l : Lane) → Scheduled front init_lane l → IsReady front l
unfolding init_lane
init_lane-Scheduled front l h = record {
  scheduled = h.cars ∙ append-nil front;
  counted = omega (arith, h.count);
  none_out = ground (arith, h.rest);
  none_passed = ground (arith, h.rest);
  empty = rw h.rest record {
    slots = refl;
    head_in = omega arith;
    count = refl;
    count_in = omega arith;
    tail_at = refl;
    held = tt;
  };
}

-- Where `parse_schedule` reads a schedule after `init_intersection`, each lane is ready, with the
-- cars of its direction, the last one read first.
pub parse_schedule-IsReady :
    (d : Direction) (cs : List Car) {t : Lanes} {l : Lane}
    → parse_schedule cs init_intersection ≡ some t
    → lane_of d t ≡ some l
    → IsReady (reverse (coming d cs)) l
parse_schedule-IsReady d cs {t} {l} e q =
    let (l0, p, h) = parse_Scheduled d cs init_intersection e q in
    init_lane-Scheduled (reverse (coming d cs)) l (rw (init_lane_of d p) at h)

-- The cars come from the four directions.
abbrev pub AllDirected : List Car → Type 0
AllDirected [] = Unit
AllDirected (c ∷ cs) = IsDirection c.in_dir × AllDirected cs

schedule-ne-none : (c : Car) (s : Lanes) → IsDirection c.in_dir → schedule c s ≢ none
unfolding schedule
schedule-ne-none c s p = ground arith

-- A schedule whose cars come from the four directions is read without an access out of range.
parse_schedule-ne-none : (cs : List Car) (s : Lanes) → AllDirected cs → parse_schedule cs s ≢ none
unfolding parse_schedule
parse_schedule-ne-none [] s h = λ e. cc
parse_schedule-ne-none (c ∷ cs) s h = elim (Option-cases (schedule c s)) [
  | inl failed ↦ absurd (schedule-ne-none c s h.0 failed)
  | inr (s', f) ↦ rw (f, parse_schedule) (parse_schedule-ne-none cs s' h.1)
]
