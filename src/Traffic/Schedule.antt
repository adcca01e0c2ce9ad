-- ===== src/Traffic/Schedule.antt =====
-- `init_intersection` and `parse_schedule` of A2/cars.c: the four lanes before the threads start.
-- `fscanf` is a parameter: the list of the triples that it reads before it fails.
use csc369_uoft.Base.{◌+◌, List, [], ◌∷◌, Option, none, some}
use csc369_uoft.Traffic.{Direction, north, west, south, east, max_direction, Car, Lane}
use csc369_uoft.Traffic.Buffer.{init_lane}

-- The four lanes, by the number of their direction.
pub record Lanes : Type 0 where
  pub north_lane : Lane
  pub west_lane : Lane
  pub south_lane : Lane
  pub east_lane : Lane

unfoldable pub init_intersection : Lanes
init_intersection = record {
  north_lane = init_lane;
  west_lane = init_lane;
  south_lane = init_lane;
  east_lane = init_lane;
}

unfoldable pub lane_of : Direction → Lanes → Option Lane
lane_of north s = some s.north_lane
lane_of west s = some s.west_lane
lane_of south s = some s.south_lane
lane_of east s = some s.east_lane
lane_of max_direction s = none

-- The car goes to the head of its lane's list.
unfoldable pub schedule_car : Car → Lane → Lane
schedule_car c l = record l { in_cars = c ∷ l.in_cars; inc = l.inc + 1 }

-- `none` is the access to a fifth lane.
unfoldable pub schedule : Car → Lanes → Option Lanes
unfolding schedule_car
schedule c s = elim c.in_dir [
  | north ↦ some (record s { north_lane = schedule_car c s.north_lane })
  | west ↦ some (record s { west_lane = schedule_car c s.west_lane })
  | south ↦ some (record s { south_lane = schedule_car c s.south_lane })
  | east ↦ some (record s { east_lane = schedule_car c s.east_lane })
  | max_direction ↦ none
]

unfoldable pub parse_schedule : List Car → Lanes → Option Lanes
unfolding schedule
parse_schedule [] s = some s
parse_schedule (c ∷ cs) s = elim (schedule c s) [ none ↦ none | some t ↦ parse_schedule cs t ]
