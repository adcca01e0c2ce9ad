-- ===== src/Traffic/Buffer.antt =====
-- The circular buffer of a lane: the critical sections of `car_arrive` and `car_cross` in A2/cars.c.
use csc369_uoft.Base.{◌+◌, ◌-◌, ◌%◌, [], ◌∷◌, Option, none, some, get_elem?, set, replicate}
use csc369_uoft.Traffic.{Lane, lane_length}

-- What `init_intersection` makes of a lane. It leaves `in_cars`, `out_cars` and `inc` at the zeros of a
-- global variable.
unfoldable pub init_lane : Lane
init_lane = record {
  in_cars = [];
  out_cars = [];
  inc = 0;
  passed = 0;
  buffer = replicate lane_length none;
  head = 0;
  tail = 0;
  capacity = lane_length;
  in_buf = 0;
}

-- The body of `car_arrive` once there is room. The loop's test holds, so `in_cars` has a car; an
-- empty list would be read through a null pointer.
unfoldable pub arrive : Lane → Option Lane
arrive l = elim l.in_cars [
  | [] ↦ none
  | c ∷ rest ↦ some (record l {
    buffer = set l.buffer l.tail (some c);
    in_cars = rest;
    tail = (l.tail + 1) % l.capacity;
    in_buf = l.in_buf + 1;
  })
]

-- The body of `car_cross` once a car waits and its quadrants are locked. `none` is a read of a slot
-- that was never written.
unfoldable pub cross : Lane → Option Lane
cross l = elim (get_elem? l.buffer l.head) [
  | none ↦ none
  | some slot ↦ elim slot [
    | none ↦ none
    | some c ↦ some (record l {
      out_cars = c ∷ l.out_cars;
      head = (l.head + 1) % l.capacity;
      passed = l.passed + 1;
      in_buf = l.in_buf - 1;
    })
  ]
]
