-- ===== src/Traffic.antt =====
-- A2/traffic.h: the data of the traffic monitor. A linked list of cars is a list, first car first; a
-- car's `next` pointer is the tail of the list that the car stands in.
pub mod Route
pub mod Buffer
pub mod Queue
pub mod Schedule
pub mod System
pub mod Invariant
pub mod Progress
pub mod Spurious
pub mod Crossing
pub mod Ready
pub mod Whole
mod Tests
use csc369_uoft.Base.{ℕ, List, Option}

pub data Direction : Type 0 where
  north west south east max_direction : Direction

-- `struct car`
pub record Car : Type 0 where
  pub id : ℕ
  pub in_dir : Direction
  pub out_dir : Direction

-- `struct lane`, less its lock and condition variables, which `System` models. A slot of `buffer`
-- that was never written holds the `none` of an uninitialised pointer.
pub record Lane : Type 0 where
  pub in_cars : List Car
  pub out_cars : List Car
  pub inc : ℕ
  pub passed : ℕ
  pub buffer : List (Option Car)
  pub head : ℕ
  pub tail : ℕ
  pub capacity : ℕ
  pub in_buf : ℕ

-- LANE_LENGTH
abbrev pub lane_length : ℕ
lane_length = 10
