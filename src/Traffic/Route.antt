-- ===== src/Traffic/Route.antt =====
-- `compute_path` of A2/cars.c: the quadrants that a car locks, in the order in which it locks them.
use csc369_uoft.Base.{
  ℕ, zero, suc, ◌+◌, ◌≤◌, ◌<◌, ◌≡◌, ◌≢◌, refl, List, [], ◌∷◌, Option, none, some, ◌==◌,
  if◌then◌else◌, arith, contains,
}
use csc369_uoft.Traffic.{Direction, north, west, south, east, max_direction}

-- The array of three that the function returns; `none` where it is left uninitialised.
abbrev pub Slots : Type 0
Slots = Option (ℕ × ℕ × ℕ)

unfoldable pub compute_path : Direction → Direction → Slots
compute_path north north = some (1, 2, 0)
compute_path north east = some (2, 3, 4)
compute_path north south = some (2, 3, 0)
compute_path north west = some (2, 0, 0)
compute_path east north = some (1, 0, 0)
compute_path east east = some (1, 4, 0)
compute_path east south = some (1, 2, 3)
compute_path east west = some (1, 2, 0)
compute_path south north = some (1, 4, 0)
compute_path south east = some (4, 0, 0)
compute_path south south = some (3, 4, 0)
compute_path south west = some (1, 2, 4)
compute_path west north = some (1, 3, 4)
compute_path west east = some (3, 4, 0)
compute_path west south = some (3, 0, 0)
compute_path west west = some (2, 3, 0)
compute_path _ _ = none

-- What the loop `for (i = 0; p[i] != 0 && i < 3; i++)` of `car_cross` locks.
unfoldable pub quads : Slots → List ℕ
quads none = []
quads (some (a, b, c)) =
    if a == 0 then [] else if b == 0 then a ∷ [] else if c == 0 then a ∷ b ∷ [] else a ∷ b ∷ c ∷ []

-- The intersection, as the map in traffic.h has it: a car drives on the right, so it comes in by one
-- quadrant and goes on counterclockwise, 2, 3, 4, 1, until it reaches the one by its way out.
unfoldable pub entry_quad : Direction → ℕ
entry_quad north = 2
entry_quad west = 3
entry_quad south = 4
entry_quad east = 1
entry_quad max_direction = 0

unfoldable pub exit_quad : Direction → ℕ
exit_quad north = 1
exit_quad west = 2
exit_quad south = 3
exit_quad east = 4
exit_quad max_direction = 0

unfoldable pub next_quad : ℕ → ℕ
next_quad q = if q == 4 then 1 else q + 1

-- The drive from quadrant `q`, of at most `n` more quadrants.
unfoldable pub drive : ℕ → ℕ → ℕ → List ℕ
unfolding next_quad
drive zero q goal = q ∷ []
drive (suc n) q goal =
    let rest = drive n (next_quad q) goal in if q == goal then q ∷ [] else q ∷ rest

abbrev pub IsDirection : Direction → Type 0
IsDirection d = d ≢ max_direction

-- Strictly increasing, from above `lo`.
abbrev pub Increasing : ℕ → List ℕ → Type 0
Increasing lo [] = Unit
Increasing lo (q ∷ qs) = (lo < q) × Increasing q qs

abbrev pub AllWithin : List ℕ → Type 0
AllWithin [] = Unit
AllWithin (q ∷ qs) = (q ≤ 4) × AllWithin qs

-- For two of the four directions, `compute_path` gives at least one quadrant, only quadrants 1 to
-- 4, and these in increasing order.
pub compute_path-Increasing :
    (a b : Direction)
    → IsDirection a
    → IsDirection b
    → Increasing 0 (quads (compute_path a b))
      × AllWithin (quads (compute_path a b))
      × (quads (compute_path a b) ≢ [])
unfolding compute_path quads
compute_path-Increasing north north p q = ground arith
compute_path-Increasing north south p q = ground arith
compute_path-Increasing _ max_direction p q = absurd (q refl)
compute_path-Increasing max_direction _ p q = absurd (p refl)
compute_path-Increasing _ _ p q = ground arith

-- For two different ones of the four directions, the quadrants of `compute_path` are exactly those
-- that a car drives through which keeps to the right.
pub compute_path-drive :
    (a b : Direction) (q : ℕ)
    → IsDirection a
    → IsDirection b
    → a ≢ b
    → contains q (quads (compute_path a b)) ≡ contains q (drive 3 (entry_quad a) (exit_quad b))
unfolding compute_path quads entry_quad exit_quad drive next_quad
compute_path-drive north north q pa pb ne = absurd (ne refl)
compute_path-drive south south q pa pb ne = absurd (ne refl)
compute_path-drive east east q pa pb ne = absurd (ne refl)
compute_path-drive west west q pa pb ne = absurd (ne refl)
compute_path-drive max_direction _ q pa pb ne = absurd (pa refl)
compute_path-drive _ max_direction q pa pb ne = absurd (pb refl)
compute_path-drive _ _ q pa pb ne = ground arith

-- For a car that leaves where it came from, the quadrants of `compute_path` are those of its way
-- in and of its way out, and no others.
compute_path_turn :
    (a : Direction) (q : ℕ)
    → IsDirection a
    → contains q (quads (compute_path a a)) ≡ contains q (entry_quad a ∷ exit_quad a ∷ [])
unfolding compute_path quads entry_quad exit_quad
compute_path_turn north q p = ground arith
compute_path_turn west q p = ground arith
compute_path_turn south q p = ground arith
compute_path_turn east q p = ground arith
compute_path_turn max_direction q p = absurd (p refl)
