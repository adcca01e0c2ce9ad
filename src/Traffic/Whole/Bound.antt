-- ===== src/Traffic/Whole/Bound.antt =====
-- How long the runs of the eight threads are.
use csc369_uoft.Base.{
  ℕ, zero, suc, ◌+◌, ◌-◌, ◌*◌, ◌≤◌, ◌<◌, ◌≡◌, ◌≢◌, refl, ap, false, List, [], ◌∷◌, arith, length,
}
use csc369_uoft.Traffic.{Car}
use csc369_uoft.Traffic.Route.{Increasing, AllWithin, compute_path, quads, compute_path-Increasing}
use csc369_uoft.Traffic.System.{Pc, idle, waiting, woken, inside, Threads, cross_done}
use csc369_uoft.Traffic.Invariant.{IsReady}
use csc369_uoft.Traffic.Progress.{measure, Step-measure}
use csc369_uoft.Traffic.Schedule.{Lanes}
use csc369_uoft.Traffic.Whole.{
  Phase, outside, locking, unlocking, Whole, Move, lane_step, take_path, lock_quad, pass_car,
  unlock_quad, leave, Moves, at_start, then_move, numbered, start_threads,
}
use csc369_uoft.Traffic.Whole.Invariant.{
  WholeInv, AllWays, seen, first-ways, outside_of, update_self, update_ne, start_threads-WholeInv,
  Moves-WholeInv,
}

length_within : (lo : ℕ) (l : List ℕ) → Increasing lo l → AllWithin l → length l ≤ 4 - lo
length_within lo [] h w = omega arith
length_within lo (q ∷ l) h w = omega (arith, length_within q l h.1 w.1, h.0, w.0)

-- The steps that `car_cross` has still to take at the quadrants for the car that it is at, and some more.
abbrev weight : Phase → Pc → (held wanted : List ℕ) → ℕ
weight outside inside held wanted = 11
weight outside _ held wanted = 0
weight locking _ held wanted = 2 + 2 * length wanted + length held
weight unlocking _ held wanted = 1 + length held

weight-outside : (c : Pc) (held wanted : List ℕ) → weight outside c held wanted ≤ 11
weight-outside idle held wanted = omega arith
weight-outside waiting held wanted = omega arith
weight-outside woken held wanted = omega arith
weight-outside inside held wanted = omega arith

abbrev size : Phase → Threads → (held wanted : List ℕ) → ℕ
size p t held wanted = 12 * measure (seen p t) + weight p t.crosser held wanted

abbrev size_at : Whole → ℕ → ℕ
size_at s i = size (s.phase i) (s.lanes i) (s.crossing.held i) (s.crossing.wanted i)

abbrev pub sum4 : (ℕ → ℕ) → ℕ
sum4 f = f 0 + f 1 + f 2 + f 3

sum4-lt :
    (i : ℕ) (f g : ℕ → ℕ) → i < 4 → f i < g i → ((k : ℕ) → k ≢ i → f k ≡ g k) → sum4 f < sum4 g
sum4-lt zero f g lt h o = omega (arith, o 1 (omega arith), o 2 (omega arith), o 3 (omega arith))
sum4-lt (suc zero) f g lt h o =
    omega (arith, o 0 (omega arith), o 2 (omega arith), o 3 (omega arith))
sum4-lt (suc (suc zero)) f g lt h o =
    omega (arith, o 0 (omega arith), o 1 (omega arith), o 3 (omega arith))
sum4-lt (suc (suc (suc zero))) f g lt h o =
    omega (arith, o 0 (omega arith), o 1 (omega arith), o 2 (omega arith))
sum4-lt (suc (suc (suc (suc n)))) f g lt h o = absurd (omega arith)

-- A step makes the size of its lane smaller, and keeps that of the others.
Move-size :
    {cars : ℕ → List Car} {s t : Whole} (i : ℕ)
    → WholeInv cars s
    → Move false i s t
    → (size_at t i < size_at s i) × ((k : ℕ) → k ≢ i → size_at t k ≡ size_at s k)
Move-size {cars} {s} i inv (lane_step {u} ne st e) =
    let c = inv.cells i in
    let out = outside_of (s.phase i) (s.lanes i) _ _ c.phase ne in
    rw e (
      rw (update_self s.lanes i u, out)
          (omega (
            arith,
            Step-measure (rw out at c.lane) st,
            weight-outside u.crosser (s.crossing.held i) (s.crossing.wanted i),
          )),
      λ k other. rw (update_ne s.lanes i u k other) refl,
    )
Move-size {cars} {s} i inv (take_path car p q f e) =
    let c = inv.cells i in
    let path = quads (compute_path car.in_dir car.out_dir) in
    let (there, away) = first-ways car (rw p at c.lane) q f (inv.ways i) in
    let up = compute_path-Increasing car.in_dir car.out_dir there away in
    rw e (
      rw (update_self s.phase i locking, update_self s.crossing.wanted i path, p, q)
          (omega (arith, length_within 0 path up.0 up.1, ap length (rw p at c.phase).0)),
      λ k other.
          rw (update_ne s.phase i locking k other, update_ne s.crossing.wanted i path k other) refl,
    )
Move-size {cars} {s} i inv (lock_quad q rest p w f e) = rw e (
  rw
      (
        update_self s.crossing.held i (q ∷ s.crossing.held i),
        update_self s.crossing.wanted i rest,
        p,
        w,
      )
      (omega arith),
  λ k other.
      rw
        (
          update_ne s.crossing.held i (q ∷ s.crossing.held i) k other,
          update_ne s.crossing.wanted i rest k other,
        )
        refl,
)
Move-size {cars} {s} i inv (pass_car {l} p w a e) =
    let c = inv.cells i in
    let moved = record (s.lanes i) { lane = l } in
    let less = Step-measure (rw p at c.lane) (cross_done (rw p at c.phase) a refl) in
    rw e (
      rw (update_self s.phase i unlocking, update_self s.lanes i moved, p) (omega (arith, less)),
      λ k other. rw (update_ne s.phase i unlocking k other, update_ne s.lanes i moved k other) refl,
    )
Move-size {cars} {s} i inv (unlock_quad q rest p h e) = rw e (
  rw (update_self s.crossing.held i rest, p, h) (omega arith),
  λ k other. rw (update_ne s.crossing.held i rest k other) refl,
)
Move-size {cars} {s} i inv (leave p h e) =
    let back = seen unlocking (s.lanes i) in
    rw e (
      rw (update_self s.phase i outside, update_self s.lanes i back, p) (omega arith),
      λ k other. rw (update_ne s.phase i outside k other, update_ne s.lanes i back k other) refl,
    )

Moves-size :
    {cars : ℕ → List Car} {s t : Whole} {n : ℕ}
    → WholeInv cars s
    → Moves false s n t
    → n + sum4 (size_at t) ≤ sum4 (size_at s)
Moves-size inv at_start = omega arith
Moves-size {s} inv (then_move {t} {u} i lt r m) =
    let (less, same) = Move-size i (Moves-WholeInv inv r) m in
    omega (arith, Moves-size inv r, sum4-lt i (size_at u) (size_at t) lt less same)

size_start :
    (cars : ℕ → List Car) (lanes : Lanes)
    → ((i : ℕ) → IsReady (cars i) (numbered lanes i))
    → (i : ℕ) → size_at (start_threads lanes) i ≡ 192 * length (cars i) + 72
size_start cars lanes ready i = omega (arith, (ready i).empty.count, ap length (ready i).scheduled)

-- No run from ready lanes is longer than 192 steps for each car and 288 more.
pub Moves-bounded :
    (cars : ℕ → List Car) (lanes : Lanes) {t : Whole} {n : ℕ}
    → ((i : ℕ) → IsReady (cars i) (numbered lanes i))
    → ((i : ℕ) → AllWays (cars i))
    → Moves false (start_threads lanes) n t
    → n ≤ 192 * sum4 (λ i. length (cars i)) + 288
Moves-bounded cars lanes ready ways run = omega (
  arith,
  Moves-size (start_threads-WholeInv cars lanes ready ways) run,
  size_start cars lanes ready 0,
  size_start cars lanes ready 1,
  size_start cars lanes ready 2,
  size_start cars lanes ready 3,
)
