-- ===== src/Traffic/Whole/Apart.antt =====
-- Cars on the intersection at the same time: `car_cross` of A2/cars.c where it moves its car.
use csc369_uoft.Base.{
  ℕ, ◌≡◌, ◌≢◌, ◌∙◌, sym, true, false, List, [], ◌∷◌, some, arith, get_elem?, contains, ◌||◌,
  Bool-cases, inl, inr,
}
use csc369_uoft.Traffic.{Car}
use csc369_uoft.Traffic.Invariant.{some-inj}
use csc369_uoft.Traffic.Route.{
  compute_path, quads, drive, entry_quad, exit_quad, compute_path-drive,
}
use csc369_uoft.Traffic.Schedule.{Lanes, init_intersection, parse_schedule}
use csc369_uoft.Traffic.System.{Threads}
use csc369_uoft.Traffic.Whole.{
  Phase, outside, locking, unlocking, Whole, Move, lane_step, take_path, lock_quad, pass_car,
  unlock_quad, leave, Moves, at_start, then_move, start_threads,
}
use csc369_uoft.Traffic.Whole.Invariant.{
  WholeInv, AllWays, first-ways, outside_of, split, update_self, update_ne, start_threads-WholeInv,
  Moves-WholeInv,
}
use csc369_uoft.Traffic.Whole.Verify.{of_lane, of_lane-ways, of_lane-IsReady}

-- The first car of the lane.
abbrev pub IsFirst : Threads → Car → Type 0
IsFirst t c = get_elem? t.lane.buffer t.lane.head ≡ some (some c)

-- At the locks, each quadrant of the path of the first car is held or still wanted.
abbrev Covers : Phase → Threads → (held wanted : List ℕ) → Type 0
Covers p t held wanted =
    (c : Car)
    → p ≡ locking
    → IsFirst t c
    → (q : ℕ) → contains q (quads (compute_path c.in_dir c.out_dir)) ≡ true
    → (contains q held || contains q wanted) ≡ true

abbrev CoversAt : Whole → ℕ → Type 0
CoversAt s i = Covers (s.phase i) (s.lanes i) (s.crossing.held i) (s.crossing.wanted i)

Move-CoversAt :
    {cars : ℕ → List Car} {s t : Whole} (i : ℕ)
    → WholeInv cars s
    → ((k : ℕ) → CoversAt s k)
    → Move false i s t
    → (k : ℕ) → CoversAt t k
Move-CoversAt {cars} {s} i inv h (lane_step {u} ne st e) =
    let out = outside_of (s.phase i) (s.lanes i) _ _ (inv.cells i).phase ne in
    rw e (
      split _ i (λ c p. absurd (ground (arith, out, p)))
        (λ k other. rw (update_ne s.lanes i u k other) (h k)))
Move-CoversAt {cars} {s} i inv h (take_path car p q f e) =
    let path = quads (compute_path car.in_dir car.out_dir) in
    rw e (
      split _ i
        (rw (update_self s.phase i locking, update_self s.crossing.wanted i path)
          (λ c l first x on.
            let same : car ≡ c = some-inj (some-inj (sym f ∙ first)) in
            let wanted : contains x path ≡ true = rw same on in ground (arith, wanted)))
        (λ k other.
          rw (update_ne s.phase i locking k other, update_ne s.crossing.wanted i path k other)
            (h k)))
Move-CoversAt {cars} {s} i inv h (lock_quad q rest p w f e) = rw e (
    split _ i
      (rw
        (
          update_self s.crossing.held i (q ∷ s.crossing.held i),
          update_self s.crossing.wanted i rest,
        )
        (λ c l first x on. let before = rw w at (h i c p first x on) in ground (arith, before)))
      (λ k other.
        rw
          (
            update_ne s.crossing.held i (q ∷ s.crossing.held i) k other,
            update_ne s.crossing.wanted i rest k other,
          )
          (h k)))
Move-CoversAt {cars} {s} i inv h (pass_car {l} p w a e) = rw e (
    split _ i (rw (update_self s.phase i unlocking) (λ c k. cc)) (λ k other.
      rw
        (
          update_ne s.phase i unlocking k other,
          update_ne s.lanes i (record (s.lanes i) { lane = l }) k other,
        )
        (h k)))
Move-CoversAt {cars} {s} i inv h (unlock_quad q rest p w e) = rw e (
    split _ i (λ c l. absurd (ground (arith, p, l)))
      (λ k other. rw (update_ne s.crossing.held i rest k other) (h k)))
Move-CoversAt {cars} {s} i inv h (leave p w e) = rw e (
    split _ i (rw (update_self s.phase i outside) (λ c k. cc))
      (λ k other. rw (update_ne s.phase i outside k other, update_ne s.lanes i _ k other) (h k)))

Moves-CoversAt :
    {cars : ℕ → List Car} {s t : Whole} {n : ℕ}
    → WholeInv cars s
    → ((k : ℕ) → CoversAt s k)
    → Moves false s n t
    → (k : ℕ) → CoversAt t k
Moves-CoversAt inv h at_start = h
Moves-CoversAt inv h (then_move i lt r m) =
    Move-CoversAt i (Moves-WholeInv inv r) (Moves-CoversAt inv h r) m

-- The thread of lane `i` is about to move the car, which leaves by another way than it came by.
pub record Passing (s : Whole) (i : ℕ) (c : Car) : Type 0 where
  pub phase : s.phase i ≡ locking
  pub locked : s.crossing.wanted i ≡ []
  pub first : IsFirst (s.lanes i) c
  pub through : c.in_dir ≢ c.out_dir

-- The quadrants that a car drives through which keeps to the right.
abbrev pub way : Car → List ℕ
way c = drive 3 (entry_quad c.in_dir) (exit_quad c.out_dir)

-- All of them are held.
holds_way :
    {cars : ℕ → List Car} {s : Whole} {i : ℕ} {c : Car}
    → WholeInv cars s
    → CoversAt s i
    → Passing s i c
    → (q : ℕ) → contains q (way c) ≡ true
    → s.crossing.quad q ≡ some i
holds_way {cars} {s} {i} {c} inv h p q on =
    let inside_now = rw p.phase at (inv.cells i).phase in
    let (there, away) =
      first-ways c (rw p.phase at (inv.cells i).lane) inside_now p.first (inv.ways i) in
    let path = compute_path-drive c.in_dir c.out_dir q there away p.through ∙ on in
    let covered = rw p.locked at (h c p.phase p.first q path) in
    inv.quadrants.owner q i (ground (arith, covered))

-- Where the cars of a schedule go between the four directions and the schedule is read after
-- `init_intersection`: in every state that the eight threads reach without spurious wake-ups,
-- while the threads of two lanes have taken the locks of their first cars, each of which leaves by
-- another way than it came by, and have not yet moved them, no quadrant is on the way of both
-- cars, as cars drive that keep to the right.
pub cars_apart :
    (cs : List Car) (lanes : Lanes) {t : Whole} {n : ℕ}
    → AllWays cs
    → parse_schedule cs init_intersection ≡ some lanes
    → Moves false (start_threads lanes) n t
    → (i j : ℕ) (c d : Car) → i ≢ j
    → Passing t i c
    → Passing t j d
    → (q : ℕ) → contains q (way c) ≡ true
    → contains q (way d) ≡ false
cars_apart cs lanes {t} ways e run i j c d ne p p' q on = elim (Bool-cases (contains q (way d))) [
  | inl both ↦
      absurd
        (ne (some-inj (sym (holds_way inv (covers i) p q on) ∙ holds_way inv (covers j) p' q both)))
  | inr apart ↦ apart
]
  where
    begun : WholeInv (of_lane cs) (start_threads lanes)
    begun =
        start_threads-WholeInv (of_lane cs) lanes (of_lane-IsReady cs lanes e)
          (of_lane-ways cs ways)

    inv : WholeInv (of_lane cs) t
    inv = Moves-WholeInv begun run

    covers : (k : ℕ) → CoversAt t k
    covers = Moves-CoversAt begun (λ k x out. absurd (ground (arith, out))) run
