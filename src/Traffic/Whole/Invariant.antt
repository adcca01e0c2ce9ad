-- ===== src/Traffic/Whole/Invariant.antt =====
-- What the threads of the four lanes keep true of lanes and quadrants.
use csc369_uoft.Base.{
  ℕ, ◌≤◌, ◌<◌, ◌≡◌, ◌≢◌, ◌∙◌, refl, sym, ap, subst, false, List, [], ◌∷◌, ◌++◌, some, update, arith,
  get_elem?, length, ℕ_discrete, reverse, inl, inr, List-cases,
}
use csc369_uoft.Traffic.{Car}
use csc369_uoft.Traffic.Schedule.{Lanes}
use csc369_uoft.Traffic.Route.{IsDirection, compute_path, quads}
use csc369_uoft.Traffic.System.{idle, inside, Threads, signal, cross_done}
use csc369_uoft.Traffic.Invariant.{IsReady, start-Inv, Step-Inv, CrosserSees, some-inj}
use csc369_uoft.Traffic.Invariant
use csc369_uoft.Traffic.Crossing
use csc369_uoft.Traffic.Crossing.{Crossing, lock-Inv, unlock-Inv, begin-Inv, Reach-Inv, free}
use csc369_uoft.Traffic.Whole.{
  Phase, outside, locking, unlocking, Whole, Move, lane_step, take_path, lock_quad, pass_car,
  unlock_quad, leave, Moves, at_start, then_move, numbered, start_threads,
}

-- A lane as `System` has it: a car that has passed is across, and its thread is done with the lane.
abbrev pub seen : Phase → Threads → Threads
seen outside t = t
seen locking t = t
seen unlocking t = record { lane = t.lane; arriver = signal t.arriver; crosser = idle }

abbrev pub view : Whole → ℕ → Threads
view s i = seen (s.phase i) (s.lanes i)

-- The cars go from one of the four directions to one of them.
abbrev pub AllWays : List Car → Type 0
AllWays [] = Unit
AllWays (c ∷ cs) = (IsDirection c.in_dir × IsDirection c.out_dir) × AllWays cs

-- What lane `i` holds and wants of the quadrants.
abbrev pub InPhase : Phase → Threads → (held wanted : List ℕ) → Type 0
InPhase outside t held wanted = (held ≡ []) × (wanted ≡ [])
InPhase locking t held wanted = t.crosser ≡ inside
InPhase unlocking t held wanted = (t.crosser ≡ inside) × (wanted ≡ [])

-- One lane, with its cars, and what it has of the quadrants.
pub record Cell (cars : List Car) (p : Phase) (t : Threads) (held wanted : List ℕ) : Type 0 where
  pub lane : Invariant.Inv cars (seen p t)
  pub phase : InPhase p t held wanted

pub record WholeInv (cars : ℕ → List Car) (s : Whole) : Type 0 where
  pub cells :
      (i : ℕ) → Cell (cars i) (s.phase i) (s.lanes i) (s.crossing.held i) (s.crossing.wanted i)
  pub quadrants : Crossing.Inv s.crossing
  pub far : (i : ℕ) → 4 ≤ i → s.phase i ≡ outside
  pub ways : (i : ℕ) → AllWays (cars i)

AllWays-right : (a b : List Car) → AllWays (a ++ b) → AllWays b
AllWays-right [] b h = h
AllWays-right (c ∷ a) b h = AllWays-right a b h.1

pub outside_of :
    (p : Phase) (t : Threads) (held wanted : List ℕ)
    → InPhase p t held wanted
    → t.crosser ≢ inside
    → p ≡ outside
outside_of outside t held wanted h ne = refl
outside_of locking t held wanted h ne = absurd (ne h)
outside_of unlocking t held wanted h ne = absurd (ne h.0)

-- The first car of the buffer is one of the lane's.
pub first-ways :
    {cars : List Car} {t : Threads} (c : Car)
    → Invariant.Inv cars t
    → t.crosser ≡ inside
    → get_elem? t.lane.buffer t.lane.head ≡ some (some c)
    → AllWays cars
    → IsDirection c.in_dir × IsDirection c.out_dir
first-ways {cars} {t} c inv p e h = elim (List-cases inv.queue) [
  | inl nil ↦
      let sees : CrosserSees inside t.lane = rw p at inv.crosser in
      absurd (omega (arith, inv.buffer.count, ap length nil))
  | inr (d, queue, f) ↦
      let first : get_elem? t.lane.buffer t.lane.head ≡ some (some d) =
        (rw f at inv.buffer.held).0 in
      let same : d ≡ c = some-inj (some-inj (sym first ∙ e)) in
      let ways : AllWays (d ∷ queue ++ t.lane.in_cars) =
        AllWays-right (reverse t.lane.out_cars) (d ∷ queue ++ t.lane.in_cars)
          (rw (sym (rw f at inv.order)) at h) in
      rw same at ways.0
]

pub update_self {ℓ} : {A : Type ℓ} (f : ℕ → A) (i : ℕ) (a : A) → update f i a i ≡ a
update_self f i a = ground arith

pub update_ne {ℓ} : {A : Type ℓ} (f : ℕ → A) (i : ℕ) (a : A) (k : ℕ) → k ≢ i → update f i a k ≡ f k
update_ne f i a k ne = ground arith

-- A property of all numbers, of `i` and of the others.
pub split {ℓ} : (P : ℕ → Type ℓ) (i : ℕ) → P i → ((k : ℕ) → k ≢ i → P k) → (k : ℕ) → P k
split P i here other k = elim (ℕ_discrete k i) [ yes e ↦ subst P (sym e) here | no ne ↦ other k ne ]

pub Move-WholeInv :
    {cars : ℕ → List Car} {s t : Whole} (i : ℕ)
    → i < 4
    → WholeInv cars s
    → Move false i s t
    → WholeInv cars t
Move-WholeInv {cars} {s} i lt inv (lane_step {u} ne st e) =
    let c = inv.cells i in
    let out = outside_of (s.phase i) (s.lanes i) _ _ c.phase ne in
    rw e (record {
      cells =
          split _ i
            (rw (update_self s.lanes i u, out)
              (record { lane = Step-Inv (rw out at c.lane) st; phase = rw out at c.phase }))
            (λ k other. rw (update_ne s.lanes i u k other) (inv.cells k));
      quadrants = inv.quadrants;
      far = inv.far;
      ways = inv.ways;
    })
Move-WholeInv {cars} {s} i lt inv (take_path car p q f e) =
    let c = inv.cells i in
    let path = quads (compute_path car.in_dir car.out_dir) in
    let (there, away) = first-ways car (rw p at c.lane) q f (inv.ways i) in
    rw e (record {
      cells =
          split _ i
            (rw (update_self s.phase i locking, update_self s.crossing.wanted i path)
              (record { lane = rw p at c.lane; phase = q }))
            (λ k other.
              rw (update_ne s.phase i locking k other, update_ne s.crossing.wanted i path k other)
                (inv.cells k));
      quadrants = begin-Inv i car.in_dir car.out_dir inv.quadrants there away (rw p at c.phase).0;
      far = λ k high. rw (update_ne s.phase i locking k (omega arith)) (inv.far k high);
      ways = inv.ways;
    })
Move-WholeInv {cars} {s} i lt inv (lock_quad q rest p w f e) =
    let c = inv.cells i in
    rw e (record {
      cells =
          split _ i
            (rw
              (
                update_self s.crossing.held i (q ∷ s.crossing.held i),
                update_self s.crossing.wanted i rest,
                p,
              )
              (record { lane = rw p at c.lane; phase = rw p at c.phase }))
            (λ k other.
              rw
                (
                  update_ne s.crossing.held i (q ∷ s.crossing.held i) k other,
                  update_ne s.crossing.wanted i rest k other,
                )
                (inv.cells k));
      quadrants = lock-Inv i q rest inv.quadrants w f;
      far = inv.far;
      ways = inv.ways;
    })
Move-WholeInv {cars} {s} i lt inv (pass_car {l} p w a e) =
    let c = inv.cells i in
    let here : (s.lanes i).crosser ≡ inside = rw p at c.phase in
    let moved = record (s.lanes i) { lane = l } in
    rw e (record {
      cells =
          split _ i
            (rw (update_self s.phase i unlocking, update_self s.lanes i moved)
              (record {
                lane = Step-Inv (rw p at c.lane) (cross_done here a refl);
                phase = (here, w);
              }))
            (λ k other.
              rw (update_ne s.phase i unlocking k other, update_ne s.lanes i moved k other)
                (inv.cells k));
      quadrants = inv.quadrants;
      far = λ k high. rw (update_ne s.phase i unlocking k (omega arith)) (inv.far k high);
      ways = inv.ways;
    })
Move-WholeInv {cars} {s} i lt inv (unlock_quad q rest p h e) =
    let c = inv.cells i in
    rw e (record {
      cells =
          split _ i
            (rw (update_self s.crossing.held i rest, p)
              (record { lane = rw p at c.lane; phase = rw p at c.phase }))
            (λ k other. rw (update_ne s.crossing.held i rest k other) (inv.cells k));
      quadrants = unlock-Inv i q rest inv.quadrants (rw p at c.phase).1 h;
      far = inv.far;
      ways = inv.ways;
    })
Move-WholeInv {cars} {s} i lt inv (leave p h e) =
    let c = inv.cells i in
    let back = seen unlocking (s.lanes i) in
    rw e (record {
      cells =
          split _ i
            (rw (update_self s.phase i outside, update_self s.lanes i back)
              (record { lane = rw p at c.lane; phase = (h, (rw p at c.phase).1) }))
            (λ k other.
              rw (update_ne s.phase i outside k other, update_ne s.lanes i back k other)
                (inv.cells k));
      quadrants = inv.quadrants;
      far = λ k high. rw (update_ne s.phase i outside k (omega arith)) (inv.far k high);
      ways = inv.ways;
    })

pub start_threads-WholeInv :
    (cars : ℕ → List Car) (lanes : Lanes)
    → ((i : ℕ) → IsReady (cars i) (numbered lanes i))
    → ((i : ℕ) → AllWays (cars i))
    → WholeInv cars (start_threads lanes)
start_threads-WholeInv cars lanes ready ways = record {
  cells = λ i. record { lane = start-Inv (ready i); phase = (refl, refl) };
  quadrants = Reach-Inv free;
  far = λ i high. refl;
  ways = ways;
}

pub Moves-WholeInv :
    {cars : ℕ → List Car} {s t : Whole} {n : ℕ}
    → WholeInv cars s
    → Moves false s n t
    → WholeInv cars t
Moves-WholeInv inv at_start = inv
Moves-WholeInv inv (then_move i lt r m) = Move-WholeInv i lt (Moves-WholeInv inv r) m
