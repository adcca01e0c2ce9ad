-- ===== src/Traffic/Whole/Ends.antt =====
-- Where and when the runs of the eight threads end.
use csc369_uoft.Base.{
  ℕ, ◌<◌, ◌≡◌, ◌≢◌, refl, ap, false, List, [], some, arith, get_elem?, length, dec_lt, inl, inr,
  ◌⊎◌, List-cases,
}
use csc369_uoft.Traffic.{Car, Lane}
use csc369_uoft.Traffic.Buffer.{cross}
use csc369_uoft.Traffic.Queue.{cross_lem}
use csc369_uoft.Traffic.System.{Pc, idle, waiting, woken, inside, Threads}
use csc369_uoft.Traffic.Invariant.{CrosserSees}
use csc369_uoft.Traffic.Invariant
use csc369_uoft.Traffic.Progress.{IsDone, Inv_progress}
use csc369_uoft.Traffic.Crossing.{Crossing, Advance, lock, unlock, Advance-above}
use csc369_uoft.Traffic.Whole.{
  Phase, outside, locking, unlocking, Whole, Move, lane_step, take_path, lock_quad, pass_car,
  unlock_quad, leave,
}
use csc369_uoft.Traffic.Whole.Invariant.{WholeInv, InPhase, view}

-- Some thread can take a step.
abbrev pub CanMove : Whole → Type 0
CanMove s = (i : ℕ) × (i < 4) × (t : Whole) × Move false i s t

inside-cases : (c : Pc) → (c ≡ inside) ⊎ (c ≢ inside)
inside-cases idle = inr (λ e. cc)
inside-cases waiting = inr (λ e. cc)
inside-cases woken = inr (λ e. cc)
inside-cases inside = inl refl

-- Past its test `car_cross` finds a car, and can move it.
first_car :
    {cars : List Car} {t : Threads}
    → Invariant.Inv cars t
    → t.crosser ≡ inside
    → (c : Car) × (get_elem? t.lane.buffer t.lane.head ≡ some (some c))
      × (l : Lane) × (cross t.lane ≡ some l)
first_car {cars} {t} inv p = elim (List-cases inv.queue) [
  | inl nil ↦
      let sees : CrosserSees inside t.lane = rw p at inv.crosser in
      absurd (omega (arith, inv.buffer.count, ap length nil))
  | inr (c, queue, f) ↦
      let b = rw f at inv.buffer in (c, (rw f at inv.buffer.held).0, _, cross_lem b)
]

module _ {cars : ℕ → List Car} {s : Whole} (inv : WholeInv cars s) where
  -- A thread that has a phase of its own is one of the four.
  among : (i : ℕ) → s.phase i ≢ outside → i < 4
  among i ne = elim (dec_lt i 4) [ yes lt ↦ lt | no high ↦ absurd (ne (inv.far i (omega arith))) ]

  pass_on : (i : ℕ) → s.phase i ≡ locking → s.crossing.wanted i ≡ [] → CanMove s
  pass_on i p w =
      let c = inv.cells i in
      let (car, first, l, a) = first_car (rw p at c.lane) (rw p at c.phase) in
      (i, among i (λ e. cc), _, pass_car p w a refl)

  advance : (i : ℕ) {c : Crossing} → Advance i s.crossing c → CanMove s
  advance i (lock q rest w f e) = by_phase (s.phase i) refl (inv.cells i).phase
    where
      by_phase :
          (p : Phase)
          → s.phase i ≡ p
          → InPhase p (s.lanes i) (s.crossing.held i) (s.crossing.wanted i)
          → CanMove s
      by_phase outside e h = absurd (ground (arith, w, h.1))
      by_phase locking e h = (i, among i (λ k. cc), _, lock_quad q rest e w f refl)
      by_phase unlocking e h = absurd (ground (arith, w, h.1))
  advance i (unlock q rest w h e) = by_phase (s.phase i) refl (inv.cells i).phase
    where
      by_phase :
          (p : Phase)
          → s.phase i ≡ p
          → InPhase p (s.lanes i) (s.crossing.held i) (s.crossing.wanted i)
          → CanMove s
      by_phase outside e k = absurd (ground (arith, h, k.0))
      by_phase locking e k = pass_on i e w
      by_phase unlocking e k = (i, among i (λ l. cc), _, unlock_quad q rest e h refl)

  enter : (i : ℕ) → i < 4 → s.phase i ≡ outside → IsDone (s.lanes i) ⊎ CanMove s
  enter i lt p =
      let c : Invariant.Inv (cars i) (s.lanes i) = rw p at (inv.cells i).lane in
      elim (inside-cases (s.lanes i).crosser) [
        | inl q ↦
            let (car, first, l, a) = first_car c q in inr (i, lt, _, take_path car p q first refl)
        | inr ne ↦ elim (Inv_progress c) [
          | inl done ↦ inl done
          | inr (u, st) ↦ inr (i, lt, _, lane_step ne st refl)
        ]
      ]

  -- Each lane is done, or some thread can take a step.
  pub WholeInv_progress : (i : ℕ) → i < 4 → IsDone (view s i) ⊎ CanMove s
  WholeInv_progress i lt = by_phase (s.phase i) refl
    where
      by_phase : (p : Phase) → s.phase i ≡ p → IsDone (view s i) ⊎ CanMove s
      by_phase outside e = rw e (enter i lt e)
      by_phase locking e = elim (List-cases (s.crossing.wanted i)) [
        | inl nil ↦ inr (pass_on i e nil)
        | inr (q, rest, w) ↦
            let (j, c, a) = Advance-above 5 i q rest inv.quadrants w (omega arith) in
            inr (advance j a)
      ]
      by_phase unlocking e = elim (List-cases (s.crossing.held i)) [
        | inl nil ↦ inr (i, lt, _, leave e nil refl)
        | inr (q, rest, h) ↦ inr (i, lt, _, unlock_quad q rest e h refl)
      ]
