-- ===== src/Traffic/Progress.antt =====
-- The runs of a lane's two threads of A2/cars.c: where they end, and how long they are.
use csc369_uoft.Base.{
  ℕ, ◌+◌, ◌*◌, ◌≤◌, ◌<◌, ◌≡◌, ◌≢◌, refl, false, List, [], ◌∷◌, ◌++◌, ◌⊎◌, inl, inr, length, arith,
  reverse, append-nil, length-append, sym, ◌∙◌, ap, ℕ_discrete, List-cases,
}
use csc369_uoft.Traffic.{Car, Lane}
use csc369_uoft.Traffic.Queue.{arrive_lem, cross_lem}
use csc369_uoft.Traffic.System.{
  Pc, idle, waiting, woken, inside, Threads, signal, Step, Steps, start, arrive_enter, arrive_wait,
  arrive_wake, arrive_done, cross_enter, cross_wait, cross_wake, cross_done, arrive_spurious,
  cross_spurious, here, next,
}
use csc369_uoft.Traffic.Invariant.{
  Inv, IsReady, start-Inv, Step-Inv, in_cars_of, queue_of, reverse-cons, ArriverSees, CrosserSees,
}

pub Steps-Inv :
    {cars : List Car} {s t : Threads} {n : ℕ} → Inv cars s → Steps false s n t → Inv cars t
Steps-Inv inv here = inv
Steps-Inv inv (next r st) = Step-Inv (Steps-Inv inv r) st

pub length-reverse {ℓ} : {A : Type ℓ} (xs : List A) → length (reverse xs) ≡ length xs
length-reverse [] = refl
length-reverse (x ∷ xs) =
    omega
      (arith, ap length (reverse-cons x xs), length-append (reverse xs) (x ∷ []), length-reverse xs)

-- Every car is across, in the buffer, or yet to arrive.
pub conserved :
    {cars : List Car} {s : Threads}
    → Inv cars s
    → s.lane.passed + s.lane.in_buf + length s.lane.in_cars ≡ s.lane.inc
conserved {s} inv = omega (
  arith,
  inv.all,
  inv.passed,
  inv.buffer.count,
  ap length inv.order,
  length-append (reverse s.lane.out_cars) (inv.queue ++ s.lane.in_cars),
  length-append inv.queue s.lane.in_cars,
  length-reverse s.lane.out_cars,
)

-- What is left to do, and how far a thread is from its critical section.
abbrev pub work : Lane → ℕ
work l = 2 * length l.in_cars + l.in_buf

abbrev pub rank : Pc → ℕ
rank idle = 3
rank waiting = 2
rank woken = 1
rank inside = 0

abbrev pub measure : Threads → ℕ
measure s = 8 * work s.lane + (rank s.arriver + rank s.crosser)

rank-signal : (p : Pc) → rank (signal p) ≤ rank p
unfolding signal
rank-signal idle = omega arith
rank-signal waiting = omega arith
rank-signal woken = omega arith
rank-signal inside = omega arith

pub Step-measure :
    {cars : List Car} {s t : Threads} → Inv cars s → Step false s t → measure t < measure s
Step-measure inv (arrive_enter p more q room e) = ground arith
Step-measure inv (arrive_wait p more q full e) = ground arith
Step-measure inv (arrive_wake p q e) = ground arith
Step-measure {s} inv (arrive_done p a e) =
    let (c, rest, f, g) = in_cars_of inv a in ground (arith, rank-signal s.crosser, ap length f)
Step-measure inv (cross_enter p more q some_in e) = ground arith
Step-measure inv (cross_wait p more q none_in e) = ground arith
Step-measure inv (cross_wake p q e) = ground arith
Step-measure {s} inv (cross_done p a e) =
    let some_in : 0 < s.lane.in_buf = ground (arith, inv.crosser) in
    let (c, queue, f, g) = queue_of inv some_in a in ground (arith, rank-signal s.arriver)
Step-measure inv (arrive_spurious f p e) = cc
Step-measure inv (cross_spurious f p e) = cc

Steps-measure :
    {cars : List Car} {s t : Threads} {n : ℕ}
    → Inv cars s
    → Steps false s n t
    → n + measure t ≤ measure s
Steps-measure inv here = omega arith
Steps-measure inv (next r st) =
    omega (arith, Steps-measure inv r, Step-measure (Steps-Inv inv r) st)

-- Without spurious wake-ups, no run of the two threads of a ready lane is longer than 16 steps for
-- each car and 6 more.
Steps-bounded :
    {cars : List Car} {l : Lane} {t : Threads} {n : ℕ}
    → IsReady cars l
    → Steps false (start l) n t
    → n ≤ 16 * length cars + 6
Steps-bounded r st =
    omega (arith, Steps-measure (start-Inv r) st, r.empty.count, ap length r.scheduled)

-- Some thread can take a step.
abbrev pub CanStep : Threads → Type 0
CanStep s = (t : Threads) × Step false s t

-- Done: no car is to arrive, and all have passed.
abbrev pub IsDone : Threads → Type 0
IsDone s = (s.lane.in_cars ≡ []) × (s.lane.passed ≡ s.lane.inc)

module _ {cars : List Car} {s : Threads} (inv : Inv cars s) where
  arriver_inside : s.arriver ≡ inside → CanStep s
  arriver_inside p = elim (List-cases s.lane.in_cars) [
    | inl nil ↦ absurd (let sees : ArriverSees inside s.lane = rw p at inv.arriver in sees.1 nil)
    | inr (c, rest, f) ↦ (_, arrive_done p (arrive_lem s.lane c rest f) refl)
  ]

  crosser_inside : s.crosser ≡ inside → CanStep s
  crosser_inside p = elim (List-cases inv.queue) [
    | inl nil ↦
        let sees : CrosserSees inside s.lane = rw p at inv.crosser in
        absurd (omega (arith, inv.buffer.count, ap length nil))
    | inr (c, queue, f) ↦ (_, cross_done p (cross_lem (rw f at inv.buffer)) refl)
  ]

  arriver_idle : s.arriver ≡ idle → s.crosser ≢ inside → s.lane.in_cars ≢ [] → CanStep s
  arriver_idle p q more = elim (ℕ_discrete s.lane.in_buf s.lane.capacity) [
    | yes full ↦ (_, arrive_wait p more q full refl)
    | no room ↦ (_, arrive_enter p more q room refl)
  ]

  crosser_idle : s.crosser ≡ idle → s.arriver ≢ inside → s.lane.passed ≢ s.lane.inc → CanStep s
  crosser_idle p q more = elim (ℕ_discrete s.lane.in_buf 0) [
    | yes none_in ↦ (_, cross_wait p more q none_in refl)
    | no some_in ↦ (_, cross_enter p more q some_in refl)
  ]

  more_of_passed : s.lane.in_buf ≡ 0 → s.lane.passed ≢ s.lane.inc → s.lane.in_cars ≢ []
  more_of_passed none_in ne nil = ne (omega (arith, conserved inv, ap length nil))

  passed-ne-inc : 0 < s.lane.in_buf → s.lane.passed ≢ s.lane.inc
  passed-ne-inc some_in e = omega (arith, conserved inv)

  both_idle : s.arriver ≡ idle → s.crosser ≡ idle → IsDone s ⊎ CanStep s
  both_idle p q = elim (List-cases s.lane.in_cars) [
    | inl nil ↦ elim (ℕ_discrete s.lane.passed s.lane.inc) [
      | yes e ↦ inl (nil, e)
      | no ne ↦ inr (crosser_idle q (λ w. cc) ne)
    ]
    | inr (c, rest, f) ↦ inr (arriver_idle p (λ w. cc) (λ nil. cc))
  ]

  at_pcs :
      (a c : Pc)
      → s.arriver ≡ a
      → s.crosser ≡ c
      → ArriverSees a s.lane
      → CrosserSees c s.lane
      → IsDone s ⊎ CanStep s
  at_pcs inside _ p q sa sc = inr (arriver_inside p)
  at_pcs _ inside p q sa sc = inr (crosser_inside q)
  at_pcs woken _ p q sa sc = inr (_, arrive_wake p (λ w. cc) refl)
  at_pcs _ woken p q sa sc = inr (_, cross_wake q (λ w. cc) refl)
  at_pcs idle idle p q sa sc = both_idle p q
  at_pcs idle waiting p q sa sc = inr (arriver_idle p (λ w. cc) (more_of_passed sc.0 sc.1))
  at_pcs waiting idle p q sa sc =
      inr (crosser_idle q (λ w. cc) (passed-ne-inc (omega (arith, inv.buffer.head_in))))
  at_pcs waiting waiting p q sa sc = absurd (omega (arith, inv.buffer.head_in))

  -- In every state in which the lane's invariant holds, the lane is done or some thread can take a
  -- step.
  pub Inv_progress : IsDone s ⊎ CanStep s
  Inv_progress = at_pcs s.arriver s.crosser refl refl inv.arriver inv.crosser

-- A lane that is done has moved all its cars.
pub done_lem :
    {cars : List Car} {t : Threads}
    → Inv cars t
    → IsDone t
    → (reverse t.lane.out_cars ≡ cars) × (t.lane.passed ≡ length cars) × (t.lane.in_buf ≡ 0)
done_lem {cars} {t} inv (nil, all) =
    let none_in : t.lane.in_buf ≡ 0 = omega (arith, conserved inv) in
    let empty : inv.queue ≡ [] = elim (List-cases inv.queue) [
      | inl e ↦ e
      | inr (c, queue, f) ↦ absurd (omega (arith, inv.buffer.count, ap length f))
    ] in
    (sym (append-nil _) ∙ rw (empty, nil) at inv.order, all ∙ inv.all, none_in)

-- Where a run from a ready lane, without spurious wake-ups, comes to a state in which no thread
-- can take a step, all cars of the schedule have crossed in the order of their arrival, all are
-- counted, and the buffer is empty.
Steps-end :
    {cars : List Car} {l : Lane} {t : Threads} {n : ℕ}
    → IsReady cars l
    → Steps false (start l) n t
    → ((u : Threads) → ¬ Step false t u)
    → (reverse t.lane.out_cars ≡ cars) × (t.lane.passed ≡ length cars) × (t.lane.in_buf ≡ 0)
Steps-end r st stuck =
    let inv = Steps-Inv (start-Inv r) st in
    elim (Inv_progress inv) [ inr (u, go) ↦ absurd (stuck u go) | inl done ↦ done_lem inv done ]
