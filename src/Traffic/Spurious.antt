-- ===== src/Traffic/Spurious.antt =====
-- `car_arrive` tests for room by an `if`, and does not test again when `pthread_cond_wait` returns.
use csc369_uoft.Base.{
  ℕ, ◌+◌, ◌%◌, ◌<◌, ◌≡◌, ◌≢◌, refl, true, List, some, get_elem?, arith, get_elem?-set_self, ◌∙◌, ap,
  List-cases, inl, inr,
}
use native.Mathlib.Nat.{mod-eq_of_lt, mod-eq-sub-mod}
use csc369_uoft.Traffic.{Car, Lane}
use csc369_uoft.Traffic.Queue.{arrived, arrive_lem}
use csc369_uoft.Traffic.System.{
  idle, waiting, inside, Threads, signal, Steps, arrive_wake, arrive_done, arrive_spurious, here,
  next,
}
use csc369_uoft.Traffic.Invariant.{Inv, ArriverSees}

-- A lane that holds one car more than its capacity, the last one in the slot of the first.
pub record IsOverrun (c : Car) (l : Lane) : Type 0 where
  pub too_many : l.in_buf ≡ l.capacity + 1
  pub lost : get_elem? l.buffer l.head ≡ some (some c)

round_again : (cap h : ℕ) → h < cap → (h + cap) % cap ≡ h
round_again cap h lt =
    mod-eq-sub-mod {n = h + cap} {m = cap} (omega arith)
    ∙ ap (λ (m : ℕ). m % cap) (omega arith)
    ∙ mod-eq_of_lt lt

-- In a state in which the lane's invariant holds, `car_arrive` waits and `car_cross` does not hold
-- the lock, a spurious return of `pthread_cond_wait` lets `car_arrive` put a car more than the
-- capacity into the buffer, over the car that has waited longest.
pub spurious-IsOverrun :
    {cars : List Car} {s : Threads}
    → Inv cars s
    → s.arriver ≡ waiting
    → s.crosser ≢ inside
    → (c : Car) × (t : Threads) × Steps true s 3 t × IsOverrun c t.lane
spurious-IsOverrun {s} inv p q = elim (List-cases s.lane.in_cars) [
  | inl nil ↦ absurd (sees.1 nil)
  | inr (c, rest, f) ↦ (
    c,
    record { lane = arrived s.lane c rest; arriver = idle; crosser = signal s.crosser },
    next (next (next here (arrive_spurious refl p refl)) (arrive_wake refl q refl))
        (arrive_done refl (arrive_lem s.lane c rest f) refl),
    record {
      too_many = omega (arith, sees.0);
      lost = rw at_head (
          get_elem?-set_self s.lane.buffer s.lane.head (some c)
            (omega (arith, inv.buffer.slots, inv.buffer.head_in)));
    },
  )
]
  where
    sees : ArriverSees waiting s.lane
    sees = rw p at inv.arriver

    at_head : s.lane.tail ≡ s.lane.head
    at_head =
        inv.buffer.tail_at ∙ rw sees.0 (round_again s.lane.capacity s.lane.head inv.buffer.head_in)
