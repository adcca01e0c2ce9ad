-- ===== src/Traffic/Queue.antt =====
-- A lane's circular buffer holds a queue of cars: what `arrive` and `cross` do to it.
use csc369_uoft.Base.{
  ℕ, suc, ◌+◌, ◌-◌, ◌%◌, ◌≤◌, ◌<◌, ◌≡◌, ◌≢◌, List, [], ◌∷◌, ◌++◌, Option, some, get_elem?, set,
  length, arith, get_elem?-set_self, get_elem?-set_ne, length-set, dec_lt, sym, ◌∙◌, ap,
  length-append,
}
use native.Mathlib.Nat.{mod-add-mod, mod-eq_of_lt, mod-eq-sub-mod}
use csc369_uoft.Traffic.{Car, Lane}
use csc369_uoft.Traffic.Buffer.{arrive, cross}

-- Going round from slot `h`, the buffer points to the cars of the queue, in order.
abbrev pub Holds : List (Option Car) → ℕ → ℕ → List Car → Type 0
Holds buf cap h [] = Unit
Holds buf cap h (c ∷ cs) = (get_elem? buf h ≡ some (some c)) × Holds buf cap ((h + 1) % cap) cs

-- Fewer than `cap` steps round the buffer lead to another slot.
step_round : (cap h k : ℕ) → h < cap → 0 < k → k < cap → (h + k) % cap ≢ h
step_round cap h k hh pk hk = elim (dec_lt (h + k) cap) [
  | yes p ↦ omega (arith, mod-eq_of_lt p)
  | no p ↦ omega (
    arith,
    mod-eq-sub-mod {n = h + k} {m = cap} (omega arith),
    mod-eq_of_lt {n = h + k - cap} {m = cap} (omega arith),
  )
]

shift_round : (cap h k : ℕ) → (h + suc k) % cap ≡ ((h + 1) % cap + k) % cap
shift_round cap h k = rw mod-add-mod (ap (λ (m : ℕ). m % cap) (omega arith))

Holds-set :
    (buf : List (Option Car)) (cap h i : ℕ) (cs : List Car) (c : Car)
    → length buf ≡ cap
    → h < cap
    → length cs < cap
    → i ≡ (h + length cs) % cap
    → Holds buf cap h cs
    → Holds (set buf i (some c)) cap h (cs ++ c ∷ [])
Holds-set buf cap h i [] c fits hh hn e held =
    let same : i ≡ h = e ∙ rw (mod-eq_of_lt {n = h + 0} {m = cap} (omega arith)) (omega arith) in
    (rw same (get_elem?-set_self buf h (some c) (omega arith)), tt)
Holds-set buf cap h i (d ∷ cs) c fits hh hn e held = (
  get_elem?-set_ne buf i h (some c)
        (λ same. step_round cap h (suc (length cs)) hh (omega arith) hn (sym e ∙ same))
      ∙ held.0,
  Holds-set buf cap ((h + 1) % cap) i cs c fits (omega arith) (omega arith)
      (e ∙ shift_round cap h (length cs)) held.1,
)

-- The buffer of a lane holds `queue`.
pub record IsQueue (l : Lane) (queue : List Car) : Type 0 where
  pub slots : length l.buffer ≡ l.capacity
  pub head_in : l.head < l.capacity
  pub count : l.in_buf ≡ length queue
  pub count_in : l.in_buf ≤ l.capacity
  pub tail_at : l.tail ≡ (l.head + l.in_buf) % l.capacity
  pub held : Holds l.buffer l.capacity l.head queue

-- A car that arrives stands last.
abbrev pub arrived : Lane → Car → List Car → Lane
arrived l c rest = record l {
  buffer = set l.buffer l.tail (some c);
  in_cars = rest;
  tail = (l.tail + 1) % l.capacity;
  in_buf = l.in_buf + 1;
}

pub arrive_lem :
    (l : Lane) (c : Car) (rest : List Car)
    → l.in_cars ≡ c ∷ rest
    → arrive l ≡ some (arrived l c rest)
unfolding arrive
arrive_lem l c rest e = rw e

pub arrived-IsQueue :
    {l : Lane} {queue : List Car} (c : Car) (rest : List Car)
    → IsQueue l queue
    → l.in_buf < l.capacity
    → IsQueue (arrived l c rest) (queue ++ c ∷ [])
arrived-IsQueue {l} {queue} c rest q room = record {
  slots = length-set l.buffer l.tail (some c) ∙ q.slots;
  head_in = q.head_in;
  count = omega (arith, q.count, length-append queue (c ∷ []));
  count_in = omega arith;
  tail_at = rw q.tail_at (rw mod-add-mod (ap (λ (m : ℕ). m % l.capacity) (omega arith)));
  held =
      Holds-set l.buffer l.capacity l.head l.tail queue c q.slots q.head_in (omega (arith, q.count))
        (rw (← q.count) q.tail_at) q.held;
}

-- The car that crosses stood first.
abbrev pub crossed : Lane → Car → Lane
crossed l c = record l {
  out_cars = c ∷ l.out_cars;
  head = (l.head + 1) % l.capacity;
  passed = l.passed + 1;
  in_buf = l.in_buf - 1;
}

pub cross_lem :
    {l : Lane} {c : Car} {queue : List Car} → IsQueue l (c ∷ queue) → cross l ≡ some (crossed l c)
unfolding cross
cross_lem {l} {c} q = rw (q.held.0, cross)

pub crossed-IsQueue :
    {l : Lane} {c : Car} {queue : List Car} → IsQueue l (c ∷ queue) → IsQueue (crossed l c) queue
crossed-IsQueue {l} {c} {queue} q = record {
  slots = q.slots;
  head_in = omega (arith, q.head_in);
  count = omega (arith, q.count);
  count_in = omega arith;
  tail_at =
      q.tail_at
      ∙ ap (λ (m : ℕ). (l.head + m) % l.capacity) (omega (arith, q.count))
      ∙ shift_round l.capacity l.head (l.in_buf - 1);
  held = q.held.1;
}
