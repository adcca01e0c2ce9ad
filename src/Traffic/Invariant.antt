-- ===== src/Traffic/Invariant.antt =====
-- What the two threads of a lane keep true, where `pthread_cond_wait` returns only when signalled.
use csc369_uoft.Base.{
  ◌≤◌, ◌<◌, ◌≡◌, ◌≢◌, false, List, [], ◌∷◌, ◌++◌, none, some, inl, inr, length, arith, reverse,
  append_assoc, sym, ◌∙◌, ap, List-cases,
}
use mathlib.Core.List.{reverse-append}
use csc369_uoft.Traffic.{Car, Lane}
use csc369_uoft.Traffic.Buffer.{arrive, cross}
use csc369_uoft.Traffic.Queue.{
  IsQueue, arrived, arrived-IsQueue, arrive_lem, crossed, crossed-IsQueue, cross_lem,
}
use csc369_uoft.Traffic.System.{
  Pc, idle, waiting, woken, inside, Threads, signal, Step, start, arrive_enter, arrive_wait,
  arrive_wake, arrive_done, cross_enter, cross_wait, cross_wake, cross_done, arrive_spurious,
  cross_spurious,
}

-- What a thread may rely on where it stands.
abbrev pub ArriverSees : Pc → Lane → Type 0
ArriverSees idle l = Unit
ArriverSees waiting l = (l.in_buf ≡ l.capacity) × (l.in_cars ≢ [])
ArriverSees woken l = (l.in_buf < l.capacity) × (l.in_cars ≢ [])
ArriverSees inside l = (l.in_buf < l.capacity) × (l.in_cars ≢ [])

abbrev pub CrosserSees : Pc → Lane → Type 0
CrosserSees idle l = Unit
CrosserSees waiting l = (l.in_buf ≡ 0) × (l.passed ≢ l.inc)
CrosserSees woken l = 0 < l.in_buf
CrosserSees inside l = 0 < l.in_buf

-- `cars` is the lane's schedule, in the order of arrival.
pub record Inv (cars : List Car) (s : Threads) : Type 0 where
  pub queue : List Car
  pub buffer : IsQueue s.lane queue
  pub order : reverse s.lane.out_cars ++ (queue ++ s.lane.in_cars) ≡ cars
  pub all : s.lane.inc ≡ length cars
  pub passed : s.lane.passed ≡ length s.lane.out_cars
  pub exclusive : s.arriver ≡ inside → s.crosser ≢ inside
  pub arriver : ArriverSees s.arriver s.lane
  pub crosser : CrosserSees s.crosser s.lane

-- A lane before its threads start.
pub record IsReady (cars : List Car) (l : Lane) : Type 0 where
  pub scheduled : l.in_cars ≡ cars
  pub counted : l.inc ≡ length cars
  pub none_out : l.out_cars ≡ []
  pub none_passed : l.passed ≡ 0
  pub empty : IsQueue l []

pub start-Inv : {cars : List Car} {l : Lane} → IsReady cars l → Inv cars (start l)
start-Inv {cars} {l} r = record {
  queue = [];
  buffer = r.empty;
  order = rw r.none_out r.scheduled;
  all = r.counted;
  passed = rw (r.none_out, r.none_passed);
  exclusive = λ e. cc;
  arriver = tt;
  crosser = tt;
}

pub some-inj {ℓ} : {A : Type ℓ} {a b : A} → some a ≡ some b → a ≡ b
some-inj e = cc

pub reverse-cons {ℓ} : {A : Type ℓ} (x : A) (xs : List A) → reverse (x ∷ xs) ≡ reverse xs ++ x ∷ []
reverse-cons x xs = reverse-append (x ∷ []) xs

CrosserSees-arrived :
    (p : Pc) (l : Lane) (c : Car) (rest : List Car)
    → CrosserSees p l
    → CrosserSees (signal p) (arrived l c rest)
unfolding signal
CrosserSees-arrived idle l c rest h = tt
CrosserSees-arrived waiting l c rest h = omega arith
CrosserSees-arrived woken l c rest h = omega arith
CrosserSees-arrived inside l c rest h = omega arith

ArriverSees-crossed :
    (p : Pc) (l : Lane) (c : Car)
    → 0 < l.in_buf
    → l.in_buf ≤ l.capacity
    → ArriverSees p l
    → ArriverSees (signal p) (crossed l c)
unfolding signal
ArriverSees-crossed idle l c some_in fits h = tt
ArriverSees-crossed waiting l c some_in fits h = (omega arith, h.1)
ArriverSees-crossed woken l c some_in fits h = (omega arith, h.1)
ArriverSees-crossed inside l c some_in fits h = (omega arith, h.1)

signal-ne-inside : (p : Pc) → p ≢ inside → signal p ≢ inside
unfolding signal
signal-ne-inside idle ne e = cc
signal-ne-inside waiting ne e = cc
signal-ne-inside woken ne e = cc
signal-ne-inside inside ne e = ne e

module _ {cars : List Car} {s : Threads} (inv : Inv cars s) where
  arrive-Inv :
      (c : Car) (rest : List Car)
      → s.arriver ≡ inside
      → s.lane.in_cars ≡ c ∷ rest
      → Inv cars
          (record { lane = arrived s.lane c rest; arriver = idle; crosser = signal s.crosser })
  arrive-Inv c rest stands e = record {
    queue = inv.queue ++ c ∷ [];
    buffer = arrived-IsQueue c rest inv.buffer (ground (arith, inv.arriver));
    order = simp append_assoc (rw (← e) inv.order);
    all = inv.all;
    passed = inv.passed;
    exclusive = λ e. cc;
    arriver = tt;
    crosser = CrosserSees-arrived s.crosser s.lane c rest inv.crosser;
  }

  cross-Inv :
      (c : Car) (queue : List Car)
      → s.crosser ≡ inside
      → inv.queue ≡ c ∷ queue
      → Inv cars (record { lane = crossed s.lane c; arriver = signal s.arriver; crosser = idle })
  cross-Inv c queue stands e = record {
    queue = queue;
    buffer = crossed-IsQueue (rw e at inv.buffer);
    order = rw (reverse-cons, append_assoc) (rw e at inv.order);
    all = inv.all;
    passed = omega (arith, inv.passed);
    exclusive = λ a b. cc;
    arriver =
        ArriverSees-crossed s.arriver s.lane c (ground (arith, inv.crosser)) inv.buffer.count_in
          inv.arriver;
    crosser = tt;
  }

  -- A thread that only moves on keeps the invariant.
  move-Inv :
      (a c : Pc)
      → (a ≡ inside → c ≢ inside)
      → ArriverSees a s.lane
      → CrosserSees c s.lane
      → Inv cars (record { lane = s.lane; arriver = a; crosser = c })
  move-Inv a c ex sees_a sees_c = record {
    queue = inv.queue;
    buffer = inv.buffer;
    order = inv.order;
    all = inv.all;
    passed = inv.passed;
    exclusive = ex;
    arriver = sees_a;
    crosser = sees_c;
  }

  -- What `arrive` and `cross` made of the lane.
  pub in_cars_of :
      {l : Lane}
      → arrive s.lane ≡ some l
      → (c : Car) × (rest : List Car) × (s.lane.in_cars ≡ c ∷ rest) × (l ≡ arrived s.lane c rest)
  unfolding arrive
  in_cars_of {l} e = elim (List-cases s.lane.in_cars) [
    | inl nil ↦ let none_left : none ≡ some l = rw nil at e in cc
    | inr (c, rest, f) ↦ (c, rest, f, some-inj (sym e ∙ arrive_lem s.lane c rest f))
  ]

  pub queue_of :
      {l : Lane}
      → 0 < s.lane.in_buf
      → cross s.lane ≡ some l
      → (c : Car) × (queue : List Car) × (inv.queue ≡ c ∷ queue) × (l ≡ crossed s.lane c)
  queue_of some_in e = elim (List-cases inv.queue) [
    | inl nil ↦ absurd (omega (arith, inv.buffer.count, ap length nil))
    | inr (c, queue, f) ↦ (c, queue, f, some-inj (sym e ∙ cross_lem (rw f at inv.buffer)))
  ]

  pub Step-Inv : {t : Threads} → Step false s t → Inv cars t
  Step-Inv (arrive_enter p more q room e) =
      rw e
        (move-Inv inside s.crosser (λ _. q) (omega (arith, inv.buffer.count_in), more) inv.crosser)
  Step-Inv (arrive_wait p more q full e) =
      rw e (move-Inv waiting s.crosser (λ w. cc) (full, more) inv.crosser)
  Step-Inv (arrive_wake p q e) =
      rw e (move-Inv inside s.crosser (λ _. q) (rw p at inv.arriver) inv.crosser)
  Step-Inv (arrive_done p a e) =
      let (c, rest, f, g) = in_cars_of a in rw (e, g) (arrive-Inv c rest p f)
  Step-Inv (cross_enter p more q some_in e) =
      rw e (move-Inv s.arriver inside (λ w. absurd (q w)) inv.arriver (omega arith))
  Step-Inv (cross_wait p more q none_in e) =
      rw e (move-Inv s.arriver waiting (λ w. cc) inv.arriver (none_in, more))
  Step-Inv (cross_wake p q e) =
      rw e (move-Inv s.arriver inside (λ w. absurd (q w)) inv.arriver (ground (arith, inv.crosser)))
  Step-Inv (cross_done p a e) =
      let (c, queue, f, g) = queue_of (ground (arith, inv.crosser)) a in
      rw (e, g) (cross-Inv c queue p f)
  Step-Inv (arrive_spurious f p e) = cc
  Step-Inv (cross_spurious f p e) = cc
