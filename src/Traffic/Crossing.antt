-- ===== src/Traffic/Crossing.antt =====
-- The quadrants of the intersection as the four `car_cross` threads of A2/cars.c lock them: each locks
-- those of its car one by one, in the order of `compute_path`, and then gives them back.
use csc369_uoft.Base.{
  ℕ, zero, suc, ◌+◌, ◌≤◌, ◌<◌, ◌≡◌, ◌≢◌, refl, true, List, [], ◌∷◌, Option, none, some, ◌⊎◌, inl,
  inr, contains, arith, update, List-cases, Option-cases, ◌==◌, Bool-cases, distinct,
}
use csc369_uoft.Traffic.{Direction}
use csc369_uoft.Traffic.Route.{
  compute_path, quads, Increasing, AllWithin, IsDirection, compute_path-Increasing,
}

-- `quad q` is the thread that holds the mutex of quadrant q; `held` and `wanted` are, for each thread,
-- the quadrants that it has locked and those that it has still to lock.
pub record Crossing : Type 0 where
  pub quad : ℕ → Option ℕ
  pub held : ℕ → List ℕ
  pub wanted : ℕ → List ℕ

-- A step of thread `j`.
pub data Advance (j : ℕ) (s t : Crossing) : Type 0 where
  lock :
      (q : ℕ) (rest : List ℕ)
      → s.wanted j ≡ q ∷ rest
      → s.quad q ≡ none
      → t ≡ record {
        quad = update s.quad q (some j);
        held = update s.held j (q ∷ s.held j);
        wanted = update s.wanted j rest;
      }
      → Advance j s t
  unlock :
      (q : ℕ) (rest : List ℕ)
      → s.wanted j ≡ []
      → s.held j ≡ q ∷ rest
      → t ≡ record s { quad = update s.quad q none; held = update s.held j rest }
      → Advance j s t

-- Thread `j` takes up its next car.
pub data Begin (j : ℕ) (s t : Crossing) : Type 0 where
  begin :
      (a b : Direction)
      → IsDirection a
      → IsDirection b
      → s.held j ≡ []
      → s.wanted j ≡ []
      → t ≡ record s { wanted = update s.wanted j (quads (compute_path a b)) }
      → Begin j s t

pub data Reach : Crossing → Type 0 where
  free : Reach (record { quad = λ q. none; held = λ j. []; wanted = λ j. [] })
  advanced : {s t : Crossing} (j : ℕ) → Reach s → Advance j s t → Reach t
  begun : {s t : Crossing} (j : ℕ) → Reach s → Begin j s t → Reach t

-- Each mutex is held by the thread that has it on its list, once, and what a thread wants lies above
-- all that it holds.
pub record Inv (s : Crossing) : Type 0 where
  pub owned : (q j : ℕ) → s.quad q ≡ some j → contains q (s.held j) ≡ true
  pub owner : (q j : ℕ) → contains q (s.held j) ≡ true → s.quad q ≡ some j
  pub once : (j : ℕ) → distinct (s.held j) ≡ true
  pub above : (q j : ℕ) → contains q (s.held j) ≡ true → Increasing q (s.wanted j)
  pub wants : (j : ℕ) → Increasing 0 (s.wanted j) × AllWithin (s.wanted j)

Increasing-mono : (lo lo' : ℕ) (l : List ℕ) → lo ≤ lo' → Increasing lo' l → Increasing lo l
Increasing-mono lo lo' [] h i = tt
Increasing-mono lo lo' (x ∷ l) h i = (omega arith, i.1)

-- What a thread holds lies below what it has still to lock, after one more lock too.
Increasing-locked :
    (p q : ℕ) (held rest : List ℕ)
    → Increasing 0 (q ∷ rest)
    → (contains p held ≡ true → Increasing p (q ∷ rest))
    → contains p (q ∷ held) ≡ true
    → Increasing p rest
Increasing-locked p q held rest w above e = elim (Bool-cases (q == p)) [
  | inl same ↦ let eq : p ≡ q = ground arith in rw eq w.1
  | inr other ↦
      let h : contains p held ≡ true = ground arith in
      Increasing-mono p q rest (omega (arith, (above h).0)) w.1
]

pub lock-Inv :
    {s : Crossing} (j q : ℕ) (rest : List ℕ)
    → Inv s
    → s.wanted j ≡ q ∷ rest
    → s.quad q ≡ none
    → Inv (record {
      quad = update s.quad q (some j);
      held = update s.held j (q ∷ s.held j);
      wanted = update s.wanted j rest;
    })
lock-Inv {s} j q rest inv w f = record {
  owned = λ p i e. ground (arith, inv.owned p i);
  owner = λ p i e. ground (arith, inv.owner p i, inv.owner q i);
  once = λ i. ground (arith, inv.once i, inv.owner q i);
  above = λ p i e. elim (Bool-cases (j == i)) [
    | inl same ↦
        let eq : i ≡ j = ground arith in
        rw same (
          Increasing-locked p q (s.held j) rest now.0 (λ h. rw w at (inv.above p j h))
            (rw same at e))
    | inr other ↦ rw other (inv.above p i (rw other at e))
  ];
  wants = λ i. elim (Bool-cases (j == i)) [
    | inl same ↦ rw same (Increasing-mono 0 q rest (omega arith) now.0.1, now.1.1)
    | inr other ↦ rw other (inv.wants i)
  ];
}
  where
    now : Increasing 0 (q ∷ rest) × AllWithin (q ∷ rest)
    now = rw w at (inv.wants j)

pub unlock-Inv :
    {s : Crossing} (j q : ℕ) (rest : List ℕ)
    → Inv s
    → s.wanted j ≡ []
    → s.held j ≡ q ∷ rest
    → Inv (record s { quad = update s.quad q none; held = update s.held j rest })
unlock-Inv {s} j q rest inv w h = record {
  owned = λ p i e. ground (arith, inv.owned p i, mine);
  owner = λ p i e. ground (arith, inv.owner p i, inv.owner q j, single, inv.owner p j);
  once = λ i. ground (arith, inv.once i, single);
  above = λ p i e. elim (Bool-cases (j == i)) [
    | inl same ↦ let eq : i ≡ j = ground arith in rw (eq, w) tt
    | inr other ↦ inv.above p i (rw other at e)
  ];
  wants = inv.wants;
}
  where
    mine : contains q (s.held j) ≡ true
    mine = rw h (ground arith)

    single : distinct (q ∷ rest) ≡ true
    single = rw h at (inv.once j)

pub begin-Inv :
    {s : Crossing} (j : ℕ) (a b : Direction)
    → Inv s
    → IsDirection a
    → IsDirection b
    → s.held j ≡ []
    → Inv (record s { wanted = update s.wanted j (quads (compute_path a b)) })
begin-Inv {s} j a b inv pa pb h = record {
  owned = inv.owned;
  owner = inv.owner;
  once = inv.once;
  above = λ p i e. elim (Bool-cases (j == i)) [
    | inl same ↦ let eq : i ≡ j = ground arith in absurd (ground (arith, h))
    | inr other ↦ rw other (inv.above p i e)
  ];
  wants = λ i. elim (Bool-cases (j == i)) [
    | inl same ↦ let c = compute_path-Increasing a b pa pb in rw same (c.0, c.1)
    | inr other ↦ rw other (inv.wants i)
  ];
}

pub Reach-Inv : {s : Crossing} → Reach s → Inv s
Reach-Inv free = record {
  owned = λ q j e. cc;
  owner = λ q j e. cc;
  once = λ j. refl;
  above = λ q j e. cc;
  wants = λ j. (tt, tt);
}
Reach-Inv (advanced j r (lock q rest w f e)) = rw e (lock-Inv j q rest (Reach-Inv r) w f)
Reach-Inv (advanced j r (unlock q rest w h e)) = rw e (unlock-Inv j q rest (Reach-Inv r) w h)
Reach-Inv (begun j r (begin a b pa pb h w e)) = rw e (begin-Inv j a b (Reach-Inv r) pa pb h)

-- A thread that waits for quadrant `q` leads to one that can go on: the holder of `q` wants only
-- higher quadrants.
pub Advance-above :
    {s : Crossing} (n : ℕ) (i q : ℕ) (rest : List ℕ)
    → Inv s
    → s.wanted i ≡ q ∷ rest
    → 4 < q + n
    → (j : ℕ) × (t : Crossing) × Advance j s t
Advance-above zero i q rest inv w far =
    let (up, within) : Increasing 0 (q ∷ rest) × AllWithin (q ∷ rest) = rw w at (inv.wants i) in
    absurd (omega arith)
Advance-above {s} (suc n) i q rest inv w far = elim (Option-cases (s.quad q)) [
  | inl open_quad ↦ (i, _, lock q rest w open_quad refl)
  | inr (j, mine) ↦ elim (List-cases (s.wanted j)) [
    | inr (p, more, w') ↦
        let up : Increasing q (p ∷ more) = rw w' at (inv.above q j (inv.owned q j mine)) in
        Advance-above n j p more inv w' (omega arith)
    | inl satisfied ↦ elim (List-cases (s.held j)) [
      | inr (p, more, h) ↦ (j, _, unlock p more satisfied h refl)
      | inl nil ↦ let own : contains q [] ≡ true = rw nil at (inv.owned q j mine) in cc
    ]
  ]
]

-- In every state that the threads can reach, while a thread holds or wants a quadrant, some thread
-- can lock or unlock one.
pub quad_progress :
    {s : Crossing}
    → Reach s
    → (i : ℕ) → (s.wanted i ≢ []) ⊎ (s.held i ≢ [])
    → (j : ℕ) × (t : Crossing) × Advance j s t
quad_progress {s} r i busy = elim (List-cases (s.wanted i)) [
  | inr (q, rest, w) ↦ Advance-above 5 i q rest (Reach-Inv r) w (omega arith)
  | inl nil ↦ elim (List-cases (s.held i)) [
    | inr (q, rest, h) ↦ (i, _, unlock q rest nil h refl)
    | inl none_held ↦ absurd (ground arith)
  ]
]
