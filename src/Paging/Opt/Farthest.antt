-- ===== src/Paging/Opt/Farthest.antt =====
-- The frame that `opt_evict` of A3/opt.c chooses.
use csc369_uoft.Base.{
  ℕ, zero, suc, ◌+◌, ◌≤◌, ◌<◌, ◌≡◌, ◌≢◌, refl, ap, ◌∙◌, sym, Option, none, some, List, [], ◌∷◌, ltb,
  ◌==◌, arith, Bool-cases, Option-cases, lt_suc-cases, inl, inr, ◌⊎◌, get_elem?,
}
use csc369_uoft.Paging.{Page, Vm}
use csc369_uoft.Paging.Opt.{next_use, farthest_from, page_in, opt_evict}

-- What `next_use` says of page `v`: at no place of the list, or first at place `d`.
abbrev pub UsedAt : ℕ → List ℕ → Option ℕ → Type 0
UsedAt v trace none = (j : ℕ) → get_elem? trace j ≢ some v
UsedAt v trace (some d) =
    (get_elem? trace d ≡ some v) × ((j : ℕ) → j < d → get_elem? trace j ≢ some v)

-- The place in a list from the place in its rest.
abbrev later : Option ℕ → Option ℕ
later none = none
later (some d) = some (d + 1)

UsedAt-later :
    (v x : ℕ) (trace : List ℕ) (r : Option ℕ)
    → x ≢ v
    → UsedAt v trace r
    → UsedAt v (x ∷ trace) (later r)
UsedAt-later v x trace none n h = unused
  where
    unused : UsedAt v (x ∷ trace) none
    unused zero e = n (ground arith)
    unused (suc j) e = h j e
UsedAt-later v x trace (some d) n (there, before) = (ap (get_elem? (x ∷ trace)) plus ∙ there, first)
  where
    plus : d + 1 ≡ suc d
    plus = omega arith

    first : (j : ℕ) → j < d + 1 → get_elem? (x ∷ trace) j ≢ some v
    first zero lt e = n (ground arith)
    first (suc j) lt e = before j (omega arith) e

next_use-later : (v k : ℕ) (trace : List ℕ) → next_use v (k + 1) trace ≡ later (next_use v k trace)
unfolding next_use
next_use-later v k [] = refl
next_use-later v k (x ∷ trace) = ground (arith, next_use-later v (k + 1) trace)

-- `next_use` finds the place where the list has the page first, or finds none and the list does
-- not have it.
next_use-UsedAt : (v : ℕ) (trace : List ℕ) → UsedAt v trace (next_use v 0 trace)
unfolding next_use
next_use-UsedAt v [] = λ j e. ground arith
next_use-UsedAt v (x ∷ trace) = elim (Bool-cases (x == v)) [
  | inl e ↦ rw e (ground arith, λ j lt. absurd (omega arith))
  | inr e ↦
      rw (e, next_use-later v 0 trace)
        (UsedAt-later v x trace (next_use v 0 trace) (ground arith) (next_use-UsedAt v trace))
]

-- The next use of the page of frame `i`.
abbrev pub due : (ℕ → Page) → List ℕ → ℕ → Option ℕ
due physmem trace i = next_use (page_in physmem i) 0 trace

-- Of `m` frames, the page of frame `e` is never used again, or the pages of all are, and it no earlier
-- than any.
abbrev pub IsFarthest : (ℕ → Page) → List ℕ → ℕ → ℕ → Type 0
IsFarthest physmem trace m e =
    (due physmem trace e ≡ none)
    ⊎ ((d : ℕ) × (due physmem trace e ≡ some d)
        × ((i : ℕ) → i < m → (k : ℕ) × (due physmem trace i ≡ some k) × (k ≤ d)))

-- The loop at frame `i` has the page of frame `e` at distance `top`, the farthest before `i`.
record Best (physmem : ℕ → Page) (trace : List ℕ) (i top e : ℕ) : Type 0 where
  own : ((i ≡ 0) × (top ≡ 0) × (e ≡ 0)) ⊎ (due physmem trace e ≡ some top)
  others : (j : ℕ) → j < i → (k : ℕ) × (due physmem trace j ≡ some k) × (k ≤ top)

Best-next :
    (physmem : ℕ → Page) (trace : List ℕ) (i top e k : ℕ)
    → Best physmem trace i top e
    → due physmem trace i ≡ some k
    → top < k
    → Best physmem trace (i + 1) k i
Best-next physmem trace i top e k h u lt = record {
  own = inr u;
  others = λ j l. elim (lt_suc-cases j i l) [
    | inl before ↦ (let (d, p, q) = h.others j before in (d, p, omega arith))
    | inr same ↦ (k, ap (due physmem trace) same ∙ u, omega arith)
  ];
}

Best-same :
    (physmem : ℕ → Page) (trace : List ℕ) (i top e k : ℕ)
    → Best physmem trace i top e
    → due physmem trace i ≡ some k
    → k ≤ top
    → Best physmem trace (i + 1) top e
Best-same physmem trace i top e k h u l = record {
  own = elim h.own [
    | inl (zi, zt, ze) ↦ inr (ap (due physmem trace) (ze ∙ sym zi) ∙ u ∙ ap some (omega arith))
    | inr own ↦ inr own
  ];
  others = λ j lt. elim (lt_suc-cases j i lt) [
    | inl before ↦ h.others j before
    | inr same ↦ (k, ap (due physmem trace) same ∙ u, l)
  ];
}

farthest_from-IsFarthest :
    (physmem : ℕ → Page) (trace : List ℕ) (m n i top e : ℕ)
    → i + n ≡ m
    → 0 < m
    → e < m
    → Best physmem trace i top e
    → (farthest_from n i top e physmem trace < m)
      × IsFarthest physmem trace m (farthest_from n i top e physmem trace)
unfolding farthest_from
farthest_from-IsFarthest physmem trace m zero i top e s pos lt h = (
  lt,
  inr (
    top,
    elim h.own [ inl (z, zt, ze) ↦ absurd (omega arith) | inr own ↦ own ],
    λ j l. h.others j (omega arith),
  ),
)
farthest_from-IsFarthest physmem trace m (suc n) i top e s pos lt h =
    elim (Option-cases (due physmem trace i)) [
      | inl u ↦ rw (farthest_from, u) (omega arith, inl u)
      | inr (k, u) ↦ elim (Bool-cases (ltb top k)) [
        | inl b ↦
            rw (farthest_from, u, b)
              (farthest_from-IsFarthest physmem trace m n (i + 1) k i (omega arith) pos
                (omega arith) (Best-next physmem trace i top e k h u (ground arith)))
        | inr b ↦
            rw (farthest_from, u, b)
              (farthest_from-IsFarthest physmem trace m n (i + 1) top e (omega arith) pos lt
                (Best-same physmem trace i top e k h u (ground arith)))
      ]
    ]

-- With at least one frame, `opt_evict` returns, changes nothing, and chooses a frame whose page
-- the rest of the trace does not use, or else, where the pages of all frames are used, one whose
-- page is used no earlier than any other.
pub opt_evict-IsFarthest :
    {File : Type 0} (s : Vm File)
    → 0 < s.memsize
    → (frame : ℕ) × (opt_evict s ≡ some (frame, s))
      × (frame < s.memsize)
      × IsFarthest s.physmem s.trace s.memsize frame
unfolding opt_evict
opt_evict-IsFarthest s h = (farthest_from s.memsize 0 0 0 s.physmem s.trace, refl, best.0, best.1)
  where
    best :
        (farthest_from s.memsize 0 0 0 s.physmem s.trace < s.memsize)
        × IsFarthest s.physmem s.trace s.memsize (farthest_from s.memsize 0 0 0 s.physmem s.trace)
    best =
        farthest_from-IsFarthest s.physmem s.trace s.memsize s.memsize 0 0 0 (omega arith) h h
          (record { own = inl (refl, refl, refl); others = λ j lt. absurd (omega arith) })
