-- ===== src/Paging/Lru/Least.antt =====
-- The frame that `lru_evict` of A3/lru.c chooses.
use csc369_uoft.Base.{
  ℕ, zero, suc, ◌+◌, ◌<◌, ◌≡◌, refl, ap, ◌∙◌, true, false, some, arith, Bool-cases, lt_suc-cases,
  inl, inr,
}
use csc369_uoft.Base.Int.{ℤ, ltb_ℤ, ltb_ℤ-asym, ltb_ℤ-irrefl, ltb_ℤ-trans}
use csc369_uoft.Paging.{Frame, Vm}
use csc369_uoft.Paging.Lru.{least_from, lru_evict}

-- Frame `l` is the first of those before `i` with the smallest `recent`, which is `c`.
record Seen (coremap : ℕ → Frame) (i l : ℕ) (c : ℤ) : Type 0 where
  value : (coremap l).recent ≡ c
  smallest : (j : ℕ) → j < i → ltb_ℤ (coremap j).recent c ≡ false
  first : (j : ℕ) → j < l → ltb_ℤ c (coremap j).recent ≡ true

-- Frame `l` is the first of the `m` frames with the smallest `recent`.
pub record IsLeast (coremap : ℕ → Frame) (m l : ℕ) : Type 0 where
  pub inside : l < m
  pub smallest : (j : ℕ) → j < m → ltb_ℤ (coremap j).recent (coremap l).recent ≡ false
  pub first : (j : ℕ) → j < l → ltb_ℤ (coremap l).recent (coremap j).recent ≡ true

Seen-next :
    (coremap : ℕ → Frame) (i l : ℕ) (c : ℤ)
    → Seen coremap i l c
    → ltb_ℤ (coremap i).recent c ≡ true
    → Seen coremap (i + 1) i (coremap i).recent
Seen-next coremap i l c h k = record {
  value = refl;
  smallest = λ j lt. elim (lt_suc-cases j i lt) [
    | inl before ↦
        ltb_ℤ-asym (coremap i).recent (coremap j).recent
          (ltb_ℤ-trans (coremap i).recent (coremap j).recent c k (h.smallest j before))
    | inr same ↦
        ap (λ x. ltb_ℤ (coremap x).recent (coremap i).recent) same ∙ ltb_ℤ-irrefl (coremap i).recent
  ];
  first = λ j lt. ltb_ℤ-trans (coremap i).recent (coremap j).recent c k (h.smallest j lt);
}

Seen-same :
    (coremap : ℕ → Frame) (i l : ℕ) (c : ℤ)
    → Seen coremap i l c
    → ltb_ℤ (coremap i).recent c ≡ false
    → Seen coremap (i + 1) l c
Seen-same coremap i l c h k = record {
  value = h.value;
  smallest = λ j lt. elim (lt_suc-cases j i lt) [
    | inl before ↦ h.smallest j before
    | inr same ↦ ap (λ x. ltb_ℤ (coremap x).recent c) same ∙ k
  ];
  first = h.first;
}

least_from-Seen :
    (coremap : ℕ → Frame) (n i l m : ℕ) (c : ℤ)
    → i + n ≡ m
    → l < m
    → Seen coremap i l c
    → IsLeast coremap m (least_from n i c l coremap)
unfolding least_from
least_from-Seen coremap zero i l m c e lt h = record {
  inside = lt;
  smallest = λ j k. ap (ltb_ℤ (coremap j).recent) h.value ∙ h.smallest j (omega arith);
  first = λ j k. ap (λ x. ltb_ℤ x (coremap j).recent) h.value ∙ h.first j k;
}
least_from-Seen coremap (suc n) i l m c e lt h = elim (Bool-cases (ltb_ℤ (coremap i).recent c)) [
  | inl k ↦ rw k (
      least_from-Seen coremap n (i + 1) i m (coremap i).recent (omega arith) (omega arith)
        (Seen-next coremap i l c h k))
  | inr k ↦
      rw k (least_from-Seen coremap n (i + 1) l m c (omega arith) lt (Seen-same coremap i l c h k))
]

-- With at least one frame, `lru_evict` returns, changes nothing, and chooses the first of the
-- frames whose time of last use is the smallest.
pub lru_evict-IsLeast :
    {File : Type 0} (s : Vm File)
    → 0 < s.memsize
    → (frame : ℕ) × (lru_evict s ≡ some (frame, s)) × IsLeast s.coremap s.memsize frame
unfolding lru_evict
lru_evict-IsLeast s h = (
  least_from s.memsize 0 (s.coremap 0).recent 0 s.coremap,
  ground arith,
  least_from-Seen s.coremap s.memsize 0 0 s.memsize (s.coremap 0).recent (omega arith) h
      (record { value = refl; smallest = λ j lt. ground arith; first = λ j lt. ground arith }),
)
