-- ===== src/Paging/Mapped/Hand.antt =====
-- clock.c of A3 on a state whose pages are mapped: its hand passes frames and leaves the map alone.
use csc369_uoft.Base.{
  ℕ, zero, suc, ◌<◌, ◌≡◌, ◌≢◌, ◌∙◌, refl, sym, ap, subst, true, false, some, arith, Option-cases,
  Bool-cases, inl, inr, lt→ltb,
}
use csc369_uoft.Paging.{Vm}
use csc369_uoft.Paging.Flags.{
  Flag, pg_valid, pg_dirty, pg_ref, pg_onswap, same_flag, has, add, remove, frame_no, has-add,
  has-remove, frame_no-add, frame_no-remove,
}
use csc369_uoft.Paging.Table.{set_frame}
use csc369_uoft.Paging.Clock.{clock, clock_evict, clock_from, next_index}
use csc369_uoft.Paging.Clock.Victim.{IsFull, clock_evict-IsVictim}
use csc369_uoft.Paging.Mapped.Same.{IsMapped, SameMap, SameMap-refl, SameMap-trans, IsSound}
use csc369_uoft.Paging.Mapped.Policies.{Always}

other_flag : (f : Flag) → f ≢ pg_ref → same_flag f pg_ref ≡ false
other_flag pg_valid h = refl
other_flag pg_dirty h = refl
other_flag pg_ref h = absurd (h refl)
other_flag pg_onswap h = refl

module _ {File : Type 0} where
  -- Every frame holds a page of its own.
  full :
      (s : Vm File)
      → IsMapped s
      → ((i : ℕ) → i < s.memsize → (s.coremap i).in_use ≡ true)
      → IsFull s
  full s m all = record {
    inside = m.clock_in;
    page = λ i lt. let h = m.map.frames i lt (all i lt) in (h.page, h.points);
    apart = λ i j v lt lt' p q.
        let h = m.map.frames i lt (all i lt) in
        let k = m.map.frames j lt' (all j lt') in
        let e : h.page ≡ k.page = ground (arith, h.points, k.points) in
        sym h.number ∙ rw e k.number;
  }

  pass-SameMap :
      (s : Vm File) (v w : ℕ)
      → s.clock_current_index < s.memsize
      → ((f : Flag) → f ≢ pg_ref → has f w ≡ has f (s.pgtbl v).frame)
      → frame_no w ≡ frame_no (s.pgtbl v).frame
      → SameMap s (
          set_frame v w
            (record s { clock_current_index = next_index s.memsize s.clock_current_index }))
  pass-SameMap s v w lt same number = record {
    memsize = refl;
    pgdir = refl;
    in_use = λ i. refl;
    pte = λ i. refl;
    flags = λ f u h. ground (arith, same f h);
    number = λ u. ground (arith, number);
    swap_off = λ u. ground arith;
    physmem = refl;
    swapmap = refl;
    swapfile = refl;
    fifo_in = λ h. h;
    clock_in = λ h. ground arith;
  }

  clock_from-SameMap :
      (n : ℕ) (s : Vm File) (i : ℕ) (t : Vm File)
      → s.clock_current_index < s.memsize
      → clock_from n s ≡ some (i, t)
      → SameMap s t × (i < s.memsize) × (t.trace ≡ s.trace)
  unfolding clock_from
  clock_from-SameMap zero s i t lt e = ground arith
  clock_from-SameMap (suc n) s i t lt e =
      elim (Option-cases (s.coremap s.clock_current_index).pte) [
        | inl x ↦ absurd (ground (arith, e, x))
        | inr (v, x) ↦
            let w = (s.pgtbl v).frame in
            let u = record s { clock_current_index = next_index s.memsize s.clock_current_index } in
            elim (Bool-cases (has pg_ref w)) [
              | inl c ↦
                  let here =
                    pass-SameMap s v (remove pg_ref w) lt
                      (λ f h. ground (arith, has-remove f pg_ref w, other_flag f h))
                      (frame_no-remove pg_ref w) in
                  let rest =
                    clock_from-SameMap n (set_frame v (remove pg_ref w) u) i t (here.clock_in lt)
                      (rw (clock_from, lt→ltb _ _ lt, x, c) at e) in
                  (SameMap-trans here rest.0, rest.1, rest.2)
              | inr c ↦
                  let k : (s.clock_current_index ≡ i) × (set_frame v (add pg_ref w) u ≡ t) =
                    ground (arith, e, x, c) in
                  (
                    subst (λ z. SameMap s z) k.1
                        (pass-SameMap s v (add pg_ref w) lt
                          (λ f h. ground (arith, has-add f pg_ref w, other_flag f h))
                          (frame_no-add pg_ref w)),
                    omega (arith, k.0),
                    ap (λ z. z.trace) (sym k.1),
                  )
            ]
      ]

  pub clock-IsSound : IsSound {File = File} clock Always
  unfolding clock_evict
  clock-IsSound = record {
    evict = λ s m all.
        let v = clock_evict-IsVictim s (full s m all) in
        let (same, inside, trace) =
          clock_from-SameMap (suc s.memsize) s _ v.after m.clock_in v.gives in
        record {
          frame = _;
          after = v.after;
          gives = v.gives;
          inside = inside;
          same = same;
          trace = trace;
        };
    ref =
        λ n p s ready inside. record { after = s; gives = refl; same = SameMap-refl s; ready = tt };
  }
