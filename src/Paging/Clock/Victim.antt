-- ===== src/Paging/Clock/Victim.antt =====
-- The frame that `clock_evict` of A3/clock.c chooses.
use csc369_uoft.Base.{
  ℕ, zero, suc, ◌+◌, ◌-◌, ◌≤◌, ◌<◌, ◌≡◌, ◌≢◌, ap, ◌∙◌, sym, Bool, true, false, Option, some, ltb,
  ◌==◌, if◌then◌else◌, arith, Bool-cases, lt_suc-cases, lt→ltb, inl, inr,
}
use csc369_uoft.Paging.{Vm}
use csc369_uoft.Paging.Flags.{pg_ref, has, add, remove, has-remove}
use csc369_uoft.Paging.Table.{set_frame}
use csc369_uoft.Paging.Clock.{clock_from, clock_evict, next_index}

-- Frame `x` of a circle of `m` frames, where `x` is less than `2 * m`.
abbrev pub wrap : ℕ → ℕ → ℕ
wrap m x = if ltb x m then x else x - m

wrap-next : (m c j : ℕ) → c < m → suc j ≤ m → wrap m (next_index m c + j) ≡ wrap m (c + suc j)
wrap-next m c j lt l = ground arith

wrap_back : (m c j : ℕ) → c < m → suc j ≡ m → wrap m (next_index m c + j) ≡ c
wrap_back m c j lt l = ground arith

wrap_away : (m c j : ℕ) → c < m → suc j < m → wrap m (c + suc j) ≢ c
wrap_away m c j lt l e = ground arith

module _ {File : Type 0} where
  -- The page of frame `i` has its reference bit as `b` says.
  abbrev pub RefIs : Bool → Vm File → ℕ → Type 0
  RefIs b s i = (v : ℕ) → (s.coremap i).pte ≡ some v → has pg_ref (s.pgtbl v).frame ≡ b

  -- Every frame holds a page, and no two the same.
  pub record IsFull (s : Vm File) : Type 0 where
    pub inside : s.clock_current_index < s.memsize
    pub page : (i : ℕ) → i < s.memsize → (v : ℕ) × ((s.coremap i).pte ≡ some v)
    pub apart :
        (i j v : ℕ)
        → i < s.memsize
        → j < s.memsize
        → (s.coremap i).pte ≡ some v
        → (s.coremap j).pte ≡ some v
        → i ≡ j

  -- The victim is `steps` places after the clock's hand: those before it had the bit set, and it has
  -- it clear, unless all had it set and it is where the hand was.
  pub record IsVictim (s : Vm File) (most : ℕ) (r : Option (ℕ × Vm File)) : Type 0 where
    pub steps : ℕ
    pub after : Vm File
    pub few : steps ≤ most
    pub gives : r ≡ some (wrap s.memsize (s.clock_current_index + steps), after)
    pub passed : (j : ℕ) → j < steps → RefIs true s (wrap s.memsize (s.clock_current_index + j))
    pub found : steps < s.memsize → RefIs false s (wrap s.memsize (s.clock_current_index + steps))

  -- The state after a round that passes page `v`.
  abbrev pass : ℕ → Vm File → Vm File
  pass v s =
      set_frame v (remove pg_ref (s.pgtbl v).frame)
        (record s { clock_current_index = next_index s.memsize s.clock_current_index })

  pass-ref :
      (v w : ℕ) (s : Vm File)
      → has pg_ref ((pass v s).pgtbl w).frame
        ≡ (if v == w then false else has pg_ref (s.pgtbl w).frame)
  pass-ref v w s = ground (arith, has-remove pg_ref pg_ref (s.pgtbl v).frame)

  pass-IsFull : (v : ℕ) (s : Vm File) → IsFull s → IsFull (pass v s)
  pass-IsFull v s f = record { inside = ground (arith, f.inside); page = f.page; apart = f.apart }

  pass-set :
      (v w : ℕ) (s : Vm File)
      → has pg_ref ((pass v s).pgtbl w).frame ≡ true
      → has pg_ref (s.pgtbl w).frame ≡ true
  pass-set v w s h = ground (arith, pass-ref v w s)

  pass-clear :
      (v w : ℕ) (s : Vm File)
      → has pg_ref ((pass v s).pgtbl w).frame ≡ false
      → v ≢ w
      → has pg_ref (s.pgtbl w).frame ≡ false
  pass-clear v w s h n = ground (arith, pass-ref v w s, n)

  pass-stays :
      (v w : ℕ) (s : Vm File)
      → has pg_ref (s.pgtbl w).frame ≡ false
      → has pg_ref ((pass v s).pgtbl w).frame ≡ false
  pass-stays v w s h = ground (arith, pass-ref v w s)

  pass_self : (v w : ℕ) (s : Vm File) → v ≡ w → has pg_ref ((pass v s).pgtbl w).frame ≡ false
  pass_self v w s h = ground (arith, pass-ref v w s)

  -- The page of a frame that two numbers name.
  pte_at :
      (s : Vm File) (i j w : ℕ) → i ≡ j → (s.coremap i).pte ≡ some w → (s.coremap j).pte ≡ some w
  pte_at s i j w e k = rw (← e) k

  one_page :
      (s : Vm File) (i v w : ℕ) → (s.coremap i).pte ≡ some v → (s.coremap i).pte ≡ some w → v ≡ w
  one_page s i v w e k = ground arith

  stops_here :
      (n : ℕ) (s : Vm File)
      → IsFull s
      → (v : ℕ) → (s.coremap s.clock_current_index).pte ≡ some v
      → has pg_ref (s.pgtbl v).frame ≡ false
      → IsVictim s n (clock_from (suc n) s)
  unfolding clock_from
  stops_here n s f v e clear = record {
    steps = 0;
    after =
        set_frame v (add pg_ref (s.pgtbl v).frame)
          (record s { clock_current_index = next_index s.memsize s.clock_current_index });
    few = omega arith;
    gives =
        rw (clock_from, lt→ltb _ _ f.inside, e, clear)
          (ap
            (λ i. some (
              i,
              (set_frame v (add pg_ref (s.pgtbl v).frame)
                  (record s { clock_current_index = next_index s.memsize s.clock_current_index })),
            ))
            (ground (arith, f.inside)));
    passed = λ j lt. absurd (omega arith);
    found = λ lt w k. ground (arith, f.inside, e, k, clear);
  }

  go_on :
      (n : ℕ) (s : Vm File)
      → IsFull s
      → (v : ℕ) → (s.coremap s.clock_current_index).pte ≡ some v
      → has pg_ref (s.pgtbl v).frame ≡ true
      → suc n ≤ s.memsize
      → IsVictim (pass v s) n (clock_from (suc n) (pass v s))
      → IsVictim s (suc n) (clock_from (suc (suc n)) s)
  unfolding clock_from
  go_on n s f v e set l r = record {
    steps = suc r.steps;
    after = r.after;
    few = omega (arith, r.few);
    gives =
        rw (clock_from, lt→ltb _ _ f.inside, e, set)
          (r.gives ∙ ap (λ i. some (i, r.after)) (ground (arith, f.inside, r.few)));
    passed = passed;
    found = λ lt w k.
        pass-clear v w s
          (r.found (omega arith) w (
            pte_at s _ _ w
              (sym (wrap-next s.memsize s.clock_current_index r.steps f.inside (omega arith))) k))
          (λ same.
            wrap_away s.memsize s.clock_current_index r.steps f.inside lt
              (f.apart _ _ w (ground (arith, f.inside)) f.inside k (rw same at e)));
  }
    where
      passed : (j : ℕ) → j < suc r.steps → RefIs true s (wrap s.memsize (s.clock_current_index + j))
      passed zero lt w k =
          rw (one_page s s.clock_current_index w v (pte_at s _ _ w (ground (arith, f.inside)) k) e)
            set
      passed (suc j) lt w k = pass-set v w s (
          r.passed j (omega arith) w (
            pte_at s _ _ w
              (sym (wrap-next s.memsize s.clock_current_index j f.inside (omega (arith, r.few))))
              k))

  clock_from-IsVictim :
      (n : ℕ) (s : Vm File)
      → IsFull s
      → n ≤ s.memsize
      → ((j : ℕ)
          → n ≤ j
          → j < s.memsize
          → RefIs false s (wrap s.memsize (s.clock_current_index + j)))
      → IsVictim s n (clock_from (suc n) s)
  clock_from-IsVictim zero s f l h =
      let (v, e) = f.page s.clock_current_index f.inside in
      stops_here zero s f v e (
        h 0 (omega arith) (omega (arith, f.inside)) v (pte_at s _ _ v (ground (arith, f.inside)) e))
  clock_from-IsVictim (suc n) s f l h =
      let (v, e) = f.page s.clock_current_index f.inside in
      elim (Bool-cases (has pg_ref (s.pgtbl v).frame)) [
        | inl set ↦
            go_on n s f v e set l
              (clock_from-IsVictim n (pass v s) (pass-IsFull v s f) (omega (arith, l)) (late v e))
        | inr clear ↦ stops_here (suc n) s f v e clear
      ]
    where
      late :
          (v : ℕ)
          → (s.coremap s.clock_current_index).pte ≡ some v
          → (j : ℕ) → n ≤ j
          → j < s.memsize
          → RefIs false (pass v s) (wrap s.memsize (next_index s.memsize s.clock_current_index + j))
      late v e j nj lt w k = elim (lt_suc-cases (suc j) s.memsize (omega arith)) [
        | inl before ↦ pass-stays v w s (
            h (suc j) (omega arith) before w (
              pte_at s _ _ w (wrap-next s.memsize s.clock_current_index j f.inside (omega arith))
                k))
        | inr last ↦ pass_self v w s (
            one_page s s.clock_current_index v w e
              (pte_at s _ _ w (wrap_back s.memsize s.clock_current_index j f.inside last) k))
      ]

  -- With each frame holding a page of its own and the hand inside the coremap, `clock_evict`
  -- returns after at most one round more than there are frames, and its victim is the first frame
  -- from the hand on whose page has the reference bit clear, or the frame at the hand if all have
  -- it set.
  pub clock_evict-IsVictim : (s : Vm File) → IsFull s → IsVictim s s.memsize (clock_evict s)
  unfolding clock_evict
  clock_evict-IsVictim s f =
      clock_from-IsVictim s.memsize s f (omega arith) (λ j a b. absurd (omega arith))
