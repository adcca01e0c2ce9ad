-- ===== src/Paging/Sim/Counts.antt =====
-- The counters of a run of A3/sim.c.
use csc369_uoft.Base.{
  ℕ, suc, ◌+◌, ◌/◌, ◌≡◌, Bool, Option, none, some, List, [], ◌∷◌, if◌then◌else◌, arith, Bool-cases,
  Option-cases, inl, inr, ◌⊎◌,
}
use csc369_uoft.Paging.{FileOps, Vm}
use csc369_uoft.Paging.Flags.{has, pg_valid, frame_word}
use csc369_uoft.Paging.Swap.{swap_pagein, swap_pageout, write_page}
use csc369_uoft.Paging.Table.{
  Algorithm, find_physpage, find_free, init_second_level, init_frame, evict_page, evict_for,
  allocate_frame, miss, touch, resolve, set_frame,
}
use csc369_uoft.Paging.Sim.{access_mem, replay_trace}
use csc369_uoft.Paging.Opt.{Line, comment, reference}

-- The lines of a trace that are references.
abbrev pub references : List Line → ℕ
references [] = 0
references (comment ∷ lines) = references lines
references (reference w vaddr ∷ lines) = suc (references lines)

module _ {File : Type 0} where
  -- From `s` to `t` the counters grow by these.
  pub record Counted (hits misses refs : ℕ) (s t : Vm File) : Type 0 where
    pub hit : t.hit_count ≡ s.hit_count + hits
    pub missed : t.miss_count ≡ s.miss_count + misses
    pub ref : t.ref_count ≡ s.ref_count + refs

  -- From `s` to `t` there are `n` references, each a hit or a miss.
  abbrev pub More : ℕ → Vm File → Vm File → Type 0
  More n s t =
      (t.hit_count + t.miss_count ≡ s.hit_count + s.miss_count + n)
      × (t.ref_count ≡ s.ref_count + n)

  -- An algorithm leaves the counters alone.
  pub record KeepsCounts (alg : Algorithm File) : Type 0 where
    pub ref : (p : ℕ) (s t : Vm File) → alg.ref p s ≡ some t → Counted 0 0 0 s t
    pub evict : (s : Vm File) (i : ℕ) (t : Vm File) → alg.evict s ≡ some (i, t) → Counted 0 0 0 s t

module _ {File : Type 0} (io : FileOps File) where
  swap_pagein-counts :
      (i : ℕ) (o : Option ℕ) (s t : Vm File) → swap_pagein io i o s ≡ some t → Counted 0 0 0 s t
  unfolding swap_pagein
  swap_pagein-counts i none s t e = ground arith
  swap_pagein-counts i (some o) s t e = ground arith

  swap_pageout-counts :
      (i : ℕ) (o p : Option ℕ) (s t : Vm File)
      → swap_pageout io i o s ≡ some (p, t)
      → Counted 0 0 0 s t
  unfolding swap_pageout write_page
  swap_pageout-counts i o p s t e = ground arith

module _ {File : Type 0} (io : FileOps File) (alg : Algorithm File) (keeps : KeepsCounts alg) where
  evict_page-counts :
      (i v : ℕ) (s t : Vm File) → evict_page io alg i v s ≡ some t → Counted 0 0 0 s t
  unfolding evict_page
  evict_page-counts i v s t e = elim (Option-cases (swap_pageout io i (s.pgtbl v).swap_off s)) [
    | inl x ↦ ground (arith, e, x)
    | inr (r, x) ↦ ground (arith, e, x, swap_pageout-counts io i (s.pgtbl v).swap_off r.0 s r.1 x)
  ]

  evict_for-counts :
      (p i : ℕ) (s : Vm File) (j : ℕ) (t : Vm File)
      → evict_for io alg p (i, s) ≡ some (j, t)
      → Counted 0 0 0 s t
  unfolding evict_for
  evict_for-counts p i s j t e = elim (Option-cases (s.coremap i).pte) [
    | inl x ↦ ground (arith, e, x)
    | inr (v, x) ↦ elim (Option-cases (evict_page io alg i v s)) [
      | inl y ↦ ground (arith, e, x, y)
      | inr (u, y) ↦ ground (arith, e, x, y, evict_page-counts i v s u y)
    ]
  ]

  allocate_frame-counts :
      (p : ℕ) (s : Vm File) (j : ℕ) (t : Vm File)
      → allocate_frame io alg p s ≡ some (j, t)
      → Counted 0 0 0 s t
  unfolding allocate_frame
  allocate_frame-counts p s j t e = elim (Option-cases (find_free s.memsize 0 s.coremap)) [
    | inl x ↦ elim (Option-cases (alg.evict s)) [
      | inl y ↦ ground (arith, e, x, y)
      | inr (r, y) ↦ elim (Option-cases (evict_for io alg p r)) [
        | inl z ↦ ground (arith, e, x, y, z)
        | inr (q, z) ↦
            ground
              (arith, e, x, y, z, keeps.evict s r.0 r.1 y, evict_for-counts p r.0 r.1 q.0 q.1 z)
      ]
    ]
    | inr (i, x) ↦ ground (arith, e, x)
  ]

  miss-counts : (p vaddr : ℕ) (s t : Vm File) → miss io alg p vaddr s ≡ some t → Counted 0 0 0 s t
  unfolding miss init_frame
  miss-counts p vaddr s t e = elim (Option-cases (allocate_frame io alg p s)) [
    | inl x ↦ ground (arith, e, x)
    | inr ((i, u), x) ↦
        elim (Option-cases (swap_pagein io i (u.pgtbl p).swap_off (set_frame p (frame_word i) u))) [
          | inl y ↦ ground (arith, e, x, y, allocate_frame-counts p s i u x)
          | inr (w, y) ↦ ground (
            arith,
            e,
            x,
            y,
            allocate_frame-counts p s i u x,
            swap_pagein-counts io i (u.pgtbl p).swap_off (set_frame p (frame_word i) u) w y,
          )
        ]
  ]

  resolve-counts :
      (p vaddr : ℕ) (s t : Vm File)
      → resolve io alg p vaddr s ≡ some t
      → Counted 1 0 0 s t ⊎ Counted 0 1 0 s t
  unfolding resolve
  resolve-counts p vaddr s t e = elim (Bool-cases (has pg_valid (s.pgtbl p).frame)) [
    | inl v ↦ inl (ground (arith, e, v))
    | inr v ↦
        elim (Option-cases (miss io alg p vaddr (record s { miss_count = s.miss_count + 1 }))) [
          | inl x ↦ ground (arith, e, v, x)
          | inr (u, x) ↦ inr (
              ground (
                arith,
                e,
                v,
                x,
                miss-counts p vaddr (record s { miss_count = s.miss_count + 1 }) u x,
              ))
        ]
  ]

  touch-counts :
      (p : ℕ) (w : Bool) (s t : Vm File) → touch io alg p w s ≡ some t → Counted 0 0 1 s t
  unfolding touch
  touch-counts p w s t e =
      let c = keeps.ref p _ t e in
      record { hit = c.hit; missed = c.missed; ref = omega (arith, c.ref) }

  -- An access to memory that returns is one reference, and one hit or one miss.
  pub find_physpage-More :
      (vaddr : ℕ) (w : Bool) (s : Vm File) (i : ℕ) (t : Vm File)
      → find_physpage io alg vaddr w s ≡ some (i, t)
      → More 1 s t
  unfolding find_physpage init_second_level
  find_physpage-More vaddr w s i t e =
      let s' =
        if s.pgdir (vaddr / 4096 / 4096) then s else init_second_level (vaddr / 4096 / 4096) s in
      elim (Option-cases (resolve io alg (vaddr / 4096) vaddr s')) [
        | inl x ↦ ground (arith, e, x)
        | inr (u, x) ↦ elim (Option-cases (touch io alg (vaddr / 4096) w u)) [
          | inl y ↦ ground (arith, e, x, y)
          | inr (q, y) ↦ ground (
            arith,
            e,
            x,
            y,
            resolve-counts (vaddr / 4096) vaddr s' u x,
            touch-counts (vaddr / 4096) w u q y,
          )
        ]
      ]

  access_mem-More :
      (w : Bool) (vaddr : ℕ) (s : Vm File) (ok : Bool) (t : Vm File)
      → access_mem io alg w vaddr s ≡ some (ok, t)
      → More 1 s t
  unfolding access_mem
  access_mem-More w vaddr s ok t e = elim (Option-cases (find_physpage io alg vaddr w s)) [
    | inl x ↦ ground (arith, e, x)
    | inr ((i, u), x) ↦ ground (arith, e, x, find_physpage-More vaddr w s i u x)
  ]

  -- With an algorithm that leaves the counters alone, a replay that comes to the end of its trace
  -- has counted one reference for each line that is one, and as many hits and misses together.
  pub replay_trace-More :
      (lines : List Line) (errors : ℕ) (s : Vm File) (n : ℕ) (t : Vm File)
      → replay_trace io alg lines errors s ≡ some (n, t)
      → More (references lines) s t
  unfolding replay_trace
  replay_trace-More [] errors s n t e = ground (arith, e)
  replay_trace-More (comment ∷ lines) errors s n t e = replay_trace-More lines errors s n t e
  replay_trace-More (reference w vaddr ∷ lines) errors s n t e =
      elim (Option-cases (access_mem io alg w vaddr s)) [
        | inl x ↦ ground (arith, e, x)
        | inr ((ok, u), x) ↦ ground (
          arith,
          access_mem-More w vaddr s ok u x,
          replay_trace-More lines (if ok then errors else errors + 1) u n t
              (rw (replay_trace, x) at e),
        )
      ]
