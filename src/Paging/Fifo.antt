-- ===== src/Paging/Fifo.antt =====
-- A3/fifo.c: the victim is the frame after the last one, in a circle.
use csc369_uoft.Base.{
  ℕ, zero, suc, ◌+◌, ◌-◌, ◌≤◌, ◌<◌, ◌≡◌, ap, ◌∙◌, Option, none, some, ◌==◌, ltb, if◌then◌else◌,
  arith,
}
use csc369_uoft.Paging.{Vm}
use csc369_uoft.Paging.Table.{Algorithm}

module _ {File : Type 0} where
  unfoldable pub fifo_evict : Vm File → Option (ℕ × Vm File)
  fifo_evict s = some (
    s.first_in,
    record s { first_in = if s.first_in + 1 == s.memsize then 0 else s.first_in + 1 },
  )

  -- `fifo_ref`, which does nothing
  abbrev pub fifo_ref : ℕ → Vm File → Option (Vm File)
  fifo_ref p s = some s

  abbrev pub fifo : Algorithm File
  fifo = record { ref = fifo_ref; evict = fifo_evict }

  -- The victim of the last of `n + 1` calls in a row.
  unfoldable pub nth_victim : ℕ → Vm File → Option ℕ
  nth_victim zero s = elim (fifo_evict s) [ none ↦ none | some (frame, t) ↦ some frame ]
  nth_victim (suc n) s = elim (fifo_evict s) [ none ↦ none | some (frame, t) ↦ nth_victim n t ]

  -- With `first_in` inside the coremap, calls of `fifo_evict` choose the frames in turn: call
  -- number `n` from 0, for `n` up to `memsize`, chooses the frame `n` places after `first_in`,
  -- where frame 0 comes after the last one.
  fifo_evict-nth :
      (n : ℕ) (s : Vm File)
      → s.first_in < s.memsize
      → n ≤ s.memsize
      → nth_victim n s
        ≡ some
            (if ltb (s.first_in + n) s.memsize then s.first_in + n else s.first_in + n - s.memsize)
  unfolding nth_victim fifo_evict
  fifo_evict-nth zero s h l = ground arith
  fifo_evict-nth (suc n) s h l =
      fifo_evict-nth n
        (record s { first_in = if s.first_in + 1 == s.memsize then 0 else s.first_in + 1 })
        (ground arith) (omega arith)
      ∙ ap some (ground arith)
