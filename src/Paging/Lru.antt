-- ===== src/Paging/Lru.antt =====
-- A3/lru.c: the victim is the frame whose `recent`, a time of last use, is the smallest.
pub mod Least
use csc369_uoft.Base.{
  ℕ, zero, suc, ◌+◌, ◌-◌, ◌^◌, ◌≤◌, ◌<◌, ◌≡◌, refl, Bool, true, false, Option, none, some, ltb,
  if◌then◌else◌, update, arith,
}
use csc369_uoft.Base.Int.{ℤ, pos, negsuc, ltb_ℤ, int32}
use csc369_uoft.Paging.{Frame, Vm}
use csc369_uoft.Paging.Flags.{frame_no}
use csc369_uoft.Paging.Table.{Algorithm}

abbrev pub set_recent : ℤ → Frame → Frame
set_recent n f = record f { recent = n }

-- The loop of `lru_evict` from frame `i` with `n` rounds left.
unfoldable pub least_from : ℕ → ℕ → (least_counter : ℤ) → (least_index : ℕ) → (ℕ → Frame) → ℕ
least_from zero i c l coremap = l
least_from (suc n) i c l coremap =
    if ltb_ℤ (coremap i).recent c
    then least_from n (i + 1) (coremap i).recent i coremap
    else least_from n (i + 1) c l coremap

-- The loop of `lru_init`.
unfoldable pub reset_recent : ℕ → ℕ → (ℕ → Frame) → ℕ → Frame
reset_recent zero i coremap = coremap
reset_recent (suc n) i coremap =
    reset_recent n (i + 1) (update coremap i (set_recent (negsuc 0) (coremap i)))

module _ {File : Type 0} where
  unfoldable pub lru_init : Vm File → Vm File
  lru_init s = record s { coremap = reset_recent s.memsize 0 s.coremap; counter = 0 }

  -- `none` is the access out of range where there is no frame.
  unfoldable pub lru_evict : Vm File → Option (ℕ × Vm File)
  lru_evict s =
      if ltb 0 s.memsize
      then some (least_from s.memsize 0 (s.coremap 0).recent 0 s.coremap, s)
      else none

  -- The counter is of 64 bits, and a run does not overflow it.
  unfoldable pub lru_ref : ℕ → Vm File → Option (Vm File)
  lru_ref p s =
      let frame = frame_no (s.pgtbl p).frame in
      if ltb frame s.memsize
      then some (record s {
        coremap = update s.coremap frame (set_recent (int32 s.counter) (s.coremap frame));
        counter = s.counter + 1;
      })
      else none

  abbrev pub lru : Algorithm File
  lru = record { ref = lru_ref; evict = lru_evict }
