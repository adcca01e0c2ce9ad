-- ===== src/Paging/Mapped/Take.antt =====
-- The frame that `allocate_frame` of A3/pagetable.c gives to a page, and the second-level table that
-- `find_physpage` adds.
use csc369_uoft.Base.{
  ℕ, zero, suc, ◌+◌, ◌/◌, ◌≤◌, ◌<◌, ◌≡◌, ◌≢◌, ◌∙◌, sym, Bool, true, false, none, some, update,
  arith, inl, inr,
}
use csc369_uoft.Paging.{Pte, Frame}
use csc369_uoft.Paging.Flags.{pg_valid, has, frame_no}
use csc369_uoft.Paging.Table.{find_free}
use csc369_uoft.Paging.Mapped.{Mapped, Pending, same-cases}

-- The frame that is found is not in use, and lies among the frames that are searched.
pub find_free-some :
    (n i : ℕ) (coremap : ℕ → Frame) (j : ℕ)
    → find_free n i coremap ≡ some j
    → (j < i + n) × ((coremap j).in_use ≡ false)
unfolding find_free
find_free-some zero i coremap j e = ground arith
find_free-some (suc n) i coremap j e = ground (arith, find_free-some n (i + 1) coremap j)

-- With no frame found, all that are searched are in use.
pub find_free-none :
    (n i : ℕ) (coremap : ℕ → Frame)
    → find_free n i coremap ≡ none
    → (j : ℕ) → i ≤ j
    → j < i + n
    → (coremap j).in_use ≡ true
unfolding find_free
find_free-none zero i coremap e j l h = absurd (omega arith)
find_free-none (suc n) i coremap e j l h = elim (same-cases j i) [
  | inl k ↦ ground (arith, k, e)
  | inr k ↦ find_free-none n (i + 1) coremap (ground (arith, e)) j (omega arith) (omega arith)
]

module _ {memsize : ℕ} {pgdir : ℕ → Bool} {pgtbl : ℕ → Pte} {coremap : ℕ → Frame} where
  -- A frame that is not in use goes to page `p`.
  pub take_free :
      (p i : ℕ) (f : Frame)
      → Mapped memsize pgdir pgtbl coremap
      → i < memsize
      → (coremap i).in_use ≡ false
      → has pg_valid (pgtbl p).frame ≡ false
      → Pending p i memsize pgdir pgtbl (update coremap i f)
  take_free p i f m inside free absent = record {
    small = m.small;
    inside = inside;
    pages = λ v other h.
        let r = m.pages v h in
        let apart : frame_no (pgtbl v).frame ≢ i = (λ e. ground (arith, r.used, e, free)) in
        let k : update coremap i f (frame_no (pgtbl v).frame) ≡ coremap (frame_no (pgtbl v).frame) =
          ground (arith, apart) in
        (record { inside = r.inside; used = rw k r.used; back = rw k r.back }, apart);
    frames = λ j lt other used.
        let k : update coremap i f j ≡ coremap j = ground (arith, other) in
        let h = m.frames j lt (rw k at used) in
        (
          record { page = h.page; points = rw k h.points; valid = h.valid; number = h.number },
          λ e. ground (arith, e, h.valid, absent),
        );
    tables = λ v other h. m.tables v h;
  }

  -- The frame of the victim `v`, whose entry is `e` from now on, goes to page `p`.
  pub take_victim :
      (p i v : ℕ) (e : Pte) (f : Frame)
      → Mapped memsize pgdir pgtbl coremap
      → i < memsize
      → (coremap i).in_use ≡ true
      → (coremap i).pte ≡ some v
      → has pg_valid e.frame ≡ false
      → has pg_valid (pgtbl p).frame ≡ false
      → Pending p i memsize pgdir (update pgtbl v e) (update coremap i f)
  take_victim p i v e f m inside used back gone absent = record {
    small = m.small;
    inside = inside;
    pages = λ w other h.
        let k : v ≢ w = (λ same. ground (arith, h, gone, same)) in
        let kept : update pgtbl v e w ≡ pgtbl w = ground (arith, k) in
        let r = m.pages w (rw kept at h) in
        let apart : frame_no (pgtbl w).frame ≢ i =
          (λ same. k (ground (arith, r.back, back, same))) in
        let l : update coremap i f (frame_no (pgtbl w).frame) ≡ coremap (frame_no (pgtbl w).frame) =
          ground (arith, apart) in
        (
          record {
            inside = rw kept r.inside;
            used = rw (kept, l) r.used;
            back = rw (kept, l) r.back;
          },
          rw kept apart,
        );
    frames = λ j lt other busy.
        let l : update coremap i f j ≡ coremap j = ground (arith, other) in
        let h = m.frames j lt (rw l at busy) in
        let k : v ≢ h.page = (λ same. other (sym h.number ∙ rw (sym same) victim_number)) in
        let kept : update pgtbl v e h.page ≡ pgtbl h.page = ground (arith, k) in
        (
          record {
            page = h.page;
            points = rw l h.points;
            valid = rw kept h.valid;
            number = rw kept h.number;
          },
          λ same. ground (arith, same, h.valid, absent),
        );
    tables = λ w other h. m.tables w (ground (arith, h, gone));
  }
    where
      victim_number : frame_no (pgtbl v).frame ≡ i
      victim_number =
          let h = m.frames i inside used in
          let same : h.page ≡ v = ground (arith, h.points, back) in rw same at h.number

  -- A table that was not there is now there, with no valid entry.
  pub add_table :
      (idx : ℕ) (g : ℕ → Pte)
      → Mapped memsize pgdir pgtbl coremap
      → pgdir idx ≡ false
      → ((v : ℕ) → v / 4096 ≢ idx → g v ≡ pgtbl v)
      → ((v : ℕ) → v / 4096 ≡ idx → has pg_valid (g v).frame ≡ false)
      → Mapped memsize (update pgdir idx true) g coremap
  add_table idx g m free same blank = record {
    small = m.small;
    pages = λ v h.
        let r = m.pages v (rw (old v h) at h) in
        record {
          inside = rw (old v h) r.inside;
          used = rw (old v h) r.used;
          back = rw (old v h) r.back;
        };
    frames = λ i lt used.
        let h = m.frames i lt used in
        let k : g h.page ≡ pgtbl h.page =
          same h.page (λ e. ground (arith, m.tables h.page h.valid, e, free)) in
        record { page = h.page; points = h.points; valid = rw k h.valid; number = rw k h.number };
    tables = λ v h. ground (arith, m.tables v (rw (old v h) at h));
  }
    where
      old : (v : ℕ) → has pg_valid (g v).frame ≡ true → g v ≡ pgtbl v
      old v h = same v (λ e. ground (arith, h, blank v e))
