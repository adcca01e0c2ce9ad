-- ===== src/Paging/Mapped.antt =====
-- How the page tables and the coremap of A3/pagetable.c belong together, and what changes of them
-- keep it so.
pub mod Take
pub mod Same
pub mod Claim
pub mod Resolve
pub mod Found
pub mod Policies
pub mod Hand
pub mod Replay
use csc369_uoft.Base.{
  ℕ, ◌/◌, ◌^◌, ◌≤◌, ◌<◌, ◌≡◌, ◌≢◌, ◌∙◌, refl, sym, Bool, true, false, Option, some, update, arith,
  ◌⊎◌, inl, inr, Bool-cases, ◌==◌,
}
use csc369_uoft.Paging.{Pte, Frame}
use csc369_uoft.Paging.Flags.{pg_valid, has, frame_no}

-- Page `v` is in memory: its frame is in use and points back to it.
pub record Resident (memsize : ℕ) (pgtbl : ℕ → Pte) (coremap : ℕ → Frame) (v : ℕ) : Type 0 where
  pub inside : frame_no (pgtbl v).frame < memsize
  pub used : (coremap (frame_no (pgtbl v).frame)).in_use ≡ true
  pub back : (coremap (frame_no (pgtbl v).frame)).pte ≡ some v

-- Frame `i` holds a page.
pub record Holds (pgtbl : ℕ → Pte) (coremap : ℕ → Frame) (i : ℕ) : Type 0 where
  pub page : ℕ
  pub points : (coremap i).pte ≡ some page
  pub valid : has pg_valid (pgtbl page).frame ≡ true
  pub number : frame_no (pgtbl page).frame ≡ i

-- The number of a frame fits above the status bits, the valid pages are those that the frames in use
-- hold, and the table of a valid page is there.
pub record Mapped (memsize : ℕ) (pgdir : ℕ → Bool) (pgtbl : ℕ → Pte) (coremap : ℕ → Frame)
    : Type 0 where
  pub small : memsize ≤ 2 ^ 19
  pub pages : (v : ℕ) → has pg_valid (pgtbl v).frame ≡ true → Resident memsize pgtbl coremap v
  pub frames : (i : ℕ) → i < memsize → (coremap i).in_use ≡ true → Holds pgtbl coremap i
  pub tables : (v : ℕ) → has pg_valid (pgtbl v).frame ≡ true → pgdir (v / 4096) ≡ true

-- The same for all pages but `p` and all frames but `i`, which nothing else names.
pub record Pending (p i : ℕ) (memsize : ℕ) (pgdir : ℕ → Bool) (pgtbl : ℕ → Pte)
    (coremap : ℕ → Frame) : Type 0 where
  pub small : memsize ≤ 2 ^ 19
  pub inside : i < memsize
  pub pages :
      (v : ℕ)
      → v ≢ p
      → has pg_valid (pgtbl v).frame ≡ true
      → Resident memsize pgtbl coremap v × (frame_no (pgtbl v).frame ≢ i)
  pub frames :
      (j : ℕ)
      → j < memsize
      → j ≢ i
      → (coremap j).in_use ≡ true
      → (h : Holds pgtbl coremap j) × (h.page ≢ p)
  pub tables : (v : ℕ) → v ≢ p → has pg_valid (pgtbl v).frame ≡ true → pgdir (v / 4096) ≡ true

pub same-cases : (a b : ℕ) → (a ≡ b) ⊎ (a ≢ b)
same-cases a b = elim (Bool-cases (a == b)) [
  | inl h ↦ inl (ground arith)
  | inr h ↦ inr (λ e. ground arith)
]

module _ {p i memsize : ℕ} {pgdir : ℕ → Bool} {pgtbl : ℕ → Pte} {coremap : ℕ → Frame} where
  -- Page `p` is in memory, in frame `i`.
  pub release_page :
      Mapped memsize pgdir pgtbl coremap
      → has pg_valid (pgtbl p).frame ≡ true
      → frame_no (pgtbl p).frame ≡ i
      → Pending p i memsize pgdir pgtbl coremap
  release_page m valid number = record {
    small = m.small;
    inside = omega (arith, (m.pages p valid).inside, number);
    pages = λ v other h. (
      m.pages v h,
      λ same. other (ground (arith, (m.pages v h).back, (m.pages p valid).back, same, number)),
    );
    frames = λ j lt other used.
        let h = m.frames j lt used in (h, λ same. other (sym h.number ∙ rw same number));
    tables = λ v other h. m.tables v h;
  }

  pub settle :
      Pending p i memsize pgdir pgtbl coremap
      → (coremap i).in_use ≡ true
      → (coremap i).pte ≡ some p
      → has pg_valid (pgtbl p).frame ≡ true
      → frame_no (pgtbl p).frame ≡ i
      → pgdir (p / 4096) ≡ true
      → Mapped memsize pgdir pgtbl coremap
  settle m used back valid number table = record {
    small = m.small;
    pages = λ v h. elim (same-cases v p) [
      | inl e ↦ rw e (record {
        inside = omega (arith, m.inside, number);
        used = rw number used;
        back = rw number back;
      })
      | inr other ↦ (m.pages v other h).0
    ];
    frames = λ j lt h. elim (same-cases j i) [
      | inl e ↦ record { page = p; points = rw e back; valid = valid; number = number ∙ sym e }
      | inr other ↦ (m.frames j lt other h).0
    ];
    tables = λ v h. elim (same-cases v p) [ inl e ↦ rw e table | inr other ↦ m.tables v other h ];
  }

  -- The entry of page `p` is not looked at.
  pub rewrite_entry :
      (e : Pte)
      → Pending p i memsize pgdir pgtbl coremap
      → Pending p i memsize pgdir (update pgtbl p e) coremap
  rewrite_entry e m = record {
    small = m.small;
    inside = m.inside;
    pages = λ v other h.
        let k : update pgtbl p e v ≡ pgtbl v = ground (arith, other) in
        let (r, apart) = m.pages v other (rw k at h) in
        (record { inside = rw k r.inside; used = rw k r.used; back = rw k r.back }, rw k apart);
    frames = λ j lt other used.
        let (h, apart) = m.frames j lt other used in
        let k : update pgtbl p e h.page ≡ pgtbl h.page = ground (arith, apart) in
        (
          record { page = h.page; points = h.points; valid = rw k h.valid; number = rw k h.number },
          apart,
        );
    tables = λ v other h. m.tables v other (ground (arith, other, h));
  }
