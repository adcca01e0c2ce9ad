-- ===== src/Paging/Mapped/Replay.antt =====
-- A replay of a trace by A3/sim.c, from a state whose pages are mapped, with any algorithm that is sound.
use csc369_uoft.Base.{
  ℕ, suc, ◌+◌, ◌/◌, ◌^◌, ◌<◌, ◌≡◌, ap, refl, Bool, true, false, Option, none, some, List, [], ◌∷◌,
  ◌++◌, arith, Bool-cases, Option-cases, ◌⊎◌, inl, inr, lt→ltb, if◌then◌else◌, ◌==◌, update, ◌%◌,
}
use csc369_uoft.Paging.{Page, FileOps, Vm}
use csc369_uoft.Paging.Flags.{pg_valid, pg_onswap, has}
use csc369_uoft.Paging.Bitmap.Alloc.{IsMap}
use csc369_uoft.Paging.Opt.{Line, comment, reference}
use csc369_uoft.Paging.Table.{Algorithm, find_physpage}
use csc369_uoft.Paging.Sim.{access_mem, replay_trace}
use csc369_uoft.Paging.Sim.Counts.{references}
use csc369_uoft.Paging.Mapped.Same.{IsMapped, IsSound}
use csc369_uoft.Paging.Mapped.Resolve.{HasOffset, IsLost, resolve-lost}
use csc369_uoft.Paging.Mapped.Found.{find_physpage-Served}

-- The addresses are of the 36 bits that A3/pagetable.h speaks of.
abbrev pub InRange : List Line → Type 0
InRange [] = Unit
InRange (comment ∷ lines) = InRange lines
InRange (reference w vaddr ∷ lines) = (vaddr < 2 ^ 36) × InRange lines

module _ {File : Type 0} where
  IsLost-cases : (s : Vm File) (p : ℕ) → (s.pgdir (p / 4096) ≡ true → HasOffset s p) ⊎ IsLost s p
  IsLost-cases s p = elim (Option-cases (s.pgtbl p).swap_off) [
    | inr (o, e) ↦ inl (λ table absent sent. (o, e))
    | inl e ↦ elim (Bool-cases (s.pgdir (p / 4096))) [
      | inr new ↦ inl (λ table. absurd (ground (arith, table, new)))
      | inl table ↦ elim (Bool-cases (has pg_valid (s.pgtbl p).frame)) [
        | inl v ↦ inl (λ k absent. absurd (ground (arith, v, absent)))
        | inr absent ↦ elim (Bool-cases (has pg_onswap (s.pgtbl p).frame)) [
          | inr o ↦ inl (λ k l sent. absurd (ground (arith, o, sent)))
          | inl sent ↦ inr (record { table = table; absent = absent; sent = sent; nowhere = e })
        ]
      ]
    ]
  ]

module _ {File : Type 0} (io : FileOps File) (alg : Algorithm File) where
  -- The replay comes to its end, with the pages still mapped.
  pub record Ends (lines : List Line) (errors : ℕ) (s : Vm File) : Type 0 where
    pub printed : ℕ
    pub after : Vm File
    pub gives : replay_trace io alg lines errors s ≡ some (printed, after)
    pub mapped : IsMapped after

  -- The replay comes to a reference of a page that is lost.
  pub record Loses (lines : List Line) (errors : ℕ) (s : Vm File) : Type 0 where
    pub before : List Line
    pub is_write : Bool
    pub vaddr : ℕ
    pub rest : List Line
    pub parts : lines ≡ before ++ reference is_write vaddr ∷ rest
    pub printed : ℕ
    pub at : Vm File
    pub gives : replay_trace io alg before errors s ≡ some (printed, at)
    pub lost : IsLost at (vaddr / 4096)
    pub stops : replay_trace io alg lines errors s ≡ none

  module _ {Ready : ℕ → List ℕ → Type 0} (sound : IsSound alg Ready) where
    -- What the replay keeps.
    record Kept (n : ℕ) (t : Vm File) : Type 0 where
      pub mapped : IsMapped t
      pub slots : IsMap t.swapmap
      pub ready : Ready n t.trace

    record Accessed (n : ℕ) (r : Option (Bool × Vm File)) : Type 0 where
      pub ok : Bool
      pub after : Vm File
      pub gives : r ≡ some (ok, after)
      pub kept : Kept n after

    written :
        (n : ℕ) (w : Bool) (t : Vm File) (memory : ℕ → Page)
        → Kept n t
        → Kept n (if w then record t { physmem = memory } else t)
    written n true t memory k = record {
      mapped = record {
        map = k.mapped.map;
        fifo_in = k.mapped.fifo_in;
        clock_in = k.mapped.clock_in;
      };
      slots = k.slots;
      ready = k.ready;
    }
    written n false t memory k = k

    access_mem-Accessed :
        (n vaddr : ℕ) (is_write : Bool) (s : Vm File)
        → IsMapped s
        → IsMap s.swapmap
        → vaddr < 2 ^ 36
        → (s.pgdir (vaddr / 4096 / 4096) ≡ true → HasOffset s (vaddr / 4096))
        → Ready (suc n) s.trace
        → Accessed n (access_mem io alg is_write vaddr s)
    unfolding access_mem
    access_mem-Accessed n vaddr is_write s m slots small offset ready =
        let r = find_physpage-Served io alg sound n vaddr is_write s m slots small offset ready in
        let page = r.after.physmem r.frame in
        record {
          ok = page.checkaddr == vaddr;
          after =
              if is_write
              then record (r.after) {
                physmem =
                    update r.after.physmem r.frame
                      (record page { version = (page.version + 1) % 2 ^ 32 });
              }
              else r.after;
          gives = rw (access_mem, r.gives) refl;
          kept =
              written n is_write r.after _
                (record { mapped = r.held.mapped; slots = r.held.slots; ready = r.held.ready });
        }

    access_mem-lost :
        (vaddr : ℕ) (is_write : Bool) (s : Vm File)
        → IsMapped s
        → IsMap s.swapmap
        → vaddr < 2 ^ 36
        → IsLost s (vaddr / 4096)
        → access_mem io alg is_write vaddr s ≡ none
    unfolding access_mem find_physpage
    access_mem-lost vaddr is_write s m slots small lost =
        rw
          (
            access_mem,
            find_physpage,
            lt→ltb (vaddr / 4096 / 4096) 4096 (omega arith),
            lost.table,
            resolve-lost io alg sound (vaddr / 4096) vaddr s m slots lost,
          )
          refl

    -- With an algorithm that is sound, from a state whose pages are mapped and whose swap map is
    -- in order, a replay of addresses below 2^36 comes to its end with the pages mapped, or it
    -- stops, and then at the first reference, after lines that it replayed, of a page that is
    -- marked as on swap and has no place there.
    pub replay_trace-Ends :
        (lines : List Line) (errors : ℕ) (s : Vm File)
        → IsMapped s
        → IsMap s.swapmap
        → InRange lines
        → Ready (references lines) s.trace
        → Ends lines errors s ⊎ Loses lines errors s
    unfolding replay_trace
    replay_trace-Ends [] errors s m slots small ready =
        inl (record { printed = errors; after = s; gives = refl; mapped = m })
    replay_trace-Ends (comment ∷ lines) errors s m slots small ready =
        elim (replay_trace-Ends lines errors s m slots small ready) [
          | inl r ↦
              inl (record {
                printed = r.printed;
                after = r.after;
                gives = r.gives;
                mapped = r.mapped;
              })
          | inr r ↦ inr (record {
            before = comment ∷ r.before;
            is_write = r.is_write;
            vaddr = r.vaddr;
            rest = r.rest;
            parts = ap (λ l. comment ∷ l) r.parts;
            printed = r.printed;
            at = r.at;
            gives = r.gives;
            lost = r.lost;
            stops = r.stops;
          })
        ]
    replay_trace-Ends (reference w vaddr ∷ lines) errors s m slots small ready =
        elim (IsLost-cases s (vaddr / 4096)) [
          | inr lost ↦ inr (record {
            before = [];
            is_write = w;
            vaddr = vaddr;
            rest = lines;
            parts = refl;
            printed = errors;
            at = s;
            gives = refl;
            lost = lost;
            stops = rw (replay_trace, access_mem-lost vaddr w s m slots small.0 lost) refl;
          })
          | inl offset ↦
              let a =
                access_mem-Accessed (references lines) vaddr w s m slots small.0 offset ready in
              elim (replay_trace-Ends lines (if a.ok then errors else errors + 1) a.after
                a.kept.mapped a.kept.slots small.1 a.kept.ready) [
                  | inl r ↦ inl (record {
                    printed = r.printed;
                    after = r.after;
                    gives = rw (replay_trace, a.gives) r.gives;
                    mapped = r.mapped;
                  })
                  | inr r ↦ inr (record {
                    before = reference w vaddr ∷ r.before;
                    is_write = r.is_write;
                    vaddr = r.vaddr;
                    rest = r.rest;
                    parts = ap (λ l. reference w vaddr ∷ l) r.parts;
                    printed = r.printed;
                    at = r.at;
                    gives = rw (replay_trace, a.gives) r.gives;
                    lost = r.lost;
                    stops = rw (replay_trace, a.gives) r.stops;
                  })
                ]
        ]
