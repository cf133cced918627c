-- ===== src/Engine/Steps/Passed.antt =====
-- A pass of the compaction worker on a sound store.
use flume.Common.{
  ℕ, ◌+◌, ◌^◌, ◌<◌, ◌≤◌, ◌≡◌, sym, ◌∙◌, subst, arith, false, List, [], ◌∷◌, some, All, All-append,
  inl, inr, Option-cases,
}
use flume.Common.Perm.{All-imp}
use flume.Sstable.{Record}
use flume.Sstable.Versions.{Distinct-right}
use flume.Sstable.Merge.Correct.{MergeOf, outcome}
use flume.Engine.{Engine, LeveledTable, next_gen}
use flume.Engine.Writes.{IsStore}
use flume.Engine.Flush.{Plan, plan_into, pick_compaction, maybe_trigger_compaction}
use flume.Engine.Compaction.{
  Running, commit_compaction, begin_compaction, run_compaction, remaining,
}
use flume.Engine.Compaction.Levels.{deepest}
use flume.Engine.Compaction.Commit.{
  commit-Compacted, IsPass, outside, input_records, merge_inputs-MergeOf, inputs-Distinct,
  compaction-IsStore,
}
use flume.Engine.Compaction.Passes.{
  Picked, pick-Picked, begun, numbered, planned-IsPass, numbered-IsStore,
}
use flume.Engine.Steps.{IsArranged, IsSound}
use flume.Engine.Steps.Flushed.{fresh}
use flume.Engine.Steps.Compacted.{emptied-IsLayered, replaced-IsLayered, remaining-All}

module _ (size : ℕ) (e : Engine) (a : ℕ) (g : e.gen_counter + 1 < 2 ^ 64) (s : IsArranged e)
    (within : a + 1 ≤ deepest e.config) where
  abbrev running : Running
  running = begun e (plan_into e a)

  known_rest :
      All
        (λ (t : LeveledTable). t.table.gen ≤ next_gen e)
        (remaining (plan_into e a).inputs e.tables)
  known_rest =
      remaining-All (λ (t : LeveledTable). t.table.gen ≤ next_gen e) (plan_into e a).inputs e.tables
        (All-imp (λ (t : LeveledTable). t.table.gen ≤ e.gen_counter) (λ t. t.table.gen ≤ next_gen e)
          e.tables (λ t p. omega arith) s.known)

  committed-IsArranged :
      (out : List Record)
      → MergeOf running.min_keep running.bottommost (input_records running) out
      → running.merged ≡ outcome out
      → IsArranged (commit_compaction (some size) running (numbered e)).1
  unfolding commit_compaction maybe_trigger_compaction
  committed-IsArranged [] o h =
      rw (h, commit_compaction)
        (record {
          layered = emptied-IsLayered e a s.layered [] o.dropped o.parts _ (next_gen e);
          mem_over = s.mem_over;
          imm_order = s.imm_order;
          fifo = s.fifo;
          known = known_rest;
        })
  committed-IsArranged (x ∷ out) o h =
      rw (h, commit_compaction)
        (record {
          layered =
              replaced-IsLayered e a s.layered (x ∷ out) o.dropped o.parts _ (next_gen e) size
                within o.order (fresh (next_gen e) e.gen_counter e.tables (omega arith) s.known);
          mem_over = s.mem_over;
          imm_order = s.imm_order;
          fifo = s.fifo;
          known =
              All-append (λ (t : LeveledTable). t.table.gen ≤ next_gen e)
                (remaining (plan_into e a).inputs e.tables)
                (record {
                  level = a + 1;
                  table = record { gen = next_gen e; records = x ∷ out; size_bytes = size };
                }
                  ∷ [])
                known_rest (omega arith, tt);
        })

  pass-IsArranged :
      IsStore e
      → IsPass running (numbered e)
      → IsArranged (commit_compaction (some size) running (numbered e)).1
  pass-IsArranged i p =
      let (out, o, h) =
        merge_inputs-MergeOf running.min_keep running.bottommost running.plan.inputs p.some_input
          p.sorted
          (Distinct-right (outside running (numbered e)) (input_records running)
            (inputs-Distinct running (numbered e) (numbered-IsStore e i) p)) in
      committed-IsArranged out o (p.merged ∙ h)

  planned-IsSound :
      IsStore e
      → e.closed ≡ false
      → IsPass running (numbered e)
      → IsSound (commit_compaction (some size) running (numbered e)).1
  planned-IsSound i c p = record {
    store = compaction-IsStore size running (numbered e) (numbered-IsStore e i) p;
    arranged = pass-IsArranged i p;
    open_still = (commit-Compacted size running (numbered e) (numbered-IsStore e i) p).closed ∙ c;
  }

Picked-IsSound :
    (size : ℕ) (e : Engine) (p : Plan)
    → IsSound e
    → e.gen_counter + 1 < 2 ^ 64
    → Picked e p
    → IsSound (commit_compaction (some size) (begun e p) (numbered e)).1
Picked-IsSound size e p s g k =
    subst (λ q. IsSound (commit_compaction (some size) (begun e q) (numbered e)).1) (sym k.planned)
      (planned-IsSound size e k.level g s.arranged k.within s.store s.open_still
        (planned-IsPass e k.level s.arranged.layered k.some_table))

-- A pass of the compaction worker on a sound store, if the file system works, keeps it sound.
pub run_compaction-IsSound :
    (size : ℕ) (e : Engine)
    → IsSound e
    → e.gen_counter + 1 < 2 ^ 64
    → IsSound (run_compaction (some size) e).1
unfolding run_compaction begin_compaction
run_compaction-IsSound size e s g = elim (Option-cases (pick_compaction e)) [
  | inl none_picked ↦ rw (none_picked, run_compaction, begin_compaction) s
  | inr (p, picked) ↦
      rw (picked, run_compaction, begin_compaction)
        (Picked-IsSound size e p s g (pick-Picked e p s.arranged.layered.triggers picked))
]
