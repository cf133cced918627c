-- ===== src/Engine/Compaction.antt =====
-- engine/engine.go: `runCompaction`, in the two parts between which other goroutines may run.
pub mod Inputs
pub mod Reads
pub mod Commit
pub mod Levels
pub mod Passes
use flume.Common.{
  ℕ, zero, suc, ◌+◌, ◌-◌, Bool, true, false, ◌&&◌, ◌||◌, not, List, [], ◌∷◌, ◌++◌, map, Option,
  none, some, ltb, leb, ◌==◌, if◌then◌else◌, length, drop, Result, Error, ok, err, empty_merge,
  io_error,
}
use flume.Sstable.{Record}
use flume.Sstable.Merge.{merge, next_of}
use flume.Sstable.Merge.Heap.{all_records}
use flume.Engine.{Engine, Table, LeveledTable, next_gen, unbounded_seq}
use flume.Engine.Flush.{level_tables, Plan, pick_compaction, maybe_trigger_compaction}

-- `minActiveSnapshotSeq`
unfoldable pub min_seq : ℕ → List (ℕ × ℕ) → ℕ
min_seq min [] = min
min_seq min (s ∷ ss) = min_seq (if ltb s.0 min then s.0 else min) ss

unfoldable pub min_active_snapshot_seq : Engine → ℕ
unfolding min_seq
min_active_snapshot_seq e = min_seq unbounded_seq e.active_snapshots

-- No table at `n` levels from `level` on.
unfoldable pub no_tables_from : ℕ → ℕ → List LeveledTable → Bool
no_tables_from zero level ts = true
no_tables_from (suc n) level ts =
    let rest = no_tables_from n (level + 1) ts in
    if leb 1 (length (level_tables level ts)) then false else rest

unfoldable pub is_bottommost : Engine → ℕ → Bool
unfolding no_tables_from
is_bottommost e target = no_tables_from (e.config.max_levels - (target + 1)) (target + 1) e.tables

-- A compaction that has chosen its inputs and merged them, and has not yet replaced them.
pub record Running : Type 0 where
  pub plan : Plan
  pub bottommost : Bool
  pub min_keep : ℕ
  pub gen : ℕ
  pub merged : Result (List Record)

abbrev pub records_of : List Table → List (List Record)
records_of ts = map (λ (t : Table). t.records) ts

-- The merge of the plan's inputs; the fuel is the number of their records.
unfoldable pub merge_inputs : ℕ → Bool → List Table → Result (List Record)
unfolding merge
merge_inputs min_keep bottommost inputs =
    let rs = records_of inputs in merge next_of (length (all_records rs)) min_keep bottommost rs

-- Up to the exclusive lock.
unfoldable pub begin_compaction : Engine → Option (Running × Engine)
unfolding is_bottommost min_active_snapshot_seq merge_inputs
begin_compaction e = elim (pick_compaction e) [
  | none ↦ none
  | some plan ↦
      let bottommost = is_bottommost e plan.target_level in
      let min_keep = min_active_snapshot_seq e in
      some (
        record {
          plan = plan;
          bottommost = bottommost;
          min_keep = min_keep;
          gen = next_gen e;
          merged = merge_inputs min_keep bottommost plan.inputs;
        },
        record e { gen_counter = next_gen e },
      )
]

-- `inSnapshot`: a table is known by the generation of its file.
unfoldable pub in_snapshot : List Table → Table → Bool
in_snapshot [] t = false
in_snapshot (i ∷ is) t = (i.gen == t.gen) || in_snapshot is t

unfoldable pub remaining : List Table → List LeveledTable → List LeveledTable
unfolding in_snapshot
remaining inputs [] = []
remaining inputs (t ∷ ts) =
    if in_snapshot inputs t.table then remaining inputs ts else t ∷ remaining inputs ts

-- The list as it is left if the pass gives up after it filtered `e.tables[:0]` in place: the slice
-- keeps its length, and its front is overwritten.
unfoldable pub clobbered : List Table → List LeveledTable → List LeveledTable
unfolding remaining
clobbered inputs ts = let rest = remaining inputs ts in rest ++ drop (length rest) ts

abbrev pub is_empty_merge : Error → Bool
is_empty_merge empty_merge = true
is_empty_merge _ = false

-- Under the exclusive lock, and the request of a next pass. `disk` is what the file system makes of
-- the new table, as for a flush.
unfoldable pub commit_compaction : Option ℕ → Running → Engine → Result (Unit {0}) × Engine
unfolding remaining clobbered
commit_compaction disk r e =
    let rest = remaining r.plan.inputs e.tables in
    let failed = record e { tables = clobbered r.plan.inputs e.tables } in
    elim r.merged [
      | err x ↦
          if is_empty_merge x
          then (ok tt, maybe_trigger_compaction (record e { tables = rest }))
          else (err x, failed)
      | ok out ↦ elim disk [
        | none ↦ (err io_error, failed)
        | some size ↦ (
          ok tt,
          maybe_trigger_compaction (record e {
            tables =
                rest
                ++ record {
                  level = r.plan.target_level;
                  table = record { gen = r.gen; records = out; size_bytes = size };
                }
                  ∷ [];
          }),
        )
      ]
    ]

-- `runCompaction`, if nothing comes in between.
unfoldable pub run_compaction : Option ℕ → Engine → Result (Unit {0}) × Engine
unfolding begin_compaction commit_compaction
run_compaction disk e = elim (begin_compaction e) [
  | none ↦ (ok tt, e)
  | some r ↦ commit_compaction disk r.0 r.1
]
