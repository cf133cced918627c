-- ===== src/Engine/Flush.antt =====
-- engine/engine.go: `doFlush` and its worker's queue, and the choice of the next compaction.
pub mod Reads
use flume.Common.{
  ℕ, zero, suc, ◌+◌, ◌*◌, ◌-◌, ◌%◌, ◌^◌, Bool, true, false, ◌&&◌, ◌||◌, not, List, [], ◌∷◌, ◌++◌,
  map, Option, none, some, ltb, leb, ◌==◌, if◌then◌else◌, length, Result, ok, err, empty_table,
  unsorted, io_error, guard, ◌>>◌, ◌>>=◌,
}
use flume.Sstable.{Record, is_sorted}
use flume.Engine.{Engine, ImmEntry, Table, LeveledTable, Config, next_gen, build_records}

abbrev pub is_nil : List Record → Bool
is_nil [] = true
is_nil (r ∷ rs) = false

-- `sstable.Write` and the `sstable.Open` after it, by their contract: no table without records and
-- none that is out of order; else what the file system does, `none` if it fails and the size of the
-- file if it does not.
unfoldable pub write_table : Option ℕ → ℕ → List Record → Result Table
write_table disk gen records = do
  guard (not (is_nil records)) empty_table
  guard (is_sorted records) (unsorted 0)
  elim disk [
    | none ↦ err io_error
    | some size ↦ ok (record { gen = gen; records = records; size_bytes = size })
  ]

unfoldable pub level_tables : ℕ → List LeveledTable → List Table
level_tables level [] = []
level_tables level (t ∷ ts) =
    if t.level == level then t.table ∷ level_tables level ts else level_tables level ts

-- int64 in two's complement: the comparison, the sum of sizes, and the target of a level.
abbrev pub int64_lt : ℕ → ℕ → Bool
int64_lt a b = ltb ((a + 2 ^ 63) % 2 ^ 64) ((b + 2 ^ 63) % 2 ^ 64)

unfoldable pub total_size : List Table → ℕ
total_size [] = 0
total_size (t ∷ ts) = (t.size_bytes + total_size ts) % 2 ^ 64

-- `targetSizeForLevel`: the base, multiplied `level - 1` times.
unfoldable pub grow : ℕ → ℕ → ℕ → ℕ
grow zero multiplier size = size
grow (suc n) multiplier size = grow n multiplier (size * multiplier % 2 ^ 64)

unfoldable pub target_size_for_level : Config → ℕ → ℕ
unfolding grow
target_size_for_level c level = grow (level - 1) c.level_size_multiplier c.base_level_size_bytes

-- compactionPlan
pub record Plan : Type 0 where
  pub inputs : List Table
  pub target_level : ℕ

abbrev pub plan_into : Engine → ℕ → Plan
plan_into e level = record {
  inputs = level_tables level e.tables ++ level_tables (level + 1) e.tables;
  target_level = level + 1;
}

-- A level with tables that has outgrown its target. (`total` is 0 where there are none.)
unfoldable pub outgrown : Engine → ℕ → Bool
outgrown e level =
    let ts = level_tables level e.tables in
    not (length ts == 0) && int64_lt (target_size_for_level e.config level) (total_size ts)

-- The loop over the levels, `n` of which are left.
unfoldable pub pick_from : ℕ → ℕ → Engine → Option Plan
unfolding outgrown
pick_from zero level e = none
pick_from (suc n) level e =
    let rest = pick_from n (level + 1) e in
    if outgrown e level then some (plan_into e level) else rest

unfoldable pub pick_compaction : Engine → Option Plan
unfolding pick_from
pick_compaction e =
    let above = pick_from (e.config.max_levels - 2) 1 e in
    if leb e.config.l0_compaction_trigger (length (level_tables 0 e.tables))
    then some (plan_into e 0)
    else above

abbrev pub is_some : Option Plan → Bool
is_some none = false
is_some (some p) = true

-- The channel of the compaction worker holds at most one request.
unfoldable pub maybe_trigger_compaction : Engine → Engine
unfolding pick_compaction
maybe_trigger_compaction e = record e {
  compact_requested = e.compact_requested || is_some (pick_compaction e);
}

-- The first entry that is the flushed MemTable, which its log identifies, is cut out.
unfoldable pub remove_imm : ImmEntry → List ImmEntry → List ImmEntry
remove_imm job [] = []
remove_imm job (i ∷ is) =
    let rest = remove_imm job is in if i.log_gen == job.log_gen then is else i ∷ rest

unfoldable pub do_flush : Option ℕ → ImmEntry → Engine → Engine
unfolding write_table remove_imm maybe_trigger_compaction
do_flush disk job e =
    let gen = next_gen e in
    elim (write_table disk gen (build_records job.mt)) [
      | err x ↦ record e { gen_counter = gen }
      | ok table ↦ maybe_trigger_compaction (record e {
        gen_counter = gen;
        tables = e.tables ++ record { level = 0; table = table } ∷ [];
        imm = remove_imm job e.imm;
      })
    ]

-- One turn of `flushWorker`: the oldest job of the channel.
unfoldable pub flush_next : Option ℕ → Engine → Engine
unfolding do_flush
flush_next disk e = elim e.queue [
  | [] ↦ e
  | job ∷ jobs ↦ do_flush disk job (record e { queue = jobs })
]
