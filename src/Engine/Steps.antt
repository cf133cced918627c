-- ===== src/Engine/Steps.antt =====
-- The store as a state machine: what its clients, its flush worker and its compaction worker do to it, in
-- any order, while the disk works.
pub mod Order
pub mod Written
pub mod Flushed
pub mod Compacted
pub mod Passed
pub mod Reach
pub mod Scans
pub mod Filled
pub mod Closed
mod Runs
use flume.Common.{
  ℕ, ◌+◌, ◌<◌, ◌≤◌, ◌^◌, ◌≡◌, Bool, true, false, List, [], ◌∷◌, ◌++◌, Option, none, some, ok, All,
}
use flume.Bytes.{Bytes}
use flume.Sstable.{Record}
use flume.Wal.{record_put, record_delete}
use flume.Engine.{Engine, ImmEntry, Table, LeveledTable, Weather, build_records, next_gen, write}
use flume.Engine.Reads.{imm_versions, table_versions}
use flume.Engine.Writes.{IsStore}
use flume.Engine.PutGet.{Logged}
use flume.Engine.Flush.{do_flush, flush_next, write_table}
use flume.Engine.Compaction.{run_compaction}
use flume.Engine.Compaction.Reads.{Over}
use flume.Engine.Compaction.Levels.{IsLayered}

-- Later MemTables are newer, key by key, than earlier ones.
abbrev pub ImmOrder : List ImmEntry → Type 0
ImmOrder [] = Unit
ImmOrder (i ∷ is) = Over (imm_versions is) (build_records i.mt) × ImmOrder is

-- The order between the levels, and between the MemTables and the tables; a flush queue that is the
-- immutable list; and generations below the counter.
pub record IsArranged (e : Engine) : Type 0 where
  pub layered : IsLayered e
  pub mem_over : Over (build_records e.mem) (imm_versions e.imm)
  pub imm_order : ImmOrder e.imm
  pub fifo : e.queue ≡ e.imm
  pub known : All (λ (t : LeveledTable). t.table.gen ≤ e.gen_counter) e.tables

-- The invariant of the whole store.
pub record IsSound (e : Engine) : Type 0 where
  pub store : IsStore e
  pub arranged : IsArranged e
  pub open_still : e.closed ≡ false
