-- ===== src/Engine/Close.antt =====
-- engine/engine.go: `Close`, and the directory that it leaves, as `scanDir` finds it at the next `Open`.
pub mod Drain
use flume.Common.{
  ℕ, zero, suc, ◌+◌, ◌%◌, ◌^◌, Bool, true, false, not, List, [], ◌∷◌, ◌++◌, map, Option, none, some,
  ltb, if◌then◌else◌, length, Result, ok, err, io_error,
}
use flume.Bytes.{Bytes}
use flume.Engine.{Engine, ImmEntry, LeveledTable, next_gen, build_records}
use flume.Engine.Flush.{flush_next, write_table}
use flume.Engine.Recovery.{Found}

-- What the file system does while the store closes: with the table of each generation, with the closing
-- and the removal of the log, and with the closing of the tables.
pub record Shutdown : Type 0 where
  pub writes : ℕ → Option ℕ
  pub log_closes : Bool
  pub log_removed : Bool
  pub tables_close : Bool

-- The engine, and whether the file of its current log is in the directory.
pub record Session : Type 0 where
  pub engine : Engine
  pub log_left : Bool

-- The flush worker takes all jobs that wait before it ends.
unfoldable pub drain : (ℕ → Option ℕ) → ℕ → Engine → Engine
unfolding flush_next
drain writes zero e = e
drain writes (suc n) e = drain writes n (flush_next (writes (next_gen e)) e)

-- The last flush, of the active MemTable.
unfoldable pub flush_last : (ℕ → Option ℕ) → Engine → Result (Unit {0}) × Engine
unfolding write_table
flush_last writes e =
    let gen = next_gen e in
    elim e.mem.skl [
      | [] ↦ (ok tt, e)
      | x ∷ xs ↦ elim (write_table (writes gen) gen (build_records e.mem)) [
        | err x ↦ (err x, record e { gen_counter = gen })
        | ok table ↦ (
          ok tt,
          record e {
            gen_counter = gen;
            tables = e.tables ++ record { level = 0; table = table } ∷ [];
          },
        )
      ]
    ]

unfoldable pub close_files : Shutdown → Engine → Result (Unit {0}) × Session
close_files s e =
    if not s.log_closes
    then (err io_error, record { engine = e; log_left = true })
    else if not s.log_removed
    then (err io_error, record { engine = e; log_left = true })
    else (if s.tables_close then ok tt else err io_error, record { engine = e; log_left = false })

-- `Close`. A pass of the compaction worker that is under way ends before the rest begins.
unfoldable pub close : Shutdown → Session → Result (Unit {0}) × Session
unfolding drain flush_last close_files
close s t =
    let e = drain s.writes (length t.engine.queue) (record t.engine { closed = true }) in
    let p = flush_last s.writes e in
    if t.engine.closed then (ok tt, t) else elim p.0 [
      | err x ↦ (err x, record { engine = p.1; log_left = true })
      | ok u ↦ close_files s p.1
    ]

-- `scanDir`: the tables by generation.
unfoldable insert_by_gen : LeveledTable → List LeveledTable → List LeveledTable
insert_by_gen t [] = t ∷ []
insert_by_gen t (u ∷ us) =
    if ltb u.table.gen t.table.gen then u ∷ insert_by_gen t us else t ∷ u ∷ us

unfoldable pub sort_by_gen : List LeveledTable → List LeveledTable
unfolding insert_by_gen
sort_by_gen [] = []
sort_by_gen (t ∷ ts) = insert_by_gen t (sort_by_gen ts)

unfoldable highest : List ℕ → ℕ
highest [] = 0
highest (g ∷ gs) = let rest = highest gs in if ltb rest g then g else rest

-- The logs are those of the MemTables that were not flushed, the oldest first, and the current one if it
-- is there; a table's file is there from its flush until a compaction retires it.
unfoldable pub directory : Session → Found
unfolding sort_by_gen highest
directory t =
    let e = t.engine in
    record {
      wal_files =
          map (λ (i : ImmEntry). i.log.file) e.imm ++ (if t.log_left then e.log.file ∷ [] else []);
      tables = sort_by_gen e.tables;
      max_gen = highest (
          map (λ (i : ImmEntry). i.log_gen) e.imm
          ++ ((if t.log_left then e.log_gen ∷ [] else [])
              ++ map (λ (t : LeveledTable). t.table.gen) e.tables));
    }
