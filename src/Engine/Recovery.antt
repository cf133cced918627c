-- ===== src/Engine/Recovery.antt =====
-- engine/engine.go: `Open` and `recoverFromWALs`.
pub mod Replay
use flume.Common.{
  ℕ, zero, suc, ◌+◌, ◌%◌, ◌^◌, Bool, true, false, List, [], ◌∷◌, ◌++◌, Option, none, some, ltb,
  ◌==◌, if◌then◌else◌, Result, ok, err, ◌>>=◌, io_error, unrecognized_type,
}
use flume.Bytes.{Bytes}
use flume.Wal
use flume.Wal.{record_put, record_delete, replay}
use flume.Memtable
use flume.Memtable.{MemTable}
use flume.Engine.{Engine, Config, LeveledTable, next_gen, empty_log, build_records}
use flume.Engine.Flush.{write_table}

-- The callback of `recoverFromWALs`, on the MemTable that it fills and the highest number it met.
unfoldable pub recover_record : Wal.Record → MemTable × ℕ → Result (MemTable × ℕ)
recover_record rec p =
    let max_seq = if ltb p.1 rec.seq then rec.seq else p.1 in
    if rec.type == record_put
    then ok (Memtable.put p.0 rec.key rec.value rec.seq, max_seq)
    else if rec.type == record_delete
    then ok (Memtable.delete p.0 rec.key rec.seq, max_seq)
    else err unrecognized_type

-- The files, oldest generation first.
unfoldable pub replay_all : List Bytes → MemTable × ℕ → Result (MemTable × ℕ)
unfolding recover_record
replay_all [] p = ok p
replay_all (f ∷ fs) p = replay recover_record (some f) p >>= λ p'. replay_all fs p'

-- The state behind the replay: the numbering goes on from the highest number in the logs, and what
-- they hold becomes a table of level 0. (The removal of the files is taken to succeed.)
unfoldable pub adopt : Option ℕ → Engine → MemTable × ℕ → Result Engine
adopt disk e p =
    let e' = record e { seq = if ltb e.seq p.1 then p.1 else e.seq } in
    elim p.0.skl [
      | [] ↦ ok e'
      | x ∷ xs ↦ do
        table ← write_table disk (next_gen e') (build_records p.0)
        ok (record e' {
          gen_counter = next_gen e';
          tables = e'.tables ++ record { level = 0; table = table } ∷ [];
        })
    ]

unfoldable pub recover_from_wals : Option ℕ → List Bytes → Engine → Result Engine
unfolding replay_all adopt
recover_from_wals disk [] e = ok e
recover_from_wals disk (f ∷ fs) e = replay_all (f ∷ fs) (Memtable.new, 0) >>= λ p. adopt disk e p

-- What `scanDir` finds in the directory, and the tables opened: the logs and the highest generation.
pub record Found : Type 0 where
  pub wal_files : List Bytes
  pub tables : List LeveledTable
  pub max_gen : ℕ

abbrev pub opening : Config → Found → Engine
opening c f = record {
  config = c;
  mem = Memtable.new;
  log = empty_log;
  log_gen = 0;
  imm = [];
  tables = f.tables;
  closed = false;
  seq = 0;
  gen_counter = f.max_gen;
  queue = [];
  compact_requested = false;
  active_snapshots = [];
}

-- `Open`, whose new log may fail to open.
unfoldable pub open_engine : Config → Option ℕ → Bool → Found → Result Engine
unfolding recover_from_wals
open_engine c disk log_opens f = recover_from_wals disk f.wal_files (opening c f) >>= λ e.
    if log_opens
    then ok (record e { log_gen = next_gen e; gen_counter = next_gen e })
    else err io_error
