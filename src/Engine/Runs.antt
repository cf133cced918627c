-- ===== src/Engine/Runs.antt =====
-- Runs of the store on small inputs.
use flume.Common.{
  ◌≤◌, ◌≡◌, refl, arith, true, false, List, [], ◌∷◌, ◌++◌, some, if◌then◌else◌, ok, ◌>>=◌, inl, inr,
}
use flume.Bytes.{Bytes, bytes_equal, bytes_compare}
use flume.Wal
use flume.Wal.{Disk, append, record_put, record_delete, encode_all}
use flume.Wal.Format.{read_record-short}
use flume.Engine.Recovery.{Found, open_engine}
use flume.Engine.Recovery.Replay.{HoldAll, log_versions, open-get}
use flume.Memtable
use flume.Engine.{write_memtable, rotate}
use flume.Engine.Flush.{flush_next}
use flume.Memtable.{MemTable}
use flume.Sstable.{Record, newest, less}
use flume.Engine.{
  Engine, ImmEntry, Table, LeveledTable, Config, Weather, empty_log, put, delete, write, get,
  get_at, answer, build_records, next_gen, default_config, unbounded_seq,
}
use flume.Engine.Reads.{versions, get_at-newest}
use flume.Engine.Writes.{IsStore, older}
use flume.Engine.PutGet.{Logged, put-get, write-pinned}
use flume.Engine.Flush.{
  do_flush, remove_imm, Plan, plan_into, level_tables, pick_compaction, maybe_trigger_compaction,
}
use flume.Engine.Flush.Reads.{flush-get}
use flume.Engine.Compaction.{
  Running, merge_inputs, commit_compaction, min_active_snapshot_seq, remaining, run_compaction,
  begin_compaction, is_bottommost, no_tables_from, in_snapshot,
}
use flume.Engine.Compaction.Levels.{IsLayered}
use flume.Engine.Compaction.Passes.{run_compaction-get}
use flume.Sstable.Merge.{merge, retain}
use flume.Engine.Compaction.Inputs.{DistinctGens, Taken, plan-Taken}
use flume.Engine.Compaction.Commit.{IsPass, compaction-get}
use flume.Engine.Snapshot.{snapshot, book, Event, snapshot-pinned}
use flume.Common.{get_elem?, length}
use flume.Engine.Stats.{stats, stats-level_tables}
use flume.Common.{Returns, none, All}
use flume.Sstable.Merge.Retain.{Ascending}
use flume.Skiplist.{Kv}
use flume.Engine.Scan.{scan_at}
use flume.Engine.Scan.Drain.{ScanYields}
use flume.Engine.Scan.Agrees.{Scanned, scan_at-newest}

-- The key `k` has the version 1, `v`, in the older table, and a tombstone, 2, in the newer one; the
-- key `j` has the version 3 in an immutable MemTable.
abbrev pub k : Bytes
k = 107 ∷ []

abbrev j : Bytes
j = 106 ∷ []

abbrev pub v : Bytes
v = 118 ∷ []

abbrev old : Record
old = record { key = k; value = v; type = 1; seq = 1 }

abbrev dead : Record
dead = record { key = k; value = []; type = 2; seq = 2 }

abbrev young : Record
young = record { key = j; value = v; type = 1; seq = 3 }

abbrev waiting : ImmEntry
waiting = record {
  mt = record {
    skl = record { key = j; value = record { type = 1; value = v; seq = 3 } } ∷ [];
    size = 50;
  };
  log = empty_log;
  log_gen = 3;
}

abbrev two_tables : List LeveledTable
two_tables =
    record { level = 0; table = record { gen = 1; records = old ∷ []; size_bytes = 60 } }
    ∷ record { level = 0; table = record { gen = 2; records = dead ∷ []; size_bytes = 60 } }
    ∷ []

abbrev store : Engine
store = record {
  config = record default_config { flush_threshold = 40; l0_compaction_trigger = 2 };
  mem = Memtable.new;
  log = empty_log;
  log_gen = 4;
  imm = waiting ∷ [];
  tables = two_tables;
  closed = false;
  seq = 3;
  gen_counter = 4;
  queue = waiting ∷ [];
  compact_requested = false;
  active_snapshots = [];
}

store-IsStore : IsStore store
unfolding build_records
store-IsStore = record {
  readable = record { mem_ordered = tt; imm_ordered = ((tt, tt), tt) };
  given_out = (omega arith, (omega arith, (omega arith, tt)));
  distinct = (
    ((λ p q. absurd (omega (arith, q))), ((λ p q. absurd (omega (arith, q))), tt)),
    (((λ p q. absurd (omega (arith, q))), tt), (tt, tt)),
  );
}

abbrev pub sunny : Weather
sunny = record { disk = Disk.synced; log_opens = true }

put-Logged : Logged sunny k v record_put store
unfolding append
put-Logged = refl

delete-Logged : Logged sunny j [] record_delete store
unfolding append
delete-Logged = refl

-- The put fills the MemTable, so that it is rotated.
put-get_example : get k (put sunny k v store).1 ≡ (if bytes_equal k k then ok v else get k store)
put-get_example = put-get sunny k v store store-IsStore refl put-Logged (omega arith) refl k refl

write-pinned_example :
    get_at k 1 (write sunny k v record_put store).1
    ≡ (if bytes_equal k k then answer (newest k 1 (older store)) else get_at k 1 store)
write-pinned_example =
    write-pinned sunny k v record_put store store-IsStore refl put-Logged (omega arith) k 1 refl
      (omega arith)

get_at-newest_example : get_at k 1 store ≡ answer (newest k 1 (versions store))
get_at-newest_example = get_at-newest k 1 store store-IsStore.readable refl refl

flush-get_example : get_at j 3 (do_flush (some 60) waiting store) ≡ get_at j 3 store
flush-get_example = flush-get (some 60) waiting store store-IsStore refl (inl refl) j 3 refl

-- A bottommost pass over both tables of level 0: it drops the tombstone and what it hides.
abbrev pass : Running
pass = record {
  plan = plan_into store 0;
  bottommost = true;
  min_keep = 3;
  gen = 5;
  merged = merge_inputs 3 true (plan_into store 0).inputs;
}

store-DistinctGens : DistinctGens two_tables
store-DistinctGens = (((λ p. omega (arith, p)), tt), (tt, tt))

plan-Taken_example : Taken (plan_into store 0).inputs two_tables
plan-Taken_example = plan-Taken store 0 store-DistinctGens

pass-IsPass : IsPass pass store
unfolding flume.Engine.Flush.level_tables build_records remaining
    flume.Engine.Compaction.in_snapshot
pass-IsPass = record {
  some_input = λ p. cc;
  sorted = ((tt, tt), ((tt, tt), tt));
  merged = refl;
  taken = plan-Taken store 0 store-DistinctGens;
  over = (((λ p. omega arith), ((λ p. omega arith), tt)), tt);
}

compaction-get_example : get_at k 3 (commit_compaction (some 90) pass store).1 ≡ get_at k 3 store
compaction-get_example =
    compaction-get 90 pass store store-IsStore pass-IsPass refl k 3 (omega arith) refl

-- Two snapshots are taken at 5 and the number 3, and one at 5 is closed.
abbrev events : List Event
events = Event.opened 3 ∷ Event.opened 5 ∷ Event.dropped 5 ∷ []

snapshot-pinned_example :
    min_active_snapshot_seq
      (record store { active_snapshots = book events (snapshot store).1.active_snapshots })
    ≤ 3
snapshot-pinned_example = snapshot-pinned store events tt refl (omega arith)

-- A directory after a crash: an older log with a put of `k`, and a newer one with a delete of it and a
-- torn record behind that.
abbrev first_log : List Wal.Record
first_log = record { type = 1; key = k; value = v; seq = 1 } ∷ []

abbrev second_log : List Wal.Record
second_log = record { type = 2; key = k; value = []; seq = 2 } ∷ []

abbrev crashed : Found
crashed = record {
  wal_files = (encode_all first_log ++ []) ∷ (encode_all second_log ++ 9 ∷ 9 ∷ []) ∷ [];
  tables = [];
  max_gen = 7;
}

crashed-HoldAll :
    HoldAll
      ((encode_all first_log ++ []) ∷ (encode_all second_log ++ 9 ∷ 9 ∷ []) ∷ [])
      (first_log ∷ second_log ∷ [])
crashed-HoldAll = (
  record {
    tail = [];
    file_is = refl;
    torn = read_record-short [] (omega arith);
    loggable = (
      (
        record {
          type_fits = omega arith;
          seq_fits = omega arith;
          key_fits = omega arith;
          value_fits = omega arith;
        },
        record { key_len = omega arith; value_len = omega arith },
      ),
      tt,
    );
    known = (inl refl, tt);
  },
  (
    record {
      tail = 9 ∷ 9 ∷ [];
      file_is = refl;
      torn = read_record-short (9 ∷ 9 ∷ []) (omega arith);
      loggable = (
        (
          record {
            type_fits = omega arith;
            seq_fits = omega arith;
            key_fits = omega arith;
            value_fits = omega arith;
          },
          record { key_len = omega arith; value_len = omega arith },
        ),
        tt,
      );
      known = (inr refl, tt);
    },
    tt,
  ),
)

open-get_example :
    (open_engine default_config (some 60) true crashed >>= λ e. get k e)
    ≡ answer (newest k unbounded_seq ([] ++ log_versions (first_log ∷ second_log ∷ [])))
open-get_example =
    open-get default_config 60 crashed (first_log ∷ second_log ∷ []) k crashed-HoldAll
      ((omega arith, tt), (tt, tt)) refl

store-IsLayered : IsLayered store
unfolding build_records
store-IsLayered = record {
  gens = store-DistinctGens;
  sorted = ((tt, tt), ((tt, tt), tt));
  memory_over = tt;
  imm_over = (((λ p. omega arith), ((λ p. omega arith), tt)), tt);
  levels = (((tt, tt), ((tt, tt), tt)), (((tt, tt), ((tt, tt), tt)), tt));
  bounded = (omega arith, (omega arith, tt));
  triggers = omega arith;
}

-- The pass merges both tables of level 0 into one of level 1; with no snapshot it drops the tombstone.
pass_run : (run_compaction (some 90) store).1.tables ≡ []
unfolding run_compaction begin_compaction commit_compaction pick_compaction merge_inputs
    is_bottommost no_tables_from level_tables remaining in_snapshot maybe_trigger_compaction
    min_active_snapshot_seq merge less bytes_compare retain
pass_run = refl

run_compaction-get_example :
    get_at k unbounded_seq (run_compaction (some 90) store).1 ≡ get_at k unbounded_seq store
run_compaction-get_example =
    run_compaction-get 90 store store-IsStore store-IsLayered refl k unbounded_seq bound refl
  where
    bound : min_active_snapshot_seq store ≤ unbounded_seq
    bound = unfold min_active_snapshot_seq in omega arith

store_sorted : All (λ (t : LeveledTable). Ascending t.table.records) store.tables
store_sorted = ((tt, tt), ((tt, tt), tt))

-- The whole of the store: `j` is live, `k` is deleted.
scan_at-newest_example : Returns (scan_at none none 3 store) (λ h.
    (out : List (Kv Bytes)) × ScanYields h out
    × Scanned none none 3 store store-IsStore store_sorted out)
scan_at-newest_example = scan_at-newest none none 3 store store-IsStore store_sorted refl

stats-level_tables_example :
    get_elem? (stats store).tables_per_level 0 ≡ some (length (level_tables 0 two_tables))
stats-level_tables_example = stats-level_tables store 0 (omega arith)
