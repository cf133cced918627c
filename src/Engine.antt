-- ===== src/Engine.antt =====
-- engine/engine.go: the state of the store, its writes and its reads.
pub mod Reads
pub mod Writes
pub mod PutGet
pub mod Flush
pub mod Compaction
pub mod Snapshot
pub mod Scan
pub mod Recovery
pub mod Close
pub mod Stats
pub mod Names
pub mod Steps
mod Runs
use flume.Common.{
  ℕ, zero, suc, ◌+◌, ◌*◌, ◌-◌, ◌%◌, ◌^◌, Bool, true, false, ◌&&◌, ◌||◌, not, List, [], ◌∷◌, ◌++◌,
  map, Option, none, some, ltb, leb, ◌==◌, if◌then◌else◌, Result, ok, err, closed, not_found,
  empty_key, io_error, ◌>>=◌, length,
}
use flume.Bytes.{Bytes}
use flume.Wal
use flume.Wal.{Wal, Disk, append, record_put, record_delete}
use flume.Skiplist.{Kv}
use flume.Memtable
use flume.Memtable.{MemTable, Entry}
use flume.Sstable.{Record, better, candidate, newest, type_tombstone}

-- A table in the engine's list: the generation in its file name, which identifies it, the records
-- that it holds, and the size of its file.
pub record Table : Type 0 where
  pub gen : ℕ
  pub records : List Record
  pub size_bytes : ℕ

pub record LeveledTable : Type 0 where
  pub level : ℕ
  pub table : Table

-- A MemTable with the log behind it. The log's generation identifies it.
pub record ImmEntry : Type 0 where
  pub mt : MemTable
  pub log : Wal
  pub log_gen : ℕ

pub record Config : Type 0 where
  pub flush_threshold : ℕ
  pub l0_compaction_trigger : ℕ
  pub base_level_size_bytes : ℕ
  pub level_size_multiplier : ℕ
  pub max_levels : ℕ

abbrev pub default_config : Config
default_config = record {
  flush_threshold = 4 * 1024 * 1024;
  l0_compaction_trigger = 4;
  base_level_size_bytes = 2 * 1024 * 1024;
  level_size_multiplier = 10;
  max_levels = 7;
}

pub record Engine : Type 0 where
  pub config : Config
  pub mem : MemTable
  pub log : Wal
  pub log_gen : ℕ
  pub imm : List ImmEntry
  pub tables : List LeveledTable
  pub closed : Bool
  pub seq : ℕ
  pub gen_counter : ℕ
  -- the flush queue, oldest job first
  pub queue : List ImmEntry
  -- a request in the channel of the compaction worker
  pub compact_requested : Bool
  -- sequence number and number of open snapshots pinned at it
  pub active_snapshots : List (ℕ × ℕ)

abbrev pub unbounded_seq : ℕ
unbounded_seq = 2 ^ 64 - 1

-- `atomic.AddUint64(&e.genCounter, 1)`
abbrev pub next_gen : Engine → ℕ
next_gen e = (e.gen_counter + 1) % 2 ^ 64

abbrev pub empty_log : Wal
empty_log = record { file = []; broken = false }

-- The MemTable with its log that `rotate` moves on.
abbrev pub full_pair : Engine → ImmEntry
full_pair e = record { mt = e.mem; log = e.log; log_gen = e.log_gen }

-- `rotate`: nothing if another writer was first; else a new log (whose opening may fail), a new
-- MemTable, and the old pair at the end of the immutable list and of the flush queue.
unfoldable pub rotate : Bool → Engine → Result (Unit {0}) × Engine
rotate log_opens e =
    if ltb e.mem.size e.config.flush_threshold
    then (ok tt, e)
    else if not log_opens
    then (err io_error, record e { gen_counter = next_gen e })
    else (
      ok tt,
      record e {
        mem = Memtable.new;
        log = empty_log;
        log_gen = next_gen e;
        imm = e.imm ++ full_pair e ∷ [];
        gen_counter = next_gen e;
        queue = e.queue ++ full_pair e ∷ [];
      },
    )

-- What the operating system does with one write: the append to the log, and the opening of a new log
-- if the MemTable is full.
pub record Weather : Type 0 where
  pub disk : Disk
  pub log_opens : Bool

abbrev pub apply_write : MemTable → Bytes → Bytes → ℕ → ℕ → MemTable
apply_write mt key value type seq =
    if type == record_put then Memtable.put mt key value seq else Memtable.delete mt key seq

-- The part of `write` behind the append, on the state that the append left.
unfoldable pub write_memtable : Weather → Bytes → Bytes → ℕ → Engine → Result (Unit {0}) × Engine
write_memtable w key value type e =
    let e' = record e { mem = apply_write e.mem key value type e.seq } in
    if leb e.config.flush_threshold e'.mem.size then rotate w.log_opens e' else (ok tt, e')

unfoldable pub write : Weather → Bytes → Bytes → ℕ → Engine → Result (Unit {0}) × Engine
write w key value type e =
    let seq = (e.seq + 1) % 2 ^ 64 in
    let p = append w.disk e.log (record { type = type; key = key; value = value; seq = seq }) in
    let e' = record e { seq = seq; log = p.1 } in
    if e.closed
    then (err closed, e)
    else elim p.0 [ err x ↦ (err io_error, e') | ok u ↦ write_memtable w key value type e' ]

abbrev pub is_empty : Bytes → Bool
is_empty [] = true
is_empty (b ∷ bs) = false

unfoldable pub put : Weather → Bytes → Bytes → Engine → Result (Unit {0}) × Engine
put w key value e = if is_empty key then (err empty_key, e) else write w key value record_put e

unfoldable pub delete : Weather → Bytes → Engine → Result (Unit {0}) × Engine
delete w key e = if is_empty key then (err empty_key, e) else write w key [] record_delete e

-- The record that a MemTable's entry stands for.
abbrev pub record_of : Kv Entry → Record
record_of kv = record {
  key = kv.key;
  value = kv.value.value;
  type = kv.value.type;
  seq = kv.value.seq;
}

-- `buildRecords`
unfoldable pub build_records : MemTable → List Record
build_records mt = map record_of (Memtable.all mt)

-- `consider`: a record above the bound is passed over; of the others the one with the highest
-- sequence number is kept, the first on a tie.
unfoldable pub consider : ℕ → Option Record → Record → Option Record
consider max_seq best rec =
    if ltb max_seq rec.seq
    then best
    else elim best [ none ↦ some rec | some b ↦ if ltb b.seq rec.seq then some rec else some b ]

unfoldable pub consider_memtable : Bytes → ℕ → Option Record → MemTable → Option Record
unfolding consider
consider_memtable key max_seq best mt = elim (Memtable.get mt key) [
  | none ↦ best
  | some entry ↦
      consider max_seq best
        (record { key = key; value = entry.value; type = entry.type; seq = entry.seq })
]

-- The immutable MemTables are read from the last to the first.
unfoldable pub consider_imm : Bytes → ℕ → Option Record → List ImmEntry → Option Record
unfolding consider_memtable
consider_imm key max_seq best [] = best
consider_imm key max_seq best (i ∷ is) =
    consider_memtable key max_seq (consider_imm key max_seq best is) i.mt

-- `Table.Get`, by its contract: the newest version of the key that is visible at the bound.
unfoldable pub consider_tables : Bytes → ℕ → Option Record → List LeveledTable → Option Record
unfolding consider
consider_tables key max_seq best [] = best
consider_tables key max_seq best (t ∷ ts) =
    let found = newest key max_seq t.table.records in
    consider_tables key max_seq (elim found [ none ↦ best | some r ↦ consider max_seq best r ]) ts

abbrev pub answer : Option Record → Result Bytes
answer none = err not_found
answer (some r) = if r.type == type_tombstone then err not_found else ok r.value

unfoldable pub get_at : Bytes → ℕ → Engine → Result Bytes
unfolding consider_memtable consider_imm consider_tables
get_at key max_seq e =
    let best = consider_memtable key max_seq none e.mem in
    let best' = consider_imm key max_seq best e.imm in
    if is_empty key
    then err empty_key
    else if e.closed
    then err closed
    else answer (consider_tables key max_seq best' e.tables)

unfoldable pub get : Bytes → Engine → Result Bytes
unfolding get_at
get key e = get_at key unbounded_seq e
