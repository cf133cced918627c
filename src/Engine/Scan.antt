-- ===== src/Engine/Scan.antt =====
-- engine/engine.go: Scan and its iterator, which merges a stream of each MemTable and each table.
pub mod Pick
pub mod Sources
pub mod Tables
pub mod Best
pub mod Drain
pub mod Walk
pub mod Agrees
use flume.Common.{
  ℕ, zero, suc, ◌+◌, Bool, true, false, ◌&&◌, not, List, [], ◌∷◌, ◌++◌, map, Option, none, some,
  ltb, leb, ◌==◌, if◌then◌else◌, length, Result, ok, err, closed, stuck, ◌>>=◌,
}
use flume.Bytes.{Bytes, bytes_equal}
use flume.Skiplist.{Kv}
use flume.Memtable
use flume.Memtable.{Entry}
use flume.Sstable.{Record, type_tombstone}
use flume.Sstable.Merge.{pop_min, pop_next, fill, next_of}
use flume.Sstable.Merge.Heap.{Item, contents}
use flume.Sstable.Iterator.{past_end}
use flume.Sstable.Iterator.Group.{after}
use flume.Sstable.Iterator.Visible.{before_start}
use flume.Engine.{Engine, ImmEntry, LeveledTable, record_of, unbounded_seq}

-- memSliceSource: what its calls of `next` give, the entries that are not too new for the reader.
unfoldable pub mem_source : ℕ → List (Kv Entry) → List Record
mem_source max_seq [] = []
mem_source max_seq (kv ∷ kvs) =
    if leb kv.value.seq max_seq
    then record_of kv ∷ mem_source max_seq kvs
    else mem_source max_seq kvs

abbrev pub in_range : Option Bytes → Option Bytes → Bytes → Bool
in_range start end key = not (before_start start key) && not (past_end end key)

-- sstableRangeSource: what RangeIterator gives, by its contract: of the records in the range that the
-- reader may see the first of each key.
unfoldable pub table_source : Option Bytes → Option Bytes → ℕ → List Record → List Record
table_source start end max_seq [] = []
table_source start end max_seq (r ∷ rs) =
    if in_range start end r.key && leb r.seq max_seq
    then r ∷ after r.key (table_source start end max_seq rs)
    else table_source start end max_seq rs

-- The streams in the order in which `scanAt` pushes them.
unfoldable pub sources : Option Bytes → Option Bytes → ℕ → Engine → List (List Record)
sources start end max_seq e =
    mem_source max_seq (Memtable.range e.mem start end)
    ∷ (map (λ (i : ImmEntry). mem_source max_seq (Memtable.range i.mt start end)) e.imm
        ++ map (λ (t : LeveledTable). table_source start end max_seq t.table.records) e.tables)

-- The state of a ScanIterator: its heap. An item is the record at the front of a stream, and the
-- rest of the stream.
abbrev pub ScanHeap : Type 0
ScanHeap = List Item

unfoldable pub scan_at : Option Bytes → Option Bytes → ℕ → Engine → Result ScanHeap
unfolding sources
scan_at start end max_seq e =
    if e.closed then err closed else fill next_of (sources start end max_seq e) []

unfoldable pub scan : Option Bytes → Option Bytes → Engine → Result ScanHeap
unfolding scan_at
scan start end e = scan_at start end unbounded_seq e

-- The inner loop of `Next`: all versions of `key`, of which the best is kept.
unfoldable pub best_of : ℕ → Bytes → Record → ScanHeap → Result (Record × ScanHeap)
best_of fuel key best [] = ok (best, [])
best_of zero key best (x ∷ xs) = err stuck
best_of (suc fuel) key best (x ∷ xs) =
    let rest = pop_next next_of x xs >>= λ p.
    best_of fuel key (if ltb best.seq p.0.seq then p.0 else best) p.1 in
    if bytes_equal (pop_min next_of x xs).0.0.key key then rest else ok (best, x ∷ xs)

-- The outer loop of `Next`: keys whose best version is a tombstone are passed over.
unfoldable pub scan_loop : ℕ → ScanHeap → Result (Option (Kv Bytes) × ScanHeap)
unfolding best_of
scan_loop fuel [] = ok (none, [])
scan_loop zero (x ∷ xs) = err stuck
scan_loop (suc fuel) (x ∷ xs) = do
  p ← pop_next next_of x xs
  q ← best_of (length (contents p.1)) p.0.key p.0 p.1
  let found : Kv Bytes = record { key = p.0.key; value = q.0.value }
  let rest = scan_loop fuel q.1
  if q.0.type == type_tombstone then rest else ok (some found, q.1)

-- `Next`. The loop has at most as many rounds as the heap has records.
unfoldable pub scan_next : ScanHeap → Result (Option (Kv Bytes) × ScanHeap)
unfolding scan_loop
scan_next h = scan_loop (length (contents h)) h
