-- ===== src/Lib.antt =====
-- Flume, an embedded key-value store as a log-structured merge tree, and what its verification library
-- models of it.
--
-- The program. The engine (engine/engine.go) appends each write to a write-ahead log (wal/wal.go) and
-- puts it into a MemTable (memtable/memtable.go, over the ordered map of skiplist/skiplist.go). A full
-- MemTable is rotated out and flushed to a sorted table (sstable/), with a Bloom filter (bloom/bloom.go)
-- over its keys; compaction merges tables (sstable/merge.go). A read takes the version with the highest
-- sequence number over all of these. Open replays the logs that a crash left.
--
-- The files.
--   Common: shared names, Boolean tests, lists over native numbers, Go's errors as the type Result, and
--     permutations.
--   Bytes: byte strings, `bytes.Compare`, and the little-endian codec of encoding/binary.
--   Bloom: `Filter`, `Add`, `MayContain`, `Encode`, `Decode`, `NewForEntries`, whose floating-point
--     formulas are the parameter `Sizing`; uint32 arithmetic is written with its wrap-around.
--   Wal: `Append` and `Replay` on the bytes of the file. `Disk` says what the operating system does with
--     an append; the checksum is CRC-32, bit by bit. The loop of `Replay` runs on fuel, one more than
--     the bytes of the file, and each round takes a header of 21 bytes.
--   Skiplist: the ordered map that the skip list promises, and its laws.
--   Memtable: `MemTable` over that map.
--   Sstable: `Record`, the order that `Write` demands, and `newest`, the version that a read at a bound
--     finds; Sstable.Merge: `Merge` over any iterator, up to its `Write`, with a heap that is a pool from
--     which a least item by `Less` is taken; its fuel is the number of records of the inputs.
--     Sstable.Format: `Write` byte by byte, with its guards, and its temporary file under failing system
--     calls; compress/flate is the parameter `Flate`. Sstable.Table: `Open` and `Get`;
--     Sstable.Iterator: both iterators. `make` refuses more than 2^48 bytes, as on a 64-bit machine, and
--     files are below 2^47 bytes. The loop over the index has as many rounds as its block has bytes, the
--     binary search as the index has entries, the loops of the iterators as the table has records.
--     Sstable.Lifecycle: `Acquire`, `Release`, `Retire` as a step relation with readers and the engine.
--   Engine: the state, `Put`, `Delete`, `write`, `rotate`, `getAt`; Engine.Flush: `doFlush` and the choice
--     of a compaction; Engine.Compaction: `runCompaction`, split where it takes the exclusive lock, so that
--     other steps may come between; Engine.Snapshot: snapshots and their book; Engine.Recovery: `Open` and
--     `recoverFromWALs`. A table of the engine is its records, its size and its generation, which stands
--     for its path; `Table.Get` enters by its contract, `newest`, which Sstable.Table.RoundTrip shows of
--     its code. Engine.Scan: `Scan`, `scanAt` and `ScanIterator.Next`; a stream is the list of what its
--     calls of `next` give, its fuel the number of records in it; `RangeIterator` enters by its contract.
--     Engine.Close: `Close`, with what the file system does as the parameter `Shutdown`, and the directory
--     that it leaves to `scanDir`; a pass of compaction under way ends first. Engine.Stats: `Stats`.
--     Engine.Names: the names of log and table files and their parsing; the loop over the digits has one more
--     round than the number, which has fewer digits. Engine.Steps: the store as a state machine
--     of writes, turns of the flush worker, passes of the compaction worker and snapshots, each one step.
--   Server: the handlers of PUT, GET and DELETE in server/server.go, over the engine.
--
-- Not modelled: what a crash leaves of a file that is not synced; a failed compaction in the life of a
-- table; the skip list's towers; the listing of the directory in `scanDir`, so that what it finds
-- is a parameter of `Open`; the references that a scan holds; metrics (metrics/,
-- engine/engine_metrics.go), routing, logging, the scan and the stats handler of the HTTP
-- server (server/server.go), and the command line (main.go), which are input and output around the store.
-- Latencies, counters and log messages change nothing in the store and are left out.
pub mod Common
pub mod Bytes
pub mod Bloom
pub mod Wal
pub mod Sstable
pub mod Skiplist
pub mod Memtable
pub mod Engine
pub mod Server
