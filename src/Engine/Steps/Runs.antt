-- ===== src/Engine/Steps/Runs.antt =====
-- Runs of the store from the empty directory.
use flume.Common.{◌+◌, ◌<◌, ◌^◌, ◌≡◌, refl, arith, List, [], ◌∷◌, some, if◌then◌else◌}
use flume.Bytes.{Bytes}
use flume.Wal.{Disk, append, record_put}
use flume.Memtable
use flume.Skiplist.{insert}
use flume.Engine.{write_memtable, rotate}
use flume.Engine.Flush.{flush_next}
use flume.Engine.Steps.{IsSound}
use flume.Engine.Steps.Reach.{
  Step, Reachable, Reachable-get, Reachable-IsSound, latest, empty_store,
}
use flume.Memtable.{MemTable}
use flume.Engine.{Engine, ImmEntry, Config, empty_log, put, write, get, default_config}
use flume.Engine.PutGet.{Logged}
use flume.Common.{Returns, none, ok, true, ◌>>=◌}
use flume.Engine.Recovery.{open_engine}
use flume.Skiplist.{Kv, lookup}
use flume.Engine.Close.{close, directory}
use flume.Engine.Steps.Closed.{calm, running, Reachable-close}
use flume.Engine.Runs.{k, v, sunny}
use flume.Engine.Scan.{scan, in_range}
use flume.Engine.Scan.Drain.{ScanYields}
use flume.Engine.Steps.Scans.{Reachable-scan, value_of}

-- A put that fills the MemTable of an empty store, and its flush.
abbrev small : Config
small = record default_config { flush_threshold = 40 }

abbrev full : ImmEntry
full = record {
  mt = record {
    skl = record { key = k; value = record { type = 1; value = v; seq = 1 } } ∷ [];
    size = 50;
  };
  log =
      (append Disk.synced empty_log (record { type = record_put; key = k; value = v; seq = 1 })).1;
  log_gen = 0;
}

abbrev after_put : Engine
after_put = (put sunny k v (empty_store small)).1

first-Logged : Logged sunny k v record_put (empty_store small)
unfolding append
first-Logged = refl

put-Reachable : Reachable small after_put ((k, some v) ∷ [])
put-Reachable =
    Reachable.wrote Reachable.start sunny k v refl first-Logged (omega arith) (omega arith)

full-waits : after_put.imm ≡ full ∷ []
unfolding put write write_memtable rotate append Memtable.put insert
full-waits = refl

after_put-gen : after_put.gen_counter + 1 < 2 ^ 64
unfolding put write write_memtable rotate append Memtable.put insert
after_put-gen = omega arith

flushed-Reachable : Reachable small (flush_next (some 60) after_put) ((k, some v) ∷ [])
flushed-Reachable =
    Reachable.stepped put-Reachable
      (Step.flushed 60 after_put full [] full-waits (λ p. cc) after_put-gen)

Reachable-get_example : get k (flush_next (some 60) after_put) ≡ latest k ((k, some v) ∷ [])
Reachable-get_example = Reachable-get flushed-Reachable (omega arith) k refl

Reachable-IsSound_example : IsSound (flush_next (some 60) after_put)
Reachable-IsSound_example = Reachable-IsSound flushed-Reachable (omega arith)

Reachable-scan_example : Returns (scan none none (flush_next (some 60) after_put)) (λ h.
    (out : List (Kv Bytes)) × ScanYields h out
    × (lookup k out
        ≡ (if in_range none none k then value_of (latest k ((k, some v) ∷ [])) else none)))
Reachable-scan_example = Reachable-scan flushed-Reachable (omega arith) none none k refl

Reachable-close_example :
    ((close (calm (λ g. 60)) (running after_put)).0 ≡ ok tt)
    × ((open_engine small (some 60) true (directory (close (calm (λ g. 60)) (running after_put)).1)
          >>= λ r. get k r)
        ≡ latest k ((k, some v) ∷ []))
Reachable-close_example = Reachable-close put-Reachable (omega arith) (λ g. 60) small 60 k refl

-- Two puts of `k`, a clean Close and an Open: the next put takes the number 1 again, and Get goes on
-- answering with what was there before.
abbrev closed_twice_put : Engine
closed_twice_put = (put sunny k (2 ∷ []) (put sunny k (1 ∷ []) (empty_store default_config)).1).1

put_shadowed :
    (open_engine default_config
        (some 60)
        true
        (directory (close (calm (λ g. 60)) (running closed_twice_put)).1)
      >>= λ r. get k (put sunny k (3 ∷ []) r).1)
    ≡ ok (2 ∷ [])
unfolding put open_engine directory close write append write_memtable Memtable.put insert
    flume.Bytes.bytes_compare flume.Engine.build_records flume.Sstable.is_sorted get
    flume.Sstable.newest Memtable.get lookup
put_shadowed = refl
