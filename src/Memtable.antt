-- ===== src/Memtable.antt =====
-- memtable/memtable.go over the ordered map of skiplist/skiplist.go.
use flume.Common.{ℕ, ◌+◌, List, [], Option, length}
use flume.Bytes.{Bytes}
use flume.Skiplist
use flume.Skiplist.{Kv}
use flume.Sstable.{type_value, type_tombstone}

pub record Entry : Type 0 where
  pub type : ℕ
  pub value : Bytes
  pub seq : ℕ

abbrev pub entry_overhead : ℕ
entry_overhead = 48

-- `size` counts every write, also one that overwrites; it stays far below the bound of int64.
pub record MemTable : Type 0 where
  pub skl : List (Kv Entry)
  pub size : ℕ

abbrev pub new : MemTable
new = record { skl = []; size = 0 }

unfoldable pub put : MemTable → Bytes → Bytes → ℕ → MemTable
put m key value seq = record {
  skl = Skiplist.insert key (record { type = type_value; value = value; seq = seq }) m.skl;
  size = m.size + (length key + length value + entry_overhead);
}

unfoldable pub delete : MemTable → Bytes → ℕ → MemTable
delete m key seq = record {
  skl = Skiplist.insert key (record { type = type_tombstone; value = []; seq = seq }) m.skl;
  size = m.size + (length key + entry_overhead);
}

unfoldable pub get : MemTable → Bytes → Option Entry
get m key = Skiplist.lookup key m.skl

abbrev pub len : MemTable → ℕ
len m = length m.skl

abbrev pub all : MemTable → List (Kv Entry)
all m = m.skl

unfoldable pub range : MemTable → Option Bytes → Option Bytes → List (Kv Entry)
range m start end = Skiplist.range start end m.skl
