-- ===== src/Sstable/Iterator.antt =====
-- sstable/table.go: Iterator, which scans the data block, and RangeIterator, which walks the index.
pub mod Scan
pub mod Group
pub mod Range
pub mod Walk
pub mod Visible
mod Runs
use flume.Common.{
  ℕ, zero, suc, ◌+◌, ◌^◌, ◌-◌, ◌≡◌, Bool, true, false, ◌&&◌, List, [], ◌∷◌, Option, none, some, leb,
  ◌==◌, if◌then◌else◌, length, take, drop, slice, Result, ok, err, ◌>>=◌, short_read, stuck,
}
use flume.Bytes.{Bytes, get_le, bytes_compare, bytes_equal, is_ge}
use flume.Sstable.{Record}
use flume.Sstable.Format.{Flate, IndexEntry, data_header_size, decompress_value}
use flume.Sstable.Table.{Table, is_compressed, value_type, read_record_at, search, key_at_least}

-- `r` is what the buffered reader has still to give.
pub record Iterator : Type 0 where
  pub r : Bytes
  pub pos : ℕ
  pub limit : ℕ

unfoldable pub new_iterator : Table → Iterator
new_iterator t = record { r = t.file; pos = 0; limit = t.data_block_sz }

-- `io.ReadFull`: the bytes read, and those behind them.
unfoldable pub read_full : Bytes → ℕ → Result (Bytes × Bytes)
read_full r n = if leb n (length r) then ok (take n r, drop n r) else err short_read

module _ (z : Flate) where
  unfoldable pub next : Iterator → Result (Option (Record × Iterator))
  unfolding read_full
  next it = elim (leb it.limit it.pos) [
    | true ↦ ok none
    | false ↦ do
      h ← read_full it.r data_header_size
      let key_len = get_le (slice 0 4 h.0)
      let seq = get_le (slice 4 8 h.0)
      let raw = get_le (slice 12 1 h.0)
      let val_len = get_le (slice 13 4 h.0)
      k ← read_full h.1 key_len
      v ← read_full k.1 val_len
      value ← (if is_compressed raw then decompress_value z v.0 else ok v.0)
      let rec : Record = record { key = k.0; value = value; type = value_type raw; seq = seq }
      let it' : Iterator = record {
        r = v.1;
        pos = it.pos + (data_header_size + key_len + val_len);
        limit = it.limit;
      }
      ok (some (rec, it'))
  ]

-- `rest` is `t.index[idx:]`.
pub record RangeIterator : Type 0 where
  pub file : Bytes
  pub rest : List IndexEntry
  pub end : Option Bytes
  pub max_seq : ℕ

unfoldable pub new_range_iterator : Table → Option Bytes → Option Bytes → ℕ → RangeIterator
new_range_iterator t start end max_seq =
    let i : ℕ = elim start [
      | none ↦ 0
      | some key ↦ search (length t.index) (key_at_least t.index key)
    ] in
    record { file = t.file; rest = drop i t.index; end = end; max_seq = max_seq }

-- `it.end != nil && bytes.Compare(key, it.end) >= 0`
unfoldable pub past_end : Option Bytes → Bytes → Bool
past_end none key = false
past_end (some end) key = is_ge (bytes_compare key end)

module _ (z : Flate) where
  -- One turn of the inner loop: nothing is read once a version was found.
  unfoldable pub look : Bytes → ℕ → ℕ → Option Record → Result (Option Record)
  look file max_seq off (some r) = ok (some r)
  look file max_seq off none = do
    r ← read_record_at z file off
    ok (if leb r.seq max_seq then some r else none)

  -- The inner loop over one key's versions: what it found, and the entries of later keys.
  unfoldable pub group_loop :
      Bytes → Bytes → ℕ → Option Record → List IndexEntry → Result (Option Record × List IndexEntry)
  unfolding look
  group_loop file key max_seq found [] = ok (found, [])
  group_loop file key max_seq found (e ∷ es) = elim (bytes_equal e.key key) [
    | false ↦ ok (found, e ∷ es)
    | true ↦ do found' ← look file max_seq e.offset found; group_loop file key max_seq found' es
  ]

  -- The outer loop; the first argument bounds its rounds.
  unfoldable pub range_loop :
      ℕ → Bytes → Option Bytes → ℕ → List IndexEntry → Result (Option Record × List IndexEntry)
  unfolding group_loop past_end
  range_loop n file end max_seq [] = ok (none, [])
  range_loop zero file end max_seq (e ∷ es) = err stuck
  range_loop (suc n) file end max_seq (e ∷ es) = elim (past_end end e.key) [
    | true ↦ ok (none, e ∷ es)
    | false ↦ do
      p ← group_loop file e.key max_seq none (e ∷ es)
      elim p.0 [ some r ↦ ok (some r, p.1) | none ↦ range_loop n file end max_seq p.1 ]
  ]

  unfoldable pub range_next : RangeIterator → Result (Option Record × RangeIterator)
  range_next it = do
    p ← range_loop (length it.rest) it.file it.end it.max_seq it.rest
    let it' : RangeIterator = record it { rest = p.1 }
    ok (p.0, it')
