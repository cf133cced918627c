-- ===== src/Sstable/Table.antt =====
-- sstable/table.go: opening a table file, point lookups, and the two iterators.
pub mod Search
pub mod Blocks
pub mod Index
pub mod Open
pub mod Lookup
pub mod Get
pub mod RoundTrip
pub mod Ends
use flume.Common.{
  ℕ, zero, suc, ◌+◌, ◌*◌, ◌/◌, ◌^◌, ◌%◌, ◌-◌, ◌≡◌, Bool, true, false, ◌&&◌, ◌||◌, not, List, [],
  ◌∷◌, ◌++◌, Option, none, some, bit_and, ltb, leb, ◌==◌, if◌then◌else◌, length, get_elem?, take,
  drop, slice, Result, ok, err, ◌>>=◌, ◌>>◌, guard, too_small, bad_magic, bad_offsets,
  truncated_index, short_read, panicked, stuck, Ordering,
}
use flume.Bytes.{Bytes, get_le, bytes_compare, bytes_equal, is_ge, is_le}
use flume.Bloom.{Filter, may_contain, decode}
use flume.Sstable.{Record}
use flume.Sstable.Format.{
  Flate, IndexEntry, magic_number, compressed_flag, data_header_size, footer_size, decompress_value,
}

-- The parts of a Table that reading uses; `file` is what the file holds. The reference count is in
-- Sstable/Lifecycle.antt.
pub record Table : Type 0 where
  pub file : Bytes
  pub index : List IndexEntry
  pub filter : Filter
  pub num_entries : ℕ
  -- A nil slice is the empty one: an entry's key is nil if it has no bytes.
  pub min_key : Bytes
  pub max_key : Bytes
  -- A negative int64 is 0: it is only compared with positions.
  pub data_block_sz : ℕ
  pub file_size : ℕ

-- `make` panics beyond the address space of the run-time (2^48 bytes on a 64-bit machine).
abbrev pub make : ℕ → Result (Unit {0})
make n = guard (leb n (2 ^ 48)) panicked

-- `ReadAt` of a whole slice: an error unless the file has all of it. An offset that is negative as
-- an int64 lies behind the end of every file.
unfoldable pub read_at : Bytes → ℕ → ℕ → Result Bytes
read_at file off n = if leb (off + n) (length file) then ok (slice off n file) else err short_read

-- A slice that is made, and read unless it is empty.
unfoldable pub read_block : Bytes → ℕ → ℕ → Result Bytes
unfolding read_at
read_block file off n = do make n; if n == 0 then ok [] else read_at file off n

-- The loop over the index block; the first argument bounds its rounds.
unfoldable pub parse_index : ℕ → Bytes → Result (List IndexEntry)
parse_index zero buf = if length buf == 0 then ok [] else err stuck
parse_index (suc n) buf = elim (length buf == 0) [
  | true ↦ ok []
  | false ↦ do
    guard (leb 4 (length buf)) truncated_index
    let klen = get_le (take 4 buf)
    let rest = drop 4 buf
    guard (leb (klen + 8) (length rest)) truncated_index
    let entry : IndexEntry = record { key = take klen rest; offset = get_le (slice klen 8 rest) }
    entries ← parse_index n (drop (klen + 8) rest)
    ok (entry ∷ entries)
]

unfoldable pub first_key : List IndexEntry → Bytes
first_key [] = []
first_key (e ∷ es) = e.key

unfoldable pub last_key : List IndexEntry → Bytes
last_key [] = []
last_key (e ∷ []) = e.key
last_key (e ∷ f ∷ es) = last_key (f ∷ es)

unfoldable pub open_table : Bytes → Result Table
open_table file = do
  guard (leb footer_size (length file)) too_small
  footer ← read_at file (length file - footer_size) footer_size
  guard (get_le (slice 40 4 footer) == magic_number) bad_magic
  let index_offset = get_le (slice 0 8 footer)
  let index_len = get_le (slice 8 8 footer)
  let bloom_offset = get_le (slice 16 8 footer)
  let bloom_len = get_le (slice 24 8 footer)
  let num_entries = get_le (slice 32 8 footer)
  guard
      (leb ((index_offset + index_len) % 2 ^ 64) (length file)
        && leb ((bloom_offset + bloom_len) % 2 ^ 64) (length file))
      bad_offsets
  index_buf ← read_block file index_offset index_len
  make (num_entries * 32)
  index ← parse_index (length index_buf) index_buf
  bloom_buf ← read_block file bloom_offset bloom_len
  filter ← decode bloom_buf
  let table : Table = record {
    file = file;
    index = index;
    filter = filter;
    num_entries = num_entries;
    min_key = first_key index;
    max_key = last_key index;
    data_block_sz = if ltb index_offset (2 ^ 63) then index_offset else 0;
    file_size = length file;
  }
  ok table

unfoldable pub may_contain_range : Table → Bytes → Bool
may_contain_range t key =
    not (length t.min_key == 0)
    && is_ge (bytes_compare key t.min_key)
    && is_le (bytes_compare key t.max_key)

-- `rawTyp&compressedFlag != 0` and `rawTyp &^ compressedFlag`
abbrev pub is_compressed : ℕ → Bool
is_compressed raw = not (bit_and raw compressed_flag == 0)

abbrev pub value_type : ℕ → ℕ
value_type raw = raw - bit_and raw compressed_flag

module _ (z : Flate) where
  unfoldable pub read_record_at : Bytes → ℕ → Result Record
  read_record_at file offset = do
    header ← read_at file offset data_header_size
    let key_len = get_le (slice 0 4 header)
    let seq = get_le (slice 4 8 header)
    let raw = get_le (slice 12 1 header)
    let val_len = get_le (slice 13 4 header)
    body ← read_block file (offset + data_header_size) (key_len + val_len)
    let stored = drop key_len body
    value ← (if is_compressed raw then decompress_value z stored else ok stored)
    let r : Record = record {
      key = take key_len body;
      value = value;
      type = value_type raw;
      seq = seq;
    }
    ok r

-- `sort.Search`: the loop on `i` and `j`; the first argument bounds its rounds.
unfoldable pub search_loop : ℕ → (ℕ → Bool) → ℕ → ℕ → ℕ
search_loop zero f i j = i
search_loop (suc n) f i j =
    let h = (i + j) / 2 in
    elim (ltb i j) [
      | false ↦ i
      | true ↦ elim (f h) [ true ↦ search_loop n f i h | false ↦ search_loop n f (h + 1) j ]
    ]

unfoldable pub search : ℕ → (ℕ → Bool) → ℕ
search n f = search_loop n f 0 n

-- `bytes.Compare(t.index[i].key, key) >= 0`; the search asks for no index out of range.
unfoldable pub key_at_least : List IndexEntry → Bytes → ℕ → Bool
key_at_least index key i = elim (get_elem? index i) [
  | none ↦ true
  | some e ↦ is_ge (bytes_compare e.key key)
]

module _ (z : Flate) where
  -- The loop of `Get` over `t.index[i:]`.
  unfoldable pub get_loop : Bytes → Bytes → ℕ → List IndexEntry → Result (Option Record)
  get_loop file key max_seq [] = ok none
  get_loop file key max_seq (e ∷ es) = elim (bytes_equal e.key key) [
    | false ↦ ok none
    | true ↦ do
      r ← read_record_at z file e.offset
      elim (leb r.seq max_seq) [ true ↦ ok (some r) | false ↦ get_loop file key max_seq es ]
  ]

  unfoldable pub get : Table → Bytes → ℕ → Result (Option Record)
  get t key max_seq = elim (may_contain_range t key) [
    | false ↦ ok none
    | true ↦ do
      present ← may_contain t.filter key
      elim present [
        | false ↦ ok none
        | true ↦
            let i = search (length t.index) (key_at_least t.index key) in
            get_loop t.file key max_seq (drop i t.index)
      ]
  ]
