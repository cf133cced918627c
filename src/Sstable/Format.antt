-- ===== src/Sstable/Format.antt =====
-- sstable/sstable.go: the bytes of a table file, and `Write`. compress/flate is a parameter.
pub mod Layout
pub mod Written
pub mod Publish
use flume.Common.{
  ℕ, zero, suc, ◌+◌, ◌^◌, ◌%◌, ◌-◌, ◌≡◌, Bool, true, false, ◌&&◌, not, List, [], ◌∷◌, ◌++◌, Option,
  none, some, bit_or, leb, ◌==◌, if◌then◌else◌, length, Result, ok, err, ◌>>=◌, ◌>>◌, guard,
  empty_table, unsorted, decompress_failed,
}
use flume.Bytes.{Bytes, put_le}
use flume.Bloom.{Filter, Sizing, new_for_entries, add, encode}
use flume.Sstable.{Record, type_value, less}

-- compress/flate: a writer at level BestSpeed over a buffer, and reading all of a reader. `none` is
-- an error.
pub record Flate : Type 0 where
  pub deflate : Bytes → Option Bytes
  pub inflate : Bytes → Option Bytes

-- What was deflated inflates to itself.
abbrev pub IsLossless : Flate → Type 0
IsLossless z = (v b : Bytes) → z.deflate v ≡ some b → z.inflate b ≡ some v

abbrev pub magic_number : ℕ
magic_number = 0x4B565353

abbrev pub compressed_flag : ℕ
compressed_flag = 0x80

abbrev pub data_header_size : ℕ
data_header_size = 4 + 8 + 1 + 4

abbrev pub footer_size : ℕ
footer_size = 8 + 8 + 8 + 8 + 8 + 4

pub record IndexEntry : Type 0 where
  pub key : Bytes
  pub offset : ℕ

module _ (z : Flate) where
  unfoldable pub compress_value : Bytes → Bytes × Bool
  compress_value v = if length v == 0 then (v, false) else elim (z.deflate v) [
    | none ↦ (v, false)
    | some b ↦ if leb (length v) (length b) then (v, false) else (b, true)
  ]

  unfoldable pub decompress_value : Bytes → Result Bytes
  decompress_value v = elim (z.inflate v) [ none ↦ err decompress_failed | some b ↦ ok b ]

  -- The stored bytes of a record's value and its type byte.
  unfoldable pub stored_value : Bool → Record → Bytes × ℕ
  stored_value compress r =
      let c = compress_value r.value in
      if compress && (r.type == type_value) && c.1
      then (c.0, bit_or r.type compressed_flag)
      else (r.value, r.type)

-- The `make([]byte, dataHeaderSize)` of one record, filled in.
unfoldable pub data_header : Record → Bytes × ℕ → Bytes
data_header r s =
    put_le 4 (length r.key) ++ (put_le 8 r.seq ++ (put_le 1 s.1 ++ put_le 4 (length s.0)))

unfoldable pub index_bytes : IndexEntry → Bytes
index_bytes e = put_le 4 (length e.key) ++ (e.key ++ put_le 8 e.offset)

unfoldable pub footer_bytes : ℕ → ℕ → ℕ → ℕ → ℕ → Bytes
footer_bytes index_offset index_len bloom_offset bloom_len num_entries =
    put_le 8 index_offset
    ++ (put_le 8 index_len
        ++ (put_le 8 bloom_offset
            ++ (put_le 8 bloom_len ++ (put_le 8 num_entries ++ put_le 4 magic_number))))

-- What `Write` has made when it is among the records: the bytes, the index and the filter.
pub record Output : Type 0 where
  pub bytes : Bytes
  pub index : List IndexEntry
  pub filter : Filter

-- The uint64 that counts the bytes written.
abbrev pub offset_of : Bytes → ℕ
offset_of out = length out % 2 ^ 64

-- The test on `prevKey` and `prevSeq`, which passes as long as `prevKey` is nil.
unfoldable pub follows : Option Record → Record → Bool
follows none r = true
follows (some prev) r = less prev r

-- Whether the key of the record at a place of the list is the nil slice. A byte string does not tell a
-- nil slice from an empty one, and only where it is empty this is looked at.
abbrev pub Nils : Type 0
Nils = ℕ → Bool

-- `prevKey, prevSeq = r.Key, r.Seq`; `none` stands for a nil `prevKey`.
abbrev pub previous : Nils → ℕ → Record → Option Record
previous nils n r = if length r.key == 0 && nils n then none else some r

module _ (z : Flate) (compress : Bool) (nils : Nils) where
  -- `n` is the loop's index.
  unfoldable pub write_records : Option Record → ℕ → List Record → Output → Result Output
  unfolding follows
  write_records prev n [] out = ok out
  write_records prev n (r ∷ rs) out = do
    guard (follows prev r) (unsorted n)
    filter ← add out.filter r.key
    let s = stored_value z compress r
    let entry : IndexEntry = record { key = r.key; offset = offset_of out.bytes }
    let out' : Output = record {
      bytes = out.bytes ++ (data_header r s ++ (r.key ++ s.0));
      index = out.index ++ entry ∷ [];
      filter = filter;
    }
    write_records (previous nils n r) (n + 1) rs out'

unfoldable pub write_index : List IndexEntry → Bytes → Bytes
write_index [] bytes = bytes
write_index (e ∷ es) bytes = write_index es (bytes ++ index_bytes e)

-- The three blocks behind the records.
unfoldable pub write_trailer : ℕ → Output → Bytes
write_trailer num_entries out =
    let with_index = write_index out.index out.bytes in
    let with_filter = with_index ++ encode out.filter in
    let index_offset = offset_of out.bytes in
    let bloom_offset = offset_of with_index in
    with_filter
    ++ footer_bytes index_offset ((bloom_offset + 2 ^ 64 - index_offset) % 2 ^ 64) bloom_offset
        ((offset_of with_filter + 2 ^ 64 - bloom_offset) % 2 ^ 64) num_entries

module _ (z : Flate) (sizing : Sizing) (nils : Nils) where
  -- The bytes that `Write` hands to the file, with the filter at the rate of 0.01.
  unfoldable pub write : List Record → Bool → Result Bytes
  write [] compress = err empty_table
  write (r ∷ rs) compress = do
    let empty = new_for_entries sizing (length (r ∷ rs)) sizing.one_percent
    let start : Output = record { bytes = []; index = []; filter = empty }
    out ← write_records z compress nils none 0 (r ∷ rs) start
    ok (write_trailer (length (r ∷ rs)) out)
