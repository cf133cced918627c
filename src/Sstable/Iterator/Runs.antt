-- ===== src/Sstable/Iterator/Runs.antt =====
-- Runs of `Write`, `Open`, `Get` and the iterators on a small table.
use flume.Common.{
  ℕ, ◌≡◌, subst, sym, ap, ◌<◌, ◌^◌, ◌+◌, refl, arith, true, false, List, [], ◌∷◌, none, some,
  if◌then◌else◌, length, All, ok, err, unsorted, stuck, ◌≢◌, Bool-cases, inl, inr, ◌>>=◌, Returns,
}
use flume.Bytes.{Bytes, bytes_compare, bytes_equal, put_le, get_le}
use flume.Bytes.Order.{compare-eq→eq}
use flume.Sstable.Merge.Group.{is_eq-true}
use flume.Bloom.{Filter, Sizing, new_for_entries, encode, decode, may_contain}
use flume.Sstable.{Record, newest, is_sorted}
use flume.Sstable.Table.Ends.{open_table-ne-stuck}
use flume.Sstable.Format.{Flate, IsLossless, Nils, write, write_trailer, footer_bytes}
use flume.Sstable.Table.{open_table, get, read_at, read_block, parse_index}
use flume.Sstable.Table.Blocks.{IsStorable}
use flume.Sstable.Table.RoundTrip.{write-get}
use flume.Sstable.Iterator.{new_iterator, new_range_iterator}
use flume.Sstable.Iterator.Scan.{Yields, write-Yields}
use flume.Sstable.Iterator.Walk.{RangeYields}
use flume.Sstable.Iterator.Visible.{Visible, write-Visible}
use flume.Sstable.Format.Written.{taken, write-taken}
use flume.Sstable.Format.Publish.{Files, Disk, write_file, write_file}

abbrev no_nils : Nils
no_nils = λ n. false

abbrev zeros : Bytes
zeros = 0 ∷ 0 ∷ 0 ∷ []

-- A compressor that knows one value.
abbrev toy : Flate
toy = record {
  deflate = λ v. if bytes_equal v zeros then some (7 ∷ []) else none;
  inflate = λ b. if bytes_equal b (7 ∷ []) then some zeros else none;
}

abbrev ten_bits : Sizing
ten_bits = record {
  Float = Unit {0};
  out_of_range = λ x. false;
  one_percent = tt;
  optimal_bits = λ n p. 10;
  optimal_hashes = λ m n p. 2;
}

abbrev rec : ℕ → Bytes → ℕ → ℕ → Record
rec key value type seq = record { key = key ∷ []; value = value; type = type; seq = seq }

-- Key 5 was deleted and written again; key 7 has one version.
abbrev rows : List Record
rows = rec 5 zeros 1 4 ∷ rec 5 [] 2 1 ∷ rec 7 (9 ∷ []) 1 3 ∷ []

abbrev file : Bytes
file =
    1 ∷ 0 ∷ 0 ∷ 0 ∷ 4 ∷ 0 ∷ 0 ∷ 0 ∷ 0 ∷ 0 ∷ 0 ∷ 0 ∷ 129 ∷ 1 ∷ 0 ∷ 0 ∷ 0 ∷ 5 ∷ 7 ∷ 1 ∷ 0 ∷ 0 ∷ 0 ∷ 1
    ∷ 0 ∷ 0 ∷ 0 ∷ 0 ∷ 0 ∷ 0 ∷ 0 ∷ 2 ∷ 0 ∷ 0 ∷ 0 ∷ 0 ∷ 5 ∷ 1 ∷ 0 ∷ 0 ∷ 0 ∷ 3 ∷ 0 ∷ 0 ∷ 0 ∷ 0 ∷ 0 ∷ 0
    ∷ 0 ∷ 1 ∷ 1 ∷ 0 ∷ 0 ∷ 0 ∷ 7 ∷ 9 ∷ 1 ∷ 0 ∷ 0 ∷ 0 ∷ 5 ∷ 0 ∷ 0 ∷ 0 ∷ 0 ∷ 0 ∷ 0 ∷ 0 ∷ 0 ∷ 1 ∷ 0 ∷ 0
    ∷ 0 ∷ 5 ∷ 19 ∷ 0 ∷ 0 ∷ 0 ∷ 0 ∷ 0 ∷ 0 ∷ 0 ∷ 1 ∷ 0 ∷ 0 ∷ 0 ∷ 7 ∷ 37 ∷ 0 ∷ 0 ∷ 0 ∷ 0 ∷ 0 ∷ 0 ∷ 0
    ∷ 10 ∷ 0 ∷ 0 ∷ 0 ∷ 2 ∷ 0 ∷ 0 ∷ 0 ∷ 84 ∷ 1 ∷ 56 ∷ 0 ∷ 0 ∷ 0 ∷ 0 ∷ 0 ∷ 0 ∷ 0 ∷ 39 ∷ 0 ∷ 0 ∷ 0 ∷ 0
    ∷ 0 ∷ 0 ∷ 0 ∷ 95 ∷ 0 ∷ 0 ∷ 0 ∷ 0 ∷ 0 ∷ 0 ∷ 0 ∷ 10 ∷ 0 ∷ 0 ∷ 0 ∷ 0 ∷ 0 ∷ 0 ∷ 0 ∷ 3 ∷ 0 ∷ 0 ∷ 0
    ∷ 0 ∷ 0 ∷ 0 ∷ 0 ∷ 83 ∷ 83 ∷ 86 ∷ 75 ∷ []

write_run : write toy ten_bits no_nils rows true ≡ ok file
unfolding write write_trailer encode footer_bytes put_le flume.Sstable.Format.write_records
    flume.Bloom.add flume.Bloom.add_loop new_for_entries flume.Bloom.probe flume.Bloom.set_bit
    flume.Bloom.hashes flume.Sstable.less bytes_compare flume.Sstable.Format.write_index
    flume.Sstable.Format.data_header flume.Sstable.Format.stored_value
    flume.Sstable.Format.compress_value flume.Sstable.Format.index_bytes
write_run = refl

some-injective : {a b : Bytes} → some a ≡ some b → a ≡ b
some-injective p = cc

compressed :
    (v b : Bytes)
    → toy.deflate v ≡ some b
    → v ≡ zeros
    → bytes_equal v zeros ≡ true
    → toy.inflate b ≡ some v
unfolding bytes_compare
compressed v b e p q =
    let one : 7 ∷ [] ≡ b = some-injective (rw q at e) in
    subst (λ b. toy.inflate b ≡ some v) one (ap some (sym p))

toy-IsLossless : IsLossless toy
toy-IsLossless v b e = elim (Bool-cases (bytes_equal v zeros)) [
  | inl q ↦ compressed v b e (compare-eq→eq v zeros (is_eq-true _ q)) q
  | inr q ↦ cc (rw q at e)
]

rows-IsStorable : All IsStorable rows
rows-IsStorable = (
  record {
    type_known = inl refl;
    seq_fits = omega arith;
    key_fits = omega arith;
    value_fits = omega arith;
  },
  (
    record {
      type_known = inr refl;
      seq_fits = omega arith;
      key_fits = omega arith;
      value_fits = omega arith;
    },
    (
      record {
        type_known = inl refl;
        seq_fits = omega arith;
        key_fits = omega arith;
        value_fits = omega arith;
      },
      tt,
    ),
  ),
)

rows-keyed : All (λ r. 0 < length r.key) rows
rows-keyed = (omega arith, (omega arith, (omega arith, tt)))

rows_roomy : (new_for_entries ten_bits (length rows) ten_bits.one_percent).num_bits + 7 < 2 ^ 32
unfolding new_for_entries
rows_roomy = omega arith

write-get_example : (open_table file >>= λ t. get toy t (5 ∷ []) 4) ≡ ok (newest (5 ∷ []) 4 rows)
write-get_example =
    write-get toy toy-IsLossless true ten_bits rows rows-IsStorable rows-keyed rows_roomy no_nils
      file write_run (omega arith) (5 ∷ []) 4

-- The value comes back as it was before it was compressed.
get_run : (open_table file >>= λ t. get toy t (5 ∷ []) 4) ≡ ok (some (rec 5 zeros 1 4))
unfolding open_table read_at read_block parse_index decode get get_le may_contain
    flume.Sstable.Table.may_contain_range flume.Sstable.Table.first_key bytes_compare
    flume.Sstable.Table.last_key flume.Bloom.may_contain_loop flume.Bloom.probe flume.Bloom.test_bit
    flume.Bloom.hashes flume.Sstable.Table.get_loop flume.Sstable.Table.search
    flume.Sstable.Table.search_loop flume.Sstable.Table.key_at_least
    flume.Sstable.Table.read_record_at flume.Sstable.Format.decompress_value
get_run = refl

write-Yields_example : Returns (open_table file) (λ t. Yields toy (new_iterator t) rows)
write-Yields_example =
    write-Yields toy toy-IsLossless true ten_bits rows rows-IsStorable rows-keyed rows_roomy no_nils
      file write_run (omega arith)

-- The keys from 5 on and before 7, as a reader at 2 sees them: key 5 as a tombstone.
write-Visible_example : Returns (open_table file) (λ t.
    (out : List Record) × RangeYields toy
      (new_range_iterator t (some (5 ∷ [])) (some (7 ∷ [])) 2)
      out
    × Visible (some (5 ∷ [])) (some (7 ∷ [])) 2 rows out)
write-Visible_example =
    write-Visible toy toy-IsLossless true ten_bits rows rows-IsStorable rows-keyed rows_roomy
      no_nils file write_run (omega arith) (some (5 ∷ [])) (some (7 ∷ [])) 2

-- Two versions of key 5 in the wrong order.
abbrev swapped : List Record
swapped = rec 5 [] 2 1 ∷ rec 5 zeros 1 4 ∷ []

write-taken_example : taken (write toy ten_bits no_nils swapped false) ≡ some (is_sorted swapped)
unfolding new_for_entries
write-taken_example =
    write-taken toy ten_bits no_nils false (rec 5 [] 2 1) (rec 5 zeros 1 4 ∷ []) (omega arith)
      (omega arith, (omega arith, tt))

swapped_run : write toy ten_bits no_nils swapped false ≡ err (unsorted 1)
unfolding write flume.Sstable.Format.write_records flume.Bloom.add flume.Bloom.add_loop
    new_for_entries flume.Bloom.probe flume.Bloom.set_bit flume.Bloom.hashes flume.Sstable.less
    bytes_compare
swapped_run = refl

-- The rename fails.
abbrev no_rename : Disk
no_rename = record {
  create_ok = true;
  write_ok = true;
  flush_ok = true;
  sync_ok = true;
  close_ok = true;
  rename_ok = false;
  remove_ok = true;
  reached = 100;
}

abbrev before : Files
before = record { final = none; temp = none }

open_table-ne-stuck_example : open_table (1 ∷ 2 ∷ []) ≢ err stuck
open_table-ne-stuck_example = open_table-ne-stuck (1 ∷ 2 ∷ [])
