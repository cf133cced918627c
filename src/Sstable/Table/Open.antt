-- ===== src/Sstable/Table/Open.antt =====
-- `Open` on a file of the four blocks.
use flume.Common.{
  ℕ, ◌+◌, ◌*◌, ◌^◌, ◌-◌, ◌≤◌, ◌<◌, ◌≡◌, refl, sym, ap, ◌∙◌, arith, true, List, [], ◌++◌,
  append_assoc, append-nil, leb, ltb, length, length-append, slice, All, ok, ◌%◌,
}
use flume.Bytes.{Bytes, get_le}
use flume.Bloom.{Filter, encode, decode}
use flume.Bloom.Codec.{IsShaped, decode-encode}
use flume.Sstable.Format.{IndexEntry, magic_number}
use flume.Sstable.Format.Layout.{index_block, laid_out}
use flume.Sstable.Table.{Table, open_table, read_at, read_block, parse_index, first_key, last_key}
use flume.Sstable.Table.Blocks.{read_at-middle, read_block-middle}
use flume.Sstable.Table.Index.{
  IsIndexable, parse_index-index_block, footer, length-footer, footer_index_offset,
  footer_index_len, footer_bloom_offset, footer_bloom_len, footer_num_entries, footer_magic,
}

-- What `Open` needs to find in a file: its footer's numbers, and the blocks where these say.
record Readable (file t index_buf bloom_buf : Bytes) (io il bo bl n : ℕ) (es : List IndexEntry)
    (f : Filter) : Type 0 where
  long : leb 44 (length file) ≡ true
  footer_is : read_at file (length file - 44) 44 ≡ ok t
  magic_is : get_le (slice 40 4 t) ≡ magic_number
  index_offset_is : get_le (slice 0 8 t) ≡ io
  index_len_is : get_le (slice 8 8 t) ≡ il
  bloom_offset_is : get_le (slice 16 8 t) ≡ bo
  bloom_len_is : get_le (slice 24 8 t) ≡ bl
  num_entries_is : get_le (slice 32 8 t) ≡ n
  index_ends : leb ((io + il) % 2 ^ 64) (length file) ≡ true
  bloom_ends : leb ((bo + bl) % 2 ^ 64) (length file) ≡ true
  index_buf_is : read_block file io il ≡ ok index_buf
  few : leb (n * 32) (2 ^ 48) ≡ true
  index_is : parse_index (length index_buf) index_buf ≡ ok es
  bloom_buf_is : read_block file bo bl ≡ ok bloom_buf
  filter_is : decode bloom_buf ≡ ok f
  positive : ltb io (2 ^ 63) ≡ true

module _ (file t index_buf bloom_buf : Bytes) (io il bo bl n : ℕ) (es : List IndexEntry)
    (f : Filter) where
  open_table-Readable :
      Readable file t index_buf bloom_buf io il bo bl n es f
      → open_table file
        ≡ ok (record {
          file = file;
          index = es;
          filter = f;
          num_entries = n;
          min_key = first_key es;
          max_key = last_key es;
          data_block_sz = io;
          file_size = length file;
        })
  unfolding open_table
  open_table-Readable r =
      rw (r.long, r.footer_is, r.magic_is, open_table)
        (rw
          (
            r.index_offset_is, r.index_len_is, r.bloom_offset_is, r.bloom_len_is, r.num_entries_is,
            r.index_ends, r.bloom_ends, r.index_buf_is, r.few, r.index_is, r.bloom_buf_is,
            r.filter_is, r.positive,
          )
          refl)

module _ (records : Bytes) (es : List IndexEntry) (f : Filter) (n : ℕ) where
  abbrev pub file : Bytes
  file = laid_out records es f n

  abbrev index_buf : Bytes
  index_buf = index_block es

  abbrev bloom_buf : Bytes
  bloom_buf = encode f

  abbrev trailer : Bytes
  trailer =
      footer (length records) (length index_buf) (length records + length index_buf)
        (length bloom_buf) n

  length-file : length file ≡ length records + length index_buf + length bloom_buf + 44
  length-file = omega (
    arith,
    length-append records (index_buf ++ (bloom_buf ++ trailer)),
    length-append index_buf (bloom_buf ++ trailer),
    length-append bloom_buf trailer,
    length-footer (length records) (length index_buf) (length records + length index_buf)
        (length bloom_buf) n,
  )

  read_trailer : read_at file (length file - 44) 44 ≡ ok trailer
  read_trailer =
      let pre = records ++ (index_buf ++ bloom_buf) in
      let whole : file ≡ pre ++ (trailer ++ []) = simp (append_assoc, append-nil) in
      ap (λ t. read_at t (length file - 44) 44) whole
      ∙ read_at-middle pre trailer [] (length file - 44) 44
          (omega (
            arith,
            length-file,
            length-append records (index_buf ++ bloom_buf),
            length-append index_buf bloom_buf,
          ))
          (length-footer (length records) (length index_buf) (length records + length index_buf)
            (length bloom_buf) n)

  -- What `Open` makes of the file.
  abbrev pub opened : Table
  opened = record {
    file = file;
    index = es;
    filter = f;
    num_entries = n;
    min_key = first_key es;
    max_key = last_key es;
    data_block_sz = length records;
    file_size = length file;
  }

  module _ (small : length file < 2 ^ 47) (few : n * 32 ≤ 2 ^ 48) (indexable : All IsIndexable es)
      (shaped : IsShaped f) where
    read_index : read_block file (length records) (length index_buf) ≡ ok index_buf
    read_index =
        read_block-middle records index_buf (bloom_buf ++ trailer) (length records)
          (length index_buf) refl refl (omega (arith, length-file, small))

    read_bloom :
        read_block file (length records + length index_buf) (length bloom_buf) ≡ ok bloom_buf
    read_bloom =
        ap (λ t. read_block t (length records + length index_buf) (length bloom_buf))
          (sym (append_assoc records index_buf (bloom_buf ++ trailer)))
        ∙ read_block-middle (records ++ index_buf) bloom_buf trailer _ _
            (length-append records index_buf) refl (omega (arith, length-file, small))

    file-Readable :
        Readable file trailer index_buf bloom_buf
          (length records)
          (length index_buf)
          (length records + length index_buf)
          (length bloom_buf)
          n
          es
          f
    file-Readable = record {
      long = ground (arith, length-file);
      footer_is = read_trailer;
      magic_is = footer_magic _ _ _ _ n;
      index_offset_is = footer_index_offset _ _ _ _ n (omega (arith, length-file, small));
      index_len_is = footer_index_len _ _ _ _ n (omega (arith, length-file, small));
      bloom_offset_is = footer_bloom_offset _ _ _ _ n (omega (arith, length-file, small));
      bloom_len_is = footer_bloom_len _ _ _ _ n (omega (arith, length-file, small));
      num_entries_is = footer_num_entries _ _ _ _ n (omega (arith, few));
      index_ends = ground (arith, length-file, small);
      bloom_ends = ground (arith, length-file, small);
      index_buf_is = read_index;
      few = ground (arith, few);
      index_is = parse_index-index_block (length index_buf) es indexable (omega arith);
      bloom_buf_is = read_bloom;
      filter_is = decode-encode f shaped;
      positive = ground (arith, length-file, small);
    }

    -- `Open` reads back what the file was laid out from.
    pub open_table-laid_out : open_table file ≡ ok opened
    open_table-laid_out =
        open_table-Readable file trailer index_buf bloom_buf _ _ _ _ n es f file-Readable
