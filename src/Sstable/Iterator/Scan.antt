-- ===== src/Sstable/Iterator/Scan.antt =====
-- The scan of a data block gives its records, in their order.
use flume.Common.{
  ℕ, ◌+◌, ◌^◌, ◌≤◌, ◌<◌, ◌≡◌, refl, ap, ◌∙◌, arith, Bool, true, false, List, [], ◌∷◌, ◌++◌,
  append_assoc, none, some, leb, if◌then◌else◌, length, length-append, slice, take_front,
  drop_front, All, ok, Returns,
}
use flume.Bytes.{Bytes, get_le}
use flume.Bloom.{Sizing, new_for_entries}
use flume.Sstable.{Record}
use flume.Sstable.Format.{Flate, IsLossless, data_header, decompress_value, Nils, write}
use flume.Sstable.Format.Layout.{record_bytes, data_block, write-Blocks}
use flume.Sstable.Table.{is_compressed, value_type, open_table}
use flume.Sstable.Table.Blocks.{IsStorable, stored, header, parts, length-data_bytes}
use flume.Sstable.Iterator.{Iterator, new_iterator, next, read_full}
use flume.Sstable.Table.RoundTrip.{open_table-written}

-- The calls of `Next` give the records one by one, and then `ok=false`.
abbrev pub Yields : Flate → Iterator → List Record → Type 0
Yields z it [] = next z it ≡ ok none
Yields z it (r ∷ rs) = (it' : Iterator) × (next z it ≡ ok (some (r, it'))) × Yields z it' rs

read_full-front : (xs ys : Bytes) (n : ℕ) → length xs ≡ n → read_full (xs ++ ys) n ≡ ok (xs, ys)
unfolding read_full
read_full-front xs ys n h =
    ground (arith, take_front xs ys n h, drop_front xs ys n h, length-append xs ys)

-- What one call of `Next` needs to find in front of it.
record Ahead (z : Flate) (it : Iterator) (rec : Record) (h v rest raw_rest : Bytes) (kl vl raw : ℕ)
    : Type 0 where
  before_limit : leb it.limit it.pos ≡ false
  header_is : read_full it.r 17 ≡ ok (h, raw_rest)
  key_len_is : get_le (slice 0 4 h) ≡ kl
  seq_is : get_le (slice 4 8 h) ≡ rec.seq
  raw_is : get_le (slice 12 1 h) ≡ raw
  val_len_is : get_le (slice 13 4 h) ≡ vl
  key_is : read_full raw_rest kl ≡ ok (rec.key, v ++ rest)
  value_is : read_full (v ++ rest) vl ≡ ok (v, rest)
  content_is : (if is_compressed raw then decompress_value z v else ok v) ≡ ok rec.value
  type_is : value_type raw ≡ rec.type

next-Ahead :
    (z : Flate) (it : Iterator) (rec : Record) (h v rest raw_rest : Bytes) (kl vl raw : ℕ)
    → Ahead z it rec h v rest raw_rest kl vl raw
    → next z it
      ≡ ok (some (rec, record { r = rest; pos = it.pos + (17 + kl + vl); limit = it.limit }))
unfolding next
next-Ahead z it rec h v rest raw_rest kl vl raw a =
    rw (a.before_limit, next)
      (rw a.header_is (
        rw (a.key_len_is, a.raw_is, a.seq_is, a.val_len_is)
          (rw a.key_is (rw a.value_is (rw (a.content_is, a.type_is) refl)))))

module _ (z : Flate) (lossless : IsLossless z) (compress : Bool) where
  module _ (r : Record) (w : IsStorable r) (rest : Bytes) (pos limit : ℕ) where
    abbrev stored_bytes : Bytes
    stored_bytes = (parts z lossless compress r w).0

    record_bytes-Ahead :
        pos < limit
        → Ahead z
            (record { r = record_bytes z compress r ++ rest; pos = pos; limit = limit })
            r
            (data_header r (parts z lossless compress r w))
            stored_bytes
            rest
            ((r.key ++ stored_bytes) ++ rest)
            (length r.key)
            (length stored_bytes)
            (parts z lossless compress r w).1
    record_bytes-Ahead h =
        let hd = header z lossless compress r w in
        let st = stored z lossless compress r w in
        record {
          before_limit = ground arith;
          header_is =
              ap (λ t. read_full t 17)
                (append_assoc (data_header r (parts z lossless compress r w)) _ rest)
              ∙ read_full-front (data_header r (parts z lossless compress r w)) _ 17 hd.long;
          key_len_is = hd.key_len_is;
          seq_is = hd.seq_is;
          raw_is = hd.raw_is;
          val_len_is = hd.val_len_is;
          key_is =
              ap (λ t. read_full t (length r.key)) (append_assoc r.key stored_bytes rest)
              ∙ read_full-front r.key (stored_bytes ++ rest) (length r.key) refl;
          value_is = read_full-front stored_bytes rest (length stored_bytes) refl;
          content_is = st.value_is;
          type_is = st.type_is;
        }

  at_limit : (it : Iterator) → it.limit ≤ it.pos → next z it ≡ ok none
  unfolding next
  at_limit it h = let e : leb it.limit it.pos ≡ true = ground arith in rw (e, next) refl

  -- The scan from the first byte of the records `rs` that stand before the limit.
  data_block-Yields :
      (rs : List Record) (post : Bytes) (pos limit : ℕ)
      → All IsStorable rs
      → limit ≡ pos + length (data_block z compress rs)
      → Yields z (record { r = data_block z compress rs ++ post; pos = pos; limit = limit }) rs
  unfolding data_block
  data_block-Yields [] post pos limit w l = at_limit _ (omega arith)
  data_block-Yields (r ∷ rs) post pos limit w l =
      let rest = data_block z compress rs ++ post in
      let size = length-data_bytes z lossless compress r w.0 in
      let total = length-append (record_bytes z compress r) (data_block z compress rs) in
      (
        record {
          r = rest;
          pos = pos + (17 + length r.key + length (stored_bytes r w.0 [] 0 0));
          limit = limit;
        },
        ap (λ t. next z (record { r = t; pos = pos; limit = limit }))
              (append_assoc (record_bytes z compress r) (data_block z compress rs) post)
            ∙ next-Ahead z _ r _ _ rest _ _ _ _
                (record_bytes-Ahead r w.0 rest pos limit (omega arith)),
        data_block-Yields rs post _ limit w.1 (omega arith),
      )

  module _ (sizing : Sizing) (rs : List Record) (storable : All IsStorable rs)
      (keyed : All (λ r. 0 < length r.key) rs)
      (roomy : (new_for_entries sizing (length rs) sizing.one_percent).num_bits + 7 < 2 ^ 32) where
    -- The Iterator over a table that `Write` has written gives back every record that was written, all
    -- versions of a key and the tombstones too, in the order they were written in, and then ends; no call
    -- of `Next` fails.
    pub write-Yields :
        (nils : Nils) (file : Bytes)
        → write z sizing nils rs compress ≡ ok file
        → length file < 2 ^ 47
        → Returns (open_table file) (λ t. Yields z (new_iterator t) rs)
    write-Yields nils file e small =
        let b = write-Blocks z sizing compress nils rs file keyed e (omega (arith, small)) in
        rw (open_table-written z lossless compress sizing rs storable keyed roomy file small b) (
          unfold new_iterator in
          data_block-Yields rs _ 0 (length (data_block z compress rs)) storable (omega arith))
