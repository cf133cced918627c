-- ===== src/Sstable/Table/RoundTrip.antt =====
-- A table that `Write` has written, opened and read.
use flume.Common.{
  ℕ, ◌+◌, ◌*◌, ◌^◌, ◌%◌, ◌≤◌, ◌<◌, ◌≡◌, refl, sym, ap, ◌∙◌, subst, arith, Bool, List, [], ◌∷◌, ◌++◌,
  map, append_assoc, length, length-append, All, ok, ◌>>=◌, Returns-at,
}
use flume.Bytes.{Bytes}
use flume.Bloom.{Filter, Sizing, new_for_entries, encode}
use flume.Bloom.Valid.{new_for_entries-IsValid}
use flume.Bloom.Membership.{Covers, add_all-Covers, may_contain-Returns}
use flume.Bloom.Shape.{add_all-IsShaped, new_for_entries-IsShaped}
use flume.Sstable.{Record, newest}
use flume.Sstable.Format.{Flate, IsLossless, IndexEntry, Nils, write, footer_bytes}
use flume.Sstable.Format.Layout.{
  record_bytes, data_block, entries_from, index_block, Blocks, write-Blocks,
}
use flume.Sstable.Table.{Table, open_table, get, read_record_at}
use flume.Sstable.Table.Blocks.{IsStorable, read_record_at-data_bytes, length-data_bytes}
use flume.Sstable.Table.Index.{IsIndexable}
use flume.Sstable.Table.Open.{opened, open_table-laid_out}
use flume.Sstable.Table.Lookup.{Holds, is_sorted-Ascending}
use flume.Sstable.Table.Get.{IsTableOf, get-newest}

module _ (z : Flate) (lossless : IsLossless z) (compress : Bool) where
  -- Records behind `pre` are read back from their offsets.
  data_block-Holds :
      (rs : List Record) (pre post file : Bytes) (off : ℕ)
      → All IsStorable rs
      → file ≡ pre ++ (data_block z compress rs ++ post)
      → length pre ≡ off
      → length file < 2 ^ 64
      → Holds z file (entries_from z compress off rs) rs
  unfolding data_block entries_from
  data_block-Holds [] pre post file off w e l h = tt
  data_block-Holds (r ∷ rs) pre post file off w e l h =
      let b = record_bytes z compress r in
      let rest = data_block z compress rs in
      let front : file ≡ pre ++ (b ++ (rest ++ post)) =
        e ∙ ap (λ t. pre ++ t) (append_assoc b rest post) in
      let fits : off % 2 ^ 64 ≡ off =
        omega (arith, ap length front, length-append pre (b ++ (rest ++ post)), h, l) in
      (
        refl,
        ap (read_record_at z file) fits
            ∙ ap (λ t. read_record_at z t off) front
            ∙ read_record_at-data_bytes z lossless compress r w.0 pre (rest ++ post) off l,
        data_block-Holds rs (pre ++ b) post file (off + length b) w.1
            (front ∙ sym (append_assoc pre b (rest ++ post)))
            (length-append pre b ∙ ap (λ n. n + length b) l) h,
      )

  entries_from-IsIndexable :
      (off : ℕ) (rs : List Record)
      → All IsStorable rs
      → All IsIndexable (entries_from z compress off rs)
  unfolding entries_from
  entries_from-IsIndexable off [] w = tt
  entries_from-IsIndexable off (r ∷ rs) w = (
    record { key_fits = w.0.key_fits; offset_fits = omega arith },
    entries_from-IsIndexable (off + length (record_bytes z compress r)) rs w.1,
  )

  length-data_block :
      (rs : List Record) → All IsStorable rs → 17 * length rs ≤ length (data_block z compress rs)
  unfolding data_block
  length-data_block [] w = omega arith
  length-data_block (r ∷ rs) w = omega (
    arith,
    length-append (record_bytes z compress r) (data_block z compress rs),
    length-data_bytes z lossless compress r w.0,
    length-data_block rs w.1,
  )

  module _ (sizing : Sizing) (rs : List Record) (storable : All IsStorable rs)
      (keyed : All (λ r. 0 < length r.key) rs)
      (roomy : (new_for_entries sizing (length rs) sizing.one_percent).num_bits + 7 < 2 ^ 32) where
    abbrev empty : Filter
    empty = new_for_entries sizing (length rs) sizing.one_percent

    abbrev recs : Bytes
    recs = data_block z compress rs

    abbrev es : List IndexEntry
    es = entries_from z compress 0 rs

    -- What `Open` makes of the blocks that `Write` has put down.
    abbrev pub written : Filter → Table
    written f = opened recs es f (length rs)

    module _ (file : Bytes) (small : length file < 2 ^ 47)
        (b : Blocks z compress sizing rs file) where
      abbrev trailer : Bytes
      trailer =
          index_block es
          ++ (encode b.filter
              ++ footer_bytes (length recs) (length (index_block es))
                  (length recs + length (index_block es)) (length (encode b.filter)) (length rs))

      still_small : length (recs ++ trailer) < 2 ^ 47
      still_small = subst (λ f. length f < 2 ^ 47) b.file_is small

      few : length rs * 32 ≤ 2 ^ 48
      few = omega (arith, length-data_block rs storable, still_small, length-append recs trailer)

      pub open_table-written : open_table file ≡ ok (written b.filter)
      open_table-written =
          ap open_table b.file_is
          ∙ open_table-laid_out recs es b.filter (length rs) still_small few
              (entries_from-IsIndexable 0 rs storable)
              (add_all-IsShaped empty (map (λ r. r.key) rs) b.filter b.filter_is
                (new_for_entries-IsShaped sizing (length rs) sizing.one_percent))

      pub written-IsTableOf : IsTableOf z rs (written b.filter)
      written-IsTableOf =
          let valid = new_for_entries-IsValid sizing (length rs) sizing.one_percent roomy in
          let cover =
            Returns-at (Covers empty (map (λ r. r.key) rs)) b.filter b.filter_is
              (add_all-Covers empty (map (λ r. r.key) rs) valid) in
          record {
            holds =
                data_block-Holds rs [] trailer (recs ++ trailer) 0 storable refl refl
                  (omega (arith, still_small));
            order = is_sorted-Ascending rs b.ordered;
            keyed = keyed;
            min_is = refl;
            max_is = refl;
            hits = cover.holds;
            answers = λ k. may_contain-Returns b.filter k cover.extends.valid;
            entries_is = refl;
          }

    -- A table that `Write` has written is opened without an error, and `Get` on it answers, without an
    -- error, with the newest version of the key that the reader may see; the values are read back
    -- whether they were compressed or not.
    pub write-get :
        (nils : Nils) (file : Bytes)
        → write z sizing nils rs compress ≡ ok file
        → length file < 2 ^ 47
        → (k : Bytes) (s : ℕ) → (open_table file >>= λ t. get z t k s) ≡ ok (newest k s rs)
    write-get nils file e small k s =
        let b = write-Blocks z sizing compress nils rs file keyed e (omega (arith, small)) in
        rw (open_table-written file small b)
          (get-newest z k s (written b.filter) rs (written-IsTableOf file small b))
