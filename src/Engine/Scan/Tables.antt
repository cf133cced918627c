-- ===== src/Engine/Scan/Tables.antt =====
-- The stream of a table, what RangeIterator gives, shows what the reader sees of the table in the range.
use flume.Common.{
  ℕ, ◌≡◌, ◌≢◌, refl, sym, ap, ◌∙◌, subst, arith, Bool, true, false, ◌&&◌, List, [], ◌∷◌, Option,
  none, leb, if◌then◌else◌, All, Bool-cases, inl, inr,
}
use flume.Common.Sub.{Sub, Sub-refl, Sub-trans}
use flume.Bytes.{Bytes, bytes_equal}
use flume.Bytes.Order.{compare-eq→eq}
use flume.Sstable.{Record, newest, less}
use flume.Sstable.Versions.{candidate-other, bytes_equal_self}
use flume.Sstable.Merge.Retain.{Ascending}
use flume.Sstable.Merge.Correct.{Ascending-KeySorted}
use flume.Sstable.Table.Lookup.{newest-visible, newest-passed}
use flume.Sstable.Iterator.Group.{after, after-All, after-Ascending, newest-after_key}
use flume.Engine.Scan.Sources.{IsSourceOf, too_new}
use flume.Engine.Scan.{table_source, in_range}

module _ (start end : Option Bytes) (s : ℕ) where
  table_source-All :
      (P : Record → Type 0) (rs : List Record) → All P rs → All P (table_source start end s rs)
  unfolding table_source
  table_source-All P [] h = tt
  table_source-All P (r ∷ rs) h = elim (Bool-cases (in_range start end r.key && leb r.seq s)) [
    | inl e ↦ rw (e, table_source) (h.0, after-All r.key P _ (table_source-All P rs h.1))
    | inr e ↦ rw (e, table_source) (table_source-All P rs h.1)
  ]

  pub table_source-Ascending :
      (rs : List Record) → Ascending rs → Ascending (table_source start end s rs)
  unfolding table_source
  table_source-Ascending [] h = tt
  table_source-Ascending (r ∷ rs) h = elim (Bool-cases (in_range start end r.key && leb r.seq s)) [
    | inl e ↦
        rw (e, table_source)
          (
            after-All r.key (λ x. less r x ≡ true) _
                (table_source-All (λ x. less r x ≡ true) rs h.0),
            after-Ascending r.key _ (table_source-Ascending rs h.1),
          )
    | inr e ↦ rw (e, table_source) (table_source-Ascending rs h.1)
  ]

  second : (a b : Bool) → (a && b) ≡ true → b ≡ true
  second true b e = e
  second false b e = cc

  first : (a b : Bool) → (a && b) ≡ true → a ≡ true
  first true b e = refl
  first false b e = cc

  table_source-seen :
      (rs : List Record) → All (λ r. leb r.seq s ≡ true) (table_source start end s rs)
  unfolding table_source
  table_source-seen [] = tt
  table_source-seen (r ∷ rs) = elim (Bool-cases (in_range start end r.key && leb r.seq s)) [
    | inl e ↦
        rw (e, table_source)
          (
            second (in_range start end r.key) (leb r.seq s) e,
            after-All r.key (λ r. leb r.seq s ≡ true) _ (table_source-seen rs),
          )
    | inr e ↦ rw (e, table_source) (table_source-seen rs)
  ]

  after-Sub : (key : Bytes) (rs : List Record) → Sub (after key rs) rs
  unfolding after
  after-Sub key [] = Sub.none_left
  after-Sub key (r ∷ rs) = elim (Bool-cases (bytes_equal r.key key)) [
    | inl e ↦ rw (e, after) (Sub.taken (after-Sub key rs))
    | inr e ↦ rw (e, after) (Sub-refl (r ∷ rs))
  ]

  table_source-Sub : (rs : List Record) → Sub (table_source start end s rs) rs
  unfolding table_source
  table_source-Sub [] = Sub.none_left
  table_source-Sub (r ∷ rs) = elim (Bool-cases (in_range start end r.key && leb r.seq s)) [
    | inl e ↦
        rw (e, table_source)
          (Sub.kept
            (Sub-trans (table_source-Sub rs) (after-Sub r.key (table_source start end s rs))))
    | inr e ↦ rw (e, table_source) (Sub.taken (table_source-Sub rs))
  ]

  table_source_kept :
      (r : Record) (rs : List Record)
      → (in_range start end r.key && leb r.seq s) ≡ true
      → table_source start end s (r ∷ rs) ≡ r ∷ after r.key (table_source start end s rs)
  unfolding table_source
  table_source_kept r rs e = rw (e, table_source) refl

  table_source_passed :
      (r : Record) (rs : List Record)
      → (in_range start end r.key && leb r.seq s) ≡ false
      → table_source start end s (r ∷ rs) ≡ table_source start end s rs
  unfolding table_source
  table_source_passed r rs e = rw (e, table_source) refl

  module _ (k : Bytes) where
    abbrev shown : List Record → Option Record
    shown rs = if in_range start end k then newest k s rs else none

    newest-kept :
        (r : Record) (rs : List Record)
        → Ascending (r ∷ rs)
        → (in_range start end r.key && leb r.seq s) ≡ true
        → newest k s (table_source start end s rs) ≡ shown rs
        → newest k s (r ∷ after r.key (table_source start end s rs)) ≡ shown (r ∷ rs)
    newest-kept r rs h e ih = elim (Bool-cases (bytes_equal r.key k)) [
      | inl q ↦
          let same : r.key ≡ k = compare-eq→eq r.key k (ground arith) in
          let v = second (in_range start end r.key) (leb r.seq s) e in
          let here : in_range start end k ≡ true =
            ap (in_range start end) (sym same) ∙ first (in_range start end r.key) (leb r.seq s) e in
          newest-visible k s r _ same v (
            after-All r.key (λ x. less r x ≡ true) _
              (table_source-All (λ x. less r x ≡ true) rs h.0))
          ∙ rw here (sym (newest-visible k s r rs same v h.0))
      | inr q ↦
          let n : k ≢ r.key =
            λ t. cc (subst (λ y. bytes_equal r.key y ≡ false) t q, bytes_equal_self r.key) in
          let other = candidate-other k s r (λ t. n (sym t)) in
          newest-passed k s r _ other
          ∙ sym (newest-after_key r.key k s (table_source start end s rs) n)
          ∙ ih
          ∙ ap (λ o. if in_range start end k then o else none) (sym (newest-passed k s r rs other))
    ]

    hidden :
        (r : Record)
        → (in_range start end r.key && leb r.seq s) ≡ false
        → (rs : List Record) → shown rs ≡ shown (r ∷ rs)
    hidden r e rs = elim (Bool-cases (bytes_equal r.key k)) [
      | inl q ↦
          let same : r.key ≡ k = compare-eq→eq r.key k (ground arith) in
          elim (Bool-cases (in_range start end k)) [
            | inl i ↦
                let new : leb r.seq s ≡ false =
                  not_second (in_range start end r.key) (leb r.seq s)
                    (ap (in_range start end) same ∙ i) e in
                ap (λ o. if in_range start end k then o else none)
                  (sym (newest-passed k s r rs (too_new s k r new)))
            | inr i ↦ rw i refl
          ]
      | inr q ↦
          ap (λ o. if in_range start end k then o else none)
            (sym (
              newest-passed k s r rs (
                candidate-other k s r
                  λ t. cc (subst (λ y. bytes_equal y k ≡ false) t q, bytes_equal_self k))))
    ]
      where
        not_second : (a b : Bool) → a ≡ true → (a && b) ≡ false → b ≡ false
        not_second true b p q = q
        not_second false b p q = cc

    newest-table_source :
        (rs : List Record) → Ascending rs → newest k s (table_source start end s rs) ≡ shown rs
    newest-table_source [] h = unfold table_source newest in nothing (in_range start end k)
      where
        nothing : (b : Bool) → none ≡ (if◌then◌else◌ {A = Option Record} b none none)
        nothing true = refl
        nothing false = refl
    newest-table_source (r ∷ rs) h = elim (Bool-cases (in_range start end r.key && leb r.seq s)) [
      | inl e ↦
          ap (newest k s) (table_source_kept r rs e)
          ∙ newest-kept r rs h e (newest-table_source rs h.1)
      | inr e ↦
          ap (newest k s) (table_source_passed r rs e) ∙ newest-table_source rs h.1 ∙ hidden r e rs
    ]

  -- sstableRangeSource over a sorted table.
  pub table_source-IsSourceOf :
      (rs : List Record) → Ascending rs → IsSourceOf start end s rs (table_source start end s rs)
  table_source-IsSourceOf rs h = record {
    sorted = Ascending-KeySorted (table_source start end s rs) (table_source-Ascending rs h);
    seen = table_source-seen rs;
    sub = table_source-Sub rs;
    reads = λ k. newest-table_source k rs h;
  }
