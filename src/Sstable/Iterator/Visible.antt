-- ===== src/Sstable/Iterator/Visible.antt =====
-- RangeIterator on a table that `Write` has written.
use flume.Common.{
  ℕ, zero, suc, ◌+◌, ◌^◌, ◌<◌, ◌≡◌, refl, sym, ap, ◌∙◌, subst, arith, Bool, true, false, ◌||◌, List,
  [], ◌∷◌, Option, none, some, leb, if◌then◌else◌, length, drop, All, ok, Returns, inl, inr,
}
use flume.Bytes.{Bytes, bytes_compare, KeyLt, is_lt}
use flume.Bytes.Order.{compare_cases, KeyLt-trans}
use flume.Bloom.{Sizing, new_for_entries}
use flume.Sstable.{Record, newest}
use flume.Sstable.Order.{KeyLe, KeyLt-irrefl}
use flume.Sstable.Versions.{candidate-other}
use flume.Sstable.Merge.Retain.{Ascending}
use flume.Sstable.Format.{Flate, IsLossless, IndexEntry, Nils, write}
use flume.Sstable.Format.Layout.{write-Blocks}
use flume.Sstable.Table.{Table, open_table}
use flume.Sstable.Table.Search.{lower, search-lower}
use flume.Sstable.Table.Blocks.{IsStorable}
use flume.Sstable.Table.Lookup.{Holds, Holds-Ordered, newest-before, newest-passed, later_all}
use flume.Sstable.Table.Get.{IsTableOf}
use flume.Sstable.Table.RoundTrip.{open_table-written, written-IsTableOf}
use flume.Sstable.Iterator.{new_range_iterator, past_end}
use flume.Sstable.Iterator.Range.{KeysAscending, if_none}
use flume.Sstable.Iterator.Walk.{RangeYields, walk, at, Gives-RangeYields}

-- A key before the start of the range.
unfoldable pub before_start : Option Bytes → Bytes → Bool
before_start none key = false
before_start (some start) key = is_lt (bytes_compare key start)

-- The records `out` are what a reader at `s` sees of `rs` in the range: one for each key, in key order.
pub record Visible (start end : Option Bytes) (s : ℕ) (rs out : List Record) : Type 0 where
  pub keys : KeysAscending out
  pub seen : All (λ r. leb r.seq s ≡ true) out
  pub reads :
      (k : Bytes)
      → newest k s out ≡ (if before_start start k || past_end end k then none else newest k s rs)

module _ (z : Flate) (file : Bytes) where
  dropped-Holds :
      (n : ℕ) (es : List IndexEntry) (rs : List Record)
      → Holds z file es rs
      → Holds z file (drop n es) (drop n rs)
  dropped-Holds zero es rs h = h
  dropped-Holds (suc n) [] [] h = h
  dropped-Holds (suc n) [] (r ∷ rs) h = absurd h
  dropped-Holds (suc n) (e ∷ es) [] h = absurd h
  dropped-Holds (suc n) (e ∷ es) (r ∷ rs) h = dropped-Holds n es rs h.2

  dropped-Ascending : (n : ℕ) (rs : List Record) → Ascending rs → Ascending (drop n rs)
  dropped-Ascending zero rs a = a
  dropped-Ascending (suc n) [] a = a
  dropped-Ascending (suc n) (r ∷ rs) a = dropped-Ascending n rs a.1

  module _ (m k : Bytes) (s : ℕ) where
    -- From the first key that is not before `m`.
    from_here :
        (r : Record) (rs : List Record)
        → Ascending (r ∷ rs)
        → KeyLe m r.key
        → newest k s (r ∷ rs) ≡ (if is_lt (bytes_compare k m) then none else newest k s (r ∷ rs))
    from_here r rs a l = elim (compare_cases k m) [
      | inl p ↦ rw p (newest-before k s (r ∷ rs) (later_all k r rs (first p l) a))
      | inr (inl (p, q)) ↦ rw p refl
      | inr (inr (p, q)) ↦ rw p refl
    ]
      where
        first : KeyLt k m → KeyLe m r.key → KeyLt k r.key
        first p (inl q) = KeyLt-trans k m r.key p q
        first p (inr q) = subst (KeyLt k) q p

    newest-lower :
        (es : List IndexEntry) (rs : List Record)
        → Holds z file es rs
        → Ascending rs
        → newest k s (drop (lower m es) rs)
          ≡ (if is_lt (bytes_compare k m) then none else newest k s rs)
    unfolding lower
    newest-lower [] [] h a = unfold newest in if_none (is_lt (bytes_compare k m))
    newest-lower [] (r ∷ rs) h a = absurd h
    newest-lower (e ∷ es) [] h a = absurd h
    newest-lower (e ∷ es) (r ∷ rs) h a = elim (compare_cases e.key m) [
      | inl p ↦ rw (p, lower) (newest-lower es rs h.2 a.1 ∙ passed (subst (λ x. KeyLt x m) h.0 p))
      | inr (inl (p, q)) ↦ rw (p, lower) (from_here r rs a (inr (sym q ∙ h.0)))
      | inr (inr (p, q)) ↦ rw (p, lower) (from_here r rs a (inl (subst (KeyLt m) h.0 q)))
    ]
      where
        passed :
            KeyLt r.key m
            → (if is_lt (bytes_compare k m) then none else newest k s rs)
              ≡ (if is_lt (bytes_compare k m) then none else newest k s (r ∷ rs))
        passed p = elim (compare_cases k m) [
          | inl q ↦ rw q refl
          | inr (inl (q, t)) ↦ rw q (
              sym (
                newest-passed k s r rs
                  (candidate-other k s r λ u. KeyLt-irrefl m (subst (λ x. KeyLt x m) (u ∙ t) p))))
          | inr (inr (q, t)) ↦ rw q (
              sym (
                newest-passed k s r rs (
                  candidate-other k s r
                    λ u. KeyLt-irrefl m (KeyLt-trans m k m t (subst (λ x. KeyLt x m) u p)))))
        ]

module _ (z : Flate) (rs : List Record) (t : Table) (i : IsTableOf z rs t) where
  -- The entries that the walk starts from, and their records.
  record Started (start end : Option Bytes) (s : ℕ) : Type 0 where
    entries : List IndexEntry
    records : List Record
    holds : Holds z t.file entries records
    order : Ascending records
    begins : new_range_iterator t start end s ≡ at z t.file end s entries
    reads :
        (k : Bytes) → newest k s records ≡ (if before_start start k then none else newest k s rs)

  starts : (start end : Option Bytes) (s : ℕ) → Started start end s
  unfolding new_range_iterator before_start
  starts none end s = record {
    entries = t.index;
    records = rs;
    holds = i.holds;
    order = i.order;
    begins = refl;
    reads = λ k. refl;
  }
  starts (some m) end s = record {
    entries = drop (lower m t.index) t.index;
    records = drop (lower m t.index) rs;
    holds = dropped-Holds z t.file (lower m t.index) t.index rs i.holds;
    order = dropped-Ascending z t.file (lower m t.index) rs i.order;
    begins =
        ap (λ n. at z t.file end s (drop n t.index))
          (search-lower m t.index (Holds-Ordered z t.file t.index rs i.holds i.order));
    reads = λ k. newest-lower z t.file m k s t.index rs i.holds i.order;
  }

  range-Visible :
      (start end : Option Bytes) (s : ℕ)
      → (out : List Record) × RangeYields z (new_range_iterator t start end s) out
        × Visible start end s rs out
  range-Visible start end s =
      let st = starts start end s in
      let (out, w) =
        walk z t.file end s (length st.entries) st.entries st.records st.holds st.order
          (omega arith) in
      (
        out,
        subst (λ it. RangeYields z it out) (sym st.begins)
            (Gives-RangeYields z t.file end s st.entries out
              (w.1 (length st.entries) (omega arith))),
        record {
          keys = w.0.keys;
          seen = w.0.seen;
          reads =
              λ k. w.0.reads k ∙ bounds (before_start start k) (past_end end k) _ _ (st.reads k);
        },
      )
    where
      bounds :
          (b p : Bool) (x y : Option Record)
          → x ≡ (if b then none else y)
          → (if p then none else x) ≡ (if b || p then none else y)
      bounds true true x y e = refl
      bounds true false x y e = e
      bounds false true x y e = refl
      bounds false false x y e = e

module _ (z : Flate) (lossless : IsLossless z) (compress : Bool) (sizing : Sizing)
    (rs : List Record) (storable : All IsStorable rs) (keyed : All (λ r. 0 < length r.key) rs)
    (roomy : (new_for_entries sizing (length rs) sizing.one_percent).num_bits + 7 < 2 ^ 32) where
  -- RangeIterator over a table that `Write` has written gives, without an error and in finitely many calls
  -- of `Next`, at most one record of each key, in key order: exactly the newest version not above the
  -- sequence number, for the keys from the start on and before the end that have one.
  pub write-Visible :
      (nils : Nils) (file : Bytes)
      → write z sizing nils rs compress ≡ ok file
      → length file < 2 ^ 47
      → (start end : Option Bytes) (s : ℕ)
      → Returns (open_table file) (λ t.
        (out : List Record) × RangeYields z (new_range_iterator t start end s) out
        × Visible start end s rs out)
  write-Visible nils file e small start end s =
      let b = write-Blocks z sizing compress nils rs file keyed e (omega (arith, small)) in
      rw (open_table-written z lossless compress sizing rs storable keyed roomy file small b) (
        range-Visible z rs _
          (written-IsTableOf z lossless compress sizing rs storable keyed roomy file small b) start
          end s)
