-- ===== src/Engine/Scan/Sources.antt =====
-- The streams that a scan merges show of a MemTable and of a table what the reader sees in the range.
use flume.Common.{
  ℕ, ◌≡◌, refl, sym, ap, ◌∙◌, subst, Bool, true, false, ◌&&◌, not, List, [], ◌∷◌, map, Option, none,
  leb, if◌then◌else◌, All, Bool-cases, inl, inr,
}
use flume.Common.Perm.{All-imp}
use flume.Common.Sub.{Sub, Sub-trans}
use flume.Bytes.{Bytes, bytes_equal, KeyLt}
use flume.Skiplist
use flume.Skiplist.{Kv, seek, until}
use flume.Skiplist.Laws.{Sorted}
use flume.Memtable
use flume.Memtable.{MemTable, Entry}
use flume.Sstable.{Record, newest, candidate, better}
use flume.Sstable.Order.{KeyLe}
use flume.Sstable.Merge.Heap.{KeySorted}
use flume.Sstable.Table.Lookup.{newest-passed}
use flume.Sstable.Iterator.{past_end}
use flume.Sstable.Iterator.Visible.{before_start}
use flume.Engine.{record_of, build_records}
use flume.Engine.Reads.{IsOrdered}
use flume.Engine.Scan.Pick.{pick, pick-Sorted, pick-Sub, newest-pick, seek-pick, until-pick}
use flume.Engine.Scan.{mem_source, in_range}

-- What a stream shows of the records of its MemTable or table.
pub record IsSourceOf (start end : Option Bytes) (s : ℕ) (rs src : List Record) : Type 0 where
  pub sorted : KeySorted src
  pub seen : All (λ r. leb r.seq s ≡ true) src
  pub sub : Sub src rs
  pub reads : (k : Bytes) → newest k s src ≡ (if in_range start end k then newest k s rs else none)

module _ (s : ℕ) where
  mem_source-All :
      (P : Record → Type 0) (kvs : List (Kv Entry))
      → All (λ (y : Kv Entry). P (record_of y)) kvs
      → All P (mem_source s kvs)
  unfolding mem_source
  mem_source-All P [] h = tt
  mem_source-All P (x ∷ kvs) h = elim (Bool-cases (leb x.value.seq s)) [
    | inl e ↦ rw (e, mem_source) (h.0, mem_source-All P kvs h.1)
    | inr e ↦ rw (e, mem_source) (mem_source-All P kvs h.1)
  ]

  mem_source-KeySorted : (kvs : List (Kv Entry)) → Sorted kvs → KeySorted (mem_source s kvs)
  unfolding mem_source
  mem_source-KeySorted [] h = tt
  mem_source-KeySorted (x ∷ kvs) h = elim (Bool-cases (leb x.value.seq s)) [
    | inl e ↦
        rw (e, mem_source)
          (
            mem_source-All (λ r. KeyLe x.key r.key) kvs
                (All-imp (λ (y : Kv Entry). KeyLt x.key y.key) (λ y. KeyLe x.key y.key) kvs
                  (λ y p. inl p) h.0),
            mem_source-KeySorted kvs h.1,
          )
    | inr e ↦ rw (e, mem_source) (mem_source-KeySorted kvs h.1)
  ]

  mem_source-seen : (kvs : List (Kv Entry)) → All (λ r. leb r.seq s ≡ true) (mem_source s kvs)
  unfolding mem_source
  mem_source-seen [] = tt
  mem_source-seen (x ∷ kvs) = elim (Bool-cases (leb x.value.seq s)) [
    | inl e ↦ rw (e, mem_source) (e, mem_source-seen kvs)
    | inr e ↦ rw (e, mem_source) (mem_source-seen kvs)
  ]

  mem_source-Sub : (kvs : List (Kv Entry)) → Sub (mem_source s kvs) (map record_of kvs)
  unfolding mem_source
  mem_source-Sub [] = Sub.none_left
  mem_source-Sub (x ∷ kvs) = elim (Bool-cases (leb x.value.seq s)) [
    | inl e ↦ rw (e, mem_source) (Sub.kept (mem_source-Sub kvs))
    | inr e ↦ rw (e, mem_source) (Sub.taken (mem_source-Sub kvs))
  ]

  pub too_new : (k : Bytes) (r : Record) → leb r.seq s ≡ false → candidate k s r ≡ none
  unfolding candidate
  too_new k r e = elim (Bool-cases (bytes_equal r.key k)) [
    | inl q ↦ rw (q, e) refl
    | inr q ↦ rw q refl
  ]

  mem_source_kept :
      (x : Kv Entry) (kvs : List (Kv Entry))
      → leb x.value.seq s ≡ true
      → mem_source s (x ∷ kvs) ≡ record_of x ∷ mem_source s kvs
  unfolding mem_source
  mem_source_kept x kvs e = rw (e, mem_source) refl

  mem_source_passed :
      (x : Kv Entry) (kvs : List (Kv Entry))
      → leb x.value.seq s ≡ false
      → mem_source s (x ∷ kvs) ≡ mem_source s kvs
  unfolding mem_source
  mem_source_passed x kvs e = rw (e, mem_source) refl

  newest-mem_source :
      (k : Bytes) (kvs : List (Kv Entry))
      → newest k s (mem_source s kvs) ≡ newest k s (map record_of kvs)
  unfolding mem_source newest
  newest-mem_source k [] = refl
  newest-mem_source k (x ∷ kvs) = elim (Bool-cases (leb x.value.seq s)) [
    | inl e ↦
        ap (newest k s) (mem_source_kept x kvs e)
        ∙ ap (better (candidate k s (record_of x))) (newest-mem_source k kvs)
    | inr e ↦
        ap (newest k s) (mem_source_passed x kvs e)
        ∙ newest-mem_source k kvs
        ∙ sym (newest-passed k s (record_of x) (map record_of kvs) (too_new k (record_of x) e))
  ]

module _ (start end : Option Bytes) (s : ℕ) where
  both_tests :
      (a b : Bool) (o : Option Record)
      → (if b then (if a then o else none) else none) ≡ (if a && b then o else none)
  both_tests true true o = refl
  both_tests true false o = refl
  both_tests false true o = refl
  both_tests false false o = refl

  -- memSliceSource over `Range` of a MemTable.
  pub mem_source-IsSourceOf :
      (m : MemTable)
      → IsOrdered m
      → IsSourceOf start end s (build_records m) (mem_source s (Memtable.range m start end))
  unfolding Memtable.range Skiplist.range build_records
  mem_source-IsSourceOf m h =
      let started = pick (λ k. not (before_start start k)) m.skl in
      let inside = pick (λ k. not (past_end end k)) started in
      let started_sorted = pick-Sorted (λ k. not (before_start start k)) m.skl h in
      let is : until end (seek start m.skl) ≡ inside =
        ap (until end) (seek-pick start m.skl h) ∙ until-pick end started started_sorted in
      subst (λ kvs. IsSourceOf start end s (map record_of m.skl) (mem_source s kvs)) (sym is)
        (record {
          sorted =
              mem_source-KeySorted s inside
                (pick-Sorted (λ k. not (past_end end k)) started started_sorted);
          seen = mem_source-seen s inside;
          sub =
              Sub-trans (pick-Sub (λ k. not (before_start start k)) m.skl) (
                Sub-trans (pick-Sub (λ k. not (past_end end k)) started) (mem_source-Sub s inside));
          reads = λ k.
              newest-mem_source s k inside
              ∙ newest-pick (λ k. not (past_end end k)) k s started
              ∙ ap (λ o. if not (past_end end k) then o else none)
                  (newest-pick (λ k. not (before_start start k)) k s m.skl)
              ∙ both_tests (not (before_start start k)) (not (past_end end k)) _;
        })
