-- ===== src/Engine/Scan/Agrees.antt =====
-- Scan over everything that the store holds, against Get.
use flume.Common.{
  ℕ, ◌≡◌, refl, sym, ap, ◌∙◌, Bool, true, false, List, [], ◌∷◌, ◌++◌, map, append-nil, append_assoc,
  Option, none, leb, if◌then◌else◌, All, All-append, Returns, Returns-imp, Bool-cases, inl, inr,
}
use flume.Common.Perm.{All-perm, of_eq, append-perm}
use flume.Common.Sub.{Sub, Sub-append, Sub-All}
use mathlib.Core.List.Permᴰ
use mathlib.Core.List.{Permᴰ}
use flume.Bytes.{Bytes}
use flume.Skiplist.{Kv, lookup}
use flume.Skiplist.Laws.{Sorted}
use flume.Memtable
use flume.Sstable.{Record, better, newest, live, Apart, Distinct}
use flume.Sstable.Versions.{newest-append, newest-perm, Distinct-perm}
use flume.Sstable.Merge.{fill, next_of}
use flume.Sstable.Merge.Heap.{KeySorted, contents, IsRun, all_records, fill-Returns}
use flume.Sstable.Merge.Retain.{Ascending}
use flume.Engine.{Engine, ImmEntry, LeveledTable, build_records}
use flume.Engine.Reads.{versions, imm_versions, table_versions, IsOrdered}
use flume.Engine.Writes.{IsStore}
use flume.Engine.Scan.{ScanHeap, mem_source, table_source, sources, scan_at, in_range}
use flume.Engine.Scan.Sources.{IsSourceOf, mem_source-IsSourceOf}
use flume.Engine.Scan.Tables.{table_source-IsSourceOf}
use flume.Engine.Scan.Drain.{ScanYields}
use flume.Engine.Scan.Walk.{scan-Listed}

pub Distinct-Sub : {ys xs : List Record} → Sub xs ys → Distinct ys → Distinct xs
Distinct-Sub Sub.none_left d = tt
Distinct-Sub (Sub.kept {a = a} s) d = (Sub-All (Apart a) s d.0, Distinct-Sub s d.1)
Distinct-Sub (Sub.taken s) d = Distinct-Sub s d.1

module _ (start end : Option Bytes) (s : ℕ) where
  -- Stream by stream.
  abbrev Streams : List (List Record) → List (List Record) → Type 0
  Streams [] [] = Unit
  Streams [] (y ∷ ys) = ⊥
  Streams (x ∷ xs) [] = ⊥
  Streams (x ∷ xs) (y ∷ ys) = IsSourceOf start end s x y × Streams xs ys

  Streams-append :
      (ws xs ys zs : List (List Record))
      → Streams ws xs
      → Streams ys zs
      → Streams (ws ++ ys) (xs ++ zs)
  Streams-append [] [] ys zs h k = k
  Streams-append [] (x ∷ xs) ys zs h k = absurd h
  Streams-append (w ∷ ws) [] ys zs h k = absurd h
  Streams-append (w ∷ ws) (x ∷ xs) ys zs h k = (h.0, Streams-append ws xs ys zs h.1 k)

  Streams-map :
      {A : Type 0} (f g : A → List Record) (xs : List A)
      → All (λ a. IsSourceOf start end s (f a) (g a)) xs
      → Streams (map f xs) (map g xs)
  Streams-map f g [] h = tt
  Streams-map f g (a ∷ xs) h = (h.0, Streams-map f g xs h.1)

  both :
      (k : Bytes) (x y : Option Record)
      → better (if in_range start end k then x else none) (if in_range start end k then y else none)
        ≡ (if in_range start end k then better x y else none)
  unfolding better
  both k x y = elim (Bool-cases (in_range start end k)) [ inl e ↦ rw e refl | inr e ↦ rw e refl ]

  -- All the streams together.
  Streams-IsSourceOf :
      (xs ys : List (List Record))
      → Streams xs ys
      → All KeySorted ys
        × All (λ r. leb r.seq s ≡ true) (all_records ys)
        × Sub (all_records ys) (all_records xs)
        × ((k : Bytes)
            → newest k s (all_records ys)
              ≡ (if in_range start end k then newest k s (all_records xs) else none))
  Streams-IsSourceOf [] [] h =
      (tt, tt, Sub.none_left, λ k. unfold newest in nothing (in_range start end k))
    where
      nothing : (b : Bool) → none ≡ (if◌then◌else◌ {A = Option Record} b none none)
      nothing true = refl
      nothing false = refl
  Streams-IsSourceOf [] (y ∷ ys) h = absurd h
  Streams-IsSourceOf (x ∷ xs) [] h = absurd h
  Streams-IsSourceOf (x ∷ xs) (y ∷ ys) h =
      let rest = Streams-IsSourceOf xs ys h.1 in
      (
        (h.0.sorted, rest.0),
        All-append (λ r. leb r.seq s ≡ true) y (all_records ys) h.0.seen rest.1,
        Sub-append h.0.sub rest.2,
        λ k.
            newest-append k s y (all_records ys)
            ∙ ap (λ o. better o (newest k s (all_records ys))) (h.0.reads k)
            ∙ ap (better (if in_range start end k then newest k s x else none)) (rest.3 k)
            ∙ both k (newest k s x) (newest k s (all_records xs))
            ∙ ap (λ o. if in_range start end k then o else none)
                (sym (newest-append k s x (all_records xs))),
      )

-- What the streams are made of, in their order.
abbrev held : Engine → List (List Record)
held e =
    build_records e.mem
    ∷ (map (λ (i : ImmEntry). build_records i.mt) e.imm
        ++ map (λ (t : LeveledTable). t.table.records) e.tables)

imm_held :
    (is : List ImmEntry)
    → Permᴰ (imm_versions is) (all_records (map (λ (i : ImmEntry). build_records i.mt) is))
imm_held [] = Permᴰ.nil
imm_held (i ∷ is) =
    Permᴰ.trans (Permᴰ.append_comm (imm_versions is) (build_records i.mt))
      (Permᴰ.append_left (build_records i.mt) (imm_held is))

table_held :
    (ts : List LeveledTable)
    → table_versions ts ≡ all_records (map (λ (t : LeveledTable). t.table.records) ts)
table_held [] = refl
table_held (t ∷ ts) = ap (λ l. t.table.records ++ l) (table_held ts)

all_records-append :
    (xs ys : List (List Record)) → all_records (xs ++ ys) ≡ all_records xs ++ all_records ys
all_records-append [] ys = refl
all_records-append (x ∷ xs) ys =
    ap (λ l. x ++ l) (all_records-append xs ys)
    ∙ sym (append_assoc x (all_records xs) (all_records ys))

held-perm : (e : Engine) → Permᴰ (versions e) (all_records (held e))
held-perm e = Permᴰ.append_left (build_records e.mem) (
    Permᴰ.trans (append-perm (imm_held e.imm) (of_eq (table_held e.tables))) (
      of_eq (
        sym (
          all_records-append (map (λ (i : ImmEntry). build_records i.mt) e.imm)
            (map (λ (t : LeveledTable). t.table.records) e.tables)))))

module _ (start end : Option Bytes) (s : ℕ) (e : Engine) (store : IsStore e)
    (sorted : All (λ (t : LeveledTable). Ascending t.table.records) e.tables) where
  mem_streams :
      (is : List ImmEntry)
      → All (λ (i : ImmEntry). IsOrdered i.mt) is
      → All
          (λ (i : ImmEntry).
            IsSourceOf start end s
              (build_records i.mt)
              (mem_source s (Memtable.range i.mt start end)))
          is
  mem_streams [] h = tt
  mem_streams (i ∷ is) h = (mem_source-IsSourceOf start end s i.mt h.0, mem_streams is h.1)

  table_streams :
      (ts : List LeveledTable)
      → All (λ (t : LeveledTable). Ascending t.table.records) ts
      → All
          (λ (t : LeveledTable).
            IsSourceOf start end s t.table.records (table_source start end s t.table.records))
          ts
  table_streams [] h = tt
  table_streams (t ∷ ts) h =
      (table_source-IsSourceOf start end s t.table.records h.0, table_streams ts h.1)

  streams : Streams start end s (held e) (sources start end s e)
  unfolding sources
  streams = (
    mem_source-IsSourceOf start end s e.mem store.readable.mem_ordered,
    Streams-append start end s (map (λ (i : ImmEntry). build_records i.mt) e.imm) _
        (map (λ (t : LeveledTable). t.table.records) e.tables) _
        (Streams-map start end s _ _ e.imm (mem_streams e.imm store.readable.imm_ordered))
        (Streams-map start end s _ _ e.tables (table_streams e.tables sorted)),
  )

  -- What a scan shows of the store.
  abbrev pub Scanned : List (Kv Bytes) → Type 0
  Scanned out =
      Sorted out
      × ((k : Bytes)
          → lookup k out ≡ (if in_range start end k then live (newest k s (versions e)) else none))

  opened-Scanned :
      (h : ScanHeap)
      → Permᴰ (all_records (sources start end s e) ++ []) (contents h)
      → All IsRun h
      → (out : List (Kv Bytes)) × ScanYields h out × Scanned out
  opened-Scanned h p r =
      let srcs = all_records (sources start end s e) in
      let (runs, seen, sub, reads) =
        Streams-IsSourceOf start end s (held e) (sources start end s e) streams in
      let q = Permᴰ.trans (of_eq (sym (append-nil srcs))) p in
      let apart = Distinct-Sub sub (Distinct-perm (held-perm e) store.distinct) in
      let (out, y, l) = scan-Listed s h (record {
        runs = r;
        seen = All-perm (λ r. leb r.seq s ≡ true) q seen;
        apart = Distinct-perm q apart;
      }) in
      (
        out,
        y,
        (
          l.keys,
          λ k.
              l.reads k
              ∙ ap live (
                  sym (newest-perm k s q apart)
                  ∙ reads k
                  ∙ ap (λ o. if in_range start end k then o else none)
                      (sym (newest-perm k s (held-perm e) store.distinct)))
              ∙ outside (in_range start end k) (newest k s (versions e)),
        ),
      )
    where
      outside :
          (b : Bool) (o : Option Record)
          → live (if b then o else none) ≡ (if b then live o else none)
      outside true o = refl
      outside false o = unfold live in refl

  -- On an open store with its invariant whose tables are sorted, a scan at a sequence number ends, and its
  -- calls of `Next` give, in strictly ascending order, exactly the keys of the range whose newest version
  -- not above the number, among all that the store holds, is not a tombstone, each with its value.
  pub scan_at-newest :
      e.closed ≡ false
      → Returns
          (scan_at start end s e)
          (λ h. (out : List (Kv Bytes)) × ScanYields h out × Scanned out)
  unfolding scan_at
  scan_at-newest c =
      let (runs, seen, sub, reads) =
        Streams-IsSourceOf start end s (held e) (sources start end s e) streams in
      rw c (
        Returns-imp
          (λ h. Permᴰ (all_records (sources start end s e) ++ []) (contents h) × All IsRun h) _
          (fill next_of (sources start end s e) [])
          (fill-Returns (sources start end s e) [] runs tt) λ h q. opened-Scanned h q.0 q.1)
