-- ===== src/Engine/Reads.antt =====
-- `getAt` against its specification: the newest version visible at the bound, over everything that
-- the store holds.
use flume.Common.{
  ℕ, ◌≤◌, ◌≡◌, ◌≢◌, refl, sym, ap, ◌∙◌, subst, arith, true, false, List, [], ◌∷◌, ◌++◌, map, Option,
  none, some, ltb, if◌then◌else◌, All, inl, inr, Bool-cases, Option-cases,
}
use flume.Bytes.{Bytes, bytes_equal, KeyLt}
use flume.Bytes.Order.{compare-eq→eq}
use flume.Skiplist.{Kv, lookup}
use flume.Skiplist.Laws.{Sorted}
use flume.Memtable
use flume.Memtable.{MemTable, Entry}
use flume.Sstable.{Record, better, candidate, newest}
use flume.Sstable.Order.{KeyLt-irrefl}
use flume.Sstable.Versions.{better-none, better_assoc, newest-append, newest-other, candidate_self}
use flume.Engine.{
  Engine, ImmEntry, LeveledTable, record_of, build_records, consider, consider_memtable,
  consider_imm, consider_tables, answer, get_at, is_empty,
}

abbrev pub imm_versions : List ImmEntry → List Record
imm_versions [] = []
imm_versions (i ∷ is) = imm_versions is ++ build_records i.mt

abbrev pub table_versions : List LeveledTable → List Record
table_versions [] = []
table_versions (t ∷ ts) = t.table.records ++ table_versions ts

-- Every version that the store holds, in the order in which a read meets them.
abbrev pub versions : Engine → List Record
versions e = build_records e.mem ++ (imm_versions e.imm ++ table_versions e.tables)

-- MemTables hold each key once, in order.
abbrev pub IsOrdered : MemTable → Type 0
IsOrdered m = Sorted m.skl

pub record IsReadable (e : Engine) : Type 0 where
  pub mem_ordered : IsOrdered e.mem
  pub imm_ordered : All (λ (i : ImmEntry). IsOrdered i.mt) e.imm

pub none-better : (x : Option Record) → better none x ≡ x
none-better x = unfold better in refl

pub bytes_equal→eq : (a b : Bytes) → bytes_equal a b ≡ true → a ≡ b
bytes_equal→eq a b h = compare-eq→eq a b (ground arith)

some-inj : {a b : Entry} → some a ≡ some b → a ≡ b
some-inj p = cc

others :
    {k : Bytes} (x : Bytes) (kvs : List (Kv Entry))
    → x ≡ k
    → All (λ (y : Kv Entry). KeyLt x y.key) kvs
    → All (λ (r : Record). r.key ≢ k) (map record_of kvs)
others x [] e h = tt
others x (y ∷ kvs) e h =
    ((λ p. KeyLt-irrefl x (subst (λ z. KeyLt x z) (p ∙ sym e) h.0)), others x kvs e h.1)

module _ (k : Bytes) (s : ℕ) where
  newest-le : (rs : List Record) (r : Record) → newest k s rs ≡ some r → r.seq ≤ s
  unfolding newest
  newest-le [] r e = cc
  newest-le (x ∷ rs) r e = elim (Option-cases (newest k s rs)) [
    | inl n ↦ unfold better candidate in ground arith
    | inr (y, n) ↦ unfold better candidate in ground (arith, newest-le rs y n)
  ]

  consider-better :
      (best : Option Record) (r : Record)
      → r.key ≡ k
      → consider s best r ≡ better best (candidate k s r)
  unfolding consider better
  consider-better none r e = candidate_at r e
    where
      candidate_at :
          (r : Record) → r.key ≡ k → (if ltb s r.seq then none else some r) ≡ candidate k s r
      candidate_at r e = ground (arith, candidate_self k s r e)
  consider-better (some b) r e = ground (arith, candidate_self k s r e)

  consider_visible :
      (best : Option Record) (r : Record) → r.seq ≤ s → consider s best r ≡ better best (some r)
  unfolding consider better
  consider_visible none r h = ground arith
  consider_visible (some b) r h = ground arith

  pub missed : (r : Record) → bytes_equal r.key k ≡ false → candidate k s r ≡ none
  unfolding candidate
  missed r p = rw p

  pub no_version :
      (kvs : List (Kv Entry)) → lookup k kvs ≡ none → newest k s (map record_of kvs) ≡ none
  unfolding lookup newest
  no_version [] e = refl
  no_version (x ∷ kvs) e = elim (Bool-cases (bytes_equal x.key k)) [
    | inl p ↦ cc (rw (p, lookup) at e)
    | inr p ↦
        ap (λ c. better c (newest k s (map record_of kvs))) (missed (record_of x) p)
        ∙ (unfold better in no_version kvs (rw (p, lookup) at e))
  ]

  -- An ordered MemTable has one version of a key, the one that `Get` returns.
  pub one_version :
      (kvs : List (Kv Entry)) (en : Entry)
      → Sorted kvs
      → lookup k kvs ≡ some en
      → newest k s (map record_of kvs)
        ≡ candidate k s (record { key = k; value = en.value; type = en.type; seq = en.seq })
  unfolding lookup newest
  one_version [] en h e = cc
  one_version (x ∷ kvs) en h e = elim (Bool-cases (bytes_equal x.key k)) [
    | inl p ↦
        let same : x.key ≡ k = bytes_equal→eq x.key k p in
        ap (better (candidate k s (record_of x)))
          (newest-other k s (map record_of kvs) (others x.key kvs same h.0))
        ∙ better-none (candidate k s (record_of x))
        ∙ ap
            (λ z.
              candidate k s
                (record { key = z; value = x.value.value; type = x.value.type; seq = x.value.seq }))
            same
        ∙ ap (λ z. candidate k s (record { key = k; value = z.value; type = z.type; seq = z.seq }))
            (some-inj (rw (p, lookup) at e))
    | inr p ↦
        ap (λ c. better c (newest k s (map record_of kvs))) (missed (record_of x) p)
        ∙ (unfold better in one_version kvs en h.1 (rw (p, lookup) at e))
  ]

  memtable-better :
      (best : Option Record) (m : MemTable)
      → IsOrdered m
      → consider_memtable k s best m ≡ better best (newest k s (build_records m))
  unfolding consider_memtable build_records Memtable.get
  memtable-better best m h = elim (Option-cases (lookup k m.skl)) [
    | inl e ↦
        rw (e, consider_memtable) (sym (ap (better best) (no_version m.skl e) ∙ better-none best))
    | inr (en, e) ↦
        rw (e, consider_memtable)
          (consider-better best (record { key = k; value = en.value; type = en.type; seq = en.seq })
              refl
            ∙ sym (ap (better best) (one_version m.skl en h e)))
  ]

  imm-better :
      (best : Option Record) (is : List ImmEntry)
      → All (λ (i : ImmEntry). IsOrdered i.mt) is
      → consider_imm k s best is ≡ better best (newest k s (imm_versions is))
  unfolding consider_imm newest
  imm-better best [] h = sym (better-none best)
  imm-better best (i ∷ is) h =
      memtable-better (consider_imm k s best is) i.mt h.0
      ∙ ap (λ b. better b (newest k s (build_records i.mt))) (imm-better best is h.1)
      ∙ better_assoc best (newest k s (imm_versions is)) (newest k s (build_records i.mt))
      ∙ ap (better best) (sym (newest-append k s (imm_versions is) (build_records i.mt)))

  tables-better :
      (best : Option Record) (ts : List LeveledTable)
      → consider_tables k s best ts ≡ better best (newest k s (table_versions ts))
  unfolding consider_tables newest
  tables-better best [] = sym (better-none best)
  tables-better best (t ∷ ts) = elim (Option-cases (newest k s t.table.records)) [
    | inl e ↦
        rw (e, consider_tables)
          (tables-better best ts
            ∙ ap (better best) (
                sym (
                  newest-append k s t.table.records (table_versions ts)
                  ∙ ap (λ o. better o (newest k s (table_versions ts))) e
                  ∙ none-better (newest k s (table_versions ts)))))
    | inr (r, e) ↦
        rw (e, consider_tables)
          (tables-better (consider s best r) ts
            ∙ ap (λ b. better b (newest k s (table_versions ts)))
                (consider_visible best r (newest-le t.table.records r e) ∙ ap (better best) (sym e))
            ∙ better_assoc best (newest k s t.table.records) (newest k s (table_versions ts))
            ∙ ap (better best) (sym (newest-append k s t.table.records (table_versions ts))))
  ]

-- On an open store a read of a key at a bound answers with the newest version not above the bound
-- among all that the MemTable, the immutable MemTables and the tables hold; a tombstone, like the
-- absence of a version, answers ErrNotFound.
pub get_at-newest :
    (k : Bytes) (s : ℕ) (e : Engine)
    → IsReadable e
    → e.closed ≡ false
    → is_empty k ≡ false
    → get_at k s e ≡ answer (newest k s (versions e))
unfolding get_at
get_at-newest k s e r c n =
    rw (n, c)
      (ap answer (
        tables-better k s _ e.tables
        ∙ ap (λ b. better b (newest k s (table_versions e.tables)))
            (imm-better k s _ e.imm r.imm_ordered
              ∙ ap (λ b. better b (newest k s (imm_versions e.imm)))
                  (memtable-better k s none e.mem r.mem_ordered ∙ none-better _))
        ∙ better_assoc (newest k s (build_records e.mem)) (newest k s (imm_versions e.imm))
            (newest k s (table_versions e.tables))
        ∙ ap (better (newest k s (build_records e.mem)))
            (sym (newest-append k s (imm_versions e.imm) (table_versions e.tables)))
        ∙ sym (
            newest-append k s (build_records e.mem)
              (imm_versions e.imm ++ table_versions e.tables))))
