-- ===== src/Engine/Flush/Reads.antt =====
-- A flush moves versions from a MemTable to a table: no read notices it.
use flume.Common.{
  ℕ, ◌+◌, ◌%◌, ◌≤◌, ◌≡◌, ◌≢◌, refl, sym, ap, ◌∙◌, subst, arith, true, false, List, [], ◌∷◌, ◌++◌,
  append-nil, append_assoc, map, Option, none, some, ◌==◌, All, inl, inr, ◌⊎◌, Bool-cases, ok,
  Result-cases,
}
use flume.Common.Perm.{All-perm, of_eq}
use mathlib.Core.List.Permᴰ
use mathlib.Core.List.{Permᴰ}
use flume.Bytes.{Bytes}
use flume.Skiplist.{Kv}
use flume.Skiplist.Laws.{Sorted}
use flume.Memtable.{Entry}
use flume.Sstable.{Record, sorted_from, is_sorted, less}
use flume.Sstable.Versions.{newest-perm, Distinct-perm}
use flume.Engine.{
  Engine, ImmEntry, Table, LeveledTable, next_gen, record_of, build_records, get_at, answer,
  is_empty,
}
use flume.Engine.Reads.{
  IsReadable, IsOrdered, versions, imm_versions, table_versions, get_at-newest,
}
use flume.Engine.Writes.{IsStore}
use flume.Engine.Flush.{write_table, remove_imm, maybe_trigger_compaction, do_flush}

-- The job's MemTable is among the immutable ones, and the first with its log.
abbrev pub Waiting : ImmEntry → List ImmEntry → Type 0
Waiting job [] = ⊥
Waiting job (i ∷ is) = (i ≡ job) ⊎ ((i.log_gen ≢ job.log_gen) × Waiting job is)

same-true : (a b : ℕ) → a ≡ b → (a == b) ≡ true
same-true a b e = ground arith

same-false : (a b : ℕ) → a ≢ b → (a == b) ≡ false
same-false a b e = ground arith

-- The versions of the immutable MemTables are those of the job and those of the rest.
removed :
    (job : ImmEntry) (is : List ImmEntry)
    → Waiting job is
    → Permᴰ (imm_versions is) (imm_versions (remove_imm job is) ++ build_records job.mt)
unfolding remove_imm
removed job [] h = absurd h
removed job (i ∷ is) (inl e) =
    rw (same-true i.log_gen job.log_gen (ap (λ (i : ImmEntry). i.log_gen) e), remove_imm)
      (of_eq (ap (λ (j : ImmEntry). imm_versions is ++ build_records j.mt) e))
removed job (i ∷ is) (inr (n, h)) =
    rw (same-false i.log_gen job.log_gen n, remove_imm)
      (Permᴰ.trans (Permᴰ.append_right (build_records i.mt) (removed job is h)) (
        Permᴰ.trans
          (of_eq (
            append_assoc (imm_versions (remove_imm job is)) (build_records job.mt)
              (build_records i.mt)))
          (Permᴰ.trans
            (Permᴰ.append_left (imm_versions (remove_imm job is))
              (Permᴰ.append_comm (build_records job.mt) (build_records i.mt)))
            (of_eq (
              sym (
                append_assoc (imm_versions (remove_imm job is)) (build_records i.mt)
                  (build_records job.mt)))))))

removed-All :
    (P : ImmEntry → Type 0) (job : ImmEntry) (is : List ImmEntry)
    → All P is
    → All P (remove_imm job is)
unfolding remove_imm
removed-All P job [] h = tt
removed-All P job (i ∷ is) h = elim (Bool-cases (i.log_gen == job.log_gen)) [
  | inl e ↦ rw (e, remove_imm) h.1
  | inr e ↦ rw (e, remove_imm) (h.0, removed-All P job is h.1)
]

pub table_versions-snoc :
    (ts : List LeveledTable) (t : LeveledTable)
    → table_versions (ts ++ t ∷ []) ≡ table_versions ts ++ t.table.records
table_versions-snoc [] t = append-nil t.table.records
table_versions-snoc (u ∷ ts) t =
    ap (λ l. u.table.records ++ l) (table_versions-snoc ts t)
    ∙ sym (append_assoc u.table.records (table_versions ts) t.table.records)

-- A table that was written holds the records that it was given.
write_table-records :
    (disk : Option ℕ) (gen : ℕ) (rs : List Record) (t : Table)
    → write_table disk gen rs ≡ ok t
    → t.records ≡ rs
unfolding write_table
write_table-records none gen rs t h = ground arith
write_table-records (some n) gen rs t h = ground arith

-- What a flush leaves as it was.
pub record SameStore (e e' : Engine) : Type 0 where
  pub same : Permᴰ (versions e) (versions e')
  pub readable : IsReadable e → IsReadable e'
  pub seq : e'.seq ≡ e.seq
  pub closed : e'.closed ≡ e.closed

moved :
    (mem is is' ts new : List Record)
    → Permᴰ is (is' ++ new)
    → Permᴰ (mem ++ (is ++ ts)) (mem ++ (is' ++ (ts ++ new)))
moved mem is is' ts new p = Permᴰ.append_left mem (
    Permᴰ.trans (Permᴰ.append_right ts p) (
      Permᴰ.trans (of_eq (append_assoc is' new ts))
        (Permᴰ.append_left is' (Permᴰ.append_comm new ts))))

pub do_flush-SameStore :
    (disk : Option ℕ) (job : ImmEntry) (e : Engine)
    → Waiting job e.imm
    → SameStore e (do_flush disk job e)
unfolding do_flush maybe_trigger_compaction
do_flush-SameStore disk job e h =
    elim (Result-cases
      (write_table disk ((e.gen_counter + 1) % 18446744073709551616) (build_records job.mt))) [
        | inl (t, w) ↦
            rw (w, do_flush)
              (record {
                same =
                    Permᴰ.trans
                      (moved (build_records e.mem) (imm_versions e.imm)
                        (imm_versions (remove_imm job e.imm)) (table_versions e.tables)
                        (build_records job.mt) (removed job e.imm h))
                      (of_eq (
                        ap (λ l. build_records e.mem ++ (imm_versions (remove_imm job e.imm) ++ l))
                          (ap (λ l. table_versions e.tables ++ l)
                              (sym (write_table-records disk _ (build_records job.mt) t w))
                            ∙ sym
                                (table_versions-snoc e.tables (record { level = 0; table = t })))));
                readable = λ r. record {
                  mem_ordered = r.mem_ordered;
                  imm_ordered =
                      removed-All (λ (i : ImmEntry). IsOrdered i.mt) job e.imm r.imm_ordered;
                };
                seq = refl;
                closed = refl;
              })
        | inr (x, w) ↦
            rw (w, do_flush)
              (record {
                same = Permᴰ.refl (versions e);
                readable = λ r. record { mem_ordered = r.mem_ordered; imm_ordered = r.imm_ordered };
                seq = refl;
                closed = refl;
              })
      ]

-- Stores with the same versions answer every read the same way.
pub SameStore-get_at :
    (e e' : Engine)
    → SameStore e e'
    → IsStore e
    → e.closed ≡ false
    → (k : Bytes) (s : ℕ) → is_empty k ≡ false
    → get_at k s e' ≡ get_at k s e
SameStore-get_at e e' h i c k s n =
    get_at-newest k s e' (h.readable i.readable) (h.closed ∙ c) n
    ∙ ap answer (sym (newest-perm k s h.same i.distinct))
    ∙ sym (get_at-newest k s e i.readable c n)

pub SameStore-IsStore : (e e' : Engine) → SameStore e e' → IsStore e → IsStore e'
SameStore-IsStore e e' h i = record {
  readable = h.readable i.readable;
  given_out =
      subst (λ s. All (λ (r : Record). r.seq ≤ s) (versions e')) (sym h.seq)
        (All-perm (λ (r : Record). r.seq ≤ e.seq) h.same i.given_out);
  distinct = Distinct-perm h.same i.distinct;
}

-- In an open store with its invariant the flush of a waiting MemTable, whether it succeeds or fails at
-- the file system, changes no read of a key at any bound.
pub flush-get :
    (disk : Option ℕ) (job : ImmEntry) (e : Engine)
    → IsStore e
    → e.closed ≡ false
    → Waiting job e.imm
    → (k : Bytes) (s : ℕ) → is_empty k ≡ false
    → get_at k s (do_flush disk job e) ≡ get_at k s e
flush-get disk job e i c h =
    SameStore-get_at e (do_flush disk job e) (do_flush-SameStore disk job e h) i c

-- The flush of a waiting MemTable, whether it succeeds or fails, keeps the store's invariant.
pub flush-IsStore :
    (disk : Option ℕ) (job : ImmEntry) (e : Engine)
    → IsStore e
    → Waiting job e.imm
    → IsStore (do_flush disk job e)
flush-IsStore disk job e i h =
    SameStore-IsStore e (do_flush disk job e) (do_flush-SameStore disk job e h) i

-- An ordered MemTable gives records in the order that `Write` wants.
sorted_from-ordered :
    (x : Kv Entry) (kvs : List (Kv Entry))
    → Sorted (x ∷ kvs)
    → sorted_from (record_of x) (map record_of kvs) ≡ true
unfolding sorted_from less
sorted_from-ordered x [] h = refl
sorted_from-ordered x (y ∷ kvs) h = rw (h.0.0, sorted_from, less) (sorted_from-ordered y kvs h.1)

pub written_table :
    (size gen : ℕ) (kvs : List (Kv Entry))
    → Sorted kvs
    → kvs ≢ []
    → write_table (some size) gen (map record_of kvs)
      ≡ ok (record { gen = gen; records = map record_of kvs; size_bytes = size })
unfolding write_table is_sorted
written_table size gen [] o n = absurd (n refl)
written_table size gen (x ∷ kvs) o n = rw (sorted_from-ordered x kvs o, write_table) refl

-- If the file system works, the flush of an ordered MemTable that is not empty puts a table of level 0
-- with exactly its records behind the other tables and takes the MemTable from the immutable ones.
pub flush-Succeeds :
    (size : ℕ) (job : ImmEntry) (e : Engine)
    → IsOrdered job.mt
    → job.mt.skl ≢ []
    → ((do_flush (some size) job e).tables
        ≡ e.tables
          ++ record {
            level = 0;
            table = record { gen = next_gen e; records = build_records job.mt; size_bytes = size };
          }
            ∷ [])
      × ((do_flush (some size) job e).imm ≡ remove_imm job e.imm)
unfolding do_flush maybe_trigger_compaction build_records
flush-Succeeds size job e o n =
    rw (written_table size ((e.gen_counter + 1) % 18446744073709551616) job.mt.skl o n, do_flush)
      (refl, refl)
