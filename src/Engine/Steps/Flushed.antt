-- ===== src/Engine/Steps/Flushed.antt =====
-- A flush of the oldest MemTable keeps the order of the store.
use flume.Common.{
  ℕ, ◌+◌, ◌^◌, ◌<◌, ◌≤◌, ◌≡◌, ◌≢◌, refl, sym, ap, ◌∙◌, subst, arith, Bool, true, false, List, [],
  ◌∷◌, ◌++◌, map, some, ltb, ◌==◌, if◌then◌else◌, All, All-append, inl, inr, ◌⊎◌, Bool-cases,
  Result, ok, err,
}
use flume.Common.Perm.{All-imp}
use flume.Skiplist.{Kv}
use flume.Skiplist.Laws.{Sorted}
use flume.Memtable.{Entry}
use flume.Bytes.{Bytes, KeyLt}
use flume.Sstable.{Record, less}
use flume.Sstable.Merge.Retain.{Ascending}
use flume.Engine.{
  Engine, ImmEntry, Table, LeveledTable, record_of, build_records, next_gen, get_at, is_empty,
}
use flume.Engine.Reads.{IsOrdered, imm_versions, table_versions}
use flume.Engine.Writes.{IsStore}
use flume.Engine.Flush.{do_flush, flush_next, remove_imm, write_table, maybe_trigger_compaction}
use flume.Engine.Flush.Reads.{
  Waiting, do_flush-SameStore, flush-get, flush-IsStore, table_versions-snoc, written_table,
}
use flume.Engine.Compaction.Inputs.{NotGen, DistinctGens}
use flume.Engine.Compaction.Reads.{Over}
use flume.Engine.Compaction.Levels.{
  LevelOver, deepest, Over-append, Over-nil, Over-left, Over-right,
}
use flume.Engine.Steps.{ImmOrder, IsArranged, IsSound}
use flume.Engine.Steps.Order.{Over-first, Over-rest}

-- An ordered MemTable is written in ascending order.
ordered-All :
    (x : Kv Entry) (kvs : List (Kv Entry))
    → All (λ (y : Kv Entry). KeyLt x.key y.key) kvs
    → All (λ (r : Record). less (record_of x) r ≡ true) (map record_of kvs)
unfolding less
ordered-All x [] h = tt
ordered-All x (y ∷ kvs) h = (rw (h.0, less) refl, ordered-All x kvs h.1)

ordered-Ascending : (kvs : List (Kv Entry)) → Sorted kvs → Ascending (map record_of kvs)
ordered-Ascending [] h = tt
ordered-Ascending (x ∷ kvs) h = (ordered-All x kvs h.0, ordered-Ascending kvs h.1)

-- A new generation is not any of those below the counter.
pub fresh :
    (g n : ℕ) (ts : List LeveledTable)
    → n < g
    → All (λ (t : LeveledTable). t.table.gen ≤ n) ts
    → All (NotGen g) ts
fresh g n ts lt h =
    All-imp (λ (t : LeveledTable). t.table.gen ≤ n) (NotGen g) ts (λ t p e. omega arith) h

pub DistinctGens-snoc :
    (ts : List LeveledTable) (t : LeveledTable)
    → DistinctGens ts
    → All (NotGen t.table.gen) ts
    → DistinctGens (ts ++ t ∷ [])
DistinctGens-snoc [] t d n = (tt, tt)
DistinctGens-snoc (u ∷ ts) t d n = (
  All-append (NotGen u.table.gen) ts (t ∷ []) d.0 ((λ e. n.0 (sym e)), tt),
  DistinctGens-snoc ts t d.1 n.1,
)

-- The order of the levels with one more table.
pub levels-snoc :
    (t : LeveledTable) (us ts : List LeveledTable)
    → All (λ (u : LeveledTable). All (LevelOver u) ts) us
    → All (λ (u : LeveledTable). LevelOver u t) us
    → All (λ (u : LeveledTable). All (LevelOver u) (ts ++ t ∷ [])) us
levels-snoc t [] ts h n = tt
levels-snoc t (u ∷ us) ts h n =
    (All-append (LevelOver u) ts (t ∷ []) h.0 (n.0, tt), levels-snoc t us ts h.1 n.1)

-- No table is of a level below 0, and a table of level 0 is over those of higher levels.
none_below :
    (t : LeveledTable)
    → t.level ≡ 0
    → (us : List LeveledTable) → All (λ (u : LeveledTable). LevelOver u t) us
none_below t z [] = tt
none_below t z (u ∷ us) = (
  subst (λ b. Over u.table.records (if b then t.table.records else [])) (sym not_below)
      (Over-nil u.table.records),
  none_below t z us,
)
  where
    not_below : ltb u.level t.level ≡ false
    not_below = ground arith

Over-each :
    (t : LeveledTable) (us : List LeveledTable)
    → Over t.table.records (table_versions us)
    → All (LevelOver t) us
Over-each t [] h = tt
Over-each t (u ∷ us) h = (
  one (Bool-cases (ltb t.level u.level)),
  Over-each t us (Over-right t.table.records u.table.records (table_versions us) h),
)
  where
    one : (ltb t.level u.level ≡ true) ⊎ (ltb t.level u.level ≡ false) → LevelOver t u
    one (inl e) =
        subst (λ b. Over t.table.records (if b then u.table.records else [])) (sym e)
          (Over-left t.table.records u.table.records (table_versions us) h)
    one (inr e) =
        subst (λ b. Over t.table.records (if b then u.table.records else [])) (sym e)
          (Over-nil t.table.records)

module _ (size : ℕ) (e : Engine) (job : ImmEntry) (rest : List ImmEntry) (o : IsOrdered job.mt)
    (n : job.mt.skl ≢ []) (head : e.imm ≡ job ∷ rest) where
  abbrev flushed : LeveledTable
  flushed = record {
    level = 0;
    table = record { gen = next_gen e; records = build_records job.mt; size_bytes = size };
  }

  -- What a flush of the oldest MemTable leaves, but for the request of a compaction.
  abbrev after_flush : Bool → Engine
  after_flush requested = record e {
    gen_counter = next_gen e;
    tables = e.tables ++ flushed ∷ [];
    imm = rest;
    queue = rest;
    compact_requested = requested;
  }

  after_flush-IsArranged :
      (b : Bool) → e.gen_counter + 1 < 2 ^ 64 → IsArranged e → IsArranged (after_flush b)
  after_flush-IsArranged b g a =
      let order : ImmOrder (job ∷ rest) = subst ImmOrder head a.imm_order in
      let imm : Over (imm_versions rest ++ build_records job.mt) (table_versions e.tables) =
        subst (λ is. Over (imm_versions is) (table_versions e.tables)) head a.layered.imm_over in
      let mem : Over (build_records e.mem) (imm_versions rest ++ build_records job.mt) =
        subst (λ is. Over (build_records e.mem) (imm_versions is)) head a.mem_over in
      let job_over =
        Over-rest (imm_versions rest) (build_records job.mt) (table_versions e.tables) imm in
      record {
        layered = record {
          gens =
              DistinctGens-snoc e.tables flushed a.layered.gens
                (fresh (next_gen e) e.gen_counter e.tables (omega arith) a.known);
          sorted =
              All-append (λ (t : LeveledTable). Ascending t.table.records) e.tables (flushed ∷ [])
                a.layered.sorted (unfold build_records in ordered-Ascending job.mt.skl o, tt);
          memory_over =
              subst (Over (build_records e.mem)) (sym (table_versions-snoc e.tables flushed)) (
                Over-append (build_records e.mem) (table_versions e.tables) (build_records job.mt)
                  a.layered.memory_over
                  (Over-right (build_records e.mem) (imm_versions rest) (build_records job.mt)
                    mem));
          imm_over = subst (Over (imm_versions rest)) (sym (table_versions-snoc e.tables flushed)) (
              Over-append (imm_versions rest) (table_versions e.tables) (build_records job.mt)
                (Over-first (imm_versions rest) (build_records job.mt) (table_versions e.tables)
                  imm)
                order.0);
          levels =
              All-append (λ (u : LeveledTable). All (LevelOver u) (e.tables ++ flushed ∷ []))
                e.tables (flushed ∷ [])
                (levels-snoc flushed e.tables e.tables a.layered.levels
                  (none_below flushed refl e.tables))
                (
                  All-append (LevelOver flushed) e.tables (flushed ∷ [])
                      (Over-each flushed e.tables job_over) (Over-nil (build_records job.mt), tt),
                  tt,
                );
          bounded =
              All-append (λ (t : LeveledTable). t.level ≤ deepest e.config) e.tables (flushed ∷ [])
                a.layered.bounded (omega arith, tt);
          triggers = a.layered.triggers;
        };
        mem_over = Over-left (build_records e.mem) (imm_versions rest) (build_records job.mt) mem;
        imm_order = order.1;
        fifo = refl;
        known =
            All-append (λ (t : LeveledTable). t.table.gen ≤ next_gen e) e.tables (flushed ∷ [])
              (All-imp (λ (t : LeveledTable). t.table.gen ≤ e.gen_counter)
                (λ t. t.table.gen ≤ next_gen e) e.tables (λ t p. omega arith) a.known)
              (omega arith, tt);
      }

  popped : Engine
  popped = record e { queue = rest }

  remove_head : remove_imm job e.imm ≡ rest
  unfolding remove_imm
  remove_head = ap (remove_imm job) head ∙ first
    where
      first : (if job.log_gen == job.log_gen then rest else job ∷ remove_imm job rest) ≡ rest
      first = ground arith

  do_flush-IsArranged :
      e.gen_counter + 1 < 2 ^ 64 → IsArranged e → IsArranged (do_flush (some size) job popped)
  unfolding do_flush maybe_trigger_compaction popped
  do_flush-IsArranged g a =
      subst (λ t. IsArranged (installed t)) (sym written)
        (subst (λ is. IsArranged (maybe_trigger_compaction (with_table flushed is)))
          (sym remove_head) (after_flush-IsArranged _ g a))
    where
      with_table : LeveledTable → List ImmEntry → Engine
      with_table t is = record e {
        queue = rest;
        gen_counter = next_gen e;
        tables = e.tables ++ t ∷ [];
        imm = is;
      }

      installed : Result Table → Engine
      installed t = elim t [
        | err x ↦ record e { queue = rest; gen_counter = next_gen e }
        | ok table ↦
            maybe_trigger_compaction
              (with_table (record { level = 0; table = table }) (remove_imm job e.imm))
      ]

      written :
          write_table (some size) (next_gen e) (build_records job.mt)
          ≡ ok (record { gen = next_gen e; records = build_records job.mt; size_bytes = size })
      written = unfold build_records in written_table size (next_gen e) job.mt.skl o n

  popped-IsStore : IsStore e → IsStore popped
  unfolding popped
  popped-IsStore s = record {
    readable = record {
      mem_ordered = s.readable.mem_ordered;
      imm_ordered = s.readable.imm_ordered;
    };
    given_out = s.given_out;
    distinct = s.distinct;
  }

  waits : Waiting job popped.imm
  unfolding popped
  waits = subst (Waiting job) (sym head) (inl refl)

  do_flush-IsSound :
      e.gen_counter + 1 < 2 ^ 64 → IsSound e → IsSound (do_flush (some size) job popped)
  do_flush-IsSound g s = record {
    store = flush-IsStore (some size) job popped (popped-IsStore s.store) waits;
    arranged = do_flush-IsArranged g s.arranged;
    open_still =
        (do_flush-SameStore (some size) job popped waits).closed ∙ (unfold popped in s.open_still);
  }

-- A turn of the flush worker on a sound store, if the file system works, keeps it sound; its oldest
-- MemTable must not be empty.
pub flush_next-IsSound :
    (size : ℕ) (e : Engine) (job : ImmEntry) (rest : List ImmEntry)
    → IsSound e
    → e.imm ≡ job ∷ rest
    → job.mt.skl ≢ []
    → e.gen_counter + 1 < 2 ^ 64
    → IsSound (flush_next (some size) e)
unfolding flush_next popped
flush_next-IsSound size e job rest s head n g =
    subst (λ q. IsSound (turn q)) (sym (s.arranged.fifo ∙ head))
      (do_flush-IsSound size e job rest ordered n head g s)
  where
    turn : List ImmEntry → Engine
    turn q = elim q [ [] ↦ e | job ∷ jobs ↦ do_flush (some size) job (record e { queue = jobs }) ]

    ordered : IsOrdered job.mt
    ordered = (subst (All (λ (i : ImmEntry). IsOrdered i.mt)) head s.store.readable.imm_ordered).0

-- A turn of the flush worker changes no read.
pub flush_next-get :
    (size : ℕ) (e : Engine) (job : ImmEntry) (rest : List ImmEntry)
    → IsSound e
    → e.imm ≡ job ∷ rest
    → (k : Bytes) (s : ℕ) → is_empty k ≡ false
    → get_at k s (flush_next (some size) e) ≡ get_at k s e
unfolding flush_next get_at
flush_next-get size e job rest s head k b m =
    subst (λ q. get_at k b (turn q) ≡ get_at k b e) (sym (s.arranged.fifo ∙ head))
      (flush-get (some size) job (record e { queue = rest }) popped_store s.open_still
        (subst (Waiting job) (sym head) (inl refl)) k b m)
  where
    turn : List ImmEntry → Engine
    turn q = elim q [ [] ↦ e | job ∷ jobs ↦ do_flush (some size) job (record e { queue = jobs }) ]

    popped_store : IsStore (record e { queue = rest })
    popped_store = record {
      readable = record {
        mem_ordered = s.store.readable.mem_ordered;
        imm_ordered = s.store.readable.imm_ordered;
      };
      given_out = s.store.given_out;
      distinct = s.store.distinct;
    }
