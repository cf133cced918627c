-- ===== src/Engine/Close/Drain.antt =====
-- What is in the tables after a Close whose files can be written.
use flume.Common.{
  ℕ, ◌≡◌, ◌≢◌, refl, sym, ap, ◌∙◌, subst, arith, List, [], ◌∷◌, ◌++◌, map, append_assoc, some, ltb,
  length, All, Bool-cases, inl, inr, Result, ok, err,
}
use flume.Common.Perm.{of_eq}
use mathlib.Core.List.Permᴰ
use mathlib.Core.List.{Permᴰ}
use flume.Skiplist.{Kv}
use flume.Memtable.{Entry}
use flume.Sstable.{Record}
use flume.Engine.{record_of, Engine, ImmEntry, Table, LeveledTable, next_gen, build_records}
use flume.Engine.Reads.{IsOrdered, imm_versions, table_versions}
use flume.Engine.Flush.{do_flush, flush_next, remove_imm, write_table, maybe_trigger_compaction}
use flume.Engine.Flush.Reads.{table_versions-snoc, written_table}
use flume.Engine.Close.{drain, flush_last, insert_by_gen, sort_by_gen}

-- A MemTable that can be written: in order, and not empty.
pub record IsFlushable (i : ImmEntry) : Type 0 where
  pub ordered : IsOrdered i.mt
  pub filled : i.mt.skl ≢ []

abbrev table_of : ImmEntry → ℕ → ℕ → LeveledTable
table_of job size gen = record {
  level = 0;
  table = record { gen = gen; records = build_records job.mt; size_bytes = size };
}

abbrev moved_on : ImmEntry → List ImmEntry → ℕ → Engine → Engine
moved_on job rest size e = record e {
  queue = rest;
  gen_counter = next_gen e;
  tables = e.tables ++ table_of job size (next_gen e) ∷ [];
  imm = rest;
}

remove_first : (job : ImmEntry) (rest : List ImmEntry) → remove_imm job (job ∷ rest) ≡ rest
unfolding remove_imm
remove_first job rest = ground arith

pub flush_next_first :
    (size : ℕ) (e : Engine) (job : ImmEntry) (rest : List ImmEntry)
    → e.imm ≡ job ∷ rest
    → e.queue ≡ job ∷ rest
    → IsFlushable job
    → flush_next (some size) e ≡ maybe_trigger_compaction (moved_on job rest size e)
unfolding flush_next do_flush maybe_trigger_compaction build_records
flush_next_first size e job rest i q f =
    ap turn q
    ∙ ap installed (written_table size (next_gen e) job.mt.skl f.ordered f.filled)
    ∙ ap with_imm (ap (remove_imm job) i ∙ remove_first job rest)
  where
    turn : List ImmEntry → Engine
    turn q = elim q [ [] ↦ e | job ∷ jobs ↦ do_flush (some size) job (record e { queue = jobs }) ]

    installed : Result Table → Engine
    installed t = elim t [
      | err x ↦ record e { queue = rest; gen_counter = next_gen e }
      | ok table ↦ maybe_trigger_compaction (record e {
        queue = rest;
        gen_counter = next_gen e;
        tables = e.tables ++ record { level = 0; table = table } ∷ [];
        imm = remove_imm job e.imm;
      })
    ]

    with_imm : List ImmEntry → Engine
    with_imm is = maybe_trigger_compaction (record e {
      queue = rest;
      gen_counter = next_gen e;
      tables = e.tables ++ table_of job size (next_gen e) ∷ [];
      imm = is;
    })

-- What the flush worker leaves when it ends.
pub record Drained (e e' : Engine) : Type 0 where
  pub gone : e'.imm ≡ []
  pub mem : e'.mem ≡ e.mem
  pub held : Permᴰ (imm_versions e.imm ++ table_versions e.tables) (table_versions e'.tables)

pub drain-Drained :
    (sizes : ℕ → ℕ) (js : List ImmEntry) (e : Engine)
    → e.imm ≡ js
    → e.queue ≡ js
    → All IsFlushable js
    → Drained e (drain (λ g. some (sizes g)) (length js) e)
unfolding drain maybe_trigger_compaction
drain-Drained sizes [] e i q f = record {
  gone = i;
  mem = refl;
  held = of_eq (ap (λ is. imm_versions is ++ table_versions e.tables) i);
}
drain-Drained sizes (job ∷ js) e i q f =
    let size = sizes (next_gen e) in
    subst (λ x. Drained e (drain (λ g. some (sizes g)) (length js) x))
      (sym (flush_next_first size e job js i q f.0))
      (onwards _ size (drain-Drained sizes js _ refl refl f.1))
  where
    onwards :
        (e' : Engine) (size : ℕ)
        → Drained (maybe_trigger_compaction (moved_on job js size e)) e'
        → Drained e e'
    onwards e' size d = record {
      gone = d.gone;
      mem = d.mem;
      held =
          Permᴰ.trans
            (of_eq (
              ap (λ is. imm_versions is ++ table_versions e.tables) i
              ∙ append_assoc (imm_versions js) (build_records job.mt) (table_versions e.tables)))
            (Permᴰ.trans
              (Permᴰ.append_left (imm_versions js)
                (Permᴰ.append_comm (build_records job.mt) (table_versions e.tables)))
              (Permᴰ.trans
                (of_eq (
                  ap (λ l. imm_versions js ++ l)
                    (sym (table_versions-snoc e.tables (table_of job size (next_gen e))))))
                d.held));
    }

-- A list of tables in the order of the directory holds the same versions.
insert_by_gen-perm :
    (t : LeveledTable) (ts : List LeveledTable)
    → Permᴰ (t.table.records ++ table_versions ts) (table_versions (insert_by_gen t ts))
unfolding insert_by_gen
insert_by_gen-perm t [] = Permᴰ.refl _
insert_by_gen-perm t (u ∷ us) = elim (Bool-cases (ltb u.table.gen t.table.gen)) [
  | inl p ↦
      rw (p, insert_by_gen)
        (Permᴰ.trans (swapped t.table.records u.table.records (table_versions us))
          (Permᴰ.append_left u.table.records (insert_by_gen-perm t us)))
  | inr p ↦ rw (p, insert_by_gen) (Permᴰ.refl _)
]
  where
    swapped : (xs ys zs : List Record) → Permᴰ (xs ++ (ys ++ zs)) (ys ++ (xs ++ zs))
    swapped xs ys zs = Permᴰ.trans (of_eq (sym (append_assoc xs ys zs))) (
        Permᴰ.trans (Permᴰ.append_right zs (Permᴰ.append_comm xs ys))
          (of_eq (append_assoc ys xs zs)))

pub sort_by_gen-perm :
    (ts : List LeveledTable) → Permᴰ (table_versions ts) (table_versions (sort_by_gen ts))
unfolding sort_by_gen
sort_by_gen-perm [] = Permᴰ.nil
sort_by_gen-perm (t ∷ ts) =
    Permᴰ.trans (Permᴰ.append_left t.table.records (sort_by_gen-perm ts))
      (insert_by_gen-perm t (sort_by_gen ts))

-- What the flush of the active MemTable leaves.
pub record LastFlushed (e : Engine) (p : Result (Unit {0}) × Engine) : Type 0 where
  pub done : p.0 ≡ ok tt
  pub gone : p.1.imm ≡ e.imm
  pub held : Permᴰ (build_records e.mem ++ table_versions e.tables) (table_versions p.1.tables)

pub flush_last-LastFlushed :
    (sizes : ℕ → ℕ) (e : Engine)
    → IsOrdered e.mem
    → LastFlushed e (flush_last (λ g. some (sizes g)) e)
unfolding flush_last build_records
flush_last-LastFlushed sizes e o = by_size e.mem.skl refl
  where
    outcome : List (Kv Entry) → Result Table → Result (Unit {0}) × Engine
    outcome kvs t = elim kvs [
      | [] ↦ (ok tt, e)
      | x ∷ xs ↦ elim t [
        | err x ↦ (err x, record e { gen_counter = next_gen e })
        | ok table ↦ (
          ok tt,
          record e {
            gen_counter = next_gen e;
            tables = e.tables ++ record { level = 0; table = table } ∷ [];
          },
        )
      ]
    ]

    t : Result Table
    t = write_table (some (sizes (next_gen e))) (next_gen e) (build_records e.mem)

    by_size : (kvs : List (Kv Entry)) → e.mem.skl ≡ kvs → LastFlushed e (outcome e.mem.skl t)
    by_size [] p =
        subst (λ l. LastFlushed e (outcome l t)) (sym p)
          (record {
            done = refl;
            gone = refl;
            held = of_eq (ap (λ l. map record_of l ++ table_versions e.tables) p);
          })
    by_size (x ∷ xs) p =
        subst (λ l. LastFlushed e (outcome l t)) (sym p)
          (subst (λ w. LastFlushed e (outcome (x ∷ xs) w))
            (sym (written_table (sizes (next_gen e)) (next_gen e) e.mem.skl o λ n. cc))
            (record {
              done = refl;
              gone = refl;
              held =
                  Permᴰ.trans (Permᴰ.append_comm (build_records e.mem) (table_versions e.tables))
                    (of_eq (sym (table_versions-snoc e.tables _)));
            }))
