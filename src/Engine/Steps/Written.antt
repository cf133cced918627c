-- ===== src/Engine/Steps/Written.antt =====
-- A write keeps the order of the store.
use flume.Common.{
  ℕ, ◌+◌, ◌%◌, ◌^◌, ◌<◌, ◌≤◌, ◌≡◌, sym, ap, subst, arith, Bool, false, List, [], ◌∷◌, ◌++◌, map,
  ltb, leb, if◌then◌else◌, All, inl, inr, Bool-cases, Result, ok, err, closed, io_error,
}
use flume.Common.Perm.{All-left, All-right, All-imp}
use flume.Bytes.{Bytes}
use flume.Wal.{Wal, append}
use flume.Sstable.{Record}
use flume.Engine.{
  Engine, LeveledTable, Weather, full_pair, record_of, build_records, rotate, apply_write,
  write_memtable, write,
}
use flume.Engine.Reads.{imm_versions, table_versions}
use flume.Engine.Writes.{older, written, skl-apply_write, imm_versions-snoc}
use flume.Engine.PutGet.{Logged, next_seq, write-IsStore, write-closed}
use flume.Engine.Compaction.Reads.{Over}
use flume.Engine.Steps.{IsArranged, IsSound}
use flume.Engine.Steps.Order.{insert-Over, Over-join, ImmOrder-snoc}

rotate-IsArranged :
    (b : Bool) (e : Engine) → e.gen_counter + 1 < 2 ^ 64 → IsArranged e → IsArranged (rotate b e).1
unfolding rotate build_records
rotate-IsArranged b e n a = elim (Bool-cases (ltb e.mem.size e.config.flush_threshold)) [
  | inl h ↦ rw (h, rotate) a
  | inr h ↦ elim (Bool-cases b) [
    | inl o ↦
        rw (h, o, rotate)
          (record {
            layered = record {
              gens = a.layered.gens;
              sorted = a.layered.sorted;
              memory_over = tt;
              imm_over =
                  subst (λ l. Over l (table_versions e.tables))
                    (sym (imm_versions-snoc e.imm (full_pair e)))
                    (Over-join (build_records e.mem) (imm_versions e.imm) (table_versions e.tables)
                      a.layered.memory_over a.layered.imm_over);
              levels = a.layered.levels;
              bounded = a.layered.bounded;
              triggers = a.layered.triggers;
            };
            mem_over = tt;
            imm_order = ImmOrder-snoc e.imm (full_pair e) a.imm_order a.mem_over;
            fifo = ap (λ l. l ++ full_pair e ∷ []) a.fifo;
            known = later;
          })
    | inr o ↦
        rw (h, o, rotate)
          (record {
            layered = record {
              gens = a.layered.gens;
              sorted = a.layered.sorted;
              memory_over = a.layered.memory_over;
              imm_over = a.layered.imm_over;
              levels = a.layered.levels;
              bounded = a.layered.bounded;
              triggers = a.layered.triggers;
            };
            mem_over = a.mem_over;
            imm_order = a.imm_order;
            fifo = a.fifo;
            known = later;
          })
  ]
]
  where
    later :
        All
          (λ (t : LeveledTable). t.table.gen ≤ (e.gen_counter + 1) % 18446744073709551616)
          e.tables
    later =
        All-imp (λ (t : LeveledTable). t.table.gen ≤ e.gen_counter)
          (λ t. t.table.gen ≤ (e.gen_counter + 1) % 18446744073709551616) e.tables
          (λ t p. omega arith) a.known

-- The state between the MemTable's write and the rotation.
put-IsArranged :
    (e : Engine) (w : Wal) (k v : Bytes) (type n : ℕ)
    → All (λ (x : Record). x.seq < n) (older e)
    → IsArranged e
    → IsArranged (record e { seq = n; log = w; mem = apply_write e.mem k v type n })
unfolding build_records
put-IsArranged e w k v type n new a = record {
  layered = record {
    gens = a.layered.gens;
    sorted = a.layered.sorted;
    memory_over =
        over (table_versions e.tables)
          (All-right below (imm_versions e.imm) (table_versions e.tables) new)
          a.layered.memory_over;
    imm_over = a.layered.imm_over;
    levels = a.layered.levels;
    bounded = a.layered.bounded;
    triggers = a.layered.triggers;
  };
  mem_over =
      over (imm_versions e.imm) (All-left below (imm_versions e.imm) (table_versions e.tables) new)
        a.mem_over;
  imm_order = a.imm_order;
  fifo = a.fifo;
  known = a.known;
}
  where
    below : Record → Type 0
    below x = x.seq < n

    over :
        (zs : List Record)
        → All below zs
        → Over (map record_of e.mem.skl) zs
        → Over (map record_of (apply_write e.mem k v type n).skl) zs
    over zs lt h =
        subst (λ l. Over (map record_of l) zs) (sym (skl-apply_write e.mem k v type n))
          (insert-Over (written k v type n) e.mem.skl zs lt h)

write_memtable-IsArranged :
    (w : Weather) (k v : Bytes) (type : ℕ) (e : Engine)
    → e.gen_counter + 1 < 2 ^ 64
    → IsArranged (record e { mem = apply_write e.mem k v type e.seq })
    → IsArranged (write_memtable w k v type e).1
unfolding write_memtable
write_memtable-IsArranged w k v type e n a =
    elim (Bool-cases (leb e.config.flush_threshold (apply_write e.mem k v type e.seq).size)) [
      | inl f ↦ rw (f, write_memtable) (rotate-IsArranged w.log_opens _ n a)
      | inr f ↦ rw (f, write_memtable) a
    ]

write-IsArranged :
    (w : Weather) (k v : Bytes) (type : ℕ) (e : Engine)
    → e.closed ≡ false
    → Logged w k v type e
    → e.gen_counter + 1 < 2 ^ 64
    → All (λ (x : Record). x.seq < next_seq e) (older e)
    → IsArranged e
    → IsArranged (write w k v type e).1
unfolding write
write-IsArranged w k v type e c l n new a =
    subst (λ b. IsArranged (outcome b p.0).1) (sym c)
      (subst (λ o. IsArranged (outcome false o).1) (sym l)
        (write_memtable-IsArranged w k v type e' n
          (put-IsArranged e p.1 k v type (next_seq e) new a)))
  where
    p : Result (Unit {0}) × Wal
    p = append w.disk e.log (record { type = type; key = k; value = v; seq = next_seq e })

    e' : Engine
    e' = record e { seq = next_seq e; log = p.1 }

    outcome : Bool → Result (Unit {0}) → Result (Unit {0}) × Engine
    outcome b o =
        if b
        then (err closed, e)
        else elim o [ err x ↦ (err io_error, e') | ok u ↦ write_memtable w k v type e' ]

-- A write that the log took keeps a sound store sound, as long as sequence numbers and generations are
-- not used up.
pub write-IsSound :
    (w : Weather) (k v : Bytes) (type : ℕ) (e : Engine)
    → IsSound e
    → Logged w k v type e
    → e.seq + 1 < 2 ^ 64
    → e.gen_counter + 1 < 2 ^ 64
    → IsSound (write w k v type e).1
write-IsSound w k v type e s l n g = record {
  store = write-IsStore w k v type e s.store s.open_still l n;
  arranged =
      write-IsArranged w k v type e s.open_still l g
        (All-imp (λ (x : Record). x.seq ≤ e.seq) (λ x. x.seq < next_seq e) (older e)
          (λ x p. omega arith)
          (All-right (λ (x : Record). x.seq ≤ e.seq) (build_records e.mem) (older e)
            s.store.given_out))
        s.arranged;
  open_still = write-closed w k v type e s.store.readable s.open_still l;
}
