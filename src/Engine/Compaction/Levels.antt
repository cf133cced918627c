-- ===== src/Engine/Compaction/Levels.antt =====
-- The order between the levels, and why a pass that `pickCompactionLocked` plans can be committed.
use flume.Common.{
  ℕ, zero, suc, ◌+◌, ◌-◌, ◌<◌, ◌≤◌, ◌≡◌, ◌≢◌, sym, ◌∙◌, subst, arith, true, false, ◌||◌, List, [],
  ◌∷◌, ◌++◌, ltb, leb, ◌==◌, if◌then◌else◌, All, All-append, inl, inr, ◌⊎◌, Bool-cases, length,
}
use flume.Common.Perm.{All-left, All-right}
use flume.Sstable.{Record}
use flume.Sstable.Merge.Heap.{all_records}
use flume.Sstable.Merge.Retain.{Ascending}
use flume.Engine.{Engine, Config, Table, LeveledTable, build_records}
use flume.Engine.Reads.{imm_versions, table_versions}
use flume.Engine.Flush.{level_tables, plan_into}
use flume.Engine.Compaction.{records_of, remaining, in_snapshot, no_tables_from, is_bottommost}
use flume.Engine.Compaction.Inputs.{DistinctGens, All-zip, AtTwo, two-levels, all_records-append}
use flume.Engine.Compaction.Reads.{Over}

-- A table of a lower level is newer, key by key, than one of a higher level.
abbrev pub LevelOver : LeveledTable → LeveledTable → Type 0
LevelOver t u = Over t.table.records (if ltb t.level u.level then u.table.records else [])

abbrev pub deepest : Config → ℕ
deepest c = if ltb c.max_levels 2 then 1 else c.max_levels - 1

-- What the flushes and the passes before have left.
pub record IsLayered (e : Engine) : Type 0 where
  pub gens : DistinctGens e.tables
  pub sorted : All (λ (t : LeveledTable). Ascending t.table.records) e.tables
  pub memory_over : Over (build_records e.mem) (table_versions e.tables)
  pub imm_over : Over (imm_versions e.imm) (table_versions e.tables)
  pub levels : All (λ (t : LeveledTable). All (LevelOver t) e.tables) e.tables
  pub bounded : All (λ (t : LeveledTable). t.level ≤ deepest e.config) e.tables
  pub triggers : 0 < e.config.l0_compaction_trigger

module _ (x : Record) where
  abbrev pub NewerThan : Record → Type 0
  NewerThan y = x.key ≡ y.key → y.seq < x.seq

pub Over-append : (xs ys zs : List Record) → Over xs ys → Over xs zs → Over xs (ys ++ zs)
Over-append [] ys zs h k = tt
Over-append (x ∷ xs) ys zs h k =
    (All-append (NewerThan x) ys zs h.0 k.0, Over-append xs ys zs h.1 k.1)

pub Over-nil : (xs : List Record) → Over xs []
Over-nil [] = tt
Over-nil (x ∷ xs) = (tt, Over-nil xs)

pub Over-left : (xs ys zs : List Record) → Over xs (ys ++ zs) → Over xs ys
Over-left [] ys zs h = tt
Over-left (x ∷ xs) ys zs h = (All-left (NewerThan x) ys zs h.0, Over-left xs ys zs h.1)

pub Over-right : (xs ys zs : List Record) → Over xs (ys ++ zs) → Over xs zs
Over-right [] ys zs h = tt
Over-right (x ∷ xs) ys zs h = (All-right (NewerThan x) ys zs h.0, Over-right xs ys zs h.1)

-- What is over all tables is over those of a level.
Over-level :
    (xs : List Record) (a : ℕ) (ts : List LeveledTable)
    → Over xs (table_versions ts)
    → Over xs (all_records (records_of (level_tables a ts)))
unfolding level_tables
Over-level xs a [] h = h
Over-level xs a (t ∷ ts) h =
    let rest = Over-level xs a ts (Over-right xs t.table.records (table_versions ts) h) in
    elim (Bool-cases (t.level == a)) [
      | inl e ↦
          rw (e, level_tables)
            (Over-append xs t.table.records (all_records (records_of (level_tables a ts)))
              (Over-left xs t.table.records (table_versions ts) h) rest)
      | inr e ↦ rw (e, level_tables) rest
    ]

-- A table is over those of a higher level.
pub table-Over :
    (t : LeveledTable) (a : ℕ) (ts : List LeveledTable)
    → t.level < a
    → All (LevelOver t) ts
    → Over t.table.records (all_records (records_of (level_tables a ts)))
unfolding level_tables
table-Over t a [] lt h = Over-nil t.table.records
table-Over t a (u ∷ ts) lt h = elim (Bool-cases (u.level == a)) [
  | inl e ↦
      rw (e, level_tables)
        (Over-append t.table.records u.table.records (all_records (records_of (level_tables a ts)))
          (subst (λ b. Over t.table.records (if b then u.table.records else [])) (below e) h.0)
          (table-Over t a ts lt h.1))
  | inr e ↦ rw (e, level_tables) (table-Over t a ts lt h.1)
]
  where
    below : (u.level == a) ≡ true → ltb t.level u.level ≡ true
    below e = ground arith

-- Where the loop finds no table, there is none.
no_level :
    (a : ℕ) (ts : List LeveledTable)
    → leb 1 (length (level_tables a ts)) ≡ false
    → All (λ (t : LeveledTable). t.level ≢ a) ts
unfolding level_tables
no_level a [] h = tt
no_level a (t ∷ ts) h = elim (Bool-cases (t.level == a)) [
  | inl e ↦ absurd (ground (arith, rw (e, level_tables) at h))
  | inr e ↦ (ground arith, no_level a ts (rw (e, level_tables) at h))
]

abbrev Outside : ℕ → ℕ → LeveledTable → Type 0
Outside n a t = (t.level < a) ⊎ (a + n ≤ t.level)

no_tables-Outside :
    (n a : ℕ) (ts : List LeveledTable) → no_tables_from n a ts ≡ true → All (Outside n a) ts
unfolding no_tables_from
no_tables-Outside zero a ts h = everywhere ts
  where
    everywhere : (ts : List LeveledTable) → All (Outside 0 a) ts
    everywhere [] = tt
    everywhere (t ∷ ts) = (omega arith, everywhere ts)
no_tables-Outside (suc n) a ts h = elim (Bool-cases (leb 1 (length (level_tables a ts)))) [
  | inl e ↦ cc (rw (e, no_tables_from) at h)
  | inr e ↦
      All-zip (λ (t : LeveledTable). t.level ≢ a) (Outside n (a + 1)) (Outside (suc n) a) ts
        (λ t p q. wider t p q) (no_level a ts e)
        (no_tables-Outside n (a + 1) ts (rw (e, no_tables_from) at h))
]
  where
    wider : (t : LeveledTable) → t.level ≢ a → Outside n (a + 1) t → Outside (suc n) a t
    wider t p (inl q) = inl (omega (arith, p, q))
    wider t p (inr q) = inr (omega (arith, q))

-- What stays of the list is over the inputs, if each table is an input or over them.
remaining-Over :
    (inputs : List Table) (xs : List Record) (ts : List LeveledTable)
    → All (λ (t : LeveledTable). (in_snapshot inputs t.table ≡ true) ⊎ Over t.table.records xs) ts
    → Over (table_versions (remaining inputs ts)) xs
unfolding remaining
remaining-Over inputs xs [] h = tt
remaining-Over inputs xs (t ∷ ts) h = elim (Bool-cases (in_snapshot inputs t.table)) [
  | inl e ↦ rw (e, remaining) (remaining-Over inputs xs ts h.1)
  | inr e ↦
      rw (e, remaining)
        (All-append (λ (x : Record). All (NewerThan x) xs) t.table.records
          (table_versions (remaining inputs ts)) (stays e h.0) (remaining-Over inputs xs ts h.1))
]
  where
    stays :
        in_snapshot inputs t.table ≡ false
        → (in_snapshot inputs t.table ≡ true) ⊎ Over t.table.records xs
        → Over t.table.records xs
    stays e (inl p) = absurd (ground (arith, e, p))
    stays e (inr o) = o

module _ (e : Engine) (a : ℕ) (l : IsLayered e) where
  abbrev merging : List Record
  merging = all_records (records_of (plan_into e a).inputs)

  into_merging :
      (xs : List Record)
      → Over xs (all_records (records_of (level_tables a e.tables)))
      → Over xs (all_records (records_of (level_tables (a + 1) e.tables)))
      → Over xs merging
  into_merging xs p q =
      subst (Over xs)
        (sym (all_records-append (level_tables a e.tables) (level_tables (a + 1) e.tables)))
        (Over-append xs (all_records (records_of (level_tables a e.tables)))
          (all_records (records_of (level_tables (a + 1) e.tables))) p q)

  -- In a bottommost pass every table that is not an input is of a lower level.
  stays-Over :
      (t : LeveledTable)
      → AtTwo a (plan_into e a).inputs t
      → Outside (e.config.max_levels - (a + 1 + 1)) (a + 1 + 1) t
      → t.level ≤ deepest e.config
      → All (LevelOver t) e.tables
      → (in_snapshot (plan_into e a).inputs t.table ≡ true) ⊎ Over t.table.records merging
  stays-Over t two out deep over = elim (Bool-cases (ltb t.level a)) [
    | inl lt ↦ inr (
        into_merging t.table.records (table-Over t a e.tables (ground arith) over)
          (table-Over t (a + 1) e.tables (ground arith) over))
    | inr ge ↦ inl (two ∙ at_one ge out)
  ]
    where
      at_one :
          ltb t.level a ≡ false
          → Outside (e.config.max_levels - (a + 1 + 1)) (a + 1 + 1) t
          → ((t.level == a) || (t.level == a + 1)) ≡ true
      at_one ge (inl q) = ground arith
      at_one ge (inr q) = absurd (ground (arith, deep))

  memory-Over : Over (build_records e.mem) merging
  memory-Over =
      into_merging (build_records e.mem) (Over-level (build_records e.mem) a e.tables l.memory_over)
        (Over-level (build_records e.mem) (a + 1) e.tables l.memory_over)

  imm-Over : Over (imm_versions e.imm) merging
  imm-Over =
      into_merging (imm_versions e.imm) (Over-level (imm_versions e.imm) a e.tables l.imm_over)
        (Over-level (imm_versions e.imm) (a + 1) e.tables l.imm_over)

  all_stay :
      (ts : List LeveledTable)
      → All (AtTwo a (plan_into e a).inputs) ts
      → All (Outside (e.config.max_levels - (a + 1 + 1)) (a + 1 + 1)) ts
      → All (λ (t : LeveledTable). t.level ≤ deepest e.config) ts
      → All (λ (t : LeveledTable). All (LevelOver t) e.tables) ts
      → All
          (λ (t : LeveledTable).
            (in_snapshot (plan_into e a).inputs t.table ≡ true) ⊎ Over t.table.records merging)
          ts
  all_stay [] w o d v = tt
  all_stay (t ∷ ts) w o d v = (stays-Over t w.0 o.0 d.0 v.0, all_stay ts w.1 o.1 d.1 v.1)

  -- In a bottommost pass all that stays is newer, key by key, than what is merged.
  pub bottommost-Over :
      is_bottommost e (a + 1) ≡ true
      → Over
          (build_records e.mem
            ++ (imm_versions e.imm ++ table_versions (remaining (plan_into e a).inputs e.tables)))
          merging
  unfolding is_bottommost
  bottommost-Over b =
      let newer : Record → Type 0 = λ x. All (NewerThan x) merging in
      All-append newer (build_records e.mem) _ memory-Over (
        All-append newer (imm_versions e.imm) _ imm-Over (
          remaining-Over (plan_into e a).inputs merging e.tables (
            all_stay e.tables (two-levels a e.tables l.gens)
              (no_tables-Outside (e.config.max_levels - (a + 1 + 1)) (a + 1 + 1) e.tables b)
              l.bounded l.levels)))
