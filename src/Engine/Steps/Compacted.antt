-- ===== src/Engine/Steps/Compacted.antt =====
-- A pass of the compaction worker keeps the order of the store.
use flume.Common.{
  ℕ, ◌+◌, ◌<◌, ◌≤◌, ◌≡◌, sym, ◌∙◌, subst, arith, Bool, true, false, ◌||◌, List, [], ◌∷◌, ◌++◌,
  append-nil, ltb, ◌==◌, if◌then◌else◌, All, All-append, inl, inr, ◌⊎◌, Bool-cases,
}
use flume.Common.Perm.{All-perm, All-imp, All-left}
use mathlib.Core.List.Permᴰ
use mathlib.Core.List.{Permᴰ}
use flume.Sstable.{Record}
use flume.Sstable.Merge.Heap.{all_records}
use flume.Sstable.Merge.Retain.{Ascending}
use flume.Engine.{Engine, Table, LeveledTable, build_records}
use flume.Engine.Reads.{imm_versions, table_versions}
use flume.Engine.Flush.{level_tables, plan_into}
use flume.Engine.Compaction.{remaining, in_snapshot, records_of}
use flume.Engine.Compaction.Inputs.{
  NotGen, DistinctGens, AtTwo, two-levels, all_records-append, plan-Taken, All-zip,
}
use flume.Engine.Compaction.Reads.{Over}
use flume.Engine.Compaction.Levels.{
  IsLayered, LevelOver, NewerThan, deepest, Over-append, Over-nil, Over-left, Over-right,
  table-Over,
}
use flume.Engine.Steps.Flushed.{DistinctGens-snoc, levels-snoc}
use flume.Engine.Steps.Order.{Over-join, Over-perm, Over-first}
use flume.Engine.Flush.Reads.{table_versions-snoc}

-- What holds of all tables holds of those that remain; what holds of those that are no inputs, too.
pub remaining-All :
    (P : LeveledTable → Type 0) (inputs : List Table) (ts : List LeveledTable)
    → All P ts
    → All P (remaining inputs ts)
unfolding remaining
remaining-All P inputs [] h = tt
remaining-All P inputs (t ∷ ts) h = elim (Bool-cases (in_snapshot inputs t.table)) [
  | inl e ↦ rw (e, remaining) (remaining-All P inputs ts h.1)
  | inr e ↦ rw (e, remaining) (h.0, remaining-All P inputs ts h.1)
]

remaining-Kept :
    (P : LeveledTable → Type 0) (inputs : List Table) (ts : List LeveledTable)
    → All (λ (t : LeveledTable). (in_snapshot inputs t.table ≡ true) ⊎ P t) ts
    → All P (remaining inputs ts)
unfolding remaining
remaining-Kept P inputs [] h = tt
remaining-Kept P inputs (t ∷ ts) h = elim (Bool-cases (in_snapshot inputs t.table)) [
  | inl e ↦ rw (e, remaining) (remaining-Kept P inputs ts h.1)
  | inr e ↦ rw (e, remaining) (stays e h.0, remaining-Kept P inputs ts h.1)
]
  where
    stays : in_snapshot inputs t.table ≡ false → (in_snapshot inputs t.table ≡ true) ⊎ P t → P t
    stays e (inl p) = absurd (ground (arith, e, p))
    stays e (inr o) = o

remaining-DistinctGens :
    (inputs : List Table) (ts : List LeveledTable)
    → DistinctGens ts
    → DistinctGens (remaining inputs ts)
unfolding remaining
remaining-DistinctGens inputs [] h = tt
remaining-DistinctGens inputs (t ∷ ts) h = elim (Bool-cases (in_snapshot inputs t.table)) [
  | inl e ↦ rw (e, remaining) (remaining-DistinctGens inputs ts h.1)
  | inr e ↦
      rw (e, remaining)
        (remaining-All (NotGen t.table.gen) inputs ts h.0, remaining-DistinctGens inputs ts h.1)
]

-- A list that is over another is over every part of it.
Over-part : (xs ys zs dropped : List Record) → Permᴰ ys (zs ++ dropped) → Over xs ys → Over xs zs
Over-part [] ys zs dropped p h = tt
Over-part (x ∷ xs) ys zs dropped p h = (
  All-left (NewerThan x) zs dropped (All-perm (NewerThan x) p h.0),
  Over-part xs ys zs dropped p h.1,
)

-- The tables of a level are over a table of a higher one.
level_tables-Over :
    (b : ℕ) (u : LeveledTable) (ts : List LeveledTable)
    → b < u.level
    → All (λ (v : LeveledTable). LevelOver v u) ts
    → Over (all_records (records_of (level_tables b ts))) u.table.records
unfolding level_tables
level_tables-Over b u [] lt h = tt
level_tables-Over b u (v ∷ ts) lt h = elim (Bool-cases (v.level == b)) [
  | inl e ↦
      rw (e, level_tables)
        (Over-join v.table.records (all_records (records_of (level_tables b ts))) u.table.records
          (subst (λ x. Over v.table.records (if x then u.table.records else [])) (below e) h.0)
          (level_tables-Over b u ts lt h.1))
  | inr e ↦ rw (e, level_tables) (level_tables-Over b u ts lt h.1)
]
  where
    below : (v.level == b) ≡ true → ltb v.level u.level ≡ true
    below e = ground arith

column :
    (u : LeveledTable) (us vs : List LeveledTable)
    → All (λ (v : LeveledTable). All (LevelOver v) (u ∷ us)) vs
    → All (λ (v : LeveledTable). LevelOver v u) vs
column u us [] h = tt
column u us (v ∷ vs) h = (h.0.0, column u us vs h.1)

transpose :
    (us vs : List LeveledTable)
    → All (λ (v : LeveledTable). All (LevelOver v) us) vs
    → All (λ (u : LeveledTable). All (λ (v : LeveledTable). LevelOver v u) vs) us
transpose [] vs h = tt
transpose (u ∷ us) vs h = (
  column u us vs h,
  transpose us vs (
      All-imp (λ (v : LeveledTable). All (LevelOver v) (u ∷ us)) (λ v. All (LevelOver v) us) vs
        (λ v p. p.1) h),
)

module _ (e : Engine) (a : ℕ) (l : IsLayered e) (out dropped : List Record)
    (parts : Permᴰ (all_records (records_of (plan_into e a).inputs)) (out ++ dropped)) where
  abbrev rest : List LeveledTable
  rest = remaining (plan_into e a).inputs e.tables

  abbrev merging : List Record
  merging = all_records (records_of (plan_into e a).inputs)

  from_merging : (xs : List Record) → Over xs merging → Over xs out
  from_merging xs h = Over-part xs merging out dropped parts h

  -- What is over all tables is over those that remain, and over the new one.
  kept-Over :
      (xs : List Record) → Over xs (table_versions e.tables) → Over xs (table_versions rest ++ out)
  kept-Over xs h =
      let both =
        Over-part xs (table_versions e.tables) (table_versions rest ++ merging) []
          (Permᴰ.trans (plan-Taken e a l.gens) (of_nil (table_versions rest ++ merging))) h in
      Over-append xs (table_versions rest) out (Over-left xs (table_versions rest) merging both)
        (from_merging xs (Over-right xs (table_versions rest) merging both))
    where
      of_nil : (ys : List Record) → Permᴰ ys (ys ++ [])
      of_nil ys = subst (λ zs. Permᴰ ys zs) (sym (append-nil ys)) (Permᴰ.refl ys)

  low : List Record
  low = all_records (records_of (level_tables a e.tables))

  high : List Record
  high = all_records (records_of (level_tables (a + 1) e.tables))

  merging_is : merging ≡ low ++ high
  unfolding low high
  merging_is = all_records-append (level_tables a e.tables) (level_tables (a + 1) e.tables)

  module _ (gen size : ℕ) where
    abbrev new_table : LeveledTable
    new_table = record {
      level = a + 1;
      table = record { gen = gen; records = out; size_bytes = size };
    }

    -- A table that is no input is over the new one, if it is of a lower level.
    over_new :
        (t : LeveledTable)
        → AtTwo a (plan_into e a).inputs t
        → All (LevelOver t) e.tables
        → (in_snapshot (plan_into e a).inputs t.table ≡ true) ⊎ LevelOver t new_table
    unfolding low high
    over_new t two over = elim (Bool-cases ((t.level == a) || (t.level == a + 1))) [
      | inl p ↦ inl (two ∙ p)
      | inr p ↦ inr (elim (Bool-cases (ltb t.level (a + 1))) [
        | inl q ↦
            subst (λ b. Over t.table.records (if b then out else [])) (sym q)
              (from_merging t.table.records (
                subst (Over t.table.records) (sym merging_is) (
                  Over-append t.table.records low high
                    (table-Over t a e.tables (ground (arith, p, q)) over)
                    (table-Over t (a + 1) e.tables (ground arith) over))))
        | inr q ↦
            subst (λ b. Over t.table.records (if b then out else [])) (sym q)
              (Over-nil t.table.records)
      ])
    ]

    -- The new table is over those of higher levels.
    new_over :
        (u : LeveledTable)
        → All (λ (v : LeveledTable). LevelOver v u) e.tables
        → LevelOver new_table u
    unfolding low high
    new_over u over = elim (Bool-cases (ltb (a + 1) u.level)) [
      | inl q ↦
          subst (λ b. Over out (if b then u.table.records else [])) (sym q)
            (Over-first out dropped u.table.records (
              Over-perm u.table.records parts (
                subst (λ xs. Over xs u.table.records) (sym merging_is)
                  (Over-join low high u.table.records
                    (level_tables-Over a u e.tables (ground arith) over)
                    (level_tables-Over (a + 1) u e.tables (ground arith) over)))))
      | inr q ↦ subst (λ b. Over out (if b then u.table.records else [])) (sym q) (Over-nil out)
    ]

    all_over_new : All (λ (t : LeveledTable). LevelOver t new_table) rest
    all_over_new =
        remaining-Kept (λ t. LevelOver t new_table) (plan_into e a).inputs e.tables
          (All-zip (AtTwo a (plan_into e a).inputs)
            (λ (t : LeveledTable). All (LevelOver t) e.tables)
            (λ t. (in_snapshot (plan_into e a).inputs t.table ≡ true) ⊎ LevelOver t new_table)
            e.tables (λ t p q. over_new t p q) (two-levels a e.tables l.gens) l.levels)

    new_over_all : All (LevelOver new_table) rest
    new_over_all = remaining-All (LevelOver new_table) (plan_into e a).inputs e.tables (
        All-imp (λ (u : LeveledTable). All (λ (v : LeveledTable). LevelOver v u) e.tables)
          (LevelOver new_table) e.tables (λ u p. new_over u p)
          (transpose e.tables e.tables l.levels))

    itself : LevelOver new_table new_table
    itself = subst (λ b. Over out (if b then out else [])) (sym not_lower) (Over-nil out)
      where
        not_lower : ltb (a + 1) (a + 1) ≡ false
        not_lower = ground arith

  -- The order between those that remain.
  rest_levels : All (λ (t : LeveledTable). All (LevelOver t) rest) rest
  rest_levels =
      remaining-All (λ (t : LeveledTable). All (LevelOver t) rest) (plan_into e a).inputs e.tables
        (All-imp (λ (t : LeveledTable). All (LevelOver t) e.tables) (λ t. All (LevelOver t) rest)
          e.tables (λ t p. remaining-All (LevelOver t) (plan_into e a).inputs e.tables p) l.levels)

  -- The store after a pass that kept nothing.
  abbrev pub emptied : Bool → ℕ → Engine
  emptied b g = record e { gen_counter = g; tables = rest; compact_requested = b }

  pub emptied-IsLayered : (b : Bool) (g : ℕ) → IsLayered (emptied b g)
  emptied-IsLayered b g = record {
    gens = remaining-DistinctGens (plan_into e a).inputs e.tables l.gens;
    sorted =
        remaining-All (λ (t : LeveledTable). Ascending t.table.records) (plan_into e a).inputs
          e.tables l.sorted;
    memory_over =
        Over-left (build_records e.mem) (table_versions rest) out
          (kept-Over (build_records e.mem) l.memory_over);
    imm_over =
        Over-left (imm_versions e.imm) (table_versions rest) out
          (kept-Over (imm_versions e.imm) l.imm_over);
    levels = rest_levels;
    bounded =
        remaining-All (λ (t : LeveledTable). t.level ≤ deepest e.config) (plan_into e a).inputs
          e.tables l.bounded;
    triggers = l.triggers;
  }

  -- The store after a pass that wrote a table.
  abbrev pub replaced : Bool → ℕ → ℕ → Engine
  replaced b g size = record e {
    gen_counter = g;
    tables = rest ++ new_table g size ∷ [];
    compact_requested = b;
  }

  pub replaced-IsLayered :
      (b : Bool) (g size : ℕ)
      → a + 1 ≤ deepest e.config
      → Ascending out
      → All (NotGen g) e.tables
      → IsLayered (replaced b g size)
  replaced-IsLayered b g size deep order new =
      let all = emptied-IsLayered b g in
      let n = new_table g size in
      record {
        gens =
            DistinctGens-snoc rest n all.gens
              (remaining-All (NotGen g) (plan_into e a).inputs e.tables new);
        sorted =
            All-append (λ (t : LeveledTable). Ascending t.table.records) rest (n ∷ []) all.sorted
              (order, tt);
        memory_over =
            subst (Over (build_records e.mem)) (sym (table_versions-snoc rest n))
              (kept-Over (build_records e.mem) l.memory_over);
        imm_over =
            subst (Over (imm_versions e.imm)) (sym (table_versions-snoc rest n))
              (kept-Over (imm_versions e.imm) l.imm_over);
        levels =
            All-append (λ (u : LeveledTable). All (LevelOver u) (rest ++ n ∷ [])) rest (n ∷ [])
              (levels-snoc n rest rest rest_levels (all_over_new g size))
              (
                All-append (LevelOver n) rest (n ∷ []) (new_over_all g size) (itself g size, tt),
                tt,
              );
        bounded =
            All-append (λ (t : LeveledTable). t.level ≤ deepest e.config) rest (n ∷ []) all.bounded
              (deep, tt);
        triggers = l.triggers;
      }
