-- ===== src/Engine/Compaction/Inputs.antt =====
-- The tables that a pass takes out of the list are those that it merged.
use flume.Common.{
  ℕ, ◌+◌, ◌≡◌, ◌≢◌, refl, sym, ap, ◌∙◌, subst, arith, true, false, ◌||◌, List, [], ◌∷◌, ◌++◌,
  append_assoc, ◌==◌, if◌then◌else◌, All, inl, inr, Bool-cases,
}
use flume.Common.Perm.{of_eq, exchange}
use mathlib.Core.List.Permᴰ
use mathlib.Core.List.{Permᴰ}
use flume.Sstable.{Record}
use flume.Sstable.Merge.Heap.{all_records}
use flume.Engine.{Engine, Table, LeveledTable}
use flume.Engine.Reads.{table_versions}
use flume.Engine.Flush.{level_tables, plan_into}
use flume.Engine.Compaction.{in_snapshot, remaining, records_of}

abbrev pub NotGen : ℕ → LeveledTable → Type 0
NotGen g t = t.table.gen ≢ g

-- No two tables have one generation.
abbrev pub DistinctGens : List LeveledTable → Type 0
DistinctGens [] = Unit
DistinctGens (t ∷ ts) = All (NotGen t.table.gen) ts × DistinctGens ts

-- What the list holds is what remains of it and what the inputs hold.
abbrev pub Taken : List Table → List LeveledTable → Type 0
Taken inputs ts =
    Permᴰ (table_versions ts)
      (table_versions (remaining inputs ts) ++ all_records (records_of inputs))

absent :
    (a : ℕ) (ts : List LeveledTable) (t : Table)
    → All (NotGen t.gen) ts
    → in_snapshot (level_tables a ts) t ≡ false
unfolding level_tables in_snapshot
absent a [] t h = refl
absent a (u ∷ us) t h = elim (Bool-cases (u.level == a)) [
  | inl e ↦ rw (e, level_tables, in_snapshot) (ground (arith, absent a us t h.1, h.0))
  | inr e ↦ rw (e, level_tables) (absent a us t h.1)
]

AtLevel : ℕ → List Table → LeveledTable → Type 0
AtLevel a inputs t = in_snapshot inputs t.table ≡ (t.level == a)

skip :
    (a : ℕ) (u t : LeveledTable) (us : List LeveledTable)
    → NotGen u.table.gen t
    → AtLevel a (level_tables a us) t
    → AtLevel a (level_tables a (u ∷ us)) t
unfolding level_tables in_snapshot AtLevel
skip a u t us n h = elim (Bool-cases (u.level == a)) [
  | inl e ↦
      subst
        (λ b.
          in_snapshot (if b then u.table ∷ level_tables a us else level_tables a us) t.table
          ≡ (t.level == a))
        (sym e) (ground (arith, h, n))
  | inr e ↦
      subst
        (λ b.
          in_snapshot (if b then u.table ∷ level_tables a us else level_tables a us) t.table
          ≡ (t.level == a))
        (sym e) h
]

found :
    (a : ℕ) (u : LeveledTable) (us : List LeveledTable)
    → All (NotGen u.table.gen) us
    → AtLevel a (level_tables a (u ∷ us)) u
unfolding level_tables in_snapshot AtLevel
found a u us h = elim (Bool-cases (u.level == a)) [
  | inl e ↦
      subst
        (λ b.
          in_snapshot (if b then u.table ∷ level_tables a us else level_tables a us) u.table ≡ b)
        (sym e) (ground arith)
  | inr e ↦
      subst
        (λ b.
          in_snapshot (if b then u.table ∷ level_tables a us else level_tables a us) u.table ≡ b)
        (sym e) (absent a us u.table h)
]

pub All-zip :
    (P Q R : LeveledTable → Type 0) (ts : List LeveledTable)
    → ((t : LeveledTable) → P t → Q t → R t)
    → All P ts
    → All Q ts
    → All R ts
All-zip P Q R [] f p q = tt
All-zip P Q R (t ∷ ts) f p q = (f t p.0 q.0, All-zip P Q R ts f p.1 q.1)

present :
    (a : ℕ) (ts : List LeveledTable) → DistinctGens ts → All (AtLevel a (level_tables a ts)) ts
present a [] d = tt
present a (u ∷ us) d = (
  found a u us d.0,
  All-zip (NotGen u.table.gen) (AtLevel a (level_tables a us)) (AtLevel a (level_tables a (u ∷ us)))
      us (λ t n h. skip a u t us n h) d.0 (present a us d.1),
)

in_snapshot-append :
    (xs ys : List Table) (t : Table)
    → in_snapshot (xs ++ ys) t ≡ (in_snapshot xs t || in_snapshot ys t)
unfolding in_snapshot
in_snapshot-append [] ys t = refl
in_snapshot-append (x ∷ xs) ys t = elim (Bool-cases (x.gen == t.gen)) [
  | inl e ↦ rw e
  | inr e ↦ rw e (in_snapshot-append xs ys t)
]

abbrev pub AtTwo : ℕ → List Table → LeveledTable → Type 0
AtTwo a inputs t = in_snapshot inputs t.table ≡ ((t.level == a) || (t.level == a + 1))

pub two-levels :
    (a : ℕ) (ts : List LeveledTable)
    → DistinctGens ts
    → All (AtTwo a (level_tables a ts ++ level_tables (a + 1) ts)) ts
unfolding AtLevel
two-levels a ts d =
    All-zip (AtLevel a (level_tables a ts)) (AtLevel (a + 1) (level_tables (a + 1) ts))
      (AtTwo a (level_tables a ts ++ level_tables (a + 1) ts)) ts
      (λ t p q.
        in_snapshot-append (level_tables a ts) (level_tables (a + 1) ts) t.table
        ∙ ap (λ b. b || in_snapshot (level_tables (a + 1) ts) t.table) p
        ∙ ap (λ b. (t.level == a) || b) q)
      (present a ts d) (present (a + 1) ts d)

pub all_records-append :
    (xs ys : List Table)
    → all_records (records_of (xs ++ ys))
      ≡ all_records (records_of xs) ++ all_records (records_of ys)
all_records-append [] ys = refl
all_records-append (x ∷ xs) ys =
    ap (λ l. x.records ++ l) (all_records-append xs ys)
    ∙ sym (append_assoc x.records (all_records (records_of xs)) (all_records (records_of ys)))

abbrev Split : ℕ → List Table → List LeveledTable → Type 0
Split a inputs ts = Permᴰ (table_versions ts) (
    table_versions (remaining inputs ts)
    ++ (all_records (records_of (level_tables a ts))
        ++ all_records (records_of (level_tables (a + 1) ts))))

-- The three places of a table: in the lower level of the plan, in the upper one, or outside it.
place :
    (a : ℕ) (inputs : List Table) (t : LeveledTable) (ts : List LeveledTable)
    → AtTwo a inputs t
    → Split a inputs ts
    → Split a inputs (t ∷ ts)
unfolding remaining level_tables
place a inputs t ts h again = elim (Bool-cases (t.level == a)) [
  | inl p ↦
      rw (h, p, remaining, level_tables, upper p)
        (Permᴰ.trans (Permᴰ.append_left new again) (
          Permᴰ.trans (exchange new rest (low ++ high))
            (of_eq (ap (λ l. rest ++ l) (sym (append_assoc new low high))))))
  | inr p ↦ elim (Bool-cases (t.level == a + 1)) [
    | inl q ↦
        rw (h, p, q, remaining, level_tables)
          (Permᴰ.trans (Permᴰ.append_left new again) (
            Permᴰ.trans (exchange new rest (low ++ high))
              (Permᴰ.append_left rest (exchange new low high))))
    | inr q ↦
        rw (h, p, q, remaining, level_tables)
          (Permᴰ.trans (Permᴰ.append_left new again)
            (of_eq (sym (append_assoc new rest (low ++ high)))))
  ]
]
  where
    upper : (t.level == a) ≡ true → (t.level == a + 1) ≡ false
    upper p = ground arith

    rest : List Record
    rest = table_versions (remaining inputs ts)

    low : List Record
    low = all_records (records_of (level_tables a ts))

    high : List Record
    high = all_records (records_of (level_tables (a + 1) ts))

    new : List Record
    new = t.table.records

split :
    (a : ℕ) (inputs : List Table) (ts : List LeveledTable)
    → All (AtTwo a inputs) ts
    → Split a inputs ts
unfolding remaining level_tables
split a inputs [] h = Permᴰ.nil
split a inputs (t ∷ ts) h = place a inputs t ts h.0 (split a inputs ts h.1)

-- In a list without two tables of one generation, the pass that is planned at a level takes out
-- exactly the tables that it merged.
pub plan-Taken :
    (e : Engine) (a : ℕ) → DistinctGens e.tables → Taken (plan_into e a).inputs e.tables
plan-Taken e a d = Permᴰ.trans (split a (plan_into e a).inputs e.tables (two-levels a e.tables d)) (
    Permᴰ.append_left (table_versions (remaining (plan_into e a).inputs e.tables))
      (of_eq (sym (all_records-append (level_tables a e.tables) (level_tables (a + 1) e.tables)))))
