-- ===== src/Engine/Stats.antt =====
-- engine/engine.go: `Stats`.
use flume.Common.{
  ℕ, zero, suc, ◌+◌, ◌<◌, ◌≡◌, ◌≢◌, refl, ap, ◌∙◌, arith, List, [], ◌∷◌, some, ltb, ◌==◌,
  if◌then◌else◌, length, get_elem?, replicate, Bool-cases, inl, inr,
}
use flume.Memtable
use flume.Engine.{Engine, LeveledTable}
use flume.Engine.Flush.{level_tables}

pub record Stats : Type 0 where
  pub mem_table_entries : ℕ
  pub immutable_mem_tables : ℕ
  pub ss_tables : ℕ
  pub tables_per_level : List ℕ

-- `perLevel[level]++`, within bounds
unfoldable increment : ℕ → List ℕ → List ℕ
increment level [] = []
increment zero (c ∷ cs) = (c + 1) ∷ cs
increment (suc level) (c ∷ cs) = c ∷ increment level cs

unfoldable count_levels : List LeveledTable → List ℕ → List ℕ
unfolding increment
count_levels [] per_level = per_level
count_levels (t ∷ ts) per_level =
    count_levels ts
      (if ltb t.level (length per_level) then increment t.level per_level else per_level)

unfoldable pub stats : Engine → Stats
unfolding count_levels
stats e = record {
  mem_table_entries = Memtable.len e.mem;
  immutable_mem_tables = length e.imm;
  ss_tables = length e.tables;
  tables_per_level = count_levels e.tables (replicate e.config.max_levels 0);
}

increment-same :
    (n c : ℕ) (cs : List ℕ) → get_elem? cs n ≡ some c → get_elem? (increment n cs) n ≡ some (c + 1)
unfolding increment
increment-same n c [] h = cc
increment-same zero c (x ∷ cs) h = cc
increment-same (suc n) c (x ∷ cs) h = increment-same n c cs h

increment_other : (l n : ℕ) (cs : List ℕ) → l ≢ n → get_elem? (increment l cs) n ≡ get_elem? cs n
unfolding increment
increment_other l n [] h = refl
increment_other zero zero (x ∷ cs) h = absurd (h refl)
increment_other zero (suc n) (x ∷ cs) h = refl
increment_other (suc l) zero (x ∷ cs) h = refl
increment_other (suc l) (suc n) (x ∷ cs) h = increment_other l n cs λ p. h (ap suc p)

in_bounds : (n c : ℕ) (cs : List ℕ) → get_elem? cs n ≡ some c → n < length cs
in_bounds n c [] h = cc
in_bounds zero c (x ∷ cs) h = omega arith
in_bounds (suc n) c (x ∷ cs) h = omega (arith, in_bounds n c cs h)

zeros : (n m : ℕ) → n < m → get_elem? {A = ℕ} (replicate m 0) n ≡ some 0
zeros n zero h = absurd (omega arith)
zeros zero (suc m) h = refl
zeros (suc n) (suc m) h = zeros n m (omega arith)

count_levels-level_tables :
    (n c : ℕ) (ts : List LeveledTable) (cs : List ℕ)
    → get_elem? cs n ≡ some c
    → get_elem? (count_levels ts cs) n ≡ some (c + length (level_tables n ts))
unfolding count_levels level_tables
count_levels-level_tables n c [] cs h = h ∙ ap some (omega arith)
count_levels-level_tables n c (t ∷ ts) cs h = elim (Bool-cases (t.level == n)) [
  | inl p ↦
      rw (p, level_tables)
        (count_levels-level_tables n (c + 1) ts _ (here (ground arith)) ∙ ap some (omega arith))
  | inr p ↦ rw (p, level_tables) (count_levels-level_tables n c ts _ (there (ground arith)))
]
  where
    counted : List ℕ
    counted = if ltb t.level (length cs) then increment t.level cs else cs

    here : t.level ≡ n → get_elem? counted n ≡ some (c + 1)
    here p = elim (Bool-cases (ltb t.level (length cs))) [
      | inl b ↦ rw (b, counted) (rw p (increment-same n c cs h))
      | inr b ↦ absurd (ground (arith, in_bounds n c cs h))
    ]

    there : t.level ≢ n → get_elem? counted n ≡ some c
    there p = elim (Bool-cases (ltb t.level (length cs))) [
      | inl b ↦ rw (b, counted) (increment_other t.level n cs p ∙ h)
      | inr b ↦ rw (b, counted) h
    ]

-- `Stats` counts for each level below the maximum the tables that compaction sees at that level.
pub stats-level_tables :
    (e : Engine) (n : ℕ)
    → n < e.config.max_levels
    → get_elem? (stats e).tables_per_level n ≡ some (length (level_tables n e.tables))
unfolding stats
stats-level_tables e n h =
    count_levels-level_tables n 0 e.tables (replicate e.config.max_levels 0)
      (zeros n e.config.max_levels h)
    ∙ ap some (omega arith)
