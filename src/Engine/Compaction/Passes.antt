-- ===== src/Engine/Compaction/Passes.antt =====
-- A whole pass of `runCompaction`, from the choice of its inputs to its commit.
use flume.Common.{
  ◌⊎◌, ltb, ℕ, zero, suc, ◌+◌, ◌-◌, ◌<◌, ◌≤◌, ◌≡◌, ◌≢◌, refl, sym, ◌∙◌, subst, arith, true, false,
  List, [], ◌∷◌, ◌++◌, some, leb, ◌==◌, if◌then◌else◌, All, inl, inr, Bool-cases, Option-cases,
  length,
}
use flume.Bytes.{Bytes}
use flume.Sstable.{Record}
use flume.Sstable.Merge.Retain.{Ascending}
use flume.Engine.{Engine, Table, LeveledTable, next_gen, get_at, is_empty}
use flume.Engine.Writes.{IsStore}
use flume.Engine.Flush.{level_tables, Plan, plan_into, outgrown, pick_from, pick_compaction}
use flume.Engine.Compaction.{
  Running, records_of, merge_inputs, is_bottommost, begin_compaction, run_compaction,
  min_active_snapshot_seq,
}
use flume.Engine.Compaction.Inputs.{plan-Taken}
use flume.Engine.Compaction.Reads.{Over}
use flume.Engine.Compaction.Commit.{IsPass, outside, input_records, compaction-get}
use flume.Engine.Compaction.Levels.{IsLayered, deepest, bottommost-Over}

-- A plan is that of one level, which has tables and is not the deepest.
pub record Picked (e : Engine) (p : Plan) : Type 0 where
  pub level : ℕ
  pub planned : p ≡ plan_into e level
  pub some_table : level_tables level e.tables ≢ []
  pub within : level + 1 ≤ deepest e.config

some-inj : {a b : Plan} → some a ≡ some b → a ≡ b
some-inj p = cc

not_nil : (ts : List Table) → 0 < length ts → ts ≢ []
not_nil [] h = absurd (omega arith)
not_nil (t ∷ ts) h = λ p. cc

outgrown-some : (e : Engine) (a : ℕ) → outgrown e a ≡ true → 0 < length (level_tables a e.tables)
unfolding outgrown
outgrown-some e a h = ground arith

pick_from-Picked :
    (n a : ℕ) (e : Engine) (p : Plan)
    → 1 ≤ a
    → a + n + 1 ≤ e.config.max_levels
    → pick_from n a e ≡ some p
    → Picked e p
unfolding pick_from
pick_from-Picked zero a e p one room h = cc
pick_from-Picked (suc n) a e p one room h = elim (Bool-cases (outgrown e a)) [
  | inl o ↦ record {
    level = a;
    planned = sym (some-inj (rw (o, pick_from) at h));
    some_table = not_nil (level_tables a e.tables) (outgrown-some e a o);
    within = ground (arith, one, room);
  }
  | inr o ↦
      pick_from-Picked n (a + 1) e p (omega arith) (omega (arith, room)) (rw (o, pick_from) at h)
]

no_pick : (n : ℕ) (e : Engine) (p : Plan) → n ≡ 0 → pick_from n 1 e ≡ some p → ⊥
unfolding pick_from
no_pick zero e p z h = cc
no_pick (suc n) e p z h = absurd (omega arith)

pub pick-Picked :
    (e : Engine) (p : Plan)
    → 0 < e.config.l0_compaction_trigger
    → pick_compaction e ≡ some p
    → Picked e p
unfolding pick_compaction
pick-Picked e p t h =
    elim (Bool-cases (leb e.config.l0_compaction_trigger (length (level_tables 0 e.tables)))) [
      | inl o ↦ record {
        level = 0;
        planned = sym (some-inj (rw (o, pick_compaction) at h));
        some_table = not_nil (level_tables 0 e.tables) (ground arith);
        within = ground arith;
      }
      | inr o ↦ deeper (Bool-cases (ltb e.config.max_levels 3)) (rw (o, pick_compaction) at h)
    ]
  where
    deeper :
        (ltb e.config.max_levels 3 ≡ true) ⊎ (ltb e.config.max_levels 3 ≡ false)
        → pick_from (e.config.max_levels - 2) 1 e ≡ some p
        → Picked e p
    deeper (inl few) q = absurd (no_pick (e.config.max_levels - 2) e p (ground arith) q)
    deeper (inr many) q =
        pick_from-Picked (e.config.max_levels - 2) 1 e p (omega arith) (ground arith) q

level-Ascending :
    (a : ℕ) (ts : List LeveledTable)
    → All (λ (t : LeveledTable). Ascending t.table.records) ts
    → All Ascending (records_of (level_tables a ts))
unfolding level_tables
level-Ascending a [] h = tt
level-Ascending a (t ∷ ts) h = elim (Bool-cases (t.level == a)) [
  | inl e ↦ rw (e, level_tables) (h.0, level-Ascending a ts h.1)
  | inr e ↦ rw (e, level_tables) (level-Ascending a ts h.1)
]

inputs-Ascending :
    (xs ys : List Table)
    → All Ascending (records_of xs)
    → All Ascending (records_of ys)
    → All Ascending (records_of (xs ++ ys))
inputs-Ascending [] ys h k = k
inputs-Ascending (x ∷ xs) ys h k = (h.0, inputs-Ascending xs ys h.1 k)

append-ne-nil : (xs ys : List Table) → xs ≢ [] → xs ++ ys ≢ []
append-ne-nil [] ys h = absurd (h refl)
append-ne-nil (x ∷ xs) ys h = λ p. cc

-- What `runCompaction` has in hand when it takes the exclusive lock.
abbrev pub begun : Engine → Plan → Running
begun e p = record {
  plan = p;
  bottommost = is_bottommost e p.target_level;
  min_keep = min_active_snapshot_seq e;
  gen = next_gen e;
  merged = merge_inputs (min_active_snapshot_seq e) (is_bottommost e p.target_level) p.inputs;
}

abbrev pub numbered : Engine → Engine
numbered e = record e { gen_counter = next_gen e }

pub planned-IsPass :
    (e : Engine) (a : ℕ)
    → IsLayered e
    → level_tables a e.tables ≢ []
    → IsPass (begun e (plan_into e a)) (numbered e)
planned-IsPass e a l n = record {
  some_input = append-ne-nil (level_tables a e.tables) (level_tables (a + 1) e.tables) n;
  sorted =
      inputs-Ascending (level_tables a e.tables) (level_tables (a + 1) e.tables)
        (level-Ascending a e.tables l.sorted) (level-Ascending (a + 1) e.tables l.sorted);
  merged = refl;
  taken = plan-Taken e a l.gens;
  over = elim (Bool-cases (is_bottommost e (a + 1))) [
    | inl b ↦
        subst
          (λ x.
            Over (outside (begun e (plan_into e a)) e)
              (if x then input_records (begun e (plan_into e a)) else []))
          (sym b) (bottommost-Over e a l b)
    | inr b ↦
        subst
          (λ x.
            Over (outside (begun e (plan_into e a)) e)
              (if x then input_records (begun e (plan_into e a)) else []))
          (sym b) (nothing (outside (begun e (plan_into e a)) e))
  ];
}
  where
    nothing : (xs : List Record) → Over xs []
    nothing [] = tt
    nothing (x ∷ xs) = (tt, nothing xs)

pub Picked-IsPass :
    (e : Engine) (p : Plan) → IsLayered e → Picked e p → IsPass (begun e p) (numbered e)
Picked-IsPass e p l k =
    subst (λ q. IsPass (begun e q) (numbered e)) (sym k.planned)
      (planned-IsPass e k.level l k.some_table)

pub numbered-IsStore : (e : Engine) → IsStore e → IsStore (numbered e)
numbered-IsStore e i = record {
  readable = record { mem_ordered = i.readable.mem_ordered; imm_ordered = i.readable.imm_ordered };
  given_out = i.given_out;
  distinct = i.distinct;
}

-- A pass of `runCompaction` that nothing interrupts and whose table reaches the disk, on an open store
-- with its invariant whose levels are in order, changes no read at or above the oldest pinned sequence
-- number, whichever level it picks, whether or not it is bottommost, and if there is nothing to do.
pub run_compaction-get :
    (size : ℕ) (e : Engine)
    → IsStore e
    → IsLayered e
    → e.closed ≡ false
    → (k : Bytes) (s : ℕ) → min_active_snapshot_seq e ≤ s
    → is_empty k ≡ false
    → get_at k s (run_compaction (some size) e).1 ≡ get_at k s e
unfolding run_compaction begin_compaction
run_compaction-get size e i l c k s bound n = elim (Option-cases (pick_compaction e)) [
  | inl none_picked ↦ rw (none_picked, run_compaction, begin_compaction) refl
  | inr (p, picked) ↦
      rw (picked, run_compaction, begin_compaction)
        (compaction-get size (begun e p) (numbered e) (numbered-IsStore e i)
            (Picked-IsPass e p l (pick-Picked e p l.triggers picked)) c k s bound n
          ∙ same_read)
]
  where
    same_read : get_at k s (numbered e) ≡ get_at k s e
    same_read = unfold get_at in refl
