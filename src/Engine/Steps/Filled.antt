-- ===== src/Engine/Steps/Filled.antt =====
-- MemTables that wait for their flush are not empty.
use flume.Common.{
  ℕ, ◌<◌, ◌∙◌, ◌≢◌, sym, subst, Bool, true, false, List, [], ◌∷◌, Option, some, ltb, leb,
  if◌then◌else◌, All, All-append, Bool-cases, Option-cases, Result-cases, inl, inr, Result, ok, err,
  closed, io_error, Ordering,
}
use flume.Bytes.{Bytes, bytes_compare}
use flume.Wal.{Wal, append, record_put, record_delete}
use flume.Skiplist.{Kv, insert}
use flume.Engine.{
  Engine, ImmEntry, Config, Weather, full_pair, rotate, apply_write, write_memtable, write, put,
  delete,
}
use flume.Engine.Reads.{IsOrdered}
use flume.Engine.Writes.{skl-apply_write}
use flume.Engine.PutGet.{next_seq}
use flume.Engine.Flush.{maybe_trigger_compaction}
use flume.Engine.Compaction.{
  Running, run_compaction, begin_compaction, commit_compaction, is_empty_merge,
}
use flume.Engine.Flush.{pick_compaction}
use flume.Engine.Compaction.Passes.{begun, numbered}
use flume.Engine.Snapshot.{snapshot, close_snapshot}
use flume.Engine.Close.Drain.{IsFlushable, flush_next_first}
use flume.Engine.Steps.{IsSound}
use flume.Engine.Steps.Reach.{Step, Reachable, Writes, Reachable-IsSound}

abbrev IsFull : ImmEntry → Type 0
IsFull i = i.mt.skl ≢ []

abbrev AllFull : Engine → Type 0
AllFull e = All IsFull e.imm

insert_some : {V : Type 0} (k : Bytes) (v : V) (kvs : List (Kv V)) → insert k v kvs ≢ []
unfolding insert
insert_some k v [] h = cc
insert_some {V} k v (x ∷ xs) h = by_order (bytes_compare x.key k) h
  where
    by_order :
        (o : Ordering)
        → (elim o [
          | Ordering.lt ↦ x ∷ insert k v xs
          | Ordering.eq ↦ record x { value = v } ∷ xs
          | Ordering.gt ↦ record { key = k; value = v } ∷ x ∷ xs
        ])
          ≢ []
    by_order Ordering.lt p = cc
    by_order Ordering.eq p = cc
    by_order Ordering.gt p = cc

rotate-AllFull : (b : Bool) (e : Engine) → e.mem.skl ≢ [] → AllFull e → AllFull (rotate b e).1
unfolding rotate
rotate-AllFull b e n h = elim (Bool-cases (ltb e.mem.size e.config.flush_threshold)) [
  | inl p ↦ rw (p, rotate) h
  | inr p ↦ elim (Bool-cases b) [
    | inl o ↦ rw (p, o, rotate) (All-append IsFull e.imm (full_pair e ∷ []) h (n, tt))
    | inr o ↦ rw (p, o, rotate) h
  ]
]

write_memtable-AllFull :
    (w : Weather) (k v : Bytes) (type : ℕ) (e : Engine)
    → AllFull e
    → AllFull (write_memtable w k v type e).1
unfolding write_memtable
write_memtable-AllFull w k v type e h =
    elim (Bool-cases (leb e.config.flush_threshold (apply_write e.mem k v type e.seq).size)) [
      | inl f ↦
          rw (f, write_memtable)
            (rotate-AllFull w.log_opens (record e { mem = apply_write e.mem k v type e.seq })
              (subst (λ l. l ≢ []) (sym (skl-apply_write e.mem k v type e.seq))
                (insert_some k _ e.mem.skl))
              h)
      | inr f ↦ rw (f, write_memtable) h
    ]

write-AllFull :
    (w : Weather) (k v : Bytes) (type : ℕ) (e : Engine) → AllFull e → AllFull (write w k v type e).1
unfolding write
write-AllFull w k v type e h = by_outcome e.closed p.0
  where
    p : Result (Unit {0}) × Wal
    p = append w.disk e.log (record { type = type; key = k; value = v; seq = next_seq e })

    e' : Engine
    e' = record e { seq = next_seq e; log = p.1 }

    outcome : Bool → Result (Unit {0}) → Result (Unit {0}) × Engine
    outcome b o =
        if b
        then (err closed, e)
        else elim o [ err x ↦ (err io_error, e') | ok u ↦ write_memtable w k v type e' ]

    by_outcome : (b : Bool) (o : Result (Unit {0})) → AllFull (outcome b o).1
    by_outcome true o = h
    by_outcome false (err x) = h
    by_outcome false (ok u) = write_memtable-AllFull w k v type e' h

commit-AllFull :
    (disk : Option ℕ) (r : Running) (e : Engine)
    → AllFull e
    → AllFull (commit_compaction disk r e).1
unfolding commit_compaction maybe_trigger_compaction
commit-AllFull disk r e h = elim (Result-cases r.merged) [
  | inl (out, m) ↦ elim (Option-cases disk) [
    | inl d ↦ rw (m, d, commit_compaction) h
    | inr (size, d) ↦ rw (m, d, commit_compaction) h
  ]
  | inr (x, m) ↦ elim (Bool-cases (is_empty_merge x)) [
    | inl b ↦ rw (m, b, commit_compaction) h
    | inr b ↦ rw (m, b, commit_compaction) h
  ]
]

pass-AllFull : (disk : Option ℕ) (e : Engine) → AllFull e → AllFull (run_compaction disk e).1
unfolding run_compaction begin_compaction
pass-AllFull disk e h = elim (Option-cases (pick_compaction e)) [
  | inl n ↦ rw (n, run_compaction, begin_compaction) h
  | inr (p, picked) ↦
      rw (picked, run_compaction, begin_compaction) (commit-AllFull disk (begun e p) (numbered e) h)
]

Step-AllFull : {e e' : Engine} → Step e e' → IsSound e → AllFull e → AllFull e'
unfolding snapshot close_snapshot
Step-AllFull (Step.flushed size e job rest head n g) s h =
    let o = (subst (All (λ (i : ImmEntry). IsOrdered i.mt)) head s.store.readable.imm_ordered).0 in
    let later = (subst (All IsFull) head h).1 in
    subst AllFull
      (sym (
        flush_next_first size e job rest head (s.arranged.fifo ∙ head)
          (record { ordered = o; filled = n })))
      (unfold maybe_trigger_compaction in later)
Step-AllFull (Step.compacted size e g) s h = pass-AllFull (some size) e h
Step-AllFull (Step.snapshot_taken e) s h = elim (Bool-cases e.closed) [
  | inl c ↦ rw (c, snapshot) h
  | inr c ↦ rw (c, snapshot) h
]
Step-AllFull (Step.snapshot_closed t e) s h = elim (Bool-cases t.closed) [
  | inl c ↦ rw (c, close_snapshot) h
  | inr c ↦ rw (c, close_snapshot) h
]

Reachable-AllFull :
    {c : Config} {e : Engine} {ws : Writes}
    → Reachable c e ws
    → 0 < c.l0_compaction_trigger
    → AllFull e
unfolding put delete
Reachable-AllFull Reachable.start t = tt
Reachable-AllFull (Reachable.wrote {e} r w k v m l n g) t =
    rw (m, put) (write-AllFull w k v record_put e (Reachable-AllFull r t))
Reachable-AllFull (Reachable.deleted {e} r w k m l n g) t =
    rw (m, delete) (write-AllFull w k [] record_delete e (Reachable-AllFull r t))
Reachable-AllFull (Reachable.stepped r s) t =
    Step-AllFull s (Reachable-IsSound r t) (Reachable-AllFull r t)

-- Every MemTable that waits can be flushed.
pub Reachable-IsFlushable :
    {c : Config} {e : Engine} {ws : Writes}
    → Reachable c e ws
    → 0 < c.l0_compaction_trigger
    → All IsFlushable e.imm
Reachable-IsFlushable {e = e} r t =
    both e.imm (Reachable-IsSound r t).store.readable.imm_ordered (Reachable-AllFull r t)
  where
    both :
        (is : List ImmEntry)
        → All (λ (i : ImmEntry). IsOrdered i.mt) is
        → All IsFull is
        → All IsFlushable is
    both [] o f = tt
    both (i ∷ is) o f = (record { ordered = o.0; filled = f.0 }, both is o.1 f.1)
