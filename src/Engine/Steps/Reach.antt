-- ===== src/Engine/Steps/Reach.antt =====
-- Every store that the steps lead to.
use flume.Common.{
  sym, ap, ◌∙◌, subst, Option, none, Result, not_found, empty_key, ℕ, ◌+◌, ◌<◌, ◌^◌, ◌≡◌, ◌≢◌, refl,
  Bool, true, false, List, [], ◌∷◌, some, if◌then◌else◌, inl, inr, Bool-cases, ok, err, closed,
}
use flume.Bytes.{Bytes, bytes_equal}
use flume.Wal.{record_put, record_delete}
use flume.Memtable
use flume.Skiplist.{lookup}
use flume.Engine.{
  Engine, Config, ImmEntry, Weather, put, delete, get, get_at, is_empty, build_records,
  unbounded_seq, consider_memtable, consider_imm, consider_tables,
}
use flume.Engine.PutGet.{Logged, put-get, delete-get}
use flume.Engine.Flush.{flush_next}
use flume.Engine.Compaction.{run_compaction}
use flume.Engine.Compaction.Passes.{run_compaction-get}
use flume.Engine.Snapshot.{Snapshot, pin, unpin, snapshot, close_snapshot, unpinned}
use flume.Engine.Recovery.{opening}
use flume.Engine.Steps.{IsSound}
use flume.Engine.Steps.Written.{write-IsSound}
use flume.Engine.Steps.Flushed.{flush_next-IsSound, flush_next-get}
use flume.Engine.Steps.Passed.{run_compaction-IsSound}

-- What happens beside the writes: a turn of the flush worker and a pass of the compaction worker whose
-- files can be written, and a snapshot that is taken or closed. Generations are not used up.
pub data Step : Engine → Engine → Type 0 where
  flushed :
      (size : ℕ) (e : Engine) (job : ImmEntry) (rest : List ImmEntry)
      → e.imm ≡ job ∷ rest
      → job.mt.skl ≢ []
      → e.gen_counter + 1 < 2 ^ 64
      → Step e (flush_next (some size) e)
  compacted :
      (size : ℕ) (e : Engine) → e.gen_counter + 1 < 2 ^ 64 → Step e (run_compaction (some size) e).1
  snapshot_taken : (e : Engine) → Step e (snapshot e).1
  snapshot_closed : (s : Snapshot) (e : Engine) → Step e (close_snapshot s e).1

-- The store that `Open` makes of an empty directory, before its first log.
abbrev pub empty_store : Config → Engine
empty_store c = opening c (record { wal_files = []; tables = []; max_gen = 0 })

-- The map that a store stands for: the writes that it took, the last first; `none` is a delete.
abbrev pub Writes : Type 0
Writes = List (Bytes × Option Bytes)

abbrev pub outcome_of : Option Bytes → Result Bytes
outcome_of none = err not_found
outcome_of (some v) = ok v

abbrev pub latest : Bytes → Writes → Result Bytes
latest j [] = err not_found
latest j (w ∷ ws) = if bytes_equal w.0 j then outcome_of w.1 else latest j ws

-- The stores that writes which the log takes and the steps beside them lead to, with their writes.
pub data Reachable (c : Config) : Engine → Writes → Type 0 where
  start : Reachable c (empty_store c) []
  wrote :
      {e : Engine} {ws : Writes}
      → Reachable c e ws
      → (w : Weather) (k v : Bytes) → is_empty k ≡ false
      → Logged w k v record_put e
      → e.seq + 1 < 2 ^ 64
      → e.gen_counter + 1 < 2 ^ 64
      → Reachable c (put w k v e).1 ((k, some v) ∷ ws)
  deleted :
      {e : Engine} {ws : Writes}
      → Reachable c e ws
      → (w : Weather) (k : Bytes) → is_empty k ≡ false
      → Logged w k [] record_delete e
      → e.seq + 1 < 2 ^ 64
      → e.gen_counter + 1 < 2 ^ 64
      → Reachable c (delete w k e).1 ((k, none) ∷ ws)
  stepped : {e e' : Engine} {ws : Writes} → Reachable c e ws → Step e e' → Reachable c e' ws

empty-IsSound : (c : Config) → 0 < c.l0_compaction_trigger → IsSound (empty_store c)
unfolding build_records
empty-IsSound c t = record {
  store = record {
    readable = record { mem_ordered = tt; imm_ordered = tt };
    given_out = tt;
    distinct = tt;
  };
  arranged = record {
    layered = record {
      gens = tt;
      sorted = tt;
      memory_over = tt;
      imm_over = tt;
      levels = tt;
      bounded = tt;
      triggers = t;
    };
    mem_over = tt;
    imm_order = tt;
    fifo = refl;
    known = tt;
  };
  open_still = refl;
}

-- A change of the book of snapshots alone.
rebooked-IsSound :
    (e : Engine) (b : List (ℕ × ℕ)) → IsSound e → IsSound (record e { active_snapshots = b })
rebooked-IsSound e b s = record {
  store = record {
    readable = record {
      mem_ordered = s.store.readable.mem_ordered;
      imm_ordered = s.store.readable.imm_ordered;
    };
    given_out = s.store.given_out;
    distinct = s.store.distinct;
  };
  arranged = record {
    layered = record {
      gens = s.arranged.layered.gens;
      sorted = s.arranged.layered.sorted;
      memory_over = s.arranged.layered.memory_over;
      imm_over = s.arranged.layered.imm_over;
      levels = s.arranged.layered.levels;
      bounded = s.arranged.layered.bounded;
      triggers = s.arranged.layered.triggers;
    };
    mem_over = s.arranged.mem_over;
    imm_order = s.arranged.imm_order;
    fifo = s.arranged.fifo;
    known = s.arranged.known;
  };
  open_still = s.open_still;
}

-- Such a change answers every read as before.
rebooked-get :
    (e : Engine) (b : List (ℕ × ℕ)) (j : Bytes)
    → get j (record e { active_snapshots = b }) ≡ get j e
unfolding get get_at
rebooked-get e b j = refl

-- What a step beside the writes keeps.
record Same (e e' : Engine) : Type 0 where
  sound : IsSound e'
  reads : (j : Bytes) → get j e' ≡ get j e

module _ (e : Engine) (s : IsSound e) where
  rebooked-Same : (b : List (ℕ × ℕ)) → Same e (record e { active_snapshots = b })
  rebooked-Same b = record { sound = rebooked-IsSound e b s; reads = rebooked-get e b }

  itself-Same : Same e e
  itself-Same = record { sound = s; reads = λ j. refl }

  snapshot-Same : Same e (snapshot e).1
  unfolding snapshot
  snapshot-Same = elim (Bool-cases e.closed) [
    | inl c ↦ subst (λ b. Same e (taken b).1) (sym c) itself-Same
    | inr c ↦ subst (λ b. Same e (taken b).1) (sym c) (rebooked-Same _)
  ]
    where
      taken : Bool → Result Snapshot × Engine
      taken b = if b then (err closed, e) else (
        ok (record { seq = e.seq; closed = false }),
        record e { active_snapshots = pin e.seq e.active_snapshots },
      )

  close_snapshot-Same : (h : Snapshot) → Same e (close_snapshot h e).1
  unfolding close_snapshot
  close_snapshot-Same h = elim (Bool-cases h.closed) [
    | inl c ↦ subst (λ b. Same e (released b).1) (sym c) itself-Same
    | inr c ↦ subst (λ b. Same e (released b).1) (sym c) (rebooked-Same _)
  ]
    where
      released : Bool → Snapshot × Engine
      released b = if b then (h, e) else (
        record h { closed = true },
        record e { active_snapshots = unpin h.seq e.active_snapshots },
      )

empty_key_read : (e : Engine) (j : Bytes) → is_empty j ≡ true → get j e ≡ err empty_key
unfolding get get_at
empty_key_read e j n = rw n refl

-- Reads of the empty key are refused, whatever the store.
all_reads :
    (e e' : Engine)
    → ((j : Bytes) → is_empty j ≡ false → get j e' ≡ get j e)
    → (j : Bytes) → get j e' ≡ get j e
all_reads e e' f j = elim (Bool-cases (is_empty j)) [
  | inl n ↦ empty_key_read e' j n ∙ sym (empty_key_read e j n)
  | inr n ↦ f j n
]

Step-Same : {e e' : Engine} → Step e e' → IsSound e → Same e e'
unfolding get get_at
Step-Same (Step.flushed size e job rest head n g) s = record {
  sound = flush_next-IsSound size e job rest s head n g;
  reads =
      all_reads e (flush_next (some size) e)
        λ j m. flush_next-get size e job rest s head j unbounded_seq m;
}
Step-Same (Step.compacted size e g) s = record {
  sound = run_compaction-IsSound size e s g;
  reads = all_reads e (run_compaction (some size) e).1 λ j m.
      run_compaction-get size e s.store s.arranged.layered s.open_still j unbounded_seq (unpinned e)
        m;
}
Step-Same (Step.snapshot_taken e) s = snapshot-Same e s
Step-Same (Step.snapshot_closed h e) s = close_snapshot-Same e s h

put-IsSound :
    (w : Weather) (k v : Bytes) (e : Engine)
    → IsSound e
    → is_empty k ≡ false
    → Logged w k v record_put e
    → e.seq + 1 < 2 ^ 64
    → e.gen_counter + 1 < 2 ^ 64
    → IsSound (put w k v e).1
unfolding put
put-IsSound w k v e s m l n g = rw (m, put) (write-IsSound w k v record_put e s l n g)

delete-IsSound :
    (w : Weather) (k : Bytes) (e : Engine)
    → IsSound e
    → is_empty k ≡ false
    → Logged w k [] record_delete e
    → e.seq + 1 < 2 ^ 64
    → e.gen_counter + 1 < 2 ^ 64
    → IsSound (delete w k e).1
unfolding delete
delete-IsSound w k e s m l n g = rw (m, delete) (write-IsSound w k [] record_delete e s l n g)

-- A store opened on an empty directory, after any writes that the log took and any flushes, compactions
-- and snapshots between them in any order, is sound, if the trigger of compaction is not 0 and sequence
-- numbers and generations are not used up.
pub Reachable-IsSound :
    {c : Config} {e : Engine} {ws : Writes}
    → Reachable c e ws
    → 0 < c.l0_compaction_trigger
    → IsSound e
Reachable-IsSound {c} Reachable.start t = empty-IsSound c t
Reachable-IsSound (Reachable.wrote {e} r w k v m l n g) t =
    put-IsSound w k v e (Reachable-IsSound r t) m l n g
Reachable-IsSound (Reachable.deleted {e} r w k m l n g) t =
    delete-IsSound w k e (Reachable-IsSound r t) m l n g
Reachable-IsSound (Reachable.stepped r s) t = (Step-Same s (Reachable-IsSound r t)).sound

empty-get : (c : Config) (j : Bytes) → is_empty j ≡ false → get j (empty_store c) ≡ err not_found
unfolding get get_at consider_memtable consider_imm consider_tables Memtable.get lookup
empty-get c j n = rw n refl

-- The store is the map of its writes: under the same conditions `Get` of a key that is not empty answers
-- with the value of the last write to it, and ErrNotFound if that was a delete or there was none.
pub Reachable-get :
    {c : Config} {e : Engine} {ws : Writes}
    → Reachable c e ws
    → 0 < c.l0_compaction_trigger
    → (j : Bytes) → is_empty j ≡ false
    → get j e ≡ latest j ws
Reachable-get {c} Reachable.start t j p = empty-get c j p
Reachable-get (Reachable.wrote {e} {ws} r w k v m l n g) t j p =
    let s = Reachable-IsSound r t in
    put-get w k v e s.store s.open_still l n m j p
    ∙ ap (λ x. if bytes_equal k j then ok v else x) (Reachable-get r t j p)
Reachable-get (Reachable.deleted {e} {ws} r w k m l n g) t j p =
    let s = Reachable-IsSound r t in
    delete-get w k e s.store s.open_still l n m j p
    ∙ ap (λ x. if bytes_equal k j then err not_found else x) (Reachable-get r t j p)
Reachable-get (Reachable.stepped r s) t j p =
    (Step-Same s (Reachable-IsSound r t)).reads j ∙ Reachable-get r t j p
