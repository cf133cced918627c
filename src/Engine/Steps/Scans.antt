-- ===== src/Engine/Steps/Scans.antt =====
-- Scan on the stores that writes, flushes, compactions and snapshots lead to.
use flume.Common.{
  ◌<◌, ◌≡◌, refl, sym, ap, ◌∙◌, false, List, Option, none, some, ◌==◌, if◌then◌else◌, Result, ok,
  err, Returns, Returns-imp, Bool-cases, inl, inr,
}
use flume.Bytes.{Bytes}
use flume.Skiplist.{Kv, lookup}
use flume.Sstable.{Record, newest, live, type_tombstone}
use flume.Engine.{Engine, Config, get, answer, unbounded_seq, is_empty}
use flume.Engine.Reads.{versions, get_at-newest}
use flume.Engine.Scan.{scan, scan_at, in_range}
use flume.Engine.Scan.Drain.{ScanYields}
use flume.Engine.Scan.Agrees.{scan_at-newest}
use flume.Engine.Steps.Reach.{Reachable, Writes, latest, Reachable-get, Reachable-IsSound}

-- The value that a read gave, if it gave one.
abbrev pub value_of : Result Bytes → Option Bytes
value_of (ok v) = some v
value_of (err x) = none

value_of-answer : (o : Option Record) → value_of (answer o) ≡ live o
unfolding live
value_of-answer none = refl
value_of-answer (some r) = elim (Bool-cases (r.type == type_tombstone)) [
  | inl e ↦ rw e refl
  | inr e ↦ rw e refl
]

-- Scan lists the last writes: under the conditions of `Reachable-get`, the calls of `Next` on a scan end,
-- and a key that is not empty is listed exactly if it lies in the range and the last write to it was not
-- a delete, with the value of that write.
pub Reachable-scan :
    {c : Config} {e : Engine} {ws : Writes}
    → Reachable c e ws
    → 0 < c.l0_compaction_trigger
    → (start end : Option Bytes) (k : Bytes) → is_empty k ≡ false
    → Returns (scan start end e) (λ h.
      (out : List (Kv Bytes)) × ScanYields h out
      × (lookup k out ≡ (if in_range start end k then value_of (latest k ws) else none)))
unfolding scan get
Reachable-scan {e = e} {ws = ws} r t start end k n =
    let s = Reachable-IsSound r t in
    let read =
      sym (value_of-answer (newest k unbounded_seq (versions e)))
      ∙ ap value_of (
          sym (get_at-newest k unbounded_seq e s.store.readable s.open_still n)
          ∙ Reachable-get r t k n) in
    Returns-imp _ _ (scan_at start end unbounded_seq e)
      (scan_at-newest start end unbounded_seq e s.store s.arranged.layered.sorted s.open_still)
      λ h q. (q.0, q.1, q.2.1 k ∙ ap (λ o. if in_range start end k then o else none) read)
