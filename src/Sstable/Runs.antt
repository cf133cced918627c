-- ===== src/Sstable/Runs.antt =====
-- Runs of the merge and of a table's life on small inputs.
use flume.Common.{ℕ, ◌≡◌, refl, arith, true, false, List, [], ◌∷◌, ◌++◌, ok}
use mathlib.Core.List.{Permᴰ}
use flume.Bytes.{bytes_compare}
use flume.Sstable.{Record, less, newest, Distinct}
use flume.Sstable.Merge.{merge, next_of, retain}
use flume.Sstable.Merge.Heap.{all_records}
use flume.Sstable.Merge.Retain.{Ascending, SameRead}
use flume.Sstable.Merge.Correct.{kept, outcome, merge-Ascending, merge-perm, merge-reads}
use flume.Sstable.Lifecycle.{
  World, Step, Reachable, opened, acquire, release, retire, Reachable-listed, Reachable-reading,
}

abbrev rec : ℕ → ℕ → ℕ → Record
rec key type seq = record { key = key ∷ []; value = seq ∷ []; type = type; seq = seq }

-- Key 5 has the versions 4, a tombstone, and 1; key 7 has 3 and 2.
abbrev newer : List Record
newer = rec 5 2 4 ∷ rec 7 1 3 ∷ []

abbrev older : List Record
older = rec 5 1 1 ∷ rec 7 1 2 ∷ []

newer-Ascending : Ascending newer
unfolding less bytes_compare
newer-Ascending = ((refl, tt), (tt, tt))

older-Ascending : Ascending older
unfolding less bytes_compare
older-Ascending = ((refl, tt), (tt, tt))

apart-Distinct : Distinct (newer ++ older)
apart-Distinct = (
  ((λ p q. omega (arith, q)), ((λ p q. omega (arith, q)), ((λ p q. omega (arith, q)), tt))),
  (
    ((λ p q. omega (arith, q)), ((λ p q. omega (arith, q)), tt)),
    (((λ p q. omega (arith, q)), tt), (tt, tt)),
  ),
)

-- A bottommost pass with no snapshot below 4 keeps the newest version of key 7 only.
merge_run : merge next_of 4 4 true (newer ∷ older ∷ []) ≡ ok (rec 7 1 3 ∷ [])
unfolding merge less retain bytes_compare
merge_run = refl

-- With a snapshot at 2 each key keeps what that snapshot needs.
merge_snapshot_run :
    merge next_of 4 2 false (newer ∷ older ∷ [])
    ≡ ok (rec 5 2 4 ∷ rec 5 1 1 ∷ rec 7 1 3 ∷ rec 7 1 2 ∷ [])
unfolding merge less retain bytes_compare
merge_snapshot_run = refl

merge-Ascending_example :
    (merge next_of 4 2 true (newer ∷ older ∷ [])
      ≡ outcome (kept (merge next_of 4 2 true (newer ∷ older ∷ []))))
    × Ascending (kept (merge next_of 4 2 true (newer ∷ older ∷ [])))
merge-Ascending_example =
    merge-Ascending 2 true newer (older ∷ []) 4 (newer-Ascending, (older-Ascending, tt))
      apart-Distinct (omega arith)

merge-perm_example :
    (dropped : List Record) × Permᴰ
      (all_records (newer ∷ older ∷ []))
      (kept (merge next_of 4 4 true (newer ∷ older ∷ [])) ++ dropped)
merge-perm_example =
    merge-perm 4 true newer (older ∷ []) 4 (newer-Ascending, (older-Ascending, tt)) apart-Distinct
      (omega arith)

merge-reads_example :
    SameRead true
      (newest (5 ∷ []) 6 (all_records (newer ∷ older ∷ [])))
      (newest (5 ∷ []) 6 (kept (merge next_of 4 4 true (newer ∷ older ∷ []))))
merge-reads_example =
    merge-reads 4 true newer (older ∷ []) 4 (newer-Ascending, (older-Ascending, tt)) apart-Distinct
      (omega arith) (5 ∷ []) 6 (omega arith)

-- A reader holds the table while compaction retires it.
abbrev reading : World
reading = record { table = (acquire opened).1; readers = 1; listed = true }

abbrev retired : World
retired = record { table = (retire (acquire opened).1).1; readers = 1; listed = false }

reading-Reachable : Reachable reading
reading-Reachable = Reachable.step Reachable.start (Step.read_start opened 0)

retired-Reachable : Reachable retired
retired-Reachable = Reachable.step reading-Reachable (Step.compacted (acquire opened).1 1)

Reachable-listed_example :
    ((acquire (acquire opened).1).0 ≡ true) × ((retire (acquire opened).1).0 ≡ ok tt)
Reachable-listed_example = Reachable-listed reading-Reachable refl

Reachable-reading_example :
    ((retire (acquire opened).1).1.file_open ≡ true)
    × ((release (retire (acquire opened).1).1).0 ≡ ok tt)
Reachable-reading_example = Reachable-reading retired-Reachable (omega arith)
