-- ===== src/Sstable/Merge.antt =====
-- sstable/merge.go: the k-way merge and its retention of versions.
pub mod Heap
pub mod Retain
pub mod Group
pub mod Step
pub mod Correct
use flume.Common.{
  ℕ, zero, suc, Bool, true, false, ◌&&◌, List, [], ◌∷◌, ◌++◌, Option, none, some, ltb, leb, ◌==◌,
  if◌then◌else◌, Result, ok, err, stuck, empty_merge, merge_zero_tables, ◌>>=◌, length,
}
use flume.Bytes.{Bytes, bytes_equal}
use flume.Sstable.{Record, less, type_tombstone}

-- `sort.Slice` by sequence number, highest first.
unfoldable pub insert_desc : Record → List Record → List Record
insert_desc r [] = r ∷ []
insert_desc r (x ∷ xs) = if ltb x.seq r.seq then r ∷ x ∷ xs else x ∷ insert_desc r xs

unfoldable pub sort_desc : List Record → List Record
unfolding insert_desc
sort_desc [] = []
sort_desc (r ∷ rs) = insert_desc r (sort_desc rs)

-- The walk over a key's versions, newest first: each is kept, down to the first that satisfies the
-- oldest snapshot.
unfoldable pub keep_from : ℕ → List Record → List Record
keep_from min_keep [] = []
keep_from min_keep (r ∷ rs) = r ∷ (if leb r.seq min_keep then [] else keep_from min_keep rs)

-- The newest version is dropped with the rest if it is a tombstone that nothing needs.
unfoldable pub retain : ℕ → Bool → List Record → List Record
unfolding keep_from
retain min_keep bottommost [] = []
retain min_keep bottommost (r ∷ rs) =
    if bottommost && (r.type == type_tombstone && leb r.seq min_keep)
    then []
    else keep_from min_keep (r ∷ rs)

-- A `mergeItem`: a record and the iterator that it came from. `next` is `Iterator.Next`.
module _ {I : Type 0} (next : I → Result (Option (Record × I))) where
  -- `heap.Pop` takes an item before which no other comes, by `Less`. The other items are a list in
  -- no particular order.
  unfoldable pub pop_min : Record × I → List (Record × I) → (Record × I) × List (Record × I)
  pop_min x [] = (x, [])
  pop_min x (y ∷ ys) =
      let p = pop_min (if less y.0 x.0 then y else x) ys in
      (p.0, (if less y.0 x.0 then x else y) ∷ p.1)

  -- Read the next record of an iterator and push it.
  unfoldable pub refill : I → List (Record × I) → Result (List (Record × I))
  refill it h = next it >>= λ o. elim o [ none ↦ ok h | some item ↦ ok (h ++ item ∷ []) ]

  unfoldable pub fill : List I → List (Record × I) → Result (List (Record × I))
  unfolding refill
  fill [] h = ok h
  fill (it ∷ its) h = refill it h >>= λ h'. fill its h'

  -- Pop the top and refill from its source.
  unfoldable pub pop_next : Record × I → List (Record × I) → Result (Record × List (Record × I))
  unfolding pop_min refill
  pop_next x xs = let p = pop_min x xs in refill p.0.1 p.1 >>= λ h. ok (p.0.0, h)

  -- The inner loop: every version of `key` at the front of the heap.
  unfoldable pub gather :
      ℕ → Bytes → List Record → List (Record × I) → Result (List Record × List (Record × I))
  unfolding pop_next
  gather fuel key group [] = ok (group, [])
  gather zero key group (x ∷ xs) = err stuck
  gather (suc fuel) key group (x ∷ xs) =
      let rest = pop_next x xs >>= λ p. gather fuel key (group ++ p.0 ∷ []) p.1 in
      if bytes_equal (pop_min x xs).0.0.key key then rest else ok (group, x ∷ xs)

  -- The outer loop: a key with all its versions in each round.
  unfoldable pub merge_loop : ℕ → ℕ → Bool → List Record → List (Record × I) → Result (List Record)
  unfolding gather retain sort_desc
  merge_loop fuel min_keep bottommost merged [] = ok merged
  merge_loop zero min_keep bottommost merged (x ∷ xs) = err stuck
  merge_loop (suc fuel) min_keep bottommost merged (x ∷ xs) = pop_next x xs >>= λ p.
      gather fuel p.0.key (p.0 ∷ []) p.1 >>= λ q.
      merge_loop fuel min_keep bottommost (merged ++ retain min_keep bottommost (sort_desc q.0)) q.1

  -- `Merge`, up to the `Write` of its result. The fuel bounds the number of records.
  unfoldable pub merge : ℕ → ℕ → Bool → List I → Result (List Record)
  unfolding merge_loop fill
  merge fuel min_keep bottommost [] = err merge_zero_tables
  merge fuel min_keep bottommost (it ∷ its) = do
    h ← fill (it ∷ its) []
    merged ← merge_loop fuel min_keep bottommost [] h
    elim merged [ [] ↦ err empty_merge | r ∷ rs ↦ ok (r ∷ rs) ]

-- The iterator over a sequence of records in memory.
abbrev pub next_of : List Record → Result (Option (Record × List Record))
next_of [] = ok none
next_of (r ∷ rs) = ok (some (r, rs))
