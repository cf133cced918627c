-- ===== src/Engine/Scan/Walk.antt =====
-- A scan ends, and gives what a reader sees in its heap.
use flume.Common.{
  ℕ, zero, suc, ◌≤◌, ◌≡◌, refl, sym, ◌∙◌, subst, arith, true, false, List, [], ◌∷◌, none, ◌==◌,
  length, ok, Bool-cases, inl, inr,
}
use flume.Bytes.{Bytes}
use flume.Skiplist.{Kv, lookup}
use flume.Sstable.{newest, live, type_tombstone}
use flume.Sstable.Merge.Heap.{Item, contents}
use flume.Engine.Scan.{ScanHeap, scan_loop}
use flume.Engine.Scan.Drain.{
  ScanYields, Gives, Gives-ScanYields, Listed, IsScan, Computed, computed, rest-IsScan, dead-Listed,
  live-Listed,
}

module _ (s : ℕ) where
  abbrev Walked : ScanHeap → List (Kv Bytes) → Type 0
  Walked h out = Listed s h out × ((m : ℕ) → length (contents h) ≤ m → Gives (scan_loop m h) out)

  nothing-Listed : Listed s [] []
  nothing-Listed = record {
    keys = tt;
    from = λ k a. tt;
    reads = λ k. unfold lookup newest live in refl;
  }

  loop_ends : (m : ℕ) → scan_loop m [] ≡ ok (none, [])
  unfolding scan_loop
  loop_ends m = refl

  module _ (x : Item) (xs : ScanHeap) (i : IsScan s (x ∷ xs)) (c : Computed s x xs i)
      (out : List (Kv Bytes)) (w : Walked c.h' out) where
    skipped-Walked : (c.best.type == type_tombstone) ≡ true → Walked (x ∷ xs) out
    skipped-Walked d = (dead-Listed s (x ∷ xs) c.h' c.key c.best c.round out w.0 d, λ m l. more m l)
      where
        more : (m : ℕ) → length (contents (x ∷ xs)) ≤ m → Gives (scan_loop m (x ∷ xs)) out
        more zero l = absurd (omega (arith, c.round.fewer))
        more (suc m) l =
            subst (λ q. Gives q out) (sym (c.loop m ∙ rw d refl))
              (w.1 m (omega (arith, c.round.fewer)))

    found-Walked :
        (c.best.type == type_tombstone) ≡ false
        → Walked (x ∷ xs) (record { key = c.key; value = c.best.value } ∷ out)
    found-Walked d = (live-Listed s (x ∷ xs) c.h' c.key c.best c.round out w.0 d, λ m l. more m l)
      where
        more :
            (m : ℕ)
            → length (contents (x ∷ xs)) ≤ m
            → Gives (scan_loop m (x ∷ xs)) (record { key = c.key; value = c.best.value } ∷ out)
        more zero l = absurd (omega (arith, c.round.fewer))
        more (suc m) l = (
          c.h',
          c.loop m ∙ rw d refl,
          Gives-ScanYields c.h' out (w.1 (length (contents c.h')) (omega arith)),
        )

  walk :
      (n : ℕ) (h : ScanHeap)
      → IsScan s h
      → length (contents h) ≤ n
      → (out : List (Kv Bytes)) × Walked h out
  walk n [] i l = ([], (nothing-Listed, λ m l. ([], loop_ends m)))
  walk zero (x ∷ xs) i l = absurd (omega arith)
  walk (suc n) (x ∷ xs) i l =
      let c = computed s x xs i in
      let (out, w) =
        walk n c.h' (rest-IsScan s (x ∷ xs) c.h' c.key c.best c.round)
          (omega (arith, c.round.fewer)) in
      elim (Bool-cases (c.best.type == type_tombstone)) [
        | inl d ↦ (out, skipped-Walked x xs i c out w d)
        | inr d ↦
            (record { key = c.key; value = c.best.value } ∷ out, found-Walked x xs i c out w d)
      ]

  -- The scan of a heap: the pairs, and that the calls of `Next` give them.
  pub scan-Listed :
      (h : ScanHeap) → IsScan s h → (out : List (Kv Bytes)) × ScanYields h out × Listed s h out
  scan-Listed h i =
      let (out, w) = walk (length (contents h)) h i (omega arith) in
      (out, Gives-ScanYields h out (w.1 (length (contents h)) (omega arith)), w.0)
