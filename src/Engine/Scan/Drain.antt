-- ===== src/Engine/Scan/Drain.antt =====
-- The calls of `Next`, from the first to the one that ends the scan.
use flume.Common.{
  ℕ, suc, ◌≡◌, ◌≢◌, refl, sym, ap, ◌∙◌, subst, arith, true, false, List, [], ◌∷◌, Option, none,
  some, leb, ◌==◌, if◌then◌else◌, length, All, Result, ok, Bool-cases, inl, inr, Returns→ok,
}
use flume.Common.Perm.{All-imp}
use flume.Bytes.{Bytes, bytes_equal, KeyLt}
use flume.Bytes.Order.{compare-eq→eq, KeyLt-trans}
use flume.Skiplist.{Kv, lookup}
use flume.Skiplist.Laws.{Sorted}
use flume.Sstable.{Record, newest, live, Distinct, type_tombstone}
use flume.Sstable.Order.{KeyLt-irrefl}
use flume.Sstable.Versions.{bytes_equal_self, newest-other}
use flume.Sstable.Merge.{pop_next, next_of}
use flume.Sstable.Merge.Heap.{Item, contents, IsRun, Stepped, pop_next-Returns}
use flume.Engine.Scan.{ScanHeap, best_of, scan_loop, scan_next}
use flume.Engine.Scan.Best.{Chosen, best_of-Returns, Round, chosen-Round}

-- The calls of `Next` give these pairs one by one, and then `ok=false`.
abbrev pub ScanYields : ScanHeap → List (Kv Bytes) → Type 0
ScanYields h [] = (h' : ScanHeap) × (scan_next h ≡ ok (none, h'))
ScanYields h (kv ∷ kvs) = (h' : ScanHeap) × (scan_next h ≡ ok (some kv, h')) × ScanYields h' kvs

-- The same of the value of the loop in one call.
abbrev pub Gives : Result (Option (Kv Bytes) × ScanHeap) → List (Kv Bytes) → Type 0
Gives q [] = (h : ScanHeap) × (q ≡ ok (none, h))
Gives q (kv ∷ kvs) = (h : ScanHeap) × (q ≡ ok (some kv, h)) × ScanYields h kvs

pub Gives-ScanYields :
    (h : ScanHeap) (out : List (Kv Bytes))
    → Gives (scan_loop (length (contents h)) h) out
    → ScanYields h out
unfolding scan_next
Gives-ScanYields h [] g = g
Gives-ScanYields h (kv ∷ kvs) g = g

-- What a reader at `s` sees of the versions in a heap.
pub record Listed (s : ℕ) (h : ScanHeap) (out : List (Kv Bytes)) : Type 0 where
  pub keys : Sorted out
  pub from :
      (k : Bytes)
      → All (λ x. KeyLt k x.key) (contents h)
      → All (λ (kv : Kv Bytes). KeyLt k kv.key) out
  pub reads : (k : Bytes) → lookup k out ≡ live (newest k s (contents h))

-- A heap on which `Next` works.
pub record IsScan (s : ℕ) (h : ScanHeap) : Type 0 where
  pub runs : All IsRun h
  pub seen : All (λ x. leb x.seq s ≡ true) (contents h)
  pub apart : Distinct (contents h)

loop_step :
    (x : Item) (xs : ScanHeap) (p q : Record × ScanHeap)
    → pop_next next_of x xs ≡ ok p
    → best_of (length (contents p.1)) p.0.key p.0 p.1 ≡ ok q
    → (m : ℕ)
    → scan_loop (suc m) (x ∷ xs) ≡ (
        if q.0.type == type_tombstone
        then scan_loop m q.1
        else ok (some (record { key = p.0.key; value = q.0.value }), q.1))
unfolding scan_loop
loop_step x xs p q e f m = rw (e, scan_loop) (rw f refl)

module _ (s : ℕ) (x : Item) (xs : ScanHeap) (i : IsScan s (x ∷ xs)) where
  -- The round of the outer loop, computed.
  pub record Computed : Type 0 where
    pub key : Bytes
    pub best : Record
    pub h' : ScanHeap
    pub round : Round s (x ∷ xs) key best h'
    pub loop :
        (m : ℕ)
        → scan_loop (suc m) (x ∷ xs) ≡ (
            if best.type == type_tombstone
            then scan_loop m h'
            else ok (some (record { key = key; value = best.value }), h'))

  pub computed : Computed
  computed =
      let (p, e, t) =
        Returns→ok (Stepped x xs) (pop_next next_of x xs) (pop_next-Returns x xs i.runs) in
      let (q, f, c) =
        Returns→ok (Chosen p.0 p.1) (best_of (length (contents p.1)) p.0.key p.0 p.1)
          (best_of-Returns (length (contents p.1)) p.0 p.1 t.runs t.least (omega arith)) in
      record {
        key = p.0.key;
        best = q.0;
        h' = q.1;
        round = chosen-Round s x xs i.runs i.seen i.apart p t q c;
        loop = loop_step x xs p q e f;
      }

pub rest-IsScan :
    (s : ℕ) (h h' : ScanHeap) (key : Bytes) (best : Record) → Round s h key best h' → IsScan s h'
rest-IsScan s h h' key best r = record { runs = r.runs; seen = r.seen; apart = r.apart }

-- What remains to be scanned after a round, put behind what the round has found.
module _ (s : ℕ) (h h' : ScanHeap) (key : Bytes) (best : Record) (r : Round s h key best h')
    (out : List (Kv Bytes)) (l : Listed s h' out) where
  others_from :
      (k : Bytes)
      → All (λ x. KeyLt k x.key) (contents h)
      → All (λ (kv : Kv Bytes). KeyLt k kv.key) out
  others_from k a = l.from k (
      All-imp (λ x. KeyLt key x.key) (λ x. KeyLt k x.key) (contents h')
        (λ x p. KeyLt-trans k key x.key (r.inside k a) p) r.later)

  other_key : (k : Bytes) → k ≢ key → lookup k out ≡ live (newest k s (contents h))
  other_key k n = l.reads k ∙ ap live (sym (r.elsewhere k n))

  later_key : lookup key out ≡ none
  later_key =
      l.reads key
      ∙ ap live (
          newest-other key s (contents h') (
            All-imp (λ x. KeyLt key x.key) (λ x. x.key ≢ key) (contents h')
              (λ x p e. KeyLt-irrefl key (subst (KeyLt key) e p)) r.later))
      ∙ (unfold live in refl)

  at_key :
      (o : List (Kv Bytes))
      → lookup key o ≡ live (some best)
      → ((k : Bytes) → k ≢ key → lookup k o ≡ live (newest k s (contents h)))
      → (k : Bytes) → lookup k o ≡ live (newest k s (contents h))
  at_key o e f k = elim (Bool-cases (bytes_equal k key)) [
    | inl q ↦
        subst (λ k. lookup k o ≡ live (newest k s (contents h)))
          (sym (compare-eq→eq k key (ground arith))) (e ∙ ap live (sym r.here))
    | inr q ↦ f k λ t. cc (subst (λ y. bytes_equal y key ≡ false) t q, bytes_equal_self key)
  ]

  pub dead-Listed : (best.type == type_tombstone) ≡ true → Listed s h out
  dead-Listed d = record {
    keys = l.keys;
    from = others_from;
    reads = at_key out (later_key ∙ (unfold live in rw d refl)) other_key;
  }

  abbrev found : Kv Bytes
  found = record { key = key; value = best.value }

  found_first : lookup key (found ∷ out) ≡ some best.value
  unfolding lookup
  found_first = rw (bytes_equal_self key) refl

  found_passed : (k : Bytes) → k ≢ key → lookup k (found ∷ out) ≡ lookup k out
  unfolding lookup
  found_passed k n = elim (Bool-cases (bytes_equal key k)) [
    | inl q ↦ absurd (n (sym (compare-eq→eq key k (ground arith))))
    | inr q ↦ rw q refl
  ]

  pub live-Listed : (best.type == type_tombstone) ≡ false → Listed s h (found ∷ out)
  live-Listed d = record {
    keys = (l.from key r.later, l.keys);
    from = λ k a. (r.inside k a, others_from k a);
    reads =
        at_key (found ∷ out) (found_first ∙ (unfold live in rw d refl))
          (λ k n. found_passed k n ∙ other_key k n);
  }
