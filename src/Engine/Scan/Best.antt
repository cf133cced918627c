-- ===== src/Engine/Scan/Best.antt =====
-- The inner loop of `Next` takes the newest version of a key off the heap, with all its others.
use flume.Common.{
  ℕ, zero, suc, ◌≤◌, ◌≡◌, ◌≢◌, refl, sym, ap, ◌∙◌, subst, arith, Bool, true, false, List, [], ◌∷◌,
  ◌++◌, none, some, ltb, leb, if◌then◌else◌, length, length-append, All, Result, ok, err, ◌>>=◌,
  Bool-cases, inl, inr, Returns, Returns-bind,
}
use flume.Common.Perm.{All-perm, All-imp, All-left, All-right, length-perm}
use mathlib.Core.List.{Permᴰ}
use flume.Bytes.{Bytes, bytes_equal, KeyLt}
use flume.Sstable.{Record, better, newest, Distinct}
use flume.Sstable.Order.{KeyLe, KeyLt-irrefl}
use flume.Sstable.Versions.{
  better-none, better_assoc, candidate_self, newest-append, newest-other, newest-perm,
  Distinct-perm, Distinct-right,
}
use flume.Sstable.Merge.{pop_min, pop_next, gather, next_of}
use flume.Sstable.Merge.Heap.{Item, contents, IsRun, Stepped}
use flume.Sstable.Merge.Group.{Gathered, gather-Returns}
use flume.Sstable.Merge.Retain.{OfKey}
use flume.Engine.Scan.{best_of}
use flume.Engine.Reads.{none-better}

unfoldable pub fold_best : Record → List Record → Record
fold_best best [] = best
fold_best best (x ∷ xs) = fold_best (if ltb best.seq x.seq then x else best) xs

fold_best-snoc :
    (b : Record) (xs : List Record) (y : Record)
    → fold_best b (xs ++ y ∷ []) ≡ (if ltb (fold_best b xs).seq y.seq then y else fold_best b xs)
unfolding fold_best
fold_best-snoc b [] y = refl
fold_best-snoc b (x ∷ xs) y = fold_best-snoc (if ltb b.seq x.seq then x else b) xs y

-- The best of a group that is not empty.
abbrev best_in : Record → List Record → Record
best_in d [] = d
best_in d (r ∷ rs) = fold_best r rs

abbrev choose : Record → Result (List Record × List Item) → Result (Record × List Item)
choose d q = q >>= λ g. ok (best_in d g.0, g.1)

module _ (fuel : ℕ) (key : Bytes) (d : Record) (x : Item) (xs : List Item) where
  popped :
      (r : Record) (g : List Record) (o : Result (Record × List Item))
      → ((b : Record) (rs : List Record) (h : List Item)
          → best_of fuel key (fold_best b rs) h ≡ choose d (gather next_of fuel key (b ∷ rs) h))
      → (o >>= λ p.
          best_of fuel key (if ltb (fold_best r g).seq p.0.seq then p.0 else fold_best r g) p.1)
        ≡ choose d (o >>= λ p. gather next_of fuel key ((r ∷ g) ++ p.0 ∷ []) p.1)
  popped r g (err e) ih = refl
  popped r g (ok p) ih =
      ap (λ b. best_of fuel key b p.1) (sym (fold_best-snoc r g p.0)) ∙ ih r (g ++ p.0 ∷ []) p.1

-- `Next` keeps of each group what `Merge` would have collected only the best of.
best_of-gather :
    (fuel : ℕ) (key : Bytes) (d r : Record) (g : List Record) (h : List Item)
    → best_of fuel key (fold_best r g) h ≡ choose d (gather next_of fuel key (r ∷ g) h)
unfolding best_of gather
best_of-gather fuel key d r g [] = refl
best_of-gather zero key d r g (x ∷ xs) = refl
best_of-gather (suc fuel) key d r g (x ∷ xs) =
    elim (Bool-cases (bytes_equal (pop_min next_of x xs).0.0.key key)) [
      | inl e ↦
          rw (e, best_of, gather)
            (popped fuel key d x xs r g (pop_next next_of x xs)
              (λ b rs h. best_of-gather fuel key d b rs h))
      | inr e ↦ rw (e, best_of, gather) refl
    ]

-- What the inner loop leaves of a heap, and the version that it has chosen.
pub record Chosen (r : Record) (h : List Item) (q : Record × List Item) : Type 0 where
  pub added : List Record
  pub best_is : q.0 ≡ fold_best r added
  pub of_key : All (OfKey r.key) added
  pub same : Permᴰ (contents h) (added ++ contents q.1)
  pub runs : All IsRun q.1
  pub later : All (λ x. KeyLt r.key x.key) (contents q.1)

pub best_of-Returns :
    (fuel : ℕ) (r : Record) (h : List Item)
    → All IsRun h
    → All (λ x. KeyLe r.key x.key) (contents h)
    → length (contents h) ≤ fuel
    → Returns (best_of fuel r.key r h) (Chosen r h)
unfolding fold_best
best_of-Returns fuel r h u l f =
    subst (λ q. Returns q (Chosen r h)) (sym same)
      (Returns-bind (Gathered r.key (r ∷ []) h) (Chosen r h) (gather next_of fuel r.key (r ∷ []) h)
        _ (gather-Returns fuel r.key (r ∷ []) h u l f)
        λ q g. record {
          added = g.added;
          best_is = ap (best_in r) g.grown;
          of_key = g.of_key;
          same = g.same;
          runs = g.runs;
          later = g.later;
        })
  where
    same : best_of fuel r.key r h ≡ choose r (gather next_of fuel r.key (r ∷ []) h)
    same = best_of-gather fuel r.key r r [] h

if_both : (P : Record → Type 0) (b : Bool) (x y : Record) → P x → P y → P (if b then x else y)
if_both P true x y p q = p
if_both P false x y p q = q

better-if : (r x : Record) → better (some r) (some x) ≡ some (if ltb r.seq x.seq then x else r)
unfolding better
better-if r x = elim (Bool-cases (ltb r.seq x.seq)) [ inl q ↦ rw q refl | inr q ↦ rw q refl ]

module _ (k : Bytes) (s : ℕ) where
  -- The best of the versions of a key is the newest one.
  pub newest-fold_best :
      (r : Record) (xs : List Record)
      → OfKey k r
      → All (OfKey k) xs
      → leb r.seq s ≡ true
      → All (λ x. leb x.seq s ≡ true) xs
      → better (some r) (newest k s xs) ≡ some (fold_best r xs)
  unfolding newest fold_best
  newest-fold_best r [] e h v w = better-none (some r)
  newest-fold_best r (x ∷ xs) e h v w =
      ap (λ o. better (some r) (better o (newest k s xs)))
        (candidate_self k s x h.0 ∙ ap (λ b. if b then some x else none) w.0)
      ∙ sym (better_assoc (some r) (some x) (newest k s xs))
      ∙ ap (λ o. better o (newest k s xs)) (better-if r x)
      ∙ newest-fold_best (if ltb r.seq x.seq then x else r) xs
          (if_both (OfKey k) (ltb r.seq x.seq) x r h.0 e) h.1
          (if_both (λ y. leb y.seq s ≡ true) (ltb r.seq x.seq) x r w.0 v) w.1

-- What one round of `Next` takes off a heap: all versions of the least key, and of these the best.
pub record Round (s : ℕ) (h : List Item) (key : Bytes) (best : Record) (h' : List Item)
    : Type 0 where
  pub runs : All IsRun h'
  pub seen : All (λ x. leb x.seq s ≡ true) (contents h')
  pub apart : Distinct (contents h')
  pub inside : (k : Bytes) → All (λ x. KeyLt k x.key) (contents h) → KeyLt k key
  pub fewer : suc (length (contents h')) ≤ length (contents h)
  pub later : All (λ x. KeyLt key x.key) (contents h')
  pub here : newest key s (contents h) ≡ some best
  pub elsewhere : (k : Bytes) → k ≢ key → newest k s (contents h) ≡ newest k s (contents h')

module _ (s : ℕ) (x : Item) (xs : List Item) (runs : All IsRun (x ∷ xs))
    (seen : All (λ y. leb y.seq s ≡ true) (contents (x ∷ xs)))
    (apart : Distinct (contents (x ∷ xs))) where
  module _ (p : Record × List Item) (t : Stepped x xs p) (q : Record × List Item)
      (c : Chosen p.0 p.1 q) where
    abbrev group : List Record
    group = p.0 ∷ c.added

    abbrev rest : List Record
    rest = contents q.1

    parts : Permᴰ (contents (x ∷ xs)) (group ++ rest)
    parts = Permᴰ.trans t.same (Permᴰ.cons refl c.same)

    all_seen : All (λ y. leb y.seq s ≡ true) (group ++ rest)
    all_seen = All-perm (λ y. leb y.seq s ≡ true) parts seen

    split :
        (k : Bytes) → newest k s (contents (x ∷ xs)) ≡ better (newest k s group) (newest k s rest)
    split k = newest-perm k s parts apart ∙ newest-append k s group rest

    group_read : newest p.0.key s group ≡ some q.0
    unfolding newest
    group_read =
        let v = All-left (λ y. leb y.seq s ≡ true) group rest all_seen in
        ap (λ o. better o (newest p.0.key s c.added))
          (candidate_self p.0.key s p.0 refl ∙ ap (λ b. if b then some p.0 else none) v.0)
        ∙ newest-fold_best p.0.key s p.0 c.added refl c.of_key v.0 v.1
        ∙ ap some (sym c.best_is)

    group_other : (k : Bytes) → k ≢ p.0.key → newest k s group ≡ none
    group_other k n = newest-other k s group (
      (λ e. n (sym e)),
      All-imp (OfKey p.0.key) (λ y. y.key ≢ k) c.added (λ y e f. n (sym f ∙ e)) c.of_key,
    )

    pub chosen-Round : Round s (x ∷ xs) p.0.key q.0 q.1
    chosen-Round = record {
      runs = c.runs;
      seen = All-right (λ y. leb y.seq s ≡ true) group rest all_seen;
      apart = Distinct-right group rest (Distinct-perm parts apart);
      inside = λ k h. (All-perm (λ y. KeyLt k y.key) parts h).0;
      fewer = omega (arith, length-perm parts, length-append group rest);
      later = c.later;
      here =
          split p.0.key
          ∙ ap (λ o. better o (newest p.0.key s rest)) group_read
          ∙ ap (better (some q.0)) (
              newest-other p.0.key s rest (
                All-imp (λ y. KeyLt p.0.key y.key) (λ y. y.key ≢ p.0.key) rest
                  (λ y l e. KeyLt-irrefl p.0.key (subst (KeyLt p.0.key) e l)) c.later))
          ∙ better-none (some q.0);
      elsewhere = λ k n.
          split k
          ∙ ap (λ o. better o (newest k s rest)) (group_other k n)
          ∙ none-better (newest k s rest);
    }
