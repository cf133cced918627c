-- ===== src/Sstable/Merge/Correct.antt =====
-- The merge as a whole: order of its output, and what reads find in it.
use flume.Common.{
  ℕ, zero, suc, ◌≤◌, ◌≡◌, refl, sym, ap, ◌∙◌, subst, arith, Bool, true, List, [], ◌∷◌, ◌++◌,
  append-nil, append_assoc, none, some, All, inl, inr, Result, ok, err, Returns, Returns-bind,
  Returns→ok, Returns-imp, length, empty_merge, length-append,
}
use flume.Common.Perm.{All-imp, of_eq, length-perm}
use mathlib.Core.List.{Permᴰ}
use flume.Bytes.{Bytes, KeyLt}
use flume.Sstable.{Record, less, newest, live, Distinct, type_tombstone}
use flume.Sstable.Order.{KeyLe, KeyLe-of-less}
use flume.Sstable.Versions.{newest-perm, Distinct-perm, Distinct-left, Distinct-right}
use flume.Sstable.Merge.{pop_next, gather, merge_loop, merge, retain, sort_desc, next_of, fill}
use flume.Sstable.Merge.Heap.{
  Item, contents, IsRun, KeySorted, Stepped, pop_next-Returns, all_records, fill-Returns,
}
use flume.Sstable.Merge.Retain.{OfKey, Ascending, SameRead}
use flume.Sstable.Merge.Group.{Gathered, gather-Returns}
use flume.Sstable.Merge.Step.{kept-Ascending, kept-parts, kept-reads, SameRead-cong}

-- What the outer loop adds to `merged`: some of the records of the heap, strictly sorted, in which
-- every read at or above the oldest snapshot finds what it found in the heap, or rightly nothing.
pub record Merged (m : ℕ) (b : Bool) (h : List Item) (merged out : List Record) : Type 0 where
  pub tail : List Record
  pub dropped : List Record
  pub grown : out ≡ merged ++ tail
  pub order : Ascending tail
  pub parts : Permᴰ (contents h) (tail ++ dropped)
  pub reads : (k : Bytes) (s : ℕ) → m ≤ s → SameRead b (newest k s (contents h)) (newest k s tail)

whole-perm :
    (x : Item) (xs : List Item) (p : Record × List Item)
    → Stepped x xs p
    → (q : List Record × List Item) → Gathered p.0.key (p.0 ∷ []) p.1 q
    → Permᴰ (contents (x ∷ xs)) (q.0 ++ contents q.1)
whole-perm x xs p t q g =
    Permᴰ.trans t.same
      (Permᴰ.trans (Permᴰ.cons refl g.same) (of_eq (ap (λ l. l ++ contents q.1) (sym g.grown))))

-- A round puts what it keeps of its group before what the later rounds keep.
extend :
    (m : ℕ) (b : Bool) (key : Bytes) (group merged : List Record) (x : Item) (xs h : List Item)
    (out : List Record)
    → Permᴰ (contents (x ∷ xs)) (group ++ contents h)
    → Distinct (contents (x ∷ xs))
    → All (OfKey key) group
    → All (λ y. KeyLt key y.key) (contents h)
    → Merged m b h (merged ++ retain m b (sort_desc group)) out
    → Merged m b (x ∷ xs) merged out
extend m b key group merged x xs h out whole d of_key later n =
    let all = Distinct-perm whole d in
    let alone = Distinct-left group (contents h) all in
    let (dead, parts) =
      kept-parts m b key group (contents h) n.tail n.dropped of_key later alone n.parts n.order in
    record {
      tail = retain m b (sort_desc group) ++ n.tail;
      dropped = dead;
      grown = n.grown ∙ append_assoc merged (retain m b (sort_desc group)) n.tail;
      order =
          kept-Ascending m b key group (contents h) n.tail n.dropped of_key later alone n.parts
            n.order;
      parts = Permᴰ.trans whole parts;
      reads = λ k s bound. SameRead-cong b (sym (newest-perm k s whole d)) refl (
          kept-reads m b key group (contents h) n.tail n.dropped of_key later alone n.parts n.order
            k s bound (n.reads k s bound));
    }

merge_loop-Returns :
    (fuel m : ℕ) (b : Bool) (merged : List Record) (h : List Item)
    → All IsRun h
    → Distinct (contents h)
    → length (contents h) ≤ fuel
    → Returns (merge_loop next_of fuel m b merged h) (Merged m b h merged)
unfolding merge_loop
merge_loop-Returns fuel m b merged [] r d f = record {
  tail = [];
  dropped = [];
  grown = sym (append-nil merged);
  order = tt;
  parts = Permᴰ.nil;
  reads = λ k s bound. inl refl;
}
merge_loop-Returns zero m b merged (x ∷ xs) r d f = absurd (omega arith)
merge_loop-Returns (suc fuel) m b merged (x ∷ xs) r d f =
    Returns-bind (Stepped x xs) _ (pop_next next_of x xs) _ (pop_next-Returns x xs r) λ p t.
      Returns-bind (Gathered p.0.key (p.0 ∷ []) p.1) _ (gather next_of fuel p.0.key (p.0 ∷ []) p.1)
        _
        (gather-Returns fuel p.0.key (p.0 ∷ []) p.1 t.runs t.least
          (omega (arith, f, length-perm t.same)))
        λ q g.
          let whole = whole-perm x xs p t q g in
          let all = Distinct-perm whole d in
          Returns-imp (Merged m b q.1 (merged ++ retain m b (sort_desc q.0))) _
            (merge_loop next_of fuel m b (merged ++ retain m b (sort_desc q.0)) q.1)
            (merge_loop-Returns fuel m b (merged ++ retain m b (sort_desc q.0)) q.1 g.runs
              (Distinct-right q.0 (contents q.1) all)
              (omega
                (arith, f, length-perm whole, length-append q.0 (contents q.1), ap length g.grown)))
            λ out n.
              extend m b p.0.key q.0 merged x xs q.1 out whole d
                (subst (All (OfKey p.0.key)) (sym g.grown) (refl, g.of_key)) g.later n

-- A table is sorted as `Write` wants it, and so its keys do not go down.
pub Ascending-KeySorted : (rs : List Record) → Ascending rs → KeySorted rs
Ascending-KeySorted [] h = tt
Ascending-KeySorted (r ∷ rs) h = (
  All-imp (λ x. less r x ≡ true) (λ x. KeyLe r.key x.key) rs (λ x p. KeyLe-of-less r x p) h.0,
  Ascending-KeySorted rs h.1,
)

All-KeySorted : (ts : List (List Record)) → All Ascending ts → All KeySorted ts
All-KeySorted [] h = tt
All-KeySorted (t ∷ ts) h = (Ascending-KeySorted t h.0, All-KeySorted ts h.1)

-- What a merge makes of its inputs: some of their records, strictly sorted by key and then by
-- sequence number, in which each read at or above the oldest snapshot finds what it found in the
-- inputs, or finds nothing where that was a tombstone which the pass may drop.
pub record MergeOf (m : ℕ) (b : Bool) (inputs out : List Record) : Type 0 where
  pub order : Ascending out
  pub dropped : List Record
  pub parts : Permᴰ inputs (out ++ dropped)
  pub reads : (k : Bytes) (s : ℕ) → m ≤ s → SameRead b (newest k s inputs) (newest k s out)

-- The outcome of `Merge` when the loop has kept `out`.
abbrev pub outcome : List Record → Result (List Record)
outcome [] = err empty_merge
outcome (r ∷ rs) = ok (r ∷ rs)

-- `Merge` of sorted tables with distinct versions gives a merge of its inputs in the sense above.
pub merge-MergeOf :
    (m : ℕ) (b : Bool) (t : List Record) (ts : List (List Record)) (fuel : ℕ)
    → All Ascending (t ∷ ts)
    → Distinct (all_records (t ∷ ts))
    → length (all_records (t ∷ ts)) ≤ fuel
    → (out : List Record) × MergeOf m b (all_records (t ∷ ts)) out
      × (merge next_of fuel m b (t ∷ ts) ≡ outcome out)
unfolding merge
merge-MergeOf m b t ts fuel a d f =
    let inputs = all_records (t ∷ ts) in
    let (h, e, p) =
      Returns→ok (λ h. Permᴰ (inputs ++ []) (contents h) × All IsRun h) (fill next_of (t ∷ ts) [])
        (fill-Returns (t ∷ ts) [] (All-KeySorted (t ∷ ts) a) tt) in
    let same = Permᴰ.trans (of_eq (sym (append-nil inputs))) p.0 in
    let (out, e', n) = Returns→ok (Merged m b h []) (merge_loop next_of fuel m b [] h) (
      merge_loop-Returns fuel m b [] h p.1 (Distinct-perm same d)
        (omega (arith, f, length-perm same))) in
    (
      n.tail,
      record {
        order = n.order;
        dropped = n.dropped;
        parts = Permᴰ.trans same n.parts;
        reads =
            λ k s bound. SameRead-cong b (sym (newest-perm k s same d)) refl (n.reads k s bound);
      },
      finish h out n.tail e e' n.grown,
    )
  where
    finish :
        (h : List Item) (out tail : List Record)
        → fill next_of (t ∷ ts) [] ≡ ok h
        → merge_loop next_of fuel m b [] h ≡ ok out
        → out ≡ tail
        → merge next_of fuel m b (t ∷ ts) ≡ outcome tail
    finish h out tail e1 e2 e3 = rw (e1, e2, e3) (settle tail)
      where
        settle :
            (l : List Record) → (elim l [ [] ↦ err empty_merge | r ∷ rs ↦ ok (r ∷ rs) ]) ≡ outcome l
        settle [] = refl
        settle (r ∷ rs) = refl

-- The records that `Merge` keeps; none, if it returns an error.
abbrev pub kept : Result (List Record) → List Record
kept (ok out) = out
kept (err e) = []

kept-outcome : (out : List Record) → kept (outcome out) ≡ out
kept-outcome [] = refl
kept-outcome (r ∷ rs) = refl

module _ (m : ℕ) (b : Bool) (t : List Record) (ts : List (List Record)) (fuel : ℕ)
    (a : All Ascending (t ∷ ts)) (d : Distinct (all_records (t ∷ ts)))
    (f : length (all_records (t ∷ ts)) ≤ fuel) where
  whole :
      MergeOf m b (all_records (t ∷ ts)) (kept (merge next_of fuel m b (t ∷ ts)))
      × (merge next_of fuel m b (t ∷ ts) ≡ outcome (kept (merge next_of fuel m b (t ∷ ts))))
  whole =
      let (out, o, e) = merge-MergeOf m b t ts fuel a d f in
      let same : out ≡ kept (merge next_of fuel m b (t ∷ ts)) =
        sym (ap kept e ∙ kept-outcome out) in
      (subst (MergeOf m b (all_records (t ∷ ts))) same o, e ∙ ap outcome same)

  -- `Merge` of sorted tables with distinct versions ends within as many rounds as there are records;
  -- its only error is `ErrEmptyMerge`, exactly where it keeps nothing; and what it keeps is in the
  -- order that `Write` wants, by key and then by sequence number, highest first.
  pub merge-Ascending :
      (merge next_of fuel m b (t ∷ ts) ≡ outcome (kept (merge next_of fuel m b (t ∷ ts))))
      × Ascending (kept (merge next_of fuel m b (t ∷ ts)))
  merge-Ascending = (whole.1, whole.0.order)

  -- What `Merge` keeps is, with what it drops, a permutation of the records of its inputs.
  pub merge-perm :
      (dropped : List Record) × Permᴰ
        (all_records (t ∷ ts))
        (kept (merge next_of fuel m b (t ∷ ts)) ++ dropped)
  merge-perm = (whole.0.dropped, whole.0.parts)

  -- A read at or above `minKeepSeq` finds in what `Merge` keeps the version that it found in the
  -- inputs; only in a bottommost pass it may find nothing instead, where that version was a tombstone.
  pub merge-reads :
      (k : Bytes) (s : ℕ)
      → m ≤ s
      → SameRead b
          (newest k s (all_records (t ∷ ts)))
          (newest k s (kept (merge next_of fuel m b (t ∷ ts))))
  merge-reads k s bound = whole.0.reads k s bound

-- Whatever a merge keeps, a read at or above the oldest snapshot returns the same value.
pub MergeOf-live :
    (m : ℕ) (b : Bool) (inputs out : List Record)
    → MergeOf m b inputs out
    → (k : Bytes) (s : ℕ) → m ≤ s
    → live (newest k s out) ≡ live (newest k s inputs)
MergeOf-live m b inputs out o k s bound = elim (o.reads k s bound) [
  | inl e ↦ ap live e
  | inr d ↦ ap live d.gone ∙ sym (ap live d.was ∙ tombstone_read d.tombstone d.is_tombstone)
]
  where
    tombstone_read : (r : Record) → r.type ≡ type_tombstone → live (some r) ≡ live none
    tombstone_read r e = unfold live in rw e
