-- ===== src/Sstable/Merge/Group.antt =====
-- The inner loop of `Merge`: it takes every version of one key off the heap.
use flume.Common.{
  ℕ, zero, suc, ◌≤◌, ◌≡◌, refl, sym, ap, ◌∙◌, subst, arith, true, false, List, [], ◌∷◌, ◌++◌,
  append-nil, append_assoc, All, inl, inr, Bool-cases, Returns, Returns-bind, Returns-imp, length,
  Ordering,
}
use flume.Common.Perm.{All-perm, All-imp, length-perm}
use mathlib.Core.List.Permᴰ
use mathlib.Core.List.{Permᴰ}
use flume.Bytes.{Bytes, KeyLt, bytes_equal, is_eq}
use flume.Bytes.Order.{compare-eq→eq, compare_self, KeyLt-trans}
use flume.Sstable.{Record}
use flume.Sstable.Order.{KeyLe}
use flume.Sstable.Merge.{pop_min, pop_next, gather, next_of}
use flume.Sstable.Merge.Heap.{Item, contents, IsRun, Stepped, pop_next-Returns, pop_min-Top}
use flume.Sstable.Merge.Retain.{OfKey}

-- What the inner loop has added to a group, and what it leaves: all versions of the key, and the
-- records of later keys.
pub record Gathered (k : Bytes) (group : List Record) (h : List Item) (q : List Record × List Item)
    : Type 0 where
  pub added : List Record
  pub grown : q.0 ≡ group ++ added
  pub of_key : All (OfKey k) added
  pub same : Permᴰ (contents h) (added ++ contents q.1)
  pub runs : All IsRun q.1
  pub later : All (λ x. KeyLt k x.key) (contents q.1)

pub is_eq-true : (o : Ordering) → is_eq o ≡ true → o ≡ Ordering.eq
is_eq-true o h = ground arith

KeyLt-KeyLe : (a b c : Bytes) → KeyLt a b → KeyLe b c → KeyLt a c
KeyLt-KeyLe a b c h (inl p) = KeyLt-trans a b c h p
KeyLt-KeyLe a b c h (inr e) = subst (λ x. KeyLt a x) e h

strictly : (k t : Bytes) → KeyLe k t → bytes_equal t k ≡ false → KeyLt k t
strictly k t (inl p) e = p
strictly k t (inr q) e = cc (subst (λ x. bytes_equal t x ≡ false) q e, compare_self t)

-- `gather` on a heap of later or equal keys ends, with all versions of its key.
pub gather-Returns :
    (fuel : ℕ) (k : Bytes) (group : List Record) (h : List Item)
    → All IsRun h
    → All (λ x. KeyLe k x.key) (contents h)
    → length (contents h) ≤ fuel
    → Returns (gather next_of fuel k group h) (Gathered k group h)
unfolding gather
gather-Returns fuel k group [] r l f = record {
  added = [];
  grown = sym (append-nil group);
  of_key = tt;
  same = Permᴰ.nil;
  runs = tt;
  later = tt;
}
gather-Returns zero k group (x ∷ xs) r l f = absurd (omega arith)
gather-Returns (suc fuel) k group (x ∷ xs) r l f =
    elim (Bool-cases (bytes_equal (pop_min next_of x xs).0.0.key k)) [
      | inl e ↦
          rw (e, gather)
            (Returns-bind (Stepped x xs) _ (pop_next next_of x xs) _ (pop_next-Returns x xs r)
              λ p t.
                Returns-imp (Gathered k (group ++ p.0 ∷ []) p.1) _
                  (gather next_of fuel k (group ++ p.0 ∷ []) p.1)
                  (gather-Returns fuel k (group ++ p.0 ∷ []) p.1 t.runs
                    (All-perm (λ x. KeyLe k x.key) t.same l).1
                    (omega (arith, f, length-perm t.same)))
                  λ q g. record {
                    added = p.0 ∷ g.added;
                    grown = g.grown ∙ append_assoc group (p.0 ∷ []) g.added;
                    of_key =
                        (ap (λ r. r.key) t.is_top ∙ compare-eq→eq _ k (is_eq-true _ e), g.of_key);
                    same = Permᴰ.trans t.same (Permᴰ.cons refl g.same);
                    runs = g.runs;
                    later = g.later;
                  })
      | inr e ↦
          rw (e, gather)
            (let t = pop_min-Top x xs r in
              record {
                added = [];
                grown = sym (append-nil group);
                of_key = tt;
                same = Permᴰ.refl (contents (x ∷ xs));
                runs = r;
                later =
                    All-imp (λ y. KeyLe (pop_min next_of x xs).0.0.key y.key) (λ y. KeyLt k y.key)
                      (contents (x ∷ xs))
                      (λ y p.
                        KeyLt-KeyLe k _ y.key
                          (strictly k _ (All-perm (λ x. KeyLe k x.key) t.inside l).0 e) p)
                      t.least;
              })
    ]
