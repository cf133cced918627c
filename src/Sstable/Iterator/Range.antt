-- ===== src/Sstable/Iterator/Range.antt =====
-- RangeIterator gives, for each key of its range, the newest version that the reader may see.
use flume.Common.{
  ℕ, ◌≡◌, ◌≢◌, refl, sym, ap, ◌∙◌, subst, arith, Bool, true, false, List, [], ◌∷◌, Option, none,
  some, leb, if◌then◌else◌, All, Bool-cases, inl, inr,
}
use flume.Common.Perm.{All-imp}
use flume.Bytes.{Bytes, bytes_equal, KeyLt}
use flume.Bytes.Order.{compare_cases, compare-eq→eq, KeyLt-trans}
use flume.Sstable.{Record, less, newest}
use flume.Sstable.Order.{KeyLe, KeyLe-of-less}
use flume.Sstable.Versions.{
  candidate_self, candidate-other, better-none, newest-Found, newest-seen, bytes_equal_self,
}
use flume.Sstable.Merge.Retain.{Ascending}
use flume.Sstable.Table.Lookup.{newest-before, newest-passed, later_all}
use flume.Sstable.Iterator.{past_end}
use flume.Sstable.Iterator.Group.{after, after-All, after-later, newest-after_key}

-- One record of each key, in key order.
abbrev pub KeysAscending : List Record → Type 0
KeysAscending [] = Unit
KeysAscending (r ∷ rs) = All (λ x. KeyLt r.key x.key) rs × KeysAscending rs

-- What the walk from the records `rs` on shows.
pub record Shown (end : Option Bytes) (s : ℕ) (rs out : List Record) : Type 0 where
  pub keys : KeysAscending out
  pub seen : All (λ r. leb r.seq s ≡ true) out
  pub from : (k : Bytes) → All (λ r. KeyLt k r.key) rs → All (λ r. KeyLt k r.key) out
  pub reads : (k : Bytes) → newest k s out ≡ (if past_end end k then none else newest k s rs)

pub least :
    (r : Record) (rs : List Record) → Ascending (r ∷ rs) → All (λ x. KeyLe r.key x.key) (r ∷ rs)
least r rs a = (
  inr refl,
  All-imp (λ x. less r x ≡ true) (λ x. KeyLe r.key x.key) rs (λ x p. KeyLe-of-less r x p) a.0,
)

pub past_later :
    (end : Option Bytes) (a b : Bytes) → KeyLt a b → past_end end a ≡ true → past_end end b ≡ true
unfolding past_end
past_later none a b p e = e
past_later (some m) a b p e = elim (compare_cases b m) [
  | inl q ↦ cc (rw (KeyLt-trans a b m p q) at e)
  | inr (inl (q, t)) ↦ rw q refl
  | inr (inr (q, t)) ↦ rw q refl
]

pub if_none : (b : Bool) → none ≡ (if◌then◌else◌ {A = Option Record} b none none)
if_none true = refl
if_none false = refl

module _ (end : Option Bytes) (s : ℕ) where
  pub nothing-Shown : Shown end s [] []
  unfolding newest
  nothing-Shown = record {
    keys = tt;
    seen = tt;
    from = λ k h. tt;
    reads = λ k. if_none (past_end end k);
  }

  stopped-reads :
      (r : Record) (rs : List Record)
      → Ascending (r ∷ rs)
      → past_end end r.key ≡ true
      → (k : Bytes) → past_end end k ≡ false
      → none ≡ newest k s (r ∷ rs)
  stopped-reads r rs a e k p = elim (compare_cases k r.key) [
    | inl q ↦ sym (newest-before k s (r ∷ rs) (later_all k r rs q a))
    | inr (inl (q, t)) ↦ cc (subst (λ x. past_end end x ≡ true) (sym t) e)
    | inr (inr (q, t)) ↦ cc (past_later end r.key k t e)
  ]

  pub stopped-Shown :
      (r : Record) (rs : List Record)
      → Ascending (r ∷ rs)
      → past_end end r.key ≡ true
      → Shown end s (r ∷ rs) []
  unfolding newest
  stopped-Shown r rs a e = record {
    keys = tt;
    seen = tt;
    from = λ k h. tt;
    reads = λ k. elim (Bool-cases (past_end end k)) [
      | inl p ↦ rw p refl
      | inr p ↦ rw p (stopped-reads r rs a e k p)
    ];
  }

  module _ (r : Record) (rs out : List Record) (a : Ascending (r ∷ rs))
      (sh : Shown end s (after r.key (r ∷ rs)) out) where
    abbrev rows : List Record
    rows = r ∷ rs

    later : All (λ x. KeyLt r.key x.key) (after r.key rows)
    later = after-later r.key rows a (least r rs a)

    other_key :
        (k : Bytes)
        → k ≢ r.key
        → newest k s out ≡ (if past_end end k then none else newest k s rows)
    other_key k n =
        sh.reads k
        ∙ ap (λ o. if past_end end k then none else o) (sym (newest-after_key r.key k s rows n))

    same_key : newest r.key s out ≡ none
    same_key = newest-before r.key s out (sh.from r.key later)

    pub skipped-Shown : newest r.key s rows ≡ none → Shown end s rows out
    skipped-Shown e = record {
      keys = sh.keys;
      seen = sh.seen;
      from = λ k h. sh.from k (after-All r.key (λ x. KeyLt k x.key) rows h);
      reads = λ k. elim (Bool-cases (bytes_equal k r.key)) [
        | inl q ↦
            subst (λ k. newest k s out ≡ (if past_end end k then none else newest k s rows))
              (sym (compare-eq→eq k r.key (ground arith)))
              (same_key
                ∙ if_none (past_end end r.key)
                ∙ ap (λ o. if past_end end r.key then none else o) (sym e))
        | inr q ↦
            other_key k
              λ t. cc (subst (λ x. bytes_equal x r.key ≡ false) t q, bytes_equal_self r.key)
      ];
    }

    module _ (x : Record) (e : newest r.key s rows ≡ some x) (p : past_end end r.key ≡ false) where
      of_key : x.key ≡ r.key
      of_key = (newest-Found (λ y. KeyLe r.key y.key) r.key s rows x e (least r rs a)).1

      visible : leb x.seq s ≡ true
      visible = newest-seen r.key s rows x e

      first_read : newest r.key s (x ∷ out) ≡ some x
      unfolding newest
      first_read =
          rw (candidate_self r.key s x of_key) (rw visible (rw same_key (better-none (some x))))

      pub found-Shown : Shown end s rows (x ∷ out)
      found-Shown = record {
        keys =
            (subst (λ k. All (λ y. KeyLt k y.key) out) (sym of_key) (sh.from r.key later), sh.keys);
        seen = (visible, sh.seen);
        from = λ k h. (
          (newest-Found (λ y. KeyLt k y.key) r.key s rows x e h).0,
          sh.from k (after-All r.key (λ x. KeyLt k x.key) rows h),
        );
        reads = λ k. elim (Bool-cases (bytes_equal k r.key)) [
          | inl q ↦
              subst (λ k. newest k s (x ∷ out) ≡ (if past_end end k then none else newest k s rows))
                (sym (compare-eq→eq k r.key (ground arith))) (first_read ∙ sym e ∙ rw p refl)
          | inr q ↦
              let n : k ≢ r.key =
                λ t. cc (subst (λ x. bytes_equal x r.key ≡ false) t q, bytes_equal_self r.key) in
              newest-passed k s x out (candidate-other k s x λ t. n (sym t ∙ of_key))
              ∙ other_key k n
        ];
      }
