-- ===== src/Sstable/Merge/Step.antt =====
-- One round of the outer loop of `Merge`: what it keeps of a group, before the groups behind it.
use flume.Common.{
  ℕ, ◌≤◌, ◌≡◌, ◌≢◌, refl, sym, ap, ◌∙◌, subst, Bool, true, false, List, [], ◌∷◌, ◌++◌, Option, none,
  All, All-append, inl, inr, Bool-cases,
}
use flume.Common.Perm.{All-perm, All-left, All-imp, of_eq, interchange, append-perm}
use mathlib.Core.List.{Permᴰ}
use flume.Bytes.{Bytes, KeyLt, bytes_equal}
use flume.Bytes.Order.{compare-eq→eq, compare_self}
use flume.Sstable.{Record, less, better, newest, Distinct}
use flume.Sstable.Order.{KeyLt-irrefl, less-of-key}
use flume.Sstable.Versions.{newest-append, newest-perm, newest-other, better-none}
use flume.Sstable.Merge.{retain, sort_desc}
use flume.Sstable.Merge.Retain.{
  OfKey, Ascending, SameRead, sort_desc-perm, sort_desc-Strict, Strict-Ascending, retain-All,
  retain-Ascending, retain-newest, retain-prefix,
}
use flume.Sstable.Merge.Group.{is_eq-true}

pub Ascending-append :
    (xs ys : List Record)
    → Ascending xs
    → Ascending ys
    → All (λ x. All (λ y. less x y ≡ true) ys) xs
    → Ascending (xs ++ ys)
Ascending-append [] ys a b c = b
Ascending-append (x ∷ xs) ys a b c =
    (All-append (λ y. less x y ≡ true) xs ys a.0 c.0, Ascending-append xs ys a.1 b c.1)

before_later :
    (k : Bytes) (xs ys : List Record)
    → All (OfKey k) xs
    → All (λ y. KeyLt k y.key) ys
    → All (λ x. All (λ y. less x y ≡ true) ys) xs
before_later k [] ys h l = tt
before_later k (x ∷ xs) ys h l = (
  All-imp (λ y. KeyLt k y.key) (λ y. less x y ≡ true) ys
      (λ y p. less-of-key x y (subst (λ z. KeyLt z y.key) (sym h.0) p)) l,
  before_later k xs ys h.1 l,
)

none-better : (x : Option Record) → better none x ≡ x
none-better x = unfold better in refl

pub SameRead-cong :
    (b : Bool) {x x' y y' : Option Record} → x ≡ x' → y ≡ y' → SameRead b x y → SameRead b x' y'
SameRead-cong b {x} {x'} {y} {y'} e f h =
    subst (λ z. SameRead b z y') e (subst (λ z. SameRead b x z) f h)

-- One group and the groups behind it.
module _ (m : ℕ) (b : Bool) (key : Bytes) (group rest tail dropped : List Record)
    (of_key : All (OfKey key) group) (later : All (λ x. KeyLt key x.key) rest)
    (distinct : Distinct group) (parts : Permᴰ rest (tail ++ dropped))
    (order : Ascending tail) where
  abbrev sorted : List Record
  sorted = sort_desc group

  abbrev kept : List Record
  kept = retain m b sorted

  sorted-OfKey : All (OfKey key) sorted
  sorted-OfKey = All-perm (OfKey key) (sort_desc-perm group) of_key

  tail_later : All (λ x. KeyLt key x.key) tail
  tail_later =
      All-left (λ x. KeyLt key x.key) tail dropped (All-perm (λ x. KeyLt key x.key) parts later)

  pub kept-Ascending : Ascending (kept ++ tail)
  kept-Ascending =
      Ascending-append kept tail
        (retain-Ascending m b sorted
          (Strict-Ascending key sorted sorted-OfKey (sort_desc-Strict key group of_key distinct)))
        order
        (before_later key kept tail (retain-All (OfKey key) m b sorted sorted-OfKey) tail_later)

  pub kept-parts : (dead : List Record) × Permᴰ (group ++ rest) ((kept ++ tail) ++ dead)
  kept-parts =
      let (old, e) = retain-prefix m b sorted in
      (
        old ++ dropped,
        Permᴰ.trans (append-perm (Permᴰ.trans (sort_desc-perm group) (of_eq e)) parts)
            (interchange kept old tail dropped),
      )

  not_key :
      (k : Bytes) (xs : List Record)
      → bytes_equal key k ≡ false
      → All (OfKey key) xs
      → All (λ x. x.key ≢ k) xs
  not_key k xs ne h =
      All-imp (OfKey key) (λ x. x.key ≢ k) xs
        (λ x e p. cc (subst (λ z. bytes_equal z k ≡ false) (sym e ∙ p) ne, compare_self k)) h

  not_later : (xs : List Record) → All (λ x. KeyLt key x.key) xs → All (λ x. x.key ≢ key) xs
  not_later xs h =
      All-imp (λ x. KeyLt key x.key) (λ x. x.key ≢ key) xs
        (λ x p e. KeyLt-irrefl key (subst (λ z. KeyLt key z) e p)) h

  pub kept-reads :
      (k : Bytes) (s : ℕ)
      → m ≤ s
      → SameRead b (newest k s rest) (newest k s tail)
      → SameRead b (newest k s (group ++ rest)) (newest k s (kept ++ tail))
  kept-reads k s bound ih = elim (Bool-cases (bytes_equal key k)) [
    | inl e ↦
        let same : key ≡ k = compare-eq→eq key k (is_eq-true _ e) in
        let none_left =
          newest-other k s rest
            (subst (λ z. All (λ x. x.key ≢ z) rest) same (not_later rest later)) in
        let none_kept =
          newest-other k s tail
            (subst (λ z. All (λ x. x.key ≢ z) tail) same (not_later tail tail_later)) in
        SameRead-cong b
          (sym (
            newest-append k s group rest
            ∙ ap (better (newest k s group)) none_left
            ∙ better-none (newest k s group)
            ∙ newest-perm k s (sort_desc-perm group) distinct))
          (sym (
            newest-append k s kept tail
            ∙ ap (better (newest k s kept)) none_kept
            ∙ better-none (newest k s kept)))
          (retain-newest k m s bound b sorted (subst (λ z. All (OfKey z) sorted) same sorted-OfKey)
            (sort_desc-Strict key group of_key distinct))
    | inr e ↦
        let none_here = newest-other k s group (not_key k group e of_key) in
        let none_kept =
          newest-other k s kept
            (not_key k kept e (retain-All (OfKey key) m b sorted sorted-OfKey)) in
        SameRead-cong b
          (sym (
            newest-append k s group rest
            ∙ ap (λ o. better o (newest k s rest)) none_here
            ∙ none-better (newest k s rest)))
          (sym (
            newest-append k s kept tail
            ∙ ap (λ o. better o (newest k s tail)) none_kept
            ∙ none-better (newest k s tail)))
          ih
  ]
