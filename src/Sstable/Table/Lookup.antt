-- ===== src/Sstable/Table/Lookup.antt =====
-- `Get` on an opened table reads the newest visible version of its key.
use flume.Common.{
  ℕ, ◌<◌, ◌≡◌, ◌≢◌, refl, sym, ap, ◌∙◌, subst, arith, true, false, List, [], ◌∷◌, none, some, leb,
  drop, All, ok, Bool-cases, inl, inr, ◌⊎◌,
}
use flume.Common.Perm.{All-imp}
use flume.Bytes.{Bytes, bytes_equal, KeyLt}
use flume.Bytes.Order.{compare_cases, compare-lt→gt, KeyLt-trans}
use flume.Sstable.{Record, less, candidate, newest, better, is_sorted, sorted_from}
use flume.Sstable.Order.{KeyLe, KeyLe-of-less, less_trans, less-cases, KeyLt-irrefl}
use flume.Sstable.Versions.{
  candidate-other, newest-other, bytes_equal_self, candidate_self, better_assoc, better-none,
}
use flume.Sstable.Merge.Retain.{Ascending}
use flume.Sstable.Format.{Flate, IndexEntry}
use flume.Sstable.Table.{read_record_at, get_loop}
use flume.Sstable.Table.Search.{lower, Ordered}

-- The test of `Write` compares neighbours; with that every record is in order with all after it.
sorted_from-Ascending :
    (r : Record) (rs : List Record) → sorted_from r rs ≡ true → Ascending (r ∷ rs)
unfolding sorted_from
sorted_from-Ascending r [] h = (tt, tt)
sorted_from-Ascending r (x ∷ xs) h =
    let lt : less r x ≡ true = ground arith in
    let later = sorted_from-Ascending x xs (ground arith) in
    (
      (
        lt,
        All-imp (λ y. less x y ≡ true) (λ y. less r y ≡ true) xs (λ y p. less_trans r x y lt p)
            later.0,
      ),
      later,
    )

pub is_sorted-Ascending : (rs : List Record) → is_sorted rs ≡ true → Ascending rs
unfolding is_sorted
is_sorted-Ascending [] h = tt
is_sorted-Ascending (r ∷ rs) h = sorted_from-Ascending r rs h

module _ (k : Bytes) (s : ℕ) where
  -- A record hides every version of its key that comes after it.
  pub newest-behind :
      (r : Record) (xs : List Record)
      → r.key ≡ k
      → All (λ x. less r x ≡ true) xs
      → better (some r) (newest k s xs) ≡ some r
  unfolding newest
  newest-behind r [] e h = better-none (some r)
  newest-behind r (x ∷ xs) e h =
      sym (better_assoc (some r) (candidate k s x) (newest k s xs))
      ∙ ap (λ o. better o (newest k s xs)) (one (less-cases r x h.0))
      ∙ newest-behind r xs e h.1
    where
      one :
          KeyLt r.key x.key ⊎ ((r.key ≡ x.key) × (x.seq < r.seq))
          → better (some r) (candidate k s x) ≡ some r
      one (inl p) =
          ap (better (some r)) (
            candidate-other k s x
              λ q. KeyLt-irrefl k (subst (λ y. KeyLt y k) e (subst (KeyLt r.key) q p)))
          ∙ better-none (some r)
      one (inr (p, q)) = rw (candidate_self k s x (sym p ∙ e)) (unfold better in ground arith)

  pub newest-visible :
      (r : Record) (xs : List Record)
      → r.key ≡ k
      → leb r.seq s ≡ true
      → All (λ x. less r x ≡ true) xs
      → newest k s (r ∷ xs) ≡ some r
  unfolding newest
  newest-visible r xs e v h = rw (candidate_self k s r e) (rw v (newest-behind r xs e h))

  pub newest-passed :
      (r : Record) (xs : List Record) → candidate k s r ≡ none → newest k s (r ∷ xs) ≡ newest k s xs
  unfolding newest
  newest-passed r xs e = rw e (unfold better in refl)

  pub not_visible : (r : Record) → r.key ≡ k → leb r.seq s ≡ false → candidate k s r ≡ none
  not_visible r e v = candidate_self k s r e ∙ rw v refl

pub KeyLt-ne : (a b : Bytes) → KeyLt a b → b ≢ a
KeyLt-ne a b h e = KeyLt-irrefl a (subst (KeyLt a) e h)

-- No version of a key that comes before all the records.
pub newest-before :
    (k : Bytes) (s : ℕ) (rs : List Record) → All (λ r. KeyLt k r.key) rs → newest k s rs ≡ none
newest-before k s rs h =
    newest-other k s rs
      (All-imp (λ r. KeyLt k r.key) (λ r. r.key ≢ k) rs (λ r p. KeyLt-ne k r.key p) h)

KeyLt-KeyLe : (a b c : Bytes) → KeyLt a b → KeyLe b c → KeyLt a c
KeyLt-KeyLe a b c h (inl p) = KeyLt-trans a b c h p
KeyLt-KeyLe a b c h (inr e) = subst (λ x. KeyLt a x) e h

-- If the first record's key is later than `k`, all are.
pub later_all :
    (k : Bytes) (r : Record) (rs : List Record)
    → KeyLt k r.key
    → Ascending (r ∷ rs)
    → All (λ x. KeyLt k x.key) (r ∷ rs)
later_all k r rs p a = (
  p,
  All-imp (λ x. less r x ≡ true) (λ x. KeyLt k x.key) rs
      (λ x q. KeyLt-KeyLe k r.key x.key p (KeyLe-of-less r x q)) a.0,
)

module _ (z : Flate) (file : Bytes) where
  -- The entries are the keys of the records, and at their offsets the file holds the records.
  abbrev pub Holds : List IndexEntry → List Record → Type 0
  Holds [] [] = Unit
  Holds [] (r ∷ rs) = ⊥
  Holds (e ∷ es) [] = ⊥
  Holds (e ∷ es) (r ∷ rs) = (e.key ≡ r.key) × (read_record_at z file e.offset ≡ ok r) × Holds es rs

  keys_after :
      (a : Bytes) (es : List IndexEntry) (rs : List Record)
      → Holds es rs
      → All (λ r. KeyLe a r.key) rs
      → All (λ e. KeyLe a e.key) es
  keys_after a [] [] h l = tt
  keys_after a [] (r ∷ rs) h l = absurd h
  keys_after a (e ∷ es) [] h l = absurd h
  keys_after a (e ∷ es) (r ∷ rs) h l = (subst (KeyLe a) (sym h.0) l.0, keys_after a es rs h.2 l.1)

  pub Holds-Ordered :
      (es : List IndexEntry) (rs : List Record) → Holds es rs → Ascending rs → Ordered es
  Holds-Ordered [] [] h a = tt
  Holds-Ordered [] (r ∷ rs) h a = absurd h
  Holds-Ordered (e ∷ es) [] h a = absurd h
  Holds-Ordered (e ∷ es) (r ∷ rs) h a = (
    keys_after e.key es rs h.2 (
        All-imp (λ x. less r x ≡ true) (λ x. KeyLe e.key x.key) rs
          (λ x p. subst (λ y. KeyLe y x.key) (sym h.0) (KeyLe-of-less r x p)) a.0),
    Holds-Ordered es rs h.2 a.1,
  )

  module _ (k : Bytes) (s : ℕ) where
    get_loop-read :
        (e : IndexEntry) (es : List IndexEntry) (r : Record)
        → bytes_equal e.key k ≡ true
        → read_record_at z file e.offset ≡ ok r
        → get_loop z file k s (e ∷ es)
          ≡ elim (leb r.seq s) [ true ↦ ok (some r) | false ↦ get_loop z file k s es ]
    unfolding get_loop
    get_loop-read e es r eq read = rw (eq, get_loop) (rw read refl)

    get_loop-equal :
        (e : IndexEntry) (es : List IndexEntry) (r : Record) (rs : List Record)
        → r.key ≡ k
        → Holds (e ∷ es) (r ∷ rs)
        → All (λ x. less r x ≡ true) rs
        → get_loop z file k s es ≡ ok (newest k s rs)
        → get_loop z file k s (e ∷ es) ≡ ok (newest k s (r ∷ rs))
    get_loop-equal e es r rs q h a ih =
        let eq : bytes_equal e.key k ≡ true = rw (h.0, q) (bytes_equal_self k) in
        elim (Bool-cases (leb r.seq s)) [
          | inl v ↦ get_loop-read e es r eq h.1 ∙ rw v (ap ok (sym (newest-visible k s r rs q v a)))
          | inr v ↦
              get_loop-read e es r eq h.1
              ∙ rw v (ih ∙ ap ok (sym (newest-passed k s r rs (not_visible k s r q v))))
        ]

    get_loop-later :
        (e : IndexEntry) (es : List IndexEntry) (r : Record) (rs : List Record)
        → KeyLt k r.key
        → Holds (e ∷ es) (r ∷ rs)
        → Ascending (r ∷ rs)
        → get_loop z file k s (e ∷ es) ≡ ok (newest k s (r ∷ rs))
    unfolding get_loop
    get_loop-later e es r rs p h a =
        let ne : bytes_equal e.key k ≡ false = rw h.0 (rw (compare-lt→gt k r.key p) refl) in
        rw (ne, get_loop) (ap ok (sym (newest-before k s (r ∷ rs) (later_all k r rs p a))))

    -- The loop of `Get`, from the first entry that is not before the key.
    get_loop-newest :
        (es : List IndexEntry) (rs : List Record)
        → Holds es rs
        → Ascending rs
        → All (λ r. KeyLe k r.key) rs
        → get_loop z file k s es ≡ ok (newest k s rs)
    get_loop-newest [] [] h a l = unfold get_loop newest in refl
    get_loop-newest [] (r ∷ rs) h a l = absurd h
    get_loop-newest (e ∷ es) [] h a l = absurd h
    get_loop-newest (e ∷ es) (r ∷ rs) h a l = elim l.0 [
      | inl p ↦ get_loop-later e es r rs p h a
      | inr q ↦ get_loop-equal e es r rs (sym q) h a.0 (get_loop-newest es rs h.2 a.1 l.1)
    ]

    pub get_loop-lower :
        (es : List IndexEntry) (rs : List Record)
        → Holds es rs
        → Ascending rs
        → get_loop z file k s (drop (lower k es) es) ≡ ok (newest k s rs)
    unfolding lower
    get_loop-lower [] [] h a = unfold get_loop newest in refl
    get_loop-lower [] (r ∷ rs) h a = absurd h
    get_loop-lower (e ∷ es) [] h a = absurd h
    get_loop-lower (e ∷ es) (r ∷ rs) h a = elim (compare_cases e.key k) [
      | inl p ↦
          rw (p, lower)
            (get_loop-lower es rs h.2 a.1
              ∙ ap ok (
                  sym (
                    newest-passed k s r rs
                      (candidate-other k s r λ q. KeyLt-ne e.key k p (sym (h.0 ∙ q))))))
      | inr (inl (p, q)) ↦
          rw (p, lower)
            (get_loop-newest (e ∷ es) (r ∷ rs) h a (
              inr (sym q ∙ h.0),
              All-imp (λ x. less r x ≡ true) (λ x. KeyLe k x.key) rs
                  (λ x t. subst (λ y. KeyLe y x.key) (sym h.0 ∙ q) (KeyLe-of-less r x t)) a.0,
            ))
      | inr (inr (p, q)) ↦ rw (p, lower) (get_loop-later e es r rs (subst (KeyLt k) h.0 q) h a)
    ]
