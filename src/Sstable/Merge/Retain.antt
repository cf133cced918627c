-- ===== src/Sstable/Merge/Retain.antt =====
-- The retention walk on the versions of one key.
use flume.Common.{
  ℕ, ◌<◌, ◌≤◌, ◌≡◌, refl, sym, ap, ◌∙◌, arith, Bool, true, ◌&&◌, List, [], ◌∷◌, ◌++◌, Option, none,
  some, ltb, leb, ◌==◌, All, inl, inr, ◌⊎◌, Bool-cases, ltb→lt,
}
use flume.Common.Perm.{All-perm, All-imp}
use mathlib.Core.List.Permᴰ
use mathlib.Core.List.{Permᴰ}
use flume.Bytes.{Bytes}
use flume.Sstable.{Record, less, better, candidate, newest, Apart, Distinct, type_tombstone}
use flume.Sstable.Order.{less-of-seq}
use flume.Sstable.Versions.{candidate_self, Distinct-perm, better-none, newest-hidden}
use flume.Sstable.Merge.{insert_desc, sort_desc, keep_from, retain}

insert_desc-perm : (r : Record) (xs : List Record) → Permᴰ (r ∷ xs) (insert_desc r xs)
unfolding insert_desc
insert_desc-perm r [] = Permᴰ.refl (r ∷ [])
insert_desc-perm r (x ∷ xs) = elim (Bool-cases (ltb x.seq r.seq)) [
  | inl e ↦ rw e (Permᴰ.refl (r ∷ x ∷ xs))
  | inr e ↦ rw e (Permᴰ.trans (Permᴰ.swap refl refl) (Permᴰ.cons refl (insert_desc-perm r xs)))
]

pub sort_desc-perm : (xs : List Record) → Permᴰ xs (sort_desc xs)
unfolding sort_desc
sort_desc-perm [] = Permᴰ.nil
sort_desc-perm (r ∷ xs) =
    Permᴰ.trans (Permᴰ.cons refl (sort_desc-perm xs)) (insert_desc-perm r (sort_desc xs))

abbrev Desc : List Record → Type 0
Desc [] = Unit
Desc (r ∷ rs) = All (λ x. x.seq ≤ r.seq) rs × Desc rs

insert_desc-Desc : (r : Record) (xs : List Record) → Desc xs → Desc (insert_desc r xs)
unfolding insert_desc
insert_desc-Desc r [] h = (tt, tt)
insert_desc-Desc r (x ∷ xs) h = elim (Bool-cases (ltb x.seq r.seq)) [
  | inl e ↦ rw e (
    (
      omega (arith, ltb→lt x.seq r.seq e),
      All-imp (λ y. y.seq ≤ x.seq) (λ y. y.seq ≤ r.seq) xs
          (λ y p. omega (arith, ltb→lt x.seq r.seq e)) h.0,
    ),
    h,
  )
  | inr e ↦ rw e (
    All-perm (λ y. y.seq ≤ x.seq) (insert_desc-perm r xs) (ground arith, h.0),
    insert_desc-Desc r xs h.1,
  )
]

sort_desc-Desc : (xs : List Record) → Desc (sort_desc xs)
unfolding sort_desc
sort_desc-Desc [] = tt
sort_desc-Desc (r ∷ xs) = insert_desc-Desc r (sort_desc xs) (sort_desc-Desc xs)

abbrev pub Strict : List Record → Type 0
Strict [] = Unit
Strict (r ∷ rs) = All (λ x. x.seq < r.seq) rs × Strict rs

-- Strictly sorted as `Write` wants it.
abbrev pub Ascending : List Record → Type 0
Ascending [] = Unit
Ascending (r ∷ rs) = All (λ x. less r x ≡ true) rs × Ascending rs

module _ (k : Bytes) where
  abbrev pub OfKey : Record → Type 0
  OfKey r = r.key ≡ k

  strict_all :
      (r : Record) (xs : List Record)
      → OfKey r
      → All OfKey xs
      → All (Apart r) xs
      → All (λ x. x.seq ≤ r.seq) xs
      → All (λ x. x.seq < r.seq) xs
  strict_all r [] e h d o = tt
  strict_all r (x ∷ xs) e h d o = (strict (d.0 (e ∙ sym h.0)), strict_all r xs e h.1 d.1 o.1)
    where
      strict : (r.seq ≡ x.seq → ⊥) → x.seq < r.seq
      strict n = ground (arith, o.0)

  Desc-Strict : (xs : List Record) → All OfKey xs → Distinct xs → Desc xs → Strict xs
  Desc-Strict [] h d o = tt
  Desc-Strict (r ∷ xs) h d o = (strict_all r xs h.0 h.1 d.0 o.0, Desc-Strict xs h.1 d.1 o.1)

  -- The versions of one key, sorted: the highest sequence number first, and none twice.
  pub sort_desc-Strict : (xs : List Record) → All OfKey xs → Distinct xs → Strict (sort_desc xs)
  sort_desc-Strict xs h d =
      Desc-Strict (sort_desc xs) (All-perm OfKey (sort_desc-perm xs) h)
        (Distinct-perm (sort_desc-perm xs) d) (sort_desc-Desc xs)

  less_all :
      (r : Record) (xs : List Record)
      → OfKey r
      → All OfKey xs
      → All (λ x. x.seq < r.seq) xs
      → All (λ x. less r x ≡ true) xs
  less_all r [] e h o = tt
  less_all r (x ∷ xs) e h o = (less-of-seq r x (e ∙ sym h.0) o.0, less_all r xs e h.1 o.1)

  pub Strict-Ascending : (xs : List Record) → All OfKey xs → Strict xs → Ascending xs
  Strict-Ascending [] h o = tt
  Strict-Ascending (r ∷ xs) h o = (less_all r xs h.0 h.1 o.0, Strict-Ascending xs h.1 o.1)

module _ (P : Record → Type 0) (m : ℕ) where
  keep_from-All : (xs : List Record) → All P xs → All P (keep_from m xs)
  unfolding keep_from
  keep_from-All [] h = tt
  keep_from-All (r ∷ xs) h = elim (Bool-cases (leb r.seq m)) [
    | inl e ↦ rw (e, keep_from) (h.0, tt)
    | inr e ↦ rw (e, keep_from) (h.0, keep_from-All xs h.1)
  ]

  pub retain-All : (b : Bool) (xs : List Record) → All P xs → All P (retain m b xs)
  unfolding retain
  retain-All b [] h = tt
  retain-All b (r ∷ xs) h = elim (Bool-cases (b && (r.type == type_tombstone && leb r.seq m))) [
    | inl e ↦ rw (e, retain) tt
    | inr e ↦ rw (e, retain) (keep_from-All (r ∷ xs) h)
  ]

module _ (m : ℕ) where
  keep_from-Ascending : (xs : List Record) → Ascending xs → Ascending (keep_from m xs)
  unfolding keep_from
  keep_from-Ascending [] h = tt
  keep_from-Ascending (r ∷ xs) h = elim (Bool-cases (leb r.seq m)) [
    | inl e ↦ rw (e, keep_from) (tt, tt)
    | inr e ↦
        rw (e, keep_from)
          (keep_from-All (λ x. less r x ≡ true) m xs h.0, keep_from-Ascending xs h.1)
  ]

  pub retain-Ascending : (b : Bool) (xs : List Record) → Ascending xs → Ascending (retain m b xs)
  unfolding retain
  retain-Ascending b [] h = tt
  retain-Ascending b (r ∷ xs) h =
      elim (Bool-cases (b && (r.type == type_tombstone && leb r.seq m))) [
        | inl e ↦ rw (e, retain) tt
        | inr e ↦ rw (e, retain) (keep_from-Ascending (r ∷ xs) h)
      ]

-- A read finds nothing in `after` where it found a tombstone in `before`, and the pass was allowed to
-- drop it.
pub record Dropped (bottommost : Bool) (before after : Option Record) : Type 0 where
  pub allowed : bottommost ≡ true
  pub tombstone : Record
  pub was : before ≡ some tombstone
  pub is_tombstone : tombstone.type ≡ type_tombstone
  pub gone : after ≡ none

-- What a read may make of a dropped version.
abbrev pub SameRead : Bool → Option Record → Option Record → Type 0
SameRead bottommost before after = (after ≡ before) ⊎ Dropped bottommost before after

module _ (k : Bytes) (m s : ℕ) (bound : m ≤ s) where
  seen : (r : Record) → OfKey k r → leb r.seq m ≡ true → candidate k s r ≡ some r
  seen r e h = candidate_self k s r e ∙ ground arith

  keep_from-newest :
      (xs : List Record)
      → All (OfKey k) xs
      → Strict xs
      → newest k s (keep_from m xs) ≡ newest k s xs
  unfolding keep_from newest
  keep_from-newest [] h o = refl
  keep_from-newest (r ∷ xs) h o = elim (Bool-cases (leb r.seq m)) [
    | inl e ↦
        rw (e, keep_from, seen r h.0 e) (better-none (some r) ∙ sym (newest-hidden k s r xs o.0))
    | inr e ↦ rw (e, keep_from) (ap (better (candidate k s r)) (keep_from-newest xs h.1 o.1))
  ]

  -- Of the versions of `k`, newest first, the walk keeps what a read at `s` finds, if no snapshot that
  -- is still open lies below `m` and `s` is not below it.
  pub retain-newest :
      (b : Bool) (xs : List Record)
      → All (OfKey k) xs
      → Strict xs
      → SameRead b (newest k s xs) (newest k s (retain m b xs))
  unfolding retain
  retain-newest b [] h o = inl refl
  retain-newest b (r ∷ xs) h o =
      elim (Bool-cases (b && (r.type == type_tombstone && leb r.seq m))) [
        | inl e ↦
            rw (e, retain)
              (inr (record {
                allowed = ground arith;
                tombstone = r;
                was =
                    unfold newest in
                    ap (λ c. better c (newest k s xs)) (seen r h.0 (ground arith))
                    ∙ newest-hidden k s r xs o.0;
                is_tombstone = ground arith;
                gone = unfold newest in refl;
              }))
        | inr e ↦ rw (e, retain) (inl (keep_from-newest (r ∷ xs) h o))
      ]

keep_from-prefix : (m : ℕ) (xs : List Record) → (rest : List Record) × (xs ≡ keep_from m xs ++ rest)
unfolding keep_from
keep_from-prefix m [] = ([], refl)
keep_from-prefix m (r ∷ xs) = elim (Bool-cases (leb r.seq m)) [
  | inl e ↦ (xs, rw (e, keep_from))
  | inr e ↦ let (rest, p) = keep_from-prefix m xs in (rest, rw (e, keep_from) (ap (λ t. r ∷ t) p))
]

-- The walk keeps the front of the versions and drops the rest.
pub retain-prefix :
    (m : ℕ) (b : Bool) (xs : List Record) → (rest : List Record) × (xs ≡ retain m b xs ++ rest)
unfolding retain
retain-prefix m b [] = ([], refl)
retain-prefix m b (r ∷ xs) = elim (Bool-cases (b && (r.type == type_tombstone && leb r.seq m))) [
  | inl e ↦ (r ∷ xs, rw (e, retain))
  | inr e ↦ let (rest, p) = keep_from-prefix m (r ∷ xs) in (rest, rw (e, retain) p)
]
