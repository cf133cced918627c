-- ===== src/Engine/Scan/Pick.antt =====
-- The pairs of a MemTable whose keys satisfy a test; `Range` as two such tests.
use flume.Common.{
  ℕ, ◌≡◌, ◌≢◌, refl, sym, ap, ◌∙◌, subst, arith, Bool, true, false, not, List, [], ◌∷◌, map, Option,
  none, some, if◌then◌else◌, All, Bool-cases, inl, inr,
}
use flume.Common.Perm.{All-imp}
use flume.Common.Sub.{Sub}
use flume.Bytes.{Bytes, bytes_compare, bytes_equal, KeyLt, is_lt, is_ge}
use flume.Bytes.Order.{compare-eq→eq, compare_cases, KeyLt-trans}
use flume.Skiplist.{Kv, seek, until}
use flume.Skiplist.Laws.{Sorted}
use flume.Memtable.{Entry}
use flume.Sstable.{newest, candidate, better}
use flume.Sstable.Versions.{candidate-other, bytes_equal_self}
use flume.Sstable.Iterator.{past_end}
use flume.Sstable.Iterator.Range.{past_later}
use flume.Sstable.Iterator.Visible.{before_start}
use flume.Engine.{record_of}

-- The pairs whose keys satisfy a test.
unfoldable pub pick : (Bytes → Bool) → List (Kv Entry) → List (Kv Entry)
pick p [] = []
pick p (x ∷ xs) = if p x.key then x ∷ pick p xs else pick p xs

module _ (p : Bytes → Bool) where
  pick-All : (P : Kv Entry → Type 0) (xs : List (Kv Entry)) → All P xs → All P (pick p xs)
  unfolding pick
  pick-All P [] h = tt
  pick-All P (x ∷ xs) h = elim (Bool-cases (p x.key)) [
    | inl e ↦ rw (e, pick) (h.0, pick-All P xs h.1)
    | inr e ↦ rw (e, pick) (pick-All P xs h.1)
  ]

  pub pick-Sorted : (xs : List (Kv Entry)) → Sorted xs → Sorted (pick p xs)
  unfolding pick
  pick-Sorted [] h = tt
  pick-Sorted (x ∷ xs) h = elim (Bool-cases (p x.key)) [
    | inl e ↦ rw (e, pick) (pick-All _ xs h.0, pick-Sorted xs h.1)
    | inr e ↦ rw (e, pick) (pick-Sorted xs h.1)
  ]

  pub pick-Sub : (xs : List (Kv Entry)) → Sub (map record_of (pick p xs)) (map record_of xs)
  unfolding pick
  pick-Sub [] = Sub.none_left
  pick-Sub (x ∷ xs) = elim (Bool-cases (p x.key)) [
    | inl e ↦ rw (e, pick) (Sub.kept (pick-Sub xs))
    | inr e ↦ rw (e, pick) (Sub.taken (pick-Sub xs))
  ]

  pick_all : (xs : List (Kv Entry)) → All (λ (x : Kv Entry). p x.key ≡ true) xs → pick p xs ≡ xs
  unfolding pick
  pick_all [] h = refl
  pick_all (x ∷ xs) h = rw h.0 (ap (λ t. x ∷ t) (pick_all xs h.1))

  pick_none : (xs : List (Kv Entry)) → All (λ (x : Kv Entry). p x.key ≡ false) xs → pick p xs ≡ []
  unfolding pick
  pick_none [] h = refl
  pick_none (x ∷ xs) h = rw h.0 (pick_none xs h.1)

  module _ (k : Bytes) (s : ℕ) where
    ne_key : (j : Bytes) → bytes_equal k j ≡ false → k ≢ j
    ne_key j q t = cc (subst (λ y. bytes_equal y j ≡ false) t q, bytes_equal_self j)

    pub newest-pick :
        (xs : List (Kv Entry))
        → newest k s (map record_of (pick p xs))
          ≡ (if p k then newest k s (map record_of xs) else none)
    unfolding pick newest
    newest-pick [] = elim (Bool-cases (p k)) [ inl e ↦ rw e refl | inr e ↦ rw e refl ]
    newest-pick (x ∷ xs) = elim (Bool-cases (bytes_equal k x.key)) [
      | inl q ↦
          let same : k ≡ x.key = compare-eq→eq k x.key (ground arith) in
          elim (Bool-cases (p x.key)) [
            | inl e ↦
                let here : p k ≡ true = ap p same ∙ e in
                rw (e, pick)
                  (ap (better (candidate k s (record_of x))) (newest-pick xs) ∙ rw here refl)
            | inr e ↦
                let here : p k ≡ false = ap p same ∙ e in
                rw (e, pick) (newest-pick xs ∙ rw here refl)
          ]
      | inr q ↦
          let other = candidate-other k s (record_of x) (λ t. ne_key x.key q (sym t)) in
          elim (Bool-cases (p x.key)) [
            | inl e ↦ rw (e, pick, other) (unfold better in newest-pick xs)
            | inr e ↦ rw (e, pick, other) (unfold better in newest-pick xs)
          ]
    ]

started :
    (start : Option Bytes) (a b : Bytes)
    → KeyLt a b
    → before_start start a ≡ false
    → not (before_start start b) ≡ true
unfolding before_start
started none a b p e = refl
started (some m) a b p e = elim (compare_cases b m) [
  | inl q ↦ cc (rw (KeyLt-trans a b m p q) at e)
  | inr (inl (q, t)) ↦ rw q refl
  | inr (inr (q, t)) ↦ rw q refl
]

pick_first : (xs : List (Kv Entry)) → pick (λ k. true) xs ≡ xs
unfolding pick
pick_first [] = refl
pick_first (x ∷ xs) = ap (λ t. x ∷ t) (pick_first xs)

-- In a sorted list the leading keys before the start are all such keys.
pub seek-pick :
    (start : Option Bytes) (xs : List (Kv Entry))
    → Sorted xs
    → seek start xs ≡ pick (λ k. not (before_start start k)) xs
unfolding seek before_start pick
seek-pick none xs h = sym (pick_first xs)
seek-pick (some m) [] h = unfold pick in refl
seek-pick (some m) (x ∷ xs) h = elim (Bool-cases (is_lt (bytes_compare x.key m))) [
  | inl e ↦ rw (e, seek, pick) (seek-pick (some m) xs h.1)
  | inr e ↦
      let later =
        All-imp (λ (y : Kv Entry). KeyLt x.key y.key)
          (λ y. not (before_start (some m) y.key) ≡ true) xs
          (λ y p. started (some m) x.key y.key p e) h.0 in
      rw (e, seek, pick)
        (ap (λ t. x ∷ t) (sym (pick_all (λ k. not (before_start (some m) k)) xs later)))
]

-- In a sorted list the keys up to the end are all keys before it.
pub until-pick :
    (end : Option Bytes) (xs : List (Kv Entry))
    → Sorted xs
    → until end xs ≡ pick (λ k. not (past_end end k)) xs
unfolding until past_end pick
until-pick none xs h = sym (pick_first xs)
until-pick (some m) [] h = unfold pick in refl
until-pick (some m) (x ∷ xs) h = elim (Bool-cases (is_ge (bytes_compare x.key m))) [
  | inl e ↦
      let later =
        All-imp (λ (y : Kv Entry). KeyLt x.key y.key) (λ y. not (past_end (some m) y.key) ≡ false)
          xs (λ y p. ap not (past_later (some m) x.key y.key p e)) h.0 in
      rw (e, until, pick) (sym (pick_none (λ k. not (past_end (some m) k)) xs later))
  | inr e ↦ rw (e, until, pick) (ap (λ t. x ∷ t) (until-pick (some m) xs h.1))
]
