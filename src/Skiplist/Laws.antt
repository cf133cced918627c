-- ===== src/Skiplist/Laws.antt =====
-- The laws of the ordered map.
use flume.Common.{
  ◌≡◌, refl, sym, ap, ◌∙◌, subst, arith, Bool, true, false, List, [], ◌∷◌, Option, some,
  if◌then◌else◌, All, inl, inr,
}
use flume.Common.Perm.{All-imp}
use flume.Bytes.{Bytes, bytes_equal, KeyLt}
use flume.Bytes.Order.{compare_self, compare-eq→eq, KeyLt-trans, compare_cases}
use flume.Skiplist.{Kv, insert, lookup}

bytes_equal→eq : (a b : Bytes) → bytes_equal a b ≡ true → a ≡ b
bytes_equal→eq a b h = compare-eq→eq a b (ground arith)

not_both : (a b j : Bytes) → KeyLt a b → bytes_equal a j ≡ true → bytes_equal b j ≡ true → ⊥
not_both a b j h p q =
    cc
      (subst (λ z. KeyLt z b) (bytes_equal→eq a j p ∙ sym (bytes_equal→eq b j q)) h, compare_self b)

module _ {V : Type 0} where
  -- Strictly ascending keys.
  abbrev pub Sorted : List (Kv V) → Type 0
  Sorted [] = Unit
  Sorted (x ∷ xs) = All (λ (y : Kv V). KeyLt x.key y.key) xs × Sorted xs

  swap_if :
      (a b : Bool) (x y z : Option V)
      → (a ≡ true → b ≡ true → ⊥)
      → (if a then x else if b then y else z) ≡ (if b then y else if a then x else z)
  swap_if true true x y z h = absurd (h refl refl)
  swap_if true false x y z h = refl
  swap_if false true x y z h = refl
  swap_if false false x y z h = refl

  skip_if :
      (a b : Bool) (x y z : Option V)
      → a ≡ b
      → (if a then x else z) ≡ (if b then x else if a then y else z)
  skip_if true true x y z h = refl
  skip_if true false x y z h = cc
  skip_if false true x y z h = cc
  skip_if false false x y z h = refl

  -- `Get` after `Put`: the value at its key, every other key as before.
  pub lookup-insert :
      (k j : Bytes) (v : V) (xs : List (Kv V))
      → lookup j (insert k v xs) ≡ (if bytes_equal k j then some v else lookup j xs)
  unfolding lookup insert
  lookup-insert k j v [] = refl
  lookup-insert k j v (x ∷ xs) = elim (compare_cases x.key k) [
    | inl p ↦
        rw (p, insert)
          (ap (λ t. if bytes_equal x.key j then some x.value else t) (lookup-insert k j v xs)
            ∙ swap_if (bytes_equal x.key j) (bytes_equal k j) (some x.value) (some v) (lookup j xs)
                (not_both x.key k j p))
    | inr (inl (p, e)) ↦
        rw (p, insert)
          (skip_if (bytes_equal x.key j) (bytes_equal k j) (some v) (some x.value) (lookup j xs)
            (ap (λ z. bytes_equal z j) e))
    | inr (inr (p, q)) ↦ rw (p, insert) refl
  ]

  -- What holds of the pairs and of a new pair, by key and value, holds after `Put`.
  pub insert-All :
      (P : Bytes → V → Type 0) (k : Bytes) (v : V) (xs : List (Kv V))
      → P k v
      → All (λ (x : Kv V). P x.key x.value) xs
      → All (λ (x : Kv V). P x.key x.value) (insert k v xs)
  unfolding insert
  insert-All P k v [] p h = (p, tt)
  insert-All P k v (x ∷ xs) p h = elim (compare_cases x.key k) [
    | inl c ↦ rw (c, insert) (h.0, insert-All P k v xs p h.1)
    | inr (inl (c, e)) ↦ rw (c, insert) (subst (λ z. P z v) (sym e) p, h.1)
    | inr (inr (c, q)) ↦ rw (c, insert) (p, h)
  ]

  pub insert-Sorted : (k : Bytes) (v : V) (xs : List (Kv V)) → Sorted xs → Sorted (insert k v xs)
  unfolding insert
  insert-Sorted k v [] h = (tt, tt)
  insert-Sorted k v (x ∷ xs) h = elim (compare_cases x.key k) [
    | inl c ↦
        rw (c, insert) (insert-All (λ z _. KeyLt x.key z) k v xs c h.0, insert-Sorted k v xs h.1)
    | inr (inl (c, e)) ↦ rw (c, insert) (h.0, h.1)
    | inr (inr (c, q)) ↦
        rw (c, insert)
          (
            (
              q,
              All-imp (λ (y : Kv V). KeyLt x.key y.key) (λ y. KeyLt k y.key) xs
                  (λ y p. KeyLt-trans k x.key y.key q p) h.0,
            ),
            h,
          )
  ]
