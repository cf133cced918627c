-- ===== src/Sstable/Versions.antt =====
-- `newest` on lists that are joined, permuted, or of other keys.
use flume.Common.{
  ℕ, ◌<◌, ◌≡◌, ◌≢◌, refl, sym, ap, ◌∙◌, subst, arith, true, List, [], ◌∷◌, ◌++◌, Option, none, some,
  leb, if◌then◌else◌, All, inl, inr, ◌⊎◌, Bool-cases,
}
use mathlib.Core.List.{Permᴰ}
use flume.Common.Perm.{All-perm, All-left}
use flume.Bytes.{Bytes, bytes_equal}
use flume.Bytes.Order.{compare_self, compare-eq→eq}
use flume.Sstable.{Record, better, candidate, newest, Apart, Distinct}

pub better-none : (x : Option Record) → better x none ≡ x
unfolding better
better-none none = refl
better-none (some a) = refl

pub better_assoc : (x y z : Option Record) → better (better x y) z ≡ better x (better y z)
unfolding better
better_assoc none y z = refl
better_assoc (some a) none z = refl
better_assoc (some a) (some b) none = ground arith
better_assoc (some a) (some b) (some c) = ground arith

pub newest-append :
    (k : Bytes) (s : ℕ) (xs ys : List Record)
    → newest k s (xs ++ ys) ≡ better (newest k s xs) (newest k s ys)
unfolding newest
newest-append k s [] ys = unfold better in refl
newest-append k s (r ∷ xs) ys =
    ap (better (candidate k s r)) (newest-append k s xs ys)
    ∙ sym (better_assoc (candidate k s r) (newest k s xs) (newest k s ys))

bytes_equal→eq : (a b : Bytes) → bytes_equal a b ≡ true → a ≡ b
bytes_equal→eq a b h = compare-eq→eq a b (ground arith)

pub bytes_equal_self : (a : Bytes) → bytes_equal a a ≡ true
bytes_equal_self a = rw (compare_self a)

-- Two candidates for one read can be exchanged if they are not one version.
better_swap :
    (k : Bytes) (s : ℕ) (a b : Record) (z : Option Record)
    → Apart a b
    → better (candidate k s a) (better (candidate k s b) z)
      ≡ better (candidate k s b) (better (candidate k s a) z)
unfolding better candidate
better_swap k s a b none d = ground (arith, compare-eq→eq a.key k, compare-eq→eq b.key k, d)
better_swap k s a b (some c) d = ground (arith, compare-eq→eq a.key k, compare-eq→eq b.key k, d)

pub Distinct-perm : {xs ys : List Record} → Permᴰ xs ys → Distinct xs → Distinct ys
Distinct-perm Permᴰ.nil h = h
Distinct-perm (Permᴰ.cons {a = a} {b = b} {l₁ = xs} {l₂ = ys} e p) h =
    (All-perm (Apart b) p (subst (λ r. All (Apart r) xs) e h.0), Distinct-perm p h.1)
Distinct-perm (Permᴰ.swap {a = a} {b = b} {a' = a'} {b' = b'} {l = l} e f) h = (
  (
    λ p q.
        h.0.0 (ap (λ r. r.key) e ∙ sym p ∙ ap (λ r. r.key) (sym f))
          (ap (λ r. r.seq) e ∙ sym q ∙ ap (λ r. r.seq) (sym f)),
    subst (λ r. All (Apart r) l) f h.1.0,
  ),
  (subst (λ r. All (Apart r) l) e h.0.1, h.1.1),
)
Distinct-perm (Permᴰ.trans p q) h = Distinct-perm q (Distinct-perm p h)

-- Among distinct versions the order of the records does not matter.
pub newest-perm :
    (k : Bytes) (s : ℕ) {xs ys : List Record}
    → Permᴰ xs ys
    → Distinct xs
    → newest k s xs ≡ newest k s ys
unfolding newest
newest-perm k s Permᴰ.nil h = refl
newest-perm k s (Permᴰ.cons {a = a} {b = b} {l₁ = xs} {l₂ = ys} e p) h =
    ap (λ r. better (candidate k s r) (newest k s xs)) e
    ∙ ap (better (candidate k s b)) (newest-perm k s p h.1)
newest-perm k s (Permᴰ.swap {a = a} {b = b} {a' = a'} {b' = b'} {l = l} e f) h =
    better_swap k s a b (newest k s l) h.0.0
    ∙ ap (λ r. better (candidate k s r) (better (candidate k s a) (newest k s l))) f
    ∙ ap (λ r. better (candidate k s a') (better (candidate k s r) (newest k s l))) e
newest-perm k s (Permᴰ.trans p q) h = newest-perm k s p h ∙ newest-perm k s q (Distinct-perm p h)

pub candidate-other : (k : Bytes) (s : ℕ) (r : Record) → r.key ≢ k → candidate k s r ≡ none
unfolding candidate
candidate-other k s r h = ground (arith, compare-eq→eq r.key k)

pub newest-other :
    (k : Bytes) (s : ℕ) (rs : List Record) → All (λ r. r.key ≢ k) rs → newest k s rs ≡ none
unfolding newest
newest-other k s [] h = refl
newest-other k s (r ∷ rs) h =
    rw (candidate-other k s r h.0) (rw (newest-other k s rs h.1) (unfold better in refl))

pub candidate_self :
    (k : Bytes) (s : ℕ) (r : Record)
    → r.key ≡ k
    → candidate k s r ≡ (if leb r.seq s then some r else none)
unfolding candidate
candidate_self k s r e = rw (e, bytes_equal_self k)

pub Distinct-left : (xs ys : List Record) → Distinct (xs ++ ys) → Distinct xs
Distinct-left [] ys h = tt
Distinct-left (x ∷ xs) ys h = (All-left (Apart x) xs ys h.0, Distinct-left xs ys h.1)

pub Distinct-right : (xs ys : List Record) → Distinct (xs ++ ys) → Distinct ys
Distinct-right [] ys h = h
Distinct-right (x ∷ xs) ys h = Distinct-right xs ys h.1

module _ (k : Bytes) where
  -- A newer version hides the older ones.
  pub newest-hidden :
      (s : ℕ) (r : Record) (xs : List Record)
      → All (λ x. x.seq < r.seq) xs
      → better (some r) (newest k s xs) ≡ some r
  unfolding newest
  newest-hidden s r [] h = unfold better in refl
  newest-hidden s r (x ∷ xs) h =
      sym (better_assoc (some r) (candidate k s x) (newest k s xs))
      ∙ ap (λ o. better o (newest k s xs)) (one h.0)
      ∙ newest-hidden s r xs h.1
    where
      one : x.seq < r.seq → better (some r) (candidate k s x) ≡ some r
      one p = unfold better candidate in ground arith

better-one : (x y : Option Record) (r : Record) → better x y ≡ some r → (x ≡ some r) ⊎ (y ≡ some r)
unfolding better
better-one none y r e = inr e
better-one (some a) none r e = inl e
better-one (some a) (some b) r e = ground arith

some-inj : {a b : Record} → some a ≡ some b → a ≡ b
some-inj p = cc

-- A version that a read finds is one of the versions, and of the key that was asked for.
module _ (P : Record → Type 0) (k : Bytes) (s : ℕ) where
  candidate-Found : (x r : Record) → candidate k s x ≡ some r → P x → P r × (r.key ≡ k)
  unfolding candidate
  candidate-Found x r e p = elim (Bool-cases (bytes_equal x.key k)) [
    | inl q ↦ elim (Bool-cases (leb x.seq s)) [
      | inl l ↦
          let same : x ≡ r = some-inj (rw (q, l) at e) in
          (
            subst P same p,
            subst (λ (z : Record). z.key ≡ k) same (compare-eq→eq x.key k (ground arith)),
          )
      | inr l ↦ cc (rw (q, l) at e)
    ]
    | inr q ↦ cc (rw q at e)
  ]

  pub newest-Found :
      (xs : List Record) (r : Record) → newest k s xs ≡ some r → All P xs → P r × (r.key ≡ k)
  unfolding newest
  newest-Found [] r e h = cc
  newest-Found (x ∷ xs) r e h = elim (better-one (candidate k s x) (newest k s xs) r e) [
    | inl c ↦ candidate-Found x r c h.0
    | inr c ↦ newest-Found xs r c h.1
  ]

module _ (k : Bytes) (s : ℕ) where
  candidate-seen : (x r : Record) → candidate k s x ≡ some r → leb r.seq s ≡ true
  unfolding candidate
  candidate-seen x r e = ground arith

  -- A version that a read finds is not above the read's sequence number.
  pub newest-seen : (xs : List Record) (r : Record) → newest k s xs ≡ some r → leb r.seq s ≡ true
  unfolding newest
  newest-seen [] r e = cc
  newest-seen (x ∷ xs) r e = elim (better-one (candidate k s x) (newest k s xs) r e) [
    | inl c ↦ candidate-seen x r c
    | inr c ↦ newest-seen xs r c
  ]
