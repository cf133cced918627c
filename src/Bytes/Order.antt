-- ===== src/Bytes/Order.antt =====
-- `bytes_compare` is a total order on byte slices.
use flume.Common.{Ordering, ◌≡◌, refl, arith, [], ◌∷◌, ◌⊎◌, inl, inr}
use flume.Bytes.{Bytes, bytes_compare, KeyLt}

pub compare_self : (a : Bytes) → bytes_compare a a ≡ Ordering.eq
unfolding bytes_compare
compare_self [] = refl
compare_self (x ∷ xs) = ground (arith, compare_self xs)

pub compare-eq→eq : (a b : Bytes) → bytes_compare a b ≡ Ordering.eq → a ≡ b
unfolding bytes_compare
compare-eq→eq [] [] h = refl
compare-eq→eq [] (y ∷ ys) h = cc
compare-eq→eq (x ∷ xs) [] h = cc
compare-eq→eq (x ∷ xs) (y ∷ ys) h = ground (arith, compare-eq→eq xs ys)

pub compare-gt→lt : (a b : Bytes) → bytes_compare a b ≡ Ordering.gt → KeyLt b a
unfolding bytes_compare
compare-gt→lt [] [] h = cc
compare-gt→lt [] (y ∷ ys) h = cc
compare-gt→lt (x ∷ xs) [] h = refl
compare-gt→lt (x ∷ xs) (y ∷ ys) h = ground (arith, compare-gt→lt xs ys)

pub compare-lt→gt : (a b : Bytes) → KeyLt a b → bytes_compare b a ≡ Ordering.gt
unfolding bytes_compare
compare-lt→gt [] [] h = cc
compare-lt→gt [] (y ∷ ys) h = refl
compare-lt→gt (x ∷ xs) [] h = cc
compare-lt→gt (x ∷ xs) (y ∷ ys) h = ground (arith, compare-lt→gt xs ys)

pub KeyLt-trans : (a b c : Bytes) → KeyLt a b → KeyLt b c → KeyLt a c
unfolding bytes_compare
KeyLt-trans [] [] c h k = k
KeyLt-trans [] (y ∷ ys) [] h k = cc
KeyLt-trans [] (y ∷ ys) (z ∷ zs) h k = refl
KeyLt-trans (x ∷ xs) [] c h k = cc
KeyLt-trans (x ∷ xs) (y ∷ ys) [] h k = cc
KeyLt-trans (x ∷ xs) (y ∷ ys) (z ∷ zs) h k = ground (arith, KeyLt-trans xs ys zs)

pub compare_cases :
    (a b : Bytes)
    → (bytes_compare a b ≡ Ordering.lt)
      ⊎ ((bytes_compare a b ≡ Ordering.eq) × (a ≡ b))
      ⊎ ((bytes_compare a b ≡ Ordering.gt) × KeyLt b a)
compare_cases a b = elim (ordering_cases (bytes_compare a b)) [
  | inl h ↦ inl h
  | inr (inl h) ↦ inr (inl (h, compare-eq→eq a b h))
  | inr (inr h) ↦ inr (inr (h, compare-gt→lt a b h))
]
  where
    ordering_cases : (o : Ordering) → (o ≡ Ordering.lt) ⊎ (o ≡ Ordering.eq) ⊎ (o ≡ Ordering.gt)
    ordering_cases Ordering.lt = inl refl
    ordering_cases Ordering.eq = inr (inl refl)
    ordering_cases Ordering.gt = inr (inr refl)
