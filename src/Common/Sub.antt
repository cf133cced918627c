-- ===== src/Common/Sub.antt =====
-- Lists that are left of others when some elements are taken out.
use mathlib.Core.List.{List, [], ◌∷◌, ◌++◌}
use flume.Common.Lists.{All}

pub data Sub {ℓ} {A : Type ℓ} : List A → List A → Type ℓ where
  none_left : Sub [] []
  kept : {a : A} {xs ys : List A} → Sub xs ys → Sub (a ∷ xs) (a ∷ ys)
  taken : {a : A} {xs ys : List A} → Sub xs ys → Sub xs (a ∷ ys)

module _ {ℓ} {A : Type ℓ} where
  pub Sub-refl : (xs : List A) → Sub xs xs
  Sub-refl [] = Sub.none_left
  Sub-refl (x ∷ xs) = Sub.kept (Sub-refl xs)

  pub Sub-trans : {ys zs : List A} → Sub ys zs → {xs : List A} → Sub xs ys → Sub xs zs
  Sub-trans Sub.none_left s = s
  Sub-trans (Sub.taken t) s = Sub.taken (Sub-trans t s)
  Sub-trans (Sub.kept t) (Sub.kept s) = Sub.kept (Sub-trans t s)
  Sub-trans (Sub.kept t) (Sub.taken s) = Sub.taken (Sub-trans t s)

  pub Sub-append : {ws xs ys zs : List A} → Sub ws ys → Sub xs zs → Sub (ws ++ xs) (ys ++ zs)
  Sub-append Sub.none_left t = t
  Sub-append (Sub.kept s) t = Sub.kept (Sub-append s t)
  Sub-append (Sub.taken s) t = Sub.taken (Sub-append s t)

  pub Sub-All {κ} : (P : A → Type κ) {xs ys : List A} → Sub xs ys → All P ys → All P xs
  Sub-All P Sub.none_left h = tt
  Sub-All P (Sub.kept s) h = (h.0, Sub-All P s h.1)
  Sub-All P (Sub.taken s) h = Sub-All P s h.1
