-- ===== src/Common/Perm.antt =====
-- Permutations: what holds of all elements, lengths, and flattened lists.
use mathlib.Core.List.Permᴰ
use mathlib.Core.List.{Permᴰ}
use flume.Common.Lists.{All, length}
use mathlib.Core.Path.{◌≡◌, refl, sym, ◌∙◌, subst}
use mathlib.Core.List.{List, [], ◌∷◌, ◌++◌, append_assoc}
use native.Mathlib.Omega.{arith}

module _ {ℓ} {A : Type ℓ} (P : A → Type 0) where
  pub All-perm : {xs ys : List A} → Permᴰ xs ys → All P xs → All P ys
  All-perm Permᴰ.nil h = h
  All-perm (Permᴰ.cons e p) h = (subst P e h.0, All-perm p h.1)
  All-perm (Permᴰ.swap e f) h = (subst P f h.1.0, (subst P e h.0, h.1.1))
  All-perm (Permᴰ.trans p q) h = All-perm q (All-perm p h)

  pub All-left : (xs ys : List A) → All P (xs ++ ys) → All P xs
  All-left [] ys h = tt
  All-left (x ∷ xs) ys h = (h.0, All-left xs ys h.1)

  pub All-right : (xs ys : List A) → All P (xs ++ ys) → All P ys
  All-right [] ys h = h
  All-right (x ∷ xs) ys h = All-right xs ys h.1

module _ {ℓ} {A : Type ℓ} (P Q : A → Type 0) where
  pub All-imp : (xs : List A) → ((a : A) → P a → Q a) → All P xs → All Q xs
  All-imp [] f h = tt
  All-imp (x ∷ xs) f h = (f x h.0, All-imp xs f h.1)

module _ {ℓ} {A : Type ℓ} where
  pub length-perm : {xs ys : List A} → Permᴰ xs ys → length xs ≡ length ys
  length-perm Permᴰ.nil = refl
  length-perm (Permᴰ.cons e p) = omega (arith, length-perm p)
  length-perm (Permᴰ.swap e f) = refl
  length-perm (Permᴰ.trans p q) = length-perm p ∙ length-perm q

  pub of_eq : {xs ys : List A} → xs ≡ ys → Permᴰ xs ys
  of_eq {xs} e = subst (λ zs. Permᴰ xs zs) e (Permᴰ.refl xs)

  pub exchange : (xs ys zs : List A) → Permᴰ (xs ++ (ys ++ zs)) (ys ++ (xs ++ zs))
  exchange xs ys zs = Permᴰ.trans (of_eq (sym (append_assoc xs ys zs))) (
      Permᴰ.trans (Permᴰ.append_right zs (Permᴰ.append_comm xs ys)) (of_eq (append_assoc ys xs zs)))

  pub interchange :
      (ws xs ys zs : List A) → Permᴰ ((ws ++ xs) ++ (ys ++ zs)) ((ws ++ ys) ++ (xs ++ zs))
  interchange ws xs ys zs = Permᴰ.trans (of_eq (append_assoc ws xs (ys ++ zs))) (
      Permᴰ.trans (Permᴰ.append_left ws (exchange xs ys zs))
        (of_eq (sym (append_assoc ws ys (xs ++ zs)))))

  pub append-perm : {ws xs ys zs : List A} → Permᴰ ws ys → Permᴰ xs zs → Permᴰ (ws ++ xs) (ys ++ zs)
  append-perm {xs = xs} {ys = ys} p q =
      Permᴰ.trans (Permᴰ.append_right xs p) (Permᴰ.append_left ys q)
