-- ===== src/Common/Outcome.antt =====
-- Go's (value, error) pairs. The errors are those that the packages make; `panicked` is a run-time
-- panic (an index out of range, a division by zero).
use Prim.Native.Nat.{ℕ}
use mathlib.Core.Path.{◌≡◌, refl, subst}
use mathlib.Core.Bool.{Bool, true, false}
use mathlib.Core.Logic.{◌⊎◌, inl, inr}

pub data Error : Type 0 where
  -- engine.ErrClosed, engine.ErrNotFound, engine.ErrEmptyKey
  closed not_found empty_key : Error
  -- sstable.ErrEmptyMerge and the other errors of package sstable
  empty_merge empty_table merge_zero_tables : Error
  unsorted : ℕ → Error
  too_small bad_magic bad_offsets truncated_index short_read decompress_failed : Error
  -- package bloom
  short_filter corrupt_filter : Error
  -- package wal, and the callback that recovery hands to it
  unrecognized_type io_error : Error
  panicked : Error
  -- no Go value: a loop of the model used up its fuel
  stuck : Error

pub data Result {ℓ} (A : Type ℓ) : Type ℓ where
  err : Error → Result A
  ok : A → Result A

-- `if err != nil { return err }`, before what follows.
module _ {ℓ κ} {A : Type ℓ} {B : Type κ} where
  infixl 5 ◌>>=◌ ◌>>◌
  abbrev pub ◌>>=◌ : Result A → (A → Result B) → Result B
  r >>= next = elim r [ err e ↦ err e | ok a ↦ next a ]

  abbrev pub ◌>>◌ : Result A → Result B → Result B
  r >> after = elim r [ err e ↦ err e | ok a ↦ after ]

abbrev pub guard : Bool → Error → Result (Unit {0})
guard test e = elim test [ false ↦ err e | true ↦ ok tt ]

pub Result-cases {ℓ} :
    {A : Type ℓ} (o : Result A) → ((v : A) × (o ≡ ok v)) ⊎ ((x : Error) × (o ≡ err x))
Result-cases (err x) = inr (x, refl)
Result-cases (ok v) = inl (v, refl)

-- The call returns no error, and its value satisfies `P`.
abbrev pub Returns {ℓ} : {A : Type ℓ} → Result A → (A → Type 0) → Type 0
Returns (ok a) P = P a
Returns (err e) P = ⊥

module _ {ℓ κ} {A : Type ℓ} {B : Type κ} (P : A → Type 0) (Q : B → Type 0) where
  pub Returns-bind :
      (m : Result A) (f : A → Result B)
      → Returns m P
      → ((a : A) → P a → Returns (f a) Q)
      → Returns (m >>= f) Q
  Returns-bind (ok a) f h k = k a h
  Returns-bind (err e) f h k = absurd h

  -- The rest may use that the first call returned.
  pub Returns-both :
      (m : Result A) (f : A → Result B)
      → Returns m P
      → ((a : A) → m ≡ ok a → P a → Returns (f a) Q)
      → Returns (m >>= f) Q
  Returns-both (ok a) f h k = k a refl h
  Returns-both (err e) f h k = absurd h

module _ {ℓ} {A : Type ℓ} where
  pub Returns-imp :
      (P Q : A → Type 0) (r : Result A) → Returns r P → ((a : A) → P a → Q a) → Returns r Q
  Returns-imp P Q (ok a) h k = k a h
  Returns-imp P Q (err e) h k = absurd h

  pub Returns→ok : (P : A → Type 0) (r : Result A) → Returns r P → (a : A) × (r ≡ ok a) × P a
  Returns→ok P (ok a) h = (a, refl, h)
  Returns→ok P (err e) h = absurd h

  pub Returns-at : (P : A → Type 0) {r : Result A} (a : A) → r ≡ ok a → Returns r P → P a
  Returns-at P a e h = subst (λ r. Returns r P) e h

-- A chain that returns has returned at each of its two parts.
module _ {ℓ κ} {A : Type ℓ} {B : Type κ} (next : A → Result B) {v : B} where
  chain_ok : (o : Result A) → (o >>= next) ≡ ok v → (u : A) × (o ≡ ok u) × (next u ≡ ok v)
  chain_ok (err x) p = cc
  chain_ok (ok u) p = (u, refl, p)

pub >>=-eq-ok {ℓ κ} :
    {A : Type ℓ} {B : Type κ} (o : Result A) (next : A → Result B) {v : B}
    → (o >>= next) ≡ ok v
    → (u : A) × (o ≡ ok u) × (next u ≡ ok v)
>>=-eq-ok o next p = chain_ok next o p
