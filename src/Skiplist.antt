-- ===== src/Skiplist.antt =====
-- skiplist/skiplist.go: the key-value pairs that the list hands out, and the ordered map that it
-- promises to its clients. The linked towers themselves are not modelled here.
pub mod Laws
use flume.Common.{ℕ, Ordering, Bool, true, false, List, [], ◌∷◌, Option, none, some, if◌then◌else◌}
use flume.Bytes.{Bytes, bytes_compare, bytes_equal, is_lt, is_ge}

pub record Kv (V : Type 0) : Type 0 where
  pub key : Bytes
  pub value : V

-- The contract of the list: a sequence of pairs in ascending order of keys.
module _ {V : Type 0} where
  unfoldable pub insert : Bytes → V → List (Kv V) → List (Kv V)
  insert k v [] = record { key = k; value = v } ∷ []
  insert k v (x ∷ xs) = elim (bytes_compare x.key k) [
    | Ordering.lt ↦ x ∷ insert k v xs
    | Ordering.eq ↦ record x { value = v } ∷ xs
    | Ordering.gt ↦ record { key = k; value = v } ∷ x ∷ xs
  ]

  unfoldable pub lookup : Bytes → List (Kv V) → Option V
  lookup k [] = none
  lookup k (x ∷ xs) = if bytes_equal x.key k then some x.value else lookup k xs

  -- Keys not before `start`, up to the first that is not before `end`; `none` is a nil bound.
  unfoldable pub seek : Option Bytes → List (Kv V) → List (Kv V)
  seek none xs = xs
  seek (some start) [] = []
  seek (some start) (x ∷ xs) =
      if is_lt (bytes_compare x.key start) then seek (some start) xs else x ∷ xs

  unfoldable pub until : Option Bytes → List (Kv V) → List (Kv V)
  until none xs = xs
  until (some end) [] = []
  until (some end) (x ∷ xs) =
      if is_ge (bytes_compare x.key end) then [] else x ∷ until (some end) xs

  unfoldable pub range : Option Bytes → Option Bytes → List (Kv V) → List (Kv V)
  unfolding seek until
  range start end xs = until end (seek start xs)
