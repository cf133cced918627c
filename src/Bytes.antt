-- ===== src/Bytes.antt =====
-- Byte slices, and what the code uses of the standard packages `bytes` and `encoding/binary`.
pub mod Order
pub mod Codec
use flume.Common.{ℕ, ◌+◌, ◌*◌, ◌/◌, ◌%◌, ◌^◌, ◌<◌, compare, Ordering, Bool, true, false}
use flume.Common.{List, [], ◌∷◌, zero, suc, ◌≡◌}

abbrev pub Bytes : Type 0
Bytes = List ℕ

abbrev pub IsByte : ℕ → Type 0
IsByte b = b < 256

-- `bytes.Compare`: lexicographic, a proper prefix before the longer slice.
unfoldable pub bytes_compare : Bytes → Bytes → Ordering
bytes_compare [] [] = Ordering.eq
bytes_compare [] (y ∷ ys) = Ordering.lt
bytes_compare (x ∷ xs) [] = Ordering.gt
bytes_compare (x ∷ xs) (y ∷ ys) = elim (compare x y) [
  | Ordering.lt ↦ Ordering.lt
  | Ordering.eq ↦ bytes_compare xs ys
  | Ordering.gt ↦ Ordering.gt
]

-- `c < 0`, `c == 0` and `c >= 0` on the result of a comparison.
abbrev pub is_lt : Ordering → Bool
is_lt Ordering.lt = true
is_lt Ordering.eq = false
is_lt Ordering.gt = false

abbrev pub is_eq : Ordering → Bool
is_eq Ordering.lt = false
is_eq Ordering.eq = true
is_eq Ordering.gt = false

abbrev pub is_ge : Ordering → Bool
is_ge Ordering.lt = false
is_ge Ordering.eq = true
is_ge Ordering.gt = true

abbrev pub is_le : Ordering → Bool
is_le Ordering.lt = true
is_le Ordering.eq = true
is_le Ordering.gt = false

-- `bytes.Equal`
abbrev pub bytes_equal : Bytes → Bytes → Bool
bytes_equal a b = is_eq (bytes_compare a b)

-- The strict order of keys, as a statement.
abbrev pub KeyLt : Bytes → Bytes → Type 0
KeyLt a b = bytes_compare a b ≡ Ordering.lt

-- Little-endian encoding of the low `w` bytes of `v`, as `PutUint32` and `PutUint64` write.
unfoldable pub put_le : ℕ → ℕ → Bytes
put_le zero v = []
put_le (suc w) v = (v % 256) ∷ put_le w (v / 256)

-- Little-endian decoding of a whole slice.
unfoldable pub get_le : Bytes → ℕ
get_le [] = 0
get_le (b ∷ bs) = b + 256 * get_le bs

abbrev pub IsU32 : ℕ → Type 0
IsU32 v = v < 2 ^ 32

abbrev pub IsU64 : ℕ → Type 0
IsU64 v = v < 2 ^ 64
