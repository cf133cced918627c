-- ===== src/Bloom.antt =====
-- bloom/bloom.go: the filter, its two FNV hashes, `Add`, `MayContain`, `Encode` and `Decode`.
pub mod Bits
pub mod Valid
pub mod Membership
pub mod Codec
pub mod Shape
mod Runs
use flume.Common.{
  ℕ, zero, suc, ◌+◌, ◌-◌, ◌*◌, ◌/◌, ◌%◌, ◌^◌, ◌≡◌, Bool, true, false, ◌||◌, List, [], ◌∷◌, ◌++◌,
  Option, none, some, bit_and, bit_or, bit_xor, ltb, ◌==◌, if◌then◌else◌, length, get_elem?, set,
  take, drop, replicate, Result, ok, err, panicked, short_filter, corrupt_filter, ◌>>=◌, ◌>>◌,
  guard, not,
}
use flume.Bytes.{Bytes, put_le, get_le}

pub record Filter : Type 0 where
  pub bits : Bytes
  pub num_bits : ℕ
  pub num_hash : ℕ

-- The floating-point side of `NewForEntries`: the formulas for m (rounded up) and k (rounded) as
-- functions of the number of entries and the rate.
pub record Sizing : Type 1 where
  pub Float : Type 0
  pub out_of_range : Float → Bool
  pub one_percent : Float
  pub optimal_bits : ℕ → Float → ℕ
  pub optimal_hashes : ℕ → ℕ → Float → ℕ

-- `(numBits+7)/8` on uint32.
abbrev pub num_bytes : ℕ → ℕ
num_bytes n = (n + 7) % 2 ^ 32 / 8

module _ (z : Sizing) where
  unfoldable pub new_for_entries : ℕ → z.Float → Filter
  new_for_entries n fp =
      let n' = if ltb n 1 then 1 else n in
      let fp' = if z.out_of_range fp then z.one_percent else fp in
      let m = z.optimal_bits n' fp' in
      let k = z.optimal_hashes m n' fp' in
      let k' = if ltb k 1 then 1 else k in
      let num_bits = if m % 2 ^ 32 == 0 then 1 else m % 2 ^ 32 in
      record {
        bits = replicate (num_bytes num_bits) 0;
        num_bits = num_bits;
        num_hash = k' % 2 ^ 32;
      }

-- hash/fnv, 32 bits: `New32a` is xor then multiply, `New32` multiply then xor.
unfoldable pub fnv32a : ℕ → Bytes → ℕ
fnv32a h [] = h
fnv32a h (b ∷ bs) = fnv32a (bit_xor h b * 16777619 % 2 ^ 32) bs

unfoldable pub fnv32 : ℕ → Bytes → ℕ
fnv32 h [] = h
fnv32 h (b ∷ bs) = fnv32 (bit_xor (h * 16777619 % 2 ^ 32) b) bs

unfoldable pub hashes : Bytes → ℕ × ℕ
unfolding fnv32a fnv32
hashes key = (fnv32a 2166136261 key, fnv32 2166136261 key)

-- `(h1 + i*h2) % f.numBits` on uint32; a filter of no bits divides by zero.
unfoldable pub probe : ℕ → ℕ × ℕ → ℕ → Result ℕ
probe num_bits h i =
    if num_bits == 0 then err panicked else ok ((h.0 + i * h.1 % 2 ^ 32) % 2 ^ 32 % num_bits)

-- `f.bits[idx/8] |= 1 << (idx % 8)`
unfoldable pub set_bit : Bytes → ℕ → Result Bytes
set_bit bits idx = elim (get_elem? bits (idx / 8)) [
  | none ↦ err panicked
  | some b ↦ ok (set bits (idx / 8) (bit_or b (2 ^ (idx % 8))))
]

-- `f.bits[idx/8] & (1 << (idx % 8)) != 0`
unfoldable pub test_bit : Bytes → ℕ → Result Bool
test_bit bits idx = elim (get_elem? bits (idx / 8)) [
  | none ↦ err panicked
  | some b ↦ ok (not (bit_and b (2 ^ (idx % 8)) == 0))
]

-- The first argument counts the rounds left, the second is `i`.
unfoldable pub add_loop : ℕ → ℕ → ℕ × ℕ → ℕ → Bytes → Result Bytes
add_loop zero i h num_bits bits = ok bits
add_loop (suc n) i h num_bits bits = do
  idx ← probe num_bits h i
  bits' ← set_bit bits idx
  add_loop n (i + 1) h num_bits bits'

unfoldable pub add : Filter → Bytes → Result Filter
add f key = do
  bits ← add_loop f.num_hash 0 (hashes key) f.num_bits f.bits
  ok (record f { bits = bits })

unfoldable pub may_contain_loop : ℕ → ℕ → ℕ × ℕ → ℕ → Bytes → Result Bool
may_contain_loop zero i h num_bits bits = ok true
may_contain_loop (suc n) i h num_bits bits = do
  idx ← probe num_bits h i
  present ← test_bit bits idx
  elim present [ true ↦ may_contain_loop n (i + 1) h num_bits bits | false ↦ ok false ]

unfoldable pub may_contain : Filter → Bytes → Result Bool
may_contain f key = may_contain_loop f.num_hash 0 (hashes key) f.num_bits f.bits

unfoldable pub encode : Filter → Bytes
encode f = put_le 4 f.num_bits ++ (put_le 4 f.num_hash ++ f.bits)

unfoldable pub decode : Bytes → Result Filter
decode buf =
    let num_bits = get_le (take 4 buf) in
    let num_hash = get_le (take 4 (drop 4 buf)) in
    if ltb (length buf) 8
    then err short_filter
    else if not (length buf - 8 == num_bytes num_bits)
    then err corrupt_filter
    else ok (record { bits = drop 8 buf; num_bits = num_bits; num_hash = num_hash })

-- `Write` calls `Add` for each record's key in turn.
unfoldable pub add_all : Filter → List Bytes → Result Filter
add_all f [] = ok f
add_all f (k ∷ ks) = do f' ← add f k; add_all f' ks
