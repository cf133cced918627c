-- ===== src/Bloom/Bits.antt =====
-- Setting a bit of a byte: the byte stays a byte, the bit is set, no bit is cleared. Each is a
-- table over all bytes and positions, checked by evaluation.
use flume.Common.{
  ℕ, zero, suc, ◌+◌, ◌*◌, ◌/◌, ◌%◌, ◌^◌, ◌<◌, ◌≡◌, refl, arith, Bool, true, false, ◌&&◌, ◌||◌, not,
  bit_and, bit_or, ltb, ltb→lt, if◌then◌else◌, ◌==◌,
}

-- A test that every number up to a bound passes.
passes : (ℕ → Bool) → ℕ → Bool
passes test zero = true
passes test (suc bound) = if test bound then passes test bound else false

passes_at : (test : ℕ → Bool) (bound i : ℕ) → i < bound → passes test bound ≡ true → test i ≡ true
unfolding passes
passes_at test zero i lt e = absurd (omega arith)
passes_at test (suc bound) i lt e = ground (arith, passes_at test bound i)

abbrev pub has_bit : ℕ → ℕ → Bool
has_bit b j = not (bit_and b (2 ^ j) == 0)

-- The triple (b, i, j) is coded as b * 64 + i * 8 + j.
abbrev keeps : ℕ → ℕ → ℕ → Bool
keeps b i j = not (has_bit b i) || has_bit (bit_or b (2 ^ j)) i

abbrev sets : ℕ → ℕ → Bool
sets b j = has_bit (bit_or b (2 ^ j)) j && ltb (bit_or b (2 ^ j)) 256

keeps_table : passes (λ n. keeps (n / 64) (n / 8 % 8) (n % 8)) 16384 ≡ true
unfolding passes
keeps_table = refl

sets_table : passes (λ n. sets (n / 8) (n % 8)) 2048 ≡ true
unfolding passes
sets_table = refl

bit_code :
    (b i j : ℕ)
    → i < 8
    → j < 8
    → ((b * 64 + i * 8 + j) / 64 ≡ b)
      × ((b * 64 + i * 8 + j) / 8 % 8 ≡ i)
      × ((b * 64 + i * 8 + j) % 8 ≡ j)
bit_code b i j hi hj = omega arith

-- A bit that is set stays set when any bit is set.
pub has_bit-bit_or :
    (b i j : ℕ) → b < 256 → i < 8 → j < 8 → has_bit b i ≡ true → has_bit (bit_or b (2 ^ j)) i ≡ true
has_bit-bit_or b i j hb hi hj h =
    let (eb, ei, ej) = bit_code b i j hi hj in
    let at : keeps b i j ≡ true =
      rw (eb, ei, ej) at (passes_at _ 16384 (b * 64 + i * 8 + j) (omega arith) keeps_table) in
    or_true (has_bit b i) (has_bit (bit_or b (2 ^ j)) i) at h
  where
    or_true : (x y : Bool) → (not x || y) ≡ true → x ≡ true → y ≡ true
    or_true x y p q = ground arith

and_true : (x y : Bool) → (x && y) ≡ true → (x ≡ true) × (y ≡ true)
and_true x y p = ground arith

sets_at : (b j : ℕ) → b < 256 → j < 8 → sets b j ≡ true
sets_at b j hb hj =
    let eb : (b * 8 + j) / 8 ≡ b = omega arith in
    let ej : (b * 8 + j) % 8 ≡ j = omega arith in
    rw (eb, ej) at (passes_at _ 2048 (b * 8 + j) (omega arith) sets_table)

pub has_bit-bit_or_self : (b j : ℕ) → b < 256 → j < 8 → has_bit (bit_or b (2 ^ j)) j ≡ true
has_bit-bit_or_self b j hb hj = (and_true (has_bit (bit_or b (2 ^ j)) j) _ (sets_at b j hb hj)).0

pub bit_or-IsByte : (b j : ℕ) → b < 256 → j < 8 → bit_or b (2 ^ j) < 256
bit_or-IsByte b j hb hj =
    ltb→lt _ _ (and_true (has_bit (bit_or b (2 ^ j)) j) _ (sets_at b j hb hj)).1
