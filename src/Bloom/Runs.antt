-- ===== src/Bloom/Runs.antt =====
-- Runs of the filter on small inputs.
use flume.Common.{ℕ, ◌*◌, ◌≡◌, refl, arith, true, false, [], ◌∷◌, ok, err, ◌>>=◌, All, short_filter}
use flume.Bytes.{Bytes, IsByte}
use flume.Bloom.{
  Filter, Sizing, new_for_entries, fnv32a, fnv32, add_all, may_contain, encode, decode, num_bytes,
  test_bit,
}
use flume.Bloom.Valid.{IsValid, new_for_entries-IsValid}
use flume.Bloom.Membership.{add_all-present}
use flume.Bloom.Codec.{IsShaped, decode-encode, encode-decode}
use mathlib.Core.List.{mem-cons}
use mathlib.Core.Logic.Or

abbrev small : Filter
small = record { bits = 0 ∷ 0 ∷ 0 ∷ []; num_bits = 20; num_hash = 3 }

abbrev ab : Bytes
ab = 97 ∷ 98 ∷ []

-- The published FNV-1a and FNV-1 values of "a".
fnv32a_run : fnv32a 2166136261 (97 ∷ []) ≡ 0xE40C292C
unfolding fnv32a
fnv32a_run = refl

fnv32_run : fnv32 2166136261 (97 ∷ []) ≡ 0x050C5D7E
unfolding fnv32
fnv32_run = refl

encode_run : encode small ≡ 20 ∷ 0 ∷ 0 ∷ 0 ∷ 3 ∷ 0 ∷ 0 ∷ 0 ∷ 0 ∷ 0 ∷ 0 ∷ []
unfolding encode flume.Bytes.put_le
encode_run = refl

decode_short_run : decode (1 ∷ 2 ∷ []) ≡ err short_filter
unfolding decode
decode_short_run = refl

small-IsValid : IsValid small
small-IsValid = record {
  some_bits = omega arith;
  room = omega arith;
  are_bytes = (omega arith, (omega arith, (omega arith, tt)));
}

add_all-present_example :
    (add_all small (ab ∷ (99 ∷ []) ∷ []) >>= λ f'. may_contain f' ab) ≡ ok true
add_all-present_example =
    add_all-present small (ab ∷ (99 ∷ []) ∷ []) small-IsValid ab (mem-cons.1 (Or.inl refl))

-- A filter that has the key `ab`.
abbrev with_ab : Filter
with_ab = record { bits = 255 ∷ 255 ∷ 254 ∷ []; num_bits = 20; num_hash = 3 }

with_ab-IsValid : IsValid with_ab
with_ab-IsValid = record {
  some_bits = omega arith;
  room = omega arith;
  are_bytes = (omega arith, (omega arith, (omega arith, tt)));
}

with_ab_run : may_contain with_ab ab ≡ ok true
unfolding may_contain flume.Bloom.may_contain_loop flume.Bloom.hashes flume.Bloom.fnv32a
    flume.Bloom.fnv32 flume.Bloom.probe flume.Bloom.test_bit
with_ab_run = refl

decode-encode_example : decode (encode small) ≡ ok small
decode-encode_example =
    decode-encode small (record { bits_fit = omega arith; hash_fit = omega arith; sized = refl })

abbrev small_bytes : Bytes
small_bytes = 20 ∷ 0 ∷ 0 ∷ 0 ∷ 3 ∷ 0 ∷ 0 ∷ 0 ∷ 0 ∷ 0 ∷ 0 ∷ []

small_bytes-IsByte : All IsByte small_bytes
small_bytes-IsByte = (
  omega arith,
  (
    omega arith,
    (
      omega arith,
      (
        omega arith,
        (
          omega arith,
          (
            omega arith,
            (omega arith, (omega arith, (omega arith, (omega arith, (omega arith, tt))))),
          ),
        ),
      ),
    ),
  ),
)

decode_run : decode small_bytes ≡ ok small
unfolding decode flume.Bytes.get_le
decode_run = refl

encode-decode_example : (encode small ≡ small_bytes) × IsShaped small
encode-decode_example = encode-decode small_bytes small small_bytes-IsByte decode_run

-- Ten bits for each entry, and seven hashes, whatever the rate.
abbrev ten_bits : Sizing
ten_bits = record {
  Float = ℕ;
  out_of_range = λ p. false;
  one_percent = 1;
  optimal_bits = λ n p. 10 * n;
  optimal_hashes = λ m n p. 7;
}

new_for_entries-IsValid_example : IsValid (new_for_entries ten_bits 100 1)
unfolding new_for_entries
new_for_entries-IsValid_example = new_for_entries-IsValid ten_bits 100 1 (omega arith)
