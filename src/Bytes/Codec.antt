-- ===== src/Bytes/Codec.antt =====
-- Little-endian encoding and decoding are inverse on the values that fit.
use flume.Common.{ℕ, zero, suc, ◌+◌, ◌*◌, ◌/◌, ◌%◌, ◌^◌, ◌<◌, ◌≡◌, refl, arith, [], ◌∷◌}
use flume.Common.{length, All, ap}
use flume.Bytes.{Bytes, IsByte, put_le, get_le}
use native.Mathlib.Nat.{pow-suc}

pub length-put_le : (w v : ℕ) → length (put_le w v) ≡ w
unfolding put_le
length-put_le zero v = refl
length-put_le (suc w) v = ap suc (length-put_le w (v / 256))

pub put_le-IsByte : (w v : ℕ) → All IsByte (put_le w v)
unfolding put_le
put_le-IsByte zero v = tt
put_le-IsByte (suc w) v = (omega arith, put_le-IsByte w (v / 256))

pub get_le-put_le : (w v : ℕ) → v < 256 ^ w → get_le (put_le w v) ≡ v
unfolding put_le get_le
get_le-put_le zero v h = omega arith
get_le-put_le (suc w) v h =
    omega (arith, pow-suc 256 w, get_le-put_le w (v / 256) (omega (arith, pow-suc 256 w)))

pub put_le-get_le : (w : ℕ) (bs : Bytes) → All IsByte bs → length bs ≡ w → put_le w (get_le bs) ≡ bs
unfolding put_le get_le
put_le-get_le zero [] h e = refl
put_le-get_le zero (b ∷ bs) h e = absurd (omega arith)
put_le-get_le (suc w) [] h e = absurd (omega arith)
put_le-get_le (suc w) (b ∷ bs) h e = ground (
  arith,
  mod_head b (get_le bs) h.0,
  div_head b (get_le bs) h.0,
  put_le-get_le w bs h.1 (omega arith),
)
  where
    mod_head : (b t : ℕ) → b < 256 → (b + 256 * t) % 256 ≡ b
    mod_head b t h = omega arith

    div_head : (b t : ℕ) → b < 256 → (b + 256 * t) / 256 ≡ t
    div_head b t h = omega arith

pub get_le-lt : (bs : Bytes) → All IsByte bs → get_le bs < 256 ^ length bs
unfolding get_le
get_le-lt [] h = omega arith
get_le-lt (b ∷ bs) h = omega (arith, pow-suc 256 (length bs), get_le-lt bs h.1, h.0)
