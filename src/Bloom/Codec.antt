-- ===== src/Bloom/Codec.antt =====
-- `Encode` and `Decode`.
use flume.Common.{
  ◌+◌, ◌-◌, ◌^◌, ◌≤◌, ◌<◌, ◌≡◌, sym, ap, ◌∙◌, arith, ◌++◌, length, length-append, take_front,
  drop_front, drop-drop, take-append-drop, length-drop, length-take_le, take, drop, All, All-take,
  All-drop, ok,
}
use flume.Bytes.{Bytes, IsByte, put_le, get_le}
use flume.Bytes.Codec.{length-put_le, get_le-put_le, put_le-get_le, get_le-lt}
use flume.Bloom.{Filter, num_bytes, encode, decode}

-- Two numbers of 32 bits, and as many bytes as `(numBits+7)/8` says in uint32; either number may be 0.
pub record IsShaped (f : Filter) : Type 0 where
  pub bits_fit : f.num_bits < 2 ^ 32
  pub hash_fit : f.num_hash < 2 ^ 32
  pub sized : length f.bits ≡ num_bytes f.num_bits

module _ (f : Filter) where
  take_first : take 4 (encode f) ≡ put_le 4 f.num_bits
  unfolding encode
  take_first = take_front (put_le 4 f.num_bits) _ 4 (length-put_le 4 f.num_bits)

  drop_first : drop 4 (encode f) ≡ put_le 4 f.num_hash ++ f.bits
  unfolding encode
  drop_first = drop_front (put_le 4 f.num_bits) _ 4 (length-put_le 4 f.num_bits)

  drop_header : drop 8 (encode f) ≡ f.bits
  drop_header =
      sym (drop-drop 4 4 (encode f))
      ∙ ap (drop 4) drop_first
      ∙ drop_front (put_le 4 f.num_hash) f.bits 4 (length-put_le 4 f.num_hash)

  length-encode : length (encode f) ≡ 8 + length f.bits
  unfolding encode
  length-encode = omega (
    arith,
    length-append (put_le 4 f.num_bits) (put_le 4 f.num_hash ++ f.bits),
    length-append (put_le 4 f.num_hash) f.bits,
    length-put_le 4 f.num_bits,
    length-put_le 4 f.num_hash,
  )

  read_bits : IsShaped f → get_le (take 4 (encode f)) ≡ f.num_bits
  read_bits s = rw take_first (get_le-put_le 4 f.num_bits (omega (arith, s.bits_fit)))

  read_hash : IsShaped f → get_le (take 4 (drop 4 (encode f))) ≡ f.num_hash
  read_hash s =
      rw (drop_first, take_front (put_le 4 f.num_hash) f.bits 4 (length-put_le 4 f.num_hash))
        (get_le-put_le 4 f.num_hash (omega (arith, s.hash_fit)))

  -- `Decode` reads back every shaped filter from what `Encode` wrote.
  pub decode-encode : IsShaped f → decode (encode f) ≡ ok f
  unfolding decode
  decode-encode s = ground (arith, read_bits s, read_hash s, drop_header, length-encode, s.sized)

-- What a successful `Decode` has read.
record Decoded (buf : Bytes) (f : Filter) : Type 0 where
  long : 8 ≤ length buf
  sized : length buf - 8 ≡ num_bytes f.num_bits
  read_num_bits : f.num_bits ≡ get_le (take 4 buf)
  read_num_hash : f.num_hash ≡ get_le (take 4 (drop 4 buf))
  read_array : f.bits ≡ drop 8 buf

decode-Decoded : (buf : Bytes) (f : Filter) → decode buf ≡ ok f → Decoded buf f
unfolding decode
decode-Decoded buf f e = record {
  long = ground arith;
  sized = ground arith;
  read_num_bits = ground arith;
  read_num_hash = ground arith;
  read_array = ground arith;
}

four_bytes : (bs : Bytes) → All IsByte bs → length bs ≡ 4 → get_le bs < 2 ^ 32
four_bytes bs h e = let b = get_le-lt bs h in omega (arith, rw e at b)

rejoin : (buf : Bytes) → take 4 buf ++ (take 4 (drop 4 buf) ++ drop 8 buf) ≡ buf
rejoin buf =
    ap (λ t. take 4 buf ++ (take 4 (drop 4 buf) ++ t)) (sym (drop-drop 4 4 buf))
    ∙ ap (λ t. take 4 buf ++ t) (take-append-drop 4 (drop 4 buf))
    ∙ take-append-drop 4 buf

-- `Decode` accepts a byte slice only if it is the encoding of the filter that it returns, and that
-- filter has as many bytes as `(numBits+7)/8` says in uint32, and two numbers of 32 bits, either of
-- which may be 0.
pub encode-decode :
    (buf : Bytes) (f : Filter) → All IsByte buf → decode buf ≡ ok f → (encode f ≡ buf) × IsShaped f
unfolding encode
encode-decode buf f h e =
    let d = decode-Decoded buf f e in
    let low = take 4 buf in
    let high = take 4 (drop 4 buf) in
    let low_len : length low ≡ 4 = length-take_le 4 buf (omega (arith, d.long)) in
    let high_len : length high ≡ 4 =
      length-take_le 4 (drop 4 buf) (omega (arith, d.long, length-drop 4 buf)) in
    let low_bytes = All-take IsByte 4 buf h in
    let high_bytes = All-take IsByte 4 (drop 4 buf) (All-drop IsByte 4 buf h) in
    (
      rw
          (
            d.read_num_bits,
            d.read_num_hash,
            d.read_array,
            put_le-get_le 4 low low_bytes low_len,
            put_le-get_le 4 high high_bytes high_len,
          )
          (rejoin buf),
      record {
        bits_fit = omega (arith, d.read_num_bits, four_bytes low low_bytes low_len);
        hash_fit = omega (arith, d.read_num_hash, four_bytes high high_bytes high_len);
        sized = omega (arith, d.sized, ap length d.read_array, length-drop 8 buf);
      },
    )
