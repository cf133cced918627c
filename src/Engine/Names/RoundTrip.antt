-- ===== src/Engine/Names/RoundTrip.antt =====
-- The names of files, and their parsing.
use flume.Common.{
  ℕ, zero, suc, ◌+◌, ◌*◌, ◌-◌, ◌/◌, ◌%◌, ◌^◌, ◌<◌, ◌≡◌, refl, ap, ◌∙◌, arith, Bool, true, false,
  ◌&&◌, [], ◌∷◌, ◌++◌, none, some, ltb, leb, ◌==◌, if◌then◌else◌, length, replicate, take, drop,
  length-append, length-replicate, take_front, drop_front, All, All-append, Bool-cases, inl, inr,
}
use flume.Bytes.{Bytes, bytes_equal}
use flume.Bytes.Order.{compare_self}
use flume.Engine.Names.{
  zero_digit, dash, sst_suffix, wal_suffix, digits, padded, wal_file_name, sst_file_name,
  parse_from, parse_uint, atoi, trim_suffix, split_dash, parse_parts, parse_sst_filename,
  parse_wal_filename,
}

abbrev IsDigit : ℕ → Type 0
IsDigit b = (leb zero_digit b && leb b 57) ≡ true

parse_zeros :
    (k limit : ℕ) (bs : Bytes)
    → 0 < limit
    → parse_from limit 0 (replicate k zero_digit ++ bs) ≡ parse_from limit 0 bs
unfolding parse_from
parse_zeros zero limit bs h = refl
parse_zeros (suc k) limit bs h = rw (first, parse_from) (parse_zeros k limit bs h)
  where
    first : ltb 0 limit ≡ true
    first = ground arith

-- A number read after its front.
parse_snoc :
    (limit acc n : ℕ) (xs : Bytes) (d : ℕ)
    → d < 10
    → n * 10 + d < limit
    → parse_from limit acc xs ≡ some n
    → parse_from limit acc (xs ++ (zero_digit + d) ∷ []) ≡ some (n * 10 + d)
unfolding parse_from
parse_snoc limit acc n [] d h l p = ground arith
parse_snoc limit acc n (x ∷ xs) d h l p =
    elim (Bool-cases (leb zero_digit x && leb x 57 && ltb (acc * 10 + (x - zero_digit)) limit)) [
      | inl b ↦
          rw (b, parse_from)
            (parse_snoc limit (acc * 10 + (x - zero_digit)) n xs d h l (rw (b, parse_from) at p))
      | inr b ↦ absurd (none_some (rw (b, parse_from) at p))
    ]
  where
    none_some : none ≡ some n → ⊥
    none_some q = cc

parse_digits :
    (fuel n limit : ℕ) → n < fuel → n < limit → parse_from limit 0 (digits fuel n) ≡ some n
unfolding digits parse_from
parse_digits zero n limit h l = absurd (omega arith)
parse_digits (suc fuel) n limit h l = elim (Bool-cases (ltb n 10)) [
  | inl b ↦ rw (b, digits) (small (ground arith))
  | inr b ↦
      rw (b, digits)
        (parse_snoc limit 0 (n / 10) (digits fuel (n / 10)) (n % 10) (omega arith) (omega arith)
            (parse_digits fuel (n / 10) limit (ground arith) (omega arith))
          ∙ ap some (omega arith))
]
  where
    small : n < 10 → parse_from limit 0 ((zero_digit + n) ∷ []) ≡ some n
    small b = ground arith

padded-parse : (width n limit : ℕ) → n < limit → parse_from limit 0 (padded width n) ≡ some n
unfolding padded
padded-parse width n limit l =
    parse_zeros (width - length (digits (suc n) n)) limit (digits (suc n) n) (omega arith)
    ∙ parse_digits (suc n) n limit (omega arith) l

-- The digits of a number are digits, and there is one.
digits-IsDigit : (fuel n : ℕ) → All IsDigit (digits fuel n)
unfolding digits
digits-IsDigit zero n = tt
digits-IsDigit (suc fuel) n = elim (Bool-cases (ltb n 10)) [
  | inl b ↦ rw (b, digits) (ground arith, tt)
  | inr b ↦
      rw (b, digits)
        (All-append IsDigit (digits fuel (n / 10)) _ (digits-IsDigit fuel (n / 10))
          (ground arith, tt))
]

zeros-IsDigit : (k : ℕ) → All IsDigit (replicate k zero_digit)
zeros-IsDigit zero = tt
zeros-IsDigit (suc k) = (refl, zeros-IsDigit k)

padded-IsDigit : (width n : ℕ) → All IsDigit (padded width n)
unfolding padded
padded-IsDigit width n =
    All-append IsDigit (replicate (width - length (digits (suc n) n)) zero_digit) (digits (suc n) n)
      (zeros-IsDigit _) (digits-IsDigit (suc n) n)

length-padded : (width n : ℕ) → width < length (padded width n) + 1
unfolding padded
length-padded width n =
    let ds = digits (suc n) n in
    omega (
      arith,
      length-append (replicate (width - length ds) zero_digit) ds,
      length-replicate (width - length ds) zero_digit,
    )

-- A name is cut at its dash and freed of its suffix.
split_dash-digits :
    (front back : Bytes)
    → All IsDigit front
    → split_dash (front ++ dash ∷ back) ≡ some (front, back)
unfolding split_dash
split_dash-digits [] back h = refl
split_dash-digits (b ∷ front) back h = rw (other, split_dash, split_dash-digits front back h.1) refl
  where
    other : (b == dash) ≡ false
    other = ground (arith, h.0)

trim_suffix-append : (suffix name : Bytes) → trim_suffix suffix (name ++ suffix) ≡ name
unfolding trim_suffix
trim_suffix-append suffix name = trimmed _ (leb _ _) whole within
  where
    whole : length (name ++ suffix) - length suffix ≡ length name
    whole = omega (arith, length-append name suffix)

    within : leb (length suffix) (length (name ++ suffix)) ≡ true
    within = ground (arith, length-append name suffix)

    trimmed :
        (n : ℕ) (b : Bool)
        → n ≡ length name
        → b ≡ true
        → (if b && bytes_equal (drop n (name ++ suffix)) suffix
            then take n (name ++ suffix)
            else name ++ suffix)
          ≡ name
    trimmed n b p q =
        rw (p, q, drop_front name suffix (length name) refl, compare_self suffix)
          (take_front name suffix (length name) refl)

atoi-parse :
    (bs : Bytes) (n : ℕ)
    → All IsDigit bs
    → 0 < length bs
    → parse_from (2 ^ 63) 0 bs ≡ some n
    → atoi bs ≡ some n
unfolding atoi
atoi-parse [] n h l p = absurd (omega arith)
atoi-parse (b ∷ []) n h l p = rw (no_plus b h.0, atoi) p
  where
    no_plus : (b : ℕ) → IsDigit b → (b == 43) ≡ false
    no_plus b h = ground arith
atoi-parse (b ∷ c ∷ bs) n h l p = rw (no_plus b h.0, atoi) p
  where
    no_plus : (b : ℕ) → IsDigit b → (b == 43) ≡ false
    no_plus b h = ground arith

parse_uint-parse :
    (bs : Bytes) (n : ℕ)
    → 0 < length bs
    → parse_from (2 ^ 64) 0 bs ≡ some n
    → parse_uint bs ≡ some n
unfolding parse_uint
parse_uint-parse [] n l p = absurd (omega arith)
parse_uint-parse (b ∷ bs) n l p = p

parse_parts-padded :
    (level gen : ℕ)
    → level < 2 ^ 63
    → gen < 2 ^ 64
    → parse_parts (76 ∷ padded 2 level) (padded 20 gen) ≡ some (level, gen)
unfolding parse_parts
parse_parts-padded level gen l g = rw (long, parse_parts, lvl, num) refl
  where
    long : leb 1 (length (padded 2 level)) ≡ true
    long = ground (arith, length-padded 2 level)

    lvl : atoi (padded 2 level) ≡ some level
    lvl =
        atoi-parse (padded 2 level) level (padded-IsDigit 2 level)
          (omega (arith, length-padded 2 level)) (padded-parse 2 level (2 ^ 63) l)

    num : parse_uint (padded 20 gen) ≡ some gen
    num =
        parse_uint-parse (padded 20 gen) gen (omega (arith, length-padded 20 gen))
          (padded-parse 20 gen (2 ^ 64) g)

-- `scanDir` reads from the name of a table and from that of a log what they were made of, for a level
-- below 2^63 and generations of 64 bits.
pub parse_sst_filename-sst_file_name :
    (level gen : ℕ)
    → level < 2 ^ 63
    → gen < 2 ^ 64
    → (parse_sst_filename (sst_file_name level gen) ≡ some (level, gen))
      × (parse_wal_filename (wal_file_name gen) ≡ some gen)
unfolding parse_sst_filename sst_file_name parse_wal_filename wal_file_name
parse_sst_filename-sst_file_name level gen l g = (
  parse_trimmed _ (trim_suffix-append sst_suffix (76 ∷ (padded 2 level ++ dash ∷ padded 20 gen))),
  ap parse_uint (trim_suffix-append wal_suffix (padded 20 gen))
      ∙ parse_uint-parse (padded 20 gen) gen (omega (arith, length-padded 20 gen))
          (padded-parse 20 gen (2 ^ 64) g),
)
  where
    cut :
        split_dash (76 ∷ (padded 2 level ++ dash ∷ padded 20 gen))
        ≡ some (76 ∷ padded 2 level, padded 20 gen)
    cut =
        unfold split_dash in
        rw (split_dash-digits (padded 2 level) (padded 20 gen) (padded-IsDigit 2 level)) refl

    parse_trimmed :
        (base : Bytes)
        → base ≡ 76 ∷ (padded 2 level ++ dash ∷ padded 20 gen)
        → (elim (split_dash base) [ none ↦ none | some p ↦ parse_parts p.0 p.1 ])
          ≡ some (level, gen)
    parse_trimmed base p = rw (p, cut) (parse_parts-padded level gen l g)
