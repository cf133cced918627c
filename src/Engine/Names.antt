-- ===== src/Engine/Names.antt =====
-- engine/engine.go: the names of the log and table files, and their parsing in `scanDir`. A name is the
-- last part of a path; letters are ASCII codes.
pub mod RoundTrip
mod Runs
use flume.Common.{
  ℕ, zero, suc, ◌+◌, ◌*◌, ◌-◌, ◌/◌, ◌%◌, ◌^◌, ◌<◌, ◌≡◌, ◌≢◌, refl, sym, ap, ◌∙◌, arith, Bool, true,
  false, ◌&&◌, not, List, [], ◌∷◌, ◌++◌, append_assoc, Option, none, some, ltb, leb, ◌==◌,
  if◌then◌else◌, length, replicate, take, drop, length-append, length-replicate, take_front,
  drop_front, All, All-append, Bool-cases, inl, inr,
}
use flume.Bytes.{Bytes, bytes_equal}

abbrev zero_digit : ℕ
zero_digit = 48

abbrev dash : ℕ
dash = 45

abbrev sst_suffix : Bytes
sst_suffix = 46 ∷ 115 ∷ 115 ∷ 116 ∷ []

abbrev wal_suffix : Bytes
wal_suffix = 46 ∷ 119 ∷ 97 ∷ 108 ∷ []

-- The decimal digits of a number, and `%0[width]d`. A number has fewer digits than one more than itself.
unfoldable digits : ℕ → ℕ → Bytes
digits zero n = []
digits (suc fuel) n =
    let front = digits fuel (n / 10) in
    if ltb n 10 then (zero_digit + n) ∷ [] else front ++ (zero_digit + n % 10) ∷ []

unfoldable padded : ℕ → ℕ → Bytes
unfolding digits
padded width n = let ds = digits (suc n) n in replicate (width - length ds) zero_digit ++ ds

unfoldable pub wal_file_name : ℕ → Bytes
unfolding padded
wal_file_name gen = padded 20 gen ++ wal_suffix

unfoldable pub sst_file_name : ℕ → ℕ → Bytes
unfolding padded
sst_file_name level gen = 76 ∷ (padded 2 level ++ dash ∷ padded 20 gen) ++ sst_suffix

-- The digits that `strconv.ParseUint` and `strconv.Atoi` read, up to a number below the limit.
unfoldable parse_from : ℕ → ℕ → Bytes → Option ℕ
parse_from limit acc [] = some acc
parse_from limit acc (b ∷ bs) =
    let acc' = acc * 10 + (b - zero_digit) in
    let rest = parse_from limit acc' bs in
    if leb zero_digit b && leb b 57 && ltb acc' limit then rest else none

unfoldable parse_uint : Bytes → Option ℕ
unfolding parse_from
parse_uint [] = none
parse_uint (b ∷ bs) = parse_from (2 ^ 64) 0 (b ∷ bs)

-- A part before the first dash has no minus sign.
unfoldable atoi : Bytes → Option ℕ
unfolding parse_from
atoi [] = none
atoi (b ∷ []) = if b == 43 then none else parse_from (2 ^ 63) 0 (b ∷ [])
atoi (b ∷ c ∷ bs) =
    if b == 43 then parse_from (2 ^ 63) 0 (c ∷ bs) else parse_from (2 ^ 63) 0 (b ∷ c ∷ bs)

unfoldable trim_suffix : Bytes → Bytes → Bytes
trim_suffix suffix name =
    let n = length name - length suffix in
    if leb (length suffix) (length name) && bytes_equal (drop n name) suffix
    then take n name
    else name

-- `strings.SplitN(base, "-", 2)`, `none` if there is no dash
unfoldable split_dash : Bytes → Option (Bytes × Bytes)
split_dash [] = none
split_dash (b ∷ bs) =
    let rest = split_dash bs in
    if b == dash then some ([], bs) else elim rest [ none ↦ none | some p ↦ some (b ∷ p.0, p.1) ]

unfoldable parse_parts : Bytes → Bytes → Option (ℕ × ℕ)
unfolding atoi parse_uint
parse_parts [] gen = none
parse_parts (l ∷ level) gen =
    if l == 76 && leb 1 (length level)
    then elim (atoi level) [
      | none ↦ none
      | some lvl ↦ elim (parse_uint gen) [ none ↦ none | some g ↦ some (lvl, g) ]
    ]
    else none

unfoldable pub parse_sst_filename : Bytes → Option (ℕ × ℕ)
unfolding trim_suffix split_dash parse_parts
parse_sst_filename name = elim (split_dash (trim_suffix sst_suffix name)) [
  | none ↦ none
  | some p ↦ parse_parts p.0 p.1
]

-- The generation of a log in `scanDir`.
unfoldable pub parse_wal_filename : Bytes → Option ℕ
unfolding trim_suffix parse_uint
parse_wal_filename name = parse_uint (trim_suffix wal_suffix name)
