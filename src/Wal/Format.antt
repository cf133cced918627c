-- ===== src/Wal/Format.antt =====
-- Reading one record back: whole, cut short, and larger than `Replay` accepts.
use flume.Common.{
  ℕ, ◌+◌, ◌^◌, ◌≤◌, ◌<◌, ◌≡◌, refl, sym, ap, subst, ◌∙◌, arith, [], ◌++◌, Option, none, some,
  length, length-append, take, drop, slice, slice_skip, drop_skip, drop_front, take_front,
  slice-take, length-take-le, length-drop, append_assoc, append-nil, length-take_le, ltb→lt,
  Bool-cases, ltb, ◌⊎◌, inl, inr,
}
use flume.Bytes.{Bytes, put_le, get_le}
use flume.Bytes.Codec.{length-put_le, get_le-put_le}
use flume.Wal.{
  Record, checksum, payload, encode_record, check_record, read_record, max_reasonable_len,
}

-- Fields that the format can hold.
pub record IsWritable (r : Record) : Type 0 where
  pub type_fits : r.type < 256
  pub seq_fits : r.seq < 2 ^ 64
  pub key_fits : length r.key < 2 ^ 32
  pub value_fits : length r.value < 2 ^ 32

-- Lengths up to the bound that `Replay` calls reasonable.
pub record IsReasonable (r : Record) : Type 0 where
  pub key_len : length r.key ≤ max_reasonable_len
  pub value_len : length r.value ≤ max_reasonable_len

-- A length beyond that bound.
abbrev pub IsLarge : Record → Type 0
IsLarge r = (max_reasonable_len < length r.key) ⊎ (max_reasonable_len < length r.value)

checksum-lt : (bs : Bytes) → checksum bs < 2 ^ 32
unfolding checksum
checksum-lt bs = omega arith

-- The five fields of a header and what follows them, by their places.
module _ (a b c d e t : Bytes) (la : length a ≡ 4) (lb : length b ≡ 1) (lc : length c ≡ 8)
    (ld : length d ≡ 4) (le : length e ≡ 4) where
  abbrev fields : Bytes
  fields = a ++ (b ++ (c ++ (d ++ (e ++ t))))

  field_crc : slice 0 4 fields ≡ a
  field_crc = take_front a _ 4 la

  field_type : slice 4 1 fields ≡ b
  field_type = slice_skip a _ 4 0 1 la ∙ take_front b _ 1 lb

  field_seq : slice 5 8 fields ≡ c
  field_seq = slice_skip a _ 4 1 8 la ∙ slice_skip b _ 1 0 8 lb ∙ take_front c _ 8 lc

  field_key_len : slice 13 4 fields ≡ d
  field_key_len =
      slice_skip a _ 4 9 4 la
      ∙ slice_skip b _ 1 8 4 lb
      ∙ slice_skip c _ 8 0 4 lc
      ∙ take_front d _ 4 ld

  field_val_len : slice 17 4 fields ≡ e
  field_val_len =
      slice_skip a _ 4 13 4 la
      ∙ slice_skip b _ 1 12 4 lb
      ∙ slice_skip c _ 8 4 4 lc
      ∙ slice_skip d _ 4 0 4 ld
      ∙ take_front e _ 4 le

  field_rest : drop 21 fields ≡ t
  field_rest =
      drop_skip a _ 4 17 la
      ∙ drop_skip b _ 1 16 lb
      ∙ drop_skip c _ 8 8 lc
      ∙ drop_skip d _ 4 4 ld
      ∙ drop_front e t 4 le

module _ (r : Record) (rest : Bytes) where
  abbrev body : Bytes
  body = r.key ++ r.value

  abbrev covered : Bytes
  covered = payload r.type r.seq (length r.key) (length r.value) body

  abbrev whole : Bytes
  whole = encode_record r ++ rest

  abbrev laid_out : Bytes
  laid_out =
      fields (put_le 4 (checksum covered)) (put_le 1 r.type) (put_le 8 r.seq)
        (put_le 4 (length r.key)) (put_le 4 (length r.value)) (body ++ rest) (length-put_le 4 _)
        (length-put_le 1 _) (length-put_le 8 _) (length-put_le 4 _) (length-put_le 4 _)

  layout : whole ≡ laid_out
  unfolding encode_record payload
  layout = simp append_assoc

  -- The numbers that a reader finds in the header of a slice.
  record Header (bs : Bytes) : Type 0 where
    crc_is : get_le (slice 0 4 bs) ≡ checksum covered
    type_is : get_le (slice 4 1 bs) ≡ r.type
    seq_is : get_le (slice 5 8 bs) ≡ r.seq
    key_len_is : get_le (slice 13 4 bs) ≡ length r.key
    val_len_is : get_le (slice 17 4 bs) ≡ length r.value

  laid_out-Header : IsWritable r → Header laid_out
  laid_out-Header w = record {
    crc_is =
        ap get_le (
          field_crc _ _ _ _ _ _ (length-put_le 4 _) (length-put_le 1 _) (length-put_le 8 _)
            (length-put_le 4 _) (length-put_le 4 _))
        ∙ get_le-put_le 4 _ (omega (arith, checksum-lt covered));
    type_is =
        ap get_le (
          field_type _ _ _ _ _ _ (length-put_le 4 _) (length-put_le 1 _) (length-put_le 8 _)
            (length-put_le 4 _) (length-put_le 4 _))
        ∙ get_le-put_le 1 _ (omega (arith, w.type_fits));
    seq_is =
        ap get_le (
          field_seq _ _ _ _ _ _ (length-put_le 4 _) (length-put_le 1 _) (length-put_le 8 _)
            (length-put_le 4 _) (length-put_le 4 _))
        ∙ get_le-put_le 8 _ (omega (arith, w.seq_fits));
    key_len_is =
        ap get_le (
          field_key_len _ _ _ _ _ _ (length-put_le 4 _) (length-put_le 1 _) (length-put_le 8 _)
            (length-put_le 4 _) (length-put_le 4 _))
        ∙ get_le-put_le 4 _ (omega (arith, w.key_fits));
    val_len_is =
        ap get_le (
          field_val_len _ _ _ _ _ _ (length-put_le 4 _) (length-put_le 1 _) (length-put_le 8 _)
            (length-put_le 4 _) (length-put_le 4 _))
        ∙ get_le-put_le 4 _ (omega (arith, w.value_fits));
  }

  whole-Header : IsWritable r → Header whole
  whole-Header w = subst Header (sym layout) (laid_out-Header w)

  drop_header : drop 21 whole ≡ body ++ rest
  drop_header =
      ap (drop 21) layout
      ∙ field_rest _ _ _ _ _ _ (length-put_le 4 _) (length-put_le 1 _) (length-put_le 8 _)
          (length-put_le 4 _) (length-put_le 4 _)

  length-whole : length whole ≡ 21 + length r.key + length r.value + length rest
  length-whole =
      ap length layout
      ∙ ground (
        arith,
        length-append (put_le 4 (checksum covered)) (
            put_le 1 r.type
            ++ (put_le 8 r.seq
                ++ (put_le 4 (length r.key) ++ (put_le 4 (length r.value) ++ (body ++ rest))))),
        length-append (put_le 1 r.type) (
            put_le 8 r.seq
            ++ (put_le 4 (length r.key) ++ (put_le 4 (length r.value) ++ (body ++ rest)))),
        length-append (put_le 8 r.seq)
            (put_le 4 (length r.key) ++ (put_le 4 (length r.value) ++ (body ++ rest))),
        length-append (put_le 4 (length r.key)) (put_le 4 (length r.value) ++ (body ++ rest)),
        length-append (put_le 4 (length r.value)) (body ++ rest),
        length-append body rest,
        length-append r.key r.value,
        length-put_le 4 (checksum covered),
        length-put_le 1 r.type,
        length-put_le 8 r.seq,
        length-put_le 4 (length r.key),
        length-put_le 4 (length r.value),
      )

  take-body : take (length r.key + length r.value) (body ++ rest) ≡ body
  take-body = take_front body rest _ (length-append r.key r.value)

  drop-body : drop (length r.key + length r.value) (body ++ rest) ≡ rest
  drop-body = drop_front body rest _ (length-append r.key r.value)

  -- The guards on the header of `r`.
  abbrev checked : Bytes → Option (Record × Bytes)
  checked t = check_record (checksum covered) r.type r.seq (length r.key) (length r.value) t

  read_record-Header :
      (bs : Bytes) → Header bs → 21 ≤ length bs → read_record bs ≡ checked (drop 21 bs)
  unfolding read_record
  read_record-Header bs h long =
      rw (h.crc_is, h.type_is, h.seq_is, h.key_len_is, h.val_len_is) (ground arith)

  checked-body : IsReasonable r → checked (body ++ rest) ≡ some (r, rest)
  unfolding check_record
  checked-body l =
      rw (take-body, drop-body, take_front r.key r.value _ refl, drop_front r.key r.value _ refl)
        (ground (arith, length-append body rest, length-append r.key r.value))

  checked-short : (t : Bytes) → length t < length r.key + length r.value → checked t ≡ none
  unfolding check_record
  checked-short t h = ground arith

  -- A record in front of anything is read back.
  pub read_record-whole : IsWritable r → IsReasonable r → read_record whole ≡ some (r, rest)
  read_record-whole w l =
      read_record-Header whole (whole-Header w) (omega (arith, length-whole))
      ∙ ap checked drop_header
      ∙ checked-body l

  checked-large : (t : Bytes) → IsLarge r → checked t ≡ none
  unfolding check_record
  checked-large t big = ground arith

  -- A record that is larger than the bound is not read back.
  pub read_record-large : IsWritable r → IsLarge r → read_record whole ≡ none
  read_record-large w big =
      read_record-Header whole (whole-Header w) (omega (arith, length-whole))
      ∙ checked-large (drop 21 whole) big

  take-Header : (n : ℕ) → 21 ≤ n → Header whole → Header (take n whole)
  take-Header n h k = record {
    crc_is = ap get_le (slice-take 0 4 n whole (omega arith)) ∙ k.crc_is;
    type_is = ap get_le (slice-take 4 1 n whole (omega arith)) ∙ k.type_is;
    seq_is = ap get_le (slice-take 5 8 n whole (omega arith)) ∙ k.seq_is;
    key_len_is = ap get_le (slice-take 13 4 n whole (omega arith)) ∙ k.key_len_is;
    val_len_is = ap get_le (slice-take 17 4 n whole (omega arith)) ∙ k.val_len_is;
  }

pub read_record-short : (bs : Bytes) → length bs < 21 → read_record bs ≡ none
unfolding read_record
read_record-short bs h = ground arith

module _ (r : Record) (w : IsWritable r) (n : ℕ) (h : n < length (encode_record r)) where
  take_long : 21 ≤ n → read_record (take n (whole r [])) ≡ none
  take_long big =
      read_record-Header r [] (take n (whole r [])) (take-Header r [] n big (whole-Header r [] w))
        (omega (arith, fits))
      ∙ checked-short r [] (drop 21 (take n (whole r [])))
          (omega (arith, fits, length-whole r [], total, length-drop 21 (take n (whole r []))))
    where
      total : length (whole r []) ≡ length (encode_record r)
      total = rw append-nil

      fits : length (take n (whole r [])) ≡ n
      fits = length-take_le n (whole r []) (omega (arith, total))

  -- Nothing is read from a proper prefix of a record: a torn write is taken for the end.
  pub read_record-torn : read_record (take n (encode_record r)) ≡ none
  read_record-torn = elim (Bool-cases (ltb n 21)) [
    | inl small ↦
        read_record-short (take n (encode_record r))
          (omega (arith, length-take-le n (encode_record r), ltb→lt n 21 small))
    | inr big ↦ rw append-nil at (take_long (ground arith))
  ]

pub length-encode_record : (r : Record) → 21 ≤ length (encode_record r)
length-encode_record r = omega (arith, length-whole r [], length-append (encode_record r) [])

-- A record that is read takes a header's length at least.
pub read_record-shorter :
    (bs : Bytes) (r : Record) (rest : Bytes)
    → read_record bs ≡ some (r, rest)
    → length rest < length bs
unfolding read_record check_record
read_record-shorter bs r rest e =
    let rest_of = drop 21 bs in
    let kl = get_le (slice 13 4 bs) in
    let vl = get_le (slice 17 4 bs) in
    ground (arith, length-drop 21 bs, length-drop (kl + vl) rest_of)
