-- ===== src/Sstable/Table/Blocks.antt =====
-- Reading a block back from a file, and decoding a record and an index entry where they stand.
use flume.Common.{
  ℕ, ◌+◌, ◌^◌, ◌≤◌, ◌<◌, ◌≡◌, ◌⊎◌, inl, inr, refl, sym, ap, ◌∙◌, arith, Bool, true, false, ◌&&◌, [],
  ◌∷◌, ◌++◌, some, append_assoc, append-nil, bit_or, ◌==◌, if◌then◌else◌, length, length-append,
  take, slice, slice_skip, take_front, drop_front, ok, Bool-cases,
}
use flume.Bytes.{Bytes, get_le}
use flume.Bytes.Codec.{length-put_le, get_le-put_le}
use flume.Sstable.{Record, type_value, type_tombstone}
use flume.Sstable.Format.{
  Flate, IsLossless, compress_value, decompress_value, stored_value, data_header,
}
use flume.Sstable.Table.{read_at, read_block, read_record_at, is_compressed, value_type}

-- A block that stands between two others.
pub read_at-middle :
    (pre mid post : Bytes) (off n : ℕ)
    → length pre ≡ off
    → length mid ≡ n
    → read_at (pre ++ (mid ++ post)) off n ≡ ok mid
unfolding read_at
read_at-middle pre mid post off n a b =
    let cut : slice off n (pre ++ (mid ++ post)) ≡ mid =
      ap (take n) (drop_front pre (mid ++ post) off a) ∙ take_front mid post n b in
    ground (arith, cut, length-append pre (mid ++ post), length-append mid post)

pub read_block-middle :
    (pre mid post : Bytes) (off n : ℕ)
    → length pre ≡ off
    → length mid ≡ n
    → n ≤ 2 ^ 48
    → read_block (pre ++ (mid ++ post)) off n ≡ ok mid
unfolding read_block
read_block-middle pre [] post off n a b h = ground arith
read_block-middle pre (x ∷ mid) post off n a b h =
    ground (arith, read_at-middle pre (x ∷ mid) post off n a b)

-- A record that the format can hold.
pub record IsStorable (r : Record) : Type 0 where
  pub type_known : (r.type ≡ type_value) ⊎ (r.type ≡ type_tombstone)
  pub seq_fits : r.seq < 2 ^ 64
  pub key_fits : length r.key < 2 ^ 32
  pub value_fits : length r.value < 2 ^ 32

module _ (z : Flate) (lossless : IsLossless z) where
  compress_value-shrinks :
      (v b : Bytes)
      → compress_value z v ≡ (b, true)
      → (z.deflate v ≡ some b) × (length b < length v)
  unfolding compress_value
  compress_value-shrinks v b e = ground arith

  -- What the type byte says of the stored bytes.
  pub record Stored (r : Record) (s : Bytes × ℕ) : Type 0 where
    pub byte : s.1 < 256
    pub type_is : value_type s.1 ≡ r.type
    pub no_longer : length s.0 ≤ length r.value
    pub value_is : (if is_compressed s.1 then decompress_value z s.0 else ok s.0) ≡ ok r.value

  plain-Stored :
      (r : Record) → (r.type ≡ type_value) ⊎ (r.type ≡ type_tombstone) → Stored r (r.value, r.type)
  plain-Stored r (inl e) = record {
    byte = omega (arith, e);
    type_is = rw e refl;
    no_longer = omega arith;
    value_is = rw e refl;
  }
  plain-Stored r (inr e) = record {
    byte = omega (arith, e);
    type_is = rw e refl;
    no_longer = omega arith;
    value_is = rw e refl;
  }

  packed-Stored :
      (r : Record) (b : Bytes)
      → r.type ≡ type_value
      → compress_value z r.value ≡ (b, true)
      → Stored r (b, bit_or r.type 128)
  unfolding decompress_value
  packed-Stored r b e c =
      let (d, short) = compress_value-shrinks r.value b c in
      record {
        byte = rw e (omega arith);
        type_is = rw e refl;
        no_longer = omega (arith, short);
        value_is = rw e (rw (lossless r.value b d, decompress_value) refl);
      }

  stored_value-Stored :
      (compress : Bool) (r : Record) → IsStorable r → Stored r (stored_value z compress r)
  unfolding stored_value
  stored_value-Stored compress r s =
      go (compress_value z r.value) refl (Bool-cases (compress && (r.type == type_value)))
    where
      go :
          (c : Bytes × Bool)
          → compress_value z r.value ≡ c
          → ((compress && (r.type == type_value)) ≡ true)
            ⊎ ((compress && (r.type == type_value)) ≡ false)
          → Stored r (
              if compress && (r.type == type_value) && c.1
              then (c.0, bit_or r.type 128)
              else (r.value, r.type))
      go (b, true) e (inl y) = rw y (packed-Stored r b (ground arith) e)
      go (b, false) e (inl y) = rw y (plain-Stored r s.type_known)
      go (b, f) e (inr n) = rw n (plain-Stored r s.type_known)

-- The four fields of a header, by their places.
module _ (a b c d : Bytes) (la : length a ≡ 4) (lb : length b ≡ 8) (lc : length c ≡ 1)
    (ld : length d ≡ 4) where
  abbrev fields : Bytes
  fields = a ++ (b ++ (c ++ d))

  field_key_len : slice 0 4 fields ≡ a
  field_key_len = take_front a _ 4 la

  field_seq : slice 4 8 fields ≡ b
  field_seq = slice_skip a _ 4 0 8 la ∙ take_front b _ 8 lb

  field_type : slice 12 1 fields ≡ c
  field_type = slice_skip a _ 4 8 1 la ∙ slice_skip b _ 8 0 1 lb ∙ take_front c _ 1 lc

  field_val_len : slice 13 4 fields ≡ d
  field_val_len =
      slice_skip a _ 4 9 4 la
      ∙ slice_skip b _ 8 1 4 lb
      ∙ slice_skip c _ 1 0 4 lc
      ∙ ap (take 4) (sym (append-nil d))
      ∙ take_front d [] 4 ld

  length-fields : length fields ≡ 17
  length-fields =
      ground (arith, length-append a (b ++ (c ++ d)), length-append b (c ++ d), length-append c d)

-- What a reader finds in the header of a record.
pub record Header (r : Record) (s : Bytes × ℕ) : Type 0 where
  pub long : length (data_header r s) ≡ 17
  pub key_len_is : get_le (slice 0 4 (data_header r s)) ≡ length r.key
  pub seq_is : get_le (slice 4 8 (data_header r s)) ≡ r.seq
  pub raw_is : get_le (slice 12 1 (data_header r s)) ≡ s.1
  pub val_len_is : get_le (slice 13 4 (data_header r s)) ≡ length s.0

module _ (r : Record) (s : Bytes × ℕ) (k : length r.key < 2 ^ 32) (q : r.seq < 2 ^ 64)
    (t : s.1 < 256) (v : length s.0 < 2 ^ 32) where
  filled-Header : Header r s
  unfolding data_header
  filled-Header =
      let a = length-put_le 4 (length r.key) in
      let b = length-put_le 8 r.seq in
      let c = length-put_le 1 s.1 in
      let d = length-put_le 4 (length s.0) in
      record {
        long = length-fields _ _ _ _ a b c d;
        key_len_is =
            ap get_le (field_key_len _ _ _ _ a b c d) ∙ get_le-put_le 4 _ (omega (arith, k));
        seq_is = ap get_le (field_seq _ _ _ _ a b c d) ∙ get_le-put_le 8 _ (omega (arith, q));
        raw_is = ap get_le (field_type _ _ _ _ a b c d) ∙ get_le-put_le 1 _ (omega (arith, t));
        val_len_is =
            ap get_le (field_val_len _ _ _ _ a b c d) ∙ get_le-put_le 4 _ (omega (arith, v));
      }

module _ (z : Flate) (lossless : IsLossless z) (compress : Bool) (r : Record)
    (w : IsStorable r) where
  abbrev pub parts : Bytes × ℕ
  parts = stored_value z compress r

  -- The bytes of a record in the data block.
  abbrev pub data_bytes : Bytes
  data_bytes = data_header r parts ++ (r.key ++ parts.0)

  pub stored : Stored z lossless r parts
  stored = stored_value-Stored z lossless compress r w

  pub header : Header r parts
  header =
      filled-Header r parts w.key_fits w.seq_fits stored.byte
        (omega (arith, stored.no_longer, w.value_fits))

  pub length-data_bytes : length data_bytes ≡ 17 + (length r.key + length parts.0)
  length-data_bytes = omega (
    arith,
    header.long,
    length-append (data_header r parts) (r.key ++ parts.0),
    length-append r.key parts.0,
  )

  module _ (pre post : Bytes) (off : ℕ) (at : length pre ≡ off) where
    abbrev file : Bytes
    file = pre ++ (data_bytes ++ post)

    header_at : read_at file off 17 ≡ ok (data_header r parts)
    header_at =
        ap (λ t. read_at (pre ++ t) off 17) (append_assoc (data_header r parts) _ post)
        ∙ read_at-middle pre (data_header r parts) ((r.key ++ parts.0) ++ post) off 17 at
            header.long

    body_at : read_block file (off + 17) (length r.key + length parts.0) ≡ ok (r.key ++ parts.0)
    body_at =
        ap (λ t. read_block t (off + 17) (length r.key + length parts.0)) (simp append_assoc)
        ∙ read_block-middle (pre ++ data_header r parts) (r.key ++ parts.0) post (off + 17)
            (length r.key + length parts.0)
            (omega (arith, at, header.long, length-append pre (data_header r parts)))
            (length-append r.key parts.0)
            (omega (arith, w.key_fits, w.value_fits, stored.no_longer))

    -- A record is read back from the offset where its bytes stand.
    pub read_record_at-data_bytes : read_record_at z file off ≡ ok r
    unfolding read_record_at
    read_record_at-data_bytes =
        rw
          (
            header_at,
            header.key_len_is,
            header.val_len_is,
            body_at,
            drop_front r.key parts.0 _ refl,
            header.raw_is,
          )
          (rw (stored.value_is, stored.type_is, header.seq_is, take_front r.key parts.0 _ refl)
            refl)
