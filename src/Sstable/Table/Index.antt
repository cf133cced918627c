-- ===== src/Sstable/Table/Index.antt =====
-- The index block, parsed back, and the numbers of the footer.
use flume.Common.{
  ℕ, zero, suc, ◌+◌, ◌^◌, ◌≤◌, ◌<◌, ◌≡◌, refl, sym, ap, ◌∙◌, arith, true, false, List, [], ◌∷◌,
  ◌++◌, append_assoc, append-nil, leb, ◌==◌, length, length-append, length-drop, take, drop, slice,
  slice_skip, drop_skip, take_front, drop_front, All, ok,
}
use flume.Bytes.{Bytes, put_le, get_le}
use flume.Bytes.Codec.{length-put_le, get_le-put_le}
use flume.Sstable.Format.{IndexEntry, index_bytes, footer_bytes, magic_number}
use flume.Sstable.Format.Layout.{index_block}
use flume.Sstable.Table.{parse_index}

-- An entry that the format can hold.
pub record IsIndexable (e : IndexEntry) : Type 0 where
  pub key_fits : length e.key < 2 ^ 32
  pub offset_fits : e.offset < 2 ^ 64

-- What one round needs to find in the rest of the block.
record Front (buf : Bytes) (e : IndexEntry) (rest : Bytes) : Type 0 where
  more : (length buf == 0) ≡ false
  has_len : leb 4 (length buf) ≡ true
  len_is : get_le (take 4 buf) ≡ length e.key
  has_entry : leb (length e.key + 8) (length (drop 4 buf)) ≡ true
  key_is : take (length e.key) (drop 4 buf) ≡ e.key
  offset_is : get_le (slice (length e.key) 8 (drop 4 buf)) ≡ e.offset
  rest_is : drop (length e.key + 8) (drop 4 buf) ≡ rest

parse_index-Front :
    (n : ℕ) (buf : Bytes) (e : IndexEntry) (rest : Bytes) (es : List IndexEntry)
    → Front buf e rest
    → parse_index n rest ≡ ok es
    → parse_index (suc n) buf ≡ ok (e ∷ es)
unfolding parse_index
parse_index-Front n buf e rest es f p =
    rw (f.more, parse_index)
      (rw (f.has_len, f.len_is, f.has_entry, f.rest_is, p, f.key_is, f.offset_is) refl)

parse_index-nil : (n : ℕ) → parse_index n [] ≡ ok []
unfolding parse_index
parse_index-nil zero = refl
parse_index-nil (suc n) = refl

module _ (e : IndexEntry) (rest : Bytes) where
  abbrev entry_block : Bytes
  entry_block = index_bytes e ++ rest

  length-index_bytes : length (index_bytes e) ≡ 12 + length e.key
  unfolding index_bytes
  length-index_bytes = omega (
    arith,
    length-append (put_le 4 (length e.key)) (e.key ++ put_le 8 e.offset),
    length-append e.key (put_le 8 e.offset),
    length-put_le 4 (length e.key),
    length-put_le 8 e.offset,
  )

  entry_layout : entry_block ≡ put_le 4 (length e.key) ++ (e.key ++ (put_le 8 e.offset ++ rest))
  unfolding index_bytes
  entry_layout = simp append_assoc

  entry_len : IsIndexable e → get_le (take 4 entry_block) ≡ length e.key
  entry_len i =
      ap (λ b. get_le (take 4 b)) entry_layout
      ∙ ap get_le (take_front (put_le 4 (length e.key)) _ 4 (length-put_le 4 _))
      ∙ get_le-put_le 4 _ (omega (arith, i.key_fits))

  entry_rest : drop 4 entry_block ≡ e.key ++ (put_le 8 e.offset ++ rest)
  entry_rest =
      ap (drop 4) entry_layout ∙ drop_front (put_le 4 (length e.key)) _ 4 (length-put_le 4 _)

  entry_key : take (length e.key) (drop 4 entry_block) ≡ e.key
  entry_key = ap (take (length e.key)) entry_rest ∙ take_front e.key _ _ refl

  entry_offset : IsIndexable e → get_le (slice (length e.key) 8 (drop 4 entry_block)) ≡ e.offset
  entry_offset i =
      ap (λ b. get_le (slice (length e.key) 8 b)) entry_rest
      ∙ ap (λ b. get_le (take 8 b)) (drop_front e.key (put_le 8 e.offset ++ rest) _ refl)
      ∙ ap get_le (take_front (put_le 8 e.offset) rest 8 (length-put_le 8 _))
      ∙ get_le-put_le 8 _ (omega (arith, i.offset_fits))

  entry_after : drop (length e.key + 8) (drop 4 entry_block) ≡ rest
  entry_after =
      ap (drop (length e.key + 8)) entry_rest
      ∙ drop_skip e.key (put_le 8 e.offset ++ rest) (length e.key) 8 refl
      ∙ drop_front (put_le 8 e.offset) rest 8 (length-put_le 8 _)

  length-entry_block : length entry_block ≡ 12 + length e.key + length rest
  length-entry_block = omega (arith, length-index_bytes, length-append (index_bytes e) rest)

  entry_block-Front : IsIndexable e → Front entry_block e rest
  entry_block-Front i = record {
    more = ground (arith, length-entry_block);
    has_len = ground (arith, length-entry_block);
    len_is = entry_len i;
    has_entry = ground (arith, length-entry_block, length-drop 4 entry_block);
    key_is = entry_key;
    offset_is = entry_offset i;
    rest_is = entry_after;
  }

-- The loop reads the whole index block back, in as many rounds as it has bytes.
pub parse_index-index_block :
    (n : ℕ) (es : List IndexEntry)
    → All IsIndexable es
    → length (index_block es) ≤ n
    → parse_index n (index_block es) ≡ ok es
unfolding index_block
parse_index-index_block n [] h l = parse_index-nil n
parse_index-index_block zero (e ∷ es) h l =
    absurd (omega (arith, length-entry_block e (index_block es)))
parse_index-index_block (suc n) (e ∷ es) h l =
    parse_index-Front n (entry_block e (index_block es)) e (index_block es) es
      (entry_block-Front e (index_block es) h.0)
      (parse_index-index_block n es h.1 (omega (arith, length-entry_block e (index_block es))))

-- The fields of a footer, by their places.
module _ (a b c d n : ℕ) where
  abbrev pub footer : Bytes
  footer = footer_bytes a b c d n

  pub length-footer : length footer ≡ 44
  unfolding footer_bytes
  length-footer = ground (
    arith,
    length-append (put_le 8 a)
        (put_le 8 b ++ (put_le 8 c ++ (put_le 8 d ++ (put_le 8 n ++ put_le 4 magic_number)))),
    length-append (put_le 8 b)
        (put_le 8 c ++ (put_le 8 d ++ (put_le 8 n ++ put_le 4 magic_number))),
    length-append (put_le 8 c) (put_le 8 d ++ (put_le 8 n ++ put_le 4 magic_number)),
    length-append (put_le 8 d) (put_le 8 n ++ put_le 4 magic_number),
    length-append (put_le 8 n) (put_le 4 magic_number),
    length-put_le 8 a,
    length-put_le 8 b,
    length-put_le 8 c,
    length-put_le 8 d,
    length-put_le 8 n,
    length-put_le 4 magic_number,
  )

  pub footer_index_offset : a < 2 ^ 64 → get_le (slice 0 8 footer) ≡ a
  unfolding footer_bytes
  footer_index_offset h =
      ap get_le (take_front (put_le 8 a) _ 8 (length-put_le 8 a))
      ∙ get_le-put_le 8 a (omega (arith, h))

  pub footer_index_len : b < 2 ^ 64 → get_le (slice 8 8 footer) ≡ b
  unfolding footer_bytes
  footer_index_len h =
      ap get_le (
        slice_skip (put_le 8 a) _ 8 0 8 (length-put_le 8 a)
        ∙ take_front (put_le 8 b) _ 8 (length-put_le 8 b))
      ∙ get_le-put_le 8 b (omega (arith, h))

  pub footer_bloom_offset : c < 2 ^ 64 → get_le (slice 16 8 footer) ≡ c
  unfolding footer_bytes
  footer_bloom_offset h =
      ap get_le (
        slice_skip (put_le 8 a) _ 8 8 8 (length-put_le 8 a)
        ∙ slice_skip (put_le 8 b) _ 8 0 8 (length-put_le 8 b)
        ∙ take_front (put_le 8 c) _ 8 (length-put_le 8 c))
      ∙ get_le-put_le 8 c (omega (arith, h))

  pub footer_bloom_len : d < 2 ^ 64 → get_le (slice 24 8 footer) ≡ d
  unfolding footer_bytes
  footer_bloom_len h =
      ap get_le (
        slice_skip (put_le 8 a) _ 8 16 8 (length-put_le 8 a)
        ∙ slice_skip (put_le 8 b) _ 8 8 8 (length-put_le 8 b)
        ∙ slice_skip (put_le 8 c) _ 8 0 8 (length-put_le 8 c)
        ∙ take_front (put_le 8 d) _ 8 (length-put_le 8 d))
      ∙ get_le-put_le 8 d (omega (arith, h))

  pub footer_num_entries : n < 2 ^ 64 → get_le (slice 32 8 footer) ≡ n
  unfolding footer_bytes
  footer_num_entries h =
      ap get_le (
        slice_skip (put_le 8 a) _ 8 24 8 (length-put_le 8 a)
        ∙ slice_skip (put_le 8 b) _ 8 16 8 (length-put_le 8 b)
        ∙ slice_skip (put_le 8 c) _ 8 8 8 (length-put_le 8 c)
        ∙ slice_skip (put_le 8 d) _ 8 0 8 (length-put_le 8 d)
        ∙ take_front (put_le 8 n) _ 8 (length-put_le 8 n))
      ∙ get_le-put_le 8 n (omega (arith, h))

  pub footer_magic : get_le (slice 40 4 footer) ≡ magic_number
  unfolding footer_bytes
  footer_magic =
      ap get_le (
        slice_skip (put_le 8 a) _ 8 32 4 (length-put_le 8 a)
        ∙ slice_skip (put_le 8 b) _ 8 24 4 (length-put_le 8 b)
        ∙ slice_skip (put_le 8 c) _ 8 16 4 (length-put_le 8 c)
        ∙ slice_skip (put_le 8 d) _ 8 8 4 (length-put_le 8 d)
        ∙ slice_skip (put_le 8 n) _ 8 0 4 (length-put_le 8 n)
        ∙ ap (take 4) (sym (append-nil (put_le 4 magic_number)))
        ∙ take_front (put_le 4 magic_number) [] 4 (length-put_le 4 magic_number))
      ∙ get_le-put_le 4 magic_number (omega arith)
