-- ===== src/Sstable/Format/Layout.antt =====
-- The blocks that a successful `Write` has put one behind the other.
use flume.Common.{
  ℕ, ◌+◌, ◌^◌, ◌%◌, ◌-◌, ◌<◌, ◌≡◌, refl, sym, ap, ◌∙◌, subst, arith, Bool, true, false, ◌&&◌, List,
  [], ◌∷◌, ◌++◌, map, append-nil, append_assoc, Option, none, some, All, length, length-append,
  Result, ok, ◌>>◌, guard, >>=-eq-ok, unsorted,
}
use flume.Bytes.{Bytes}
use flume.Bloom.{Filter, Sizing, new_for_entries, add, add_all, encode}
use flume.Sstable.{Record, sorted_from, is_sorted}
use flume.Sstable.Format.{
  Flate, IndexEntry, Output, stored_value, data_header, index_bytes, footer_bytes, follows, Nils,
  previous, write_records, write_index, write_trailer, write, offset_of,
}

-- `follows`, along a list.
unfoldable pub in_order : Option Record → List Record → Bool
in_order none rs = is_sorted rs
in_order (some p) rs = sorted_from p rs

pub in_order-step :
    (prev : Option Record) (r : Record) (rs : List Record)
    → in_order prev (r ∷ rs) ≡ (follows prev r && sorted_from r rs)
unfolding in_order follows is_sorted sorted_from
in_order-step none r rs = refl
in_order-step (some p) r rs = refl

pub in_order-none : (rs : List Record) → is_sorted rs ≡ in_order none rs
unfolding in_order
in_order-none rs = refl

pub in_order-some : (r : Record) (rs : List Record) → sorted_from r rs ≡ in_order (some r) rs
unfolding in_order
in_order-some r rs = refl

-- A key that is not empty is not nil either.
abbrev pub HasKey : Record → Type 0
HasKey r = 0 < length r.key

pub previous_keyed : (nils : Nils) (n : ℕ) (r : Record) → HasKey r → previous nils n r ≡ some r
previous_keyed nils n r h = ground arith

module _ (z : Flate) (compress : Bool) where
  -- The bytes of a record.
  abbrev pub record_bytes : Record → Bytes
  record_bytes r =
      data_header r (stored_value z compress r) ++ (r.key ++ (stored_value z compress r).0)

  unfoldable pub data_block : List Record → Bytes
  data_block [] = []
  data_block (r ∷ rs) = record_bytes r ++ data_block rs

  -- The index entries of records that stand from `off` on.
  unfoldable pub entries_from : ℕ → List Record → List IndexEntry
  entries_from off [] = []
  entries_from off (r ∷ rs) =
      record { key = r.key; offset = off % 2 ^ 64 }
      ∷ entries_from (off + length (record_bytes r)) rs

  -- What the loop over the records has made of `out`.
  record Appended (prev : Option Record) (rs : List Record) (out out' : Output) : Type 0 where
    ordered : in_order prev rs ≡ true
    bytes_are : out'.bytes ≡ out.bytes ++ data_block rs
    index_is : out'.index ≡ out.index ++ entries_from (length out.bytes) rs
    filter_is : add_all out.filter (map (λ r. r.key) rs) ≡ ok out'.filter

  guard-true :
      (test : Bool) {A : Type 0} {rest : Result A} {v : A}
      → (n : ℕ) → (guard test (unsorted n) >> rest) ≡ ok v
      → (test ≡ true) × (rest ≡ ok v)
  guard-true true n e = (refl, e)
  guard-true false n e = cc

  no_records-Appended : (prev : Option Record) (out : Output) → Appended prev [] out out
  unfolding in_order is_sorted sorted_from data_block entries_from add_all
  no_records-Appended none out = record {
    ordered = refl;
    bytes_are = sym (append-nil out.bytes);
    index_is = sym (append-nil out.index);
    filter_is = refl;
  }
  no_records-Appended (some p) out = record {
    ordered = refl;
    bytes_are = sym (append-nil out.bytes);
    index_is = sym (append-nil out.index);
    filter_is = refl;
  }

  -- One round of the loop, and the rest of it.
  one_more-Appended :
      (prev : Option Record) (r : Record) (rs : List Record) (out out' : Output) (f : Filter)
      → follows prev r ≡ true
      → add out.filter r.key ≡ ok f
      → Appended
          (some r)
          rs
          (record {
            bytes = out.bytes ++ record_bytes r;
            index = out.index ++ record { key = r.key; offset = offset_of out.bytes } ∷ [];
            filter = f;
          })
          out'
      → Appended prev (r ∷ rs) out out'
  unfolding data_block entries_from add_all
  one_more-Appended prev r rs out out' f g e a = record {
    ordered = in_order-step prev r rs ∙ rw g (in_order-some r rs ∙ a.ordered);
    bytes_are = a.bytes_are ∙ append_assoc out.bytes (record_bytes r) (data_block rs);
    index_is =
        a.index_is
        ∙ append_assoc out.index _ _
        ∙ ap
            (λ n.
              out.index ++ record { key = r.key; offset = offset_of out.bytes } ∷ entries_from n rs)
            (length-append out.bytes (record_bytes r));
    filter_is = rw e a.filter_is;
  }

  write_records_keyed :
      (nils : Nils) (n : ℕ) (r : Record) (rs : List Record) (out out' : Output)
      → HasKey r
      → write_records z compress nils (previous nils n r) (n + 1) rs out ≡ ok out'
      → write_records z compress nils (some r) (n + 1) rs out ≡ ok out'
  write_records_keyed nils n r rs out out' k =
      subst (λ p. write_records z compress nils p (n + 1) rs out ≡ ok out')
        (previous_keyed nils n r k)

  write_records-Appended :
      (nils : Nils) (prev : Option Record) (n : ℕ) (rs : List Record) (out out' : Output)
      → All HasKey rs
      → write_records z compress nils prev n rs out ≡ ok out'
      → Appended prev rs out out'
  unfolding write_records
  write_records-Appended nils prev n [] out out' k e =
      let same : out ≡ out' = cc in subst (Appended prev [] out) same (no_records-Appended prev out)
  write_records-Appended nils prev n (r ∷ rs) out out' k e =
      let (g, e1) = guard-true (follows prev r) n e in
      let (f, e2, e3) = >>=-eq-ok (add out.filter r.key) _ e1 in
      one_more-Appended prev r rs out out' f g e2 (
        write_records-Appended nils (some r) (n + 1) rs _ out' k.1
          (write_records_keyed nils n r rs _ out' k.0 e3))

unfoldable pub index_block : List IndexEntry → Bytes
index_block [] = []
index_block (e ∷ es) = index_bytes e ++ index_block es

write_index-block :
    (es : List IndexEntry) (out : Bytes) → write_index es out ≡ out ++ index_block es
unfolding write_index index_block
write_index-block [] out = sym (append-nil out)
write_index-block (e ∷ es) out =
    write_index-block es (out ++ index_bytes e) ∙ append_assoc out (index_bytes e) (index_block es)

-- The four blocks of a file, and what the footer says of them.
abbrev pub laid_out : Bytes → List IndexEntry → Filter → ℕ → Bytes
laid_out records index filter n =
    records
    ++ (index_block index
        ++ (encode filter
            ++ footer_bytes (length records) (length (index_block index))
                (length records + length (index_block index)) (length (encode filter)) n))

pub record Blocks (z : Flate) (compress : Bool) (sizing : Sizing) (rs : List Record) (file : Bytes)
    : Type 0 where
  pub filter : Filter
  pub ordered : is_sorted rs ≡ true
  pub filter_is :
      add_all (new_for_entries sizing (length rs) sizing.one_percent) (map (λ r. r.key) rs)
      ≡ ok filter
  pub file_is :
      file ≡ laid_out (data_block z compress rs) (entries_from z compress 0 rs) filter (length rs)

module _ (n : ℕ) (out : Output) where
  abbrev index_part : Bytes
  index_part = index_block out.index

  abbrev filter_part : Bytes
  filter_part = encode out.filter

  -- The trailer with the offsets as the code computes them.
  abbrev counted : Bytes
  counted =
      let with_index = out.bytes ++ index_part in
      let with_filter = with_index ++ filter_part in
      let index_offset = offset_of out.bytes in
      let bloom_offset = offset_of with_index in
      footer_bytes index_offset ((bloom_offset + 2 ^ 64 - index_offset) % 2 ^ 64) bloom_offset
        ((offset_of with_filter + 2 ^ 64 - bloom_offset) % 2 ^ 64) n

  -- The trailer with the offsets as lengths.
  abbrev measured : Bytes
  measured =
      footer_bytes (length out.bytes) (length index_part) (length out.bytes + length index_part)
        (length filter_part) n

  trailer-counted : write_trailer n out ≡ ((out.bytes ++ index_part) ++ filter_part) ++ counted
  unfolding write_trailer
  trailer-counted =
      ap
        (λ w.
          (w ++ filter_part)
          ++ footer_bytes (offset_of out.bytes)
              ((offset_of w + 2 ^ 64 - offset_of out.bytes) % 2 ^ 64) (offset_of w)
              ((offset_of (w ++ filter_part) + 2 ^ 64 - offset_of w) % 2 ^ 64) n)
        (write_index-block out.index out.bytes)

  counted-measured :
      length out.bytes + length index_part + length filter_part < 2 ^ 64 → counted ≡ measured
  counted-measured h =
      let with_index = out.bytes ++ index_part in
      let l = length-append out.bytes index_part in
      let m = length-append with_index filter_part in
      let a : offset_of out.bytes ≡ length out.bytes = omega arith in
      let b : offset_of with_index ≡ length out.bytes + length index_part = omega arith in
      let c : offset_of (with_index ++ filter_part)
          ≡ length out.bytes + length index_part + length filter_part =
        omega arith in
      ap
        (λ x.
          footer_bytes x ((offset_of with_index + 2 ^ 64 - x) % 2 ^ 64) (offset_of with_index)
            ((offset_of (with_index ++ filter_part) + 2 ^ 64 - offset_of with_index) % 2 ^ 64) n)
        a
      ∙ ap
          (λ x.
            footer_bytes (length out.bytes) ((x + 2 ^ 64 - length out.bytes) % 2 ^ 64) x
              ((offset_of (with_index ++ filter_part) + 2 ^ 64 - x) % 2 ^ 64) n)
          b
      ∙ ap
          (λ x.
            footer_bytes (length out.bytes) x (length out.bytes + length index_part)
              ((offset_of (with_index ++ filter_part)
                  + 2 ^ 64
                  - (length out.bytes + length index_part))
                % 2 ^ 64)
              n)
          (omega arith)
      ∙ ap
          (λ x.
            footer_bytes (length out.bytes) (length index_part)
              (length out.bytes + length index_part) x n)
          (omega (arith, c))

  trailer-measured :
      length (write_trailer n out) < 2 ^ 64
      → write_trailer n out ≡ out.bytes ++ (index_part ++ (filter_part ++ measured))
  trailer-measured h =
      let l = ap length trailer-counted in
      let l1 = length-append ((out.bytes ++ index_part) ++ filter_part) counted in
      let l2 = length-append (out.bytes ++ index_part) filter_part in
      let l3 = length-append out.bytes index_part in
      trailer-counted
      ∙ ap (λ t. ((out.bytes ++ index_part) ++ filter_part) ++ t) (counted-measured (omega arith))
      ∙ append_assoc (out.bytes ++ index_part) filter_part measured
      ∙ append_assoc out.bytes index_part (filter_part ++ measured)

module _ (z : Flate) (sizing : Sizing) (compress : Bool) where
  -- A successful `Write` was given sorted records, and has put down the four blocks.
  pub write-Blocks :
      (nils : Nils) (rs : List Record) (file : Bytes)
      → All HasKey rs
      → write z sizing nils rs compress ≡ ok file
      → length file < 2 ^ 64
      → Blocks z compress sizing rs file
  unfolding write
  write-Blocks nils [] file k e h = cc
  write-Blocks nils (r ∷ rs) file k e h =
      let (out, e1, e2) = >>=-eq-ok (write_records z compress nils none 0 (r ∷ rs) _) _ e in
      let a = write_records-Appended z compress nils none 0 (r ∷ rs) _ out k e1 in
      let same : write_trailer (length (r ∷ rs)) out ≡ file = cc in
      let t =
        trailer-measured (length (r ∷ rs)) out (subst (λ f. length f < 2 ^ 64) (sym same) h) in
      record {
        filter = out.filter;
        ordered = in_order-none (r ∷ rs) ∙ a.ordered;
        filter_is = a.filter_is;
        file_is =
            sym same
            ∙ t
            ∙ ap (λ d. laid_out d out.index out.filter (length (r ∷ rs))) a.bytes_are
            ∙ ap (λ i. laid_out (data_block z compress (r ∷ rs)) i out.filter (length (r ∷ rs)))
                a.index_is;
      }
