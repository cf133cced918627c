-- ===== src/Bloom/Shape.antt =====
-- Filters keep their shape, so that what `Encode` writes can be decoded.
use flume.Common.{
  ℕ, zero, suc, ◌+◌, ◌/◌, ◌%◌, ◌^◌, ◌≡◌, sym, ap, ◌∙◌, arith, List, [], ◌∷◌, length, length-set,
  subst, length-replicate, get_elem?, Result, ok, >>=-eq-ok, Option-cases, inl, inr, bit_or, set,
}
use flume.Bytes.{Bytes}
use flume.Bloom.{Filter, Sizing, new_for_entries, probe, set_bit, add_loop, add, add_all, hashes}
use flume.Bloom.Codec.{IsShaped}

set_bit-length :
    (bits : Bytes) (idx : ℕ) (bits' : Bytes)
    → set_bit bits idx ≡ ok bits'
    → length bits' ≡ length bits
unfolding set_bit
set_bit-length bits idx bits' e = elim (Option-cases (get_elem? bits (idx / 8))) [
  | inl n ↦ cc (rw (n, set_bit) at e)
  | inr (b, s) ↦
      let same : ok (set bits (idx / 8) (bit_or b (2 ^ (idx % 8)))) ≡ ok bits' =
        rw (s, set_bit) at e in
      ap length (sym (ok-injective same)) ∙ length-set bits (idx / 8) (bit_or b (2 ^ (idx % 8)))
]
  where
    ok-injective : {a b : Bytes} → ok a ≡ ok b → a ≡ b
    ok-injective p = cc

add_loop-length :
    (r i : ℕ) (h : ℕ × ℕ) (n : ℕ) (bits bits' : Bytes)
    → add_loop r i h n bits ≡ ok bits'
    → length bits' ≡ length bits
unfolding add_loop
add_loop-length zero i h n bits bits' e = cc
add_loop-length (suc r) i h n bits bits' e =
    let (idx, e1, e2) = >>=-eq-ok (probe n h i) _ e in
    let (mid, e3, e4) = >>=-eq-ok (set_bit bits idx) _ e2 in
    add_loop-length r (i + 1) h n mid bits' e4 ∙ set_bit-length bits idx mid e3

pub add-IsShaped :
    (f : Filter) (key : Bytes) (f' : Filter) → add f key ≡ ok f' → IsShaped f → IsShaped f'
unfolding add
add-IsShaped f key f' e s =
    let (bits, e1, e2) = >>=-eq-ok (add_loop f.num_hash 0 (hashes key) f.num_bits f.bits) _ e in
    let same = add_loop-length f.num_hash 0 (hashes key) f.num_bits f.bits bits e1 in
    go bits same e2
  where
    go :
        (bits : Bytes)
        → length bits ≡ length f.bits
        → Path (Result Filter) (ok (record f { bits = bits })) (ok f')
        → IsShaped f'
    go bits same p =
        let q : record f { bits = bits } ≡ f' = cc in
        subst IsShaped q
          (record { bits_fit = s.bits_fit; hash_fit = s.hash_fit; sized = same ∙ s.sized })

pub add_all-IsShaped :
    (f : Filter) (ks : List Bytes) (f' : Filter) → add_all f ks ≡ ok f' → IsShaped f → IsShaped f'
unfolding add_all
add_all-IsShaped f [] f' e s = let q : f ≡ f' = cc in subst IsShaped q s
add_all-IsShaped f (k ∷ ks) f' e s =
    let (f1, e1, e2) = >>=-eq-ok (add f k) _ e in
    add_all-IsShaped f1 ks f' e2 (add-IsShaped f k f1 e1 s)

pub new_for_entries-IsShaped :
    (z : Sizing) (n : ℕ) (fp : z.Float) → IsShaped (new_for_entries z n fp)
unfolding new_for_entries
new_for_entries-IsShaped z n fp = record {
  bits_fit = ground arith;
  hash_fit = ground arith;
  sized = length-replicate _ _;
}
