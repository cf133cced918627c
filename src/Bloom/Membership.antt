-- ===== src/Bloom/Membership.antt =====
-- `MayContain` after `Add`.
use flume.Common.{
  ◌>>=◌, Returns→ok, ℕ, zero, suc, ◌+◌, ◌/◌, ◌%◌, ◌^◌, ◌<◌, ◌≡◌, refl, arith, Bool, true, false,
  List, [], ◌∷◌, All-get_elem?, get_elem?, get_elem?-none→le, get_elem?-set_self, get_elem?-set_ne,
  bit_or, Result, ok, ◌>>=◌, ◌==◌, ==_iff, Bool-cases, Option-cases, inl, inr, Returns,
  Returns-bind, Returns-both, >>=-eq-ok, Returns-imp, Returns-at, sym, ◌∙◌, ap, subst,
}
use mathlib.Core.List.{Mem, mem-cons, not-mem-nil}
use mathlib.Core.Logic.Or
use flume.Bytes.{Bytes, IsByte}
use flume.Bloom.{
  Filter, probe, set_bit, test_bit, add_loop, add, may_contain_loop, may_contain, hashes, add_all,
}
use flume.Bloom.Bits.{has_bit, has_bit-bit_or, has_bit-bit_or_self}
use flume.Bloom.Valid.{
  IsRoom, IsValid, Extends, probe-Returns, set_bit-Returns, add_loop-Returns,
  may_contain_loop-Returns,
}

-- Every bit that is set in the first array is set in the second.
abbrev Grows : Bytes → Bytes → Type 0
Grows bits bits' = (j : ℕ) → test_bit bits j ≡ ok true → test_bit bits' j ≡ ok true

set_bit-sets :
    (n : ℕ) (bits : Bytes) (idx : ℕ)
    → IsRoom n bits
    → idx < n
    → Returns (set_bit bits idx) (λ bits'. test_bit bits' idx ≡ ok true)
unfolding set_bit test_bit
set_bit-sets n bits idx v h = elim (Option-cases (get_elem? bits (idx / 8))) [
  | inl e ↦ absurd (omega (arith, v.room, get_elem?-none→le bits (idx / 8) e))
  | inr (b, e) ↦
      rw (e, set_bit)
        (rw
          (
            get_elem?-set_self bits (idx / 8) (bit_or b (2 ^ (idx % 8))) (omega (arith, v.room)),
            test_bit,
          )
          (ap ok (
            has_bit-bit_or_self b (idx % 8) (All-get_elem? IsByte bits (idx / 8) b v.are_bytes e)
              (omega arith))))
]

ok-injective : {a b : Bool} → ok a ≡ ok b → a ≡ b
ok-injective p = cc

-- Whether the two indices share a byte or not.
set_bit-Grows :
    (n : ℕ) (bits : Bytes) (idx : ℕ)
    → IsRoom n bits
    → idx < n
    → Returns (set_bit bits idx) (Grows bits)
unfolding set_bit test_bit
set_bit-Grows n bits idx v h = elim (Option-cases (get_elem? bits (idx / 8))) [
  | inl e ↦ absurd (omega (arith, v.room, get_elem?-none→le bits (idx / 8) e))
  | inr (b, e) ↦
      rw (e, set_bit)
        (λ j p. elim (Bool-cases (idx / 8 == j / 8)) [
          | inl same ↦
              let at : idx / 8 ≡ j / 8 = (==_iff _ _).0 same in
              let old : test_bit bits j ≡ ok (has_bit b (j % 8)) = rw (← at, e, test_bit) in
              rw
                (
                  ← at,
                  get_elem?-set_self bits (idx / 8) (bit_or b (2 ^ (idx % 8)))
                      (omega (arith, v.room)),
                  test_bit,
                )
                (ap ok (
                  has_bit-bit_or b (j % 8) (idx % 8)
                    (All-get_elem? IsByte bits (idx / 8) b v.are_bytes e) (omega arith)
                    (omega arith) (ok-injective (sym old ∙ p))))
          | inr differ ↦
              rw
                (
                  get_elem?-set_ne bits (idx / 8) (j / 8) (bit_or b (2 ^ (idx % 8)))
                      (λ q. cc ((==_iff _ _).1 q)),
                  test_bit,
                )
                p
        ])
]

module _ (r i : ℕ) (h : ℕ × ℕ) (n : ℕ) (bits : Bytes) where
  may_contain_step :
      (idx : ℕ)
      → probe n h i ≡ ok idx
      → test_bit bits idx ≡ ok true
      → may_contain_loop r (i + 1) h n bits ≡ ok true
      → may_contain_loop (suc r) i h n bits ≡ ok true
  unfolding may_contain_loop
  may_contain_step idx e1 e2 e3 = rw (e1, e2) e3

  may_contain_inv :
      may_contain_loop (suc r) i h n bits ≡ ok true
      → (idx : ℕ) × (probe n h i ≡ ok idx)
        × (test_bit bits idx ≡ ok true)
        × (may_contain_loop r (i + 1) h n bits ≡ ok true)
  unfolding may_contain_loop
  may_contain_inv e =
      let (idx, e1, e2) = >>=-eq-ok (probe n h i) _ e in
      let (b, e3, e4) = >>=-eq-ok (test_bit bits idx) _ e2 in go idx b e1 e3 e4
    where
      go :
          (idx : ℕ) (b : Bool)
          → probe n h i ≡ ok idx
          → test_bit bits idx ≡ ok b
          → (elim b [ true ↦ may_contain_loop r (i + 1) h n bits | false ↦ ok false ]) ≡ ok true
          → (idx : ℕ) × (probe n h i ≡ ok idx)
            × (test_bit bits idx ≡ ok true)
            × (may_contain_loop r (i + 1) h n bits ≡ ok true)
      go idx true e1 e3 e4 = (idx, e1, e3, e4)
      go idx false e1 e3 e4 = cc

may_contain_loop-Grows :
    (r i : ℕ) (h : ℕ × ℕ) (n : ℕ) (bits bits' : Bytes)
    → Grows bits bits'
    → may_contain_loop r i h n bits ≡ ok true
    → may_contain_loop r i h n bits' ≡ ok true
may_contain_loop-Grows zero i h n bits bits' g e = unfold may_contain_loop in refl
may_contain_loop-Grows (suc r) i h n bits bits' g e =
    let (idx, e1, e2, e3) = may_contain_inv r i h n bits e in
    may_contain_step r i h n bits' idx e1 (g idx e2)
      (may_contain_loop-Grows r (i + 1) h n bits bits' g e3)

-- After the loop of `Add` from an array `bits`, nothing is lost and the key's own bits are set.
record Added (r i : ℕ) (h : ℕ × ℕ) (n : ℕ) (bits bits' : Bytes) : Type 0 where
  grows : Grows bits bits'
  present : may_contain_loop r i h n bits' ≡ ok true

add_loop-Added :
    (r i : ℕ) (h : ℕ × ℕ) (n : ℕ) (bits : Bytes)
    → IsRoom n bits
    → Returns (add_loop r i h n bits) (Added r i h n bits)
unfolding add_loop
add_loop-Added zero i h n bits v = record {
  grows = λ j p. p;
  present = unfold may_contain_loop in refl;
}
add_loop-Added (suc r) i h n bits v =
    Returns-both (λ idx. idx < n) _ (probe n h i) _ (probe-Returns n h i v.some_bits)
      λ idx e1 lt.
        Returns-both (IsRoom n) _ (set_bit bits idx) _ (set_bit-Returns n bits idx v lt)
          λ bits1 e2 v1.
            Returns-imp (Added r (i + 1) h n bits1) _ (add_loop r (i + 1) h n bits1)
              (add_loop-Added r (i + 1) h n bits1 v1)
              λ bits2 a. record {
                grows =
                    λ j p. a.grows j (Returns-at _ bits1 e2 (set_bit-Grows n bits idx v lt) j p);
                present =
                    may_contain_step r i h n bits2 idx e1
                      (a.grows idx (Returns-at _ bits1 e2 (set_bit-sets n bits idx v lt)))
                      a.present;
              }

-- What one call of `Add` makes of a filter.
record AddedKey (f : Filter) (k : Bytes) (f' : Filter) : Type 0 where
  extends : Extends f f'
  keeps : (j : Bytes) → may_contain f j ≡ ok true → may_contain f' j ≡ ok true
  present : may_contain f' k ≡ ok true

add-AddedKey : (f : Filter) (k : Bytes) → IsValid f → Returns (add f k) (AddedKey f k)
unfolding add may_contain
add-AddedKey f k v =
    Returns-both (IsRoom f.num_bits) _ (add_loop f.num_hash 0 (hashes k) f.num_bits f.bits) _
      (add_loop-Returns f.num_hash 0 (hashes k) f.num_bits f.bits v)
      λ bits e v'.
        let a =
          Returns-at (Added f.num_hash 0 (hashes k) f.num_bits f.bits) bits e
            (add_loop-Added f.num_hash 0 (hashes k) f.num_bits f.bits v) in
        record {
          extends = record { valid = v'; same_bits = refl; same_hash = refl };
          keeps = λ j p.
              may_contain_loop-Grows f.num_hash 0 (hashes j) f.num_bits f.bits bits a.grows p;
          present = a.present;
        }

-- A filter `f'` that came of `f` by adding keys, and answers true on each and on all that `f` did.
pub record Covers (f : Filter) (ks : List Bytes) (f' : Filter) : Type 0 where
  pub extends : Extends f f'
  pub keeps : (j : Bytes) → may_contain f j ≡ ok true → may_contain f' j ≡ ok true
  pub holds : (k : Bytes) → Mem k ks → may_contain f' k ≡ ok true

Result-set : (r : Result Bool) → IsProp (r ≡ ok true)
Result-set r = hlevel

pub add_all-Covers :
    (f : Filter) (ks : List Bytes) → IsValid f → Returns (add_all f ks) (Covers f ks)
unfolding add_all
add_all-Covers f [] v = record {
  extends = record { valid = v; same_bits = refl; same_hash = refl };
  keeps = λ j p. p;
  holds = λ k m. absurd (not-mem-nil m);
}
add_all-Covers f (k ∷ ks) v = Returns-bind (AddedKey f k) _ (add f k) _ (add-AddedKey f k v) λ f1 x.
    Returns-imp (Covers f1 ks) (Covers f (k ∷ ks)) (add_all f1 ks)
      (add_all-Covers f1 ks x.extends.valid)
      λ f2 y. record {
        extends = record {
          valid = y.extends.valid;
          same_bits = y.extends.same_bits ∙ x.extends.same_bits;
          same_hash = y.extends.same_hash ∙ x.extends.same_hash;
        };
        keeps = λ j p. y.keeps j (x.keeps j p);
        holds = λ j m.
            Or.elim (Result-set (may_contain f2 j)) (mem-cons.0 m)
              (λ e. y.keeps j (subst (λ z. may_contain f1 z ≡ ok true) (sym e) x.present))
              (λ m'. y.holds j m');
      }

-- From a valid filter, adding any list of keys never panics, and `MayContain` then answers true on each
-- of them: there are no false negatives.
pub add_all-present :
    (f : Filter) (ks : List Bytes)
    → IsValid f
    → (k : Bytes) → Mem k ks
    → (add_all f ks >>= λ f'. may_contain f' k) ≡ ok true
add_all-present f ks v k m =
    let (f', e, c) = Returns→ok (Covers f ks) (add_all f ks) (add_all-Covers f ks v) in
    rw e (c.holds k m)

-- A key on which a valid filter answered true is still answered so after other keys were added.
pub add_all-keeps :
    (f : Filter) (ks : List Bytes)
    → IsValid f
    → (j : Bytes) → may_contain f j ≡ ok true
    → (add_all f ks >>= λ f'. may_contain f' j) ≡ ok true
add_all-keeps f ks v j p =
    let (f', e, c) = Returns→ok (Covers f ks) (add_all f ks) (add_all-Covers f ks v) in
    rw e (c.keeps j p)

-- On a valid filter `MayContain` answers, without a panic.
pub may_contain-Returns :
    (f : Filter) (k : Bytes) → IsValid f → Returns (may_contain f k) (λ _. Unit {0})
unfolding may_contain
may_contain-Returns f k v = may_contain_loop-Returns f.num_hash 0 (hashes k) f.num_bits f.bits v
