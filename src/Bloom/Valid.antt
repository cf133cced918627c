-- ===== src/Bloom/Valid.antt =====
-- Filters on which no operation panics, and that every operation keeps such.
use flume.Common.{
  ℕ, zero, suc, ◌+◌, ◌*◌, ◌/◌, ◌%◌, ◌^◌, ◌≤◌, ◌<◌, ◌≡◌, refl, arith, true, false, List, [], ◌∷◌,
  length, length-set, length-replicate, All, All-set, All-get_elem?, All-replicate, get_elem?,
  get_elem?-none→le, Option-cases, inl, inr, bit_or,
}
use flume.Bytes.{Bytes, IsByte}
use flume.Bloom.{
  Filter, Sizing, new_for_entries, num_bytes, probe, set_bit, test_bit, add_loop, add,
  may_contain_loop, hashes, add_all,
}
use flume.Common.{Returns, Returns-bind, Returns-imp, ◌∙◌}
use flume.Bloom.Bits.{bit_or-IsByte}

-- The bit array has room for every index below `num_bits`.
pub record IsRoom (num_bits : ℕ) (bits : Bytes) : Type 0 where
  pub some_bits : 0 < num_bits
  pub room : num_bits ≤ 8 * length bits
  pub are_bytes : All IsByte bits

abbrev pub IsValid : Filter → Type 0
IsValid f = IsRoom f.num_bits f.bits

pub probe-Returns : (n : ℕ) (h : ℕ × ℕ) (i : ℕ) → 0 < n → Returns (probe n h i) (λ idx. idx < n)
unfolding probe
probe-Returns n h i p = ground arith

pub set_bit-Returns :
    (n : ℕ) (bits : Bytes) (idx : ℕ)
    → IsRoom n bits
    → idx < n
    → Returns (set_bit bits idx) (IsRoom n)
unfolding set_bit
set_bit-Returns n bits idx v h = elim (Option-cases (get_elem? bits (idx / 8))) [
  | inl e ↦ absurd (omega (arith, v.room, get_elem?-none→le bits (idx / 8) e))
  | inr (b, e) ↦
      rw (e, set_bit)
        (record {
          some_bits = v.some_bits;
          room = omega (arith, v.room, length-set bits (idx / 8) (bit_or b (2 ^ (idx % 8))));
          are_bytes = All-set IsByte bits (idx / 8) _ v.are_bytes (
              bit_or-IsByte b (idx % 8) (All-get_elem? IsByte bits (idx / 8) b v.are_bytes e)
                (omega arith));
        })
]

pub test_bit-Returns :
    (n : ℕ) (bits : Bytes) (idx : ℕ)
    → IsRoom n bits
    → idx < n
    → Returns (test_bit bits idx) (λ _. Unit {0})
unfolding test_bit
test_bit-Returns n bits idx v h = elim (Option-cases (get_elem? bits (idx / 8))) [
  | inl e ↦ absurd (omega (arith, v.room, get_elem?-none→le bits (idx / 8) e))
  | inr (b, e) ↦ rw (e, test_bit) tt
]

pub add_loop-Returns :
    (r i : ℕ) (h : ℕ × ℕ) (n : ℕ) (bits : Bytes)
    → IsRoom n bits
    → Returns (add_loop r i h n bits) (IsRoom n)
unfolding add_loop
add_loop-Returns zero i h n bits v = v
add_loop-Returns (suc r) i h n bits v =
    Returns-bind (λ idx. idx < n) _ (probe n h i) _ (probe-Returns n h i v.some_bits)
      λ idx lt.
        Returns-bind (IsRoom n) _ (set_bit bits idx) _ (set_bit-Returns n bits idx v lt)
          λ bits' v'. add_loop-Returns r (i + 1) h n bits' v'

-- What `Add` leaves of a filter `f`.
pub record Extends (f f' : Filter) : Type 0 where
  pub valid : IsValid f'
  pub same_bits : f'.num_bits ≡ f.num_bits
  pub same_hash : f'.num_hash ≡ f.num_hash

pub add-Returns : (f : Filter) (key : Bytes) → IsValid f → Returns (add f key) (Extends f)
unfolding add
add-Returns f key v =
    Returns-bind (IsRoom f.num_bits) _ (add_loop f.num_hash 0 (hashes key) f.num_bits f.bits) _
      (add_loop-Returns f.num_hash 0 (hashes key) f.num_bits f.bits v)
      λ bits v'. record { valid = v'; same_bits = refl; same_hash = refl }

pub may_contain_loop-Returns :
    (r i : ℕ) (h : ℕ × ℕ) (n : ℕ) (bits : Bytes)
    → IsRoom n bits
    → Returns (may_contain_loop r i h n bits) (λ _. Unit {0})
unfolding may_contain_loop
may_contain_loop-Returns zero i h n bits v = tt
may_contain_loop-Returns (suc r) i h n bits v =
    Returns-bind (λ idx. idx < n) _ (probe n h i) _ (probe-Returns n h i v.some_bits)
      λ idx lt.
        Returns-bind (λ _. Unit {0}) _ (test_bit bits idx) _ (test_bit-Returns n bits idx v lt)
          (elim [ true ↦ λ _. may_contain_loop-Returns r (i + 1) h n bits v | false ↦ λ _. tt ])

pub add_all-Returns :
    (f : Filter) (ks : List Bytes) → IsValid f → Returns (add_all f ks) (Extends f)
unfolding add_all
add_all-Returns f [] v = record { valid = v; same_bits = refl; same_hash = refl }
add_all-Returns f (k ∷ ks) v = Returns-bind (Extends f) _ (add f k) _ (add-Returns f k v) λ f1 x.
    Returns-imp (Extends f1) (Extends f) (add_all f1 ks) (add_all-Returns f1 ks x.valid) λ f2 y.
      record {
        valid = y.valid;
        same_bits = y.same_bits ∙ x.same_bits;
        same_hash = y.same_hash ∙ x.same_hash;
      }

-- A filter that `NewForEntries` makes is valid, whatever the formulas give.
pub new_for_entries-IsValid :
    (z : Sizing) (n : ℕ) (fp : z.Float)
    → (new_for_entries z n fp).num_bits + 7 < 2 ^ 32
    → IsValid (new_for_entries z n fp)
unfolding new_for_entries
new_for_entries-IsValid z n fp small = record {
  some_bits = ground arith;
  room = omega (arith, length-replicate (num_bytes (new_for_entries z n fp).num_bits) (zero));
  are_bytes = All-replicate IsByte _ 0 (omega arith);
}
