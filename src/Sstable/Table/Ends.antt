-- ===== src/Sstable/Table/Ends.antt =====
-- `Open` ends on every file, whatever its bytes are.
use flume.Common.{
  ℕ, zero, suc, ◌+◌, ◌*◌, ◌^◌, ◌%◌, ◌-◌, ◌≤◌, ◌≡◌, ◌≢◌, refl, arith, Bool, true, false, ◌&&◌, not,
  leb, ltb, ◌==◌, length, take, drop, slice, length-drop, Error, Result, ok, err, stuck, guard,
  ◌>>=◌, ◌>>◌, truncated_index, Bool-cases, inl, inr, too_small, bad_magic, bad_offsets, panicked,
}
use flume.Bytes.{Bytes, get_le}
use flume.Bloom.{decode, num_bytes}
use flume.Sstable.Format.{magic_number}
use flume.Sstable.Table.{open_table, read_at, read_block, parse_index}

-- The loops of a call have ended: with a value, or with an error of the program.
abbrev Ends {ℓ} : {A : Type ℓ} → Result A → Type 0
Ends (ok a) = Unit
Ends (err e) = e ≢ stuck

module _ {ℓ κ} {A : Type ℓ} {B : Type κ} where
  Ends-bind : (m : Result A) (f : A → Result B) → Ends m → ((a : A) → Ends (f a)) → Ends (m >>= f)
  Ends-bind (ok a) f h k = k a
  Ends-bind (err e) f h k = h

  -- A chain that is stuck is stuck behind a part that has ended.
  unbind :
      (m : Result A) (f : A → Result B)
      → Ends m
      → (m >>= f) ≡ err stuck
      → (a : A) × (f a ≡ err stuck)
  unbind (ok a) f h e = (a, e)
  unbind (err x) f h e = absurd (h (err_is x e))
    where
      err_is : (y : Error) → Path (Result B) (err y) (err stuck) → y ≡ stuck
      err_is y p = cc

err-injective : {A : Type 0} (y z : Error) → Path (Result A) (err y) (err z) → y ≡ z
err-injective y z p = cc

ok-ne : {A : Type 0} (a : A) → Path (Result A) (ok a) (err stuck) → ⊥
ok-ne a p = cc

unguard :
    {A : Type 0} (test : Bool) (x : Error) (r : Result A)
    → x ≢ stuck
    → (guard test x >> r) ≡ err stuck
    → r ≡ err stuck
unguard true x r n e = e
unguard false x r n e = absurd (n (err-injective x stuck e))

Ends-guard :
    {A : Type 0} (test : Bool) (e : Error) (r : Result A)
    → e ≢ stuck
    → (test ≡ true → Ends r)
    → Ends (guard test e >> r)
Ends-guard true e r n k = k refl
Ends-guard false e r n k = n

read_at-Ends : (file : Bytes) (off n : ℕ) → Ends (read_at file off n)
unfolding read_at
read_at-Ends file off n = elim (Bool-cases (leb (off + n) (length file))) [
  | inl e ↦ rw e tt
  | inr e ↦ rw e λ p. cc
]

read_block-Ends : (file : Bytes) (off n : ℕ) → Ends (read_block file off n)
unfolding read_block
read_block-Ends file off n =
    Ends-guard (leb n (2 ^ 48)) panicked _ (λ p. cc)
      λ _. elim (Bool-cases (n == 0)) [ inl e ↦ rw e tt | inr e ↦ rw e (read_at-Ends file off n) ]

decode-Ends : (buf : Bytes) → Ends (decode buf)
unfolding decode
decode-Ends buf = elim (Bool-cases (ltb (length buf) 8)) [
  | inl e ↦ rw (e, decode) λ p. cc
  | inr e ↦ elim (Bool-cases (not (length buf - 8 == num_bytes (get_le (take 4 buf))))) [
    | inl f ↦ rw (e, decode) (rw f λ p. cc)
    | inr f ↦ rw (e, decode) (rw f tt)
  ]
]

-- Each round of the loop takes twelve bytes at least, so as many rounds as there are bytes suffice.
parse_index-Ends : (n : ℕ) (buf : Bytes) → length buf ≤ n → Ends (parse_index n buf)
unfolding parse_index
parse_index-Ends zero buf h =
    let e : (length buf == 0) ≡ true = ground arith in rw (e, parse_index) tt
parse_index-Ends (suc n) buf h = elim (Bool-cases (length buf == 0)) [
  | inl e ↦ rw (e, parse_index) tt
  | inr e ↦
      rw (e, parse_index)
        (Ends-guard (leb 4 (length buf)) truncated_index _ (λ p. cc)
          λ a.
            Ends-guard (leb (get_le (take 4 buf) + 8) (length (drop 4 buf))) truncated_index _
              (λ p. cc)
              λ b.
                let klen = get_le (take 4 buf) in
                Ends-bind (parse_index n (drop (klen + 8) (drop 4 buf))) _
                  (parse_index-Ends n (drop (klen + 8) (drop 4 buf))
                    (ground (arith, length-drop 4 buf, length-drop (klen + 8) (drop 4 buf))))
                  (λ es. tt))
]

-- On every file, also one that `Write` did not make, the loop of `Open` over the index block ends, within
-- as many rounds as the block has bytes.
pub open_table-ne-stuck : (file : Bytes) → open_table file ≢ err stuck
unfolding open_table
open_table-ne-stuck file e =
    let e1 = unguard (leb 44 (length file)) too_small _ (λ p. cc) e in
    let (footer, e2) = unbind (read_at file (length file - 44) 44) _ (read_at-Ends file _ _) e1 in
    let e3 = unguard (get_le (slice 40 4 footer) == magic_number) bad_magic _ (λ p. cc) e2 in
    let index_offset = get_le (slice 0 8 footer) in
    let index_len = get_le (slice 8 8 footer) in
    let bloom_offset = get_le (slice 16 8 footer) in
    let bloom_len = get_le (slice 24 8 footer) in
    let e4 =
      unguard
        (leb ((index_offset + index_len) % 2 ^ 64) (length file)
          && leb ((bloom_offset + bloom_len) % 2 ^ 64) (length file))
        bad_offsets _ (λ p. cc) e3 in
    let (index_buf, e5) =
      unbind (read_block file index_offset index_len) _ (read_block-Ends file _ _) e4 in
    let e6 = unguard (leb (get_le (slice 32 8 footer) * 32) (2 ^ 48)) panicked _ (λ p. cc) e5 in
    let (index, e7) =
      unbind (parse_index (length index_buf) index_buf) _
        (parse_index-Ends (length index_buf) index_buf (omega arith)) e6 in
    let (bloom_buf, e8) =
      unbind (read_block file bloom_offset bloom_len) _ (read_block-Ends file _ _) e7 in
    let (filter, e9) = unbind (decode bloom_buf) _ (decode-Ends bloom_buf) e8 in ok-ne _ e9
