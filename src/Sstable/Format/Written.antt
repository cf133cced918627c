-- ===== src/Sstable/Format/Written.antt =====
-- Which records `Write` takes, and which it refuses.
use flume.Common.{
  ℕ, ◌+◌, ◌^◌, ◌<◌, ◌≡◌, refl, sym, ap, ◌∙◌, Bool, true, false, List, [], ◌∷◌, ◌++◌, Option, none,
  some, length, All, Result, ok, err, ◌>>=◌, Bool-cases, inl, inr, unsorted, Returns→ok,
}
use flume.Bloom.{Filter, Sizing, new_for_entries, add}
use flume.Bloom.Valid.{IsValid, Extends, add-Returns, new_for_entries-IsValid}
use flume.Sstable.{Record, is_sorted, sorted_from}
use flume.Sstable.Format.{Flate, Output, write, write_records, follows, offset_of, Nils}
use flume.Sstable.Format.Layout.{
  HasKey, previous_keyed, in_order, in_order-step, in_order-some, in_order-none, record_bytes,
}

-- Success, or the error that names a record out of order.
abbrev pub taken {ℓ} : {A : Type ℓ} → Result A → Option Bool
taken (ok a) = some true
taken (err (unsorted n)) = some false
taken (err e) = none

taken-then : {A B : Type 0} (m : Result A) (f : A → B) → taken (m >>= λ a. ok (f a)) ≡ taken m
taken-then (err x) f = refl
taken-then (ok a) f = refl

module _ (z : Flate) (compress : Bool) (nils : Nils) where
  abbrev next_output : Record → Output → Filter → Output
  next_output r out f = record {
    bytes = out.bytes ++ record_bytes z compress r;
    index = out.index ++ record { key = r.key; offset = offset_of out.bytes } ∷ [];
    filter = f;
  }

  write_records-step :
      (prev : Option Record) (n : ℕ) (r : Record) (rs : List Record) (out : Output) (f : Filter)
      → follows prev r ≡ true
      → add out.filter r.key ≡ ok f
      → HasKey r
      → write_records z compress nils prev n (r ∷ rs) out
        ≡ write_records z compress nils (some r) (n + 1) rs (next_output r out f)
  unfolding write_records
  write_records-step prev n r rs out f g e k =
      rw (g, write_records)
        (rw e (
          ap (λ p. write_records z compress nils p (n + 1) rs (next_output r out f))
            (previous_keyed nils n r k)))

  write_records-refuses :
      (prev : Option Record) (n : ℕ) (r : Record) (rs : List Record) (out : Output)
      → follows prev r ≡ false
      → write_records z compress nils prev n (r ∷ rs) out ≡ err (unsorted n)
  unfolding write_records
  write_records-refuses prev n r rs out g = rw (g, write_records) refl

  taken-write_records :
      (prev : Option Record) (n : ℕ) (rs : List Record) (out : Output)
      → IsValid out.filter
      → All HasKey rs
      → taken (write_records z compress nils prev n rs out) ≡ some (in_order prev rs)
  taken-write_records none n [] out v k = unfold write_records in_order is_sorted in refl
  taken-write_records (some p) n [] out v k = unfold write_records in_order sorted_from in refl
  taken-write_records prev n (r ∷ rs) out v k = elim (Bool-cases (follows prev r)) [
    | inl g ↦
        let (f, e, x) =
          Returns→ok (Extends out.filter) (add out.filter r.key) (add-Returns out.filter r.key v) in
        ap taken (write_records-step prev n r rs out f g e k.0)
        ∙ taken-write_records (some r) (n + 1) rs (next_output r out f) x.valid k.1
        ∙ ap some (sym (in_order-step prev r rs ∙ rw g (in_order-some r rs)))
    | inr g ↦
        ap taken (write_records-refuses prev n r rs out g)
        ∙ ap some (sym (in_order-step prev r rs ∙ rw g refl))
  ]

module _ (z : Flate) (sizing : Sizing) (nils : Nils) (compress : Bool) (r : Record)
    (rs : List Record) where
  -- With keys that are not empty and a filter of any size that fits, `Write` takes a list of records
  -- exactly if it is sorted by key and, within a key, by sequence number from the highest, with no
  -- version twice; it refuses every other such list with the error that says so, and does not panic.
  pub write-taken :
      (new_for_entries sizing (length (r ∷ rs)) sizing.one_percent).num_bits + 7 < 2 ^ 32
      → All HasKey (r ∷ rs)
      → taken (write z sizing nils (r ∷ rs) compress) ≡ some (is_sorted (r ∷ rs))
  unfolding write
  write-taken h k =
      taken-then (write_records z compress nils none 0 (r ∷ rs) _) _
      ∙ taken-write_records z compress nils none 0 (r ∷ rs) _
          (new_for_entries-IsValid sizing (length (r ∷ rs)) sizing.one_percent h) k
      ∙ ap some (sym (in_order-none (r ∷ rs)))
