-- ===== src/Sstable/Table/Get.antt =====
-- `Get` on a table whose file, index and filter belong to a list of records.
use flume.Common.{
  ℕ, ◌<◌, ◌≡◌, ◌≢◌, refl, sym, ap, ◌∙◌, subst, arith, Bool, true, false, ◌&&◌, not, List, [], ◌∷◌,
  map, none, ◌==◌, length, drop, All, ok, Bool-cases, inl, inr, Returns, Returns→ok,
}
use flume.Common.Perm.{All-imp}
use mathlib.Core.List.{Mem, mem-cons}
use mathlib.Core.Logic.Or
use flume.Bytes.{Bytes, bytes_compare, KeyLt, is_ge, is_le}
use flume.Bytes.Order.{compare_cases, KeyLt-trans}
use flume.Bloom.{may_contain}
use flume.Sstable.{Record, newest}
use flume.Sstable.Order.{KeyLe, KeyLt-irrefl, KeyLe-trans}
use flume.Sstable.Versions.{newest-other}
use flume.Sstable.Merge.Retain.{Ascending}
use flume.Sstable.Format.{Flate, IndexEntry}
use flume.Sstable.Table.{Table, get_loop, get, may_contain_range, first_key, last_key}
use flume.Sstable.Table.Search.{search-lower, Ordered}
use flume.Sstable.Table.Lookup.{Holds, Holds-Ordered, get_loop-lower, newest-before, later_all}

-- What `Open` has made of a file that `Write` made of `rs`.
pub record IsTableOf (z : Flate) (rs : List Record) (t : Table) : Type 0 where
  pub holds : Holds z t.file t.index rs
  pub order : Ascending rs
  pub keyed : All (λ r. 0 < length r.key) rs
  pub min_is : t.min_key ≡ first_key t.index
  pub max_is : t.max_key ≡ last_key t.index
  pub hits : (k : Bytes) → Mem k (map (λ r. r.key) rs) → may_contain t.filter k ≡ ok true
  pub answers : (k : Bytes) → Returns (may_contain t.filter k) (λ _. Unit {0})
  pub entries_is : t.num_entries ≡ length rs

module _ (z : Flate) (file : Bytes) where
  all_from_last :
      (e : IndexEntry) (es : List IndexEntry)
      → Ordered (e ∷ es)
      → All (λ x. KeyLe x.key (last_key (e ∷ es))) (e ∷ es)
  unfolding last_key
  all_from_last e [] o = (inr refl, tt)
  all_from_last e (f ∷ es) o =
      let rest = all_from_last f es o.1 in
      (KeyLe-trans e.key f.key (last_key (f ∷ es)) o.0.0 rest.0, rest)

  keys_before :
      (m : Bytes) (es : List IndexEntry) (rs : List Record)
      → Holds z file es rs
      → All (λ x. KeyLe x.key m) es
      → All (λ r. KeyLe r.key m) rs
  keys_before m [] [] h l = tt
  keys_before m [] (r ∷ rs) h l = absurd h
  keys_before m (e ∷ es) [] h l = absurd h
  keys_before m (e ∷ es) (r ∷ rs) h l =
      (subst (λ x. KeyLe x m) h.0 l.0, keys_before m es rs h.2 l.1)

  module _ (k : Bytes) (s : ℕ) where
    newest-after :
        (m : Bytes) (rs : List Record)
        → KeyLt m k
        → All (λ r. KeyLe r.key m) rs
        → newest k s rs ≡ none
    newest-after m rs p l = newest-other k s rs (
        All-imp (λ r. KeyLe r.key m) (λ r. r.key ≢ k) rs
          (λ r q e. KeyLt-irrefl m (elim q [
            | inl t ↦ KeyLt-trans m k m p (subst (λ x. KeyLt x m) e t)
            | inr t ↦ subst (KeyLt m) (sym e ∙ t) p
          ]))
          l)

    -- The key range rules out only keys that have no version.
    out_of_range :
        (es : List IndexEntry) (rs : List Record)
        → Holds z file es rs
        → Ascending rs
        → All (λ r. 0 < length r.key) rs
        → (not (length (first_key es) == 0)
            && is_ge (bytes_compare k (first_key es))
            && is_le (bytes_compare k (last_key es)))
          ≡ false
        → newest k s rs ≡ none
    unfolding first_key
    out_of_range [] [] h a p q = unfold newest in refl
    out_of_range [] (r ∷ rs) h a p q = absurd h
    out_of_range (e ∷ es) [] h a p q = absurd h
    out_of_range (e ∷ es) (r ∷ rs) h a p q =
        let long : 0 < length e.key = subst (λ x. 0 < length x) (sym h.0) p.0 in
        elim (compare_cases k e.key) [
          | inl c ↦ newest-before k s (r ∷ rs) (later_all k r rs (subst (KeyLt k) h.0 c) a)
          | inr c ↦ elim (compare_cases k (last_key (e ∷ es))) [
            | inr (inr d) ↦ newest-after (last_key (e ∷ es)) (r ∷ rs) d.1 (
                keys_before (last_key (e ∷ es)) (e ∷ es) (r ∷ rs) h
                  (all_from_last e es (Holds-Ordered z file (e ∷ es) (r ∷ rs) h a)))
            | inl d ↦ ground (arith, long)
            | inr (inl d) ↦ ground (arith, long)
          ]
        ]

module _ (z : Flate) (k : Bytes) (s : ℕ) where
  missing :
      (rs : List Record)
      → ((r : Record) → r.key ≡ k → Mem k (map (λ r. r.key) rs) → ⊥)
      → All (λ r. r.key ≢ k) rs
  missing [] f = tt
  missing (r ∷ rs) f = (
    λ e. f r e (mem-cons.1 (Or.inl (sym e))),
    missing rs (λ x e m. f x e (mem-cons.1 (Or.inr m))),
  )

  -- The value of `Get`, once the filter has answered.
  get-answered :
      (t : Table) (rs : List Record) (b : Bool)
      → IsTableOf z rs t
      → may_contain_range t k ≡ true
      → may_contain t.filter k ≡ ok b
      → get z t k s ≡ ok (newest k s rs)
  unfolding get
  get-answered t rs true i r e =
      rw (r, get)
        (rw e (
          ap (λ n. get_loop z t.file k s (drop n t.index))
            (search-lower k t.index (Holds-Ordered z t.file t.index rs i.holds i.order))
          ∙ get_loop-lower z t.file k s t.index rs i.holds i.order))
  get-answered t rs false i r e =
      rw (r, get) (rw e (ap ok (sym (newest-other k s rs (missing rs λ x q m. cc (i.hits k m))))))

  unranged : (t : Table) → may_contain_range t k ≡ false → get z t k s ≡ ok none
  unfolding get
  unranged t r = rw (r, get) refl

  range_is :
      (t : Table) (rs : List Record)
      → IsTableOf z rs t
      → (not (length (first_key t.index) == 0)
          && is_ge (bytes_compare k (first_key t.index))
          && is_le (bytes_compare k (last_key t.index)))
        ≡ may_contain_range t k
  unfolding may_contain_range
  range_is t rs i = sym (
      ap
        (λ m. not (length m == 0) && is_ge (bytes_compare k m) && is_le (bytes_compare k t.max_key))
        i.min_is
      ∙ ap
          (λ m.
            not (length (first_key t.index) == 0)
            && is_ge (bytes_compare k (first_key t.index))
            && is_le (bytes_compare k m))
          i.max_is)

  -- `Get` answers with the newest version of the key that the reader may see.
  pub get-newest :
      (t : Table) (rs : List Record) → IsTableOf z rs t → get z t k s ≡ ok (newest k s rs)
  get-newest t rs i = elim (Bool-cases (may_contain_range t k)) [
    | inl r ↦
        let (b, e, _) = Returns→ok (λ _. Unit {0}) (may_contain t.filter k) (i.answers k) in
        get-answered t rs b i r e
    | inr r ↦
        unranged t r
        ∙ ap ok (
            sym
              (out_of_range z t.file k s t.index rs i.holds i.order i.keyed (range_is t rs i ∙ r)))
  ]
