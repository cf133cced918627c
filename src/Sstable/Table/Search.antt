-- ===== src/Sstable/Table/Search.antt =====
-- `sort.Search` over the index finds the first entry whose key is not before the one searched for.
use flume.Common.{
  ℕ, zero, suc, ◌+◌, ◌/◌, ◌-◌, ◌≤◌, ◌≡◌, refl, sym, ◌∙◌, arith, Bool, true, false, List, [], ◌∷◌,
  ltb, leb, length, All, Bool-cases, inl, inr,
}
use flume.Bytes.{Bytes, bytes_compare, is_lt}
use flume.Bytes.Order.{KeyLt-trans, compare_cases}
use flume.Sstable.Format.{IndexEntry}
use flume.Sstable.Table.{search_loop, search, key_at_least}
use flume.Sstable.Order.{KeyLe}

-- The number of leading entries whose key is before `key`: what a linear search would pass over.
unfoldable pub lower : Bytes → List IndexEntry → ℕ
lower key [] = 0
lower key (e ∷ es) = elim (is_lt (bytes_compare e.key key)) [
  | true ↦ suc (lower key es)
  | false ↦ 0
]

-- The keys of the index do not descend.
abbrev pub Ordered : List IndexEntry → Type 0
Ordered [] = Unit
Ordered (e ∷ es) = All (λ f. KeyLe e.key f.key) es × Ordered es

module _ (f : ℕ → Bool) (c : ℕ) (is_cut : (h : ℕ) → f h ≡ leb c h) where
  -- The invariant of the loop: the cut lies between `i` and `j`.
  search_loop-cut : (n i j : ℕ) → i ≤ c → c ≤ j → j - i ≤ n → search_loop n f i j ≡ c
  unfolding search_loop
  search_loop-cut zero i j p q r = omega arith
  search_loop-cut (suc n) i j p q r = elim (Bool-cases (ltb i j)) [
    | inl lt ↦ elim (Bool-cases (f ((i + j) / 2))) [
      | inl up ↦
          let at_cut = sym (is_cut ((i + j) / 2)) ∙ up in
          rw (lt, search_loop)
            (rw up (search_loop-cut n i ((i + j) / 2) p (ground arith) (ground arith)))
      | inr down ↦
          let at_cut = sym (is_cut ((i + j) / 2)) ∙ down in
          rw (lt, search_loop)
            (rw down (search_loop-cut n ((i + j) / 2 + 1) j (ground arith) q (ground arith)))
    ]
    | inr ge ↦ rw (ge, search_loop) (ground arith)
  ]

  search-cut : (n : ℕ) → c ≤ n → search n f ≡ c
  unfolding search
  search-cut n h = search_loop-cut n 0 n (omega arith) h (omega arith)

pub lower-le : (key : Bytes) (es : List IndexEntry) → lower key es ≤ length es
unfolding lower
lower-le key [] = omega arith
lower-le key (e ∷ es) = ground (arith, lower-le key es)

-- No later key is before one that is not.
lower-zero :
    (key : Bytes) (a : Bytes) (es : List IndexEntry)
    → All (λ f. KeyLe a f.key) es
    → is_lt (bytes_compare a key) ≡ false
    → (i : ℕ) → key_at_least es key i ≡ true
unfolding key_at_least
lower-zero key a [] h e i = refl
lower-zero key a (x ∷ es) h e zero = elim (compare_cases x.key key) [
  | inl p ↦ elim h.0 [
    | inl q ↦ cc (rw (KeyLt-trans a x.key key q p) at e)
    | inr q ↦ cc (rw (q, p) at e)
  ]
  | inr (inl (p, q)) ↦ rw p refl
  | inr (inr (p, q)) ↦ rw p refl
]
lower-zero key a (x ∷ es) h e (suc i) = lower-zero key a es h.1 e i

key_at_least-lower :
    (key : Bytes) (es : List IndexEntry)
    → Ordered es
    → (i : ℕ) → key_at_least es key i ≡ leb (lower key es) i
unfolding key_at_least lower
key_at_least-lower key [] o i = ground arith
key_at_least-lower key (e ∷ es) o zero = elim (compare_cases e.key key) [
  | inl p ↦ rw p (ground arith)
  | inr (inl (p, q)) ↦ rw p (ground arith)
  | inr (inr (p, q)) ↦ rw p (ground arith)
]
key_at_least-lower key (e ∷ es) o (suc i) = elim (Bool-cases (is_lt (bytes_compare e.key key))) [
  | inl p ↦ rw (p, lower) (key_at_least-lower key es o.1 i ∙ ground arith)
  | inr p ↦ rw (p, lower) (lower-zero key e.key es o.0 p i ∙ ground arith)
]

-- On an index in key order, `sort.Search` ends, and finds the place that a search from the front finds.
pub search-lower :
    (key : Bytes) (es : List IndexEntry)
    → Ordered es
    → search (length es) (key_at_least es key) ≡ lower key es
search-lower key es o =
    search-cut (key_at_least es key) (lower key es) (key_at_least-lower key es o) (length es)
      (lower-le key es)
